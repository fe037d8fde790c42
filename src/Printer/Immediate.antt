-- ===== src/Printer/Immediate.antt =====
-- The printing of immediate values in src/printer.c, with the conversions "%llx" and "%d" of `sprintf`
-- for numbers that are not negative.
use mihini.Prelude.{ℕ, zero, suc, ◌+◌, ◌-◌, ◌/◌, ◌%◌, ltb, if◌then◌else◌, List, [], ◌∷◌}
use mihini.Prelude.Ascii.{hash, digit_0, letter_a, letter_x}

unfoldable pub digit_char : ℕ → ℕ
digit_char d = if ltb d 10 then digit_0 + d else letter_a + (d - 10)

-- The digits of a number in front of a text; a number has at most as many digits as there is fuel.
unfoldable pub digits_of : ℕ → ℕ → ℕ → List ℕ → List ℕ
digits_of base zero n acc = acc
digits_of base (suc fuel) n acc =
    let rest = digits_of base fuel (n / base) (digit_char (n % base) ∷ acc) in
    if ltb n base then digit_char n ∷ acc else rest

-- 64 bits are sixteen hexadecimal digits, and twenty decimal ones.
abbrev pub hexadecimal : ℕ → List ℕ
hexadecimal n = digits_of 16 16 n []

abbrev pub decimal : ℕ → List ℕ
decimal n = digits_of 10 20 n []

unfoldable pub print_immediate_value : ℕ → List ℕ
print_immediate_value value = hash ∷ digit_0 ∷ letter_x ∷ hexadecimal value

-- `float_text` is what "%f" gives for the double that has these 64 bits.
unfoldable pub print_immediate_float_value : (ℕ → List ℕ) → ℕ → List ℕ
print_immediate_float_value float_text value = hash ∷ float_text value
