-- ===== src/Parser/Hexadecimal.antt =====
-- Printed immediate values of src/printer.c parse back in src/parser.c.
use native.Mathlib.Nat.{pow-suc}
use mihini.Prelude.{
  ℕ, zero, suc, ◌+◌, ◌*◌, ◌/◌, ◌%◌, ◌^◌, ◌<◌, ◌≤◌, ◌==◌, ◌≡◌, inl, inr, refl, ap, ◌∙◌, arith, not,
  ◌&&◌, ◌||◌, Bool, true, false, Bool-cases, List, [], ◌∷◌, All, ltb→lt, lt→ltb, all_below,
  all_below_sound, ltb, leb, length, u16,
}
use mihini.Prelude.Ascii.{letter_x, letter_upper_x, minus_sign, plus_sign}
use mihini.Printer.Immediate.{digit_char, digits_of, print_immediate_value}
use mihini.Parser.Immediate.{
  is_space, digit, digits_value, drop_spaces, drop_prefix, signed_value, strtoul, prefixed_value,
  parse_immediate_value,
}
use mihini.Parser.Registers.{Gives}

-- The characters of a hexadecimal number: digits, and no sign, space or prefix
abbrev is_hex_digit : ℕ → ℕ → Bool
is_hex_digit d c =
    (digit c == d)
    && not (is_space c)
    && not (c == minus_sign)
    && not (c == plus_sign)
    && not (c == letter_x)
    && not (c == letter_upper_x)

hex_table : all_below 16 (λ d. is_hex_digit d (digit_char d)) ≡ true
unfolding digit digit_char
hex_table = refl

record IsHex (c : ℕ) : Type 0 where
  below : digit c < 16
  no_space : is_space c ≡ false
  no_minus : (c == minus_sign) ≡ false
  no_plus : (c == plus_sign) ≡ false
  no_x : ((c == letter_x) || (c == letter_upper_x)) ≡ false

digit_is : (d c : ℕ) → is_hex_digit d c ≡ true → digit c ≡ d
digit_is d c h = ground arith

IsHex-sound : (d c : ℕ) → d < 16 → is_hex_digit d c ≡ true → (digit c ≡ d) × IsHex c
IsHex-sound d c k h = (
  digit_is d c h,
  record {
    below = omega (arith, digit_is d c h);
    no_space = ground arith;
    no_minus = ground arith;
    no_plus = ground arith;
    no_x = ground arith;
  },
)

digit_char-IsHex : (d : ℕ) → d < 16 → (digit (digit_char d) ≡ d) × IsHex (digit_char d)
digit_char-IsHex d h =
    IsHex-sound d (digit_char d) h
      (all_below_sound 16 (λ d. is_hex_digit d (digit_char d)) d hex_table h)

digits_value-digit :
    (d a : ℕ) (acc : List ℕ)
    → d < 16
    → digits_value 16 (digit_char d ∷ acc) a ≡ digits_value 16 acc (a * 16 + d)
unfolding digits_value
digits_value-digit d a acc h = rw ((digit_char-IsHex d h).0, lt→ltb d 16 h) refl

-- The digits of a number, read on from its value
digits_value-digits_of :
    (fuel n : ℕ) (acc : List ℕ)
    → n < 16 ^ fuel
    → digits_value 16 (digits_of 16 fuel n acc) 0 ≡ digits_value 16 acc n
unfolding digits_of
digits_value-digits_of zero n acc h = let none_left : n ≡ 0 = omega arith in rw none_left refl
digits_value-digits_of (suc fuel) n acc h = elim (Bool-cases (ltb n 16)) [
  | inl small ↦
      let plain : 0 * 16 + n ≡ n = omega arith in
      rw small (digits_value-digit n 0 acc (ltb→lt n 16 small) ∙ ap (digits_value 16 acc) plain)
  | inr large ↦
      let smaller : n / 16 < 16 ^ fuel = omega (arith, pow-suc 16 fuel) in
      let whole : n / 16 * 16 + n % 16 ≡ n = omega arith in
      rw large (
        digits_value-digits_of fuel (n / 16) (digit_char (n % 16) ∷ acc) smaller
        ∙ digits_value-digit (n % 16) (n / 16) acc (omega arith)
        ∙ ap (digits_value 16 acc) whole)
]

-- With fuel, the digits are in front of the text, and there is one at least.
digits_of-All : (fuel n : ℕ) (acc : List ℕ) → All IsHex acc → All IsHex (digits_of 16 fuel n acc)
unfolding digits_of
digits_of-All zero n acc h = h
digits_of-All (suc fuel) n acc h = elim (Bool-cases (ltb n 16)) [
  | inl small ↦ rw small ((digit_char-IsHex n (ltb→lt n 16 small)).1, h)
  | inr large ↦ rw large (
      digits_of-All fuel (n / 16) (digit_char (n % 16) ∷ acc)
        ((digit_char-IsHex (n % 16) (omega arith)).1, h))
]

digits_of-length : (fuel n : ℕ) (acc : List ℕ) → length acc ≤ length (digits_of 16 fuel n acc)
unfolding digits_of
digits_of-length zero n acc = omega arith
digits_of-length (suc fuel) n acc =
    ground (arith, digits_of-length fuel (n / 16) (digit_char (n % 16) ∷ acc))

digits_of-some : (fuel n : ℕ) (acc : List ℕ) → 1 ≤ length (digits_of 16 (suc fuel) n acc)
unfolding digits_of
digits_of-some fuel n acc =
    ground (arith, digits_of-length fuel (n / 16) (digit_char (n % 16) ∷ acc))

digits_of-most : (fuel n : ℕ) (acc : List ℕ) → length (digits_of 16 fuel n acc) ≤ length acc + fuel
unfolding digits_of
digits_of-most zero n acc = omega arith
digits_of-most (suc fuel) n acc =
    ground (arith, digits_of-most fuel (n / 16) (digit_char (n % 16) ∷ acc))

drop_spaces-hex : (c : ℕ) (cs : List ℕ) → IsHex c → drop_spaces (c ∷ cs) ≡ c ∷ cs
unfolding drop_spaces
drop_spaces-hex c cs h = rw h.no_space refl

-- No number that is printed looks like one with a prefix.
drop_prefix-hex : (cs : List ℕ) → All IsHex cs → drop_prefix 16 cs ≡ cs
unfolding drop_prefix
drop_prefix-hex [] h = refl
drop_prefix-hex (c ∷ []) h = refl
drop_prefix-hex (c ∷ d ∷ []) h = refl
drop_prefix-hex (c ∷ d ∷ e ∷ cs) (h, (i, hs)) = let no = i.no_x in ground arith

signed_value-hex :
    (c : ℕ) (cs : List ℕ)
    → All IsHex (c ∷ cs)
    → signed_value 16 (c ∷ cs) ≡ (false, digits_value 16 (c ∷ cs) 0)
unfolding signed_value
signed_value-hex c cs h =
    rw ((h.0).no_minus, (h.0).no_plus)
      (ap (λ (t : List ℕ). (false, digits_value 16 t 0)) (drop_prefix-hex (c ∷ cs) h))

-- Of the digits alone the number is their value.
strtoul-hex :
    (c : ℕ) (cs : List ℕ) (n : ℕ)
    → All IsHex (c ∷ cs)
    → digits_value 16 (c ∷ cs) 0 ≡ n
    → n < 2 ^ 64
    → strtoul (c ∷ cs) 16 ≡ n
unfolding strtoul
strtoul-hex c cs n h e k =
    let in_range : leb (2 ^ 64) n ≡ false = ground arith in
    rw (drop_spaces-hex c cs h.0, signed_value-hex c cs h, e, in_range) refl

digits_value-nil : (n : ℕ) → digits_value 16 [] n ≡ n
unfolding digits_value
digits_value-nil n = refl

-- A text with fuel for a digit is not empty.
hexadecimal-strtoul :
    (cs : List ℕ) (n : ℕ)
    → All IsHex cs
    → 1 ≤ length cs
    → digits_value 16 cs 0 ≡ n
    → n < 2 ^ 64
    → strtoul cs 16 ≡ n
hexadecimal-strtoul [] n h l e k = absurd (omega arith)
hexadecimal-strtoul (c ∷ cs) n h l e k = strtoul-hex c cs n h e k

-- The printed form of any number of 64 bits parses back to the number, without a message.
pub parse_immediate_value-print_immediate_value :
    (value : ℕ) → value < 2 ^ 64 → Gives (parse_immediate_value (print_immediate_value value)) value
unfolding parse_immediate_value print_immediate_value prefixed_value
parse_immediate_value-print_immediate_value value h =
    let cs = digits_of 16 16 value [] in
    let short : (ltb (u16 (suc (suc (suc (length cs))))) 2 || false) ≡ false =
      ground (arith, digits_of-most 16 value []) in
    rw short (
      hexadecimal-strtoul cs value (digits_of-All 16 value [] tt) (digits_of-some 15 value [])
          (digits_value-digits_of 16 value [] h ∙ digits_value-nil value) h,
      refl,
    )
