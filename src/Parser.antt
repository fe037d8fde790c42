-- ===== src/Parser.antt =====
-- The parsing of operands, src/parser.c. A result is the value and whether a message went to the
-- error stream; the text of a message is not modelled.
pub mod Registers
pub mod Sets
pub mod Immediate
pub mod Hexadecimal
mod Examples
use mihini.Prelude.{
  ℕ, zero, suc, ◌+◌, ◌-◌, ◌/◌, ◌^◌, ◌==◌, ltb, leb, not, ◌&&◌, ◌||◌, if◌then◌else◌, Bool, true,
  false, List, [], ◌∷◌, ◌++◌, bit_and, bit_or, Option, some, none, u8, length, u16,
}
use mihini.Prelude.Ascii.{
  char_at, open_paren, close_paren, plus_sign, comma, minus_sign, slash, digit_0, letter_a,
  letter_b, letter_d, letter_l, letter_w, letter_x,
}
use mihini.Opcode.{width_8, width_16, width_32, width_64}

pub record Parsed : Type 0 where
  pub value : ℕ
  pub reported : Bool

abbrev pub width_unknown : ℕ
width_unknown = 0xFF

abbrev pub parsed : ℕ → Parsed
parsed v = record { value = v; reported = false }

unfoldable pub parse_width : ℕ → Parsed
parse_width width =
    if width == letter_b
    then parsed width_8
    else if width == letter_w
    then parsed width_16
    else if width == letter_l
    then parsed width_32
    else if width == letter_x
    then parsed width_64
    else record { value = width_unknown; reported = true }

-- `c-'0'` as a `uint8_t`
abbrev pub digit_value : ℕ → ℕ
digit_value c = u8 (c + 2 ^ 8 - digit_0)

-- `c-'0'>7`, on a `char` that is signed
abbrev pub above_7 : ℕ → Bool
above_7 c = ltb (digit_0 + 7) c && ltb c 128

-- A register of number `c` with mode and bank `bits`
abbrev pub numbered : ℕ → ℕ → Parsed
numbered bits c = record { value = bit_or bits (digit_value c); reported = above_7 c }

abbrev pub bad_register : Parsed
bad_register = record { value = 0xFF; reported = true }

-- The letter of a bank and the digit behind it, else what comes `next`
abbrev pub bank_or : ℕ → ℕ → ℕ → Parsed → Parsed
bank_or bits letter digit next =
    if letter == letter_d
    then numbered bits digit
    else if letter == letter_a
    then numbered (bit_or bits 0b1000) digit
    else next

unfoldable pub parse_post_inc : List ℕ → Parsed
parse_post_inc s =
    if (char_at s 0 == open_paren) && (char_at s 3 == close_paren) && (char_at s 4 == plus_sign)
    then bank_or 0b110000 (char_at s 1) (char_at s 2) bad_register
    else bad_register

unfoldable pub parse_pre_dec : List ℕ → Parsed
parse_pre_dec s =
    if (char_at s 0 == minus_sign) && (char_at s 1 == open_paren) && (char_at s 4 == close_paren)
    then bank_or 0b100000 (char_at s 2) (char_at s 3) (parse_post_inc s)
    else parse_post_inc s

unfoldable pub parse_register : List ℕ → Parsed
parse_register s =
    let len = u8 (length s) in
    if len == 2
    then bank_or 0 (char_at s 0) (char_at s 1) bad_register
    else if (len == 4) && (char_at s 0 == open_paren) && (char_at s 3 == close_paren)
    then bank_or 0b10000 (char_at s 1) (char_at s 2) bad_register
    else if len == 5
    then parse_pre_dec s
    else bad_register

-- The cases of the `switch` of `parse_register_bitmask`
pub data MaskChar : Type 0 where
  bank : ℕ → MaskChar
  dash : MaskChar
  separator : MaskChar
  other : MaskChar

-- `bank` has the bit of the bank's register 0, as an exponent.
abbrev pub mask_char : ℕ → MaskChar
mask_char c =
    if c == letter_d
    then bank 0
    else if c == letter_a
    then bank 8
    else if c == minus_sign
    then dash
    else if (c == comma) || (c == slash)
    then separator
    else other

-- `for(uint8_t i = last; i<=to; i++) out |= unit << i`, for `n` rounds
unfoldable pub set_range : ℕ → ℕ → ℕ → ℕ → ℕ
set_range unit last zero out = out
set_range unit last (suc n) out = set_range unit (last + 1) n (bit_or out (2 ^ (unit + last)))

-- `to` and `last` are exchanged where they are out of order.
abbrev pub range : ℕ → ℕ → ℕ → ℕ → ℕ
range unit last to out =
    if ltb to last
    then set_range unit to (last + 1 - to) out
    else set_range unit last (to + 1 - last) out

abbrev pub bad_set : Parsed
bad_set = parsed 0xFF

abbrev pub unknown_char : Parsed
unknown_char = record { value = 0xFFFF; reported = true }

-- What follows if the test for an error fails
abbrev pub unless : Bool → Parsed → Parsed
unless true next = bad_set
unless false next = next

-- The loop, with the variables `out`, `last` and `lastr`. At the end of the string a digit is 0 - '0',
-- which is above 7, and a letter is not the last one: both are errors.
unfoldable pub bitmask_loop : List ℕ → ℕ → ℕ → ℕ → Parsed
bitmask_loop [] out last lastr = parsed out
bitmask_loop (c ∷ []) out last lastr = elim (mask_char c) [
  | bank unit ↦ bad_set
  | dash ↦ bad_set
  | separator ↦ parsed out
  | other ↦ unknown_char
]
bitmask_loop (c ∷ d ∷ []) out last lastr = elim (mask_char c) [
  | bank unit ↦ unless (ltb 7 (digit_value d)) (parsed (bit_or out (2 ^ (unit + digit_value d))))
  | dash ↦ bad_set
  | separator ↦ bitmask_loop (d ∷ []) out last lastr
  | other ↦ unknown_char
]
bitmask_loop (c ∷ d ∷ e ∷ rest) out last lastr = elim (mask_char c) [
  | bank unit ↦
      unless (ltb 7 (digit_value d))
        (bitmask_loop (e ∷ rest) (bit_or out (2 ^ (unit + digit_value d))) (digit_value d) c)
  | dash ↦ unless (not (d == lastr) || ltb 7 last || ltb 7 (digit_value e)) (
      bitmask_loop rest (range (if lastr == letter_d then 0 else 8) last (digit_value e) out) 0xFF
        letter_x)
  | separator ↦ bitmask_loop (d ∷ e ∷ rest) out last lastr
  | other ↦ unknown_char
]

unfoldable pub parse_register_bitmask : List ℕ → Parsed
parse_register_bitmask s = bitmask_loop s 0 0xFF letter_x
