-- ===== src/Printer.antt =====
-- The printing of operands, src/printer.c. A buffer is the list of the bytes written before the 0
-- that ends them; buffers are taken to be large enough, and so the positions do not wrap.
pub mod Immediate
use mihini.Prelude.{
  ℕ, zero, suc, ◌+◌, ◌/◌, ◌^◌, ◌==◌, ltb, not, ◌&&◌, if◌then◌else◌, Bool, true, false, List, [],
  ◌∷◌, ◌++◌, bit_and,
}
use mihini.Prelude.Ascii.{
  open_paren, close_paren, plus_sign, comma, minus_sign, slash, digit_0, letter_a, letter_b,
  letter_d, letter_l, letter_w, letter_x,
}
use mihini.Opcode.{width_8, width_16, width_32, width_64}

-- The message for a width that has no letter is not modelled.
unfoldable pub print_width : ℕ → ℕ
print_width width =
    if width == width_8
    then letter_b
    else if width == width_16
    then letter_w
    else if width == width_32
    then letter_l
    else if width == width_64
    then letter_x
    else 0

-- The text in front of the register's name, and behind it, for the reference bits `ref`
unfoldable pub register_prefix : ℕ → List ℕ
register_prefix ref =
    if ref == 1
    then open_paren ∷ []
    else if ref == 3
    then open_paren ∷ []
    else if ref == 2
    then minus_sign ∷ open_paren ∷ []
    else []

unfoldable pub register_suffix : ℕ → List ℕ
register_suffix ref =
    if ref == 1
    then close_paren ∷ []
    else if ref == 2
    then close_paren ∷ []
    else if ref == 3
    then close_paren ∷ plus_sign ∷ []
    else []

unfoldable pub print_register : ℕ → List ℕ
print_register reg =
    let num = bit_and reg 0b111 in
    let a = not (bit_and reg 0b1000 == 0) in
    let ref = bit_and reg 0b1110000 / 2 ^ 4 in
    register_prefix ref
    ++ ((if a then letter_a else letter_d) ∷ (digit_0 + num) ∷ [])
    ++ register_suffix ref

-- The variables of the loop over one bank of registers.
pub record BankState : Type 0 where
  pub text : List ℕ
  pub from : ℕ
  pub run : ℕ
  pub first : Bool

-- The end of a run of registers, where it has more than one
unfoldable pub close_run : ℕ → BankState → List ℕ
close_run letter b =
    if ltb 1 b.run then b.text ++ (minus_sign ∷ letter ∷ (digit_0 + b.from) ∷ []) else b.text

-- One round: `current` says whether register `i` is in the mask.
unfoldable pub bank_round : ℕ → ℕ → Bool → BankState → BankState
bank_round letter i true b = record {
  text =
      if b.run == 0
      then b.text ++ (if b.first then [] else comma ∷ []) ++ (letter ∷ (digit_0 + i) ∷ [])
      else b.text;
  from = i;
  run = b.run + 1;
  first = false;
}
bank_round letter i false b = record b { text = close_run letter b; run = 0 }

-- `for(i=0; i<8; i++)` from round `i`, with `left` rounds to go; bit `i` of the bank is bit `2 ^ i` of
-- the mask, times `unit`.
unfoldable pub bank_loop : ℕ → ℕ → ℕ → ℕ → ℕ → BankState → BankState
bank_loop letter unit mask zero i b = b
bank_loop letter unit mask (suc left) i b =
    bank_loop letter unit mask left (i + 1)
      (bank_round letter i (not (bit_and mask (2 ^ (unit + i)) == 0)) b)

abbrev pub bank_start : BankState
bank_start = record { text = []; from = 0; run = 0; first = true }

unfoldable pub print_bank : ℕ → ℕ → ℕ → List ℕ
print_bank letter unit mask = close_run letter (bank_loop letter unit mask 8 0 bank_start)

unfoldable pub print_register_bitmask : ℕ → List ℕ
print_register_bitmask mask =
    let d = not (bit_and mask 0xFF == 0) in
    let a = not (bit_and mask 0xFF00 == 0) in
    (if d then print_bank letter_d 0 mask else [])
    ++ (if d && a then slash ∷ [] else [])
    ++ (if a then print_bank letter_a 8 mask else [])
