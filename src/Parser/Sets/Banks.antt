-- ===== src/Parser/Sets/Banks.antt =====
-- What src/printer.c prints for a bank of a set of registers depends on the bits of that bank alone.
use mihini.Prelude.{
  ℕ, zero, suc, ◌+◌, ◌*◌, ◌^◌, ◌<◌, ◌==◌, ◌≡◌, ◌&&◌, not, if◌then◌else◌, refl, sym, ap, ◌∙◌, arith,
  Bool, true, false, ltb, bit_and, bit_or, all_below, all_below_sound, ◌++◌, [], ◌∷◌,
}
use mihini.Bits.Split.{bit_and-split}
use mihini.Prelude.Ascii.{letter_a, letter_d, slash}
use mihini.Printer.{
  BankState, close_run, bank_round, bank_loop, bank_start, print_bank, print_register_bitmask,
}

byte_table :
    all_below 256 (λ b. (bit_and b 255 == b) && (bit_and b 0 == 0) && (bit_or b 0 == b)) ≡ true
byte_table = refl

pub byte_laws : (b : ℕ) → b < 256 → (bit_and b 255 ≡ b) × (bit_and b 0 ≡ 0) × (bit_or b 0 ≡ b)
byte_laws b h =
    let laws =
      all_below_sound 256 (λ b. (bit_and b 255 == b) && (bit_and b 0 == 0) && (bit_or b 0 == b)) b
        byte_table h in
    (ground arith, ground arith, ground arith)

power_table : all_below 8 (λ j. ltb (2 ^ j) 256 && (2 ^ (8 + j) == 2 ^ j * 256)) ≡ true
power_table = refl

pub power_laws : (j : ℕ) → j < 8 → (2 ^ j < 256) × (2 ^ (8 + j) ≡ 2 ^ j * 256)
power_laws j h =
    let laws =
      all_below_sound 8 (λ j. ltb (2 ^ j) 256 && (2 ^ (8 + j) == 2 ^ j * 256)) j power_table h in
    (ground arith, ground arith)

-- Whether a bit is not set
abbrev clear : ℕ → ℕ → Bool
clear m k = bit_and m (2 ^ k) == 0

bank_loop-same :
    (letter u u' m m' left i : ℕ) (b : BankState)
    → ((j : ℕ) → j < i + left → clear m (u + j) ≡ clear m' (u' + j))
    → bank_loop letter u m left i b ≡ bank_loop letter u' m' left i b
unfolding bank_loop
bank_loop-same letter u u' m m' zero i b h = refl
bank_loop-same letter u u' m m' (suc left) i b h = rw (h i (omega arith)) (
    bank_loop-same letter u u' m m' left (i + 1) (bank_round letter i (not (clear m' (u' + i))) b)
      λ j lt. h j (omega arith))

clear_low :
    (lo hi j : ℕ) → lo < 256 → hi < 256 → j < 8 → clear (lo + hi * 256) (0 + j) ≡ clear lo (0 + j)
clear_low lo hi j h k lt =
    let (small, high) = power_laws j lt in
    let (all, none, or) = byte_laws hi k in
    let bits : bit_and (lo + hi * 256) (2 ^ j + 0 * 256) ≡ bit_and lo (2 ^ j) + 0 * 256 =
      bit_and-split 8 lo hi (2 ^ j) 0 h small ∙ ap (λ z. bit_and lo (2 ^ j) + z * 256) none in
    ap (λ z. z == 0) (same bits)
  where
    same :
        bit_and (lo + hi * 256) (2 ^ j + 0 * 256) ≡ bit_and lo (2 ^ j) + 0 * 256
        → bit_and (lo + hi * 256) (2 ^ (0 + j)) ≡ bit_and lo (2 ^ (0 + j))
    same bits =
        let e : 0 + j ≡ j = omega arith in
        let f : 2 ^ j + 0 * 256 ≡ 2 ^ j = omega arith in
        rw e (ap (bit_and (lo + hi * 256)) (sym f) ∙ bits ∙ omega arith)

zero_times : (y : ℕ) → (y * 256 == 0) ≡ (y == 0)
zero_times zero = refl
zero_times (suc y) = ground arith

clear_high :
    (lo hi j : ℕ) → lo < 256 → hi < 256 → j < 8 → clear (lo + hi * 256) (8 + j) ≡ clear hi (0 + j)
clear_high lo hi j h k lt =
    let (small, high) = power_laws j lt in
    let (all, none, or) = byte_laws lo h in
    let e : 0 + j ≡ j = omega arith in
    let f : 2 ^ (8 + j) ≡ 0 + 2 ^ j * 256 = omega (arith, high) in
    let bits : bit_and (lo + hi * 256) (2 ^ (8 + j)) ≡ bit_and hi (2 ^ j) * 256 =
      ap (bit_and (lo + hi * 256)) f
      ∙ bit_and-split 8 lo hi 0 (2 ^ j) h (omega arith)
      ∙ ap (λ z. z + bit_and hi (2 ^ j) * 256) none
      ∙ omega arith in
    rw e (ap (λ z. z == 0) bits ∙ zero_times (bit_and hi (2 ^ j)))

-- The bank of the data registers
pub print_bank-low :
    (letter lo hi : ℕ)
    → lo < 256
    → hi < 256
    → print_bank letter 0 (lo + hi * 256) ≡ print_bank letter 0 lo
unfolding print_bank
print_bank-low letter lo hi h k = ap (close_run letter) (
    bank_loop-same letter 0 0 (lo + hi * 256) lo 8 0 bank_start
      λ j lt. clear_low lo hi j h k (omega arith))

-- The bank of the address registers, as if it were the first one
pub print_bank-high :
    (letter lo hi : ℕ)
    → lo < 256
    → hi < 256
    → print_bank letter 8 (lo + hi * 256) ≡ print_bank letter 0 hi
unfolding print_bank
print_bank-high letter lo hi h k = ap (close_run letter) (
    bank_loop-same letter 8 0 (lo + hi * 256) hi 8 0 bank_start
      λ j lt. clear_high lo hi j h k (omega arith))

-- The two tests for an empty bank
pub empty_low : (lo hi : ℕ) → lo < 256 → hi < 256 → bit_and (lo + hi * 256) 0xFF ≡ lo
empty_low lo hi h k =
    let (all, none, or) = byte_laws lo h in
    let (all_h, none_h, or_h) = byte_laws hi k in
    bit_and-split 8 lo hi 255 0 h (omega arith) ∙ omega (arith, all, none_h)

pub empty_high : (lo hi : ℕ) → lo < 256 → hi < 256 → bit_and (lo + hi * 256) 0xFF00 ≡ hi * 256
empty_high lo hi h k =
    let (all, none, or) = byte_laws lo h in
    let (all_h, none_h, or_h) = byte_laws hi k in
    bit_and-split 8 lo hi 0 255 h (omega arith) ∙ omega (arith, none, all_h)

-- The text of both banks
pub print_register_bitmask-banks :
    (lo hi : ℕ)
    → lo < 256
    → hi < 256
    → print_register_bitmask (lo + hi * 256)
      ≡ (if lo == 0 then [] else print_bank letter_d 0 lo)
        ++ (if (lo == 0) then [] else if hi == 0 then [] else slash ∷ [])
        ++ (if hi == 0 then [] else print_bank letter_a 0 hi)
unfolding print_register_bitmask
print_register_bitmask-banks lo hi h k =
    rw
      (
        empty_low lo hi h k,
        empty_high lo hi h k,
        zero_times hi,
        print_bank-low letter_d lo hi h k,
        print_bank-high letter_a lo hi h k,
      )
      (shapes (lo == 0) (hi == 0))
  where
    shapes :
        (p q : Bool)
        → (if not p then print_bank letter_d 0 lo else [])
            ++ (if not p && not q then slash ∷ [] else [])
            ++ (if not q then print_bank letter_a 0 hi else [])
          ≡ (if p then [] else print_bank letter_d 0 lo)
            ++ (if p then [] else if q then [] else slash ∷ [])
            ++ (if q then [] else print_bank letter_a 0 hi)
    shapes true true = refl
    shapes true false = refl
    shapes false true = refl
    shapes false false = refl
