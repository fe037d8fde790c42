-- ===== src/Parser/Sets.antt =====
-- Printed sets of registers of src/printer.c parse back in src/parser.c.
pub mod Read
pub mod Banks
use mathlib.Core.List.{append_assoc, append-nil}
use mihini.Prelude.{
  ℕ, zero, suc, ◌+◌, ◌*◌, ◌/◌, ◌%◌, ◌^◌, ◌<◌, ◌==◌, ◌≡◌, ◌&&◌, not, if◌then◌else◌, inl, inr, refl,
  sym, ap, ◌∙◌, arith, Bool, Bool-cases, both_true, ==→≡, true, false, ltb, all_below,
  all_below_sound, bit_or, List, [], ◌∷◌, ◌++◌, Option, none, some,
}
use mihini.Prelude.Options.{WhenSome-eq}
use mihini.Prelude.Ascii.{letter_a, letter_d, letter_x, slash}
use mihini.Bits.Split.{bit_or-split}
use mihini.Bits.Bounds.{bit_or-lt}
use mihini.Printer.{print_register_bitmask, print_bank, close_run, bank_round, bank_loop}
use mihini.Parser.{parsed, parse_register_bitmask, bitmask_loop}
use mihini.Parser.Registers.{Gives}
use mihini.Parser.Sets.Read.{add_bits, numbers, read_bits, Adds, read_bits-Adds}
use mihini.Parser.Sets.Banks.{byte_laws, power_laws, print_register_bitmask-banks}

abbrev below_8 : List ℕ → Bool
below_8 [] = true
below_8 (b ∷ bs) = ltb b 8 && below_8 bs

-- The registers that are read from a text make up this bank.
abbrev are_bits : ℕ → Option (List ℕ) → Bool
are_bits m none = false
are_bits m (some bs) = (add_bits 0 0 bs == m) && below_8 bs

abbrev starts_with : ℕ → List ℕ → Bool
starts_with letter [] = false
starts_with letter (c ∷ []) = false
starts_with letter (c ∷ d ∷ rest) = c == letter

abbrev bank_text : ℕ → ℕ → List ℕ
bank_text letter m = if m == 0 then [] else print_bank letter 0 m

data_table :
    all_below 256 (λ m. are_bits m (read_bits letter_d (bank_text letter_d m) 0xFF letter_x)) ≡ true
unfolding print_bank close_run bank_round bank_loop
data_table = refl

address_table :
    all_below 256 (λ m.
      are_bits m (read_bits letter_a (bank_text letter_a m) 0xFF letter_x)
      && (if m == 0 then true else starts_with letter_a (bank_text letter_a m)))
    ≡ true
unfolding print_bank close_run bank_round bank_loop
address_table = refl

record Bank (letter m : ℕ) : Type 0 where
  bits : List ℕ
  read : read_bits letter (bank_text letter m) 0xFF letter_x ≡ some bits
  value : add_bits 0 0 bits ≡ m
  small : below_8 bits ≡ true

are_bits-Bank :
    (letter m : ℕ) (o : Option (List ℕ))
    → read_bits letter (bank_text letter m) 0xFF letter_x ≡ o
    → are_bits m o ≡ true
    → Bank letter m
are_bits-Bank letter m none e h = absurd (cc)
are_bits-Bank letter m (some bs) e h = record {
  bits = bs;
  read = e;
  value = ground arith;
  small = ground arith;
}

data_Bank : (m : ℕ) → m < 256 → Bank letter_d m
data_Bank m h = are_bits-Bank letter_d m _ refl (
    all_below_sound 256 (λ m. are_bits m (read_bits letter_d (bank_text letter_d m) 0xFF letter_x))
      m data_table h)

-- Adding the registers of the second bank
add_bits-high :
    (lo : ℕ) (bs : List ℕ) (out : ℕ)
    → lo < 256
    → below_8 bs ≡ true
    → add_bits 8 (lo + out * 256) bs ≡ lo + add_bits 0 out bs * 256
add_bits-high lo [] out h k = refl
add_bits-high lo (b ∷ bs) out h k =
    let small : b < 8 = ground arith in
    let rest : below_8 bs ≡ true = ground arith in
    let (low, high) = power_laws b small in
    let (all, zeroed, same) = byte_laws lo h in
    let e : 0 + b ≡ b = omega arith in
    let f : 2 ^ (8 + b) ≡ 0 + 2 ^ b * 256 = omega (arith, high) in
    let step : bit_or (lo + out * 256) (2 ^ (8 + b)) ≡ lo + bit_or out (2 ^ b) * 256 =
      ap (bit_or (lo + out * 256)) f
      ∙ bit_or-split 8 lo out 0 (2 ^ b) h (omega arith)
      ∙ ap (λ z. z + bit_or out (2 ^ b) * 256) same in
    ap (λ z. add_bits 8 z bs) step
    ∙ add_bits-high lo bs (bit_or out (2 ^ b)) h rest
    ∙ ap (λ z. lo + add_bits 0 (bit_or out (2 ^ z)) bs * 256) (sym e)

data_Adds :
    (lo : ℕ) (b : Bank letter_d lo)
    → Adds letter_d 0 refl refl (bank_text letter_d lo) 0xFF letter_x b.bits
data_Adds lo b =
    WhenSome-eq (Adds letter_d 0 refl refl (bank_text letter_d lo) 0xFF letter_x) _ b.bits
      (read_bits-Adds letter_d 0 refl refl (bank_text letter_d lo) 0xFF letter_x) b.read

address_Adds :
    (hi : ℕ) (b : Bank letter_a hi)
    → Adds letter_a 8 refl refl (bank_text letter_a hi) 0xFF letter_x b.bits
address_Adds hi b =
    WhenSome-eq (Adds letter_a 8 refl refl (bank_text letter_a hi) 0xFF letter_x) _ b.bits
      (read_bits-Adds letter_a 8 refl refl (bank_text letter_a hi) 0xFF letter_x) b.read

-- The second bank, once the first one is read
address_read :
    (lo hi : ℕ)
    → lo < 256
    → (b : Bank letter_a hi)
    → bitmask_loop (bank_text letter_a hi) lo 0xFF letter_x ≡ parsed (lo + hi * 256)
address_read lo hi h b =
    let e : lo ≡ lo + 0 * 256 = omega arith in
    (address_Adds hi b lo).0
    ∙ ap (λ z. parsed (add_bits 8 z b.bits)) e
    ∙ ap parsed (add_bits-high lo b.bits 0 h b.small)
    ∙ ap (λ z. parsed (lo + z * 256)) b.value

-- Both banks
both_read :
    (lo : ℕ) (text : List ℕ) (d : Bank letter_d lo)
    → starts_with letter_a text ≡ true
    → bitmask_loop (bank_text letter_d lo ++ (slash ∷ []) ++ text) 0 0xFF letter_x
      ≡ bitmask_loop text lo 0xFF letter_x
both_read lo [] d h = absurd (cc)
both_read lo (c ∷ []) d h = absurd (cc)
both_read lo (c ∷ x ∷ rest) d h =
    let same : c ≡ letter_a = ground arith in
    ap (λ t. bitmask_loop t 0 0xFF letter_x)
      (append_assoc (bank_text letter_d lo) (slash ∷ []) (c ∷ x ∷ rest))
    ∙ ap (λ c. bitmask_loop (bank_text letter_d lo ++ (slash ∷ c ∷ x ∷ rest)) 0 0xFF letter_x) same
    ∙ (data_Adds lo d 0).1 x rest
    ∙ ap (λ z. bitmask_loop (letter_a ∷ x ∷ rest) z 0xFF letter_x) d.value
    ∙ ap (λ c. bitmask_loop (c ∷ x ∷ rest) lo 0xFF letter_x) (sym same)

address_laws :
    (m : ℕ)
    → m < 256
    → Bank letter_a m × ((m == 0) ≡ false → starts_with letter_a (bank_text letter_a m) ≡ true)
address_laws m h =
    let (bits, start) = both_true _ _ (
      all_below_sound 256
        (λ m.
          are_bits m (read_bits letter_a (bank_text letter_a m) 0xFF letter_x)
          && (if m == 0 then true else starts_with letter_a (bank_text letter_a m)))
        m address_table h) in
    (are_bits-Bank letter_a m _ refl bits, λ e. rw e (rw e at start))

ends_alone :
    (p : Bool) (text : List ℕ)
    → (if p then [] else text) ++ (if p then [] else []) ++ [] ≡ (if p then [] else text)
ends_alone true text = refl
ends_alone false text = append-nil (text ++ []) ∙ append-nil text

parts_read :
    (lo hi : ℕ)
    → lo < 256
    → hi < 256
    → parse_register_bitmask (print_register_bitmask (lo + hi * 256)) ≡ parsed (lo + hi * 256)
unfolding parse_register_bitmask
parts_read lo hi h k =
    let d = data_Bank lo h in
    let (a, starts) = address_laws hi k in
    ap (λ t. bitmask_loop t 0 0xFF letter_x) (print_register_bitmask-banks lo hi h k)
    ∙ elim (Bool-cases (hi == 0)) [
      | inl q ↦
          let zero_hi : lo ≡ lo + hi * 256 = (let e = ==→≡ hi 0 q in omega arith) in
          rw q (
            ap (λ t. bitmask_loop t 0 0xFF letter_x)
              (ends_alone (lo == 0) (print_bank letter_d 0 lo))
            ∙ (data_Adds lo d 0).0
            ∙ ap parsed (d.value ∙ zero_hi))
      | inr q ↦ elim (Bool-cases (lo == 0)) [
        | inl p ↦
            let zero_lo : 0 ≡ lo = (let e = ==→≡ lo 0 p in omega arith) in
            rw p (address_read 0 hi (omega arith) a ∙ ap (λ l. parsed (l + hi * 256)) zero_lo)
        | inr p ↦
            rw (p, q)
              (rw (p, q) at
                (both_read lo (bank_text letter_a hi) d (starts q) ∙ address_read lo hi h a))
      ]
    ]

-- Every set of registers is parsed back from what is printed for it, and no message is given.
pub parse_register_bitmask-print_register_bitmask :
    (mask : ℕ) → mask < 2 ^ 16 → Gives (parse_register_bitmask (print_register_bitmask mask)) mask
parse_register_bitmask-print_register_bitmask mask h =
    let split : mask % 256 + mask / 256 * 256 ≡ mask = omega arith in
    let read = rw split at (parts_read (mask % 256) (mask / 256) (omega arith) (omega arith)) in
    (ap (λ p. p.value) read, ap (λ p. p.reported) read)
