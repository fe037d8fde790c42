-- ===== src/Parser/Sets/Read.antt =====
-- What `parse_register_bitmask` of src/parser.c reads from the text of one bank: a list of registers.
use mathlib.Core.Option
use mathlib.Core.Path.{subst}
use mihini.Prelude.{
  ℕ, zero, suc, ◌+◌, ◌-◌, ◌^◌, ◌==◌, ◌≡◌, ◌&&◌, not, ◌||◌, if◌then◌else◌, inl, inr, refl, sym, ap,
  ◌∙◌, arith, Bool, Bool-cases, both_true, ==→≡, true, false, ltb, leb, List, [], ◌∷◌, ◌++◌, Option,
  none, some, bit_or,
}
use mihini.Prelude.Options.{WhenSome, WhenSome-map, WhenSome-mono}
use mihini.Prelude.Ascii.{comma, minus_sign, slash, letter_a, letter_d, letter_x}
use mihini.Parser.{parsed, digit_value, bank, mask_char, set_range, bitmask_loop}

-- The set with these registers of the bank added
abbrev pub add_bits : ℕ → ℕ → List ℕ → ℕ
add_bits unit out [] = out
add_bits unit out (b ∷ bs) = add_bits unit (bit_or out (2 ^ (unit + b))) bs

abbrev pub numbers : ℕ → ℕ → List ℕ
numbers last zero = []
numbers last (suc n) = last ∷ numbers (last + 1) n

abbrev read_one : ℕ → Option (List ℕ) → Option (List ℕ)
read_one b o = Option.map (λ bs. b ∷ bs) o

abbrev read_range : ℕ → ℕ → Option (List ℕ) → Option (List ℕ)
read_range last to o = Option.map (λ bs. numbers last (to + 1 - last) ++ bs) o

-- A digit of a register
abbrev is_number : ℕ → Bool
is_number d = not (ltb 7 (digit_value d))

-- The registers in the text of one bank, from the variables `last` and `lastr`: `none` where the loop
-- gives a message or meets a range that is out of order.
abbrev pub read_bits : ℕ → List ℕ → ℕ → ℕ → Option (List ℕ)
read_bits letter [] last lastr = some []
read_bits letter (c ∷ []) last lastr = none
read_bits letter (c ∷ d ∷ []) last lastr =
    if (c == letter) && is_number d then some (digit_value d ∷ []) else none
read_bits letter (c ∷ d ∷ e ∷ rest) last lastr =
    let next = read_bits letter (e ∷ rest) (digit_value d) c in
    let behind = read_bits letter rest 0xFF letter_x in
    let skipped = read_bits letter (d ∷ e ∷ rest) last lastr in
    if (c == letter) && is_number d
    then read_one (digit_value d) next
    else if (c == minus_sign)
        && ((d == letter) && (lastr == letter) && is_number e && leb last (digit_value e))
    then read_range last (digit_value e) behind
    else if c == comma
    then skipped
    else none

set_range-add_bits :
    (unit last n out : ℕ) → set_range unit last n out ≡ add_bits unit out (numbers last n)
unfolding set_range
set_range-add_bits unit last zero out = refl
set_range-add_bits unit last (suc n) out =
    set_range-add_bits unit (last + 1) n (bit_or out (2 ^ (unit + last)))

add_bits-append :
    (unit out : ℕ) (xs ys : List ℕ)
    → add_bits unit out (xs ++ ys) ≡ add_bits unit (add_bits unit out xs) ys
add_bits-append unit out [] ys = refl
add_bits-append unit out (x ∷ xs) ys = add_bits-append unit (bit_or out (2 ^ (unit + x))) xs ys

-- The text of the bank of address registers, which may come behind this one, starts anew.
abbrev then_bank : ℕ → List ℕ → List ℕ
then_bank x rest = slash ∷ letter_a ∷ x ∷ rest

starts_anew :
    (x : ℕ) (rest : List ℕ) (out last lastr : ℕ)
    → bitmask_loop (letter_a ∷ x ∷ rest) out last lastr
      ≡ bitmask_loop (letter_a ∷ x ∷ rest) out 0xFF letter_x
unfolding bitmask_loop
starts_anew x [] out last lastr = refl
starts_anew x (e ∷ rest) out last lastr = refl

-- Either value of a test that a choice depends on
WhenSome-choice :
    (P : List ℕ → Type 0) (test : Bool) (o q : Option (List ℕ))
    → (test ≡ true → WhenSome P o)
    → (test ≡ false → WhenSome P q)
    → WhenSome P (if test then o else q)
WhenSome-choice P true o q h k = h refl
WhenSome-choice P false o q h k = k refl

module _ (letter unit : ℕ) (known : mask_char letter ≡ bank unit)
    (placed : (if letter == letter_d then 0 else 8) ≡ unit) where
  -- The loop adds these registers, whether the text ends there or another bank follows.
  abbrev pub Adds : List ℕ → ℕ → ℕ → List ℕ → Type 0
  Adds s last lastr bs =
      (out : ℕ)
      → (bitmask_loop s out last lastr ≡ parsed (add_bits unit out bs))
        × ((x : ℕ) (rest : List ℕ)
            → bitmask_loop (s ++ then_bank x rest) out last lastr
              ≡ bitmask_loop (letter_a ∷ x ∷ rest) (add_bits unit out bs) 0xFF letter_x)

  bank_seen :
      (c d : ℕ)
      → ((c == letter) && is_number d) ≡ true
      → (mask_char c ≡ bank unit) × (ltb 7 (digit_value d) ≡ false)
  bank_seen c d h =
      let same : c ≡ letter = ground arith in (ap (λ l. mask_char l) same ∙ known, ground arith)

  range_seen :
      (last lastr d e : ℕ)
      → ((d == letter) && (lastr == letter) && is_number e && leb last (digit_value e)) ≡ true
      → (lastr ≡ letter)
        × (ltb (digit_value e) last ≡ false)
        × ((not (d == lastr) || ltb 7 last || ltb 7 (digit_value e)) ≡ false)
  range_seen last lastr d e h = (ground arith, ground arith, ground arith)

  one_Adds :
      (c d e : ℕ) (rest : List ℕ) (last lastr : ℕ)
      → ((c == letter) && is_number d) ≡ true
      → WhenSome (Adds (e ∷ rest) (digit_value d) c) (read_bits letter (e ∷ rest) (digit_value d) c)
      → WhenSome
          (Adds (c ∷ d ∷ e ∷ rest) last lastr)
          (read_one (digit_value d) (read_bits letter (e ∷ rest) (digit_value d) c))
  unfolding bitmask_loop
  one_Adds c d e rest last lastr h ih =
      let (m, l) = bank_seen c d h in
      let o = read_bits letter (e ∷ rest) (digit_value d) c in
      WhenSome-map (Adds (c ∷ d ∷ e ∷ rest) last lastr) (λ bs. digit_value d ∷ bs) o
        (WhenSome-mono (Adds (e ∷ rest) (digit_value d) c)
          (λ bs. Adds (c ∷ d ∷ e ∷ rest) last lastr (digit_value d ∷ bs)) o
          (λ bs added out.
            rw (bitmask_loop, m, l) (added (bit_or out (2 ^ (unit + digit_value d)))))
          ih)

  range_Adds :
      (d e : ℕ) (rest : List ℕ) (last lastr : ℕ)
      → ((d == letter) && (lastr == letter) && is_number e && leb last (digit_value e)) ≡ true
      → WhenSome (Adds rest 0xFF letter_x) (read_bits letter rest 0xFF letter_x)
      → WhenSome
          (Adds (minus_sign ∷ d ∷ e ∷ rest) last lastr)
          (read_range last (digit_value e) (read_bits letter rest 0xFF letter_x))
  unfolding bitmask_loop
  range_Adds d e rest last lastr h ih =
      let (same, order, allowed) = range_seen last lastr d e h in
      let o = read_bits letter rest 0xFF letter_x in
      let added_range = numbers last (digit_value e + 1 - last) in
      WhenSome-map (Adds (minus_sign ∷ d ∷ e ∷ rest) last lastr) (λ bs. added_range ++ bs) o
        (WhenSome-mono (Adds rest 0xFF letter_x)
          (λ bs. Adds (minus_sign ∷ d ∷ e ∷ rest) last lastr (added_range ++ bs)) o
          (λ bs added out.
            rw
              (
                allowed,
                order,
                same,
                placed,
                set_range-add_bits unit last (digit_value e + 1 - last) out,
                add_bits-append unit out added_range bs,
              )
              (added (add_bits unit out added_range)))
          ih)

  pub read_bits-Adds :
      (s : List ℕ) (last lastr : ℕ) → WhenSome (Adds s last lastr) (read_bits letter s last lastr)
  unfolding bitmask_loop
  read_bits-Adds [] last lastr = λ out. (refl, λ x rest. starts_anew x rest out last lastr)
  read_bits-Adds (c ∷ []) last lastr = tt
  read_bits-Adds (c ∷ d ∷ []) last lastr = elim (Bool-cases ((c == letter) && is_number d)) [
    | inl h ↦
        let (m, l) = bank_seen c d h in
        rw h (λ out. rw (bitmask_loop, m, l) (refl, λ x rest. starts_anew x rest _ _ _))
    | inr h ↦ rw h tt
  ]
  read_bits-Adds (c ∷ d ∷ e ∷ rest) last lastr =
      let next = read_bits-Adds (e ∷ rest) (digit_value d) c in
      let behind = read_bits-Adds rest 0xFF letter_x in
      let skipped = read_bits-Adds (d ∷ e ∷ rest) last lastr in
      let whole = c ∷ d ∷ e ∷ rest in
      WhenSome-choice (Adds whole last lastr) ((c == letter) && is_number d) _ _
        (λ h. one_Adds c d e rest last lastr h next)
        (λ h.
          WhenSome-choice (Adds whole last lastr) ((c == minus_sign) && in_order) _ _
            (λ h.
              let (dash, ordered) = both_true (c == minus_sign) in_order h in
              subst
                (λ b.
                  WhenSome (Adds (b ∷ d ∷ e ∷ rest) last lastr)
                    (read_range last (digit_value e) (read_bits letter rest 0xFF letter_x)))
                (sym (==→≡ c minus_sign dash)) (range_Adds d e rest last lastr ordered behind))
            (λ h.
              WhenSome-choice (Adds whole last lastr) (c == comma) _ _
                (λ h.
                  subst
                    (λ b.
                      WhenSome (Adds (b ∷ d ∷ e ∷ rest) last lastr)
                        (read_bits letter (d ∷ e ∷ rest) last lastr))
                    (sym (==→≡ c comma h)) skipped)
                (λ h. tt)))
    where
      in_order : Bool
      in_order = (d == letter) && (lastr == letter) && is_number e && leb last (digit_value e)
