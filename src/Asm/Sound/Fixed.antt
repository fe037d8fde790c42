-- ===== src/Asm/Sound/Fixed.antt =====
-- The end of an assembly in src/mhasm.c: where the bytes of an offset go, and that the file keeps its
-- length.
use native.Mathlib.Nat.{mod-eq_of_lt}
use mihini.Prelude.{
  ℕ, zero, suc, ◌+◌, ◌/◌, ◌%◌, ◌≤◌, ◌≡◌, ◌⊎◌, inl, refl, ap, ◌∙◌, fun_ext, arith, List, [], ◌∷◌,
  All, length, update,
}
use mihini.Prelude.Ascii.{char_at}
use mihini.Vm.Memory.{load_le, store_le}
use mihini.Vm.Memory.Bytes.{load_le-store_le_apart, load_le-store_le_self}
use mihini.Asm.{ForwardRef}
use mihini.Asm.Write.{bytes_le}
use mihini.Asm.Label.{offset_between}
use mihini.Asm.Fix.{overwrite, write_at, fix_fwd_labels_iter_2, fix_refs}
use mihini.Asm.Sound.{IsSpaced, FitsIn, length-bytes_le}

-- Behind the end of a file a read gives 0, as the bytes do that fill a gap.
char_at-write_at_nil : (dest : List ℕ) (at i : ℕ) → char_at (write_at dest at []) i ≡ char_at dest i
unfolding write_at overwrite
char_at-write_at_nil dest zero i = refl
char_at-write_at_nil [] (suc at) zero = refl
char_at-write_at_nil [] (suc at) (suc i) = char_at-write_at_nil [] at i
char_at-write_at_nil (d ∷ ds) (suc at) zero = refl
char_at-write_at_nil (d ∷ ds) (suc at) (suc i) = char_at-write_at_nil ds at i

char_at-write_at_one :
    (dest : List ℕ) (at b i : ℕ)
    → char_at (write_at dest at (b ∷ [])) i ≡ update (char_at dest) at b i
unfolding write_at overwrite
char_at-write_at_one [] zero b zero = refl
char_at-write_at_one [] zero b (suc i) = ground arith
char_at-write_at_one (d ∷ ds) zero b zero = refl
char_at-write_at_one (d ∷ ds) zero b (suc i) = ground arith
char_at-write_at_one [] (suc at) b zero = ground arith
char_at-write_at_one [] (suc at) b (suc i) = ground (arith, char_at-write_at_one [] at b i)
char_at-write_at_one (d ∷ ds) (suc at) b zero = ground arith
char_at-write_at_one (d ∷ ds) (suc at) b (suc i) = ground (arith, char_at-write_at_one ds at b i)

-- The first byte, and then the rest
write_at-cons :
    (dest : List ℕ) (at b : ℕ) (bs : List ℕ)
    → write_at dest at (b ∷ bs) ≡ write_at (write_at dest at (b ∷ [])) (suc at) bs
unfolding write_at overwrite
write_at-cons [] zero b [] = refl
write_at-cons [] zero b (c ∷ bs) = refl
write_at-cons (d ∷ ds) zero b bs = refl
write_at-cons [] (suc at) b bs = ap (λ (t : List ℕ). 0 ∷ t) (write_at-cons [] at b bs)
write_at-cons (d ∷ ds) (suc at) b bs = ap (λ (t : List ℕ). d ∷ t) (write_at-cons ds at b bs)

-- A number in a file is a number in a memory.
write_at-store_le :
    (n v : ℕ) (dest : List ℕ) (at : ℕ)
    → char_at (write_at dest at (bytes_le n v)) ≡ store_le (char_at dest) at n v
unfolding bytes_le store_le
write_at-store_le zero v dest at = fun_ext (char_at-write_at_nil dest at)
write_at-store_le (suc n) v dest at =
    let low = write_at dest at ((v % 256) ∷ []) in
    let next : suc at ≡ at + 1 = omega arith in
    ap char_at (write_at-cons dest at (v % 256) (bytes_le n (v / 256)))
    ∙ write_at-store_le n (v / 256) low (suc at)
    ∙ ap (λ (m : ℕ → ℕ). store_le m (suc at) n (v / 256))
        (fun_ext (char_at-write_at_one dest at (v % 256)))
    ∙ ap (λ (a : ℕ). store_le (update (char_at dest) at (v % 256)) a n (v / 256)) next

length-overwrite :
    (dest bytes : List ℕ) → length bytes ≤ length dest → length (overwrite dest bytes) ≡ length dest
unfolding overwrite
length-overwrite dest [] h = refl
length-overwrite [] (b ∷ bs) h = absurd (omega arith)
length-overwrite (d ∷ ds) (b ∷ bs) h = omega (arith, length-overwrite ds bs (omega arith))

length-write_at :
    (dest : List ℕ) (at : ℕ) (bytes : List ℕ)
    → at + length bytes ≤ length dest
    → length (write_at dest at bytes) ≡ length dest
unfolding write_at
length-write_at dest zero bytes h = length-overwrite dest bytes (omega arith)
length-write_at [] (suc at) bytes h = absurd (omega arith)
length-write_at (d ∷ ds) (suc at) bytes h = omega (arith, length-write_at ds at bytes (omega arith))

-- The word at a place of the file
abbrev pub word_at : List ℕ → ℕ → ℕ
word_at dest at = load_le (char_at dest) at 4

word-fix :
    (ref : ForwardRef) (pos : ℕ) (dest : List ℕ)
    → word_at (fix_fwd_labels_iter_2 ref pos dest) ref.dest_pos ≡ offset_between pos ref.dest_pos
unfolding fix_fwd_labels_iter_2
word-fix ref pos dest =
    let v = offset_between pos ref.dest_pos in
    ap (λ (m : ℕ → ℕ). load_le m ref.dest_pos 4) (write_at-store_le 4 v dest ref.dest_pos)
    ∙ load_le-store_le_self (char_at dest) ref.dest_pos 4 v
    ∙ mod-eq_of_lt (omega arith)

-- The bytes of a reference and the `n` bytes from `a` do not meet.
abbrev pub Misses : ℕ → ℕ → ForwardRef → Type 0
Misses a n ref = (a + n ≤ ref.dest_pos) ⊎ (ref.dest_pos + 4 ≤ a)

load-fix :
    (ref : ForwardRef) (pos : ℕ) (dest : List ℕ) (a n : ℕ)
    → Misses a n ref
    → load_le (char_at (fix_fwd_labels_iter_2 ref pos dest)) a n ≡ load_le (char_at dest) a n
unfolding fix_fwd_labels_iter_2
load-fix ref pos dest a n h =
    let v = offset_between pos ref.dest_pos in
    ap (λ (m : ℕ → ℕ). load_le m a n) (write_at-store_le 4 v dest ref.dest_pos)
    ∙ load_le-store_le_apart (char_at dest) a n ref.dest_pos 4 v h

pub load-fix_refs :
    (refs : List ForwardRef) (pos : ℕ) (dest : List ℕ) (a n : ℕ)
    → All (Misses a n) refs
    → load_le (char_at (fix_refs refs pos dest)) a n ≡ load_le (char_at dest) a n
unfolding fix_refs
load-fix_refs [] pos dest a n h = refl
load-fix_refs (ref ∷ refs) pos dest a n (h, hs) =
    load-fix_refs refs pos (fix_fwd_labels_iter_2 ref pos dest) a n hs ∙ load-fix ref pos dest a n h

behind-Misses :
    (a : ℕ) (refs : List ForwardRef)
    → All (λ (r : ForwardRef). a + 4 ≤ r.dest_pos) refs
    → All (Misses a 4) refs
behind-Misses a [] h = tt
behind-Misses a (r ∷ rs) (h, hs) = (inl h, behind-Misses a rs hs)

-- The word of each reference is the offset of the label.
abbrev pub Leads : ℕ → List ℕ → ForwardRef → Type 0
Leads pos dest ref = word_at dest ref.dest_pos ≡ offset_between pos ref.dest_pos

pub fix_refs-Leads :
    (refs : List ForwardRef) (pos : ℕ) (dest : List ℕ)
    → IsSpaced refs
    → All (Leads pos (fix_refs refs pos dest)) refs
unfolding fix_refs
fix_refs-Leads [] pos dest h = tt
fix_refs-Leads (ref ∷ refs) pos dest (h, hs) =
    let first = fix_fwd_labels_iter_2 ref pos dest in
    (
      load-fix_refs refs pos first ref.dest_pos 4 (behind-Misses ref.dest_pos refs h)
          ∙ word-fix ref pos dest,
      fix_refs-Leads refs pos first hs,
    )

pub length-fix_refs :
    (refs : List ForwardRef) (pos size : ℕ) (dest : List ℕ)
    → length dest ≡ size
    → All (FitsIn size) refs
    → length (fix_refs refs pos dest) ≡ size
unfolding fix_refs fix_fwd_labels_iter_2
length-fix_refs [] pos size dest e h = e
length-fix_refs (ref ∷ refs) pos size dest e (h, hs) =
    let bytes = bytes_le 4 (offset_between pos ref.dest_pos) in
    length-fix_refs refs pos size (write_at dest ref.dest_pos bytes)
      (length-write_at dest ref.dest_pos bytes
          (omega (arith, length-bytes_le 4 (offset_between pos ref.dest_pos)))
        ∙ e)
      hs
