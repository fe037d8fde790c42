-- ===== src/Asm/Sound.antt =====
-- What holds of the state of src/mhasm.c between two statements: the position is that of the end of
-- the file, and every forward reference has its four bytes in it.
pub mod Operands
pub mod Emit
pub mod Lines
pub mod Fixed
pub mod Iterate
use mathlib.Core.Path.{subst}
use mihini.Prelude.{
  ℕ, zero, suc, ◌+◌, ◌/◌, ◌^◌, ◌≤◌, ◌<◌, ◌==◌, ◌≡◌, refl, sym, ap, ◌∙◌, inl, inr, arith, Bool, true,
  false, Bool-cases, if◌then◌else◌, List, [], ◌∷◌, ◌++◌, All, length, u32, update,
}
use mihini.Opcode.{width_8, width_16, width_32, width_64}
use mihini.Asm.{Asm, ForwardRef, Report, report}
use mihini.Asm.Write.{
  bytes_le, write_buffer, write_uint8, write_uint16, write_uint32, write_uint64, write_variable,
}

-- The bytes of the reference lie in a file of this length.
abbrev pub FitsIn : ℕ → ForwardRef → Type 0
FitsIn size ref = ref.dest_pos + 4 ≤ size

-- The references lie one behind the other.
abbrev pub IsSpaced : List ForwardRef → Type 0
IsSpaced [] = Unit
IsSpaced (ref ∷ refs) = All (λ r. ref.dest_pos + 4 ≤ r.dest_pos) refs × IsSpaced refs

pub record IsSound (state : Asm) : Type 0 where
  pub sized : state.pos ≡ u32 (length state.dest)
  pub inside : (list : ℕ) → All (FitsIn (length state.dest)) (state.lists list)
  pub spaced : length state.dest < 2 ^ 32 → (list : ℕ) → IsSpaced (state.lists list)

pub length-append {ℓ} : {A : Type ℓ} (xs ys : List A) → length (xs ++ ys) ≡ length xs + length ys
length-append [] ys = omega arith
length-append (x ∷ xs) ys = omega (arith, length-append xs ys)

pub length-bytes_le : (n v : ℕ) → length (bytes_le n v) ≡ n
unfolding bytes_le
length-bytes_le zero v = refl
length-bytes_le (suc n) v = omega (arith, length-bytes_le n (v / 256))

pub FitsIn-mono :
    (size more : ℕ) (refs : List ForwardRef)
    → size ≤ more
    → All (FitsIn size) refs
    → All (FitsIn more) refs
FitsIn-mono size more [] h a = tt
FitsIn-mono size more (r ∷ rs) h (a, as') = (omega arith, FitsIn-mono size more rs h as')

-- The state once bytes are written
abbrev pub written : List ℕ → Asm → Asm
written bytes state = record state {
  dest = state.dest ++ bytes;
  pos = u32 (state.pos + length bytes);
}

pub written-IsSound : (bytes : List ℕ) {state : Asm} → IsSound state → IsSound (written bytes state)
written-IsSound bytes {state} s = record {
  sized = let p = s.sized in omega (arith, length-append state.dest bytes);
  inside = λ list.
      FitsIn-mono (length state.dest) (length (state.dest ++ bytes)) (state.lists list)
        (omega (arith, length-append state.dest bytes)) (s.inside list);
  spaced = λ small. s.spaced (omega (arith, length-append state.dest bytes));
}

pub write_buffer-IsSound :
    (buffer : List ℕ) {state : Asm} → IsSound state → IsSound (write_buffer buffer state)
unfolding write_buffer
write_buffer-IsSound buffer s = written-IsSound buffer s

-- A write of a number of `n` bytes
written_number :
    (n v : ℕ) {state : Asm}
    → IsSound state
    → IsSound (record state { dest = state.dest ++ bytes_le n v; pos = u32 (state.pos + n) })
written_number n v {state} s =
    subst
      (λ m. IsSound (record state { dest = state.dest ++ bytes_le n v; pos = u32 (state.pos + m) }))
      (length-bytes_le n v) (written-IsSound (bytes_le n v) s)

pub write_uint8-IsSound : (v : ℕ) {state : Asm} → IsSound state → IsSound (write_uint8 v state)
unfolding write_uint8
write_uint8-IsSound v s = written_number 1 _ s

pub write_uint16-IsSound : (v : ℕ) {state : Asm} → IsSound state → IsSound (write_uint16 v state)
unfolding write_uint16
write_uint16-IsSound v s = written_number 2 _ s

pub write_uint32-IsSound : (v : ℕ) {state : Asm} → IsSound state → IsSound (write_uint32 v state)
unfolding write_uint32
write_uint32-IsSound v s = written_number 4 _ s

pub write_uint64-IsSound : (v : ℕ) {state : Asm} → IsSound state → IsSound (write_uint64 v state)
unfolding write_uint64
write_uint64-IsSound v s = written_number 8 _ s

-- A choice between two states
pub choice-IsSound :
    (test : Bool) {s t : Asm} → IsSound s → IsSound t → IsSound (if test then s else t)
choice-IsSound true a b = a
choice-IsSound false a b = b

pub write_variable-IsSound :
    (v width : ℕ) {state : Asm} → IsSound state → IsSound (write_variable v width state)
unfolding write_variable
write_variable-IsSound v width s = choice-IsSound (width == width_8) (write_uint8-IsSound v s) (
    choice-IsSound (width == width_16) (write_uint16-IsSound v s) (
      choice-IsSound (width == width_32) (write_uint32-IsSound v s)
        (choice-IsSound (width == width_64) (write_uint64-IsSound v s) s)))

pub report-IsSound : (r : Report) {state : Asm} → IsSound state → IsSound (report r state)
report-IsSound r s = record { sized = s.sized; inside = s.inside; spaced = s.spaced }

pub ruleset writes = (
  choice-IsSound, write_buffer-IsSound, write_uint8-IsSound, write_uint16-IsSound,
  write_uint32-IsSound, write_uint64-IsSound, write_variable-IsSound, report-IsSound,
)
