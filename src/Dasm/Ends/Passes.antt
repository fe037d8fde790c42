-- ===== src/Dasm/Ends/Passes.antt =====
-- The two passes of src/mhdasm.c, and the whole program, end.
use mihini.Prelude.{ℕ, ◌≤◌, ◌≡◌, arith, Bool, true, if◌then◌else◌, List, All, ◌^◌, ◌%◌}
use mihini.Prelude.Ascii.{drop}
use mihini.Asm.Layout.{Layout}
use mihini.Dasm.{Dasm, Result, done, undefined, out_of_fuel}
use mihini.Dasm.Ends.{IsOpcode, IsReadable, measure, Ends}

-- A byte that is read is an opcode, and leaves at most `n` reads.
EndsRead : ℕ → Result ℕ → Type 0
EndsRead n (done a s) = IsOpcode a × (measure s ≤ n) × IsReadable s
EndsRead n undefined = ⊥
EndsRead n out_of_fuel = ⊥

module _ (junk : ℕ → ℕ) (known : IsOpcode (junk 1 % 2 ^ 8)) where
  over_is_zero : (eof : Bool) (n : ℕ) → eof ≡ true → (if eof then 0 else n) ≤ 0
  over_is_zero eof n h = rw h (omega arith)

module _ (float_text : ℕ → List ℕ) (junk : ℕ → ℕ) (known : IsOpcode (junk 1 % 2 ^ 8))
    (file : List ℕ) (readable : All IsOpcode (drop 10 file)) where
  -- The step is done at the end of the file.
  AtEnd : {A : Type 0} → A → Result A → Type 0
  AtEnd {A} a r = (t : Dasm) × (r ≡ done a t) × (t.eof ≡ true)
