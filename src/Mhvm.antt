-- ===== src/Mhvm.antt =====
-- `main` of src/mhvm.c: the header of a file, and the run of its program. The file can be opened, and
-- the machine's memory is what `vm_init` sets up; an open that fails is left out.
mod Examples
use mihini.Prelude.{
  ℕ, ◌+◌, ◌-◌, ◌*◌, ◌^◌, ◌==◌, ltb, not, if◌then◌else◌, Bool, true, false, List, [], ◌∷◌, ◌++◌, u32,
  length,
}
use mihini.Prelude.Ascii.{same_bytes, take, drop, magic}
use mihini.Vm.State.{M, Action, Run, pure, skip, ◌>>=◌, ◌>>◌, get, and_then}
use mihini.Vm.Heap.{host_write, pmalloc}
use mihini.Vm.Init.{vm_init}
use mihini.Vm.Execute.{vm_run}

-- How `main` ends
pub data Exit : Type 0 where
  bad_header too_new ran : Exit

-- `fread(program, n, 1, source)`, to a host address; a byte written through NULL is undefined.
unfoldable pub fread_program : ℕ → List ℕ → Action
fread_program address [] = skip
fread_program address (b ∷ bs) = do host_write address 1 b; fread_program (address + 1) bs

-- The little-endian number of four bytes
unfoldable pub version_of : List ℕ → ℕ
version_of [] = 0
version_of (b ∷ bs) = b + 256 * version_of bs

-- The buffer keeps what it has where the second `fread` finds less than four bytes.
abbrev pub version_bytes : List ℕ → List ℕ
version_bytes file = take 4 (drop 6 file ++ drop (length file - 6) magic)

-- From the machine that `vm_init` has left. `rounds` bounds the loop of `vm_run`.
unfoldable pub run_file : (ℕ → ℕ) → ℕ → ℕ → List ℕ → M Exit
run_file double_bits fuel rounds file =
    if not (same_bytes (take 6 file) magic)
    then pure bad_header
    else if ltb 1 (version_of (version_bytes file))
    then pure too_new
    else do
      program ← pmalloc (u32 (length file + 2 ^ 32 - 10))
      fread_program program (drop 10 file)
      s ← get
      vm_run double_bits fuel rounds (u32 (program + 2 ^ 64 - s.base))
      pure ran

-- One megabyte of memory, no boot space, and 4 kilobytes of stack
unfoldable pub mhvm_main : (base : ℕ) (garbage : ℕ → ℕ) → (ℕ → ℕ) → ℕ → ℕ → List ℕ → Run Exit
mhvm_main base garbage double_bits fuel rounds file =
    and_then (vm_init base garbage (1024 * 1024) 0 4096)
      (λ u. run_file double_bits fuel rounds file)
