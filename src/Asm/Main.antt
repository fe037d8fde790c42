-- ===== src/Asm/Main.antt =====
-- `main` of src/mhasm.c, once both files are open: the header, the lines, and the forward references.
-- The source has no character 0.
use mihini.Prelude.{
  ℕ, ◌+◌, ◌==◌, ◌||◌, if◌then◌else◌, Bool, true, List, [], ◌∷◌, ◌++◌, Option, some, u32, length,
}
use mihini.Prelude.Options.{◌>>=◌}
use mihini.Prelude.Ascii.{line_feed, magic}
use mihini.Opcode.Tables.{load_opcodes_values}
use mihini.Stree.{Malloc, stree_new}
use mihini.Asm.{Asm, no_offsets}
use mihini.Asm.Scan.{str_trim_right, parse}
use mihini.Asm.Write.{write_buffer, write_uint32}
use mihini.Asm.Assemble.{assemble}
use mihini.Asm.Fix.{fix_labels}

-- What `fgets` gives with a buffer of 1,024: a line with its end, the first 1,023 characters of it, or
-- the end of the file. `line` is what the current call has read.
unfoldable pub fgets_lines : List ℕ → List ℕ → List (List ℕ)
fgets_lines [] [] = []
fgets_lines [] (d ∷ ds) = (d ∷ ds) ∷ []
fgets_lines (c ∷ cs) line =
    let read = line ++ (c ∷ []) in
    let rest = fgets_lines cs [] in
    let more = fgets_lines cs read in
    if (c == line_feed) || (length read == 1023) then read ∷ rest else more

-- The body of the loop: whether to go on, and the state
unfoldable pub assemble_line : (List ℕ → ℕ) → List ℕ → Asm → Option (Bool × Asm)
assemble_line float_bits line state =
    let trimmed = str_trim_right line in
    let numbered = record state {
      sourceline = trimmed;
      line_number = u32 (state.line_number + 1);
    } in
    if length trimmed == 0
    then some (true, numbered)
    else do offsets ← parse trimmed; assemble float_bits (record numbered { offsets = offsets })

unfoldable pub assemble_lines : (List ℕ → ℕ) → List (List ℕ) → Asm → Option Asm
assemble_lines float_bits [] state = some state
assemble_lines float_bits (line ∷ lines) state = do
  done ← assemble_line float_bits line state
  if done.0 then assemble_lines float_bits lines (done.1) else some (done.1)

abbrev pub mihini_version : ℕ
mihini_version = 1

-- The state before the header; a pointer to a list is not NULL.
unfoldable pub asm_start : Malloc → Option Asm
asm_start malloc = do
  root ← stree_new malloc 45
  opcodes ← load_opcodes_values malloc root
  labels ← stree_new malloc 45
  fwd_labels ← stree_new malloc 45
  some (record {
    sourceline = [];
    offsets = no_offsets;
    line_number = 0;
    dest = [];
    pos = 0;
    labels = labels;
    fwd_labels = fwd_labels;
    lists = λ a. [];
    fresh = 1;
    opcodes = opcodes;
    reports = [];
    malloc = malloc;
  })

-- "mihini" and the version
unfoldable pub write_header : Asm → Asm
write_header state = write_uint32 mihini_version (write_buffer magic state)

-- The header and the lines of the source
unfoldable pub read_source : Malloc → (List ℕ → ℕ) → List (List ℕ) → Option Asm
read_source malloc float_bits lines = do
  start ← asm_start malloc
  assemble_lines float_bits lines (write_header start)

unfoldable pub asm_main : Malloc → (List ℕ → ℕ) → List ℕ → Option Asm
asm_main malloc float_bits source = do
  read ← read_source malloc float_bits (fgets_lines source [])
  some (fix_labels read)
