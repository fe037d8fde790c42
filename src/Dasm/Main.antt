-- ===== src/Dasm/Main.antt =====
-- `main` of src/mhdasm.c, once both files are open: the header, and the two passes over the file.
use mihini.Prelude.{ℕ, zero, suc, ◌+◌, ltb, not, if◌then◌else◌, false, List, [], ◌++◌, u32}
use mihini.Prelude.Ascii.{same_bytes, take, drop, magic}
use mihini.Btree.{null, btree_add}
use mihini.Opcode.Tables.{load_opcodes_strings}
use mihini.Dasm.{
  Dasm, M, Action, done, out_of_fuel, ◌>>=◌, ◌>>◌, pure, modify, read_uint8, read_uint32,
}
use mihini.Dasm.First.{first_pass}
use mihini.Dasm.Second.{disassemble}

-- The state with the source file at its start
unfoldable pub dasm_start : List ℕ → Dasm
dasm_start file = record {
  source = file;
  eof = false;
  dest = [];
  pos = 0;
  line_number = 0;
  label_num = 2;
  labels = btree_add null 0 1;
  opcodes = load_opcodes_strings null;
  messages = [];
}

-- `fseek(source, 10, SEEK_SET)`, which clears the end-of-file indicator, and `pos = 0`
abbrev pub rewound : List ℕ → Dasm → Dasm
rewound file s = record s { source = drop 10 file; eof = false; pos = 0 }

-- What `main` does once the header is read: it gives up, or goes on with the passes.
pub data Verdict : Type 0 where
  bad_header too_new disassembled : Verdict

module _ (junk : ℕ → ℕ) where
  -- `while(!feof(source))` over one of the passes, which never ask to stop
  unfoldable pub pass_loop : (ℕ → Action) → ℕ → Action
  pass_loop pass zero s = out_of_fuel
  pass_loop pass (suc fuel) s =
      let round = do opcode ← read_uint8 junk; pass opcode; pass_loop pass fuel
      in if s.eof then done tt s else round s

module _ (float_text : ℕ → List ℕ) (junk : ℕ → ℕ) where
  -- `intro` is the text of the three lines of comment, with the file's name and the date.
  unfoldable pub two_passes : List ℕ → List ℕ → ℕ → Action
  two_passes intro file fuel = do
    modify λ s. record s { dest = s.dest ++ intro; line_number = u32 (s.line_number + 3) }
    pass_loop junk (first_pass junk) fuel
    modify (rewound file)
    pass_loop junk (disassemble float_text junk) fuel

  -- The header is compared without the step of `pos` that the other reads make. A file of less than
  -- six bytes is taken to have no header.
  unfoldable pub dasm_main : List ℕ → List ℕ → ℕ → M Verdict
  dasm_main intro file fuel = if not (same_bytes (take 6 file) magic) then pure bad_header else do
    modify λ s. record s { source = drop 6 s.source }
    version ← read_uint32 junk
    if ltb 1 version then pure too_new else (do two_passes intro file fuel; pure disassembled)
