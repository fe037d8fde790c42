-- ===== src/Asm.antt =====
-- The assembler, src/mhasm.c and src/mhasm.h: its data and the state of an assembly. The source and
-- the error stream are sequences: the lines that `fgets` gives, and the messages.
pub mod Scan
pub mod Write
pub mod Label
pub mod Fix
pub mod Data
pub mod Layout
pub mod Assemble
pub mod Main
pub mod Sound
pub mod Checks
pub mod Lengths
pub mod Segments
pub mod Branch
pub mod Backward
pub mod Running
mod Examples
use mihini.Prelude.{ℕ, ◌+◌, List, [], ◌∷◌, ◌++◌, Bool, u32}
use mihini.Stree.{StreeNode, Malloc}

-- `segment_t`
pub record Segment : Type 0 where
  pub start : ℕ
  pub length : ℕ
  pub end : ℕ

-- `source_line_t`
pub record SourceLine : Type 0 where
  pub label : Segment
  pub opcode : Segment
  pub width : Segment
  pub arg1 : Segment
  pub arg2 : Segment
  pub arg3 : Segment
  pub comment : Segment

-- `forward_ref_t`; the field `label_pos` is never set, and `dest` is the one file that is written.
pub record ForwardRef : Type 0 where
  pub line_number : ℕ
  pub line_offset : ℕ
  pub dest_pos : ℕ

-- The messages that go to the error stream: the kind and, where the source prints one, the name.
pub data Report : Type 0 where
  redefinition : List ℕ → Report
  unknown_opcode : List ℕ → Report
  undefined_reference : List ℕ → Report
  expects_width : Report
  expects_no_width : Report
  takes_no_arguments : Report
  needs_arguments : ℕ → Report
  takes_only : ℕ → Report
  bad_operand : Report

-- `state_t`. `dest` is the content of the file that is written, whose position is its end. A list of
-- forward references is the list of its values, as `dll_push` and `dll_iterate` treat it: `lists` has
-- it under the number that stands for its pointer in the tree `fwd_labels`, and `fresh` is the number
-- of the next `dll_new`. `malloc` is the host's, which the code does not store.
pub record Asm : Type 0 where
  pub sourceline : List ℕ
  pub offsets : SourceLine
  pub line_number : ℕ
  pub dest : List ℕ
  pub pos : ℕ
  pub labels : StreeNode
  pub fwd_labels : StreeNode
  pub lists : ℕ → List ForwardRef
  pub fresh : ℕ
  pub opcodes : StreeNode
  pub reports : List Report
  pub malloc : Malloc

abbrev pub no_segment : Segment
no_segment = record { start = 0; length = 0; end = 0 }

-- The offsets after `memset`
abbrev pub no_offsets : SourceLine
no_offsets = record {
  label = no_segment;
  opcode = no_segment;
  width = no_segment;
  arg1 = no_segment;
  arg2 = no_segment;
  arg3 = no_segment;
  comment = no_segment;
}

-- A message on the error stream
abbrev pub report : Report → Asm → Asm
report r state = record state { reports = state.reports ++ (r ∷ []) }
