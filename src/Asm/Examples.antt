-- ===== src/Asm/Examples.antt =====
-- A source that src/mhasm.c assembles, and the laws at it.
use mathlib.Core.Option
use mihini.Prelude.{
  ℕ, zero, suc, ◌+◌, ◌-◌, ◌<◌, ◌≡◌, inl, refl, ap, arith, true, false, List, [], ◌∷◌, Option, none,
  some, All, length,
}
use mihini.Prelude.Ascii.{char_at}
use mihini.Stree.{Malloc, null, stree_get, is_null}
use mihini.Vm.State.{Vm, ok}
use mihini.Vm.Execute.Load.{execute_next}
use mihini.Asm.{Asm, ForwardRef, Segment, SourceLine, no_offsets}
use mihini.Asm.Label
use mihini.Asm.Running.{assembling}
use mihini.Asm.Main.{asm_main, read_source, fgets_lines}
use mihini.Asm.Scan.{whitespace, text, next_segment}
use mihini.Asm.Segments.{IsRun, next_segment-IsRun}
use mihini.Asm.Sound.{IsSound}
use mihini.Asm.Sound.Lines.{assemble_lines-IsSound}
use mihini.Asm.Sound.Iterate.{Same, fix_labels-Same}
use mihini.Asm.Fix.{fix_labels}
use mihini.Asm.Layout.{one_label}
use mihini.Asm.Assemble.{emit}
use mihini.Opcode.{opcode_bra}
use mihini.Asm.Scan.{parse, get_segment}
use mihini.Asm.Backward.{execute_next-known}
use mihini.Asm.Branch.{get_elem?, fixed_file, HasProgram, execute_next-fixed}

abbrev float_bits : List ℕ → ℕ
float_bits cs = 0

-- A host with zeroes in its memory and eight bytes to spare in each piece of it
abbrev host : Malloc
host = record { zeroed = true; usable = λ n. n + 8 }

abbrev blank : Asm
blank = record {
  sourceline = [];
  offsets = no_offsets;
  line_number = 0;
  dest = [];
  pos = 0;
  labels = null;
  fwd_labels = null;
  lists = λ a. [];
  fresh = 1;
  opcodes = null;
  reports = [];
  malloc = host;
}

-- "loop\tinc.l d0", "\tbra loop", "\tbra end // x" and "end stop"
abbrev source : List ℕ
source =
    108 ∷ 111 ∷ 111 ∷ 112 ∷ 9 ∷ 105 ∷ 110 ∷ 99 ∷ 46 ∷ 108 ∷ 32 ∷ 100 ∷ 48 ∷ 10 ∷ 9 ∷ 98 ∷ 114 ∷ 97
    ∷ 32 ∷ 108 ∷ 111 ∷ 111 ∷ 112 ∷ 10 ∷ 9 ∷ 98 ∷ 114 ∷ 97 ∷ 32 ∷ 101 ∷ 110 ∷ 100 ∷ 32 ∷ 47 ∷ 47 ∷ 32
    ∷ 120 ∷ 10 ∷ 101 ∷ 110 ∷ 100 ∷ 32 ∷ 115 ∷ 116 ∷ 111 ∷ 112 ∷ 10 ∷ []

abbrev lines : List (List ℕ)
lines =
    (108 ∷ 111 ∷ 111 ∷ 112 ∷ 9 ∷ 105 ∷ 110 ∷ 99 ∷ 46 ∷ 108 ∷ 32 ∷ 100 ∷ 48 ∷ 10 ∷ [])
    ∷ (9 ∷ 98 ∷ 114 ∷ 97 ∷ 32 ∷ 108 ∷ 111 ∷ 111 ∷ 112 ∷ 10 ∷ [])
    ∷ (9 ∷ 98 ∷ 114 ∷ 97 ∷ 32 ∷ 101 ∷ 110 ∷ 100 ∷ 32 ∷ 47 ∷ 47 ∷ 32 ∷ 120 ∷ 10 ∷ [])
    ∷ (101 ∷ 110 ∷ 100 ∷ 32 ∷ 115 ∷ 116 ∷ 111 ∷ 112 ∷ 10 ∷ [])
    ∷ []

-- The file: the header, "inc.l d0", the branch back by 15 from behind its operand, the branch forward
-- by none, and "stop"
abbrev file : List ℕ
file =
    109 ∷ 105 ∷ 104 ∷ 105 ∷ 110 ∷ 105 ∷ 1 ∷ 0 ∷ 0 ∷ 0 ∷ 22 ∷ 0 ∷ 232 ∷ 245 ∷ 255 ∷ 255 ∷ 255 ∷ 232
    ∷ 252 ∷ 255 ∷ 255 ∷ 255 ∷ 253 ∷ []

abbrev content : Option Asm → Option (List ℕ)
content o = Option.map (λ s. s.dest) o

source_assembled : content (asm_main host float_bits source) ≡ some file
unfolding assembling
source_assembled = refl

lines_read : fgets_lines source [] ≡ lines
unfolding assembling
lines_read = refl

-- The state behind the last line
abbrev or_start : Option Asm → Asm
or_start none = blank
or_start (some s) = s

read : Asm
read = or_start (read_source host float_bits lines)

read-lines : read_source host float_bits lines ≡ some read
unfolding read assembling
read-lines = refl

assemble_lines-IsSound_example : IsSound read
assemble_lines-IsSound_example = assemble_lines-IsSound host float_bits lines read read-lines

fix_labels-Same_example : Same read (fix_labels read)
fix_labels-Same_example = fix_labels-Same host float_bits lines read read-lines

-- "end", and the reference to it
abbrev end_key : List ℕ
end_key = 101 ∷ 110 ∷ 100 ∷ []

abbrev end_ref : ForwardRef
end_ref = record { line_number = 3; line_offset = 5; dest_pos = 18 }

end_fixed : fixed_file end_key 1 read ≡ file
unfolding read assembling
end_fixed = refl

file_size : length read.dest ≡ 23
unfolding read assembling
file_size = refl

end_found : is_null (stree_get read.labels end_key) ≡ false
unfolding read assembling
end_found = refl

end_place : Label.node_value (stree_get read.labels end_key) ≡ 22
unfolding read assembling
end_place = refl

end_listed : get_elem? (read.lists 1) 0 ≡ some end_ref
unfolding read assembling
end_listed = refl

char_at_lt : (cs : List ℕ) (i : ℕ) → All (λ c. c < 256) cs → char_at cs i < 256
char_at_lt [] i h = omega arith
char_at_lt (c ∷ cs) zero (h, hs) = h
char_at_lt (c ∷ cs) (suc i) (h, hs) = char_at_lt cs i hs

-- A machine with the file in its memory, header and all, that stands at the branch forward
abbrev machine : Vm
machine = record {
  registers = λ r. 0;
  condition = 0;
  ip = 17;
  memory = char_at file;
  memsize = 64;
  base = 4096;
  stopped = false;
  heap = record { available = 0; assigned = 0; freemem = 0; totalmem = 0; totalnodes = 0 };
  output = [];
}

machine-HasProgram : HasProgram file 10 machine
machine-HasProgram = record {
  bytes = λ a. char_at_lt file a (omega arith);
  image = λ i h. (let e : 10 + i ≡ i + 10 = omega arith in ap (char_at file) e);
  inside = omega arith;
  addressed = omega arith;
}

execute_next-fixed_example :
    execute_next (λ d. 0) 0 machine ≡ ok tt (record machine { ip = 10 + (22 - 10) })
execute_next-fixed_example =
    execute_next-fixed (λ d. 0) 0 host float_bits lines read end_key 1 0 end_ref 10 22 machine
      read-lines (omega (arith, file_size)) end_found end_place (omega arith)
      (omega (arith, file_size)) end_listed (omega arith) (rw end_fixed (inl refl))
      (rw end_fixed machine-HasProgram) refl

-- "\tbra end // x"
abbrev third : List ℕ
third = 9 ∷ 98 ∷ 114 ∷ 97 ∷ 32 ∷ 101 ∷ 110 ∷ 100 ∷ 32 ∷ 47 ∷ 47 ∷ 32 ∷ 120 ∷ []

next_segment-IsRun_example :
    (segment : Segment) × (next : ℕ) × (next_segment third 4 ≡ some (segment, next))
    × IsRun whitespace third 4 segment.start
    × IsRun text third segment.start segment.end
    × (segment.start + segment.length ≡ segment.end)
next_segment-IsRun_example = next_segment-IsRun third 4 (omega arith) (omega arith)

second_word : next_segment third 4 ≡ some (record { start = 5; length = 3; end = 8 }, 9)
unfolding assembling
second_word = refl

-- "\tbra loop", at the moment at which its case of `assemble` is reached
abbrev back : List ℕ
back = 9 ∷ 98 ∷ 114 ∷ 97 ∷ 32 ∷ 108 ∷ 111 ∷ 111 ∷ 112 ∷ []

abbrev loop_key : List ℕ
loop_key = 108 ∷ 111 ∷ 111 ∷ 112 ∷ []

abbrev first_line : List (List ℕ)
first_line = (108 ∷ 111 ∷ 111 ∷ 112 ∷ 9 ∷ 105 ∷ 110 ∷ 99 ∷ 46 ∷ 108 ∷ 32 ∷ 100 ∷ 48 ∷ 10 ∷ []) ∷ []

abbrev or_no_offsets : Option SourceLine → SourceLine
or_no_offsets none = no_offsets
or_no_offsets (some o) = o

at_back : Asm
at_back = record (or_start (read_source host float_bits first_line)) {
  sourceline = back;
  offsets = or_no_offsets (parse back);
}

behind_back : Asm
behind_back = or_start (emit float_bits one_label opcode_bra 0xFF at_back)

back_emitted : emit float_bits one_label opcode_bra 0xFF at_back ≡ some behind_back
unfolding at_back behind_back assembling
back_emitted = refl

back_size : length at_back.dest ≡ 12
unfolding at_back assembling
back_size = refl

back_pos : at_back.pos ≡ 12
unfolding at_back assembling
back_pos = refl

back_name : get_segment at_back.sourceline at_back.offsets.arg1 ≡ loop_key
unfolding at_back assembling
back_name = refl

loop_found : is_null (stree_get at_back.labels loop_key) ≡ false
unfolding at_back assembling
loop_found = refl

loop_place : Label.node_value (stree_get at_back.labels loop_key) ≡ 10
unfolding at_back assembling
loop_place = refl

-- The five bytes of the branch are in the file as they were written.
back_bytes :
    (i : ℕ)
    → i < 5
    → char_at file (length at_back.dest + i) ≡ char_at behind_back.dest (length at_back.dest + i)
unfolding at_back behind_back assembling
back_bytes zero h = refl
back_bytes (suc zero) h = refl
back_bytes (suc (suc zero)) h = refl
back_bytes (suc (suc (suc zero))) h = refl
back_bytes (suc (suc (suc (suc zero)))) h = refl
back_bytes (suc (suc (suc (suc (suc i))))) h = absurd (omega arith)

execute_next-known_example :
    execute_next (λ d. 0) 0 (record machine { ip = 12 })
    ≡ ok tt (record machine { ip = 10 + (10 - 10) })
execute_next-known_example =
    execute_next-known (λ d. 0) 0 float_bits opcode_bra 0xFF at_back behind_back loop_key file 10 10
      (record machine { ip = 12 }) (omega (arith, back_pos, back_size)) back_name (omega arith)
      loop_found loop_place (omega arith) (omega (arith, back_size)) (inl refl) back_emitted
      (omega (arith, back_size)) (omega arith) back_bytes
      (record {
        bytes = machine-HasProgram.bytes;
        image = machine-HasProgram.image;
        inside = machine-HasProgram.inside;
        addressed = machine-HasProgram.addressed;
      })
      (omega (arith, back_size))
