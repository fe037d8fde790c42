-- ===== src/Dasm/Examples.antt =====
-- A file that src/mhdasm.c takes apart, and the laws at it.
use mihini.Prelude.{ℕ, ◌+◌, ◌≡◌, true, refl, arith, List, [], ◌∷◌, Option, none, some, length}
use mihini.Prelude.Ascii.{drop}
use mihini.Opcode
use mihini.Btree.{btree_new, btree_add, btree_insert, btree_get}
use mihini.Opcode.Tables.{opcode_strings, add_all, load_opcodes_strings}
use mihini.Printer
use mihini.Printer.Immediate
use mihini.Asm.{Asm}
use mihini.Asm.Layout.{choose, layouts}
use mihini.Asm.Assemble.{emit}
use mihini.Stree.{null}
use mihini.Asm.Lengths.{operand_bytes}
use mihini.Width.{vm_width_to_bytes}
use mihini.Dasm
use mihini.Dasm.{value_le, Dasm, Result, done, undefined, out_of_fuel}
use mihini.Dasm.Layout.{first_layouts, second_layouts}
use mihini.Dasm.First.{first_operands}
use mihini.Dasm.First
use mihini.Dasm.Second
use mihini.Dasm.Second.{second_operands}
use mihini.Dasm.Main.{dasm_main, dasm_start}
use mihini.Dasm.Main
use mihini.Dasm.Lengths.{Leaves}
use mihini.Dasm.Lengths.Agree.{first_takes, second_takes, operands-lengths}

-- What the tests run
unfoldable disassembling : Unit {0}
unfolding btree_new btree_add btree_insert btree_get opcode_strings add_all load_opcodes_strings
    Printer.print_width Printer.register_prefix Printer.register_suffix Printer.print_register
    Immediate.digit_char Immediate.digits_of Immediate.print_immediate_value Dasm.◌>>=◌ Dasm.pure
    Dasm.get Dasm.modify Dasm.fail Dasm.value_le Dasm.read_bytes Dasm.read_uint8 Dasm.read_uint16
    Dasm.read_uint32 Dasm.read_uint64 Dasm.read_variable first_layouts second_layouts choose
    First.opcode_asm First.lookup_opcode First.add_label First.first_operands First.first_pass
    Second.label_name Second.instruction_text Second.print_place Second.print_with_label
    Second.second_operands Second.disassemble Main.dasm_start Main.pass_loop Main.two_passes
    Main.dasm_main
disassembling = tt

-- "inc.l d0", a branch to it, a branch behind itself, and "stop"
abbrev file : List ℕ
file =
    109 ∷ 105 ∷ 104 ∷ 105 ∷ 110 ∷ 105 ∷ 1 ∷ 0 ∷ 0 ∷ 0 ∷ 22 ∷ 0 ∷ 232 ∷ 245 ∷ 255 ∷ 255 ∷ 255 ∷ 232
    ∷ 252 ∷ 255 ∷ 255 ∷ 255 ∷ 253 ∷ []

abbrev float_text : ℕ → List ℕ
float_text v = []

abbrev junk : ℕ → ℕ
junk n = 0

abbrev text_of : {A : Type 0} → Result A → List ℕ
text_of (done a s) = s.dest
text_of undefined = []
text_of out_of_fuel = []

-- "\nlabel1\tinc.l d0", "\t\tbra label1", "\t\tbra label3", "\nlabel3\tstop", and a last line for the
-- opcode that the read at the end of the file does not find: here it is 0, "\t\tnop".
file_disassembled :
    text_of (dasm_main float_text junk [] file 26 (dasm_start file))
    ≡ 10 ∷ 108 ∷ 97 ∷ 98 ∷ 101 ∷ 108 ∷ 49 ∷ 9 ∷ 105 ∷ 110 ∷ 99 ∷ 46 ∷ 108 ∷ 32 ∷ 100 ∷ 48 ∷ 10 ∷ 9
      ∷ 9 ∷ 98 ∷ 114 ∷ 97 ∷ 32 ∷ 108 ∷ 97 ∷ 98 ∷ 101 ∷ 108 ∷ 49 ∷ 10 ∷ 9 ∷ 9 ∷ 98 ∷ 114 ∷ 97 ∷ 32
      ∷ 108 ∷ 97 ∷ 98 ∷ 101 ∷ 108 ∷ 51 ∷ 10 ∷ 10 ∷ 108 ∷ 97 ∷ 98 ∷ 101 ∷ 108 ∷ 51 ∷ 9 ∷ 115 ∷ 116
      ∷ 111 ∷ 112 ∷ 10 ∷ 9 ∷ 9 ∷ 110 ∷ 111 ∷ 112 ∷ 10 ∷ []
unfolding disassembling
file_disassembled = refl

-- "inc.l d0", a branch to what follows it, and "stop": each of these bytes is an opcode.
abbrev short_file : List ℕ
short_file =
    109 ∷ 105 ∷ 104 ∷ 105 ∷ 110 ∷ 105 ∷ 1 ∷ 0 ∷ 0 ∷ 0 ∷ 22 ∷ 0 ∷ 232 ∷ 0 ∷ 0 ∷ 0 ∷ 0 ∷ 253 ∷ []

abbrev float_bits : List ℕ → ℕ
float_bits cs = 0

-- "\taddi.l #5 d1"
abbrev addi_line : Asm
addi_line = record {
  sourceline = 9 ∷ 97 ∷ 100 ∷ 100 ∷ 105 ∷ 46 ∷ 108 ∷ 32 ∷ 35 ∷ 53 ∷ 32 ∷ 100 ∷ 49 ∷ [];
  offsets = record {
    label = record { start = 0; length = 0; end = 0 };
    opcode = record { start = 1; length = 4; end = 5 };
    width = record { start = 6; length = 1; end = 7 };
    arg1 = record { start = 8; length = 2; end = 10 };
    arg2 = record { start = 11; length = 2; end = 13 };
    arg3 = record { start = 0; length = 0; end = 0 };
    comment = record { start = 0; length = 0; end = 0 };
  };
  line_number = 1;
  dest = [];
  pos = 0;
  labels = null;
  fwd_labels = null;
  lists = λ a. [];
  fresh = 1;
  opcodes = null;
  reports = [];
  malloc = record { zeroed = true; usable = λ n. n + 8 };
}

abbrev or_line : Option Asm → Asm
or_line none = addi_line
or_line (some s) = s

emitted : Asm
emitted =
    or_line (emit float_bits (choose Opcode.opcode_addi layouts) Opcode.opcode_addi 2 addi_line)

emitted-some :
    emit float_bits (choose Opcode.opcode_addi layouts) Opcode.opcode_addi 2 addi_line
    ≡ some emitted
unfolding emitted emit choose layouts
emitted-some = refl

addi_operands : operand_bytes (choose Opcode.opcode_addi layouts) 2 ≡ some 5
unfolding choose layouts vm_width_to_bytes
addi_operands = refl

operands-lengths_example :
    (length emitted.dest ≡ length addi_line.dest + (5 + 1))
    × Leaves (drop (first_takes Opcode.opcode_addi 5) file) (
        first_operands junk
          (choose Opcode.opcode_addi first_layouts)
          2
          Opcode.opcode_addi
          (dasm_start file))
    × Leaves (drop (second_takes Opcode.opcode_addi 5) file) (
        second_operands float_text junk
          (choose Opcode.opcode_addi second_layouts)
          2
          []
          (dasm_start file))
unfolding dasm_start
operands-lengths_example =
    operands-lengths float_bits float_text junk Opcode.opcode_addi 2 5 [] addi_line emitted
      (dasm_start file) (omega arith) (omega arith) addi_operands emitted-some (omega arith)
