-- ===== src/Dasm/Second.antt =====
-- `disassemble` of src/mhdasm.c, which prints an instruction. `float_text` is the "%f" of the printer.
use mihini.Prelude.{ℕ, ◌+◌, ◌-◌, ◌^◌, List, [], ◌∷◌, ◌++◌, u32}
use mihini.Prelude.Ascii.{tab_char, line_feed, space, dot}
use mihini.Btree.{BtreeNode, null, node, btree_get}
use mihini.Printer.{print_width, print_register, print_register_bitmask}
use mihini.Printer.Immediate.{decimal, print_immediate_value, print_immediate_float_value}
use mihini.Asm.Layout.{
  Layout, nothing, one_label, one_immediate, one_reg, one_reg_width, label_reg, long_reg, value_reg,
  float_reg, two_regs, set_reg, reg_set, value_two_regs, three_regs, choose,
}
use mihini.Dasm.{
  M, Action, ◌>>=◌, ◌>>◌, pure, get, message, no_label, print, print_line, read_uint8, read_uint16,
  read_uint32, read_uint64, read_variable,
}
use mihini.Dasm.Layout.{second_layouts}
use mihini.Dasm.First.{operation, width_of, lookup_opcode}

-- "label" and the number, as "%d" prints it below 2 ^ 31
unfoldable pub label_name : ℕ → List ℕ
label_name n = 108 ∷ 97 ∷ 98 ∷ 101 ∷ 108 ∷ decimal n

-- "\t%s %s ...\n"
unfoldable pub instruction_text : List ℕ → List (List ℕ) → List ℕ
instruction_text name [] = name ++ (line_feed ∷ [])
instruction_text name (arg ∷ args) = instruction_text (name ++ (space ∷ arg)) args

abbrev pub print_instruction : List ℕ → List (List ℕ) → Action
print_instruction name args = print_line (tab_char ∷ instruction_text name args)

-- "%s.%c"
abbrev pub with_width : List ℕ → ℕ → List ℕ
with_width name width = name ++ (dot ∷ print_width width ∷ [])

-- What stands in front of the instruction that was just begun: its label, or a tab
unfoldable pub print_place : BtreeNode ℕ → Action
print_place null = print (tab_char ∷ [])
print_place (node l k label r) = print_line (line_feed ∷ label_name label)

-- A line with a label, if there is one, in front of the other operands
unfoldable pub print_with_label : List ℕ → BtreeNode ℕ → List (List ℕ) → Action
print_with_label name null args = message no_label
print_with_label name (node l k label r) args = print_instruction name (label_name label ∷ args)

module _ (float_text : ℕ → List ℕ) (junk : ℕ → ℕ) where
  abbrev pub printed_register : M (List ℕ)
  printed_register = do reg ← read_uint8 junk; pure (print_register reg)

  abbrev pub printed_set : M (List ℕ)
  printed_set = do mask ← read_uint16 junk; pure (print_register_bitmask mask)

  -- The label at an offset that is read
  abbrev pub read_label : M (BtreeNode ℕ)
  read_label = do
    offset ← read_uint32 junk
    s ← get
    pure (btree_get s.labels (u32 (s.pos + offset + 4)))

  -- The bodies of the cases
  unfoldable pub second_operands : Layout → ℕ → List ℕ → Action
  second_operands nothing width name = print_instruction name []
  second_operands one_label width name = do label ← read_label; print_with_label name label []
  second_operands one_immediate width name = do
    value ← read_uint32 junk
    print_instruction name (print_immediate_value value ∷ [])
  second_operands label_reg width name = do
    label ← read_label
    reg ← printed_register
    print_with_label name label (reg ∷ [])
  second_operands set_reg width name = do
    set ← printed_set
    reg ← printed_register
    print_instruction (with_width name width) (set ∷ reg ∷ [])
  second_operands reg_set width name = do
    set ← printed_set
    reg ← printed_register
    print_instruction (with_width name width) (reg ∷ set ∷ [])
  second_operands one_reg width name = do reg ← printed_register; print_instruction name (reg ∷ [])
  second_operands one_reg_width width name = do
    reg ← printed_register
    print_instruction (with_width name width) (reg ∷ [])
  second_operands long_reg width name = do
    value ← read_uint32 junk
    reg ← printed_register
    print_instruction name (print_immediate_value value ∷ reg ∷ [])
  second_operands value_reg width name = do
    value ← read_uint8 junk
    reg ← printed_register
    print_instruction (with_width name width) (print_immediate_value value ∷ reg ∷ [])
  second_operands float_reg width name = do
    value ← read_uint64 junk
    reg ← printed_register
    print_instruction (with_width name width)
        (print_immediate_float_value float_text value ∷ reg ∷ [])
  second_operands two_regs width name = do
    rega ← printed_register
    regb ← printed_register
    print_instruction (with_width name width) (rega ∷ regb ∷ [])
  second_operands value_two_regs width name = do
    value ← read_variable junk width
    rega ← printed_register
    regb ← printed_register
    print_instruction (with_width name width) (print_immediate_value value ∷ rega ∷ regb ∷ [])
  second_operands three_regs width name = do
    rega ← printed_register
    regb ← printed_register
    regc ← printed_register
    print_instruction (with_width name width) (rega ∷ regb ∷ regc ∷ [])
  second_operands other width name = pure tt

  unfoldable pub disassemble : ℕ → Action
  disassemble opcode = do
    s ← get
    print_place (btree_get s.labels (u32 (s.pos + 2 ^ 32 - 1)))
    name ← lookup_opcode (operation opcode)
    second_operands (choose (operation opcode) second_layouts) (width_of opcode) name
