-- ===== src/Dasm/First.antt =====
-- `first_pass` of src/mhdasm.c, which collects the labels.
use mihini.Prelude.{ℕ, ◌+◌, ltb, if◌then◌else◌, List, u32, bit_and}
use mihini.Opcode.{opcode_bra}
use mihini.Btree.{BtreeNode, null, node, btree_add, btree_get}
use mihini.Asm.Layout.{
  Layout, nothing, one_label, one_immediate, one_reg, label_reg, long_reg, value_reg, byte_reg,
  two_regs, set_reg, value_two_regs, three_regs, choose,
}
use mihini.Dasm.{
  M, Action, ◌>>=◌, ◌>>◌, pure, get, modify, fail, message, unknown_opcode, read_uint8, read_uint16,
  read_uint32, read_uint64, read_variable,
}
use mihini.Dasm.Layout.{first_layouts}

-- The opcode without its width, where it has one
abbrev pub operation : ℕ → ℕ
operation opcode = if ltb opcode opcode_bra then bit_and opcode 0b11111100 else opcode

abbrev pub width_of : ℕ → ℕ
width_of opcode = bit_and opcode 0b11

-- `(char*)node->value`: a node that is NULL is reported, and then followed.
unfoldable pub opcode_asm : BtreeNode (List ℕ) → M (List ℕ)
opcode_asm null = fail
opcode_asm (node l k name r) = pure name

unfoldable pub lookup_opcode : ℕ → M (List ℕ)
lookup_opcode opcode = do s ← get; opcode_asm (btree_get s.opcodes opcode)

-- `btree_add` of a label at `offset` from here. The sum is an `int`, taken modulo 2 ^ 32.
unfoldable pub add_label : ℕ → Action
add_label offset = modify λ s. record s {
  labels = btree_add s.labels (u32 (s.pos + offset)) s.label_num;
  label_num = u32 (s.label_num + 1);
}

module _ (junk : ℕ → ℕ) where
  abbrev pub skip_uint8 : Action
  skip_uint8 = do read_uint8 junk; pure tt

  -- The bodies of the cases; `no_case` and what has no group of its own stand for the default.
  unfoldable pub first_operands : Layout → ℕ → ℕ → Action
  first_operands nothing width opcode = pure tt
  first_operands one_immediate width opcode = do read_uint32 junk; pure tt
  first_operands one_reg width opcode = skip_uint8
  first_operands one_label width opcode = do offset ← read_uint32 junk; add_label offset
  first_operands label_reg width opcode = do offset ← read_uint32 junk; add_label offset; skip_uint8
  first_operands set_reg width opcode = do read_uint16 junk; skip_uint8
  first_operands long_reg width opcode = do read_uint32 junk; skip_uint8
  first_operands value_reg width opcode = do read_uint64 junk; skip_uint8
  first_operands byte_reg width opcode = do read_uint8 junk; skip_uint8
  first_operands two_regs width opcode = do read_uint8 junk; skip_uint8
  first_operands value_two_regs width opcode = do
    read_variable junk width
    read_uint8 junk
    skip_uint8
  first_operands three_regs width opcode = do read_uint8 junk; read_uint8 junk; skip_uint8
  first_operands other width opcode = message (unknown_opcode opcode)

  unfoldable pub first_pass : ℕ → Action
  first_pass opcode = do
    lookup_opcode (operation opcode)
    first_operands (choose (operation opcode) first_layouts) (width_of opcode) (operation opcode)
