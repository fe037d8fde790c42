-- ===== src/Dasm/Layout.antt =====
-- The groups of cases in the two passes of src/mhdasm.c.
use mihini.Prelude.{ℕ, List, [], ◌∷◌}
use mihini.Opcode
use mihini.Asm.Layout.{
  Layout, nothing, one_label, one_immediate, one_reg, one_reg_width, label_reg, long_reg, value_reg,
  byte_reg, float_reg, two_regs, set_reg, reg_set, value_two_regs, three_regs, two_reg_opcodes,
}

-- The branches and calls to a label; JMP is one in the second pass alone.
abbrev pub branch_opcodes : List ℕ → List ℕ
branch_opcodes more =
    Opcode.opcode_bra ∷ Opcode.opcode_beq ∷ Opcode.opcode_bne ∷ Opcode.opcode_bcb
    ∷ Opcode.opcode_blt ∷ Opcode.opcode_bgt ∷ Opcode.opcode_ble ∷ Opcode.opcode_bge
    ∷ Opcode.opcode_call ∷ more

-- The operations with an immediate of their width; each pass takes one more into this group.
abbrev pub value_opcodes : ℕ → List ℕ
value_opcodes more =
    Opcode.opcode_load ∷ Opcode.opcode_addi ∷ Opcode.opcode_subi ∷ Opcode.opcode_muli
    ∷ Opcode.opcode_andi ∷ Opcode.opcode_ori ∷ Opcode.opcode_xori ∷ Opcode.opcode_lsli
    ∷ Opcode.opcode_lsri ∷ Opcode.opcode_roli ∷ Opcode.opcode_rori ∷ Opcode.opcode_cmpi ∷ more ∷ []

-- The groups of `first_pass`, in order
unfoldable pub first_layouts : List (List ℕ × Layout)
first_layouts =
    (Opcode.opcode_nop ∷ Opcode.opcode_ret ∷ Opcode.opcode_stop ∷ [], nothing)
    ∷ (Opcode.opcode_jmpi ∷ Opcode.opcode_calli ∷ Opcode.opcode_syscall ∷ [], one_immediate)
    ∷ (
      Opcode.opcode_not ∷ Opcode.opcode_inc ∷ Opcode.opcode_dec ∷ Opcode.opcode_clr
          ∷ Opcode.opcode_jmpm ∷ Opcode.opcode_callm ∷ Opcode.opcode_free ∷ [],
      one_reg,
    )
    ∷ (branch_opcodes [], one_label)
    ∷ (Opcode.opcode_refer ∷ [], label_reg)
    ∷ (Opcode.opcode_pop ∷ Opcode.opcode_push ∷ [], set_reg)
    ∷ (Opcode.opcode_alloc ∷ [], long_reg)
    ∷ (value_opcodes Opcode.opcode_fload, value_reg)
    ∷ (Opcode.opcode_tsti ∷ [], byte_reg)
    ∷ (two_reg_opcodes, two_regs)
    ∷ (Opcode.opcode_divi ∷ [], value_two_regs)
    ∷ (Opcode.opcode_div ∷ [], three_regs)
    ∷ []

-- The groups of `disassemble`, in order
unfoldable pub second_layouts : List (List ℕ × Layout)
second_layouts =
    (Opcode.opcode_nop ∷ Opcode.opcode_ret ∷ Opcode.opcode_stop ∷ [], nothing)
    ∷ (branch_opcodes (Opcode.opcode_jmp ∷ []), one_label)
    ∷ (Opcode.opcode_jmpi ∷ Opcode.opcode_calli ∷ Opcode.opcode_syscall ∷ [], one_immediate)
    ∷ (Opcode.opcode_refer ∷ [], label_reg)
    ∷ (Opcode.opcode_push ∷ [], set_reg)
    ∷ (Opcode.opcode_pop ∷ [], reg_set)
    ∷ (Opcode.opcode_jmpm ∷ Opcode.opcode_callm ∷ Opcode.opcode_free ∷ [], one_reg)
    ∷ (
      Opcode.opcode_not ∷ Opcode.opcode_inc ∷ Opcode.opcode_dec ∷ Opcode.opcode_clr ∷ [],
      one_reg_width,
    )
    ∷ (Opcode.opcode_alloc ∷ [], long_reg)
    ∷ (value_opcodes Opcode.opcode_tsti, value_reg)
    ∷ (Opcode.opcode_fload ∷ [], float_reg)
    ∷ (two_reg_opcodes, two_regs)
    ∷ (Opcode.opcode_divi ∷ [], value_two_regs)
    ∷ (Opcode.opcode_div ∷ [], three_regs)
    ∷ []
