-- ===== src/Asm/Layout.antt =====
-- The groups of cases of the `switch` of `assemble` in src/mhasm.c.
use mihini.Prelude.{ℕ, ◌==◌, ◌||◌, if◌then◌else◌, Bool, false, List, [], ◌∷◌}
use mihini.Opcode

-- The groups of cases of the `switch`
pub data Layout : Type 0 where
  nothing one_label one_immediate one_reg one_reg_width label_reg long_reg value_reg : Layout
  byte_reg float_reg two_regs set_reg reg_set value_two_regs three_regs directive no_case : Layout

abbrev pub among : List ℕ → ℕ → Bool
among [] n = false
among (m ∷ ms) n = (n == m) || among ms n

unfoldable pub choose : ℕ → List (List ℕ × Layout) → Layout
choose opcode [] = no_case
choose opcode ((labels, layout) ∷ groups) =
    let rest = choose opcode groups in if among labels opcode then layout else rest

abbrev pub two_reg_opcodes : List ℕ
two_reg_opcodes =
    Opcode.opcode_move ∷ Opcode.opcode_add ∷ Opcode.opcode_sub ∷ Opcode.opcode_mul
    ∷ Opcode.opcode_and ∷ Opcode.opcode_or ∷ Opcode.opcode_xor ∷ Opcode.opcode_lsl
    ∷ Opcode.opcode_lsr ∷ Opcode.opcode_rol ∷ Opcode.opcode_ror ∷ Opcode.opcode_cmp
    ∷ Opcode.opcode_tst ∷ Opcode.opcode_fcast ∷ Opcode.opcode_fround ∷ Opcode.opcode_fadd
    ∷ Opcode.opcode_fsub ∷ Opcode.opcode_fmul ∷ Opcode.opcode_fdiv ∷ Opcode.opcode_fmod
    ∷ Opcode.opcode_fsqrt ∷ Opcode.opcode_fexp ∷ Opcode.opcode_flog ∷ Opcode.opcode_flog10
    ∷ Opcode.opcode_fceil ∷ Opcode.opcode_ffloor ∷ Opcode.opcode_fpow ∷ Opcode.opcode_fsin
    ∷ Opcode.opcode_fcos ∷ Opcode.opcode_ftan ∷ []

unfoldable pub layouts : List (List ℕ × Layout)
layouts =
    (Opcode.opcode_nop ∷ Opcode.opcode_ret ∷ Opcode.opcode_stop ∷ [], nothing)
    ∷ (
      Opcode.opcode_bra ∷ Opcode.opcode_beq ∷ Opcode.opcode_bne ∷ Opcode.opcode_bcb
          ∷ Opcode.opcode_blt ∷ Opcode.opcode_bgt ∷ Opcode.opcode_ble ∷ Opcode.opcode_bge
          ∷ Opcode.opcode_call ∷ Opcode.opcode_jmp ∷ [],
      one_label,
    )
    ∷ (Opcode.opcode_calli ∷ Opcode.opcode_jmpi ∷ Opcode.opcode_syscall ∷ [], one_immediate)
    ∷ (Opcode.opcode_callm ∷ Opcode.opcode_jmpm ∷ Opcode.opcode_free ∷ [], one_reg)
    ∷ (
      Opcode.opcode_not ∷ Opcode.opcode_inc ∷ Opcode.opcode_dec ∷ Opcode.opcode_clr ∷ [],
      one_reg_width,
    )
    ∷ (Opcode.opcode_refer ∷ [], label_reg)
    ∷ (Opcode.opcode_alloc ∷ [], long_reg)
    ∷ (
      Opcode.opcode_load ∷ Opcode.opcode_addi ∷ Opcode.opcode_subi ∷ Opcode.opcode_muli
          ∷ Opcode.opcode_andi ∷ Opcode.opcode_ori ∷ Opcode.opcode_xori ∷ Opcode.opcode_lsli
          ∷ Opcode.opcode_lsri ∷ Opcode.opcode_roli ∷ Opcode.opcode_rori ∷ Opcode.opcode_cmpi ∷ [],
      value_reg,
    )
    ∷ (Opcode.opcode_tsti ∷ [], byte_reg)
    ∷ (Opcode.opcode_fload ∷ [], float_reg)
    ∷ (two_reg_opcodes, two_regs)
    ∷ (Opcode.opcode_push ∷ [], set_reg)
    ∷ (Opcode.opcode_pop ∷ [], reg_set)
    ∷ (Opcode.opcode_divi ∷ [], value_two_regs)
    ∷ (Opcode.opcode_div ∷ [], three_regs)
    ∷ (Opcode.opcode_data ∷ [], directive)
    ∷ []
