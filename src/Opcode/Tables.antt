-- ===== src/Opcode/Tables.antt =====
-- The tables of src/opcodes.c.
pub mod Load
mod Examples
use mihini.Prelude.{ℕ, List, [], ◌∷◌}
use mihini.Prelude.{Option, some}
use mihini.Prelude.Options.{◌>>=◌}
use mihini.Stree.{StreeNode, Malloc, stree_set}
use mihini.Btree.{BtreeNode, btree_add}
use mihini.Opcode
use mihini.Opcode.Names

-- The calls of `stree_set` in `load_opcodes_values`, in order: a mnemonic and its opcode
unfoldable pub opcode_values : List (List ℕ × ℕ)
opcode_values =
    (Names.opcode_nop_str, Opcode.opcode_nop)
    ∷ (Names.opcode_load_str, Opcode.opcode_load)
    ∷ (Names.opcode_move_str, Opcode.opcode_move)
    ∷ (Names.opcode_push_str, Opcode.opcode_push)
    ∷ (Names.opcode_pop_str, Opcode.opcode_pop)
    ∷ (Names.opcode_inc_str, Opcode.opcode_inc)
    ∷ (Names.opcode_dec_str, Opcode.opcode_dec)
    ∷ (Names.opcode_clr_str, Opcode.opcode_clr)
    ∷ (Names.opcode_addi_str, Opcode.opcode_addi)
    ∷ (Names.opcode_add_str, Opcode.opcode_add)
    ∷ (Names.opcode_subi_str, Opcode.opcode_subi)
    ∷ (Names.opcode_sub_str, Opcode.opcode_sub)
    ∷ (Names.opcode_muli_str, Opcode.opcode_muli)
    ∷ (Names.opcode_mul_str, Opcode.opcode_mul)
    ∷ (Names.opcode_divi_str, Opcode.opcode_divi)
    ∷ (Names.opcode_div_str, Opcode.opcode_div)
    ∷ (Names.opcode_andi_str, Opcode.opcode_andi)
    ∷ (Names.opcode_and_str, Opcode.opcode_and)
    ∷ (Names.opcode_ori_str, Opcode.opcode_ori)
    ∷ (Names.opcode_or_str, Opcode.opcode_or)
    ∷ (Names.opcode_xori_str, Opcode.opcode_xori)
    ∷ (Names.opcode_xor_str, Opcode.opcode_xor)
    ∷ (Names.opcode_lsli_str, Opcode.opcode_lsli)
    ∷ (Names.opcode_lsl_str, Opcode.opcode_lsl)
    ∷ (Names.opcode_lsri_str, Opcode.opcode_lsri)
    ∷ (Names.opcode_lsr_str, Opcode.opcode_lsr)
    ∷ (Names.opcode_roli_str, Opcode.opcode_roli)
    ∷ (Names.opcode_rol_str, Opcode.opcode_rol)
    ∷ (Names.opcode_rori_str, Opcode.opcode_rori)
    ∷ (Names.opcode_ror_str, Opcode.opcode_ror)
    ∷ (Names.opcode_not_str, Opcode.opcode_not)
    ∷ (Names.opcode_tst_str, Opcode.opcode_tst)
    ∷ (Names.opcode_cmpi_str, Opcode.opcode_cmpi)
    ∷ (Names.opcode_cmp_str, Opcode.opcode_cmp)
    ∷ (Names.opcode_fload_str, Opcode.opcode_fload)
    ∷ (Names.opcode_fcast_str, Opcode.opcode_fcast)
    ∷ (Names.opcode_fround_str, Opcode.opcode_fround)
    ∷ (Names.opcode_fadd_str, Opcode.opcode_fadd)
    ∷ (Names.opcode_fsub_str, Opcode.opcode_fsub)
    ∷ (Names.opcode_fmul_str, Opcode.opcode_fmul)
    ∷ (Names.opcode_fdiv_str, Opcode.opcode_fdiv)
    ∷ (Names.opcode_fmod_str, Opcode.opcode_fmod)
    ∷ (Names.opcode_fsqrt_str, Opcode.opcode_fsqrt)
    ∷ (Names.opcode_fexp_str, Opcode.opcode_fexp)
    ∷ (Names.opcode_flog_str, Opcode.opcode_flog)
    ∷ (Names.opcode_flog10_str, Opcode.opcode_flog10)
    ∷ (Names.opcode_fceil_str, Opcode.opcode_fceil)
    ∷ (Names.opcode_ffloor_str, Opcode.opcode_ffloor)
    ∷ (Names.opcode_fpow_str, Opcode.opcode_fpow)
    ∷ (Names.opcode_fsin_str, Opcode.opcode_fsin)
    ∷ (Names.opcode_fcos_str, Opcode.opcode_fcos)
    ∷ (Names.opcode_ftan_str, Opcode.opcode_ftan)
    ∷ (Names.opcode_data_str, Opcode.opcode_data)
    ∷ (Names.opcode_bra_str, Opcode.opcode_bra)
    ∷ (Names.opcode_beq_str, Opcode.opcode_beq)
    ∷ (Names.opcode_bne_str, Opcode.opcode_bne)
    ∷ (Names.opcode_bcb_str, Opcode.opcode_bcb)
    ∷ (Names.opcode_blt_str, Opcode.opcode_blt)
    ∷ (Names.opcode_bgt_str, Opcode.opcode_bgt)
    ∷ (Names.opcode_ble_str, Opcode.opcode_ble)
    ∷ (Names.opcode_bge_str, Opcode.opcode_bge)
    ∷ (Names.opcode_jmpi_str, Opcode.opcode_jmpi)
    ∷ (Names.opcode_jmpm_str, Opcode.opcode_jmpm)
    ∷ (Names.opcode_jmp_str, Opcode.opcode_jmp)
    ∷ (Names.opcode_calli_str, Opcode.opcode_calli)
    ∷ (Names.opcode_callm_str, Opcode.opcode_callm)
    ∷ (Names.opcode_call_str, Opcode.opcode_call)
    ∷ (Names.opcode_ret_str, Opcode.opcode_ret)
    ∷ (Names.opcode_alloc_str, Opcode.opcode_alloc)
    ∷ (Names.opcode_free_str, Opcode.opcode_free)
    ∷ (Names.opcode_syscall_str, Opcode.opcode_syscall)
    ∷ (Names.opcode_refer_str, Opcode.opcode_refer)
    ∷ (Names.opcode_stop_str, Opcode.opcode_stop)
    ∷ (Names.opcode_ext_str, Opcode.opcode_ext)
    ∷ []

-- The calls of `btree_add` in `load_opcodes_strings`, in order
unfoldable pub opcode_strings : List (ℕ × List ℕ)
opcode_strings =
    (Opcode.opcode_nop, Names.opcode_nop_str)
    ∷ (Opcode.opcode_load, Names.opcode_load_str)
    ∷ (Opcode.opcode_move, Names.opcode_move_str)
    ∷ (Opcode.opcode_push, Names.opcode_push_str)
    ∷ (Opcode.opcode_pop, Names.opcode_pop_str)
    ∷ (Opcode.opcode_inc, Names.opcode_inc_str)
    ∷ (Opcode.opcode_dec, Names.opcode_dec_str)
    ∷ (Opcode.opcode_clr, Names.opcode_clr_str)
    ∷ (Opcode.opcode_addi, Names.opcode_addi_str)
    ∷ (Opcode.opcode_add, Names.opcode_add_str)
    ∷ (Opcode.opcode_subi, Names.opcode_subi_str)
    ∷ (Opcode.opcode_sub, Names.opcode_sub_str)
    ∷ (Opcode.opcode_muli, Names.opcode_muli_str)
    ∷ (Opcode.opcode_mul, Names.opcode_mul_str)
    ∷ (Opcode.opcode_divi, Names.opcode_divi_str)
    ∷ (Opcode.opcode_div, Names.opcode_div_str)
    ∷ (Opcode.opcode_andi, Names.opcode_andi_str)
    ∷ (Opcode.opcode_and, Names.opcode_and_str)
    ∷ (Opcode.opcode_ori, Names.opcode_ori_str)
    ∷ (Opcode.opcode_or, Names.opcode_or_str)
    ∷ (Opcode.opcode_xori, Names.opcode_xori_str)
    ∷ (Opcode.opcode_xor, Names.opcode_xor_str)
    ∷ (Opcode.opcode_lsli, Names.opcode_lsli_str)
    ∷ (Opcode.opcode_lsl, Names.opcode_lsl_str)
    ∷ (Opcode.opcode_lsri, Names.opcode_lsri_str)
    ∷ (Opcode.opcode_lsr, Names.opcode_lsr_str)
    ∷ (Opcode.opcode_roli, Names.opcode_roli_str)
    ∷ (Opcode.opcode_rol, Names.opcode_rol_str)
    ∷ (Opcode.opcode_rori, Names.opcode_rori_str)
    ∷ (Opcode.opcode_ror, Names.opcode_ror_str)
    ∷ (Opcode.opcode_not, Names.opcode_not_str)
    ∷ (Opcode.opcode_tst, Names.opcode_tst_str)
    ∷ (Opcode.opcode_cmpi, Names.opcode_cmpi_str)
    ∷ (Opcode.opcode_cmp, Names.opcode_cmp_str)
    ∷ (Opcode.opcode_fload, Names.opcode_fload_str)
    ∷ (Opcode.opcode_fcast, Names.opcode_fcast_str)
    ∷ (Opcode.opcode_fround, Names.opcode_fround_str)
    ∷ (Opcode.opcode_fadd, Names.opcode_fadd_str)
    ∷ (Opcode.opcode_fsub, Names.opcode_fsub_str)
    ∷ (Opcode.opcode_fmul, Names.opcode_fmul_str)
    ∷ (Opcode.opcode_fdiv, Names.opcode_fdiv_str)
    ∷ (Opcode.opcode_fmod, Names.opcode_fmod_str)
    ∷ (Opcode.opcode_fsqrt, Names.opcode_fsqrt_str)
    ∷ (Opcode.opcode_fexp, Names.opcode_fexp_str)
    ∷ (Opcode.opcode_flog, Names.opcode_flog_str)
    ∷ (Opcode.opcode_flog10, Names.opcode_flog10_str)
    ∷ (Opcode.opcode_fceil, Names.opcode_fceil_str)
    ∷ (Opcode.opcode_ffloor, Names.opcode_ffloor_str)
    ∷ (Opcode.opcode_fpow, Names.opcode_fpow_str)
    ∷ (Opcode.opcode_fsin, Names.opcode_fsin_str)
    ∷ (Opcode.opcode_fcos, Names.opcode_fcos_str)
    ∷ (Opcode.opcode_ftan, Names.opcode_ftan_str)
    ∷ (Opcode.opcode_bra, Names.opcode_bra_str)
    ∷ (Opcode.opcode_beq, Names.opcode_beq_str)
    ∷ (Opcode.opcode_bne, Names.opcode_bne_str)
    ∷ (Opcode.opcode_bcb, Names.opcode_bcb_str)
    ∷ (Opcode.opcode_blt, Names.opcode_blt_str)
    ∷ (Opcode.opcode_bgt, Names.opcode_bgt_str)
    ∷ (Opcode.opcode_ble, Names.opcode_ble_str)
    ∷ (Opcode.opcode_bge, Names.opcode_bge_str)
    ∷ (Opcode.opcode_jmpi, Names.opcode_jmpi_str)
    ∷ (Opcode.opcode_jmpm, Names.opcode_jmpm_str)
    ∷ (Opcode.opcode_jmp, Names.opcode_jmp_str)
    ∷ (Opcode.opcode_calli, Names.opcode_calli_str)
    ∷ (Opcode.opcode_callm, Names.opcode_callm_str)
    ∷ (Opcode.opcode_call, Names.opcode_call_str)
    ∷ (Opcode.opcode_ret, Names.opcode_ret_str)
    ∷ (Opcode.opcode_alloc, Names.opcode_alloc_str)
    ∷ (Opcode.opcode_free, Names.opcode_free_str)
    ∷ (Opcode.opcode_syscall, Names.opcode_syscall_str)
    ∷ (Opcode.opcode_stop, Names.opcode_stop_str)
    ∷ (Opcode.opcode_refer, Names.opcode_refer_str)
    ∷ (Opcode.opcode_ext, Names.opcode_ext_str)
    ∷ []

unfoldable pub add_all : List (ℕ × List ℕ) → BtreeNode (List ℕ) → BtreeNode (List ℕ)
add_all [] tree = tree
add_all (e ∷ es) tree = add_all es (btree_add tree (e.0) (e.1))

unfoldable pub load_opcodes_strings : BtreeNode (List ℕ) → BtreeNode (List ℕ)
load_opcodes_strings tree = add_all opcode_strings tree

unfoldable pub set_all : Malloc → List (List ℕ × ℕ) → StreeNode → Option StreeNode
set_all malloc [] tree = some tree
set_all malloc (e ∷ es) tree = do tree' ← stree_set malloc tree (e.0) (e.1); set_all malloc es tree'

unfoldable pub load_opcodes_values : Malloc → StreeNode → Option StreeNode
load_opcodes_values malloc tree = set_all malloc opcode_values tree
