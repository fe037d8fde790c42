-- ===== src/Opcode/Names.antt =====
-- The mnemonics of src/opcodes.h, as the bytes of their characters.
use mihini.Prelude.{ℕ, List, [], ◌∷◌}

-- "nop"
abbrev pub opcode_nop_str : List ℕ
opcode_nop_str = 110 ∷ 111 ∷ 112 ∷ []

-- "load"
abbrev pub opcode_load_str : List ℕ
opcode_load_str = 108 ∷ 111 ∷ 97 ∷ 100 ∷ []

-- "move"
abbrev pub opcode_move_str : List ℕ
opcode_move_str = 109 ∷ 111 ∷ 118 ∷ 101 ∷ []

-- "push"
abbrev pub opcode_push_str : List ℕ
opcode_push_str = 112 ∷ 117 ∷ 115 ∷ 104 ∷ []

-- "pop"
abbrev pub opcode_pop_str : List ℕ
opcode_pop_str = 112 ∷ 111 ∷ 112 ∷ []

-- "inc"
abbrev pub opcode_inc_str : List ℕ
opcode_inc_str = 105 ∷ 110 ∷ 99 ∷ []

-- "dec"
abbrev pub opcode_dec_str : List ℕ
opcode_dec_str = 100 ∷ 101 ∷ 99 ∷ []

-- "clr"
abbrev pub opcode_clr_str : List ℕ
opcode_clr_str = 99 ∷ 108 ∷ 114 ∷ []

-- "addi"
abbrev pub opcode_addi_str : List ℕ
opcode_addi_str = 97 ∷ 100 ∷ 100 ∷ 105 ∷ []

-- "add"
abbrev pub opcode_add_str : List ℕ
opcode_add_str = 97 ∷ 100 ∷ 100 ∷ []

-- "subi"
abbrev pub opcode_subi_str : List ℕ
opcode_subi_str = 115 ∷ 117 ∷ 98 ∷ 105 ∷ []

-- "sub"
abbrev pub opcode_sub_str : List ℕ
opcode_sub_str = 115 ∷ 117 ∷ 98 ∷ []

-- "muli"
abbrev pub opcode_muli_str : List ℕ
opcode_muli_str = 109 ∷ 117 ∷ 108 ∷ 105 ∷ []

-- "mul"
abbrev pub opcode_mul_str : List ℕ
opcode_mul_str = 109 ∷ 117 ∷ 108 ∷ []

-- "divi"
abbrev pub opcode_divi_str : List ℕ
opcode_divi_str = 100 ∷ 105 ∷ 118 ∷ 105 ∷ []

-- "div"
abbrev pub opcode_div_str : List ℕ
opcode_div_str = 100 ∷ 105 ∷ 118 ∷ []

-- "andi"
abbrev pub opcode_andi_str : List ℕ
opcode_andi_str = 97 ∷ 110 ∷ 100 ∷ 105 ∷ []

-- "and"
abbrev pub opcode_and_str : List ℕ
opcode_and_str = 97 ∷ 110 ∷ 100 ∷ []

-- "ori"
abbrev pub opcode_ori_str : List ℕ
opcode_ori_str = 111 ∷ 114 ∷ 105 ∷ []

-- "or"
abbrev pub opcode_or_str : List ℕ
opcode_or_str = 111 ∷ 114 ∷ []

-- "xori"
abbrev pub opcode_xori_str : List ℕ
opcode_xori_str = 120 ∷ 111 ∷ 114 ∷ 105 ∷ []

-- "xor"
abbrev pub opcode_xor_str : List ℕ
opcode_xor_str = 120 ∷ 111 ∷ 114 ∷ []

-- "lsli"
abbrev pub opcode_lsli_str : List ℕ
opcode_lsli_str = 108 ∷ 115 ∷ 108 ∷ 105 ∷ []

-- "lsl"
abbrev pub opcode_lsl_str : List ℕ
opcode_lsl_str = 108 ∷ 115 ∷ 108 ∷ []

-- "lsri"
abbrev pub opcode_lsri_str : List ℕ
opcode_lsri_str = 108 ∷ 115 ∷ 114 ∷ 105 ∷ []

-- "lsr"
abbrev pub opcode_lsr_str : List ℕ
opcode_lsr_str = 108 ∷ 115 ∷ 114 ∷ []

-- "roli"
abbrev pub opcode_roli_str : List ℕ
opcode_roli_str = 114 ∷ 111 ∷ 108 ∷ 105 ∷ []

-- "rol"
abbrev pub opcode_rol_str : List ℕ
opcode_rol_str = 114 ∷ 111 ∷ 108 ∷ []

-- "rori"
abbrev pub opcode_rori_str : List ℕ
opcode_rori_str = 114 ∷ 111 ∷ 114 ∷ 105 ∷ []

-- "ror"
abbrev pub opcode_ror_str : List ℕ
opcode_ror_str = 114 ∷ 111 ∷ 114 ∷ []

-- "not"
abbrev pub opcode_not_str : List ℕ
opcode_not_str = 110 ∷ 111 ∷ 116 ∷ []

-- "tsti"
abbrev pub opcode_tsti_str : List ℕ
opcode_tsti_str = 116 ∷ 115 ∷ 116 ∷ 105 ∷ []

-- "tst"
abbrev pub opcode_tst_str : List ℕ
opcode_tst_str = 116 ∷ 115 ∷ 116 ∷ []

-- "cmpi"
abbrev pub opcode_cmpi_str : List ℕ
opcode_cmpi_str = 99 ∷ 109 ∷ 112 ∷ 105 ∷ []

-- "cmp"
abbrev pub opcode_cmp_str : List ℕ
opcode_cmp_str = 99 ∷ 109 ∷ 112 ∷ []

-- "fload"
abbrev pub opcode_fload_str : List ℕ
opcode_fload_str = 102 ∷ 108 ∷ 111 ∷ 97 ∷ 100 ∷ []

-- "fcast"
abbrev pub opcode_fcast_str : List ℕ
opcode_fcast_str = 102 ∷ 99 ∷ 97 ∷ 115 ∷ 116 ∷ []

-- "fround"
abbrev pub opcode_fround_str : List ℕ
opcode_fround_str = 102 ∷ 114 ∷ 111 ∷ 117 ∷ 110 ∷ 100 ∷ []

-- "fadd"
abbrev pub opcode_fadd_str : List ℕ
opcode_fadd_str = 102 ∷ 97 ∷ 100 ∷ 100 ∷ []

-- "fsub"
abbrev pub opcode_fsub_str : List ℕ
opcode_fsub_str = 102 ∷ 115 ∷ 117 ∷ 98 ∷ []

-- "fmul"
abbrev pub opcode_fmul_str : List ℕ
opcode_fmul_str = 102 ∷ 109 ∷ 117 ∷ 108 ∷ []

-- "fdiv"
abbrev pub opcode_fdiv_str : List ℕ
opcode_fdiv_str = 102 ∷ 100 ∷ 105 ∷ 118 ∷ []

-- "fmod"
abbrev pub opcode_fmod_str : List ℕ
opcode_fmod_str = 102 ∷ 109 ∷ 111 ∷ 100 ∷ []

-- "fsqrt"
abbrev pub opcode_fsqrt_str : List ℕ
opcode_fsqrt_str = 102 ∷ 115 ∷ 113 ∷ 114 ∷ 116 ∷ []

-- "fexp"
abbrev pub opcode_fexp_str : List ℕ
opcode_fexp_str = 102 ∷ 101 ∷ 120 ∷ 112 ∷ []

-- "flog"
abbrev pub opcode_flog_str : List ℕ
opcode_flog_str = 102 ∷ 108 ∷ 111 ∷ 103 ∷ []

-- "flog10"
abbrev pub opcode_flog10_str : List ℕ
opcode_flog10_str = 102 ∷ 108 ∷ 111 ∷ 103 ∷ 49 ∷ 48 ∷ []

-- "fceil"
abbrev pub opcode_fceil_str : List ℕ
opcode_fceil_str = 102 ∷ 99 ∷ 101 ∷ 105 ∷ 108 ∷ []

-- "ffloor"
abbrev pub opcode_ffloor_str : List ℕ
opcode_ffloor_str = 102 ∷ 102 ∷ 108 ∷ 111 ∷ 111 ∷ 114 ∷ []

-- "fpow"
abbrev pub opcode_fpow_str : List ℕ
opcode_fpow_str = 102 ∷ 112 ∷ 111 ∷ 119 ∷ []

-- "fsin"
abbrev pub opcode_fsin_str : List ℕ
opcode_fsin_str = 102 ∷ 115 ∷ 105 ∷ 110 ∷ []

-- "fcos"
abbrev pub opcode_fcos_str : List ℕ
opcode_fcos_str = 102 ∷ 99 ∷ 111 ∷ 115 ∷ []

-- "ftan"
abbrev pub opcode_ftan_str : List ℕ
opcode_ftan_str = 102 ∷ 116 ∷ 97 ∷ 110 ∷ []

-- "bra"
abbrev pub opcode_bra_str : List ℕ
opcode_bra_str = 98 ∷ 114 ∷ 97 ∷ []

-- "beq"
abbrev pub opcode_beq_str : List ℕ
opcode_beq_str = 98 ∷ 101 ∷ 113 ∷ []

-- "bne"
abbrev pub opcode_bne_str : List ℕ
opcode_bne_str = 98 ∷ 110 ∷ 101 ∷ []

-- "bcb"
abbrev pub opcode_bcb_str : List ℕ
opcode_bcb_str = 98 ∷ 99 ∷ 98 ∷ []

-- "blt"
abbrev pub opcode_blt_str : List ℕ
opcode_blt_str = 98 ∷ 108 ∷ 116 ∷ []

-- "bgt"
abbrev pub opcode_bgt_str : List ℕ
opcode_bgt_str = 98 ∷ 103 ∷ 116 ∷ []

-- "ble"
abbrev pub opcode_ble_str : List ℕ
opcode_ble_str = 98 ∷ 108 ∷ 101 ∷ []

-- "bge"
abbrev pub opcode_bge_str : List ℕ
opcode_bge_str = 98 ∷ 103 ∷ 101 ∷ []

-- "jmpi"
abbrev pub opcode_jmpi_str : List ℕ
opcode_jmpi_str = 106 ∷ 109 ∷ 112 ∷ 105 ∷ []

-- "jmpm"
abbrev pub opcode_jmpm_str : List ℕ
opcode_jmpm_str = 106 ∷ 109 ∷ 112 ∷ 109 ∷ []

-- "jmp"
abbrev pub opcode_jmp_str : List ℕ
opcode_jmp_str = 106 ∷ 109 ∷ 112 ∷ []

-- "calli"
abbrev pub opcode_calli_str : List ℕ
opcode_calli_str = 99 ∷ 97 ∷ 108 ∷ 108 ∷ 105 ∷ []

-- "callm"
abbrev pub opcode_callm_str : List ℕ
opcode_callm_str = 99 ∷ 97 ∷ 108 ∷ 108 ∷ 109 ∷ []

-- "call"
abbrev pub opcode_call_str : List ℕ
opcode_call_str = 99 ∷ 97 ∷ 108 ∷ 108 ∷ []

-- "ret"
abbrev pub opcode_ret_str : List ℕ
opcode_ret_str = 114 ∷ 101 ∷ 116 ∷ []

-- "alloc"
abbrev pub opcode_alloc_str : List ℕ
opcode_alloc_str = 97 ∷ 108 ∷ 108 ∷ 111 ∷ 99 ∷ []

-- "free"
abbrev pub opcode_free_str : List ℕ
opcode_free_str = 102 ∷ 114 ∷ 101 ∷ 101 ∷ []

-- "syscall"
abbrev pub opcode_syscall_str : List ℕ
opcode_syscall_str = 115 ∷ 121 ∷ 115 ∷ 99 ∷ 97 ∷ 108 ∷ 108 ∷ []

-- "stop"
abbrev pub opcode_stop_str : List ℕ
opcode_stop_str = 115 ∷ 116 ∷ 111 ∷ 112 ∷ []

-- "refer"
abbrev pub opcode_refer_str : List ℕ
opcode_refer_str = 114 ∷ 101 ∷ 102 ∷ 101 ∷ 114 ∷ []

-- "ext"
abbrev pub opcode_ext_str : List ℕ
opcode_ext_str = 101 ∷ 120 ∷ 116 ∷ []

-- "data"
abbrev pub opcode_data_str : List ℕ
opcode_data_str = 100 ∷ 97 ∷ 116 ∷ 97 ∷ []
