-- ===== src/Opcode.antt =====
-- The opcode numbers and the width codes of src/opcodes.h.
pub mod Names
pub mod Tables
use mihini.Prelude.{ℕ}

abbrev pub opcode_nop : ℕ
opcode_nop = 0b00000000

abbrev pub opcode_load : ℕ
opcode_load = 0b00000100

abbrev pub opcode_move : ℕ
opcode_move = 0b00001000

abbrev pub opcode_push : ℕ
opcode_push = 0b00001100

abbrev pub opcode_pop : ℕ
opcode_pop = 0b00010000

abbrev pub opcode_inc : ℕ
opcode_inc = 0b00010100

abbrev pub opcode_dec : ℕ
opcode_dec = 0b00011000

abbrev pub opcode_clr : ℕ
opcode_clr = 0b00011100

abbrev pub opcode_addi : ℕ
opcode_addi = 0b00100000

abbrev pub opcode_add : ℕ
opcode_add = 0b00100100

abbrev pub opcode_subi : ℕ
opcode_subi = 0b00101000

abbrev pub opcode_sub : ℕ
opcode_sub = 0b00101100

abbrev pub opcode_muli : ℕ
opcode_muli = 0b00110000

abbrev pub opcode_mul : ℕ
opcode_mul = 0b00110100

abbrev pub opcode_divi : ℕ
opcode_divi = 0b00111000

abbrev pub opcode_div : ℕ
opcode_div = 0b00111100

abbrev pub opcode_andi : ℕ
opcode_andi = 0b01000000

abbrev pub opcode_and : ℕ
opcode_and = 0b01000100

abbrev pub opcode_ori : ℕ
opcode_ori = 0b01001000

abbrev pub opcode_or : ℕ
opcode_or = 0b01001100

abbrev pub opcode_xori : ℕ
opcode_xori = 0b01010000

abbrev pub opcode_xor : ℕ
opcode_xor = 0b01010100

abbrev pub opcode_lsli : ℕ
opcode_lsli = 0b01011000

abbrev pub opcode_lsl : ℕ
opcode_lsl = 0b01011100

abbrev pub opcode_lsri : ℕ
opcode_lsri = 0b01100000

abbrev pub opcode_lsr : ℕ
opcode_lsr = 0b01100100

abbrev pub opcode_roli : ℕ
opcode_roli = 0b01101000

abbrev pub opcode_rol : ℕ
opcode_rol = 0b01101100

abbrev pub opcode_rori : ℕ
opcode_rori = 0b01110000

abbrev pub opcode_ror : ℕ
opcode_ror = 0b01110100

abbrev pub opcode_not : ℕ
opcode_not = 0b01111000

abbrev pub opcode_tsti : ℕ
opcode_tsti = 0b01111100

abbrev pub opcode_tst : ℕ
opcode_tst = 0b10000000

abbrev pub opcode_cmpi : ℕ
opcode_cmpi = 0b10000100

abbrev pub opcode_cmp : ℕ
opcode_cmp = 0b10001000

abbrev pub opcode_fload : ℕ
opcode_fload = 0b10001100

abbrev pub opcode_fcast : ℕ
opcode_fcast = 0b10010000

abbrev pub opcode_fround : ℕ
opcode_fround = 0b10010100

abbrev pub opcode_fadd : ℕ
opcode_fadd = 0b10011000

abbrev pub opcode_fsub : ℕ
opcode_fsub = 0b10011100

abbrev pub opcode_fmul : ℕ
opcode_fmul = 0b10100000

abbrev pub opcode_fdiv : ℕ
opcode_fdiv = 0b10100100

abbrev pub opcode_fmod : ℕ
opcode_fmod = 0b10101000

abbrev pub opcode_fsqrt : ℕ
opcode_fsqrt = 0b10101100

abbrev pub opcode_fexp : ℕ
opcode_fexp = 0b10110000

abbrev pub opcode_flog : ℕ
opcode_flog = 0b10110100

abbrev pub opcode_flog10 : ℕ
opcode_flog10 = 0b10111000

abbrev pub opcode_fceil : ℕ
opcode_fceil = 0b10111100

abbrev pub opcode_ffloor : ℕ
opcode_ffloor = 0b11000000

abbrev pub opcode_fpow : ℕ
opcode_fpow = 0b11000100

abbrev pub opcode_fsin : ℕ
opcode_fsin = 0b11001000

abbrev pub opcode_fcos : ℕ
opcode_fcos = 0b11001100

abbrev pub opcode_ftan : ℕ
opcode_ftan = 0b11010000

abbrev pub opcode_data : ℕ
opcode_data = 0b11011100

abbrev pub opcode_bra : ℕ
opcode_bra = 0b11101000

abbrev pub opcode_beq : ℕ
opcode_beq = 0b11101001

abbrev pub opcode_bne : ℕ
opcode_bne = 0b11101010

abbrev pub opcode_bcb : ℕ
opcode_bcb = 0b11101011

abbrev pub opcode_blt : ℕ
opcode_blt = 0b11101100

abbrev pub opcode_bgt : ℕ
opcode_bgt = 0b11101101

abbrev pub opcode_ble : ℕ
opcode_ble = 0b11101110

abbrev pub opcode_bge : ℕ
opcode_bge = 0b11101111

abbrev pub opcode_jmpi : ℕ
opcode_jmpi = 0b11110000

abbrev pub opcode_jmpm : ℕ
opcode_jmpm = 0b11110001

abbrev pub opcode_jmp : ℕ
opcode_jmp = 0b11110010

abbrev pub opcode_calli : ℕ
opcode_calli = 0b11110011

abbrev pub opcode_callm : ℕ
opcode_callm = 0b11110100

abbrev pub opcode_call : ℕ
opcode_call = 0b11110101

abbrev pub opcode_ret : ℕ
opcode_ret = 0b11110110

abbrev pub opcode_alloc : ℕ
opcode_alloc = 0b11110111

abbrev pub opcode_free : ℕ
opcode_free = 0b11111000

abbrev pub opcode_syscall : ℕ
opcode_syscall = 0b11111001

abbrev pub opcode_refer : ℕ
opcode_refer = 0b11111010

abbrev pub opcode_stop : ℕ
opcode_stop = 0b11111101

abbrev pub opcode_ext : ℕ
opcode_ext = 0b11111111

abbrev pub width_8 : ℕ
width_8 = 0b00

abbrev pub width_16 : ℕ
width_16 = 0b01

abbrev pub width_32 : ℕ
width_32 = 0b10

abbrev pub width_64 : ℕ
width_64 = 0b11

abbrev pub width_unknown : ℕ
width_unknown = 0xFF
