-- ===== src/Vm/Compare.antt =====
-- The tests, comparisons and floating-point handlers of src/vm.c.
pub mod Laws
use mihini.Prelude.{ℕ, ◌^◌, ◌==◌, ltb, if◌then◌else◌, bit_and, u64}
use mihini.Opcode.{width_8, width_16, width_32, width_64}
use mihini.Vm.State.{
  M, Action, pure, undefined_behaviour, skip, when, ◌>>=◌, ◌>>◌, set_condition, or_condition, emit,
  no_float8,
}
use mihini.Vm.Operand.{vm_read_register_or_memory, vm_write_register_or_memory}
use mihini.Vm.Data.{cr_equal_zero, cr_greater_than, cr_less_than}

-- `0x1 << bit` on `int`, which has 31 value bits
abbrev pub int_bit : ℕ → M ℕ
int_bit bit = if ltb bit 31 then pure (2 ^ bit) else undefined_behaviour

-- The condition is not cleared first.
unfoldable pub vm_opcode_tsti : ℕ → ℕ → ℕ → Action
vm_opcode_tsti width bit reg = do
  value ← vm_read_register_or_memory reg width
  mask ← int_bit bit
  when (bit_and value mask == 0) (set_condition cr_equal_zero)

unfoldable pub vm_opcode_tst : ℕ → ℕ → ℕ → Action
vm_opcode_tst width rega regb = do
  set_condition 0
  valuea ← vm_read_register_or_memory rega width_8
  valueb ← vm_read_register_or_memory regb width
  mask ← int_bit valuea
  when (bit_and valueb mask == 0) (or_condition cr_equal_zero)

-- The flags for `varb` against `vara`
unfoldable pub set_comparison : ℕ → ℕ → Action
set_comparison vara varb = do
  when (varb == vara) (or_condition cr_equal_zero)
  when (ltb vara varb) (or_condition cr_greater_than)
  when (ltb varb vara) (or_condition cr_less_than)

unfoldable pub vm_opcode_cmpi : ℕ → ℕ → ℕ → Action
vm_opcode_cmpi width varb reg = do
  set_condition 0
  vara ← vm_read_register_or_memory reg width
  set_comparison vara varb

unfoldable pub vm_opcode_cmp : ℕ → ℕ → ℕ → Action
vm_opcode_cmp width rega regb = do
  set_condition 0
  vara ← vm_read_register_or_memory rega width
  varb ← vm_read_register_or_memory regb width
  set_comparison vara varb

unfoldable pub vm_opcode_fload : ℕ → ℕ → ℕ → Action
vm_opcode_fload width value reg =
    if width == width_8
    then emit no_float8
    else if width == width_16
    then vm_write_register_or_memory reg value width
    else if width == width_32
    then vm_write_register_or_memory reg value width
    else if width == width_64
    then vm_write_register_or_memory reg value width
    else skip

-- `double_bits n` is the bit pattern of `(double)n`, which the compiler's conversion gives. At 32 bits
-- the source reads eight bytes of a `float` of four.
unfoldable pub vm_opcode_fcast : (double_bits : ℕ → ℕ) → ℕ → ℕ → ℕ → Action
vm_opcode_fcast double_bits width rega regb = do
  value ← vm_read_register_or_memory rega width
  if width == width_8
      then emit no_float8
      else if width == width_16
      then skip
      else if width == width_32
      then undefined_behaviour
      else if width == width_64
      then vm_write_register_or_memory rega (u64 (double_bits value)) width
      else skip

-- The bodies of `vm_opcode_fround` to `vm_opcode_ftan` are empty.
unfoldable pub vm_opcode_float_unimplemented : ℕ → ℕ → ℕ → Action
vm_opcode_float_unimplemented width rega regb = skip
