-- ===== src/Vm/Operand.antt =====
-- Register operands of src/vm.c: the low four bits name a register, the high four the mode of access.
pub mod Direct
use mihini.Prelude.{ℕ, ◌+◌, ◌==◌, if◌then◌else◌, bit_and, u32, u64, sub64}
use mihini.Width.{vm_width_to_bytes}
use mihini.Vm.State.{M, Action, pure, ◌>>=◌, ◌>>◌, get, set_register, emit, unknown_mode}
use mihini.Vm.Memory.{vm_read_memory, vm_write_memory}

abbrev pub vm_reg_direct : ℕ
vm_reg_direct = 0x00

abbrev pub vm_reg_reference : ℕ
vm_reg_reference = 0x10

abbrev pub vm_reg_pre_dec : ℕ
vm_reg_pre_dec = 0x20

abbrev pub vm_reg_post_inc : ℕ
vm_reg_post_inc = 0x30

abbrev pub vm_reg_a7 : ℕ
vm_reg_a7 = 0x0F

-- `N[reg] -= bytes` and `N[reg] += bytes`
unfoldable pub decrement_register : ℕ → ℕ → Action
decrement_register r width = do
  s ← get
  set_register r (sub64 (s.registers r) (vm_width_to_bytes width))

unfoldable pub increment_register : ℕ → ℕ → Action
increment_register r width = do
  s ← get
  set_register r (u64 (s.registers r + vm_width_to_bytes width))

-- Memory at the address that register `r` holds, cut to the `uint32_t` of the parameter.
unfoldable pub read_at_register : ℕ → ℕ → M ℕ
read_at_register r width = do s ← get; vm_read_memory (u32 (s.registers r)) width

unfoldable pub write_at_register : ℕ → ℕ → ℕ → Action
write_at_register r value width = do s ← get; vm_write_memory (u32 (s.registers r)) value width

-- The switch on the mode, on the register's number.
unfoldable pub read_by_mode : ℕ → ℕ → ℕ → M ℕ
read_by_mode mode r width =
    if mode == vm_reg_direct
    then (do s ← get; pure (s.registers r))
    else if mode == vm_reg_reference
    then read_at_register r width
    else if mode == vm_reg_pre_dec
    then (do decrement_register r width; read_at_register r width)
    else if mode == vm_reg_post_inc
    then (do val ← read_at_register r width; increment_register r width; pure val)
    else do emit (unknown_mode mode); pure 0

unfoldable pub write_by_mode : ℕ → ℕ → ℕ → ℕ → Action
write_by_mode mode r value width =
    if mode == vm_reg_direct
    then set_register r value
    else if mode == vm_reg_reference
    then write_at_register r value width
    else if mode == vm_reg_pre_dec
    then (do decrement_register r width; write_at_register r value width)
    else if mode == vm_reg_post_inc
    then (do write_at_register r value width; increment_register r width)
    else emit (unknown_mode mode)

unfoldable pub vm_read_register_or_memory : ℕ → ℕ → M ℕ
vm_read_register_or_memory reg width = read_by_mode (bit_and reg 0xF0) (bit_and reg 0xF) width

unfoldable pub vm_write_register_or_memory : ℕ → ℕ → ℕ → Action
vm_write_register_or_memory reg value width =
    write_by_mode (bit_and reg 0xF0) (bit_and reg 0xF) value width
