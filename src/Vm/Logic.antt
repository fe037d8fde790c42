-- ===== src/Vm/Logic.antt =====
-- The bitwise operations, the shifts and the rotations of src/vm.c.
use mihini.Prelude.{
  ℕ, ◌-◌, ◌*◌, ◌/◌, ◌^◌, ◌==◌, ltb, leb, if◌then◌else◌, bit_and, bit_or, bit_xor, u64,
}
use mihini.Opcode.{width_8}
use mihini.Width.{vm_width_to_mask, vm_width_to_bits}
use mihini.Vm.State.{M, Action, pure, undefined_behaviour, when, ◌>>=◌, ◌>>◌, set_condition}
use mihini.Vm.Operand.{vm_read_register_or_memory, vm_write_register_or_memory}
use mihini.Vm.Data.{cr_equal_zero}

unfoldable pub vm_opcode_andi : ℕ → ℕ → ℕ → Action
vm_opcode_andi width value reg = do
  set_condition 0
  old ← vm_read_register_or_memory reg width
  let result = bit_and old value
  vm_write_register_or_memory reg result width
  when (result == 0) (set_condition cr_equal_zero)

unfoldable pub vm_opcode_and : ℕ → ℕ → ℕ → Action
vm_opcode_and width rega regb = do
  set_condition 0
  vala ← vm_read_register_or_memory rega width
  valb ← vm_read_register_or_memory regb width
  let result = bit_and vala valb
  vm_write_register_or_memory regb result width
  when (result == 0) (set_condition cr_equal_zero)

unfoldable pub vm_opcode_ori : ℕ → ℕ → ℕ → Action
vm_opcode_ori width value reg = do
  set_condition 0
  old ← vm_read_register_or_memory reg width
  let result = bit_or old value
  vm_write_register_or_memory reg result width
  when (result == 0) (set_condition cr_equal_zero)

unfoldable pub vm_opcode_or : ℕ → ℕ → ℕ → Action
vm_opcode_or width rega regb = do
  set_condition 0
  vala ← vm_read_register_or_memory rega width
  valb ← vm_read_register_or_memory regb width
  let result = bit_or vala valb
  vm_write_register_or_memory regb result width
  when (result == 0) (set_condition cr_equal_zero)

unfoldable pub vm_opcode_xori : ℕ → ℕ → ℕ → Action
vm_opcode_xori width value reg = do
  set_condition 0
  old ← vm_read_register_or_memory reg width
  let result = bit_xor old value
  vm_write_register_or_memory reg result width
  when (result == 0) (set_condition cr_equal_zero)

unfoldable pub vm_opcode_xor : ℕ → ℕ → ℕ → Action
vm_opcode_xor width rega regb = do
  set_condition 0
  vala ← vm_read_register_or_memory rega width
  valb ← vm_read_register_or_memory regb width
  let result = bit_xor vala valb
  vm_write_register_or_memory regb result width
  when (result == 0) (set_condition cr_equal_zero)

-- `a << k` and `a >> k` on `uint64_t`, undefined from 64 bits on
unfoldable pub shift_left : ℕ → ℕ → M ℕ
shift_left a k = if ltb k 64 then pure (u64 (a * 2 ^ k)) else undefined_behaviour

unfoldable pub shift_right : ℕ → ℕ → M ℕ
shift_right a k = if ltb k 64 then pure (a / 2 ^ k) else undefined_behaviour

unfoldable pub vm_opcode_lsli : ℕ → ℕ → ℕ → Action
vm_opcode_lsli width bits reg = do
  set_condition 0
  old ← vm_read_register_or_memory reg width
  result ← shift_left old bits
  vm_write_register_or_memory reg result width
  when (result == 0) (set_condition cr_equal_zero)

unfoldable pub vm_opcode_lsl : ℕ → ℕ → ℕ → Action
vm_opcode_lsl width rega regb = do
  set_condition 0
  vala ← vm_read_register_or_memory rega width
  valb ← vm_read_register_or_memory regb width
  result ← shift_left vala valb
  vm_write_register_or_memory regb result width
  when (result == 0) (set_condition cr_equal_zero)

unfoldable pub vm_opcode_lsri : ℕ → ℕ → ℕ → Action
vm_opcode_lsri width bits reg = do
  set_condition 0
  old ← vm_read_register_or_memory reg width
  result ← shift_right old bits
  vm_write_register_or_memory reg result width
  when (result == 0) (set_condition cr_equal_zero)

unfoldable pub vm_opcode_lsr : ℕ → ℕ → ℕ → Action
vm_opcode_lsr width rega regb = do
  set_condition 0
  vala ← vm_read_register_or_memory rega width
  valb ← vm_read_register_or_memory regb width
  result ← shift_right vala valb
  vm_write_register_or_memory regb result width
  when (result == 0) (set_condition cr_equal_zero)

-- `((value << bits) | (value >> (bitwidth - bits))) & mask`. A negative difference is undefined too:
-- as an `int` it is negative, and as a `uint64_t` it is 64 or more unless `bits` is.
unfoldable pub rotate_left : ℕ → ℕ → ℕ → M ℕ
rotate_left width value bits = do
  let bitwidth = vm_width_to_bits width
  high ← shift_left value bits
  low ← if leb bits bitwidth then shift_right value (bitwidth - bits) else undefined_behaviour
  pure (bit_and (bit_or high low) (vm_width_to_mask width))

-- `((value >> bits) | (value << (bitwidth - bits))) & mask`
unfoldable pub rotate_right : ℕ → ℕ → ℕ → M ℕ
rotate_right width value bits = do
  let bitwidth = vm_width_to_bits width
  low ← shift_right value bits
  high ← if leb bits bitwidth then shift_left value (bitwidth - bits) else undefined_behaviour
  pure (bit_and (bit_or low high) (vm_width_to_mask width))

unfoldable pub vm_opcode_roli : ℕ → ℕ → ℕ → Action
vm_opcode_roli width bits reg = do
  set_condition 0
  old ← vm_read_register_or_memory reg width
  result ← rotate_left width (bit_and old (vm_width_to_mask width)) bits
  vm_write_register_or_memory reg result width
  when (result == 0) (set_condition cr_equal_zero)

unfoldable pub vm_opcode_rol : ℕ → ℕ → ℕ → Action
vm_opcode_rol width rega regb = do
  set_condition 0
  bits ← vm_read_register_or_memory rega width_8
  old ← vm_read_register_or_memory regb width
  result ← rotate_left width (bit_and old (vm_width_to_mask width)) bits
  vm_write_register_or_memory regb result width
  when (result == 0) (set_condition cr_equal_zero)

unfoldable pub vm_opcode_rori : ℕ → ℕ → ℕ → Action
vm_opcode_rori width bits reg = do
  set_condition 0
  old ← vm_read_register_or_memory reg width
  result ← rotate_right width (bit_and old (vm_width_to_mask width)) bits
  vm_write_register_or_memory reg result width
  when (result == 0) (set_condition cr_equal_zero)

unfoldable pub vm_opcode_ror : ℕ → ℕ → ℕ → Action
vm_opcode_ror width rega regb = do
  set_condition 0
  bits ← vm_read_register_or_memory rega width_8
  old ← vm_read_register_or_memory regb width
  result ← rotate_right width (bit_and old (vm_width_to_mask width)) bits
  vm_write_register_or_memory regb result width
  when (result == 0) (set_condition cr_equal_zero)

-- `!` is the logical negation, and the condition is not cleared first.
unfoldable pub vm_opcode_not : ℕ → ℕ → Action
vm_opcode_not width reg = do
  old ← vm_read_register_or_memory reg width
  let result = if old == 0 then 1 else 0
  vm_write_register_or_memory reg result width
  when (result == 0) (set_condition cr_equal_zero)
