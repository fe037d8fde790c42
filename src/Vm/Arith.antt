-- ===== src/Vm/Arith.antt =====
-- The integer arithmetic of src/vm.c, on `uint64_t`. C leaves the order of the two reads of a binary
-- operator open; here the first register is read first, and so in the modules beside this one.
pub mod Laws
use mihini.Prelude.{ℕ, ◌+◌, ◌*◌, ◌/◌, ◌%◌, ◌==◌, if◌then◌else◌, u64, sub64}
use mihini.Vm.State.{M, Action, pure, undefined_behaviour, when, ◌>>=◌, ◌>>◌, set_condition}
use mihini.Vm.Operand.{vm_read_register_or_memory, vm_write_register_or_memory}
use mihini.Vm.Data.{cr_equal_zero}

unfoldable pub vm_opcode_addi : ℕ → ℕ → ℕ → Action
vm_opcode_addi width value reg = do
  set_condition 0
  old ← vm_read_register_or_memory reg width
  let result = u64 (old + value)
  vm_write_register_or_memory reg result width
  when (result == 0) (set_condition cr_equal_zero)

unfoldable pub vm_opcode_add : ℕ → ℕ → ℕ → Action
vm_opcode_add width rega regb = do
  set_condition 0
  vala ← vm_read_register_or_memory rega width
  valb ← vm_read_register_or_memory regb width
  let result = u64 (vala + valb)
  vm_write_register_or_memory regb result width
  when (result == 0) (set_condition cr_equal_zero)

unfoldable pub vm_opcode_subi : ℕ → ℕ → ℕ → Action
vm_opcode_subi width value reg = do
  set_condition 0
  old ← vm_read_register_or_memory reg width
  let result = sub64 old value
  vm_write_register_or_memory reg result width
  when (result == 0) (set_condition cr_equal_zero)

unfoldable pub vm_opcode_sub : ℕ → ℕ → ℕ → Action
vm_opcode_sub width rega regb = do
  set_condition 0
  vala ← vm_read_register_or_memory rega width
  valb ← vm_read_register_or_memory regb width
  let result = sub64 vala valb
  vm_write_register_or_memory regb result width
  when (result == 0) (set_condition cr_equal_zero)

unfoldable pub vm_opcode_muli : ℕ → ℕ → ℕ → Action
vm_opcode_muli width value reg = do
  set_condition 0
  old ← vm_read_register_or_memory reg width
  let result = u64 (old * value)
  vm_write_register_or_memory reg result width
  when (result == 0) (set_condition cr_equal_zero)

unfoldable pub vm_opcode_mul : ℕ → ℕ → ℕ → Action
vm_opcode_mul width rega regb = do
  set_condition 0
  vala ← vm_read_register_or_memory rega width
  valb ← vm_read_register_or_memory regb width
  let result = u64 (vala * valb)
  vm_write_register_or_memory regb result width
  when (result == 0) (set_condition cr_equal_zero)

-- `a / b` and `a % b`, which C leaves undefined at 0
abbrev pub divide : ℕ → ℕ → M ℕ
divide a b = if b == 0 then undefined_behaviour else pure (a / b)

abbrev pub remainder : ℕ → ℕ → M ℕ
remainder a b = if b == 0 then undefined_behaviour else pure (a % b)

unfoldable pub vm_opcode_divi : ℕ → ℕ → ℕ → ℕ → Action
vm_opcode_divi width value rega regb = do
  set_condition 0
  arga ← vm_read_register_or_memory rega width
  q ← divide arga value
  vm_write_register_or_memory rega q width
  r ← remainder arga value
  vm_write_register_or_memory regb r width
  when (value == 0) (set_condition cr_equal_zero)

unfoldable pub vm_opcode_div : ℕ → ℕ → ℕ → ℕ → Action
vm_opcode_div width rega regb regc = do
  set_condition 0
  arga ← vm_read_register_or_memory rega width
  argb ← vm_read_register_or_memory regb width
  q ← divide arga argb
  vm_write_register_or_memory regb q width
  r ← remainder arga argb
  vm_write_register_or_memory regc r width
