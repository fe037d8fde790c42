-- ===== src/Vm/Data.antt =====
-- The handlers of src/vm.c that move data and count by one. Calls of `debug` print nothing in a
-- normal build and are left out.
pub mod Pop
use mihini.Prelude.{ℕ, zero, suc, ◌+◌, ◌-◌, ◌^◌, ◌==◌, ltb, if◌then◌else◌, bit_and, u8, u64, sub64}
use mihini.Width.{vm_width_to_mask}
use mihini.Vm.State.{
  diverge, M, Action, pure, undefined_behaviour, skip, when, ◌>>=◌, ◌>>◌, get, set_condition,
  or_condition, set_register,
}
use mihini.Vm.Operand.{vm_read_register_or_memory, vm_write_register_or_memory}

abbrev pub cr_equal_zero : ℕ
cr_equal_zero = 0b00000001

abbrev pub cr_carry_borrow : ℕ
cr_carry_borrow = 0b00000010

abbrev pub cr_overflow : ℕ
cr_overflow = 0b00000100

abbrev pub cr_negative : ℕ
cr_negative = 0b00001000

abbrev pub cr_greater_than : ℕ
cr_greater_than = 0b00010000

abbrev pub cr_less_than : ℕ
cr_less_than = 0b00100000

unfoldable pub vm_opcode_nop : ℕ → Action
vm_opcode_nop width = skip

unfoldable pub vm_opcode_load : ℕ → ℕ → ℕ → Action
vm_opcode_load width value reg = do
  set_condition 0
  vm_write_register_or_memory reg value width
  when (value == 0) (or_condition cr_equal_zero)

unfoldable pub vm_opcode_move : ℕ → ℕ → ℕ → Action
vm_opcode_move width rega regb = do
  set_condition 0
  val ← vm_read_register_or_memory rega width
  vm_write_register_or_memory regb val width
  when (val == 0) (or_condition cr_equal_zero)

-- Bit `i` of a register set, `regset & (0x1 << i)`; `1` is an `int`, which has 31 value bits.
abbrev pub in_regset : ℕ → ℕ → M ℕ
in_regset regset i = if ltb i 31 then pure (bit_and regset (2 ^ i)) else undefined_behaviour

-- `for(uint8_t i=0; i<16; i++)` from round `i`, with `left` rounds to go
unfoldable pub push_loop : ℕ → ℕ → ℕ → ℕ → ℕ → Action
push_loop width regset reg zero i = skip
push_loop width regset reg (suc left) i = do
  chosen ← in_regset regset i
  s ← get
  if chosen == 0 then skip else vm_write_register_or_memory reg (s.registers i) width
  push_loop width regset reg left (i + 1)

unfoldable pub vm_opcode_push : ℕ → ℕ → ℕ → Action
vm_opcode_push width regset reg = do push_loop width regset reg 16 0; set_condition 0

-- `for(uint8_t i=15; i>=0; i--)`: the test of the loop holds for every `uint8_t`.
unfoldable pub pop_loop : ℕ → ℕ → ℕ → ℕ → ℕ → Action
pop_loop width regset reg zero i = diverge
pop_loop width regset reg (suc fuel) i = do
  chosen ← in_regset regset i
  if chosen == 0 then skip else (do val ← vm_read_register_or_memory reg width; set_register i val)
  pop_loop width regset reg fuel (u8 (i + 2 ^ 8 - 1))

unfoldable pub vm_opcode_pop : ℕ → ℕ → ℕ → ℕ → Action
vm_opcode_pop fuel width regset reg = do pop_loop width regset reg fuel 15; set_condition 0

unfoldable pub vm_opcode_inc : ℕ → ℕ → Action
vm_opcode_inc width reg = do
  set_condition 0
  val ← vm_read_register_or_memory reg width
  let mask = vm_width_to_mask width
  when (bit_and val mask == mask) (or_condition cr_carry_borrow)
  let next = u64 (val + 1)
  vm_write_register_or_memory reg next width
  when (next == 0) (or_condition cr_equal_zero)

unfoldable pub vm_opcode_dec : ℕ → ℕ → Action
vm_opcode_dec width reg = do
  set_condition 0
  val ← vm_read_register_or_memory reg width
  let masked = bit_and val (vm_width_to_mask width)
  when (masked == 0) (or_condition cr_carry_borrow)
  let next = sub64 masked 1
  vm_write_register_or_memory reg next width
  when (next == 0) (or_condition cr_equal_zero)

unfoldable pub vm_opcode_clr : ℕ → ℕ → Action
vm_opcode_clr width reg = do vm_write_register_or_memory reg 0 width; set_condition cr_equal_zero
