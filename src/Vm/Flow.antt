-- ===== src/Vm/Flow.antt =====
-- Branches, jumps, calls, memory management and system calls of src/vm.c. An `int32_t` offset is its
-- bit pattern, a number below 2 ^ 32.
pub mod Call
use mihini.Prelude.{
  ℕ, zero, suc, ◌+◌, ◌-◌, ◌*◌, ◌^◌, ◌==◌, ltb, leb, ◌&&◌, not, if◌then◌else◌, bit_and, bit_or, List,
  [], ◌∷◌, Option, none, some, Bool, u8, u32, u64, true,
}
use mathlib.Core.Option
use mihini.Opcode.{width_8, width_32}
use mihini.Vm.State.{
  M, Action, pure, undefined_behaviour, skip, ◌>>=◌, ◌>>◌, get, set_ip, set_stopped, emit, put_char,
  print, dump_header, dump_row, unknown_syscall,
}
use mihini.Vm.Operand.{
  vm_reg_pre_dec, vm_reg_post_inc, vm_reg_a7, vm_read_register_or_memory,
  vm_write_register_or_memory,
}
use mihini.Vm.Data.{cr_equal_zero, cr_carry_borrow, cr_greater_than, cr_less_than}
use mihini.Vm.Heap.{pmalloc, pfree}

-- `state->ip += offset + 4`; the sum is an `int` and may not overflow.
unfoldable pub branch_by : ℕ → Action
branch_by offset =
    if ltb offset (2 ^ 31) && leb (2 ^ 31) (offset + 4)
    then undefined_behaviour
    else do s ← get; set_ip (u32 (s.ip + offset + 4))

-- `state->condition & flags`, as a test
abbrev pub condition_has : ℕ → ℕ → Bool
condition_has condition flags = not (bit_and condition flags == 0)

abbrev pub branch_if : ℕ → ℕ → Action
branch_if flags offset = do
  s ← get
  if condition_has s.condition flags then branch_by offset else skip

unfoldable pub vm_opcode_bra : ℕ → ℕ → Action
vm_opcode_bra width offset = branch_by offset

unfoldable pub vm_opcode_beq : ℕ → ℕ → Action
vm_opcode_beq width offset = branch_if cr_equal_zero offset

unfoldable pub vm_opcode_bne : ℕ → ℕ → Action
vm_opcode_bne width offset = do
  s ← get
  if condition_has s.condition cr_equal_zero then skip else branch_by offset

unfoldable pub vm_opcode_bcb : ℕ → ℕ → Action
vm_opcode_bcb width offset = branch_if cr_carry_borrow offset

unfoldable pub vm_opcode_blt : ℕ → ℕ → Action
vm_opcode_blt width offset = branch_if cr_less_than offset

unfoldable pub vm_opcode_bgt : ℕ → ℕ → Action
vm_opcode_bgt width offset = branch_if cr_greater_than offset

unfoldable pub vm_opcode_ble : ℕ → ℕ → Action
vm_opcode_ble width offset = branch_if (bit_or cr_equal_zero cr_less_than) offset

unfoldable pub vm_opcode_bge : ℕ → ℕ → Action
vm_opcode_bge width offset = branch_if (bit_or cr_equal_zero cr_greater_than) offset

unfoldable pub vm_opcode_jmpi : ℕ → ℕ → Action
vm_opcode_jmpi width address = set_ip address

unfoldable pub vm_opcode_jmpm : ℕ → ℕ → Action
vm_opcode_jmpm width reg = do
  address ← vm_read_register_or_memory reg width_32
  set_ip (u32 address)

unfoldable pub vm_opcode_jmp : ℕ → ℕ → Action
vm_opcode_jmp width offset = branch_by offset

-- `vm_write_register_or_memory(VM_REG_PRE_DEC | VM_REG_A7, state->ip, WIDTH_32, state)`
unfoldable pub push_ip : Action
push_ip = do s ← get; vm_write_register_or_memory (bit_or vm_reg_pre_dec vm_reg_a7) s.ip width_32

unfoldable pub vm_opcode_calli : ℕ → ℕ → Action
vm_opcode_calli width address = do push_ip; set_ip address

unfoldable pub vm_opcode_callm : ℕ → ℕ → Action
vm_opcode_callm width reg = do
  push_ip
  address ← vm_read_register_or_memory reg width_32
  set_ip (u32 address)

unfoldable pub vm_opcode_call : ℕ → ℕ → Action
vm_opcode_call width offset = do push_ip; branch_by offset

-- `vm_read_register_or_memory(VM_REG_POST_INC | VM_REG_A7, WIDTH_32, state)`, as a `uint32_t`
unfoldable pub pop_uint32 : M ℕ
pop_uint32 = do
  v ← vm_read_register_or_memory (bit_or vm_reg_post_inc vm_reg_a7) width_32
  pure (u32 v)

unfoldable pub vm_opcode_ret : ℕ → Action
vm_opcode_ret width = do ptr ← pop_uint32; set_ip ptr

unfoldable pub vm_opcode_alloc : ℕ → ℕ → ℕ → Action
vm_opcode_alloc width size rega = do
  ptr ← pmalloc size
  vm_write_register_or_memory rega (u64 ptr) width_32

unfoldable pub vm_opcode_free : ℕ → ℕ → Action
vm_opcode_free width reg = do ptr ← vm_read_register_or_memory reg width_32; pfree ptr

-- `state->ip + offset + 3` is unsigned and wraps.
unfoldable pub vm_opcode_refer : ℕ → ℕ → ℕ → Action
vm_opcode_refer width offset reg = do
  s ← get
  vm_write_register_or_memory reg (u32 (s.ip + offset + 3)) width_32

-- What `%s` reads: the bytes up to the first 0, with `left` bytes of the block to go.
unfoldable pub c_string : (ℕ → ℕ) → ℕ → ℕ → Option (List ℕ)
c_string mem zero a = none
c_string mem (suc left) a = elim (mem a) [
  | zero ↦ some []
  | suc c ↦ Option.map (λ cs. suc c ∷ cs) (c_string mem left (a + 1))
]

unfoldable pub print_found : Option (List ℕ) → Action
print_found none = undefined_behaviour
print_found (some cs) = emit (print cs)

unfoldable pub print_string : ℕ → Action
print_string str = do s ← get; print_found (c_string s.memory (s.memsize - str) str)

-- The `j` loop of `dump_mem`: the bytes from `a`, each index a `uint32_t`
unfoldable pub row_bytes : ℕ → ℕ → M (List ℕ)
row_bytes zero a = pure []
row_bytes (suc left) a = do
  s ← get
  rest ← row_bytes left (a + 1)
  if ltb (u32 a) s.memsize then pure (s.memory (u32 a) ∷ rest) else undefined_behaviour

-- The `i` loop. A row is sixteen bytes, and its label counts by eight. The text of a row, which
-- shows the bytes in hexadecimal and as characters, is a function of the two.
unfoldable pub dump_rows : ℕ → ℕ → ℕ → Action
dump_rows zero i address = skip
dump_rows (suc left) i address = do
  bytes ← row_bytes 16 (address + i * 16)
  emit (dump_row (u32 (address + i * 8)) bytes)
  dump_rows left (i + 1) address

unfoldable pub dump_mem : ℕ → Action
dump_mem address = do emit (dump_header address); dump_rows 4 0 address

abbrev pub vm_syscall_dump_memory : ℕ
vm_syscall_dump_memory = 0x0

abbrev pub vm_syscall_dump_state : ℕ
vm_syscall_dump_state = 0x1

abbrev pub vm_syscall_print : ℕ
vm_syscall_print = 0x2

abbrev pub vm_syscall_putc : ℕ
vm_syscall_putc = 0x3

unfoldable pub vm_opcode_syscall : ℕ → ℕ → Action
vm_opcode_syscall width op =
    if op == vm_syscall_dump_memory
    then (do num ← pop_uint32; dump_mem num)
    else if op == vm_syscall_print
    then (do str ← pop_uint32; print_string str)
    else if op == vm_syscall_putc
    then (do
      ch ← vm_read_register_or_memory (bit_or vm_reg_post_inc vm_reg_a7) width_8
      emit (put_char (u8 ch)))
    else emit (unknown_syscall op)

unfoldable pub vm_opcode_stop : ℕ → Action
vm_opcode_stop width = set_stopped true
