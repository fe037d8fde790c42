-- ===== src/Vm/Examples.antt =====
-- Small programs for the machine of src/vm.c, run, and the laws applied to them.
use native.Mathlib.Nat.{mod-lt}
use mihini.Prelude.{
  u32, ◌-◌, bit_or, ◌*◌, ◌+◌, ◌<◌, ℕ, List, [], ◌∷◌, ◌^◌, ◌%◌, false, zero, suc, ◌≡◌, refl, arith,
}
use mihini.Opcode.{width_8, width_16, width_32}
use mihini.Width.{vm_width_to_bytes, vm_width_to_mask}
use mihini.Vm.State.{Vm, Run, ok, undefined, out_of_fuel, steps, ◌>>◌}
use mihini.Vm.Memory.{
  load_le, store_le, write_bytes, read_bytes, vm_read_memory, vm_write_memory, read_uint8,
  read_width,
}
use mihini.Vm.Memory.Fetch.{advanced, read_width-ok}
use mihini.Vm.Memory.Laws.{
  IsWritten, after_write, vm_write_memory-IsWritten, vm_write_memory-width_8,
}
use mihini.Vm.Operand.{
  vm_read_register_or_memory, vm_write_register_or_memory, read_by_mode, write_by_mode,
}
use mihini.Vm.Data.{vm_opcode_load, vm_opcode_inc, vm_opcode_pop}
use mihini.Vm.Data.Pop.{vm_opcode_pop-undefined}
use mihini.Vm.Flow.{vm_opcode_stop, vm_opcode_calli, vm_opcode_call, vm_opcode_ret}
use mihini.Vm.Flow.Call.{called, returned, vm_opcode_calli-ret, vm_opcode_call-ret}
use mihini.Vm.Compare.{vm_opcode_cmpi}
use mihini.Vm.Compare.Laws.{comparison, BranchesAfter, vm_opcode_cmpi-branches}
use mihini.Vm.Arith.{vm_opcode_addi, vm_opcode_subi, vm_opcode_divi}
use mihini.Vm.Arith.Laws.{vm_opcode_addi-subi, vm_opcode_divi-direct}
use mihini.Vm.Heap.{
  paddblock, host_read, host_write, get_root, set_root, ll_insert_sorted, count_node, add_totalmem,
}
use mihini.Vm.Init.{empty_heap, cleared, vm_init}
use mihini.Vm.Execute.{
  switch, cases_data, cases_arith, cases_logic, cases_compare, cases_float, cases_flow,
  cases_system, dispatch, vm_opcode_execute, run_loop, vm_run,
}
use mihini.Vm.Execute.Load.{execute_next, loaded, execute_next-load}
use mihini.Vm.Execute.Decode.{vm_opcode_execute-decodes}

abbrev bytes_at : List ℕ → ℕ → ℕ
bytes_at [] i = 0
bytes_at (b ∷ bs) zero = b
bytes_at (b ∷ bs) (suc i) = bytes_at bs i

abbrev boot : List ℕ → Vm
boot code = record {
  registers = λ r. 0;
  condition = 0;
  ip = 0;
  memory = λ a. bytes_at code a % 2 ^ 8;
  memsize = 64;
  base = 4096;
  stopped = false;
  heap = empty_heap;
  output = [];
}

-- load.b #5, d0; inc.b d0; stop
abbrev count_up : List ℕ
count_up = 0x04 ∷ 5 ∷ 0 ∷ 0x14 ∷ 0 ∷ 0xFD ∷ []

abbrev final : Run (Unit {0}) → Vm
final (ok a s) = s
final undefined = boot []
final out_of_fuel = boot []

abbrev run_count_up : Run (Unit {0})
run_count_up = vm_run (λ n. n) 16 8 0 (boot count_up)

count_up_d0 : (final run_count_up).registers 0 ≡ 6
unfolding vm_run run_loop vm_opcode_execute dispatch switch cases_data cases_arith cases_logic
    cases_compare cases_float cases_flow cases_system read_uint8 read_width vm_read_memory
    read_bytes load_le vm_opcode_load vm_opcode_inc vm_opcode_stop vm_read_register_or_memory
    vm_write_register_or_memory read_by_mode write_by_mode vm_width_to_mask steps
count_up_d0 = refl

count_up_ends : run_count_up ≡ ok tt (final run_count_up)
unfolding vm_run run_loop vm_opcode_execute dispatch switch cases_data cases_arith cases_logic
    cases_compare cases_float cases_flow cases_system read_uint8 read_width vm_read_memory
    read_bytes load_le vm_opcode_load vm_opcode_inc vm_opcode_stop vm_read_register_or_memory
    vm_write_register_or_memory read_by_mode write_by_mode vm_width_to_mask steps
count_up_ends = refl

vm_write_memory-IsWritten_example :
    IsWritten (boot []) 10 0x12345678 width_32 (after_write (boot []) 10 0x12345678 width_32)
unfolding vm_width_to_bytes
vm_write_memory-IsWritten_example =
    vm_write_memory-IsWritten (boot []) 10 0x12345678 width_32 (omega arith) (omega arith)

vm_write_memory-width_8_example :
    (s' : Vm) × (vm_write_memory 10 0x1234 width_8 (boot []) ≡ ok tt s')
    × (s'.memory 10 ≡ 0x34)
    × (s'.memory 11 ≡ 0x12)
vm_write_memory-width_8_example = vm_write_memory-width_8 (boot []) 10 0x1234 (omega arith)

-- A machine whose stack pointer is at the end of the memory, inside a program.
abbrev with_stack : Vm
with_stack = record (boot []) { ip = 20; registers = λ r. 64 }

vm_opcode_calli-ret_example :
    (vm_opcode_calli 0 40 with_stack ≡ ok tt (called with_stack 40))
    × (vm_opcode_ret 0 (called with_stack 40) ≡ ok tt (returned with_stack (called with_stack 40)))
vm_opcode_calli-ret_example =
    vm_opcode_calli-ret with_stack (called with_stack 40) 0 40
      (record { above = omega arith; inside = omega arith; addressed = omega arith }) (omega arith)
      (record { pointer = refl; slot = λ i p q. refl; size = refl })

abbrev seven : Vm
seven = record (boot []) { registers = λ r. 7 }

vm_opcode_cmpi-branches_example :
    BranchesAfter
      (vm_opcode_cmpi width_8 9 3)
      width_8
      7
      9
      100
      seven
      (record seven { condition = comparison 7 9 })
vm_opcode_cmpi-branches_example = vm_opcode_cmpi-branches width_8 9 3 100 seven (omega arith)

vm_opcode_addi-subi_example :
    (t : Vm) × ((vm_opcode_addi width_8 250 2 >> vm_opcode_subi width_8 250 2) seven ≡ ok tt t)
    × ((r : ℕ) → t.registers r ≡ 7)
    × (t.condition ≡ 0)
    × (t.memory ≡ seven.memory)
vm_opcode_addi-subi_example =
    vm_opcode_addi-subi width_8 250 2 seven (omega arith) (omega arith) (omega arith)

vm_opcode_divi-direct_example :
    (t : Vm) × (vm_opcode_divi width_8 3 1 2 seven ≡ ok tt t)
    × (t.registers 1 * 3 + t.registers 2 ≡ 7)
    × (t.registers 2 < 3)
    × (t.condition ≡ 0)
vm_opcode_divi-direct_example =
    vm_opcode_divi-direct width_8 3 1 2 seven (omega arith) (omega arith) (omega arith)
      (λ e. omega arith)

vm_opcode_pop-undefined_example : vm_opcode_pop 20 width_32 0b11 0x3F with_stack ≡ undefined
vm_opcode_pop-undefined_example =
    vm_opcode_pop-undefined 20 width_32 0b11 0x3F with_stack (omega arith)

vm_opcode_execute-decodes_example :
    vm_opcode_execute (λ n. n) 16 (bit_or (4 * 5) width_32) ≡ dispatch (λ n. n) 16 20 width_32
vm_opcode_execute-decodes_example =
    vm_opcode_execute-decodes (λ n. n) 16 5 width_32 (omega arith) (omega arith)

-- A block of 64 bytes, of which the last 16 are the stack.
abbrev booted : Run (Unit {0})
booted = vm_init 4096 (λ a. 0) 64 0 16

booted_ends : booted ≡ ok tt (final booted)
unfolding vm_init cleared paddblock host_read host_write get_root set_root ll_insert_sorted
    count_node add_totalmem read_bytes write_bytes load_le store_le steps
booted_ends = refl

read_width-ok_example :
    read_width width_16 (boot count_up)
    ≡ ok (load_le (boot count_up).memory 0 2) (advanced (boot count_up) 2)
unfolding vm_width_to_bytes
read_width-ok_example =
    read_width-ok width_16 (boot count_up) (omega arith)
      (λ a. mod-lt (bytes_at count_up a) (omega arith)) (omega arith) (omega arith)

execute_next-load_example :
    execute_next (λ n. n) 16 (boot count_up)
    ≡ ok tt (loaded (boot count_up) 0 (load_le (boot count_up).memory 1 1) 3)
unfolding vm_width_to_bytes
execute_next-load_example =
    execute_next-load (λ n. n) 16 width_8 0 (boot count_up) (omega arith) (omega arith)
      (record {
        bytes = λ a. mod-lt (bytes_at count_up a) (omega arith);
        opcode = refl;
        register = refl;
        inside = omega arith;
        addressed = omega arith;
      })

-- A call 24 bytes back
abbrev called_back : Vm
called_back = called with_stack (u32 (20 + (2 ^ 32 - 24) + 4))

vm_opcode_call-ret_example :
    (vm_opcode_call 0 (2 ^ 32 - 24) with_stack ≡ ok tt called_back)
    × (vm_opcode_ret 0 called_back ≡ ok tt (returned with_stack called_back))
vm_opcode_call-ret_example =
    vm_opcode_call-ret with_stack called_back 0 (2 ^ 32 - 24)
      (record { above = omega arith; inside = omega arith; addressed = omega arith }) (omega arith)
      refl (record { pointer = refl; slot = λ i p q. refl; size = refl })
