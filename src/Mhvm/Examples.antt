-- ===== src/Mhvm/Examples.antt =====
-- A source that src/mhasm.c assembles and src/mhvm.c runs.
use mihini.Prelude.{true, ◌+◌, ℕ, ◌≡◌, refl, List, [], ◌∷◌, Option, none, some}
use mihini.Vm.State.{Run, ok, undefined, out_of_fuel}
use mihini.Mhvm.{Exit, mhvm_main}
use mihini.Vm.State.{steps}
use mihini.Vm.Heap.{
  paddblock, host_read, host_write, get_root, set_root, ll_insert_sorted, count_node, add_totalmem,
  pmalloc, find_block, allocate, split_block, ll_remove, fixup_root, find_place,
}
use mihini.Vm.Init.{cleared, vm_init}
use mihini.Vm.Memory.{
  load_le, store_le, read_bytes, write_bytes, read_uint8, read_uint16, read_width, vm_read_memory,
}
use mihini.Vm.Operand.{
  vm_read_register_or_memory, vm_write_register_or_memory, read_by_mode, write_by_mode,
}
use mihini.Vm.Data.{vm_opcode_load}
use mihini.Vm.Arith.{vm_opcode_addi}
use mihini.Vm.Flow.{vm_opcode_stop}
use mihini.Vm.Execute.{
  switch, cases_data, cases_arith, cases_logic, cases_compare, cases_float, cases_flow,
  cases_system, dispatch, vm_opcode_execute, run_loop, vm_run,
}
use mihini.Width.{vm_width_to_mask}
use mihini.Mhvm.{run_file, version_of, fread_program}
use mihini.Asm.Running.{assembling}
use mihini.Asm.{Asm}
use mihini.Asm.Main.{asm_main}

-- "\tload.w #300 d0", "\taddi.w #7 d0" and "\tstop"
abbrev source : List ℕ
source =
    9 ∷ 108 ∷ 111 ∷ 97 ∷ 100 ∷ 46 ∷ 119 ∷ 32 ∷ 35 ∷ 51 ∷ 48 ∷ 48 ∷ 32 ∷ 100 ∷ 48 ∷ 10 ∷ 9 ∷ 97 ∷ 100
    ∷ 100 ∷ 105 ∷ 46 ∷ 119 ∷ 32 ∷ 35 ∷ 55 ∷ 32 ∷ 100 ∷ 48 ∷ 10 ∷ 9 ∷ 115 ∷ 116 ∷ 111 ∷ 112 ∷ 10 ∷ []

abbrev file_of : Option Asm → List ℕ
file_of none = []
file_of (some s) = s.dest

-- Register d0 at the end
abbrev result : Run Exit → Option ℕ
result (ok e s) = some (s.registers 0)
result undefined = none
result out_of_fuel = none

source_runs :
    result (
      mhvm_main 4096
        (λ a. 0)
        (λ d. 0)
        32
        10
        (file_of (asm_main (record { zeroed = true; usable = λ n. n + 8 }) (λ cs. 0) source)))
    ≡ some 307
unfolding assembling mhvm_main run_file version_of fread_program vm_init cleared paddblock host_read
    host_write get_root set_root ll_insert_sorted count_node add_totalmem read_bytes write_bytes
    load_le store_le pmalloc find_block allocate split_block ll_remove fixup_root find_place vm_run
    run_loop vm_opcode_execute dispatch switch cases_data cases_arith cases_logic cases_compare
    cases_float cases_flow cases_system read_uint8 read_uint16 read_width vm_read_memory
    vm_opcode_load vm_opcode_addi vm_opcode_stop vm_read_register_or_memory
    vm_write_register_or_memory read_by_mode write_by_mode vm_width_to_mask steps
source_runs = refl
