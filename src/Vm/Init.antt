-- ===== src/Vm/Init.antt =====
-- `vm_init` of src/vm.c.
pub mod Block
use mihini.Prelude.{ℕ, ◌+◌, ◌-◌, ◌^◌, ◌%◌, u32, false, []}
use mihini.Vm.State.{Vm, Run, Heap, Action, ◌>>◌, set_register}
use mihini.Vm.Operand.{vm_reg_a7}
use mihini.Vm.Heap.{paddblock}

-- The allocator's globals before their first use.
abbrev pub empty_heap : Heap
empty_heap = record { available = 0; assigned = 0; freemem = 0; totalmem = 0; totalnodes = 0 }

-- The state before `paddblock`: `base` and `garbage` are the address and the contents of the block
-- that `malloc` returns.
unfoldable pub cleared : (base : ℕ) (garbage : ℕ → ℕ) → ℕ → Vm
cleared base garbage memsize = record {
  registers = λ _. 0;
  condition = 0;
  ip = 0;
  memory = λ a. garbage a % 2 ^ 8;
  memsize = memsize;
  base = base;
  stopped = false;
  heap = empty_heap;
  output = [];
}

unfoldable pub vm_init : (base : ℕ) (garbage : ℕ → ℕ) → ℕ → ℕ → ℕ → Run (Unit {0})
vm_init base garbage memsize bootsize stacksize = start (cleared base garbage memsize)
  where
    start : Action
    start = do
      paddblock (base + bootsize) (u32 (memsize + 2 ^ 32 - stacksize))
      set_register vm_reg_a7 memsize
