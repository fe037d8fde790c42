-- ===== src/Vm/Init/Block.antt =====
-- The state in which `vm_init` of src/vm.c leaves the machine and the allocator of src/pmalloc.c.
use mihini.Prelude.{ℕ, ◌+◌, ◌-◌, ◌%◌, ◌^◌, ◌<◌, ◌≤◌, ◌≡◌, ◌≢◌, ◌⊎◌, false}
use mihini.Vm.State.{Vm, Heap}
use mihini.Vm.Memory.{load_le, store_le}
use mihini.Vm.Operand.{vm_reg_a7}

-- The state with a number of `n` bytes stored
abbrev stored : Vm → ℕ → ℕ → ℕ → Vm
stored s a n v = record s { memory = store_le s.memory a n v }

-- The one block of the allocator, `room` bytes of which are for use
abbrev pub one_block : ℕ → ℕ → Heap
one_block ptr room = record {
  available = ptr;
  assigned = 0;
  freemem = room;
  totalmem = room;
  totalnodes = 1;
}

-- The memory with the node of a block: its size, and no other node before or behind it
abbrev with_node : (ℕ → ℕ) → ℕ → ℕ → (ℕ → ℕ)
with_node m a room = store_le (store_le (store_le m (a + 16) 4 room) a 8 0) (a + 8) 8 0

-- What `vm_init` leaves behind: the registers, of which the stack pointer is at the end of the memory,
-- an allocator with one free block between the boot code and the stack, and the node of that block. The
-- other bytes of the memory are those that the host gave.
pub record IsBooted (base : ℕ) (garbage : ℕ → ℕ) (memsize bootsize stacksize : ℕ) (t : Vm)
    : Type 0 where
  pub stack : t.registers vm_reg_a7 ≡ memsize
  pub registers : (r : ℕ) → r ≢ vm_reg_a7 → t.registers r ≡ 0
  pub start : (t.ip ≡ 0) × (t.condition ≡ 0) × (t.stopped ≡ false)
  pub block : (t.base ≡ base) × (t.memsize ≡ memsize)
  pub heap : t.heap ≡ one_block (base + bootsize) (memsize - stacksize - 24)
  pub prev : load_le t.memory bootsize 8 ≡ 0
  pub next : load_le t.memory (bootsize + 8) 8 ≡ 0
  pub size : load_le t.memory (bootsize + 16) 4 ≡ memsize - stacksize - 24
  pub rest : (i : ℕ) → (i < bootsize) ⊎ (bootsize + 20 ≤ i) → t.memory i ≡ garbage i % 2 ^ 8
