-- ===== src/Vm.antt =====
-- The virtual machine of src/vm.c and the allocator of src/pmalloc.c that it runs in its memory.
pub mod State
pub mod Memory
pub mod Operand
pub mod Heap
pub mod Data
pub mod Arith
pub mod Logic
pub mod Compare
pub mod Flow
pub mod Execute
pub mod Init
mod Examples
