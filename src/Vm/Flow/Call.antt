-- ===== src/Vm/Flow/Call.antt =====
-- Calls and returns of src/vm.c: the stack slot that holds the address of return.
use native.Mathlib.Nat.{mod-eq_of_lt}
use mihini.Prelude.{
  ltb, leb, ◌&&◌, false, ℕ, ◌+◌, ◌-◌, ◌^◌, ◌<◌, ◌≤◌, ◌≡◌, refl, ◌∙◌, arith, update, u32, u64, sub64,
}
use mihini.Opcode.{width_32}
use mihini.Width.{vm_width_to_bytes}
use mihini.Vm.State.{Vm, ok, steps}
use mihini.Vm.Memory.{load_le, store_le}
use mihini.Vm.Memory.Bytes.{load_le_congr, load_le-store_le_self}
use mihini.Vm.Memory.Laws.{vm_write_memory-ok, vm_read_memory-ok}
use mihini.Vm.Operand.{
  read_by_mode, write_by_mode, decrement_register, increment_register, read_at_register,
  write_at_register, vm_read_register_or_memory, vm_write_register_or_memory,
}
use mihini.Vm.Flow.{push_ip, pop_uint32, vm_opcode_calli, vm_opcode_call, branch_by, vm_opcode_ret}

-- There is room for a word below the stack pointer, and the memory is one that 32 bits address.
pub record HasRoom (s : Vm) : Type 0 where
  pub above : 4 ≤ s.registers 15
  pub inside : s.registers 15 ≤ s.memsize
  pub addressed : s.memsize < 2 ^ 32

-- The machine once the word `v` is pushed.
abbrev pub pushed : Vm → ℕ → Vm
pushed s v = record s {
  registers = update s.registers 15 (s.registers 15 - 4);
  memory = store_le s.memory (s.registers 15 - 4) 4 v;
}

lowered : (s : Vm) → HasRoom s → sub64 (s.registers 15) 4 ≡ s.registers 15 - 4
lowered s h = let p = h.above in let q = h.inside in let r = h.addressed in omega arith

lowered32 : (s : Vm) → HasRoom s → u32 (s.registers 15 - 4) ≡ s.registers 15 - 4
lowered32 s h = let p = h.above in let q = h.inside in let r = h.addressed in omega arith

push_word :
    (s : Vm) (v : ℕ)
    → HasRoom s
    → vm_write_register_or_memory 0x2F v width_32 s ≡ ok tt (pushed s v)
unfolding vm_write_register_or_memory write_by_mode decrement_register write_at_register
    vm_width_to_bytes steps
push_word s v h =
    rw (lowered s h, lowered32 s h)
      (vm_write_memory-ok (record s { registers = update s.registers 15 (s.registers 15 - 4) })
        (s.registers 15 - 4) v width_32 (omega arith, omega arith) (room s h))
  where
    room : (s : Vm) → HasRoom s → s.registers 15 - 4 + 4 ≤ s.memsize
    room s h = let p = h.above in let q = h.inside in omega arith

-- The machine once a word is popped.
abbrev pub popped : Vm → Vm
popped s = record s { registers = update s.registers 15 (s.registers 15 + 4) }

pop_word :
    (t : Vm)
    → t.registers 15 + 4 ≤ t.memsize
    → t.memsize < 2 ^ 32
    → vm_read_register_or_memory 0x3F width_32 t
      ≡ ok (load_le t.memory (t.registers 15) 4) (popped t)
unfolding vm_read_register_or_memory read_by_mode increment_register read_at_register
    vm_width_to_bytes steps
pop_word t h k = rw (cut, vm_read_memory-ok t (t.registers 15) width_32 (omega arith) h, cut64) refl
  where
    cut : u32 (t.registers 15) ≡ t.registers 15
    cut = omega arith

    cut64 : u64 (t.registers 15 + 4) ≡ t.registers 15 + 4
    cut64 = omega arith

-- What the code between a call and its return may do: anything that leaves the stack pointer, the
-- four bytes of the slot and the size of the memory as the call left them.
pub record KeepsSlot (s t : Vm) : Type 0 where
  pub pointer : t.registers 15 ≡ s.registers 15
  pub slot : (i : ℕ) → s.registers 15 ≤ i → i < s.registers 15 + 4 → t.memory i ≡ s.memory i
  pub size : t.memsize ≡ s.memsize

abbrev pub called : Vm → ℕ → Vm
called s address = record (pushed s s.ip) { ip = address }

-- The machine back from a call, where the code of the call ended in `t`.
abbrev pub returned : Vm → Vm → Vm
returned s t = record t { ip = s.ip; registers = update t.registers 15 (s.registers 15) }

-- The slot still holds the address of return.
saved :
    (s t : Vm) (address : ℕ)
    → HasRoom s
    → s.ip < 2 ^ 32
    → KeepsSlot (called s address) t
    → load_le t.memory (s.registers 15 - 4) 4 ≡ s.ip
saved s t address room h kept =
    load_le_congr t.memory (store_le s.memory (s.registers 15 - 4) 4 s.ip) (s.registers 15 - 4) 4
      kept.slot
    ∙ load_le-store_le_self s.memory (s.registers 15 - 4) 4 s.ip
    ∙ mod-eq_of_lt h

-- Where the stack has room for a word and 32 bits address the memory, CALLI saves the address of the
-- next instruction and jumps; RET, after any code that keeps the slot,
-- continues at that address with the stack pointer of before the call, and changes nothing else.
pub vm_opcode_calli-ret :
    (s t : Vm) (width address : ℕ)
    → HasRoom s
    → s.ip < 2 ^ 32
    → KeepsSlot (called s address) t
    → (vm_opcode_calli width address s ≡ ok tt (called s address))
      × (vm_opcode_ret width t ≡ ok tt (returned s t))
unfolding vm_opcode_calli vm_opcode_ret push_ip pop_uint32 steps
vm_opcode_calli-ret s t width address room h kept = (
  rw (push_word s s.ip room) refl,
  rw (pop_word t inside addressed, kept.pointer, saved s t address room h kept, whole, restored)
      refl,
)
  where
    restored : s.registers 15 - 4 + 4 ≡ s.registers 15
    restored = let p = room.above in omega arith

    inside : t.registers 15 + 4 ≤ t.memsize
    inside = rw (kept.pointer, kept.size, restored) room.inside

    addressed : t.memsize < 2 ^ 32
    addressed = rw kept.size room.addressed

    whole : u32 s.ip ≡ s.ip
    whole = mod-eq_of_lt h

-- The sum `offset + 4` of an `int32_t` offset is an `int`.
abbrev pub Fits : ℕ → Type 0
Fits offset = (ltb offset (2 ^ 31) && leb (2 ^ 31) (offset + 4)) ≡ false

-- CALL saves the address of the next instruction and goes on at its offset from there, plus 4, as a
-- 32-bit address; RET, after any code that keeps the slot, continues at the saved address with the
-- stack pointer of before the call. The stack has room, and the offset plus 4 does not overflow.
pub vm_opcode_call-ret :
    (s t : Vm) (width offset : ℕ)
    → HasRoom s
    → s.ip < 2 ^ 32
    → Fits offset
    → KeepsSlot (called s (u32 (s.ip + offset + 4))) t
    → (vm_opcode_call width offset s ≡ ok tt (called s (u32 (s.ip + offset + 4))))
      × (vm_opcode_ret width t ≡ ok tt (returned s t))
unfolding vm_opcode_call branch_by push_ip steps
vm_opcode_call-ret s t width offset room h fits kept = (
  rw (push_word s s.ip room, fits) refl,
  (vm_opcode_calli-ret s t width (u32 (s.ip + offset + 4)) room h kept).1,
)
