-- ===== src/Vm/Memory/Fetch.antt =====
-- The fetch of operands in src/vm.c.
use native.Mathlib.Nat.{mod-eq_of_lt, pow-suc}
use mihini.Prelude.{ap, ◌∙◌, ℕ, zero, suc, ◌+◌, ◌^◌, ◌<◌, ◌≤◌, ◌≡◌, refl, arith, u32}
use mihini.Opcode.{width_8, width_16, width_32, width_64}
use mihini.Width.{vm_width_to_bytes}
use mihini.Vm.State.{Vm, ok, steps}
use mihini.Vm.Memory.{load_le, read_uint8, read_uint16, read_uint32, read_uint64, read_width}
use mihini.Vm.Memory.Bytes.{load_le-one}
use mihini.Vm.Memory.Laws.{vm_read_memory-ok}

-- The machine once `n` bytes of the program are read.
abbrev pub advanced : Vm → ℕ → Vm
advanced s n = record s { ip = s.ip + n }

abbrev pub AreBytes : (ℕ → ℕ) → Type 0
AreBytes mem = (a : ℕ) → mem a < 2 ^ 8

load_le_lt : (mem : ℕ → ℕ) (a n : ℕ) → AreBytes mem → load_le mem a n < 256 ^ n
unfolding load_le
load_le_lt mem a zero h = omega arith
load_le_lt mem a (suc n) h = omega (arith, pow-suc 256 n, h a, load_le_lt mem (a + 1) n h)

u32_ip : (s : Vm) (n : ℕ) → s.ip + n ≤ s.memsize → s.memsize < 2 ^ 32 → u32 (s.ip + n) ≡ s.ip + n
u32_ip s n h k = omega arith

-- An operand in bounds is the little-endian number of its width's bytes at the instruction pointer,
-- whole, and the pointer moves behind it.
pub read_width-ok :
    (width : ℕ) (s : Vm)
    → width ≤ width_64
    → AreBytes s.memory
    → s.ip + vm_width_to_bytes width ≤ s.memsize
    → s.memsize < 2 ^ 32
    → read_width width s
      ≡ ok (load_le s.memory s.ip (vm_width_to_bytes width)) (advanced s (vm_width_to_bytes width))
unfolding read_width read_uint8 read_uint16 read_uint32 read_uint64 vm_width_to_bytes steps
read_width-ok zero s w b h k =
    rw
      (
        vm_read_memory-ok s s.ip width_8 w h,
        mod-eq_of_lt (load_le_lt s.memory s.ip 1 b),
        u32_ip s 1 h k,
      )
      refl
read_width-ok (suc zero) s w b h k =
    rw
      (
        vm_read_memory-ok s s.ip width_16 w h,
        mod-eq_of_lt (load_le_lt s.memory s.ip 2 b),
        u32_ip s 2 h k,
      )
      refl
read_width-ok (suc (suc zero)) s w b h k =
    rw
      (
        vm_read_memory-ok s s.ip width_32 w h,
        mod-eq_of_lt (load_le_lt s.memory s.ip 4 b),
        u32_ip s 4 h k,
      )
      refl
read_width-ok (suc (suc (suc zero))) s w b h k =
    rw (vm_read_memory-ok s s.ip width_64 w h, u32_ip s 8 h k) refl
read_width-ok (suc (suc (suc (suc n)))) s w b h k = absurd (omega arith)

pub read_uint8-ok :
    (s : Vm)
    → AreBytes s.memory
    → s.ip < s.memsize
    → s.memsize < 2 ^ 32
    → read_uint8 s ≡ ok (s.memory s.ip) (advanced s 1)
unfolding read_width vm_width_to_bytes
read_uint8-ok s b h k =
    read_width-ok 0 s (omega arith) b (omega arith) k
    ∙ ap (λ (t : ℕ). ok t (advanced s 1)) (load_le-one s.memory s.ip)
