-- ===== src/Vm/Memory/Laws.antt =====
-- What the memory operations of src/vm.c do to a machine.
use mihini.Prelude.{
  ℕ, zero, suc, ◌+◌, ◌/◌, ◌%◌, ◌^◌, ◌<◌, ◌≤◌, ◌==◌, ◌≡◌, ◌⊎◌, refl, ap, ◌∙◌, false, arith,
  if◌then◌else◌, le→leb,
}
use mihini.Opcode.{width_8, width_64}
use mihini.Width.{vm_width_to_bits, vm_width_to_bytes}
use mihini.Vm.State.{Vm, ok, undefined, steps}
use mihini.Vm.Memory.{load_le, store_le, read_bytes, write_bytes, vm_read_memory, vm_write_memory}
use mihini.Vm.Memory.Bytes.{
  store_le_first, store_le_second, store_le_outside, load_le-one, load_le-store_le_self,
}

abbrev pub stored : Vm → ℕ → ℕ → ℕ → Vm
stored s a n v = record s { memory = store_le s.memory a n v }

pub read_bytes-ok :
    (s : Vm) (a n : ℕ) → a + n ≤ s.memsize → read_bytes a n s ≡ ok (load_le s.memory a n) s
unfolding read_bytes
read_bytes-ok s a n h = rw (le→leb (a + n) s.memsize h)

pub write_bytes-ok :
    (s : Vm) (a n v : ℕ) → a + n ≤ s.memsize → write_bytes a n v s ≡ ok tt (stored s a n v)
unfolding write_bytes
write_bytes-ok s a n v h = rw (le→leb (a + n) s.memsize h)

pub write_bytes-undefined :
    (s : Vm) (a n v : ℕ) → s.memsize < a + n → write_bytes a n v s ≡ undefined
unfolding write_bytes
write_bytes-undefined s a n v h = ground arith

-- The widths other than a byte write what they say.
abbrev pub IsWide : ℕ → Type 0
IsWide width = (width_8 < width) × (width ≤ width_64)

pub vm_write_memory-ok :
    (s : Vm) (a v width : ℕ)
    → IsWide width
    → a + vm_width_to_bytes width ≤ s.memsize
    → vm_write_memory a v width s ≡ ok tt (stored s a (vm_width_to_bytes width) v)
unfolding vm_write_memory vm_width_to_bytes
vm_write_memory-ok s a v zero w h = absurd (omega arith)
vm_write_memory-ok s a v (suc zero) w h = write_bytes-ok s a 2 v h
vm_write_memory-ok s a v (suc (suc zero)) w h = write_bytes-ok s a 4 v h
vm_write_memory-ok s a v (suc (suc (suc zero))) w h = write_bytes-ok s a 8 v h
vm_write_memory-ok s a v (suc (suc (suc (suc n)))) w h = absurd (omega arith)

pub vm_read_memory-ok :
    (s : Vm) (a width : ℕ)
    → width ≤ width_64
    → a + vm_width_to_bytes width ≤ s.memsize
    → vm_read_memory a width s ≡ ok (load_le s.memory a (vm_width_to_bytes width)) s
unfolding vm_read_memory vm_width_to_bytes
vm_read_memory-ok s a zero w h = read_bytes-ok s a 1 h
vm_read_memory-ok s a (suc zero) w h = read_bytes-ok s a 2 h
vm_read_memory-ok s a (suc (suc zero)) w h = read_bytes-ok s a 4 h
vm_read_memory-ok s a (suc (suc (suc zero))) w h = read_bytes-ok s a 8 h
vm_read_memory-ok s a (suc (suc (suc (suc n)))) w h = absurd (omega arith)

-- The bytes that a write touches: one more than its width at width_8.
abbrev pub footprint : ℕ → ℕ
footprint width = if width == width_8 then 2 else vm_width_to_bytes width

abbrev pub Untouched : ℕ → ℕ → Vm → Vm → Type 0
Untouched a n s s' = (i : ℕ) → (i < a) ⊎ (a + n ≤ i) → s'.memory i ≡ s.memory i

-- `s'` is the machine after a write of `v` at `a`: the write reads back, cut to its width, and only
-- the bytes of its footprint may have changed.
pub record IsWritten (s : Vm) (a v width : ℕ) (s' : Vm) : Type 0 where
  pub written : vm_write_memory a v width s ≡ ok tt s'
  pub reads_back : vm_read_memory a width s' ≡ ok (v % 2 ^ vm_width_to_bits width) s'
  pub untouched : Untouched a (footprint width) s s'
  pub only_memory : s' ≡ record s { memory = s'.memory }

abbrev pub after_write : Vm → ℕ → ℕ → ℕ → Vm
after_write s a v width =
    if width == width_8
    then stored (stored s a 1 v) a 2 v
    else stored s a (vm_width_to_bytes width) v

stored-Untouched : (s : Vm) (a n v : ℕ) → Untouched a n s (stored s a n v)
stored-Untouched s a n v i h = store_le_outside s.memory a n v i h

width_power :
    (width : ℕ) → width ≤ width_64 → 256 ^ vm_width_to_bytes width ≡ 2 ^ vm_width_to_bits width
unfolding vm_width_to_bytes vm_width_to_bits
width_power zero h = refl
width_power (suc zero) h = refl
width_power (suc (suc zero)) h = refl
width_power (suc (suc (suc zero))) h = refl
width_power (suc (suc (suc (suc n)))) h = absurd (omega arith)

not_byte : (n : ℕ) → (suc n == width_8) ≡ false
not_byte n = ground arith

wide_IsWritten :
    (s : Vm) (a v n : ℕ)
    → suc n ≤ width_64
    → a + vm_width_to_bytes (suc n) ≤ s.memsize
    → IsWritten s a v (suc n) (stored s a (vm_width_to_bytes (suc n)) v)
wide_IsWritten s a v n w h = record {
  written = vm_write_memory-ok s a v (suc n) (omega arith, w) h;
  reads_back =
      vm_read_memory-ok (stored s a bytes v) a (suc n) w h
      ∙ ap (λ (t : ℕ). ok t (stored s a bytes v)) (load_le-store_le_self s.memory a bytes v)
      ∙ ap (λ (t : ℕ). ok (v % t) (stored s a bytes v)) (width_power (suc n) w);
  untouched = rw (not_byte n) (stored-Untouched s a bytes v);
  only_memory = refl;
}
  where
    bytes : ℕ
    bytes = vm_width_to_bytes (suc n)

byte_written :
    (s : Vm) (a v : ℕ)
    → a + 2 ≤ s.memsize
    → vm_write_memory a v width_8 s ≡ ok tt (after_write s a v width_8)
unfolding vm_write_memory steps
byte_written s a v h =
    rw (write_bytes-ok s a 1 v (omega arith)) (write_bytes-ok (stored s a 1 v) a 2 v h)

byte_reads_back :
    (s : Vm) (a v : ℕ)
    → a + 2 ≤ s.memsize
    → vm_read_memory a width_8 (after_write s a v width_8)
      ≡ ok (v % 2 ^ 8) (after_write s a v width_8)
unfolding vm_width_to_bytes
byte_reads_back s a v h =
    vm_read_memory-ok (after_write s a v width_8) a width_8 (omega arith) (omega arith)
    ∙ ap (λ (t : ℕ). ok t (after_write s a v width_8)) low_byte
  where
    low_byte : load_le (store_le (store_le s.memory a 1 v) a 2 v) a 1 ≡ v % 2 ^ 8
    low_byte = omega (
      arith,
      load_le-one (store_le (store_le s.memory a 1 v) a 2 v) a,
      store_le_first (store_le s.memory a 1 v) a 1 v,
    )

-- In bounds, what is written is read back at the same address, for every width, and no byte outside
-- the footprint changes.
pub vm_write_memory-IsWritten :
    (s : Vm) (a v width : ℕ)
    → width ≤ width_64
    → a + footprint width ≤ s.memsize
    → IsWritten s a v width (after_write s a v width)
unfolding vm_width_to_bits
vm_write_memory-IsWritten s a v zero w h = record {
  written = byte_written s a v h;
  reads_back = byte_reads_back s a v h;
  untouched = λ i p.
      store_le_outside (store_le s.memory a 1 v) a 2 v i p
      ∙ store_le_outside s.memory a 1 v i (ground arith);
  only_memory = refl;
}
vm_write_memory-IsWritten s a v (suc n) w h =
    rw (not_byte n) (wide_IsWritten s a v n w (rw (not_byte n) at h))

-- A byte written in bounds also replaces the byte behind it, by the second byte of the value.
pub vm_write_memory-width_8 :
    (s : Vm) (a v : ℕ)
    → a + 2 ≤ s.memsize
    → (s' : Vm) × (vm_write_memory a v width_8 s ≡ ok tt s')
      × (s'.memory a ≡ v % 256)
      × (s'.memory (a + 1) ≡ v / 256 % 256)
vm_write_memory-width_8 s a v h = (
  after_write s a v width_8,
  byte_written s a v h,
  store_le_first (store_le s.memory a 1 v) a 1 v,
  store_le_second (store_le s.memory a 1 v) a 0 v,
)
