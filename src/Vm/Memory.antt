-- ===== src/Vm/Memory.antt =====
-- `vm_read_memory`, `vm_write_memory` and the fetch of operands in src/vm.c. The host is
-- little-endian and allows unaligned access, as the casts of the source take for granted.
pub mod Bytes
pub mod Laws
pub mod Fetch
use mihini.Prelude.{
  ℕ, zero, suc, ◌+◌, ◌*◌, ◌/◌, ◌%◌, ◌==◌, leb, if◌then◌else◌, update, u8, u16, u32,
}
use mihini.Opcode.{width_8, width_16, width_32, width_64}
use mihini.Vm.State.{
  ok, undefined, M, Action, pure, skip, ◌>>=◌, ◌>>◌, get, set_ip, emit, unknown_width,
}

-- The `n` bytes from `a` as a little-endian number.
unfoldable pub load_le : (ℕ → ℕ) → ℕ → ℕ → ℕ
load_le mem a zero = 0
load_le mem a (suc n) = mem a + 256 * load_le mem (a + 1) n

unfoldable pub store_le : (ℕ → ℕ) → ℕ → ℕ → ℕ → (ℕ → ℕ)
store_le mem a zero v = mem
store_le mem a (suc n) v = store_le (update mem a (v % 256)) (a + 1) n (v / 256)

-- `*(uintN_t*)ptr`, for a pointer `a` bytes into the block
unfoldable pub read_bytes : ℕ → ℕ → M ℕ
read_bytes a n s = if leb (a + n) s.memsize then ok (load_le s.memory a n) s else undefined

unfoldable pub write_bytes : ℕ → ℕ → ℕ → Action
write_bytes a n v s =
    if leb (a + n) s.memsize
    then ok tt (record s { memory = store_le s.memory a n v })
    else undefined

unfoldable pub vm_read_memory : ℕ → ℕ → M ℕ
vm_read_memory address width =
    if width == width_8
    then read_bytes address 1
    else if width == width_16
    then read_bytes address 2
    else if width == width_32
    then read_bytes address 4
    else if width == width_64
    then read_bytes address 8
    else pure 0

-- The first case has no `break` and falls through into the second.
unfoldable pub vm_write_memory : ℕ → ℕ → ℕ → Action
vm_write_memory address value width =
    if width == width_8
    then (do write_bytes address 1 value; write_bytes address 2 value)
    else if width == width_16
    then write_bytes address 2 value
    else if width == width_32
    then write_bytes address 4 value
    else if width == width_64
    then write_bytes address 8 value
    else skip

unfoldable pub read_uint8 : M ℕ
read_uint8 = do s ← get; v ← vm_read_memory s.ip width_8; set_ip (u32 (s.ip + 1)); pure (u8 v)

unfoldable pub read_uint16 : M ℕ
read_uint16 = do s ← get; v ← vm_read_memory s.ip width_16; set_ip (u32 (s.ip + 2)); pure (u16 v)

unfoldable pub read_uint32 : M ℕ
read_uint32 = do s ← get; v ← vm_read_memory s.ip width_32; set_ip (u32 (s.ip + 4)); pure (u32 v)

unfoldable pub read_uint64 : M ℕ
read_uint64 = do s ← get; v ← vm_read_memory s.ip width_64; set_ip (u32 (s.ip + 8)); pure v

unfoldable pub read_width : ℕ → M ℕ
read_width width =
    if width == width_8
    then read_uint8
    else if width == width_16
    then read_uint16
    else if width == width_32
    then read_uint32
    else if width == width_64
    then read_uint64
    else do emit (unknown_width width); pure 0xFFFFFFFFFFFFFFFF
