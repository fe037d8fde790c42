-- ===== src/Asm/Write.antt =====
-- The writes of src/mhasm.c to the destination file, which is at its end. `fwrite` does not fail, and
-- `htole16` and its like give the little-endian bytes.
use mihini.Prelude.{
  ℕ, zero, suc, ◌+◌, ◌/◌, ◌%◌, ◌==◌, if◌then◌else◌, List, [], ◌∷◌, ◌++◌, u8, u16, u32, u64, length,
}
use mihini.Opcode.{width_8, width_16, width_32, width_64}
use mihini.Asm.{Asm}

-- The `n` bytes of a number, the lowest first
unfoldable pub bytes_le : ℕ → ℕ → List ℕ
bytes_le zero v = []
bytes_le (suc n) v = (v % 256) ∷ bytes_le n (v / 256)

-- `fwrite(buffer, length, 1, dest)`, and the new position
unfoldable pub write_buffer : List ℕ → Asm → Asm
write_buffer buffer state = record state {
  dest = state.dest ++ buffer;
  pos = u32 (state.pos + length buffer);
}

unfoldable pub write_uint8 : ℕ → Asm → Asm
write_uint8 value state = record state {
  dest = state.dest ++ bytes_le 1 (u8 value);
  pos = u32 (state.pos + 1);
}

unfoldable pub write_uint16 : ℕ → Asm → Asm
write_uint16 value state = record state {
  dest = state.dest ++ bytes_le 2 (u16 value);
  pos = u32 (state.pos + 2);
}

unfoldable pub write_uint32 : ℕ → Asm → Asm
write_uint32 value state = record state {
  dest = state.dest ++ bytes_le 4 (u32 value);
  pos = u32 (state.pos + 4);
}

unfoldable pub write_uint64 : ℕ → Asm → Asm
write_uint64 value state = record state {
  dest = state.dest ++ bytes_le 8 (u64 value);
  pos = u32 (state.pos + 8);
}

-- A width that is not known, 0xFF, has no case: nothing is written.
unfoldable pub write_variable : ℕ → ℕ → Asm → Asm
write_variable value width state =
    if width == width_8
    then write_uint8 value state
    else if width == width_16
    then write_uint16 value state
    else if width == width_32
    then write_uint32 value state
    else if width == width_64
    then write_uint64 value state
    else state
