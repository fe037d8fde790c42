-- ===== src/Dasm.antt =====
-- The disassembler, src/mhdasm.c and src/mhdasm.h: its state, the reads from the source file, and the
-- chain of steps. A step is undefined where the code follows a pointer that is NULL.
pub mod Layout
pub mod First
pub mod Second
pub mod Main
pub mod Ends
pub mod Lengths
mod Examples
use mihini.Prelude.{
  ℕ, zero, suc, ◌+◌, ◌*◌, ◌^◌, ◌%◌, ◌==◌, ltb, if◌then◌else◌, Bool, true, false, List, [], ◌∷◌,
  ◌++◌, length, u8, u16, u32, u64,
}
use mihini.Prelude.Ascii.{drop}
use mihini.Opcode.{width_8, width_16, width_32, width_64}
use mihini.Btree.{BtreeNode}

-- The messages that go to stdout
pub data Message : Type 0 where
  unknown_opcode : ℕ → Message
  no_label : Message

-- `state_t`. `source` is what is left of the source file, `eof` its end-of-file indicator, and `dest`
-- the text that is written. A label is the number that it is named by.
pub record Dasm : Type 0 where
  pub source : List ℕ
  pub eof : Bool
  pub dest : List ℕ
  pub pos : ℕ
  pub line_number : ℕ
  pub label_num : ℕ
  pub labels : BtreeNode ℕ
  pub opcodes : BtreeNode (List ℕ)
  pub messages : List Message

pub data Result (A : Type 0) : Type 0 where
  done : A → Dasm → Result A
  undefined : Result A
  out_of_fuel : Result A

abbrev pub M : Type 0 → Type 0
M A = Dasm → Result A

abbrev pub and_then : {A B : Type 0} → Result A → (A → M B) → Result B
and_then (done a s) k = k a s
and_then undefined k = undefined
and_then out_of_fuel k = out_of_fuel

infixl 5 ◌>>=◌ ◌>>◌
unfoldable pub ◌>>=◌ : {A B : Type 0} → M A → (A → M B) → M B
◌>>=◌ m k s = and_then (m s) k

abbrev pub ◌>>◌ : {A B : Type 0} → M A → M B → M B
m >> n = m >>= λ _. n

abbrev pub Action : Type 0
Action = M (Unit {0})

unfoldable pub pure : {A : Type 0} → A → M A
pure a s = done a s

unfoldable pub get : M Dasm
get s = done s s

unfoldable pub modify : (Dasm → Dasm) → Action
modify f s = done tt (f s)

unfoldable pub fail : {A : Type 0} → M A
fail s = undefined

abbrev pub message : Message → Action
message m = modify λ s. record s { messages = s.messages ++ (m ∷ []) }

-- `fprintf` to the destination, and the same with a line counted
abbrev pub print : List ℕ → Action
print text = modify λ s. record s { dest = s.dest ++ text }

abbrev pub print_line : List ℕ → Action
print_line text =
    modify λ s. record s { dest = s.dest ++ text; line_number = u32 (s.line_number + 1) }

-- The little-endian number of the first `n` bytes
unfoldable pub value_le : ℕ → List ℕ → ℕ
value_le zero bytes = 0
value_le (suc n) [] = 0
value_le (suc n) (b ∷ bs) = b + 256 * value_le n bs

-- `junk` is what a variable of `n` bytes holds that `fread` could not fill.
module _ (junk : ℕ → ℕ) where
  -- `fread(&value, n, 1, source)` and the step of `pos`
  unfoldable pub read_bytes : ℕ → M ℕ
  read_bytes n s =
      if ltb (length s.source) n
      then done (junk n % 2 ^ (8 * n)) (record s { source = []; eof = true; pos = u32 (s.pos + n) })
      else done (value_le n s.source) (record s { source = drop n s.source; pos = u32 (s.pos + n) })

  unfoldable pub read_uint8 : M ℕ
  read_uint8 = read_bytes 1

  unfoldable pub read_uint16 : M ℕ
  read_uint16 = read_bytes 2

  unfoldable pub read_uint32 : M ℕ
  read_uint32 = read_bytes 4

  unfoldable pub read_uint64 : M ℕ
  read_uint64 = read_bytes 8

  unfoldable pub read_variable : ℕ → M ℕ
  read_variable width =
      if width == width_8
      then read_uint8
      else if width == width_16
      then read_uint16
      else if width == width_32
      then read_uint32
      else if width == width_64
      then read_uint64
      else pure 0xFFFFFFFFFFFFFFFF
