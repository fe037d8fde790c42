-- ===== src/Asm/Scan.antt =====
-- The scanning of a source line in src/mhasm.c: `str_trim_right`, `next_segment`, `get_segment` and
-- `parse`. A line is the list of its characters, without the 0 that ends it.
use mihini.Prelude.{
  ℕ, zero, suc, ◌+◌, ◌-◌, ◌==◌, leb, not, ◌&&◌, ◌||◌, if◌then◌else◌, Bool, List, [], ◌∷◌, Option,
  none, some, u8, u16, sub16, length,
}
use mihini.Prelude.Options.{◌>>=◌}
use mihini.Prelude.Ascii.{
  char_at, space, tab_char, carriage_return, line_feed, slash, dot, letter_a, letter_upper_a,
  letter_upper_z,
}
use mihini.Asm.{Segment, SourceLine, no_offsets}

abbrev pub whitespace : ℕ → Bool
whitespace c = (c == space) || (c == tab_char) || (c == carriage_return) || (c == line_feed)

-- The loop of `str_trim_right` runs from the end: a character goes if all behind it are gone.
unfoldable pub str_trim_right : List ℕ → List ℕ
str_trim_right [] = []
str_trim_right (c ∷ cs) = elim (str_trim_right cs) [
  | [] ↦ if whitespace c then [] else c ∷ []
  | d ∷ ds ↦ c ∷ d ∷ ds
]

-- `while(buffer[pos]!=0 && test(buffer[pos])) pos++` for a `uint8_t` position. After 256 rounds each
-- position has passed the test, and the loop of the source runs forever: `none`.
unfoldable pub skip_while : (ℕ → Bool) → List ℕ → ℕ → ℕ → Option ℕ
skip_while test buffer zero pos = none
skip_while test buffer (suc rounds) pos =
    let rest = skip_while test buffer rounds (u8 (pos + 1)) in
    if not (char_at buffer pos == 0) && test (char_at buffer pos) then rest else some pos

abbrev pub text : ℕ → Bool
text c = not (whitespace c)

-- The segment, and the position that is returned
unfoldable pub next_segment : List ℕ → ℕ → Option (Segment × ℕ)
next_segment buffer pos = do
  start ← skip_while whitespace buffer 256 pos
  end ← skip_while text buffer 256 start
  some (record { start = start; length = sub16 end start; end = end }, u8 (end + 1))

abbrev pub lower : ℕ → ℕ
lower c =
    if leb letter_upper_a c && leb c letter_upper_z then c + (letter_a - letter_upper_a) else c

-- The loop of `get_segment` from position `i`, which the characters follow
unfoldable pub copy_segment : List ℕ → ℕ → ℕ → List ℕ
copy_segment [] skipped left = []
copy_segment (c ∷ cs) (suc skipped) left = copy_segment cs skipped left
copy_segment (c ∷ cs) zero zero = []
copy_segment (c ∷ cs) zero (suc left) = lower c ∷ copy_segment cs zero left

unfoldable pub get_segment : List ℕ → Segment → List ℕ
get_segment src segment = copy_segment src segment.start (segment.end - segment.start)

abbrev pub is_comment : List ℕ → Segment → Bool
is_comment buffer current =
    (char_at buffer current.start == slash) && (char_at buffer (current.start + 1) == slash)

-- The comment takes the rest of the line.
abbrev pub with_comment : List ℕ → Segment → SourceLine → SourceLine
with_comment buffer current offsets =
    let end = u16 (length buffer) in
    record offsets {
      comment = record { start = current.start; length = sub16 end current.start; end = end };
    }

-- An opcode, with a width or without: the position behind, and the offsets
unfoldable pub with_opcode : List ℕ → Segment → SourceLine → ℕ × SourceLine
with_opcode buffer current offsets =
    if char_at buffer (current.end - 2) == dot
    then (let end = sub16 current.end 2 in
        (
          u8 (end + 2),
          record offsets {
            opcode = record { start = current.start; length = sub16 current.length 2; end = end };
            width = record { start = u16 (end + 1); length = 1; end = u16 (end + 2) };
          },
        ))
    else (u8 current.end, record offsets { opcode = current })

-- A segment after the first: the line ends, a comment starts, or it is `place`d and what follows it
-- is parsed.
unfoldable pub parse_segment :
    List ℕ
    → ℕ
    → SourceLine
    → (Segment → SourceLine → ℕ × SourceLine)
    → (ℕ → SourceLine → Option SourceLine)
    → Option SourceLine
parse_segment buffer pos offsets place next = do
  found ← next_segment buffer pos
  let current = found.0
  let placed = place current offsets
  if current.length == 0
      then some offsets
      else if is_comment buffer current
      then some (with_comment buffer current offsets)
      else next (placed.0) (placed.1)

abbrev pub place_first : List ℕ → Segment → SourceLine → ℕ × SourceLine
place_first buffer current offsets =
    if current.start == 0
    then (u8 current.end, record offsets { label = current })
    else with_opcode buffer current offsets

abbrev pub place_second : List ℕ → Segment → SourceLine → ℕ × SourceLine
place_second buffer current offsets =
    if offsets.opcode.length == 0
    then with_opcode buffer current offsets
    else (u8 current.end, record offsets { arg1 = current })

abbrev pub place_third : Segment → SourceLine → ℕ × SourceLine
place_third current offsets =
    if offsets.arg1.length == 0
    then (u8 current.end, record offsets { arg1 = current })
    else (u8 current.end, record offsets { arg2 = current })

abbrev pub place_fourth : Segment → SourceLine → ℕ × SourceLine
place_fourth current offsets =
    if offsets.arg2.length == 0
    then (u8 current.end, record offsets { arg2 = current })
    else (u8 current.end, record offsets { arg3 = current })

-- The segments behind the first; the fifth is looked at for a comment alone.
unfoldable pub parse_arguments : List ℕ → ℕ → SourceLine → Option SourceLine
parse_arguments buffer pos offsets =
    parse_segment buffer pos offsets (place_second buffer) λ pos offsets.
      parse_segment buffer pos offsets place_third λ pos offsets.
        parse_segment buffer pos offsets place_fourth λ pos offsets.
          parse_segment buffer pos offsets (λ current offsets. (pos, offsets))
            λ pos offsets. some offsets

-- The first segment is not tested for being empty: the caller leaves out empty lines.
unfoldable pub parse : List ℕ → Option SourceLine
parse buffer = do
  found ← next_segment buffer 0
  let current = found.0
  let placed = place_first buffer current no_offsets
  if is_comment buffer current
      then some (with_comment buffer current no_offsets)
      else parse_arguments buffer (placed.0) (placed.1)
