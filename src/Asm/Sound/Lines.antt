-- ===== src/Asm/Sound/Lines.antt =====
-- Whole lines of src/mhasm.c keep a sound state sound.
use mihini.Prelude.{
  ℕ, ◌==◌, ◌≡◌, refl, Bool, true, false, if◌then◌else◌, List, [], ◌∷◌, Option, some, length, u8,
}
use mihini.Prelude.Options.{
  WhenSome, WhenSome-map, WhenSome-bind, WhenSome-then, WhenSome-if, WhenSome-eq,
}
use mihini.Prelude.Ascii.{char_at}
use mihini.Opcode.Tables.{load_opcodes_values}
use mihini.Stree.{Malloc, stree_new, stree_set, is_null, stree_get, stree_exists}
use mihini.Parser.{parse_width}
use mihini.Asm.{Asm, redefinition, unknown_opcode}
use mihini.Asm.Scan.{get_segment, str_trim_right, parse}
use mihini.Asm.Label.{node_value}
use mihini.Asm.Layout.{choose, layouts}
use mihini.Asm.Assemble.{absent, emit, line_width, assemble_opcode, assemble}
use mihini.Asm.Main.{read_source, assemble_line, assemble_lines, asm_start, write_header}
use mihini.Asm.Sound.{IsSound, report-IsSound, write_buffer-IsSound, write_uint32-IsSound}
use mihini.Asm.Sound.Operands.{noted-IsSound}
use mihini.Asm.Sound.Emit.{emit-IsSound}

-- The second part of a pair, if there is one, is sound.
abbrev GoesOn : Option (Bool × Asm) → Type 0
GoesOn o = WhenSome (λ p. IsSound (p.1)) o

line_width-IsSound : {state : Asm} → IsSound state → IsSound (line_width state).1
unfolding line_width
line_width-IsSound {state} s =
    pair_choice (absent state.offsets.width) _ _ s
      (noted-IsSound (parse_width (char_at (get_segment state.sourceline state.offsets.width) 0)) s)
  where
    pair_choice :
        (test : Bool) (m n : ℕ × Asm)
        → IsSound (m.1)
        → IsSound (n.1)
        → IsSound (if test then m else n).1
    pair_choice true m n h k = h
    pair_choice false m n h k = k

assemble_opcode-IsSound :
    (float_bits : List ℕ → ℕ) {state : Asm}
    → IsSound state
    → GoesOn (assemble_opcode float_bits state)
unfolding assemble_opcode
assemble_opcode-IsSound f {state} s =
    let (width, sized) = line_width state in
    let k : IsSound sized = line_width-IsSound s in
    let name = get_segment sized.sourceline sized.offsets.opcode in
    let opcode = u8 (node_value (stree_get sized.opcodes name)) in
    let P : Bool × Asm → Type 0 = λ p. IsSound (p.1) in
    WhenSome-if P (absent sized.offsets.opcode) _ _ k (
      WhenSome-if P (is_null (stree_get sized.opcodes name)) _ _
        (report-IsSound (unknown_opcode name) k)
        (WhenSome-map P (λ s. (true, s)) (emit f (choose opcode layouts) opcode width sized)
          (emit-IsSound f (choose opcode layouts) opcode width k)))

assemble-IsSound :
    (float_bits : List ℕ → ℕ) {state : Asm} → IsSound state → GoesOn (assemble float_bits state)
unfolding assemble
assemble-IsSound f {state} s =
    let name = get_segment state.sourceline state.offsets.label in
    let P : Bool × Asm → Type 0 = λ p. IsSound (p.1) in
    WhenSome-if P (absent state.offsets.label) _ _ (assemble_opcode-IsSound f s) (
      WhenSome-if P (stree_exists state.labels name) _ _ (report-IsSound (redefinition name) s) (
        WhenSome-then P _ (stree_set state.malloc state.labels name state.pos) λ labels.
          assemble_opcode-IsSound f
            (record { sized = s.sized; inside = s.inside; spaced = s.spaced })))

assemble_line-IsSound :
    (float_bits : List ℕ → ℕ) (line : List ℕ) {state : Asm}
    → IsSound state
    → GoesOn (assemble_line float_bits line state)
unfolding assemble_line
assemble_line-IsSound f line {state} s =
    let P : Bool × Asm → Type 0 = λ p. IsSound (p.1) in
    WhenSome-if P (length (str_trim_right line) == 0) _ _
      (record { sized = s.sized; inside = s.inside; spaced = s.spaced })
      (WhenSome-then P _ (parse (str_trim_right line))
        λ o. assemble-IsSound f (record { sized = s.sized; inside = s.inside; spaced = s.spaced }))

lines_IsSound :
    (float_bits : List ℕ → ℕ) (lines : List (List ℕ)) {state : Asm}
    → IsSound state
    → WhenSome IsSound (assemble_lines float_bits lines state)
unfolding assemble_lines
lines_IsSound f [] s = s
lines_IsSound f (line ∷ lines) {state} s =
    WhenSome-bind (λ (p : Bool × Asm). IsSound (p.1)) IsSound _ (assemble_line f line state)
      (λ p h. WhenSome-if IsSound (p.0) _ _ (lines_IsSound f lines h) h)
      (assemble_line-IsSound f line s)

start-IsSound : (malloc : Malloc) → WhenSome IsSound (asm_start malloc)
unfolding asm_start
start-IsSound malloc = WhenSome-then IsSound _ (stree_new malloc 45) λ root.
    WhenSome-then IsSound _ (load_opcodes_values malloc root) λ opcodes.
      WhenSome-then IsSound _ (stree_new malloc 45) λ labels.
        WhenSome-then IsSound _ (stree_new malloc 45)
          λ fwd_labels. record { sized = refl; inside = λ list. tt; spaced = λ small list. tt }

header-IsSound : {start : Asm} → IsSound start → IsSound (write_header start)
unfolding write_header
header-IsSound s = write_uint32-IsSound _ (write_buffer-IsSound _ s)

-- Whatever the lines of a source are, if all of them are read without undefined behaviour, or up to the
-- first at which `assemble` gives up, then the position is the length of the file, modulo 2 ^ 32, and
-- the four bytes of each forward reference lie inside the file and, where the file has less than 2 ^ 32
-- bytes, those of one label lie one behind the other.
pub assemble_lines-IsSound :
    (malloc : Malloc) (float_bits : List ℕ → ℕ) (lines : List (List ℕ)) (state : Asm)
    → read_source malloc float_bits lines ≡ some state
    → IsSound state
unfolding read_source
assemble_lines-IsSound malloc f lines state h =
    WhenSome-eq IsSound _ state
      (WhenSome-bind IsSound IsSound _ (asm_start malloc)
        (λ start s. lines_IsSound f lines (header-IsSound s)) (start-IsSound malloc))
      h
