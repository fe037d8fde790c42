-- ===== src/Asm/Assemble.antt =====
-- `assemble` of src/mhasm.c: the label, the width and the opcode of a line, and the operands that the
-- opcode has. `float_bits` is the `atof` of the parser. C leaves the order of two calls open only
-- where they do not meet; the calls here are in the order of the source.
use mathlib.Core.Option
use mihini.Prelude.{
  ℕ, ◌==◌, not, ◌||◌, if◌then◌else◌, Bool, true, false, List, Option, some, u8, bit_or,
}
use mihini.Prelude.Options.{◌>>=◌}
use mihini.Prelude.Ascii.{char_at}
use mihini.Stree.{is_null, stree_get, stree_set, stree_exists}
use mihini.Parser.{Parsed, parse_width, parse_register, parse_register_bitmask}
use mihini.Parser.Immediate.{parse_immediate_value, parse_immediate_float_value}
use mihini.Asm.{
  Asm, Report, Segment, report, redefinition, unknown_opcode, expects_width, expects_no_width,
  takes_no_arguments, needs_arguments, takes_only,
}
use mihini.Asm.Scan.{get_segment}
use mihini.Asm.Write.{write_uint8, write_uint16, write_uint32, write_uint64, write_variable}
use mihini.Asm.Layout.{
  Layout, nothing, one_label, one_immediate, one_reg, one_reg_width, label_reg, long_reg, value_reg,
  byte_reg, float_reg, two_regs, set_reg, reg_set, value_two_regs, three_regs, directive, no_case,
  choose, layouts,
}
use mihini.Asm.Label.{parse_label, node_value}
use mihini.Asm.Data.{noted, write_data}

abbrev pub absent : Segment → Bool
absent s = s.length == 0

abbrev pub report_if : Bool → Report → Asm → Asm
report_if test r state = if test then report r state else state

-- The messages of `check_args`. It returns true on every path, so that no caller gives up.
unfoldable pub check_width : Bool → Asm → Asm
check_width true state = report_if (absent state.offsets.width) expects_width state
check_width false state = report_if (not (absent state.offsets.width)) expects_no_width state

unfoldable pub check_count : ℕ → Asm → Asm
check_count args state =
    let o = state.offsets in
    if args == 0
    then report_if (not (absent o.arg1)) takes_no_arguments state
    else if args == 1
    then report_if (not (absent o.arg2)) (takes_only 1)
        (report_if (absent o.arg1) (needs_arguments 1) state)
    else if args == 2
    then report_if (not (absent o.arg3)) (takes_only 2)
        (report_if (absent o.arg1 || absent o.arg2) (needs_arguments 2) state)
    else if args == 3
    then report_if (absent o.arg1 || absent o.arg2 || absent o.arg3) (needs_arguments 3) state
    else state

unfoldable pub check_args : Bool → ℕ → Asm → Asm
check_args haswidth args state = check_count args (check_width haswidth state)

-- The value of an operand, and the state with the parser's message
abbrev pub operand : Parsed → Asm → ℕ × Asm
operand p state = (p.value, noted p state)

unfoldable pub parse_reg_source : Segment → Asm → ℕ × Asm
parse_reg_source reg state = operand (parse_register (get_segment state.sourceline reg)) state

unfoldable pub parse_reg_bitmask_source : Segment → Asm → ℕ × Asm
parse_reg_bitmask_source reg state =
    operand (parse_register_bitmask (get_segment state.sourceline reg)) state

unfoldable pub parse_immediate_value_source : Segment → Asm → ℕ × Asm
parse_immediate_value_source reg state =
    operand (parse_immediate_value (get_segment state.sourceline reg)) state

unfoldable pub parse_immediate_value_float_source : (List ℕ → ℕ) → Segment → Asm → ℕ × Asm
parse_immediate_value_float_source float_bits reg state =
    operand (parse_immediate_float_value float_bits (get_segment state.sourceline reg)) state

-- `write_uint8(state, parse_reg_source(...))` and its like
abbrev pub write_reg : Segment → Asm → Asm
write_reg reg state = let p = parse_reg_source reg state in write_uint8 (p.0) (p.1)

abbrev pub write_bitmask : Segment → Asm → Asm
write_bitmask reg state = let p = parse_reg_bitmask_source reg state in write_uint16 (p.0) (p.1)

abbrev pub write_immediate : (ℕ → Asm → Asm) → Segment → Asm → Asm
write_immediate write reg state =
    let p = parse_immediate_value_source reg state in write (p.0) (p.1)

abbrev pub write_label : Segment → Asm → Option Asm
write_label reg state = Option.map (λ p. write_uint32 (p.0) (p.1)) (parse_label reg state)

-- The bodies of the cases
unfoldable pub emit : (List ℕ → ℕ) → Layout → ℕ → ℕ → Asm → Option Asm
emit float_bits nothing opcode width state = some (write_uint8 opcode (check_args false 0 state))
emit float_bits one_label opcode width state =
    write_label state.offsets.arg1 (write_uint8 opcode (check_args false 1 state))
emit float_bits one_immediate opcode width state = some (
    write_immediate write_uint32 state.offsets.arg1 (write_uint8 opcode (check_args false 1 state)))
emit float_bits one_reg opcode width state =
    some
      (write_reg state.offsets.arg1 (write_uint8 (bit_or opcode width) (check_args false 1 state)))
emit float_bits one_reg_width opcode width state =
    some
      (write_reg state.offsets.arg1 (write_uint8 (bit_or opcode width) (check_args true 1 state)))
emit float_bits label_reg opcode width state =
    Option.map (write_reg state.offsets.arg2)
      (write_label state.offsets.arg1 (write_uint8 opcode (check_args false 2 state)))
emit float_bits long_reg opcode width state = some (
    write_reg state.offsets.arg2 (
      write_immediate write_uint32 state.offsets.arg1
        (write_uint8 (bit_or opcode width) (check_args false 2 state))))
emit float_bits value_reg opcode width state = some (
    write_reg state.offsets.arg2 (
      write_immediate (λ v. write_variable v width) state.offsets.arg1
        (write_uint8 (bit_or opcode width) (check_args true 2 state))))
emit float_bits byte_reg opcode width state = some (
    write_reg state.offsets.arg2 (
      write_immediate write_uint8 state.offsets.arg1
        (write_uint8 (bit_or opcode width) (check_args true 2 state))))
emit float_bits float_reg opcode width state =
    let head = write_uint8 (bit_or opcode width) (check_args true 2 state) in
    let p = parse_immediate_value_float_source float_bits state.offsets.arg1 head in
    some (write_reg state.offsets.arg2 (write_uint64 (p.0) (p.1)))
emit float_bits two_regs opcode width state = some (
    write_reg state.offsets.arg2
      (write_reg state.offsets.arg1 (write_uint8 (bit_or opcode width) (check_args true 2 state))))
emit float_bits set_reg opcode width state = some (
    write_reg state.offsets.arg2 (
      write_bitmask state.offsets.arg1
        (write_uint8 (bit_or opcode width) (check_args true 2 state))))
emit float_bits reg_set opcode width state = some (
    write_reg state.offsets.arg1 (
      write_bitmask state.offsets.arg2
        (write_uint8 (bit_or opcode width) (check_args true 2 state))))
emit float_bits value_two_regs opcode width state = some (
    write_reg state.offsets.arg3 (
      write_reg state.offsets.arg2 (
        write_immediate (λ v. write_variable v width) state.offsets.arg1
          (write_uint8 (bit_or opcode width) (check_args true 3 state)))))
emit float_bits three_regs opcode width state = some (
    write_reg state.offsets.arg3 (
      write_reg state.offsets.arg2 (
        write_reg state.offsets.arg1
          (write_uint8 (bit_or opcode width) (check_args true 3 state)))))
emit float_bits directive opcode width state = some (
    if absent state.offsets.width
    then write_data 0 (report expects_width state)
    else write_data width state)
emit float_bits no_case opcode width state = some state

-- The width of the line, 0 without one. The message of `parse_width` is kept.
unfoldable pub line_width : Asm → ℕ × Asm
line_width state =
    if absent state.offsets.width
    then (0, state)
    else operand (parse_width (char_at (get_segment state.sourceline state.offsets.width) 0)) state

-- The part of `assemble` behind the label: whether to go on, and the state
unfoldable pub assemble_opcode : (List ℕ → ℕ) → Asm → Option (Bool × Asm)
assemble_opcode float_bits state =
    let (width, sized) = line_width state in
    let name = get_segment sized.sourceline sized.offsets.opcode in
    let found = stree_get sized.opcodes name in
    let opcode = u8 (node_value found) in
    if absent sized.offsets.opcode
    then some (true, sized)
    else if is_null found
    then some (false, report (unknown_opcode name) sized)
    else Option.map (λ s. (true, s)) (emit float_bits (choose opcode layouts) opcode width sized)

unfoldable pub assemble : (List ℕ → ℕ) → Asm → Option (Bool × Asm)
assemble float_bits state =
    let name = get_segment state.sourceline state.offsets.label in
    if absent state.offsets.label
    then assemble_opcode float_bits state
    else if stree_exists state.labels name
    then some (false, report (redefinition name) state)
    else do
      labels ← stree_set state.malloc state.labels name state.pos
      assemble_opcode float_bits (record state { labels = labels })
