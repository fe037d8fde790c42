-- ===== src/Asm/Sound/Operands.antt =====
-- The operands and the data of src/mhasm.c keep a sound state sound.
use mihini.Prelude.{ℕ, ◌==◌, Bool, true, false, if◌then◌else◌, List, [], ◌∷◌}
use mihini.Prelude.Ascii.{double_quote, backslash, letter_n, letter_r, letter_t}
use mihini.Parser.{Parsed, parse_register, parse_register_bitmask}
use mihini.Parser.Immediate.{parse_immediate_value, parse_immediate_float_value, char_value}
use mihini.Asm.{Asm, Segment, bad_operand}
use mihini.Asm.Scan.{whitespace, get_segment}
use mihini.Asm.Data.{
  Mode, between, in_string, escaped, in_value, noted, write_value, write_escape, data_char,
  data_loop, write_data,
}
use mihini.Asm.Assemble.{
  check_args, parse_reg_source, parse_reg_bitmask_source, parse_immediate_value_source,
  parse_immediate_value_float_source, write_reg, write_bitmask, write_immediate,
}
use mihini.Asm.Checks.{check_args-keeps}
use mihini.Asm.Sound.{
  IsSound, choice-IsSound, report-IsSound, write_uint8-IsSound, write_uint16-IsSound,
  write_variable-IsSound,
}

pub noted-IsSound : (p : Parsed) {state : Asm} → IsSound state → IsSound (noted p state)
noted-IsSound p s = choice-IsSound p.reported (report-IsSound bad_operand s) s

pub check_args-IsSound :
    (haswidth : Bool) (args : ℕ) {state : Asm}
    → IsSound state
    → IsSound (check_args haswidth args state)
check_args-IsSound haswidth args s =
    check_args-keeps IsSound (λ r t h. report-IsSound r h) haswidth args _ s

pub write_reg-IsSound :
    (reg : Segment) {state : Asm} → IsSound state → IsSound (write_reg reg state)
unfolding parse_reg_source
write_reg-IsSound reg {state} s =
    write_uint8-IsSound _ (noted-IsSound (parse_register (get_segment state.sourceline reg)) s)

pub write_bitmask-IsSound :
    (reg : Segment) {state : Asm} → IsSound state → IsSound (write_bitmask reg state)
unfolding parse_reg_bitmask_source
write_bitmask-IsSound reg {state} s =
    write_uint16-IsSound _
      (noted-IsSound (parse_register_bitmask (get_segment state.sourceline reg)) s)

pub write_immediate-IsSound :
    (write : ℕ → Asm → Asm) (reg : Segment) {state : Asm}
    → ((v : ℕ) (t : Asm) → IsSound t → IsSound (write v t))
    → IsSound state
    → IsSound (write_immediate write reg state)
unfolding parse_immediate_value_source
write_immediate-IsSound write reg {state} keeps s =
    keeps _ _ (noted-IsSound (parse_immediate_value (get_segment state.sourceline reg)) s)

pub float_source-IsSound :
    (float_bits : List ℕ → ℕ) (reg : Segment) {state : Asm}
    → IsSound state
    → IsSound (parse_immediate_value_float_source float_bits reg state).1
unfolding parse_immediate_value_float_source
float_source-IsSound float_bits reg {state} s =
    noted-IsSound (parse_immediate_float_value float_bits (get_segment state.sourceline reg)) s

write_value-IsSound :
    (width : ℕ) (buffer : List ℕ) {state : Asm}
    → IsSound state
    → IsSound (write_value width buffer state)
unfolding write_value
write_value-IsSound width buffer s =
    write_variable-IsSound _ width (noted-IsSound (parse_immediate_value buffer) s)

write_escape-IsSound :
    (width c : ℕ) {state : Asm} → IsSound state → IsSound (write_escape width c state)
unfolding write_escape
write_escape-IsSound width c s =
    choice-IsSound (c == letter_r) (write_variable-IsSound 13 width s) (
      choice-IsSound (c == letter_n) (write_variable-IsSound 10 width s) (
        choice-IsSound (c == letter_t) (write_variable-IsSound 9 width s)
          (choice-IsSound (c == double_quote) (write_variable-IsSound double_quote width s) s)))

-- A choice between two pairs of a mode and a state
mode_choice :
    (test : Bool) (m n : Mode × Asm)
    → IsSound (m.1)
    → IsSound (n.1)
    → IsSound (if test then m else n).1
mode_choice true m n h k = h
mode_choice false m n h k = k

data_char-IsSound :
    (width c : ℕ) (mode : Mode) {state : Asm}
    → IsSound state
    → IsSound (data_char width c mode state).1
unfolding data_char
data_char-IsSound width c between s =
    mode_choice (whitespace c) _ _ s (mode_choice (c == double_quote) _ _ s s)
data_char-IsSound width c in_string s =
    mode_choice (c == backslash) _ _ s
      (mode_choice (c == double_quote) _ _ s (write_variable-IsSound (char_value c) width s))
data_char-IsSound width c escaped s = write_escape-IsSound width c s
data_char-IsSound width c (in_value buffer) s =
    mode_choice (whitespace c) _ _ (write_value-IsSound width buffer s) s

data_loop-IsSound :
    (width : ℕ) (cs : List ℕ) (mode : Mode) {state : Asm}
    → IsSound state
    → IsSound (data_loop width cs mode state)
unfolding data_loop
data_loop-IsSound width [] between s = s
data_loop-IsSound width [] in_string s = s
data_loop-IsSound width [] escaped s = s
data_loop-IsSound width [] (in_value buffer) s = write_value-IsSound width buffer s
data_loop-IsSound width (c ∷ cs) mode s =
    data_loop-IsSound width cs _ (data_char-IsSound width c mode s)

pub write_data-IsSound :
    (width : ℕ) {state : Asm} → IsSound state → IsSound (write_data width state)
unfolding write_data
write_data-IsSound width s = data_loop-IsSound width _ between s
