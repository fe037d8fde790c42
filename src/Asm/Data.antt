-- ===== src/Asm/Data.antt =====
-- The `data` directive, `write_data` of src/mhasm.c, which reads the source line again from the first
-- argument on. A value is taken to be shorter than 255 characters: the position in the buffer is
-- a `uint8_t`.
use mihini.Prelude.{ℕ, ◌==◌, if◌then◌else◌, List, [], ◌∷◌, ◌++◌}
use mihini.Prelude.Ascii.{drop, double_quote, backslash, hash, letter_n, letter_r, letter_t}
use mihini.Parser.{Parsed}
use mihini.Parser.Immediate.{parse_immediate_value, char_value}
use mihini.Asm.{Asm, report, bad_operand}
use mihini.Asm.Scan.{whitespace}
use mihini.Asm.Write.{write_variable}

-- The variable `mode`, 0, 1, 2 and 4, and `buffer` where it is in use
pub data Mode : Type 0 where
  between : Mode
  in_string : Mode
  escaped : Mode
  in_value : List ℕ → Mode

-- A message of the parser
abbrev pub noted : Parsed → Asm → Asm
noted p state = if p.reported then report bad_operand state else state

unfoldable pub write_value : ℕ → List ℕ → Asm → Asm
write_value width buffer state =
    let p = parse_immediate_value buffer in write_variable p.value width (noted p state)

-- The `switch` of the characters that may follow a backslash; any other is left out.
unfoldable pub write_escape : ℕ → ℕ → Asm → Asm
write_escape width c state =
    if c == letter_r
    then write_variable 13 width state
    else if c == letter_n
    then write_variable 10 width state
    else if c == letter_t
    then write_variable 9 width state
    else if c == double_quote
    then write_variable double_quote width state
    else state

unfoldable pub data_char : ℕ → ℕ → Mode → Asm → Mode × Asm
data_char width c between state =
    if whitespace c
    then (between, state)
    else if c == double_quote
    then (in_string, state)
    else (in_value (hash ∷ c ∷ []), state)
data_char width c in_string state =
    if c == backslash
    then (escaped, state)
    else if c == double_quote
    then (between, state)
    else (in_string, write_variable (char_value c) width state)
data_char width c escaped state = (in_string, write_escape width c state)
data_char width c (in_value buffer) state =
    if whitespace c
    then (between, write_value width buffer state)
    else (in_value (buffer ++ (c ∷ [])), state)

unfoldable pub data_loop : ℕ → List ℕ → Mode → Asm → Asm
data_loop width [] between state = state
data_loop width [] in_string state = state
data_loop width [] escaped state = state
data_loop width [] (in_value buffer) state = write_value width buffer state
data_loop width (c ∷ cs) mode state =
    let step = data_char width c mode state in data_loop width cs (step.0) (step.1)

unfoldable pub write_data : ℕ → Asm → Asm
write_data width state =
    data_loop width (drop state.offsets.arg1.start state.sourceline) between state
