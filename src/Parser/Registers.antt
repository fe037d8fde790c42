-- ===== src/Parser/Registers.antt =====
-- Printed registers and widths of src/printer.c parse back in src/parser.c.
use mihini.Prelude.{
  ℕ, ◌<◌, ◌≤◌, ◌==◌, ◌≡◌, ◌&&◌, not, refl, true, false, Bool, arith, all_below, all_below_sound,
}
use mihini.Opcode.{width_64}
use mihini.Printer.{print_width, register_prefix, register_suffix, print_register}
use mihini.Parser.{Parsed, parse_width, parse_post_inc, parse_pre_dec, parse_register}

-- The result is this value, without a message.
abbrev is_parsed : ℕ → Parsed → Bool
is_parsed v p = (p.value == v) && not p.reported

abbrev pub Gives : Parsed → ℕ → Type 0
Gives p v = (p.value ≡ v) × (p.reported ≡ false)

is_parsed_sound : (v : ℕ) (p : Parsed) → is_parsed v p ≡ true → Gives p v
is_parsed_sound v p h = ground arith

register_table : all_below 64 (λ reg. is_parsed reg (parse_register (print_register reg))) ≡ true
unfolding print_register register_prefix register_suffix parse_register parse_post_inc parse_pre_dec
register_table = refl

-- Each of the 64 register operands, in every mode, is parsed back from what is printed for it, and no
-- message is given.
pub parse_register-print_register :
    (reg : ℕ) → reg < 64 → Gives (parse_register (print_register reg)) reg
parse_register-print_register reg h =
    is_parsed_sound reg _ (
      all_below_sound 64 (λ r. is_parsed r (parse_register (print_register r))) reg register_table
        h)

width_table : all_below 4 (λ width. is_parsed width (parse_width (print_width width))) ≡ true
unfolding print_width parse_width
width_table = refl

-- Each width is parsed back from the letter that is printed for it, and no message is given.
parse_width-print_width :
    (width : ℕ) → width ≤ width_64 → Gives (parse_width (print_width width)) width
parse_width-print_width width h = is_parsed_sound width _ (
    all_below_sound 4 (λ w. is_parsed w (parse_width (print_width w))) width width_table
      (omega arith))
