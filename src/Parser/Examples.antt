-- ===== src/Parser/Examples.antt =====
-- The laws of src/printer.c and src/parser.c applied to operands.
use mihini.Prelude.{◌≡◌, refl, arith, [], ◌∷◌}
use mihini.Printer.{
  print_register, print_register_bitmask, print_bank, bank_loop, bank_round, close_run,
}
use mihini.Parser.{parsed, parse_register, parse_register_bitmask, bitmask_loop, set_range}
use mihini.Printer.Immediate.{print_immediate_value}
use mihini.Parser.Immediate.{
  digit, digits_value, drop_spaces, drop_prefix, signed_value, strtol, parse_immediate_value,
}
use mihini.Parser.Hexadecimal.{parse_immediate_value-print_immediate_value}
use mihini.Parser.Sets.{parse_register_bitmask-print_register_bitmask}
use mihini.Parser.Registers.{Gives, parse_register-print_register}

-- "d0-d2,d4/a7"
set_printed :
    print_register_bitmask 0x8017 ≡ 100 ∷ 48 ∷ 45 ∷ 100 ∷ 50 ∷ 44 ∷ 100 ∷ 52 ∷ 47 ∷ 97 ∷ 55 ∷ []
unfolding print_register_bitmask print_bank bank_loop bank_round close_run
set_printed = refl

set_parsed :
    parse_register_bitmask (100 ∷ 48 ∷ 45 ∷ 100 ∷ 50 ∷ 44 ∷ 100 ∷ 52 ∷ 47 ∷ 97 ∷ 55 ∷ [])
    ≡ parsed 0x8017
unfolding parse_register_bitmask bitmask_loop set_range
set_parsed = refl

-- "d/": a character below '0' is taken for a register, without a message.
slash_register : parse_register (100 ∷ 47 ∷ []) ≡ parsed 0xFF
unfolding parse_register
slash_register = refl

parse_register-print_register_example : Gives (parse_register (print_register 0x3F)) 0x3F
parse_register-print_register_example = parse_register-print_register 0x3F (omega arith)

parse_immediate_value-print_immediate_value_example :
    Gives (parse_immediate_value (print_immediate_value 0xBEEF)) 0xBEEF
parse_immediate_value-print_immediate_value_example =
    parse_immediate_value-print_immediate_value 0xBEEF (omega arith)

-- "#-1" and "#'a'"
negative_parsed : parse_immediate_value (35 ∷ 45 ∷ 49 ∷ []) ≡ parsed 0xFFFF_FFFF_FFFF_FFFF
unfolding parse_immediate_value strtol drop_spaces signed_value drop_prefix digits_value digit
negative_parsed = refl

character_parsed : parse_immediate_value (35 ∷ 39 ∷ 97 ∷ 39 ∷ []) ≡ parsed 97
unfolding parse_immediate_value
character_parsed = refl

parse_register_bitmask-print_register_bitmask_example :
    Gives (parse_register_bitmask (print_register_bitmask 0x8017)) 0x8017
parse_register_bitmask-print_register_bitmask_example =
    parse_register_bitmask-print_register_bitmask 0x8017 (omega arith)
