-- ===== src/Asm/Running.antt =====
-- What a test unfolds to run the assembler of src/mhasm.c.
use mihini.Stree.{
  stree_new, stree_set, stree_get, stree_find, stree_exists, stree_add, add_loop, new_node,
  put_value, set_loop, new_nodes, stree_iterate,
}
use mihini.Opcode.Tables.{opcode_values, set_all, load_opcodes_values}
use mihini.Parser.{
  parse_width, parse_register, parse_pre_dec, parse_post_inc, parse_register_bitmask, bitmask_loop,
  set_range,
}
use mihini.Parser.Immediate
use mihini.Asm.Scan
use mihini.Asm.Write
use mihini.Asm.Label
use mihini.Asm.Layout
use mihini.Asm.Assemble
use mihini.Asm.Fix
use mihini.Asm.Data
use mihini.Asm.Main

unfoldable pub assembling : Unit {0}
unfolding Main.asm_main Main.read_source Main.assemble_lines Main.assemble_line Main.asm_start
    Main.write_header Main.fgets_lines Scan.str_trim_right Scan.skip_while Scan.next_segment
    Scan.copy_segment Scan.get_segment Scan.with_opcode Scan.parse_segment Scan.parse_arguments
    Scan.parse Write.bytes_le Write.write_buffer Write.write_uint8 Write.write_uint16
    Write.write_uint32 Write.write_uint64 Write.write_variable Label.forward_ref Label.push_ref
    Label.new_list Label.add_forward Label.label_offset Label.parse_label Layout.choose
    Layout.layouts Assemble.check_width Assemble.check_count Assemble.check_args
    Assemble.parse_reg_source Assemble.emit Assemble.line_width Assemble.assemble_opcode
    Assemble.assemble Fix.overwrite Fix.write_at Fix.fix_fwd_labels_iter_2 Fix.fix_refs
    Fix.fix_fwd_labels_iter Fix.fix_labels stree_new stree_set stree_get stree_find stree_exists
    stree_add add_loop new_node put_value set_loop new_nodes stree_iterate opcode_values set_all
    load_opcodes_values parse_width parse_register parse_pre_dec parse_post_inc
    parse_register_bitmask bitmask_loop set_range Assemble.parse_reg_bitmask_source
    Assemble.parse_immediate_value_source Data.write_value Data.write_escape Data.data_char
    Data.data_loop Data.write_data Immediate.digit Immediate.digits_value Immediate.drop_spaces
    Immediate.drop_prefix Immediate.signed_value Immediate.strtoul Immediate.strtol
    Immediate.escaped_value Immediate.prefixed_value Immediate.parse_immediate_value
assembling = tt
