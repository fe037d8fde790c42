-- ===== src/Asm/Lengths.antt =====
-- How many bytes src/mhasm.c writes for an instruction.
pub mod Emit
use mathlib.Core.Option
use mihini.Prelude.{
  ℕ, zero, suc, ◌+◌, ◌≤◌, ◌==◌, ◌≡◌, refl, ◌∙◌, arith, Bool, true, false, if◌then◌else◌, not, ◌||◌,
  List, [], ◌∷◌, ◌++◌, Option, none, some, length, u8, u16, u32, u64, bit_or,
}
use mihini.Prelude.Options.{WhenSome, WhenSome-map, WhenSome-then, WhenSome-if, WhenSome-mono}
use mihini.Opcode.{width_8, width_16, width_32, width_64}
use mihini.Width.{vm_width_to_bytes}
use mihini.Stree.{stree_set, is_null, stree_get}
use mihini.Parser.{Parsed, parse_register, parse_register_bitmask}
use mihini.Parser.Immediate.{parse_immediate_value, parse_immediate_float_value}
use mihini.Asm.{Asm, Segment, Report, report, bad_operand}
use mihini.Asm.Scan.{get_segment}
use mihini.Asm.Write.{
  bytes_le, write_uint8, write_uint16, write_uint32, write_uint64, write_variable,
}
use mihini.Asm.Label.{
  placeholder, offset_between, node_value, forward_ref, push_ref, new_list, add_forward,
  label_offset, parse_label,
}
use mihini.Asm.Layout.{
  Layout, nothing, one_label, one_immediate, one_reg, one_reg_width, label_reg, long_reg, value_reg,
  byte_reg, float_reg, two_regs, set_reg, reg_set, value_two_regs, three_regs, directive, no_case,
}
use mihini.Asm.Data.{noted}
use mihini.Asm.Assemble.{
  absent, report_if, check_width, check_count, check_args, parse_reg_source,
  parse_reg_bitmask_source, parse_immediate_value_source, parse_immediate_value_float_source,
  write_reg, write_bitmask, write_immediate, write_label, emit,
}
use mihini.Asm.Checks.{check_args-keeps}
use mihini.Asm.Sound.{length-append, length-bytes_le}

-- The bytes of the operands that an instruction has; the data directive and an opcode without a case
-- have no such number.
abbrev pub operand_bytes : Layout → ℕ → Option ℕ
operand_bytes nothing width = some 0
operand_bytes one_label width = some 4
operand_bytes one_immediate width = some 4
operand_bytes one_reg width = some 1
operand_bytes one_reg_width width = some 1
operand_bytes label_reg width = some 5
operand_bytes long_reg width = some 5
operand_bytes value_reg width = some (vm_width_to_bytes width + 1)
operand_bytes byte_reg width = some 2
operand_bytes float_reg width = some 9
operand_bytes two_regs width = some 2
operand_bytes set_reg width = some 3
operand_bytes reg_set width = some 3
operand_bytes value_two_regs width = some (vm_width_to_bytes width + 2)
operand_bytes three_regs width = some 3
operand_bytes directive width = none
operand_bytes no_case width = none

abbrev size : Asm → ℕ
size s = length s.dest

size-number : (n v : ℕ) (s : Asm) → length (s.dest ++ bytes_le n v) ≡ size s + n
size-number n v s = omega (arith, length-append s.dest (bytes_le n v), length-bytes_le n v)

pub size-write_uint8 : (v : ℕ) (s : Asm) → size (write_uint8 v s) ≡ size s + 1
unfolding write_uint8
size-write_uint8 v s = size-number 1 (u8 v) s

size-write_uint16 : (v : ℕ) (s : Asm) → size (write_uint16 v s) ≡ size s + 2
unfolding write_uint16
size-write_uint16 v s = size-number 2 (u16 v) s

pub size-write_uint32 : (v : ℕ) (s : Asm) → size (write_uint32 v s) ≡ size s + 4
unfolding write_uint32
size-write_uint32 v s = size-number 4 (u32 v) s

pub size-write_uint64 : (v : ℕ) (s : Asm) → size (write_uint64 v s) ≡ size s + 8
unfolding write_uint64
size-write_uint64 v s = size-number 8 (u64 v) s

size-if : (b : Bool) (s t : Asm) (n : ℕ) → size s ≡ n → size t ≡ n → size (if b then s else t) ≡ n
size-if true s t n h k = h
size-if false s t n h k = k

pub size-write_variable :
    (v width : ℕ) (s : Asm)
    → width ≤ width_64
    → size (write_variable v width s) ≡ size s + vm_width_to_bytes width
unfolding write_variable vm_width_to_bytes
size-write_variable v zero s h = size-write_uint8 v s
size-write_variable v (suc zero) s h = size-write_uint16 v s
size-write_variable v (suc (suc zero)) s h = size-write_uint32 v s
size-write_variable v (suc (suc (suc zero))) s h = size-write_uint64 v s
size-write_variable v (suc (suc (suc (suc n)))) s h = absurd (omega arith)

size-noted : (p : Parsed) (s : Asm) → size (noted p s) ≡ size s
size-noted p s = size-if p.reported (report bad_operand s) s (size s) refl refl

pub size-check_args :
    (haswidth : Bool) (args : ℕ) (s : Asm) → size (check_args haswidth args s) ≡ size s
size-check_args haswidth args s =
    check_args-keeps (λ (t : Asm). size t ≡ size s) (λ r t h. h) haswidth args s refl

pub size-write_reg : (reg : Segment) (s : Asm) → size (write_reg reg s) ≡ size s + 1
unfolding parse_reg_source
size-write_reg reg s =
    let p = parse_register (get_segment s.sourceline reg) in
    omega (arith, size-write_uint8 p.value (noted p s), size-noted p s)

pub size-write_bitmask : (reg : Segment) (s : Asm) → size (write_bitmask reg s) ≡ size s + 2
unfolding parse_reg_bitmask_source
size-write_bitmask reg s =
    let p = parse_register_bitmask (get_segment s.sourceline reg) in
    omega (arith, size-write_uint16 p.value (noted p s), size-noted p s)

pub size-write_immediate :
    (write : ℕ → Asm → Asm) (n : ℕ) (reg : Segment) (s : Asm)
    → ((v : ℕ) (t : Asm) → size (write v t) ≡ size t + n)
    → size (write_immediate write reg s) ≡ size s + n
unfolding parse_immediate_value_source
size-write_immediate write n reg s grows =
    let p = parse_immediate_value (get_segment s.sourceline reg) in
    omega (arith, grows p.value (noted p s), size-noted p s)

pub size-float_source :
    (float_bits : List ℕ → ℕ) (reg : Segment) (s : Asm)
    → size (parse_immediate_value_float_source float_bits reg s).1 ≡ size s
unfolding parse_immediate_value_float_source
size-float_source float_bits reg s =
    size-noted (parse_immediate_float_value float_bits (get_segment s.sourceline reg)) s

-- The file has this many bytes more than it had.
abbrev pub Grows : Asm → ℕ → Asm → Type 0
Grows s n t = size t ≡ size s + n

add_forward-size :
    (label : List ℕ) (reg : Segment) (s : Asm)
    → WhenSome (λ t. size t ≡ size s) (add_forward label reg s)
unfolding add_forward push_ref new_list
add_forward-size label reg s =
    let found = stree_get s.fwd_labels label in
    let P : Asm → Type 0 = λ t. size t ≡ size s in
    WhenSome-if P (is_null found) _ _
      (WhenSome-map P (push_ref s.fresh (forward_ref reg s)) (new_list label s)
        (WhenSome-then _ _ (stree_set s.malloc s.fwd_labels label s.fresh) λ tree. refl))
      (WhenSome-if P (node_value found == 0) none _ tt refl)

label_offset-size :
    (label : List ℕ) (reg : Segment) (s : Asm)
    → WhenSome (λ p. size (p.1) ≡ size s) (label_offset label reg s)
unfolding label_offset
label_offset-size [] reg s = tt
label_offset-size (c ∷ cs) reg s =
    let found = stree_get s.labels (c ∷ cs) in
    let P : ℕ × Asm → Type 0 = λ p. size (p.1) ≡ size s in
    WhenSome-if P (is_null found) _ _
      (WhenSome-map P (λ t. (placeholder, t)) (add_forward (c ∷ cs) reg s)
        (add_forward-size (c ∷ cs) reg s))
      refl

pub size-write_label : (reg : Segment) (s : Asm) → WhenSome (Grows s 4) (write_label reg s)
unfolding parse_label
size-write_label reg s =
    let o = label_offset (get_segment s.sourceline reg) reg s in
    WhenSome-map (Grows s 4) (λ p. write_uint32 (p.0) (p.1)) o
      (WhenSome-mono (λ p. size (p.1) ≡ size s) (λ p. Grows s 4 (write_uint32 (p.0) (p.1))) o
        (λ p h. omega (arith, size-write_uint32 (p.0) (p.1)))
        (label_offset-size (get_segment s.sourceline reg) reg s))
