-- ===== src/Asm/Lengths/Emit.antt =====
-- The bytes of a whole instruction of src/mhasm.c.
use mihini.Prelude.{ℕ, ◌+◌, ◌≤◌, arith, Bool, true, false, List, bit_or}
use mihini.Prelude.Options.{WhenSome, WhenSome-map, WhenSome-mono}
use mihini.Opcode.{width_64}
use mihini.Width.{vm_width_to_bytes}
use mihini.Asm.{Asm, Segment}
use mihini.Asm.Write.{write_uint8, write_uint32, write_uint64, write_variable}
use mihini.Asm.Layout.{
  Layout, nothing, one_label, one_immediate, one_reg, one_reg_width, label_reg, long_reg, value_reg,
  byte_reg, float_reg, two_regs, set_reg, reg_set, value_two_regs, three_regs, directive, no_case,
}
use mihini.Asm.Assemble.{
  check_args, parse_immediate_value_float_source, write_reg, write_bitmask, write_immediate,
  write_label, emit,
}
use mihini.Asm.Lengths.{
  operand_bytes, size-write_uint8, size-write_uint32, size-write_uint64, size-write_variable,
  size-check_args, size-write_reg, size-write_bitmask, size-write_immediate, size-float_source,
  Grows, size-write_label,
}

-- Each write behind what was written before
module _ (s : Asm) where
  head :
      (v : ℕ) (haswidth : Bool) (args : ℕ) → Grows s 1 (write_uint8 v (check_args haswidth args s))
  head v haswidth args =
      omega
        (arith, size-write_uint8 v (check_args haswidth args s), size-check_args haswidth args s)

  then_reg : (reg : Segment) (n : ℕ) (t : Asm) → Grows s n t → Grows s (n + 1) (write_reg reg t)
  then_reg reg n t g = omega (arith, size-write_reg reg t)

  then_bitmask :
      (reg : Segment) (n : ℕ) (t : Asm) → Grows s n t → Grows s (n + 2) (write_bitmask reg t)
  then_bitmask reg n t g = omega (arith, size-write_bitmask reg t)

  then_byte :
      (reg : Segment) (n : ℕ) (t : Asm)
      → Grows s n t
      → Grows s (n + 1) (write_immediate write_uint8 reg t)
  then_byte reg n t g = omega (arith, size-write_immediate write_uint8 1 reg t size-write_uint8)

  then_long :
      (reg : Segment) (n : ℕ) (t : Asm)
      → Grows s n t
      → Grows s (n + 4) (write_immediate write_uint32 reg t)
  then_long reg n t g = omega (arith, size-write_immediate write_uint32 4 reg t size-write_uint32)

  then_variable :
      (width : ℕ) (reg : Segment) (n : ℕ) (t : Asm)
      → width ≤ width_64
      → Grows s n t
      → Grows s (vm_width_to_bytes width + n) (write_immediate (λ v. write_variable v width) reg t)
  then_variable width reg n t h g = omega (
    arith,
    size-write_immediate (λ v. write_variable v width) (vm_width_to_bytes width) reg t
        (λ v t. size-write_variable v width t h),
  )

  then_label :
      (reg : Segment) (n : ℕ) (t : Asm)
      → Grows s n t
      → WhenSome (Grows s (n + 4)) (write_label reg t)
  then_label reg n t g =
      WhenSome-mono (Grows t 4) (Grows s (n + 4)) (write_label reg t) (λ u k. omega arith)
        (size-write_label reg t)

  -- The instruction is the opcode and the bytes of its operands.
  pub emit-Grows :
      (f : List ℕ → ℕ) (layout : Layout) (opcode width : ℕ)
      → width ≤ width_64
      → WhenSome
          (λ n. WhenSome (Grows s (n + 1)) (emit f layout opcode width s))
          (operand_bytes layout width)
  unfolding emit
  emit-Grows f nothing opcode width h = head opcode false 0
  emit-Grows f one_label opcode width h = then_label _ 1 _ (head opcode false 1)
  emit-Grows f one_immediate opcode width h = then_long _ 1 _ (head opcode false 1)
  emit-Grows f one_reg opcode width h = then_reg _ 1 _ (head (bit_or opcode width) false 1)
  emit-Grows f one_reg_width opcode width h = then_reg _ 1 _ (head (bit_or opcode width) true 1)
  emit-Grows f label_reg opcode width h =
      let labelled = write_label s.offsets.arg1 (write_uint8 opcode (check_args false 2 s)) in
      WhenSome-map (Grows s 6) (write_reg s.offsets.arg2) labelled (
        WhenSome-mono (Grows s 5) (λ t. Grows s 6 (write_reg s.offsets.arg2 t)) labelled
          (λ t g. then_reg s.offsets.arg2 5 t g) (then_label _ 1 _ (head opcode false 2)))
  emit-Grows f long_reg opcode width h =
      then_reg _ 5 _ (then_long _ 1 _ (head (bit_or opcode width) false 2))
  emit-Grows f value_reg opcode width h =
      then_reg _ (vm_width_to_bytes width + 1) _
        (then_variable width _ 1 _ h (head (bit_or opcode width) true 2))
  emit-Grows f byte_reg opcode width h =
      then_reg _ 2 _ (then_byte _ 1 _ (head (bit_or opcode width) true 2))
  emit-Grows f float_reg opcode width h =
      let before = write_uint8 (bit_or opcode width) (check_args true 2 s) in
      let p = parse_immediate_value_float_source f s.offsets.arg1 before in
      then_reg _ 9 (write_uint64 (p.0) (p.1)) (
        omega (
          arith,
          size-write_uint64 (p.0) (p.1),
          size-float_source f s.offsets.arg1 before,
          head (bit_or opcode width) true 2,
        ))
  emit-Grows f two_regs opcode width h =
      then_reg _ 2 _ (then_reg _ 1 _ (head (bit_or opcode width) true 2))
  emit-Grows f set_reg opcode width h =
      then_reg _ 3 _ (then_bitmask _ 1 _ (head (bit_or opcode width) true 2))
  emit-Grows f reg_set opcode width h =
      then_reg _ 3 _ (then_bitmask _ 1 _ (head (bit_or opcode width) true 2))
  emit-Grows f value_two_regs opcode width h =
      let n = vm_width_to_bytes width in
      let behind : Grows s (n + 1 + 1 + 1) (emitted_divi width opcode) =
        then_reg _ (n + 1 + 1) _ (
          then_reg _ (n + 1) _ (then_variable width _ 1 _ h (head (bit_or opcode width) true 3))) in
      omega arith
    where
      emitted_divi : ℕ → ℕ → Asm
      emitted_divi width opcode = write_reg s.offsets.arg3 (
          write_reg s.offsets.arg2 (
            write_immediate (λ v. write_variable v width) s.offsets.arg1
              (write_uint8 (bit_or opcode width) (check_args true 3 s))))
  emit-Grows f three_regs opcode width h =
      then_reg _ 3 _ (then_reg _ 2 _ (then_reg _ 1 _ (head (bit_or opcode width) true 3)))
  emit-Grows f directive opcode width h = tt
  emit-Grows f no_case opcode width h = tt
