-- ===== src/Vm/Execute/Decode.antt =====
-- The decoding of an instruction in `vm_opcode_execute` of src/vm.c.
use mihini.Prelude.{
  ℕ, ◌*◌, ◌<◌, ◌≤◌, ◌==◌, ◌≡◌, refl, true, Bool, arith, ltb, bit_and, bit_or, all_below,
  all_below_sound, ◌&&◌,
}
use mihini.Opcode.{opcode_bra, width_64}
use mihini.Vm.Execute.{dispatch, vm_opcode_execute}

-- An operation at each of its widths
abbrev splits : ℕ → ℕ → Bool
splits q width =
    (bit_and (bit_or (4 * q) width) 0b11111100 == 4 * q)
    && (bit_and (bit_or (4 * q) width) width_64 == width)
    && ltb (bit_or (4 * q) width) opcode_bra

split_table : all_below 58 (λ q. all_below 4 (λ width. splits q width)) ≡ true
split_table = refl

split_sound : (q width : ℕ) → q < 58 → width ≤ width_64 → splits q width ≡ true
split_sound q width h k =
    all_below_sound 4 (splits q) width
      (all_below_sound 58 (λ q'. all_below 4 (splits q')) q split_table h) (omega arith)

opcode_part :
    (q width : ℕ) → splits q width ≡ true → bit_and (bit_or (4 * q) width) 0b11111100 ≡ 4 * q
opcode_part q width h = ground arith

width_part : (q width : ℕ) → splits q width ≡ true → bit_and (bit_or (4 * q) width) width_64 ≡ width
width_part q width h = ground arith

below_branches :
    (q width : ℕ) → splits q width ≡ true → ltb (bit_or (4 * q) width) opcode_bra ≡ true
below_branches q width h = ground arith

module _ (double_bits : ℕ → ℕ) (fuel : ℕ) where
  -- An opcode below the branches that carries a width in its two low bits is taken apart into the
  -- opcode and the width.
  pub vm_opcode_execute-decodes :
      (q width : ℕ)
      → q < 58
      → width ≤ width_64
      → vm_opcode_execute double_bits fuel (bit_or (4 * q) width)
        ≡ dispatch double_bits fuel (4 * q) width
  unfolding vm_opcode_execute
  vm_opcode_execute-decodes q width h k =
      let s = split_sound q width h k in
      rw (below_branches q width s, opcode_part q width s, width_part q width s) refl
