-- ===== src/Dasm/Lengths/Agree.antt =====
-- What src/mhasm.c writes against what src/mhdasm.c takes, for every opcode.
use mathlib.Core.Path.{subst}
use mihini.Prelude.{
  ℕ, ◌+◌, ◌<◌, ◌≤◌, ◌==◌, ◌≡◌, refl, arith, Bool, true, if◌then◌else◌, ltb, ◌&&◌, List, [], ◌∷◌,
  Option, none, some, length, all_below, all_below_sound,
}
use mihini.Prelude.Ascii.{drop}
use mihini.Prelude.Options.{WhenSome, WhenSome-eq}
use mihini.Opcode
use mihini.Opcode.{width_8, width_16, width_32, width_64}
use mihini.Width.{vm_width_to_bytes}
use mihini.Asm.{Asm}
use mihini.Asm.Layout.{among, choose, layouts}
use mihini.Asm.Assemble.{emit}
use mihini.Asm.Lengths.{operand_bytes, Grows}
use mihini.Asm.Lengths.Emit.{emit-Grows}
use mihini.Dasm.{Dasm}
use mihini.Dasm.Layout.{first_layouts, second_layouts}
use mihini.Dasm.First.{first_operands}
use mihini.Dasm.Second.{second_operands}
use mihini.Dasm.Lengths.{Leaves, first_bytes, second_bytes}
use mihini.Dasm.Lengths.Passes.{Takes-first_operands, Takes-second_operands}

-- LOAD, the arithmetic, logic, shifts and comparison with an immediate of the instruction's width
abbrev pub has_wide_value : ℕ → Bool
has_wide_value = among (
    Opcode.opcode_load ∷ Opcode.opcode_addi ∷ Opcode.opcode_subi ∷ Opcode.opcode_muli
    ∷ Opcode.opcode_andi ∷ Opcode.opcode_ori ∷ Opcode.opcode_xori ∷ Opcode.opcode_lsli
    ∷ Opcode.opcode_lsri ∷ Opcode.opcode_roli ∷ Opcode.opcode_rori ∷ Opcode.opcode_cmpi ∷ [])

-- What the first and the second pass take for an opcode with `n` bytes of operands
abbrev pub first_takes : ℕ → ℕ → ℕ
first_takes op n = if has_wide_value op then 9 else if op == Opcode.opcode_jmp then 0 else n

abbrev pub second_takes : ℕ → ℕ → ℕ
second_takes op n = if has_wide_value op then 2 else n

abbrev agrees : ℕ → ℕ → Option ℕ → Bool
agrees op width none = true
agrees op width (some n) =
    (first_bytes (choose op first_layouts) width == first_takes op n)
    && (second_bytes (choose op second_layouts) width == second_takes op n)
    && ltb (first_bytes (choose op first_layouts) width) 11
    && ltb (second_bytes (choose op second_layouts) width) 11

agrees_table :
    all_below 256
      (λ op. all_below 4 (λ width. agrees op width (operand_bytes (choose op layouts) width)))
    ≡ true
unfolding choose layouts first_layouts second_layouts vm_width_to_bytes
agrees_table = refl

agrees_at :
    (op width n : ℕ)
    → op < 256
    → width ≤ width_64
    → operand_bytes (choose op layouts) width ≡ some n
    → agrees op width (some n) ≡ true
agrees_at op width n h k e =
    subst (λ o. agrees op width o ≡ true) e
      (all_below_sound 4 (λ w. agrees op w (operand_bytes (choose op layouts) w)) width
        (all_below_sound 256
          (λ o. all_below 4 (λ w. agrees o w (operand_bytes (choose o layouts) w))) op agrees_table
          h)
        (omega arith))

record Agree (op width n : ℕ) : Type 0 where
  in_first : first_bytes (choose op first_layouts) width ≡ first_takes op n
  in_second : second_bytes (choose op second_layouts) width ≡ second_takes op n
  first_most : first_takes op n ≤ 10
  second_most : second_takes op n ≤ 10

tests_sound :
    (a b c d : ℕ)
    → ((a == c) && (b == d) && ltb a 11 && ltb b 11) ≡ true
    → (a ≡ c) × (b ≡ d) × (c ≤ 10) × (d ≤ 10)
tests_sound a b c d h = ground arith

agrees_sound : (op width n : ℕ) → agrees op width (some n) ≡ true → Agree op width n
agrees_sound op width n h =
    let (p, q, u, v) = tests_sound _ _ _ _ h in
    record { in_first = p; in_second = q; first_most = u; second_most = v }

-- Of what the assembler writes for an instruction, at any width, the opcode and `n` bytes of operands,
-- each pass of the disassembler takes the `n` bytes, except that for the operations with an immediate of
-- their width the first pass takes nine and the second two whatever the width is, and that for JMP the
-- first takes none; no pass fails while there are ten bytes.
pub operands-lengths :
    (float_bits : List ℕ → ℕ) (float_text : ℕ → List ℕ) (junk : ℕ → ℕ) (op width n : ℕ)
    (name : List ℕ) (s t : Asm) (d : Dasm)
    → op < 256
    → width ≤ width_64
    → operand_bytes (choose op layouts) width ≡ some n
    → emit float_bits (choose op layouts) op width s ≡ some t
    → 10 ≤ length d.source
    → (length t.dest ≡ length s.dest + (n + 1))
      × Leaves
          (drop (first_takes op n) d.source)
          (first_operands junk (choose op first_layouts) width op d)
      × Leaves
          (drop (second_takes op n) d.source)
          (second_operands float_text junk (choose op second_layouts) width name d)
operands-lengths float_bits float_text junk op width n name s t d h w e m long =
    let a = agrees_sound op width n (agrees_at op width n h w e) in
    let grown : WhenSome (Grows s (n + 1)) (emit float_bits (choose op layouts) op width s) =
      WhenSome-eq (λ n. WhenSome (Grows s (n + 1)) (emit float_bits (choose op layouts) op width s))
        _ n (emit-Grows s float_bits (choose op layouts) op width w) e in
    (
      WhenSome-eq (Grows s (n + 1)) _ t grown m,
      subst
          (λ k. Leaves (drop k d.source) (first_operands junk (choose op first_layouts) width op d))
          a.in_first
          ((Takes-first_operands junk (choose op first_layouts) width op w).at d
            (let p = a.in_first in let q = a.first_most in omega arith)),
      subst
          (λ k.
            Leaves (drop k d.source)
              (second_operands float_text junk (choose op second_layouts) width name d))
          a.in_second
          ((Takes-second_operands float_text junk (choose op second_layouts) width name w).at d
            (let p = a.in_second in let q = a.second_most in omega arith)),
    )
