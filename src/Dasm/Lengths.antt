-- ===== src/Dasm/Lengths.antt =====
-- How many bytes the two passes of src/mhdasm.c take for an instruction, and how many src/mhasm.c
-- writes for it.
pub mod Passes
pub mod Agree
use mathlib.Core.Path.{subst}
use mihini.Prelude.{
  ℕ, zero, suc, ◌+◌, ◌-◌, ◌<◌, ◌≤◌, ◌==◌, ◌≡◌, refl, sym, ap, ◌∙◌, arith, Bool, true, false,
  if◌then◌else◌, ltb, not, ◌&&◌, ◌||◌, List, [], ◌∷◌, ◌++◌, Option, none, some, length, all_below,
  all_below_sound,
}
use mihini.Prelude.Ascii.{drop}
use mihini.Prelude.Options.{WhenSome, WhenSome-eq}
use mihini.Opcode
use mihini.Opcode.{width_8, width_16, width_32, width_64}
use mihini.Width.{vm_width_to_bytes}
use mihini.Btree.{BtreeNode, null, node}
use mihini.Asm.{Asm}
use mihini.Asm.Layout.{
  Layout, nothing, one_label, one_immediate, one_reg, one_reg_width, label_reg, long_reg, value_reg,
  byte_reg, float_reg, two_regs, set_reg, reg_set, value_two_regs, three_regs, directive, no_case,
  among, choose, layouts,
}
use mihini.Asm.Assemble.{emit}
use mihini.Asm.Lengths.{operand_bytes, Grows}
use mihini.Asm.Lengths.Emit.{emit-Grows}
use mihini.Dasm.{
  Dasm, Message, Result, done, undefined, out_of_fuel, M, Action, and_then, ◌>>=◌, ◌>>◌, pure, get,
  modify, message, print, print_line, read_bytes, read_uint8, read_uint16, read_uint32, read_uint64,
  read_variable,
}
use mihini.Dasm.Layout.{first_layouts, second_layouts}
use mihini.Dasm.First.{add_label, first_operands}
use mihini.Dasm.Second.{
  printed_register, printed_set, read_label, print_with_label, second_operands,
}
use mihini.Dasm.Ends.{length-drop}

-- The step is defined, and this is what it leaves of the file.
abbrev pub Leaves : {A : Type 0} → List ℕ → Result A → Type 0
Leaves rest (done a t) = t.source ≡ rest
Leaves rest undefined = ⊥
Leaves rest out_of_fuel = ⊥

-- From a file with `n` bytes left, the step takes these and no more.
pub record Takes {A : Type 0} (n : ℕ) (m : M A) : Type 0 where
  pub at : (s : Dasm) → n ≤ length s.source → Leaves (drop n s.source) (m s)

drop-nil : (n : ℕ) → drop n [] ≡ []
drop-nil zero = refl
drop-nil (suc n) = refl

drop-drop : (a b : ℕ) (bytes : List ℕ) → drop b (drop a bytes) ≡ drop (a + b) bytes
drop-drop zero b bytes = let e : 0 + b ≡ b = omega arith in rw e refl
drop-drop (suc a) b [] = drop-nil b ∙ sym (drop-nil (suc a + b))
drop-drop (suc a) b (c ∷ cs) =
    let e : suc a + b ≡ suc (a + b) = omega arith in rw e (drop-drop a b cs)

Leaves-bind :
    {A B : Type 0} (b : ℕ) (rest : List ℕ) (r : Result A) (k : A → M B)
    → ((a : A) → Takes b (k a))
    → b ≤ length rest
    → Leaves rest r
    → Leaves (drop b rest) (and_then r k)
Leaves-bind b rest (done a t) k next h e =
    subst (λ (l : List ℕ). Leaves (drop b l) (k a t)) e ((next a).at t (rw e h))
Leaves-bind b rest undefined k next h e = absurd e
Leaves-bind b rest out_of_fuel k next h e = absurd e

pub Takes-bind :
    {A B : Type 0} (a b : ℕ) (m : M A) (k : A → M B)
    → Takes a m
    → ((x : A) → Takes b (k x))
    → Takes (a + b) (m >>= k)
unfolding ◌>>=◌
Takes-bind a b m k first next = record {
  at = λ s h.
      subst (λ (l : List ℕ). Leaves l (and_then (m s) k)) (drop-drop a b s.source)
        (Leaves-bind b (drop a s.source) (m s) k next (omega (arith, length-drop a s.source))
          (first.at s (omega arith)));
}

pub Takes-pure : {A : Type 0} (a : A) → Takes 0 (pure a)
unfolding pure
Takes-pure a = record { at = λ s h. refl }

pub Takes-get : Takes 0 get
unfolding get
Takes-get = record { at = λ s h. refl }

Takes-modify : (f : Dasm → Dasm) → ((s : Dasm) → (f s).source ≡ s.source) → Takes 0 (modify f)
unfolding modify
Takes-modify f same = record { at = λ s h. same s }

pub Takes-print_line : (text : List ℕ) → Takes 0 (print_line text)
Takes-print_line text = Takes-modify _ (λ s. refl)

pub Takes-message : (m : Message) → Takes 0 (message m)
Takes-message m = Takes-modify _ (λ s. refl)

pub Takes-add_label : (offset : ℕ) → Takes 0 (add_label offset)
unfolding add_label
Takes-add_label offset = Takes-modify _ (λ s. refl)

pub Takes-print_with_label :
    (name : List ℕ) (found : BtreeNode ℕ) (args : List (List ℕ))
    → Takes 0 (print_with_label name found args)
unfolding print_with_label
Takes-print_with_label name null args = Takes-message _
Takes-print_with_label name (node l k label r) args = Takes-print_line _

-- What each pass takes for the operands of a layout
abbrev pub first_bytes : Layout → ℕ → ℕ
first_bytes one_label width = 4
first_bytes one_immediate width = 4
first_bytes one_reg width = 1
first_bytes label_reg width = 5
first_bytes set_reg width = 3
first_bytes long_reg width = 5
first_bytes value_reg width = 9
first_bytes byte_reg width = 2
first_bytes two_regs width = 2
first_bytes value_two_regs width = vm_width_to_bytes width + 2
first_bytes three_regs width = 3
first_bytes other width = 0

abbrev pub second_bytes : Layout → ℕ → ℕ
second_bytes one_label width = 4
second_bytes one_immediate width = 4
second_bytes one_reg width = 1
second_bytes one_reg_width width = 1
second_bytes label_reg width = 5
second_bytes set_reg width = 3
second_bytes reg_set width = 3
second_bytes long_reg width = 5
second_bytes value_reg width = 2
second_bytes float_reg width = 9
second_bytes two_regs width = 2
second_bytes value_two_regs width = vm_width_to_bytes width + 2
second_bytes three_regs width = 3
second_bytes other width = 0

module _ (junk : ℕ → ℕ) where
  pub Takes-read : (n : ℕ) → Takes n (read_bytes junk n)
  unfolding read_bytes
  Takes-read n = record {
    at = λ s h. let enough : ltb (length s.source) n ≡ false = ground arith in rw enough refl;
  }

  pub Takes-read_variable :
      (width : ℕ) → width ≤ width_64 → Takes (vm_width_to_bytes width) (read_variable junk width)
  unfolding read_variable vm_width_to_bytes read_uint8 read_uint16 read_uint32 read_uint64
  Takes-read_variable zero h = Takes-read 1
  Takes-read_variable (suc zero) h = Takes-read 2
  Takes-read_variable (suc (suc zero)) h = Takes-read 4
  Takes-read_variable (suc (suc (suc zero))) h = Takes-read 8
  Takes-read_variable (suc (suc (suc (suc n)))) h = absurd (omega arith)
