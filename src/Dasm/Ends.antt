-- ===== src/Dasm/Ends.antt =====
-- The loops of src/mhdasm.c end: each round takes a byte of the file, or finds its end. The steps are
-- defined where every byte of the file is an opcode of the table.
pub mod Passes
use mathlib.Core.Path.{subst}
use mihini.Prelude.{
  ℕ, zero, suc, ◌+◌, ◌-◌, ◌*◌, ◌%◌, ◌^◌, ◌<◌, ◌≤◌, ◌==◌, ◌≡◌, ◌≢◌, inl, inr, refl, ap, ◌∙◌, arith,
  All, Bool, true, false, Bool-cases, ltb, ltb→lt, not, if◌then◌else◌, List, [], ◌∷◌, ◌++◌, length,
  u32,
}
use mihini.Prelude.Ascii.{same_bytes, take, drop, magic}
use mihini.Opcode.{width_8, width_16, width_32, width_64}
use mihini.Btree.{BtreeNode, null, node, btree_get}
use mihini.Opcode.Tables.{load_opcodes_strings}
use mihini.Asm.Layout.{
  Layout, nothing, one_label, one_immediate, one_reg, one_reg_width, label_reg, long_reg, value_reg,
  byte_reg, float_reg, two_regs, set_reg, reg_set, value_two_regs, three_regs, choose,
}
use mihini.Dasm.{
  Dasm, Result, done, undefined, out_of_fuel, M, Action, and_then, ◌>>=◌, ◌>>◌, pure, get, modify,
  fail, message, print, print_line, Message, value_le, read_bytes, read_uint8, read_uint16,
  read_uint32, read_uint64, read_variable,
}
use mihini.Dasm.Layout.{first_layouts, second_layouts}
use mihini.Dasm.First.{operation, opcode_asm, lookup_opcode, add_label, first_operands, first_pass}
use mihini.Dasm.Second.{print_place, print_with_label, second_operands, disassemble}
use mihini.Dasm.Main.{Verdict, pass_loop, two_passes, dasm_main, rewound, dasm_start}

-- The reads that are left until the loop ends, at most
abbrev pub measure : Dasm → ℕ
measure s = if s.eof then 0 else length s.source + 1

abbrev pub is_found : BtreeNode (List ℕ) → Bool
is_found null = false
is_found (node l k name r) = true

-- A byte whose operation is in the disassembler's table
abbrev pub IsOpcode : ℕ → Type 0
IsOpcode b = is_found (btree_get (load_opcodes_strings null) (operation b)) ≡ true

-- What is left of the file can be taken for opcodes, wherever a pass reads one.
pub record IsReadable (s : Dasm) : Type 0 where
  pub bytes : All IsOpcode s.source
  pub table : s.opcodes ≡ load_opcodes_strings null

-- The step is done, and leaves at most `n` reads of a file that is still readable.
abbrev pub Ends : {A : Type 0} → ℕ → Result A → Type 0
Ends n (done a s) = (measure s ≤ n) × IsReadable s
Ends n undefined = ⊥
Ends n out_of_fuel = ⊥

pub record Keeps {A : Type 0} (m : M A) : Type 0 where
  pub at : (n : ℕ) (s : Dasm) → measure s ≤ n → IsReadable s → Ends n (m s)

pub Keeps-pure : {A : Type 0} (a : A) → Keeps (pure a)
unfolding pure
Keeps-pure a = record { at = λ n s h g. (h, g) }

pub Keeps-get : Keeps get
unfolding get
Keeps-get = record { at = λ n s h g. (h, g) }

-- A change that leaves the source file and the table
Keeps-modify :
    (f : Dasm → Dasm)
    → ((s : Dasm) → measure (f s) ≡ measure s)
    → ((s : Dasm) → (f s).source ≡ s.source)
    → ((s : Dasm) → (f s).opcodes ≡ s.opcodes)
    → Keeps (modify f)
unfolding modify
Keeps-modify f size bytes table = record {
  at = λ n s h g.
      (rw (size s) h, record { bytes = rw (bytes s) g.bytes; table = table s ∙ g.table });
}

pub Ends-bind :
    {A B : Type 0} (n m : ℕ) (r : Result A) (k : A → M B)
    → ((a : A) (t : Dasm) → measure t ≤ n → IsReadable t → Ends m (k a t))
    → Ends n r
    → Ends m (and_then r k)
Ends-bind n m (done a t) k next (e, g) = next a t e g
Ends-bind n m undefined k next e = absurd e
Ends-bind n m out_of_fuel k next e = absurd e

pub Keeps-bind :
    {A B : Type 0} (m : M A) (k : A → M B) → Keeps m → ((a : A) → Keeps (k a)) → Keeps (m >>= k)
unfolding ◌>>=◌
Keeps-bind m k first next = record {
  at = λ n s h g. Ends-bind n n (m s) k (λ a t e r. (next a).at n t e r) (first.at n s h g);
}

pub length-drop : (n : ℕ) (bytes : List ℕ) → length (drop n bytes) ≡ length bytes - n
length-drop zero bytes = omega arith
length-drop (suc n) [] = omega arith
length-drop (suc n) (b ∷ bs) = omega (arith, length-drop n bs)

pub All-drop : (P : ℕ → Type 0) (n : ℕ) (bytes : List ℕ) → All P bytes → All P (drop n bytes)
All-drop P zero bytes h = h
All-drop P (suc n) [] h = tt
All-drop P (suc n) (b ∷ bs) (h, hs) = All-drop P n bs hs

shorter :
    (eof : Bool) (n k : ℕ) (bytes : List ℕ)
    → (if eof then 0 else length bytes + 1) ≤ n
    → (if eof then 0 else length (drop k bytes) + 1) ≤ n
shorter true n k bytes h = h
shorter false n k bytes h = omega (arith, length-drop k bytes)

Ends-read :
    (junk : ℕ → ℕ) (k n : ℕ) (s : Dasm)
    → measure s ≤ n
    → IsReadable s
    → Ends n (read_bytes junk k s)
unfolding read_bytes
Ends-read junk k n s h g = elim (Bool-cases (ltb (length s.source) k)) [
  | inl short ↦ rw short (omega arith, record { bytes = tt; table = g.table })
  | inr enough ↦ rw enough (
    shorter s.eof n k s.source h,
    record { bytes = All-drop IsOpcode k s.source g.bytes; table = g.table },
  )
]

pub Keeps-message : (m : Message) → Keeps (message m)
Keeps-message m = Keeps-modify _ (λ s. refl) (λ s. refl) (λ s. refl)

pub Keeps-print : (text : List ℕ) → Keeps (print text)
Keeps-print text = Keeps-modify _ (λ s. refl) (λ s. refl) (λ s. refl)

pub Keeps-print_line : (text : List ℕ) → Keeps (print_line text)
Keeps-print_line text = Keeps-modify _ (λ s. refl) (λ s. refl) (λ s. refl)

pub Keeps-add_label : (offset : ℕ) → Keeps (add_label offset)
unfolding add_label
Keeps-add_label offset = Keeps-modify _ (λ s. refl) (λ s. refl) (λ s. refl)

pub ruleset steps = (
  Keeps-pure, Keeps-get, Keeps-bind, Keeps-message, Keeps-print, Keeps-print_line, Keeps-add_label,
)

Ends-opcode_asm :
    (found : BtreeNode (List ℕ)) (n : ℕ) (s : Dasm)
    → is_found found ≡ true
    → measure s ≤ n
    → IsReadable s
    → Ends n (opcode_asm found s)
unfolding opcode_asm pure
Ends-opcode_asm null n s f h g = absurd (cc)
Ends-opcode_asm (node l k name r) n s f h g = (h, g)

-- An operation that is in the table is found.
pub Keeps-lookup_opcode :
    (opcode : ℕ)
    → is_found (btree_get (load_opcodes_strings null) opcode) ≡ true
    → Keeps (lookup_opcode opcode)
unfolding lookup_opcode ◌>>=◌ get
Keeps-lookup_opcode opcode f = record {
  at = λ n s h g.
      Ends-opcode_asm (btree_get s.opcodes opcode) n s
        (ap (λ (t : BtreeNode (List ℕ)). is_found (btree_get t opcode)) g.table ∙ f) h g;
}

pub Keeps-print_place : (found : BtreeNode ℕ) → Keeps (print_place found)
unfolding print_place
Keeps-print_place null = Keeps-print _
Keeps-print_place (node l k label r) = Keeps-print_line _

pub Keeps-print_with_label :
    (name : List ℕ) (found : BtreeNode ℕ) (args : List (List ℕ))
    → Keeps (print_with_label name found args)
unfolding print_with_label
Keeps-print_with_label name null args = Keeps-message _
Keeps-print_with_label name (node l k label r) args = Keeps-print_line _

Keeps-if : {A : Type 0} (b : Bool) (m k : M A) → Keeps m → Keeps k → Keeps (if b then m else k)
Keeps-if true m k h g = h
Keeps-if false m k h g = g

module _ (junk : ℕ → ℕ) where
  Keeps-read : (k : ℕ) → Keeps (read_bytes junk k)
  Keeps-read k = record { at = λ n s h g. Ends-read junk k n s h g }

  pub Keeps-read_uint8 : Keeps (read_uint8 junk)
  unfolding read_uint8
  Keeps-read_uint8 = Keeps-read 1

  pub Keeps-read_uint16 : Keeps (read_uint16 junk)
  unfolding read_uint16
  Keeps-read_uint16 = Keeps-read 2

  pub Keeps-read_uint32 : Keeps (read_uint32 junk)
  unfolding read_uint32
  Keeps-read_uint32 = Keeps-read 4

  pub Keeps-read_uint64 : Keeps (read_uint64 junk)
  unfolding read_uint64
  Keeps-read_uint64 = Keeps-read 8

  pub Keeps-read_variable : (width : ℕ) → Keeps (read_variable junk width)
  unfolding read_variable
  Keeps-read_variable width = Keeps-if (width == width_8) _ _ Keeps-read_uint8 (
      Keeps-if (width == width_16) _ _ Keeps-read_uint16 (
        Keeps-if (width == width_32) _ _ Keeps-read_uint32
          (Keeps-if (width == width_64) _ _ Keeps-read_uint64 (Keeps-pure _))))

  pub ruleset reads = (
    steps, Keeps-read_uint8, Keeps-read_uint16, Keeps-read_uint32, Keeps-read_uint64,
    Keeps-read_variable, Keeps-print_place, Keeps-print_with_label,
  )
