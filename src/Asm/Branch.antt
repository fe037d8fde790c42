-- ===== src/Asm/Branch.antt =====
-- What src/vm.c does at a branch that src/mhasm.c has assembled: the offset leads to the label.
use mathlib.Core.Path.{subst}
use mihini.Prelude.{
  ℕ, zero, suc, ◌+◌, ◌-◌, ◌^◌, ◌<◌, ◌≤◌, ◌≡◌, ◌⊎◌, inl, inr, refl, sym, ap, ◌∙◌, arith, Bool, true,
  false, ltb, leb, ◌&&◌, if◌then◌else◌, List, [], ◌∷◌, Option, none, some, All, length, u32,
}
use mihini.Prelude.Ascii.{char_at}
use mihini.Opcode.{opcode_bra, opcode_jmp, width_32}
use mihini.Width.{vm_width_to_bytes}
use mihini.Vm.State.{Vm, ok, steps}
use mihini.Vm.Memory.{load_le, read_width}
use mihini.Vm.Memory.Fetch.{advanced, AreBytes, read_width-ok, read_uint8-ok}
use mihini.Vm.Flow.{branch_by, vm_opcode_bra, vm_opcode_jmp}
use mihini.Vm.Execute.{
  switch, cases_data, cases_arith, cases_logic, cases_compare, cases_float, cases_flow, dispatch,
  vm_opcode_execute,
}
use mihini.Vm.Execute.Load.{execute_next}
use mihini.Stree.{Malloc, is_null, stree_get}
use mihini.Asm.{Asm, ForwardRef, report, undefined_reference}
use mihini.Asm.Label.{offset_between, node_value}
use mihini.Asm.Fix.{fix_fwd_labels_iter}
use mihini.Asm.Main.{read_source}
use mihini.Asm.Sound.{IsSound, FitsIn}
use mihini.Asm.Sound.Lines.{assemble_lines-IsSound}
use mihini.Asm.Sound.Fixed.{word_at, Leads, Misses, length-fix_refs}
use mihini.Asm.Sound.Iterate.{fix_fwd_labels_iter-Leads}

-- A file, behind its ten bytes of header, lies in the memory from the address `program` on.
pub record HasProgram (file : List ℕ) (program : ℕ) (s : Vm) : Type 0 where
  pub bytes : AreBytes s.memory
  pub image : (i : ℕ) → i + 10 < length file → s.memory (program + i) ≡ char_at file (i + 10)
  pub inside : program + length file ≤ s.memsize + 10
  pub addressed : s.memsize < 2 ^ 32

-- From behind the operand at `at`, the branch goes to the label.
branch_by-offset_between :
    (program at label : ℕ) (s : Vm)
    → 10 ≤ at
    → 10 ≤ label
    → label < 2 ^ 31
    → program + label < 2 ^ 32 + 10
    → s.ip ≡ program + (at - 10) + 4
    → at < 2 ^ 31
    → branch_by (offset_between label at) s ≡ ok tt (record s { ip = program + (label - 10) })
unfolding branch_by steps
branch_by-offset_between program at label s h k small fits here low =
    let offset = offset_between label at in
    let lands : u32 (s.ip + offset + 4) ≡ program + (label - 10) = omega arith in
    let defined : (ltb offset (2 ^ 31) && leb (2 ^ 31) (offset + 4)) ≡ false = ground arith in
    rw (defined, lands) refl

-- Equal bytes at two places are equal numbers.
pub load_le-apart :
    (m m' : ℕ → ℕ) (a b n : ℕ)
    → ((j : ℕ) → j < n → m (a + j) ≡ m' (b + j))
    → load_le m a n ≡ load_le m' b n
unfolding load_le
load_le-apart m m' a b zero h = refl
load_le-apart m m' a b (suc n) h =
    let next : (j : ℕ) → j < n → m (a + 1 + j) ≡ m' (b + 1 + j) =
      λ j lt. shifted j (h (j + 1) (omega arith)) in
    let zero_a : a + 0 ≡ a = omega arith in
    let zero_b : b + 0 ≡ b = omega arith in
    let first : m a ≡ m' b = rw (zero_a, zero_b) at (h 0 (omega arith)) in
    omega (arith, first, load_le-apart m m' (a + 1) (b + 1) n next)
  where
    shifted : (j : ℕ) → m (a + (j + 1)) ≡ m' (b + (j + 1)) → m (a + 1 + j) ≡ m' (b + 1 + j)
    shifted j e =
        let p : a + (j + 1) ≡ a + 1 + j = omega arith in
        let q : b + (j + 1) ≡ b + 1 + j = omega arith in rw (p, q) at e

word-image :
    (file : List ℕ) (program i : ℕ) (s : Vm)
    → HasProgram file program s
    → i + 14 ≤ length file
    → load_le s.memory (program + i) 4 ≡ word_at file (i + 10)
word-image file program i s h k =
    load_le-apart s.memory (char_at file) (program + i) (i + 10) 4 λ j lt.
      let p : program + i + j ≡ program + (i + j) = omega arith in
      let q : i + 10 + j ≡ i + j + 10 = omega arith in rw (p, q) (h.image (i + j) (omega arith))

-- BRA and JMP, which go to a label whatever the flags are
abbrev pub IsJump : ℕ → Type 0
IsJump op = (op ≡ opcode_bra) ⊎ (op ≡ opcode_jmp)

jump_decoded :
    (double_bits : ℕ → ℕ) (fuel op offset : ℕ) (s t : Vm)
    → IsJump op
    → read_width width_32 s ≡ ok offset t
    → vm_opcode_execute double_bits fuel op s ≡ branch_by offset t
unfolding vm_opcode_execute dispatch switch cases_data cases_arith cases_logic cases_compare
    cases_float cases_flow vm_opcode_bra vm_opcode_jmp steps read_width
jump_decoded double_bits fuel op offset s t (inl e) h = rw (e, h) refl
jump_decoded double_bits fuel op offset s t (inr e) h = rw (e, h) refl

-- A machine that has a file in its memory and stands at a BRA or JMP of it, whose word is the offset
-- of a label, goes to the label in one round and changes nothing else.
pub execute_next-lands :
    (double_bits : ℕ → ℕ) (fuel : ℕ) (file : List ℕ) (program at label : ℕ) (s : Vm)
    → HasProgram file program s
    → length file < 2 ^ 31
    → 11 ≤ at
    → at + 4 ≤ length file
    → 10 ≤ label
    → label ≤ length file
    → IsJump (char_at file (at - 1))
    → word_at file at ≡ offset_between label at
    → s.ip ≡ program + (at - 11)
    → execute_next double_bits fuel s ≡ ok tt (record s { ip = program + (label - 10) })
unfolding steps vm_width_to_bytes
execute_next-lands double_bits fuel file program at label s h size a b c d jump word here =
    let op : s.memory s.ip ≡ char_at file (at - 1) =
      (let e : at - 11 + 10 ≡ at - 1 = omega arith in
        rw (here, ← e) (h.image (at - 11) (omega arith))) in
    let place : s.ip + 1 ≡ program + (at - 10) = omega arith in
    let back : at - 10 + 10 ≡ at = omega arith in
    let operand : load_le s.memory (s.ip + 1) 4 ≡ offset_between label at =
      rw place
        (word-image file program (at - 10) s h (omega arith) ∙ ap (word_at file) back ∙ word) in
    let fetched : read_width width_32 (advanced s 1)
        ≡ ok (offset_between label at) (advanced (advanced s 1) 4) =
      (read_width-ok width_32 (advanced s 1) (omega arith) h.bytes (let k = h.inside in omega arith)
          h.addressed
        ∙ ap (λ (o : ℕ). ok o (advanced (advanced s 1) 4)) operand) in
    rw (read_uint8-ok s h.bytes (let k = h.inside in omega arith) h.addressed) (
      jump_decoded double_bits fuel (s.memory s.ip) (offset_between label at) (advanced s 1)
        (advanced (advanced s 1) 4) (subst IsJump (sym op) jump) fetched
      ∙ branch_by-offset_between program at label (advanced (advanced s 1) 4) (omega arith) c
          (omega arith) (let k = h.inside in let m = h.addressed in omega arith) (omega arith)
          (omega arith))

abbrev pub get_elem? {ℓ} : {A : Type ℓ} → List A → ℕ → Option A
get_elem? [] i = none
get_elem? (x ∷ xs) zero = some x
get_elem? (x ∷ xs) (suc i) = get_elem? xs i

All-get_elem? {ℓ κ} :
    {A : Type ℓ} (P : A → Type κ) (xs : List A) (i : ℕ) (x : A)
    → get_elem? xs i ≡ some x
    → All P xs
    → P x
All-get_elem? P [] i x e h = absurd (cc)
All-get_elem? P (y ∷ ys) zero x e (h, hs) = let same : y ≡ x = cc in subst P same h
All-get_elem? P (y ∷ ys) (suc i) x e (h, hs) = All-get_elem? P ys i x e hs

-- The file once the references of one label are fixed
abbrev pub fixed_file : List ℕ → ℕ → Asm → List ℕ
fixed_file key list state = (fix_fwd_labels_iter (some key) list state).1.dest

if-length :
    (test : Bool) (n : ℕ) (a b : Asm)
    → length a.dest ≡ n
    → length b.dest ≡ n
    → length (if test then a else b).dest ≡ n
if-length true n a b h k = h
if-length false n a b h k = k

fixed_file-length :
    (key : List ℕ) (list : ℕ) (state : Asm)
    → IsSound state
    → length (fixed_file key list state) ≡ length state.dest
unfolding fix_fwd_labels_iter
fixed_file-length key list state s =
    let found = stree_get state.labels key in
    if-length (is_null found) (length state.dest) (report (undefined_reference key) state) _ refl (
      length-fix_refs (state.lists list) (node_value found) (length state.dest) state.dest refl
        (s.inside list))

-- A reference to a label that came later, assembled and then fixed, is a jump to the label: where a
-- source is assembled to less than 2 ^ 31 bytes, and the label is found behind the header, the machine
-- that has the fixed file in its memory and stands at the BRA or JMP of one of the label's references
-- goes to the label's place in the program in one round, and changes nothing else.
pub execute_next-fixed :
    (double_bits : ℕ → ℕ) (fuel : ℕ) (malloc : Malloc) (float_bits : List ℕ → ℕ)
    (lines : List (List ℕ)) (state : Asm) (key : List ℕ) (list i : ℕ) (ref : ForwardRef)
    (program label : ℕ) (s : Vm)
    → read_source malloc float_bits lines ≡ some state
    → length state.dest < 2 ^ 31
    → is_null (stree_get state.labels key) ≡ false
    → node_value (stree_get state.labels key) ≡ label
    → 10 ≤ label
    → label ≤ length state.dest
    → get_elem? (state.lists list) i ≡ some ref
    → 11 ≤ ref.dest_pos
    → IsJump (char_at (fixed_file key list state) (ref.dest_pos - 1))
    → HasProgram (fixed_file key list state) program s
    → s.ip ≡ program + (ref.dest_pos - 11)
    → execute_next double_bits fuel s ≡ ok tt (record s { ip = program + (label - 10) })
execute_next-fixed double_bits fuel malloc f lines state key list i ref program label s h small
      found value low high entry a jump image here =
    let sound = assemble_lines-IsSound malloc f lines state h in
    let size = fixed_file-length key list state sound in
    let fits =
      All-get_elem? (FitsIn (length state.dest)) (state.lists list) i ref entry
        (sound.inside list) in
    let leads =
      All-get_elem? (Leads (node_value (stree_get state.labels key)) (fixed_file key list state))
        (state.lists list) i ref entry
        (fix_fwd_labels_iter-Leads malloc f lines state key list 0 0 h (omega arith) found
          (no_bytes (state.lists list))).0 in
    execute_next-lands double_bits fuel (fixed_file key list state) program ref.dest_pos label s
      image (omega arith) a (omega arith) low (omega arith) jump (rw (sym value) leads) here
  where
    no_bytes : (refs : List ForwardRef) → All (Misses 0 0) refs
    no_bytes [] = tt
    no_bytes (r ∷ rs) = (inl (omega arith), no_bytes rs)
