-- ===== src/Asm/Backward.antt =====
-- What src/vm.c does at a branch that src/mhasm.c has assembled to a label that came before it.
use mathlib.Core.Path.{subst}
use mihini.Prelude.{
  ℕ, zero, suc, ◌+◌, ◌-◌, ◌/◌, ◌%◌, ◌^◌, ◌<◌, ◌≤◌, ◌≡◌, inl, inr, refl, sym, ap, ◌∙◌, arith, false,
  List, [], ◌∷◌, ◌++◌, some, length, u8, u32,
}
use mathlib.Core.Option
use native.Mathlib.Nat.{pow-suc}
use mathlib.Core.List.{append_assoc}
use mihini.Prelude.Ascii.{char_at}
use mihini.Vm.State.{Vm, ok}
use mihini.Vm.Memory.{load_le}
use mihini.Vm.Execute.Load.{execute_next}
use mihini.Stree.{is_null, stree_get}
use mihini.Asm.{Asm, Report, report}
use mihini.Asm.Scan.{get_segment}
use mihini.Asm.Write.{bytes_le, write_uint8, write_uint32}
use mihini.Asm.Label.{offset_between, node_value, label_offset, parse_label}
use mihini.Asm.Layout.{one_label}
use mihini.Asm.Assemble.{check_args, emit}
use mihini.Asm.Checks.{check_args-keeps}
use mihini.Asm.Sound.Fixed.{word_at}
use mihini.Asm.Branch.{HasProgram, IsJump, execute_next-lands}

char_at-append : (xs ys : List ℕ) (i : ℕ) → char_at (xs ++ ys) (length xs + i) ≡ char_at ys i
char_at-append [] ys i = ap (char_at ys) (omega arith)
char_at-append (x ∷ xs) ys i =
    let e : suc (length xs) + i ≡ suc (length xs + i) = omega arith in
    ap (char_at (x ∷ xs ++ ys)) e ∙ char_at-append xs ys i

-- Numbers that are written are read back.
load_le-bytes_le :
    (n v a : ℕ) (m : ℕ → ℕ)
    → v < 256 ^ n
    → ((i : ℕ) → i < n → m (a + i) ≡ char_at (bytes_le n v) i)
    → load_le m a n ≡ v
unfolding load_le bytes_le
load_le-bytes_le zero v a m small h = omega arith
load_le-bytes_le (suc n) v a m small h =
    let below : v / 256 < 256 ^ n = omega (arith, pow-suc 256 n) in
    let first : m a ≡ v % 256 = ap m (sym (right_zero a)) ∙ h 0 (omega arith) in
    omega (
      arith,
      first,
      load_le-bytes_le n (v / 256) (a + 1) m below
          λ i lt. ap m (next_place a i) ∙ h (suc i) (omega arith),
    )
  where
    right_zero : (a : ℕ) → a + 0 ≡ a
    right_zero a = omega arith

    next_place : (a i : ℕ) → a + 1 + i ≡ a + suc i
    next_place a i = omega arith

-- Whether messages were given, the rest of the state is the same.
abbrev Reported : Asm → Asm → Type 0
Reported s t = (rs : List Report) × (t ≡ record s { reports = rs })

check_args-Reported : (haswidth : _) (args : ℕ) (s : Asm) → Reported s (check_args haswidth args s)
check_args-Reported haswidth args s =
    check_args-keeps (Reported s) (λ r t p. (_, ap (report r) (p.1))) haswidth args s
      (s.reports, refl)

-- The instruction of a label that is known, once it is written
abbrev branched : ℕ → ℕ → List Report → Asm → Asm
branched op label rs state =
    write_uint32 (offset_between label (u32 (state.pos + 1)))
      (write_uint8 op (record state { reports = rs }))

label_offset-known :
    (key : List ℕ) (reg : _) (state : Asm)
    → 0 < length key
    → is_null (stree_get state.labels key) ≡ false
    → label_offset key reg state
      ≡ some (offset_between (node_value (stree_get state.labels key)) state.pos, state)
unfolding label_offset
label_offset-known [] reg state h found = absurd (omega arith)
label_offset-known (c ∷ cs) reg state h found = rw found refl

emit-known :
    (float_bits : List ℕ → ℕ) (op width : ℕ) (state : Asm) (key : List ℕ)
    → get_segment state.sourceline state.offsets.arg1 ≡ key
    → 0 < length key
    → is_null (stree_get state.labels key) ≡ false
    → (rs : List Report) × (emit float_bits one_label op width state
        ≡ some (branched op (node_value (stree_get state.labels key)) rs state))
unfolding emit parse_label write_uint8 write_uint32
emit-known float_bits op width state key name long found =
    let (rs, checked) = check_args-Reported false 1 state in
    (
      rs,
      rw (checked, name)
          (ap (Option.map (λ p. write_uint32 (p.0) (p.1))) (
            label_offset-known key state.offsets.arg1
              (write_uint8 op (record state { reports = rs })) long found)),
    )

-- The file of that state, behind what it had before: the opcode and the offset
branched-dest :
    (op label : ℕ) (rs : List Report) (state : Asm)
    → (branched op label rs state).dest
      ≡ state.dest
        ++ (bytes_le 1 (u8 op) ++ bytes_le 4 (u32 (offset_between label (u32 (state.pos + 1)))))
unfolding write_uint8 write_uint32
branched-dest op label rs state =
    append_assoc state.dest (bytes_le 1 (u8 op))
      (bytes_le 4 (u32 (offset_between label (u32 (state.pos + 1)))))

-- The opcode and the word of five bytes that are written for a branch
branch_bytes :
    (file : List ℕ) (at op offset : ℕ)
    → op < 256
    → offset < 2 ^ 32
    → ((i : ℕ)
        → i < 5
        → char_at file (at + i) ≡ char_at (bytes_le 1 (u8 op) ++ bytes_le 4 (u32 offset)) i)
    → (char_at file at ≡ op) × (word_at file (at + 1) ≡ offset)
unfolding bytes_le
branch_bytes file at op offset small fits h =
    let start : at ≡ at + 0 = omega arith in
    let whole : u32 offset ≡ offset = omega arith in
    let first : char_at file at ≡ op % 256 % 256 = ap (char_at file) start ∙ h 0 (omega arith) in
    (
      omega (arith, first),
      load_le-bytes_le 4 (u32 offset) (at + 1) (char_at file) (omega arith)
            (λ i lt. ap (char_at file) (next_place i) ∙ h (suc i) (omega arith))
          ∙ whole,
    )
  where
    next_place : (i : ℕ) → at + 1 + i ≡ at + suc i
    next_place i = omega arith

-- A reference to a label that came before it, once it is assembled, is a jump to the label: where BRA
-- or JMP is assembled at the end of the file and the label of its operand is known, with a place behind
-- the header and not behind the end of the file, the machine that has in its memory a file of less than
-- 2 ^ 31 bytes with the five bytes of the instruction at their place, and stands there, goes to the
-- label's place in the program in one round, and changes nothing else.
pub execute_next-known :
    (double_bits : ℕ → ℕ) (fuel : ℕ) (float_bits : List ℕ → ℕ) (op width : ℕ) (state next : Asm)
    (key : List ℕ) (file : List ℕ) (program label : ℕ) (s : Vm)
    → state.pos ≡ length state.dest
    → get_segment state.sourceline state.offsets.arg1 ≡ key
    → 0 < length key
    → is_null (stree_get state.labels key) ≡ false
    → node_value (stree_get state.labels key) ≡ label
    → 10 ≤ label
    → label ≤ length state.dest
    → IsJump op
    → emit float_bits one_label op width state ≡ some next
    → length state.dest + 5 ≤ length file
    → length file < 2 ^ 31
    → ((i : ℕ)
        → i < 5
        → char_at file (length state.dest + i) ≡ char_at next.dest (length state.dest + i))
    → HasProgram file program s
    → s.ip ≡ program + (length state.dest - 10)
    → execute_next double_bits fuel s ≡ ok tt (record s { ip = program + (label - 10) })
execute_next-known double_bits fuel f op width state next key file program label s pos name long
      found value low high jump h size small kept image here =
    let (rs, emitted) = emit-known f op width state key name long found in
    let place : u32 (state.pos + 1) ≡ length state.dest + 1 = omega arith in
    let same : next ≡ branched op label rs state =
      some_inj (sym h ∙ emitted ∙ ap (λ l. some (branched op l rs state)) value) in
    let low_op = jump_lt op jump in
    let (first, word) =
      branch_bytes file (length state.dest) op (offset_between label (length state.dest + 1)) low_op
        (omega arith)
        λ i lt.
          kept i lt
          ∙ ap (λ (n : Asm). char_at n.dest (length state.dest + i)) same
          ∙ ap (λ (l : List ℕ). char_at l (length state.dest + i)) (branched-dest op label rs state)
          ∙ char_at-append state.dest
              (bytes_le 1 (u8 op) ++ bytes_le 4 (u32 (offset_between label (u32 (state.pos + 1)))))
              i
          ∙ ap
              (λ (p : ℕ).
                char_at (bytes_le 1 (u8 op) ++ bytes_le 4 (u32 (offset_between label p))) i)
              place in
    let before : length state.dest + 1 - 1 ≡ length state.dest = omega arith in
    execute_next-lands double_bits fuel file program (length state.dest + 1) label s image small
      (omega arith) (omega arith) low (omega arith) (rw before (subst IsJump (sym first) jump)) word
      (omega arith)
  where
    some_inj : {a b : Asm} → some a ≡ some b → a ≡ b
    some_inj e = cc

    jump_lt : (op : ℕ) → IsJump op → op < 256
    jump_lt op (inl e) = omega arith
    jump_lt op (inr e) = omega arith
