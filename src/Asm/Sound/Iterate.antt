-- ===== src/Asm/Sound/Iterate.antt =====
-- The iteration of src/mhasm.c over the forward references at the end of an assembly.
use mathlib.Core.Path.{subst}
use mihini.Prelude.{
  ℕ, ◌^◌, ◌<◌, ◌≡◌, refl, sym, Bool, true, false, if◌then◌else◌, ◌==◌, List, Option, none, some,
  All, length,
}
use mihini.Prelude.Ascii.{char_at}
use mihini.Vm.Memory.{load_le}
use mihini.Stree.{Malloc, StreeNode, null, node, is_null, stree_get, stree_iterate}
use mihini.Asm.{Asm, ForwardRef}
use mihini.Asm.Label.{node_value}
use mihini.Asm.Fix.{fix_fwd_labels_iter, fix_labels}
use mihini.Asm.Main.{read_source}
use mihini.Asm.Sound.{IsSound, FitsIn}
use mihini.Asm.Sound.Lines.{assemble_lines-IsSound}
use mihini.Asm.Sound.Fixed.{Misses, load-fix_refs, Leads, fix_refs-Leads, length-fix_refs}

-- What the iteration over the forward references leaves as it is: the length of the file, the
-- position, and what the next label is fixed from.
pub record Same (state : Asm) (t : Asm) : Type 0 where
  pub size : length t.dest ≡ length state.dest
  pub position : t.pos ≡ state.pos
  pub same_lists : t.lists ≡ state.lists

iter-Same :
    (state : Asm) (key : Option (List ℕ)) (value : ℕ) (t : Asm)
    → IsSound state
    → Same state t
    → Same state (fix_fwd_labels_iter key value t).1
unfolding fix_fwd_labels_iter
iter-Same state none value t s h = h
iter-Same state (some key) value t s h =
    let found = stree_get t.labels key in
    let size = length state.dest in
    let refs_fit : All (FitsIn size) (t.lists value) =
      subst (λ (l : ℕ → List ForwardRef). All (FitsIn size) (l value)) (sym h.same_lists)
        (s.inside value) in
    choose_Same (is_null found)
      (record { size = h.size; position = h.position; same_lists = h.same_lists })
      (record {
        size = length-fix_refs (t.lists value) (node_value found) size t.dest h.size refs_fit;
        position = h.position;
        same_lists = h.same_lists;
      })
  where
    choose_Same :
        (test : Bool) {p q : Asm} → Same state p → Same state q → Same state (if test then p else q)
    choose_Same true a b = a
    choose_Same false a b = b

-- A choice between two contexts, as such and behind an answer
either_keeps {ℓ κ} :
    {C : Type ℓ} (P : C → Type κ) (test : Bool) {a b : C} → P a → P b → P (if test then a else b)
either_keeps P true h k = h
either_keeps P false h k = k

answer_keeps {ℓ κ} :
    {C : Type ℓ} (P : C → Type κ) (test : Bool) (a b : Bool × C)
    → P (a.1)
    → P (b.1)
    → P (if test then a else b).1
answer_keeps P true a b h k = h
answer_keeps P false a b h k = k

-- A property of the context that each call keeps holds at the end.
stree_iterate-keeps {ℓ κ} :
    {C : Type ℓ} (P : C → Type κ) (tree : StreeNode) (func : Option (List ℕ) → ℕ → C → Bool × C)
    (context : C)
    → ((k : Option (List ℕ)) (v : ℕ) (c : C) → P c → P (func k v c).1)
    → P context
    → P (stree_iterate tree func context)
unfolding stree_iterate
stree_iterate-keeps P null func context keep h = h
stree_iterate-keeps P (node l r f c k v) func context keep h =
    let before = stree_iterate l func context in
    let left : P before = stree_iterate-keeps P l func context keep h in
    let here = if v == 0 then (false, before) else func k v before in
    let step : P (here.1) =
      answer_keeps P (v == 0) (false, before) (func k v before) left (keep k v before left) in
    either_keeps P (here.0) step (
      stree_iterate-keeps P f func (stree_iterate r func (here.1)) keep
        (stree_iterate-keeps P r func (here.1) keep step))

-- The forward references of an assembled source are fixed inside the file: its length is what it was
-- before, and so is the position.
pub fix_labels-Same :
    (malloc : Malloc) (float_bits : List ℕ → ℕ) (lines : List (List ℕ)) (state : Asm)
    → read_source malloc float_bits lines ≡ some state
    → Same state (fix_labels state)
unfolding fix_labels
fix_labels-Same malloc f lines state h =
    let s = assemble_lines-IsSound malloc f lines state h in
    stree_iterate-keeps (Same state) state.fwd_labels fix_fwd_labels_iter state
      (λ k v t keeps. iter-Same state k v t s keeps)
      (record { size = refl; position = refl; same_lists = refl })

-- After an assembly of less than 2 ^ 32 bytes, for a list of references to a label that is found, the
-- word of each reference is the offset of the label from it, and a number elsewhere is what it was.
pub fix_fwd_labels_iter-Leads :
    (malloc : Malloc) (float_bits : List ℕ → ℕ) (lines : List (List ℕ)) (state : Asm) (key : List ℕ)
    (list a n : ℕ)
    → read_source malloc float_bits lines ≡ some state
    → length state.dest < 2 ^ 32
    → is_null (stree_get state.labels key) ≡ false
    → All (Misses a n) (state.lists list)
    → let fixed = (fix_fwd_labels_iter (some key) list state).1.dest in
      All (Leads (node_value (stree_get state.labels key)) fixed) (state.lists list)
      × (load_le (char_at fixed) a n ≡ load_le (char_at state.dest) a n)
unfolding fix_fwd_labels_iter
fix_fwd_labels_iter-Leads malloc f lines state key list a n h small found misses =
    let s = assemble_lines-IsSound malloc f lines state h in
    let pos = node_value (stree_get state.labels key) in
    rw found (
      fix_refs-Leads (state.lists list) pos state.dest (s.spaced small list),
      load-fix_refs (state.lists list) pos state.dest a n misses,
    )
