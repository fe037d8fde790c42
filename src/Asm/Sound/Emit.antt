-- ===== src/Asm/Sound/Emit.antt =====
-- Labels and instructions of src/mhasm.c keep a sound state sound.
use mathlib.Core.Option
use mihini.Prelude.{
  ℕ, ◌+◌, ◌==◌, ◌≡◌, ◌≤◌, ◌<◌, ◌^◌, refl, Bool, true, false, arith, if◌then◌else◌, List, [], ◌∷◌,
  ◌++◌, none, some, All, length, u32,
}
use mihini.Prelude.Options.{
  WhenSome, WhenSome-map, WhenSome-then, WhenSome-mono, WhenSome-if, WhenSome-mono,
}
use mihini.Stree.{stree_set, is_null, stree_get}
use mihini.Asm.{Asm, Segment, ForwardRef, expects_width}
use mihini.Asm.Scan.{get_segment}
use mihini.Asm.Write.{bytes_le, write_uint8, write_uint32, write_variable}
use mihini.Asm.Label.{
  placeholder, offset_between, node_value, forward_ref, push_ref, new_list, add_forward,
  label_offset, parse_label,
}
use mihini.Asm.Layout.{
  Layout, nothing, one_label, one_immediate, one_reg, one_reg_width, label_reg, long_reg, value_reg,
  byte_reg, float_reg, two_regs, set_reg, reg_set, value_two_regs, three_regs, directive, no_case,
}
use mihini.Asm.Assemble.{absent, write_label, write_reg, check_args, emit}
use mihini.Asm.Sound.{
  IsSound, IsSpaced, FitsIn, FitsIn-mono, length-append, length-bytes_le, choice-IsSound,
  report-IsSound, write_uint8-IsSound, write_uint32-IsSound, write_uint64-IsSound,
  write_variable-IsSound,
}
use mihini.Asm.Sound.Operands.{
  check_args-IsSound, write_reg-IsSound, write_bitmask-IsSound, write_immediate-IsSound,
  float_source-IsSound, write_data-IsSound,
}

All-if {ℓ κ} :
    {A : Type ℓ} (P : A → Type κ) (test : Bool) (xs ys : List A)
    → All P xs
    → All P ys
    → All P (if test then xs else ys)
All-if P true xs ys h k = h
All-if P false xs ys h k = k

All-snoc {ℓ κ} :
    {A : Type ℓ} (P : A → Type κ) (xs : List A) (y : A) → All P xs → P y → All P (xs ++ (y ∷ []))
All-snoc P [] y h k = (k, tt)
All-snoc P (x ∷ xs) y (h, hs) k = (h, All-snoc P xs y hs k)

if-IsSpaced :
    (test : Bool) (xs ys : List ForwardRef)
    → IsSpaced xs
    → IsSpaced ys
    → IsSpaced (if test then xs else ys)
if-IsSpaced true xs ys h k = h
if-IsSpaced false xs ys h k = k

-- A reference behind all others
IsSpaced-snoc :
    (refs : List ForwardRef) (ref : ForwardRef)
    → All (FitsIn ref.dest_pos) refs
    → IsSpaced refs
    → IsSpaced (refs ++ (ref ∷ []))
IsSpaced-snoc [] ref h k = (tt, tt)
IsSpaced-snoc (r ∷ rs) ref (h, hs) (k, ks) = (
  All-snoc (λ (q : ForwardRef). r.dest_pos + 4 ≤ q.dest_pos) rs ref k h,
  IsSpaced-snoc rs ref hs ks,
)

new_list-IsSound :
    (label : List ℕ) {state : Asm}
    → IsSound state
    → WhenSome (λ t. (state.pos ≡ t.pos) × IsSound t) (new_list label state)
unfolding new_list
new_list-IsSound label {state} s =
    WhenSome-then _ _ (stree_set state.malloc state.fwd_labels label state.fresh) λ tree. (
      refl,
      record {
        sized = s.sized;
        inside = λ list.
            All-if (FitsIn (length state.dest)) (state.fresh == list) [] (state.lists list) tt
              (s.inside list);
        spaced = λ small list.
            if-IsSpaced (state.fresh == list) [] (state.lists list) tt (s.spaced small list);
      },
    )

four_more : (dest : List ℕ) (v : ℕ) → length (dest ++ bytes_le 4 v) ≡ length dest + 4
four_more dest v = omega (arith, length-append dest (bytes_le 4 v), length-bytes_le 4 v)

-- A reference is sound once the four bytes of its placeholder are written.
write_ref-IsSound :
    (list v : ℕ) (ref : ForwardRef) {state : Asm}
    → ref.dest_pos ≡ state.pos
    → IsSound state
    → IsSound (write_uint32 v (push_ref list ref state))
unfolding write_uint32 push_ref
write_ref-IsSound list v ref {state} h s = record {
  sized = (write_uint32-IsSound v s).sized;
  inside = λ other.
      let old = length state.dest in
      let new = length (state.dest ++ bytes_le 4 (u32 v)) in
      let grown : new ≡ old + 4 = four_more state.dest (u32 v) in
      let kept : (l : ℕ) → All (FitsIn new) (state.lists l) =
        λ l. FitsIn-mono old new (state.lists l) (omega arith) (s.inside l) in
      All-if (FitsIn new) (list == other) (state.lists list ++ (ref ∷ [])) (state.lists other)
        (All-snoc (FitsIn new) (state.lists list) ref (kept list) (let p = s.sized in omega arith))
        (kept other);
  spaced = λ small other.
      let fits : length state.dest < 2 ^ 32 = omega (arith, four_more state.dest (u32 v)) in
      let here : ref.dest_pos ≡ length state.dest = (let p = s.sized in omega arith) in
      if-IsSpaced (list == other) (state.lists list ++ (ref ∷ [])) (state.lists other)
        (IsSpaced-snoc (state.lists list) ref
          (FitsIn-mono (length state.dest) ref.dest_pos (state.lists list) (omega arith)
            (s.inside list))
          (s.spaced fits list))
        (s.spaced fits other);
}

add_forward-IsSound :
    (label : List ℕ) (reg : Segment) (v : ℕ) {state : Asm}
    → IsSound state
    → WhenSome (λ t. IsSound (write_uint32 v t)) (add_forward label reg state)
unfolding add_forward forward_ref new_list
add_forward-IsSound label reg v {state} s =
    let found = stree_get state.fwd_labels label in
    let ref = forward_ref reg state in
    let P : Asm → Type 0 = λ t. IsSound (write_uint32 v t) in
    WhenSome-if P (is_null found) (Option.map (push_ref state.fresh ref) (new_list label state))
      (if node_value found == 0 then none else some (push_ref (node_value found) ref state))
      (WhenSome-map P (push_ref state.fresh ref) (new_list label state) (
        WhenSome-mono (λ t. (state.pos ≡ t.pos) × IsSound t) (λ t. P (push_ref state.fresh ref t))
          (new_list label state) (λ t h. write_ref-IsSound state.fresh v ref (h.0) (h.1))
          (new_list-IsSound label s)))
      (WhenSome-if P (node_value found == 0) none (some (push_ref (node_value found) ref state)) tt
        (write_ref-IsSound (node_value found) v ref refl s))

label_offset-IsSound :
    (label : List ℕ) (reg : Segment) {state : Asm}
    → IsSound state
    → WhenSome (λ p. IsSound (write_uint32 (p.0) (p.1))) (label_offset label reg state)
unfolding label_offset
label_offset-IsSound [] reg s = tt
label_offset-IsSound (c ∷ cs) reg {state} s =
    let found = stree_get state.labels (c ∷ cs) in
    let offset = offset_between (node_value found) state.pos in
    let P : ℕ × Asm → Type 0 = λ p. IsSound (write_uint32 (p.0) (p.1)) in
    WhenSome-if P (is_null found)
      (Option.map (λ s. (placeholder, s)) (add_forward (c ∷ cs) reg state)) (some (offset, state))
      (WhenSome-map P (λ s. (placeholder, s)) (add_forward (c ∷ cs) reg state)
        (add_forward-IsSound (c ∷ cs) reg placeholder s))
      (write_uint32-IsSound offset s)

write_label-IsSound :
    (reg : Segment) {state : Asm} → IsSound state → WhenSome IsSound (write_label reg state)
unfolding parse_label
write_label-IsSound reg {state} s =
    WhenSome-map IsSound (λ p. write_uint32 (p.0) (p.1)) (parse_label reg state)
      (label_offset-IsSound (get_segment state.sourceline reg) reg s)

variable-IsSound : (width v : ℕ) (t : Asm) → IsSound t → IsSound (write_variable v width t)
variable-IsSound width v t s = write_variable-IsSound v width s

pub emit-IsSound :
    (float_bits : List ℕ → ℕ) (layout : Layout) (opcode width : ℕ) {state : Asm}
    → IsSound state
    → WhenSome IsSound (emit float_bits layout opcode width state)
unfolding emit
emit-IsSound f nothing opcode width s = write_uint8-IsSound _ (check_args-IsSound false 0 s)
emit-IsSound f one_label opcode width s =
    write_label-IsSound _ (write_uint8-IsSound _ (check_args-IsSound false 1 s))
emit-IsSound f one_immediate opcode width s =
    write_immediate-IsSound write_uint32 _ (λ v t h. write_uint32-IsSound v h)
      (write_uint8-IsSound _ (check_args-IsSound false 1 s))
emit-IsSound f one_reg opcode width s =
    write_reg-IsSound _ (write_uint8-IsSound _ (check_args-IsSound false 1 s))
emit-IsSound f one_reg_width opcode width s =
    write_reg-IsSound _ (write_uint8-IsSound _ (check_args-IsSound true 1 s))
emit-IsSound f label_reg opcode width {state} s =
    let labelled = write_label state.offsets.arg1 (write_uint8 opcode (check_args false 2 state)) in
    WhenSome-map IsSound (write_reg state.offsets.arg2) labelled (
      WhenSome-mono IsSound (λ t. IsSound (write_reg state.offsets.arg2 t)) labelled
        (λ t h. write_reg-IsSound state.offsets.arg2 h)
        (write_label-IsSound _ (write_uint8-IsSound _ (check_args-IsSound false 2 s))))
emit-IsSound f long_reg opcode width s = write_reg-IsSound _ (
    write_immediate-IsSound write_uint32 _ (λ v t h. write_uint32-IsSound v h)
      (write_uint8-IsSound _ (check_args-IsSound false 2 s)))
emit-IsSound f value_reg opcode width s = write_reg-IsSound _ (
    write_immediate-IsSound (λ v. write_variable v width) _ (variable-IsSound width)
      (write_uint8-IsSound _ (check_args-IsSound true 2 s)))
emit-IsSound f byte_reg opcode width s = write_reg-IsSound _ (
    write_immediate-IsSound write_uint8 _ (λ v t h. write_uint8-IsSound v h)
      (write_uint8-IsSound _ (check_args-IsSound true 2 s)))
emit-IsSound f float_reg opcode width s = write_reg-IsSound _ (
    write_uint64-IsSound _
      (float_source-IsSound f _ (write_uint8-IsSound _ (check_args-IsSound true 2 s))))
emit-IsSound f two_regs opcode width s =
    write_reg-IsSound _ (write_reg-IsSound _ (write_uint8-IsSound _ (check_args-IsSound true 2 s)))
emit-IsSound f set_reg opcode width s =
    write_reg-IsSound _
      (write_bitmask-IsSound _ (write_uint8-IsSound _ (check_args-IsSound true 2 s)))
emit-IsSound f reg_set opcode width s =
    write_reg-IsSound _
      (write_bitmask-IsSound _ (write_uint8-IsSound _ (check_args-IsSound true 2 s)))
emit-IsSound f value_two_regs opcode width s = write_reg-IsSound _ (
    write_reg-IsSound _ (
      write_immediate-IsSound (λ v. write_variable v width) _ (variable-IsSound width)
        (write_uint8-IsSound _ (check_args-IsSound true 3 s))))
emit-IsSound f three_regs opcode width s = write_reg-IsSound _ (
    write_reg-IsSound _ (write_reg-IsSound _ (write_uint8-IsSound _ (check_args-IsSound true 3 s))))
emit-IsSound f directive opcode width {state} s =
    choice-IsSound (absent state.offsets.width)
      (write_data-IsSound 0 (report-IsSound expects_width s)) (write_data-IsSound width s)
emit-IsSound f no_case opcode width s = s
