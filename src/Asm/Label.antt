-- ===== src/Asm/Label.antt =====
-- Labels in operands, `parse_label` of src/mhasm.c.
use mihini.Prelude.{
  ℕ, ◌+◌, ◌-◌, ◌*◌, ◌^◌, ◌==◌, if◌then◌else◌, List, [], ◌∷◌, ◌++◌, Option, none, some, u32, update,
}
use mathlib.Core.Option
use mihini.Prelude.Options.{◌>>=◌}
use mihini.Stree.{StreeNode, is_null, content_of, stree_get, stree_set}
use mihini.Asm.{Asm, Segment, ForwardRef}
use mihini.Asm.Scan.{get_segment}

-- What stands for an offset until it is known
abbrev pub placeholder : ℕ
placeholder = 0xA5A5A5A5

-- `(int32_t)pos - at - 8`, on `uint32_t`
abbrev pub offset_between : ℕ → ℕ → ℕ
offset_between pos at = u32 (u32 pos + 2 * 2 ^ 32 - at - 8)

-- The value of a node, 0 for NULL
abbrev pub node_value : StreeNode → ℕ
node_value found = (content_of found).value

unfoldable pub forward_ref : Segment → Asm → ForwardRef
forward_ref reg state = record {
  line_number = state.line_number;
  line_offset = reg.start;
  dest_pos = state.pos;
}

-- `dll_push(poslist, ref)`
unfoldable pub push_ref : ℕ → ForwardRef → Asm → Asm
push_ref list ref state = record state {
  lists = update state.lists list (state.lists list ++ (ref ∷ []));
}

-- `dll_new`, and the list under the label's name in `fwd_labels`
unfoldable pub new_list : List ℕ → Asm → Option Asm
new_list label state = do
  fwd_labels ← stree_set state.malloc state.fwd_labels label state.fresh
  some (record state {
    fwd_labels = fwd_labels;
    lists = update state.lists state.fresh [];
    fresh = state.fresh + 1;
  })

-- A node that has no value, of a name that begins another one, gives NULL for its list: undefined.
unfoldable pub add_forward : List ℕ → Segment → Asm → Option Asm
add_forward label reg state =
    let found = stree_get state.fwd_labels label in
    if is_null found
    then Option.map (push_ref state.fresh (forward_ref reg state)) (new_list label state)
    else if node_value found == 0
    then none
    else some (push_ref (node_value found) (forward_ref reg state) state)

-- The offset, or the placeholder. An empty name sends `stree_set` behind its end: undefined.
unfoldable pub label_offset : List ℕ → Segment → Asm → Option (ℕ × Asm)
label_offset [] reg state = none
label_offset (c ∷ cs) reg state =
    let found = stree_get state.labels (c ∷ cs) in
    if is_null found
    then Option.map (λ s. (placeholder, s)) (add_forward (c ∷ cs) reg state)
    else some (offset_between (node_value found) state.pos, state)

unfoldable pub parse_label : Segment → Asm → Option (ℕ × Asm)
parse_label reg state = label_offset (get_segment state.sourceline reg) reg state
