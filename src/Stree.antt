-- ===== src/Stree.antt =====
-- The ternary search tree of src/stree.c, in which the assembler keeps mnemonics and labels. A node is
-- owned by the one link that points to it, so a tree is a value. `none` is undefined behaviour: the code
-- follows NULL, or relies on something that `malloc` has not given. A string is the list of its
-- characters, which are ASCII; a value is a number, and 0 is NULL.
pub mod Lookup
pub mod Balance
mod Examples
use mihini.Prelude.{
  ℕ, zero, suc, ◌+◌, ◌-◌, length, ◌/◌, ◌==◌, ltb, not, if◌then◌else◌, Bool, true, false, List, [],
  ◌∷◌, Option, none, some,
}
use mathlib.Core.Option
use mihini.Prelude.Options.{◌>>=◌}

pub data StreeNode : Type 0 where
  null : StreeNode
  node : StreeNode → StreeNode → StreeNode → ℕ → Option (List ℕ) → ℕ → StreeNode

-- The fields `forward`, `key` and `value`, which a tree has besides its character and its order.
pub record Content : Type 0 where
  pub forward : StreeNode
  pub key : Option (List ℕ)
  pub value : ℕ

abbrev pub no_content : Content
no_content = record { forward = null; key = none; value = 0 }

abbrev pub with_content : StreeNode → StreeNode → ℕ → Content → StreeNode
with_content l r c x = node l r x.forward c x.key x.value

-- The `malloc` of the host, which does not fail: whether the memory that it gives holds zeroes, and how
-- many bytes may be written where a number of bytes was asked for.
pub record Malloc : Type 0 where
  pub zeroed : Bool
  pub usable : ℕ → ℕ

abbrev pub is_null : StreeNode → Bool
is_null null = true
is_null (node l r f c k v) = false

module _ (malloc : Malloc) where
  -- A node from `stree_new`, which sets the character alone, with what the caller sets next. Unless the
  -- memory holds zeroes, the links, the key and the value of the node are not known, and the code
  -- follows or compares them later.
  unfoldable pub new_node : ℕ → Content → Option StreeNode
  new_node c x = if malloc.zeroed then some (with_content null null c x) else none

  unfoldable pub stree_new : ℕ → Option StreeNode
  stree_new c = new_node c no_content

  -- The loop of `stree_add`, at the link that it has come to: the node of the character is found or
  -- new, and `change` is what the caller does to its content.
  unfoldable pub add_loop : StreeNode → ℕ → (Content → Option Content) → Option StreeNode
  add_loop null c change = do x ← change no_content; new_node c x
  add_loop (node l r f d k v) c change =
      let here = change (record { forward = f; key = k; value = v }) in
      let left = add_loop l c change in
      let right = add_loop r c change in
      if d == c
      then Option.map (with_content l r d) here
      else if ltb c d
      then Option.map (λ l'. node l' r f d k v) left
      else Option.map (λ r'. node l r' f d k v) right

  -- The character of the root is read before the test for NULL.
  unfoldable pub stree_add : StreeNode → ℕ → (Content → Option Content) → Option StreeNode
  stree_add null c change = none
  stree_add (node l r f d k v) c change = add_loop (node l r f d k v) c change

  -- The end of `stree_set`: the key is a copy of the string, and a 0 behind the end of the copy, which
  -- is one byte more than was asked for.
  unfoldable pub put_value : List ℕ → ℕ → Content → Option Content
  put_value str value x =
      if ltb (malloc.usable (length str + 1)) (length str + 2)
      then none
      else some (record x { key = some str; value = value })

  -- The shortcut of `stree_set`: one new node below the other, for the rest of the string
  unfoldable pub new_nodes : List ℕ → ℕ → List ℕ → Option StreeNode
  new_nodes str value [] = none
  new_nodes str value (c ∷ []) = do x ← put_value str value no_content; new_node c x
  new_nodes str value (c ∷ d ∷ cs) = do
    below ← new_nodes str value (d ∷ cs)
    new_node c (record no_content { forward = below })

  -- The outer loop of `stree_set`, from the node and the character that it has come to; an empty string
  -- is read behind its end.
  unfoldable pub set_loop : List ℕ → ℕ → List ℕ → StreeNode → Option StreeNode
  set_loop str value [] t = none
  set_loop str value (c ∷ []) t = stree_add t c (put_value str value)
  set_loop str value (c ∷ d ∷ cs) t = stree_add t c λ x.
      Option.map (λ f. record x { forward = f })
        (if is_null x.forward
          then new_nodes str value (d ∷ cs)
          else set_loop str value (d ∷ cs) x.forward)

  unfoldable pub stree_set : StreeNode → List ℕ → ℕ → Option StreeNode
  stree_set t str value = set_loop str value str t

unfoldable pub stree_find : StreeNode → ℕ → StreeNode
stree_find null c = null
stree_find (node l r f d k v) c =
    if d == c then node l r f d k v else if ltb c d then stree_find l c else stree_find r c

abbrev pub content_of : StreeNode → Content
content_of null = no_content
content_of (node l r f c k v) = record { forward = f; key = k; value = v }

-- A node that is not there has no forward link, so a search that has lost its way finds NULL.
unfoldable pub stree_get : StreeNode → List ℕ → StreeNode
stree_get t [] = null
stree_get t (c ∷ []) = stree_find t c
stree_get t (c ∷ d ∷ cs) = stree_get (content_of (stree_find t c)).forward (d ∷ cs)

unfoldable pub stree_exists : StreeNode → List ℕ → Bool
stree_exists t str = not ((content_of (stree_get t str)).value == 0)

-- `func` is called for each value that is not NULL, and may change its context; where it returns true
-- the rest of the node that it was called for, and no other, is left out.
unfoldable pub stree_iterate {ℓ} :
    {C : Type ℓ} → StreeNode → (Option (List ℕ) → ℕ → C → Bool × C) → C → C
stree_iterate null func context = context
stree_iterate (node l r f c k v) func context =
    let before = stree_iterate l func context in
    let (stop, here) = if v == 0 then (false, before) else func k v before in
    let rest = stree_iterate f func (stree_iterate r func here) in if stop then here else rest

-- The nodes of the left or the right edge, from this one on
unfoldable pub edge : Bool → StreeNode → ℕ
edge left null = 0
edge left (node l r f c k v) = suc (if left then edge left l else edge left r)

-- A node that is not NULL
unfoldable pub stree_count : StreeNode → Bool → ℕ
stree_count t left = edge left t - 1

-- `before` compares the addresses of two keys, which `malloc` has chosen.
module _ (before : Option (List ℕ) → Option (List ℕ) → Bool) where
  -- `newnode` is a tree whose root has the key `newkey`. The loop ends at the link that is NULL.
  unfoldable pub stree_insert : StreeNode → Option (List ℕ) → StreeNode → StreeNode
  stree_insert null newkey newnode = newnode
  stree_insert (node l r f c k v) newkey newnode =
      if before newkey k
      then node (stree_insert l newkey newnode) r f c k v
      else node l (stree_insert r newkey newnode) f c k v

  -- One round of the loop of `stree_balance`, for `m > 0` and for `m < 0`: the root goes below the
  -- child that takes its place. `none` is an access through NULL.
  unfoldable pub raise_right : StreeNode → Option StreeNode
  raise_right null = none
  raise_right (node l null f c k v) = none
  raise_right (node l (node rl rr rf rc rk rv) f c k v) =
      some (stree_insert (node rl rr rf rc rk rv) k (node l null f c k v))

  unfoldable pub raise_left : StreeNode → Option StreeNode
  raise_left null = none
  raise_left (node null r f c k v) = none
  raise_left (node (node ll lr lf lc lk lv) r f c k v) =
      some (stree_insert (node ll lr lf lc lk lv) k (node null r f c k v))

  unfoldable pub shuffle : (StreeNode → Option StreeNode) → ℕ → StreeNode → Option StreeNode
  shuffle raise zero t = some t
  shuffle raise (suc m) t = do t' ← raise t; shuffle raise m t'

  -- The loop: half the difference of the edges, which C rounds towards 0, is the number of rounds, and
  -- its sign is their direction.
  unfoldable pub balance_root : StreeNode → Option StreeNode
  balance_root t =
      let right = stree_count t false in
      let left = stree_count t true in
      if ltb left right
      then shuffle raise_right ((right - left) / 2) t
      else shuffle raise_left ((left - right) / 2) t

  -- The three calls at the end of `stree_balance`
  unfoldable pub balance_links : (StreeNode → Option StreeNode) → StreeNode → Option StreeNode
  balance_links balance null = none
  balance_links balance (node l r f c k v) = do
    left ← balance l
    right ← balance r
    forward ← balance f
    some (node left right forward c k v)

  -- `fuel` bounds the depth of the recursion.
  unfoldable pub stree_balance : ℕ → StreeNode → Option StreeNode
  stree_balance fuel null = some null
  stree_balance zero (node l r f c k v) = none
  stree_balance (suc fuel) (node l r f c k v) = do
    t ← balance_root (node l r f c k v)
    balance_links (stree_balance fuel) t
