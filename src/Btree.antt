-- ===== src/Btree.antt =====
-- The search tree of src/btree.c. A node is owned by the one link that points to it, so a tree is a
-- value; `malloc` does not fail, and `btree_free` leaves nothing to state.
pub mod Entries
pub mod Order
pub mod Balance
mod Examples
use mihini.Prelude.{
  ℕ, zero, suc, ◌+◌, ◌-◌, ◌/◌, ◌==◌, ltb, if◌then◌else◌, Bool, true, false, Option, none, some,
}
use mihini.Prelude.Options.{◌>>=◌}

-- `btree_node_t *`; NULL is `null`.
pub data BtreeNode {ℓ} (A : Type ℓ) : Type ℓ where
  null : BtreeNode A
  node : BtreeNode A → ℕ → A → BtreeNode A → BtreeNode A

module _ {ℓ} {A : Type ℓ} where
  unfoldable pub btree_new : ℕ → A → BtreeNode A
  btree_new key value = node null key value null

  -- `newnode` is a tree whose root has the key `newkey`. The loop ends at the link that is NULL.
  unfoldable pub btree_insert : BtreeNode A → ℕ → BtreeNode A → BtreeNode A
  btree_insert null newkey newnode = newnode
  btree_insert (node l k v r) newkey newnode =
      if ltb newkey k
      then node (btree_insert l newkey newnode) k v r
      else node l k v (btree_insert r newkey newnode)

  unfoldable pub btree_add : BtreeNode A → ℕ → A → BtreeNode A
  btree_add null key value = btree_new key value
  btree_add (node l k v r) key value = btree_insert (node l k v r) key (btree_new key value)

  -- The node that is found, with what hangs below it, or NULL
  unfoldable pub btree_get : BtreeNode A → ℕ → BtreeNode A
  btree_get null key = null
  btree_get (node l k v r) key =
      if key == k then node l k v r else if ltb key k then btree_get l key else btree_get r key

  -- `func` is the callback, which may change its context; `true` ends the traversal of this node.
  unfoldable pub btree_iterate {κ} : {C : Type κ} → BtreeNode A → (ℕ → A → C → Bool × C) → C → C
  btree_iterate null func context = context
  btree_iterate (node l k v r) func context =
      let (stop, next) = func k v (btree_iterate l func context) in
      if stop then next else btree_iterate r func next

  -- The nodes of the left or the right edge, from this one on
  unfoldable pub edge : Bool → BtreeNode A → ℕ
  edge left null = 0
  edge left (node l k v r) = suc (if left then edge left l else edge left r)

  -- A node that is not NULL
  unfoldable pub btree_count : BtreeNode A → Bool → ℕ
  btree_count t left = edge left t - 1

  -- One round of the loop of `btree_balance` for `m > 0` and for `m < 0`: the root goes below the
  -- child that takes its place. `none` is an access through NULL.
  unfoldable pub raise_right : BtreeNode A → Option (BtreeNode A)
  raise_right null = none
  raise_right (node l k v null) = none
  raise_right (node l k v (node rl rk rv rr)) =
      some (btree_insert (node rl rk rv rr) k (node l k v null))

  unfoldable pub raise_left : BtreeNode A → Option (BtreeNode A)
  raise_left null = none
  raise_left (node null k v r) = none
  raise_left (node (node ll lk lv lr) k v r) =
      some (btree_insert (node ll lk lv lr) k (node null k v r))

  unfoldable pub shuffle :
      (BtreeNode A → Option (BtreeNode A)) → ℕ → BtreeNode A → Option (BtreeNode A)
  shuffle raise zero t = some t
  shuffle raise (suc m) t = do t' ← raise t; shuffle raise m t'

  -- The loop of `btree_balance`: half the difference of the edges, which the division of C rounds
  -- towards 0, is the number of rounds, and its sign is their direction.
  unfoldable pub balance_root : BtreeNode A → Option (BtreeNode A)
  balance_root t =
      let right = btree_count t false in
      let left = btree_count t true in
      if ltb left right
      then shuffle raise_right ((right - left) / 2) t
      else shuffle raise_left ((left - right) / 2) t

  -- The two calls at the end of `btree_balance`
  unfoldable pub balance_children :
      (BtreeNode A → Option (BtreeNode A)) → BtreeNode A → Option (BtreeNode A)
  balance_children balance null = none
  balance_children balance (node l k v r) = do
    left ← balance l
    right ← balance r
    some (node left k v right)

  -- `fuel` bounds the depth of the recursion.
  unfoldable pub btree_balance : ℕ → BtreeNode A → Option (BtreeNode A)
  btree_balance fuel null = some null
  btree_balance zero (node l k v r) = none
  btree_balance (suc fuel) (node l k v r) = do
    t ← balance_root (node l k v r)
    balance_children (btree_balance fuel) t
