-- ===== src/Btree/Balance.antt =====
-- `btree_balance` of src/btree.c: it succeeds, and it keeps the entries.
use mathlib.Core.List.{append_assoc, append-nil}
use mihini.Prelude.{
  ℕ, zero, suc, ◌+◌, ◌-◌, ◌/◌, ◌<◌, ◌≤◌, ◌≡◌, inl, inr, refl, sym, ap, ◌∙◌, arith, ltb, Bool,
  Bool-cases, true, false, Option, some, List, [], ◌∷◌, ◌++◌, length,
}
use mihini.Btree.{
  BtreeNode, null, node, btree_insert, btree_get, edge, btree_count, raise_right, raise_left,
  shuffle, balance_root, balance_children, btree_balance,
}
use mihini.Btree.Entries.{entries, AllKeys, AllKeys-++, IsSorted, Parts, IsSorted-Parts, lookup}
use mihini.Btree.Order.{value_of, btree_get-lookup}

half : (a b : ℕ) → 0 < a → (a - 1 - (b - 1)) / 2 < a
half a b h = omega arith

module _ {ℓ} {A : Type ℓ} where
  insert_first :
      (t : BtreeNode A) (key : ℕ) (new : BtreeNode A)
      → AllKeys (λ j. key < j) (entries t)
      → entries (btree_insert t key new) ≡ entries new ++ entries t
  unfolding btree_insert entries
  insert_first null key new a = sym (append-nil (entries new))
  insert_first (node l k v r) key new a =
      let (b, c) = AllKeys-++ (λ j. key < j) (entries l) ((k, v) ∷ entries r) a in
      rw (less (c.0), insert_first l key new b)
        (append_assoc (entries new) (entries l) ((k, v) ∷ entries r))
    where
      less : key < k → ltb key k ≡ true
      less h = ground arith

  insert_last :
      (t : BtreeNode A) (key : ℕ) (new : BtreeNode A)
      → AllKeys (λ j. j < key) (entries t)
      → entries (btree_insert t key new) ≡ entries t ++ entries new
  unfolding btree_insert entries
  insert_last null key new a = refl
  insert_last (node l k v r) key new a =
      let (b, c) = AllKeys-++ (λ j. j < key) (entries l) ((k, v) ∷ entries r) a in
      rw (not_less (c.0), insert_last r key new (c.1))
        (sym (append_assoc (entries l) ((k, v) ∷ entries r) (entries new)))
    where
      not_less : k < key → ltb key k ≡ false
      not_less h = ground arith

  -- What a round gives: a tree with the same entries whose edge on that side is one shorter.
  pub record Raised (left : Bool) (t : BtreeNode A) (result : Option (BtreeNode A)) : Type ℓ where
    pub tree : BtreeNode A
    pub returned : result ≡ some tree
    pub same : entries tree ≡ entries t
    pub shorter : suc (edge left tree) ≡ edge left t

  right_Raised :
      (t : BtreeNode A)
      → IsSorted ◌<◌ (entries t)
      → 1 < edge false t
      → Raised false t (raise_right t)
  unfolding raise_right edge entries btree_insert
  right_Raised null s h = absurd (omega arith)
  right_Raised (node l k v null) s h = absurd (omega arith)
  right_Raised (node l k v (node rl rk rv rr)) s h = record {
    tree = btree_insert (node rl rk rv rr) k (node l k v null);
    returned = refl;
    same =
        insert_first (node rl rk rv rr) k (node l k v null) parts.right_keys
        ∙ append_assoc (entries l) ((k, v) ∷ []) (entries rl ++ (rk, rv) ∷ entries rr);
    shorter = rw (less child) refl;
  }
    where
      parts : Parts ◌<◌ (entries l) k (entries rl ++ (rk, rv) ∷ entries rr)
      parts = IsSorted-Parts ◌<◌ (entries l) k v (entries rl ++ (rk, rv) ∷ entries rr) s

      child : k < rk
      child = (AllKeys-++ (λ j. k < j) (entries rl) ((rk, rv) ∷ entries rr) parts.right_keys).1.0

      less : k < rk → ltb k rk ≡ true
      less q = ground arith

  left_Raised :
      (t : BtreeNode A) → IsSorted ◌<◌ (entries t) → 1 < edge true t → Raised true t (raise_left t)
  unfolding raise_left edge entries btree_insert
  left_Raised null s h = absurd (omega arith)
  left_Raised (node null k v r) s h = absurd (omega arith)
  left_Raised (node (node ll lk lv lr) k v r) s h = record {
    tree = btree_insert (node ll lk lv lr) k (node null k v r);
    returned = refl;
    same = insert_last (node ll lk lv lr) k (node null k v r) parts.left_keys;
    shorter = rw (not_less child) refl;
  }
    where
      parts : Parts ◌<◌ (entries ll ++ (lk, lv) ∷ entries lr) k (entries r)
      parts = IsSorted-Parts ◌<◌ (entries ll ++ (lk, lv) ∷ entries lr) k v (entries r) s

      child : lk < k
      child = (AllKeys-++ (λ j. j < k) (entries ll) ((lk, lv) ∷ entries lr) parts.left_keys).1.0

      not_less : lk < k → ltb k lk ≡ false
      not_less q = ground arith

  -- A tree with the same entries that is not NULL if the first is not.
  pub record Kept (t : BtreeNode A) (result : Option (BtreeNode A)) : Type ℓ where
    pub tree : BtreeNode A
    pub returned : result ≡ some tree
    pub same : entries tree ≡ entries t

  shuffle-Kept :
      (left : Bool) (raise : BtreeNode A → Option (BtreeNode A))
      → ((t : BtreeNode A) → IsSorted ◌<◌ (entries t) → 1 < edge left t → Raised left t (raise t))
      → (m : ℕ) (t : BtreeNode A) → IsSorted ◌<◌ (entries t)
      → m < edge left t
      → Kept t (shuffle raise m t)
  unfolding shuffle
  shuffle-Kept left raise step zero t s h = record { tree = t; returned = refl; same = refl }
  shuffle-Kept left raise step (suc m) t s h =
      let once = step t s (omega arith) in
      let shorter = once.shorter in
      let rest = shuffle-Kept left raise step m once.tree (rw once.same s) (omega arith) in
      record {
        tree = rest.tree;
        returned = rw once.returned rest.returned;
        same = rest.same ∙ once.same;
      }

  edge_positive :
      (left : Bool) (l : BtreeNode A) (k : ℕ) (v : A) (r : BtreeNode A)
      → 0 < edge left (node l k v r)
  unfolding edge
  edge_positive left l k v r = omega arith

  root_Kept :
      (l : BtreeNode A) (k : ℕ) (v : A) (r : BtreeNode A)
      → IsSorted ◌<◌ (entries (node l k v r))
      → Kept (node l k v r) (balance_root (node l k v r))
  unfolding balance_root btree_count
  root_Kept l k v r s = elim (Bool-cases (ltb (left - 1) (right - 1))) [
    | inl h ↦ rw h (
        shuffle-Kept false raise_right right_Raised ((right - 1 - (left - 1)) / 2) (node l k v r) s
          (half right left (edge_positive false l k v r)))
    | inr h ↦ rw h (
        shuffle-Kept true raise_left left_Raised ((left - 1 - (right - 1)) / 2) (node l k v r) s
          (half left right (edge_positive true l k v r)))
  ]
    where
      left : ℕ
      left = edge true (node l k v r)

      right : ℕ
      right = edge false (node l k v r)

  length-++ : (xs ys : List (ℕ × A)) → length (xs ++ ys) ≡ length xs + length ys
  length-++ [] ys = omega arith
  length-++ (x ∷ xs) ys = omega (arith, length-++ xs ys)

  node_positive :
      (l : BtreeNode A) (k : ℕ) (v : A) (r : BtreeNode A) → 0 < length (entries (node l k v r))
  unfolding entries
  node_positive l k v r = omega (arith, length-++ (entries l) ((k, v) ∷ entries r))

  children_Kept :
      (balance : BtreeNode A → Option (BtreeNode A)) (fuel : ℕ)
      → ((t : BtreeNode A)
          → length (entries t) ≤ fuel
          → IsSorted ◌<◌ (entries t)
          → Kept t (balance t))
      → (t : BtreeNode A) → 0 < length (entries t)
      → length (entries t) ≤ suc fuel
      → IsSorted ◌<◌ (entries t)
      → Kept t (balance_children balance t)
  unfolding balance_children entries
  children_Kept balance fuel ih null pos h s = absurd (omega arith)
  children_Kept balance fuel ih (node l k v r) pos h s =
      let parts = IsSorted-Parts ◌<◌ (entries l) k v (entries r) s in
      let total = length-++ (entries l) ((k, v) ∷ entries r) in
      let left = ih l (omega arith) parts.left_sorted in
      let right = ih r (omega arith) parts.right_sorted in
      record {
        tree = node left.tree k v right.tree;
        returned = rw (left.returned, right.returned) refl;
        same = rw (left.same, right.same) refl;
      }

  balance_Kept :
      (fuel : ℕ) (t : BtreeNode A)
      → length (entries t) ≤ fuel
      → IsSorted ◌<◌ (entries t)
      → Kept t (btree_balance fuel t)
  unfolding btree_balance
  balance_Kept fuel null h s = record { tree = null; returned = refl; same = refl }
  balance_Kept zero (node l k v r) h s = absurd (omega (arith, node_positive l k v r))
  balance_Kept (suc fuel) (node l k v r) h s =
      let root = root_Kept l k v r s in
      let rest =
        children_Kept (btree_balance fuel) fuel (balance_Kept fuel) root.tree
          (rw root.same (node_positive l k v r)) (rw root.same h) (rw root.same s) in
      record {
        tree = rest.tree;
        returned = rw root.returned rest.returned;
        same = rest.same ∙ root.same;
      }

  -- With all keys apart and as much fuel as there are entries, balancing succeeds: no access through
  -- NULL, the entries and their order are the same, and so is what every search finds.
  pub btree_balance-entries :
      (fuel : ℕ) (t : BtreeNode A)
      → length (entries t) ≤ fuel
      → IsSorted ◌<◌ (entries t)
      → (t' : BtreeNode A) × (btree_balance fuel t ≡ some t')
        × (entries t' ≡ entries t)
        × ((key : ℕ) → value_of (btree_get t' key) ≡ value_of (btree_get t key))
  btree_balance-entries fuel t h s = (kept.tree, kept.returned, kept.same, found)
    where
      kept : Kept t (btree_balance fuel t)
      kept = balance_Kept fuel t h s

      found : (key : ℕ) → value_of (btree_get kept.tree key) ≡ value_of (btree_get t key)
      found key =
          btree_get-lookup kept.tree key (rw kept.same s)
          ∙ ap (lookup key) kept.same
          ∙ sym (btree_get-lookup t key s)
