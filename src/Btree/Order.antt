-- ===== src/Btree/Order.antt =====
-- Insertion, search and traversal of src/btree.c, against the list of entries.
use mihini.Prelude.{
  ℕ, ◌<◌, ◌≤◌, ◌==◌, ◌≡◌, ◌⊎◌, inl, inr, refl, sym, ap, ◌∙◌, arith, ltb, if◌then◌else◌, Bool,
  Bool-cases, order-cases, false, Option, none, some, List, [], ◌∷◌, ◌++◌,
}
use mihini.Prelude.Options.{or_else}
use mihini.Btree.{
  BtreeNode, null, node, btree_new, btree_insert, btree_add, btree_get, btree_iterate,
}
use mihini.Btree.Entries.{
  entries, AllKeys-imp, IsSorted, Parts, IsSorted-Parts, lookup, lookup-++, lookup_absent,
  ordered_insert, ordered_insert_left, ordered_insert_right, IsSorted-ordered_insert,
}

module _ {ℓ} {A : Type ℓ} where
  -- `node->value`, where there is a node
  abbrev pub value_of : BtreeNode A → Option A
  value_of null = none
  value_of (node l k v r) = some v

  entries-btree_insert :
      (t : BtreeNode A) (key : ℕ) (value : A)
      → IsSorted ◌≤◌ (entries t)
      → entries (btree_insert t key (btree_new key value)) ≡ ordered_insert key value (entries t)
  unfolding entries btree_insert btree_new ordered_insert
  entries-btree_insert null key value s = refl
  entries-btree_insert (node l k v r) key value s = elim (Bool-cases (ltb key k)) [
    | inl h ↦
        rw (h, entries-btree_insert l key value parts.left_sorted)
          (sym (ordered_insert_left key value (entries l) k v (entries r) h))
    | inr h ↦
        rw (h, entries-btree_insert r key value parts.right_sorted)
          (sym (
            ordered_insert_right key value (entries l) ((k, v) ∷ entries r)
              (AllKeys-imp (λ j q. below h q) (entries l) parts.left_keys)
            ∙ ap (λ zs. entries l ++ zs) (behind h)))
  ]
    where
      parts : Parts ◌≤◌ (entries l) k (entries r)
      parts = IsSorted-Parts ◌≤◌ (entries l) k v (entries r) s

      below : {j : ℕ} → ltb key k ≡ false → j ≤ k → j ≤ key
      below h q = ground arith

      behind :
          ltb key k ≡ false
          → ordered_insert key value ((k, v) ∷ entries r)
            ≡ (k, v) ∷ ordered_insert key value (entries r)
      behind h = rw h refl

  entries-btree_add :
      (t : BtreeNode A) (key : ℕ) (value : A)
      → IsSorted ◌≤◌ (entries t)
      → entries (btree_add t key value) ≡ ordered_insert key value (entries t)
  unfolding btree_add btree_insert
  entries-btree_add null key value s = entries-btree_insert null key value s
  entries-btree_add (node l k v r) key value s = entries-btree_insert (node l k v r) key value s

  -- An entry is added behind those with a key less or equal: the entries stay sorted, and those with
  -- equal keys stay in the order in which they were added.
  pub btree_add-entries :
      (t : BtreeNode A) (key : ℕ) (value : A)
      → IsSorted ◌≤◌ (entries t)
      → (entries (btree_add t key value) ≡ ordered_insert key value (entries t))
        × IsSorted ◌≤◌ (entries (btree_add t key value))
  btree_add-entries t key value s = (
    entries-btree_add t key value s,
    rw (entries-btree_add t key value s) (IsSorted-ordered_insert key value (entries t) s),
  )

  get-insert :
      (t : BtreeNode A) (key j : ℕ) (value : A)
      → value_of (btree_get (btree_insert t key (btree_new key value)) j)
        ≡ or_else (value_of (btree_get t j)) (if j == key then some value else none)
  unfolding btree_get btree_insert btree_new
  get-insert null key j value = ground arith
  get-insert (node l k v r) key j value =
      ground (arith, get-insert l key j value, get-insert r key j value)

  -- After an addition a search finds what it found before, and the new value where there was none
  -- with the key: of equal keys the one added first is found. This holds of any tree.
  pub btree_get-btree_add :
      (t : BtreeNode A) (key j : ℕ) (value : A)
      → value_of (btree_get (btree_add t key value) j)
        ≡ or_else (value_of (btree_get t j)) (if j == key then some value else none)
  unfolding btree_add btree_insert
  btree_get-btree_add null key j value = get-insert null key j value
  btree_get-btree_add (node l k v r) key j value = get-insert (node l k v r) key j value

  -- With all keys apart, a search finds what the list of entries has.
  pub btree_get-lookup :
      (t : BtreeNode A) (key : ℕ)
      → IsSorted ◌<◌ (entries t)
      → value_of (btree_get t key) ≡ lookup key (entries t)
  unfolding btree_get entries lookup
  btree_get-lookup null key s = refl
  btree_get-lookup (node l k v r) key s = elim (order-cases key k) [
    | inl h ↦
        let away : lookup key (entries r) ≡ none =
          lookup_absent key (entries r)
            (AllKeys-imp (λ j q. above h q) (entries r) parts.right_keys) in
        ground (arith, split, btree_get-lookup l key parts.left_sorted, away)
    | inr h ↦
        let away : lookup key (entries l) ≡ none =
          lookup_absent key (entries l)
            (AllKeys-imp (λ j q. below h q) (entries l) parts.left_keys) in
        ground (arith, split, btree_get-lookup r key parts.right_sorted, away)
  ]
    where
      parts : Parts ◌<◌ (entries l) k (entries r)
      parts = IsSorted-Parts ◌<◌ (entries l) k v (entries r) s

      split :
          lookup key (entries l ++ (k, v) ∷ entries r)
          ≡ or_else (lookup key (entries l)) (lookup key ((k, v) ∷ entries r))
      split = lookup-++ key (entries l) ((k, v) ∷ entries r)

      above : {j : ℕ} → key < k → k < j → (key == j) ≡ false
      above h q = ground arith

      below : {j : ℕ} → (key ≡ k) ⊎ (k < key) → j < k → (key == j) ≡ false
      below h q = ground arith

  -- What the callback makes of its context over a list of entries.
  unfoldable pub visit {κ} : {C : Type κ} → List (ℕ × A) → (ℕ → A → C → Bool × C) → C → C
  visit [] func c = c
  visit (e ∷ es) func c = visit es func ((func (e.0) (e.1) c).1)

  visit-++ {κ} :
      {C : Type κ} (xs ys : List (ℕ × A)) (func : ℕ → A → C → Bool × C) (c : C)
      → visit (xs ++ ys) func c ≡ visit ys func (visit xs func c)
  unfolding visit
  visit-++ [] ys func c = refl
  visit-++ (x ∷ xs) ys func c = visit-++ xs ys func _

  -- A traversal whose callback never asks to stop visits the entries in order, each once.
  pub btree_iterate-visit {κ} :
      {C : Type κ} (t : BtreeNode A) (func : ℕ → A → C → Bool × C) (c : C)
      → ((k : ℕ) (v : A) (d : C) → (func k v d).0 ≡ false)
      → btree_iterate t func c ≡ visit (entries t) func c
  unfolding btree_iterate visit entries
  btree_iterate-visit null func c h = refl
  btree_iterate-visit (node l k v r) func c h =
      rw
        (
          h k v (btree_iterate l func c),
          btree_iterate-visit l func c h,
          visit-++ (entries l) ((k, v) ∷ entries r) func c,
        )
        (btree_iterate-visit r func _ h)
