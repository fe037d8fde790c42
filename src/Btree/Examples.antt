-- ===== src/Btree/Examples.antt =====
-- Trees of src/btree.c, built and balanced, and the laws applied to them.
use mihini.Prelude.{ℕ, ◌+◌, ◌<◌, ◌≤◌, ◌≡◌, refl, false, Bool, arith, Option, none, some}
use mihini.Prelude.Options.{or_else}
use mihini.Btree.{
  BtreeNode, null, node, btree_new, btree_insert, btree_add, btree_get, btree_iterate, edge,
  btree_count, raise_right, raise_left, shuffle, balance_root, balance_children, btree_balance,
}
use mihini.Btree.Entries.{entries, IsSorted, lookup, ordered_insert}
use mihini.Btree.Order.{
  value_of, btree_add-entries, btree_get-btree_add, btree_get-lookup, visit, btree_iterate-visit,
}
use mihini.Btree.Balance.{btree_balance-entries}

-- The keys 1, 2 and 3, each below the one before
abbrev chain : BtreeNode ℕ
chain = node null 1 10 (node null 2 20 (node null 3 30 null))

chain_added : btree_add (btree_add (btree_add null 1 10) 2 20) 3 30 ≡ chain
unfolding btree_add btree_insert btree_new
chain_added = refl

chain-IsSorted : IsSorted ◌<◌ (entries chain)
unfolding entries
chain-IsSorted = ((omega arith, (omega arith, tt)), ((omega arith, tt), (tt, tt)))

chain_weakly-IsSorted : IsSorted ◌≤◌ (entries chain)
unfolding entries
chain_weakly-IsSorted = ((omega arith, (omega arith, tt)), ((omega arith, tt), (tt, tt)))

chain_balanced :
    btree_balance 3 chain ≡ some (node (node null 1 10 null) 2 20 (node null 3 30 null))
unfolding btree_balance balance_root balance_children shuffle raise_right raise_left edge
    btree_count btree_insert
chain_balanced = refl

-- Equal keys: the search for 3 finds its entry before balancing and nothing after it.
abbrev twins : BtreeNode ℕ
twins = node (node null 3 30 null) 5 50 (node null 5 51 (node null 5 52 (node null 5 53 null)))

abbrev get_after : Option (BtreeNode ℕ) → ℕ → Option ℕ
get_after none key = none
get_after (some t) key = value_of (btree_get t key)

twins_before : value_of (btree_get twins 3) ≡ some 30
unfolding btree_get
twins_before = refl

twins_after : get_after (btree_balance 5 twins) 3 ≡ none
unfolding btree_get btree_balance balance_root balance_children shuffle raise_right raise_left edge
    btree_count btree_insert
twins_after = refl

btree_balance-entries_example :
    (t' : BtreeNode ℕ) × (btree_balance 3 chain ≡ some t')
    × (entries t' ≡ entries chain)
    × ((key : ℕ) → value_of (btree_get t' key) ≡ value_of (btree_get chain key))
unfolding entries
btree_balance-entries_example = btree_balance-entries 3 chain (omega arith) chain-IsSorted

btree_add-entries_example :
    (entries (btree_add chain 2 21) ≡ ordered_insert 2 21 (entries chain))
    × IsSorted ◌≤◌ (entries (btree_add chain 2 21))
btree_add-entries_example = btree_add-entries chain 2 21 chain_weakly-IsSorted

btree_get-btree_add_example :
    value_of (btree_get (btree_add chain 2 21) 2) ≡ or_else (value_of (btree_get chain 2)) (some 21)
btree_get-btree_add_example = btree_get-btree_add chain 2 2 21

btree_get-lookup_example : value_of (btree_get chain 2) ≡ lookup 2 (entries chain)
btree_get-lookup_example = btree_get-lookup chain 2 chain-IsSorted

abbrev total : ℕ → ℕ → ℕ → Bool × ℕ
total k v c = (false, c + v)

btree_iterate-visit_example : btree_iterate chain total 0 ≡ visit (entries chain) total 0
btree_iterate-visit_example = btree_iterate-visit chain total 0 (λ k v d. refl)
