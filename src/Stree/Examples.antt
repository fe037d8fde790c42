-- ===== src/Stree/Examples.antt =====
-- Two labels in a tree of src/stree.c.
use mihini.Prelude.Options.{◌>>=◌}
use mihini.Prelude.{◌+◌, true, none, ℕ, ◌≡◌, refl, false, arith, List, [], ◌∷◌, Bool, Option, some}
use mathlib.Core.Option
use mihini.Stree.{
  Malloc, null, add_loop, new_node, put_value, StreeNode, stree_new, stree_set, stree_get,
  stree_add, set_loop, new_nodes, stree_find, stree_balance, stree_insert, raise_right, raise_left,
  shuffle, balance_root, balance_links, edge, stree_count,
}
use mihini.Stree.Lookup.{value_at}
use mihini.Stree.Balance.{NodeTest, count_nodes, stree_balance-count_nodes}

-- "add" and "addi"
abbrev add : List ℕ
add = 97 ∷ 100 ∷ 100 ∷ []

abbrev addi : List ℕ
addi = 97 ∷ 100 ∷ 100 ∷ 105 ∷ []

-- A host that gives memory in pieces of eight bytes, with at least eight to spare
abbrev host : Malloc
host = record { zeroed = true; usable = λ n. n + 8 }

abbrev or_null : Option StreeNode → StreeNode
or_null none = null
or_null (some t) = t

both : StreeNode
both =
    or_null
      (do root ← stree_new host 45; one ← stree_set host root add 36; stree_set host one addi 32)

shorter_found : value_at both add ≡ 36
unfolding both stree_set set_loop stree_add add_loop new_nodes new_node put_value stree_new
    stree_get stree_find
shorter_found = refl

longer_found : value_at both addi ≡ 32
unfolding both stree_set set_loop stree_add add_loop new_nodes new_node put_value stree_new
    stree_get stree_find
longer_found = refl

-- Without zeroes in the memory, or without room behind the key, the code relies on what it does not
-- have.
undefined_without_zeroes : stree_new (record host { zeroed = false }) 45 ≡ none
unfolding stree_new new_node
undefined_without_zeroes = refl

undefined_without_room : stree_set (record host { usable = λ n. n }) both add 1 ≡ none
unfolding both stree_set set_loop stree_add add_loop new_nodes new_node put_value stree_new
undefined_without_room = refl

-- The labels "a", "b" and "c", each below the one before
letters : StreeNode
letters = or_null (do
  root ← stree_new host 97
  one ← stree_set host root (97 ∷ []) 1
  two ← stree_set host one (98 ∷ []) 2
  stree_set host two (99 ∷ []) 3)

-- No key lies before another one: each is put to the right.
abbrev never : Option (List ℕ) → Option (List ℕ) → Bool
never a b = false

first_found : value_at letters (97 ∷ []) ≡ 1
unfolding letters stree_set set_loop stree_add add_loop new_nodes new_node put_value stree_new
    stree_get stree_find
first_found = refl

-- Once the tree is balanced, "a" lies to the right of "c", where no search for it goes.
first_lost : Option.map (λ t. value_at t (97 ∷ [])) (stree_balance never 3 letters) ≡ some 0
unfolding letters stree_set set_loop stree_add add_loop new_nodes new_node put_value stree_new
    stree_get stree_find stree_balance stree_insert raise_right raise_left shuffle balance_root
    balance_links edge stree_count
first_lost = refl

stree_balance-count_nodes_example :
    (t' : StreeNode) × (stree_balance never 3 letters ≡ some t')
    × ((test : NodeTest) → count_nodes test t' ≡ count_nodes test letters)
unfolding letters stree_set set_loop stree_add add_loop new_nodes new_node put_value stree_new
    count_nodes
stree_balance-count_nodes_example = stree_balance-count_nodes never 3 letters (omega arith)
