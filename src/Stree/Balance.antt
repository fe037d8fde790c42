-- ===== src/Stree/Balance.antt =====
-- `stree_balance` of src/stree.c, whatever the addresses of the keys: it ends, and it loses no node.
use mihini.Prelude.{
  ℕ, zero, suc, ◌+◌, ◌-◌, ◌/◌, ◌<◌, ◌≤◌, ◌≡◌, inl, inr, refl, ◌∙◌, arith, ltb, Bool, Bool-cases,
  true, false, if◌then◌else◌, Option, some, List,
}
use mihini.Stree.{
  StreeNode, null, node, edge, stree_count, stree_insert, raise_right, raise_left, shuffle,
  balance_root, balance_links, stree_balance,
}

-- A test of a node's character, key and value
abbrev pub NodeTest : Type 0
NodeTest = ℕ → Option (List ℕ) → ℕ → Bool

-- How many nodes of a tree, those behind the forward links included, pass a test
unfoldable pub count_nodes : NodeTest → StreeNode → ℕ
count_nodes test null = 0
count_nodes test (node l r f c k v) =
    count_nodes test l + count_nodes test r + count_nodes test f + (if test c k v then 1 else 0)

abbrev pub every_node : NodeTest
every_node c k v = true

half : (a b : ℕ) → 0 < a → (a - 1 - (b - 1)) / 2 < a
half a b h = omega arith

-- A tree with the same nodes
pub record Kept (t : StreeNode) (result : Option StreeNode) : Type 0 where
  pub tree : StreeNode
  pub returned : result ≡ some tree
  pub same : (test : NodeTest) → count_nodes test tree ≡ count_nodes test t

-- What a round gives: the edge on its side is at most one shorter.
pub record Raised (left : Bool) (t : StreeNode) (result : Option StreeNode) : Type 0 where
  pub kept : Kept t result
  pub shorter : edge left t ≤ suc (edge left kept.tree)

edge_positive :
    (left : Bool) (l r f : StreeNode) (c : ℕ) (k : Option (List ℕ)) (v : ℕ)
    → 0 < edge left (node l r f c k v)
unfolding edge
edge_positive left l r f c k v = omega arith

node_positive :
    (l r f : StreeNode) (c : ℕ) (k : Option (List ℕ)) (v : ℕ)
    → 0 < count_nodes every_node (node l r f c k v)
unfolding count_nodes
node_positive l r f c k v = omega arith

module _ (before : Option (List ℕ) → Option (List ℕ) → Bool) where
  count_nodes-stree_insert :
      (test : NodeTest) (t : StreeNode) (key : Option (List ℕ)) (new : StreeNode)
      → count_nodes test (stree_insert before t key new) ≡ count_nodes test t + count_nodes test new
  unfolding stree_insert count_nodes
  count_nodes-stree_insert test null key new = omega arith
  count_nodes-stree_insert test (node l r f c k v) key new = elim (Bool-cases (before key k)) [
    | inl h ↦ rw h (omega (arith, count_nodes-stree_insert test l key new))
    | inr h ↦ rw h (omega (arith, count_nodes-stree_insert test r key new))
  ]

  edge-stree_insert :
      (left : Bool) (t : StreeNode) (key : Option (List ℕ)) (new : StreeNode)
      → edge left t ≤ edge left (stree_insert before t key new)
  unfolding stree_insert edge
  edge-stree_insert left null key new = omega arith
  edge-stree_insert true (node l r f c k v) key new = elim (Bool-cases (before key k)) [
    | inl h ↦ rw h (omega (arith, edge-stree_insert true l key new))
    | inr h ↦ rw h (omega arith)
  ]
  edge-stree_insert false (node l r f c k v) key new = elim (Bool-cases (before key k)) [
    | inl h ↦ rw h (omega arith)
    | inr h ↦ rw h (omega (arith, edge-stree_insert false r key new))
  ]

  right_Raised : (t : StreeNode) → 1 < edge false t → Raised false t (raise_right before t)
  unfolding raise_right edge count_nodes
  right_Raised null h = absurd (omega arith)
  right_Raised (node l null f c k v) h = absurd (omega arith)
  right_Raised (node l (node rl rr rf rc rk rv) f c k v) h =
      let child = node rl rr rf rc rk rv in
      let root = node l null f c k v in
      record {
        kept = record {
          tree = stree_insert before child k root;
          returned = refl;
          same = λ test. omega (arith, count_nodes-stree_insert test child k root);
        };
        shorter = omega (arith, edge-stree_insert false child k root);
      }

  left_Raised : (t : StreeNode) → 1 < edge true t → Raised true t (raise_left before t)
  unfolding raise_left edge count_nodes
  left_Raised null h = absurd (omega arith)
  left_Raised (node null r f c k v) h = absurd (omega arith)
  left_Raised (node (node ll lr lf lc lk lv) r f c k v) h =
      let child = node ll lr lf lc lk lv in
      let root = node null r f c k v in
      record {
        kept = record {
          tree = stree_insert before child k root;
          returned = refl;
          same = λ test. omega (arith, count_nodes-stree_insert test child k root);
        };
        shorter = omega (arith, edge-stree_insert true child k root);
      }

  shuffle-Kept :
      (left : Bool) (raise : StreeNode → Option StreeNode)
      → ((t : StreeNode) → 1 < edge left t → Raised left t (raise t))
      → (m : ℕ) (t : StreeNode) → m < edge left t
      → Kept t (shuffle before raise m t)
  unfolding shuffle
  shuffle-Kept left raise step zero t h = record { tree = t; returned = refl; same = λ test. refl }
  shuffle-Kept left raise step (suc m) t h =
      let once = step t (omega arith) in
      let shorter = once.shorter in
      let rest = shuffle-Kept left raise step m once.kept.tree (omega arith) in
      record {
        tree = rest.tree;
        returned = rw once.kept.returned rest.returned;
        same = λ test. rest.same test ∙ once.kept.same test;
      }

  root_Kept :
      (l r f : StreeNode) (c : ℕ) (k : Option (List ℕ)) (v : ℕ)
      → Kept (node l r f c k v) (balance_root before (node l r f c k v))
  unfolding balance_root stree_count
  root_Kept l r f c k v = elim (Bool-cases (ltb (left - 1) (right - 1))) [
    | inl h ↦ rw h (
        shuffle-Kept false (raise_right before) right_Raised ((right - 1 - (left - 1)) / 2) t
          (half right left (edge_positive false l r f c k v)))
    | inr h ↦ rw h (
        shuffle-Kept true (raise_left before) left_Raised ((left - 1 - (right - 1)) / 2) t
          (half left right (edge_positive true l r f c k v)))
  ]
    where
      t : StreeNode
      t = node l r f c k v

      left : ℕ
      left = edge true t

      right : ℕ
      right = edge false t

  links_Kept :
      (balance : StreeNode → Option StreeNode) (fuel : ℕ)
      → ((t : StreeNode) → count_nodes every_node t ≤ fuel → Kept t (balance t))
      → (t : StreeNode) → 0 < count_nodes every_node t
      → count_nodes every_node t ≤ suc fuel
      → Kept t (balance_links before balance t)
  unfolding balance_links count_nodes
  links_Kept balance fuel ih null pos h = absurd (omega arith)
  links_Kept balance fuel ih (node l r f c k v) pos h =
      let left = ih l (omega arith) in
      let right = ih r (omega arith) in
      let forward = ih f (omega arith) in
      record {
        tree = node left.tree right.tree forward.tree c k v;
        returned = rw (left.returned, right.returned, forward.returned) refl;
        same = λ test. rw (left.same test, right.same test, forward.same test) refl;
      }

  balance_Kept :
      (fuel : ℕ) (t : StreeNode)
      → count_nodes every_node t ≤ fuel
      → Kept t (stree_balance before fuel t)
  unfolding stree_balance
  balance_Kept fuel null h = record { tree = null; returned = refl; same = λ test. refl }
  balance_Kept zero (node l r f c k v) h = absurd (omega (arith, node_positive l r f c k v))
  balance_Kept (suc fuel) (node l r f c k v) h =
      let root = root_Kept l r f c k v in
      let size = root.same every_node in
      let rest =
        links_Kept (stree_balance before fuel) fuel (balance_Kept fuel) root.tree
          (omega (arith, node_positive l r f c k v)) (omega arith) in
      record {
        tree = rest.tree;
        returned = rw root.returned rest.returned;
        same = λ test. rest.same test ∙ root.same test;
      }

-- With as much fuel as there are nodes, balancing succeeds whatever the addresses of the keys are: no
-- access through NULL, and of each kind of node the tree has as many as before.
pub stree_balance-count_nodes :
    (before : Option (List ℕ) → Option (List ℕ) → Bool) (fuel : ℕ) (t : StreeNode)
    → count_nodes every_node t ≤ fuel
    → (t' : StreeNode) × (stree_balance before fuel t ≡ some t')
      × ((test : NodeTest) → count_nodes test t' ≡ count_nodes test t)
stree_balance-count_nodes before fuel t h =
    let kept = balance_Kept before fuel t h in (kept.tree, kept.returned, kept.same)
