-- ===== src/Stree/Lookup.antt =====
-- What a search in the tree of src/stree.c finds after a `stree_set`.
use mihini.Prelude.{ℕ, ltb, some, ◌<◌, ◌==◌, ◌≡◌, if◌then◌else◌, true, List, [], ◌∷◌}
use mihini.Stree.{
  StreeNode, null, node, Content, no_content, with_content, Malloc, is_null, stree_find, content_of,
  stree_get,
}

-- What the steps of `stree_set` give where they are defined
abbrev set_content : List ℕ → ℕ → Content → Content
set_content str value x = record x { key = some str; value = value }

tree_add : StreeNode → ℕ → (Content → Content) → StreeNode
tree_add null c change = with_content null null c (change no_content)
tree_add (node l r f d k v) c change =
    if d == c
    then with_content l r d (change (record { forward = f; key = k; value = v }))
    else if ltb c d
    then node (tree_add l c change) r f d k v
    else node l (tree_add r c change) f d k v

tree_new : List ℕ → ℕ → List ℕ → StreeNode
tree_new str value [] = null
tree_new str value (c ∷ []) = with_content null null c (set_content str value no_content)
tree_new str value (c ∷ d ∷ cs) =
    with_content null null c (record no_content { forward = tree_new str value (d ∷ cs) })

tree_set : List ℕ → ℕ → List ℕ → StreeNode → StreeNode
tree_set str value [] t = t
tree_set str value (c ∷ []) t = tree_add t c (set_content str value)
tree_set str value (c ∷ d ∷ cs) t = tree_add t c λ x. record x {
  forward =
      if is_null x.forward
      then tree_new str value (d ∷ cs)
      else tree_set str value (d ∷ cs) x.forward;
}

-- The value that the tree has for a string, 0 for none
abbrev pub value_at : StreeNode → List ℕ → ℕ
value_at t str = (content_of (stree_get t str)).value

-- The content of a node after a change of the node of `c`, seen from the character `b`
abbrev changed : StreeNode → ℕ → (Content → Content) → ℕ → Content
changed t c change b =
    if c == b then change (content_of (stree_find t c)) else content_of (stree_find t b)

-- What `tree_set` does to a node that is not the last of the string.
abbrev link_below : List ℕ → ℕ → ℕ → List ℕ → Content → Content
link_below str value d cs x = record x {
  forward =
      if is_null x.forward
      then tree_new str value (d ∷ cs)
      else tree_set str value (d ∷ cs) x.forward;
}

-- The memory holds zeroes, and there is room for the byte behind the copy of a string.
pub record IsGenerous (malloc : Malloc) : Type 0 where
  pub zeroes : malloc.zeroed ≡ true
  pub room : (n : ℕ) → n < malloc.usable n
