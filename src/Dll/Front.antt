-- ===== src/Dll/Front.antt =====
-- Values put in front of a list of src/dll.c and taken from there, against a list of values.
use mihini.Prelude.{
  ℕ, suc, ◌+◌, ◌-◌, ◌^◌, ◌<◌, ◌==◌, ◌≡◌, refl, arith, false, update, Option, none, some, List, [],
  ◌∷◌, length, u32,
}
use mihini.Dll.{DllNode, Dll, set_next, set_prev, dll_node_new, add_only, dll_unshift, dll_shift}
use mihini.Dll.Chain.{last_or, Avoids, IsChain-update}
use mihini.Dll.Shape.{
  IsList, given-Avoids, given_later, self, positive, apart, before, count_next, count_prev, Becomes,
  only_Becomes, Yields,
}

-- The store after a new node `f` is linked in front of the node `b`.
abbrev linked_before : (ℕ → Option DllNode) → ℕ → ℕ → ℕ → DllNode → ℕ → Option DllNode
linked_before nodes f value b n =
    update
      (update (update nodes f (some (record { next = 0; prev = 0; value = value }))) f
        (some (record { next = b; prev = 0; value = value })))
      b (some (record n { prev = f }))

unshift_run :
    (list : Dll) (value b : ℕ) (n : DllNode)
    → list.first ≡ b
    → 0 < b
    → b < list.fresh
    → list.nodes b ≡ some n
    → dll_unshift list value
      ≡ some (record list {
        first = list.fresh;
        count = u32 (list.count + 1);
        nodes = linked_before list.nodes list.fresh value b n;
        fresh = list.fresh + 1;
      })
unfolding dll_unshift set_next set_prev dll_node_new
unshift_run list value b n h pos below at_b =
    rw
      (
        h,
        positive b pos,
        positive list.fresh (omega arith),
        self list.fresh,
        apart list.fresh b below,
        at_b,
      )
      refl

-- On a list in the store, unshift is defined and puts a new node with the value in front; it touches
-- neither NULL nor a freed node.
pub dll_unshift-IsList :
    (list : Dll) (es : List (ℕ × ℕ)) (value : ℕ)
    → IsList list es
    → Becomes (dll_unshift list value) ((list.fresh, value) ∷ es)
unfolding dll_unshift
dll_unshift-IsList list [] value h =
    (add_only list value, rw h.first_is refl, only_Becomes list value h)
dll_unshift-IsList list ((b, w) ∷ es) value h = (
  _,
  unshift_run list value b _ h.first_is (h.given.0.0) (h.given.0.1) (h.chain.0),
  record {
    first_is = refl;
    last_is = h.last_is;
    count_is = count_next list (suc (length es)) h.count_is;
    chain = (
      rw (before list.fresh b (h.given.0.1), self list.fresh) refl,
      (
        rw (self b) refl,
        IsChain-update _ b es 0 b _ (h.distinct.0) (
            IsChain-update _ b es 0 list.fresh _ new_avoids
              (IsChain-update _ b es 0 list.fresh _ new_avoids (h.chain.1))),
      ),
    );
    distinct = (given-Avoids list.fresh ((b, w) ∷ es) h.given, h.distinct);
    given = ((h.fresh_given, omega arith), given_later list.fresh ((b, w) ∷ es) h.given);
    fresh_given = omega arith;
  },
)
  where
    new_avoids : Avoids list.fresh es
    new_avoids = given-Avoids list.fresh es (h.given.1)

shift_last_run :
    (list : Dll) (b v : ℕ)
    → list.first ≡ b
    → list.last ≡ b
    → 0 < b
    → list.nodes b ≡ some (record { next = 0; prev = 0; value = v })
    → dll_shift list
      ≡ some (
        some v,
        record list {
          first = 0;
          last = 0;
          count = u32 (list.count + 2 ^ 32 - 1);
          nodes = update list.nodes b none;
        },
      )
unfolding dll_shift set_prev
shift_last_run list b v h k pos at_b = rw (h, positive b pos, at_b, k, self b) refl

shift_run :
    (list : Dll) (b c : ℕ) (v : ℕ) (m : DllNode)
    → list.first ≡ b
    → (list.last == b) ≡ false
    → 0 < b
    → 0 < c
    → list.nodes b ≡ some (record { next = c; prev = 0; value = v })
    → list.nodes c ≡ some m
    → dll_shift list
      ≡ some (
        some v,
        record list {
          first = c;
          count = u32 (list.count + 2 ^ 32 - 1);
          nodes = update (update list.nodes c (some (record m { prev = 0 }))) b none;
        },
      )
unfolding dll_shift set_prev
shift_run list b c v m h k pos pos' at_b at_c =
    rw (h, positive b pos, at_b, positive c pos', at_c, k) refl

last_apart :
    (a c : ℕ) (es : List (ℕ × ℕ)) → (a == c) ≡ false → Avoids a es → (last_or c es == a) ≡ false
last_apart a c [] h k = ground arith
last_apart a c (e ∷ es) h (k, ks) = last_apart a (e.0) es k ks

-- On a list that is not empty, shift is defined, returns the first value and leaves the list without
-- its entry.
pub dll_shift-IsList :
    (list : Dll) (b v : ℕ) (es : List (ℕ × ℕ))
    → IsList list ((b, v) ∷ es)
    → Yields (dll_shift list) (some v) es
dll_shift-IsList list b v [] h = (
  _,
  shift_last_run list b v h.first_is h.last_is (h.given.0.0) (h.chain.0),
  record {
    first_is = refl;
    last_is = refl;
    count_is = count_prev list 0 h.count_is;
    chain = tt;
    distinct = tt;
    given = tt;
    fresh_given = h.fresh_given;
  },
)
dll_shift-IsList list b v ((c, w) ∷ es) h = (
  _,
  shift_run list b c v _ h.first_is
      (rw h.last_is (last_apart b c es (h.distinct.0.0) (h.distinct.0.1))) (h.given.0.0)
      (h.given.1.0.0) (h.chain.0) (h.chain.1.0),
  record {
    first_is = refl;
    last_is = h.last_is;
    count_is = count_prev list (suc (length es)) h.count_is;
    chain = (
      rw (h.distinct.0.0, self c) refl,
      IsChain-update _ c es 0 b _ (h.distinct.0.1)
          (IsChain-update _ c es 0 c _ (h.distinct.1.0) (h.chain.1.1)),
    );
    distinct = h.distinct.1;
    given = h.given.1;
    fresh_given = h.fresh_given;
  },
)
