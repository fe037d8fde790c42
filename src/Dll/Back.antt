-- ===== src/Dll/Back.antt =====
-- Values put behind a list of src/dll.c and taken from there, against a list of values.
use mihini.Prelude.{
  ℕ, suc, ◌+◌, ◌<◌, ◌==◌, ◌≡◌, refl, sym, ap, ◌∙◌, arith, false, update, some, List, [], ◌∷◌, ◌++◌,
  length, u32,
}
use mihini.Dll.{DllNode, Dll, set_next, set_prev, dll_node_new, add_only, dll_push}
use mihini.Dll.Chain.{
  head_or, last_or, IsChain, Avoids, AreDistinct, IsChain-update, IsChain-++, IsChain-join,
  last_or-++, IsSnoc, empty, snoc, to_snoc, Avoids-++, Avoids-join,
}
use mihini.Dll.Shape.{
  AreGiven, IsList, given-Avoids, self, positive, apart, before, count_next, Becomes, only_Becomes,
}

push_run :
    (list : Dll) (value b : ℕ) (n : DllNode)
    → (list.first == 0) ≡ false
    → list.last ≡ b
    → 0 < b
    → b < list.fresh
    → list.nodes b ≡ some n
    → dll_push list value
      ≡ some (record list {
        last = list.fresh;
        count = u32 (list.count + 1);
        nodes =
            update
              (update
                (update list.nodes list.fresh (some (record { next = 0; prev = 0; value = value })))
                list.fresh
                (some (record { next = 0; prev = b; value = value })))
              b
              (some (record n { next = list.fresh }));
        fresh = list.fresh + 1;
      })
unfolding dll_push set_next set_prev dll_node_new
push_run list value b n h k pos below at_b =
    rw
      (
        h,
        k,
        positive b pos,
        positive list.fresh (omega arith),
        self list.fresh,
        apart list.fresh b below,
        at_b,
      )
      refl

pub length-snoc : (xs : List (ℕ × ℕ)) (e : ℕ × ℕ) → length (xs ++ e ∷ []) ≡ suc (length xs)
length-snoc [] e = refl
length-snoc (x ∷ xs) e = ap suc (length-snoc xs e)

pub given_init :
    (fresh : ℕ) (xs : List (ℕ × ℕ)) (e : ℕ × ℕ)
    → AreGiven fresh (xs ++ e ∷ [])
    → AreGiven fresh xs × ((0 < e.0) × (e.0 < fresh))
given_init fresh [] e (g, gs) = (tt, g)
given_init fresh (x ∷ xs) e (g, gs) = let (a, b) = given_init fresh xs e gs in ((g, a), b)

given_snoc :
    (fresh : ℕ) (xs : List (ℕ × ℕ)) (value : ℕ)
    → 0 < fresh
    → AreGiven fresh xs
    → AreGiven (fresh + 1) (xs ++ (fresh, value) ∷ [])
given_snoc fresh [] value h g = ((h, omega arith), tt)
given_snoc fresh (x ∷ xs) value h (g, gs) =
    ((g.0, omega (arith, g.1)), given_snoc fresh xs value h gs)

pub distinct_init :
    (xs : List (ℕ × ℕ)) (e : ℕ × ℕ) → AreDistinct (xs ++ e ∷ []) → AreDistinct xs × Avoids (e.0) xs
distinct_init [] e d = (tt, tt)
distinct_init (x ∷ xs) e (d, ds) =
    let (a, b) = distinct_init xs e ds in
    let (c, f) = Avoids-++ (x.0) xs (e ∷ []) d in ((c, a), (turn (x.0) (e.0) (f.0), b))
  where
    turn : (a b : ℕ) → (a == b) ≡ false → (b == a) ≡ false
    turn a b h = ground arith

distinct_snoc :
    (fresh : ℕ) (xs : List (ℕ × ℕ)) (value : ℕ)
    → AreGiven fresh xs
    → AreDistinct xs
    → AreDistinct (xs ++ (fresh, value) ∷ [])
distinct_snoc fresh [] value g d = (tt, tt)
distinct_snoc fresh (x ∷ xs) value (g, gs) (d, ds) = (
  Avoids-join (x.0) xs ((fresh, value) ∷ []) d (before fresh (x.0) (g.1), tt),
  distinct_snoc fresh xs value gs ds,
)

pub head_positive :
    (fresh : ℕ) (xs : List (ℕ × ℕ)) (e : ℕ × ℕ)
    → AreGiven fresh (xs ++ e ∷ [])
    → (head_or 0 (xs ++ e ∷ []) == 0) ≡ false
head_positive fresh [] e (g, gs) = positive (e.0) (g.0)
head_positive fresh (x ∷ xs) e (g, gs) = positive (x.0) (g.0)

pub head_snoc :
    (xs : List (ℕ × ℕ)) (e : ℕ × ℕ) (ys : List (ℕ × ℕ))
    → head_or 0 (xs ++ e ∷ []) ≡ head_or 0 ((xs ++ e ∷ []) ++ ys)
head_snoc [] e ys = refl
head_snoc (x ∷ xs) e ys = refl

push_snoc :
    (list : Dll) (xs : List (ℕ × ℕ)) (b w value : ℕ)
    → IsList list (xs ++ (b, w) ∷ [])
    → Becomes (dll_push list value) ((xs ++ (b, w) ∷ []) ++ (list.fresh, value) ∷ [])
push_snoc list xs b w value h = (
  _,
  push_run list value b _ (rw h.first_is (head_positive list.fresh xs (b, w) h.given))
      (h.last_is ∙ last_or-++ 0 xs ((b, w) ∷ [])) (at_b.0) (at_b.1) (parts.1.0),
  record {
    first_is = h.first_is ∙ (head_snoc xs (b, w) ((list.fresh, value) ∷ []));
    last_is = sym (last_or-++ 0 (xs ++ (b, w) ∷ []) ((list.fresh, value) ∷ []));
    count_is =
        rw (length-snoc (xs ++ (b, w) ∷ []) (list.fresh, value)) (count_next list _ h.count_is);
    chain =
        IsChain-join _ 0 (xs ++ (b, w) ∷ []) ((list.fresh, value) ∷ []) 0
          (IsChain-join _ 0 xs ((b, w) ∷ []) list.fresh
            (IsChain-update _ 0 xs b b _ ((distinct_init xs (b, w) h.distinct).1) (
              IsChain-update _ 0 xs b list.fresh _ new_avoids
                (IsChain-update _ 0 xs b list.fresh _ new_avoids (parts.0))))
            (rw (self b) refl, tt))
          (
            rw (before list.fresh b (at_b.1), self list.fresh, last_or-++ 0 xs ((b, w) ∷ [])) refl,
            tt,
          );
    distinct = distinct_snoc list.fresh (xs ++ (b, w) ∷ []) value h.given h.distinct;
    given = given_snoc list.fresh (xs ++ (b, w) ∷ []) value h.fresh_given h.given;
    fresh_given = omega arith;
  },
)
  where
    at_b : (0 < b) × (b < list.fresh)
    at_b = (given_init list.fresh xs (b, w) h.given).1

    parts : IsChain list.nodes 0 xs b × IsChain list.nodes (last_or 0 xs) ((b, w) ∷ []) 0
    parts = IsChain-++ list.nodes 0 xs ((b, w) ∷ []) 0 h.chain

    new_avoids : Avoids list.fresh xs
    new_avoids = given-Avoids list.fresh xs ((given_init list.fresh xs (b, w) h.given).0)

push_IsList :
    (list : Dll) (es : List (ℕ × ℕ)) (value : ℕ)
    → IsSnoc es
    → IsList list es
    → Becomes (dll_push list value) (es ++ (list.fresh, value) ∷ [])
unfolding dll_push
push_IsList list _ value empty h =
    (add_only list value, rw h.first_is refl, only_Becomes list value h)
push_IsList list _ value (snoc xs b w) h = push_snoc list xs b w value h

-- On a list in the store, push is defined and puts a new node with the value behind all others.
pub dll_push-IsList :
    (list : Dll) (es : List (ℕ × ℕ)) (value : ℕ)
    → IsList list es
    → Becomes (dll_push list value) (es ++ (list.fresh, value) ∷ [])
dll_push-IsList list es value h = push_IsList list es value (to_snoc es) h
