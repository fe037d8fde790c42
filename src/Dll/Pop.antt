-- ===== src/Dll/Pop.antt =====
-- The last value of a list of src/dll.c, taken away.
use mihini.Prelude.{
  ℕ, ◌+◌, ◌-◌, ◌^◌, ◌<◌, ◌==◌, ◌≡◌, refl, sym, ◌∙◌, arith, false, update, none, some, List, [], ◌∷◌,
  ◌++◌, u32,
}
use mihini.Dll.{DllNode, Dll, set_next, dll_pop}
use mihini.Dll.Chain.{
  head_or, last_or, IsChain, Avoids, AreDistinct, IsChain-update, IsChain-++, IsChain-join,
  last_or-++, IsSnoc, empty, snoc, to_snoc, Avoids-++,
}
use mihini.Dll.Shape.{AreGiven, IsList, self, positive, count_prev, Yields}
use mihini.Dll.Back.{given_init, distinct_init, head_positive, head_snoc, length-snoc}

pop_last_run :
    (list : Dll) (b v : ℕ)
    → list.first ≡ b
    → list.last ≡ b
    → 0 < b
    → list.nodes b ≡ some (record { next = 0; prev = 0; value = v })
    → dll_pop list
      ≡ some (
        some v,
        record list {
          first = 0;
          last = 0;
          count = u32 (list.count + 2 ^ 32 - 1);
          nodes = update list.nodes b none;
        },
      )
unfolding dll_pop set_next
pop_last_run list b v h k pos at_b = rw (h, k, positive b pos, at_b, self b) refl

pop_run :
    (list : Dll) (b c v : ℕ) (m : DllNode)
    → (list.first == 0) ≡ false
    → (list.first == b) ≡ false
    → list.last ≡ b
    → 0 < b
    → 0 < c
    → list.nodes b ≡ some (record { next = 0; prev = c; value = v })
    → list.nodes c ≡ some m
    → dll_pop list
      ≡ some (
        some v,
        record list {
          last = c;
          count = u32 (list.count + 2 ^ 32 - 1);
          nodes = update (update list.nodes c (some (record m { next = 0 }))) b none;
        },
      )
unfolding dll_pop set_next
pop_run list b c v m h h' k pos pos' at_b at_c =
    rw (h, k, positive b pos, at_b, positive c pos', at_c, h') refl

head_apart :
    (b : ℕ) (xs : List (ℕ × ℕ)) (e : ℕ × ℕ)
    → Avoids b (xs ++ e ∷ [])
    → (head_or 0 (xs ++ e ∷ []) == b) ≡ false
head_apart b [] e (h, hs) = ground arith
head_apart b (x ∷ xs) e (h, hs) = ground arith

pop_snoc :
    (list : Dll) (xs : List (ℕ × ℕ)) (c w b v : ℕ)
    → IsList list ((xs ++ (c, w) ∷ []) ++ (b, v) ∷ [])
    → Yields (dll_pop list) (some v) (xs ++ (c, w) ∷ [])
pop_snoc list xs c w b v h = (
  _,
  pop_run list b c v _ (rw first_is (head_positive list.fresh xs (c, w) given))
      (rw first_is (head_apart b xs (c, w) apart_b))
      (h.last_is ∙ last_or-++ 0 (xs ++ (c, w) ∷ []) ((b, v) ∷ []))
      ((given_init list.fresh (xs ++ (c, w) ∷ []) (b, v) h.given).1.0)
      ((given_init list.fresh xs (c, w) given).1.0)
      (rw (last_or-++ 0 xs ((c, w) ∷ [])) at whole.1.0) (parts.1.0),
  record {
    first_is = first_is;
    last_is = sym (last_or-++ 0 xs ((c, w) ∷ []));
    count_is = count_prev list _ (rw (length-snoc (xs ++ (c, w) ∷ []) (b, v)) at h.count_is);
    chain =
        IsChain-join _ 0 xs ((c, w) ∷ []) 0
          (IsChain-update _ 0 xs c b _ (ends.0)
            (IsChain-update _ 0 xs c c _ ((distinct_init xs (c, w) distinct).1) (parts.0)))
          (rw (ends.1.0, self c) refl, tt);
    distinct = distinct;
    given = given;
    fresh_given = h.fresh_given;
  },
)
  where
    first_is : list.first ≡ head_or 0 (xs ++ (c, w) ∷ [])
    first_is = h.first_is ∙ sym (head_snoc xs (c, w) ((b, v) ∷ []))

    given : AreGiven list.fresh (xs ++ (c, w) ∷ [])
    given = (given_init list.fresh (xs ++ (c, w) ∷ []) (b, v) h.given).0

    distinct : AreDistinct (xs ++ (c, w) ∷ [])
    distinct = (distinct_init (xs ++ (c, w) ∷ []) (b, v) h.distinct).0

    apart_b : Avoids b (xs ++ (c, w) ∷ [])
    apart_b = (distinct_init (xs ++ (c, w) ∷ []) (b, v) h.distinct).1

    ends : Avoids b xs × Avoids b ((c, w) ∷ [])
    ends = Avoids-++ b xs ((c, w) ∷ []) apart_b

    whole :
        IsChain list.nodes 0 (xs ++ (c, w) ∷ []) b
        × IsChain list.nodes (last_or 0 (xs ++ (c, w) ∷ [])) ((b, v) ∷ []) 0
    whole = IsChain-++ list.nodes 0 (xs ++ (c, w) ∷ []) ((b, v) ∷ []) 0 h.chain

    parts : IsChain list.nodes 0 xs c × IsChain list.nodes (last_or 0 xs) ((c, w) ∷ []) b
    parts = IsChain-++ list.nodes 0 xs ((c, w) ∷ []) b (whole.0)

pop_IsList :
    (list : Dll) (es : List (ℕ × ℕ)) (b v : ℕ)
    → IsSnoc es
    → IsList list (es ++ (b, v) ∷ [])
    → Yields (dll_pop list) (some v) es
pop_IsList list _ b v empty h = (
  _,
  pop_last_run list b v h.first_is h.last_is (h.given.0.0) (h.chain.0),
  record {
    first_is = refl;
    last_is = refl;
    count_is = count_prev list 0 h.count_is;
    chain = tt;
    distinct = tt;
    given = tt;
    fresh_given = h.fresh_given;
  },
)
pop_IsList list _ b v (snoc xs c w) h = pop_snoc list xs c w b v h

-- On a list that is not empty, pop is defined, returns the last value and leaves the list without
-- its entry.
pub dll_pop-IsList :
    (list : Dll) (es : List (ℕ × ℕ)) (b v : ℕ)
    → IsList list (es ++ (b, v) ∷ [])
    → Yields (dll_pop list) (some v) es
dll_pop-IsList list es b v h = pop_IsList list es b v (to_snoc es) h
