-- ===== src/Dll/Walk.antt =====
-- The loops over a list of src/dll.c.
use mihini.Prelude.{
  ℕ, zero, suc, ◌<◌, ◌≡◌, refl, ap, ◌∙◌, arith, if◌then◌else◌, Bool, true, false, none, some, List,
  [], ◌∷◌, length, All,
}
use mihini.Dll.{Dll, free_node, iterate_loop, dll_iterate, free_loop, dll_free}
use mihini.Dll.Chain.{head_or, IsChain, IsChain-update, AreDistinct}
use mihini.Dll.Shape.{AreGiven, IsList, positive}

-- What the callback makes of its context over the values, up to where it asks to stop.
unfoldable pub visit {ℓ} : {C : Type ℓ} → List (ℕ × ℕ) → (ℕ → C → Bool × C) → C → C
visit [] func c = c
visit (e ∷ es) func c =
    let (stop, next) = func (e.1) c in let rest = visit es func next in if stop then next else rest

forward_loop {ℓ} :
    {C : Type ℓ} (fuel : ℕ) (list : Dll) (p : ℕ) (es : List (ℕ × ℕ)) (func : ℕ → C → Bool × C)
    (c : C)
    → length es < fuel
    → IsChain list.nodes p es 0
    → AreGiven list.fresh es
    → iterate_loop fuel list func true (head_or 0 es) c ≡ some (visit es func c)
unfolding iterate_loop visit
forward_loop zero list p es func c h chain g = absurd (omega arith)
forward_loop (suc fuel) list p [] func c h chain g = refl
forward_loop (suc fuel) list p (e ∷ es) func c h (at_e, chain) (g, gs) =
    rw (positive (e.0) (g.0), at_e, forward_loop fuel list (e.0) es func _ (omega arith) chain gs)
      (pushed_in ((func (e.1) c).0))
  where
    pushed_in :
        (b : Bool)
        → (if b then some (func (e.1) c).1 else some (visit es func ((func (e.1) c).1)))
          ≡ some (if b then (func (e.1) c).1 else visit es func ((func (e.1) c).1))
    pushed_in true = refl
    pushed_in false = refl

-- A forward iteration with more fuel than values visits the values in order, up to the first at which
-- the callback asks to stop.
pub dll_iterate-visit {ℓ} :
    {C : Type ℓ} (fuel : ℕ) (list : Dll) (es : List (ℕ × ℕ)) (func : ℕ → C → Bool × C) (c : C)
    → IsList list es
    → length es < fuel
    → dll_iterate fuel list func c true ≡ some (visit es func c)
unfolding dll_iterate
dll_iterate-visit fuel list es func c h k =
    ap (λ a. iterate_loop fuel list func true a c) h.first_is
    ∙ forward_loop fuel list 0 es func c k h.chain h.given

-- A backward iteration starts at the first value too: it visits that value and no other.
pub dll_iterate-backward {ℓ} :
    {C : Type ℓ} (fuel : ℕ) (list : Dll) (a v : ℕ) (es : List (ℕ × ℕ)) (func : ℕ → C → Bool × C)
    (c : C)
    → IsList list ((a, v) ∷ es)
    → 1 < fuel
    → dll_iterate fuel list func c false ≡ some ((func v c).1)
unfolding dll_iterate iterate_loop
dll_iterate-backward zero list a v es func c h k = absurd (omega arith)
dll_iterate-backward (suc zero) list a v es func c h k = absurd (omega arith)
dll_iterate-backward (suc (suc fuel)) list a v es func c h k =
    rw (h.first_is, positive a (h.given.0.0), h.chain.0) (either ((func v c).0))
  where
    either :
        (b : Bool) → (if b then some ((func v c).1) else some ((func v c).1)) ≡ some ((func v c).1)
    either true = refl
    either false = refl

unfoldable pub freed : Dll → List (ℕ × ℕ) → Dll
freed list [] = list
freed list (e ∷ es) = freed (free_node list (e.0)) es

free_loop_lem :
    (fuel : ℕ) (list : Dll) (p : ℕ) (es : List (ℕ × ℕ))
    → length es < fuel
    → IsChain list.nodes p es 0
    → AreGiven list.fresh es
    → AreDistinct es
    → free_loop fuel list (head_or 0 es) ≡ some (freed list es)
unfolding free_loop freed
free_loop_lem zero list p es h chain g d = absurd (omega arith)
free_loop_lem (suc fuel) list p [] h chain g d = refl
free_loop_lem (suc fuel) list p (e ∷ es) h (at_e, chain) (g, gs) (d, ds) =
    rw (positive (e.0) (g.0), at_e)
      (free_loop_lem fuel (free_node list (e.0)) (e.0) es (omega arith)
        (IsChain-update list.nodes (e.0) es 0 (e.0) none d chain) gs ds)

freed-none :
    (list : Dll) (es : List (ℕ × ℕ)) (a : ℕ) → list.nodes a ≡ none → (freed list es).nodes a ≡ none
unfolding freed
freed-none list [] a h = h
freed-none list (e ∷ es) a h = freed-none (free_node list (e.0)) es a (ground arith)

freed-All : (list : Dll) (es : List (ℕ × ℕ)) → All (λ e. (freed list es).nodes (e.0) ≡ none) es
unfolding freed
freed-All list [] = tt
freed-All list (e ∷ es) =
    (freed-none (free_node list (e.0)) es (e.0) (ground arith), freed-All (free_node list (e.0)) es)

-- Freeing a list ends with more fuel than values, touches no freed node, and frees every node.
pub dll_free-All :
    (fuel : ℕ) (list : Dll) (es : List (ℕ × ℕ))
    → IsList list es
    → length es < fuel
    → (list' : Dll) × (dll_free fuel list ≡ some list')
      × (list'.first ≡ 0)
      × (list'.last ≡ 0)
      × All (λ e. list'.nodes (e.0) ≡ none) es
unfolding dll_free
dll_free-All fuel list es h k =
    (record (freed list es) { first = 0; last = 0 }, rw walk refl, refl, refl, freed-All list es)
  where
    walk : free_loop fuel list list.first ≡ some (freed list es)
    walk =
        ap (free_loop fuel list) h.first_is
        ∙ free_loop_lem fuel list 0 es k h.chain h.given h.distinct
