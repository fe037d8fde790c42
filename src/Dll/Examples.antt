-- ===== src/Dll/Examples.antt =====
-- A list of src/dll.c with two values, and the laws applied to it.
use mihini.Prelude.{
  ℕ, ◌+◌, ◌==◌, ◌≡◌, refl, arith, Bool, true, false, none, some, List, [], ◌∷◌, ◌++◌, All,
  if◌then◌else◌,
}
use mihini.Dll.{Dll, dll_new, dll_push, dll_unshift, dll_pop, dll_shift, dll_iterate, dll_free}
use mihini.Dll.Shape.{IsList, Becomes, Yields}
use mihini.Dll.Front.{dll_unshift-IsList, dll_shift-IsList}
use mihini.Dll.Back.{dll_push-IsList}
use mihini.Dll.Pop.{dll_pop-IsList}
use mihini.Dll.Walk.{visit, dll_iterate-visit, dll_iterate-backward, dll_free-All}

-- The values 10 and 20, at the addresses 1 and 2
abbrev two : Dll
two = record {
  first = 1;
  last = 2;
  count = 2;
  nodes = λ a.
      if a == 1
      then some (record { next = 2; prev = 0; value = 10 })
      else if a == 2
      then some (record { next = 0; prev = 1; value = 20 })
      else none;
  fresh = 3;
}

abbrev two_entries : List (ℕ × ℕ)
two_entries = (1, 10) ∷ (2, 20) ∷ []

two-IsList : IsList two two_entries
two-IsList = record {
  first_is = refl;
  last_is = refl;
  count_is = refl;
  chain = (refl, (refl, tt));
  distinct = ((refl, tt), (tt, tt));
  given = ((omega arith, omega arith), ((omega arith, omega arith), tt));
  fresh_given = omega arith;
}

new-IsList : IsList dll_new []
unfolding dll_new
new-IsList = record {
  first_is = refl;
  last_is = refl;
  count_is = refl;
  chain = tt;
  distinct = tt;
  given = tt;
  fresh_given = omega arith;
}

dll_push-IsList_example : Becomes (dll_push two 30) (two_entries ++ (3, 30) ∷ [])
dll_push-IsList_example = dll_push-IsList two two_entries 30 two-IsList

dll_unshift-IsList_example : Becomes (dll_unshift two 30) ((3, 30) ∷ two_entries)
dll_unshift-IsList_example = dll_unshift-IsList two two_entries 30 two-IsList

dll_pop-IsList_example : Yields (dll_pop two) (some 20) ((1, 10) ∷ [])
dll_pop-IsList_example = dll_pop-IsList two ((1, 10) ∷ []) 2 20 two-IsList

dll_shift-IsList_example : Yields (dll_shift two) (some 10) ((2, 20) ∷ [])
dll_shift-IsList_example = dll_shift-IsList two 1 10 ((2, 20) ∷ []) two-IsList

abbrev total : ℕ → ℕ → Bool × ℕ
total v c = (false, c + v)

dll_iterate-visit_example : dll_iterate 5 two total 0 true ≡ some (visit two_entries total 0)
dll_iterate-visit_example = dll_iterate-visit 5 two two_entries total 0 two-IsList (omega arith)

dll_iterate-backward_example : dll_iterate 5 two total 0 false ≡ some 10
dll_iterate-backward_example =
    dll_iterate-backward 5 two 1 10 ((2, 20) ∷ []) total 0 two-IsList (omega arith)

dll_free-All_example :
    (list' : Dll) × (dll_free 5 two ≡ some list')
    × (list'.first ≡ 0)
    × (list'.last ≡ 0)
    × All (λ e. list'.nodes (e.0) ≡ none) two_entries
dll_free-All_example = dll_free-All 5 two two_entries two-IsList (omega arith)
