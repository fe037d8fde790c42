-- ===== src/Dll/Shape.antt =====
-- What it means that a list of src/dll.c has certain entries.
use mihini.Prelude.{
  ℕ, suc, ◌+◌, ◌-◌, ◌^◌, ◌<◌, ◌==◌, ◌≡◌, refl, arith, true, false, Option, some, List, [], ◌∷◌,
  length, u32,
}
use mihini.Dll.{Dll, dll_node_new, add_only}
use mihini.Dll.Chain.{head_or, last_or, IsChain, Avoids, AreDistinct}

-- Every address is one that was given: neither NULL nor still to come.
abbrev pub AreGiven : ℕ → List (ℕ × ℕ) → Type 0
AreGiven fresh [] = Unit
AreGiven fresh (e ∷ es) = ((0 < e.0) × (e.0 < fresh)) × AreGiven fresh es

-- The list in the store has these entries, address and value, from first to last.
pub record IsList (list : Dll) (es : List (ℕ × ℕ)) : Type 0 where
  pub first_is : list.first ≡ head_or 0 es
  pub last_is : list.last ≡ last_or 0 es
  pub count_is : list.count ≡ u32 (length es)
  pub chain : IsChain list.nodes 0 es 0
  pub distinct : AreDistinct es
  pub given : AreGiven list.fresh es
  pub fresh_given : 0 < list.fresh

pub given-Avoids : (fresh : ℕ) (es : List (ℕ × ℕ)) → AreGiven fresh es → Avoids fresh es
given-Avoids fresh [] g = tt
given-Avoids fresh (e ∷ es) (g, gs) = (ground arith, given-Avoids fresh es gs)

pub given_later : (fresh : ℕ) (es : List (ℕ × ℕ)) → AreGiven fresh es → AreGiven (fresh + 1) es
given_later fresh [] g = tt
given_later fresh (e ∷ es) (g, gs) = ((g.0, omega (arith, g.1)), given_later fresh es gs)

pub self : (a : ℕ) → (a == a) ≡ true
self a = ground arith

pub positive : (a : ℕ) → 0 < a → (a == 0) ≡ false
positive a h = ground arith

pub apart : (a b : ℕ) → b < a → (a == b) ≡ false
apart a b h = ground arith

pub before : (a b : ℕ) → b < a → (b == a) ≡ false
before a b h = ground arith

pub count_next : (list : Dll) (n : ℕ) → list.count ≡ u32 n → u32 (list.count + 1) ≡ u32 (suc n)
count_next list n h = omega arith

pub count_prev :
    (list : Dll) (n : ℕ) → list.count ≡ u32 (suc n) → u32 (list.count + 2 ^ 32 - 1) ≡ u32 n
count_prev list n h = omega arith

-- The result of an operation: it does not touch NULL or a freed node, and its list has the entries.
abbrev pub Becomes : Option Dll → List (ℕ × ℕ) → Type 0
Becomes result es = (list' : Dll) × (result ≡ some list') × IsList list' es

pub only_Becomes :
    (list : Dll) (value : ℕ)
    → IsList list []
    → IsList (add_only list value) ((list.fresh, value) ∷ [])
unfolding add_only dll_node_new
only_Becomes list value h = record {
  first_is = refl;
  last_is = refl;
  count_is = count_next list 0 h.count_is;
  chain = (rw (self list.fresh) refl, tt);
  distinct = (tt, tt);
  given = ((h.fresh_given, omega arith), tt);
  fresh_given = omega arith;
}

-- What an operation that takes a value away gives.
abbrev pub Yields : Option (Option ℕ × Dll) → Option ℕ → List (ℕ × ℕ) → Type 0
Yields result value es = (list' : Dll) × (result ≡ some (value, list')) × IsList list' es
