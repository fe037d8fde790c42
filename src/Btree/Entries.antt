-- ===== src/Btree/Entries.antt =====
-- The abstract view of a tree of src/btree.c: its entries, in the order of a traversal.
use mihini.Prelude.{
  ℕ, ◌≤◌, ◌==◌, ◌≡◌, inl, inr, refl, ap, arith, ltb, if◌then◌else◌, Bool-cases, true, false, Option,
  none, some, List, [], ◌∷◌, ◌++◌,
}
use mihini.Prelude.Options.{or_else}
use mihini.Btree.{BtreeNode, null, node}

module _ {ℓ} {A : Type ℓ} where
  unfoldable pub entries : BtreeNode A → List (ℕ × A)
  entries null = []
  entries (node l k v r) = entries l ++ (k, v) ∷ entries r

  -- Each key of the list is related to `k`.
  abbrev pub AllKeys : (ℕ → Type 0) → List (ℕ × A) → Type 0
  AllKeys P [] = Unit
  AllKeys P (e ∷ es) = P (e.0) × AllKeys P es

  -- Each key is related to all that come later.
  abbrev pub IsSorted : (ℕ → ℕ → Type 0) → List (ℕ × A) → Type 0
  IsSorted R [] = Unit
  IsSorted R (e ∷ es) = AllKeys (R (e.0)) es × IsSorted R es

  -- The first entry with the key
  unfoldable pub lookup : ℕ → List (ℕ × A) → Option A
  lookup key [] = none
  lookup key (e ∷ es) = if key == e.0 then some (e.1) else lookup key es

  -- An entry goes before the first that has a greater key.
  unfoldable pub ordered_insert : ℕ → A → List (ℕ × A) → List (ℕ × A)
  ordered_insert key value [] = (key, value) ∷ []
  ordered_insert key value (e ∷ es) =
      if ltb key (e.0) then (key, value) ∷ e ∷ es else e ∷ ordered_insert key value es

  pub AllKeys-imp :
      {P Q : ℕ → Type 0} → ((k : ℕ) → P k → Q k) → (es : List (ℕ × A)) → AllKeys P es → AllKeys Q es
  AllKeys-imp f [] a = tt
  AllKeys-imp f (e ∷ es) (p, a) = (f (e.0) p, AllKeys-imp f es a)

  pub AllKeys-++ :
      (P : ℕ → Type 0) (xs ys : List (ℕ × A)) → AllKeys P (xs ++ ys) → AllKeys P xs × AllKeys P ys
  AllKeys-++ P [] ys a = (tt, a)
  AllKeys-++ P (x ∷ xs) ys (p, a) = let (b, c) = AllKeys-++ P xs ys a in ((p, b), c)

  -- What sortedness of a list with a middle entry says of its parts.
  pub record Parts (R : ℕ → ℕ → Type 0) (xs : List (ℕ × A)) (k : ℕ) (ys : List (ℕ × A))
      : Type 0 where
    pub left_sorted : IsSorted R xs
    pub left_keys : AllKeys (λ j. R j k) xs
    pub right_keys : AllKeys (R k) ys
    pub right_sorted : IsSorted R ys

  pub IsSorted-Parts :
      (R : ℕ → ℕ → Type 0) (xs : List (ℕ × A)) (k : ℕ) (v : A) (ys : List (ℕ × A))
      → IsSorted R (xs ++ (k, v) ∷ ys)
      → Parts R xs k ys
  IsSorted-Parts R [] k v ys (a, s) = record {
    left_sorted = tt;
    left_keys = tt;
    right_keys = a;
    right_sorted = s;
  }
  IsSorted-Parts R (x ∷ xs) k v ys (a, s) =
      let p = IsSorted-Parts R xs k v ys s in
      let (b, c) = AllKeys-++ (R (x.0)) xs ((k, v) ∷ ys) a in
      record {
        left_sorted = (b, p.left_sorted);
        left_keys = (c.0, p.left_keys);
        right_keys = p.right_keys;
        right_sorted = p.right_sorted;
      }

  pub lookup-++ :
      (key : ℕ) (xs ys : List (ℕ × A))
      → lookup key (xs ++ ys) ≡ or_else (lookup key xs) (lookup key ys)
  unfolding lookup
  lookup-++ key [] ys = refl
  lookup-++ key (x ∷ xs) ys = ground (arith, lookup-++ key xs ys)

  pub lookup_absent :
      (key : ℕ) (xs : List (ℕ × A)) → AllKeys (λ j. (key == j) ≡ false) xs → lookup key xs ≡ none
  unfolding lookup
  lookup_absent key [] a = refl
  lookup_absent key (x ∷ xs) (p, a) = rw p (lookup_absent key xs a)

  pub ordered_insert_left :
      (key : ℕ) (value : A) (xs : List (ℕ × A)) (k : ℕ) (v : A) (ys : List (ℕ × A))
      → ltb key k ≡ true
      → ordered_insert key value (xs ++ (k, v) ∷ ys) ≡ ordered_insert key value xs ++ (k, v) ∷ ys
  unfolding ordered_insert
  ordered_insert_left key value [] k v ys h = rw h refl
  ordered_insert_left key value (x ∷ xs) k v ys h =
      ground (arith, ordered_insert_left key value xs k v ys)

  pub ordered_insert_right :
      (key : ℕ) (value : A) (xs ys : List (ℕ × A))
      → AllKeys (λ j. j ≤ key) xs
      → ordered_insert key value (xs ++ ys) ≡ xs ++ ordered_insert key value ys
  unfolding ordered_insert
  ordered_insert_right key value [] ys a = refl
  ordered_insert_right key value (x ∷ xs) ys (p, a) =
      rw (not_less p) (ap (λ zs. x ∷ zs) (ordered_insert_right key value xs ys a))
    where
      not_less : x.0 ≤ key → ltb key (x.0) ≡ false
      not_less q = ground arith

  AllKeys-ordered_insert :
      (P : ℕ → Type 0) (key : ℕ) (value : A) (xs : List (ℕ × A))
      → P key
      → AllKeys P xs
      → AllKeys P (ordered_insert key value xs)
  unfolding ordered_insert
  AllKeys-ordered_insert P key value [] p a = (p, tt)
  AllKeys-ordered_insert P key value (x ∷ xs) p (q, a) =
      elim (ltb key (x.0))
        as (λ b. AllKeys P (if b then (key, value) ∷ x ∷ xs else x ∷ ordered_insert key value xs)) [
          | true ↦ (p, (q, a))
          | false ↦ (q, AllKeys-ordered_insert P key value xs p a)
        ]

  pub IsSorted-ordered_insert :
      (key : ℕ) (value : A) (xs : List (ℕ × A))
      → IsSorted ◌≤◌ xs
      → IsSorted ◌≤◌ (ordered_insert key value xs)
  unfolding ordered_insert
  IsSorted-ordered_insert key value [] s = (tt, tt)
  IsSorted-ordered_insert key value (x ∷ xs) (a, s) = elim (Bool-cases (ltb key (x.0))) [
    | inl h ↦ rw h ((before h, AllKeys-imp (λ k q. le_after h q) xs a), (a, s))
    | inr h ↦ rw h (
      AllKeys-ordered_insert (λ k. x.0 ≤ k) key value xs (behind h) a,
      IsSorted-ordered_insert key value xs s,
    )
  ]
    where
      before : ltb key (x.0) ≡ true → key ≤ x.0
      before h = ground arith

      le_after : {k : ℕ} → ltb key (x.0) ≡ true → x.0 ≤ k → key ≤ k
      le_after h q = ground arith

      behind : ltb key (x.0) ≡ false → x.0 ≤ key
      behind h = ground arith
