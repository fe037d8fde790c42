-- ===== src/Dll/Chain.antt =====
-- A run of linked nodes of src/dll.c.
use mihini.Prelude.{ℕ, ◌==◌, ◌≡◌, refl, false, update, Option, some, List, [], ◌∷◌, ◌++◌}
use mihini.Dll.{DllNode}

-- The address of the first entry, or `n` of none; and of the last, or `p`.
abbrev pub head_or : ℕ → List (ℕ × ℕ) → ℕ
head_or n [] = n
head_or n (e ∷ es) = e.0

abbrev pub last_or : ℕ → List (ℕ × ℕ) → ℕ
last_or p [] = p
last_or p (e ∷ es) = last_or (e.0) es

-- The entries, address and value, lie linked in the store, from a `prev` of `p` to a `next` of `n`.
abbrev pub IsChain : (ℕ → Option DllNode) → ℕ → List (ℕ × ℕ) → ℕ → Type 0
IsChain nodes p [] n = Unit
IsChain nodes p (e ∷ es) n =
    (nodes (e.0) ≡ some (record { next = head_or n es; prev = p; value = e.1 }))
    × IsChain nodes (e.0) es n

-- No entry has the address.
abbrev pub Avoids : ℕ → List (ℕ × ℕ) → Type 0
Avoids a [] = Unit
Avoids a (e ∷ es) = ((a == e.0) ≡ false) × Avoids a es

abbrev pub AreDistinct : List (ℕ × ℕ) → Type 0
AreDistinct [] = Unit
AreDistinct (e ∷ es) = Avoids (e.0) es × AreDistinct es

-- A change of the store elsewhere leaves the chain.
pub IsChain-update :
    (nodes : ℕ → Option DllNode) (p : ℕ) (es : List (ℕ × ℕ)) (n a : ℕ) (v : Option DllNode)
    → Avoids a es
    → IsChain nodes p es n
    → IsChain (update nodes a v) p es n
IsChain-update nodes p [] n a v h c = tt
IsChain-update nodes p (e ∷ es) n a v (h, hs) (c, cs) =
    (rw h c, IsChain-update nodes (e.0) es n a v hs cs)

head_or-++ : (n : ℕ) (xs ys : List (ℕ × ℕ)) → head_or n (xs ++ ys) ≡ head_or (head_or n ys) xs
head_or-++ n [] ys = refl
head_or-++ n (x ∷ xs) ys = refl

pub last_or-++ : (p : ℕ) (xs ys : List (ℕ × ℕ)) → last_or p (xs ++ ys) ≡ last_or (last_or p xs) ys
last_or-++ p [] ys = refl
last_or-++ p (x ∷ xs) ys = last_or-++ (x.0) xs ys

pub IsChain-++ :
    (nodes : ℕ → Option DllNode) (p : ℕ) (xs ys : List (ℕ × ℕ)) (n : ℕ)
    → IsChain nodes p (xs ++ ys) n
    → IsChain nodes p xs (head_or n ys) × IsChain nodes (last_or p xs) ys n
IsChain-++ nodes p [] ys n c = (tt, c)
IsChain-++ nodes p (x ∷ xs) ys n (c, cs) =
    let (d, e) = IsChain-++ nodes (x.0) xs ys n cs in ((rw⁻¹ (head_or-++ n xs ys) c, d), e)

pub IsChain-join :
    (nodes : ℕ → Option DllNode) (p : ℕ) (xs ys : List (ℕ × ℕ)) (n : ℕ)
    → IsChain nodes p xs (head_or n ys)
    → IsChain nodes (last_or p xs) ys n
    → IsChain nodes p (xs ++ ys) n
IsChain-join nodes p [] ys n c d = d
IsChain-join nodes p (x ∷ xs) ys n (c, cs) d =
    (rw (head_or-++ n xs ys) c, IsChain-join nodes (x.0) xs ys n cs d)

-- The last entry, apart from those before it.
pub data IsSnoc : List (ℕ × ℕ) → Type 0 where
  empty : IsSnoc []
  snoc : (xs : List (ℕ × ℕ)) (a v : ℕ) → IsSnoc (xs ++ (a, v) ∷ [])

pub to_snoc : (es : List (ℕ × ℕ)) → IsSnoc es
to_snoc [] = empty
to_snoc ((a, v) ∷ es) = elim (to_snoc es) as (λ k _. IsSnoc ((a, v) ∷ k)) [
  | empty ↦ snoc [] a v
  | snoc xs b w ↦ snoc ((a, v) ∷ xs) b w
]

pub Avoids-++ : (a : ℕ) (xs ys : List (ℕ × ℕ)) → Avoids a (xs ++ ys) → Avoids a xs × Avoids a ys
Avoids-++ a [] ys h = (tt, h)
Avoids-++ a (x ∷ xs) ys (h, hs) = let (d, e) = Avoids-++ a xs ys hs in ((h, d), e)

pub Avoids-join : (a : ℕ) (xs ys : List (ℕ × ℕ)) → Avoids a xs → Avoids a ys → Avoids a (xs ++ ys)
Avoids-join a [] ys h k = k
Avoids-join a (x ∷ xs) ys (h, hs) k = (h, Avoids-join a xs ys hs k)
