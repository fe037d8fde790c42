-- ===== src/Opcode/Tables/Load.antt =====
-- The assembler's table of src/opcodes.c in the tree of src/stree.c: each string has the value that the
-- calls of `stree_set` give it.
use mihini.Prelude.{ℕ, ◌≡◌, Bool, true, false, if◌then◌else◌, ◌&&◌, List, [], ◌∷◌, Option, some}
use mihini.Prelude.Ascii.{same_bytes}
use mihini.Stree.{StreeNode, is_null}
use mihini.Stree.Lookup.{value_at}

-- The value of a string that has `old` at first, once the entries are set one behind the other
abbrev pub value_after : List (List ℕ × ℕ) → List ℕ → ℕ → ℕ
value_after [] str old = old
value_after (e ∷ es) str old = value_after es str (if same_bytes (e.0) str then e.1 else old)

-- A tree that is not NULL and has these values
abbrev pub Holds : List (List ℕ × ℕ) → StreeNode → Option StreeNode → Type 0
Holds es t result =
    (t' : StreeNode) × (result ≡ some t')
    × (is_null t' ≡ false)
    × ((b : ℕ) (bs : List ℕ) → value_at t' (b ∷ bs) ≡ value_after es (b ∷ bs) (value_at t (b ∷ bs)))

abbrev is_name : List ℕ → Bool
is_name [] = false
is_name (c ∷ cs) = true

abbrev are_names : List (List ℕ × ℕ) → Bool
are_names [] = true
are_names (e ∷ es) = is_name (e.0) && are_names es
