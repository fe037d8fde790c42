-- ===== src/Prelude/Options.antt =====
-- The chain of steps that may fail, for `do` blocks on Option.
use mathlib.Core.Option
use mathlib.Core.Option.{Option, none, some}
use mathlib.Core.Path.{◌≡◌, subst}
use mathlib.Core.Bool.{Bool, true, false}
use mihini.Prelude.Tests.{if◌then◌else◌}

infixl 5 ◌>>=◌
abbrev pub ◌>>=◌ {ℓ κ} : {A : Type ℓ} {B : Type κ} → Option A → (A → Option B) → Option B
none >>= f = none
some a >>= f = f a

abbrev pub or_else {ℓ} : {A : Type ℓ} → Option A → Option A → Option A
or_else none o = o
or_else (some a) o = some a

-- A predicate of the value, if there is one
abbrev pub WhenSome {ℓ κ} : {A : Type ℓ} → (A → Type κ) → Option A → Type κ
WhenSome P none = Unit
WhenSome P (some a) = P a

pub WhenSome-map {ℓ κ ξ} :
    {A : Type ℓ} {B : Type κ} (P : B → Type ξ) (f : A → B) (o : Option A)
    → WhenSome (λ a. P (f a)) o
    → WhenSome P (Option.map f o)
WhenSome-map P f none h = tt
WhenSome-map P f (some a) h = h

pub WhenSome-bind {ℓ κ ξ ζ} :
    {A : Type ℓ} {B : Type κ} (Q : A → Type ζ) (P : B → Type ξ) (f : A → Option B) (o : Option A)
    → ((a : A) → Q a → WhenSome P (f a))
    → WhenSome Q o
    → WhenSome P (o >>= f)
WhenSome-bind Q P f none k h = tt
WhenSome-bind Q P f (some a) k h = k a h

pub WhenSome-if {ℓ κ} :
    {A : Type ℓ} (P : A → Type κ) (test : Bool) (o q : Option A)
    → WhenSome P o
    → WhenSome P q
    → WhenSome P (if test then o else q)
WhenSome-if P true o q h k = h
WhenSome-if P false o q h k = k

pub WhenSome-eq {ℓ κ} :
    {A : Type ℓ} (P : A → Type κ) (o : Option A) (a : A) → WhenSome P o → o ≡ some a → P a
WhenSome-eq P o a h e = subst (WhenSome P) e h

pub WhenSome-mono {ℓ κ ξ} :
    {A : Type ℓ} (P : A → Type κ) (Q : A → Type ξ) (o : Option A)
    → ((a : A) → P a → Q a)
    → WhenSome P o
    → WhenSome Q o
WhenSome-mono P Q none k h = tt
WhenSome-mono P Q (some a) k h = k a h

pub WhenSome-always {ℓ κ} :
    {A : Type ℓ} (P : A → Type κ) (o : Option A) → ((a : A) → P a) → WhenSome P o
WhenSome-always P none h = tt
WhenSome-always P (some a) h = h a

-- A value that is not used
pub WhenSome-then {ℓ κ ξ} :
    {A : Type ℓ} {B : Type κ} (P : B → Type ξ) (f : A → Option B) (o : Option A)
    → ((a : A) → WhenSome P (f a))
    → WhenSome P (o >>= f)
WhenSome-then P f none h = tt
WhenSome-then P f (some a) h = h a
