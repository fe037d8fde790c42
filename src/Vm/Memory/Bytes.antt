-- ===== src/Vm/Memory/Bytes.antt =====
-- A little-endian number, stored and loaded.
use native.Mathlib.Nat.{
  pow-suc, one-le-pow, div-add-mod, mul_assoc, mod-lt, mod-eq_of_lt, add-mul-mod_self_left,
}
use mihini.Prelude.{
  ℕ, zero, suc, ◌+◌, ◌*◌, ◌/◌, ◌%◌, ◌^◌, ◌<◌, ◌≤◌, ◌≡◌, ◌⊎◌, refl, sym, ap, ◌∙◌, arith, update,
}
use mihini.Vm.Memory.{load_le, store_le}

-- A store of `n` bytes at `a` leaves the bytes below `a` and from `a + n` on.
pub store_le_outside :
    (mem : ℕ → ℕ) (a n v i : ℕ) → (i < a) ⊎ (a + n ≤ i) → store_le mem a n v i ≡ mem i
unfolding store_le
store_le_outside mem a zero v i h = refl
store_le_outside mem a (suc n) v i h =
    ground (arith, store_le_outside (update mem a (v % 256)) (a + 1) n (v / 256) i)

-- The first byte of a store.
pub store_le_first : (mem : ℕ → ℕ) (a n v : ℕ) → store_le mem a (suc n) v a ≡ v % 256
unfolding store_le
store_le_first mem a n v =
    ground (arith, store_le_outside (update mem a (v % 256)) (a + 1) n (v / 256) a)

-- What is loaded depends on the bytes in range alone.
pub load_le_congr :
    (m m' : ℕ → ℕ) (a n : ℕ)
    → ((i : ℕ) → a ≤ i → i < a + n → m i ≡ m' i)
    → load_le m a n ≡ load_le m' a n
unfolding load_le
load_le_congr m m' a zero h = refl
load_le_congr m m' a (suc n) h = omega (
  arith,
  h a (omega arith) (omega arith),
  load_le_congr m m' (a + 1) n (λ i p q. h i (omega arith) (omega arith)),
)

-- A store elsewhere does not change what is loaded.
pub load_le-store_le_apart :
    (mem : ℕ → ℕ) (a n b k v : ℕ)
    → (a + n ≤ b) ⊎ (b + k ≤ a)
    → load_le (store_le mem b k v) a n ≡ load_le mem a n
load_le-store_le_apart mem a n b k v apart =
    load_le_congr (store_le mem b k v) mem a n λ i p q. ground (arith, store_le_outside mem b k v i)

-- The low digit and the rest, put together.
mod-mul : (v p : ℕ) → 0 < p → v % 256 + 256 * ((v / 256) % p) ≡ v % (256 * p)
mod-mul v p pos =
    let q = v / 256 in
    let low = v % 256 + 256 * (q % p) in
    let split : low + 256 * p * (q / p) ≡ v = omega (
      arith,
      div-add-mod q p,
      div-add-mod v 256,
      ap (λ (t : ℕ). 256 * t) (div-add-mod q p),
      mul_assoc 256 p (q / p),
    ) in
    let small : low < 256 * p = omega (arith, mod-lt q pos) in
    sym (
      ap (λ (t : ℕ). t % (256 * p)) (sym split)
      ∙ add-mul-mod_self_left low (256 * p) (q / p)
      ∙ mod-eq_of_lt small)

-- The bytes that were stored are the number, cut to their width.
pub load_le-store_le_self :
    (mem : ℕ → ℕ) (a n v : ℕ) → load_le (store_le mem a n v) a n ≡ v % 256 ^ n
unfolding load_le store_le
load_le-store_le_self mem a zero v = omega arith
load_le-store_le_self mem a (suc n) v =
    let digits : load_le (store_le mem a (suc n) v) a (suc n) ≡ v % (256 * 256 ^ n) = omega (
      arith,
      store_le_first mem a n v,
      load_le-store_le_self (update mem a (v % 256)) (a + 1) n (v / 256),
      mod-mul v (256 ^ n) (one-le-pow n 256 (omega arith)),
    ) in
    let power : 256 * 256 ^ n ≡ 256 ^ suc n = omega (arith, pow-suc 256 n) in
    digits ∙ ap (λ (t : ℕ). v % t) power

pub load_le-one : (mem : ℕ → ℕ) (a : ℕ) → load_le mem a 1 ≡ mem a
unfolding load_le
load_le-one mem a = omega arith

-- The second byte of a store.
pub store_le_second :
    (mem : ℕ → ℕ) (a n v : ℕ) → store_le mem a (suc (suc n)) v (a + 1) ≡ v / 256 % 256
unfolding store_le
store_le_second mem a n v = store_le_first (update mem a (v % 256)) (a + 1) n (v / 256)
