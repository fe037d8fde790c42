-- ===== src/Bits/Split.antt =====
-- The bit operations on numbers of two parts, of which the lower one has `n` bits.
use native.Mathlib.Nat.{pow-suc, mul_assoc}
use mihini.Prelude.{
  ℕ, zero, suc, ◌+◌, ◌*◌, ◌/◌, ◌%◌, ◌^◌, ◌<◌, ◌≡◌, bit_and, bit_or, ap, ◌∙◌, arith, sym,
}
use mihini.Bits.Step.{bit_and_step, bit_or_step}

doubled : (n h : ℕ) → h * 2 ^ suc n ≡ h * 2 ^ n * 2
doubled n h = ap (λ p. h * p) (pow-suc 2 n) ∙ sym (mul_assoc h (2 ^ n) 2)

-- One digit of the lower part
halves :
    (n lo hi : ℕ)
    → ((lo + hi * 2 ^ suc n) / 2 ≡ lo / 2 + hi * 2 ^ n) × ((lo + hi * 2 ^ suc n) % 2 ≡ lo % 2)
halves n lo hi = (omega (arith, doubled n hi), omega (arith, doubled n hi))

half_lt : (n a : ℕ) → a < 2 ^ suc n → a / 2 < 2 ^ n
half_lt n a h = omega (arith, pow-suc 2 n)

pub bit_and-split :
    (n lo hi a b : ℕ)
    → lo < 2 ^ n
    → a < 2 ^ n
    → bit_and (lo + hi * 2 ^ n) (a + b * 2 ^ n) ≡ bit_and lo a + bit_and hi b * 2 ^ n
bit_and-split zero lo hi a b h k =
    let p : lo ≡ 0 = omega arith in
    let q : a ≡ 0 = omega arith in
    let e : 0 + hi * 1 ≡ hi = omega arith in
    let f : 0 + b * 1 ≡ b = omega arith in rw (p, q, e, f) (omega arith)
bit_and-split (suc n) lo hi a b h k =
    let (x, xm) = halves n lo hi in
    let (y, ym) = halves n a b in
    let ih = bit_and-split n (lo / 2) hi (a / 2) b (half_lt n lo h) (half_lt n a k) in
    bit_and_step (lo + hi * 2 ^ suc n) (a + b * 2 ^ suc n)
    ∙ rw (x, y, xm, ym, ih) (omega (arith, bit_and_step lo a, doubled n (bit_and hi b)))

pub bit_or-split :
    (n lo hi a b : ℕ)
    → lo < 2 ^ n
    → a < 2 ^ n
    → bit_or (lo + hi * 2 ^ n) (a + b * 2 ^ n) ≡ bit_or lo a + bit_or hi b * 2 ^ n
bit_or-split zero lo hi a b h k =
    let p : lo ≡ 0 = omega arith in
    let q : a ≡ 0 = omega arith in
    let e : 0 + hi * 1 ≡ hi = omega arith in
    let f : 0 + b * 1 ≡ b = omega arith in rw (p, q, e, f) (omega arith)
bit_or-split (suc n) lo hi a b h k =
    let (x, xm) = halves n lo hi in
    let (y, ym) = halves n a b in
    let ih = bit_or-split n (lo / 2) hi (a / 2) b (half_lt n lo h) (half_lt n a k) in
    bit_or_step (lo + hi * 2 ^ suc n) (a + b * 2 ^ suc n)
    ∙ rw (x, y, xm, ym, ih) (omega (arith, bit_or_step lo a, doubled n (bit_or hi b)))
