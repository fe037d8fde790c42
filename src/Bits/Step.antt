-- ===== src/Bits/Step.antt =====
-- One equation for the lowest binary digit of each bit operation.
use Prim.Native.Nat.{
  min, max, differ, digits, bitwise, bit_and-bitwise, bit_or-bitwise, bit_xor-bitwise,
}
use native.Mathlib.Nat.{le_refl}
use mihini.Prelude.{
  ℕ, zero, suc, ◌+◌, ◌*◌, ◌/◌, ◌%◌, ◌≤◌, ◌<◌, bit_and, bit_or, bit_xor, ◌≡◌, inl, inr, refl, sym,
  ap, ◌∙◌, order-cases, arith,
}

module _ (rest : ℕ → ℕ) (f : ℕ → ℕ → ℕ) where
  one_more : (fuel x y : ℕ) → x ≤ fuel → digits rest f fuel x y ≡ digits rest f (suc fuel) x y
  one_more zero zero y h = refl
  one_more (suc fuel) zero y h = refl
  one_more zero (suc x) y h = absurd (omega arith)
  one_more (suc fuel) (suc x) y h = omega (arith, one_more fuel (suc x / 2) (y / 2) (omega arith))

  any_more :
      (more fuel x y : ℕ) → x ≤ fuel → fuel ≤ more → digits rest f fuel x y ≡ digits rest f more x y
  any_more zero fuel x y h k = ap (λ t. digits rest f t x y) {x = fuel} {y = 0} (omega arith)
  any_more (suc more) fuel x y h k = elim (order-cases fuel (suc more)) [
    | inl l ↦ any_more more fuel x y h (omega arith) ∙ one_more more x y (omega arith)
    | inr (inl e) ↦ ap (λ t. digits rest f t x y) e
    | inr (inr g) ↦ absurd (omega arith)
  ]

  lowest_digit :
      (x y : ℕ)
      → bitwise rest f (suc x) y ≡ bitwise rest f (suc x / 2) (y / 2) * 2 + f (suc x % 2) (y % 2)
  lowest_digit x y =
      ap (λ t. t * 2 + f (suc x % 2) (y % 2))
        (sym (any_more x (suc x / 2) (suc x / 2) (y / 2) (le_refl _) (omega arith)))

differ-le : (x y : ℕ) → x < 2 → y < 2 → differ x y < 2
differ-le zero y h k = k
differ-le (suc x) zero h k = h
differ-le (suc zero) (suc zero) h k = omega arith
differ-le (suc zero) (suc (suc y)) h k = absurd (omega arith)
differ-le (suc (suc x)) (suc y) h k = absurd (omega arith)

pub bit_and_step : (x y : ℕ) → bit_and x y ≡ bit_and (x / 2) (y / 2) * 2 + min (x % 2) (y % 2)
bit_and_step zero y = simp bit_and-bitwise (omega arith)
bit_and_step (suc x) y = simp bit_and-bitwise (lowest_digit (λ t. 0) min x y)

pub bit_xor_step : (a b : ℕ) → bit_xor a b ≡ bit_xor (a / 2) (b / 2) * 2 + differ (a % 2) (b % 2)
bit_xor_step zero b = simp bit_xor-bitwise (omega arith)
bit_xor_step (suc a) b = simp bit_xor-bitwise (lowest_digit (λ y. y) differ a b)

pub bit_xor_step_lt : (a b : ℕ) → bit_xor a b < bit_xor (a / 2) (b / 2) * 2 + 2
bit_xor_step_lt a b =
    omega (arith, bit_xor_step a b, differ-le (a % 2) (b % 2) (omega arith) (omega arith))

pub bit_or_step : (x y : ℕ) → bit_or x y ≡ bit_or (x / 2) (y / 2) * 2 + max (x % 2) (y % 2)
bit_or_step zero y = simp bit_or-bitwise (omega arith)
bit_or_step (suc x) y = simp bit_or-bitwise (lowest_digit (λ t. t) max x y)
