-- ===== src/Math/Concentrated/Price.antt =====
-- What `priceToTick` returns.
use soro_pool.Base.{
  ℕ, zero, suc, ◌+◌, ◌*◌, ◌/◌, ◌^◌, ◌≤◌, ◌<◌, ◌≡◌, refl, ap, sym, ◌∙◌, false, some, ltb, ok, arith,
  Bool-cases, inl, inr,
}
use soro_pool.Base.Int.{pos, ◌-ℤ◌, ◌*ℤ◌, ◌/ℤ◌, quot, leb_ℤ}
use native.Mathlib.Nat.{mul_assoc, pow-succ'}
use soro_pool.Math.Concentrated.{q128, halve_down, double_up, count_bits, price_to_tick}

halve_down-ends :
    (rounds p : ℕ)
    → p < rounds
    → 0 < p
    → (h : ℕ) × (halve_down rounds p ≡ some h) × (0 < h) × (h ≤ q128)
unfolding halve_down
halve_down-ends zero p l h = absurd (omega arith)
halve_down-ends (suc n) p l h = elim (Bool-cases (ltb q128 p)) [
  | inl more ↦
      let (d, e, a, b) = halve_down-ends n (p / 2) (ground arith) (ground arith) in
      (d, rw more e, a, b)
  | inr done ↦ (p, rw done refl, h, ground arith)
]

doubled : (p n : ℕ) → p * 2 ^ suc n ≡ p * 2 * 2 ^ n
doubled p n = ap (λ x. p * x) (pow-succ' 2 n) ∙ sym (mul_assoc p 2 (2 ^ n))

double_up-ends :
    (n p : ℕ)
    → q128 ≤ p * 2 ^ n
    → p < q128 * 2
    → (d : ℕ) × (double_up (suc n) p ≡ some d) × (q128 ≤ d) × (d < q128 * 2)
unfolding double_up
double_up-ends zero p l h = elim (Bool-cases (ltb p q128)) [
  | inl more ↦ absurd (ground arith)
  | inr done ↦ (p, rw done refl, ground arith, h)
]
double_up-ends (suc n) p l h = elim (Bool-cases (ltb p q128)) [
  | inl more ↦
      let (d, e, a, b) = double_up-ends n (p * 2) (rw (doubled p n) at l) (ground arith) in
      (d, rw more e, a, b)
  | inr done ↦ (p, rw done refl, ground arith, h)
]

one_le_two_pow : (k : ℕ) → 1 ≤ 2 ^ k
one_le_two_pow zero = omega arith
one_le_two_pow (suc k) =
    let e : 2 ^ suc k ≡ 2 * 2 ^ k = pow-succ' 2 k in omega (arith, one_le_two_pow k)

count_bits-log :
    (k rounds p m : ℕ)
    → k < rounds
    → 2 ^ k ≤ p
    → p < 2 ^ k * 2
    → count_bits rounds p m ≡ some (m + k)
unfolding count_bits
count_bits-log k zero p m l a b = absurd (omega arith)
count_bits-log zero (suc rounds) p m l a b = ground arith
count_bits-log (suc k) (suc rounds) p m l a b =
    let e : 2 ^ suc k ≡ 2 * 2 ^ k = pow-succ' 2 k in
    let one : 1 ≤ 2 ^ k = one_le_two_pow k in
    let rest = count_bits-log k rounds (p / 2) (suc m) (omega arith) (omega arith) (omega arith) in
    ground arith

-- For every positive price `priceToTick` ends, and returns 32.
pub price_to_tick-constant : (p : ℕ) → 0 < p → price_to_tick (pos p) ≡ ok (pos 32)
unfolding price_to_tick ◌-ℤ◌ ◌*ℤ◌ ◌/ℤ◌ quot
price_to_tick-constant p h =
    let (a, e_a, a_pos, a_most) = halve_down-ends (suc p) p (omega arith) h in
    let (d, e_d, d_least, d_most) = double_up-ends 129 a (omega arith) (omega arith) in
    let e_m = count_bits-log 128 130 d 0 (omega arith) d_least (omega arith) in
    let positive : leb_ℤ (pos p) (pos 0) ≡ false = ground arith in rw (positive, e_a, e_d, e_m) refl
