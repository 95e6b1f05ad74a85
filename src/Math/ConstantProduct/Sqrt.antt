-- ===== src/Math/ConstantProduct/Sqrt.antt =====
-- `integerSqrt` of backend/src/shared/amm-math: Newton's iteration from above. The loop runs on
-- positive numbers, so it is written over ℕ; every round lowers `r`, so x + 1 rounds are enough.
use soro_pool.Base.{
  ℕ, zero, suc, ◌+◌, ◌-◌, ◌*◌, ◌/◌, ◌≤◌, ◌<◌, ◌≡◌, refl, Option, none, some, arith, ltb, leb,
  if◌then◌else◌, Result, ok, err, negative_input, out_of_rounds, ltb→lt, lt→leb, Bool-cases, inl,
  inr,
}
use soro_pool.Base.Int.{ℤ, pos, negsuc}
use native.Mathlib.Decide.{dec_le}
use native.Mathlib.Nat.{le-div_iff_mul-le, mul-le-mul, lt-mul-div-succ}

-- `while (r > x / r) { const next = (r + x / r) / 2n; if (next >= r) break; r = next; }`
unfoldable pub sqrt_loop : ℕ → ℕ → ℕ → Option ℕ
sqrt_loop zero x r = none
sqrt_loop (suc fuel) x r =
    let next = (r + x / r) / 2 in
    let more = sqrt_loop fuel x next in
    if ltb (x / r) r then if leb r next then some r else more else some r

abbrev or_range : Option ℕ → Result ℤ
or_range none = err out_of_rounds
or_range (some r) = ok (pos r)

-- `integerSqrt`
unfoldable pub integer_sqrt : ℤ → Result ℤ
unfolding sqrt_loop
integer_sqrt (negsuc x) = err negative_input
integer_sqrt (pos x) = if leb x 0 then ok (pos 0) else or_range (sqrt_loop (suc x) x x)

-- The square root, rounded down.
abbrev pub IsSqrt : ℕ → ℕ → Type 0
IsSqrt x r = (r * r ≤ x) × (x < (r + 1) * (r + 1))

four_mul_le_add : (a d : ℕ) → 4 * (a * (a + d)) ≤ (a + (a + d)) * (a + (a + d))
four_mul_le_add a d = omega arith

four_mul_le : (a b : ℕ) → 4 * (a * b) ≤ (a + b) * (a + b)
four_mul_le a b = elim (dec_le a b) [
  | yes h ↦ let e : b ≡ a + (b - a) = omega arith in rw e (four_mul_le_add a (b - a))
  | no h ↦ let e : a ≡ b + (a - b) = omega arith in rw e (omega (arith, four_mul_le_add b (a - b)))
]

newton_bound : (x r q n : ℕ) → x < r * (q + 1) → r + q ≤ 2 * n + 1 → x < (n + 1) * (n + 1)
newton_bound x r q n h k =
    let square : (r + (q + 1)) * (r + (q + 1)) ≤ (2 * (n + 1)) * (2 * (n + 1)) =
      mul-le-mul (omega arith) (omega arith) in
    omega (arith, four_mul_le r (q + 1), square)

newton_step : (x r : ℕ) → 0 < r → x < ((r + x / r) / 2 + 1) * ((r + x / r) / 2 + 1)
newton_step x r h = newton_bound x r (x / r) ((r + x / r) / 2) (lt-mul-div-succ x h) (omega arith)

one_le_div : (x r : ℕ) → 0 < r → r ≤ x → 1 ≤ x / r
one_le_div x r p l = (le-div_iff_mul-le p).1 (omega arith)

-- With more rounds than the start value the loop ends at the square root.
sqrt_loop-IsSqrt :
    (fuel x r : ℕ)
    → r < fuel
    → 0 < r
    → r ≤ x
    → x < (r + 1) * (r + 1)
    → (s : ℕ) × (sqrt_loop fuel x r ≡ some s) × IsSqrt x s
unfolding sqrt_loop
sqrt_loop-IsSqrt zero x r f p l h = absurd (omega arith)
sqrt_loop-IsSqrt (suc fuel) x r f p l h = elim (Bool-cases (ltb (x / r) r)) [
  | inl above ↦
      let lower : (r + x / r) / 2 < r = omega (arith, ltb→lt (x / r) r above) in
      let (s, e, q) =
        sqrt_loop-IsSqrt fuel x ((r + x / r) / 2) (omega arith) (omega (arith, one_le_div x r p l))
          (omega arith) (newton_step x r p) in
      (s, rw (above, lt→leb r ((r + x / r) / 2) lower) e, q)
  | inr done ↦
      let small : r ≤ x / r = ground arith in
      (r, rw done refl, (omega (arith, (le-div_iff_mul-le p).0 small), h))
]

-- `integerSqrt` ends, and returns the square root rounded down.
pub integer_sqrt-IsSqrt : (x : ℕ) → (r : ℕ) × (integer_sqrt (pos x) ≡ ok (pos r)) × IsSqrt x r
unfolding integer_sqrt
integer_sqrt-IsSqrt zero = (0, refl, (omega arith, omega arith))
integer_sqrt-IsSqrt (suc x) =
    let (s, e, q) =
      sqrt_loop-IsSqrt (suc (suc x)) (suc x) (suc x) (omega arith) (omega arith) (omega arith)
        (omega arith) in
    (s, rw (lt→leb (suc x) 0 (omega arith), e) refl, q)
