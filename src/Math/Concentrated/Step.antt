-- ===== src/Math/Concentrated/Step.antt =====
-- What a step of `computeSwapStep` does to the price.
use soro_pool.Base.{
  ℕ, ◌+◌, ◌-◌, ◌*◌, ◌/◌, ◌≤◌, ◌<◌, ◌≡◌, refl, ap, sym, ◌∙◌, true, false, leb, ok, ok-injective,
  >>=-eq-ok, arith, Bool-cases, inl, inr,
}
use Prim.Native.Nat.{min, max}
use soro_pool.Base.Int.{ℤ, pos, leb_ℤ, ◌+ℤ◌, ◌-ℤ◌, ◌*ℤ◌, ◌/ℤ◌, sub_pos, quot}
use soro_pool.Math.Concentrated.{
  q96, mul_div, get_amount0_delta, get_amount1_delta, next_price_down, next_price_up,
  get_next_sqrt_price_from_input, price_and_input, SwapStepResult, compute_swap_step,
}
use soro_pool.Math.Concentrated.Between.{product_pos, down-least, down-most, up-most}
use native.Mathlib.Nat.{div-le_of_le-mul, mul-le-mul_left}

delta0 :
    (t d l : ℕ)
    → 0 < t
    → get_amount0_delta (pos t) (pos (t + d)) (pos l) false ≡ ok (pos (l * d * q96 / ((t + d) * t)))
unfolding get_amount0_delta mul_div ◌-ℤ◌ ◌*ℤ◌ ◌/ℤ◌ quot
delta0 t d l ht =
    let hd : 0 < (t + d) * t = product_pos (t + d) t (omega arith) ht in
    let same : t + d - t ≡ d = omega arith in ground arith

delta1 :
    (p d l : ℕ) → get_amount1_delta (pos p) (pos (p + d)) (pos l) false ≡ ok (pos (l * d / q96))
unfolding get_amount1_delta mul_div ◌-ℤ◌ ◌*ℤ◌ ◌/ℤ◌ quot
delta1 p d l = let same : p + d - p ≡ d = omega arith in ground arith

next_down-value :
    (p l u : ℕ) {z : ℤ}
    → get_next_sqrt_price_from_input (pos p) (pos l) (pos u) true ≡ ok z
    → (0 < l) × (z ≡ pos (l * p / (l + u * p / q96)))
unfolding get_next_sqrt_price_from_input next_price_down ◌+ℤ◌ ◌*ℤ◌ ◌/ℤ◌ quot
next_down-value p l u e = (ground arith, ground arith)

next_up-value :
    (p l u : ℕ) {z : ℤ}
    → get_next_sqrt_price_from_input (pos p) (pos l) (pos u) false ≡ ok z
    → (0 < l) × (z ≡ pos (p + u * q96 / l))
unfolding get_next_sqrt_price_from_input next_price_up ◌+ℤ◌ ◌-ℤ◌ ◌*ℤ◌ ◌/ℤ◌ quot
next_up-value p l u e = (ground arith, ground arith)

-- The next price n lies between p and t, and the input that is used is w at most.
abbrev Within : ℕ → ℕ → ℕ → ℤ × ℤ → Type 0
Within low high w r = (n u : ℕ) × (r ≡ (pos n, pos u)) × (low ≤ n) × (n ≤ high) × (u ≤ w)

price_and_input-down :
    (t d l w : ℕ) {r : ℤ × ℤ}
    → 0 < t
    → price_and_input (pos (t + d)) (pos t) (pos l) (pos w) true (pos (l * d * q96 / ((t + d) * t)))
      ≡ ok r
    → Within t (t + d) w r
unfolding price_and_input
price_and_input-down t d l w ht e =
    let most = l * d * q96 / ((t + d) * t) in
    elim (Bool-cases (leb_ℤ (pos most) (pos w))) [
      | inl reached ↦
          let same = ok-injective (rw reached at e) in
          (t, most, sym same, omega arith, omega arith, ground arith)
      | inr short ↦
          let (z, e_z, e_r) =
            >>=-eq-ok (get_next_sqrt_price_from_input (pos (t + d)) (pos l) (pos w) true) _
              (rw short at e) in
          let (hl, is) = next_down-value (t + d) l w e_z in
          (
            l * (t + d) / (l + w * (t + d) / q96),
            w,
            sym (ok-injective e_r) ∙ ap (λ x. (x, pos w)) is,
            down-least l t d w q96 ht hl (omega arith) (ground arith),
            down-most l (t + d) (w * (t + d) / q96),
            omega arith,
          )
    ]

price_and_input-up :
    (p d l w : ℕ) {r : ℤ × ℤ}
    → price_and_input (pos p) (pos (p + d)) (pos l) (pos w) false (pos (l * d / q96)) ≡ ok r
    → Within p (p + d) w r
unfolding price_and_input
price_and_input-up p d l w e =
    let most = l * d / q96 in
    elim (Bool-cases (leb_ℤ (pos most) (pos w))) [
      | inl reached ↦
          let same = ok-injective (rw reached at e) in
          (p + d, most, sym same, omega arith, omega arith, ground arith)
      | inr short ↦
          let (z, e_z, e_r) =
            >>=-eq-ok (get_next_sqrt_price_from_input (pos p) (pos l) (pos w) false) _
              (rw short at e) in
          let (hl, is) = next_up-value p l w e_z in
          let up = up-most l d w q96 (ground arith) in
          (
            p + w * q96 / l,
            w,
            sym (ok-injective e_r) ∙ ap (λ x. (x, pos w)) is,
            omega arith,
            omega arith,
            omega arith,
          )
    ]

fee_value : (a f : ℕ) → pos a *ℤ pos f /ℤ pos 10_000 ≡ ok (pos (a * f / 10_000))
unfolding ◌*ℤ◌ ◌/ℤ◌ quot
fee_value a f = refl

fee_most : (a f : ℕ) → f ≤ 10_000 → a * f / 10_000 ≤ a
fee_most a f h = let up = mul-le-mul_left a h in div-le_of_le-mul 10_000 (omega arith)

-- The result of a step between two prices, with the input a.
Stays : ℕ → ℕ → ℕ → SwapStepResult → Type 0
Stays low high a r =
    (n u fee : ℕ) × (r.sqrt_p_next ≡ pos n)
    × (r.amount_in ≡ pos u)
    × (r.fee_amount ≡ pos fee)
    × (u + fee ≤ a)
    × (low ≤ n)
    × (n ≤ high)

-- The record of a step between two prices.
record-Stays :
    (low high a fee : ℕ) (pair : ℤ × ℤ) (out : ℤ) {r : SwapStepResult}
    → fee ≤ a
    → Within low high (a - fee) pair
    → ok (record {
      sqrt_p_next = pair.0;
      amount_in = pair.1;
      amount_out = out;
      fee_amount = pos fee;
    })
      ≡ ok r
    → Stays low high a r
unfolding Stays
record-Stays low high a fee pair out {r} h (n, u, is, least, most, input) e =
    let same = ok-injective e in
    (
      n,
      u,
      fee,
      sym (ap (λ (x : SwapStepResult). x.sqrt_p_next) same) ∙ ap (λ (x : ℤ × ℤ). x.0) is,
      sym (ap (λ (x : SwapStepResult). x.amount_in) same) ∙ ap (λ (x : ℤ × ℤ). x.1) is,
      sym (ap (λ (x : SwapStepResult). x.fee_amount) same),
      omega arith,
      least,
      most,
    )

step_down :
    (t d l a f : ℕ) {r : SwapStepResult}
    → 0 < t
    → f ≤ 10_000
    → compute_swap_step (pos (t + d)) (pos t) (pos l) (pos a) (pos f) ≡ ok r
    → Stays t (t + d) a r
unfolding compute_swap_step Stays
step_down t d l a f {r} ht hf e =
    let down : leb_ℤ (pos t) (pos (t + d)) ≡ true = ground arith in
    let fee = a * f / 10_000 in
    let e_after : pos a -ℤ pos fee ≡ pos (a - fee) = sub_pos a fee (fee_most a f hf) in
    let e_1 = rw (down, fee_value a f, e_after, delta0 t d l ht) at e in
    let most = l * d * q96 / ((t + d) * t) in
    let (pair, e_pair, e_2) =
      >>=-eq-ok (price_and_input (pos (t + d)) (pos t) (pos l) (pos (a - fee)) true (pos most)) _
        e_1 in
    let (out, e_out, e_r) =
      >>=-eq-ok (get_amount1_delta pair.0 (pos (t + d)) (pos l) false) _ e_2 in
    record-Stays t (t + d) a fee pair out (fee_most a f hf)
      (price_and_input-down t d l (a - fee) ht e_pair) e_r

step_up :
    (p d l a f : ℕ) {r : SwapStepResult}
    → 0 < d
    → f ≤ 10_000
    → compute_swap_step (pos p) (pos (p + d)) (pos l) (pos a) (pos f) ≡ ok r
    → Stays p (p + d) a r
unfolding compute_swap_step
step_up p d l a f {r} hd hf e =
    let up : leb_ℤ (pos (p + d)) (pos p) ≡ false = ground arith in
    let fee = a * f / 10_000 in
    let e_after : pos a -ℤ pos fee ≡ pos (a - fee) = sub_pos a fee (fee_most a f hf) in
    let e_1 = rw (up, fee_value a f, e_after, delta1 p d l) at e in
    let (pair, e_pair, e_2) =
      >>=-eq-ok
        (price_and_input (pos p) (pos (p + d)) (pos l) (pos (a - fee)) false (pos (l * d / q96))) _
        e_1 in
    let (out, e_out, e_r) = >>=-eq-ok (get_amount0_delta (pos p) pair.0 (pos l) false) _ e_2 in
    record-Stays p (p + d) a fee pair out (fee_most a f hf)
      (price_and_input-up p d l (a - fee) e_pair) e_r

-- A step that succeeds, from a price p towards a target t above 0 and with a fee of at most 100%, ends
-- at a price between the two, and the input that it uses and the fee together are at most the input
-- that it was given.
pub compute_swap_step-within :
    (p t l a f : ℕ) {r : SwapStepResult}
    → 0 < t
    → f ≤ 10_000
    → compute_swap_step (pos p) (pos t) (pos l) (pos a) (pos f) ≡ ok r
    → (n u fee : ℕ) × (r.sqrt_p_next ≡ pos n)
      × (r.amount_in ≡ pos u)
      × (r.fee_amount ≡ pos fee)
      × (u + fee ≤ a)
      × (min p t ≤ n)
      × (n ≤ max p t)
unfolding Stays
compute_swap_step-within p t l a f {r} ht hf e = elim (Bool-cases (leb t p)) [
  | inl down ↦
      let d = p - t in
      let is : p ≡ t + d = ground arith in
      let (n, u, fee, e_n, e_u, e_fee, whole, least, most) =
        step_down t d l a f ht hf (rw is at e) in
      (n, u, fee, e_n, e_u, e_fee, whole, omega arith, omega arith)
  | inr up ↦
      let d = t - p in
      let is : t ≡ p + d = ground arith in
      let (n, u, fee, e_n, e_u, e_fee, whole, least, most) =
        step_up p d l a f (ground arith) hf (rw is at e) in
      (n, u, fee, e_n, e_u, e_fee, whole, omega arith, omega arith)
]
