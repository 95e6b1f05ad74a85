-- ===== src/Math/ConstantProduct/Curve.antt =====
-- The curve of a constant-product swap over the natural numbers: `out_of a x y m` is the output for
-- an input a on reserves x and y, where m is 10000 less the fee.
use soro_pool.Base.{ℕ, suc, ◌+◌, ◌-◌, ◌*◌, ◌/◌, ◌≤◌, ◌<◌, ◌≡◌, arith, sym}
use mathlib.Core.Path.{subst}
use native.Mathlib.Decide.{dec_le, dec_lt}
use native.Mathlib.Nat.{
  mul-pos, div-mul-le_self, lt-div-mul-add, le-div_iff_mul-le, mul-le-mul_left, mul-le-mul_right,
}

abbrev pub out_of : (a x y m : ℕ) → ℕ
out_of a x y m = a * m * y / (x * 10_000 + a * m)

pub scale_pos : (a x m : ℕ) → 0 < x → 0 < x * 10_000 + a * m
scale_pos a x m h = omega arith

-- The output is paid for: in the scaled terms of the code, and no more could be paid.
pub out_of_paid : (a x y m : ℕ) → out_of a x y m * (x * 10_000 + a * m) ≤ a * m * y
out_of_paid a x y m = div-mul-le_self (a * m * y) (x * 10_000 + a * m)

pub out_of_best :
    (a x y m k : ℕ) → 0 < x → k * (x * 10_000 + a * m) ≤ a * m * y → k ≤ out_of a x y m
out_of_best a x y m k h p = (le-div_iff_mul-le (scale_pos a x m h)).1 p

-- With the rest of the reserve named: y is o + z.
paid_rest :
    (a x m o z : ℕ) → o * (x * 10_000 + a * m) ≤ a * m * (o + z) → o * x * 10_000 ≤ a * m * z
paid_rest a x m o z h = omega arith

rest_paid :
    (a x m o z : ℕ) → o * x * 10_000 ≤ a * m * z → o * (x * 10_000 + a * m) ≤ a * m * (o + z)
rest_paid a x m o z h = omega arith

product_rest : (a x m o z : ℕ) → m ≤ 10_000 → o * x * 10_000 ≤ a * m * z → x * (o + z) ≤ (x + a) * z
product_rest a x m o z hm h =
    let scaled : m * (a * z) ≤ 10_000 * (a * z) = mul-le-mul_right (a * z) hm in omega arith

-- Facts of any paid output o.
module _ (a x y m o : ℕ) (paid : o * (x * 10_000 + a * m) ≤ a * m * y) (hx : 0 < x) where
  pub paid-le : o ≤ y
  paid-le = elim (dec_le o y) [
    | yes h ↦ h
    | no h ↦
        let big : suc y * (x * 10_000 + a * m) ≤ o * (x * 10_000 + a * m) =
          mul-le-mul_right _ (omega arith) in
        absurd (omega arith)
  ]

  pub paid-lt : 0 < y → o < y
  paid-lt hy = elim (dec_lt o y) [
    | yes h ↦ h
    | no h ↦
        let same : o ≡ y = omega (arith, paid-le) in
        let p : 0 < y * x = mul-pos hy hx in
        let full : y * (x * 10_000 + a * m) ≤ a * m * y = rw same at paid in absurd (omega arith)
  ]

  split : y ≡ o + (y - o)
  split = omega (arith, paid-le)

  -- What the input side must gain for the output.
  pub paid-scaled : o * x * 10_000 ≤ a * m * (y - o)
  paid-scaled = paid_rest a x m o (y - o) (rw (← split) paid)

  -- The product of the reserves does not fall.
  pub paid-keeps_product : m ≤ 10_000 → x * y ≤ (x + a) * (y - o)
  paid-keeps_product hm =
      let h : x * (o + (y - o)) ≤ (x + a) * (y - o) = product_rest a x m o (y - o) hm paid-scaled in
      rw (← split) at h

-- More input gives no less output.
pub out_of_mono : (a b x y m : ℕ) → 0 < x → a ≤ b → out_of a x y m ≤ out_of b x y m
out_of_mono a b x y m hx h =
    let o = out_of a x y m in
    let paid = out_of_paid a x y m in
    let more : a * (m * (y - o)) ≤ b * (m * (y - o)) = mul-le-mul_right (m * (y - o)) h in
    let scaled : o * x * 10_000 ≤ b * m * (y - o) = omega (arith, paid-scaled a x y m o paid hx) in
    out_of_best b x y m o hx (
      subst (λ t. o * (x * 10_000 + b * m) ≤ b * m * t) (sym (split a x y m o paid hx))
        (rest_paid b x m o (y - o) scaled))

-- The input that `getAmountIn` asks for an output o below y, on reserves x and y.
abbrev pub in_for : (o x y m : ℕ) → ℕ
in_for o x y m = x * o * 10_000 / ((y - o) * m) + 1

module _ (o x y m : ℕ) (hx : 0 < x) (hm : 0 < m) (ho : o < y) where
  gap_pos : 0 < (y - o) * m
  gap_pos = mul-pos (omega arith) hm

  -- It buys the output,
  pub in_for_enough : o ≤ out_of (in_for o x y m) x y m
  in_for_enough =
      let i = in_for o x y m in
      let more = lt-div-mul-add {a = x * o * 10_000} gap_pos in
      let e : y ≡ o + (y - o) = omega arith in
      out_of_best i x y m o hx (
        subst (λ t. o * (x * 10_000 + i * m) ≤ i * m * t) (sym e)
          (rest_paid i x m o (y - o) (omega arith)))

  -- and one unit less buys no more than the output.
  pub in_for_tight : out_of (x * o * 10_000 / ((y - o) * m)) x y m ≤ o
  in_for_tight =
      let i = x * o * 10_000 / ((y - o) * m) in
      let k = out_of i x y m in
      let asked : i * ((y - o) * m) ≤ x * o * 10_000 =
        div-mul-le_self (x * o * 10_000) ((y - o) * m) in
      let scaled = paid-scaled i x y m k (out_of_paid i x y m) hx in
      elim (dec_le k o) [
        | yes h ↦ h
        | no h ↦
            let gap : i * m * (y - k) ≤ i * m * (y - o) = mul-le-mul_left (i * m) (omega arith) in
            let more : suc o * x ≤ k * x = mul-le-mul_right x (omega arith) in absurd (omega arith)
      ]
