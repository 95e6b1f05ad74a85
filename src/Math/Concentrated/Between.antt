-- ===== src/Math/Concentrated/Between.antt =====
-- The arithmetic that keeps a step's price between the price before it and its target.
use soro_pool.Base.{ℕ, zero, suc, ◌+◌, ◌*◌, ◌/◌, ◌≤◌, ◌<◌, arith}
use native.Mathlib.Nat.{
  div-mul-le_self, le-div_iff_mul-le, div-le_of_le-mul, mul-le-mul_right, le_of_mul-le-mul_right,
}

pub product_pos : (x y : ℕ) → 0 < x → 0 < y → 0 < x * y
product_pos zero y hx hy = absurd (omega arith)
product_pos (suc x) y hx hy = let step = mul-le-mul_right y hx in omega arith

-- The arithmetic of a step that lowers the price from t + d towards t, with u of input.
module _ (l t d u q : ℕ) (ht : 0 < t) (hl : 0 < l) (hq : 0 < q)
    (below : u ≤ l * d * q / ((t + d) * t)) where
  added-le : u * (t + d) / q * t ≤ l * d
  added-le =
      let hd : 0 < (t + d) * t = product_pos (t + d) t (omega arith) ht in
      let in_max : u * ((t + d) * t) ≤ l * d * q = (le-div_iff_mul-le {x = u} hd).0 below in
      let whole : u * (t + d) / q * q ≤ u * (t + d) = div-mul-le_self (u * (t + d)) q in
      let times : u * (t + d) / q * q * t ≤ u * (t + d) * t = mul-le-mul_right t whole in
      le_of_mul-le-mul_right {k = q} (omega arith) hq

  pub down-least : t ≤ l * (t + d) / (l + u * (t + d) / q)
  down-least = (le-div_iff_mul-le {x = t} (omega arith)).1 (omega (arith, added-le))

pub down-most : (l p s : ℕ) → l * p / (l + s) ≤ p
down-most l p s = div-le_of_le-mul (l + s) (mul-le-mul_right p (omega arith))

pub up-most : (l d u q : ℕ) → u ≤ l * d / q → u * q / l ≤ d
up-most l d u q h =
    let whole : l * d / q * q ≤ l * d = div-mul-le_self (l * d) q in
    let scaled : u * q ≤ l * d / q * q = mul-le-mul_right q h in div-le_of_le-mul l (omega arith)
