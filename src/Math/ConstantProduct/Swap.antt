-- ===== src/Math/ConstantProduct/Swap.antt =====
-- What `getAmountOut` and `getAmountIn` promise.
use soro_pool.Base.{
  ℕ, ◌+◌, ◌-◌, ◌*◌, ◌/◌, ◌≤◌, ◌<◌, String, ◌≡◌, refl, arith, ok, err, >>=-eq-ok, leb, if◌then◌else◌,
  insufficient_output,
}
use soro_pool.Base.Int.{ℤ, pos, ◌+ℤ◌, ◌-ℤ◌, ◌*ℤ◌, ◌/ℤ◌, div_pos, mul_pos, add_pos}
use soro_pool.Js.BigInt.{big_int, to_string}
use soro_pool.Js.BigInt.RoundTrip.{big_int-to_string}
use soro_pool.Js.Number.{JsNumber}
use soro_pool.Math.ConstantProduct.{
  amount_out_big, amount_in_big, get_amount_out, AmountResult, price_impact_big,
}
use soro_pool.Math.ConstantProduct.Curve.{out_of, scale_pos, in_for}

-- The bigint part on positive arguments.
pub amount_out_big-eq :
    (a x y f : ℕ)
    → 0 < a
    → 0 < x
    → 0 < y
    → f ≤ 10_000
    → amount_out_big (pos a) (pos x) (pos y) (pos f) ≡ (
        if leb (out_of a x y (10_000 - f)) 0
        then err insufficient_output
        else ok (pos (out_of a x y (10_000 - f))))
unfolding amount_out_big ◌-ℤ◌ ◌*ℤ◌ ◌+ℤ◌ ◌/ℤ◌
amount_out_big-eq a x y f ha hx hy hf = ground (arith, scale_pos a x (10_000 - f) hx)

-- Success has positive arguments and the closed form.
pub amount_out_big-ok :
    (a x y f : ℕ) {z : ℤ}
    → f ≤ 10_000
    → amount_out_big (pos a) (pos x) (pos y) (pos f) ≡ ok z
    → (z ≡ pos (out_of a x y (10_000 - f)))
      × (0 < out_of a x y (10_000 - f))
      × (0 < a)
      × (0 < x)
      × (0 < y)
unfolding amount_out_big ◌-ℤ◌ ◌*ℤ◌ ◌+ℤ◌ ◌/ℤ◌
amount_out_big-ok a x y f hf e =
    (ground arith, ground arith, ground arith, ground arith, ground arith)

pub amount_in_big-ok :
    (o x y f : ℕ) {z : ℤ}
    → f ≤ 10_000
    → amount_in_big (pos o) (pos x) (pos y) (pos f) ≡ ok z
    → (z ≡ pos (in_for o x y (10_000 - f))) × (0 < 10_000 - f) × (0 < o) × (0 < x) × (o < y)
unfolding amount_in_big ◌-ℤ◌ ◌*ℤ◌ ◌+ℤ◌ ◌/ℤ◌
amount_in_big-ok o x y f hf e =
    (ground arith, ground arith, ground arith, ground arith, ground arith)

-- A call on texts that hold bigints is the bigint part.
module _ (js : JsNumber) (s_in s_x s_y : String) {a x y : ℤ} (f : ℤ) (e_in : big_int s_in ≡ ok a)
    (e_x : big_int s_x ≡ ok x) (e_y : big_int s_y ≡ ok y) where
  pub get_amount_out-ok :
      {r : AmountResult js}
      → get_amount_out js s_in s_x s_y f ≡ ok r
      → (o : ℤ) × (amount_out_big a x y f ≡ ok o) × (r.amount_out ≡ to_string o)
  unfolding get_amount_out
  get_amount_out-ok e =
      let (o, e_o, rest) = >>=-eq-ok (amount_out_big a x y f) _ (rw (e_in, e_x, e_y) at e) in
      let (p, e_p, last) = >>=-eq-ok (price_impact_big js a x) _ rest in (o, e_o, cc last)

-- The price impact of a swap with an input is always computed.
price_impact_big-ok :
    (js : JsNumber) (a x : ℕ) → 0 < a → (p : js.Num) × (price_impact_big js (pos a) (pos x) ≡ ok p)
unfolding price_impact_big
price_impact_big-ok js a x h = (
  js.div (js.of_int (pos (a * 10_000 / (x + a)))) (js.of_int (pos 10_000)),
  rw (mul_pos a 10_000, add_pos x a, div_pos (a * 10_000) (x + a) (omega arith)) refl,
)

module _ (js : JsNumber) (s_in s_x s_y : String) {a x y : ℕ} (f : ℕ)
    (e_in : big_int s_in ≡ ok (pos a)) (e_x : big_int s_x ≡ ok (pos x))
    (e_y : big_int s_y ≡ ok (pos y)) where
  pub get_amount_out-succeeds :
      {o : ℤ}
      → 0 < a
      → amount_out_big (pos a) (pos x) (pos y) (pos f) ≡ ok o
      → (r : AmountResult js) × (get_amount_out js s_in s_x s_y (pos f) ≡ ok r)
        × (r.amount_out ≡ to_string o)
  unfolding get_amount_out
  get_amount_out-succeeds {o} ha e =
      let (p, e_p) = price_impact_big-ok js a x ha in
      (
        record { amount_out = to_string o; price_impact = p },
        rw (e_in, e_x, e_y, e, e_p) refl,
        refl,
      )
      -- What a successful call returns, read back as a number.

  pub get_amount_out-value :
      {r : AmountResult js}
      → f ≤ 10_000
      → get_amount_out js s_in s_x s_y (pos f) ≡ ok r
      → (big_int r.amount_out ≡ ok (pos (out_of a x y (10_000 - f))))
        × (0 < out_of a x y (10_000 - f))
        × (0 < a)
        × (0 < x)
        × (0 < y)
  get_amount_out-value hf e =
      let (o, e_o, shown) = get_amount_out-ok js s_in s_x s_y (pos f) e_in e_x e_y e in
      let (is, ho, ha, hx, hy) = amount_out_big-ok a x y f hf e_o in
      (rw (shown, is) (big_int-to_string _), ho, ha, hx, hy)
