-- ===== src/Math/ConstantProduct/Promises.antt =====
-- What `getAmountOut` and `getAmountIn` promise to a trader and to the pool, text to text.
use soro_pool.Base.{
  ℕ, ◌+◌, ◌-◌, ◌*◌, ◌≤◌, ◌<◌, String, ◌≡◌, arith, ok, >>=-eq-ok, ap, sym, ◌∙◌, lt→leb,
}
use native.Mathlib.Nat.{le_of_mul-le-mul_right}
use soro_pool.Base.Int.{pos}
use soro_pool.Js.BigInt.{big_int, to_string}
use soro_pool.Js.BigInt.RoundTrip.{big_int-to_string}
use soro_pool.Js.Number.{JsNumber}
use soro_pool.Math.ConstantProduct.{amount_in_big, get_amount_out, get_amount_in, AmountResult}
use soro_pool.Math.ConstantProduct.Curve.{
  out_of, in_for, out_of_paid, paid-lt, paid-keeps_product, out_of_mono, in_for_enough,
}
use soro_pool.Math.ConstantProduct.Swap.{
  get_amount_out-value, get_amount_out-succeeds, amount_in_big-ok, amount_out_big-eq,
}

-- A swap that succeeds, with a fee of at most 100%, pays out a positive amount below the reserve,
-- and the product of the two reserves after it is not below the product before it.
pub get_amount_out-keeps_product :
    (js : JsNumber) (s_in s_x s_y : String) (a x y f : ℕ) {r : AmountResult js}
    → f ≤ 10_000
    → big_int s_in ≡ ok (pos a)
    → big_int s_x ≡ ok (pos x)
    → big_int s_y ≡ ok (pos y)
    → get_amount_out js s_in s_x s_y (pos f) ≡ ok r
    → (o : ℕ) × (big_int r.amount_out ≡ ok (pos o))
      × (0 < o)
      × (o < y)
      × (x * y ≤ (x + a) * (y - o))
get_amount_out-keeps_product js s_in s_x s_y a x y f hf e_in e_x e_y e =
    let (v, ho, ha, hx, hy) = get_amount_out-value js s_in s_x s_y f e_in e_x e_y hf e in
    let o = out_of a x y (10_000 - f) in
    let paid = out_of_paid a x y (10_000 - f) in
    let below = paid-lt a x y (10_000 - f) o paid hx hy in
    (o, v, ho, below, paid-keeps_product a x y (10_000 - f) o paid hx (omega arith))

-- Of two swaps that succeed on the same reserves and with the same fee, of at most 100%, the one
-- with no less input has no less output.
pub get_amount_out-monotone :
    (js : JsNumber) (s_in t_in s_x s_y : String) (a b x y f : ℕ) {r t : AmountResult js}
    → f ≤ 10_000
    → a ≤ b
    → big_int s_in ≡ ok (pos a)
    → big_int t_in ≡ ok (pos b)
    → big_int s_x ≡ ok (pos x)
    → big_int s_y ≡ ok (pos y)
    → get_amount_out js s_in s_x s_y (pos f) ≡ ok r
    → get_amount_out js t_in s_x s_y (pos f) ≡ ok t
    → (o p : ℕ) × (big_int r.amount_out ≡ ok (pos o))
      × (big_int t.amount_out ≡ ok (pos p))
      × (o ≤ p)
get_amount_out-monotone js s_in t_in s_x s_y a b x y f hf h e_in e_b e_x e_y e d =
    let (v, ho, ha, hx, hy) = get_amount_out-value js s_in s_x s_y f e_in e_x e_y hf e in
    let w = get_amount_out-value js t_in s_x s_y f e_b e_x e_y hf d in
    (
      out_of a x y (10_000 - f),
      out_of b x y (10_000 - f),
      v,
      w.0,
      out_of_mono a b x y (10_000 - f) hx h,
    )

-- The output of the way back, k, is paid: the product does not fall on either way.
back_again :
    (a x y o k : ℕ)
    → o < y
    → k < x + a
    → x * y ≤ (x + a) * (y - o)
    → (y - o) * (x + a) ≤ (y - o + o) * (x + a - k)
    → k ≤ a
back_again a x y o k below hk there back =
    let e : y - o + o ≡ y = omega arith in
    let whole : (y - o) * (x + a) ≤ y * (x + a - k) = rw e at back in
    let both : x * y ≤ (x + a - k) * y = omega (arith, there, whole) in
    let h : x ≤ x + a - k = le_of_mul-le-mul_right both (omega arith) in omega arith

-- Where a swap succeeds, and so does the swap of its output back on the reserves that it leaves,
-- the second returns no more than was put into the first, whatever the two fees are, up to 100%
-- each.
pub get_amount_out-no_free_money :
    (js : JsNumber) (s_in s_x s_y : String) (a x y f g o : ℕ) {r t : AmountResult js}
    → f ≤ 10_000
    → g ≤ 10_000
    → big_int s_in ≡ ok (pos a)
    → big_int s_x ≡ ok (pos x)
    → big_int s_y ≡ ok (pos y)
    → get_amount_out js s_in s_x s_y (pos f) ≡ ok r
    → big_int r.amount_out ≡ ok (pos o)
    → get_amount_out js r.amount_out (to_string (pos (y - o))) (to_string (pos (x + a))) (pos g)
      ≡ ok t
    → (k : ℕ) × (big_int t.amount_out ≡ ok (pos k)) × (k ≤ a)
get_amount_out-no_free_money js s_in s_x s_y a x y f g o {r} hf hg e_in e_x e_y e e_o d =
    let (p, v, hp, below, there) =
      get_amount_out-keeps_product js s_in s_x s_y a x y f hf e_in e_x e_y e in
    let same : p ≡ o = cc in
    let (k, w, hk, under, back) =
      get_amount_out-keeps_product js r.amount_out (to_string (pos (y - o)))
        (to_string (pos (x + a))) o (y - o) (x + a) g hg e_o (big_int-to_string _)
        (big_int-to_string _) d in
    (k, w, back_again a x y o k (rw same at below) under (rw same at there) back)

-- What a successful `getAmountIn` returns, read back as a number.
get_amount_in-value :
    (s_out s_x s_y : String) (o x y f : ℕ) {s_in : String}
    → f ≤ 10_000
    → big_int s_out ≡ ok (pos o)
    → big_int s_x ≡ ok (pos x)
    → big_int s_y ≡ ok (pos y)
    → get_amount_in s_out s_x s_y (pos f) ≡ ok s_in
    → (big_int s_in ≡ ok (pos (in_for o x y (10_000 - f))))
      × (0 < 10_000 - f)
      × (0 < o)
      × (0 < x)
      × (o < y)
unfolding get_amount_in
get_amount_in-value s_out s_x s_y o x y f {s_in} hf e_o e_x e_y e =
    let (z, e_z, shown) =
      >>=-eq-ok (amount_in_big (pos o) (pos x) (pos y) (pos f)) _ (rw (e_o, e_x, e_y) at e) in
    let (is, hm, ho, hx, hy) = amount_in_big-ok o x y f hf e_z in
    let same : to_string z ≡ s_in = cc shown in
    (
      ap big_int (sym same) ∙ ap (λ t. big_int (to_string t)) is ∙ big_int-to_string _,
      hm,
      ho,
      hx,
      hy,
    )

-- With a fee of at most 100%, the input that a successful `getAmountIn` names buys at least the
-- output that was asked for: `getAmountOut` accepts it on the same reserves and fee, and returns
-- no less.
pub get_amount_in-buys :
    (js : JsNumber) (s_out s_x s_y : String) (o x y f : ℕ) {s_in : String}
    → f ≤ 10_000
    → big_int s_out ≡ ok (pos o)
    → big_int s_x ≡ ok (pos x)
    → big_int s_y ≡ ok (pos y)
    → get_amount_in s_out s_x s_y (pos f) ≡ ok s_in
    → (r : AmountResult js) × (k : ℕ) × (get_amount_out js s_in s_x s_y (pos f) ≡ ok r)
      × (big_int r.amount_out ≡ ok (pos k))
      × (o ≤ k)
get_amount_in-buys js s_out s_x s_y o x y f hf e_o e_x e_y e =
    let m = 10_000 - f in
    let (v, hm, ho, hx, hy) = get_amount_in-value s_out s_x s_y o x y f hf e_o e_x e_y e in
    let i = in_for o x y m in
    let enough = in_for_enough o x y m hx hm hy in
    let eq = amount_out_big-eq i x y f (omega arith) hx (omega arith) hf in
    let (r, e_r, shown) =
      get_amount_out-succeeds js _ s_x s_y f v e_x e_y {o = pos (out_of i x y m)} (omega arith)
        (eq ∙ rw (lt→leb (out_of i x y m) 0 (omega arith))) in
    (r, out_of i x y m, e_r, rw shown (big_int-to_string _), enough)
