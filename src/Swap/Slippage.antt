-- ===== src/Swap/Slippage.antt =====
-- What a quote on a pool and the least amount out promise.
use soro_pool.Base.{
  ℕ, ◌+◌, ◌-◌, ◌*◌, ◌/◌, ◌≤◌, ◌<◌, String, ◌≡◌, refl, sym, ap, ◌∙◌, some, ok, >>=-eq-ok,
  ok-injective, arith, Bool-cases, inl, inr, if◌then◌else◌,
}
use soro_pool.Base.Int.{ℤ, pos, ◌-ℤ◌, ◌*ℤ◌, ◌/ℤ◌, sub_pos, div_pos, mul_pos}
use soro_pool.Js.BigInt.{big_int, to_string}
use soro_pool.Js.BigInt.RoundTrip.{big_int-to_string}
use soro_pool.Js.Number.{JsNumber}
use soro_pool.Math.ConstantProduct.{get_amount_out}
use soro_pool.Math.ConstantProduct.Promises.{get_amount_out-keeps_product}
use soro_pool.Swap.{
  PoolRecord, PoolQuote, quote_reserve_in, quote_reserve_out, quote_on, pool_quote, min_amount_out,
}
use native.Mathlib.Nat.{div-mul-le_self, lt-div-mul-add, div-le_of_le-mul, mul-le-mul_left}
use mathlib.Core.Path.{subst}
use text.Mathlib.Text.{◌==◌}
use text.Mathlib.TextEquality.{eq_iff}

zero_texts : big_int "0" ≡ big_int ""
unfolding big_int
zero_texts = refl

or_zero_same : (s : String) {z : ℤ} → big_int s ≡ ok z → big_int (if s == "" then "0" else s) ≡ ok z
or_zero_same s {z} e = elim (Bool-cases (s == "")) [
  | inl empty ↦
      let nothing : s ≡ "" = (eq_iff s "").0 empty in rw empty (zero_texts ∙ rw nothing at e)
  | inr full ↦ rw full e
]

distribute : (a d b : ℕ) → a * d + a * b ≡ a * (d + b)
distribute a d b = omega arith

cut_most : (a b : ℕ) → b ≤ 10_000 → a * b / 10_000 ≤ a
cut_most a b h = let up = mul-le-mul_left a h in div-le_of_le-mul 10_000 (omega arith)

module _ (js : JsNumber) where
  -- For an amount that is not negative and a slippage of b hundredths of a percent after rounding, at
  -- most 100%, the least amount out is computed, and is the amount less that share, rounded up.
  pub min_amount_out-share :
      (s : String) (slippage : js.Num) (a b : ℕ)
      → big_int s ≡ ok (pos a)
      → js.round (js.mul slippage (js.of_int (pos 10_000))) ≡ pos b
      → b ≤ 10_000
      → (t : String) × (m : ℕ) × (min_amount_out js s slippage ≡ ok t)
        × (big_int t ≡ ok (pos m))
        × (m ≤ a)
        × (a * (10_000 - b) ≤ m * 10_000)
        × (m * 10_000 < a * (10_000 - b) + 10_000)
  unfolding min_amount_out
  min_amount_out-share s slippage a b e_s e_b h =
      let cut = a * b / 10_000 in
      let e_cut : pos a *ℤ pos b /ℤ pos 10_000 ≡ ok (pos cut) =
        rw (mul_pos a b) (div_pos (a * b) 10_000 (omega arith)) in
      let e_rest : pos a -ℤ pos cut ≡ pos (a - cut) = sub_pos a cut (cut_most a b h) in
      let below : cut * 10_000 ≤ a * b = div-mul-le_self (a * b) 10_000 in
      let above : a * b < cut * 10_000 + 10_000 = lt-div-mul-add (omega arith) in
      let most : cut ≤ a = cut_most a b h in
      let whole : 10_000 - b + b ≡ 10_000 = omega arith in
      let split : a * (10_000 - b) + a * b ≡ a * 10_000 =
        distribute a (10_000 - b) b ∙ ap (λ x. a * x) whole in
      (
        to_string (pos (a - cut)),
        a - cut,
        rw (or_zero_same s e_s, e_b, e_cut, e_rest) refl,
        big_int-to_string (pos (a - cut)),
        omega arith,
        omega arith,
        omega arith,
      )

  -- A quote on a pool whose fee is at most 100% and whose reserves are not negative, where it is
  -- given, names an output that keeps the product of the two reserves from falling.
  pub pool_quote-keeps_product :
      (pool : PoolRecord) (token_in token_out s : String) (a x y f : ℕ) {q : PoolQuote js}
      → f ≤ 10_000
      → pool.fee_bps ≡ pos f
      → big_int s ≡ ok (pos a)
      → big_int (quote_reserve_in pool token_in) ≡ ok (pos x)
      → big_int (quote_reserve_out pool token_in) ≡ ok (pos y)
      → pool_quote js (some pool) token_in token_out s ≡ ok q
      → (o : ℕ) × (big_int q.amount_out ≡ ok (pos o))
        × (0 < o)
        × (o < y)
        × (x * y ≤ (x + a) * (y - o))
  unfolding pool_quote quote_on
  pool_quote-keeps_product pool token_in token_out s a x y f {q} hf e_f e_s e_x e_y e =
      let s_x = quote_reserve_in pool token_in in
      let s_y = quote_reserve_out pool token_in in
      let (r, e_r, e_1) = >>=-eq-ok (get_amount_out js s s_x s_y pool.fee_bps) _ e in
      let (amount, e_a, e_2) = >>=-eq-ok (big_int s) _ e_1 in
      let (out, e_o, e_3) = >>=-eq-ok (big_int r.amount_out) _ e_2 in
      let (fee, e_fee, e_q) = >>=-eq-ok (amount *ℤ pool.fee_bps /ℤ pos 10_000) _ e_3 in
      let shown : r.amount_out ≡ q.amount_out =
        ap (λ (z : PoolQuote js). z.amount_out) (ok-injective e_q) in
      let (o, e_z, some_out, below, product) =
        get_amount_out-keeps_product js s s_x s_y a x y f hf e_s e_x e_y
          (subst (λ p. get_amount_out js s s_x s_y p ≡ ok r) e_f e_r) in
      (o, ap big_int (sym shown) ∙ e_z, some_out, below, product)
