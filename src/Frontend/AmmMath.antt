-- ===== src/Frontend/AmmMath.antt =====
-- frontend/src/app/core/services/amm-math.service.ts: the pool mathematics of the pages, on bigints.
pub mod Agrees
use soro_pool.Base.{
  ℕ, zero, suc, ◌+◌, ◌/◌, Bool, true, false, Option, none, some, Result, ok, err, out_of_rounds,
  ltb, leb, if◌then◌else◌, ◌>>=◌,
}
use soro_pool.Base.Int.{ℤ, pos, negsuc, ◌+ℤ◌, ◌-ℤ◌, ◌*ℤ◌, ◌/ℤ◌, eqb_ℤ, ltb_ℤ}
use soro_pool.Js.Number.{JsNumber}

-- The amount of `getAmountOut`
unfoldable pub page_amount_out : ℤ → ℤ → ℤ → ℤ → Result ℤ
page_amount_out amount_in reserve_in reserve_out fee_bps =
    let amount_in_with_fee = amount_in *ℤ (pos 10_000 -ℤ fee_bps) in
    (amount_in_with_fee *ℤ reserve_out) /ℤ (reserve_in *ℤ pos 10_000 +ℤ amount_in_with_fee)

-- `getAmountIn`
unfoldable pub page_amount_in : ℤ → ℤ → ℤ → ℤ → Result ℤ
page_amount_in amount_out reserve_in reserve_out fee_bps = do
  q ←
      (reserve_in *ℤ amount_out *ℤ pos 10_000)
      /ℤ ((reserve_out -ℤ amount_out) *ℤ (pos 10_000 -ℤ fee_bps))
  ok (q +ℤ pos 1)

-- `while (r > x / r) r = (r + x / r) / 2n`
unfoldable pub page_sqrt_loop : ℕ → ℕ → ℕ → Option ℕ
page_sqrt_loop zero x r = none
page_sqrt_loop (suc fuel) x r =
    let more = page_sqrt_loop fuel x ((r + x / r) / 2) in if ltb (x / r) r then more else some r

abbrev pub loop_result : Option ℕ → Result ℤ
loop_result none = err out_of_rounds
loop_result (some r) = ok (pos r)

-- `sqrt`: a negative x divided by itself is 1, which is not below x, so that the loop ends at once.
unfoldable pub page_sqrt : ℤ → Result ℤ
page_sqrt (negsuc x) = ok (negsuc x)
page_sqrt (pos x) = if leb x 0 then ok (pos 0) else loop_result (page_sqrt_loop (suc x) x x)

abbrev pub page_first_mint : ℤ → ℤ → Result ℤ
page_first_mint amount_a amount_b = do
  root ← page_sqrt (amount_a *ℤ amount_b)
  ok (root -ℤ pos 1000)

abbrev pub page_later_mint : ℤ → ℤ → ℤ → ℤ → ℤ → Result ℤ
page_later_mint amount_a amount_b reserve_a reserve_b total_supply = do
  lp_from_a ← (amount_a *ℤ total_supply) /ℤ reserve_a
  lp_from_b ← (amount_b *ℤ total_supply) /ℤ reserve_b
  ok (if ltb_ℤ lp_from_a lp_from_b then lp_from_a else lp_from_b)

-- `calcLpTokensMinted`
unfoldable pub page_lp_minted : ℤ → ℤ → ℤ → ℤ → ℤ → Result ℤ
page_lp_minted amount_a amount_b reserve_a reserve_b total_supply =
    if eqb_ℤ total_supply (pos 0)
    then page_first_mint amount_a amount_b
    else page_later_mint amount_a amount_b reserve_a reserve_b total_supply

module _ (num : JsNumber) where
  -- The price impact of `getAmountOut`
  abbrev pub page_impact : ℤ → ℤ → ℤ → ℤ → num.Num
  page_impact amount_in reserve_in reserve_out amount_out =
      let spot = num.div (num.of_int reserve_out) (num.of_int reserve_in) in
      let execution = num.div (num.of_int amount_out) (num.of_int amount_in) in
      num.abs (num.sub (num.of_text "1") (num.div execution spot))

  -- `getAmountOut`
  unfoldable pub page_get_amount_out : ℤ → ℤ → ℤ → ℤ → Result (ℤ × num.Num)
  page_get_amount_out amount_in reserve_in reserve_out fee_bps = do
    amount_out ← page_amount_out amount_in reserve_in reserve_out fee_bps
    ok (amount_out, page_impact amount_in reserve_in reserve_out amount_out)
