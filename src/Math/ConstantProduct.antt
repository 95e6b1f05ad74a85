-- ===== src/Math/ConstantProduct.antt =====
-- backend/src/shared/amm-math/constant-product.math.ts. Each exported function parses its texts and
-- then computes on bigints; the part after the parsing is a function of its own, `…_big`.
pub mod Sqrt
mod Curve
pub mod Swap
pub mod Shares
pub mod Promises
unfoldable pub use Sqrt.{integer_sqrt}
use soro_pool.Base.{
  ℕ, zero, suc, ◌+◌, ◌*◌, ◌/◌, ◌≤◌, ◌<◌, String, ◌≡◌, refl, Bool, true, false, ◌||◌, arith, Result,
  ok, err, ◌>>=◌, ◌>>◌, throw_if, invalid_input, insufficient_output, insufficient_liquidity,
  zero_liquidity, if◌then◌else◌,
}
use soro_pool.Base.Int.{ℤ, pos, negsuc, ◌+ℤ◌, ◌-ℤ◌, ◌*ℤ◌, ◌/ℤ◌, ltb_ℤ, leb_ℤ, eqb_ℤ}
use soro_pool.Js.BigInt.{big_int, to_string}
use soro_pool.Js.Number.{JsNumber}

abbrev pub fee_denominator : ℤ
fee_denominator = pos 10_000

abbrev pub minimum_liquidity : ℤ
minimum_liquidity = pos 1000

-- `x <= 0n`
abbrev pub not_positive : ℤ → Bool
not_positive x = leb_ℤ x (pos 0)

unfoldable pub amount_out_big : ℤ → ℤ → ℤ → ℤ → Result ℤ
amount_out_big a_in r_in r_out fee_bps = do
  throw_if (not_positive a_in || not_positive r_in || not_positive r_out) invalid_input
  let fee_multiplier = fee_denominator -ℤ fee_bps
  let amount_in_with_fee = a_in *ℤ fee_multiplier
  let numerator = amount_in_with_fee *ℤ r_out
  let denominator = r_in *ℤ fee_denominator +ℤ amount_in_with_fee
  amount_out ← numerator /ℤ denominator
  throw_if (not_positive amount_out) insufficient_output
  ok amount_out

unfoldable pub amount_in_big : ℤ → ℤ → ℤ → ℤ → Result ℤ
amount_in_big a_out r_in r_out fee_bps = do
  throw_if (not_positive a_out || not_positive r_in || not_positive r_out) invalid_input
  throw_if (leb_ℤ r_out a_out) insufficient_liquidity
  let fee_multiplier = fee_denominator -ℤ fee_bps
  let numerator = r_in *ℤ a_out *ℤ fee_denominator
  let denominator = (r_out -ℤ a_out) *ℤ fee_multiplier
  q ← numerator /ℤ denominator
  ok (q +ℤ pos 1)

-- `getAmountIn`
unfoldable pub get_amount_in : String → String → String → ℤ → Result String
get_amount_in amount_out reserve_in reserve_out fee_bps = do
  a_out ← big_int amount_out
  r_in ← big_int reserve_in
  r_out ← big_int reserve_out
  amount_in ← amount_in_big a_out r_in r_out fee_bps
  ok (to_string amount_in)

unfoldable pub first_mint_big : ℤ → ℤ → Result ℤ
first_mint_big a_a a_b = do
  sqrt ← integer_sqrt (a_a *ℤ a_b)
  let lp = sqrt -ℤ minimum_liquidity
  throw_if (not_positive lp) zero_liquidity
  ok lp

unfoldable pub later_mint_big : ℤ → ℤ → ℤ → ℤ → ℤ → Result ℤ
later_mint_big a_a a_b r_a r_b t_s = do
  lp_from_a ← (a_a *ℤ t_s) /ℤ r_a
  lp_from_b ← (a_b *ℤ t_s) /ℤ r_b
  ok (if ltb_ℤ lp_from_a lp_from_b then lp_from_a else lp_from_b)

unfoldable pub lp_minted_big : ℤ → ℤ → ℤ → ℤ → ℤ → Result ℤ
lp_minted_big a_a a_b r_a r_b t_s = do
  throw_if (not_positive a_a || not_positive a_b) invalid_input
  if eqb_ℤ t_s (pos 0) then first_mint_big a_a a_b else later_mint_big a_a a_b r_a r_b t_s

-- `calcLpTokensMinted`
unfoldable pub calc_lp_tokens_minted : String → String → String → String → String → Result String
calc_lp_tokens_minted amount_a amount_b reserve_a reserve_b total_supply = do
  a_a ← big_int amount_a
  a_b ← big_int amount_b
  r_a ← big_int reserve_a
  r_b ← big_int reserve_b
  t_s ← big_int total_supply
  lp ← lp_minted_big a_a a_b r_a r_b t_s
  ok (to_string lp)

unfoldable pub lp_burned_big : ℤ → ℤ → ℤ → ℤ → Result (ℤ × ℤ)
lp_burned_big lp t_s r_a r_b = do
  throw_if (not_positive t_s || not_positive lp) invalid_input
  throw_if (ltb_ℤ t_s lp) insufficient_liquidity
  amount_a ← (lp *ℤ r_a) /ℤ t_s
  amount_b ← (lp *ℤ r_b) /ℤ t_s
  ok (amount_a, amount_b)

-- `calcLpTokensBurned`
unfoldable pub calc_lp_tokens_burned : String → String → String → String → Result (String × String)
calc_lp_tokens_burned lp_amount total_supply reserve_a reserve_b = do
  lp ← big_int lp_amount
  t_s ← big_int total_supply
  r_a ← big_int reserve_a
  r_b ← big_int reserve_b
  (amount_a, amount_b) ← lp_burned_big lp t_s r_a r_b
  ok (to_string amount_a, to_string amount_b)

module _ (js : JsNumber) where
  open js use {Num, of_text, of_int, div}

  pub record AmountResult : Type 0 where
    pub amount_out : String
    pub price_impact : Num

  -- `priceImpact`: the share of the input in the grown reserve, in hundredths of a percent, over 10000
  unfoldable pub price_impact_big : ℤ → ℤ → Result Num
  price_impact_big a_in r_in = do
    q ← (a_in *ℤ pos 10_000) /ℤ (r_in +ℤ a_in)
    ok (div (of_int q) (of_int (pos 10_000)))

  -- `getAmountOut`
  unfoldable pub get_amount_out : String → String → String → ℤ → Result AmountResult
  get_amount_out amount_in reserve_in reserve_out fee_bps = do
    a_in ← big_int amount_in
    r_in ← big_int reserve_in
    r_out ← big_int reserve_out
    amount_out ← amount_out_big a_in r_in r_out fee_bps
    price_impact ← price_impact_big a_in r_in
    ok (record { amount_out = to_string amount_out; price_impact = price_impact })

  -- `getSpotPrice`
  unfoldable pub get_spot_price : String → String → Result Num
  get_spot_price reserve_a reserve_b = do
    r_a ← big_int reserve_a
    r_b ← big_int reserve_b
    throw_if (not_positive r_a) invalid_input
    ok (div (of_int r_b) (of_int r_a))
