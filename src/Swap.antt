-- ===== src/Swap.antt =====
-- backend/src/modules/swap/swap.service.ts: the quote on one pool, and the least amount out of a swap
-- transaction. The pool repository is a parameter.
pub mod Slippage
pub mod Records
use soro_pool.Base.{
  String, Bool, true, false, ◌||◌, Option, none, some, List, [], ◌∷◌, Result, ok, err, ◌>>=◌,
  not_found, if◌then◌else◌,
}
use soro_pool.Base.Int.{ℤ, pos, ◌-ℤ◌, ◌*ℤ◌, ◌/ℤ◌}
use soro_pool.Js.BigInt.{big_int, to_string}
use soro_pool.Js.Number.{JsNumber}
use soro_pool.Math.ConstantProduct.{AmountResult, get_amount_out, get_spot_price}
use soro_pool.Routing.Aggregate.{Severity, severity_of}
use soro_pool.Routing.Simulate.{HopStep, price_of}
use text.Mathlib.Text.{◌==◌}

-- The fields of a pool that a quote reads.
pub record PoolRecord : Type 0 where
  pub id : String
  pub pool_type : String
  pub token0_symbol : Option String
  pub token0_id : String
  pub reserve0 : String
  pub reserve1 : String
  pub fee_bps : ℤ

-- `pool.token0?.symbol === tokenIn || pool.token0Id === tokenIn`
abbrev pub is_token0 : PoolRecord → String → Bool
is_token0 pool token = elim pool.token0_symbol [
  | none ↦ pool.token0_id == token
  | some symbol ↦ (symbol == token) || (pool.token0_id == token)
]

abbrev pub quote_reserve_in : PoolRecord → String → String
quote_reserve_in pool token = if is_token0 pool token then pool.reserve0 else pool.reserve1

abbrev pub quote_reserve_out : PoolRecord → String → String
quote_reserve_out pool token = if is_token0 pool token then pool.reserve1 else pool.reserve0

module _ (js : JsNumber) where
  open js use {Num, of_int, mul, round}

  -- The quote, with the fields of its `route` beside the others
  pub record PoolQuote : Type 0 where
    pub token_in : String
    pub token_out : String
    pub amount_in : String
    pub amount_out : String
    pub price_impact : Num
    pub pools : List (HopStep js)
    pub path : List String
    pub effective_price : Num
    pub fee : String
    pub severity : Severity

  -- `getQuote` on the pool that was found
  unfoldable pub quote_on : PoolRecord → String → String → String → Result PoolQuote
  quote_on pool token_in token_out amount_in = do
    r ←
        get_amount_out js amount_in (quote_reserve_in pool token_in)
          (quote_reserve_out pool token_in) pool.fee_bps
    amount ← big_int amount_in
    out ← big_int r.amount_out
    fee ← amount *ℤ pool.fee_bps /ℤ pos 10_000
    ok (record {
      token_in = token_in;
      token_out = token_out;
      amount_in = to_string amount;
      amount_out = r.amount_out;
      price_impact = r.price_impact;
      pools =
          record {
            pool_id = pool.id;
            pool_type = pool.pool_type;
            token_in = token_in;
            token_out = token_out;
            amount_in = to_string amount;
            amount_out = r.amount_out;
            price_impact = r.price_impact;
            fee = pool.fee_bps;
          }
          ∷ [];
      path = token_in ∷ token_out ∷ [];
      effective_price = price_of js amount out;
      fee = to_string fee;
      severity = severity_of js r.price_impact;
    })

  -- `getQuote`, once the repository has answered
  unfoldable pub pool_quote : Option PoolRecord → String → String → String → Result PoolQuote
  pool_quote none token_in token_out amount_in = err not_found
  pool_quote (some pool) token_in token_out amount_in = quote_on pool token_in token_out amount_in

  -- `minAmountOut` of `buildSwapTransaction`; `slippage` is a fraction
  unfoldable pub min_amount_out : String → Num → Result String
  min_amount_out amount_out slippage = do
    amount ← big_int (if amount_out == "" then "0" else amount_out)
    cut ← amount *ℤ round (mul slippage (of_int (pos 10_000))) /ℤ pos 10_000
    ok (to_string (amount -ℤ cut))

  -- `calculatePriceImpact`
  unfoldable pub calculate_price_impact : String → String → String → Result Num
  calculate_price_impact amount_in reserve_in reserve_out = do
    r ← get_amount_out js amount_in reserve_in reserve_out (pos 0)
    ok r.price_impact

  -- `getSpotPrice`, once the repository has answered
  pub pool_spot_price : Option PoolRecord → Result Num
  pool_spot_price none = err not_found
  pool_spot_price (some pool) = get_spot_price js pool.reserve0 pool.reserve1
