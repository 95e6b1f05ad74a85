-- ===== src/Routing/Aggregate.antt =====
-- The computation of a quote in `getBestQuote` of
-- backend/src/modules/routing/quote-aggregator.service.ts, from the best single route and the split.
pub mod Pays
use soro_pool.Base.{
  ℕ, ◌*◌, String, ◌≡◌, Bool, true, false, ◌&&◌, Option, none, some, List, [], ◌∷◌, ◌++◌, Result, ok,
  err, ◌>>=◌, if◌then◌else◌, length,
}
use soro_pool.Base.Int.{ℤ, pos, ◌+ℤ◌, ◌*ℤ◌, ◌/ℤ◌, ltb_ℤ}
use soro_pool.Js.BigInt.{big_int, to_string}
use soro_pool.Js.Number.{JsNumber}
use soro_pool.Routing.Simulate.{HopStep, RouteResult, price_of}
use soro_pool.Routing.Split.{SplitRouteResult}

-- `priceImpactSeverity`
pub data Severity : Type 0 where
  low medium high critical : Severity

module _ (js : JsNumber) where
  open js use {Num, of_text, lt}

  -- `AggregatedQuote`, with the fields of its `route` beside the others
  pub record AggregatedQuote : Type 0 where
    pub token_in : String
    pub token_out : String
    pub amount_in : String
    pub amount_out : String
    pub price_impact : Num
    pub pools : List (HopStep js)
    pub path : List String
    pub split_route : Option (SplitRouteResult js)
    pub effective_price : Num
    pub fee : String
    pub severity : Severity

  -- `useSplit`: the split, if it pays more than the single route.
  unfoldable pub used_split :
      Option (SplitRouteResult js) → RouteResult js → Result (Option (SplitRouteResult js))
  used_split none best = ok none
  used_split (some sp) best = do
    split_out ← big_int sp.total_amount_out
    best_out ← big_int best.amount_out
    ok (if ltb_ℤ best_out split_out then some sp else none)

  unfoldable pub final_amount_out : Option (SplitRouteResult js) → RouteResult js → String
  final_amount_out none best = best.amount_out
  final_amount_out (some sp) best = sp.total_amount_out

  unfoldable pub final_impact : Option (SplitRouteResult js) → RouteResult js → Num
  final_impact none best = best.total_price_impact
  final_impact (some sp) best = sp.total_price_impact

  unfoldable pub final_pools : Option (SplitRouteResult js) → RouteResult js → List (HopStep js)
  final_pools none best = best.steps
  final_pools (some sp) best = sp.steps_a ++ sp.steps_b

  unfoldable pub final_path : Option (SplitRouteResult js) → RouteResult js → List String
  final_path none best = best.path
  final_path (some sp) best = sp.path_a ++ sp.path_b

  -- `bestRoute.steps.reduce((sum, s) => sum + s.fee, 0)`
  unfoldable pub pool_fees : ℤ → List (HopStep js) → ℤ
  pool_fees sum [] = sum
  pool_fees sum (x ∷ xs) = pool_fees (sum +ℤ x.fee) xs

  -- `totalFee`
  unfoldable pub total_fee : ℤ → List (HopStep js) → Result String
  total_fee amount_in steps =
      if ltb_ℤ (pos 0) (pool_fees (pos 0) steps)
      then (amount_in *ℤ pool_fees (pos 0) steps /ℤ pos (10000 * length steps) >>= λ fee.
          ok (to_string fee))
      else ok "0"

  unfoldable pub severity_of : Num → Severity
  severity_of impact =
      if lt impact (of_text "0.01")
      then low
      else if lt impact (of_text "0.05")
      then medium
      else if lt impact (of_text "0.15")
      then high
      else critical

  -- From the two routes to the quote.
  unfoldable pub aggregate :
      String
      → String
      → String
      → ℤ
      → RouteResult js
      → Option (SplitRouteResult js)
      → Result AggregatedQuote
  aggregate token_in token_out amount_in amount_in_num best split = do
    used ← used_split split best
    amount_out_num ← big_int (final_amount_out used best)
    fee ← total_fee amount_in_num best.steps
    ok (record {
      token_in = token_in;
      token_out = token_out;
      amount_in = amount_in;
      amount_out = final_amount_out used best;
      price_impact = final_impact used best;
      pools = final_pools used best;
      path = final_path used best;
      split_route = split;
      effective_price = price_of js amount_in_num amount_out_num;
      fee = fee;
      severity = severity_of (final_impact used best);
    })
