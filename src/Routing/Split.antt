-- ===== src/Routing/Split.antt =====
-- `optimizeSplit` of backend/src/modules/routing/split-route.service.ts.
pub mod Improves
use soro_pool.Base.{
  ℕ, String, ◌≡◌, Bool, true, false, ◌||◌, Option, none, some, List, [], ◌∷◌, map, Result, ok, err,
  if◌then◌else◌,
}
use soro_pool.Base.Int.{ℤ, pos, ◌+ℤ◌, ◌-ℤ◌, ◌*ℤ◌, ◌/ℤ◌, ltb_ℤ}
use soro_pool.Js.BigInt.{big_int, to_string}
use soro_pool.Js.Number.{JsNumber}
use soro_pool.Js.Sort.{sort}
use soro_pool.Math.ConstantProduct.{not_positive}
use soro_pool.Routing.Action.{Action, pure, lift, ◌>>=◌}
use soro_pool.Routing.Graph.{Graphology}
use soro_pool.Routing.Paths.{TokenPath}
use soro_pool.Routing.Simulate.{HopStep, RouteResult, simulate_path}
use soro_pool.Routing.Best.{find_best_route, find_all_paths}

-- `Math.round(ratio * 100)` in the rounds of `for (ratio = 0.05; ratio <= 0.95; ratio += 0.05)`. The
-- sums are those of doubles: the nineteenth, 0.9500000000000003, ends the loop.
abbrev pub ratios : List ℕ
ratios = 5 ∷ 10 ∷ 15 ∷ 20 ∷ 25 ∷ 30 ∷ 35 ∷ 40 ∷ 45 ∷ 50 ∷ 55 ∷ 60 ∷ 65 ∷ 70 ∷ 75 ∷ 80 ∷ 85 ∷ 90 ∷ []

module _ (js : JsNumber) where
  open js use {Num, of_int, add, div}

  pub record SplitRouteResult : Type 0 where
    pub path_a : List String
    pub path_b : List String
    pub steps_a : List (HopStep js)
    pub steps_b : List (HopStep js)
    pub amount_in_a : String
    pub amount_in_b : String
    pub amount_out_a : String
    pub amount_out_b : String
    pub total_amount_out : String
    pub total_price_impact : Num
    pub split_ratio : ℕ
    pub effective_price : Num

  -- A path with its route and the route's output.
  pub record Simulated : Type 0 where
    pub path : TokenPath
    pub route : RouteResult js
    pub out : ℤ

  -- `diff > 0n`, for `b.route.amountOut - a.route.amountOut`
  abbrev pub pays_less : Simulated → Simulated → Bool
  pays_less a b = ltb_ℤ a.out b.out

  -- The filter on one simulation: a route, with a positive output.
  unfoldable pub valid_path :
      TokenPath → Option (RouteResult js) → List Simulated → Result (List Simulated)
  valid_path path none found = ok found
  valid_path path (some route) found = elim (big_int route.amount_out) [
    | err e ↦ err e
    | ok out ↦ ok (
        if ltb_ℤ (pos 0) out
        then record { path = path; route = route; out = out } ∷ found
        else found)
  ]

  -- `bestSplit` and `bestTotalOut`
  pub record BestSplit : Type 0 where
    pub split : Option SplitRouteResult
    pub total : ℤ

  abbrev pub split_of :
      Simulated
      → Simulated
      → ℤ
      → ℕ
      → ℤ
      → ℤ
      → RouteResult js
      → RouteResult js
      → ℤ
      → ℤ
      → SplitRouteResult
  split_of a b amount_in ratio amount_a amount_b route_a route_b out_a out_b = record {
    path_a = a.path;
    path_b = b.path;
    steps_a = route_a.steps;
    steps_b = route_b.steps;
    amount_in_a = to_string amount_a;
    amount_in_b = to_string amount_b;
    amount_out_a = to_string out_a;
    amount_out_b = to_string out_b;
    total_amount_out = to_string (out_a +ℤ out_b);
    total_price_impact = add route_a.total_price_impact route_b.total_price_impact;
    split_ratio = ratio;
    effective_price =
        if ltb_ℤ (pos 0) (out_a +ℤ out_b)
        then div (of_int (out_a +ℤ out_b)) (of_int amount_in)
        else of_int (pos 0);
  }

  -- The end of a round: a split is kept if it pays more than the best so far.
  unfoldable pub keep_split :
      Simulated
      → Simulated
      → ℤ
      → ℕ
      → ℤ
      → ℤ
      → Option (RouteResult js)
      → Option (RouteResult js)
      → BestSplit
      → Result BestSplit
  keep_split a b amount_in ratio amount_a amount_b none route_b best = ok best
  keep_split a b amount_in ratio amount_a amount_b (some route_a) none best = ok best
  keep_split a b amount_in ratio amount_a amount_b (some route_a) (some route_b) best =
      elim (big_int route_a.amount_out) [
        | err e ↦ err e
        | ok out_a ↦ elim (big_int route_b.amount_out) [
          | err e ↦ err e
          | ok out_b ↦ ok (
              if ltb_ℤ best.total (out_a +ℤ out_b)
              then record {
                split =
                    some
                      (split_of a b amount_in ratio amount_a amount_b route_a route_b out_a out_b);
                total = out_a +ℤ out_b;
              }
              else best)
        ]
      ]

  module _ (lib : Graphology) {S : Type 0} (get_graph : Action S lib.Graph) (max_routes : ℕ) where
    abbrev pub simulate : TokenPath → ℤ → Action S (Option (RouteResult js))
    simulate = simulate_path js lib get_graph

    -- The simulations of all paths, with the filter.
    unfoldable pub valid_paths : List (RouteResult js) → ℤ → Action S (List Simulated)
    valid_paths [] amount_in = pure []
    valid_paths (p ∷ ps) amount_in = do
      route ← simulate p.path amount_in
      found ← valid_paths ps amount_in
      lift (valid_path p.path route found)

    -- One round of the loop over the ratios, after the amounts are known.
    unfoldable pub try_amounts :
        Simulated → Simulated → ℤ → ℕ → ℤ → ℤ → BestSplit → Action S BestSplit
    try_amounts a b amount_in ratio amount_a amount_b best =
        if not_positive amount_a || not_positive amount_b
        then pure best
        else (simulate a.path amount_a >>= λ route_a. simulate b.path amount_b >>= λ route_b.
            lift (keep_split a b amount_in ratio amount_a amount_b route_a route_b best))

    unfoldable pub try_ratio : Simulated → Simulated → ℤ → ℕ → BestSplit → Action S BestSplit
    try_ratio a b amount_in ratio best = do
      amount_a ← lift (amount_in *ℤ pos ratio /ℤ pos 100)
      try_amounts a b amount_in ratio amount_a (amount_in -ℤ amount_a) best

    unfoldable pub try_ratios : Simulated → Simulated → ℤ → List ℕ → BestSplit → Action S BestSplit
    try_ratios a b amount_in [] best = pure best
    try_ratios a b amount_in (r ∷ rs) best = do
      best' ← try_ratio a b amount_in r best
      try_ratios a b amount_in rs best'

    -- The last test: the split must pay more than the best single route.
    abbrev pub if_better : BestSplit → ℤ → Option SplitRouteResult
    if_better best single = if ltb_ℤ single best.total then best.split else none

    -- From the valid paths on, best first.
    unfoldable pub split_two :
        List Simulated → ℤ → RouteResult js → Action S (Option SplitRouteResult)
    split_two [] amount_in single = pure none
    split_two (a ∷ []) amount_in single = pure none
    split_two (a ∷ b ∷ more) amount_in single = do
      best ← try_ratios a b amount_in ratios (record { split = none; total = a.out })
      out ← lift (big_int single.amount_out)
      pure (if_better best out)

    -- The paths of the token pair, split between the two that pay most.
    unfoldable pub split_paths :
        String → String → ℤ → ℕ → RouteResult js → Action S (Option SplitRouteResult)
    split_paths token_in token_out amount_in max_hops single = do
      (paths, count) ← find_all_paths js lib get_graph max_routes token_in token_out max_hops
      found ← valid_paths paths amount_in
      split_two (sort pays_less found) amount_in single

    -- After the best single route: null if there is none, or it has no step.
    abbrev pub split_from :
        String → String → ℤ → ℕ → Option (RouteResult js) → Action S (Option SplitRouteResult)
    split_from token_in token_out amount_in max_hops none = pure none
    split_from token_in token_out amount_in max_hops (some single) = elim single.steps [
      | [] ↦ pure none
      | x ∷ xs ↦ split_paths token_in token_out amount_in max_hops single
    ]

    -- `optimizeSplit`
    unfoldable pub optimize_split : String → String → ℤ → ℕ → Action S (Option SplitRouteResult)
    optimize_split token_in token_out amount_in max_hops = do
      single ← find_best_route js lib get_graph max_routes token_in token_out amount_in max_hops
      split_from token_in token_out amount_in max_hops single
