-- ===== src/Routing/Simulate.antt =====
-- `simulatePath` and `findBestEdge` of backend/src/modules/routing/routing.service.ts.
pub mod Chain
pub mod Choice
use soro_pool.Base.{
  ℕ, zero, suc, String, ◌≡◌, refl, Bool, true, false, ◌&&◌, ◌||◌, Option, none, some, List, [], ◌∷◌,
  ◌++◌, map, Result, ok, err, if◌then◌else◌,
}
use soro_pool.Base.Int.{ℤ, pos, ltb_ℤ, leb_ℤ}
use soro_pool.Js.BigInt.{big_int, to_string}
use soro_pool.Js.Number.{JsNumber}
use soro_pool.Js.Sort.{sort}
use soro_pool.Math.ConstantProduct.{not_positive, get_amount_out, AmountResult}
use soro_pool.Routing.Action.{Action, pure, lift, ◌>>=◌}
use soro_pool.Routing.Graph.{PoolEdge, Edge, Graphology}
use text.Mathlib.Text.{◌==◌}

-- The attributes of the edges from a token to another, as `forEachEdge` collects them.
unfoldable pub candidates : String → String → List Edge → List PoolEdge
candidates from to [] = []
candidates from to (e ∷ es) =
    let rest = candidates from to es in
    if e.source == from && e.target == to then e.attributes ∷ rest else rest

abbrev pub head? {ℓ} : {A : Type ℓ} → List A → Option A
head? [] = none
head? (x ∷ xs) = some x

module _ (js : JsNumber) where
  open js use {Num, of_text, of_int, add, sub, div, lt}

  -- `Number(b.tvlUsd) - Number(a.tvlUsd) > 0`
  abbrev pub less_tvl : PoolEdge → PoolEdge → Bool
  less_tvl a b = lt (of_int (pos 0)) (sub (of_text b.tvl_usd) (of_text a.tvl_usd))

  -- `findBestEdge`
  unfoldable pub find_best_edge : List Edge → String → String → Option PoolEdge
  find_best_edge edges from to = head? (sort less_tvl (candidates from to edges))

  pub record HopStep : Type 0 where
    pub pool_id : String
    pub pool_type : String
    pub token_in : String
    pub token_out : String
    pub amount_in : String
    pub amount_out : String
    pub price_impact : Num
    pub fee : ℤ

  pub record RouteResult : Type 0 where
    pub path : List String
    pub steps : List HopStep
    pub amount_out : String
    pub total_price_impact : Num
    pub effective_price : Num

  -- The `try` block of a round: the step and the next amount, or null.
  unfoldable pub swap_hop : PoolEdge → String → String → ℤ → ℤ → ℤ → Option (HopStep × ℤ)
  swap_hop edge from to amount reserve_in reserve_out =
      elim (get_amount_out js (to_string amount) (to_string reserve_in) (to_string reserve_out)
        edge.fee_bps) [
          | err e ↦ none
          | ok r ↦ elim (big_int r.amount_out) [
            | err e ↦ none
            | ok out ↦
                if not_positive out
                then none
                else some (
                  record {
                    pool_id = edge.pool_id;
                    pool_type = edge.pool_type;
                    token_in = from;
                    token_out = to;
                    amount_in = to_string amount;
                    amount_out = to_string out;
                    price_impact = r.price_impact;
                    fee = edge.fee_bps;
                  },
                  out,
                )
          ]
        ]

  -- One round of the loop: null ends the call. Reserves that are no bigints throw, outside the `try`.
  unfoldable pub hop : List Edge → String → String → ℤ → Result (Option (HopStep × ℤ))
  hop edges from to amount = elim (find_best_edge edges from to) [
    | none ↦ ok none
    | some edge ↦ elim (big_int edge.reserve_in) [
      | err e ↦ err e
      | ok reserve_in ↦ elim (big_int edge.reserve_out) [
        | err e ↦ err e
        | ok reserve_out ↦
            if not_positive amount || not_positive reserve_in || not_positive reserve_out
            then ok none
            else ok (swap_hop edge from to amount reserve_in reserve_out)
      ]
    ]
  ]

  -- The loop from the token `from` on: steps so far, amount and summed impact.
  unfoldable pub walk :
      List Edge
      → String
      → List String
      → List HopStep
      → ℤ
      → Num
      → Result (Option (List HopStep × ℤ × Num))
  walk edges from [] steps amount total = ok (some (steps, amount, total))
  walk edges from (to ∷ rest) steps amount total = elim (hop edges from to amount) [
    | err e ↦ err e
    | ok none ↦ ok none
    | ok (some (step, out)) ↦
        walk edges to rest (steps ++ step ∷ []) out (add total step.price_impact)
  ]

  abbrev pub walk_path : List Edge → List String → ℤ → Result (Option (List HopStep × ℤ × Num))
  walk_path edges [] amount = ok (some ([], amount, of_int (pos 0)))
  walk_path edges (from ∷ rest) amount = walk edges from rest [] amount (of_int (pos 0))

  -- `a > 0n && b > 0n ? Number(b) / Number(a) : 0`
  abbrev pub price_of : ℤ → ℤ → Num
  price_of a b =
      if ltb_ℤ (pos 0) a && ltb_ℤ (pos 0) b then div (of_int b) (of_int a) else of_int (pos 0)

  abbrev pub route_of : List String → ℤ → Option (List HopStep × ℤ × Num) → Option RouteResult
  route_of path amount_in none = none
  route_of path amount_in (some (steps, out, total)) = some (record {
    path = path;
    steps = steps;
    amount_out = to_string out;
    total_price_impact = total;
    effective_price = price_of amount_in out;
  })

  -- `simulatePath`, on the graph that `getGraph` returned
  unfoldable pub simulate_path_in : List Edge → List String → ℤ → Result (Option RouteResult)
  simulate_path_in edges path amount_in = elim (walk_path edges path amount_in) [
    | err e ↦ err e
    | ok w ↦ ok (route_of path amount_in w)
  ]

  -- `simulatePath`
  unfoldable pub simulate_path :
      (lib : Graphology) {S : Type 0}
      → Action S lib.Graph
      → List String
      → ℤ
      → Action S (Option RouteResult)
  simulate_path lib get_graph path amount_in = do
    g ← get_graph
    lift (simulate_path_in (lib.edges g) path amount_in)
