-- ===== src/Routing/Best.antt =====
-- `findBestRoute` and `findAllPaths` of backend/src/modules/routing/routing.service.ts. `get_graph`
-- is the graph service's method; each simulation asks for the graph again.
pub mod Largest
use soro_pool.Base.{
  ℕ, String, ◌≡◌, Bool, true, false, not, ◌||◌, Option, none, some, List, [], ◌∷◌, ◌++◌, map,
  Result, ok, err, if◌then◌else◌, length,
}
use soro_pool.Base.Int.{ℤ, pos, negsuc, ltb_ℤ}
use soro_pool.Js.BigInt.{big_int}
use soro_pool.Js.Number.{JsNumber}
use soro_pool.Routing.Action.{Action, pure, lift, ◌>>=◌}
use soro_pool.Routing.Graph.{Graphology}
use soro_pool.Routing.Paths.{TokenPath, find_all_paths_in_graph}
use soro_pool.Routing.Simulate.{RouteResult, simulate_path}

-- `!g.hasNode(tokenIn) || !g.hasNode(tokenOut)`
abbrev pub lacks_nodes : (lib : Graphology) → lib.Graph → String → String → Bool
lacks_nodes lib g token_in token_out =
    not (lib.has_node g token_in) || not (lib.has_node g token_out)

module _ (js : JsNumber) where
  -- The body of the loop after the simulation: the better route with its amount.
  unfoldable pub keep_better :
      Option (RouteResult js) → Option (RouteResult js) → ℤ → Result (Option (RouteResult js) × ℤ)
  keep_better none best best_out = ok (best, best_out)
  keep_better (some route) best best_out = elim (big_int route.amount_out) [
    | err e ↦ err e
    | ok out ↦ ok (if ltb_ℤ best_out out then (some route, out) else (best, best_out))
  ]

  module _ (lib : Graphology) {S : Type 0} (get_graph : Action S lib.Graph) (max_routes : ℕ) where
    unfoldable pub best_of :
        List TokenPath → ℤ → Option (RouteResult js) → ℤ → Action S (Option (RouteResult js))
    best_of [] amount_in best best_out = pure best
    best_of (path ∷ rest) amount_in best best_out = do
      route ← simulate_path js lib get_graph path amount_in
      (best', out') ← lift (keep_better route best best_out)
      best_of rest amount_in best' out'

    -- What follows the search for paths.
    abbrev pub best_of_found : List TokenPath → ℤ → Action S (Option (RouteResult js))
    best_of_found [] amount_in = pure none
    best_of_found (path ∷ rest) amount_in = best_of (path ∷ rest) amount_in none (negsuc 0)

    -- `findBestRoute`, once it has the graph
    abbrev pub best_in : String → String → ℤ → ℕ → lib.Graph → Action S (Option (RouteResult js))
    best_in token_in token_out amount_in max_hops g =
        if lacks_nodes lib g token_in token_out
        then pure none
        else best_of_found (find_all_paths_in_graph lib max_routes g token_in token_out max_hops)
            amount_in

    -- `findBestRoute`
    unfoldable pub find_best_route : String → String → ℤ → ℕ → Action S (Option (RouteResult js))
    find_best_route token_in token_out amount_in max_hops =
        get_graph >>= best_in token_in token_out amount_in max_hops

    -- The result of `findAllPaths` for one path: a route with no steps.
    abbrev pub bare_route : TokenPath → RouteResult js
    bare_route path = record {
      path = path;
      steps = [];
      amount_out = "0";
      total_price_impact = js.of_int (pos 0);
      effective_price = js.of_int (pos 0);
    }

    abbrev pub found_in : String → String → ℕ → lib.Graph → List (RouteResult js)
    found_in token_in token_out max_hops g =
        if lacks_nodes lib g token_in token_out
        then []
        else map bare_route (find_all_paths_in_graph lib max_routes g token_in token_out max_hops)

    -- `findAllPaths`: the paths and their count
    unfoldable pub find_all_paths : String → String → ℕ → Action S (List (RouteResult js) × ℕ)
    find_all_paths token_in token_out max_hops = do
      g ← get_graph
      pure (found_in token_in token_out max_hops g, length (found_in token_in token_out max_hops g))
