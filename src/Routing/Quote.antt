-- ===== src/Routing/Quote.antt =====
-- `getBestQuote` of backend/src/modules/routing/quote-aggregator.service.ts.
pub mod Best
use soro_pool.Base.{
  ℕ, ◌/◌, String, ◌≡◌, Bool, true, false, Option, none, some, List, [], ◌∷◌, Result, ok, err,
  if◌then◌else◌, ltb,
}
use soro_pool.Base.Int.{ℤ}
use soro_pool.Js.BigInt.{big_int}
use soro_pool.Js.Number.{JsNumber}
use soro_pool.Routing.Action.{Action, pure, lift, ◌>>=◌}
use soro_pool.Routing.Aggregate.{AggregatedQuote, aggregate}
use soro_pool.Routing.Best.{find_best_route}
use soro_pool.Routing.Graph.{Graphology}
use soro_pool.Routing.Simulate.{RouteResult}
use soro_pool.Routing.Split.{SplitRouteResult, optimize_split}
use Prim.Native.String.{◌++◌}

-- `quote:${tokenIn}:${tokenOut}:${amountIn}`
abbrev pub cache_key : String → String → String → String
cache_key token_in token_out amount_in =
    "quote:" ++ token_in ++ ":" ++ token_out ++ ":" ++ amount_in

-- `Math.max(1, Math.floor(cacheTtlMs / 1000))`
abbrev pub cache_ttl_seconds : ℕ → ℕ
cache_ttl_seconds ms = if ltb 1 (ms / 1000) then ms / 1000 else 1

-- The default of `maxHops` in `optimizeSplit`; that of `findBestRoute` is configured.
abbrev pub default_max_hops : ℕ
default_max_hops = 3

-- The Redis client behind the cache, as an interface: `get`, and `set` with a time to live.
pub record QuoteCache (js : JsNumber) (S : Type 0) : Type 0 where
  pub get : String → Action S (Option (AggregatedQuote js))
  pub set : String → AggregatedQuote js → ℕ → Action S Unit

-- max_hops and max_routes are those that the routing service is configured with.
module _ (js : JsNumber) (lib : Graphology) {S : Type 0} (get_graph : Action S lib.Graph)
    (max_hops max_routes : ℕ) (cache : QuoteCache js S) (cache_ttl_ms : ℕ) where
  -- After the single route and the split: the quote is computed and stored.
  unfoldable pub finish_quote :
      String
      → String
      → String
      → ℤ
      → RouteResult js
      → Option (SplitRouteResult js)
      → Action S (Option (AggregatedQuote js))
  finish_quote token_in token_out amount_in amount best split = do
    quote ← lift (aggregate js token_in token_out amount_in amount best split)
    stored ←
        cache.set (cache_key token_in token_out amount_in) quote (cache_ttl_seconds cache_ttl_ms)
    pure (some quote)

  -- After the search for the single route.
  unfoldable pub with_route :
      String
      → String
      → String
      → ℤ
      → Option (RouteResult js)
      → Action S (Option (AggregatedQuote js))
  with_route token_in token_out amount_in amount none = pure none
  with_route token_in token_out amount_in amount (some best) = do
    split ← optimize_split js lib get_graph max_routes token_in token_out amount default_max_hops
    finish_quote token_in token_out amount_in amount best split

  unfoldable pub if_not_cached :
      String
      → String
      → String
      → Option (AggregatedQuote js)
      → Action S (Option (AggregatedQuote js))
  if_not_cached token_in token_out amount_in (some quote) = pure (some quote)
  if_not_cached token_in token_out amount_in none = do
    amount ← lift (big_int amount_in)
    best ← find_best_route js lib get_graph max_routes token_in token_out amount max_hops
    with_route token_in token_out amount_in amount best

  -- `getBestQuote`
  unfoldable pub get_best_quote : String → String → String → Action S (Option (AggregatedQuote js))
  get_best_quote token_in token_out amount_in = do
    cached ← cache.get (cache_key token_in token_out amount_in)
    if_not_cached token_in token_out amount_in cached
