-- ===== src/Routing/Quote/Best.antt =====
-- That a quote pays what the better of the single route and the split pays.
use soro_pool.Base.{
  ℕ, String, ◌≡◌, sym, ap, ◌∙◌, ◌⊎◌, inl, inr, Option, none, some, ok, ok-injective, Option-cases,
}
use soro_pool.Base.Int.{ℤ}
use soro_pool.Js.BigInt.{big_int}
use soro_pool.Js.Number.{JsNumber}
use soro_pool.Routing.Action.{Action, lift, bind-ok, result_of, state_of}
use soro_pool.Routing.Aggregate.{AggregatedQuote, aggregate}
use soro_pool.Routing.Aggregate.Pays.{PaysBest, aggregate-PaysBest}
use soro_pool.Routing.Best.{find_best_route}
use soro_pool.Routing.Graph.{Graphology}
use soro_pool.Routing.Quote.{
  cache_key, cache_ttl_seconds, default_max_hops, QuoteCache, finish_quote, with_route,
  if_not_cached, get_best_quote,
}
use soro_pool.Routing.Simulate.{RouteResult}
use soro_pool.Routing.Split.{SplitRouteResult, optimize_split}
use mathlib.Core.Option.{some-injective}

module _ (js : JsNumber) (lib : Graphology) {S : Type 0} (get_graph : Action S lib.Graph)
    (max_hops max_routes : ℕ) (cache : QuoteCache js S) (cache_ttl_ms : ℕ) where
  -- A quote that was computed, and stored under its key.
  pub record Fresh (token_in token_out amount_in : String) (s : S) (q : AggregatedQuote js) (u : S)
      : Type 0 where
    pub amount : ℤ
    pub best : RouteResult js
    pub split : Option (SplitRouteResult js)
    pub t : S
    pub v : S
    pub w : S
    pub missed : cache.get (cache_key token_in token_out amount_in) s ≡ (ok none, t)
    pub parsed : big_int amount_in ≡ ok amount
    pub searched :
        find_best_route js lib get_graph max_routes token_in token_out amount max_hops t
        ≡ (ok (some best), v)
    pub divided :
        optimize_split js lib get_graph max_routes token_in token_out amount default_max_hops v
        ≡ (ok split, w)
    pub pays : PaysBest js q best split
    pub stored :
        cache.set (cache_key token_in token_out amount_in) q (cache_ttl_seconds cache_ttl_ms) w
        ≡ (ok tt, u)

  -- What follows the single route: the split, the quote and its place in the cache.
  Divided : String → String → String → ℤ → RouteResult js → S → AggregatedQuote js → S → Type 0
  Divided token_in token_out amount_in amount best v q u =
      (split : Option (SplitRouteResult js)) × (w : S) × (optimize_split js lib get_graph max_routes
          token_in token_out amount default_max_hops v
        ≡ (ok split, w))
      × PaysBest js q best split
      × (cache.set (cache_key token_in token_out amount_in) q (cache_ttl_seconds cache_ttl_ms) w
          ≡ (ok tt, u))

  with_route-Divided :
      (token_in token_out amount_in : String) (amount : ℤ) (best : RouteResult js) (v : S)
      {q : AggregatedQuote js} {u : S}
      → with_route js lib get_graph max_hops max_routes cache cache_ttl_ms token_in token_out
          amount_in amount
          (some best)
          v
        ≡ (ok (some q), u)
      → Divided token_in token_out amount_in amount best v q u
  unfolding with_route finish_quote Divided
  with_route-Divided token_in token_out amount_in amount best v {q} {u} e =
      let (split, w, e_split, e_1) =
        bind-ok
          (optimize_split js lib get_graph max_routes token_in token_out amount default_max_hops) _
          v e in
      let (quote, w', e_quote, e_2) =
        bind-ok (lift (aggregate js token_in token_out amount_in amount best split)) _ w e_1 in
      let (stored, u', e_set, e_end) =
        bind-ok
          (cache.set (cache_key token_in token_out amount_in) quote
            (cache_ttl_seconds cache_ttl_ms))
          _ w' e_2 in
      let same : quote ≡ q = some-injective quote q (ok-injective (result_of e_end)) in
      (
        split,
        w,
        e_split,
        aggregate-PaysBest js token_in token_out amount_in amount best split
            (result_of e_quote ∙ ap ok same),
        rw (sym (state_of e_quote), same, state_of e_end) at e_set,
      )

  if_not_cached-Fresh :
      (token_in token_out amount_in : String) (s t : S) {q : AggregatedQuote js} {u : S}
      → cache.get (cache_key token_in token_out amount_in) s ≡ (ok none, t)
      → if_not_cached js lib get_graph max_hops max_routes cache cache_ttl_ms token_in token_out
          amount_in none t
        ≡ (ok (some q), u)
      → Fresh token_in token_out amount_in s q u
  unfolding if_not_cached with_route Divided
  if_not_cached-Fresh token_in token_out amount_in s t {q} {u} missed e =
      let (amount, t', e_amount, e_1) = bind-ok (lift (big_int amount_in)) _ t e in
      let (found, v, e_found, e_2) =
        bind-ok (find_best_route js lib get_graph max_routes token_in token_out amount max_hops) _
          t' e_1 in
      elim (Option-cases found) [
        | inl n ↦ cc (rw (n, with_route) at e_2)
        | inr (best, is) ↦
            let (split, w, e_split, pays, e_set) =
              with_route-Divided token_in token_out amount_in amount best v (rw is at e_2) in
            record {
              amount = amount;
              best = best;
              split = split;
              t = t';
              v = v;
              w = w;
              missed = rw (state_of e_amount) at missed;
              parsed = result_of e_amount;
              searched = rw is at e_found;
              divided = e_split;
              pays = pays;
              stored = e_set;
            }
      ]

  -- A call of `getBestQuote` that returns a quote has either found it in the cache, or computed it: of the
  -- best single route, looked for with the number of hops that is configured, and the split, looked for
  -- with 3, it shows the larger of the two outputs, with the steps of the one it took, and it stores the
  -- quote under its key.
  pub get_best_quote-pays_best :
      (token_in token_out amount_in : String) (s : S) {q : AggregatedQuote js} {u : S}
      → get_best_quote js lib get_graph max_hops max_routes cache cache_ttl_ms token_in token_out
          amount_in s
        ≡ (ok (some q), u)
      → (cache.get (cache_key token_in token_out amount_in) s ≡ (ok (some q), u))
        ⊎ Fresh token_in token_out amount_in s q u
  unfolding get_best_quote if_not_cached
  get_best_quote-pays_best token_in token_out amount_in s {q} {u} e =
      let (cached, t, e_get, e_rest) =
        bind-ok (cache.get (cache_key token_in token_out amount_in)) _ s e in
      elim (Option-cases cached) [
        | inl n ↦
            inr (
              if_not_cached-Fresh token_in token_out amount_in s t (rw n at e_get) (rw n at e_rest))
        | inr (kept, is) ↦
            let e_hit = rw (is, if_not_cached) at e_rest in
            inl (rw (is, result_of e_hit, state_of e_hit) at e_get)
      ]
