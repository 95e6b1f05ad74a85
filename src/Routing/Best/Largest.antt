-- ===== src/Routing/Best/Largest.antt =====
-- That `findBestRoute` returns the best of its simulations.
use soro_pool.Base.{
  ℕ, String, ◌≡◌, refl, sym, ap, ◌∙◌, ◌⊎◌, inl, inr, true, Option, none, some, List, [], ◌∷◌,
  Result, ok, ok-injective, arith, All, Bool-cases, Result-cases,
}
use soro_pool.Base.Int.{ℤ, negsuc, ltb_ℤ, ◌≤ℤ◌}
use soro_pool.Js.BigInt.{big_int}
use soro_pool.Js.Number.{JsNumber}
use soro_pool.Routing.Action.{Action, lift, bind-ok}
use soro_pool.Routing.Graph.{Graphology}
use soro_pool.Routing.Paths.{TokenPath, find_all_paths_in_graph}
use soro_pool.Routing.Simulate.{RouteResult, simulate_path}
use soro_pool.Routing.Best.{keep_better, best_of, best_of_found, lacks_nodes, find_best_route}
use mathlib.Core.List.{Memᴰ}
use mathlib.Core.Path.{subst}

module _ (js : JsNumber) where
  -- A simulation's output is no larger than b.
  abbrev pub AtMost : ℤ → Option (RouteResult js) → Type 0
  AtMost b none = Unit
  AtMost b (some r) = (z : ℤ) × (big_int r.amount_out ≡ ok z) × (z ≤ℤ b)

  -- b is the output of the best route so far; it starts at -1.
  abbrev pub Holds : Option (RouteResult js) → ℤ → Type 0
  Holds none b = b ≡ negsuc 0
  Holds (some r) b = big_int r.amount_out ≡ ok b

  -- What the body of the loop makes of the best route so far.
  abbrev Kept :
      Option (RouteResult js) → Option (RouteResult js) → ℤ → Option (RouteResult js) × ℤ → Type 0
  Kept route best b kept =
      Holds kept.0 kept.1
      × AtMost kept.1 route
      × (b ≤ℤ kept.1)
      × ((kept.0 ≡ best) ⊎ (kept.0 ≡ route))

  keep_better-Kept :
      (route best : Option (RouteResult js)) (b : ℤ) {kept : Option (RouteResult js) × ℤ}
      → keep_better js route best b ≡ ok kept
      → Holds best b
      → Kept route best b kept
  unfolding keep_better
  keep_better-Kept none best b e h =
      subst (Kept none best b) (ok-injective e) (h, tt, omega arith, inl refl)
  keep_better-Kept (some r) best b e h = elim (Result-cases (big_int r.amount_out)) [
    | inl (thrown, q) ↦ cc (rw (q, keep_better) at e)
    | inr (out, q) ↦ elim (Bool-cases (ltb_ℤ b out)) [
      | inl t ↦
          subst (Kept (some r) best b) (ok-injective (rw (q, t, keep_better) at e))
            (q, (out, q, omega arith), ground arith, inr refl)
      | inr f ↦
          subst (Kept (some r) best b) (ok-injective (rw (q, f, keep_better) at e))
            (h, (out, q, ground arith), omega arith, inl refl)
    ]
  ]

  AtMost-trans :
      (b c : ℤ) (route : Option (RouteResult js)) → b ≤ℤ c → AtMost b route → AtMost c route
  AtMost-trans b c none h a = tt
  AtMost-trans b c (some r) h (z, e, l) = (z, e, omega arith)

  inherit :
      {result best best' route : Option (RouteResult js)} {routes : List (Option (RouteResult js))}
      → (best' ≡ best) ⊎ (best' ≡ route)
      → (result ≡ best') ⊎ Memᴰ result routes
      → (result ≡ best) ⊎ Memᴰ result (route ∷ routes)
  inherit (inl p) (inl q) = inl (q ∙ p)
  inherit (inr p) (inl q) = inr (Memᴰ.head (q ∙ p))
  inherit (inl p) (inr m) = inr (Memᴰ.tail m)
  inherit (inr p) (inr m) = inr (Memᴰ.tail m)

  module _ (lib : Graphology) {S : Type 0} (get_graph : Action S lib.Graph) (max_routes : ℕ) where
    -- The simulations of a list of paths, one after another.
    pub data Sims (amount_in : ℤ)
        : S → List TokenPath → List (Option (RouteResult js)) → S → Type 0 where
      none_left : {s : S} → Sims amount_in s [] [] s
      one_more :
          {s t u : S} {path : TokenPath} {rest : List TokenPath} {route : Option (RouteResult js)}
          {routes : List (Option (RouteResult js))}
          → simulate_path js lib get_graph path amount_in s ≡ (ok route, t)
          → Sims amount_in t rest routes u
          → Sims amount_in s (path ∷ rest) (route ∷ routes) u

    -- What the loop returns for the paths that are left.
    pub record IsBestOf (amount_in : ℤ) (paths : List TokenPath) (best : Option (RouteResult js))
        (b : ℤ) (s : S) (result : Option (RouteResult js)) (u : S) : Type 0 where
      pub routes : List (Option (RouteResult js))
      pub sims : Sims amount_in s paths routes u
      pub out : ℤ
      pub holds : Holds result out
      pub bounded : All (AtMost out) routes
      pub no_less : b ≤ℤ out
      pub origin : (result ≡ best) ⊎ Memᴰ result routes

    best_of-IsBestOf :
        (paths : List TokenPath) (amount_in : ℤ) (best : Option (RouteResult js)) (b : ℤ) (s : S)
        {result : Option (RouteResult js)} {u : S}
        → Holds best b
        → best_of js lib get_graph max_routes paths amount_in best b s ≡ (ok result, u)
        → IsBestOf amount_in paths best b s result u
    unfolding best_of
    best_of-IsBestOf [] amount_in best b s {result} {u} h e =
        let same : best ≡ result =
          ok-injective (ap (λ (p : Result (Option (RouteResult js)) × S). p.0) e) in
        let there : s ≡ u = ap (λ (p : Result (Option (RouteResult js)) × S). p.1) e in
        record {
          routes = [];
          sims = subst (λ t. Sims amount_in s [] [] t) there none_left;
          out = b;
          holds = subst (λ r. Holds r b) same h;
          bounded = tt;
          no_less = omega arith;
          origin = inl (sym same);
        }
    best_of-IsBestOf (path ∷ rest) amount_in best b s {result} {u} h e =
        let (route, t, e_sim, e_rest) =
          bind-ok (simulate_path js lib get_graph path amount_in) _ s e in
        let (kept, t', e_keep, e_more) = bind-ok (lift (keep_better js route best b)) _ t e_rest in
        let there : t ≡ t' = ap (λ (p : Result (Option (RouteResult js) × ℤ) × S). p.1) e_keep in
        let (held, most, up, from) =
          keep_better-Kept route best b
            (ap (λ (p : Result (Option (RouteResult js) × ℤ) × S). p.0) e_keep) h in
        let r : IsBestOf amount_in rest kept.0 kept.1 t' result u =
          best_of-IsBestOf rest amount_in kept.0 kept.1 t' held e_more in
        record {
          routes = route ∷ r.routes;
          sims = one_more e_sim (subst (λ z. Sims amount_in z rest r.routes u) (sym there) r.sims);
          out = r.out;
          holds = r.holds;
          bounded = (AtMost-trans kept.1 r.out route r.no_less most, r.bounded);
          no_less = omega (arith, r.no_less);
          origin = inherit from r.origin;
        }

    best_of_found-IsBestOf :
        (paths : List TokenPath) (amount_in : ℤ) (s : S) {result : Option (RouteResult js)} {u : S}
        → best_of_found js lib get_graph max_routes paths amount_in s ≡ (ok result, u)
        → IsBestOf amount_in paths none (negsuc 0) s result u
    unfolding best_of
    best_of_found-IsBestOf [] amount_in s e = best_of-IsBestOf [] amount_in none (negsuc 0) s refl e
    best_of_found-IsBestOf (path ∷ rest) amount_in s e =
        best_of-IsBestOf (path ∷ rest) amount_in none (negsuc 0) s refl e

    -- A call of `findBestRoute` that returns has read a graph. If one of the tokens is no node of it,
    -- the result is null. Otherwise every path of the search is simulated in turn, and the result is one of the
    -- simulated routes whose output none of the others exceeds, or null where there is no route with an output of
    -- 0 or more.
    pub find_best_route-largest :
        (token_in token_out : String) (amount_in : ℤ) (max_hops : ℕ) (s : S)
        {result : Option (RouteResult js)} {u : S}
        → find_best_route js lib get_graph max_routes token_in token_out amount_in max_hops s
          ≡ (ok result, u)
        → (g : lib.Graph) × (t : S) × (get_graph s ≡ (ok g, t))
          × (((lacks_nodes lib g token_in token_out ≡ true) × (result ≡ none))
              ⊎ IsBestOf amount_in
                  (find_all_paths_in_graph lib max_routes g token_in token_out max_hops)
                  none
                  (negsuc 0)
                  t
                  result
                  u)
    unfolding find_best_route
    find_best_route-largest token_in token_out amount_in max_hops s {result} {u} e =
        let (g, t, e_g, e_best) = bind-ok get_graph _ s e in
        (
          g,
          t,
          e_g,
          elim (Bool-cases (lacks_nodes lib g token_in token_out)) [
            | inl lacks ↦ inl (
              lacks,
              sym (
                  ok-injective
                    (ap (λ (p : Result (Option (RouteResult js)) × S). p.0) (rw lacks at e_best))),
            )
            | inr has ↦ inr (best_of_found-IsBestOf _ amount_in t (rw has at e_best))
          ],
        )
