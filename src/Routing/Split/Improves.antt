-- ===== src/Routing/Split/Improves.antt =====
-- What a split that `optimizeSplit` returns promises.
use soro_pool.Base.{
  ℕ, String, ◌≡◌, refl, ◌⊎◌, false, ◌||◌, Option, none, some, List, [], ◌∷◌, ok, ok-injective,
  arith, Bool-cases, Option-cases, Result-cases, inl, inr,
}
use soro_pool.Base.Int.{ℤ, pos, ◌+ℤ◌, ◌-ℤ◌, ◌*ℤ◌, ◌/ℤ◌, ltb_ℤ, ◌<ℤ◌, int_laws}
use soro_pool.Js.BigInt.{big_int}
use soro_pool.Js.BigInt.RoundTrip.{big_int-to_string}
use soro_pool.Js.Number.{JsNumber}
use soro_pool.Js.Sort.{sort}
use soro_pool.Math.ConstantProduct.{not_positive}
use soro_pool.Routing.Action.{Action, lift, bind-ok, result_of}
use soro_pool.Routing.Graph.{Graphology}
use soro_pool.Routing.Simulate.{RouteResult, simulate_path}
use soro_pool.Routing.Best.{find_best_route, find_all_paths}
use soro_pool.Routing.Split.{
  SplitRouteResult, Simulated, pays_less, BestSplit, keep_split, try_amounts, try_ratio, try_ratios,
  ratios, if_better, split_two, split_paths, split_from, optimize_split, valid_paths,
}
use mathlib.Core.Path.{subst}

List-cases : {A : Type 0} (xs : List A) → (xs ≡ []) ⊎ ((x : A) × (rest : List A) × (xs ≡ x ∷ rest))
List-cases [] = inl refl
List-cases (x ∷ xs) = inr (x, xs, refl)

module _ (js : JsNumber) (lib : Graphology) {S : Type 0} (get_graph : Action S lib.Graph) where
  -- A split of an input in two positive parts, each simulated on its path, with the sum of the outputs.
  pub record IsSplit (amount_in : ℤ) (sp : SplitRouteResult js) (total : ℤ) : Type 0 where
    pub part_a : ℤ
    pub part_b : ℤ
    pub out_a : ℤ
    pub out_b : ℤ
    pub s : S
    pub t : S
    pub u : S
    pub route_a : RouteResult js
    pub route_b : RouteResult js
    pub in_a : big_int sp.amount_in_a ≡ ok part_a
    pub in_b : big_int sp.amount_in_b ≡ ok part_b
    pub positive_a : pos 0 <ℤ part_a
    pub positive_b : pos 0 <ℤ part_b
    pub whole : part_a +ℤ part_b ≡ amount_in
    pub simulated_a : simulate_path js lib get_graph sp.path_a part_a s ≡ (ok (some route_a), t)
    pub simulated_b : simulate_path js lib get_graph sp.path_b part_b t ≡ (ok (some route_b), u)
    pub steps_a : sp.steps_a ≡ route_a.steps
    pub steps_b : sp.steps_b ≡ route_b.steps
    pub paid_a : big_int route_a.amount_out ≡ ok out_a
    pub paid_b : big_int route_b.amount_out ≡ ok out_b
    pub shown_a : big_int sp.amount_out_a ≡ ok out_a
    pub shown_b : big_int sp.amount_out_b ≡ ok out_b
    pub shown : big_int sp.total_amount_out ≡ ok total
    pub total_is : total ≡ out_a +ℤ out_b

  -- The best split so far, if there is one, is a split with the best total.
  abbrev Good : ℤ → Option (SplitRouteResult js) → ℤ → Type 0
  Good amount_in none total = Unit
  Good amount_in (some sp) total = IsSplit amount_in sp total

  module _ (a b : Simulated js) (amount_in : ℤ) (ratio : ℕ) (part : ℤ) where
    parts_whole : part +ℤ (amount_in -ℤ part) ≡ amount_in
    parts_whole = omega int_laws

    keep_split-Good :
        (s t u : S) (route_a route_b : Option (RouteResult js)) (best : BestSplit js)
        {best' : BestSplit js}
        → pos 0 <ℤ part
        → pos 0 <ℤ (amount_in -ℤ part)
        → simulate_path js lib get_graph a.path part s ≡ (ok route_a, t)
        → simulate_path js lib get_graph b.path (amount_in -ℤ part) t ≡ (ok route_b, u)
        → keep_split js a b amount_in ratio part (amount_in -ℤ part) route_a route_b best ≡ ok best'
        → Good amount_in best.split best.total
        → Good amount_in best'.split best'.total
    unfolding keep_split
    keep_split-Good s t u none rb best ha hb sa sb e g =
        subst (λ (x : BestSplit js). Good amount_in x.split x.total) (ok-injective e) g
    keep_split-Good s t u (some ra) none best ha hb sa sb e g =
        subst (λ (x : BestSplit js). Good amount_in x.split x.total) (ok-injective e) g
    keep_split-Good s t u (some ra) (some rb) best ha hb sa sb e g =
        elim (Result-cases (big_int ra.amount_out)) [
          | inl (thrown, p) ↦ cc (rw (p, keep_split) at e)
          | inr (out_a, p) ↦ elim (Result-cases (big_int rb.amount_out)) [
            | inl (thrown, q) ↦ cc (rw (p, q, keep_split) at e)
            | inr (out_b, q) ↦ elim (Bool-cases (ltb_ℤ best.total (out_a +ℤ out_b))) [
              | inl better ↦
                  subst (λ (x : BestSplit js). Good amount_in x.split x.total)
                    (ok-injective (rw (p, q, better, keep_split) at e))
                    (record {
                      part_a = part;
                      part_b = amount_in -ℤ part;
                      out_a = out_a;
                      out_b = out_b;
                      s = s;
                      t = t;
                      u = u;
                      route_a = ra;
                      route_b = rb;
                      in_a = big_int-to_string part;
                      in_b = big_int-to_string (amount_in -ℤ part);
                      positive_a = ha;
                      positive_b = hb;
                      whole = parts_whole;
                      simulated_a = sa;
                      simulated_b = sb;
                      steps_a = refl;
                      steps_b = refl;
                      paid_a = p;
                      paid_b = q;
                      shown_a = big_int-to_string out_a;
                      shown_b = big_int-to_string out_b;
                      shown = big_int-to_string (out_a +ℤ out_b);
                      total_is = refl;
                    })
              | inr worse ↦
                  subst (λ (x : BestSplit js). Good amount_in x.split x.total)
                    (ok-injective (rw (p, q, worse, keep_split) at e)) g
            ]
          ]
        ]

  both_positive :
      (x y : ℤ) → (not_positive x || not_positive y) ≡ false → (pos 0 <ℤ x) × (pos 0 <ℤ y)
  both_positive x y h = (ground arith, ground arith)

  module _ (a b : Simulated js) (amount_in : ℤ) (max_routes : ℕ) where
    try_amounts-Good :
        (ratio : ℕ) (part : ℤ) (best : BestSplit js) (s : S) {best' : BestSplit js} {u : S}
        → try_amounts js lib get_graph max_routes a b amount_in ratio part
            (amount_in -ℤ part)
            best
            s
          ≡ (ok best', u)
        → Good amount_in best.split best.total
        → Good amount_in best'.split best'.total
    unfolding try_amounts
    try_amounts-Good ratio part best s {best'} {u} e g =
        elim (Bool-cases (not_positive part || not_positive (amount_in -ℤ part))) [
          | inl skips ↦
              subst (λ (x : BestSplit js). Good amount_in x.split x.total)
                (ok-injective (result_of (rw (skips, try_amounts) at e))) g
          | inr runs ↦
              let (pa, pb) = both_positive part (amount_in -ℤ part) runs in
              let (route_a, t, e_a, e_rest) =
                bind-ok (simulate_path js lib get_graph a.path part) _ s
                  (rw (runs, try_amounts) at e) in
              let (route_b, v, e_b, e_keep) =
                bind-ok (simulate_path js lib get_graph b.path (amount_in -ℤ part)) _ t e_rest in
              keep_split-Good a b amount_in ratio part s t v route_a route_b best pa pb e_a e_b
                (result_of e_keep) g
        ]

    try_ratios-Good :
        (rs : List ℕ) (best : BestSplit js) (s : S) {best' : BestSplit js} {u : S}
        → try_ratios js lib get_graph max_routes a b amount_in rs best s ≡ (ok best', u)
        → Good amount_in best.split best.total
        → Good amount_in best'.split best'.total
    unfolding try_ratios try_ratio
    try_ratios-Good [] best s e g =
        subst (λ (x : BestSplit js). Good amount_in x.split x.total) (ok-injective (result_of e)) g
    try_ratios-Good (r ∷ rs) best s {best'} {u} e g =
        let (mid, t, e_mid, e_more) =
          bind-ok (try_ratio js lib get_graph max_routes a b amount_in r best) _ s e in
        let (part, v, e_part, e_try) = bind-ok (lift (amount_in *ℤ pos r /ℤ pos 100)) _ s e_mid in
        try_ratios-Good rs mid t e_more (try_amounts-Good r part best v e_try g)

  module _ (amount_in : ℤ) (max_routes : ℕ) where
    -- A split that pays more than the single route.
    abbrev Better : ℤ → SplitRouteResult js → Type 0
    Better out sp = (total : ℤ) × IsSplit amount_in sp total × (out <ℤ total)

    if_better-Better :
        (best : BestSplit js) (out : ℤ) {sp : SplitRouteResult js}
        → if_better js lib get_graph max_routes best out ≡ some sp
        → Good amount_in best.split best.total
        → Better out sp
    if_better-Better best out {sp} e g = elim (Bool-cases (ltb_ℤ out best.total)) [
      | inl more ↦ (
        best.total,
        subst (λ (x : Option (SplitRouteResult js)). Good amount_in x best.total) (rw more at e) g,
        ground arith,
      )
      | inr less ↦ cc (rw less at e)
    ]

    split_two-Better :
        (found : List (Simulated js)) (single : RouteResult js) (s : S) {sp : SplitRouteResult js}
        {u : S}
        → split_two js lib get_graph max_routes found amount_in single s ≡ (ok (some sp), u)
        → (out : ℤ) × (big_int single.amount_out ≡ ok out) × Better out sp
    unfolding split_two
    split_two-Better [] single s e = cc
    split_two-Better (a ∷ []) single s e = cc
    split_two-Better (a ∷ b ∷ more) single s e =
        let (best, t, e_best, e_rest) =
          bind-ok (try_ratios js lib get_graph max_routes a b amount_in ratios _) _ s e in
        let (out, v, e_out, e_end) = bind-ok (lift (big_int single.amount_out)) _ t e_rest in
        (
          out,
          result_of e_out,
          if_better-Better best out (ok-injective (result_of e_end))
              (try_ratios-Good a b amount_in max_routes ratios _ s e_best tt),
        )

    split_from-Better :
        (token_in token_out : String) (max_hops : ℕ) (single : RouteResult js) (s : S)
        {sp : SplitRouteResult js} {u : S}
        → split_from js lib get_graph max_routes token_in token_out amount_in max_hops
            (some single)
            s
          ≡ (ok (some sp), u)
        → (out : ℤ) × (big_int single.amount_out ≡ ok out) × Better out sp
    unfolding split_paths
    split_from-Better token_in token_out max_hops single s e = elim (List-cases single.steps) [
      | inl q ↦ cc (rw q at e)
      | inr (x, xs, q) ↦
          let (paths, t, e_paths, e_rest) =
            bind-ok (find_all_paths js lib get_graph max_routes token_in token_out max_hops) _ s
              (rw q at e) in
          let (found, v, e_found, e_two) =
            bind-ok (valid_paths js lib get_graph max_routes paths.0 amount_in) _ t e_rest in
          split_two-Better (sort (pays_less js) found) single v e_two
    ]

    -- A split that a call of `optimizeSplit` returns divides the amount in two positive parts, each simulated
    -- on its own path; the steps and amounts it shows are those of the two simulations, its total is the sum of their outputs, and
    -- that total is larger than the output of the best single route for the whole amount.
    pub optimize_split-improves :
        (token_in token_out : String) (max_hops : ℕ) (s : S) {sp : SplitRouteResult js} {u : S}
        → optimize_split js lib get_graph max_routes token_in token_out amount_in max_hops s
          ≡ (ok (some sp), u)
        → (single : RouteResult js) × (t : S) × (out : ℤ) × (total : ℤ) × (find_best_route js lib
              get_graph max_routes token_in token_out amount_in max_hops s
            ≡ (ok (some single), t))
          × (big_int single.amount_out ≡ ok out)
          × IsSplit amount_in sp total
          × (out <ℤ total)
    unfolding optimize_split
    optimize_split-improves token_in token_out max_hops s {sp} {u} e =
        let (found, t, e_best, e_rest) =
          bind-ok
            (find_best_route js lib get_graph max_routes token_in token_out amount_in max_hops) _ s
            e in
        elim (Option-cases found) [
          | inl q ↦ cc
          | inr (single, q) ↦
              let (out, e_out, (total, is, more)) =
                split_from-Better token_in token_out max_hops single t (rw q at e_rest) in
              (single, t, out, total, rw q at e_best, e_out, is, more)
        ]
