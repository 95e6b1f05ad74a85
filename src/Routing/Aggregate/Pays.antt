-- ===== src/Routing/Aggregate/Pays.antt =====
-- That a quote shows the larger of the outputs of the single route and of the split.
use soro_pool.Base.{
  String, ◌≡◌, refl, sym, ◌∙◌, ap, ◌⊎◌, inl, inr, Option, none, some, ◌++◌, ok, ok-injective,
  >>=-eq-ok, arith, Bool-cases,
}
use soro_pool.Base.Int.{ℤ, ltb_ℤ, ◌≤ℤ◌}
use soro_pool.Js.BigInt.{big_int}
use soro_pool.Js.Number.{JsNumber}
use soro_pool.Routing.Aggregate.{
  AggregatedQuote, used_split, final_amount_out, final_pools, total_fee, aggregate,
}
use soro_pool.Routing.Simulate.{RouteResult}
use soro_pool.Routing.Split.{SplitRouteResult}
use mathlib.Core.Path.{subst}

module _ (js : JsNumber) where
  -- A split pays at most z, if there is one.
  abbrev pub SplitAtMost : ℤ → Option (SplitRouteResult js) → Type 0
  SplitAtMost z none = Unit
  SplitAtMost z (some sp) = (x : ℤ) × (big_int sp.total_amount_out ≡ ok x) × (x ≤ℤ z)

  -- The quote shows the single route's amount and steps, or those of the split.
  abbrev pub Shows : AggregatedQuote js → RouteResult js → Option (SplitRouteResult js) → Type 0
  Shows q best split =
      ((q.amount_out ≡ best.amount_out) × (q.pools ≡ best.steps))
      ⊎ ((sp : SplitRouteResult js) × (split ≡ some sp)
          × (q.amount_out ≡ sp.total_amount_out)
          × (q.pools ≡ sp.steps_a ++ sp.steps_b))

  -- The amount of the quote is the larger of the two.
  abbrev pub PaysBest : AggregatedQuote js → RouteResult js → Option (SplitRouteResult js) → Type 0
  PaysBest q best split =
      (z : ℤ) × (b : ℤ) × (big_int q.amount_out ≡ ok z)
      × (big_int best.amount_out ≡ ok b)
      × (b ≤ℤ z)
      × SplitAtMost z split
      × Shows q best split

  -- The same of the route that is used.
  Picks : Option (SplitRouteResult js) → RouteResult js → Option (SplitRouteResult js) → Type 0
  Picks used best split =
      (z : ℤ)
      → big_int (final_amount_out js used best) ≡ ok z
      → (b : ℤ) × (big_int best.amount_out ≡ ok b)
        × (b ≤ℤ z)
        × SplitAtMost z split
        × ((used ≡ none) ⊎ ((sp : SplitRouteResult js) × (split ≡ some sp) × (used ≡ some sp)))

  used_split-Picks :
      (split : Option (SplitRouteResult js)) (best : RouteResult js)
      {used : Option (SplitRouteResult js)}
      → used_split js split best ≡ ok used
      → Picks used best split
  unfolding used_split final_amount_out Picks
  used_split-Picks none best e =
      subst (λ u. Picks u best none) (ok-injective e) (λ z p. (z, p, omega arith, tt, inl refl))
  used_split-Picks (some sp) best e =
      let (x, e_x, e_rest) = >>=-eq-ok (big_int sp.total_amount_out) _ e in
      let (b, e_b, e_used) = >>=-eq-ok (big_int best.amount_out) _ e_rest in
      elim (Bool-cases (ltb_ℤ b x)) [
        | inl more ↦
            subst (λ u. Picks u best (some sp)) (ok-injective (rw more at e_used))
              (λ z p.
                let same : x ≡ z = ok-injective (sym e_x ∙ p) in
                (
                  b,
                  e_b,
                  subst (λ v. b ≤ℤ v) same (ground arith),
                  (x, e_x, subst (λ v. x ≤ℤ v) same (omega arith)),
                  inr (sp, refl, refl),
                ))
        | inr less ↦
            subst (λ u. Picks u best (some sp)) (ok-injective (rw less at e_used))
              (λ z p.
                let same : b ≡ z = ok-injective (sym e_b ∙ p) in
                (z, p, omega arith, (x, e_x, subst (λ v. x ≤ℤ v) same (ground arith)), inl refl))
      ]

  Shows-used :
      (q : AggregatedQuote js) (used : Option (SplitRouteResult js)) (best : RouteResult js)
      (split : Option (SplitRouteResult js))
      → q.amount_out ≡ final_amount_out js used best
      → q.pools ≡ final_pools js used best
      → (used ≡ none) ⊎ ((sp : SplitRouteResult js) × (split ≡ some sp) × (used ≡ some sp))
      → Shows q best split
  unfolding final_amount_out final_pools
  Shows-used q used best split a p (inl n) = inl (rw n at a, rw n at p)
  Shows-used q used best split a p (inr (sp, is, u)) = inr (sp, is, rw u at a, rw u at p)

  pub aggregate-PaysBest :
      (token_in token_out amount_in : String) (amount : ℤ) (best : RouteResult js)
      (split : Option (SplitRouteResult js)) {q : AggregatedQuote js}
      → aggregate js token_in token_out amount_in amount best split ≡ ok q
      → PaysBest q best split
  unfolding aggregate Picks
  aggregate-PaysBest token_in token_out amount_in amount best split {q} e =
      let (used, e_used, e_1) = >>=-eq-ok (used_split js split best) _ e in
      let (z, e_z, e_2) = >>=-eq-ok (big_int (final_amount_out js used best)) _ e_1 in
      let (fee, e_fee, e_q) = >>=-eq-ok (total_fee js amount best.steps) _ e_2 in
      let (b, e_b, more, most, from) = used_split-Picks split best e_used z e_z in
      let shown : final_amount_out js used best ≡ q.amount_out =
        ap (λ (x : AggregatedQuote js). x.amount_out) (ok-injective e_q) in
      let listed : final_pools js used best ≡ q.pools =
        ap (λ (x : AggregatedQuote js). x.pools) (ok-injective e_q) in
      (
        z,
        b,
        subst (λ a. big_int a ≡ ok z) shown e_z,
        e_b,
        more,
        most,
        Shows-used q used best split (sym shown) (sym listed) from,
      )
