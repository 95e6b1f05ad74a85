-- ===== src/Routing/Simulate/Chain.antt =====
-- What a simulated route consists of.
use soro_pool.Base.{
  String, ◌≡◌, refl, sym, ap, ◌∙◌, false, Option, some, List, [], ◌∷◌, ◌++◌, Result, ok,
  ok-injective, arith, Result-cases, Option-cases, inl, inr,
}
use mathlib.Core.List.{append-nil, append_assoc}
use mathlib.Core.Path.{subst}
use soro_pool.Base.Int.{ℤ, pos}
use soro_pool.Js.BigInt.{big_int, to_string}
use soro_pool.Js.BigInt.RoundTrip.{big_int-to_string}
use soro_pool.Js.Number.{JsNumber}
use soro_pool.Math.ConstantProduct.{not_positive, get_amount_out, AmountResult, amount_out_big}
use soro_pool.Math.ConstantProduct.Swap.{get_amount_out-ok}
use soro_pool.Routing.Graph.{PoolEdge, Edge}
use soro_pool.Routing.Simulate.{
  HopStep, RouteResult, find_best_edge, swap_hop, hop, walk, route_of, simulate_path_in,
}

module _ (js : JsNumber) (edges : List Edge) where
  -- A step that swaps `a` for `b` on the best edge from a token to another.
  pub record IsStep (from to : String) (a : ℤ) (step : HopStep js) (b : ℤ) : Type 0 where
    pub edge : PoolEdge
    pub reserve_in : ℤ
    pub reserve_out : ℤ
    pub best : find_best_edge js edges from to ≡ some edge
    pub pool : step.pool_id ≡ edge.pool_id
    pub token_in : step.token_in ≡ from
    pub token_out : step.token_out ≡ to
    pub amount_in : step.amount_in ≡ to_string a
    pub amount_out : step.amount_out ≡ to_string b
    pub fee : step.fee ≡ edge.fee_bps
    pub read_in : big_int edge.reserve_in ≡ ok reserve_in
    pub read_out : big_int edge.reserve_out ≡ ok reserve_out
    pub swapped : amount_out_big a reserve_in reserve_out edge.fee_bps ≡ ok b
    pub positive : not_positive b ≡ false

  -- One step for each hop of the path, where each step's output is the next one's input.
  pub data Chain : String → List String → ℤ → List (HopStep js) → ℤ → Type 0 where
    done : (from : String) (a : ℤ) → Chain from [] a [] a
    via :
        {from to : String} {rest : List String} {a b c : ℤ} {step : HopStep js}
        {steps : List (HopStep js)}
        → IsStep from to a step b
        → Chain to rest b steps c
        → Chain from (to ∷ rest) a (step ∷ steps) c

  swap_hop-inv :
      (edge : PoolEdge) (from to : String) (a x y : ℤ) (step : HopStep js) (b : ℤ)
      → swap_hop js edge from to a x y ≡ some (step, b)
      → (r : AmountResult js) × (get_amount_out js
            (to_string a)
            (to_string x)
            (to_string y)
            edge.fee_bps
          ≡ ok r)
        × (big_int r.amount_out ≡ ok b)
        × (not_positive b ≡ false)
        × (step.pool_id ≡ edge.pool_id)
        × (step.token_in ≡ from)
        × (step.token_out ≡ to)
        × (step.amount_in ≡ to_string a)
        × (step.amount_out ≡ to_string b)
        × (step.fee ≡ edge.fee_bps)
  unfolding swap_hop
  swap_hop-inv edge from to a x y step b e =
      elim (Result-cases
        (get_amount_out js (to_string a) (to_string x) (to_string y) edge.fee_bps)) [
          | inl (thrown, p) ↦ cc (rw (p, swap_hop) at e)
          | inr (r, p) ↦ elim (Result-cases (big_int r.amount_out)) [
            | inl (thrown, q) ↦ cc (rw (p, q, swap_hop) at e)
            | inr (out, q) ↦ (
              r,
              p,
              ground arith,
              ground arith,
              ground arith,
              ground arith,
              ground arith,
              ground arith,
              ground arith,
              ground arith,
            )
          ]
        ]

  hop-inv :
      (from to : String) (a : ℤ) (step : HopStep js) (b : ℤ)
      → hop js edges from to a ≡ ok (some (step, b))
      → (edge : PoolEdge) × (x : ℤ) × (y : ℤ) × (find_best_edge js edges from to ≡ some edge)
        × (big_int edge.reserve_in ≡ ok x)
        × (big_int edge.reserve_out ≡ ok y)
        × (swap_hop js edge from to a x y ≡ some (step, b))
  unfolding hop
  hop-inv from to a step b e = elim (Option-cases (find_best_edge js edges from to)) [
    | inl p ↦ cc (rw (p, hop) at e)
    | inr (edge, p) ↦ elim (Result-cases (big_int edge.reserve_in)) [
      | inl (thrown, q) ↦ cc (rw (p, q, hop) at e)
      | inr (x, q) ↦ elim (Result-cases (big_int edge.reserve_out)) [
        | inl (thrown, q') ↦ cc (rw (p, q, q', hop) at e)
        | inr (y, q') ↦ (edge, x, y, p, q, q', ground arith)
      ]
    ]
  ]

  hop-IsStep :
      (from to : String) (a : ℤ) (step : HopStep js) (b : ℤ)
      → hop js edges from to a ≡ ok (some (step, b))
      → IsStep from to a step b
  hop-IsStep from to a step b e =
      let (edge, x, y, p, q, q', s) = hop-inv from to a step b e in
      let (r, swapped, out, positive, pool, t_in, t_out, a_in, a_out, fee) =
        swap_hop-inv edge from to a x y step b s in
      let (o, e_o, shown) =
        get_amount_out-ok js (to_string a) (to_string x) (to_string y) edge.fee_bps
          (big_int-to_string a) (big_int-to_string x) (big_int-to_string y) swapped in
      let same : o ≡ b = ok-injective (sym (ap big_int shown ∙ big_int-to_string o) ∙ out) in
      record {
        edge = edge;
        reserve_in = x;
        reserve_out = y;
        best = p;
        pool = pool;
        token_in = t_in;
        token_out = t_out;
        amount_in = a_in;
        amount_out = a_out;
        fee = fee;
        read_in = q;
        read_out = q';
        swapped = e_o ∙ ap ok same;
        positive = positive;
      }

  walk-Chain :
      (from : String) (rest : List String) (before : List (HopStep js)) (a : ℤ) (total : js.Num)
      {steps : List (HopStep js)} {out : ℤ} {sum : js.Num}
      → walk js edges from rest before a total ≡ ok (some (steps, out, sum))
      → (more : List (HopStep js)) × (steps ≡ before ++ more) × Chain from rest a more out
  unfolding walk
  walk-Chain from [] before a total {steps} {out} e =
      let same_steps : before ≡ steps = ground arith in
      let same_out : a ≡ out = ground arith in
      (
        [],
        sym same_steps ∙ sym (append-nil before),
        subst (λ z. Chain from [] a [] z) same_out (done from a),
      )
  walk-Chain from (to ∷ rest) before a total {steps} {out} {sum} e =
      elim (Result-cases (hop js edges from to a)) [
        | inl (thrown, p) ↦ cc (rw (p, walk) at e)
        | inr (o, p) ↦ elim (Option-cases o) [
          | inl q ↦ cc (rw (p ∙ ap ok q, walk) at e)
          | inr ((step, b), q) ↦
              let (more, split, chain) =
                walk-Chain to rest (before ++ step ∷ []) b (js.add total step.price_impact)
                  {steps = steps} {out = out} {sum = sum} (rw (p ∙ ap ok q, walk) at e) in
              (
                step ∷ more,
                split ∙ append_assoc before (step ∷ []) more,
                via (hop-IsStep from to a step b (p ∙ ap ok q)) chain,
              )
        ]
      ]

  -- The hops of a path that may have no token.
  abbrev pub PathChain : List String → ℤ → List (HopStep js) → ℤ → Type 0
  PathChain [] a steps out = (steps ≡ []) × (a ≡ out)
  PathChain (from ∷ rest) a steps out = Chain from rest a steps out

  route_parts :
      (path : List String) (a : ℤ) (steps : List (HopStep js)) (out : ℤ) (sum : js.Num)
      (r : RouteResult js)
      → ◌≡◌ {A = Result (Option (RouteResult js))}
          (ok (route_of js path a (some (steps, out, sum))))
          (ok (some r))
      → (r.path ≡ path) × (r.amount_out ≡ to_string out) × (r.steps ≡ steps)
  route_parts path a steps out sum r e = (ground arith, ground arith, ground arith)

  -- A route that `simulatePath` returns is a chain of swaps along its path: the first takes the
  -- input, each of the others takes the output of the one before it, each is the constant-product
  -- swap on the best edge of its two tokens, and the last gives the route's output.
  pub simulate_path_in-Chain :
      (path : List String) (a : ℤ) (r : RouteResult js)
      → simulate_path_in js edges path a ≡ ok (some r)
      → (out : ℤ) × (r.path ≡ path) × (big_int r.amount_out ≡ ok out) × PathChain path a r.steps out
  unfolding simulate_path_in
  simulate_path_in-Chain [] a r e =
      let shown : to_string a ≡ r.amount_out = ground arith in
      (a, ground arith, ap big_int (sym shown) ∙ big_int-to_string a, (ground arith, refl))
  simulate_path_in-Chain (from ∷ rest) a r e =
      elim (Result-cases (walk js edges from rest [] a (js.of_int (pos 0)))) [
        | inl (thrown, p) ↦ cc (rw (p, simulate_path_in) at e)
        | inr (o, p) ↦ elim (Option-cases o) [
          | inl q ↦ cc (rw (p ∙ ap ok q, simulate_path_in) at e)
          | inr ((steps, out, sum), q) ↦
              let (more, split, chain) =
                walk-Chain from rest [] a (js.of_int (pos 0)) {steps = steps} {out = out}
                  {sum = sum} (p ∙ ap ok q) in
              let (is_path, is_out, is_steps) =
                route_parts (from ∷ rest) a steps out sum r
                  (rw (p ∙ ap ok q, simulate_path_in) at e) in
              (
                out,
                is_path,
                ap big_int is_out ∙ big_int-to_string out,
                subst (λ z. Chain from rest a z out) (sym split ∙ sym is_steps) chain,
              )
        ]
      ]
