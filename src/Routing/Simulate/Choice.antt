-- ===== src/Routing/Simulate/Choice.antt =====
-- Which pool `findBestEdge` chooses.
use soro_pool.Base.{
  String, ◌≡◌, refl, sym, ap, ◌∙◌, Bool, true, false, ◌&&◌, some, List, [], ◌∷◌, All, Bool-cases,
  inl, inr,
}
use soro_pool.Js.Number.{JsNumber}
use soro_pool.Js.Sort.{sort, IsOrdered, sort-IsOrdered, All-sort, Memᴰ-sort}
use soro_pool.Routing.Graph.{PoolEdge, Edge}
use soro_pool.Routing.Simulate.{candidates, head?, less_tvl, find_best_edge}
use mathlib.Core.Bool.{and-eq-true_iff}
use mathlib.Core.List.{Memᴰ}
use mathlib.Core.Option.{some-injective}
use mathlib.Core.Path.{subst}
use text.Mathlib.Text.{◌==◌}
use text.Mathlib.TextEquality.{eq_iff}

-- The attributes of an edge of the list between the two tokens.
pub record IsBetween (edges : List Edge) (from to : String) (p : PoolEdge) : Type 0 where
  pub edge : Edge
  pub listed : Memᴰ edge edges
  pub attributes : p ≡ edge.attributes
  pub source : edge.source ≡ from
  pub target : edge.target ≡ to

weaken :
    (e : Edge) (es : List Edge) (from to : String) (p : PoolEdge)
    → IsBetween es from to p
    → IsBetween (e ∷ es) from to p
weaken e es from to p b = record {
  edge = b.edge;
  listed = Memᴰ.tail b.listed;
  attributes = b.attributes;
  source = b.source;
  target = b.target;
}

weaken-All :
    (e : Edge) (es : List Edge) (from to : String) (ps : List PoolEdge)
    → All (IsBetween es from to) ps
    → All (IsBetween (e ∷ es) from to) ps
weaken-All e es from to [] h = tt
weaken-All e es from to (p ∷ ps) (b, h) = (weaken e es from to p b, weaken-All e es from to ps h)

candidates-IsBetween :
    (from to : String) (es : List Edge) → All (IsBetween es from to) (candidates from to es)
unfolding candidates
candidates-IsBetween from to [] = tt
candidates-IsBetween from to (e ∷ es) = elim (Bool-cases (e.source == from && e.target == to)) [
  | inl t ↦
      let (s, d) = (and-eq-true_iff _ _).0 t in
      rw t (
        record {
          edge = e;
          listed = Memᴰ.head refl;
          attributes = refl;
          source = (eq_iff e.source from).0 s;
          target = (eq_iff e.target to).0 d;
        },
        weaken-All e es from to (candidates from to es) (candidates-IsBetween from to es),
      )
  | inr f ↦ rw f (weaken-All e es from to (candidates from to es) (candidates-IsBetween from to es))
]

both_true :
    (x : Edge) (from to : String)
    → x.source ≡ from
    → x.target ≡ to
    → (x.source == from && x.target == to) ≡ true
both_true x from to s d =
    (and-eq-true_iff _ _).1 ((eq_iff x.source from).1 s, (eq_iff x.target to).1 d)

candidates-complete :
    (from to : String) (es : List Edge) (e : Edge)
    → Memᴰ e es
    → e.source ≡ from
    → e.target ≡ to
    → Memᴰ e.attributes (candidates from to es)
unfolding candidates
candidates-complete from to [] e m s d = elim m [ ]
candidates-complete from to (x ∷ es) e (Memᴰ.head q) s d =
    let s' : x.source ≡ from = sym (ap (λ (r : Edge). r.source) q) ∙ s in
    let d' : x.target ≡ to = sym (ap (λ (r : Edge). r.target) q) ∙ d in
    rw (both_true x from to s' d') (Memᴰ.head (ap (λ (r : Edge). r.attributes) q))
candidates-complete from to (x ∷ es) e (Memᴰ.tail m) s d =
    elim (Bool-cases (x.source == from && x.target == to)) [
      | inl t ↦ rw t (Memᴰ.tail (candidates-complete from to es e m s d))
      | inr f ↦ rw f (candidates-complete from to es e m s d)
    ]

All-at : {A : Type 0} (P : A → Type 0) (xs : List A) (a : A) → All P xs → Memᴰ a xs → P a
All-at P [] a h m = elim m [ ]
All-at P (x ∷ xs) a (p, h) (Memᴰ.head e) = subst P (sym e) p
All-at P (x ∷ xs) a (p, h) (Memᴰ.tail m) = All-at P xs a h m

-- The head of an ordered list is not behind any item.
head_first :
    {A : Type 0} (after : A → A → Bool) (P : A → Type 0) (xs : List A) (h a : A)
    → ((b : A) → after b b ≡ false)
    → IsOrdered after xs
    → All P xs
    → head? xs ≡ some h
    → Memᴰ a xs
    → P h × (after h a ≡ false)
head_first after P [] h a irr o q e m = elim m [ ]
head_first after P (x ∷ xs) h a irr (below, o) (p, q) e m =
    let first : after x a ≡ false = All-at (λ y. after x y ≡ false) (x ∷ xs) a (irr x, below) m in
    subst (λ y. P y × (after y a ≡ false)) (some-injective x h e) (p, first)

module _ (js : JsNumber)
    (asym : (a b : PoolEdge) → less_tvl js a b ≡ true → less_tvl js b a ≡ false)
    (trans : (a b c : PoolEdge)
      → less_tvl js a b ≡ false
      → less_tvl js b c ≡ false
      → less_tvl js a c ≡ false)
    (refl_tvl : (a : PoolEdge) → less_tvl js a a ≡ false) where
  -- Where comparing by TVL is a total preorder (no TVL text reads as NaN), the chosen edge is one of
  -- those between the two tokens, and none of these has a larger TVL.
  pub find_best_edge-largest :
      (edges : List Edge) (from to : String) {p : PoolEdge} (e : Edge)
      → find_best_edge js edges from to ≡ some p
      → Memᴰ e edges
      → e.source ≡ from
      → e.target ≡ to
      → IsBetween edges from to p × (less_tvl js p e.attributes ≡ false)
  unfolding find_best_edge
  find_best_edge-largest edges from to {p} e h m s d =
      let cs = candidates from to edges in
      head_first (less_tvl js) (IsBetween edges from to) (sort (less_tvl js) cs) p e.attributes
        refl_tvl (sort-IsOrdered (less_tvl js) asym trans cs)
        (All-sort (less_tvl js) (IsBetween edges from to) cs (candidates-IsBetween from to edges)) h
        (Memᴰ-sort (less_tvl js) e.attributes cs (candidates-complete from to edges e m s d))
