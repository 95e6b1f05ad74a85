-- ===== src/Routing/GraphService/Kept.antt =====
-- That the graph service keeps the graph that it has.
use soro_pool.Base.{
  ◌≡◌, refl, ap, ◌⊎◌, inl, inr, Option, none, some, List, Result, ok, err, ok-injective, sym, ◌∙◌,
}
use soro_pool.Routing.Action.{pure, lift, proceed, bind-ok, result_of, state_of}
use soro_pool.Routing.Graph.{Graphology}
use soro_pool.Routing.GraphService.{
  PoolRow, CachedGraph, GraphSources, GraphState, outer, cache_graph, with_graph, store, give,
  build_graph, get_restored, get_known, get_graph, restore_graph, rebuild, rebuild_graph, add_rows,
}

module _ (lib : Graphology) {S : Type 0} (sources : GraphSources S) where
  field_of :
      {A : Type 0} {x y : Result A} {s t : GraphState lib S}
      → ◌≡◌ {A = Result A × GraphState lib S} (x, s) (y, t)
      → t.graph ≡ s.graph
  field_of e = ap (λ (x : GraphState lib S). x.graph) (sym (state_of e))

  store-kept :
      (h : lib.Graph) (s : GraphState lib S) {g : lib.Graph} {u : GraphState lib S}
      → store lib sources h s ≡ (ok g, u)
      → u.graph ≡ some g
  store-kept h s {g} {u} e =
      let (cached, w, e_c, e_end) =
        bind-ok (cache_graph lib sources h) (λ c. pure h) (with_graph lib sources h s) e in
      field_of e_end ∙ field_of e_c ∙ ap some (ok-injective (result_of e_end))

  get_restored-kept :
      (cached : Option CachedGraph) (s : GraphState lib S) {g : lib.Graph} {u : GraphState lib S}
      → get_restored lib sources cached s ≡ (ok g, u)
      → u.graph ≡ some g
  unfolding get_restored
  get_restored-kept none s e =
      let (h, t, e_h, e_store) = bind-ok (build_graph lib sources) (store lib sources) s e in
      store-kept h t e_store
  get_restored-kept (some cached) s e =
      let (h, t, e_h, e_end) = bind-ok (lift (restore_graph lib cached)) (give lib sources) s e in
      field_of e_end ∙ ap some (ok-injective (result_of e_end))

  get_known-kept :
      (known : Option lib.Graph) (s : GraphState lib S) {g : lib.Graph} {u : GraphState lib S}
      → s.graph ≡ known
      → get_known lib sources known s ≡ (ok g, u)
      → u.graph ≡ some g
  unfolding get_known
  get_known-kept (some known) s {g} {u} is e =
      ap (λ (x : GraphState lib S). x.graph) (sym (state_of e))
      ∙ is
      ∙ ap some (ok-injective (result_of e))
  get_known-kept none s {g} {u} is e =
      let (cached, t, e_c, e_rest) = bind-ok (outer lib sources sources.get_cached) _ s e in
      get_restored-kept cached t e_rest

  -- A call of `getGraph` that returns leaves its graph in the service, and the next call returns the
  -- same graph and changes nothing.
  pub get_graph-kept :
      (s : GraphState lib S) {g : lib.Graph} {u : GraphState lib S}
      → get_graph lib sources s ≡ (ok g, u)
      → (u.graph ≡ some g) × (get_graph lib sources u ≡ (ok g, u))
  unfolding get_graph get_known
  get_graph-kept s {g} {u} e =
      let field = get_known-kept s.graph s refl e in
      (field, ap (λ k. get_known lib sources k u) field)

  -- The graph in the field was built from the answer of the pools service.
  Rebuilt : GraphState lib S → lib.Graph → Type 0
  Rebuilt s g =
      (pools : List PoolRow) × (t : S) × (sources.find_pools s.outside ≡ (ok pools, t))
      × (add_rows lib pools lib.new_graph ≡ ok g)

  -- What the state holds after a part of `rebuildGraph`.
  Keeps : GraphState lib S → GraphState lib S → Type 0
  Keeps s u = (u.graph ≡ s.graph) ⊎ ((g : lib.Graph) × (u.graph ≡ some g) × Rebuilt s g)

  stored-Keeps :
      (s t : GraphState lib S) (pools : List PoolRow) (r : Result lib.Graph)
      → t.graph ≡ s.graph
      → sources.find_pools s.outside ≡ (ok pools, t.outside)
      → add_rows lib pools lib.new_graph ≡ r
      → Keeps s (proceed (λ g x. cache_graph lib sources g (with_graph lib sources g x)) (r, t)).1
  unfolding Keeps Rebuilt
  stored-Keeps s t pools (ok g) same found added = inr (g, refl, (pools, t.outside, found, added))
  stored-Keeps s t pools (err thrown) same found added = inl same

  found-Keeps :
      (s : GraphState lib S) (p : Result (List PoolRow) × S)
      → sources.find_pools s.outside ≡ p
      → Keeps s
          (proceed
            (λ g x. cache_graph lib sources g (with_graph lib sources g x))
            (proceed
              (λ pools. lift (add_rows lib pools lib.new_graph))
              (p.0, record { graph = s.graph; outside = p.1 }))).1
  unfolding Keeps
  found-Keeps s (ok pools, t) e =
      stored-Keeps s (record { graph = s.graph; outside = t }) pools _ refl e refl
  found-Keeps s (err thrown, t) e = inl refl

  -- A call of `rebuildGraph` never throws. It leaves the graph of the service as it was, or in its
  -- place a graph that is built from the pools that the pools service has returned.
  pub rebuild_graph-safe :
      (s : GraphState lib S)
      → ((rebuild_graph lib sources s).0 ≡ ok tt)
        × (((rebuild_graph lib sources s).1.graph ≡ s.graph)
            ⊎ ((g : lib.Graph) × ((rebuild_graph lib sources s).1.graph ≡ some g)
                × ((pools : List PoolRow) × (t : S) × (sources.find_pools s.outside ≡ (ok pools, t))
                    × (add_rows lib pools lib.new_graph ≡ ok g))))
  unfolding rebuild_graph rebuild build_graph Keeps Rebuilt
  rebuild_graph-safe s = (refl, found-Keeps s (sources.find_pools s.outside) refl)
