-- ===== src/Routing/GraphService.antt =====
-- backend/src/modules/routing/graph.service.ts: how the token graph is built, cached and asked. The
-- pools service and the Redis client are parameters.
pub mod Kept
use soro_pool.Base.{
  ℕ, zero, suc, ◌+◌, String, Bool, true, false, not, ◌||◌, ◌&&◌, Option, none, some, List, [], ◌∷◌,
  map, Result, ok, err, if◌then◌else◌, length,
}
use soro_pool.Base.Int.{ℤ, eqb_ℤ}
use soro_pool.Js.Number.{JsNumber}
use soro_pool.Js.Sort.{sort}
use soro_pool.Routing.Action.{Action, pure, lift, ◌>>=◌}
use soro_pool.Routing.Best.{lacks_nodes}
use soro_pool.Routing.Graph.{PoolEdge, Edge, Graphology}
use soro_pool.Routing.GraphKey.{edge_key, key_ends}
use soro_pool.Routing.Simulate.{head?, less_tvl}
use text.Mathlib.Text.{◌==◌}

-- The fields of a pool that the graph is built from; a token may be missing.
pub record PoolRow : Type 0 where
  pub id : String
  pub pool_type : String
  pub symbol0 : Option String
  pub symbol1 : Option String
  pub reserve0 : String
  pub reserve1 : String
  pub fee_bps : ℤ
  pub tvl_usd : String
  pub is_active : Bool

-- `serializeGraph`: the nodes, and the edges with their keys
pub record CachedGraph : Type 0 where
  pub nodes : List String
  pub edges : List (String × PoolEdge)

-- What the service reads and writes outside: `findAll` of the pools service, and the graph's place in
-- Redis.
pub record GraphSources (S : Type 0) : Type 0 where
  pub find_pools : Action S (List PoolRow)
  pub get_cached : Action S (Option CachedGraph)
  pub set_cached : CachedGraph → ℕ → Action S Unit

-- `symbol || none`: an empty symbol counts as missing.
abbrev pub symbol_of : Option String → Option String
symbol_of none = none
symbol_of (some s) = if s == "" then none else some s

abbrev pub or_zero : String → String
or_zero s = if s == "" then "0" else s

abbrev pub edge_there : PoolRow → String → String → PoolEdge
edge_there pool a b = record {
  pool_id = pool.id;
  pool_type = pool.pool_type;
  token_in = a;
  token_out = b;
  reserve_in = pool.reserve0;
  reserve_out = pool.reserve1;
  fee_bps = pool.fee_bps;
  tvl_usd = or_zero pool.tvl_usd;
}

abbrev pub edge_back : PoolRow → String → String → PoolEdge
edge_back pool a b = record {
  pool_id = pool.id;
  pool_type = pool.pool_type;
  token_in = b;
  token_out = a;
  reserve_in = pool.reserve1;
  reserve_out = pool.reserve0;
  fee_bps = pool.fee_bps;
  tvl_usd = or_zero pool.tvl_usd;
}

-- The seconds that a serialized graph is kept.
abbrev pub graph_ttl : ℕ
graph_ttl = 60

module _ (lib : Graphology) where
  -- `if (!g.hasNode(x)) g.addNode(x)`
  abbrev pub ensure_node : String → lib.Graph → Result lib.Graph
  ensure_node x g = if lib.has_node g x then ok g else lib.add_node x g

  -- One edge, after both of its nodes.
  unfoldable pub add_pool_edge : String → String → String → PoolEdge → lib.Graph → Result lib.Graph
  add_pool_edge key from to edge g = elim (ensure_node from g) [
    | err e ↦ err e
    | ok g1 ↦ elim (ensure_node to g1) [
      | err e ↦ err e
      | ok g2 ↦ lib.add_edge_with_key key from to edge g2
    ]
  ]

  -- The body of the loop for a pool with two symbols.
  unfoldable pub add_pool : PoolRow → String → String → lib.Graph → Result lib.Graph
  add_pool pool a b g = elim (add_pool_edge (edge_key pool.id a b) a b (edge_there pool a b) g) [
    | err e ↦ err e
    | ok g' ↦ lib.add_edge_with_key (edge_key pool.id b a) b a (edge_back pool a b) g'
  ]

  -- One round: inactive pools and pools without two symbols are passed over.
  unfoldable pub add_row : PoolRow → lib.Graph → Result lib.Graph
  add_row pool g = if not pool.is_active then ok g else elim (symbol_of pool.symbol0) [
    | none ↦ ok g
    | some a ↦ elim (symbol_of pool.symbol1) [ none ↦ ok g | some b ↦ add_pool pool a b g ]
  ]

  unfoldable pub add_rows : List PoolRow → lib.Graph → Result lib.Graph
  add_rows [] g = ok g
  add_rows (pool ∷ pools) g = elim (add_row pool g) [ err e ↦ err e | ok g' ↦ add_rows pools g' ]

  -- `serializeGraph`
  abbrev pub serialize_graph : lib.Graph → CachedGraph
  serialize_graph g = record {
    nodes = lib.nodes g;
    edges = map (λ e. (e.key, e.attributes)) (lib.edges g);
  }

  -- The two loops of `getGraph` over a cached graph.
  unfoldable pub add_nodes : List String → lib.Graph → Result lib.Graph
  add_nodes [] g = ok g
  add_nodes (x ∷ xs) g = elim (lib.add_node x g) [ err e ↦ err e | ok g' ↦ add_nodes xs g' ]

  unfoldable pub add_cached_edges : List (String × PoolEdge) → lib.Graph → Result lib.Graph
  add_cached_edges [] g = ok g
  add_cached_edges ((key, attributes) ∷ rest) g = elim (key_ends key) [
    | err e ↦ err e
    | ok (from, to) ↦ elim (add_pool_edge key from to attributes g) [
      | err e ↦ err e
      | ok g' ↦ add_cached_edges rest g'
    ]
  ]

  unfoldable pub restore_graph : CachedGraph → Result lib.Graph
  restore_graph cached = elim (add_nodes cached.nodes lib.new_graph) [
    | err e ↦ err e
    | ok g ↦ add_cached_edges cached.edges g
  ]

  -- The service's `graph` field beside the state of what it calls.
  pub record GraphState (S : Type 0) : Type 0 where
    pub graph : Option lib.Graph
    pub outside : S

  module _ {S : Type 0} (sources : GraphSources S) where
    -- A call to the outside.
    abbrev pub outer : {A : Type 0} → Action S A → Action (GraphState S) A
    outer act s = let (r, t) = act s.outside in (r, record { graph = s.graph; outside = t })

    -- `this.graph = g`
    abbrev pub with_graph : lib.Graph → GraphState S → GraphState S
    with_graph g s = record { graph = some g; outside = s.outside }

    abbrev pub cache_graph : lib.Graph → Action (GraphState S) Unit
    cache_graph g = outer (sources.set_cached (serialize_graph g) graph_ttl)

    -- `buildGraph`
    unfoldable pub build_graph : Action (GraphState S) lib.Graph
    build_graph = outer sources.find_pools >>= λ pools. lift (add_rows pools lib.new_graph)

    -- The end of `getGraph`: a graph built from the pools is kept and cached.
    abbrev pub store : lib.Graph → Action (GraphState S) lib.Graph
    store g s = (cache_graph g >>= λ cached. pure g) (with_graph g s)

    -- A restored graph is kept.
    abbrev pub give : lib.Graph → Action (GraphState S) lib.Graph
    give g s = (ok g, with_graph g s)

    -- `getGraph` without a graph in the field, once Redis has answered.
    unfoldable pub get_restored : Option CachedGraph → Action (GraphState S) lib.Graph
    get_restored none = build_graph >>= store
    get_restored (some cached) = lift (restore_graph cached) >>= give

    unfoldable pub get_known : Option lib.Graph → Action (GraphState S) lib.Graph
    get_known (some g) = pure g
    get_known none = outer sources.get_cached >>= get_restored

    -- `getGraph`
    unfoldable pub get_graph : Action (GraphState S) lib.Graph
    get_graph s = get_known s.graph s

    -- The `try` block of `rebuildGraph`, and the method, which drops what was thrown.
    unfoldable pub rebuild : Action (GraphState S) Unit
    rebuild = build_graph >>= λ g s. cache_graph g (with_graph g s)

    unfoldable pub rebuild_graph : Action (GraphState S) Unit
    rebuild_graph s = (ok tt, (rebuild s).1)

    -- `getNodeCount` and `getEdgeCount`
    pub get_node_count : GraphState S → ℕ
    get_node_count s = elim s.graph [ none ↦ 0 | some g ↦ length (lib.nodes g) ]

    pub get_edge_count : GraphState S → ℕ
    get_edge_count s = elim s.graph [ none ↦ 0 | some g ↦ length (lib.edges g) ]

    module _ (js : JsNumber) where
      -- `feeBps === undefined || attrs.feeBps === feeBps`
      abbrev pub fee_wanted : Option ℤ → PoolEdge → Bool
      fee_wanted none edge = true
      fee_wanted (some fee) edge = eqb_ℤ edge.fee_bps fee

      unfoldable pub pool_candidates : String → String → Option ℤ → List Edge → List PoolEdge
      pool_candidates a b fee [] = []
      pool_candidates a b fee (e ∷ es) =
          let rest = pool_candidates a b fee es in
          if e.source == a && e.target == b && fee_wanted fee e.attributes
          then e.attributes ∷ rest
          else rest

      abbrev pub pool_in : String → String → Option ℤ → lib.Graph → Option PoolEdge
      pool_in a b fee g =
          if lacks_nodes lib g a b
          then none
          else head? (sort (less_tvl js) (pool_candidates a b fee (lib.edges g)))

      -- `getPoolForTokens`
      unfoldable pub get_pool_for_tokens :
          String → String → Option ℤ → Action (GraphState S) (Option PoolEdge)
      get_pool_for_tokens a b fee = get_graph >>= λ g. pure (pool_in a b fee g)
