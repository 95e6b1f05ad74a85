-- ===== src/Routing/Graph.antt =====
-- The token graph: `PoolEdge` of backend/src/modules/routing/graph.service.ts, and the parts of the
-- graphology package that the program calls, as an interface.
use soro_pool.Base.{String, Bool, Result, List}
use soro_pool.Base.Int.{ℤ}

-- `PoolEdge`
pub record PoolEdge : Type 0 where
  pub pool_id : String
  pub pool_type : String
  pub token_in : String
  pub token_out : String
  pub reserve_in : String
  pub reserve_out : String
  pub fee_bps : ℤ
  pub tvl_usd : String

-- What `forEachEdge` hands to its callback.
pub record Edge : Type 0 where
  pub key : String
  pub source : String
  pub target : String
  pub attributes : PoolEdge

-- A directed multigraph of graphology. Adding a node or a key that is there, or an edge between
-- nodes that are not, throws.
pub record Graphology : Type 1 where
  pub Graph : Type 0
  pub new_graph : Graph
  pub has_node : Graph → String → Bool
  pub add_node : String → Graph → Result Graph
  pub add_edge_with_key : String → String → String → PoolEdge → Graph → Result Graph
  -- in the order of `forEachNode`, `forEachEdge` and `forEachNeighbor`
  pub nodes : Graph → List String
  pub edges : Graph → List Edge
  pub neighbors : Graph → String → List String
