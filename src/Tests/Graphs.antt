-- ===== src/Tests/Graphs.antt =====
-- Runs of the graph service on one pool.
use soro_pool.Base.{◌≡◌, refl, ◌⊎◌, some, none, List, [], ◌∷◌, ok, true, false}
use soro_pool.Base.Int.{pos}
use soro_pool.Js.Sort.{sort}
use soro_pool.Routing.Action.{pure}
use soro_pool.Routing.Graph.{Edge}
use soro_pool.Routing.GraphKey.{key_ends}
use soro_pool.Routing.GraphService.{
  PoolRow, GraphSources, GraphState, edge_there, edge_back, serialize_graph, add_pool_edge,
  add_pool, add_row, add_rows, add_nodes, add_cached_edges, restore_graph, build_graph,
  get_restored, get_known, get_graph, rebuild_graph, pool_candidates, get_pool_for_tokens,
}
use soro_pool.Routing.GraphService.Kept.{get_graph-kept, rebuild_graph-safe}
use soro_pool.Tests.Fixtures.{ints, edge_list}

abbrev row : PoolRow
row = record {
  id = "p1";
  pool_type = "constant_product";
  symbol0 = some "A";
  symbol1 = some "B";
  reserve0 = "1000";
  reserve1 = "500";
  fee_bps = pos 30;
  tvl_usd = "";
  is_active = true;
}

-- The inactive pool and the one without a symbol are passed over.
abbrev rows : List PoolRow
rows =
    record {
      id = "p0";
      pool_type = "stable";
      symbol0 = some "A";
      symbol1 = some "C";
      reserve0 = "1";
      reserve1 = "1";
      fee_bps = pos 5;
      tvl_usd = "7";
      is_active = false;
    }
    ∷ record {
      id = "p2";
      pool_type = "stable";
      symbol0 = some "A";
      symbol1 = none;
      reserve0 = "1";
      reserve1 = "1";
      fee_bps = pos 5;
      tvl_usd = "7";
      is_active = true;
    }
    ∷ row
    ∷ []

abbrev sources : GraphSources (Unit {0})
sources = record { find_pools = pure rows; get_cached = pure none; set_cached = λ g ttl. pure tt }

abbrev built : List Edge
built =
    record { key = "p1:A>B"; source = "A"; target = "B"; attributes = edge_there row "A" "B" }
    ∷ record { key = "p1:B>A"; source = "B"; target = "A"; attributes = edge_back row "A" "B" }
    ∷ []

abbrev start : GraphState edge_list (Unit {0})
start = record { graph = none; outside = tt }

abbrev after : GraphState edge_list (Unit {0})
after = record { graph = some built; outside = tt }

graph_run : get_graph edge_list sources start ≡ (ok built, after)
unfolding get_graph get_known get_restored build_graph add_rows add_row add_pool add_pool_edge
graph_run = refl

-- The cached form of the graph is read back to the graph.
restore_run : restore_graph edge_list (serialize_graph edge_list built) ≡ ok built
unfolding restore_graph add_nodes add_cached_edges add_pool_edge key_ends
restore_run = refl

pool_run :
    get_pool_for_tokens edge_list sources ints "B" "A" none start
    ≡ (ok (some (edge_back row "A" "B")), after)
unfolding get_pool_for_tokens pool_candidates sort get_graph get_known get_restored build_graph
    add_rows add_row add_pool add_pool_edge
pool_run = refl

get_graph-kept_example :
    (after.graph ≡ some built) × (get_graph edge_list sources after ≡ (ok built, after))
get_graph-kept_example = get_graph-kept edge_list sources start graph_run

rebuild_graph-safe_example :
    ((rebuild_graph edge_list sources start).0 ≡ ok tt)
    × (((rebuild_graph edge_list sources start).1.graph ≡ none)
        ⊎ ((g : List Edge) × ((rebuild_graph edge_list sources start).1.graph ≡ some g)
            × ((pools : List PoolRow) × (t : Unit {0}) × (sources.find_pools tt ≡ (ok pools, t))
                × (add_rows edge_list pools [] ≡ ok g))))
rebuild_graph-safe_example = rebuild_graph-safe edge_list sources start
