-- ===== src/Tests/Routes.antt =====
-- Runs of the routing services on a graph of three tokens.
use soro_pool.Base.{
  String, ◌≡◌, refl, true, false, some, none, List, [], ◌∷◌, ok, ◌⊎◌, All, length, ◌≤◌, arith,
}
use soro_pool.Base.Int.{ℤ, pos, negsuc, ◌+ℤ◌, ◌-ℤ◌, ◌*ℤ◌, ◌/ℤ◌, quot, ◌<ℤ◌, -ℤ_parts, ltb_ℤ}
use soro_pool.Js.BigInt.{big_int, to_string}
use soro_pool.Js.Sort.{sort, IsOrdered}
use soro_pool.Math.ConstantProduct.{amount_out_big, price_impact_big, get_amount_out}
use soro_pool.Routing.Aggregate.{
  AggregatedQuote, critical, used_split, final_amount_out, final_impact, final_pools, final_path,
  pool_fees, total_fee, severity_of, aggregate,
}
use soro_pool.Routing.Best.{keep_better, best_of, find_best_route, find_all_paths, lacks_nodes}
use soro_pool.Routing.Best.Largest.{IsBestOf, find_best_route-largest}
use soro_pool.Routing.Graph.{PoolEdge, Edge}
use soro_pool.Routing.Paths.{find_all_paths_in_graph, contains, visit, dfs, longer}
use soro_pool.Routing.Paths.Sound.{IsRoute, find_all_paths_in_graph_sound}
use soro_pool.Routing.Quote.{cache_key, finish_quote, with_route, if_not_cached, get_best_quote}
use soro_pool.Routing.Quote.Best.{Fresh, get_best_quote-pays_best}
use soro_pool.Routing.Simulate.{
  HopStep, RouteResult, find_best_edge, candidates, swap_hop, hop, walk, simulate_path_in,
  simulate_path, less_tvl,
}
use soro_pool.Routing.Simulate.Chain.{PathChain, simulate_path_in-Chain}
use soro_pool.Routing.Simulate.Choice.{IsBetween, find_best_edge-largest}
use soro_pool.Routing.Split.{
  SplitRouteResult, valid_path, keep_split, valid_paths, try_amounts, try_ratio, try_ratios,
  split_two, split_paths, optimize_split,
}
use soro_pool.Routing.Split.Improves.{IsSplit, optimize_split-improves}
use soro_pool.Tests.Fixtures.{ints, edge_list, pool, triangle, get_triangle, no_cache}
use mathlib.Core.List.{Memᴰ}

abbrev step_of : String → String → String → String → String → HopStep ints
step_of id a b amount_in amount_out = record {
  pool_id = id;
  pool_type = "constant_product";
  token_in = a;
  token_out = b;
  amount_in = amount_in;
  amount_out = amount_out;
  price_impact = pos 0;
  fee = pos 30;
}

abbrev direct_route : RouteResult ints
direct_route = record {
  path = "A" ∷ "B" ∷ [];
  steps = step_of "ab" "A" "B" "100" "90" ∷ [];
  amount_out = "90";
  total_price_impact = pos 0;
  effective_price = pos 0;
}

abbrev long_route : RouteResult ints
long_route = record {
  path = "A" ∷ "C" ∷ "B" ∷ [];
  steps = step_of "ac" "A" "C" "100" "90" ∷ step_of "cb" "C" "B" "90" "82" ∷ [];
  amount_out = "82";
  total_price_impact = pos 0;
  effective_price = pos 0;
}

abbrev split_result : SplitRouteResult ints
split_result = record {
  path_a = "A" ∷ "B" ∷ [];
  path_b = "A" ∷ "C" ∷ "B" ∷ [];
  steps_a = step_of "ab" "A" "B" "70" "65" ∷ [];
  steps_b = step_of "ac" "A" "C" "30" "29" ∷ step_of "cb" "C" "B" "29" "28" ∷ [];
  amount_in_a = "70";
  amount_in_b = "30";
  amount_out_a = "65";
  amount_out_b = "28";
  total_amount_out = "93";
  total_price_impact = pos 0;
  split_ratio = 70;
  effective_price = pos 0;
}

abbrev quote_result : AggregatedQuote ints
quote_result = record {
  token_in = "A";
  token_out = "B";
  amount_in = "100";
  amount_out = "93";
  price_impact = pos 0;
  pools =
      step_of "ab" "A" "B" "70" "65"
      ∷ step_of "ac" "A" "C" "30" "29"
      ∷ step_of "cb" "C" "B" "29" "28"
      ∷ [];
  path = "A" ∷ "B" ∷ "A" ∷ "C" ∷ "B" ∷ [];
  split_route = some split_result;
  effective_price = pos 0;
  fee = "0";
  severity = critical;
}

-- A search for fewer than three hops finds both ways, a search for fewer than two only the direct
-- one, and a search for fewer than one none.
search_three :
    find_all_paths_in_graph edge_list 5 triangle "A" "B" 3
    ≡ ("A" ∷ "B" ∷ []) ∷ ("A" ∷ "C" ∷ "B" ∷ []) ∷ []
unfolding find_all_paths_in_graph dfs visit contains sort
search_three = refl

search_two : find_all_paths_in_graph edge_list 5 triangle "A" "B" 2 ≡ ("A" ∷ "B" ∷ []) ∷ []
unfolding find_all_paths_in_graph dfs visit contains sort
search_two = refl

search_one : find_all_paths_in_graph edge_list 5 triangle "A" "B" 1 ≡ []
unfolding find_all_paths_in_graph dfs visit contains sort
search_one = refl

long_run : simulate_path_in ints triangle ("A" ∷ "C" ∷ "B" ∷ []) (pos 100) ≡ ok (some long_route)
unfolding find_best_edge candidates sort swap_hop hop walk simulate_path_in get_amount_out
    amount_out_big price_impact_big big_int to_string ◌+ℤ◌ ◌-ℤ◌ ◌*ℤ◌ ◌/ℤ◌ quot
long_run = refl

best_run :
    find_best_route ints edge_list get_triangle 5 "A" "B" (pos 100) 3 tt
    ≡ (ok (some direct_route), tt)
unfolding find_all_paths_in_graph dfs visit contains sort find_best_edge candidates swap_hop hop
    walk simulate_path_in simulate_path keep_better best_of find_best_route get_amount_out
    amount_out_big price_impact_big big_int to_string ◌+ℤ◌ ◌-ℤ◌ ◌*ℤ◌ ◌/ℤ◌ quot
best_run = refl

split_run :
    optimize_split ints edge_list get_triangle 5 "A" "B" (pos 100) 3 tt
    ≡ (ok (some split_result), tt)
unfolding find_all_paths_in_graph dfs visit contains sort find_best_edge candidates swap_hop hop
    walk simulate_path_in simulate_path keep_better best_of find_best_route get_amount_out
    amount_out_big price_impact_big big_int to_string ◌+ℤ◌ ◌-ℤ◌ ◌*ℤ◌ ◌/ℤ◌ quot find_all_paths
    valid_path keep_split valid_paths try_amounts try_ratio try_ratios split_two split_paths
    optimize_split
split_run = refl

quote_run :
    get_best_quote ints edge_list get_triangle 4 5 no_cache 2000 "A" "B" "100" tt
    ≡ (ok (some quote_result), tt)
unfolding find_all_paths_in_graph dfs visit contains sort find_best_edge candidates swap_hop hop
    walk simulate_path_in simulate_path keep_better best_of find_best_route get_amount_out
    amount_out_big price_impact_big big_int to_string ◌+ℤ◌ ◌-ℤ◌ ◌*ℤ◌ ◌/ℤ◌ quot find_all_paths
    valid_path keep_split valid_paths try_amounts try_ratio try_ratios split_two split_paths
    optimize_split used_split final_amount_out final_impact final_pools final_path pool_fees
    total_fee severity_of aggregate finish_quote with_route if_not_cached get_best_quote
quote_run = refl

find_all_paths_in_graph_sound_example :
    All
      (IsRoute edge_list triangle "A" "B" 3)
      (find_all_paths_in_graph edge_list 5 triangle "A" "B" 3)
    × (length (find_all_paths_in_graph edge_list 5 triangle "A" "B" 3) ≤ 5)
    × IsOrdered longer (find_all_paths_in_graph edge_list 5 triangle "A" "B" 3)
find_all_paths_in_graph_sound_example = find_all_paths_in_graph_sound edge_list triangle "A" "B" 3 5

simulate_path_in-Chain_example :
    (out : ℤ) × (long_route.path ≡ "A" ∷ "C" ∷ "B" ∷ [])
    × (big_int "82" ≡ ok out)
    × PathChain ints triangle ("A" ∷ "C" ∷ "B" ∷ []) (pos 100) long_route.steps out
simulate_path_in-Chain_example =
    simulate_path_in-Chain ints triangle ("A" ∷ "C" ∷ "B" ∷ []) (pos 100) long_route long_run

-- The difference is positive where the first number is smaller.
sub-ltb : (x y : ℤ) → ltb_ℤ (pos 0) (x -ℤ y) ≡ ltb_ℤ y x
sub-ltb x y = ground (arith, -ℤ_parts x y)

tvl : PoolEdge → ℤ
tvl p = ints.of_text p.tvl_usd

asym_ints : (a b : PoolEdge) → less_tvl ints a b ≡ true → less_tvl ints b a ≡ false
unfolding tvl
asym_ints a b h = let p = sub-ltb (tvl b) (tvl a) in let q = sub-ltb (tvl a) (tvl b) in ground arith

trans_ints :
    (a b c : PoolEdge)
    → less_tvl ints a b ≡ false
    → less_tvl ints b c ≡ false
    → less_tvl ints a c ≡ false
unfolding tvl
trans_ints a b c h k =
    let p = sub-ltb (tvl b) (tvl a) in
    let q = sub-ltb (tvl c) (tvl b) in let r = sub-ltb (tvl c) (tvl a) in ground arith

refl_ints : (a : PoolEdge) → less_tvl ints a a ≡ false
unfolding tvl
refl_ints a = let p = sub-ltb (tvl a) (tvl a) in ground arith

chosen_run : find_best_edge ints triangle "A" "B" ≡ some (pool "ab" "A" "B").attributes
unfolding find_best_edge candidates sort
chosen_run = refl

find_best_edge-largest_example :
    IsBetween triangle "A" "B" (pool "ab" "A" "B").attributes
    × (less_tvl ints (pool "ab" "A" "B").attributes (pool "ab" "A" "B").attributes ≡ false)
find_best_edge-largest_example =
    find_best_edge-largest ints asym_ints trans_ints refl_ints triangle "A" "B" (pool "ab" "A" "B")
      chosen_run (Memᴰ.head refl) refl refl

find_best_route-largest_example :
    (g : List Edge) × (t : Unit {0}) × (get_triangle tt ≡ (ok g, t))
    × (((lacks_nodes edge_list g "A" "B" ≡ true) × (some direct_route ≡ none))
        ⊎ IsBestOf ints edge_list get_triangle 5
            (pos 100)
            (find_all_paths_in_graph edge_list 5 g "A" "B" 3)
            none
            (negsuc 0)
            t
            (some direct_route)
            tt)
find_best_route-largest_example =
    find_best_route-largest ints edge_list get_triangle 5 "A" "B" (pos 100) 3 tt best_run

optimize_split-improves_example :
    (single : RouteResult ints) × (t : Unit {0}) × (out : ℤ) × (total : ℤ) × (find_best_route ints
        edge_list get_triangle 5 "A" "B"
        (pos 100)
        3
        tt
      ≡ (ok (some single), t))
    × (big_int single.amount_out ≡ ok out)
    × IsSplit ints edge_list get_triangle (pos 100) split_result total
    × (out <ℤ total)
optimize_split-improves_example =
    optimize_split-improves ints edge_list get_triangle (pos 100) 5 "A" "B" 3 tt split_run

get_best_quote-pays_best_example :
    (no_cache.get (cache_key "A" "B" "100") tt ≡ (ok (some quote_result), tt))
    ⊎ Fresh ints edge_list get_triangle 4 5 no_cache 2000 "A" "B" "100" tt quote_result tt
get_best_quote-pays_best_example =
    get_best_quote-pays_best ints edge_list get_triangle 4 5 no_cache 2000 "A" "B" "100" tt
      quote_run
