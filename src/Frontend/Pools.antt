-- ===== src/Frontend/Pools.antt =====
-- frontend/src/app/core/store/pools: the pools that the pages show. The store keeps whether a request for them is
-- not answered yet, and the pages read the pools of their id.
pub mod Replayed
use Prim.Native.String.{◌++◌}
use soro_pool.Base.{
  ℕ, String, Bool, true, false, Option, none, some, List, [], ◌∷◌, map, Result, ok, err, type_error,
  ◌>>=◌, if◌then◌else◌,
}
use text.Mathlib.Text.{◌==◌}

-- The fields of a pool that the pages read
pub record PoolView : Type 0 where
  pub id : String
  pub pool_type : String
  pub token0_symbol : Option String
  pub token1_symbol : Option String
  pub reserve0 : Option String
  pub reserve1 : Option String
  pub lp_count : Option ℕ

-- What the store has for the pools: an array, or a value of JSON that is none, which has no `map` and `find`.
pub data PoolsValue : Type 0 where
  listed : List PoolView → PoolsValue
  no_array : PoolsValue

pub record PoolsState : Type 0 where
  pub pools : PoolsValue
  pub selected_pool : Option PoolView
  pub loading : Bool

abbrev pub no_pools : PoolsState
no_pools = record { pools = listed []; selected_pool = none; loading = false }

-- `PoolActions`
pub data PoolAction : Type 0 where
  load_pools : PoolAction
  load_pools_success : PoolsValue → PoolAction
  select_pool : PoolView → PoolAction
  update_pool_reserves : (pool_id reserve0 reserve1 : String) → PoolAction

abbrev pub with_new_reserves : String → String → String → PoolView → PoolView
with_new_reserves pool_id r0 r1 p =
    if p.id == pool_id then record p { reserve0 = some r0; reserve1 = some r1 } else p

abbrev pub map_pools : (PoolView → PoolView) → PoolsValue → Result PoolsValue
map_pools f (listed pools) = ok (listed (map f pools))
map_pools f no_array = err type_error

-- `poolsReducer`
unfoldable pub pools_reducer : PoolAction → PoolsState → Result PoolsState
pools_reducer load_pools s = ok record s { loading = true }
pools_reducer (load_pools_success pools) s = ok record s { pools = pools; loading = false }
pools_reducer (select_pool pool) s = ok record s { selected_pool = some pool }
pools_reducer (update_pool_reserves pool_id r0 r1) s =
    map_pools (with_new_reserves pool_id r0 r1) s.pools >>= λ pools. ok record s { pools = pools }

-- The store, and whether the effect of `loadPools` waits for an answer
pub record PoolsStore : Type 0 where
  pub state : PoolsState
  pub is_asked : Bool

abbrev pub starts_request : PoolAction → Bool → Bool
starts_request load_pools asked = true
starts_request (load_pools_success pools) asked = asked
starts_request (select_pool pool) asked = asked
starts_request (update_pool_reserves pool_id r0 r1) asked = asked

-- An action is reduced, and `loadPools` starts a request in place of the one before.
unfoldable pub dispatch_pools : PoolAction → PoolsStore → Result PoolsStore
dispatch_pools action s = pools_reducer action s.state >>= λ state.
    ok record { state = state; is_asked = starts_request action s.is_asked }

-- The JSON of a reply: its `data`, where that is truthy, and what it is itself as pools.
pub record PoolsReply : Type 0 where
  pub data_of : Option PoolsValue
  pub itself : PoolsValue

-- `res.data || res`; a request that fails gives no pools.
abbrev pub pools_of_reply : Result PoolsReply → PoolsValue
pools_of_reply (ok reply) = elim reply.data_of [ none ↦ reply.itself | some pools ↦ pools ]
pools_of_reply (err e) = listed []

-- The request is answered, where there is one.
unfoldable pub answer_pools : Result PoolsReply → PoolsStore → Result PoolsStore
answer_pools reply s =
    if s.is_asked
    then (pools_reducer (load_pools_success (pools_of_reply reply)) s.state >>= λ state.
        ok record { state = state; is_asked = false })
    else ok s

unfoldable pub find_listed : String → List PoolView → Option PoolView
find_listed id [] = none
find_listed id (p ∷ ps) = if p.id == id then some p else find_listed id ps

-- `allPools().find((p) => p.id === id) || null`
abbrev pub find_pool : String → PoolsValue → Result (Option PoolView)
find_pool id (listed pools) = ok (find_listed id pools)
find_pool id no_array = err type_error

-- A symbol, or what stands for a missing one; an empty symbol counts as missing.
abbrev pub symbol_or : Option String → String → String
symbol_or none other = other
symbol_or (some symbol) other = if symbol == "" then other else symbol

-- `poolName`
abbrev pub pool_name : Option PoolView → String
pool_name none = "..."
pool_name (some p) = symbol_or p.token0_symbol "?" ++ "/" ++ symbol_or p.token1_symbol "?"

-- `formatPoolType`
abbrev pub format_pool_type : String → String
format_pool_type type =
    if type == "constant_product"
    then "CP"
    else if type == "stableswap"
    then "Stable"
    else if type == "concentrated"
    then "CL"
    else type
