-- ===== src/Analytics/Leaderboard.antt =====
-- backend/src/modules/analytics/leaderboard.service.ts: the largest pools and providers of liquidity. The
-- repositories and doubles are parameters; the map from wallets is a list in the order of insertion.
pub mod Totals
pub mod Counted
use soro_pool.Base.{
  ℕ, ◌+◌, String, Bool, Option, none, some, List, [], ◌∷◌, map, take, if◌then◌else◌,
}
use soro_pool.Base.Int.{pos}
use soro_pool.Indexer.Database.{LpPosition}
use soro_pool.Js.Number.{JsNumber}
use soro_pool.Js.Sort.{sort}
use soro_pool.Js.Text.{or_default}
use soro_pool.Routing.Action.{Action, pure, ◌>>=◌}
use text.Mathlib.Text.{◌==◌}

-- The columns of `Pool` that are read
pub record PoolColumns : Type 0 where
  pub id : String
  pub pool_type : String
  pub reserve0 : String
  pub reserve1 : String
  pub tvl_usd : Option String
  pub volume24h_usd : Option String
  pub fee_revenue24h : Option String

-- The column by which pools are ordered, the largest first
pub data PoolOrder : Type 0 where
  by_tvl by_volume by_fees by_reserve0 : PoolOrder

-- `getOrderForMetric`
abbrev pub get_order_for_metric : String → PoolOrder
get_order_for_metric metric =
    if metric == "tvl"
    then by_tvl
    else if metric == "volume"
    then by_volume
    else if metric == "fees"
    then by_fees
    else if metric == "apr"
    then by_fees
    else if metric == "liquidity"
    then by_reserve0
    else by_tvl

-- The two queries: the active pools, so many in an order, and all positions
pub record Boards (S : Type 0) : Type 0 where
  pub find_pools : PoolOrder → (limit : ℕ) → Action S (List PoolColumns)
  pub find_positions : Action S (List LpPosition)

module _ (num : JsNumber) where
  open num use {Num, of_text, of_int, add, sub, mul, div, lt}

  pub record TopPool : Type 0 where
    pub pool_id : String
    pub pool_type : String
    pub value : Num

  -- `Number(text || '0')`
  abbrev pub column : Option String → Num
  column text = of_text (or_default text "0")

  abbrev pub zero_num : Num
  zero_num = of_int (pos 0)

  abbrev pub apr_of : Num → Num → Num
  apr_of tvl fees =
      if lt zero_num tvl
      then div (mul (mul fees (of_int (pos 365))) (of_int (pos 100))) tvl
      else zero_num

  -- `getMetricValue`
  abbrev pub get_metric_value : PoolColumns → String → Num
  get_metric_value pool metric =
      if metric == "tvl"
      then column pool.tvl_usd
      else if metric == "volume"
      then column pool.volume24h_usd
      else if metric == "fees"
      then column pool.fee_revenue24h
      else if metric == "apr"
      then apr_of (column pool.tvl_usd) (column pool.fee_revenue24h)
      else if metric == "liquidity"
      then add (of_text pool.reserve0) (of_text pool.reserve1)
      else column pool.tvl_usd

  abbrev pub top_pool : String → PoolColumns → TopPool
  top_pool metric pool = record {
    pool_id = pool.id;
    pool_type = pool.pool_type;
    value = get_metric_value pool metric;
  }

  -- A provider in the map, and in the list that is returned
  pub record Provider : Type 0 where
    pub wallet_address : String
    pub total_value : Num
    pub pool_count : ℕ

  -- `val`
  abbrev pub deposited : LpPosition → Num
  deposited p = add (of_text p.token0_deposited) (of_text p.token1_deposited)

  abbrev pub joined : LpPosition → Provider → Provider
  joined p row = record row {
    total_value = add row.total_value (deposited p);
    pool_count = row.pool_count + 1;
  }

  abbrev pub first_of : LpPosition → Provider
  first_of p = record {
    wallet_address = p.wallet_address;
    total_value = deposited p;
    pool_count = 1;
  }

  -- One round of the loop
  unfoldable pub add_position : LpPosition → List Provider → List Provider
  add_position p [] = first_of p ∷ []
  add_position p (row ∷ rows) =
      let later = add_position p rows in
      if row.wallet_address == p.wallet_address then joined p row ∷ rows else row ∷ later

  -- The loop
  unfoldable pub add_positions : List LpPosition → List Provider → List Provider
  add_positions [] rows = rows
  add_positions (p ∷ ps) rows = add_positions ps (add_position p rows)

  -- `b.totalValue - a.totalValue > 0`
  abbrev pub is_smaller : Provider → Provider → Bool
  is_smaller a b = lt zero_num (sub b.total_value a.total_value)

  -- The positions as they are ranked
  abbrev pub rank : ℕ → List LpPosition → List Provider
  rank limit positions = take limit (sort is_smaller (add_positions positions []))

  module _ {S : Type 0} (boards : Boards S) where
    -- `getTopPools`
    unfoldable pub get_top_pools : String → ℕ → Action S (List TopPool)
    get_top_pools metric limit = do
      pools ← boards.find_pools (get_order_for_metric metric) limit
      pure (map (top_pool metric) pools)

    -- `getTopLps`
    unfoldable pub get_top_lps : ℕ → Action S (List Provider)
    get_top_lps limit = do positions ← boards.find_positions; pure (rank limit positions)
