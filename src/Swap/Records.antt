-- ===== src/Swap/Records.antt =====
-- backend/src/modules/swap/swap.service.ts: swap transactions, and the swaps that are stored. The
-- repository and the clock are parameters.
use soro_pool.Base.{ℕ, String, Option, none, some, List, Result, ok, ◌>>=◌}
use soro_pool.Indexer.Database.{SwapRow}
use soro_pool.Js.Number.{JsNumber}
use soro_pool.Js.Text.{or_default}
use soro_pool.Routing.Action as A
use soro_pool.Swap.{PoolRecord, PoolQuote, min_amount_out, pool_spot_price}

-- The argument of `recordSwap`
pub record SwapData : Type 0 where
  pub pool_id : String
  pub wallet_address : String
  pub token_in_id : String
  pub token_out_id : String
  pub amount_in : String
  pub amount_out : String
  pub amount_in_usd : Option String
  pub amount_out_usd : Option String
  pub price_impact : Option String
  pub fee_amount : Option String
  pub tx_hash : String

-- The repositories of swaps and pools, and the clock. A query of swaps is for a pool, between two times
-- where they are given, the latest first, and for so many at most.
pub record SwapSources (S : Type 0) : Type 0 where
  pub save_swap : SwapRow → A.Action S SwapRow
  pub find_swaps : (pool_id : String) → Option (ℕ × ℕ) → (limit : ℕ) → A.Action S (List SwapRow)
  pub find_pool : String → A.Action S (Option PoolRecord)
  pub now : A.Action S ℕ

abbrev pub row_of : ℕ → SwapData → SwapRow
row_of time data_in = record {
  time = time;
  pool_id = data_in.pool_id;
  wallet_address = data_in.wallet_address;
  token_in_id = data_in.token_in_id;
  token_out_id = data_in.token_out_id;
  amount_in = data_in.amount_in;
  amount_out = data_in.amount_out;
  amount_in_usd = or_default data_in.amount_in_usd "0";
  amount_out_usd = or_default data_in.amount_out_usd "0";
  price_impact = or_default data_in.price_impact "0";
  fee_amount = or_default data_in.fee_amount "0";
  tx_hash = data_in.tx_hash;
}

-- `Between(from || new Date(0), to || new Date())`, where one of them is given
abbrev pub history_window : Option ℕ → Option ℕ → ℕ → Option (ℕ × ℕ)
history_window none none now = none
history_window (some from) none now = some (from, now)
history_window none (some to) now = some (0, to)
history_window (some from) (some to) now = some (from, to)

module _ {S : Type 0} (sources : SwapSources S) where
  -- `recordSwap`
  unfoldable pub record_swap : SwapData → A.Action S SwapRow
  record_swap data_in s =
      A.proceed (λ time. sources.save_swap (row_of time data_in)) (sources.now s)

  -- `getSwapHistory`
  unfoldable pub get_swap_history : String → Option ℕ → Option ℕ → A.Action S (List SwapRow)
  get_swap_history pool_id from to s =
      A.proceed (λ now. sources.find_swaps pool_id (history_window from to now) 100) (sources.now s)

module _ (js : JsNumber) where
  -- What `buildSwapTransaction` returns, but for the fixed text of the transaction
  pub record SwapTransaction : Type 0 where
    pub quote : Option (PoolQuote js)
    pub user_address : String
    pub slippage : js.Num
    pub deadline : js.Num
    pub min_out : String

  abbrev pub quoted_out : Option (PoolQuote js) → String
  quoted_out none = "0"
  quoted_out (some quote) = quote.amount_out

  -- `buildSwapTransaction`
  unfoldable pub build_swap_transaction :
      Option (PoolQuote js) → String → js.Num → js.Num → Result SwapTransaction
  build_swap_transaction quote user_address slippage deadline = do
    min_out ← min_amount_out js (quoted_out quote) slippage
    ok record {
      quote = quote;
      user_address = user_address;
      slippage = slippage;
      deadline = deadline;
      min_out = min_out;
    }

  -- `getSpotPrice`
  unfoldable pub get_spot_price_of : {S : Type 0} → SwapSources S → String → A.Action S js.Num
  get_spot_price_of sources pool_id s =
      A.proceed (λ pool. A.lift (pool_spot_price js pool)) (sources.find_pool pool_id s)
