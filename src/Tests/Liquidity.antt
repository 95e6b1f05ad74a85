-- ===== src/Tests/Liquidity.antt =====
-- Runs of the liquidity indexer.
use soro_pool.Base.{◌≡◌, String, refl, ok, none, some, [], ◌∷◌, if◌then◌else◌}
use soro_pool.Base.Int.{ℤ, pos, ◌+ℤ◌, ◌-ℤ◌, ◌*ℤ◌, ◌/ℤ◌, quot}
use soro_pool.Indexer.Account.{Account, Shows, credit, debit}
use soro_pool.Indexer.Database.{Pool, LpPosition}
use soro_pool.Indexer.Events.{
  IndexerEvent, EventKind, swap, mint, burn, ProcessorState, process_events,
}
use soro_pool.Indexer.Liquidity.{index_mint, index_burn}
use soro_pool.Indexer.Ledgers.{parse_all}
use soro_pool.Indexer.Liquidity.Refines.{
  Moves, Leaves, index_mint-credits, index_burn-debits, index_burn-index_mint,
}
use soro_pool.Indexer.Payload.{Payload, field, tx_hash_of, RawEvent}
use soro_pool.Indexer.Pipeline.{indexers, process_events-parse_all}
use soro_pool.Js.BigInt.{big_int, to_string}
use soro_pool.Indexer.Swaps.{
  index_swap, swap_on, store_swap, estimate_usd_value, update_pool_volume, invalidate_quote_caches,
}
use soro_pool.Indexer.Swaps.Raises.{Figures, Swaps, swap_address, row_for, index_swap-raises}
use soro_pool.Js.Text.{split_on, remove_first}
use soro_pool.Tests.Fixtures.{ints}
use soro_pool.Tests.Tables.{Tables, tables, tables_work, text_columns, swap_tables}
use text.Mathlib.Text.{◌==◌}

abbrev pool : Pool
pool = record {
  id = "p1";
  token0_symbol = some "A";
  token1_symbol = some "B";
  token0_id = "t0";
  token1_id = "t1";
  reserve0 = "100";
  reserve1 = "200";
  fee_bps = pos 30;
  volume24h_usd = "0";
  fee_revenue24h = "0";
}

abbrev position : LpPosition
position = record {
  wallet_address = "w";
  pool_id = "p1";
  lp_token_amount = "50";
  token0_deposited = "50";
  token1_deposited = "70";
  fees_earned_token0 = "0";
  fees_earned_token1 = "0";
}

-- The pool stands under one address, the position under its wallet.
abbrev pub stored : Tables
stored = record {
  pools = λ a. if a == "addr" then some pool else none;
  held = λ w p. if w == "w" then (if p == "p1" then some position else none) else none;
  swaps = [];
}

abbrev account : Account
account = record {
  reserve0 = pos 100;
  reserve1 = pos 200;
  tokens = pos 50;
  deposit0 = pos 50;
  deposit1 = pos 70;
}

abbrev pub event : EventKind → IndexerEvent Payload
event kind = record {
  kind = kind;
  tx_hash = "h";
  event_index = some (pos 1);
  ledger = some (pos 7);
  timestamp = 70;
  payload = ("poolAddress", "addr") ∷ ("provider", "w") ∷ ("amountA", "5") ∷ ("amountB", "10") ∷ [];
}

shown : Shows tables tables_work stored "addr" "p1" "w" account
unfolding big_int
shown = record {
  pool = pool;
  position = position;
  found = refl;
  same_id = refl;
  held = refl;
  wallet_is = refl;
  pool_is = refl;
  reads0 = refl;
  reads1 = refl;
  reads_tokens = refl;
  reads_deposit0 = refl;
  reads_deposit1 = refl;
}

moves : (kind : EventKind) → Moves (event kind) (pos 5) (pos 10)
unfolding field big_int
moves kind = record { reads_a = refl; reads_b = refl; counts = refl }

index_mint-credits_example :
    Leaves tables tables_work text_columns stored
      (index_mint tables (event mint) stored)
      "addr"
      "p1"
      "w"
      (credit (pos 5) (pos 10) account)
unfolding field
index_mint-credits_example =
    index_mint-credits tables tables_work text_columns (event mint) (pos 5) (pos 10) (moves mint)
      stored "p1" account shown

index_burn-debits_example :
    Leaves tables tables_work text_columns stored
      (index_burn tables (event burn) stored)
      "addr"
      "p1"
      "w"
      (debit (pos 5) (pos 10) account)
unfolding field
index_burn-debits_example =
    index_burn-debits tables tables_work text_columns (event burn) (pos 5) (pos 10) (moves burn)
      stored "p1" account shown

index_burn-index_mint_example :
    Leaves tables tables_work text_columns stored
      (index_burn tables (event burn) (index_mint tables (event mint) stored).1)
      "addr"
      "p1"
      "w"
      account
unfolding field
index_burn-index_mint_example =
    index_burn-index_mint tables tables_work text_columns (event mint) (event burn) (pos 5) (pos 10)
      (moves mint) (moves burn) stored "p1" account shown refl refl
      record { reserve0_pos = refl; reserve1_pos = refl; tokens_pos = refl }

abbrev raw : RawEvent
raw = record {
  id = some "h-2";
  ledger = some "7";
  topic = some ("t" ∷ "Mint" ∷ "w" ∷ []);
  value = some "5";
}

abbrev pub show : ℤ → String
show = to_string

no_hash : (if tx_hash_of raw.id == "addr" then some pool else none) ≡ none
unfolding split_on
no_hash = refl

abbrev fresh : ProcessorState Payload Tables
fresh = record { keys = []; outside = stored }

process_events-parse_all_example :
    (process_events Payload (indexers ints show tables) (parse_all 70 (raw ∷ [])) fresh).outside
    ≡ stored
process_events-parse_all_example =
    process_events-parse_all ints show tables tables_work 70 (raw ∷ []) fresh refl (no_hash, tt)

-- A swap event on the pool: it is stored, and the pool's volume is raised by the value of the swap.
abbrev pub swapped : IndexerEvent Payload
swapped = record (event swap) {
  payload =
      ("poolAddress", "addr")
      ∷ ("caller", "w")
      ∷ ("tokenIn", "A")
      ∷ ("amountIn", "400")
      ∷ ("amountOut", "600")
      ∷ [];
}

swap_run :
    ((index_swap ints show tables swapped stored).1).pools "addr"
    ≡ some record pool { volume24h_usd = "400"; fee_revenue24h = "1" }
unfolding index_swap swap_on store_swap estimate_usd_value update_pool_volume
    invalidate_quote_caches field remove_first big_int to_string ◌+ℤ◌ ◌-ℤ◌ ◌*ℤ◌ ◌/ℤ◌ quot
swap_run = refl

abbrev figures : Figures
figures = record {
  amount_in = pos 400;
  amount_out = pos 600;
  in_usd = "800";
  out_usd = "0";
  in_value = pos 800;
  out_value = pos 0;
  half = pos 400;
  fee = pos 1;
  row_fee = "1";
  volume24h = pos 0;
  fees24h = pos 0;
}

swaps : Swaps ints show swapped pool figures
unfolding estimate_usd_value field big_int to_string ◌+ℤ◌ ◌-ℤ◌ ◌*ℤ◌ ◌/ℤ◌ quot
swaps = record {
  reads_in = refl;
  reads_out = refl;
  in_positive = refl;
  out_positive = refl;
  values_in = refl;
  values_out = refl;
  reads_in_value = refl;
  reads_out_value = refl;
  halves = refl;
  fees = refl;
  row_fees = refl;
  reads_volume = refl;
  reads_fees = refl;
}

found_swapped : stored.pools (swap_address swapped) ≡ some pool
unfolding field
found_swapped = refl

index_swap-raises_example :
    ((index_swap ints show tables swapped stored).0 ≡ ok tt)
    × ((index_swap ints show tables swapped stored).1.swaps
        ≡ row_for ints show tables tables_work text_columns swap_tables swapped pool figures ∷ [])
    × (q : Pool) × ((index_swap ints show tables swapped stored).1.pools (swap_address swapped)
        ≡ some q)
    × (big_int q.volume24h_usd ≡ ok (pos 0 +ℤ pos 400))
    × (big_int q.fee_revenue24h ≡ ok (pos 0 +ℤ pos 1))
    × (q.reserve0 ≡ "100")
    × (q.reserve1 ≡ "200")
index_swap-raises_example =
    index_swap-raises ints show tables tables_work text_columns swap_tables swapped pool figures
      stored swaps found_swapped
