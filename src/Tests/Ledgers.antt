-- ===== src/Tests/Ledgers.antt =====
-- Runs of the polling of ledgers.
use soro_pool.Base.{ℕ, ◌≡◌, refl, Option, none, some, [], ok, err, syntax_error}
use soro_pool.Indexer.Events.{Indexers, ProcessorState}
use soro_pool.Indexer.Ledgers.{
  Chain, IndexerConfig, fetch_latest_ledger, fetch_ledger_range, poll_range, poll_body,
  poll_ledgers, parse_all, process_some, on_module_init,
}
use soro_pool.Indexer.Ledgers.Progress.{LedgerKept, ledger_after, Polled, poll_ledgers-moves}
use soro_pool.Indexer.Payload.{Payload}

-- The state is the stored ledger; the node is at ledger 250.
abbrev answers : Chain (Option ℕ)
answers = record {
  get_ledger = λ s. (ok s, s);
  set_ledger = λ n s. (ok tt, some n);
  post_latest = λ s. (ok (some 250), s);
  page_latest = λ s. (ok none, s);
  post_range = λ from to limit s. (ok none, s);
}

-- The same, with a request for events that fails.
abbrev fails : Chain (Option ℕ)
fails = record answers { post_range = λ from to limit s. (err syntax_error, s) }

abbrev nobody : Indexers Payload (Option ℕ)
nobody = record {
  index_swap = λ e s. (ok tt, s);
  index_mint = λ e s. (ok tt, s);
  index_burn = λ e s. (ok tt, s);
}

abbrev config : IndexerConfig
config = record { batch_size = none; start_ledger = some 7 }

abbrev answers_kept : LedgerKept answers
answers_kept = record {
  ledger_at = λ s. s;
  put_ledger = λ n s. some n;
  gets = λ s. refl;
  sets = λ n s. refl;
  at_put = λ n s. refl;
  at_post = λ s. refl;
  at_page = λ s. refl;
}

abbrev at_100 : ProcessorState Payload (Option ℕ)
at_100 = record { keys = []; outside = some 100 }

-- A service that starts takes the configured ledger.
first_ledger : on_module_init answers config none ≡ (ok tt, some 7)
unfolding on_module_init
first_ledger = refl

one_poll : (poll_ledgers answers config nobody 1 at_100).1.outside ≡ some 200
unfolding poll_ledgers poll_body poll_range fetch_latest_ledger fetch_ledger_range parse_all
    process_some
one_poll = refl

-- The ledger moves though the request for the events fails.
failed_poll : (poll_ledgers fails config nobody 1 at_100).1.outside ≡ some 200
unfolding poll_ledgers poll_body poll_range fetch_latest_ledger fetch_ledger_range parse_all
    process_some
failed_poll = refl

poll_ledgers-moves_example :
    (latest : ℕ) × ((fetch_latest_ledger answers (some 100)).0 ≡ ok latest)
    × Polled answers nobody answers_kept config
        (ledger_after answers nobody answers_kept config (some 100) latest)
        (poll_ledgers answers config nobody 1 at_100)
poll_ledgers-moves_example = poll_ledgers-moves answers nobody answers_kept config 1 at_100
