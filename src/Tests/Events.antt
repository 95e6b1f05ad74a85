-- ===== src/Tests/Events.antt =====
-- Runs of the event processor.
use soro_pool.Base.{Option, some, ℕ, ◌≤◌, String, ◌≡◌, refl, List, [], ◌∷◌, ok, arith, length}
use soro_pool.Base.Int.{ℤ, pos}
use soro_pool.Indexer.Events.{
  IndexerEvent, EventKind, swap, mint, unknown, Indexers, ProcessorState, add_key, evict,
  route_event, process_event, process_all, process_events,
}
use soro_pool.Indexer.Events.Once.{process_events-idempotent}
use soro_pool.Js.BigInt.{to_string}
use soro_pool.Routing.Paths.{contains}

abbrev event : EventKind → String → ℕ → IndexerEvent (Unit {0})
event kind tx_hash event_index = record {
  kind = kind;
  tx_hash = tx_hash;
  event_index = some (pos event_index);
  ledger = some (pos 7);
  timestamp = 70;
  payload = tt;
}

-- The services write down the indices of swaps and mints.
abbrev notes : Indexers (Unit {0}) (List (Option ℤ))
notes = record {
  index_swap = λ e log. (ok tt, e.event_index ∷ log);
  index_mint = λ e log. (ok tt, e.event_index ∷ log);
  index_burn = λ e log. (ok tt, log);
}

-- The first event comes twice.
abbrev batch : List (IndexerEvent (Unit {0}))
batch = event swap "h" 1 ∷ event mint "h" 2 ∷ event swap "h" 1 ∷ event unknown "h" 3 ∷ []

abbrev start : ProcessorState (Unit {0}) (List (Option ℤ))
start = record { keys = []; outside = [] }

abbrev after : ProcessorState (Unit {0}) (List (Option ℤ))
after = record { keys = "h:1" ∷ "h:2" ∷ "h:3" ∷ []; outside = some (pos 2) ∷ some (pos 1) ∷ [] }

batch_run : process_events (Unit {0}) notes batch start ≡ after
unfolding process_events process_all process_event route_event add_key evict contains to_string
batch_run = refl

keys_run : (process_all (Unit {0}) notes batch start).keys ≡ after.keys
unfolding process_all process_event route_event add_key contains to_string
keys_run = refl

few_keys : length (process_all (Unit {0}) notes batch start).keys ≤ 10_000
few_keys = rw keys_run (omega arith)

process_events-idempotent_example :
    process_events (Unit {0}) notes batch (process_events (Unit {0}) notes batch start)
    ≡ process_events (Unit {0}) notes batch start
process_events-idempotent_example = process_events-idempotent (Unit {0}) notes batch start few_keys
