-- ===== src/Indexer/Events.antt =====
-- backend/src/modules/indexer/event-processor.service.ts: events are handed on once each, by a set of
-- keys in the order of insertion. Numbers that are parsed may be NaN, which is none. The services that index a swap, a mint and a burn are parameters.
pub mod Once
use Prim.Native.String.{◌++◌}
use soro_pool.Base.{
  ℕ, ◌-◌, String, Bool, true, false, Option, List, [], ◌∷◌, Result, ok, err, ltb, if◌then◌else◌,
  length, drop,
}
use soro_pool.Routing.Action.{Action, pure}
use soro_pool.Routing.Paths.{contains}
use soro_pool.Js.Text.{show_number}
use soro_pool.Base.Int.{ℤ}

-- `event.type`
pub data EventKind : Type 0 where
  swap mint burn pool_created fee_collected unknown : EventKind

module _ (Data : Type 0) where
  pub record IndexerEvent : Type 0 where
    pub kind : EventKind
    pub tx_hash : String
    pub event_index : Option ℤ
    pub ledger : Option ℤ
    pub timestamp : ℕ
    pub payload : Data

  -- The services that an event is handed on to.
  pub record Indexers (S : Type 0) : Type 0 where
    pub index_swap : IndexerEvent → Action S Unit
    pub index_mint : IndexerEvent → Action S Unit
    pub index_burn : IndexerEvent → Action S Unit

  -- `${event.txHash}:${event.eventIndex}`
  abbrev pub dedup_key : IndexerEvent → String
  dedup_key e = e.tx_hash ++ ":" ++ show_number e.event_index

  -- `processedKeys` beside the state of what the services change.
  pub record ProcessorState (S : Type 0) : Type 0 where
    pub keys : List String
    pub outside : S

  -- `keys.slice(0, keys.length - 5000)` is deleted where there are more than 10000.
  unfoldable pub evict : List String → List String
  evict keys = if ltb 10_000 (length keys) then drop (length keys - 5000) keys else keys

  -- `processedKeys.add(key)`, for a key that is not there
  unfoldable pub add_key : List String → String → List String
  add_key [] key = key ∷ []
  add_key (k ∷ ks) key = k ∷ add_key ks key

  module _ {S : Type 0} (services : Indexers S) where
    -- `routeEvent`
    unfoldable pub route_event : EventKind → IndexerEvent → Action S Unit
    route_event swap e = services.index_swap e
    route_event mint e = services.index_mint e
    route_event burn e = services.index_burn e
    route_event pool_created e = pure tt
    route_event fee_collected e = pure tt
    route_event unknown e = pure tt

    -- One round of the loop; what is thrown is only logged.
    unfoldable pub process_event : IndexerEvent → ProcessorState S → ProcessorState S
    process_event e s = if contains s.keys (dedup_key e) then s else record {
      keys = add_key s.keys (dedup_key e);
      outside = (route_event e.kind e s.outside).1;
    }

    unfoldable pub process_all : List IndexerEvent → ProcessorState S → ProcessorState S
    process_all [] s = s
    process_all (e ∷ es) s = process_all es (process_event e s)

    -- `processEvents`
    unfoldable pub process_events : List IndexerEvent → ProcessorState S → ProcessorState S
    process_events events s =
        let done = process_all events s in record { keys = evict done.keys; outside = done.outside }
