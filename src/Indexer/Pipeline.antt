-- ===== src/Indexer/Pipeline.antt =====
-- The event processor with the real indexers behind it (backend/src/modules/indexer): what the events that
-- a poll decodes come to.
use soro_pool.Base.{
  ℕ, String, ◌≡◌, refl, ap, ◌∙◌, Bool-cases, inl, inr, none, List, [], ◌∷◌, All, All-append,
}
use soro_pool.Indexer.Database.{Database, DatabaseWorks}
use soro_pool.Indexer.Events.{
  IndexerEvent, EventKind, swap, mint, burn, pool_created, fee_collected, unknown, Indexers,
  ProcessorState, dedup_key, route_event, process_event, process_all, process_events,
}
use soro_pool.Indexer.Ledgers.{parse_all}
use soro_pool.Indexer.Liquidity.{index_mint, index_burn}
use soro_pool.Indexer.Liquidity.Lost.{PassedOver, parse_contract_events-PassedOver}
use soro_pool.Indexer.Payload.{Payload, RawEvent, tx_hash_of, parse_contract_events}
use soro_pool.Indexer.Swaps.{index_swap}
use soro_pool.Js.Number.{JsNumber}
use soro_pool.Routing.Paths.{contains}

module _ (num : JsNumber) (show : num.Num → String) {S : Type 0} (db : Database S) where
  -- The services that the event processor is constructed with.
  abbrev pub indexers : Indexers Payload S
  indexers = record {
    index_swap = index_swap num show db;
    index_mint = index_mint db;
    index_burn = index_burn db;
  }

  module _ (works : DatabaseWorks db) where
    open works use {pool_at}

    route_event-PassedOver :
        (kind : EventKind) (e : IndexerEvent Payload) (s : S)
        → PassedOver num show db works s e
        → (route_event Payload indexers kind e s).1 ≡ s
    unfolding route_event
    route_event-PassedOver swap e s (minted, burned, swapped) = ap (λ r. r.1) swapped
    route_event-PassedOver mint e s (minted, burned, swapped) = ap (λ r. r.1) minted
    route_event-PassedOver burn e s (minted, burned, swapped) = ap (λ r. r.1) burned
    route_event-PassedOver pool_created e s passed = refl
    route_event-PassedOver fee_collected e s passed = refl
    route_event-PassedOver unknown e s passed = refl

    process_event-PassedOver :
        (e : IndexerEvent Payload) (st : ProcessorState Payload S) (s : S)
        → st.outside ≡ s
        → PassedOver num show db works s e
        → (process_event Payload indexers e st).outside ≡ s
    unfolding process_event
    process_event-PassedOver e st s here passed =
        elim (Bool-cases (contains st.keys (dedup_key Payload e))) [
          | inl known ↦ rw known here
          | inr fresh ↦ rw fresh (
              ap (λ t. (route_event Payload indexers e.kind e t).1) here
              ∙ route_event-PassedOver e.kind e s passed)
        ]

    process_all-PassedOver :
        (es : List (IndexerEvent Payload)) (st : ProcessorState Payload S) (s : S)
        → st.outside ≡ s
        → All (PassedOver num show db works s) es
        → (process_all Payload indexers es st).outside ≡ s
    unfolding process_all
    process_all-PassedOver [] st s here passed = here
    process_all-PassedOver (e ∷ es) st s here (first, rest) =
        process_all-PassedOver es (process_event Payload indexers e st) s
          (process_event-PassedOver e st s here first) rest

    parse_all-PassedOver :
        (now : ℕ) (raws : List RawEvent) (s : S)
        → pool_at s "" ≡ none
        → All (λ raw. pool_at s (tx_hash_of raw.id) ≡ none) raws
        → All (PassedOver num show db works s) (parse_all now raws)
    unfolding parse_all
    parse_all-PassedOver now [] s no_pool no_hashes = tt
    parse_all-PassedOver now (raw ∷ raws) s no_pool (no_hash, no_hashes) =
        All-append (PassedOver num show db works s) (parse_contract_events now raw)
          (parse_all now raws)
          (parse_contract_events-PassedOver num show db works s now raw no_pool no_hash)
          (parse_all-PassedOver now raws s no_pool no_hashes)

    -- Where no pool has the empty address, or the hash of the transaction of one of the contract events as
    -- its address, processing all events that the contract events decode to leaves the tables and Redis
    -- as they are, whatever was processed before.
    pub process_events-parse_all :
        (now : ℕ) (raws : List RawEvent) (st : ProcessorState Payload S)
        → pool_at st.outside "" ≡ none
        → All (λ raw. pool_at st.outside (tx_hash_of raw.id) ≡ none) raws
        → (process_events Payload indexers (parse_all now raws) st).outside ≡ st.outside
    unfolding process_events
    process_events-parse_all now raws st no_pool no_hashes =
        process_all-PassedOver (parse_all now raws) st st.outside refl
          (parse_all-PassedOver now raws st.outside no_pool no_hashes)
