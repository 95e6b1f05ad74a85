-- ===== src/Indexer/Ledgers.antt =====
-- backend/src/modules/indexer/stellar-indexer.service.ts: how ledgers are polled. `fetch` and the Redis
-- client are parameters; a number from outside is a natural number or missing.
pub mod Progress
pub mod Expired
pub mod InTime
use soro_pool.Base.{
  ℕ, ◌+◌, ◌==◌, String, Option, none, some, List, [], ◌∷◌, ◌++◌, Result, ok, err, ltb, leb,
  if◌then◌else◌,
}
use soro_pool.Indexer.Events.{IndexerEvent, Indexers, ProcessorState, process_events}
use soro_pool.Indexer.Payload.{Payload, RawEvent, parse_contract_events}
use soro_pool.Routing.Action.{Action, pure, ◌>>=◌}

-- What the service calls outside. The three requests give the part of the response that is read.
pub record Chain (S : Type 0) : Type 0 where
  pub get_ledger : Action S (Option ℕ)
  pub set_ledger : ℕ → Action S Unit
  pub post_latest : Action S (Option ℕ)
  pub page_latest : Action S (Option ℕ)
  pub post_range : (from to limit : ℕ) → Action S (Option (List RawEvent))

-- The configured values; 0 counts as missing.
pub record IndexerConfig : Type 0 where
  pub batch_size : Option ℕ
  pub start_ledger : Option ℕ

-- `x || fallback` on a number that may be missing
abbrev pub number_or : Option ℕ → ℕ → ℕ
number_or none fallback = fallback
number_or (some n) fallback = if n == 0 then fallback else n

-- The constructor's `batchSize`
abbrev pub batch_of : IndexerConfig → ℕ
batch_of config = number_or config.batch_size 100

-- `Math.min(lastLedger + this.batchSize, latestLedger)`
abbrev pub end_of : ℕ → ℕ → ℕ → ℕ
end_of last batch latest = if leb (last + batch) latest then last + batch else latest

-- `try { m } catch { handler }`
abbrev pub on_throw : {S A : Type 0} → Action S A → Result A × S → Result A × S
on_throw handler (ok a, s) = (ok a, s)
on_throw handler (err e, s) = handler s

abbrev pub catch : {S A : Type 0} → Action S A → Action S A → Action S A
catch m handler s = on_throw handler (m s)

-- `value || []`
abbrev pub or_empty : {A : Type 0} → Option (List A) → List A
or_empty none = []
or_empty (some xs) = xs

-- `for (const entry of ledgerRange)`, with the time of the poll
unfoldable pub parse_all : ℕ → List RawEvent → List (IndexerEvent Payload)
parse_all now [] = []
parse_all now (entry ∷ entries) = parse_contract_events now entry ++ parse_all now entries

-- A call on the state beside the processor's keys.
abbrev pub put_outside :
    {S A : Type 0} → List String → Result A × S → Result A × ProcessorState Payload S
put_outside keys (r, t) = (r, record { keys = keys; outside = t })

abbrev pub outside : {S A : Type 0} → Action S A → Action (ProcessorState Payload S) A
outside m s = put_outside s.keys (m s.outside)

module _ {S : Type 0} (chain : Chain S) where
  -- `fetchLatestLedger`
  unfoldable pub fetch_latest_ledger : Action S ℕ
  fetch_latest_ledger =
      catch (do sequence ← chain.post_latest; pure (number_or sequence 0))
        (catch (do sequence ← chain.page_latest; pure (number_or sequence 0)) (pure 0))

  -- `fetchLedgerRange`
  unfoldable pub fetch_ledger_range : ℕ → ℕ → ℕ → Action S (List RawEvent)
  fetch_ledger_range batch from to =
      catch (do events ← chain.post_range from to batch; pure (or_empty events)) (pure [])

  -- `getLastProcessedLedger`
  unfoldable pub get_last_processed_ledger : Action S ℕ
  get_last_processed_ledger = do stored ← chain.get_ledger; pure (number_or stored 0)

  module _ (config : IndexerConfig) where
    -- `onModuleInit`
    unfoldable pub on_module_init : Action S Unit
    on_module_init = do
      last ← chain.get_ledger
      if number_or last 0 == 0
          then chain.set_ledger (number_or config.start_ledger 1_000_000)
          else pure tt

    module _ (services : Indexers Payload S) where
      -- `if (events.length > 0) await this.eventProcessorService.processEvents(events)`
      unfoldable pub process_some :
          List (IndexerEvent Payload) → Action (ProcessorState Payload S) Unit
      process_some [] s = (ok tt, s)
      process_some (e ∷ es) s = (ok tt, process_events Payload services (e ∷ es) s)

      -- The part of `pollLedgers` after the latest ledger is known.
      unfoldable pub poll_range :
          ℕ → ℕ → ℕ → Action (ProcessorState Payload S) (List (IndexerEvent Payload))
      poll_range now last latest =
          let end = end_of last (batch_of config) latest in
          do
            range ← outside (fetch_ledger_range (batch_of config) (last + 1) end)
            processed ← process_some (parse_all now range)
            stored ← outside (chain.set_ledger end)
            pure (parse_all now range)

      unfoldable pub poll_body : ℕ → Action (ProcessorState Payload S) (List (IndexerEvent Payload))
      poll_body now = do
        stored ← outside chain.get_ledger
        latest ← outside fetch_latest_ledger
        if leb latest (number_or stored 1_000_000)
            then pure []
            else poll_range now (number_or stored 1_000_000) latest

      -- `pollLedgers`, at the time `now`
      unfoldable pub poll_ledgers :
          ℕ → Action (ProcessorState Payload S) (List (IndexerEvent Payload))
      poll_ledgers now = catch (poll_body now) (pure [])
