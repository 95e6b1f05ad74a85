-- ===== src/Indexer/Ledgers/Progress.antt =====
-- How the last processed ledger moves.
use soro_pool.Base.{
  ℕ, ◌+◌, ◌≡◌, refl, ap, ◌∙◌, Option, some, List, [], ◌∷◌, Result, ok, err, leb, if◌then◌else◌,
  Bool-cases, inl, inr,
}
use soro_pool.Indexer.Events.{IndexerEvent, Indexers, ProcessorState, process_events}
use soro_pool.Indexer.Ledgers.{
  Chain, IndexerConfig, number_or, batch_of, end_of, on_throw, or_empty, parse_all,
  fetch_latest_ledger, fetch_ledger_range, process_some, poll_range, poll_body, poll_ledgers,
}
use soro_pool.Indexer.Payload.{Payload, RawEvent}
use soro_pool.Routing.Action.{Action, pure, proceed}

-- The stored ledger is there during a poll: it does not expire while the poll runs, and the requests do not
-- change it. It is stored for 300 seconds where no other lifetime is configured; polls after that are in
-- Expired, and polls before it in InTime.
pub record LedgerKept {S : Type 0} (chain : Chain S) : Type 0 where
  pub ledger_at : S → Option ℕ
  pub put_ledger : ℕ → S → S
  pub gets : (s : S) → chain.get_ledger s ≡ (ok (ledger_at s), s)
  pub sets : (n : ℕ) (s : S) → chain.set_ledger n s ≡ (ok tt, put_ledger n s)
  pub at_put : (n : ℕ) (s : S) → ledger_at (put_ledger n s) ≡ some n
  pub at_post : (s : S) → ledger_at (chain.post_latest s).1 ≡ ledger_at s
  pub at_page : (s : S) → ledger_at (chain.page_latest s).1 ≡ ledger_at s

module _ {S : Type 0} (chain : Chain S) where
  caught :
      {A B : Type 0} (f : B → A) (handler : Action S A) (r : Result B × S)
      → ((u : S) → (a : A) × (t : S) × (handler u ≡ (ok a, t)))
      → (a : A) × (t : S) × (on_throw handler (proceed (λ b. pure (f b)) r) ≡ (ok a, t))
  caught f handler (ok b, u) q = (f b, u, refl)
  caught f handler (err e, u) q = q u

  pub fetch_range-runs :
      (batch from to : ℕ) (s : S)
      → (range : List RawEvent) × (t : S) × (fetch_ledger_range chain batch from to s
          ≡ (ok range, t))
  unfolding fetch_ledger_range
  fetch_range-runs batch from to s =
      caught or_empty (pure []) (chain.post_range from to batch s) (λ v. ([], v, refl))

  module _ (config : IndexerConfig) (services : Indexers Payload S) where
    pub process_some-runs :
        (es : List (IndexerEvent Payload)) (st : ProcessorState Payload S)
        → (u : ProcessorState Payload S) × (process_some chain config services es st ≡ (ok tt, u))
    unfolding process_some
    process_some-runs [] st = (st, refl)
    process_some-runs (e ∷ es) st = (process_events Payload services (e ∷ es) st, refl)

module _ {S : Type 0} (chain : Chain S) (services : Indexers Payload S)
    (kept : LedgerKept chain) where
  open kept use {ledger_at, put_ledger, gets, sets, at_put, at_post, at_page}

  -- The outcome is a value, and the ledger is the one of s.
  abbrev Quiet : {A : Type 0} → S → Result A × S → Type 0
  Quiet {A} s r = (a : A) × (t : S) × (r ≡ (ok a, t)) × (ledger_at t ≡ ledger_at s)

  catch-Quiet :
      {A B : Type 0} (f : B → A) (handler : Action S A) (s : S) (r : Result B × S)
      → ledger_at r.1 ≡ ledger_at s
      → ((u : S) → Quiet u (handler u))
      → Quiet s (on_throw handler (proceed (λ b. pure (f b)) r))
  catch-Quiet f handler s (ok b, u) h q = (f b, u, refl, h)
  catch-Quiet f handler s (err e, u) h q = let (a, t, runs, same) = q u in (a, t, runs, same ∙ h)

  fetch_latest-Quiet : (s : S) → Quiet s (fetch_latest_ledger chain s)
  unfolding fetch_latest_ledger
  fetch_latest-Quiet s =
      catch-Quiet (λ n. number_or n 0) _ s (chain.post_latest s) (at_post s)
        (λ u.
          catch-Quiet (λ n. number_or n 0) _ u (chain.page_latest u) (at_page u)
            (λ v. (0, v, refl, refl)))

  module _ (config : IndexerConfig) where
    -- The last ledger as `pollLedgers` reads it.
    abbrev pub last_at : S → ℕ
    last_at s = number_or (ledger_at s) 1_000_000

    -- The ledger that is stored after a poll.
    abbrev pub ledger_after : S → ℕ → Option ℕ
    ledger_after s latest =
        if leb latest (last_at s)
        then ledger_at s
        else some (end_of (last_at s) (batch_of config) latest)

    -- The poll returned events, and the ledger that is stored.
    abbrev pub Polled :
        Option ℕ → Result (List (IndexerEvent Payload)) × ProcessorState Payload S → Type 0
    Polled ledger r =
        ((es : List (IndexerEvent Payload)) × (r.0 ≡ ok es)) × (ledger_at r.1.outside ≡ ledger)

    poll_range-runs :
        (now last latest : ℕ) (st : ProcessorState Payload S)
        → (es : List (IndexerEvent Payload)) × (v : ProcessorState Payload S) × (poll_range chain
              config services now last latest st
            ≡ (ok es, v))
          × (ledger_at v.outside ≡ some (end_of last (batch_of config) latest))
    unfolding poll_range
    poll_range-runs now last latest st =
        let end = end_of last (batch_of config) latest in
        let (range, t, fetched) =
          fetch_range-runs chain (batch_of config) (last + 1) end st.outside in
        let start : ProcessorState Payload S = record { keys = st.keys; outside = t } in
        let (u, runs) = process_some-runs chain config services (parse_all now range) start in
        let done : ProcessorState Payload S = record {
          keys = u.keys;
          outside = put_ledger end u.outside;
        } in
        (parse_all now range, done, rw (fetched, runs, sets) refl, at_put end u.outside)

    -- Whatever the node and the services answer, a poll returns, and the last ledger is the one before where
    -- the latest ledger is not past it; else it is the latest ledger or the last ledger with the size of
    -- the batch added, whichever is less. A request for the latest ledger never throws.
    pub poll_ledgers-moves :
        (now : ℕ) (st : ProcessorState Payload S)
        → (latest : ℕ) × ((fetch_latest_ledger chain st.outside).0 ≡ ok latest)
          × Polled (ledger_after st.outside latest) (poll_ledgers chain config services now st)
    unfolding poll_ledgers poll_body
    poll_ledgers-moves now st =
        let (latest, u, runs, same) = fetch_latest-Quiet st.outside in
        let start : ProcessorState Payload S = record { keys = st.keys; outside = u } in
        (
          latest,
          ap (λ r. r.0) runs,
          rw (gets, runs)
              (elim (Bool-cases (leb latest (last_at st.outside))) [
                | inl behind ↦ rw behind (([], refl), same)
                | inr ahead ↦ rw ahead (
                    let (es, v, run, stored) =
                      poll_range-runs now (last_at st.outside) latest start in
                    rw run ((es, refl), stored))
              ]),
        )
