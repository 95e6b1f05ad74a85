-- ===== src/Indexer/Ledgers/InTime.antt =====
-- Polls that begin before the stored ledger expires, over the Redis service.
use soro_pool.Base.{
  ℕ, suc, ◌+◌, ◌*◌, ◌≤◌, ◌<◌, String, ◌≡◌, refl, sym, ap, ◌∙◌, Option, none, some, List, Result, ok,
  lt→ltb, lt→leb, arith,
}
use soro_pool.Base.Int.{ℤ, pos}
use soro_pool.Indexer.Events.{IndexerEvent, Indexers, ProcessorState}
use soro_pool.Indexer.Ledgers.{
  IndexerConfig, batch_of, number_or, end_of, parse_all, fetch_latest_ledger, poll_range, poll_body,
  poll_ledgers,
}
use soro_pool.Indexer.Ledgers.Expired.{last_ledger_key, Node, Numbers, chain}
use soro_pool.Indexer.Ledgers.Progress.{fetch_range-runs, process_some-runs}
use soro_pool.Indexer.Payload.{Payload}
use soro_pool.Redis.{Json, RedisClient, redis_get, ClientWorks}
use soro_pool.Redis.Expiry.{Stores, stored_for, set-runs, value-live}
use mathlib.Core.Path.{subst}

-- Numbers that are stored come back.
pub record NumbersKept (json : Json) (numbers : Numbers json) : Type 0 where
  pub stores : (n : ℕ) → Stores json (numbers.of_number n)
  pub reads : (n : ℕ) → numbers.to_number (numbers.of_number n) ≡ some n

or_last : (last : ℕ) → 0 < last → number_or (some last) 1_000_000 ≡ last
or_last last some_last = ground arith

end_of-none : (last b latest : ℕ) → last ≤ latest → end_of last (0 * b) latest ≡ last
end_of-none last b latest behind = ground arith

is_behind : (k last b latest : ℕ) → last + suc k * b < latest + b → last < latest
is_behind k last b latest needed = ground arith

end_of-positive :
    (last b latest : ℕ)
    → 0 < last
    → last < latest
    → (0 < end_of last b latest) × (end_of last b latest ≤ latest)
end_of-positive last b latest some_last behind = (ground arith, ground arith)

needed_next :
    (k last b latest : ℕ)
    → last + suc k * b < latest + b
    → end_of last b latest + k * b < latest + b
needed_next k last b latest needed = ground arith

end_of-next :
    (k last b latest : ℕ)
    → last < latest
    → end_of (end_of last b latest) (k * b) latest ≡ end_of last (suc k * b) latest
end_of-next k last b latest behind = ground arith

module _ (json : Json) (numbers : Numbers json) {S : Type 0} (client : RedisClient S)
    (fallback : Option ℤ) (node : Node S) (works : ClientWorks client) where
  open numbers use {of_number}
  open works use {now, entry_at, gets, entry_put}

  -- The ledger n is stored, until this time.
  abbrev pub HeldUntil : S → ℕ → ℕ → Type 0
  HeldUntil s n until =
      entry_at s last_ledger_key
      ≡ some record { text = json.stringify (of_number n); until = some until }

  abbrev pub Held : S → ℕ → Type 0
  Held s n = (until : ℕ) × HeldUntil s n until

  -- From s to u the stored ledger is not written, and it is not dropped at the time of u.
  pub record InTime (s u : S) : Type 0 where
    pub same : entry_at u last_ledger_key ≡ entry_at s last_ledger_key
    pub early : (n until : ℕ) → HeldUntil s n until → now u < until

  module _ (config : IndexerConfig) (services : Indexers Payload S) where
    abbrev pub poll : ℕ → List String → S → ProcessorState Payload S
    poll time keys u =
        (poll_ledgers (chain json numbers client fallback node) config services time
          record { keys = keys; outside = u }).1

    -- So many polls, each of which begins in time after the one before.
    pub data Polls : ℕ → ProcessorState Payload S → ProcessorState Payload S → Type 0 where
      no_poll : {st : ProcessorState Payload S} → Polls 0 st st
      polled :
          {k : ℕ} {st end : ProcessorState Payload S} (time : ℕ) (u : S)
          → InTime st.outside u
          → Polls k (poll time st.keys u) end
          → Polls (suc k) st end

    module _ (seconds : ℕ) (lasts : fallback ≡ some (pos (suc seconds)))
        (kept : NumbersKept json numbers) where
      ledger_read :
          (u : S) (n until : ℕ)
          → HeldUntil u n until
          → now u < until
          → redis_get json client fallback last_ledger_key u ≡ (ok (of_number n), u)
      unfolding redis_get
      ledger_read u n until held early =
          rw
            (
              gets,
              held,
              value-live json client fallback works (of_number n) until (now u) (kept.stores n),
              lt→ltb (now u) until early,
            )
            refl

      ledger_set :
          (n : ℕ) (s : S)
          → (t : S) × ((chain json numbers client fallback node).set_ledger n s ≡ (ok tt, t))
            × Held t n
      ledger_set n s = (
        stored_for json client fallback works last_ledger_key (of_number n) (suc seconds) s,
        set-runs json client fallback works last_ledger_key (of_number n) none seconds s
            (kept.stores n) lasts,
        (now s + suc seconds, entry_put last_ledger_key _ s),
      )

      range_stores :
          (time last latest : ℕ) (st : ProcessorState Payload S)
          → (es : List (IndexerEvent Payload)) × (v : ProcessorState Payload S) × (poll_range
                (chain json numbers client fallback node)
                config
                services
                time
                last
                latest
                st
              ≡ (ok es, v))
            × Held v.outside (end_of last (batch_of config) latest)
      unfolding poll_range
      range_stores time last latest st =
          let c = chain json numbers client fallback node in
          let end = end_of last (batch_of config) latest in
          let (range, t, fetched) =
            fetch_range-runs c (batch_of config) (last + 1) end st.outside in
          let start : ProcessorState Payload S = record { keys = st.keys; outside = t } in
          let (u, runs) = process_some-runs c config services (parse_all time range) start in
          let (w, set, held) = ledger_set end u.outside in
          let done : ProcessorState Payload S = record { keys = u.keys; outside = w } in
          (parse_all time range, done, rw (fetched, runs, set) refl, held)

      -- One poll that begins in time, of a node that is ahead.
      poll_stores :
          (time last until latest : ℕ) (keys : List String) (u v : S)
          → HeldUntil u last until
          → now u < until
          → 0 < last
          → last < latest
          → fetch_latest_ledger (chain json numbers client fallback node) u ≡ (ok latest, v)
          → Held (poll time keys u).outside (end_of last (batch_of config) latest)
      unfolding poll_ledgers poll_body
      poll_stores time last until latest keys u v held early some_last ahead gives =
          let start : ProcessorState Payload S = record { keys = keys; outside = v } in
          let (es, w, runs, stored) = range_stores time last latest start in
          let runs_poll : poll_ledgers (chain json numbers client fallback node) config services
                time record { keys = keys; outside = u }
              ≡ (ok es, w) =
            rw
              (
                ledger_read u last until held early,
                kept.reads last,
                gives,
                or_last last some_last,
                lt→leb latest last ahead,
                runs,
              )
              refl in
          subst
            (λ (r : Result (List (IndexerEvent Payload)) × ProcessorState Payload S).
              Held r.1.outside (end_of last (batch_of config) latest))
            (sym runs_poll) stored

      -- While the node keeps on naming the same latest ledger, polls that each begin before the ledger that the
      -- one before has stored expires reach it: from a positive ledger not past it, and with no poll more
      -- than are needed, the ledger that is stored is the sum of the last one and the sizes of the batches,
      -- or the latest, whichever is less. The default lifetime is a positive number of seconds, and
      -- JSON gives numbers back.
      pub poll_ledgers-Held :
          (latest : ℕ) {k : ℕ} (last : ℕ) {st end : ProcessorState Payload S}
          → ((s : S)
              → (fetch_latest_ledger (chain json numbers client fallback node) s).0 ≡ ok latest)
          → Held st.outside last
          → 0 < last
          → last ≤ latest
          → last + k * batch_of config < latest + batch_of config
          → Polls k st end
          → Held end.outside (end_of last (k * batch_of config) latest)
      poll_ledgers-Held latest last {st} gives held some_last behind needed no_poll =
          subst (Held st.outside) (sym (end_of-none last (batch_of config) latest behind)) held
      poll_ledgers-Held latest last {end = end} gives (until, held) some_last behind needed
            (polled {k} {st} time u in_time later) =
          let b = batch_of config in
          let ahead = is_behind k last b latest needed in
          let v = (fetch_latest_ledger (chain json numbers client fallback node) u).1 in
          let (above, below) = end_of-positive last b latest some_last ahead in
          let stored =
            poll_stores time last until latest st.keys u v (in_time.same ∙ held)
              (in_time.early last until held) some_last ahead
              (ap (λ (r : Result ℕ). (r, v)) (gives u)) in
          subst (Held end.outside) (end_of-next k last b latest ahead) (
            poll_ledgers-Held latest (end_of last b latest) gives stored above below
              (needed_next k last b latest needed) later)
