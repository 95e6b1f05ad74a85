-- ===== src/Indexer/Ledgers/Expired.antt =====
-- The last processed ledger as the Redis service keeps it.
use soro_pool.Base.{
  ℕ, suc, ◌+◌, ◌≤◌, ◌<◌, String, ◌≡◌, refl, le→ltb, lt→leb, Option, none, some, List, [], ok,
}
use soro_pool.Base.Int.{ℤ, pos}
use soro_pool.Indexer.Events.{Indexers}
use soro_pool.Indexer.Ledgers.{
  Chain, IndexerConfig, catch, fetch_latest_ledger, poll_range, poll_body, poll_ledgers,
}
use soro_pool.Indexer.Payload.{Payload, RawEvent}
use soro_pool.Redis.{Json, RedisClient, redis_get, redis_set, ClientWorks, Untouched}
use soro_pool.Redis.Expiry.{Stores, redis_get-redis_set}
use soro_pool.Routing.Action.{Action, pure, ◌>>=◌}

-- `LAST_LEDGER_KEY`
abbrev pub last_ledger_key : String
last_ledger_key = "indexer:last_processed_ledger"

-- The requests to the node
pub record Node (S : Type 0) : Type 0 where
  pub post_latest : Action S (Option ℕ)
  pub page_latest : Action S (Option ℕ)
  pub post_range : (from to limit : ℕ) → Action S (Option (List RawEvent))

-- A number as a value, and a value as the number that polling takes it for.
pub record Numbers (json : Json) : Type 0 where
  pub of_number : ℕ → json.Value
  pub to_number : json.Value → Option ℕ

module _ (json : Json) (numbers : Numbers json) {S : Type 0} (client : RedisClient S)
    (fallback : Option ℤ) (node : Node S) where
  open numbers use {of_number, to_number}

  -- The calls that the polling makes: the node's, and the Redis service's with its default lifetime.
  abbrev pub chain : Chain S
  chain = record {
    get_ledger = do
      value ← redis_get json client fallback last_ledger_key
      pure (to_number value);
    set_ledger = λ n. redis_set json client fallback last_ledger_key (of_number n) none;
    post_latest = node.post_latest;
    page_latest = node.page_latest;
    post_range = node.post_range;
  }

  module _ (works : ClientWorks client) (config : IndexerConfig)
      (services : Indexers Payload S) where
    open works use {now}

    -- When the default lifetime has passed since the last ledger was stored, a poll takes no notice of it: where
    -- the node is past ledger 1000000, the poll is the processing of the range that begins after 1000000.
    -- The lifetime is a positive number of seconds, JSON gives the number back, and the key is not
    -- written in between.
    pub poll_ledgers-expired :
        (n seconds time latest : ℕ) (s t u v : S) (keys : List String)
        → fallback ≡ some (pos (suc seconds))
        → Stores json (of_number n)
        → to_number json.null ≡ none
        → chain.set_ledger n s ≡ (ok tt, t)
        → Untouched works last_ledger_key t u
        → now s + suc seconds ≤ now u
        → fetch_latest_ledger chain u ≡ (ok latest, v)
        → 1_000_000 < latest
        → poll_ledgers chain config services time record { keys = keys; outside = u }
          ≡ catch
              (poll_range chain config services time 1_000_000 latest)
              (pure [])
              record { keys = keys; outside = v }
    unfolding poll_ledgers poll_body
    poll_ledgers-expired n seconds time latest s t u v keys lasts stores no_number runs apart late
          gives ahead =
        rw
          (
            redis_get-redis_set json client fallback works last_ledger_key (of_number n) none
                seconds s t u stores lasts runs apart,
            le→ltb (now u) (now s + suc seconds) late,
            no_number,
            gives,
            lt→leb latest 1_000_000 ahead,
          )
          refl
