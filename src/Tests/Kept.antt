-- ===== src/Tests/Kept.antt =====
-- Runs of the Redis service, and of polling over it.
use soro_pool.Base.{
  ℕ, ◌+◌, ◌≤◌, ◌<◌, ◌≡◌, String, refl, Bool, true, false, Option, none, some, [], Result, ok, err,
  if◌then◌else◌, arith,
}
use soro_pool.Base.Int.{ℤ, pos}
use soro_pool.Indexer.Events.{Indexers, ProcessorState}
use soro_pool.Indexer.Ledgers.{IndexerConfig, catch, poll_range, poll_ledgers, fetch_latest_ledger}
use soro_pool.Indexer.Ledgers.Expired.{last_ledger_key, Node, Numbers, chain, poll_ledgers-expired}
use soro_pool.Indexer.Payload.{Payload}
use soro_pool.Js.BigInt.{big_int, to_string}
use soro_pool.Redis.{
  Json, RedisClient, redis_get, redis_set, get_or_set, default_ttl, Entry, live, ClientWorks,
  Untouched,
}
use soro_pool.Redis.Expiry.{Stores, redis_get-redis_set, get_or_set-once}
use soro_pool.Routing.Action.{Action, pure}
use soro_pool.Tests.Tables.{text_itself}
use package.text.Mathlib.Text.{◌==◌}

pub data JsValue : Type 0 where
  nothing : JsValue
  text : String → JsValue
  number : ℤ → JsValue

abbrev is_nothing : JsValue → Bool
is_nothing nothing = true
is_nothing (text s) = false
is_nothing (number n) = false

abbrev text_of : JsValue → Option String
text_of nothing = none
text_of (text s) = some s
text_of (number n) = none

abbrev stringify_value : JsValue → String
stringify_value nothing = "null"
stringify_value (text s) = s
stringify_value (number n) = to_string n

abbrev pub number_of_result : Result ℤ → Result JsValue
number_of_result (ok n) = ok (number n)
number_of_result (err e) = err e

abbrev pub numbers_only : Json
numbers_only = record {
  Value = JsValue;
  null = nothing;
  is_null = is_nothing;
  of_text = text;
  as_text = text_of;
  stringify = stringify_value;
  parse = λ s. number_of_result (big_int s);
}

-- A clock and the entries.
pub record Server : Type 0 where
  pub clock : ℕ
  pub entries : String → Option Entry

abbrev pub put : String → Entry → Server → Server
put key entry s = record s { entries = λ k. if k == key then some entry else s.entries k }

abbrev until_of : ℕ → ℤ → ℕ
until_of clock (pos n) = clock + n
until_of clock n = clock

abbrev pub client : RedisClient Server
client = record {
  client_get = λ key s. (ok (live s.clock (s.entries key)), s);
  client_set = λ key text s. (ok tt, put key record { text = text; until = none } s);
  client_setex = λ key seconds text s.
      (ok tt, put key record { text = text; until = some (until_of s.clock seconds) } s);
  client_del = λ key s. (ok tt, s);
}

abbrev pub works : ClientWorks client
works = record {
  now = λ s. s.clock;
  entry_at = λ s key. s.entries key;
  put_entry = put;
  gets = λ key s. refl;
  sets = λ key text s. refl;
  setexes = λ key text seconds s. refl;
  entry_put = λ key entry s. rw (text_itself key) refl;
}

abbrev pub empty : Server
empty = record { clock = 10; entries = λ key. none }

abbrev five : JsValue
five = number (pos 5)

five-Stores : Stores numbers_only five
unfolding big_int to_string
five-Stores = record { no_text = refl; full = refl; parses = refl }

-- Five is set at time 10, and is there at time 69.
abbrev stored : String → Server
stored key = put key record { text = to_string (pos 5); until = some 70 } empty

abbrev pub at_time : ℕ → Server → Server
at_time clock s = record s { clock = clock }

apart :
    (key : String) (clock : ℕ)
    → 10 ≤ clock
    → Untouched works key (stored key) (at_time clock (stored key))
apart key clock later = record { later = later; same = refl }

five_set :
    redis_set numbers_only client (default_ttl none) "k" five (some (pos 60)) empty
    ≡ (ok tt, stored "k")
unfolding redis_set
five_set = refl

redis_get-redis_set_example :
    redis_get numbers_only client (default_ttl none) "k" (at_time 69 (stored "k"))
    ≡ (ok five, at_time 69 (stored "k"))
redis_get-redis_set_example =
    redis_get-redis_set numbers_only client (default_ttl none) works "k" five (some (pos 60)) 59
      empty (stored "k") (at_time 69 (stored "k")) five-Stores refl five_set
      (apart "k" 69 (omega arith))

get_or_set-once_example :
    (t : Server) × (get_or_set numbers_only client
        (default_ttl none)
        "k"
        (pure five)
        (some (pos 60))
        empty
      ≡ (ok five, t))
    × ((other : Action Server JsValue) (u : Server)
        → Untouched works "k" t u
        → u.clock < 70
        → get_or_set numbers_only client (default_ttl none) "k" other (some (pos 60)) u
          ≡ (ok five, u))
get_or_set-once_example =
    get_or_set-once numbers_only client (default_ttl none) works "k" (pure five) (some (pos 60)) 59
      five empty empty five-Stores refl refl refl refl refl

-- The node is at ledger 1000250 and gives no events.
abbrev pub node : Node Server
node = record {
  post_latest = pure (some 1_000_250);
  page_latest = pure none;
  post_range = λ from to limit. pure none;
}

abbrev to_ledger : JsValue → Option ℕ
to_ledger nothing = none
to_ledger (text s) = none
to_ledger (number (pos n)) = some n
to_ledger (number n) = none

abbrev pub ledgers : Numbers numbers_only
ledgers = record { of_number = λ n. number (pos n); to_number = to_ledger }

abbrev pub nobody : Indexers Payload Server
nobody = record { index_swap = λ e. pure tt; index_mint = λ e. pure tt; index_burn = λ e. pure tt }

abbrev pub config : IndexerConfig
config = record { batch_size = none; start_ledger = none }

abbrev kept_until_310 : Server
kept_until_310 = put last_ledger_key record { text = to_string (pos 5); until = some 310 } empty

abbrev at_310 : Server
at_310 = at_time 310 kept_until_310

ledger_set :
    (chain numbers_only ledgers client (default_ttl none) node).set_ledger 5 empty
    ≡ (ok tt, kept_until_310)
unfolding redis_set
ledger_set = refl

ledger_apart : Untouched works last_ledger_key kept_until_310 at_310
ledger_apart = record { later = omega arith; same = refl }

node_answers :
    fetch_latest_ledger (chain numbers_only ledgers client (default_ttl none) node) at_310
    ≡ (ok 1_000_250, at_310)
unfolding fetch_latest_ledger
node_answers = refl

abbrev fresh : ProcessorState Payload Server
fresh = record { keys = []; outside = at_310 }

poll_ledgers-expired_example :
    poll_ledgers (chain numbers_only ledgers client (default_ttl none) node) config nobody 1 fresh
    ≡ catch
        (poll_range
          (chain numbers_only ledgers client (default_ttl none) node)
          config
          nobody
          1
          1_000_000
          1_000_250)
        (pure [])
        fresh
poll_ledgers-expired_example =
    poll_ledgers-expired numbers_only ledgers client (default_ttl none) node works config nobody 5
      299 1 1_000_250 empty kept_until_310 at_310 at_310 [] refl five-Stores refl ledger_set
      ledger_apart (omega arith) node_answers (omega arith)
