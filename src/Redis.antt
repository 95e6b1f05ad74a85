-- ===== src/Redis.antt =====
-- backend/src/shared/redis/redis.service.ts, with `redis.ttl` of
-- backend/src/config/configuration.ts: values kept as texts for a time. The client of ioredis and
-- JSON are parameters; a number that is parsed may be NaN, which is none.
pub mod Expiry
use soro_pool.Base.{
  ℕ, ◌+◌, ◌≤◌, String, ◌≡◌, Bool, true, false, Option, none, some, Result, ok, err, ltb,
  if◌then◌else◌,
}
use soro_pool.Base.Int.{ℤ, pos, ltb_ℤ, eqb_ℤ}
use soro_pool.Js.Text.{or_default, parse_int}
use soro_pool.Routing.Action.{Action, pure, ◌>>=◌}
use text.Mathlib.Text.{◌==◌}

-- The values that are stored, and the functions of the language on them: a text as a value,
-- `typeof value === 'string'`, `value !== null`, and `JSON`.
pub record Json : Type 1 where
  pub Value : Type 0
  pub null : Value
  pub is_null : Value → Bool
  pub of_text : String → Value
  pub as_text : Value → Option String
  pub stringify : Value → String
  pub parse : String → Result Value

-- The calls of the client
pub record RedisClient (S : Type 0) : Type 0 where
  pub client_get : String → Action S (Option String)
  pub client_set : (key text : String) → Action S Unit
  pub client_setex : (key : String) (seconds : ℤ) (text : String) → Action S Unit
  pub client_del : String → Action S Unit

-- `redis.ttl` of the configuration, from the environment
abbrev pub configured_ttl : Option String → Option ℤ
configured_ttl env = parse_int (or_default env "300")

-- The constructor's `defaultTtl`, where 0 counts as missing
abbrev pub default_ttl : Option ℤ → Option ℤ
default_ttl none = some (pos 300)
default_ttl (some ttl) = if eqb_ℤ ttl (pos 0) then some (pos 300) else some ttl

-- `ttlSeconds ?? this.defaultTtl`
abbrev pub ttl_or : Option ℤ → Option ℤ → Option ℤ
ttl_or none fallback = fallback
ttl_or (some ttl) fallback = some ttl

module _ (json : Json) {S : Type 0} (client : RedisClient S) (fallback : Option ℤ) where
  open json use {Value, null, is_null, of_text, as_text, stringify, parse}

  -- `try { return JSON.parse(raw) } catch { return raw }`
  abbrev pub parsed_or : String → Result Value → Value
  parsed_or raw (ok value) = value
  parsed_or raw (err e) = of_text raw

  abbrev pub value_of : Option String → Value
  value_of none = null
  value_of (some raw) = if raw == "" then null else parsed_or raw (parse raw)

  -- `get`
  unfoldable pub redis_get : String → Action S Value
  redis_get key = do raw ← client.client_get key; pure (value_of raw)

  -- `typeof value === 'string' ? value : JSON.stringify(value)`
  abbrev pub text_or_json : Option String → Value → String
  text_or_json none value = stringify value
  text_or_json (some text) value = text

  -- `ttl > 0`
  abbrev pub store_for : Option ℤ → String → String → Action S Unit
  store_for none key text = client.client_set key text
  store_for (some ttl) key text =
      if ltb_ℤ (pos 0) ttl then client.client_setex key ttl text else client.client_set key text

  -- `set`
  unfoldable pub redis_set : String → Value → Option ℤ → Action S Unit
  redis_set key value ttl = store_for (ttl_or ttl fallback) key (text_or_json (as_text value) value)

  -- `del`
  unfoldable pub redis_del : String → Action S Unit
  redis_del key = client.client_del key

  abbrev pub keep : String → Option ℤ → Value → Action S Value
  keep key ttl value = do stored ← redis_set key value ttl; pure value

  abbrev pub or_fetch : String → Action S Value → Option ℤ → Value → Action S Value
  or_fetch key fetch ttl cached =
      if is_null cached then (do value ← fetch; keep key ttl value) else pure cached

  -- `getOrSet`
  unfoldable pub get_or_set : String → Action S Value → Option ℤ → Action S Value
  get_or_set key fetch ttl = do cached ← redis_get key; or_fetch key fetch ttl cached

-- A text with the time at which it is dropped, where it has one.
pub record Entry : Type 0 where
  pub text : String
  pub until : Option ℕ

-- What is left of an entry at a time.
abbrev pub live_text : ℕ → String → Option ℕ → Option String
live_text now text none = some text
live_text now text (some until) = if ltb now until then some text else none

abbrev pub live : ℕ → Option Entry → Option String
live now none = none
live now (some entry) = live_text now entry.text entry.until

-- What the client does where every call succeeds, with the time in seconds.
pub record ClientWorks {S : Type 0} (client : RedisClient S) : Type 0 where
  pub now : S → ℕ
  pub entry_at : S → String → Option Entry
  pub put_entry : String → Entry → S → S
  pub gets :
      (key : String) (s : S) → client.client_get key s ≡ (ok (live (now s) (entry_at s key)), s)
  pub sets :
      (key text : String) (s : S)
      → client.client_set key text s ≡ (ok tt, put_entry key record { text = text; until = none } s)
  pub setexes :
      (key text : String) (seconds : ℕ) (s : S)
      → client.client_setex key (pos seconds) text s
        ≡ (ok tt, put_entry key record { text = text; until = some (now s + seconds) } s)
  pub entry_put :
      (key : String) (entry : Entry) (s : S) → entry_at (put_entry key entry s) key ≡ some entry

-- Time has gone on from s to t, and the entry of the key was not written.
pub record Untouched {S : Type 0} {client : RedisClient S} (works : ClientWorks client)
    (key : String) (s t : S) : Type 0 where
  pub later : works.now s ≤ works.now t
  pub same : works.entry_at t key ≡ works.entry_at s key
