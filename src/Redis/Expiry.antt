-- ===== src/Redis/Expiry.antt =====
-- How long a stored value is there.
use soro_pool.Base.{
  ℕ, suc, ◌+◌, ◌<◌, String, ◌≡◌, refl, sym, ap, ◌∙◌, true, false, Bool-cases, inl, inr, Option,
  none, some, ok, ltb, lt→ltb, if◌then◌else◌, arith,
}
use soro_pool.Base.Int.{ℤ, pos, ltb_ℤ}
use soro_pool.Redis.{
  Json, RedisClient, redis_get, redis_set, get_or_set, value_of, ttl_or, ClientWorks, live,
  Untouched,
}
use soro_pool.Routing.Action.{Action, state_of}
use text.Mathlib.Text.{◌==◌}

-- A value that JSON gives back, and that is no text.
pub record Stores (json : Json) (value : json.Value) : Type 0 where
  pub no_text : json.as_text value ≡ none
  pub full : (json.stringify value == "") ≡ false
  pub parses : json.parse (json.stringify value) ≡ ok value

positive_seconds : (n : ℕ) → ltb_ℤ (pos 0) (pos (suc n)) ≡ true
positive_seconds n = ground arith

module _ (json : Json) {S : Type 0} (client : RedisClient S) (fallback : Option ℤ)
    (works : ClientWorks client) where
  open json use {Value, null, is_null, stringify}
  open works use {now, entry_at, put_entry, gets, setexes, entry_put}

  -- The state after a value is set for a positive time.
  abbrev pub stored_for : String → Value → ℕ → S → S
  stored_for key value seconds s =
      put_entry key record { text = stringify value; until = some (now s + seconds) } s

  pub set-runs :
      (key : String) (value : Value) (ttl : Option ℤ) (seconds : ℕ) (s : S)
      → Stores json value
      → ttl_or ttl fallback ≡ some (pos (suc seconds))
      → redis_set json client fallback key value ttl s
        ≡ (ok tt, stored_for key value (suc seconds) s)
  unfolding redis_set
  set-runs key value ttl seconds s stores lasts =
      rw (lasts, stores.no_text, positive_seconds, setexes) refl

  pub value-live :
      (value : Value) (until time : ℕ)
      → Stores json value
      → value_of json client fallback
          (live time (some record { text = stringify value; until = some until }))
        ≡ (if ltb time until then value else null)
  value-live value until time stores = elim (Bool-cases (ltb time until)) [
    | inl early ↦ rw (early, stores.full, stores.parses) refl
    | inr late ↦ rw late refl
  ]

  -- A value that is set for a positive number of seconds, given or by default, is what get returns
  -- until they have passed, and from then on get returns null, where its key is not written in between.
  -- The value is no text, and JSON gives it back.
  pub redis_get-redis_set :
      (key : String) (value : Value) (ttl : Option ℤ) (seconds : ℕ) (s t u : S)
      → Stores json value
      → ttl_or ttl fallback ≡ some (pos (suc seconds))
      → redis_set json client fallback key value ttl s ≡ (ok tt, t)
      → Untouched works key t u
      → redis_get json client fallback key u
        ≡ (ok (if ltb (now u) (now s + suc seconds) then value else null), u)
  unfolding redis_get
  redis_get-redis_set key value ttl seconds s t u stores lasts runs apart =
      let there =
        apart.same
        ∙ ap (λ x. entry_at x key)
            (state_of (sym runs ∙ set-runs key value ttl seconds s stores lasts))
        ∙ entry_put key _ s in
      rw (gets, there, value-live value (now s + suc seconds) (now u) stores) refl

  first_read :
      (key : String) (s : S)
      → live (now s) (entry_at s key) ≡ none
      → redis_get json client fallback key s ≡ (ok null, s)
  unfolding redis_get
  first_read key s missing = rw (gets, missing) refl

  -- Where nothing is cached and fetching gives a value, getOrSet returns it, and while it is kept and its
  -- key is not written, getOrSet returns it again and fetches nothing: with any other fetching it
  -- returns the same and leaves the state as it is. The value is no text and not null, JSON gives it
  -- back, and its time is a positive number of seconds, given or by default.
  pub get_or_set-once :
      (key : String) (fetch : Action S Value) (ttl : Option ℤ) (seconds : ℕ) (value : Value)
      (s f : S)
      → Stores json value
      → is_null value ≡ false
      → is_null null ≡ true
      → ttl_or ttl fallback ≡ some (pos (suc seconds))
      → live (now s) (entry_at s key) ≡ none
      → fetch s ≡ (ok value, f)
      → (t : S) × (get_or_set json client fallback key fetch ttl s ≡ (ok value, t))
        × ((other : Action S Value) (u : S)
            → Untouched works key t u
            → now u < now f + suc seconds
            → get_or_set json client fallback key other ttl u ≡ (ok value, u))
  unfolding get_or_set
  get_or_set-once key fetch ttl seconds value s f stores full empty lasts missing fetched =
      let runs = set-runs key value ttl seconds f stores lasts in
      (
        stored_for key value (suc seconds) f,
        rw (first_read key s missing, empty, fetched, runs) refl,
        λ other u apart early.
            rw
              (
                redis_get-redis_set key value ttl seconds f (stored_for key value (suc seconds) f) u
                    stores lasts runs apart,
                lt→ltb (now u) (now f + suc seconds) early,
                full,
              )
              refl,
      )
