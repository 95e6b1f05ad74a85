-- ===== src/Indexer/Liquidity/Lost.antt =====
-- Decoded events carry no pool address: what the liquidity indexer and the swap indexer do with them.
use soro_pool.Base.{
  ℕ, String, ◌≡◌, refl, Bool, true, false, Option, none, some, List, [], ◌∷◌, ok, All,
  if◌then◌else◌, ltb, length,
}
use soro_pool.Indexer.Database.{Database, DatabaseWorks}
use soro_pool.Indexer.Events.{IndexerEvent}
use soro_pool.Indexer.Liquidity.{index_mint, index_burn, index_liquidity, on_pool}
use soro_pool.Indexer.Payload.{
  tx_hash_of, Payload, field, RawEvent, events_of_type, events_of_topic, parse_contract_events,
}
use soro_pool.Indexer.Swaps.{index_swap, swap_on}
use soro_pool.Js.Number.{JsNumber}
use text.Mathlib.Text.{◌==◌}

-- The event has no pool address, and the hash h.
abbrev pub Bare : String → IndexerEvent Payload → Type 0
Bare h e = (field e.payload "poolAddress" ≡ none) × (e.tx_hash ≡ h)

if_holds :
    (h : String) (b : Bool) (xs ys : List (IndexerEvent Payload))
    → All (Bare h) xs
    → All (Bare h) ys
    → All (Bare h) (if b then xs else ys)
if_holds h true xs ys p q = p
if_holds h false xs ys p q = q

type-Bare :
    (raw : RawEvent) (now : ℕ) (type : String) (topic : List String)
    → All (Bare (tx_hash_of raw.id)) (events_of_type raw now type topic)
unfolding events_of_type field
type-Bare raw now type topic =
    let h = tx_hash_of raw.id in
    if_holds h (type == "Swap") _ _ ((refl, refl), tt)
      (if_holds h (type == "Mint") _ _ ((refl, refl), tt)
        (if_holds h (type == "Burn") _ _ ((refl, refl), tt)
          (if_holds h (type == "PoolCreated") _ _ ((refl, refl), tt) tt)))

topic-Bare :
    (raw : RawEvent) (now : ℕ) (topic : Option (List String))
    → All (Bare (tx_hash_of raw.id)) (events_of_topic raw now topic)
unfolding events_of_topic
topic-Bare raw now none = tt
topic-Bare raw now (some topic) =
    if_holds (tx_hash_of raw.id) (ltb (length topic) 2) _ _ tt (type-Bare raw now _ topic)

parse-Bare :
    (now : ℕ) (raw : RawEvent) → All (Bare (tx_hash_of raw.id)) (parse_contract_events now raw)
unfolding parse_contract_events
parse-Bare now raw = topic-Bare raw now raw.topic

module _ (num : JsNumber) (show : num.Num → String) {S : Type 0} (db : Database S)
    (works : DatabaseWorks db) (s : S) where
  open works use {pool_at, finds_pool}

  -- The three handlers leave the state as it is on the event.
  abbrev pub PassedOver : IndexerEvent Payload → Type 0
  PassedOver e =
      (index_mint db e s ≡ (ok tt, s))
      × (index_burn db e s ≡ (ok tt, s))
      × (index_swap num show db e s ≡ (ok tt, s))

  passed_over :
      (h : String) (e : IndexerEvent Payload)
      → pool_at s "" ≡ none
      → pool_at s h ≡ none
      → Bare h e
      → PassedOver e
  unfolding index_mint index_burn index_swap index_liquidity on_pool swap_on
  passed_over h e no_pool no_hash (bare, hash) = (
    rw (finds_pool, bare, no_pool) refl,
    rw (finds_pool, bare, no_pool) refl,
    rw (finds_pool, bare, hash, no_hash) refl,
  )

  every_passed :
      (h : String) (es : List (IndexerEvent Payload))
      → pool_at s "" ≡ none
      → pool_at s h ≡ none
      → All (Bare h) es
      → All PassedOver es
  every_passed h [] no_pool no_hash bare = tt
  every_passed h (e ∷ es) no_pool no_hash (b, bare) =
      (passed_over h e no_pool no_hash b, every_passed h es no_pool no_hash bare)

  -- Where no pool has the empty address, or the hash of the contract event's transaction as its address,
  -- every event that the contract event decodes to is passed over by the handlers of mints, burns
  -- and swaps: they return, and change nothing.
  pub parse_contract_events-PassedOver :
      (now : ℕ) (raw : RawEvent)
      → pool_at s "" ≡ none
      → pool_at s (tx_hash_of raw.id) ≡ none
      → All PassedOver (parse_contract_events now raw)
  parse_contract_events-PassedOver now raw no_pool no_hash =
      every_passed (tx_hash_of raw.id) _ no_pool no_hash (parse-Bare now raw)
