-- ===== src/Indexer/Payload.antt =====
-- What an indexer event carries, and how backend/src/modules/indexer/stellar-indexer.service.ts decodes
-- it from a contract event.
use soro_pool.Base.{
  ℕ, String, Option, none, some, List, [], ◌∷◌, ltb, if◌then◌else◌, length, get_elem?,
}
use soro_pool.Base.Int.{ℤ}
use soro_pool.Indexer.Events.{IndexerEvent, EventKind, swap, mint, burn, pool_created}
use soro_pool.Js.Text.{or_default, split_on, parse_int}
use text.Mathlib.Text.{◌==◌}

-- `data` of an event: names with texts
abbrev pub Payload : Type 0
Payload = List (String × String)

-- `data.name`
unfoldable pub field : Payload → String → Option String
field [] name = none
field ((key, value) ∷ rest) name =
    let later = field rest name in if key == name then some value else later

-- The fields of a contract event that are read; `topic` and `value.data` may be missing.
pub record RawEvent : Type 0 where
  pub id : Option String
  pub ledger : Option String
  pub topic : Option (List String)
  pub value : Option String

-- `topic[i] || ''`
abbrev pub topic_at : List String → ℕ → String
topic_at topic i = or_default (get_elem? topic i) ""

-- `decodeSwapEvent`
abbrev pub decode_swap_event : List String → Option String → Payload
decode_swap_event topic value =
    ("caller", topic_at topic 2)
    ∷ ("tokenIn", topic_at topic 3)
    ∷ ("tokenOut", topic_at topic 4)
    ∷ ("amountIn", or_default value "0")
    ∷ ("amountOut", or_default value "0")
    ∷ []

-- `decodeMintEvent`
abbrev pub decode_mint_event : List String → Option String → Payload
decode_mint_event topic value =
    ("provider", topic_at topic 2)
    ∷ ("amountA", or_default value "0")
    ∷ ("amountB", or_default value "0")
    ∷ []

-- `decodeBurnEvent`
abbrev pub decode_burn_event : List String → Option String → Payload
decode_burn_event topic value =
    ("provider", topic_at topic 2)
    ∷ ("amountA", or_default value "0")
    ∷ ("amountB", or_default value "0")
    ∷ []

-- `decodePoolCreatedEvent`
abbrev pub decode_pool_created_event : List String → Option String → Payload
decode_pool_created_event topic value =
    ("pool", topic_at topic 2)
    ∷ ("tokenA", topic_at topic 3)
    ∷ ("tokenB", topic_at topic 4)
    ∷ ("feeTier", or_default value "30")
    ∷ []

abbrev pub first_piece : List String → String
first_piece [] = ""
first_piece (piece ∷ pieces) = piece

-- `pieces.pop()`
unfoldable pub last_piece : List String → Option String
last_piece [] = none
last_piece (piece ∷ []) = some piece
last_piece (piece ∷ next ∷ pieces) = last_piece (next ∷ pieces)

-- `txHash` and `eventIndex` of the `base`
abbrev pub tx_hash_of : Option String → String
tx_hash_of id = first_piece (split_on b'-' (or_default id "unknown"))

abbrev pub event_index_of : Option String → Option ℤ
event_index_of id = parse_int (or_default (last_piece (split_on b'-' (or_default id "0"))) "0")

-- The `base` of an event with the parts of its kind.
abbrev pub event_of : RawEvent → ℕ → EventKind → Payload → IndexerEvent Payload
event_of raw now kind payload = record {
  kind = kind;
  tx_hash = tx_hash_of raw.id;
  event_index = event_index_of raw.id;
  ledger = parse_int (or_default raw.ledger "0");
  timestamp = now;
  payload = payload;
}

-- The switch on the type of the event; other types give no event.
unfoldable pub events_of_type : RawEvent → ℕ → String → List String → List (IndexerEvent Payload)
events_of_type raw now type topic =
    if type == "Swap"
    then event_of raw now swap (decode_swap_event topic raw.value) ∷ []
    else if type == "Mint"
    then event_of raw now mint (decode_mint_event topic raw.value) ∷ []
    else if type == "Burn"
    then event_of raw now burn (decode_burn_event topic raw.value) ∷ []
    else if type == "PoolCreated"
    then event_of raw now pool_created (decode_pool_created_event topic raw.value) ∷ []
    else []

-- The guard on the topic, and the switch.
unfoldable pub events_of_topic : RawEvent → ℕ → Option (List String) → List (IndexerEvent Payload)
events_of_topic raw now none = []
events_of_topic raw now (some topic) =
    if ltb (length topic) 2
    then []
    else events_of_type raw now (or_default (get_elem? topic 1) "") topic

-- `parseContractEvents`, at the time `now`
unfoldable pub parse_contract_events : ℕ → RawEvent → List (IndexerEvent Payload)
parse_contract_events now raw = events_of_topic raw now raw.topic
