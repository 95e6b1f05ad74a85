-- ===== src/Frontend/Feed.antt =====
-- frontend/src/app/core/services/price-feed.service.ts: the socket of the price feed, what is asked for
-- through it, and the streams that its messages are handed to. The browser is a parameter.
pub mod Lost
use soro_pool.Base.{
  String, Bool, false, Option, none, some, Result, ok, err, List, ◌∷◌, if◌then◌else◌,
}
use soro_pool.Routing.Action.{Action}
use text.Mathlib.Text.{◌==◌}

-- What the service sends, before `JSON.stringify`
pub data Request : Type 0 where
  subscribe_stats : Request
  subscribe_pool : (pool_id : String) → Request
  subscribe_quote : (token_in token_out amount_in : String) → Request

-- The browser, whose state is S.
pub record Browser (S Socket : Type 0) : Type 0 where
  pub is_open : Socket → S → Bool
  pub web_socket : S → Socket × S
  pub send : Socket → Request → Action S Unit
  pub set_timeout : S → S

-- `PriceFeedService`, its three subjects as what they have emitted, the last first
pub record PriceFeed (S Socket D : Type 0) : Type 0 where
  pub ws : Option Socket
  pub pool_reserves : List D
  pub quote_updates : List D
  pub protocol_stats : List D
  pub page : S

module _ {S Socket D : Type 0} (browser : Browser S Socket) where
  -- `this.ws?.readyState === WebSocket.OPEN`
  abbrev pub has_open_socket : PriceFeed S Socket D → Bool
  has_open_socket f = elim f.ws [ none ↦ false | some ws ↦ browser.is_open ws f.page ]

  -- `connect`; the handlers are on_open, on_message and on_close.
  unfoldable pub connect_feed : PriceFeed S Socket D → PriceFeed S Socket D
  connect_feed f = if has_open_socket f then f else record f {
    ws = some (browser.web_socket f.page).0;
    page = (browser.web_socket f.page).1;
  }

  -- `this.ws?.send(...)`
  unfoldable pub send_request : Request → Action (PriceFeed S Socket D) Unit
  send_request request f = elim f.ws [
    | none ↦ (ok tt, f)
    | some ws ↦
        ((browser.send ws request f.page).0, record f { page = (browser.send ws request f.page).1 })
  ]

  -- `this.ws.onopen`
  abbrev pub on_open : Action (PriceFeed S Socket D) Unit
  on_open = send_request subscribe_stats

  -- `this.ws.onclose`
  abbrev pub on_close : PriceFeed S Socket D → PriceFeed S Socket D
  on_close f = record f { page = browser.set_timeout f.page }

  -- `subscribePool`
  abbrev pub ask_pool : String → Action (PriceFeed S Socket D) Unit
  ask_pool pool_id = send_request (subscribe_pool pool_id)

  -- `subscribeQuote`
  abbrev pub ask_quote :
      (token_in token_out amount_in : String) → Action (PriceFeed S Socket D) Unit
  ask_quote token_in token_out amount_in =
      send_request (subscribe_quote token_in token_out amount_in)

-- `data.type === '...'`
abbrev has_type : Option String → String → Bool
has_type none type = false
has_type (some text) type = text == type

module _ {S Socket D : Type 0} where
  abbrev pub emit : Option String → D → PriceFeed S Socket D → PriceFeed S Socket D
  emit type message f = record f {
    pool_reserves =
        if has_type type "pool:reserves" then message ∷ f.pool_reserves else f.pool_reserves;
    quote_updates =
        if has_type type "quote:update" then message ∷ f.quote_updates else f.quote_updates;
    protocol_stats =
        if has_type type "stats:update" then message ∷ f.protocol_stats else f.protocol_stats;
  }

  -- `this.ws.onmessage`, on what `JSON.parse` makes of the text and what reading its type gives
  abbrev pub on_message :
      (String → Result D)
      → (D → Result (Option String))
      → String
      → Action (PriceFeed S Socket D) Unit
  on_message parse type_of text f = elim (parse text) [
    | err e ↦ (err e, f)
    | ok message ↦ elim (type_of message) [
      | err e ↦ (err e, f)
      | ok type ↦ (ok tt, emit type message f)
    ]
  ]
