-- ===== src/Frontend/SwapStore.antt =====
-- frontend/src/app/core/store/swap: the store's part for the swap page, its selectors, and the effect
-- that asks for quotes. The store of ngrx and `fetch` are third-party: a dispatch runs the reducer, and
-- `switchMap` keeps the last request alone.
use soro_pool.Base.{String, Bool, false, ◌||◌, Option, none, some, Result, ok, err, if◌then◌else◌}
use soro_pool.Base.Int.{ℤ, pos, ◌*ℤ◌, ◌/ℤ◌}
use soro_pool.Js.BigInt.{big_int}
use soro_pool.Js.Number.{JsNumber}
use text.Mathlib.Text.{◌==◌}

-- The answer of `selectPriceImpactSeverity`
pub data Severity : Type 0 where
  critical high medium low : Severity

-- The three texts of a request
pub record QuoteRequest : Type 0 where
  pub token_in : String
  pub token_out : String
  pub amount_in : String

module _ (num : JsNumber) (Route : Type 0) where
  -- The parts of a quote that are read
  pub record Quote : Type 0 where
    pub amount_out : Option String
    pub price_impact : Option num.Num
    pub route : Option Route

  pub record SwapState : Type 0 where
    pub token_in : Option String
    pub token_out : Option String
    pub amount_in : String
    pub quote : Option Quote
    pub route : Option Route
    pub slippage_tolerance : num.Num
    pub deadline : num.Num
    pub price_impact_warning : Bool

  pub data SwapAction : Type 0 where
    set_token_in : String → SwapAction
    set_token_out : String → SwapAction
    set_amount_in : String → SwapAction
    set_slippage : num.Num → SwapAction
    set_deadline : num.Num → SwapAction
    get_quote : QuoteRequest → SwapAction
    update_quote : Option Quote → SwapAction
    reset_swap : SwapAction

  -- `initialState`
  abbrev pub initial_state : SwapState
  initial_state = record {
    token_in = none;
    token_out = none;
    amount_in = "";
    quote = none;
    route = none;
    slippage_tolerance = num.of_text "0.005";
    deadline = num.of_text "30";
    price_impact_warning = false;
  }

  -- `quote?.route || null`
  abbrev pub route_of : Option Quote → Option Route
  route_of none = none
  route_of (some q) = q.route

  unfoldable pub swap_reducer : SwapAction → SwapState → SwapState
  swap_reducer (set_token_in token) s = record s { token_in = some token }
  swap_reducer (set_token_out token) s = record s { token_out = some token }
  swap_reducer (set_amount_in amount) s = record s { amount_in = amount }
  swap_reducer (set_slippage slippage) s = record s { slippage_tolerance = slippage }
  swap_reducer (set_deadline deadline) s = record s { deadline = deadline }
  swap_reducer (get_quote request) s = s
  swap_reducer (update_quote quote) s = record s { quote = quote; route = route_of quote }
  swap_reducer reset_swap s = initial_state

  -- `BigInt(Math.floor((1 - s.slippageTolerance) * 10000))`
  abbrev pub kept_share : num.Num → ℤ
  kept_share slippage =
      num.floor (num.mul (num.sub (num.of_text "1") slippage) (num.of_text "10000"))

  abbrev pub min_out_of : num.Num → Option String → Result ℤ
  min_out_of slippage none = ok (pos 0)
  min_out_of slippage (some text) = if text == "" then ok (pos 0) else elim (big_int text) [
    | err e ↦ err e
    | ok out ↦ (out *ℤ kept_share slippage) /ℤ pos 10_000
  ]

  abbrev pub amount_out_of : Option Quote → Option String
  amount_out_of none = none
  amount_out_of (some q) = q.amount_out

  -- `selectMinAmountOut`
  unfoldable pub select_min_amount_out : SwapState → Result ℤ
  select_min_amount_out s = min_out_of s.slippage_tolerance (amount_out_of s.quote)

  -- `s.quote?.priceImpact ?? 0`
  abbrev pub impact_of : Option Quote → num.Num
  impact_of none = num.of_text "0"
  impact_of (some q) = elim q.price_impact [ none ↦ num.of_text "0" | some impact ↦ impact ]

  -- `selectPriceImpactSeverity`
  unfoldable pub select_price_impact_severity : SwapState → Severity
  select_price_impact_severity s =
      let impact = impact_of s.quote in
      if num.lt (num.of_text "0.15") impact
      then critical
      else if num.lt (num.of_text "0.05") impact
      then high
      else if num.lt (num.of_text "0.01") impact
      then medium
      else low

  -- The state, and the request of the effect that is not answered yet
  pub record Store : Type 0 where
    pub state : SwapState
    pub pending : Option QuoteRequest

  -- `!amountIn || !tokenIn || !tokenOut`
  abbrev pub incomplete : QuoteRequest → Bool
  incomplete r = (r.amount_in == "") || (r.token_in == "") || (r.token_out == "")

  -- `getQuote$` on a request: the last one is dropped, and an incomplete one is answered at once.
  unfoldable pub ask : QuoteRequest → Store → Store
  ask request s =
      if incomplete request
      then record { state = swap_reducer (update_quote none) s.state; pending = none }
      else record { state = s.state; pending = some request }

  unfoldable pub dispatch : SwapAction → Store → Store
  dispatch (get_quote request) s =
      ask request record s { state = swap_reducer (get_quote request) s.state }
  dispatch (set_token_in token) s = record s { state = swap_reducer (set_token_in token) s.state }
  dispatch (set_token_out token) s = record s { state = swap_reducer (set_token_out token) s.state }
  dispatch (set_amount_in amount) s = record s {
    state = swap_reducer (set_amount_in amount) s.state;
  }
  dispatch (set_slippage slippage) s = record s {
    state = swap_reducer (set_slippage slippage) s.state;
  }
  dispatch (set_deadline deadline) s = record s {
    state = swap_reducer (set_deadline deadline) s.state;
  }
  dispatch (update_quote quote) s = record s { state = swap_reducer (update_quote quote) s.state }
  dispatch reset_swap s = record s { state = swap_reducer reset_swap s.state }

  -- The quote that an answer gives: none where the request failed
  abbrev pub quote_or_none : Result (Option Quote) → Option Quote
  quote_or_none (ok quote) = quote
  quote_or_none (err e) = none

  abbrev pub answer_to : Option QuoteRequest → Result (Option Quote) → Store → Store
  answer_to none reply s = s
  answer_to (some request) reply s = record {
    state = swap_reducer (update_quote (quote_or_none reply)) s.state;
    pending = none;
  }

  -- The answer to the request arrives.
  unfoldable pub answer : Result (Option Quote) → Store → Store
  answer reply s = answer_to s.pending reply s
