-- ===== src/Frontend/SwapForm.antt =====
-- frontend/src/app/features/swap/swap.component.ts: the swap page, over the store and the wallet.
pub mod Asked
pub mod Buttons
use Prim.Native.String.{◌++◌}
use soro_pool.Base.{
  ℕ, String, Bool, true, false, ◌||◌, not, Option, none, some, List, [], ◌∷◌, Result, ok, err,
  Error, if◌then◌else◌,
}
use soro_pool.Base.Int.{ℤ, pos, eqb_ℤ}
use soro_pool.Frontend.SwapStore.{
  QuoteRequest, Quote, Store, initial_state, SwapAction, set_token_in, set_token_out, set_amount_in,
  set_slippage, set_deadline, get_quote, reset_swap, select_min_amount_out, dispatch,
}
use soro_pool.Js.Number.{JsNumber}
use text.Mathlib.Text.{◌==◌}

-- `tokenSelectorMode`
pub data SelectorMode : Type 0 where
  mode_in mode_out : SelectorMode

-- The values of `TxStep` that the page sets
pub data TxStep : Type 0 where
  review signing submitted failed : TxStep

module _ (num : JsNumber) (Route : Type 0) (to_fixed : num.Num → ℕ → String)
    (message : Error → String) where
  -- The signals of the component, and the store
  pub record SwapForm : Type 0 where
    pub amount_in : String
    pub token_in_symbol : String
    pub token_out_symbol : String
    pub deadline : num.Num
    pub selector_open : Bool
    pub selector_mode : SelectorMode
    pub tx_modal_open : Bool
    pub tx_step : TxStep
    pub tx_hash : String
    pub tx_error : String
    pub tx_details : List (String × String)
    pub store : Store num Route

  abbrev pub initial_form : SwapForm
  initial_form = record {
    amount_in = "";
    token_in_symbol = "XLM";
    token_out_symbol = "USDC";
    deadline = num.of_text "30";
    selector_open = false;
    selector_mode = mode_in;
    tx_modal_open = false;
    tx_step = review;
    tx_hash = "";
    tx_error = "";
    tx_details = [];
    store = record { state = initial_state num Route; pending = none };
  }

  -- `this.store.dispatch(...)`
  abbrev pub send : SwapAction num Route → SwapForm → SwapForm
  send action f = record f { store = dispatch num Route action f.store }

  -- The request for what the page shows
  abbrev pub shown_request : SwapForm → QuoteRequest
  shown_request f = record {
    token_in = f.token_in_symbol;
    token_out = f.token_out_symbol;
    amount_in = f.amount_in;
  }

  -- The quote is asked for unless a text of it is missing, as `onAmountInChange` does.
  abbrev pub ask_where : Bool → SwapForm → SwapForm
  ask_where skip f = if skip then f else send (get_quote (shown_request f)) f

  unfoldable pub on_amount_in_change : String → SwapForm → SwapForm
  on_amount_in_change amount f =
      let typed = send (set_amount_in amount) record f { amount_in = amount } in
      ask_where ((amount == "") || (f.token_in_symbol == "") || (f.token_out_symbol == "")) typed

  unfoldable pub on_slippage_change : num.Num → SwapForm → SwapForm
  on_slippage_change slippage f = send (set_slippage slippage) f

  unfoldable pub on_deadline_change : num.Num → SwapForm → SwapForm
  on_deadline_change deadline f = send (set_deadline deadline) record f { deadline = deadline }

  unfoldable pub reverse_tokens : SwapForm → SwapForm
  reverse_tokens f =
      let swapped : SwapForm = record f {
        token_in_symbol = f.token_out_symbol;
        token_out_symbol = f.token_in_symbol;
      } in
      ask_where (f.amount_in == "")
        (send (set_token_out f.token_in_symbol) (send (set_token_in f.token_out_symbol) swapped))

  unfoldable pub open_token_selector : SelectorMode → SwapForm → SwapForm
  open_token_selector mode f = record f { selector_mode = mode; selector_open = true }

  -- The two branches of `onTokenSelect`
  abbrev pub choose : SelectorMode → String → SwapForm → SwapForm
  choose mode_in symbol f = send (set_token_in symbol) record f { token_in_symbol = symbol }
  choose mode_out symbol f = send (set_token_out symbol) record f { token_out_symbol = symbol }

  unfoldable pub on_token_select : String → SwapForm → SwapForm
  on_token_select symbol f = ask_where (f.amount_in == "") (choose f.selector_mode symbol f)

  -- `minAmountOutFormatted`
  unfoldable pub min_amount_out_formatted : SwapForm → Result String
  min_amount_out_formatted f = elim (select_min_amount_out num Route f.store.state) [
    | err e ↦ err e
    | ok val ↦
        if eqb_ℤ val (pos 0)
        then ok "0"
        else ok (to_fixed (num.div (num.of_int val) (num.of_text "1e7")) 4)
  ]

  -- A text in a template where it may be missing
  abbrev pub text_of : Option String → String
  text_of none = "undefined"
  text_of (some text) = text

  abbrev pub percent_of : Option num.Num → String
  percent_of none = "NaN"
  percent_of (some impact) = to_fixed (num.mul impact (num.of_text "100")) 2

  abbrev pub details_of : SwapForm → Quote num Route → String → List (String × String)
  details_of f q least =
      ("You Pay", f.amount_in ++ " " ++ f.token_in_symbol)
      ∷ ("You Receive", text_of q.amount_out ++ " " ++ f.token_out_symbol)
      ∷ ("Price Impact", percent_of q.price_impact ++ "%")
      ∷ ("Minimum Received", least ++ " " ++ f.token_out_symbol)
      ∷ []

  -- The modal with the details, where the least amount is known
  abbrev pub open_review : Quote num Route → Result String → SwapForm → Result SwapForm
  open_review q (err e) f = err e
  open_review q (ok least) f =
      ok record f { tx_details = details_of f q least; tx_step = review; tx_modal_open = true }

  abbrev pub review_quote : Option (Quote num Route) → SwapForm → Result SwapForm
  review_quote none f = ok f
  review_quote (some q) f = open_review q (min_amount_out_formatted f) f

  -- `executeSwap`: nothing is set where it throws.
  unfoldable pub execute_swap : SwapForm → Result SwapForm
  execute_swap f = review_quote f.store.state.quote f

  -- `confirmSwap` up to the wallet's answer, and from it on, with the random text of the hash
  unfoldable pub start_signing : SwapForm → SwapForm
  start_signing f = record f { tx_step = signing }

  unfoldable pub finish_signing : String → Result String → SwapForm → SwapForm
  finish_signing random (ok signed) f =
      let sent = send reset_swap record f { tx_step = submitted; tx_hash = "0x" ++ random } in
      record sent { amount_in = "" }
  finish_signing random (err e) f = record f { tx_step = failed; tx_error = message e }

  unfoldable pub confirm_swap : String → Result String → SwapForm → SwapForm
  confirm_swap random signed f = finish_signing random signed (start_signing f)

  unfoldable pub retry_swap : String → Result String → SwapForm → SwapForm
  retry_swap random signed f = confirm_swap random signed record f { tx_step = signing }
