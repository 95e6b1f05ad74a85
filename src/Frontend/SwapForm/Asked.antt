-- ===== src/Frontend/SwapForm/Asked.antt =====
-- What the swap page has asked for, in every state that it reaches.
use soro_pool.Base.{
  ℕ, String, ◌≡◌, refl, sym, ap, ◌∙◌, ◌⊎◌, Bool, true, false, Bool-cases, inl, inr, Option, none,
  some, ok-injective, Result, ok, err, Error,
}
use soro_pool.Frontend.SwapForm.{
  SelectorMode, mode_in, mode_out, SwapForm, initial_form, shown_request, ask_where, choose,
  open_review, on_amount_in_change, on_slippage_change, on_deadline_change, reverse_tokens,
  open_token_selector, on_token_select, review_quote, execute_swap, start_signing, finish_signing,
}
use soro_pool.Frontend.SwapStore.{
  QuoteRequest, Quote, Store, reset_swap, swap_reducer, ask, dispatch, answer, answer_to,
}
use soro_pool.Js.Number.{JsNumber}
use mathlib.Core.Path.{subst}
use text.Mathlib.Text.{◌==◌}

module _ (num : JsNumber) (Route : Type 0) (to_fixed : num.Num → ℕ → String)
    (message : Error → String) where
  -- The form of this page
  abbrev pub Form : Type 0
  Form = SwapForm num Route to_fixed message

  -- What can happen on the page: an input, a choice of a token that has a symbol, a button, an answer of
  -- the wallet, an answer to a request, or the wallet's answer to a signing that an earlier visit of the
  -- page has left, which resets the store.
  pub data Step : Form → Form → Type 0 where
    types :
        {f : Form} (amount : String)
        → Step f (on_amount_in_change num Route to_fixed message amount f)
    slides : {f : Form} (x : num.Num) → Step f (on_slippage_change num Route to_fixed message x f)
    sets : {f : Form} (x : num.Num) → Step f (on_deadline_change num Route to_fixed message x f)
    reverses : {f : Form} → Step f (reverse_tokens num Route to_fixed message f)
    opens :
        {f : Form} (mode : SelectorMode)
        → Step f (open_token_selector num Route to_fixed message mode f)
    selects :
        {f : Form} (symbol : String)
        → (symbol == "") ≡ false
        → Step f (on_token_select num Route to_fixed message symbol f)
    executes : {f g : Form} → execute_swap num Route to_fixed message f ≡ ok g → Step f g
    signs : {f : Form} → Step f (start_signing num Route to_fixed message f)
    signed :
        {f : Form} (random : String) (reply : Result String)
        → Step f (finish_signing num Route to_fixed message random reply f)
    answers :
        {f : Form} (reply : Result (Option (Quote num Route)))
        → Step f record f { store = answer num Route reply f.store }
    signed_before : {f : Form} → Step f record f { store = dispatch num Route reset_swap f.store }

  -- The page on the store that the application has when the page is opened
  abbrev pub opened_on : Store num Route → Form
  opened_on store = record (initial_form num Route to_fixed message) { store = store }

  -- The states of one visit of the page, whatever earlier visits have left in the store.
  pub data PageReached : Form → Type 0 where
    start : (store : Store num Route) → PageReached (opened_on store)
    next : {f g : Form} → PageReached f → Step f g → PageReached g

  -- Both tokens are chosen, and where the form has an amount, the store has it, or is reset.
  pub record Filled (f : Form) : Type 0 where
    pub in_full : (f.token_in_symbol == "") ≡ false
    pub out_full : (f.token_out_symbol == "") ≡ false
    pub same_amount :
        (f.amount_in == "") ≡ false
        → (f.store.state.amount_in ≡ f.amount_in) ⊎ (f.store.state.amount_in ≡ "")

  -- Where the form has an amount, a request that is not answered yet is the one for what the form shows.
  abbrev pub Current : Form → Type 0
  Current f =
      (r : QuoteRequest)
      → f.store.pending ≡ some r
      → (f.amount_in == "") ≡ false
      → r ≡ shown_request num Route to_fixed message f

  abbrev pub Asked : Form → Type 0
  Asked f = Filled f × Current f

  some-injective : {r x : QuoteRequest} → some x ≡ some r → r ≡ x
  some-injective e = cc

  ask_where-Asked :
      (skip : Bool) (f : Form)
      → Filled f
      → skip ≡ (f.amount_in == "")
      → Asked (ask_where num Route to_fixed message skip f)
  unfolding dispatch ask swap_reducer
  ask_where-Asked true f filled e = (filled, λ r asked full. cc)
  ask_where-Asked false f filled e =
      rw (sym e, filled.in_full, filled.out_full)
        (
          record {
            in_full = filled.in_full;
            out_full = filled.out_full;
            same_amount = filled.same_amount;
          },
          λ r asked full. some-injective asked,
        )

  types-Asked :
      (amount : String) (f : Form)
      → Filled f
      → Asked (on_amount_in_change num Route to_fixed message amount f)
  unfolding on_amount_in_change dispatch swap_reducer
  types-Asked amount f filled =
      ask_where-Asked _ _
        record {
          in_full = filled.in_full;
          out_full = filled.out_full;
          same_amount = λ full. inl refl;
        }
        (elim (Bool-cases (amount == "")) [
          | inl empty ↦ rw empty refl
          | inr full ↦ rw (full, filled.in_full, filled.out_full) refl
        ])

  reverses-Asked : (f : Form) → Filled f → Asked (reverse_tokens num Route to_fixed message f)
  unfolding reverse_tokens dispatch swap_reducer
  reverses-Asked f filled =
      ask_where-Asked _ _
        record {
          in_full = filled.out_full;
          out_full = filled.in_full;
          same_amount = filled.same_amount;
        }
        refl

  choose-Filled :
      (mode : SelectorMode) (symbol : String) (f : Form)
      → Filled f
      → (symbol == "") ≡ false
      → Filled (choose num Route to_fixed message mode symbol f)
  unfolding dispatch swap_reducer
  choose-Filled mode_in symbol f filled full = record {
    in_full = full;
    out_full = filled.out_full;
    same_amount = filled.same_amount;
  }
  choose-Filled mode_out symbol f filled full = record {
    in_full = filled.in_full;
    out_full = full;
    same_amount = filled.same_amount;
  }

  choose-amount :
      (mode : SelectorMode) (symbol : String) (f : Form)
      → (choose num Route to_fixed message mode symbol f).amount_in ≡ f.amount_in
  choose-amount mode_in symbol f = refl
  choose-amount mode_out symbol f = refl

  -- A step that leaves the texts, the amount of the store and the request as they are.
  still :
      (f g : Form)
      → Asked f
      → g.token_in_symbol ≡ f.token_in_symbol
      → g.token_out_symbol ≡ f.token_out_symbol
      → g.amount_in ≡ f.amount_in
      → g.store ≡ f.store
      → Asked g
  still f g (filled, current) e_in e_out e_amount e_store = (
    record {
      in_full = rw e_in filled.in_full;
      out_full = rw e_out filled.out_full;
      same_amount = rw (e_store, e_amount) filled.same_amount;
    },
    λ r asked full.
        rw (e_in, e_out, e_amount)
          (current r (sym (ap (λ s. s.pending) e_store) ∙ asked)
            (ap (λ a. a == "") (sym e_amount) ∙ full)),
  )

  open-Asked :
      (f g : Form) (q : Quote num Route) (least : Result String)
      → Asked f
      → open_review num Route to_fixed message q least f ≡ ok g
      → Asked g
  open-Asked f g q (err thrown) h e = cc
  open-Asked f g q (ok least) h e = subst Asked (ok-injective e) (still f _ h refl refl refl refl)

  executes-Asked :
      (f g : Form) (quote : Option (Quote num Route))
      → Asked f
      → review_quote num Route to_fixed message quote f ≡ ok g
      → Asked g
  executes-Asked f g none h e = subst Asked (ok-injective e) h
  executes-Asked f g (some q) h e = open-Asked f g q _ h e

  signed-Asked :
      (f : Form) (random : String) (reply : Result String)
      → Asked f
      → Asked (finish_signing num Route to_fixed message random reply f)
  unfolding finish_signing dispatch swap_reducer
  signed-Asked f random (ok xdr) (filled, current) = (
    record { in_full = filled.in_full; out_full = filled.out_full; same_amount = λ full. inr refl },
    λ r asked full. cc,
  )
  signed-Asked f random (err e) h = still f _ h refl refl refl refl

  -- An answer leaves no request behind, and does not touch the amount.
  answers-Asked :
      (f : Form) (pending : Option QuoteRequest) (reply : Result (Option (Quote num Route)))
      → f.store.pending ≡ pending
      → Asked f
      → Asked record f { store = answer_to num Route pending reply f.store }
  unfolding swap_reducer
  answers-Asked f none reply e h = still f _ h refl refl refl refl
  answers-Asked f (some request) reply e (filled, current) = (
    record {
      in_full = filled.in_full;
      out_full = filled.out_full;
      same_amount = filled.same_amount;
    },
    λ r asked full. cc,
  )

  step-Asked : {f g : Form} → Step f g → Asked f → Asked g
  unfolding on_slippage_change on_deadline_change open_token_selector on_token_select execute_swap
      start_signing dispatch swap_reducer answer
  step-Asked (types {f} amount) (filled, _) = types-Asked amount f filled
  step-Asked (slides {f} x) (filled, current) = (
    record {
      in_full = filled.in_full;
      out_full = filled.out_full;
      same_amount = filled.same_amount;
    },
    current,
  )
  step-Asked (sets {f} x) (filled, current) = (
    record {
      in_full = filled.in_full;
      out_full = filled.out_full;
      same_amount = filled.same_amount;
    },
    current,
  )
  step-Asked (reverses {f}) (filled, _) = reverses-Asked f filled
  step-Asked (opens {f} mode) h = still f _ h refl refl refl refl
  step-Asked (selects {f} symbol full) (filled, _) =
      ask_where-Asked _ _ (choose-Filled f.selector_mode symbol f filled full)
        (ap (λ a. a == "") (sym (choose-amount f.selector_mode symbol f)))
  step-Asked (executes {f} {g} e) h = executes-Asked f g _ h e
  step-Asked (signs {f}) h = still f _ h refl refl refl refl
  step-Asked (signed {f} random reply) h = signed-Asked f random reply h
  step-Asked (answers {f} reply) h = answers-Asked f f.store.pending reply refl h
  step-Asked (signed_before {f}) (filled, current) = (
    record { in_full = filled.in_full; out_full = filled.out_full; same_amount = λ full. inr refl },
    current,
  )

  empty_amount : {A : Type 0} → ("" == "") ≡ false → A
  empty_amount e = cc

  -- In every state that a visit of the page reaches, from whatever earlier visits have left in the store, by
  -- inputs, buttons, answers of the wallet and of the server in any order, both tokens are chosen, and
  -- where an amount is shown, the store has this amount (or the empty one, where it has been reset), and
  -- a request that is not answered yet is the one for the tokens and the amount that are shown.
  pub PageReached-Asked : (f : Form) → PageReached f → Asked f
  PageReached-Asked _ (start store) = (
    record { in_full = refl; out_full = refl; same_amount = empty_amount },
    λ r asked full. empty_amount full,
  )
  PageReached-Asked _ (next {f} before step) = step-Asked step (PageReached-Asked f before)
