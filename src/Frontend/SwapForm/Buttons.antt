-- ===== src/Frontend/SwapForm/Buttons.antt =====
-- The buttons of the swap page that reverse the tokens and that confirm a swap.
use soro_pool.Base.{
  ℕ, String, ◌≡◌, refl, ap, ◌∙◌, Bool, true, false, Bool-cases, inl, inr, some, Error, no_wallet,
}
use soro_pool.Frontend.SwapForm.{
  SwapForm, failed, shown_request, ask_where, reverse_tokens, start_signing, finish_signing,
  confirm_swap,
}
use soro_pool.Frontend.SwapStore.{swap_reducer, incomplete, ask, dispatch}
use soro_pool.Frontend.Wallet.{Wallets, WalletState, sign_transaction}
use soro_pool.Frontend.Wallet.Reached.{Reached, sign_transaction-no_wallet}
use soro_pool.Js.Number.{JsNumber}
use text.Mathlib.Text.{◌==◌}

module _ (num : JsNumber) (Route : Type 0) (to_fixed : num.Num → ℕ → String)
    (message : Error → String) where
  -- The form of the page
  abbrev pub Form : Type 0
  Form = SwapForm num Route to_fixed message

  -- The form shows these tokens and this amount, and the store has the tokens.
  abbrev pub Pair : Form → String → String → String → Type 0
  Pair f a b amount =
      (f.token_in_symbol ≡ a)
      × (f.token_out_symbol ≡ b)
      × (f.amount_in ≡ amount)
      × (f.store.state.token_in ≡ some a)
      × (f.store.state.token_out ≡ some b)

  ask-Pair :
      (skip : Bool) (f : Form) (a b amount : String)
      → Pair f a b amount
      → Pair (ask_where num Route to_fixed message skip f) a b amount
  unfolding dispatch ask swap_reducer
  ask-Pair true f a b amount h = h
  ask-Pair false f a b amount h =
      elim (Bool-cases (incomplete num Route (shown_request num Route to_fixed message f))) [
        | inl some_empty ↦ rw some_empty h
        | inr complete ↦ rw complete h
      ]

  reverse-Pair :
      (f : Form)
      → Pair
          (reverse_tokens num Route to_fixed message f)
          f.token_out_symbol
          f.token_in_symbol
          f.amount_in
  unfolding reverse_tokens dispatch swap_reducer
  reverse-Pair f = ask-Pair (f.amount_in == "") _ _ _ _ (refl, refl, refl, refl, refl)

  -- Reversing the tokens twice shows the first pair and the amount again, and the store then has that pair,
  -- whatever it had.
  pub reverse_tokens-reverse_tokens :
      (f : Form)
      → Pair
          (reverse_tokens num Route to_fixed message (reverse_tokens num Route to_fixed message f))
          f.token_in_symbol
          f.token_out_symbol
          f.amount_in
  reverse_tokens-reverse_tokens f =
      let (e_in, e_out, e_amount, _, _) = reverse-Pair f in
      let (a, b, c, d, e) = reverse-Pair (reverse_tokens num Route to_fixed message f) in
      (a ∙ e_out, b ∙ e_in, c ∙ e_amount, d ∙ ap some e_out, e ∙ ap some e_in)

  -- Where the wallet service is in a state that it reaches and is not connected, a swap that is confirmed
  -- ends in the step of the error, with the message that no wallet is connected, and leaves the
  -- store, the amount and the tokens as they were.
  pub confirm_swap-no_wallet :
      (w : Wallets) (s : WalletState) (xdr random : String) (f : Form)
      → Reached s
      → s.is_connected ≡ false
      → confirm_swap num Route to_fixed message random (sign_transaction w s xdr) f
        ≡ record f { tx_step = failed; tx_error = message no_wallet }
  unfolding confirm_swap start_signing finish_signing
  confirm_swap-no_wallet w s xdr random f reached off =
      rw (sign_transaction-no_wallet w s xdr reached off) refl
