-- ===== src/Tests/Pages.antt =====
-- Runs of the wallet service and of the swap page.
use soro_pool.Base.{ℕ, String, ◌≡◌, refl, true, false, none, some, ok, err, Error, not_found}
use soro_pool.Base.Int.{ℤ, pos, ◌+ℤ◌, ◌-ℤ◌, ◌*ℤ◌, ◌/ℤ◌, quot}
use soro_pool.Frontend.AmmMath.{page_amount_out, page_amount_in, page_lp_minted}
use soro_pool.Frontend.AmmMath.Agrees.{page_amounts_agree}
use soro_pool.Math.ConstantProduct.{amount_out_big, amount_in_big, later_mint_big, lp_minted_big}
use soro_pool.Frontend.SwapForm.{
  failed, initial_form, on_amount_in_change, reverse_tokens, confirm_swap,
}
use soro_pool.Frontend.SwapForm.Asked.{
  Form, opened_on, PageReached, types, reverses, Asked, PageReached-Asked,
}
use soro_pool.Frontend.SwapForm.Buttons.{
  Pair, reverse_tokens-reverse_tokens, confirm_swap-no_wallet,
}
use soro_pool.Frontend.SwapStore.{Store, initial_state, dispatch, ask, swap_reducer}
use soro_pool.Frontend.Wallet.{
  Wallets, initial, freighter, albedo, connected_to, connect, try_freighter, try_albedo, try_xbull,
  sign_transaction,
}
use soro_pool.Frontend.Wallet.Reached.{Reached, InStep, connects, Reached-InStep}
use soro_pool.Tests.Fixtures.{ints}

-- Freighter is not connected, Albedo has a key.
abbrev only_albedo : Wallets
only_albedo = record {
  freighter_connected = ok false;
  freighter_key = err not_found;
  albedo_key = some (ok (some "GA"));
  xbull_key = none;
  freighter_sign = λ xdr. err not_found;
  albedo_tx = none;
  xbull_sign = none;
}

-- Freighter is connected and has an empty key.
abbrev empty_freighter : Wallets
empty_freighter = record only_albedo {
  freighter_connected = ok true;
  freighter_key = ok "";
  albedo_key = none;
}

albedo_run : connect only_albedo initial ≡ (some "GA", connected_to albedo "GA")
unfolding connect try_freighter try_albedo
albedo_run = refl

-- The page shows a connection, and the caller is told that there is none.
empty_run : connect empty_freighter initial ≡ (none, connected_to freighter "")
unfolding connect try_freighter try_albedo try_xbull
empty_run = refl

abbrev once_connected : Reached (connect only_albedo initial).1
once_connected = Reached.next Reached.start (connects only_albedo)

Reached-InStep_example : InStep (connect only_albedo initial).1
Reached-InStep_example = Reached-InStep (connect only_albedo initial).1 once_connected

abbrev to_fixed : ℤ → ℕ → String
to_fixed x n = ""

abbrev message : Error → String
message e = "message"

-- An earlier visit has left its amount in the store.
abbrev left : Store ints (Unit {0})
left = record { state = record (initial_state ints (Unit {0})) { amount_in = "7" }; pending = none }

abbrev opened : Form ints (Unit {0}) to_fixed message
opened = opened_on ints (Unit {0}) to_fixed message left

abbrev typed : Form ints (Unit {0}) to_fixed message
typed = on_amount_in_change ints (Unit {0}) to_fixed message "12" opened

abbrev turned : Form ints (Unit {0}) to_fixed message
turned = reverse_tokens ints (Unit {0}) to_fixed message typed

-- An amount is typed, and the tokens are reversed: the request is for the second pair.
turned_request :
    turned.store.pending ≡ some record { token_in = "USDC"; token_out = "XLM"; amount_in = "12" }
unfolding on_amount_in_change reverse_tokens dispatch ask swap_reducer
turned_request = refl

PageReached-Asked_example : Asked ints (Unit {0}) to_fixed message turned
PageReached-Asked_example =
    PageReached-Asked ints (Unit {0}) to_fixed message turned
      (PageReached.next (PageReached.next (PageReached.start left) (types "12")) reverses)

reverse_tokens-reverse_tokens_example :
    Pair ints
      (Unit {0})
      to_fixed
      message
      (reverse_tokens ints (Unit {0}) to_fixed message (
        reverse_tokens ints
          (Unit {0})
          to_fixed
          message
          (initial_form ints (Unit {0}) to_fixed message)))
      "XLM"
      "USDC"
      ""
reverse_tokens-reverse_tokens_example =
    reverse_tokens-reverse_tokens ints (Unit {0}) to_fixed message
      (initial_form ints (Unit {0}) to_fixed message)

confirm_swap-no_wallet_example :
    confirm_swap ints
      (Unit {0})
      to_fixed
      message
      "ab"
      (sign_transaction only_albedo initial "xdr")
      (initial_form ints (Unit {0}) to_fixed message)
    ≡ record (initial_form ints (Unit {0}) to_fixed message) {
      tx_step = failed;
      tx_error = "message";
    }
confirm_swap-no_wallet_example =
    confirm_swap-no_wallet ints (Unit {0}) to_fixed message only_albedo initial "xdr" "ab"
      (initial_form ints (Unit {0}) to_fixed message) Reached.start refl

-- The same amounts on the server and on the page.
out_run : amount_out_big (pos 100) (pos 1000) (pos 1000) (pos 30) ≡ ok (pos 90)
unfolding amount_out_big ◌+ℤ◌ ◌-ℤ◌ ◌*ℤ◌ ◌/ℤ◌ quot
out_run = refl

in_run : amount_in_big (pos 90) (pos 1000) (pos 1000) (pos 30) ≡ ok (pos 100)
unfolding amount_in_big ◌+ℤ◌ ◌-ℤ◌ ◌*ℤ◌ ◌/ℤ◌ quot
in_run = refl

lp_run : lp_minted_big (pos 50) (pos 60) (pos 1000) (pos 1000) (pos 1000) ≡ ok (pos 50)
unfolding lp_minted_big later_mint_big ◌+ℤ◌ ◌-ℤ◌ ◌*ℤ◌ ◌/ℤ◌ quot
lp_run = refl

page_amounts_agree_example :
    (page_amount_out (pos 100) (pos 1000) (pos 1000) (pos 30) ≡ ok (pos 90))
    × (page_amount_in (pos 90) (pos 1000) (pos 1000) (pos 30) ≡ ok (pos 100))
    × (page_lp_minted (pos 50) (pos 60) (pos 1000) (pos 1000) (pos 1000) ≡ ok (pos 50))
page_amounts_agree_example =
    page_amounts_agree (pos 90) (pos 100) (pos 50) (pos 60) (pos 1000) (pos 1000) (pos 30)
      (pos 1000) (pos 90) (pos 100) (pos 50) out_run in_run lp_run
