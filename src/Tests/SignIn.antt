-- ===== src/Tests/SignIn.antt =====
-- A sign-in from the page.
use soro_pool.Base.{
  String, ◌≡◌, refl, Bool, true, Option, none, some, [], Result, ok, err, type_error,
}
use soro_pool.Accounts.Auth.{JwtService, Keypairs, access_claims, verify_signature}
use soro_pool.Frontend.SignIn.{
  AuthPage, connect_wallet, dispatch_auth, on_connected, on_challenge, on_signed, on_verified, idle,
  signed_out, dispatches_connect, connects, challenges, signs, verifies, api_interceptor,
}
use soro_pool.Frontend.SignIn.Unsigned.{
  NeedsMessage, AuthReached, opened, opens, goes_on, api_interceptor-AuthReached,
}
use soro_pool.Frontend.Wallet.View.{view, first_key, connect-first_key}
use soro_pool.Frontend.Wallet.{
  Wallets, freighter, connected_to, connect, sign_transaction, sign_with, try_freighter,
}

-- Freighter is there, and signs anything.
abbrev wallets : Wallets
wallets = record {
  freighter_connected = ok true;
  freighter_key = ok "GA";
  albedo_key = none;
  xbull_key = none;
  freighter_sign = λ xdr. ok xdr;
  albedo_tx = none;
  xbull_sign = none;
}

-- Every signature of a message is valid.
abbrev check : Option String → Result (Unit {0})
check none = err type_error
check (some message) = ok tt

abbrev verified : Result (Unit {0}) → Result Bool
verified (ok done) = ok true
verified (err e) = err e

abbrev keys : Keypairs
keys = record { verify_signed = λ wallet signature message. verified (check message) }

abbrev jwt : JwtService
jwt = record {
  sign = λ claims. ok "token";
  sign_for = λ claims expires_in. ok "refresh";
  verify = λ token. ok (access_claims "GA");
}

needs : NeedsMessage keys
needs wallet signature = (type_error, refl)

abbrev ended : AuthPage
ended = record {
  auth = record signed_out { is_connected = true };
  wallet = connected_to freighter "GA";
  sign_in = idle;
}

-- The sign-in, part by part.
abbrev at_connecting : AuthPage
at_connecting = dispatch_auth connect_wallet opened

abbrev at_challenging : AuthPage
at_challenging = on_connected at_connecting.sign_in wallets at_connecting

abbrev at_signing : AuthPage
at_signing = on_challenge at_challenging.sign_in (ok tt) "n" at_challenging

abbrev at_verifying : AuthPage
at_verifying = on_signed at_signing.sign_in wallets at_signing

abbrev at_end : AuthPage
at_end = on_verified keys jwt at_verifying.sign_in (ok tt) at_verifying

sign_in_run : at_end ≡ ended
unfolding dispatch_auth on_connected on_challenge on_signed on_verified connect sign_transaction
    sign_with try_freighter verify_signature
sign_in_run = refl

reached : AuthReached keys jwt at_end
reached =
    goes_on
      (goes_on
        (goes_on (goes_on (goes_on opens dispatches_connect) (connects wallets))
          (challenges (ok tt) "n"))
        (signs wallets))
      (verifies (ok tt))

api_interceptor-AuthReached_example :
    api_interceptor "http" at_end.auth record { url = "http:x"; headers = [] }
    ≡ record { url = "http:x"; headers = [] }
api_interceptor-AuthReached_example =
    api_interceptor-AuthReached keys jwt needs at_end reached "http"
      record { url = "http:x"; headers = [] }

connect-first_key_example :
    ((connect wallets opened.wallet).0 ≡ some "GA")
    × (view (connect wallets opened.wallet).1 ≡ some (freighter, "GA"))
unfolding first_key
connect-first_key_example = connect-first_key wallets opened.wallet
