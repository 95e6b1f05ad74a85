-- ===== src/Frontend/SignIn.antt =====
-- Signing in from the page: the store of frontend/src/app/core/store/auth, the request that
-- core/interceptors/api.interceptor.ts sends on, and the server's answer to auth/verify. Each `await` is a
-- step of its own. What a wallet and the network answer are parameters.
pub mod Unsigned
use Prim.Native.String.{◌++◌}
use soro_pool.Base.{
  String, Bool, true, false, not, Option, none, some, List, ◌∷◌, Result, ok, err, if◌then◌else◌,
}
use soro_pool.Accounts.Auth.{
  Challenge, Tokens, JwtService, Keypairs, VerifyBody, generate_challenge, verify,
}
use soro_pool.Frontend.Wallet.{WalletState, Wallets, connect, disconnect, sign_transaction}
use soro_pool.Js.Text.{starts_with}
use text.Mathlib.Text.{◌==◌}

pub record AuthState : Type 0 where
  pub wallet_address : Option String
  pub is_connected : Bool
  pub jwt_token : Option String

-- `AuthActions`; the token of `setJwt` is missing where the reply has none.
pub data AuthAction : Type 0 where
  connect_wallet disconnect_wallet : AuthAction
  set_jwt : Option String → AuthAction
  refresh_jwt : String → AuthAction

abbrev pub signed_out : AuthState
signed_out = record { wallet_address = none; is_connected = false; jwt_token = none }

-- `authReducer`
unfoldable pub auth_reducer : AuthState → AuthAction → AuthState
auth_reducer s connect_wallet = record s { is_connected = true }
auth_reducer s disconnect_wallet = signed_out
auth_reducer s (set_jwt token) = record s { jwt_token = token }
auth_reducer s (refresh_jwt token) = s

-- How far the last `connectWallet` has come: what its effect waits for.
pub data SignIn : Type 0 where
  idle connecting : SignIn
  challenging : (address : String) → SignIn
  signing : (address nonce : String) → SignIn
  verifying : (address signed_xdr : String) → SignIn

pub record AuthPage : Type 0 where
  pub auth : AuthState
  pub wallet : WalletState
  pub sign_in : SignIn

-- An action is reduced, and starts its effect; `switchMap` drops the sign-in before.
unfoldable pub dispatch_auth : AuthAction → AuthPage → AuthPage
unfolding auth_reducer
dispatch_auth connect_wallet p = record p {
  auth = auth_reducer p.auth connect_wallet;
  sign_in = connecting;
}
dispatch_auth disconnect_wallet p = record p {
  auth = auth_reducer p.auth disconnect_wallet;
  wallet = disconnect p.wallet;
}
dispatch_auth (set_jwt token) p = record p { auth = auth_reducer p.auth (set_jwt token) }
dispatch_auth (refresh_jwt token) p = record p { auth = auth_reducer p.auth (refresh_jwt token) }

-- The effect ends with this action.
abbrev pub end_with : AuthAction → AuthPage → AuthPage
end_with action p = dispatch_auth action (record p { sign_in = idle })

-- `catchError(() => of(AuthActions.setJwt({ jwtToken: '' })))`
abbrev pub or_no_token : Result SignIn → AuthPage → AuthPage
or_no_token (ok next) p = record p { sign_in = next }
or_no_token (err e) p = end_with (set_jwt (some "")) p

abbrev pub map_result : {A B : Type 0} → (A → B) → Result A → Result B
map_result f (ok a) = ok (f a)
map_result f (err e) = err e

-- `if (!address) return of(AuthActions.disconnectWallet())`
abbrev pub on_address : Option String → AuthPage → AuthPage
on_address none p = end_with disconnect_wallet p
on_address (some address) p =
    if address == ""
    then end_with disconnect_wallet p
    else record p { sign_in = challenging address }

-- `connect` has returned, in the effect that waits for it.
unfoldable pub on_connected : SignIn → Wallets → AuthPage → AuthPage
on_connected connecting w p =
    let answer = connect w p.wallet in on_address answer.0 (record p { wallet = answer.1 })
on_connected idle w p = p
on_connected (challenging address) w p = p
on_connected (signing address nonce) w p = p
on_connected (verifying address signed_xdr) w p = p

-- The reply to auth/challenge, where the network gives one.
abbrev pub challenge_reply : Result (Unit {0}) → (nonce wallet : String) → Result String
challenge_reply (ok done) nonce wallet = ok (generate_challenge nonce wallet).nonce
challenge_reply (err e) nonce wallet = err e

unfoldable pub on_challenge : SignIn → Result (Unit {0}) → String → AuthPage → AuthPage
on_challenge (challenging address) network nonce p =
    or_no_token (map_result (signing address) (challenge_reply network nonce address)) p
on_challenge idle network nonce p = p
on_challenge connecting network nonce p = p
on_challenge (signing address old) network nonce p = p
on_challenge (verifying address signed_xdr) network nonce p = p

-- `signTransaction(nonce)` has returned.
unfoldable pub on_signed : SignIn → Wallets → AuthPage → AuthPage
on_signed (signing address nonce) w p =
    or_no_token (map_result (verifying address) (sign_transaction w p.wallet nonce)) p
on_signed idle w p = p
on_signed connecting w p = p
on_signed (challenging address) w p = p
on_signed (verifying address signed_xdr) w p = p

-- The body of the request to auth/verify
abbrev pub verify_body : String → String → VerifyBody
verify_body address signed_xdr = record {
  wallet_address = address;
  signature = signed_xdr;
  message = none;
}

-- `tokens.accessToken` of the reply: what the controller throws is a reply without one.
abbrev pub access_token_of : Result Tokens → Option String
access_token_of (ok tokens) = some tokens.access_token
access_token_of (err e) = none

abbrev pub jwt_of : Result (Unit {0}) → Result Tokens → Option String
jwt_of (ok done) reply = access_token_of reply
jwt_of (err e) reply = some ""

module _ (keys : Keypairs) (jwt : JwtService) where
  -- The reply to auth/verify, where the network gives one.
  unfoldable pub on_verified : SignIn → Result (Unit {0}) → AuthPage → AuthPage
  on_verified (verifying address signed_xdr) network p =
      end_with (set_jwt (jwt_of network (verify keys jwt (verify_body address signed_xdr)))) p
  on_verified idle network p = p
  on_verified connecting network p = p
  on_verified (challenging address) network p = p
  on_verified (signing address nonce) network p = p

  -- What happens to the page. A `connect` that was dropped still runs to its end in the wallet service.
  pub data AuthStep : AuthPage → AuthPage → Type 0 where
    dispatches_connect : {p : AuthPage} → AuthStep p (dispatch_auth connect_wallet p)
    dispatches_disconnect : {p : AuthPage} → AuthStep p (dispatch_auth disconnect_wallet p)
    connects : {p : AuthPage} (w : Wallets) → AuthStep p (on_connected p.sign_in w p)
    connects_late :
        {p : AuthPage} (w : Wallets) → AuthStep p (record p { wallet = (connect w p.wallet).1 })
    challenges :
        {p : AuthPage} (network : Result (Unit {0})) (nonce : String)
        → AuthStep p (on_challenge p.sign_in network nonce p)
    signs : {p : AuthPage} (w : Wallets) → AuthStep p (on_signed p.sign_in w p)
    verifies :
        {p : AuthPage} (network : Result (Unit {0})) → AuthStep p (on_verified p.sign_in network p)

-- `token ? ... : ...`
abbrev pub has_text : Option String → Bool
has_text none = false
has_text (some text) = not (text == "")

abbrev pub text_of : Option String → String
text_of none = ""
text_of (some text) = text

-- The parts of a request that the interceptor reads and sets
pub record Request : Type 0 where
  pub url : String
  pub headers : List (String × String)

abbrev pub with_token : Option String → Request → Request
with_token token req =
    if has_text token
    then record req { headers = ("Authorization", "Bearer " ++ text_of token) ∷ req.headers }
    else req

-- `apiInterceptor`: the request that is sent on
unfoldable pub api_interceptor : String → AuthState → Request → Request
api_interceptor api_url s req =
    if starts_with req.url api_url then with_token s.jwt_token req else req
