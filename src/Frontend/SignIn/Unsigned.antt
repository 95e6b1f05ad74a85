-- ===== src/Frontend/SignIn/Unsigned.antt =====
-- What signing in from the page comes to.
use soro_pool.Base.{
  String, ◌≡◌, refl, false, Bool-cases, inl, inr, Option, none, some, Error, Result, ok, err,
}
use soro_pool.Accounts.Auth.{JwtService, Keypairs, verify_signature, verify}
use soro_pool.Frontend.SignIn.{
  signed_out, SignIn, idle, connecting, challenging, signing, verifying, AuthPage, dispatch_auth,
  or_no_token, map_result, challenge_reply, on_address, on_connected, on_challenge, on_signed,
  verify_body, jwt_of, on_verified, AuthStep, dispatches_connect, dispatches_disconnect, connects,
  connects_late, challenges, signs, verifies, has_text, Request, api_interceptor,
}
use soro_pool.Frontend.Wallet.{Wallets, initial, connect, sign_transaction}
use soro_pool.Js.Text.{starts_with}
use text.Mathlib.Text.{◌==◌}

abbrev pub opened : AuthPage
opened = record { auth = signed_out; wallet = initial; sign_in = idle }

-- A buffer of a missing message throws.
abbrev pub NeedsMessage : Keypairs → Type 0
NeedsMessage keys =
    (wallet signature : String) → (e : Error) × (keys.verify_signed wallet signature none ≡ err e)

-- The page has no token that a request would carry.
abbrev Tokenless : AuthPage → Type 0
Tokenless p = has_text p.auth.jwt_token ≡ false

address-Tokenless :
    (address : Option String) (p : AuthPage) → Tokenless p → Tokenless (on_address address p)
unfolding dispatch_auth
address-Tokenless none p h = refl
address-Tokenless (some address) p h = elim (Bool-cases (address == "")) [
  | inl empty ↦ rw empty refl
  | inr full ↦ rw full h
]

connected-Tokenless :
    (sign_in : SignIn) (w : Wallets) (p : AuthPage)
    → Tokenless p
    → Tokenless (on_connected sign_in w p)
unfolding on_connected
connected-Tokenless connecting w p h =
    address-Tokenless (connect w p.wallet).0 (record p { wallet = (connect w p.wallet).1 }) h
connected-Tokenless idle w p h = h
connected-Tokenless (challenging address) w p h = h
connected-Tokenless (signing address nonce) w p h = h
connected-Tokenless (verifying address signed_xdr) w p h = h

or_no_token-Tokenless :
    {A : Type 0} (next : A → SignIn) (reply : Result A) (p : AuthPage)
    → Tokenless p
    → Tokenless (or_no_token (map_result next reply) p)
unfolding dispatch_auth
or_no_token-Tokenless next (ok value) p h = h
or_no_token-Tokenless next (err e) p h = refl

challenge-Tokenless :
    (sign_in : SignIn) (network : Result (Unit {0})) (nonce : String) (p : AuthPage)
    → Tokenless p
    → Tokenless (on_challenge sign_in network nonce p)
unfolding on_challenge
challenge-Tokenless (challenging address) network nonce p h =
    or_no_token-Tokenless (signing address) (challenge_reply network nonce address) p h
challenge-Tokenless idle network nonce p h = h
challenge-Tokenless connecting network nonce p h = h
challenge-Tokenless (signing address old) network nonce p h = h
challenge-Tokenless (verifying address signed_xdr) network nonce p h = h

signed-Tokenless :
    (sign_in : SignIn) (w : Wallets) (p : AuthPage)
    → Tokenless p
    → Tokenless (on_signed sign_in w p)
unfolding on_signed
signed-Tokenless (signing address nonce) w p h =
    or_no_token-Tokenless (verifying address) (sign_transaction w p.wallet nonce) p h
signed-Tokenless idle w p h = h
signed-Tokenless connecting w p h = h
signed-Tokenless (challenging address) w p h = h
signed-Tokenless (verifying address signed_xdr) w p h = h

module _ (keys : Keypairs) (jwt : JwtService) where
  jwt_of-verify :
      NeedsMessage keys
      → (network : Result (Unit {0})) (address signed_xdr : String)
      → has_text (jwt_of network (verify keys jwt (verify_body address signed_xdr))) ≡ false
  unfolding verify_signature
  jwt_of-verify needs (ok done) address signed_xdr =
      let (e, throws) = needs address signed_xdr in rw throws refl
  jwt_of-verify needs (err e) address signed_xdr = refl

  verified-Tokenless :
      NeedsMessage keys
      → (sign_in : SignIn) (network : Result (Unit {0})) (p : AuthPage) → Tokenless p
      → Tokenless (on_verified keys jwt sign_in network p)
  unfolding on_verified dispatch_auth
  verified-Tokenless needs (verifying address signed_xdr) network p h =
      jwt_of-verify needs network address signed_xdr
  verified-Tokenless needs idle network p h = h
  verified-Tokenless needs connecting network p h = h
  verified-Tokenless needs (challenging address) network p h = h
  verified-Tokenless needs (signing address nonce) network p h = h

  -- The states that the page comes to from the first one.
  pub data AuthReached : AuthPage → Type 0 where
    opens : AuthReached opened
    goes_on : {p q : AuthPage} → AuthReached p → AuthStep keys jwt p q → AuthReached q

  step-Tokenless :
      NeedsMessage keys → (p q : AuthPage) → AuthStep keys jwt p q → Tokenless p → Tokenless q
  unfolding dispatch_auth
  step-Tokenless needs p _ dispatches_connect h = h
  step-Tokenless needs p _ dispatches_disconnect h = refl
  step-Tokenless needs p _ (connects w) h = connected-Tokenless p.sign_in w p h
  step-Tokenless needs p _ (connects_late w) h = h
  step-Tokenless needs p _ (challenges network nonce) h =
      challenge-Tokenless p.sign_in network nonce p h
  step-Tokenless needs p _ (signs w) h = signed-Tokenless p.sign_in w p h
  step-Tokenless needs p _ (verifies network) h = verified-Tokenless needs p.sign_in network p h

  reached-Tokenless : NeedsMessage keys → (p : AuthPage) → AuthReached p → Tokenless p
  reached-Tokenless needs _ opens = refl
  reached-Tokenless needs _ (goes_on {p} {q} before step) =
      step-Tokenless needs p q step (reached-Tokenless needs p before)

  -- Whatever the wallets and the network answer, and in whatever order the parts of sign-ins, of
  -- disconnecting and of late replies of wallets come: where verifying a signature of a missing message
  -- throws, no sign-in from the page gets it a token, and the interceptor sends every request on as it
  -- is, without the header of an authorization.
  pub api_interceptor-AuthReached :
      NeedsMessage keys
      → (p : AuthPage) → AuthReached p
      → (api_url : String) (req : Request) → api_interceptor api_url p.auth req ≡ req
  unfolding api_interceptor
  api_interceptor-AuthReached needs p reached api_url req =
      elim (Bool-cases (starts_with req.url api_url)) [
        | inl own ↦ rw (own, reached-Tokenless needs p reached) refl
        | inr other ↦ rw other refl
      ]
