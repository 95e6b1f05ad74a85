-- ===== src/Accounts/Auth/Signed.antt =====
-- What the tokens of a sign-in are good for.
use soro_pool.Base.{
  String, ◌≡◌, Option, refl, sym, ap, Bool, true, false, Result, ok, err, unauthorized, >>=-eq-ok,
  ok-injective,
}
use soro_pool.Accounts.Auth.{
  Claims, JwtService, Keypairs, Tokens, access_claims, refresh_claims, accept, verify_signature,
  refresh_access,
}

-- A token that was signed says what was signed, while it has not expired.
pub record SignsTruly (jwt : JwtService) : Type 0 where
  pub verify_sign :
      (claims : Claims) {token : String} → jwt.sign claims ≡ ok token → jwt.verify token ≡ ok claims
  pub verify_sign_for :
      (claims : Claims) (expires_in : String) {token : String}
      → jwt.sign_for claims expires_in ≡ ok token
      → jwt.verify token ≡ ok claims

accepted_valid : (r : Result Bool) {u : Unit {0}} → accept r ≡ ok u → r ≡ ok true
accepted_valid (ok true) e = refl
accepted_valid (ok false) e = cc
accepted_valid (err thrown) e = cc

module _ (keys : Keypairs) (jwt : JwtService) (truly : SignsTruly jwt) where
  -- A sign-in that returns tokens has found the signature of the wallet valid; its refresh token then gets
  -- what the signing of a new access token for the same wallet gives, and its access token is
  -- refused as a refresh token.
  pub refresh_access-verify_signature :
      (wallet signature : String) (message : Option String) (tokens : Tokens)
      → verify_signature keys jwt wallet signature message ≡ ok tokens
      → (keys.verify_signed wallet signature message ≡ ok true)
        × (refresh_access keys jwt tokens.refresh_token ≡ jwt.sign (access_claims wallet))
        × (refresh_access keys jwt tokens.access_token ≡ err unauthorized)
  unfolding verify_signature refresh_access
  refresh_access-verify_signature wallet signature message tokens e =
      let (u, is_valid, e1) =
        >>=-eq-ok (accept (keys.verify_signed wallet signature message)) _ e in
      let (access, is_access, e2) = >>=-eq-ok (jwt.sign (access_claims wallet)) _ e1 in
      let (refresh, is_refresh_token, e3) =
        >>=-eq-ok (jwt.sign_for (refresh_claims wallet) "7d") _ e2 in
      let same = ok-injective e3 in
      let read_refresh = truly.verify_sign_for (refresh_claims wallet) "7d" is_refresh_token in
      let read_access = truly.verify_sign (access_claims wallet) is_access in
      (
        accepted_valid (keys.verify_signed wallet signature message) is_valid,
        rw (sym (ap (λ t. t.refresh_token) same), read_refresh) refl,
        rw (sym (ap (λ t. t.access_token) same), read_access) refl,
      )
