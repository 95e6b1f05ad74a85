-- ===== src/Accounts/Auth.antt =====
-- backend/src/modules/auth/auth.service.ts and auth.controller.ts: signing in with a wallet's signature. The keys of the Stellar
-- SDK and the JWT service are third-party, and parameters.
pub mod Signed
use Prim.Native.String.{◌++◌}
use soro_pool.Base.{
  String, Bool, true, false, Option, none, some, Result, ok, err, unauthorized, if◌then◌else◌,
  ◌>>=◌,
}
use text.Mathlib.Text.{◌==◌}

-- What a token says: `sub`, and `type` where it has one
pub record Claims : Type 0 where
  pub sub : String
  pub type : Option String

-- `jwtService.sign` without and with options, and `jwtService.verify`
pub record JwtService : Type 0 where
  pub sign : Claims → Result String
  pub sign_for : Claims → (expires_in : String) → Result String
  pub verify : String → Result Claims

-- `Keypair.fromPublicKey(wallet).verify(message, signature)`, with the texts and the buffers that they are
-- made; the message may be missing.
pub record Keypairs : Type 0 where
  pub verify_signed : (wallet signature : String) (message : Option String) → Result Bool

pub record Challenge : Type 0 where
  pub nonce : String
  pub message : String

pub record Tokens : Type 0 where
  pub access_token : String
  pub refresh_token : String

-- `generateChallenge`, with the random nonce
abbrev pub generate_challenge : String → String → Challenge
generate_challenge nonce wallet = record {
  nonce = nonce;
  message = "SoroPool Sign-In\nWallet: " ++ wallet ++ "\nNonce: " ++ nonce;
}

abbrev pub access_claims : String → Claims
access_claims wallet = record { sub = wallet; type = none }

abbrev pub refresh_claims : String → Claims
refresh_claims wallet = record { sub = wallet; type = some "refresh" }

-- The `try` block: a signature that is not valid and a throw end alike.
abbrev pub accept : Result Bool → Result (Unit {0})
accept (ok true) = ok tt
accept (ok false) = err unauthorized
accept (err e) = err unauthorized

-- `payload.type === 'refresh'`
abbrev pub is_refresh : Claims → Bool
is_refresh claims = elim claims.type [ none ↦ false | some type ↦ type == "refresh" ]

module _ (keys : Keypairs) (jwt : JwtService) where
  -- `verifySignature`
  unfoldable pub verify_signature : String → String → Option String → Result Tokens
  verify_signature wallet signature message = do
    accepted ← accept (keys.verify_signed wallet signature message)
    access ← jwt.sign (access_claims wallet)
    refresh ← jwt.sign_for (refresh_claims wallet) "7d"
    ok record { access_token = access; refresh_token = refresh }

  -- `refreshToken`
  unfoldable pub refresh_access : String → Result String
  refresh_access token = do
    claims ← jwt.verify token
    if is_refresh claims then jwt.sign (access_claims claims.sub) else err unauthorized

-- The body of a request to auth/verify; what the request leaves out is missing.
pub record VerifyBody : Type 0 where
  pub wallet_address : String
  pub signature : String
  pub message : Option String

-- `verify` of the controller
abbrev pub verify : Keypairs → JwtService → VerifyBody → Result Tokens
verify keys jwt body = verify_signature keys jwt body.wallet_address body.signature body.message
