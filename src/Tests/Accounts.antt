-- ===== src/Tests/Accounts.antt =====
-- Runs of signing in and of the tokens.
use soro_pool.Base.{
  String, ◌≡◌, refl, sym, ap, ◌∙◌, Bool, true, false, Option, none, some, Result, ok, err,
  unauthorized, not_found, ◌==◌, inl, inr, ◌⊎◌, ok-injective, if◌then◌else◌,
}
use soro_pool.Accounts.Auth.{
  Claims, JwtService, Keypairs, Tokens, access_claims, refresh_claims, verify_signature,
  refresh_access,
}
use soro_pool.Accounts.Auth.Signed.{SignsTruly, refresh_access-verify_signature}
use soro_pool.Accounts.Tokens.{
  Token, TokenSources, fallback_token, find_or_create, create_token, create_from_chain,
}
use soro_pool.Accounts.Tokens.Created.{Repository, find_or_create-once}
use soro_pool.Tests.Tables.{text_itself}
use Prim.Native.Char.{code}
use soro_pool.Routing.Action.{result_of, state_of}
use text.Mathlib.Text as T
use text.Mathlib.TextEquality.{eq_iff}

one_of :
    (b : Bool) (m : Result String) {token : String}
    → (if b then m else err not_found) ≡ ok token
    → ((b ≡ true) × (m ≡ ok token)) ⊎ (◌≡◌ {A = Result String} (err not_found) (ok token))
one_of true m e = inl (refl, e)
one_of false m e = inr e

-- Tokens in the clear: a letter before the wallet.
abbrev sign_text : Claims → Option String → Result String
sign_text claims none = ok (String.◌∷◌ "a" claims.sub)
sign_text claims (some type) = err not_found

abbrev sign_refresh : Claims → Option String → Result String
sign_refresh claims none = err not_found
sign_refresh claims (some type) =
    if T.◌==◌ type "refresh" then ok (String.◌∷◌ "r" claims.sub) else err not_found

abbrev read_text : String → Result Claims
read_text String.[] = err unauthorized
read_text (String.◌∷◌ c s) =
    if code c == b'a'
    then ok (access_claims s)
    else if code c == b'r'
    then ok (refresh_claims s)
    else err unauthorized

abbrev clear : JwtService
clear = record {
  sign = λ claims. sign_text claims claims.type;
  sign_for = λ claims expires_in. sign_refresh claims claims.type;
  verify = read_text;
}

reads_access :
    (sub : String) (type : Option String) {token : String}
    → sign_text record { sub = sub; type = type } type ≡ ok token
    → read_text token ≡ ok record { sub = sub; type = type }
reads_access sub none e = rw (sym (ok-injective e)) refl
reads_access sub (some type) e = cc

reads_refresh :
    (sub : String) (type : Option String) {token : String}
    → sign_refresh record { sub = sub; type = type } type ≡ ok token
    → read_text token ≡ ok record { sub = sub; type = type }
reads_refresh sub none e = cc
reads_refresh sub (some type) e = elim (one_of (T.◌==◌ type "refresh") _ e) [
  | inl (same, e1) ↦ rw (sym (ok-injective e1), (eq_iff type "refresh").0 same) refl
  | inr thrown ↦ cc
]

clear_truly : SignsTruly clear
clear_truly = record {
  verify_sign = λ claims e. reads_access claims.sub claims.type e;
  verify_sign_for = λ claims expires_in e. reads_refresh claims.sub claims.type e;
}

abbrev everyone : Keypairs
everyone = record { verify_signed = λ wallet signature message. ok true }

abbrev signed_in : Tokens
signed_in = record { access_token = "aGA"; refresh_token = "rGA" }

sign_in_run : verify_signature everyone clear "GA" "sig" (some "msg") ≡ ok signed_in
unfolding verify_signature
sign_in_run = refl

refresh_access-verify_signature_example :
    (ok true ≡ ok true)
    × (refresh_access everyone clear "rGA" ≡ ok "aGA")
    × (refresh_access everyone clear "aGA" ≡ err unauthorized)
refresh_access-verify_signature_example =
    refresh_access-verify_signature everyone clear clear_truly "GA" "sig" (some "msg") signed_in
      sign_in_run

-- A store of tokens by their contract, and a node that does not answer.
abbrev Stored : Type 0
Stored = String → Option Token

abbrev silent : TokenSources Stored
silent = record {
  find_by_contract = λ c s. (ok (s c), s);
  save = λ x s. (ok x, λ c. if T.◌==◌ c x.contract_address then some x else s c);
  fetch_metadata = λ c s. (err not_found, s);
}

silent_works : Repository silent
silent_works = record {
  token_at = λ s c. s c;
  finds = λ c s. refl;
  saved = λ x s e. (
    sym (ok-injective (result_of e)),
    ap (λ u. u x.contract_address) (sym (state_of e)) ∙ rw (text_itself x.contract_address) refl,
  );
}

abbrev none_stored : Stored
none_stored c = none

abbrev one_stored : Stored
one_stored c = if T.◌==◌ c "CONTRACT1" then some (fallback_token "CONTRACT1") else none

first_run :
    find_or_create silent "CONTRACT1" none none_stored
    ≡ (ok (fallback_token "CONTRACT1"), one_stored)
unfolding find_or_create create_token create_from_chain
first_run = refl

find_or_create-once_example :
    find_or_create silent "CONTRACT1" none one_stored
    ≡ (ok (fallback_token "CONTRACT1"), one_stored)
find_or_create-once_example =
    find_or_create-once silent silent_works "CONTRACT1" none none none_stored
      (fallback_token "CONTRACT1") one_stored first_run
