-- ===== src/Accounts/Tokens.antt =====
-- backend/src/modules/tokens/token.service.ts: tokens by their contract, and where their metadata comes
-- from. The repository and `fetch` are parameters; the other queries are calls of the repository.
pub mod Created
use Prim.Native.String.{◌++◌}
use soro_pool.Base.{
  ℕ, zero, suc, String, Bool, true, false, ◌||◌, Option, none, some, Result, ok, err, if◌then◌else◌,
}
use soro_pool.Js.Text.{or_default}
use soro_pool.Routing.Action.{Action, pure, ◌>>=◌}
use text.Mathlib.Text.{◌==◌}

-- The columns of `Token` that the service writes
pub record Token : Type 0 where
  pub contract_address : String
  pub symbol : String
  pub name : String
  pub decimals : ℕ
  pub is_verified : Bool

-- `metadata`, and the fields that are read of a response
pub record Metadata : Type 0 where
  pub symbol : Option String
  pub name : Option String
  pub decimals : Option ℕ

-- `findOne` by the contract, `save`, and the request for metadata: none where the response is not ok.
pub record TokenSources (S : Type 0) : Type 0 where
  pub find_by_contract : String → Action S (Option Token)
  pub save : Token → Action S Token
  pub fetch_metadata : String → Action S (Option Metadata)

-- `text.slice(0, n)`
unfoldable pub first_chars : ℕ → String → String
first_chars zero s = ""
first_chars (suc n) String.[] = ""
first_chars (suc n) (String.◌∷◌ c s) = String.◌∷◌ c (first_chars n s)

-- `decimals ?? 7`
abbrev pub decimals_or : Option ℕ → ℕ
decimals_or none = 7
decimals_or (some n) = n

-- `this.tokenRepository.create(...)`
abbrev pub new_token : String → String → String → ℕ → Token
new_token contract symbol name decimals = record {
  contract_address = contract;
  symbol = symbol;
  name = name;
  decimals = decimals;
  is_verified = false;
}

abbrev pub fallback_token : String → Token
fallback_token contract = new_token contract "UNKNOWN" ("Token " ++ first_chars 8 contract) 7

-- The token from the chain's metadata, or the fallback where the request threw or was not ok
abbrev pub token_of_reply : String → Result (Option Metadata) → Token
token_of_reply contract (ok (some m)) =
    new_token contract (or_default m.symbol "UNKNOWN") (or_default m.name "Unknown")
      (decimals_or m.decimals)
token_of_reply contract (ok none) = fallback_token contract
token_of_reply contract (err e) = fallback_token contract

-- `metadata?.symbol && metadata?.name`
abbrev pub is_complete : Metadata → Bool
is_complete m =
    if or_default m.symbol "" == ""
    then false
    else if or_default m.name "" == ""
    then false
    else true

abbrev pub token_of_given : String → Metadata → Token
token_of_given contract m =
    new_token contract (or_default m.symbol "") (or_default m.name "") (decimals_or m.decimals)

module _ {S : Type 0} (sources : TokenSources S) where
  abbrev pub save_reply : String → Result (Option Metadata) × S → Result Token × S
  save_reply contract (r, s) = sources.save (token_of_reply contract r) s

  -- The `try` block and its handler: only the request is caught, since the saving is not awaited there.
  unfoldable pub create_from_chain : String → Action S Token
  create_from_chain contract s = save_reply contract (sources.fetch_metadata contract s)

  unfoldable pub create_token : String → Option Metadata → Action S Token
  create_token contract none = create_from_chain contract
  create_token contract (some m) =
      if is_complete m then sources.save (token_of_given contract m) else create_from_chain contract

  abbrev pub or_create : String → Option Metadata → Option Token → Action S Token
  or_create contract metadata (some existing) = pure existing
  or_create contract metadata none = create_token contract metadata

  -- `findOrCreate`
  unfoldable pub find_or_create : String → Option Metadata → Action S Token
  find_or_create contract metadata = do
    existing ← sources.find_by_contract contract
    or_create contract metadata existing
