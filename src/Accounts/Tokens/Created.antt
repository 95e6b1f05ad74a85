-- ===== src/Accounts/Tokens/Created.antt =====
-- That a contract has one token.
use soro_pool.Base.{
  String, ◌≡◌, refl, sym, ap, ◌∙◌, Bool, true, false, inl, inr, ◌⊎◌, ok-injective, Option, none,
  some, Result, ok, err, if◌then◌else◌,
}
use soro_pool.Accounts.Tokens.{
  Token, Metadata, TokenSources, token_of_reply, is_complete, token_of_given, create_from_chain,
  create_token, or_create, find_or_create,
}
use soro_pool.Routing.Action.{Action, proceed, state_of, result_of}
use mathlib.Core.Path.{subst}

-- The repository: a query by contract returns what is stored and changes nothing, and what a call of
-- save returns is the token that it was given, which is then found by its contract.
pub record Repository {S : Type 0} (sources : TokenSources S) : Type 0 where
  pub token_at : S → String → Option Token
  pub finds : (c : String) (s : S) → sources.find_by_contract c s ≡ (ok (token_at s c), s)
  pub saved :
      (x : Token) (s : S) {t : Token} {u : S}
      → sources.save x s ≡ (ok t, u)
      → (t ≡ x) × (token_at u x.contract_address ≡ some x)

module _ {S : Type 0} (sources : TokenSources S) (repository : Repository sources) where
  open repository use {token_at, finds, saved}

  -- The token is the one of the contract afterwards.
  abbrev pub Found : String → Token → S → Type 0
  Found contract t u = token_at u contract ≡ some t

  saved-Found :
      (contract : String) (x : Token) (s : S) (t : Token) (u : S)
      → x.contract_address ≡ contract
      → sources.save x s ≡ (ok t, u)
      → Found contract t u
  saved-Found contract x s t u same e =
      let (is_x, stored) = saved x s e in ap (token_at u) (sym same) ∙ stored ∙ ap some (sym is_x)

  reply_contract :
      (contract : String) (r : Result (Option Metadata))
      → (token_of_reply contract r).contract_address ≡ contract
  reply_contract contract (ok (some m)) = refl
  reply_contract contract (ok none) = refl
  reply_contract contract (err e) = refl

  chain-Found :
      (contract : String) (s : S) (t : Token) (u : S)
      → create_from_chain sources contract s ≡ (ok t, u)
      → Found contract t u
  unfolding create_from_chain
  chain-Found contract s t u e =
      let r = sources.fetch_metadata contract s in
      saved-Found contract (token_of_reply contract r.0) r.1 t u (reply_contract contract r.0) e

  one_of :
      (b : Bool) (m k : Action S Token) (s : S) (t : Token) (u : S)
      → (if b then m else k) s ≡ (ok t, u)
      → (m s ≡ (ok t, u)) ⊎ (k s ≡ (ok t, u))
  one_of true m k s t u e = inl e
  one_of false m k s t u e = inr e

  created-Found :
      (contract : String) (metadata : Option Metadata) (s : S) (t : Token) (u : S)
      → create_token sources contract metadata s ≡ (ok t, u)
      → Found contract t u
  unfolding create_token
  created-Found contract none s t u e = chain-Found contract s t u e
  created-Found contract (some m) s t u e = elim (one_of (is_complete m) _ _ s t u e) [
    | inl given ↦ saved-Found contract (token_of_given contract m) s t u refl given
    | inr partial ↦ chain-Found contract s t u partial
  ]

  or_create-Found :
      (contract : String) (existing : Option Token) (given : Option Metadata) (s : S) (t : Token)
      (u : S)
      → token_at s contract ≡ existing
      → or_create sources contract given existing s ≡ (ok t, u)
      → Found contract t u
  or_create-Found contract none given s t u here e = created-Found contract given s t u e
  or_create-Found contract (some x) given s t u here e =
      subst (λ v. token_at v contract ≡ some t) (state_of e)
        (here ∙ ap some (ok-injective (result_of e)))

  -- A call of findOrCreate that returns a token leaves it as the token of its contract: every later call
  -- for the contract, whatever metadata it is given, returns the same token and changes nothing.
  pub find_or_create-once :
      (contract : String) (metadata later : Option Metadata) (s : S) (t : Token) (u : S)
      → find_or_create sources contract metadata s ≡ (ok t, u)
      → find_or_create sources contract later u ≡ (ok t, u)
  unfolding find_or_create
  find_or_create-once contract metadata later s t u e =
      let found = or_create-Found contract (token_at s contract) metadata s t u refl (
        subst (λ r. proceed (or_create sources contract metadata) r ≡ (ok t, u)) (finds contract s)
          e) in
      rw (finds, found) refl
