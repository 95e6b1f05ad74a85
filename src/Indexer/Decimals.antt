-- ===== src/Indexer/Decimals.antt =====
-- What the indexers do on the columns of backend/src/database/entities/pool.entity.ts and
-- lp-position.entity.ts: reserves and positions are decimals with 18 places.
use soro_pool.Base.{
  String, ◌≡◌, refl, ap, Bool, true, false, ◌⊎◌, inl, inr, Option, none, some, Result, ok, err,
  syntax_error, Bool-cases, Option-cases, if◌then◌else◌,
}
use soro_pool.Base.Int.{ℤ}
use soro_pool.Indexer.Database.{Pool, LpPosition, Database, DatabaseWorks}
use soro_pool.Indexer.Events.{IndexerEvent}
use soro_pool.Indexer.Liquidity.{
  wallet_of, ignored, new_position, change_position, deposit, withdraw, mint_on, burn_on,
  with_amounts, on_pool, index_liquidity, index_mint, index_burn,
}
use soro_pool.Indexer.Liquidity.Refines.{address_of}
use soro_pool.Indexer.Payload.{Payload, field}
use soro_pool.Indexer.Swaps.{
  estimate_usd_value, is_empty_swap, token_in_is_token0, store_swap, swap_on, index_swap,
}
use soro_pool.Indexer.Swaps.Raises.{swap_address, amount_in_of, amount_out_of}
use soro_pool.Js.BigInt.{codes, big_int}
use soro_pool.Js.BigInt.Points.{Pointed, big_int-Pointed}
use soro_pool.Js.Number.{JsNumber}
use soro_pool.Js.Text.{or_default, text_or}
use text.Mathlib.Text.{◌==◌}
use text.Mathlib.TextEquality.{eq_iff}
use mathlib.Core.Path.{subst}
use soro_pool.Routing.Action.{Action, pure, lift, ◌>>=◌}

-- The text of a decimal column has a point.
abbrev pub DecimalText : String → Type 0
DecimalText text = Pointed (codes text)

decimal-full : (text : String) → DecimalText text → (text == "") ≡ false
decimal-full text point = elim (Bool-cases (text == "")) [
  | inl empty ↦ elim (subst DecimalText ((eq_iff text "").0 empty) point) [ ]
  | inr full ↦ full
]

-- What is read from the decimal columns, by a database that returns a decimal with all its places.
pub record DecimalColumns {S : Type 0} {db : Database S} (works : DatabaseWorks db) : Type 0 where
  pub reserve0_text :
      (s : S) (a : String) (pool : Pool) → works.pool_at s a ≡ some pool → DecimalText pool.reserve0
  pub tokens_text :
      (s : S) (w p : String) (position : LpPosition)
      → works.position_at s w p ≡ some position
      → DecimalText position.lp_token_amount

module _ {S : Type 0} (db : Database S) (works : DatabaseWorks db)
    (columns : DecimalColumns works) where
  open works use {pool_at, position_at, put_position, finds_pool, finds_position, saves_position}
  open columns use {reserve0_text, tokens_text}

  -- The event reads as this amount.
  abbrev pub Reads : IndexerEvent Payload → String → ℤ → Type 0
  Reads event name a = big_int (or_default (field event.payload name) "0") ≡ ok a

  -- What a mint leaves: the tables as they were, or with a first position of the wallet added.
  abbrev pub PositionAtMost : IndexerEvent Payload → S → S → Type 0
  PositionAtMost event s t =
      (t ≡ s)
      ⊎ ((pool : Pool) × (a : ℤ) × (b : ℤ) × Reads event "amountA" a
          × Reads event "amountB" b
          × (pool_at s (address_of event.payload) ≡ some pool)
          × (position_at s (wallet_of event.payload) pool.id ≡ none)
          × (t ≡ put_position (new_position (wallet_of event.payload) pool.id a b) s))

  mint_found :
      (pool : Pool) (w : String) (a b : ℤ) (s : S) (held : Option LpPosition)
      → DecimalText pool.reserve0
      → position_at s w pool.id ≡ held
      → ((mint_on db pool w a b s).1 ≡ s)
        ⊎ ((position_at s w pool.id ≡ none)
            × ((mint_on db pool w a b s).1 ≡ put_position (new_position w pool.id a b) s))
  unfolding mint_on deposit change_position
  mint_found pool w a b s none reserve e =
      inr (e, rw (finds_position, e, saves_position, big_int-Pointed pool.reserve0 reserve) refl)
  mint_found pool w a b s (some p) reserve e =
      inl (
        rw (finds_position, e, big_int-Pointed p.lp_token_amount (tokens_text s w pool.id p e))
          refl)

  burn_found :
      (pool : Pool) (w : String) (a b : ℤ) (s : S) (held : Option LpPosition)
      → DecimalText pool.reserve0
      → position_at s w pool.id ≡ held
      → (burn_on db pool w a b s).1 ≡ s
  unfolding burn_on withdraw change_position
  burn_found pool w a b s none reserve e =
      rw (finds_position, e, big_int-Pointed pool.reserve0 reserve) refl
  burn_found pool w a b s (some p) reserve e =
      rw (finds_position, e, big_int-Pointed p.lp_token_amount (tokens_text s w pool.id p e)) refl

  -- A property of the state after a call holds where it holds without one, and after the call on each value.
  lift-Ends :
      {A B : Type 0} (P : S → Type 0) (r : Result A) (f : A → Action S B) (s : S)
      → P s
      → ((a : A) → r ≡ ok a → P (f a s).1)
      → P ((lift r >>= f) s).1
  lift-Ends P (ok a) f s before after = after a refl
  lift-Ends P (err e) f s before after = before

  unless-Ends :
      (P : S → Type 0) (b : Bool) (m : Action S (Unit {0})) (s : S)
      → P s
      → P (m s).1
      → P ((if b then pure tt else m) s).1
  unless-Ends P true m s before after = before
  unless-Ends P false m s before after = after

  amounts-Ends :
      (P : S → Type 0) (payload : Payload) (act : String → ℤ → ℤ → Action S (Unit {0})) (s : S)
      → P s
      → ((a b : ℤ)
          → big_int (or_default (field payload "amountA") "0") ≡ ok a
          → big_int (or_default (field payload "amountB") "0") ≡ ok b
          → P (act (wallet_of payload) a b s).1)
      → P (with_amounts db payload act s).1
  unfolding with_amounts
  amounts-Ends P payload act s before after =
      lift-Ends P (big_int (or_default (field payload "amountA") "0")) _ s before λ a reads_a.
        lift-Ends P (big_int (or_default (field payload "amountB") "0")) _ s before λ b reads_b.
          unless-Ends P (ignored a b (wallet_of payload)) (act (wallet_of payload) a b) s before
            (after a b reads_a reads_b)

  pool-Ends :
      (P : S → Type 0) (act : Pool → String → ℤ → ℤ → Action S (Unit {0}))
      (event : IndexerEvent Payload) (s : S)
      → P s
      → ((pool : Pool) (a b : ℤ)
          → pool_at s (address_of event.payload) ≡ some pool
          → Reads event "amountA" a
          → Reads event "amountB" b
          → P (act pool (wallet_of event.payload) a b s).1)
      → P (index_liquidity db act event s).1
  unfolding index_liquidity on_pool
  pool-Ends P act event s before after =
      elim (Option-cases (pool_at s (address_of event.payload))) [
        | inl missing ↦ rw (finds_pool, missing) before
        | inr (pool, found) ↦
            rw (finds_pool, found)
              (amounts-Ends P event.payload (act pool) s before (λ a b. after pool a b found))
      ]

  -- On decimal columns, where the calls of the database succeed, a mint event credits nothing that is there:
  -- the indexer returns, and the tables are as they were, or have the wallet's first position in the pool
  -- more, with the amounts of the event and without new reserves. A burn event changes nothing, and the
  -- indexer returns.
  pub index_mint-DecimalColumns :
      (event : IndexerEvent Payload) (s : S)
      → ((index_mint db event s).0 ≡ ok tt)
        × PositionAtMost event s (index_mint db event s).1
        × (index_burn db event s ≡ (ok tt, s))
  unfolding index_mint index_burn
  index_mint-DecimalColumns event s = (
    refl,
    pool-Ends (PositionAtMost event s) (mint_on db) event s (inl refl)
        (λ pool a b found reads_a reads_b.
          elim (mint_found pool (wallet_of event.payload) a b s _
            (reserve0_text s (address_of event.payload) pool found) refl) [
              | inl same ↦ inl same
              | inr (first, put) ↦ inr (pool, a, b, reads_a, reads_b, found, first, put)
            ]),
    ap (λ (t : S). (ok tt, t))
        (pool-Ends (λ t. t ≡ s) (burn_on db) event s refl
          (λ pool a b found reads_a reads_b.
            burn_found pool (wallet_of event.payload) a b s _
              (reserve0_text s (address_of event.payload) pool found) refl)),
  )

  module _ (num : JsNumber) (show : num.Num → String) where
    estimate_throws :
        (amount : String) (pool : Pool) (is_token0 : Bool)
        → DecimalText pool.reserve0
        → estimate_usd_value num show amount pool is_token0 ≡ err syntax_error
    unfolding estimate_usd_value
    estimate_throws amount pool is_token0 reserve =
        let reads : big_int (text_or pool.reserve0 "0") ≡ err syntax_error =
          rw (decimal-full pool.reserve0 reserve) (big_int-Pointed pool.reserve0 reserve) in
        rw (estimate_usd_value, reads) refl

    store_stops :
        (event : IndexerEvent Payload) (pool : Pool) (amount_in amount_out : String) (s : S)
        → DecimalText pool.reserve0
        → (store_swap num show db event pool amount_in amount_out s).1 ≡ s
    unfolding store_swap
    store_stops event pool amount_in amount_out s reserve =
        rw (estimate_throws amount_in pool (token_in_is_token0 event.payload pool) reserve) refl

    -- On decimal columns, where finding a pool succeeds, a swap event changes nothing: the indexer returns, and
    -- neither the swap is stored, nor the volume of its pool raised, nor a cached quote dropped.
    pub index_swap-DecimalColumns :
        (event : IndexerEvent Payload) (s : S) → index_swap num show db event s ≡ (ok tt, s)
    unfolding index_swap swap_on
    index_swap-DecimalColumns event s = elim (Option-cases (pool_at s (swap_address event))) [
      | inl missing ↦ rw (finds_pool, missing) refl
      | inr (pool, found) ↦
          rw (finds_pool, found)
            (ap (λ (t : S). (ok tt, t))
              (lift-Ends (λ t. t ≡ s) (is_empty_swap (amount_in_of event) (amount_out_of event)) _ s
                refl
                (λ empty tested.
                  unless-Ends (λ t. t ≡ s) empty
                    (store_swap num show db event pool (amount_in_of event) (amount_out_of event)) s
                    refl
                    (store_stops event pool (amount_in_of event) (amount_out_of event) s
                      (reserve0_text s (swap_address event) pool found)))))
    ]
