-- ===== src/Indexer/Liquidity/Effect.antt =====
-- What a mint or a burn event does to the tables.
use soro_pool.Base.{String, ◌≡◌, refl, false, some, ok}
use soro_pool.Base.Int.{ℤ, ◌+ℤ◌, ◌-ℤ◌}
use soro_pool.Indexer.Database.{Pool, LpPosition, liquidity, Database, DatabaseWorks}
use soro_pool.Indexer.Events.{IndexerEvent}
use soro_pool.Indexer.Payload.{Payload, field}
use soro_pool.Indexer.Liquidity.{
  wallet_of, ignored, or_zero_text, grown, shrunk, change_position, deposit, withdraw,
  store_reserves, mint_on, burn_on, with_amounts, on_pool, index_liquidity,
}
use soro_pool.Js.BigInt.{big_int, to_string}
use soro_pool.Js.Text.{or_default}
use soro_pool.Routing.Action.{Action}

-- The amounts of a position, as numbers.
abbrev pub Amounts : LpPosition → ℤ → ℤ → ℤ → Type 0
Amounts p lp d0 d1 =
    (big_int p.lp_token_amount ≡ ok lp)
    × (big_int p.token0_deposited ≡ ok d0)
    × (big_int p.token1_deposited ≡ ok d1)

module _ {S : Type 0} (db : Database S) (works : DatabaseWorks db) where
  open works use {
    pool_at, position_at, put_position, put_update, positions, finds_pool, finds_position,
    saves_position, counts, updates, emits,
  }

  -- The state after new reserves of a pool are stored.
  abbrev pub with_reserves : Pool → String → String → S → S
  with_reserves pool r0 r1 s = put_update pool.id (liquidity r0 r1 (positions s pool.id)) s

  store_reserves-runs :
      (pool : Pool) (r0 r1 : String) (s : S)
      → store_reserves db pool r0 r1 s ≡ (ok tt, with_reserves pool r0 r1 s)
  unfolding store_reserves
  store_reserves-runs pool r0 r1 s = rw (counts, updates, emits) refl

  change_position-runs :
      (change : LpPosition → ℤ → ℤ → ℤ → ℤ → ℤ → LpPosition) (p : LpPosition) (a b : ℤ)
      {lp d0 d1 : ℤ} (s : S)
      → Amounts p lp d0 d1
      → change_position db change p a b s ≡ (ok tt, put_position (change p lp d0 d1 a b) s)
  unfolding change_position
  change_position-runs change p a b s (e_lp, e_0, e_1) = rw (e_lp, e_0, e_1, saves_position) refl

  pub mint_on-runs :
      (pool : Pool) (w : String) (a b : ℤ) {lp d0 d1 r0 r1 : ℤ} (p : LpPosition) (s : S)
      → position_at s w pool.id ≡ some p
      → Amounts p lp d0 d1
      → big_int pool.reserve0 ≡ ok r0
      → big_int pool.reserve1 ≡ ok r1
      → mint_on db pool w a b s ≡ (
        ok tt,
        with_reserves pool
            (to_string (r0 +ℤ a))
            (to_string (r1 +ℤ b))
            (put_position (grown p lp d0 d1 a b) s),
      )
  unfolding mint_on deposit
  mint_on-runs pool w a b p s here amounts e_0 e_1 =
      rw (finds_position, here, change_position-runs grown p a b s amounts, e_0, e_1)
        (store_reserves-runs pool _ _ _)

  pub burn_on-runs :
      (pool : Pool) (w : String) (a b : ℤ) {lp d0 d1 r0 r1 : ℤ} (p : LpPosition) (s : S)
      → position_at s w pool.id ≡ some p
      → Amounts p lp d0 d1
      → big_int pool.reserve0 ≡ ok r0
      → big_int pool.reserve1 ≡ ok r1
      → burn_on db pool w a b s ≡ (
        ok tt,
        with_reserves pool
            (or_zero_text (r0 -ℤ a))
            (or_zero_text (r1 -ℤ b))
            (put_position (shrunk p lp d0 d1 a b) s),
      )
  unfolding burn_on withdraw
  burn_on-runs pool w a b p s here amounts e_0 e_1 =
      rw (finds_position, here, change_position-runs shrunk p a b s amounts, e_0, e_1)
        (store_reserves-runs pool _ _ _)

  -- An event with two amounts and a wallet reaches the pool of its address.
  pub index_liquidity-runs :
      (act : Pool → String → ℤ → ℤ → Action S Unit) (event : IndexerEvent Payload) (pool : Pool)
      (a b : ℤ) (s : S)
      → pool_at s (or_default (field event.payload "poolAddress") "") ≡ some pool
      → big_int (or_default (field event.payload "amountA") "0") ≡ ok a
      → big_int (or_default (field event.payload "amountB") "0") ≡ ok b
      → ignored a b (wallet_of event.payload) ≡ false
      → index_liquidity db act event s ≡ act pool (wallet_of event.payload) a b s
  unfolding index_liquidity on_pool with_amounts
  index_liquidity-runs act event pool a b s found e_a e_b acts =
      rw (finds_pool, found, e_a, e_b, acts) refl
