-- ===== src/Indexer/Database.antt =====
-- The tables that the indexer reads and writes, as an interface: the repositories of typeorm and the
-- gateway are third-party. `DatabaseWorks` is what they do where every call succeeds.
use soro_pool.Base.{ℕ, String, ◌≡◌, ◌≢◌, ◌⊎◌, Option, some, ok}
use soro_pool.Base.Int.{ℤ}
use soro_pool.Routing.Action.{Action}

-- The fields of `Pool` that the indexer reads
pub record Pool : Type 0 where
  pub id : String
  pub token0_symbol : Option String
  pub token1_symbol : Option String
  pub token0_id : String
  pub token1_id : String
  pub reserve0 : String
  pub reserve1 : String
  pub fee_bps : ℤ
  pub volume24h_usd : String
  pub fee_revenue24h : String

-- The fields of `LpPosition` that the indexer writes
pub record LpPosition : Type 0 where
  pub wallet_address : String
  pub pool_id : String
  pub lp_token_amount : String
  pub token0_deposited : String
  pub token1_deposited : String
  pub fees_earned_token0 : String
  pub fees_earned_token1 : String

-- The fields of `Swap` that the indexer writes
pub record SwapRow : Type 0 where
  pub time : ℕ
  pub pool_id : String
  pub wallet_address : String
  pub token_in_id : String
  pub token_out_id : String
  pub amount_in : String
  pub amount_out : String
  pub amount_in_usd : String
  pub amount_out_usd : String
  pub price_impact : String
  pub fee_amount : String
  pub tx_hash : String

-- The second argument of `poolRepository.update`
pub data PoolUpdate : Type 0 where
  liquidity : (reserve0 reserve1 : String) (lp_count : ℕ) → PoolUpdate
  volume : (reserve0 reserve1 volume24h_usd fee_revenue24h : String) → PoolUpdate

pub record Database (S : Type 0) : Type 0 where
  pub find_pool : String → Action S (Option Pool)
  pub find_position : (wallet_address pool_id : String) → Action S (Option LpPosition)
  pub save_position : LpPosition → Action S Unit
  pub count_positions : String → Action S ℕ
  pub save_swap : SwapRow → Action S Unit
  pub update_pool : String → PoolUpdate → Action S Unit
  pub emit_reserve_update : (pool_id reserve0 reserve1 : String) → Action S Unit
  pub redis_get : String → Action S (Option String)
  pub redis_del : String → Action S Unit

abbrev pub updated : PoolUpdate → Pool → Pool
updated (liquidity r0 r1 n) pool = record pool { reserve0 = r0; reserve1 = r1 }
updated (volume r0 r1 v f) pool = record pool {
  reserve0 = r0;
  reserve1 = r1;
  volume24h_usd = v;
  fee_revenue24h = f;
}

-- Every call succeeds: a read returns what is stored and changes nothing, a position is stored for its wallet
-- and pool, and an update changes the pool of its id.
pub record DatabaseWorks {S : Type 0} (db : Database S) : Type 0 where
  pub pool_at : S → String → Option Pool
  pub position_at : S → String → String → Option LpPosition
  pub put_position : LpPosition → S → S
  pub put_update : String → PoolUpdate → S → S
  pub positions : S → String → ℕ
  pub finds_pool : (a : String) (s : S) → db.find_pool a s ≡ (ok (pool_at s a), s)
  pub finds_position : (w p : String) (s : S) → db.find_position w p s ≡ (ok (position_at s w p), s)
  pub saves_position : (x : LpPosition) (s : S) → db.save_position x s ≡ (ok tt, put_position x s)
  pub counts : (p : String) (s : S) → db.count_positions p s ≡ (ok (positions s p), s)
  pub updates :
      (p : String) (u : PoolUpdate) (s : S) → db.update_pool p u s ≡ (ok tt, put_update p u s)
  pub emits : (p r0 r1 : String) (s : S) → db.emit_reserve_update p r0 r1 s ≡ (ok tt, s)
  pub position_kept :
      (x : LpPosition) (s : S) (w p : String)
      → (w ≢ x.wallet_address) ⊎ (p ≢ x.pool_id)
      → position_at (put_position x s) w p ≡ position_at s w p
  pub position_update :
      (p : String) (u : PoolUpdate) (s : S) (w q : String)
      → position_at (put_update p u s) w q ≡ position_at s w q
  pub pool_put : (x : LpPosition) (s : S) (a : String) → pool_at (put_position x s) a ≡ pool_at s a

-- Columns that give a text back as it was stored. Those of the entities do not: they are decimals with a
-- scale of 18 or 8 places (DecimalColumns in Decimals).
pub record VerbatimColumns {S : Type 0} {db : Database S} (works : DatabaseWorks db) : Type 0 where
  pub position_put :
      (x : LpPosition) (s : S)
      → works.position_at (works.put_position x s) x.wallet_address x.pool_id ≡ some x
  pub pool_update :
      (u : PoolUpdate) (s : S) (a : String) {pool : Pool}
      → works.pool_at s a ≡ some pool
      → works.pool_at (works.put_update pool.id u s) a ≡ some (updated u pool)
