-- ===== src/Indexer/Liquidity.antt =====
-- backend/src/modules/indexer/liquidity-indexer.service.ts: what a mint and a burn event change in the
-- tables.
pub mod Effect
pub mod Refines
pub mod Lost
use soro_pool.Base.{
  ℕ, String, Bool, true, false, ◌||◌, Option, none, some, List, Result, ok, err, if◌then◌else◌,
}
use soro_pool.Base.Int.{ℤ, pos, ◌+ℤ◌, ◌-ℤ◌, ltb_ℤ}
use soro_pool.Indexer.Database.{Pool, LpPosition, PoolUpdate, liquidity, Database}
use soro_pool.Indexer.Events.{IndexerEvent}
use soro_pool.Indexer.Payload.{Payload, field}
use soro_pool.Js.BigInt.{big_int, to_string}
use soro_pool.Js.Text.{or_default, text_or}
use soro_pool.Math.ConstantProduct.{not_positive}
use soro_pool.Routing.Action.{Action, pure, lift, ◌>>=◌}
use text.Mathlib.Text.{◌==◌}

-- `(data.provider as string) || (data.caller as string) || ''`
abbrev pub wallet_of : Payload → String
wallet_of payload =
    text_or (or_default (field payload "provider") "") (or_default (field payload "caller") "")

-- `amountA <= 0n || amountB <= 0n || !walletAddress`
abbrev pub ignored : ℤ → ℤ → String → Bool
ignored a b wallet = not_positive a || not_positive b || (wallet == "")

-- `x > 0n ? x.toString() : '0'`
abbrev pub or_zero_text : ℤ → String
or_zero_text x = if ltb_ℤ (pos 0) x then to_string x else "0"

-- A call in a `try` block whose exception is only logged.
abbrev pub swallow : {S : Type 0} → Action S Unit → Action S Unit
swallow m s = (ok tt, (m s).1)

abbrev pub new_position : String → String → ℤ → ℤ → LpPosition
new_position wallet pool_id a b = record {
  wallet_address = wallet;
  pool_id = pool_id;
  lp_token_amount = to_string a;
  token0_deposited = to_string a;
  token1_deposited = to_string b;
  fees_earned_token0 = "0";
  fees_earned_token1 = "0";
}

-- The position after a mint, from its three amounts.
abbrev pub grown : LpPosition → ℤ → ℤ → ℤ → ℤ → ℤ → LpPosition
grown p lp d0 d1 a b = record p {
  lp_token_amount = to_string (lp +ℤ a);
  token0_deposited = to_string (d0 +ℤ a);
  token1_deposited = to_string (d1 +ℤ b);
}

-- The position after a burn.
abbrev pub shrunk : LpPosition → ℤ → ℤ → ℤ → ℤ → ℤ → LpPosition
shrunk p lp d0 d1 a b = record p {
  lp_token_amount = or_zero_text (lp -ℤ a);
  token0_deposited = to_string (d0 -ℤ a);
  token1_deposited = to_string (d1 -ℤ b);
}

module _ {S : Type 0} (db : Database S) where
  -- The position is read, changed and saved.
  unfoldable pub change_position :
      (LpPosition → ℤ → ℤ → ℤ → ℤ → ℤ → LpPosition) → LpPosition → ℤ → ℤ → Action S Unit
  change_position change p a b = do
    lp ← lift (big_int p.lp_token_amount)
    d0 ← lift (big_int p.token0_deposited)
    d1 ← lift (big_int p.token1_deposited)
    db.save_position (change p lp d0 d1 a b)

  unfoldable pub deposit : String → String → ℤ → ℤ → Option LpPosition → Action S Unit
  deposit wallet pool_id a b none = db.save_position (new_position wallet pool_id a b)
  deposit wallet pool_id a b (some p) = change_position grown p a b

  unfoldable pub withdraw : ℤ → ℤ → Option LpPosition → Action S Unit
  withdraw a b none = pure tt
  withdraw a b (some p) = change_position shrunk p a b

  -- The new reserves are stored with the number of positions, and sent out.
  unfoldable pub store_reserves : Pool → String → String → Action S Unit
  store_reserves pool r0 r1 = do
    count ← db.count_positions pool.id
    stored ← db.update_pool pool.id (liquidity r0 r1 count)
    db.emit_reserve_update pool.id r0 r1

  unfoldable pub mint_on : Pool → String → ℤ → ℤ → Action S Unit
  mint_on pool wallet a b = do
    existing ← db.find_position wallet pool.id
    saved ← deposit wallet pool.id a b existing
    r0 ← lift (big_int pool.reserve0)
    r1 ← lift (big_int pool.reserve1)
    store_reserves pool (to_string (r0 +ℤ a)) (to_string (r1 +ℤ b))

  unfoldable pub burn_on : Pool → String → ℤ → ℤ → Action S Unit
  burn_on pool wallet a b = do
    existing ← db.find_position wallet pool.id
    saved ← withdraw a b existing
    r0 ← lift (big_int pool.reserve0)
    r1 ← lift (big_int pool.reserve1)
    store_reserves pool (or_zero_text (r0 -ℤ a)) (or_zero_text (r1 -ℤ b))

  -- The two amounts are read, and events without an effect are passed over.
  unfoldable pub with_amounts : Payload → (String → ℤ → ℤ → Action S Unit) → Action S Unit
  with_amounts payload act = do
    a ← lift (big_int (or_default (field payload "amountA") "0"))
    b ← lift (big_int (or_default (field payload "amountB") "0"))
    if ignored a b (wallet_of payload) then pure tt else act (wallet_of payload) a b

  unfoldable pub on_pool :
      Payload → (Pool → String → ℤ → ℤ → Action S Unit) → Option Pool → Action S Unit
  on_pool payload act none = pure tt
  on_pool payload act (some pool) = with_amounts payload (act pool)

  unfoldable pub index_liquidity :
      (Pool → String → ℤ → ℤ → Action S Unit) → IndexerEvent Payload → Action S Unit
  index_liquidity act event = do
    pool ← db.find_pool (or_default (field event.payload "poolAddress") "")
    on_pool event.payload act pool

  -- `indexMint`
  unfoldable pub index_mint : IndexerEvent Payload → Action S Unit
  index_mint event = swallow (index_liquidity mint_on event)

  -- `indexBurn`
  unfoldable pub index_burn : IndexerEvent Payload → Action S Unit
  index_burn event = swallow (index_liquidity burn_on event)
