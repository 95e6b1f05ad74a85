-- ===== src/Indexer/Swaps.antt =====
-- backend/src/modules/indexer/swap-indexer.service.ts: what a swap event changes in the tables and in
-- Redis. Doubles and their texts are parameters.
pub mod Raises
pub mod Stale
use Prim.Native.String.{◌++◌}
use soro_pool.Base.{
  String, Bool, true, false, ◌||◌, not, Option, none, some, Result, ok, err, if◌then◌else◌,
}
use soro_pool.Base.Int.{ℤ, pos, ◌+ℤ◌, ◌*ℤ◌, ◌/ℤ◌, eqb_ℤ}
use soro_pool.Indexer.Database.{Pool, SwapRow, Database, volume}
use soro_pool.Indexer.Events.{IndexerEvent}
use soro_pool.Indexer.Liquidity.{swallow}
use soro_pool.Indexer.Payload.{Payload, field}
use soro_pool.Js.BigInt.{big_int, to_string}
use soro_pool.Js.Number.{JsNumber}
use soro_pool.Js.Text.{or_default, text_or, remove_first}
use soro_pool.Math.ConstantProduct.{not_positive}
use soro_pool.Routing.Action.{Action, pure, lift, ◌>>=◌}
use text.Mathlib.Text.{◌==◌}

-- `a === b`, where either may be missing
abbrev pub same_text : Option String → Option String → Bool
same_text none none = true
same_text none (some b) = false
same_text (some a) none = false
same_text (some a) (some b) = a == b

-- `tokenInIsToken0`
abbrev pub token_in_is_token0 : Payload → Pool → Bool
token_in_is_token0 payload pool =
    same_text (field payload "tokenIn") pool.token0_symbol
    || same_text (field payload "tokenIn") (some pool.token0_id)

-- A symbol in a template
abbrev pub symbol_text : Option String → String
symbol_text none = "undefined"
symbol_text (some symbol) = symbol

-- `quote:*:${a}:${b}:*`
abbrev pub quote_pattern : Option String → Option String → String
quote_pattern a b = "quote:*:" ++ symbol_text a ++ ":" ++ symbol_text b ++ ":*"

-- The fee of an amount, rounded toward zero
abbrev pub fee_of : ℤ → ℤ → Result ℤ
fee_of amount fee_bps = (amount *ℤ fee_bps) /ℤ pos 10_000

-- `swap.feeAmount`
abbrev pub fee_text : String → ℤ → Result String
fee_text amount_in fee_bps = if eqb_ℤ fee_bps (pos 0) then ok "0" else elim (big_int amount_in) [
  | err e ↦ err e
  | ok amount ↦ elim (fee_of amount fee_bps) [ err e ↦ err e | ok fee ↦ ok (to_string fee) ]
]

-- `BigInt(amountIn) <= 0n || BigInt(amountOut) <= 0n`
abbrev pub is_empty_swap : String → String → Result Bool
is_empty_swap amount_in amount_out = elim (big_int amount_in) [
  | err e ↦ err e
  | ok a ↦
      if not_positive a
      then ok true
      else elim (big_int amount_out) [ err e ↦ err e | ok b ↦ ok (not_positive b) ]
]

module _ (num : JsNumber) (show : num.Num → String) where
  abbrev pub price_of : Bool → ℤ → ℤ → num.Num
  price_of true r0 r1 = num.div (num.of_int r1) (num.of_int r0)
  price_of false r0 r1 = num.div (num.of_int r0) (num.of_int r1)

  -- `usdValue > 0 ? usdValue.toString() : '0'`
  abbrev pub usd_text : num.Num → String
  usd_text usd = if num.lt (num.of_text "0") usd then show usd else "0"

  abbrev pub usd_at : Bool → ℤ → ℤ → ℤ → String
  usd_at is_token0 r0 r1 amount =
      if not_positive r0 || not_positive r1
      then "0"
      else usd_text
          (num.of_int (num.floor (num.mul (num.of_int amount) (price_of is_token0 r0 r1))))

  -- `estimateUsdValue`
  unfoldable pub estimate_usd_value : String → Pool → Bool → Result String
  estimate_usd_value amount pool is_token0 = elim (big_int (text_or pool.reserve0 "0")) [
    | err e ↦ err e
    | ok r0 ↦ elim (big_int (text_or pool.reserve1 "0")) [
      | err e ↦ err e
      | ok r1 ↦ elim (big_int amount) [ err e ↦ err e | ok a ↦ ok (usd_at is_token0 r0 r1 a) ]
    ]
  ]

  module _ {S : Type 0} (db : Database S) where
    -- `updatePoolVolume`
    unfoldable pub update_pool_volume : String → String → String → Pool → Action S Unit
    update_pool_volume amount_in_usd amount_out_usd amount_in pool = do
      in_usd ← lift (big_int (text_or amount_in_usd "0"))
      out_usd ← lift (big_int (text_or amount_out_usd "0"))
      volume_usd ← lift ((in_usd +ℤ out_usd) /ℤ pos 2)
      volume24h ← lift (big_int (text_or pool.volume24h_usd "0"))
      amount ← lift (big_int amount_in)
      fee ← lift (fee_of amount pool.fee_bps)
      fees24h ← lift (big_int (text_or pool.fee_revenue24h "0"))
      db.update_pool pool.id (
          volume pool.reserve0 pool.reserve1 (to_string (volume24h +ℤ volume_usd))
            (to_string (fees24h +ℤ fee)))

    -- `if (keys) await this.redisService.del(...)`
    abbrev pub delete_found : String → Option String → Action S Unit
    delete_found key none = pure tt
    delete_found key (some found) = if found == "" then pure tt else db.redis_del key

    -- `invalidateQuoteCaches`
    unfoldable pub invalidate_quote_caches : String → Action S Unit
    invalidate_quote_caches pattern = do
      tried ← swallow (do
        found ← db.redis_get (remove_first b'*' pattern)
        delete_found (remove_first b'*' pattern) found)
      db.redis_del "routing:graph"

    abbrev pub swap_row :
        IndexerEvent Payload → Pool → Bool → String → String → String → String → String → SwapRow
    swap_row event pool from0 amount_in amount_out in_usd out_usd fee = record {
      time = event.timestamp;
      pool_id = pool.id;
      wallet_address =
          text_or (or_default (field event.payload "caller") "")
            (or_default (field event.payload "walletAddress") "");
      token_in_id = if from0 then pool.token0_id else pool.token1_id;
      token_out_id = if from0 then pool.token1_id else pool.token0_id;
      amount_in = amount_in;
      amount_out = amount_out;
      amount_in_usd = in_usd;
      amount_out_usd = out_usd;
      price_impact = "0";
      fee_amount = fee;
      tx_hash = event.tx_hash;
    }

    -- The swap is stored, the volume of its pool raised, and the cached quotes dropped.
    unfoldable pub store_swap : IndexerEvent Payload → Pool → String → String → Action S Unit
    store_swap event pool amount_in amount_out =
        let from0 = token_in_is_token0 event.payload pool in
        do
          in_usd ← lift (estimate_usd_value amount_in pool from0)
          out_usd ← lift (estimate_usd_value amount_out pool (not from0))
          fee ← lift (fee_text amount_in pool.fee_bps)
          saved ← db.save_swap (swap_row event pool from0 amount_in amount_out in_usd out_usd fee)
          raised ← update_pool_volume in_usd out_usd amount_in pool
          there ← invalidate_quote_caches (quote_pattern pool.token0_symbol pool.token1_symbol)
          invalidate_quote_caches (quote_pattern pool.token1_symbol pool.token0_symbol)

    unfoldable pub swap_on : IndexerEvent Payload → Option Pool → Action S Unit
    swap_on event none = pure tt
    swap_on event (some pool) =
        let amount_in = or_default (field event.payload "amountIn") "0" in
        let amount_out = or_default (field event.payload "amountOut") "0" in
        do
          empty ← lift (is_empty_swap amount_in amount_out)
          if empty then pure tt else store_swap event pool amount_in amount_out

    -- `indexSwap`
    unfoldable pub index_swap : IndexerEvent Payload → Action S Unit
    index_swap event = swallow (do
      pool ← db.find_pool (or_default (field event.payload "poolAddress") event.tx_hash)
      swap_on event pool)
