-- ===== src/Indexer/Swaps/Raises.antt =====
-- What a swap event leaves behind in the tables.
use soro_pool.Base.{
  String, ◌≡◌, refl, ap, ◌∙◌, false, Bool-cases, inl, inr, Option, none, some, List, ◌∷◌, Result,
  ok, err, not,
}
use soro_pool.Base.Int.{ℤ, pos, ◌+ℤ◌, ◌/ℤ◌}
use soro_pool.Indexer.Database.{
  Pool, SwapRow, PoolUpdate, volume, updated, Database, DatabaseWorks, VerbatimColumns,
}
use soro_pool.Indexer.Events.{IndexerEvent}
use soro_pool.Indexer.Payload.{Payload, field}
use soro_pool.Indexer.Swaps.{
  token_in_is_token0, quote_pattern, fee_of, fee_text, is_empty_swap, estimate_usd_value,
  update_pool_volume, delete_found, invalidate_quote_caches, swap_row, store_swap, swap_on,
  index_swap,
}
use soro_pool.Js.BigInt.{big_int, to_string}
use soro_pool.Js.BigInt.RoundTrip.{big_int-to_string}
use soro_pool.Js.Number.{JsNumber}
use soro_pool.Js.Text.{or_default, text_or, remove_first}
use soro_pool.Math.ConstantProduct.{not_positive}
use soro_pool.Routing.Action.{Action, proceed, ◌>>=◌}
use text.Mathlib.Text.{◌==◌}

-- The table of swaps beside the others: saving a swap puts it on top, and what Redis does, whether it returns
-- or throws, leaves the tables as they are.
pub record SwapTables {S : Type 0} {db : Database S} (works : DatabaseWorks db) : Type 0 where
  pub rows : S → List SwapRow
  pub put_row : SwapRow → S → S
  pub saves_swap : (x : SwapRow) (s : S) → db.save_swap x s ≡ (ok tt, put_row x s)
  pub rows_put : (x : SwapRow) (s : S) → rows (put_row x s) ≡ x ∷ rows s
  pub pool_row :
      (x : SwapRow) (s : S) (a : String) → works.pool_at (put_row x s) a ≡ works.pool_at s a
  pub rows_update : (p : String) (u : PoolUpdate) (s : S) → rows (works.put_update p u s) ≡ rows s
  pub pool_get :
      (key : String) (s : S) (a : String)
      → works.pool_at (db.redis_get key s).1 a ≡ works.pool_at s a
  pub rows_get : (key : String) (s : S) → rows (db.redis_get key s).1 ≡ rows s
  pub pool_del :
      (key : String) (s : S) (a : String)
      → works.pool_at (db.redis_del key s).1 a ≡ works.pool_at s a
  pub rows_del : (key : String) (s : S) → rows (db.redis_del key s).1 ≡ rows s

-- `event.data.poolAddress || event.txHash`
abbrev pub swap_address : IndexerEvent Payload → String
swap_address event = or_default (field event.payload "poolAddress") event.tx_hash

abbrev pub amount_in_of : IndexerEvent Payload → String
amount_in_of event = or_default (field event.payload "amountIn") "0"

abbrev pub amount_out_of : IndexerEvent Payload → String
amount_out_of event = or_default (field event.payload "amountOut") "0"

-- The figures of a swap: both amounts, their values, the fee, and what the pool had of volume and fees.
pub record Figures : Type 0 where
  pub amount_in : ℤ
  pub amount_out : ℤ
  pub in_usd : String
  pub out_usd : String
  pub in_value : ℤ
  pub out_value : ℤ
  pub half : ℤ
  pub fee : ℤ
  pub row_fee : String
  pub volume24h : ℤ
  pub fees24h : ℤ

reads_swap :
    (i o : String) (a b : ℤ)
    → big_int i ≡ ok a
    → big_int o ≡ ok b
    → not_positive a ≡ false
    → not_positive b ≡ false
    → is_empty_swap i o ≡ ok false
reads_swap i o a b reads_i reads_o some_in some_out =
    rw (reads_i, is_empty_swap) (rw some_in (rw (reads_o, is_empty_swap) (ap ok some_out)))

module _ (num : JsNumber) (show : num.Num → String) where
  -- The event swaps on the pool with these figures, and both amounts are positive.
  pub record Swaps (event : IndexerEvent Payload) (pool : Pool) (x : Figures) : Type 0 where
    pub reads_in : big_int (amount_in_of event) ≡ ok x.amount_in
    pub reads_out : big_int (amount_out_of event) ≡ ok x.amount_out
    pub in_positive : not_positive x.amount_in ≡ false
    pub out_positive : not_positive x.amount_out ≡ false
    pub values_in :
        estimate_usd_value num show
          (amount_in_of event)
          pool
          (token_in_is_token0 event.payload pool)
        ≡ ok x.in_usd
    pub values_out :
        estimate_usd_value num show
          (amount_out_of event)
          pool
          (not (token_in_is_token0 event.payload pool))
        ≡ ok x.out_usd
    pub reads_in_value : big_int (text_or x.in_usd "0") ≡ ok x.in_value
    pub reads_out_value : big_int (text_or x.out_usd "0") ≡ ok x.out_value
    pub halves : (x.in_value +ℤ x.out_value) /ℤ pos 2 ≡ ok x.half
    pub fees : fee_of x.amount_in pool.fee_bps ≡ ok x.fee
    pub row_fees : fee_text (amount_in_of event) pool.fee_bps ≡ ok x.row_fee
    pub reads_volume : big_int (text_or pool.volume24h_usd "0") ≡ ok x.volume24h
    pub reads_fees : big_int (text_or pool.fee_revenue24h "0") ≡ ok x.fees24h

  module _ {S : Type 0} (db : Database S) (works : DatabaseWorks db)
      (columns : VerbatimColumns works) (tables : SwapTables works) where
    open works use {pool_at, put_update, finds_pool, updates}
    open columns use {pool_update}
    open tables use {
      rows, put_row, saves_swap, rows_put, pool_row, rows_update, pool_get, rows_get, pool_del,
      rows_del,
    }

    -- The tables of t are those of s.
    abbrev Kept : S → S → Type 0
    Kept s t = ((a : String) → pool_at t a ≡ pool_at s a) × (rows t ≡ rows s)

    abbrev Keeps : {A : Type 0} → Action S A → Type 0
    Keeps m = (s : S) → Kept s (m s).1

    proceed-Keeps :
        {A B : Type 0} (f : A → Action S B) (s : S) (r : Result A × S)
        → ((a : A) → Keeps (f a))
        → Kept s r.1
        → Kept s (proceed f r).1
    proceed-Keeps f s (ok a, t) keeps (pools, same) =
        let (pools', same') = keeps a t in (λ p. pools' p ∙ pools p, same' ∙ same)
    proceed-Keeps f s (err e, t) keeps kept = kept

    get-Keeps : (key : String) → Keeps (db.redis_get key)
    get-Keeps key s = (pool_get key s, rows_get key s)

    del-Keeps : (key : String) → Keeps (db.redis_del key)
    del-Keeps key s = (pool_del key s, rows_del key s)

    delete_found-Keeps :
        (key : String) (found : Option String) → Keeps (delete_found num show db key found)
    delete_found-Keeps key none s = (λ a. refl, refl)
    delete_found-Keeps key (some text) s = elim (Bool-cases (text == "")) [
      | inl empty ↦ rw empty (λ a. refl, refl)
      | inr full ↦ rw full (del-Keeps key s)
    ]

    invalidate-Keeps : (pattern : String) → Keeps (invalidate_quote_caches num show db pattern)
    unfolding invalidate_quote_caches
    invalidate-Keeps pattern s =
        let key = remove_first b'*' pattern in
        let (pools, same) =
          proceed-Keeps (delete_found num show db key) s (db.redis_get key s)
            (delete_found-Keeps key) (get-Keeps key s) in
        let t = (proceed (delete_found num show db key) (db.redis_get key s)).1 in
        let (pools', same') = del-Keeps "routing:graph" t in (λ a. pools' a ∙ pools a, same' ∙ same)

    -- The two calls behind the storing of a swap.
    abbrev invalidate_both : Pool → Action S Unit
    invalidate_both pool = do
      there ←
          invalidate_quote_caches num show db (quote_pattern pool.token0_symbol pool.token1_symbol)
      invalidate_quote_caches num show db (quote_pattern pool.token1_symbol pool.token0_symbol)

    invalidate_both-Keeps : (pool : Pool) → Keeps (invalidate_both pool)
    invalidate_both-Keeps pool s =
        proceed-Keeps _ s _
          (λ u. invalidate-Keeps (quote_pattern pool.token1_symbol pool.token0_symbol))
          (invalidate-Keeps (quote_pattern pool.token0_symbol pool.token1_symbol) s)

    -- The pool with its volume and its fees raised.
    abbrev pub raised : Pool → Figures → PoolUpdate
    raised pool x =
        volume pool.reserve0 pool.reserve1 (to_string (x.volume24h +ℤ x.half))
          (to_string (x.fees24h +ℤ x.fee))

    abbrev pub row_for : IndexerEvent Payload → Pool → Figures → SwapRow
    row_for event pool x =
        swap_row num show db event pool (token_in_is_token0 event.payload pool) (amount_in_of event)
          (amount_out_of event) x.in_usd x.out_usd x.row_fee

    abbrev stored : IndexerEvent Payload → Pool → Figures → S → S
    stored event pool x s = put_update pool.id (raised pool x) (put_row (row_for event pool x) s)

    index_swap-runs :
        (event : IndexerEvent Payload) (pool : Pool) (x : Figures) (s : S)
        → Swaps event pool x
        → pool_at s (swap_address event) ≡ some pool
        → index_swap num show db event s ≡ (ok tt, (invalidate_both pool (stored event pool x s)).1)
    unfolding index_swap swap_on store_swap update_pool_volume
    index_swap-runs event pool x s swaps found =
        let full =
          reads_swap (amount_in_of event) (amount_out_of event) x.amount_in x.amount_out
            swaps.reads_in swaps.reads_out swaps.in_positive swaps.out_positive in
        rw
          (
            finds_pool, found, full, swaps.values_in, swaps.values_out, swaps.row_fees, saves_swap,
            swaps.reads_in_value, swaps.reads_out_value, swaps.halves, swaps.reads_volume,
            swaps.reads_in, swaps.fees, swaps.reads_fees, updates,
          )
          refl

    -- Where the columns keep texts: after a swap event with two positive amounts, on a pool that the tables show, the swap is on top of the table
    -- of swaps, the pool's volume is raised by half of the two values and its fees by the fee, and
    -- its reserves are as before. The indexer returns, whether Redis does or throws.
    pub index_swap-raises :
        (event : IndexerEvent Payload) (pool : Pool) (x : Figures) (s : S)
        → Swaps event pool x
        → pool_at s (swap_address event) ≡ some pool
        → ((index_swap num show db event s).0 ≡ ok tt)
          × (rows (index_swap num show db event s).1 ≡ row_for event pool x ∷ rows s)
          × (q : Pool) × (pool_at (index_swap num show db event s).1 (swap_address event) ≡ some q)
          × (big_int q.volume24h_usd ≡ ok (x.volume24h +ℤ x.half))
          × (big_int q.fee_revenue24h ≡ ok (x.fees24h +ℤ x.fee))
          × (q.reserve0 ≡ pool.reserve0)
          × (q.reserve1 ≡ pool.reserve1)
    index_swap-raises event pool x s swaps found =
        let runs = index_swap-runs event pool x s swaps found in
        let (pools, same) = invalidate_both-Keeps pool (stored event pool x s) in
        let saved = put_row (row_for event pool x) s in
        let there = pool_row (row_for event pool x) s (swap_address event) ∙ found in
        (
          ap (λ r. r.0) runs,
          ap (λ r. rows r.1) runs
              ∙ same
              ∙ rows_update pool.id (raised pool x) saved
              ∙ rows_put (row_for event pool x) s,
          updated (raised pool x) pool,
          ap (λ r. pool_at r.1 (swap_address event)) runs
              ∙ pools (swap_address event)
              ∙ pool_update (raised pool x) saved (swap_address event) there,
          big_int-to_string (x.volume24h +ℤ x.half),
          big_int-to_string (x.fees24h +ℤ x.fee),
          refl,
          refl,
        )
