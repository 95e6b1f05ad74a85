-- ===== src/Analytics/Candles.antt =====
-- backend/src/modules/analytics/candlestick.service.ts: candles from the swaps of a pool. The two
-- repositories and `toFixed` are parameters. A time is none where it is not a number.
pub mod Priceless
use soro_pool.Base.{
  ℕ, suc, ◌+◌, ◌*◌, ◌/◌, ◌==◌, String, Bool, true, false, ◌||◌, Option, none, some, List, [], ◌∷◌,
  map, Result, ok, err, ltb, if◌then◌else◌, ◌>>=◌,
}
use soro_pool.Analytics.Interval.{parse_interval}
use soro_pool.Base.Int.{ℤ, ◌+ℤ◌, ltb_ℤ}
use soro_pool.Indexer.Database.{SwapRow}
use soro_pool.Js.BigInt.{big_int, to_string}
use soro_pool.Js.Number.{JsNumber}
use soro_pool.Js.Sort.{sort}
use soro_pool.Js.Text.{text_or}
use soro_pool.Math.ConstantProduct.{not_positive}
use soro_pool.Routing.Action

-- `PriceCandle`
pub record PriceCandle : Type 0 where
  pub time : Option ℕ
  pub pool_id : String
  pub interval : String
  pub open_price : String
  pub high : String
  pub low : String
  pub close : String
  pub volume_token0 : String
  pub volume_token1 : String
  pub volume_usd : String
  pub tx_count : ℕ

-- What the service reads: candles, and swaps in the order of their time.
pub record CandleSources (S : Type 0) : Type 0 where
  pub find_candles : (pool_id interval : String) (from to : ℕ) → Action.Action S (List PriceCandle)
  pub find_swaps : (pool_id : String) (from to : ℕ) → Action.Action S (List SwapRow)

-- `maxStr`
unfoldable pub max_str : String → String → Result String
max_str a b = do x ← big_int a; y ← big_int b; ok (if ltb_ℤ y x then a else b)

-- `minStr`
unfoldable pub min_str : String → String → Result String
min_str a b = do x ← big_int a; y ← big_int b; ok (if ltb_ℤ x y then a else b)

-- `addStr`
unfoldable pub add_str : String → String → Result String
add_str a b = do x ← big_int a; y ← big_int b; ok (to_string (x +ℤ y))

-- `Math.floor(time / intervalMs) * intervalMs`, which is not a number for an interval of 0
abbrev pub bucket_time : ℕ → ℕ → Option ℕ
bucket_time time ms = if ms == 0 then none else some ((time / ms) * ms)

abbrev pub same_time : Option ℕ → Option ℕ → Bool
same_time none none = true
same_time none (some b) = false
same_time (some a) none = false
same_time (some a) (some b) = a == b

-- `a.time.getTime() - b.time.getTime()` is positive
abbrev pub is_later : PriceCandle → PriceCandle → Bool
is_later a b = elim a.time [
  | none ↦ false
  | some t ↦ elim b.time [ none ↦ false | some u ↦ ltb u t ]
]

abbrev pub new_candle : String → String → Option ℕ → String → PriceCandle
new_candle pool_id interval time price = record {
  time = time;
  pool_id = pool_id;
  interval = interval;
  open_price = price;
  high = price;
  low = price;
  close = price;
  volume_token0 = "0";
  volume_token1 = "0";
  volume_usd = "0";
  tx_count = 0;
}

-- The changes that each swap makes to the candle of its bucket
unfoldable pub add_swap : SwapRow → String → PriceCandle → Result PriceCandle
add_swap swap price candle = do
  high ← max_str candle.high price
  low ← min_str candle.low price
  volume0 ← add_str candle.volume_token0 swap.amount_in
  volume1 ← add_str candle.volume_token1 swap.amount_out
  usd ← add_str candle.volume_usd (text_or swap.amount_in_usd "0")
  ok record candle {
    high = high;
    low = low;
    close = price;
    volume_token0 = volume0;
    volume_token1 = volume1;
    volume_usd = usd;
    tx_count = suc candle.tx_count;
  }

-- `buckets`, in the order of insertion: a swap goes into the candle of its time, or into a new one.
unfoldable pub add_to_bucket :
    PriceCandle → SwapRow → String → List PriceCandle → Result (List PriceCandle)
add_to_bucket fresh swap price [] = do candle ← add_swap swap price fresh; ok (candle ∷ [])
add_to_bucket fresh swap price (candle ∷ candles) =
    let later = add_to_bucket fresh swap price candles in
    let here = add_swap swap price candle in
    if same_time candle.time fresh.time
    then (do changed ← here; ok (changed ∷ candles))
    else (do rest ← later; ok (candle ∷ rest))

module _ (num : JsNumber) (to_fixed : num.Num → ℕ → String) where
  -- `calculateSwapPrice`
  unfoldable pub calculate_swap_price : SwapRow → Result String
  calculate_swap_price swap = do
    amount_in ← big_int (text_or swap.amount_in "0")
    amount_out ← big_int (text_or swap.amount_out "0")
    if not_positive amount_in || not_positive amount_out
        then ok "0"
        else ok (to_fixed (num.div (num.of_int amount_out) (num.of_int amount_in)) 8)

  -- The loop over the swaps
  unfoldable pub add_swaps :
      String → String → ℕ → List SwapRow → List PriceCandle → Result (List PriceCandle)
  add_swaps pool_id interval ms [] buckets = ok buckets
  add_swaps pool_id interval ms (swap ∷ swaps) buckets = do
    price ← calculate_swap_price swap
    next ←
        add_to_bucket (new_candle pool_id interval (bucket_time swap.time ms) price) swap price
          buckets
    add_swaps pool_id interval ms swaps next

  unfoldable pub build_candles : String → String → List SwapRow → Result (List PriceCandle)
  build_candles pool_id interval swaps = do
    buckets ← add_swaps pool_id interval (parse_interval interval) swaps []
    ok (sort is_later buckets)

  module _ {S : Type 0} (sources : CandleSources S) where
    -- `buildCandlesFromSwaps`
    unfoldable pub build_candles_from_swaps :
        String → String → ℕ → ℕ → Action.Action S (List PriceCandle)
    build_candles_from_swaps pool_id interval from to s =
        Action.proceed (λ swaps. Action.lift (build_candles pool_id interval swaps))
          (sources.find_swaps pool_id from to s)

    -- The candles that are stored, or else those of the swaps
    abbrev pub or_build :
        String → String → ℕ → ℕ → List PriceCandle → Action.Action S (List PriceCandle)
    or_build pool_id interval from to [] s = build_candles_from_swaps pool_id interval from to s
    or_build pool_id interval from to (candle ∷ candles) s = (ok (candle ∷ candles), s)

    -- `getCandles`
    unfoldable pub get_candles : String → String → ℕ → ℕ → Action.Action S (List PriceCandle)
    get_candles pool_id interval from to s =
        Action.proceed (or_build pool_id interval from to)
          (sources.find_candles pool_id interval from to s)
