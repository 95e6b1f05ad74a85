-- ===== src/Tests/Candles.antt =====
-- Runs of the analytics.
use soro_pool.Base.{ℕ, String, ◌≡◌, refl, some, [], ◌∷◌, ok, err, Error, syntax_error}
use soro_pool.Base.Int.{ℤ, pos, ◌+ℤ◌}
use soro_pool.Analytics.Candles.{
  max_str, min_str, add_str, add_swap, add_to_bucket, calculate_swap_price, add_swaps,
  build_candles,
}
use soro_pool.Analytics.Candles.Priceless.{build_candles-throws}
use soro_pool.Analytics.Interval.{match_interval, parse_interval}
use soro_pool.Analytics.Tvl.{TvlSnapshot, push_last, resample_from, resample_snapshots}
use soro_pool.Indexer.Database.{SwapRow}
use soro_pool.Js.BigInt.{big_int, to_string}
use soro_pool.Js.Sort.{sort}
use soro_pool.Tests.Fixtures.{ints}

five_minutes : parse_interval "5m" ≡ 300_000
unfolding parse_interval match_interval
five_minutes = refl

not_an_interval : parse_interval "5x" ≡ 3_600_000
unfolding parse_interval match_interval
not_an_interval = refl

abbrev swap : ℕ → String → String → SwapRow
swap time amount_in amount_out = record {
  time = time;
  pool_id = "p1";
  wallet_address = "w";
  token_in_id = "t0";
  token_out_id = "t1";
  amount_in = amount_in;
  amount_out = amount_out;
  amount_in_usd = "";
  amount_out_usd = "";
  price_impact = "0";
  fee_amount = "0";
  tx_hash = "h";
}

abbrev half : ℤ → ℕ → String
half x n = "0.50000000"

-- Two swaps without a price are in one candle.
two_swaps :
    build_candles ints half "p1" "1m" (swap 60_000 "5" "0" ∷ swap 60_500 "7" "0" ∷ [])
    ≡ ok (
        record {
          time = some 60_000;
          pool_id = "p1";
          interval = "1m";
          open_price = "0";
          high = "0";
          low = "0";
          close = "0";
          volume_token0 = "12";
          volume_token1 = "0";
          volume_usd = "0";
          tx_count = 2;
        }
        ∷ [])
unfolding build_candles add_swaps add_to_bucket add_swap calculate_swap_price max_str min_str
    add_str parse_interval match_interval big_int to_string ◌+ℤ◌ sort
two_swaps = refl

half_no_integer : (x : ℤ) → big_int (half x 8) ≡ err syntax_error
unfolding big_int
half_no_integer x = refl

is_10 : big_int "10" ≡ ok (pos 10)
unfolding big_int
is_10 = refl

is_5 : big_int "5" ≡ ok (pos 5)
unfolding big_int
is_5 = refl

build_candles-throws_example :
    (e : Error) × (build_candles ints half "p1" "1m"
        (swap 60_000 "5" "0" ∷ swap 60_500 "10" "5" ∷ [])
      ≡ err e)
build_candles-throws_example =
    build_candles-throws ints half half_no_integer "p1" "1m" (swap 60_000 "5" "0" ∷ []) []
      (swap 60_500 "10" "5") (pos 10) (pos 5) is_10 is_5 refl

abbrev snapshot : ℕ → TvlSnapshot
snapshot time = record {
  time = time;
  pool_id = "p1";
  tvl_usd = "1";
  reserve0 = "1";
  reserve1 = "1";
}

-- Of the snapshots at 0, 5, 12 and 15, one in ten milliseconds is left: the last of each bucket.
resampled :
    resample_snapshots (snapshot 0 ∷ snapshot 5 ∷ snapshot 12 ∷ snapshot 15 ∷ []) 10
    ≡ snapshot 5 ∷ snapshot 15 ∷ []
unfolding resample_snapshots resample_from push_last
resampled = refl
