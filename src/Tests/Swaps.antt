-- ===== src/Tests/Swaps.antt =====
-- Runs of the swap service.
use soro_pool.Base.{ℕ, ◌+◌, ◌-◌, ◌*◌, ◌≤◌, ◌<◌, String, ◌≡◌, refl, some, ok, arith, [], ◌∷◌}
use soro_pool.Base.Int.{pos, ◌+ℤ◌, ◌-ℤ◌, ◌*ℤ◌, ◌/ℤ◌, quot}
use soro_pool.Js.BigInt.{big_int, to_string}
use soro_pool.Math.ConstantProduct.{amount_out_big, price_impact_big, get_amount_out}
use soro_pool.Routing.Aggregate.{critical, severity_of}
use soro_pool.Swap.{PoolRecord, PoolQuote, quote_on, pool_quote, min_amount_out}
use soro_pool.Swap.Slippage.{min_amount_out-share}
use soro_pool.Tests.Fixtures.{ints}

abbrev pool : PoolRecord
pool = record {
  id = "p1";
  pool_type = "constant_product";
  token0_symbol = some "A";
  token0_id = "t0";
  reserve0 = "1000";
  reserve1 = "2000";
  fee_bps = pos 30;
}

abbrev quoted : PoolQuote ints
quoted = record {
  token_in = "B";
  token_out = "A";
  amount_in = "400";
  amount_out = "166";
  price_impact = pos 0;
  pools =
      record {
        pool_id = "p1";
        pool_type = "constant_product";
        token_in = "B";
        token_out = "A";
        amount_in = "400";
        amount_out = "166";
        price_impact = pos 0;
        fee = pos 30;
      }
      ∷ [];
  path = "B" ∷ "A" ∷ [];
  effective_price = pos 0;
  fee = "1";
  severity = critical;
}

quote_run : pool_quote ints (some pool) "B" "A" "400" ≡ ok quoted
unfolding pool_quote quote_on severity_of get_amount_out amount_out_big price_impact_big big_int
    to_string ◌+ℤ◌ ◌-ℤ◌ ◌*ℤ◌ ◌/ℤ◌ quot
quote_run = refl

is_166 : big_int "166" ≡ ok (pos 166)
unfolding big_int
is_166 = refl

is_400 : big_int "400" ≡ ok (pos 400)
unfolding big_int
is_400 = refl

is_1000 : big_int "1000" ≡ ok (pos 1000)
unfolding big_int
is_1000 = refl

is_2000 : big_int "2000" ≡ ok (pos 2000)
unfolding big_int
is_2000 = refl

none_cut : ints.round (ints.mul (pos 0) (ints.of_int (pos 10_000))) ≡ pos 0
unfolding ◌*ℤ◌
none_cut = refl

all_cut : ints.round (ints.mul (pos 1) (ints.of_int (pos 10_000))) ≡ pos 10_000
unfolding ◌*ℤ◌
all_cut = refl

min_amount_out-share_example :
    (t : String) × (m : ℕ) × (min_amount_out ints "166" (pos 1) ≡ ok t)
    × (big_int t ≡ ok (pos m))
    × (m ≤ 166)
    × (166 * (10_000 - 10_000) ≤ m * 10_000)
    × (m * 10_000 < 166 * (10_000 - 10_000) + 10_000)
min_amount_out-share_example =
    min_amount_out-share ints "166" (pos 1) 166 10_000 is_166 all_cut (omega arith)
