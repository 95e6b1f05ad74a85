-- ===== src/Tests/Steps.antt =====
-- Runs of the concentrated-liquidity mathematics.
use soro_pool.Base.{ℕ, ◌+◌, ◌*◌, ◌/◌, ◌≤◌, ◌<◌, ◌≡◌, refl, ◌⊎◌, ok, err, arith, invalid_tick}
use Prim.Native.Nat.{min, max}
use soro_pool.Base.Int.{pos, negsuc, pos_part, neg_part, ◌+ℤ◌, ◌-ℤ◌, ◌*ℤ◌, ◌/ℤ◌, quot}
use soro_pool.Math.Concentrated.{
  q96, max_tick, scale_by_bits, tick_to_price, price_to_tick, mul_div, get_amount0_delta,
  get_amount1_delta, next_price_down, next_price_up, get_next_sqrt_price_from_input,
  price_and_input, SwapStepResult, compute_swap_step,
}
use soro_pool.Math.Concentrated.Ticks.{tick_to_price-positive}
use soro_pool.Math.Concentrated.Price.{price_to_tick-constant}
use soro_pool.Math.Concentrated.Step.{compute_swap_step-within}

-- Tick 0 has the price 1, in units of 2 ** 96.
tick_zero : tick_to_price (pos 0) ≡ ok (pos q96)
unfolding tick_to_price scale_by_bits ◌/ℤ◌ quot
tick_zero = refl

-- The price at tick -65536 is larger than the price one tick above it.
tick_bit_16 : tick_to_price (negsuc 65535) ≡ ok (pos 47860205403749254861928005632)
unfolding tick_to_price scale_by_bits ◌/ℤ◌ quot
tick_bit_16 = refl

abbrev one_step : SwapStepResult
one_step = record {
  sqrt_p_next = pos (q96 + q96 / 100);
  amount_in = pos 10_000;
  amount_out = pos 9_900;
  fee_amount = pos 30;
}

step_run :
    compute_swap_step (pos q96) (pos (q96 * 2)) (pos 1_000_000) (pos 10_030) (pos 30) ≡ ok one_step
unfolding compute_swap_step price_and_input get_next_sqrt_price_from_input next_price_up
    next_price_down get_amount0_delta get_amount1_delta mul_div ◌+ℤ◌ ◌-ℤ◌ ◌*ℤ◌ ◌/ℤ◌ quot
step_run = refl

tick_below_bit_16 : tick_to_price (negsuc 65534) ≡ ok (pos 2991412397137170523247511263)
unfolding tick_to_price scale_by_bits ◌/ℤ◌ quot
tick_below_bit_16 = refl

tick_to_price-positive_example :
    (((pos_part (negsuc 65535) ≤ max_tick) × (neg_part (negsuc 65535) ≤ max_tick))
      × ((q : ℕ) × (tick_to_price (negsuc 65535) ≡ ok (pos q)) × (0 < q)))
    ⊎ (((max_tick < pos_part (negsuc 65535)) ⊎ (max_tick < neg_part (negsuc 65535)))
        × (tick_to_price (negsuc 65535) ≡ err invalid_tick))
tick_to_price-positive_example = tick_to_price-positive (negsuc 65535)

price_to_tick-constant_example : price_to_tick (pos (q96 * 4)) ≡ ok (pos 32)
price_to_tick-constant_example = price_to_tick-constant (q96 * 4) (omega arith)

compute_swap_step-within_example :
    (n u fee : ℕ) × (one_step.sqrt_p_next ≡ pos n)
    × (one_step.amount_in ≡ pos u)
    × (one_step.fee_amount ≡ pos fee)
    × (u + fee ≤ 10_030)
    × (min q96 (q96 * 2) ≤ n)
    × (n ≤ max q96 (q96 * 2))
compute_swap_step-within_example =
    compute_swap_step-within q96 (q96 * 2) 1_000_000 10_030 30 (omega arith) (omega arith) step_run
