-- ===== src/Tests/Pools.antt =====
-- Runs of the pool mathematics on small pools.
use soro_pool.Base.{
  ℕ, ◌+◌, ◌-◌, ◌*◌, ◌≤◌, ◌<◌, String, ◌≡◌, refl, ok, err, ◌⊎◌, arith, insufficient_output,
}
use soro_pool.Base.Int.{pos, ◌+ℤ◌, ◌-ℤ◌, ◌*ℤ◌, ◌/ℤ◌, quot}
use soro_pool.Js.BigInt.{big_int, to_string}
use soro_pool.Math.ConstantProduct.{
  AmountResult, get_amount_out, get_amount_in, amount_out_big, amount_in_big, price_impact_big,
  calc_lp_tokens_minted, calc_lp_tokens_burned, lp_minted_big, first_mint_big, later_mint_big,
  lp_burned_big,
}
use soro_pool.Math.ConstantProduct.Promises.{
  get_amount_out-keeps_product, get_amount_out-monotone, get_amount_out-no_free_money,
  get_amount_in-buys,
}
use soro_pool.Math.ConstantProduct.Shares.{
  calc_lp_tokens_minted-fair, calc_lp_tokens_minted-first, calc_lp_tokens_burned-fair,
  mint_then_burn,
}
use soro_pool.Math.ConstantProduct.Sqrt.{IsSqrt, integer_sqrt, integer_sqrt-IsSqrt}
use soro_pool.Tests.Fixtures.{ints}

abbrev paid : String → AmountResult ints
paid out = record { amount_out = out; price_impact = pos 0 }

is_0 : big_int "0" ≡ ok (pos 0)
unfolding big_int
is_0 = refl

is_50 : big_int "50" ≡ ok (pos 50)
unfolding big_int
is_50 = refl

is_90 : big_int "90" ≡ ok (pos 90)
unfolding big_int
is_90 = refl

is_100 : big_int "100" ≡ ok (pos 100)
unfolding big_int
is_100 = refl

is_200 : big_int "200" ≡ ok (pos 200)
unfolding big_int
is_200 = refl

is_500 : big_int "500" ≡ ok (pos 500)
unfolding big_int
is_500 = refl

is_550 : big_int "550" ≡ ok (pos 550)
unfolding big_int
is_550 = refl

is_1000 : big_int "1000" ≡ ok (pos 1000)
unfolding big_int
is_1000 = refl

is_1100 : big_int "1100" ≡ ok (pos 1100)
unfolding big_int
is_1100 = refl

is_4000 : big_int "4000" ≡ ok (pos 4000)
unfolding big_int
is_4000 = refl

is_9000 : big_int "9000" ≡ ok (pos 9000)
unfolding big_int
is_9000 = refl

swap_100 : get_amount_out ints "100" "1000" "1000" (pos 30) ≡ ok (paid "90")
unfolding get_amount_out get_amount_in amount_out_big amount_in_big price_impact_big big_int
    to_string ◌+ℤ◌ ◌-ℤ◌ ◌*ℤ◌ ◌/ℤ◌ quot
swap_100 = refl

swap_200 : get_amount_out ints "200" "1000" "1000" (pos 30) ≡ ok (paid "166")
unfolding get_amount_out get_amount_in amount_out_big amount_in_big price_impact_big big_int
    to_string ◌+ℤ◌ ◌-ℤ◌ ◌*ℤ◌ ◌/ℤ◌ quot
swap_200 = refl

swap_back : get_amount_out ints "90" "910" "1100" (pos 30) ≡ ok (paid "98")
unfolding get_amount_out get_amount_in amount_out_big amount_in_big price_impact_big big_int
    to_string ◌+ℤ◌ ◌-ℤ◌ ◌*ℤ◌ ◌/ℤ◌ quot
swap_back = refl

asked_90 : get_amount_in "90" "1000" "1000" (pos 30) ≡ ok "100"
unfolding get_amount_out get_amount_in amount_out_big amount_in_big price_impact_big big_int
    to_string ◌+ℤ◌ ◌-ℤ◌ ◌*ℤ◌ ◌/ℤ◌ quot
asked_90 = refl

-- An input that buys less than one unit is refused.
swap_dust : get_amount_out ints "1" "1000" "1000" (pos 30) ≡ err insufficient_output
unfolding get_amount_out get_amount_in amount_out_big amount_in_big price_impact_big big_int
    to_string ◌+ℤ◌ ◌-ℤ◌ ◌*ℤ◌ ◌/ℤ◌ quot
swap_dust = refl

mint_later : calc_lp_tokens_minted "100" "50" "1000" "500" "1000" ≡ ok "100"
unfolding calc_lp_tokens_minted calc_lp_tokens_burned lp_minted_big first_mint_big later_mint_big
    lp_burned_big integer_sqrt big_int to_string ◌+ℤ◌ ◌-ℤ◌ ◌*ℤ◌ ◌/ℤ◌ quot
mint_later = refl

mint_first : calc_lp_tokens_minted "4000" "9000" "0" "0" "0" ≡ ok "5000"
unfolding calc_lp_tokens_minted calc_lp_tokens_burned lp_minted_big first_mint_big later_mint_big
    lp_burned_big integer_sqrt big_int to_string ◌+ℤ◌ ◌-ℤ◌ ◌*ℤ◌ ◌/ℤ◌ quot
mint_first = refl

burn_after : calc_lp_tokens_burned "100" "1100" "1100" "550" ≡ ok ("100", "50")
unfolding calc_lp_tokens_minted calc_lp_tokens_burned lp_minted_big first_mint_big later_mint_big
    lp_burned_big integer_sqrt big_int to_string ◌+ℤ◌ ◌-ℤ◌ ◌*ℤ◌ ◌/ℤ◌ quot
burn_after = refl

get_amount_out-keeps_product_example :
    (o : ℕ) × (big_int "90" ≡ ok (pos o))
    × (0 < o)
    × (o < 1000)
    × (1000 * 1000 ≤ (1000 + 100) * (1000 - o))
get_amount_out-keeps_product_example =
    get_amount_out-keeps_product ints "100" "1000" "1000" 100 1000 1000 30 (omega arith) is_100
      is_1000 is_1000 swap_100

get_amount_out-monotone_example :
    (o p : ℕ) × (big_int "90" ≡ ok (pos o)) × (big_int "166" ≡ ok (pos p)) × (o ≤ p)
get_amount_out-monotone_example =
    get_amount_out-monotone ints "100" "200" "1000" "1000" 100 200 1000 1000 30 (omega arith)
      (omega arith) is_100 is_200 is_1000 is_1000 swap_100 swap_200

get_amount_out-no_free_money_example : (k : ℕ) × (big_int "98" ≡ ok (pos k)) × (k ≤ 100)
unfolding to_string
get_amount_out-no_free_money_example =
    get_amount_out-no_free_money ints "100" "1000" "1000" 100 1000 1000 30 30 90 (omega arith)
      (omega arith) is_100 is_1000 is_1000 swap_100 is_90 swap_back

get_amount_in-buys_example :
    (r : AmountResult ints) × (k : ℕ) × (get_amount_out ints "100" "1000" "1000" (pos 30) ≡ ok r)
    × (big_int r.amount_out ≡ ok (pos k))
    × (90 ≤ k)
get_amount_in-buys_example =
    get_amount_in-buys ints "90" "1000" "1000" 90 1000 1000 30 (omega arith) is_90 is_1000 is_1000
      asked_90

calc_lp_tokens_minted-fair_example :
    (lp : ℕ) × (big_int "100" ≡ ok (pos lp))
    × (lp * 1000 ≤ 100 * 1000)
    × (lp * 500 ≤ 50 * 1000)
    × ((100 * 1000 < (lp + 1) * 1000) ⊎ (50 * 1000 < (lp + 1) * 500))
calc_lp_tokens_minted-fair_example =
    calc_lp_tokens_minted-fair "100" "50" "1000" "500" "1000" 100 50 1000 500 1000 (omega arith)
      is_100 is_50 is_1000 is_500 is_1000 mint_later

calc_lp_tokens_minted-first_example :
    (lp : ℕ) × (big_int "5000" ≡ ok (pos lp)) × (0 < lp) × IsSqrt (4000 * 9000) (lp + 1000)
calc_lp_tokens_minted-first_example =
    calc_lp_tokens_minted-first "4000" "9000" "0" "0" "0" 4000 9000 0 0 is_4000 is_9000 is_0 is_0
      is_0 mint_first

calc_lp_tokens_burned-fair_example :
    (p q : ℕ) × (big_int "100" ≡ ok (pos p))
    × (big_int "50" ≡ ok (pos q))
    × (p ≤ 1100)
    × (q ≤ 550)
    × (p * 1100 ≤ 100 * 1100)
    × (100 * 1100 < (p + 1) * 1100)
    × (q * 1100 ≤ 100 * 550)
    × (100 * 550 < (q + 1) * 1100)
calc_lp_tokens_burned-fair_example =
    calc_lp_tokens_burned-fair "100" "1100" "1100" "550" 100 1100 1100 550 is_100 is_1100 is_1100
      is_550 burn_after

mint_then_burn_example :
    (p q : ℕ) × (big_int "100" ≡ ok (pos p)) × (big_int "50" ≡ ok (pos q)) × (p ≤ 100) × (q ≤ 50)
unfolding to_string
mint_then_burn_example =
    mint_then_burn "100" "50" "1000" "500" "1000" 100 50 1000 500 1000 100 (omega arith) is_100
      is_50 is_1000 is_500 is_1000 mint_later is_100 burn_after

integer_sqrt-IsSqrt_example : (r : ℕ) × (integer_sqrt (pos 99) ≡ ok (pos r)) × IsSqrt 99 r
integer_sqrt-IsSqrt_example = integer_sqrt-IsSqrt 99
