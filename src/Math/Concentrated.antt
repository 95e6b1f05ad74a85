-- ===== src/Math/Concentrated.antt =====
-- backend/src/shared/amm-math/concentrated.math.ts.
pub mod Ticks
pub mod Price
mod Between
pub mod Step
use soro_pool.Base.{
  ℕ, zero, suc, ◌+◌, ◌-◌, ◌*◌, ◌/◌, ◌%◌, ◌^◌, ◌≡◌, Bool, true, false, ◌||◌, not, Option, none, some,
  List, [], ◌∷◌, ltb, leb, ◌==◌, if◌then◌else◌, Result, ok, err, ◌>>=◌, ◌>>◌, throw_if,
  invalid_tick, invalid_price, invalid_input, zero_liquidity, price_too_low, out_of_rounds,
}
use soro_pool.Base.Int.{ℤ, pos, negsuc, pos_part, neg_part, ◌+ℤ◌, ◌-ℤ◌, ◌*ℤ◌, ◌/ℤ◌, ltb_ℤ, leb_ℤ}

-- `1n << 96n` and `1n << 128n`
abbrev pub q96 : ℕ
q96 = 79228162514264337593543950336

abbrev pub q128 : ℕ
q128 = 340282366920938463463374607431768211456

-- `(1n << 256n) - 1n`
abbrev pub max_u256 : ℕ
max_u256 = 115792089237316195423570985008687907853269984665640564039457584007913129639935

abbrev pub max_tick : ℕ
max_tick = 887272

-- `mulDiv` and `mulDivRoundingUp`
unfoldable pub mul_div : ℤ → ℤ → ℤ → Result ℤ
mul_div a b denominator = a *ℤ b /ℤ denominator

unfoldable pub mul_div_rounding_up : ℤ → ℤ → ℤ → Result ℤ
mul_div_rounding_up a b denominator = (a *ℤ b +ℤ denominator -ℤ pos 1) /ℤ denominator

-- The factors for the bits 1 to 19 of the tick, in 64 bits.
abbrev pub tick_factors : List ℕ
tick_factors =
    0xfff97272373d41a9 ∷ 0xfff2e50f5f6567d4 ∷ 0xffe5caca7e10e4e4 ∷ 0xffcb9843d60f6159
    ∷ 0xff973b41fa98c081 ∷ 0xff2ea16466c96a88 ∷ 0xfe5dee046a99a2a8 ∷ 0xfcbe86c7900a07a3
    ∷ 0xf987a7253ac5d183 ∷ 0xf3392b0822b70106 ∷ 0xe7159475a2c29b76 ∷ 0xd097f3bdfd2022c5
    ∷ 0xa9f746462d70f7fe ∷ 0x70d869a156d29aa3 ∷ 0x31be135f97d32081 ∷ 0x9aa508b5b7a5a10f
    ∷ 0x5d6af8dedb811966 ∷ 0x2216e584f5fa1ebd ∷ 0x48a170392f514d3f ∷ []

-- `(absTick & 2 ** k) !== 0`, for `bits` the tick shifted right by k
abbrev pub odd : ℕ → Bool
odd bits = bits % 2 == 1

-- `(ratio * (factor << 64n)) >> 128n`
abbrev pub scaled : ℕ → ℕ → ℕ
scaled ratio factor = ratio * (factor * 18446744073709551616) / q128

-- The tests on the bits, one for each factor.
unfoldable pub scale_by_bits : List ℕ → ℕ → ℕ → ℕ
scale_by_bits [] bits ratio = ratio
scale_by_bits (factor ∷ factors) bits ratio =
    scale_by_bits factors (bits / 2) (if odd bits then scaled ratio factor else ratio)

-- The ratio for `absTick`.
abbrev pub ratio_of : ℕ → ℕ
ratio_of abs_tick =
    scale_by_bits tick_factors (abs_tick / 2)
      (if odd abs_tick then 0xfffcb933bd6fb4df * 18446744073709551616 else q128)

-- `tickToPrice`
unfoldable pub tick_to_price : ℤ → Result ℤ
tick_to_price tick = do
  throw_if (ltb max_tick (pos_part tick) || ltb max_tick (neg_part tick)) invalid_tick
  let ratio = ratio_of (pos_part tick + neg_part tick)
  signed ← if ltb 0 (pos_part tick) then pos max_u256 /ℤ pos ratio else ok (pos ratio)
  signed /ℤ pos 4294967296

-- `while (price > 2 ** 128) price = price >> 1n`
unfoldable pub halve_down : ℕ → ℕ → Option ℕ
halve_down zero price = none
halve_down (suc rounds) price =
    let shorter = halve_down rounds (price / 2) in if ltb q128 price then shorter else some price

-- `while (price < 2 ** 128) price = price << 1n`
unfoldable pub double_up : ℕ → ℕ → Option ℕ
double_up zero price = none
double_up (suc rounds) price =
    let longer = double_up rounds (price * 2) in if ltb price q128 then longer else some price

-- `while (p > 1n) { p = p >> 1n; msb++; }`
unfoldable pub count_bits : ℕ → ℕ → ℕ → Option ℕ
count_bits zero p msb = none
count_bits (suc rounds) p msb =
    let more = count_bits rounds (p / 2) (suc msb) in if ltb 1 p then more else some msb

abbrev pub rounds_given : Option ℕ → Result ℕ
rounds_given none = err out_of_rounds
rounds_given (some n) = ok n

-- `priceToTick`
unfoldable pub price_to_tick : ℤ → Result ℤ
price_to_tick price = do
  throw_if (leb_ℤ price (pos 0)) invalid_price
  halved ← rounds_given (halve_down (suc (pos_part price)) (pos_part price))
  doubled ← rounds_given (double_up 130 halved)
  msb ← rounds_given (count_bits 130 doubled 0)
  let log2 = (pos msb -ℤ pos 96) *ℤ pos q96
  log2 /ℤ pos q96

abbrev pub lower : ℤ → ℤ → ℤ
lower a b = if ltb_ℤ b a then b else a

abbrev pub upper : ℤ → ℤ → ℤ
upper a b = if ltb_ℤ b a then a else b

-- `getAmount0Delta`
unfoldable pub get_amount0_delta : ℤ → ℤ → ℤ → Bool → Result ℤ
get_amount0_delta a b liquidity round_up =
    let diff = upper a b -ℤ lower a b in
    let numerator = liquidity *ℤ diff in
    let denominator = upper a b *ℤ lower a b in
    if round_up
    then mul_div_rounding_up numerator (pos q96) denominator
    else mul_div numerator (pos q96) denominator

-- `getAmount1Delta`
unfoldable pub get_amount1_delta : ℤ → ℤ → ℤ → Bool → Result ℤ
get_amount1_delta a b liquidity round_up =
    let diff = upper a b -ℤ lower a b in
    if round_up
    then mul_div_rounding_up liquidity diff (pos q96)
    else mul_div liquidity diff (pos q96)

-- The branch of `getNextSqrtPriceFromInput` for token 0, which lowers the price.
unfoldable pub next_price_down : ℤ → ℤ → ℤ → Result ℤ
next_price_down sqrt_p liquidity amount_in = do
  added ← amount_in *ℤ sqrt_p /ℤ pos q96
  let denominator = liquidity +ℤ added
  throw_if (leb_ℤ denominator (pos 0)) zero_liquidity
  next ← liquidity *ℤ sqrt_p /ℤ denominator
  throw_if (ltb_ℤ next (pos 1)) price_too_low
  ok next

-- The branch for token 1. The code computes a first price that it does not use.
unfoldable pub next_price_up : ℤ → ℤ → ℤ → Result ℤ
next_price_up sqrt_p liquidity amount_in = do
  let numerator = liquidity *ℤ pos q96 +ℤ amount_in *ℤ sqrt_p
  unused ← (numerator -ℤ liquidity *ℤ pos q96) /ℤ liquidity
  added ← amount_in *ℤ pos q96 /ℤ liquidity
  ok (sqrt_p +ℤ added)

-- `getNextSqrtPriceFromInput`
unfoldable pub get_next_sqrt_price_from_input : ℤ → ℤ → ℤ → Bool → Result ℤ
get_next_sqrt_price_from_input sqrt_p liquidity amount_in zero_for_one = do
  throw_if (leb_ℤ sqrt_p (pos 0) || leb_ℤ liquidity (pos 0)) invalid_input
  if zero_for_one
      then next_price_down sqrt_p liquidity amount_in
      else next_price_up sqrt_p liquidity amount_in

pub record SwapStepResult : Type 0 where
  pub sqrt_p_next : ℤ
  pub amount_in : ℤ
  pub amount_out : ℤ
  pub fee_amount : ℤ

-- The next price and the input that is used.
unfoldable pub price_and_input : ℤ → ℤ → ℤ → ℤ → Bool → ℤ → Result (ℤ × ℤ)
price_and_input sqrt_p target liquidity after_fee zero_for_one max_in =
    if leb_ℤ max_in after_fee
    then ok (target, max_in)
    else (get_next_sqrt_price_from_input sqrt_p liquidity after_fee zero_for_one >>= λ next.
        ok (next, after_fee))

-- `computeSwapStep`
unfoldable pub compute_swap_step : ℤ → ℤ → ℤ → ℤ → ℤ → Result SwapStepResult
compute_swap_step sqrt_p target liquidity amount_in fee_bps = do
  let zero_for_one = leb_ℤ target sqrt_p
  fee ← amount_in *ℤ fee_bps /ℤ pos 10_000
  let after_fee = amount_in -ℤ fee
  max_in ←
      if zero_for_one
      then get_amount0_delta target sqrt_p liquidity false
      else get_amount1_delta sqrt_p target liquidity false
  (next, used) ← price_and_input sqrt_p target liquidity after_fee zero_for_one max_in
  out ←
      if zero_for_one
      then get_amount1_delta next sqrt_p liquidity false
      else get_amount0_delta sqrt_p next liquidity false
  ok (record { sqrt_p_next = next; amount_in = used; amount_out = out; fee_amount = fee })
