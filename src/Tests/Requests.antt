-- ===== src/Tests/Requests.antt =====
-- Runs of the requests that build a swap and create a pool.
use soro_pool.Base.{
  ℕ, ◌+◌, ◌*◌, ◌/◌, ◌≤◌, ◌<◌, ◌≡◌, ◌≢◌, refl, ap, inl, String, Bool, true, some, ok, [], leb, ltb,
  leb→le, length, if◌then◌else◌, arith,
}
use soro_pool.Base.Int.{pos, pos_part, ◌-ℤ◌, ◌*ℤ◌, ◌/ℤ◌, quot}
use soro_pool.Js.BigInt.{big_int, to_string, codes}
use soro_pool.Js.Number.{JsNumber}
use soro_pool.Js.Text.{starts_with}
use soro_pool.Requests.{
  Field, number, object, missing, BuildSwap, CreatePool, CreatePoolTx, build_swap, create_pool,
  check_build_swap, is_stellar_address, min_slippage, max_price_impact,
}
use soro_pool.Requests.Checked.{Rounds, build_swap-within, create_pool-refused}
use soro_pool.Routing.Aggregate.{low}
use soro_pool.Swap.{PoolQuote, min_amount_out}
use soro_pool.Swap.Records.{SwapTransaction, build_swap_transaction}
use text.Mathlib.Text.{◌==◌}

-- Numbers in ten thousandths.
abbrev parts : String → ℕ
parts s = if s == "0.001" then 10 else if s == "0.15" then 1500 else 0

abbrev fractions : JsNumber
fractions = record {
  Num = ℕ;
  of_text = parts;
  of_int = λ z. pos_part z * 10_000;
  add = λ a b. a + b;
  sub = λ a b. a;
  mul = λ a b. a * b / 10_000;
  div = λ a b. a;
  lt = ltb;
  abs = λ a. a;
  le = leb;
  floor = λ a. pos (a / 10_000);
  round = λ a. pos (a / 10_000);
}

whole_part : (x : ℕ) → x * (10_000 * 10_000) / 10_000 / 10_000 ≡ x
whole_part x = omega arith

fractions_round : Rounds fractions
fractions_round = record {
  rounds = λ x least most. (x, ap pos (whole_part x), leb→le 10 x least, leb→le x 1500 most);
}

abbrev quote : PoolQuote fractions
quote = record {
  token_in = "A";
  token_out = "B";
  amount_in = "1000";
  amount_out = "2000";
  price_impact = 0;
  pools = [];
  path = [];
  effective_price = 0;
  fee = "3";
  severity = low;
}

abbrev every_number : ℕ → Bool
every_number x = true

abbrev address : String
address = "GABCDEFGHIJKLMNOPQRSTUVWXYZ23456789ABCDEFGHIJKLMNOPQRSTU"

abbrev body : BuildSwap fractions every_number
body = record {
  quote = object quote;
  user_address = Field.text address;
  slippage = number 50;
  deadline = number 600_000;
}

abbrev built : SwapTransaction fractions
built = record {
  quote = some quote;
  user_address = address;
  slippage = 50;
  deadline = 600_000;
  min_out = "1990";
}

build_run : build_swap fractions every_number body ≡ ok built
unfolding build_swap check_build_swap build_swap_transaction is_stellar_address min_slippage
    max_price_impact min_amount_out big_int to_string ◌-ℤ◌ ◌*ℤ◌ ◌/ℤ◌ quot
build_run = refl

is_2000 : big_int "2000" ≡ ok (pos 2000)
unfolding big_int
is_2000 = refl

build_swap-within_example :
    (m : ℕ) × (big_int "1990" ≡ ok (pos m))
    × (8500 * 2000 ≤ 10_000 * m)
    × (10_000 * m < 9990 * 2000 + 10_000)
    × (length (codes address) ≡ 56)
build_swap-within_example =
    build_swap-within fractions every_number fractions_round body quote built 2000 refl is_2000
      build_run

abbrev pool_body : CreatePool fractions every_number
pool_body = record {
  token_a = Field.text "CTOKEN";
  token_b = Field.text address;
  pool_type = Field.text "stableswap";
  fee_tier = number 30_000;
  amplification = missing;
  tick_spacing = missing;
  initial_sqrt_price = missing;
}

abbrev no_tx : CreatePoolTx fractions every_number
no_tx = record {
  factory_address = "f";
  method = "create_constant_product_pool";
  args = ("CTOKEN", address, 30_000);
  network_passphrase = "n";
  pool_type_code = 1;
}

is_contract : starts_with "CTOKEN" "C" ≡ true
unfolding starts_with
is_contract = refl

create_pool-refused_example : create_pool fractions every_number "f" "n" pool_body ≢ ok no_tx
create_pool-refused_example =
    create_pool-refused fractions every_number "f" "n" "CTOKEN" pool_body no_tx is_contract
      (inl refl)
