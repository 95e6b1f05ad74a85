-- ===== src/Tests/Shown.antt =====
-- Runs of the store of pools and of the pages of liquidity.
use soro_pool.Base.{ℕ, String, ◌≡◌, refl, true, none, some, List, [], ◌∷◌, ok}
use soro_pool.Base.Int.{ℤ, pos, ◌*ℤ◌, quot}
use soro_pool.Frontend.Liquidity.{closed_modal, AddPage, lp_tokens_preview}
use soro_pool.Frontend.Pools.{
  PoolView, PoolsReply, listed, no_array, no_pools, PoolsStore, find_listed,
}
use soro_pool.Frontend.Pools.Replayed.{
  Sent, loads, updates, found_after, find_pool-send_all, last_reserves,
}
use soro_pool.Js.BigInt.{big_int, to_string}
use soro_pool.Tests.Fixtures.{ints}

abbrev first_pool : PoolView
first_pool = record {
  id = "p1";
  pool_type = "constant_product";
  token0_symbol = some "A";
  token1_symbol = none;
  reserve0 = some "100";
  reserve1 = some "200";
  lp_count = some 50;
}

abbrev asked : PoolsStore
asked = record { state = no_pools; is_asked = true }

abbrev sent : List Sent
sent = updates "p2" "1" "1" ∷ loads ∷ updates "p1" "300" "400" ∷ []

abbrev reply : PoolsReply
reply = record { data_of = some (listed (first_pool ∷ [])); itself = no_array }

find_pool-send_all_example :
    found_after "p1" sent (ok reply) asked
    ≡ ok (some record first_pool { reserve0 = some "300"; reserve1 = some "400" })
unfolding find_listed last_reserves
find_pool-send_all_example = find_pool-send_all "p1" sent (ok reply) asked refl

abbrev min_int : ℤ → ℤ → ℤ
min_int a b = a

abbrev text_of_int : ℤ → ℕ → String
text_of_int x digits = to_string x

abbrev page : AddPage ints (λ x. x) min_int text_of_int
page = record {
  pool_id = "p1";
  amount_a = "200";
  amount_b = "400";
  modal = closed_modal;
  store = record { state = record no_pools { pools = listed (first_pool ∷ []) }; is_asked = true };
}

lp_run : lp_tokens_preview ints (λ x. x) min_int text_of_int page ≡ ok (pos 100)
unfolding lp_tokens_preview find_listed big_int ◌*ℤ◌ quot
lp_run = refl
