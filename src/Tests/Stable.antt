-- ===== src/Tests/Stable.antt =====
-- Runs of the stable-swap mathematics.
use soro_pool.Base.{ℕ, ◌≡◌, refl, true, false, [], ◌∷◌, ok, arith}
use soro_pool.Base.Int.{pos, ◌+ℤ◌, ◌-ℤ◌, ◌*ℤ◌, ◌/ℤ◌, quot}
use soro_pool.Js.BigInt.{big_int, to_string}
use soro_pool.Math.Stable.{
  sum_from, share, next_d, settle, get_d, add_coin, get_y, big_ints, add_at, calculate_swap,
  new_balances, calculate_token_amount,
}
use soro_pool.Math.Stable.Amounts.{texts, calculate_token_amount-natural, withdraw-deposit}
use soro_pool.Math.Stable.Balanced.{get_d-balanced}
use soro_pool.Tests.Fixtures.{ints}

get_d-balanced_example : get_d (pos 500 ∷ pos 500 ∷ []) (pos 100) ≡ ok (pos 1000)
get_d-balanced_example = get_d-balanced 500 100 (omega arith) (omega arith)

-- A swap of nothing gives a negative amount.
swap_nothing : calculate_swap ints 0 1 "0" ("1000" ∷ "1000" ∷ []) "100" (pos 4) ≡ ok ("-1", pos 0)
unfolding calculate_swap big_ints add_at get_d get_y add_coin sum_from share next_d settle big_int
    to_string ◌+ℤ◌ ◌-ℤ◌ ◌*ℤ◌ ◌/ℤ◌ quot
swap_nothing = refl

deposit_run : calculate_token_amount ("10" ∷ "10" ∷ []) ("500" ∷ "500" ∷ []) "100" true ≡ ok "20"
unfolding calculate_token_amount big_ints new_balances get_d sum_from share next_d settle big_int
    to_string ◌+ℤ◌ ◌-ℤ◌ ◌*ℤ◌ ◌/ℤ◌ quot
deposit_run = refl

balances_run :
    new_balances ("10" ∷ "10" ∷ []) true 0 ("500" ∷ "500" ∷ []) ≡ ok (pos 510 ∷ pos 510 ∷ [])
unfolding new_balances big_int ◌+ℤ◌ ◌-ℤ◌
balances_run = refl

calculate_token_amount-natural_example : (n : ℕ) × (big_int "20" ≡ ok (pos n))
calculate_token_amount-natural_example =
    calculate_token_amount-natural ("10" ∷ "10" ∷ []) ("500" ∷ "500" ∷ []) "100" true "20"
      deposit_run

withdraw-deposit_example :
    calculate_token_amount ("10" ∷ "10" ∷ []) (texts (pos 510 ∷ pos 510 ∷ [])) "100" false ≡ ok "20"
withdraw-deposit_example =
    withdraw-deposit ("10" ∷ "10" ∷ []) ("500" ∷ "500" ∷ []) "100" "20" (pos 510 ∷ pos 510 ∷ [])
      balances_run deposit_run
