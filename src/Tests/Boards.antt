-- ===== src/Tests/Boards.antt =====
-- Runs of the leaderboard and of the value locked.
use mathlib.Core.List.{Memᴰ}
use soro_pool.Base.{ℕ, ◌≤◌, ◌≡◌, refl, String, true, false, List, [], ◌∷◌, All, length, ok, arith}
use soro_pool.Base.Int.{ℤ, pos, ◌+ℤ◌, ◌-ℤ◌, ltb_ℤ, -ℤ_parts}
use soro_pool.Analytics.Leaderboard.{
  Boards, Provider, is_smaller, add_position, add_positions, get_top_lps,
}
use soro_pool.Analytics.Leaderboard.Counted.{Listed, get_top_lps-Counts}
use soro_pool.Analytics.Leaderboard.Totals.{Apart, Counts}
use soro_pool.Analytics.Tvl.{TvlSnapshot, resample_snapshots}
use soro_pool.Analytics.Tvl.Resampled.{Covered, resample_snapshots-Covered}
use soro_pool.Indexer.Database.{LpPosition}
use soro_pool.Js.BigInt.{big_int}
use soro_pool.Js.Sort.{sort, Pairwise, IsOrdered}
use soro_pool.Routing.Action.{pure}
use soro_pool.Tests.Fixtures.{ints}

abbrev deposit_of : String → String → LpPosition
deposit_of wallet amount = record {
  wallet_address = wallet;
  pool_id = "p";
  lp_token_amount = "0";
  token0_deposited = amount;
  token1_deposited = "1";
  fees_earned_token0 = "0";
  fees_earned_token1 = "0";
}

abbrev positions : List LpPosition
positions = deposit_of "a" "5" ∷ deposit_of "b" "9" ∷ deposit_of "a" "7" ∷ []

abbrev boards : Boards (Unit {0})
boards = record { find_pools = λ order limit. pure []; find_positions = pure positions }

abbrev first_row : Provider ints
first_row = record { wallet_address = "a"; total_value = pos 14; pool_count = 2 }

top_run : get_top_lps ints boards 1 tt ≡ (ok (first_row ∷ []), tt)
unfolding get_top_lps add_position add_positions sort big_int ◌+ℤ◌ ◌-ℤ◌
top_run = refl

sub_asym : (x y : ℤ) → ltb_ℤ (pos 0) (y -ℤ x) ≡ true → ltb_ℤ (pos 0) (x -ℤ y) ≡ false
sub_asym x y h = ground (arith, -ℤ_parts x y, -ℤ_parts y x)

sub_trans :
    (x y z : ℤ)
    → ltb_ℤ (pos 0) (y -ℤ x) ≡ false
    → ltb_ℤ (pos 0) (z -ℤ y) ≡ false
    → ltb_ℤ (pos 0) (z -ℤ x) ≡ false
sub_trans x y z h k = ground (arith, -ℤ_parts y x, -ℤ_parts z y, -ℤ_parts z x)

get_top_lps-Counts_example :
    (rows : List (Provider ints)) × (get_top_lps ints boards 1 tt ≡ (ok rows, tt))
    × (length rows ≤ 1)
    × All (Counts ints positions) rows
    × Pairwise (Apart ints) rows
    × IsOrdered (is_smaller ints) rows
    × All (Listed ints 1 positions rows) positions
get_top_lps-Counts_example =
    get_top_lps-Counts ints (λ a b h. sub_asym a.total_value b.total_value h)
      (λ a b c h k. sub_trans a.total_value b.total_value c.total_value h k) boards 1 tt tt
      positions refl

abbrev snapshot : ℕ → TvlSnapshot
snapshot time = record { time = time; pool_id = "p"; tvl_usd = "1"; reserve0 = "1"; reserve1 = "1" }

abbrev snapshots : List TvlSnapshot
snapshots = snapshot 1 ∷ snapshot 5 ∷ snapshot 11 ∷ []

resample_snapshots-Covered_example :
    All (Covered 10 (resample_snapshots snapshots 10)) snapshots
    × All (λ y. Memᴰ y snapshots) (resample_snapshots snapshots 10)
resample_snapshots-Covered_example =
    resample_snapshots-Covered 10 snapshots (omega arith) (omega arith)
