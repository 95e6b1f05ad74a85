-- ===== src/Analytics/Leaderboard/Counted.antt =====
-- What the ranking of providers counts.
use mathlib.Core.List.{Memᴰ}
use soro_pool.Base.{
  ℕ, ◌≤◌, ◌≡◌, refl, ◌∙◌, ◌⊎◌, true, false, none, some, List, [], All, All-take, every_member,
  length, length-take, ok,
}
use soro_pool.Analytics.Leaderboard.{Provider, add_positions, is_smaller, rank, Boards, get_top_lps}
use soro_pool.Analytics.Leaderboard.Totals.{
  totals_of, row_of, row_of-add_positions, Apart, Apart-sym, add_positions-Pairwise, Counts,
  every_row-Counts, row_for, row_of-Memᴰ, totals-found,
}
use soro_pool.Indexer.Database.{LpPosition}
use soro_pool.Js.Number.{JsNumber}
use soro_pool.Js.Sort.{
  sort, All-sort, Pairwise, Pairwise-take, Pairwise-sort, IsOrdered, IsOrdered-take, sort-IsOrdered,
  member-Within, Memᴰ-sort,
}

module _ (num : JsNumber) where
  -- The wallet of the position is in the first rows, or these are as many as the limit and none of them is
  -- of a smaller total.
  abbrev pub Listed : ℕ → List LpPosition → List (Provider num) → LpPosition → Type 0
  Listed limit positions rows p =
      (total : num.Num × ℕ) × (totals_of num p.wallet_address positions none ≡ some total)
      × (Memᴰ (row_for num p.wallet_address total) rows
          ⊎ ((length rows ≡ limit)
              × All (λ row. is_smaller num row (row_for num p.wallet_address total) ≡ false) rows))

  -- The comparison of totals is that of a total preorder: no total is NaN.
  module _ (asym : (a b : Provider num) → is_smaller num a b ≡ true → is_smaller num b a ≡ false)
      (trans : (a b c : Provider num)
        → is_smaller num a b ≡ false
        → is_smaller num b c ≡ false
        → is_smaller num a c ≡ false)
      {S : Type 0} (boards : Boards S) where
    position-Listed :
        (limit : ℕ) (positions : List LpPosition) (p : LpPosition)
        → Memᴰ p positions
        → Listed limit positions (rank num limit positions) p
    unfolding row_of
    position-Listed limit positions p m =
        let rows = add_positions num positions [] in
        let wallet = p.wallet_address in
        let (total, found) = totals-found num p positions none m in
        let held =
          row_of-Memᴰ num wallet rows total
            (row_of-add_positions num wallet positions [] ∙ found) in
        (
          total,
          found,
          member-Within (is_smaller num) limit (row_for num wallet total)
              (sort (is_smaller num) rows) (sort-IsOrdered (is_smaller num) asym trans rows)
              (Memᴰ-sort (is_smaller num) (row_for num wallet total) rows held),
        )

    -- Where the query of the positions returns, getTopLps returns a ranking of at most as many rows as the limit,
    -- in which each row holds the sum of all deposits of its wallet, added up in the order of the
    -- positions, and their number, no wallet stands twice, and no row stands behind one of a smaller
    -- total. The wallet of each position is there, or the ranking is as long as the limit and holds no smaller
    -- total. Totals compare as numbers that are not NaN.
    pub get_top_lps-Counts :
        (limit : ℕ) (s t : S) (positions : List LpPosition)
        → boards.find_positions s ≡ (ok positions, t)
        → (rows : List (Provider num)) × (get_top_lps num boards limit s ≡ (ok rows, t))
          × (length rows ≤ limit)
          × All (Counts num positions) rows
          × Pairwise (Apart num) rows
          × IsOrdered (is_smaller num) rows
          × All (Listed limit positions rows) positions
    unfolding get_top_lps
    get_top_lps-Counts limit s t positions found =
        let rows = add_positions num positions [] in
        let sorted = sort (is_smaller num) rows in
        (
          rank num limit positions,
          rw found refl,
          length-take limit sorted,
          All-take (Counts num positions) limit sorted (
              All-sort (is_smaller num) (Counts num positions) rows
                (every_row-Counts num positions)),
          Pairwise-take (Apart num) limit sorted (
              Pairwise-sort (Apart num) (is_smaller num) (Apart-sym num) rows
                (add_positions-Pairwise num positions [] tt)),
          IsOrdered-take (is_smaller num) limit sorted
              (sort-IsOrdered (is_smaller num) asym trans rows),
          every_member (Listed limit positions (rank num limit positions)) positions
              (position-Listed limit positions),
        )
