-- ===== src/Analytics/Leaderboard/Totals.antt =====
-- What the map of providers holds for each wallet.
use mathlib.Core.List.{Memᴰ}
use soro_pool.Base.{
  ℕ, ◌+◌, String, ◌≡◌, refl, sym, ap, ◌∙◌, false, Bool-cases, inl, inr, Option, none, some, List,
  [], ◌∷◌, All, if◌then◌else◌, arith,
}
use soro_pool.Analytics.Leaderboard.{Provider, deposited, add_position, add_positions}
use soro_pool.Indexer.Database.{LpPosition}
use soro_pool.Js.Number.{JsNumber}
use soro_pool.Js.Sort.{Pairwise}
use text.Mathlib.Text.{◌==◌}
use text.Mathlib.TextEquality.{eq_iff}

some_injective : {A : Type 0} {a b : A} → some a ≡ some b → a ≡ b
some_injective e = cc

module _ (num : JsNumber) where
  open num use {Num, add}

  -- The total and the number of the positions of a wallet, added up in their order from what is known.
  abbrev pub joined_totals : LpPosition → Option (Num × ℕ) → Num × ℕ
  joined_totals p none = (deposited num p, 1)
  joined_totals p (some (total, n)) = (add total (deposited num p), n + 1)

  unfoldable pub totals_of : String → List LpPosition → Option (Num × ℕ) → Option (Num × ℕ)
  totals_of wallet [] known = known
  totals_of wallet (p ∷ ps) known =
      totals_of wallet ps
        (if p.wallet_address == wallet then some (joined_totals p known) else known)

  -- What the map holds for a wallet.
  unfoldable pub row_of : String → List (Provider num) → Option (Num × ℕ)
  row_of wallet [] = none
  row_of wallet (row ∷ rows) =
      if row.wallet_address == wallet
      then some (row.total_value, row.pool_count)
      else row_of wallet rows

  row_of-add_position :
      (wallet : String) (p : LpPosition) (rows : List (Provider num))
      → row_of wallet (add_position num p rows) ≡ (
          if p.wallet_address == wallet
          then some (joined_totals p (row_of wallet rows))
          else row_of wallet rows)
  unfolding row_of add_position
  row_of-add_position wallet p [] = refl
  row_of-add_position wallet p (row ∷ rows) = ground (
    arith,
    eq_iff row.wallet_address p.wallet_address,
    eq_iff row.wallet_address wallet,
    eq_iff p.wallet_address wallet,
    row_of-add_position wallet p rows,
  )

  pub row_of-add_positions :
      (wallet : String) (ps : List LpPosition) (rows : List (Provider num))
      → row_of wallet (add_positions num ps rows) ≡ totals_of wallet ps (row_of wallet rows)
  unfolding totals_of add_positions
  row_of-add_positions wallet [] rows = refl
  row_of-add_positions wallet (p ∷ ps) rows =
      row_of-add_positions wallet ps (add_position num p rows)
      ∙ ap (totals_of wallet ps) (row_of-add_position wallet p rows)

  -- Two rows are of different wallets.
  abbrev pub Apart : Provider num → Provider num → Type 0
  Apart a b = (a.wallet_address == b.wallet_address) ≡ false

  pub Apart-sym : (a b : Provider num) → Apart a b → Apart b a
  Apart-sym a b h =
      ground
        (arith, eq_iff a.wallet_address b.wallet_address, eq_iff b.wallet_address a.wallet_address)

  add_position-Apart :
      (row : Provider num) (p : LpPosition) (rows : List (Provider num))
      → (row.wallet_address == p.wallet_address) ≡ false
      → All (Apart row) rows
      → All (Apart row) (add_position num p rows)
  unfolding add_position
  add_position-Apart row p [] other h = (other, tt)
  add_position-Apart row p (r ∷ rows) other (first, rest) =
      elim (Bool-cases (r.wallet_address == p.wallet_address)) [
        | inl same ↦ rw same (first, rest)
        | inr fresh ↦ rw fresh (first, add_position-Apart row p rows other rest)
      ]

  add_position-Pairwise :
      (p : LpPosition) (rows : List (Provider num))
      → Pairwise Apart rows
      → Pairwise Apart (add_position num p rows)
  unfolding add_position
  add_position-Pairwise p [] h = (tt, tt)
  add_position-Pairwise p (row ∷ rows) (first, h) =
      elim (Bool-cases (row.wallet_address == p.wallet_address)) [
        | inl same ↦ rw same (first, h)
        | inr fresh ↦
            rw fresh (add_position-Apart row p rows fresh first, add_position-Pairwise p rows h)
      ]

  pub add_positions-Pairwise :
      (ps : List LpPosition) (rows : List (Provider num))
      → Pairwise Apart rows
      → Pairwise Apart (add_positions num ps rows)
  unfolding add_positions
  add_positions-Pairwise [] rows h = h
  add_positions-Pairwise (p ∷ ps) rows h =
      add_positions-Pairwise ps (add_position num p rows) (add_position-Pairwise p rows h)

  -- What a row says is what the map holds for its wallet.
  abbrev Says : List (Provider num) → Provider num → Type 0
  Says rows row = row_of row.wallet_address rows ≡ some (row.total_value, row.pool_count)

  Says-behind :
      (row : Provider num) (known rows : List (Provider num))
      → All (Apart row) rows
      → All (Says known) rows
      → All (Says (row ∷ known)) rows
  unfolding row_of
  Says-behind row known [] apart says = tt
  Says-behind row known (r ∷ rows) (first, apart) (said, says) =
      (rw (first) said, Says-behind row known rows apart says)

  every_row-Says : (rows : List (Provider num)) → Pairwise Apart rows → All (Says rows) rows
  unfolding row_of
  every_row-Says [] h = tt
  every_row-Says (row ∷ rows) (apart, h) = (
    rw ((eq_iff row.wallet_address row.wallet_address).1 refl) refl,
    Says-behind row rows rows apart (every_row-Says rows h),
  )

  -- The row is what the positions of its wallet come to.
  abbrev pub Counts : List LpPosition → Provider num → Type 0
  Counts positions row =
      totals_of row.wallet_address positions none ≡ some (row.total_value, row.pool_count)

  All-map :
      {P Q : Provider num → Type 0} (rows : List (Provider num))
      → ((row : Provider num) → P row → Q row)
      → All P rows
      → All Q rows
  All-map [] f h = tt
  All-map (row ∷ rows) f (p, h) = (f row p, All-map rows f h)

  pub every_row-Counts :
      (positions : List LpPosition) → All (Counts positions) (add_positions num positions [])
  unfolding row_of
  every_row-Counts positions =
      let rows = add_positions num positions [] in
      All-map rows (λ row says. sym (row_of-add_positions row.wallet_address positions []) ∙ says)
        (every_row-Says rows (add_positions-Pairwise positions [] tt))

  -- What the positions of a wallet come to, as a row.
  abbrev pub row_for : String → Num × ℕ → Provider num
  row_for wallet known = record {
    wallet_address = wallet;
    total_value = known.0;
    pool_count = known.1;
  }

  same_row :
      (wallet : String) (known : Num × ℕ) (row : Provider num)
      → row.wallet_address ≡ wallet
      → (row.total_value, row.pool_count) ≡ known
      → row_for wallet known ≡ row
  same_row wallet known row e f = rw (sym e, sym f) refl

  pub row_of-Memᴰ :
      (wallet : String) (rows : List (Provider num)) (known : Num × ℕ)
      → row_of wallet rows ≡ some known
      → Memᴰ (row_for wallet known) rows
  unfolding row_of
  row_of-Memᴰ wallet [] known e = cc
  row_of-Memᴰ wallet (row ∷ rows) known e = elim (Bool-cases (row.wallet_address == wallet)) [
    | inl same ↦ Memᴰ.head (
        let held : some (row.total_value, row.pool_count) ≡ some known = rw same at e in
        same_row wallet known row ((eq_iff row.wallet_address wallet).0 same) (some_injective held))
    | inr other ↦ Memᴰ.tail (row_of-Memᴰ wallet rows known (rw other at e))
  ]

  totals-kept :
      (wallet : String) (ps : List LpPosition) (known : Num × ℕ)
      → (total : Num × ℕ) × (totals_of wallet ps (some known) ≡ some total)
  unfolding totals_of
  totals-kept wallet [] known = (known, refl)
  totals-kept wallet (p ∷ ps) known = elim (Bool-cases (p.wallet_address == wallet)) [
    | inl own ↦ rw own (totals-kept wallet ps (joined_totals p (some known)))
    | inr other ↦ rw other (totals-kept wallet ps known)
  ]

  pub totals-found :
      (p : LpPosition) (ps : List LpPosition) (known : Option (Num × ℕ))
      → Memᴰ p ps
      → (total : Num × ℕ) × (totals_of p.wallet_address ps known ≡ some total)
  unfolding totals_of
  totals-found p [] known m = elim m [ ]
  totals-found p (q ∷ ps) known (Memᴰ.head e) =
      rw (sym e, (eq_iff p.wallet_address p.wallet_address).1 refl)
        (totals-kept p.wallet_address ps (joined_totals p known))
  totals-found p (q ∷ ps) known (Memᴰ.tail m) =
      totals-found p ps
        (if q.wallet_address == p.wallet_address then some (joined_totals q known) else known) m
