-- ===== src/Tests/Tables.antt =====
-- Tables as functions, for the runs of the indexer: every call succeeds.
use soro_pool.Base.{
  String, ◌≡◌, ◌≢◌, ◌⊎◌, refl, true, false, ◌&&◌, Bool-cases, inl, inr, Option, none, some, List,
  ◌∷◌, ok, if◌then◌else◌,
}
use soro_pool.Indexer.Database.{
  Pool, LpPosition, SwapRow, PoolUpdate, updated, Database, DatabaseWorks, VerbatimColumns,
}
use soro_pool.Indexer.Swaps.Raises.{SwapTables}
use text.Mathlib.Text.{◌==◌}
use text.Mathlib.TextEquality.{eq_iff}

pub record Tables : Type 0 where
  pub pools : String → Option Pool
  pub held : String → String → Option LpPosition
  pub swaps : List SwapRow

abbrev pub with_position : LpPosition → Tables → Tables
with_position x s = record s {
  held = λ w p. if (w == x.wallet_address) && (p == x.pool_id) then some x else s.held w p;
}

abbrev pub change_pool : String → PoolUpdate → Option Pool → Option Pool
change_pool p u none = none
change_pool p u (some pool) = if pool.id == p then some (updated u pool) else some pool

abbrev pub with_update : String → PoolUpdate → Tables → Tables
with_update p u s = record s { pools = λ a. change_pool p u (s.pools a) }

abbrev pub with_row : SwapRow → Tables → Tables
with_row x s = record s { swaps = x ∷ s.swaps }

abbrev pub tables : Database Tables
tables = record {
  find_pool = λ a s. (ok (s.pools a), s);
  find_position = λ w p s. (ok (s.held w p), s);
  save_position = λ x s. (ok tt, with_position x s);
  count_positions = λ p s. (ok 1, s);
  save_swap = λ x s. (ok tt, with_row x s);
  update_pool = λ p u s. (ok tt, with_update p u s);
  emit_reserve_update = λ p r0 r1 s. (ok tt, s);
  redis_get = λ key s. (ok none, s);
  redis_del = λ key s. (ok tt, s);
}

pub text_itself : (s : String) → (s == s) ≡ true
text_itself s = (eq_iff s s).1 refl

pub other_text : (s t : String) → s ≢ t → (s == t) ≡ false
other_text s t apart = elim (Bool-cases (s == t)) [
  | inl same ↦ elim (apart ((eq_iff s t).0 same)) [ ]
  | inr other ↦ other
]

pub kept :
    (x : LpPosition) (s : Tables) (w p : String)
    → (w ≢ x.wallet_address) ⊎ (p ≢ x.pool_id)
    → (with_position x s).held w p ≡ s.held w p
kept x s w p (inl apart) = rw (other_text w x.wallet_address apart) refl
kept x s w p (inr apart) = elim (Bool-cases (w == x.wallet_address)) [
  | inl same ↦ rw (same, other_text p x.pool_id apart) refl
  | inr other ↦ rw other refl
]

abbrev pub tables_work : DatabaseWorks tables
tables_work = record {
  pool_at = λ s a. s.pools a;
  position_at = λ s w p. s.held w p;
  put_position = with_position;
  put_update = with_update;
  positions = λ s p. 1;
  finds_pool = λ a s. refl;
  finds_position = λ w p s. refl;
  saves_position = λ x s. refl;
  counts = λ p s. refl;
  updates = λ p u s. refl;
  emits = λ p r0 r1 s. refl;
  position_kept = kept;
  position_update = λ p u s w q. refl;
  pool_put = λ x s a. refl;
}

abbrev pub text_columns : VerbatimColumns tables_work
text_columns = record {
  position_put = λ x s. rw (text_itself x.wallet_address, text_itself x.pool_id) refl;
  pool_update = λ u s a {pool} e. rw (e, text_itself pool.id) refl;
}

abbrev pub swap_tables : SwapTables tables_work
swap_tables = record {
  rows = λ s. s.swaps;
  put_row = with_row;
  saves_swap = λ x s. refl;
  rows_put = λ x s. refl;
  pool_row = λ x s a. refl;
  rows_update = λ p u s. refl;
  pool_get = λ key s a. refl;
  rows_get = λ key s. refl;
  pool_del = λ key s a. refl;
  rows_del = λ key s. refl;
}
