-- ===== src/Tests/Decimals.antt =====
-- A run of the indexers on decimal columns.
use text.Mathlib.TextLemmas.{cons-append}
use Prim.Native.String.{◌++◌}
use soro_pool.Base.{String, ◌≡◌, refl, ap, inl, inr, Option, none, some, ok}
use soro_pool.Indexer.Database.{Pool, LpPosition, Database, DatabaseWorks}
use soro_pool.Indexer.Decimals.{
  DecimalText, DecimalColumns, PositionAtMost, index_mint-DecimalColumns, index_swap-DecimalColumns,
}
use soro_pool.Indexer.Events.{mint}
use soro_pool.Indexer.Liquidity.{index_mint, index_burn}
use soro_pool.Indexer.Swaps.{index_swap}
use soro_pool.Tests.Fixtures.{ints}
use soro_pool.Tests.Liquidity.{event, show, swapped, stored}
use soro_pool.Tests.Tables.{Tables, tables, with_position, with_update, kept}
use mathlib.Core.Path.{subst}
use mathlib.Core.Option.{some-injective}

abbrev decimal : String → String
decimal text = text ++ ".000000000000000000"

decimal-DecimalText : (text : String) → DecimalText (decimal text)
decimal-DecimalText String.[] = inl refl
decimal-DecimalText (String.◌∷◌ c s) =
    rw (cons-append c s ".000000000000000000") (inr (decimal-DecimalText s))

abbrev read_pool : Option Pool → Option Pool
read_pool none = none
read_pool (some p) = some record p { reserve0 = decimal p.reserve0; reserve1 = decimal p.reserve1 }

abbrev read_position : Option LpPosition → Option LpPosition
read_position none = none
read_position (some p) = some record p { lp_token_amount = decimal p.lp_token_amount }

-- The tables, where every amount is read with its places.
abbrev decimals : Database Tables
decimals = record tables {
  find_pool = λ a s. (ok (read_pool (s.pools a)), s);
  find_position = λ w p s. (ok (read_position (s.held w p)), s);
}

abbrev decimals_work : DatabaseWorks decimals
decimals_work = record {
  pool_at = λ s a. read_pool (s.pools a);
  position_at = λ s w p. read_position (s.held w p);
  put_position = with_position;
  put_update = with_update;
  positions = λ s p. 1;
  finds_pool = λ a s. refl;
  finds_position = λ w p s. refl;
  saves_position = λ x s. refl;
  counts = λ p s. refl;
  updates = λ p u s. refl;
  emits = λ p r0 r1 s. refl;
  position_kept = λ x s w p apart. ap read_position (kept x s w p apart);
  position_update = λ p u s w q. refl;
  pool_put = λ x s a. refl;
}

pool-DecimalText :
    (stored : Option Pool) (pool : Pool) → read_pool stored ≡ some pool → DecimalText pool.reserve0
pool-DecimalText none pool e = cc
pool-DecimalText (some p) pool e =
    subst (λ (q : Pool). DecimalText q.reserve0) (some-injective _ _ e)
      (decimal-DecimalText p.reserve0)

position-DecimalText :
    (stored : Option LpPosition) (position : LpPosition)
    → read_position stored ≡ some position
    → DecimalText position.lp_token_amount
position-DecimalText none position e = cc
position-DecimalText (some p) position e =
    subst (λ (q : LpPosition). DecimalText q.lp_token_amount) (some-injective _ _ e)
      (decimal-DecimalText p.lp_token_amount)

abbrev decimal_columns : DecimalColumns decimals_work
decimal_columns = record {
  reserve0_text = λ s a pool e. pool-DecimalText (s.pools a) pool e;
  tokens_text = λ s w p position e. position-DecimalText (s.held w p) position e;
}

index_mint-DecimalColumns_example :
    ((index_mint decimals (event mint) stored).0 ≡ ok tt)
    × PositionAtMost decimals decimals_work decimal_columns
        (event mint)
        stored
        (index_mint decimals (event mint) stored).1
    × (index_burn decimals (event mint) stored ≡ (ok tt, stored))
index_mint-DecimalColumns_example =
    index_mint-DecimalColumns decimals decimals_work decimal_columns (event mint) stored

index_swap-DecimalColumns_example : index_swap ints show decimals swapped stored ≡ (ok tt, stored)
index_swap-DecimalColumns_example =
    index_swap-DecimalColumns decimals decimals_work decimal_columns ints show swapped stored
