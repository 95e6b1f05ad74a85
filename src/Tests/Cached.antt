-- ===== src/Tests/Cached.antt =====
-- A run of the swap indexer beside a cache of quotes.
use soro_pool.Base.{String, ◌≡◌, refl, Option, none, some, ok, if◌then◌else◌}
use soro_pool.Indexer.Database.{Database}
use soro_pool.Indexer.Swaps.{index_swap}
use soro_pool.Indexer.Swaps.Stale.{KeepsTexts, index_swap-cache_key}
use soro_pool.Routing.Action.{Action}
use soro_pool.Routing.Quote.{cache_key}
use soro_pool.Tests.Fixtures.{ints}
use soro_pool.Tests.Liquidity.{show, swapped, stored}
use soro_pool.Tests.Tables.{Tables, tables, other_text}
use text.Mathlib.Text.{◌==◌}

-- The tables, and the texts of Redis.
record Beside : Type 0 where
  rows : Tables
  texts : String → Option String

abbrev on_rows : {A : Type 0} → Action Tables A → Action Beside A
on_rows m s = ((m s.rows).0, record s { rows = (m s.rows).1 })

abbrev without : String → Beside → Beside
without key s = record s { texts = λ k. if k == key then none else s.texts k }

abbrev beside : Database Beside
beside = record {
  find_pool = λ a. on_rows (tables.find_pool a);
  find_position = λ w p. on_rows (tables.find_position w p);
  save_position = λ x. on_rows (tables.save_position x);
  count_positions = λ p. on_rows (tables.count_positions p);
  save_swap = λ x. on_rows (tables.save_swap x);
  update_pool = λ p u. on_rows (tables.update_pool p u);
  emit_reserve_update = λ p r0 r1. on_rows (tables.emit_reserve_update p r0 r1);
  redis_get = λ key s. (ok (s.texts key), s);
  redis_del = λ key s. (ok tt, without key s);
}

abbrev keeps_texts : KeepsTexts beside
keeps_texts = record {
  text_at = λ s. s.texts;
  at_find = λ a s k. refl;
  at_save = λ x s k. refl;
  at_update = λ p u s k. refl;
  at_get = λ key s k. refl;
  at_del = λ key s k apart. rw (other_text k key apart) refl;
}

abbrev cached : Beside
cached = record {
  rows = stored;
  texts = λ k. if k == "quote:A:B:100" then some "the quote" else none;
}

index_swap-cache_key_example :
    (index_swap ints show beside swapped cached).1.texts (cache_key "A" "B" "100")
    ≡ some "the quote"
index_swap-cache_key_example =
    index_swap-cache_key ints show beside keeps_texts "A" "" "B" "100" refl swapped cached
