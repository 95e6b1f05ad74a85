-- ===== src/Analytics/Tvl.antt =====
-- backend/src/modules/analytics/tvl.service.ts: the value locked in pools, and its snapshots. The
-- repositories, the clock and the text of a number are parameters.
pub mod Resampled
use soro_pool.Base.{
  ℕ, ◌+◌, String, ◌||◌, Option, none, some, List, [], ◌∷◌, ◌++◌, Result, ok, err, ltb,
  if◌then◌else◌,
}
use soro_pool.Analytics.Interval.{parse_interval}
use soro_pool.Indexer.Database.{Pool}
use soro_pool.Indexer.Liquidity.{swallow}
use soro_pool.Js.Number.{JsNumber}
use soro_pool.Js.Text.{text_or}
use soro_pool.Math.ConstantProduct.{get_spot_price}
use soro_pool.Routing.Action.{Action, pure, ◌>>=◌}
use text.Mathlib.Text.{◌==◌}

-- `TvlSnapshot`
pub record TvlSnapshot : Type 0 where
  pub time : ℕ
  pub pool_id : String
  pub tvl_usd : String
  pub reserve0 : String
  pub reserve1 : String

-- What the service reads and writes; a query is for a pool where it is given, and between two times.
pub record TvlSources (S : Type 0) : Type 0 where
  pub find_active : Action S (List Pool)
  pub find_by_id : String → Action S (Option Pool)
  pub find_snapshots : Option String → Option (ℕ × ℕ) → Action S (List TvlSnapshot)
  pub save_snapshot : TvlSnapshot → Action S Unit
  pub update_tvl : (pool_id tvl_usd : String) → Action S Unit
  pub now : Action S ℕ

-- `bucket[bucket.length - 1]`, put behind the others
unfoldable pub push_last : List TvlSnapshot → List TvlSnapshot → List TvlSnapshot
push_last out [] = out
push_last out (x ∷ []) = out ++ x ∷ []
push_last out (x ∷ y ∷ bucket) = push_last out (y ∷ bucket)

-- The loop of `resampleSnapshots`, with the bucket that is filled and its start
unfoldable pub resample_from :
    ℕ → List TvlSnapshot → List TvlSnapshot → ℕ → List TvlSnapshot → List TvlSnapshot
resample_from ms out bucket start [] = push_last out bucket
resample_from ms out bucket start (snap ∷ snaps) =
    let same_bucket = resample_from ms out (bucket ++ snap ∷ []) start snaps in
    let next_bucket = resample_from ms (push_last out bucket) (snap ∷ []) snap.time snaps in
    if ltb snap.time (start + ms) then same_bucket else next_bucket

-- `resampleSnapshots`
unfoldable pub resample_snapshots : List TvlSnapshot → ℕ → List TvlSnapshot
resample_snapshots [] ms = []
resample_snapshots (snap ∷ snaps) ms = resample_from ms [] [] snap.time (snap ∷ snaps)

-- An empty text counts as missing.
abbrev pub filled : Option String → Option String
filled none = none
filled (some text) = if text == "" then none else some text

-- `Between(from || new Date(0), to || new Date())`, where one of them is given
abbrev pub between : Option ℕ → Option ℕ → ℕ → Option (ℕ × ℕ)
between none none now = none
between (some from) none now = some (from, now)
between none (some to) now = some (0, to)
between (some from) (some to) now = some (from, to)

abbrev pub in_interval : Option String → List TvlSnapshot → List TvlSnapshot
in_interval none snaps = snaps
in_interval (some interval) snaps =
    if interval == "raw" then snaps else resample_snapshots snaps (parse_interval interval)

module _ (num : JsNumber) (show : num.Num → String) where
  abbrev pub with_price : num.Num → num.Num → Result num.Num → num.Num
  with_price r0 r1 (ok price) = num.add (num.mul r0 (num.of_text "1")) (num.mul r1 price)
  with_price r0 r1 (err e) = num.of_text "0"

  -- `computePoolTvl`
  unfoldable pub compute_pool_tvl : Pool → num.Num
  compute_pool_tvl pool =
      let r0 = num.of_text (text_or pool.reserve0 "0") in
      let r1 = num.of_text (text_or pool.reserve1 "0") in
      if num.le r0 (num.of_text "0") || num.le r1 (num.of_text "0")
      then num.of_text "0"
      else with_price r0 r1 (get_spot_price num pool.reserve0 pool.reserve1)

  -- `tvlByPool`, and `totalTvl` from a first value on
  unfoldable pub tvl_by_pool : List Pool → List (String × num.Num)
  tvl_by_pool [] = []
  tvl_by_pool (pool ∷ pools) = (pool.id, compute_pool_tvl pool) ∷ tvl_by_pool pools

  unfoldable pub total_tvl : num.Num → List Pool → num.Num
  total_tvl total [] = total
  total_tvl total (pool ∷ pools) = total_tvl (num.add total (compute_pool_tvl pool)) pools

  abbrev pub tvl_or_zero : Option Pool → num.Num
  tvl_or_zero none = num.of_text "0"
  tvl_or_zero (some pool) = compute_pool_tvl pool

  module _ {S : Type 0} (sources : TvlSources S) where
    -- `getProtocolTvl`
    unfoldable pub get_protocol_tvl : Action S (num.Num × List (String × num.Num))
    get_protocol_tvl = do
      pools ← sources.find_active
      pure (total_tvl (num.of_text "0") pools, tvl_by_pool pools)

    -- `getPoolTvl`
    unfoldable pub get_pool_tvl : String → Action S num.Num
    get_pool_tvl pool_id = do pool ← sources.find_by_id pool_id; pure (tvl_or_zero pool)

    -- `getTvlHistory`
    unfoldable pub get_tvl_history :
        Option String → Option String → Option ℕ → Option ℕ → Action S (List TvlSnapshot)
    get_tvl_history pool_id interval from to = do
      now ← sources.now
      snapshots ← sources.find_snapshots (filled pool_id) (between from to now)
      pure (in_interval (filled interval) snapshots)

    -- The body of the loop for a pool that is still there
    unfoldable pub snapshot_pool : ℕ → String → num.Num → Option Pool → Action S Unit
    snapshot_pool now pool_id tvl none = pure tt
    snapshot_pool now pool_id tvl (some pool) = do
      saved ← sources.save_snapshot record {
        time = now;
        pool_id = pool_id;
        tvl_usd = show tvl;
        reserve0 = pool.reserve0;
        reserve1 = pool.reserve1;
      }
      sources.update_tvl pool_id (show tvl)

    unfoldable pub snapshot_all : ℕ → List (String × num.Num) → Action S Unit
    snapshot_all now [] = pure tt
    snapshot_all now ((pool_id, tvl) ∷ rest) = do
      pool ← sources.find_by_id pool_id
      done ← snapshot_pool now pool_id tvl pool
      snapshot_all now rest

    -- `snapshotTvl`
    unfoldable pub snapshot_tvl : Action S Unit
    snapshot_tvl = swallow (do tvl ← get_protocol_tvl; now ← sources.now; snapshot_all now tvl.1)
