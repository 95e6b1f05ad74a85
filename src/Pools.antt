-- ===== src/Pools.antt =====
-- backend/src/modules/pools/pools.service.ts: the queries of pools, their figures, and the updates of
-- reserves and of the value locked. The repository is a parameter.
use soro_pool.Base.{
  ℕ, ◌-◌, ◌*◌, ◌==◌, String, Option, none, some, List, Result, ok, err, not_found, if◌then◌else◌,
}
use soro_pool.Js.Number.{JsNumber}
use soro_pool.Routing.Action.{Action, pure, lift, ◌>>=◌}
use text.Mathlib.Text as T

-- The filters of `findAll`, and the page that is wanted
pub record PoolFilters : Type 0 where
  pub pool_type : Option String
  pub token_a : Option String
  pub token_b : Option String

pub record Pagination : Type 0 where
  pub page : Option ℕ
  pub limit : Option ℕ

-- The columns that figures are computed from
pub record PoolFigures : Type 0 where
  pub reserve0 : String
  pub reserve1 : String
  pub tvl_usd : Option String
  pub volume24h_usd : Option String
  pub fee_revenue24h : Option String
  pub lp_count : ℕ

-- The repository, for pools of a type P. A query skips some rows and takes some, and counts all.
pub record PoolRepository (S : Type 0) (P : Type 0) : Type 0 where
  pub find_page : PoolFilters → (skip take : ℕ) → Action S (List P × ℕ)
  pub find_id : String → Action S (Option P)
  pub find_address : String → Action S (Option P)
  pub find_pair : (token_a token_b : String) → Option ℕ → Action S (List P)
  pub update_reserves : (id reserve0 reserve1 : String) → Action S Unit
  pub update_tvl : (id tvl_usd : String) → Action S Unit
  pub figures : P → PoolFigures

-- An empty text and the number 0 count as missing.
abbrev pub given_text : Option String → Option String
given_text none = none
given_text (some text) = if T.◌==◌ text "" then none else some text

abbrev pub given_number : Option ℕ → Option ℕ
given_number none = none
given_number (some n) = if n == 0 then none else some n

abbrev pub given_or : Option ℕ → ℕ → ℕ
given_or none n = n
given_or (some m) n = if m == 0 then n else m

abbrev pub given_filters : PoolFilters → PoolFilters
given_filters f = record {
  pool_type = given_text f.pool_type;
  token_a = given_text f.token_a;
  token_b = given_text f.token_b;
}

-- What `findAll` returns
pub record PoolPage (P : Type 0) : Type 0 where
  pub pools : List P
  pub total : ℕ
  pub page : ℕ
  pub limit : ℕ

module _ {S : Type 0} {P : Type 0} (repository : PoolRepository S P) where
  -- `findAll`
  unfoldable pub find_all : PoolFilters → Pagination → Action S (PoolPage P)
  find_all filters pagination =
      let page = given_or pagination.page 1 in
      let limit = given_or pagination.limit 20 in
      do
        found ← repository.find_page (given_filters filters) ((page - 1) * limit) limit
        pure record { pools = found.0; total = found.1; page = page; limit = limit }

  abbrev pub or_not_found : Option P → Result P
  or_not_found none = err not_found
  or_not_found (some pool) = ok pool

  -- `findById`
  unfoldable pub find_by_id : String → Action S P
  find_by_id id = do pool ← repository.find_id id; lift (or_not_found pool)

  -- `findByTokens`
  unfoldable pub find_by_tokens : String → String → Option ℕ → Action S (List P)
  find_by_tokens token_a token_b fee_bps =
      repository.find_pair token_a token_b (given_number fee_bps)

  module _ (num : JsNumber) where
    -- `text ? Number(text) : 0`
    abbrev pub number_or_zero : Option String → num.Num
    number_or_zero none = num.of_text "0"
    number_or_zero (some text) = if T.◌==◌ text "" then num.of_text "0" else num.of_text text

    -- What `getPoolStats` returns, with the figures of the pool
    pub record PoolStats : Type 0 where
      pub pool_id : String
      pub spot_price : num.Num
      pub tvl : num.Num
      pub volume24h : num.Num
      pub fees24h : num.Num
      pub apr : num.Num
      pub reserve0 : String
      pub reserve1 : String
      pub lp_count : ℕ

    abbrev pub spot_price_of : PoolFigures → num.Num
    spot_price_of f =
        if num.lt (num.of_text "0") (num.of_text f.reserve0)
        then num.div (num.of_text f.reserve1) (num.of_text f.reserve0)
        else num.of_text "0"

    -- `tvl > 0 ? (fees24h * 365 * 100) / tvl : 0`
    abbrev pub apr_of : num.Num → num.Num → num.Num
    apr_of fees tvl =
        if num.lt (num.of_text "0") tvl
        then num.div (num.mul (num.mul fees (num.of_text "365")) (num.of_text "100")) tvl
        else num.of_text "0"

    unfoldable pub stats_of : String → PoolFigures → PoolStats
    stats_of id f = record {
      pool_id = id;
      spot_price = spot_price_of f;
      tvl = number_or_zero f.tvl_usd;
      volume24h = number_or_zero f.volume24h_usd;
      fees24h = number_or_zero f.fee_revenue24h;
      apr = apr_of (number_or_zero f.fee_revenue24h) (number_or_zero f.tvl_usd);
      reserve0 = f.reserve0;
      reserve1 = f.reserve1;
      lp_count = f.lp_count;
    }

    -- `getPoolStats`
    unfoldable pub get_pool_stats : String → Action S PoolStats
    get_pool_stats id = do pool ← find_by_id id; pure (stats_of id (repository.figures pool))
