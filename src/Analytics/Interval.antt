-- ===== src/Analytics/Interval.antt =====
-- `parseInterval`, which candlestick.service.ts and tvl.service.ts of backend/src/modules/analytics have
-- alike.
use soro_pool.Base.{
  ℕ, ◌+◌, ◌-◌, ◌*◌, ◌==◌, String, Bool, true, false, Option, none, some, List, [], ◌∷◌,
  if◌then◌else◌,
}
use soro_pool.Js.BigInt.{codes}
use soro_pool.Js.Text.{is_digit}

-- The milliseconds of n units, for the letters of `[smhd]`
abbrev pub in_units : ℕ → ℕ → Option ℕ
in_units n c =
    if c == b's'
    then some (n * 1000)
    else if c == b'm'
    then some (n * 60_000)
    else if c == b'h'
    then some (n * 3_600_000)
    else if c == b'd'
    then some (n * 86_400_000)
    else none

-- The match with `^(\d+)([smhd])$`, after digits that make n where `seen` is true
unfoldable pub match_interval : Bool → ℕ → List ℕ → Option ℕ
match_interval seen n [] = none
match_interval seen n (c ∷ []) = if seen then in_units n c else none
match_interval seen n (c ∷ next ∷ rest) =
    let after = match_interval true (n * 10 + (c - b'0')) (next ∷ rest) in
    if is_digit c then after else none

abbrev pub or_hour : Option ℕ → ℕ
or_hour none = 3_600_000
or_hour (some ms) = ms

-- `parseInterval`
unfoldable pub parse_interval : String → ℕ
parse_interval interval = or_hour (match_interval false 0 (codes interval))
