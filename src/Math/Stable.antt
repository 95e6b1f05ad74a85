-- ===== src/Math/Stable.antt =====
-- backend/src/shared/amm-math/stable-swap.math.ts: the invariant of a stable pool of two coins, what a
-- swap gives and what liquidity is worth. A loop of 256 rounds is recursion on the rounds left.
pub mod Balanced
pub mod Amounts
use soro_pool.Base.{
  ℕ, zero, suc, ◌+◌, ◌==◌, Bool, true, false, String, Option, none, some, List, [], ◌∷◌, map,
  get_elem?, Result, ok, err, type_error, if◌then◌else◌, ◌>>=◌,
}
use soro_pool.Base.Int.{ℤ, pos, ◌+ℤ◌, ◌-ℤ◌, ◌*ℤ◌, ◌/ℤ◌, eqb_ℤ, leb_ℤ, ltb_ℤ}
use soro_pool.Js.BigInt.{big_int, to_string}
use soro_pool.Js.Number.{JsNumber}
use soro_pool.Js.Text.{or_default}

-- `N_COINS`
abbrev pub n_coins : ℤ
n_coins = pos 2

-- `abs`
abbrev pub abs : ℤ → ℤ
abs x = if ltb_ℤ x (pos 0) then pos 0 -ℤ x else x

-- `xs.reduce((s, x) => s + x, 0n)`
unfoldable pub sum_from : ℤ → List ℤ → ℤ
sum_from s [] = s
sum_from s (x ∷ xs) = sum_from (s +ℤ x) xs

-- `xs[j]` in arithmetic on bigints, which throws where it is missing
abbrev pub defined : {A : Type 0} → Option A → Result A
defined none = err type_error
defined (some x) = ok x

abbrev pub coin : List ℤ → ℕ → Result ℤ
coin xs j = defined (get_elem? xs j)

-- `(p * d) / (xs[j] * n)`
unfoldable pub share : List ℤ → ℤ → ℤ → ℕ → Result ℤ
share xs d p j = do x ← coin xs j; (p *ℤ d) /ℤ (x *ℤ n_coins)

-- `ann`
abbrev pub ann_of : ℤ → ℤ
ann_of a = a *ℤ pos 4

-- The next value of `d` in `getD`
unfoldable pub next_d : List ℤ → ℤ → ℤ → ℤ → Result ℤ
next_d xs sum ann d = do
  p0 ← share xs d d 0
  p ← share xs d p0 1
  ((ann *ℤ sum +ℤ p *ℤ n_coins) *ℤ d) /ℤ ((ann -ℤ pos 1) *ℤ d +ℤ (n_coins +ℤ pos 1) *ℤ p)

-- `abs(next - last) <= precision`
abbrev pub is_near : ℤ → ℤ → Bool
is_near next last = leb_ℤ (abs (next -ℤ last)) (pos 1)

-- A loop that ends where two values are near, or after so many rounds.
unfoldable pub settle : (ℤ → Result ℤ) → ℕ → ℤ → Result ℤ
settle step zero x = ok x
settle step (suc rounds) x = do
  next ← step x
  elim (is_near next x) [ true ↦ ok next | false ↦ settle step rounds next ]

-- `getD`
unfoldable pub get_d : List ℤ → ℤ → Result ℤ
get_d xs a =
    let sum = sum_from (pos 0) xs in
    if eqb_ℤ sum (pos 0) then ok (pos 0) else settle (next_d xs sum (ann_of a)) 256 sum

-- One round of the loop over the coins in `getY`, on c and s
unfoldable pub add_coin : List ℤ → ℤ → ℕ → ℕ → ℤ × ℤ → Result (ℤ × ℤ)
add_coin xs d i k (c, s) =
    if k == i then ok (c, s) else do x ← coin xs k; c' ← share xs d c k; ok (c', s +ℤ x)

-- The next value of `y` in `getY`
abbrev pub next_y : ℤ → ℤ → ℤ → ℤ → Result ℤ
next_y b c d y = (y *ℤ y +ℤ c) /ℤ (pos 2 *ℤ y +ℤ b -ℤ d)

-- `getY`, whose last parameter is not used
unfoldable pub get_y : List ℤ → ℤ → ℤ → ℕ → ℕ → Result ℤ
get_y xs a d i j = do
  first ← add_coin xs d i 0 (d, pos 0)
  both ← add_coin xs d i 1 first
  c ← (both.0 *ℤ d) /ℤ (ann_of a *ℤ n_coins)
  rest ← d /ℤ ann_of a
  settle (next_y (both.1 +ℤ rest) c d) 256 d

-- `xs.map((x) => BigInt(x))`
unfoldable pub big_ints : List String → Result (List ℤ)
big_ints [] = ok []
big_ints (x ∷ xs) = do value ← big_int x; values ← big_ints xs; ok (value ∷ values)

-- `xVals[i] = xVals[i] + dxVal`
unfoldable pub add_at : ℕ → ℤ → List ℤ → Result (List ℤ)
add_at i dx [] = err type_error
add_at zero dx (x ∷ xs) = ok ((x +ℤ dx) ∷ xs)
add_at (suc i) dx (x ∷ xs) = do rest ← add_at i dx xs; ok (x ∷ rest)

-- `initialY - y - 1n` less the fee
abbrev pub after_fee : ℤ → ℤ → Result ℤ
after_fee dy fee = do fee_amount ← (dy *ℤ fee) /ℤ pos 10_000; ok (dy -ℤ fee_amount)

module _ (num : JsNumber) where
  -- `priceImpact`
  abbrev pub impact : ℤ → ℤ → ℤ → Result num.Num
  impact dy dx y0 =
      if ltb_ℤ (pos 0) dy
      then (do
        share ← (dx *ℤ pos 10_000) /ℤ (y0 +ℤ dx)
        ok (num.div (num.of_int share) (num.of_text "10000")))
      else ok (num.of_text "0")

  -- `calculateSwap`
  unfoldable pub calculate_swap :
      ℕ → ℕ → String → List String → String → ℤ → Result (String × num.Num)
  calculate_swap i j dx xs a fee = do
    xs_value ← big_ints xs
    dx_value ← big_int dx
    a_value ← big_int a
    d ← get_d xs_value a_value
    moved ← add_at i dx_value xs_value
    y ← get_y moved a_value d j i
    text ← defined (get_elem? xs j)
    y0 ← big_int text
    dy ← after_fee (y0 -ℤ y -ℤ pos 1) fee
    price_impact ← impact dy dx_value y0
    ok (to_string dy, price_impact)

-- `newBalances`, from the index i on
unfoldable pub new_balances : List String → Bool → ℕ → List String → Result (List ℤ)
new_balances amounts deposit i [] = ok []
new_balances amounts deposit i (held ∷ rest) = do
  amount ← big_int (or_default (get_elem? amounts i) "0")
  value ← big_int held
  values ← new_balances amounts deposit (suc i) rest
  ok ((if deposit then value +ℤ amount else value -ℤ amount) ∷ values)

-- `diff > 0n ? diff.toString() : '0'`
abbrev pub gain : ℤ → String
gain diff = if ltb_ℤ (pos 0) diff then to_string diff else "0"

-- `calculateTokenAmount`
unfoldable pub calculate_token_amount : List String → List String → String → Bool → Result String
calculate_token_amount amounts deposits a deposit = do
  a_value ← big_int a
  held ← big_ints deposits
  d0 ← get_d held a_value
  balances ← new_balances amounts deposit 0 deposits
  d1 ← get_d balances a_value
  ok (gain (if deposit then d1 -ℤ d0 else d0 -ℤ d1))
