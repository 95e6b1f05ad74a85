-- ===== src/Math/ConstantProduct/Shares.antt =====
-- What `calcLpTokensMinted` and `calcLpTokensBurned` promise.
use soro_pool.Base.{
  ℕ, ◌+◌, ◌-◌, ◌*◌, ◌/◌, ◌≤◌, ◌<◌, String, ◌≡◌, sym, ap, ◌∙◌, arith, ◌⊎◌, inl, inr, Result, ok, err,
  >>=-eq-ok,
}
use soro_pool.Base.Int.{ℤ, pos, pos-injective, ◌*ℤ◌, ◌-ℤ◌, ◌/ℤ◌}
use soro_pool.Js.BigInt.{big_int, to_string}
use soro_pool.Js.BigInt.RoundTrip.{big_int-to_string}
use soro_pool.Math.ConstantProduct.{
  first_mint_big, later_mint_big, lp_minted_big, lp_burned_big, calc_lp_tokens_minted,
  calc_lp_tokens_burned,
}
use soro_pool.Math.ConstantProduct.Sqrt.{IsSqrt, integer_sqrt-IsSqrt}
use native.Mathlib.Nat.{lt-div-mul-add, div-mul-le_self, div-le_of_le-mul, mul-le-mul_right}
use Prim.Native.Nat.{min}
use native.Mathlib.Decide.{dec_le}

later_mint_big-ok :
    (a b x y s : ℕ) {z : ℤ}
    → later_mint_big (pos a) (pos b) (pos x) (pos y) (pos s) ≡ ok z
    → (z ≡ pos (min (a * s / x) (b * s / y))) × (0 < x) × (0 < y)
unfolding later_mint_big ◌*ℤ◌ ◌/ℤ◌
later_mint_big-ok a b x y s e = (ground arith, ground arith, ground arith)

first_mint_big-ok :
    (a b : ℕ) {z : ℤ}
    → first_mint_big (pos a) (pos b) ≡ ok z
    → (lp : ℕ) × (z ≡ pos lp) × (0 < lp) × IsSqrt (a * b) (lp + 1000)
unfolding first_mint_big ◌*ℤ◌ ◌-ℤ◌
first_mint_big-ok a b {z} e =
    let (r, e_r, q) = integer_sqrt-IsSqrt (a * b) in
    (r - 1000, ground arith, ground arith, ground arith)

lp_minted_big-ok :
    (a b x y s : ℕ) {z : ℤ}
    → 0 < s
    → lp_minted_big (pos a) (pos b) (pos x) (pos y) (pos s) ≡ ok z
    → (later_mint_big (pos a) (pos b) (pos x) (pos y) (pos s) ≡ ok z) × (0 < a) × (0 < b)
unfolding lp_minted_big
lp_minted_big-ok a b x y s h e = (ground arith, ground arith, ground arith)

lp_minted_big-first :
    (a b x y : ℕ) {z : ℤ}
    → lp_minted_big (pos a) (pos b) (pos x) (pos y) (pos 0) ≡ ok z
    → first_mint_big (pos a) (pos b) ≡ ok z
unfolding lp_minted_big
lp_minted_big-first a b x y e = ground arith

lp_burned_big-ok :
    (l s x y : ℕ) {z : ℤ × ℤ}
    → lp_burned_big (pos l) (pos s) (pos x) (pos y) ≡ ok z
    → (z ≡ (pos (l * x / s), pos (l * y / s))) × (0 < s) × (0 < l) × (l ≤ s)
unfolding lp_burned_big ◌*ℤ◌ ◌/ℤ◌
lp_burned_big-ok l s x y e = (ground arith, ground arith, ground arith, ground arith)

-- A mint on texts is the bigint part.
minted-value :
    (s_a s_b s_x s_y s_s : String) {a b x y s : ℤ} {t : String}
    → big_int s_a ≡ ok a
    → big_int s_b ≡ ok b
    → big_int s_x ≡ ok x
    → big_int s_y ≡ ok y
    → big_int s_s ≡ ok s
    → calc_lp_tokens_minted s_a s_b s_x s_y s_s ≡ ok t
    → (z : ℤ) × (lp_minted_big a b x y s ≡ ok z) × (big_int t ≡ ok z)
unfolding calc_lp_tokens_minted
minted-value s_a s_b s_x s_y s_s {a} {b} {x} {y} {s} {t} e_a e_b e_x e_y e_s e =
    let (z, e_z, shown) =
      >>=-eq-ok (lp_minted_big a b x y s) _ (rw (e_a, e_b, e_x, e_y, e_s) at e) in
    let same : to_string z ≡ t = cc shown in (z, e_z, ap big_int (sym same) ∙ big_int-to_string z)

min_within :
    (p q n m x y : ℕ)
    → p * x ≤ n
    → q * y ≤ m
    → n < p * x + x
    → m < q * y + y
    → (min p q * x ≤ n) × (min p q * y ≤ m) × ((n < (min p q + 1) * x) ⊎ (m < (min p q + 1) * y))
min_within p q n m x y hp hq fp fq = elim (dec_le p q) [
  | yes h ↦
      let e : min p q ≡ p = omega arith in
      let more : p * y ≤ q * y = mul-le-mul_right y h in
      rw e (omega arith, omega arith, inl (omega arith))
  | no h ↦
      let e : min p q ≡ q = omega arith in
      let more : q * x ≤ p * x = mul-le-mul_right x (omega arith) in
      rw e (omega arith, omega arith, inr (omega arith))
]

-- A later deposit that succeeds (the total supply is positive, the reserves are not negative)
-- mints the largest number of shares that is within both proportions: of neither reserve the
-- shares claim more than the deposit adds to it, and one share more would claim more of one of
-- them.
pub calc_lp_tokens_minted-fair :
    (s_a s_b s_x s_y s_s : String) (a b x y s : ℕ) {t : String}
    → 0 < s
    → big_int s_a ≡ ok (pos a)
    → big_int s_b ≡ ok (pos b)
    → big_int s_x ≡ ok (pos x)
    → big_int s_y ≡ ok (pos y)
    → big_int s_s ≡ ok (pos s)
    → calc_lp_tokens_minted s_a s_b s_x s_y s_s ≡ ok t
    → (lp : ℕ) × (big_int t ≡ ok (pos lp))
      × (lp * x ≤ a * s)
      × (lp * y ≤ b * s)
      × ((a * s < (lp + 1) * x) ⊎ (b * s < (lp + 1) * y))
calc_lp_tokens_minted-fair s_a s_b s_x s_y s_s a b x y s h e_a e_b e_x e_y e_s e =
    let (z, e_z, shown) = minted-value s_a s_b s_x s_y s_s e_a e_b e_x e_y e_s e in
    let (is, hx, hy) = later_mint_big-ok a b x y s (lp_minted_big-ok a b x y s h e_z).0 in
    let (in_x, in_y, tight) =
      min_within (a * s / x) (b * s / y) (a * s) (b * s) x y (div-mul-le_self (a * s) x)
        (div-mul-le_self (b * s) y) (lt-div-mul-add hx) (lt-div-mul-add hy) in
    (min (a * s / x) (b * s / y), shown ∙ ap ok is, in_x, in_y, tight)

-- A first deposit that succeeds (the total supply is 0, the amounts and reserves are not
-- negative) mints the square root of the product of the amounts, rounded down, less 1000, and
-- mints at least 1.
pub calc_lp_tokens_minted-first :
    (s_a s_b s_x s_y s_s : String) (a b x y : ℕ) {t : String}
    → big_int s_a ≡ ok (pos a)
    → big_int s_b ≡ ok (pos b)
    → big_int s_x ≡ ok (pos x)
    → big_int s_y ≡ ok (pos y)
    → big_int s_s ≡ ok (pos 0)
    → calc_lp_tokens_minted s_a s_b s_x s_y s_s ≡ ok t
    → (lp : ℕ) × (big_int t ≡ ok (pos lp)) × (0 < lp) × IsSqrt (a * b) (lp + 1000)
calc_lp_tokens_minted-first s_a s_b s_x s_y s_s a b x y e_a e_b e_x e_y e_s e =
    let (z, e_z, shown) = minted-value s_a s_b s_x s_y s_s e_a e_b e_x e_y e_s e in
    let (lp, is, h, q) = first_mint_big-ok a b (lp_minted_big-first a b x y e_z) in
    (lp, shown ∙ ap ok is, h, q)

abbrev payout : Result (String × String) → String × String
payout (ok u) = u
payout (err _) = ("", "")

burned-value :
    (s_l s_s s_x s_y : String) {l s x y : ℤ} {t : String × String}
    → big_int s_l ≡ ok l
    → big_int s_s ≡ ok s
    → big_int s_x ≡ ok x
    → big_int s_y ≡ ok y
    → calc_lp_tokens_burned s_l s_s s_x s_y ≡ ok t
    → (z : ℤ × ℤ) × (lp_burned_big l s x y ≡ ok z) × (big_int t.0 ≡ ok z.0) × (big_int t.1 ≡ ok z.1)
unfolding calc_lp_tokens_burned
burned-value s_l s_s s_x s_y {l} {s} {x} {y} {t} e_l e_s e_x e_y e =
    let (z, e_z, shown) = >>=-eq-ok (lp_burned_big l s x y) _ (rw (e_l, e_s, e_x, e_y) at e) in
    let one : to_string z.0 ≡ t.0 = ap (λ (u : Result (String × String)). (payout u).0) shown in
    let two : to_string z.1 ≡ t.1 = ap (λ (u : Result (String × String)). (payout u).1) shown in
    (
      z,
      e_z,
      ap big_int (sym one) ∙ big_int-to_string z.0,
      ap big_int (sym two) ∙ big_int-to_string z.1,
    )

share_within :
    (l s x : ℕ)
    → 0 < s
    → l ≤ s
    → (l * x / s ≤ x) × (l * x / s * s ≤ l * x) × (l * x < (l * x / s + 1) * s)
share_within l s x hs h =
    let up = lt-div-mul-add {a = l * x} hs in
    (div-le_of_le-mul s (mul-le-mul_right x h), div-mul-le_self (l * x) s, omega arith)

-- A burn that succeeds on numbers that are not negative pays out, of each reserve, the share of
-- the burned tokens rounded down, and never more than the reserve.
pub calc_lp_tokens_burned-fair :
    (s_l s_s s_x s_y : String) (l s x y : ℕ) {t : String × String}
    → big_int s_l ≡ ok (pos l)
    → big_int s_s ≡ ok (pos s)
    → big_int s_x ≡ ok (pos x)
    → big_int s_y ≡ ok (pos y)
    → calc_lp_tokens_burned s_l s_s s_x s_y ≡ ok t
    → (p q : ℕ) × (big_int t.0 ≡ ok (pos p))
      × (big_int t.1 ≡ ok (pos q))
      × (p ≤ x)
      × (q ≤ y)
      × (p * s ≤ l * x)
      × (l * x < (p + 1) * s)
      × (q * s ≤ l * y)
      × (l * y < (q + 1) * s)
calc_lp_tokens_burned-fair s_l s_s s_x s_y l s x y e_l e_s e_x e_y e =
    let (z, e_z, one, two) = burned-value s_l s_s s_x s_y e_l e_s e_x e_y e in
    let (is, hs, hl, le) = lp_burned_big-ok l s x y e_z in
    let (p_le, p_down, p_up) = share_within l s x hs le in
    let (q_le, q_down, q_up) = share_within l s y hs le in
    (
      l * x / s,
      l * y / s,
      one ∙ ap (λ (w : ℤ × ℤ). ok w.0) is,
      two ∙ ap (λ (w : ℤ × ℤ). ok w.1) is,
      p_le,
      q_le,
      p_down,
      p_up,
      q_down,
      q_up,
    )

back_within : (lp s x a : ℕ) → lp * x ≤ a * s → lp * (x + a) / (s + lp) ≤ a
back_within lp s x a h = div-le_of_le-mul (s + lp) (omega arith)

-- Where a later deposit succeeds (the total supply is positive, the reserves are not negative),
-- and so does burning the minted tokens on the reserves and the supply that the deposit leaves,
-- the burn returns no more of either token than was deposited.
pub mint_then_burn :
    (s_a s_b s_x s_y s_s : String) (a b x y s lp : ℕ) {t : String} {u : String × String}
    → 0 < s
    → big_int s_a ≡ ok (pos a)
    → big_int s_b ≡ ok (pos b)
    → big_int s_x ≡ ok (pos x)
    → big_int s_y ≡ ok (pos y)
    → big_int s_s ≡ ok (pos s)
    → calc_lp_tokens_minted s_a s_b s_x s_y s_s ≡ ok t
    → big_int t ≡ ok (pos lp)
    → calc_lp_tokens_burned t
        (to_string (pos (s + lp)))
        (to_string (pos (x + a)))
        (to_string (pos (y + b)))
      ≡ ok u
    → (p q : ℕ) × (big_int u.0 ≡ ok (pos p)) × (big_int u.1 ≡ ok (pos q)) × (p ≤ a) × (q ≤ b)
mint_then_burn s_a s_b s_x s_y s_s a b x y s lp {t} h e_a e_b e_x e_y e_s e e_t d =
    let (k, e_k, in_x, in_y, tight) =
      calc_lp_tokens_minted-fair s_a s_b s_x s_y s_s a b x y s h e_a e_b e_x e_y e_s e in
    let same : k ≡ lp = pos-injective (cc (e_k, e_t)) in
    let (z, e_z, one, two) =
      burned-value t (to_string (pos (s + lp))) (to_string (pos (x + a))) (to_string (pos (y + b)))
        e_t (big_int-to_string _) (big_int-to_string _) (big_int-to_string _) d in
    let (is, _, _, _) = lp_burned_big-ok lp (s + lp) (x + a) (y + b) e_z in
    (
      lp * (x + a) / (s + lp),
      lp * (y + b) / (s + lp),
      one ∙ ap (λ (w : ℤ × ℤ). ok w.0) is,
      two ∙ ap (λ (w : ℤ × ℤ). ok w.1) is,
      back_within lp s x a (rw same at in_x),
      back_within lp s y b (rw same at in_y),
    )
