-- ===== src/Math/Stable/Balanced.antt =====
-- The invariant of a stable pool at the ends: two equal reserves, and one that is empty.
use mathlib.Core.Path.{subst}
use soro_pool.Base.{
  ℕ, zero, suc, ◌+◌, ◌*◌, ◌-◌, ◌<◌, ◌≡◌, refl, sym, ap, ◌∙◌, true, false, List, [], ◌∷◌, Result, ok,
  err, Error, range_error, if◌then◌else◌, ◌>>=◌, arith,
}
use soro_pool.Base.Int.{
  ℤ, pos, ◌+ℤ◌, ◌-ℤ◌, ◌*ℤ◌, ◌/ℤ◌, add_pos, sub_pos, mul_pos, div_pos, div_zero, quot, eqb_ℤ, leb_ℤ,
  int_laws,
}
use native.Mathlib.Nat.{div-eq_of_eq-mul_left}
use soro_pool.Math.Stable.{sum_from, coin, share, ann_of, next_d, abs, is_near, settle, get_d}

sub_self : (x : ℤ) → x -ℤ x ≡ pos 0
sub_self x = grind int_laws

is_near_self : (x : ℤ) → is_near x x ≡ true
is_near_self x = ap (λ z. leb_ℤ (abs z) (pos 1)) (sub_self x)

settle-fixed :
    (step : ℤ → Result ℤ) (rounds : ℕ) (x : ℤ) → step x ≡ ok x → settle step rounds x ≡ ok x
unfolding settle
settle-fixed step zero x h = refl
settle-fixed step (suc rounds) x h =
    ap
      (λ r. r >>= (λ next. elim (is_near next x) as (λ _. Result ℤ) [
        | true ↦ ok next
        | false ↦ settle step rounds next
      ]))
      h
    ∙ ap (λ b. elim b as (λ _. Result ℤ) [ true ↦ ok x | false ↦ settle step rounds x ])
        (is_near_self x)

-- Two equal reserves
abbrev pub balanced : ℕ → List ℤ
balanced x = pos x ∷ pos x ∷ []

-- The product of d and a share of d, for a reserve that is half of d
share-half :
    (x j : ℕ)
    → 0 < x
    → coin (balanced x) j ≡ ok (pos x)
    → share (balanced x) (pos (x + x)) (pos (x + x)) j ≡ ok (pos (x + x))
unfolding share
share-half x j h e =
    rw (e, mul_pos, mul_pos)
      (div_pos _ _ (omega arith)
        ∙ ap (λ n. ok (pos n))
            (div-eq_of_eq-mul_left (omega arith) (ap (λ n. (x + x) * n) (omega arith))))

not_zero : (n : ℕ) → 0 < n → eqb_ℤ (pos n) (pos 0) ≡ false
not_zero n h = ground arith

less_one : (k : ℕ) → pos (suc k) -ℤ pos 1 ≡ pos k
less_one k = sub_pos (suc k) 1 (omega arith) ∙ ap pos (omega arith)

factors : (d k : ℕ) → (suc k * d + d * 2) * d ≡ d * (k * d + 3 * d)
factors d k = omega arith

next_d-balanced :
    (x k : ℕ)
    → 0 < x
    → next_d (balanced x) (pos (x + x)) (pos (suc k)) (pos (x + x)) ≡ ok (pos (x + x))
unfolding next_d
next_d-balanced x k h =
    rw
      (
        share-half x 0 h refl,
        share-half x 1 h refl,
        mul_pos (suc k) (x + x),
        mul_pos (x + x) 2,
        add_pos,
        mul_pos (suc k * (x + x) + (x + x) * 2) (x + x),
        less_one k,
        mul_pos k (x + x),
        add_pos 2 1,
        mul_pos 3 (x + x),
        add_pos (k * (x + x)),
      )
      (div_pos _ _ (omega arith)
        ∙ ap (λ n. ok (pos n)) (div-eq_of_eq-mul_left (omega arith) (factors (x + x) k)))

-- The loop starts from the sum of the reserves, where there are any.
get_d-sum :
    (xs : List ℤ) (a : ℤ) (n : ℕ)
    → sum_from (pos 0) xs ≡ pos n
    → 0 < n
    → get_d xs a ≡ settle (next_d xs (pos n) (ann_of a)) 256 (pos n)
unfolding get_d
get_d-sum xs a n e h =
    ap (λ s. if eqb_ℤ s (pos 0) then ok (pos 0) else settle (next_d xs s (ann_of a)) 256 s) e
    ∙ rw (not_zero n h) refl

sum_two : (x y : ℕ) → sum_from (pos 0) (pos x ∷ pos y ∷ []) ≡ pos (x + y)
unfolding sum_from
sum_two x y = ap (λ s. s +ℤ pos y) (add_pos 0 x) ∙ add_pos (0 + x) y ∙ ap pos (omega arith)

-- A pool with two equal reserves, at least 1 each, and an amplification of at least 1: the invariant is
-- their sum.
pub get_d-balanced :
    (x a : ℕ) → 0 < x → 0 < a → get_d (pos x ∷ pos x ∷ []) (pos a) ≡ ok (pos (x + x))
get_d-balanced x a h some_a =
    let four : pos (suc (a * 4 - 1)) ≡ pos a *ℤ pos 4 = ap pos (omega arith) ∙ sym (mul_pos a 4) in
    get_d-sum (balanced x) (pos a) (x + x) (sum_two x x) (omega arith)
    ∙ settle-fixed _ 256 _ (
        subst (λ n. next_d (balanced x) (pos (x + x)) n (pos (x + x)) ≡ ok (pos (x + x))) four
          (next_d-balanced x (a * 4 - 1) h))

settle-throws :
    (step : ℤ → Result ℤ) (rounds : ℕ) (x : ℤ) (e : Error)
    → step x ≡ err e
    → settle step (suc rounds) x ≡ err e
unfolding settle
settle-throws step rounds x e h = rw h refl

share-empty :
    (xs : List ℤ) (p d : ℤ) (j : ℕ) → coin xs j ≡ ok (pos 0) → share xs p d j ≡ err range_error
unfolding share
share-empty xs p d j e = rw (e, mul_pos) (div_zero _)

div_some : (a : ℤ) (b : ℕ) → 0 < b → a /ℤ pos b ≡ ok (quot a (pos b))
unfolding ◌/ℤ◌
div_some a b h = ground arith

share-held :
    (xs : List ℤ) (p d : ℤ) (j x : ℕ)
    → coin xs j ≡ ok (pos x)
    → 0 < x
    → (q : ℤ) × (share xs p d j ≡ ok q)
unfolding share
share-held xs p d j x e h =
    (quot (d *ℤ p) (pos (x * 2)), rw (e, mul_pos x 2) (div_some (d *ℤ p) (x * 2) (omega arith)))

-- A pool with one reserve of 0 and one that is not: the invariant throws, on a division by 0, whatever the
-- amplification.
pub get_d-one_empty :
    (x : ℕ) (a : ℤ)
    → 0 < x
    → (get_d (pos 0 ∷ pos x ∷ []) a ≡ err range_error)
      × (get_d (pos x ∷ pos 0 ∷ []) a ≡ err range_error)
unfolding next_d
get_d-one_empty x a h =
    let first = pos 0 ∷ pos x ∷ [] in
    let second = pos x ∷ pos 0 ∷ [] in
    let (q, held) = share-held second (pos (x + 0)) (pos (x + 0)) 0 x refl h in
    (
      get_d-sum first a (0 + x) (sum_two 0 x) (omega arith)
          ∙ settle-throws _ 255 _ _
              (rw (share-empty first (pos (0 + x)) (pos (0 + x)) 0 refl) refl),
      get_d-sum second a (x + 0) (sum_two x 0) (omega arith)
          ∙ settle-throws _ 255 _ _ (rw (held, share-empty second (pos (x + 0)) q 1 refl) refl),
    )
