-- ===== src/Math/Stable/Amounts.antt =====
-- What liquidity in a stable pool is worth in pool tokens.
use soro_pool.Base.{
  ℕ, suc, String, ◌≡◌, refl, sym, ap, ◌∙◌, Bool, true, false, List, [], ◌∷◌, get_elem?, ok,
  if◌then◌else◌, >>=-eq-ok, ok-injective, Bool-cases, inl, inr, arith,
}
use mathlib.Core.Path.{subst}
use soro_pool.Base.Int.{ℤ, pos, negsuc, ◌+ℤ◌, ◌-ℤ◌, ltb_ℤ, sub_add}
use soro_pool.Js.BigInt.{big_int, to_string}
use soro_pool.Js.BigInt.RoundTrip.{big_int-to_string}
use soro_pool.Js.Text.{or_default}
use soro_pool.Math.Stable.{big_ints, get_d, new_balances, gain, calculate_token_amount}

positive : (d : ℤ) → ltb_ℤ (pos 0) d ≡ true → (n : ℕ) × (d ≡ pos n)
positive (pos n) h = (n, refl)
positive (negsuc n) h = ground arith

gain-reads : (d : ℤ) → (n : ℕ) × (big_int (gain d) ≡ ok (pos n))
unfolding to_string
gain-reads d = elim (Bool-cases (ltb_ℤ (pos 0) d)) [
  | inl above ↦
      let (n, e) = positive d above in (n, rw above (big_int-to_string d ∙ ap (λ z. ok z) e))
  | inr below ↦ (0, rw below (big_int-to_string (pos 0)))
]

-- The amount that a call returns is the text of a number that is not negative.
pub calculate_token_amount-natural :
    (amounts deposits : List String) (a : String) (deposit : Bool) (text : String)
    → calculate_token_amount amounts deposits a deposit ≡ ok text
    → (n : ℕ) × (big_int text ≡ ok (pos n))
unfolding calculate_token_amount
calculate_token_amount-natural amounts deposits a deposit text e =
    let (a_value, _, e1) = >>=-eq-ok (big_int a) _ e in
    let (held, _, e2) = >>=-eq-ok (big_ints deposits) _ e1 in
    let (d0, _, e3) = >>=-eq-ok (get_d held a_value) _ e2 in
    let (balances, _, e4) = >>=-eq-ok (new_balances amounts deposit 0 deposits) _ e3 in
    let (d1, _, e5) = >>=-eq-ok (get_d balances a_value) _ e4 in
    let (n, reads) = gain-reads (if deposit then d1 -ℤ d0 else d0 -ℤ d1) in
    (n, ap big_int (sym (ok-injective e5)) ∙ reads)

-- The balances as texts again
abbrev pub texts : List ℤ → List String
texts [] = []
texts (y ∷ ys) = to_string y ∷ texts ys

big_ints-texts : (ys : List ℤ) → big_ints (texts ys) ≡ ok ys
unfolding big_ints
big_ints-texts [] = refl
big_ints-texts (y ∷ ys) = rw (big_int-to_string y, big_ints-texts ys) refl

-- Taking the amounts away from the balances with the amounts added gives the balances.
back_balances :
    (amounts : List String) (i : ℕ) (deposits : List String) (xs ys : List ℤ)
    → big_ints deposits ≡ ok xs
    → new_balances amounts true i deposits ≡ ok ys
    → new_balances amounts false i (texts ys) ≡ ok xs
unfolding big_ints new_balances
back_balances amounts i [] xs ys e h = rw (sym (ok-injective h)) e
back_balances amounts i (held ∷ rest) xs ys e h =
    let (amount, is_amount, h1) = >>=-eq-ok (big_int (or_default (get_elem? amounts i) "0")) _ h in
    let (value, is_value, h2) = >>=-eq-ok (big_int held) _ h1 in
    let (values, is_values, h3) = >>=-eq-ok (new_balances amounts true (suc i) rest) _ h2 in
    let (value', is_value', e1) = >>=-eq-ok (big_int held) _ e in
    let (xs', is_rest, e2) = >>=-eq-ok (big_ints rest) _ e1 in
    let same : value ≡ value' = ok-injective (sym is_value ∙ is_value') in
    let ih = back_balances amounts (suc i) rest xs' values is_rest is_values in
    subst (λ zs. new_balances amounts false i (texts zs) ≡ ok xs) (ok-injective h3)
      (rw (is_amount, big_int-to_string (value +ℤ amount), ih, sub_add value amount)
        (ap (λ v. ok (v ∷ xs')) same ∙ e2))

taken :
    (amounts deposits : List String) (a : String) (deposit : Bool) {a_value d0 d1 : ℤ}
    {held balances : List ℤ}
    → big_int a ≡ ok a_value
    → big_ints deposits ≡ ok held
    → get_d held a_value ≡ ok d0
    → new_balances amounts deposit 0 deposits ≡ ok balances
    → get_d balances a_value ≡ ok d1
    → calculate_token_amount amounts deposits a deposit
      ≡ ok (gain (if deposit then d1 -ℤ d0 else d0 -ℤ d1))
unfolding calculate_token_amount
taken amounts deposits a deposit e_a e_held e_d0 e_balances e_d1 =
    rw (e_a, e_held, e_d0, e_balances, e_d1) refl

-- What a deposit of some amounts gives is what the withdrawal of the same amounts from the balances after it
-- takes back, wherever the deposit is computed without a throw.
pub withdraw-deposit :
    (amounts deposits : List String) (a text : String) (ys : List ℤ)
    → new_balances amounts true 0 deposits ≡ ok ys
    → calculate_token_amount amounts deposits a true ≡ ok text
    → calculate_token_amount amounts (texts ys) a false ≡ ok text
unfolding calculate_token_amount
withdraw-deposit amounts deposits a text ys after e =
    let (a_value, is_a, e1) = >>=-eq-ok (big_int a) _ e in
    let (xs, is_xs, e2) = >>=-eq-ok (big_ints deposits) _ e1 in
    let (d0, is_d0, e3) = >>=-eq-ok (get_d xs a_value) _ e2 in
    let (balances, is_balances, e4) = >>=-eq-ok (new_balances amounts true 0 deposits) _ e3 in
    let (d1, is_d1, e5) = >>=-eq-ok (get_d balances a_value) _ e4 in
    let same : balances ≡ ys = ok-injective (sym is_balances ∙ after) in
    let is_d1' = subst (λ b. get_d b a_value ≡ ok d1) same is_d1 in
    taken amounts (texts ys) a false is_a (big_ints-texts ys) is_d1'
      (back_balances amounts 0 deposits xs ys is_xs after) is_d0
    ∙ e5
