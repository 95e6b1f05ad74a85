-- ===== src/Frontend/AmmMath/Agrees.antt =====
-- That the pages compute the amounts of the server.
use soro_pool.Base.{
  ℕ, zero, suc, ◌+◌, ◌/◌, ◌≡◌, refl, ◌∙◌, Bool, true, false, ◌||◌, Bool-cases, inl, inr, ok, ltb,
  ltb→lt, lt→leb, if◌then◌else◌, >>=-eq-ok, throw_if, arith, ◌<◌, invalid_input,
  insufficient_output, insufficient_liquidity, zero_liquidity,
}
use soro_pool.Base.Int.{ℤ, pos, negsuc, ◌-ℤ◌, ◌*ℤ◌, eqb_ℤ, leb_ℤ}
use soro_pool.Frontend.AmmMath.{
  page_amount_out, page_amount_in, page_sqrt_loop, page_sqrt, page_first_mint, page_later_mint,
  page_lp_minted,
}
use soro_pool.Math.ConstantProduct.{
  not_positive, amount_out_big, amount_in_big, first_mint_big, later_mint_big, lp_minted_big,
}
use soro_pool.Math.ConstantProduct.Sqrt.{sqrt_loop, integer_sqrt}

half_below : (r q : ℕ) → q < r → (r + q) / 2 < r
half_below r q h = omega arith

-- The server's test for a next value that is not below never holds in a round.
loops_agree : (fuel x r : ℕ) → page_sqrt_loop fuel x r ≡ sqrt_loop fuel x r
unfolding page_sqrt_loop sqrt_loop
loops_agree zero x r = refl
loops_agree (suc fuel) x r = elim (Bool-cases (ltb (x / r) r)) [
  | inl above ↦
      rw (above, lt→leb r ((r + x / r) / 2) (half_below r (x / r) (ltb→lt (x / r) r above)))
        (loops_agree fuel x ((r + x / r) / 2))
  | inr below ↦ rw below refl
]

sqrt_agrees : (x s : ℤ) → integer_sqrt x ≡ ok s → page_sqrt x ≡ ok s
unfolding integer_sqrt page_sqrt
sqrt_agrees (negsuc x) s e = cc
sqrt_agrees (pos x) s e = rw (loops_agree (suc x) x x) e

-- Where the server returns an output, the page computes the same.
out_agrees : (a r0 r1 f x : ℤ) → amount_out_big a r0 r1 f ≡ ok x → page_amount_out a r0 r1 f ≡ ok x
unfolding amount_out_big page_amount_out
out_agrees a r0 r1 f x e =
    let (_, _, e1) =
      >>=-eq-ok (throw_if (not_positive a || not_positive r0 || not_positive r1) invalid_input) _
        e in
    let (y, is_y, e2) = >>=-eq-ok _ _ e1 in
    let (_, _, e3) = >>=-eq-ok (throw_if (not_positive y) insufficient_output) _ e2 in is_y ∙ e3

in_agrees : (a r0 r1 f x : ℤ) → amount_in_big a r0 r1 f ≡ ok x → page_amount_in a r0 r1 f ≡ ok x
unfolding amount_in_big page_amount_in
in_agrees a r0 r1 f x e =
    let (_, _, e1) =
      >>=-eq-ok (throw_if (not_positive a || not_positive r0 || not_positive r1) invalid_input) _
        e in
    let (_, _, e2) = >>=-eq-ok (throw_if (leb_ℤ r1 a) insufficient_liquidity) _ e1 in e2

first_agrees : (a b x : ℤ) → first_mint_big a b ≡ ok x → page_first_mint a b ≡ ok x
unfolding first_mint_big
first_agrees a b x e =
    let (root, is_root, e1) = >>=-eq-ok (integer_sqrt (a *ℤ b)) _ e in
    let (_, _, e2) = >>=-eq-ok (throw_if (not_positive (root -ℤ pos 1000)) zero_liquidity) _ e1 in
    rw (sqrt_agrees (a *ℤ b) root is_root) e2

mint_agrees :
    (first : Bool) (a b r0 r1 t x : ℤ)
    → (if first then first_mint_big a b else later_mint_big a b r0 r1 t) ≡ ok x
    → (if first then page_first_mint a b else page_later_mint a b r0 r1 t) ≡ ok x
unfolding later_mint_big
mint_agrees true a b r0 r1 t x e = first_agrees a b x e
mint_agrees false a b r0 r1 t x e = e

lp_agrees :
    (a b r0 r1 t x : ℤ) → lp_minted_big a b r0 r1 t ≡ ok x → page_lp_minted a b r0 r1 t ≡ ok x
unfolding lp_minted_big page_lp_minted
lp_agrees a b r0 r1 t x e =
    let (_, _, e1) = >>=-eq-ok (throw_if (not_positive a || not_positive b) invalid_input) _ e in
    mint_agrees (eqb_ℤ t (pos 0)) a b r0 r1 t x e1

-- Where the server's functions return, on some reserves, an output, an input and an amount of pool tokens, the
-- functions of the pages return the same three, though they test none of what the server tests.
pub page_amounts_agree :
    (a_out a_in a b r0 r1 f t out in_ lp : ℤ)
    → amount_out_big a_in r0 r1 f ≡ ok out
    → amount_in_big a_out r0 r1 f ≡ ok in_
    → lp_minted_big a b r0 r1 t ≡ ok lp
    → (page_amount_out a_in r0 r1 f ≡ ok out)
      × (page_amount_in a_out r0 r1 f ≡ ok in_)
      × (page_lp_minted a b r0 r1 t ≡ ok lp)
page_amounts_agree a_out a_in a b r0 r1 f t out in_ lp e_out e_in e_lp = (
  out_agrees a_in r0 r1 f out e_out,
  in_agrees a_out r0 r1 f in_ e_in,
  lp_agrees a b r0 r1 t lp e_lp,
)
