-- ===== src/Requests/Checked.antt =====
-- What the requests that pass the checks come to.
use native.Mathlib.Nat.{mul-le-mul_left}
use soro_pool.Base.{
  ℕ, ◌+◌, ◌*◌, ◌≤◌, ◌<◌, ◌-◌, String, ◌≡◌, ◌≢◌, ◌⊎◌, refl, sym, ap, ◌∙◌, Bool, true, false, List,
  [], ◌∷◌, some, Error, ok, err, length, >>=-eq-ok, ok-injective, arith, Bool-cases, inl, inr,
}
use soro_pool.Base.Int.{pos}
use soro_pool.Js.BigInt.{big_int, codes}
use soro_pool.Js.Number.{JsNumber}
use soro_pool.Js.Text.{starts_with}
use soro_pool.Requests.{
  Field, text, number, object, missing, other, is_address, is_stellar_address, min_slippage,
  max_price_impact, as_string, as_number, as_object, demand, BuildSwap, check_build_swap,
  build_swap, CreatePool, create_pool, CreatePoolTx,
}
use soro_pool.Swap.{PoolQuote, min_amount_out}
use soro_pool.Swap.Records.{SwapTransaction, build_swap_transaction}
use soro_pool.Swap.Slippage.{min_amount_out-share}

-- A share between a thousandth and 15 hundredths, in ten thousandths, rounds to one from 10 to 1500.
pub record Rounds (js : JsNumber) : Type 0 where
  pub rounds :
      (x : js.Num)
      → js.le (js.of_text "0.001") x ≡ true
      → js.le x (js.of_text "0.15") ≡ true
      → (b : ℕ) × (js.round (js.mul x (js.of_int (pos 10_000))) ≡ pos b) × (10 ≤ b) × (b ≤ 1500)

err_ok : {A : Type 0} {a : A} {thrown : Error} → err thrown ≡ ok a → ⊥
err_ok e = cc

address_length : (cs : List ℕ) → is_address cs ≡ true → length cs ≡ 56
address_length [] h = cc
address_length (c ∷ cs) h = ground arith

less : (b : ℕ) → b ≤ 1500 → 8500 ≤ 10_000 - b
less b h = omega arith

more : (b : ℕ) → 10 ≤ b → 10_000 - b ≤ 9990
more b h = omega arith

between_shares :
    (a b m : ℕ)
    → 10 ≤ b
    → b ≤ 1500
    → a * (10_000 - b) ≤ m * 10_000
    → m * 10_000 < a * (10_000 - b) + 10_000
    → (8500 * a ≤ 10_000 * m) × (10_000 * m < 9990 * a + 10_000)
between_shares a b m least most low high =
    let lower = mul-le-mul_left a (less b most) in
    let upper = mul-le-mul_left a (more b least) in (omega arith, omega arith)

module _ (js : JsNumber) (is_number : js.Num → Bool) where
  demanded : (b : Bool) {u : Unit {0}} → demand js is_number b ≡ ok u → b ≡ true
  demanded true e = refl
  demanded false e = cc

  as_number-ok :
      (field : Field js is_number) {x : js.Num}
      → as_number js is_number field ≡ ok x
      → field ≡ number x
  as_number-ok (text s) e = cc
  as_number-ok (number y) e = elim (Bool-cases (is_number y)) [
    | inl yes_number ↦ ap number (ok-injective (rw yes_number at e))
    | inr no_number ↦ absurd (err_ok (rw no_number at e))
  ]
  as_number-ok (object q) e = cc
  as_number-ok missing e = cc
  as_number-ok other e = cc

  as_object-ok :
      (field : Field js is_number) {q : PoolQuote js}
      → as_object js is_number field ≡ ok q
      → field ≡ object q
  as_object-ok (text s) e = cc
  as_object-ok (number y) e = cc
  as_object-ok (object q) e = ap object (ok-injective e)
  as_object-ok missing e = cc
  as_object-ok other e = cc

  as_string-ok :
      (field : Field js is_number) {s : String}
      → as_string js is_number field ≡ ok s
      → field ≡ text s
  as_string-ok (text s) e = ap text (ok-injective e)
  as_string-ok (number y) e = cc
  as_string-ok (object q) e = cc
  as_string-ok missing e = cc
  as_string-ok other e = cc

  -- What a body that passes the checks has.
  check_build_swap-ok :
      (body : BuildSwap js is_number) {u : Unit {0}}
      → check_build_swap js is_number body ≡ ok u
      → (is_stellar_address js is_number body.user_address ≡ true)
        × (min_slippage js is_number (js.of_text "0.001") body.slippage ≡ true)
        × (max_price_impact js is_number (js.of_text "0.15") body.slippage ≡ true)
  unfolding check_build_swap
  check_build_swap-ok body e =
      let (_, e3, positive) = >>=-eq-ok _ _ e in
      let (_, e2, most) = >>=-eq-ok _ _ e3 in
      let (_, address, least) = >>=-eq-ok _ _ e2 in
      (demanded _ address, demanded _ least, demanded _ most)

  module _ (sizes : Rounds js) where
    -- The transaction keeps the address, and its least amount lies between the two shares.
    built-within :
        (q : PoolQuote js) (address : String) (x deadline : js.Num) (tx : SwapTransaction js)
        (a : ℕ)
        → big_int q.amount_out ≡ ok (pos a)
        → js.le (js.of_text "0.001") x ≡ true
        → js.le x (js.of_text "0.15") ≡ true
        → build_swap_transaction js (some q) address x deadline ≡ ok tx
        → (m : ℕ) × (big_int tx.min_out ≡ ok (pos m))
          × (8500 * a ≤ 10_000 * m)
          × (10_000 * m < 9990 * a + 10_000)
          × (tx.user_address ≡ address)
    unfolding build_swap_transaction
    built-within q address x deadline tx a reads least most e =
        let (b, rounded, low, high) = sizes.rounds x least most in
        let (t, m, gives, reads_t, below, over, under) =
          min_amount_out-share js q.amount_out x a b reads rounded (omega arith) in
        let (min_out, e_min, built) = >>=-eq-ok (min_amount_out js q.amount_out x) _ e in
        let shown = ok-injective built in
        let (least_out, most_out) = between_shares a b m low high over under in
        (
          m,
          ap big_int (
                ap (λ (z : SwapTransaction js). z.min_out) (sym shown)
                ∙ ok-injective (sym e_min ∙ gives))
              ∙ reads_t,
          least_out,
          most_out,
          ap (λ (z : SwapTransaction js). z.user_address) (sym shown),
        )

    -- A request to build a swap that passes the validation, of a quote whose amount reads as a number that
    -- is not negative, names a least amount out that is at least 85% of the quote's amount and
    -- at most 99.9% of it rounded up, and an address of 56 characters. The share that slippages from
    -- 0.001 to 0.15 round to lies between those bounds.
    pub build_swap-within :
        (body : BuildSwap js is_number) (q : PoolQuote js) (tx : SwapTransaction js) (a : ℕ)
        → body.quote ≡ object q
        → big_int q.amount_out ≡ ok (pos a)
        → build_swap js is_number body ≡ ok tx
        → (m : ℕ) × (big_int tx.min_out ≡ ok (pos m))
          × (8500 * a ≤ 10_000 * m)
          × (10_000 * m < 9990 * a + 10_000)
          × (length (codes tx.user_address) ≡ 56)
    unfolding build_swap is_stellar_address min_slippage max_price_impact
    build_swap-within body q tx a quoted reads e =
        let (quote, is_object, e1) = >>=-eq-ok (as_object js is_number body.quote) _ e in
        let (address, is_text, e2) = >>=-eq-ok (as_string js is_number body.user_address) _ e1 in
        let (x, is_slippage, e3) = >>=-eq-ok (as_number js is_number body.slippage) _ e2 in
        let (deadline, is_deadline, e4) = >>=-eq-ok (as_number js is_number body.deadline) _ e3 in
        let (_, passed, built) = >>=-eq-ok (check_build_swap js is_number body) _ e4 in
        let (stellar, least, most) = check_build_swap-ok body passed in
        let x_is = sym (as_number-ok body.slippage is_slippage) in
        let address_is = sym (as_string-ok body.user_address is_text) in
        let same = ok-injective (sym is_object ∙ ap (as_object js is_number) quoted) in
        let (m, out, low, high, kept) =
          built-within quote address x deadline tx a
            (ap (λ (z : PoolQuote js). big_int z.amount_out) same ∙ reads)
            (ap (min_slippage js is_number (js.of_text "0.001")) x_is ∙ least)
            (ap (max_price_impact js is_number (js.of_text "0.15")) x_is ∙ most) built in
        (
          m,
          out,
          low,
          high,
          ap (λ s. length (codes s)) kept
              ∙ address_length (codes address)
                  (ap (is_stellar_address js is_number) address_is ∙ stellar),
        )

  -- A contract's address is no address of an account.
  contract_refused :
      (s : String) → starts_with s "C" ≡ true → is_stellar_address js is_number (text s) ≡ false
  unfolding is_stellar_address starts_with
  contract_refused String.[] h = refl
  contract_refused (String.◌∷◌ c s) h = ground arith

  no_contract :
      (s : String) → starts_with s "C" ≡ true → is_stellar_address js is_number (text s) ≡ true → ⊥
  no_contract s contract stellar = cc (contract_refused s contract)

  -- A pool of a contract's token cannot be created: a request whose first or second token is an address
  -- that begins with C is answered with no transaction, whatever the other fields are.
  pub create_pool-refused :
      (factory passphrase token : String) (body : CreatePool js is_number)
      (tx : CreatePoolTx js is_number)
      → starts_with token "C" ≡ true
      → (body.token_a ≡ text token) ⊎ (body.token_b ≡ text token)
      → create_pool js is_number factory passphrase body ≢ ok tx
  unfolding create_pool
  create_pool-refused factory passphrase token body tx contract which e =
      let (a, _, e1) = >>=-eq-ok (as_string js is_number body.token_a) _ e in
      let (b, _, e2) = >>=-eq-ok (as_string js is_number body.token_b) _ e1 in
      let (pool_type, _, e3) = >>=-eq-ok (as_string js is_number body.pool_type) _ e2 in
      let (fee, _, e4) = >>=-eq-ok (as_number js is_number body.fee_tier) _ e3 in
      let (_, wallet_a, e5) =
        >>=-eq-ok (demand js is_number (is_stellar_address js is_number body.token_a)) _ e4 in
      let (_, wallet_b, e6) =
        >>=-eq-ok (demand js is_number (is_stellar_address js is_number body.token_b)) _ e5 in
      elim which [
        | inl first ↦
            no_contract token contract
              (ap (is_stellar_address js is_number) (sym first) ∙ demanded _ wallet_a)
        | inr second ↦
            no_contract token contract
              (ap (is_stellar_address js is_number) (sym second) ∙ demanded _ wallet_b)
      ]
