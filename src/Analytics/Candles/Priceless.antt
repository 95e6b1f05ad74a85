-- ===== src/Analytics/Candles/Priceless.antt =====
-- Which swaps candles are built from.
use soro_pool.Base.{
  if-cases, ℕ, String, ◌≡◌, refl, sym, ap, ◌∙◌, false, ◌||◌, inl, inr, List, [], ◌∷◌, Result, ok,
  err, Error, syntax_error, >>=-eq-ok, ok-injective, All, ◌++◌, Result-cases,
}
use soro_pool.Analytics.Candles.{
  PriceCandle, max_str, same_time, bucket_time, new_candle, add_swap, add_to_bucket,
  calculate_swap_price, add_swaps, build_candles,
}
use soro_pool.Analytics.Interval.{parse_interval}
use soro_pool.Base.Int.{ℤ, pos}
use soro_pool.Indexer.Database.{SwapRow}
use soro_pool.Js.BigInt.{big_int}
use soro_pool.Js.Number.{JsNumber}
use soro_pool.Js.Text.{text_or}
use soro_pool.Math.ConstantProduct.{not_positive}

add_swap-reads :
    (swap : SwapRow) (price : String) (candle c : PriceCandle)
    → add_swap swap price candle ≡ ok c
    → (x : ℤ) × (big_int price ≡ ok x)
unfolding add_swap max_str
add_swap-reads swap price candle c e =
    let (high, e_high, _) = >>=-eq-ok (max_str candle.high price) _ e in
    let (x, _, e1) = >>=-eq-ok (big_int candle.high) _ e_high in
    let (y, e_y, _) = >>=-eq-ok (big_int price) _ e1 in (y, e_y)

add_to_bucket-reads :
    (fresh : PriceCandle) (swap : SwapRow) (price : String) (candles out : List PriceCandle)
    → add_to_bucket fresh swap price candles ≡ ok out
    → (x : ℤ) × (big_int price ≡ ok x)
unfolding add_to_bucket
add_to_bucket-reads fresh swap price [] out e =
    let (c, e_c, _) = >>=-eq-ok (add_swap swap price fresh) _ e in
    add_swap-reads swap price fresh c e_c
add_to_bucket-reads fresh swap price (candle ∷ candles) out e =
    elim (if-cases (same_time candle.time fresh.time) _ _ e) [
      | inl here ↦
          let (c, e_c, _) = >>=-eq-ok (add_swap swap price candle) _ here in
          add_swap-reads swap price candle c e_c
      | inr later ↦
          let (rest, e_rest, _) = >>=-eq-ok (add_to_bucket fresh swap price candles) _ later in
          add_to_bucket-reads fresh swap price candles rest e_rest
    ]

All-at :
    (P : SwapRow → Type 0) (before : List SwapRow) (x : SwapRow) (after : List SwapRow)
    → All P (before ++ x ∷ after)
    → P x
All-at P [] x after (h, _) = h
All-at P (y ∷ before) x after (_, h) = All-at P before x after h

absurd : {P : Type 0} {z : ℤ} → ◌≡◌ {A = Result ℤ} (err syntax_error) (ok z) → P
absurd e = cc

module _ (num : JsNumber) (to_fixed : num.Num → ℕ → String) where
  -- The swap has no price, since one of its amounts is not positive.
  abbrev pub Priceless : SwapRow → Type 0
  Priceless swap = calculate_swap_price num to_fixed swap ≡ ok "0"

  -- `toFixed(8)` prints a point, or a text that is no number: neither is the text of an integer.
  module _ (no_integer : (x : num.Num) → big_int (to_fixed x 8) ≡ err syntax_error) where
    read_price :
        (swap : SwapRow) (price : String) (z : ℤ)
        → calculate_swap_price num to_fixed swap ≡ ok price
        → big_int price ≡ ok z
        → Priceless swap
    unfolding calculate_swap_price
    read_price swap price z e reads =
        let (a, e_a, e1) = >>=-eq-ok (big_int (text_or swap.amount_in "0")) _ e in
        let (b, e_b, e2) = >>=-eq-ok (big_int (text_or swap.amount_out "0")) _ e1 in
        elim (if-cases (not_positive a || not_positive b) _ _ e2) [
          | inl zero_text ↦ e ∙ sym zero_text
          | inr printed ↦ absurd (sym (no_integer _) ∙ ap big_int (ok-injective printed) ∙ reads)
        ]

    add_swaps-Priceless :
        (pool_id interval : String) (ms : ℕ) (swaps : List SwapRow) (buckets out : List PriceCandle)
        → add_swaps num to_fixed pool_id interval ms swaps buckets ≡ ok out
        → All Priceless swaps
    unfolding add_swaps
    add_swaps-Priceless pool_id interval ms [] buckets out e = tt
    add_swaps-Priceless pool_id interval ms (swap ∷ swaps) buckets out e =
        let (price, e_price, e1) = >>=-eq-ok (calculate_swap_price num to_fixed swap) _ e in
        let (next, e_next, e2) =
          >>=-eq-ok
            (add_to_bucket (new_candle pool_id interval (bucket_time swap.time ms) price) swap price
              buckets)
            _ e1 in
        let (z, reads) = add_to_bucket-reads _ swap price buckets next e_next in
        (
          read_price swap price z e_price reads,
          add_swaps-Priceless pool_id interval ms swaps next out e2,
        )

    build_candles-Priceless :
        (pool_id interval : String) (swaps : List SwapRow) (candles : List PriceCandle)
        → build_candles num to_fixed pool_id interval swaps ≡ ok candles
        → All Priceless swaps
    unfolding build_candles
    build_candles-Priceless pool_id interval swaps candles e =
        let (buckets, e_buckets, _) =
          >>=-eq-ok (add_swaps num to_fixed pool_id interval (parse_interval interval) swaps []) _
            e in
        add_swaps-Priceless pool_id interval (parse_interval interval) swaps [] buckets e_buckets

    priced :
        (swap : SwapRow) (a b : ℤ)
        → big_int (text_or swap.amount_in "0") ≡ ok a
        → big_int (text_or swap.amount_out "0") ≡ ok b
        → (not_positive a || not_positive b) ≡ false
        → ¬ Priceless swap
    unfolding calculate_swap_price big_int
    priced swap a b e_a e_b positive priceless =
        let x = num.div (num.of_int b) (num.of_int a) in
        let price : calculate_swap_price num to_fixed swap ≡ ok (to_fixed x 8) =
          rw (e_a, e_b, positive) refl in
        let same : to_fixed x 8 ≡ "0" = ok-injective (sym price ∙ priceless) in
        let zero_reads : big_int "0" ≡ ok (pos 0) = refl in
        absurd (sym (no_integer x) ∙ ap big_int same ∙ zero_reads)

    -- Where one of the swaps has two amounts that are positive, building candles from the swaps throws: the
    -- price has a decimal point, and is then read as an integer.
    pub build_candles-throws :
        (pool_id interval : String) (before after : List SwapRow) (swap : SwapRow) (a b : ℤ)
        → big_int (text_or swap.amount_in "0") ≡ ok a
        → big_int (text_or swap.amount_out "0") ≡ ok b
        → (not_positive a || not_positive b) ≡ false
        → (e : Error) × (build_candles num to_fixed pool_id interval (before ++ swap ∷ after)
            ≡ err e)
    build_candles-throws pool_id interval before after swap a b e_a e_b positive =
        elim (Result-cases (build_candles num to_fixed pool_id interval (before ++ swap ∷ after))) [
          | inl thrown ↦ thrown
          | inr (candles, built) ↦
              elim (priced swap a b e_a e_b positive (
                All-at Priceless before swap after
                  (build_candles-Priceless pool_id interval _ candles built))) [ ]
        ]
