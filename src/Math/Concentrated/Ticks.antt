-- ===== src/Math/Concentrated/Ticks.antt =====
-- What `tickToPrice` returns.
use soro_pool.Base.{
  ℕ, ◌+◌, ◌*◌, ◌/◌, ◌≤◌, ◌<◌, ◌≡◌, refl, Bool, true, ◌&&◌, ◌||◌, ◌⊎◌, ◌>>=◌, invalid_tick, List, [],
  ◌∷◌, ltb, leb, if◌then◌else◌, Result, ok, err, arith, Bool-cases, inl, inr,
}
use soro_pool.Base.Int.{ℤ, pos, ◌/ℤ◌, quot, div_pos, pos_part, neg_part}
use native.Mathlib.Nat.{mul-le-mul_left, le-div_iff_mul-le, div-le_of_le-mul}
use soro_pool.Math.Concentrated.{
  q128, scaled, scale_by_bits, odd, ratio_of, tick_factors, tick_to_price, max_tick, max_u256,
}

-- Every factor is between 1/8 and 1, in units of 2 ** 64.
all_in_range : List ℕ → Bool
all_in_range [] = true
all_in_range (f ∷ fs) = leb 2305843009213693952 f && leb f 18446744073709551616 && all_in_range fs

-- What m grows to when each of the factors may divide it by 8.
room : List ℕ → ℕ → ℕ
room [] m = m
room (f ∷ fs) m = 8 * room fs m

scaled-bounds :
    (m r f : ℕ)
    → 2305843009213693952 ≤ f
    → f ≤ 18446744073709551616
    → 8 * m ≤ r
    → (m ≤ scaled r f) × (scaled r f ≤ r)
scaled-bounds m r f least most h =
    let up : r * (f * 18446744073709551616) ≤ r * q128 = mul-le-mul_left r (omega arith) in
    let down : r * 42535295865117307932921825928971026432 ≤ r * (f * 18446744073709551616) =
      mul-le-mul_left r (omega arith) in
    ((le-div_iff_mul-le {x = m} (omega arith)).1 (omega arith), div-le_of_le-mul q128 (omega arith))

scale_by_bits-bounds :
    (fs : List ℕ) (bits r m : ℕ)
    → all_in_range fs ≡ true
    → room fs m ≤ r
    → (m ≤ scale_by_bits fs bits r) × (scale_by_bits fs bits r ≤ r)
unfolding scale_by_bits all_in_range room
scale_by_bits-bounds [] bits r m ok_fs h = (h, omega arith)
scale_by_bits-bounds (f ∷ fs) bits r m ok_fs h =
    let least : 2305843009213693952 ≤ f = ground arith in
    let most : f ≤ 18446744073709551616 = ground arith in
    let others : all_in_range fs ≡ true = ground arith in
    let (low, high) = scaled-bounds (room fs m) r f least most h in
    elim (Bool-cases (odd bits)) [
      | inl set ↦
          let (a, b) = scale_by_bits-bounds fs (bits / 2) (scaled r f) m others low in
          rw set (a, omega arith)
      | inr unset ↦ rw unset (scale_by_bits-bounds fs (bits / 2) r m others (omega arith))
    ]

factors_in_range : all_in_range tick_factors ≡ true
unfolding all_in_range
factors_in_range = refl

-- The ratio of a tick is between 2 ** 67 and 2 ** 128.
ratio_of-bounds : (t : ℕ) → (147573952589676412928 ≤ ratio_of t) × (ratio_of t ≤ q128)
unfolding room
ratio_of-bounds t = elim (Bool-cases (odd t)) [
  | inl set ↦
      let (a, b) =
        scale_by_bits-bounds tick_factors (t / 2) (0xfffcb933bd6fb4df * 18446744073709551616)
          147573952589676412928 factors_in_range (omega arith) in
      rw set (a, omega arith)
  | inr unset ↦
      let (a, b) =
        scale_by_bits-bounds tick_factors (t / 2) q128 147573952589676412928 factors_in_range
          (omega arith) in
      rw unset (a, b)
]

-- The last steps: the reciprocal for a tick above 0, and the shift.
finish : (t : ℤ) (r : ℕ) → Result ℤ
finish t r = (if ltb 0 (pos_part t) then pos max_u256 /ℤ pos r else ok (pos r)) >>= λ signed.
    signed /ℤ pos 4294967296

finish-positive :
    (t : ℤ) (r : ℕ)
    → 147573952589676412928 ≤ r
    → r ≤ q128
    → (q : ℕ) × (finish t r ≡ ok (pos q)) × (0 < q)
unfolding finish ◌/ℤ◌ quot
finish-positive t r low high =
    let large : 4294967296 ≤ max_u256 / r =
      (le-div_iff_mul-le {x = 4294967296} (omega arith)).1 (omega arith) in
    let divides : pos max_u256 /ℤ pos r ≡ ok (pos (max_u256 / r)) =
      div_pos max_u256 r (omega arith) in
    elim (Bool-cases (ltb 0 (pos_part t))) [
      | inl above ↦ (max_u256 / r / 4294967296, rw (above, divides) refl, omega (arith, large))
      | inr below ↦ (r / 4294967296, rw below refl, omega arith)
    ]

-- On the ticks from -887272 to 887272 `tickToPrice` returns a positive price, and on all others it
-- throws InvalidTick.
pub tick_to_price-positive :
    (t : ℤ)
    → (((pos_part t ≤ max_tick) × (neg_part t ≤ max_tick))
        × ((q : ℕ) × (tick_to_price t ≡ ok (pos q)) × (0 < q)))
      ⊎ (((max_tick < pos_part t) ⊎ (max_tick < neg_part t)) × (tick_to_price t ≡ err invalid_tick))
unfolding tick_to_price finish
tick_to_price-positive t =
    elim (Bool-cases (ltb max_tick (pos_part t) || ltb max_tick (neg_part t))) [
      | inl out ↦ inr (
        elim (Bool-cases (ltb max_tick (pos_part t))) [
          | inl above ↦ inl (ground arith)
          | inr not_above ↦ inr (ground arith)
        ],
        rw out refl,
      )
      | inr within ↦
          let (low, high) = ratio_of-bounds (pos_part t + neg_part t) in
          inl ((ground arith, ground arith), rw within (finish-positive t _ low high))
    ]
