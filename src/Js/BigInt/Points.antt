-- ===== src/Js/BigInt/Points.antt =====
-- `BigInt` on a text with a decimal point.
use soro_pool.Base.{
  ℕ, String, ◌≡◌, refl, Bool, true, false, ◌⊎◌, inl, inr, Option, none, some, List, [], ◌∷◌, err,
  syntax_error, Bool-cases, ltb, if◌then◌else◌, ◌*◌, ◌+◌, ◌==◌, ◌||◌, ◌<◌, arith,
}
use soro_pool.Base.Int.{ℤ, pos}
use soro_pool.Js.BigInt.{
  codes, is_space, trim_start, trim_end, digit_value, read_digits, read_number, or_syntax_error,
  signed, radix_of, read_zero, read_literal, big_int,
}

-- A point is one of the codes.
abbrev pub Pointed : List ℕ → Type 0
Pointed [] = ⊥
Pointed (c ∷ s) = (c ≡ b'.') ⊎ Pointed s

trim_start-Pointed : (s : List ℕ) → Pointed s → Pointed (trim_start s)
unfolding trim_start is_space
trim_start-Pointed [] p = p
trim_start-Pointed (c ∷ s) (inl e) = rw e (inl refl)
trim_start-Pointed (c ∷ s) (inr p) = elim (Bool-cases (is_space c)) [
  | inl space ↦ rw space (trim_start-Pointed s p)
  | inr other ↦ rw other (inr p)
]

last-Pointed :
    (c : ℕ) (t : List ℕ)
    → (c ≡ b'.') ⊎ Pointed t
    → Pointed (elim t [ [] ↦ if is_space c then [] else c ∷ [] | d ∷ r ↦ c ∷ d ∷ r ])
unfolding is_space
last-Pointed c [] (inl e) = rw e (inl refl)
last-Pointed c [] (inr p) = elim p [ ]
last-Pointed c (d ∷ r) p = p

trim_end-Pointed : (s : List ℕ) → Pointed s → Pointed (trim_end s)
unfolding trim_end
trim_end-Pointed [] p = p
trim_end-Pointed (c ∷ s) (inl e) = last-Pointed c (trim_end s) (inl e)
trim_end-Pointed (c ∷ s) (inr p) = last-Pointed c (trim_end s) (inr (trim_end-Pointed s p))

point_above : (radix : ℕ) → radix < 99 → ltb 99 radix ≡ false
point_above radix small = ground arith

read_digits-none :
    (radix : ℕ) (s : List ℕ) (n : ℕ) → radix < 99 → Pointed s → read_digits radix n s ≡ none
unfolding read_digits digit_value
read_digits-none radix [] n small p = elim p [ ]
read_digits-none radix (c ∷ s) n small (inl e) = rw (e, point_above radix small) refl
read_digits-none radix (c ∷ s) n small (inr p) =
    rw (read_digits-none radix s (n * radix + digit_value c) small p) (ground arith)

read_number-none : (radix : ℕ) (s : List ℕ) → radix < 99 → Pointed s → read_number radix s ≡ none
unfolding read_number
read_number-none radix [] small p = elim p [ ]
read_number-none radix (c ∷ s) small p = read_digits-none radix (c ∷ s) 0 small p

-- A radix that is chosen by three tests.
abbrev Small : Option ℕ → Type 0
Small none = Unit
Small (some radix) = radix < 99

chosen-Small :
    (x o b : Bool) → Small (if x then some 16 else if o then some 8 else if b then some 2 else none)
chosen-Small true o b = omega arith
chosen-Small false true b = omega arith
chosen-Small false false true = omega arith
chosen-Small false false false = tt

radix_of-Small : (c : ℕ) → Small (radix_of c)
unfolding radix_of
radix_of-Small c =
    chosen-Small (c == b'x' || c == b'X') (c == b'o' || c == b'O') (c == b'b' || c == b'B')

after_zero :
    (r : Option ℕ) (c : ℕ) (s : List ℕ)
    → Small r
    → Pointed s
    → ◌≡◌ {A = Option ℤ}
        (elim r [
          | some radix ↦ signed pos (read_number radix s)
          | none ↦ signed pos (read_number 10 (b'0' ∷ c ∷ s))
        ])
        none
after_zero none c s small p =
    rw (read_number-none 10 (b'0' ∷ c ∷ s) (omega arith) (inr (inr p))) refl
after_zero (some radix) c s small p = rw (read_number-none radix s small p) refl

read_zero-none : (s : List ℕ) → Pointed s → read_zero s ≡ none
unfolding read_zero radix_of
read_zero-none [] p = elim p [ ]
read_zero-none (c ∷ s) (inl e) =
    rw (e, read_number-none 10 (b'0' ∷ b'.' ∷ s) (omega arith) (inr (inl refl))) refl
read_zero-none (c ∷ s) (inr p) = after_zero (radix_of c) c s (radix_of-Small c) p

read_literal-none : (s : List ℕ) → Pointed s → read_literal s ≡ none
unfolding read_literal
read_literal-none [] p = elim p [ ]
read_literal-none (c ∷ s) (inl e) =
    rw (e, read_number-none 10 (b'.' ∷ s) (omega arith) (inl refl)) refl
read_literal-none (c ∷ s) (inr p) =
    rw
      (
        read_number-none 10 s (omega arith) p,
        read_zero-none s p,
        read_number-none 10 (c ∷ s) (omega arith) (inr p),
      )
      (ground arith)

-- `BigInt` throws a SyntaxError on every text with a decimal point.
pub big_int-Pointed : (s : String) → Pointed (codes s) → big_int s ≡ err syntax_error
unfolding big_int or_syntax_error
big_int-Pointed s p =
    rw (read_literal-none _ (trim_end-Pointed _ (trim_start-Pointed (codes s) p))) refl
