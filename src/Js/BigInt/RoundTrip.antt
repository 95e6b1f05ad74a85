-- ===== src/Js/BigInt/RoundTrip.antt =====
-- Reading back what `toString` prints.
use Prim.Native.Char.{code}
use soro_pool.Base.{
  if◌then◌else◌, ℕ, zero, suc, ◌+◌, ◌*◌, ◌/◌, ◌%◌, ◌≤◌, ◌<◌, String, ◌≡◌, refl, Bool, true, false,
  none, some, List, [], ◌∷◌, arith, ltb, ◌==◌, ok, All, ap, ◌∙◌, ◌-◌, lt→ltb, ltb→lt, Bool-cases,
  inl, inr,
}
use soro_pool.Base.Int.{ℤ, pos, negsuc, neg_of_ℕ}
use soro_pool.Js.BigInt.{
  codes, is_space, trim_start, trim_end, digit_value, read_digits, read_number, or_syntax_error,
  radix_of, read_zero, read_literal, big_int, digit, print_digits, to_string, signed,
}

-- The digits below n print as the characters from '0' on.
prints_in_order : ℕ → Bool
prints_in_order zero = true
prints_in_order (suc n) = if code (digit n) == b'0' + n then prints_in_order n else false

code-digit_below : (n d : ℕ) → prints_in_order n ≡ true → d < n → code (digit d) ≡ b'0' + d
unfolding prints_in_order
code-digit_below zero d h l = absurd (omega arith)
code-digit_below (suc n) d h l = ground (arith, code-digit_below n d)

ten_digits : prints_in_order 10 ≡ true
unfolding prints_in_order digit
ten_digits = refl

code-digit : (d : ℕ) → d < 10 → code (digit d) ≡ b'0' + d
code-digit d h = code-digit_below 10 d ten_digits h

abbrev IsDigit : ℕ → Type 0
IsDigit c = (b'0' ≤ c) × (c ≤ b'9')

digit-IsDigit : (d : ℕ) → d < 10 → IsDigit (code (digit d))
digit-IsDigit d h = omega (arith, code-digit d h)

digit_value-digit : (c : ℕ) → IsDigit c → digit_value c ≡ c - b'0'
unfolding digit_value
digit_value-digit c h = ground arith

read_digits-digit :
    (d n : ℕ) (s : List ℕ)
    → d < 10
    → read_digits 10 n (code (digit d) ∷ s) ≡ read_digits 10 (n * 10 + d) s
unfolding read_digits
read_digits-digit d n s h =
    let e : digit_value (code (digit d)) ≡ d =
      omega (arith, code-digit d h, digit_value-digit (code (digit d)) (digit-IsDigit d h)) in
    rw (e, lt→ltb d 10 h)

read_digits-print_digits :
    (fuel n : ℕ) (out : String)
    → n < fuel
    → read_digits 10 0 (codes (print_digits fuel n out)) ≡ read_digits 10 n (codes out)
unfolding print_digits
read_digits-print_digits zero n out h = absurd (omega arith)
read_digits-print_digits (suc fuel) n out h = elim (Bool-cases (ltb n 10)) [
  | inl last ↦ rw last (
      read_digits-digit n 0 (codes out) (ltb→lt n 10 last)
      ∙ ap (λ k. read_digits 10 k (codes out)) (omega arith))
  | inr more ↦ rw more (
      read_digits-print_digits fuel (n / 10) (String.◌∷◌ (digit (n % 10)) out) (ground arith)
      ∙ read_digits-digit (n % 10) (n / 10) (codes out) (omega arith)
      ∙ ap (λ k. read_digits 10 k (codes out)) (omega arith))
]

read_number-print_digits :
    (fuel n : ℕ) (out : String)
    → n < fuel
    → read_number 10 (codes (print_digits fuel n out))
      ≡ read_digits 10 0 (codes (print_digits fuel n out))
unfolding print_digits read_number
read_number-print_digits zero n out h = absurd (omega arith)
read_number-print_digits (suc fuel) n out h = elim (Bool-cases (ltb n 10)) [
  | inl last ↦ rw last
  | inr more ↦
      rw more
        (read_number-print_digits fuel (n / 10) (String.◌∷◌ (digit (n % 10)) out) (ground arith))
]

digits-IsDigit :
    (fuel n : ℕ) (out : String)
    → n < fuel
    → All IsDigit (codes out)
    → All IsDigit (codes (print_digits fuel n out))
unfolding print_digits
digits-IsDigit zero n out h k = absurd (omega arith)
digits-IsDigit (suc fuel) n out h k = elim (Bool-cases (ltb n 10)) [
  | inl last ↦ rw last (digit-IsDigit n (ltb→lt n 10 last), k)
  | inr more ↦ rw more (
      digits-IsDigit fuel (n / 10) (String.◌∷◌ (digit (n % 10)) out) (ground arith)
        (digit-IsDigit (n % 10) (omega arith), k))
]

-- A code that opens no white space: a digit or the sign.
abbrev IsInk : ℕ → Type 0
IsInk c = is_space c ≡ false

IsInk-digit : (c : ℕ) → IsDigit c → IsInk c
unfolding is_space
IsInk-digit c h = ground arith

All-IsInk : (s : List ℕ) → All IsDigit s → All IsInk s
All-IsInk [] h = tt
All-IsInk (c ∷ s) (d, h) = (IsInk-digit c d, All-IsInk s h)

trim_start-ink : (s : List ℕ) → All IsInk s → trim_start s ≡ s
unfolding trim_start
trim_start-ink [] h = refl
trim_start-ink (c ∷ s) (d, h) = rw d

trim_end-ink : (s : List ℕ) → All IsInk s → trim_end s ≡ s
unfolding trim_end
trim_end-ink [] h = refl
trim_end-ink (c ∷ []) (d, h) = rw d
trim_end-ink (c ∷ e ∷ s) (d, h) = rw (trim_end-ink (e ∷ s) h)

radix_of-digit : (c : ℕ) → IsDigit c → radix_of c ≡ none
unfolding radix_of
radix_of-digit c h = ground arith

read_literal-digits :
    (s : List ℕ) → All IsDigit s → read_literal s ≡ signed pos (read_digits 10 0 s)
unfolding read_literal read_zero read_number read_digits digit_value
read_literal-digits [] h = refl
read_literal-digits (c ∷ []) (d, h) = ground arith
read_literal-digits (c ∷ e ∷ s) (d, (k, h)) = ground (arith, radix_of-digit e k)

big_int_of_ink :
    (s : String) → All IsInk (codes s) → big_int s ≡ or_syntax_error (read_literal (codes s))
unfolding big_int
big_int_of_ink s h =
    ap (λ t. or_syntax_error (read_literal (trim_end t))) (trim_start-ink (codes s) h)
    ∙ ap (λ t. or_syntax_error (read_literal t)) (trim_end-ink (codes s) h)

read_literal-minus : (s : List ℕ) → read_literal (b'-' ∷ s) ≡ signed neg_of_ℕ (read_number 10 s)
unfolding read_literal
read_literal-minus s = refl

-- Printing, with `print_digits` shut.
to_string-pos : (n : ℕ) → to_string (pos n) ≡ print_digits (suc n) n ""
unfolding to_string
to_string-pos n = refl

to_string-negsuc :
    (n : ℕ) → to_string (negsuc n) ≡ String.◌∷◌ "-" (print_digits (suc (suc n)) (suc n) "")
unfolding to_string
to_string-negsuc n = refl

read_digits-nil : (n : ℕ) → read_digits 10 n [] ≡ some n
unfolding read_digits
read_digits-nil n = refl

or_syntax_error-some : (z : ℤ) → or_syntax_error (some z) ≡ ok z
unfolding or_syntax_error
or_syntax_error-some z = refl

big_int-print_digits : (n : ℕ) → big_int (print_digits (suc n) n "") ≡ ok (pos n)
big_int-print_digits n =
    let s : String = print_digits (suc n) n "" in
    let d : All IsDigit (codes s) = digits-IsDigit (suc n) n "" (omega arith) tt in
    big_int_of_ink s (All-IsInk (codes s) d)
    ∙ ap or_syntax_error (
        read_literal-digits (codes s) d
        ∙ ap (signed pos) (read_digits-print_digits (suc n) n "" (omega arith) ∙ read_digits-nil n))
    ∙ or_syntax_error-some (pos n)

is_space-minus : is_space b'-' ≡ false
unfolding is_space
is_space-minus = refl

big_int-minus :
    (n : ℕ) → big_int (String.◌∷◌ "-" (print_digits (suc (suc n)) (suc n) "")) ≡ ok (negsuc n)
big_int-minus n =
    let s : String = print_digits (suc (suc n)) (suc n) "" in
    let d : All IsDigit (codes s) = digits-IsDigit (suc (suc n)) (suc n) "" (omega arith) tt in
    big_int_of_ink (String.◌∷◌ "-" s) (is_space-minus, All-IsInk (codes s) d)
    ∙ ap or_syntax_error (
        read_literal-minus (codes s)
        ∙ ap (signed neg_of_ℕ) (
            read_number-print_digits (suc (suc n)) (suc n) "" (omega arith)
            ∙ read_digits-print_digits (suc (suc n)) (suc n) "" (omega arith)
            ∙ read_digits-nil (suc n)))
    ∙ or_syntax_error-some (neg_of_ℕ (suc n))
    ∙ ground arith

-- Every bigint is read back from what it prints.
pub big_int-to_string : (z : ℤ) → big_int (to_string z) ≡ ok z
big_int-to_string (pos n) = rw to_string-pos (big_int-print_digits n)
big_int-to_string (negsuc n) = rw to_string-negsuc (big_int-minus n)
