-- ===== src/Js/BigInt.antt =====
-- `BigInt(text)` and `x.toString()` of the JavaScript language, over the code points of a text.
-- `BigInt` trims white space, reads "" as 0n, takes a sign only before decimal digits, and the
-- prefixes 0x, 0o and 0b; anything else is a `SyntaxError`.
pub mod RoundTrip
pub mod Points
use Prim.Native.Char.{Char, code}
use soro_pool.Base.{
  ℕ, zero, suc, ◌+◌, ◌-◌, ◌*◌, ◌/◌, ◌%◌, String, ◌≡◌, refl, Bool, true, false, not, ◌&&◌, ◌||◌,
  Option, none, some, List, [], ◌∷◌, arith, ltb, leb, ◌==◌, if◌then◌else◌, Result, ok, err,
  syntax_error,
}
use soro_pool.Base.Int.{ℤ, pos, negsuc, neg_of_ℕ}

abbrev pub codes : String → List ℕ
codes String.[] = []
codes (String.◌∷◌ c s) = code c ∷ codes s

-- WhiteSpace and LineTerminator of the language.
unfoldable pub is_space : ℕ → Bool
is_space c =
    (leb 9 c && leb c 13)
    || c == 32
    || c == 160
    || c == 5760
    || (leb 8192 c && leb c 8202)
    || c == 8232
    || c == 8233
    || c == 8239
    || c == 8287
    || c == 12288
    || c == 65279

unfoldable pub trim_start : List ℕ → List ℕ
trim_start [] = []
trim_start (c ∷ s) = let rest = trim_start s in if is_space c then rest else c ∷ s

pub trim_end : List ℕ → List ℕ
trim_end [] = []
trim_end (c ∷ s) = elim (trim_end s) [ [] ↦ if is_space c then [] else c ∷ [] | d ∷ r ↦ c ∷ d ∷ r ]

-- The value of a digit, or a number that no radix admits.
pub digit_value : ℕ → ℕ
digit_value c =
    if leb b'0' c && leb c b'9'
    then c - b'0'
    else if leb b'a' c && leb c b'z'
    then c - b'a' + 10
    else if leb b'A' c && leb c b'Z'
    then c - b'A' + 10
    else 99

pub read_digits : ℕ → ℕ → List ℕ → Option ℕ
read_digits radix n [] = some n
read_digits radix n (c ∷ s) =
    let rest = read_digits radix (n * radix + digit_value c) s in
    if ltb (digit_value c) radix then rest else none

-- One digit at least.
pub read_number : ℕ → List ℕ → Option ℕ
read_number radix [] = none
read_number radix (c ∷ s) = read_digits radix 0 (c ∷ s)

pub or_syntax_error : Option ℤ → Result ℤ
or_syntax_error none = err syntax_error
or_syntax_error (some z) = ok z

abbrev pub signed : (ℕ → ℤ) → Option ℕ → Option ℤ
signed f none = none
signed f (some n) = some (f n)

-- The letter after a leading "0".
pub radix_of : ℕ → Option ℕ
radix_of c =
    if c == b'x' || c == b'X'
    then some 16
    else if c == b'o' || c == b'O'
    then some 8
    else if c == b'b' || c == b'B'
    then some 2
    else none

pub read_zero : List ℕ → Option ℤ
read_zero [] = some (pos 0)
read_zero (c ∷ s) = elim (radix_of c) [
  | some radix ↦ signed pos (read_number radix s)
  | none ↦ signed pos (read_number 10 (b'0' ∷ c ∷ s))
]

pub read_literal : List ℕ → Option ℤ
read_literal [] = some (pos 0)
read_literal (c ∷ s) =
    if c == b'-'
    then signed neg_of_ℕ (read_number 10 s)
    else if c == b'+'
    then signed pos (read_number 10 s)
    else if c == b'0'
    then read_zero s
    else signed pos (read_number 10 (c ∷ s))

-- `BigInt(text)`
unfoldable pub big_int : String → Result ℤ
unfolding is_space trim_start trim_end digit_value read_digits read_number or_syntax_error radix_of
    read_zero read_literal
big_int s = or_syntax_error (read_literal (trim_end (trim_start (codes s))))

pub digit : ℕ → Char
digit d =
    if d == 0
    then "0"
    else if d == 1
    then "1"
    else if d == 2
    then "2"
    else if d == 3
    then "3"
    else if d == 4
    then "4"
    else if d == 5
    then "5"
    else if d == 6
    then "6"
    else if d == 7
    then "7"
    else if d == 8
    then "8"
    else "9"

-- The digits of n before a text; n + 1 rounds are enough.
pub print_digits : ℕ → ℕ → String → String
print_digits zero n out = out
print_digits (suc fuel) n out =
    let more = print_digits fuel (n / 10) (String.◌∷◌ (digit (n % 10)) out) in
    if ltb n 10 then String.◌∷◌ (digit n) out else more

-- `x.toString()`
unfoldable pub to_string : ℤ → String
unfolding digit print_digits
to_string (pos n) = print_digits (suc n) n ""
to_string (negsuc n) = String.◌∷◌ "-" (print_digits (suc (suc n)) (suc n) "")
