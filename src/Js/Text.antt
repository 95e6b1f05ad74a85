-- ===== src/Js/Text.antt =====
-- Functions of the language on texts: `split` at one character, `parseInt` in base ten, and `||` with a
-- default.
use Prim.Native.Char.{Char, code}
use soro_pool.Base.{
  ℕ, ◌+◌, ◌*◌, ◌-◌, String, Bool, true, false, ◌&&◌, Option, none, some, List, [], ◌∷◌, leb, ◌==◌,
  if◌then◌else◌,
}
use soro_pool.Base.Int.{ℤ, pos, neg_of_ℕ}
use soro_pool.Js.BigInt.{codes, trim_start, to_string}
use text.Mathlib.Text as T

-- Puts a character before the first piece.
abbrev pub onto_first : Char → List String → List String
onto_first c [] = String.◌∷◌ c "" ∷ []
onto_first c (piece ∷ pieces) = String.◌∷◌ c piece ∷ pieces

-- `text.split(separator)`, for a separator of one character, given by its code
unfoldable pub split_on : ℕ → String → List String
split_on separator String.[] = "" ∷ []
split_on separator (String.◌∷◌ c s) =
    let pieces = split_on separator s in
    if code c == separator then "" ∷ pieces else onto_first c pieces

-- `text || default`: an empty text counts as missing.
abbrev pub text_or : String → String → String
text_or text default = if T.◌==◌ text "" then default else text

-- `(value as string) || default`, where the value may be missing
abbrev pub or_default : Option String → String → String
or_default none default = default
or_default (some text) default = text_or text default

abbrev pub is_digit : ℕ → Bool
is_digit c = leb b'0' c && leb c b'9'

-- The number that the leading digits make.
unfoldable pub leading : ℕ → List ℕ → ℕ
leading n [] = n
leading n (c ∷ s) = let more = leading (n * 10 + (c - b'0')) s in if is_digit c then more else n

-- One digit at least.
abbrev pub digits_of : (ℕ → ℤ) → List ℕ → Option ℤ
digits_of sign [] = none
digits_of sign (c ∷ s) = if is_digit c then some (sign (leading 0 (c ∷ s))) else none

abbrev pub signed_digits : List ℕ → Option ℤ
signed_digits [] = none
signed_digits (c ∷ s) =
    if c == b'-'
    then digits_of neg_of_ℕ s
    else if c == b'+'
    then digits_of pos s
    else digits_of pos (c ∷ s)

-- `parseInt(text, 10)`, where none is NaN
unfoldable pub parse_int : String → Option ℤ
unfolding trim_start
parse_int text = signed_digits (trim_start (codes text))

-- A number in a template: `${n}`
abbrev pub show_number : Option ℤ → String
show_number none = "NaN"
show_number (some n) = to_string n

-- `text.replace(c, '')`, which takes the first of them away
unfoldable pub remove_first : ℕ → String → String
remove_first sep String.[] = ""
remove_first sep (String.◌∷◌ c s) =
    let rest = remove_first sep s in if code c == sep then s else String.◌∷◌ c rest

-- `text.startsWith(prefix)`
unfoldable pub starts_with : String → String → Bool
starts_with text String.[] = true
starts_with String.[] (String.◌∷◌ d prefix) = false
starts_with (String.◌∷◌ c text) (String.◌∷◌ d prefix) =
    (code c == code d) && starts_with text prefix
