-- ===== src/Python/Numerals.antt =====
-- `int(text, base)` and the digits of a number. `decimal` is `unicodedata.decimal` on a character
-- outside ASCII, which `int` reads as the digit that it stands for.
pub mod RoundTrip
use code_xd.Prelude.{
  ℕ, zero, suc, ◌+◌, ◌-◌, ◌*◌, ◌/◌, ◌%◌, ◌≤◌, ◌<◌, ◌≡◌, refl, Bool, true, false, not, ◌&&◌, ◌||◌,
  Option, none, some, List, [], ◌∷◌, ◌++◌, if◌then◌else◌, ltb, leb, ◌==◌, ==_iff, arith, Bool-cases,
  inl, inr, option_map, length, any,
}
use native.Mathlib.Nat.{div-add-mod'}
use code_xd.Python.Separators.{strip}

-- `negsuc n` is -(n + 1).
pub data ℤ : Type 0 where
  pos negsuc : ℕ → ℤ

-- The character of a digit, of those of "0123456789abcdefghijklmnopqrstuvwxyz".
unfoldable pub digit_char : ℕ → ℕ
digit_char d = if ltb d 10 then b'0' + d else b'a' + (d - 10)

-- The value of an ASCII digit or letter.
unfoldable pub ascii_digit : ℕ → Option ℕ
ascii_digit c =
    if leb b'0' c && leb c b'9'
    then some (c - b'0')
    else if leb b'a' c && leb c b'z'
    then some (c - b'a' + 10)
    else if leb b'A' c && leb c b'Z'
    then some (c - b'A' + 10)
    else none

-- `while value: value, remainder = divmod(value, base); digits.append(...)`, then `reversed`: `out`
-- is the list of the digits with its last one at the head. A round makes the value smaller, so
-- that the value is fuel enough.
unfoldable pub emit : ℕ → ℕ → ℕ → List ℕ → List ℕ
emit base zero n out = out
emit base (suc fuel) n out =
    let rest = emit base fuel (n / base) (digit_char (n % base) ∷ out) in
    if n == 0 then out else rest

-- A natural number in a base.
unfoldable pub digits : ℕ → ℕ → List ℕ
unfolding emit digit_char
digits base n = if n == 0 then b'0' ∷ [] else emit base n n []

-- `str(value)`
unfoldable pub print_int : ℤ → List ℕ
print_int (pos n) = digits 10 n
print_int (negsuc n) = b'-' ∷ digits 10 (suc n)

module _ (decimal : ℕ → Option ℕ) where
  unfoldable pub digit_value : ℕ → Option ℕ
  digit_value c = if ltb c 128 then ascii_digit c else decimal c

  abbrev pub below : ℕ → Option ℕ → Option ℕ
  below base none = none
  below base (some d) = if ltb d base then some d else none

  -- The digits of a number, with single underscores between them: `after` says whether a digit
  -- came last.
  unfoldable pub scan : ℕ → Bool → ℕ → List ℕ → Option ℕ
  scan base after acc [] = if after then some acc else none
  scan base after acc (c ∷ s) =
      if c == b'_'
      then if after then scan base false acc s else none
      else elim (below base (digit_value c)) [
        | none ↦ none
        | some d ↦ scan base true (acc * base + d) s
      ]

  abbrev pub negated : ℕ → ℤ
  negated zero = pos 0
  negated (suc n) = negsuc n

  unfoldable pub signed : ℕ → List ℕ → Option ℤ
  unfolding scan digit_value ascii_digit
  signed base [] = none
  signed base (c ∷ s) =
      if c == b'-'
      then option_map negated (scan base false 0 s)
      else if c == b'+'
      then option_map pos (scan base false 0 s)
      else option_map pos (scan base false 0 (c ∷ s))

  -- `int(text, base)`; none is the `ValueError`. Its refusal of more than 4300 digits is left out.
  unfoldable pub parse_int : ℕ → List ℕ → Option ℤ
  unfolding signed
  parse_int base text = signed base (strip text)
