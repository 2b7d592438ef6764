-- ===== src/Python/Numerals/RoundTrip.antt =====
-- A number is read back from its digits.
use code_xd.Prelude.{
  ℕ, zero, suc, ◌+◌, ◌*◌, ◌/◌, ◌%◌, ◌≤◌, ◌<◌, ◌≡◌, refl, ap, ◌∙◌, Bool, true, false, ◌||◌, Option,
  some, List, [], ◌∷◌, ◌++◌, ◌==◌, arith, Bool-cases, inl, inr, dec_lt, any, reverse,
}
use mathlib.Core.List.{reverse-cons, reverse-reverse}
use native.Mathlib.Nat.{div-add-mod', mod-lt, div-lt_self}
use code_xd.Rendering.Split.{is_space}
use code_xd.Python.Separators.{strip, lstrip}
use code_xd.Python.Numerals.{
  ℤ, pos, negsuc, digit_char, ascii_digit, emit, digits, print_int, digit_value, scan, signed,
  parse_int,
}

any-append : (p : ℕ → Bool) (s t : List ℕ) → any p (s ++ t) ≡ (any p s || any p t)
any-append p [] t = refl
any-append p (c ∷ s) t = ground (arith, any-append p s t)

any-reverse : (p : ℕ → Bool) (s : List ℕ) → any p (reverse s) ≡ any p s
any-reverse p [] = refl
any-reverse p (c ∷ s) =
    rw (reverse-cons c s) (ground (arith, any-append p (reverse s) (c ∷ []), any-reverse p s))

lstrip-plain : (s : List ℕ) → any is_space s ≡ false → lstrip s ≡ s
unfolding lstrip
lstrip-plain [] h = refl
lstrip-plain (c ∷ s) h = ground arith

pub strip-plain : (s : List ℕ) → any is_space s ≡ false → strip s ≡ s
unfolding strip
strip-plain s h =
    rw (lstrip-plain s h)
      (rw (lstrip-plain (reverse s) (any-reverse is_space s ∙ h)) (reverse-reverse s))

module _ (base : ℕ) (low : 2 ≤ base) (high : base ≤ 36) where
  digit_char-value : (d : ℕ) → d < base → ascii_digit (digit_char d) ≡ some d
  unfolding digit_char ascii_digit
  digit_char-value d h = ground arith

  digit_char-ascii : (d : ℕ) → d < base → digit_char d < 128
  unfolding digit_char
  digit_char-ascii d h = ground arith

  -- A digit's character is no space, no underscore and no sign.
  digit_char-plain :
      (d : ℕ)
      → d < base
      → ((is_space (digit_char d) || digit_char d == b'_')
          || (digit_char d == b'-' || digit_char d == b'+'))
        ≡ false
  unfolding digit_char is_space
  digit_char-plain d h = ground arith

  remainder-lt : (n : ℕ) → n % base < base
  remainder-lt n = mod-lt n (omega arith)

  quotient-lt : (n : ℕ) → 0 < n → n / base < n
  quotient-lt n h = div-lt_self h (omega arith)

  -- What no digit is, no character of the digits is.
  emit-any :
      (p : ℕ → Bool)
      → ((d : ℕ) → d < base → p (digit_char d) ≡ false)
      → (fuel n : ℕ) (out : List ℕ) → any p out ≡ false
      → any p (emit base fuel n out) ≡ false
  unfolding emit
  emit-any p none_is zero n out h = h
  emit-any p none_is (suc fuel) n out h = ground (
    arith,
    none_is (n % base) (remainder-lt n),
    emit-any p none_is fuel (n / base) (digit_char (n % base) ∷ out),
  )

  pub digits-any :
      (p : ℕ → Bool)
      → ((d : ℕ) → d < base → p (digit_char d) ≡ false)
      → (n : ℕ) → any p (digits base n) ≡ false
  unfolding digits digit_char
  digits-any p none_is n = ground (arith, none_is 0 (omega arith), emit-any p none_is n n [] refl)

  emit-zero : (fuel : ℕ) (out : List ℕ) → emit base fuel 0 out ≡ out
  unfolding emit
  emit-zero zero out = refl
  emit-zero (suc fuel) out = refl

  module _ (decimal : ℕ → Option ℕ) where
    scan_digit :
        (after : Bool) (acc d : ℕ) (s : List ℕ)
        → d < base
        → scan decimal base after acc (digit_char d ∷ s) ≡ scan decimal base true (acc * base + d) s
    unfolding scan digit_value
    scan_digit after acc d s h =
        ground (arith, digit_char-value d h, digit_char-ascii d h, digit_char-plain d h)

    -- Reading the last digit of `n` after the digits before it gives `n`.
    scan_last :
        (after : Bool) (n : ℕ) (out : List ℕ)
        → scan decimal base after (n / base) (digit_char (n % base) ∷ out)
          ≡ scan decimal base true n out
    scan_last after n out =
        rw (scan_digit after (n / base) (n % base) out (remainder-lt n))
          (ap (λ m. scan decimal base true m out) (div-add-mod' n base))

    scan-emit :
        (fuel n : ℕ) (out : List ℕ)
        → 0 < n
        → n ≤ fuel
        → scan decimal base false 0 (emit base fuel n out) ≡ scan decimal base true n out
    unfolding emit
    scan-emit zero n out p h = absurd (omega arith)
    scan-emit (suc fuel) n out p h = elim (dec_lt 0 (n / base)) [
      | yes more ↦
          let smaller = quotient-lt n p in
          let ih =
            scan-emit fuel (n / base) (digit_char (n % base) ∷ out) more (omega (arith, smaller)) in
          ground (arith, ih, scan_last true n out)
      | no last ↦
          let none_left : n / base ≡ 0 = omega arith in
          ground (
            arith,
            emit-zero fuel (digit_char (n % base) ∷ out),
            ap (λ m. scan decimal base false m (digit_char (n % base) ∷ out)) none_left,
            ap (λ m. emit base fuel m (digit_char (n % base) ∷ out)) none_left,
            scan_last false n out,
          )
    ]

    scan-digits : (n : ℕ) → scan decimal base false 0 (digits base n) ≡ some n
    unfolding digits scan digit_char
    scan-digits n = elim (Bool-cases (n == 0)) [
      | inl nought ↦ ground (arith, nought, scan_digit false 0 0 [] (omega arith))
      | inr more ↦ ground (arith, more, scan-emit n n [])
    ]

    signed-plain :
        (s : List ℕ) {m : ℕ}
        → any (λ c. c == b'-' || c == b'+') s ≡ false
        → scan decimal base false 0 s ≡ some m
        → signed decimal base s ≡ some (pos m)
    unfolding signed scan
    signed-plain [] h e = cc
    signed-plain (c ∷ s) h e = ground arith

    -- A natural number is read back from its digits.
    pub parse_int-digits : (n : ℕ) → parse_int decimal base (digits base n) ≡ some (pos n)
    unfolding parse_int
    parse_int-digits n =
        rw
          (strip-plain (digits base n)
            (digits-any is_space (λ d h. ground (arith, digit_char-plain d h)) n))
          (signed-plain (digits base n)
            (digits-any (λ c. c == b'-' || c == b'+') (λ d h. ground (arith, digit_char-plain d h))
              n)
            (scan-digits n))

module _ (decimal : ℕ → Option ℕ) where
  negative-print : (n : ℕ) → parse_int decimal 10 (b'-' ∷ digits 10 (suc n)) ≡ some (negsuc n)
  unfolding parse_int signed is_space
  negative-print n =
      let plain : any is_space (digits 10 (suc n)) ≡ false =
        digits-any 10 (omega arith) (omega arith) is_space
          (λ d h. ground (arith, digit_char-plain 10 (omega arith) (omega arith) d h)) (suc n) in
      rw (strip-plain (b'-' ∷ digits 10 (suc n)) plain)
        (ground (arith, scan-digits 10 (omega arith) (omega arith) decimal (suc n)))

  -- An integer is read back from its print.
  pub parse_int-print_int : (i : ℤ) → parse_int decimal 10 (print_int i) ≡ some i
  unfolding print_int
  parse_int-print_int (pos n) = parse_int-digits 10 (omega arith) (omega arith) decimal n
  parse_int-print_int (negsuc n) = negative-print n

-- No digit, and no sign, is a colon.
pub print_int-colon : (i : ℤ) → any (λ c. c == b':') (print_int i) ≡ false
unfolding print_int digit_char
print_int-colon (pos n) =
    digits-any 10 (omega arith) (omega arith) (λ c. c == b':') (λ d h. ground arith) n
print_int-colon (negsuc n) = ground (
  arith,
  digits-any 10 (omega arith) (omega arith) (λ c. c == b':') (λ d h. ground arith) (suc n),
)

pub digits-colon : (n : ℕ) → any (λ c. c == b':') (digits 36 n) ≡ false
unfolding digit_char
digits-colon n = digits-any 36 (omega arith) (omega arith) (λ c. c == b':') (λ d h. ground arith) n
