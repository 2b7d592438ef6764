-- ===== src/Domain/Cron/Canonical.antt =====
-- The canonical form of an expression.
use code_xd.Prelude.{
  ℕ, ◌≡◌, refl, sym, ap, ◌∙◌, Bool, true, false, not, Option, List, [], ◌∷◌, ◌++◌, any, all, arith,
  ok, from_ok, ok-injective,
}
use code_xd.Rendering.Split.{is_space}
use code_xd.Python.Separators.{push_first, join, split}
use code_xd.Domain.Cron.{
  ends_word, words, Field, CronExpression, parse_cron_field, parse_fields, parse, parts_selected,
}
use code_xd.Domain.Cron.Fields.{of_fields, parse_fields-Fields}

-- A word has a character, and no space.
pub is_word : List ℕ → Bool
is_word [] = false
is_word (c ∷ s) = not (any is_space (c ∷ s))

push_first-word :
    (c : ℕ) (parts : List (List ℕ))
    → is_space c ≡ false
    → all is_word parts ≡ true
    → all is_word (push_first c parts) ≡ true
unfolding push_first is_word
push_first-word c [] h w = ground arith
push_first-word c ([] ∷ parts) h w = cc
push_first-word c ((d ∷ p) ∷ parts) h w = ground arith

words-word : (s : List ℕ) → all is_word (words s) ≡ true
unfolding words is_word
words-word [] = refl
words-word (c ∷ s) = ground (arith, words-word s, push_first-word c (words s))

word-words : (p : List ℕ) → is_word p ≡ true → words p ≡ p ∷ []
unfolding words is_word ends_word push_first
word-words [] h = cc
word-words (c ∷ []) h = ground arith
word-words (c ∷ d ∷ p) h = ground (arith, word-words (d ∷ p))

blank-space : is_space b' ' ≡ true
unfolding is_space
blank-space = refl

word-append : (p s : List ℕ) → is_word p ≡ true → words (p ++ b' ' ∷ s) ≡ p ∷ words s
unfolding words is_word ends_word push_first
word-append [] s h = cc
word-append (c ∷ []) s h = ground (arith, blank-space)
word-append (c ∷ d ∷ p) s h = ground (arith, word-append (d ∷ p) s)

-- The words of words joined by spaces.
words-join : (parts : List (List ℕ)) → all is_word parts ≡ true → words (join b' ' parts) ≡ parts
unfolding join words
words-join [] h = refl
words-join (p ∷ []) h = word-words p (ground arith)
words-join (p ∷ q ∷ parts) h =
    word-append p (join b' ' (q ∷ parts)) (ground arith)
    ∙ ap (λ t. p ∷ t) (words-join (q ∷ parts) (ground arith))

module _ (decimal : ℕ → Option ℕ) where
  canonical-value :
      (value : List ℕ) (minimum maximum : ℕ) (n : Bool) (f : Field)
      → parse_cron_field decimal value minimum maximum n ≡ ok f
      → f.canonical ≡ value
  unfolding parse_cron_field
  canonical-value value minimum maximum n f h =
      from_ok (parts_selected decimal minimum maximum (split b',' value)) _ h
        λ selected e h1. sym (ap (λ (g : Field). g.canonical) (ok-injective h1))

  -- The canonical form of a parsed expression parses to the same expression again, so that it is its
  -- own canonical form.
  pub parse-canonical :
      (value : List ℕ) (cron : CronExpression)
      → parse decimal value ≡ ok cron
      → parse decimal cron.canonical ≡ ok cron
  unfolding parse of_fields
  parse-canonical value cron h =
      let f = parse_fields-Fields decimal (words value) cron h in
      let eq : cron.canonical ≡ join b' ' (words value) = ground (
        arith,
        f.are_five,
        ap (λ (c : CronExpression). c.canonical) f.made,
        canonical-value f.texts.0 0 59 false f.minute f.of_minute,
        canonical-value f.texts.1 0 23 false f.hour f.of_hour,
        canonical-value f.texts.2 1 31 false f.day f.of_day,
        canonical-value f.texts.3 1 12 false f.month f.of_month,
        canonical-value f.texts.4 0 7 true f.weekday f.of_weekday,
      ) in
      ap (λ t. parse_fields decimal (words t)) eq
      ∙ ap (parse_fields decimal) (words-join (words value) (words-word value))
      ∙ h
