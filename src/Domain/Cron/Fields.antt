-- ===== src/Domain/Cron/Fields.antt =====
-- The five fields of a parsed expression, and the bounds of their numbers.
use code_xd.Prelude.{
  ℕ, ◌≤◌, ◌≡◌, refl, sym, ◌∙◌, subst, true, false, Option, List, [], ◌∷◌, ==_iff, arith, ok,
  from_ok, ok-injective,
}
use code_xd.Python.Separators.{split, join}
use code_xd.Domain.Cron.{elem, Field, CronExpression, parse_cron_field, parse_fields, parse, words}
use code_xd.Domain.Cron.Members.{member, parse_cron_field-member, selects-bounds}

-- The expression that five fields make.
unfoldable pub of_fields : Field → Field → Field → Field → Field → CronExpression
of_fields minute hour day month weekday = record {
  minute = minute.selected;
  hour = hour.selected;
  day = day.selected;
  month = month.selected;
  weekday = weekday.selected;
  day_wildcard = day.wildcard;
  weekday_wildcard = weekday.wildcard;
  canonical = join b' ' (
      minute.canonical ∷ hour.canonical ∷ day.canonical ∷ month.canonical ∷ weekday.canonical ∷ []);
}

module _ (decimal : ℕ → Option ℕ) where
  pub record Fields (parts : List (List ℕ)) (cron : CronExpression) : Type 0 where
    pub texts : List ℕ × List ℕ × List ℕ × List ℕ × List ℕ
    pub minute : Field
    pub hour : Field
    pub day : Field
    pub month : Field
    pub weekday : Field
    pub are_five : parts ≡ texts.0 ∷ texts.1 ∷ texts.2 ∷ texts.3 ∷ texts.4 ∷ []
    pub of_minute : parse_cron_field decimal texts.0 0 59 false ≡ ok minute
    pub of_hour : parse_cron_field decimal texts.1 0 23 false ≡ ok hour
    pub of_day : parse_cron_field decimal texts.2 1 31 false ≡ ok day
    pub of_month : parse_cron_field decimal texts.3 1 12 false ≡ ok month
    pub of_weekday : parse_cron_field decimal texts.4 0 7 true ≡ ok weekday
    pub made : of_fields minute hour day month weekday ≡ cron

  pub parse_fields-Fields :
      (parts : List (List ℕ)) (cron : CronExpression)
      → parse_fields decimal parts ≡ ok cron
      → Fields parts cron
  unfolding parse_fields of_fields
  parse_fields-Fields [] cron h = cc
  parse_fields-Fields (a ∷ []) cron h = cc
  parse_fields-Fields (a ∷ b ∷ []) cron h = cc
  parse_fields-Fields (a ∷ b ∷ c ∷ []) cron h = cc
  parse_fields-Fields (a ∷ b ∷ c ∷ d ∷ []) cron h = cc
  parse_fields-Fields (a ∷ b ∷ c ∷ d ∷ e ∷ f ∷ parts) cron h = cc
  parse_fields-Fields (a ∷ b ∷ c ∷ d ∷ e ∷ []) cron h =
      from_ok (parse_cron_field decimal a 0 59 false) _ h λ minute p h1.
        from_ok (parse_cron_field decimal b 0 23 false) _ h1 λ hour q h2.
          from_ok (parse_cron_field decimal c 1 31 false) _ h2 λ day r h3.
            from_ok (parse_cron_field decimal d 1 12 false) _ h3 λ month s h4.
              from_ok (parse_cron_field decimal e 0 7 true) _ h4 λ weekday t h5. record {
                texts = (a, b, c, d, e);
                minute = minute;
                hour = hour;
                day = day;
                month = month;
                weekday = weekday;
                are_five = refl;
                of_minute = p;
                of_hour = q;
                of_day = r;
                of_month = s;
                of_weekday = t;
                made = ok-injective h5;
              }

  field-bounds :
      (value : List ℕ) (minimum maximum : ℕ) (f : Field)
      → parse_cron_field decimal value minimum maximum false ≡ ok f
      → (v : ℕ) → elem v f.selected ≡ true
      → (minimum ≤ v) × (v ≤ maximum)
  unfolding member
  field-bounds value minimum maximum f h v e =
      selects-bounds decimal minimum maximum v (split b',' value)
        (sym (parse_cron_field-member decimal value minimum maximum false f h v) ∙ e)

  weekday-bounds :
      (value : List ℕ) (f : Field)
      → parse_cron_field decimal value 0 7 true ≡ ok f
      → (v : ℕ) → elem v f.selected ≡ true
      → v ≤ 6
  unfolding member
  weekday-bounds value f h v e =
      let m = parse_cron_field-member decimal value 0 7 true f h v in
      let b = selects-bounds decimal 0 7 v (split b',' value) in ground (arith, m, b, ==_iff v 0)

  -- The numbers of a parsed expression are minutes, hours, days, months and weekdays.
  pub record InBounds (cron : CronExpression) : Type 0 where
    pub minutes : (v : ℕ) → elem v cron.minute ≡ true → v ≤ 59
    pub hours : (v : ℕ) → elem v cron.hour ≡ true → v ≤ 23
    pub days : (v : ℕ) → elem v cron.day ≡ true → (1 ≤ v) × (v ≤ 31)
    pub months : (v : ℕ) → elem v cron.month ≡ true → (1 ≤ v) × (v ≤ 12)
    pub weekdays : (v : ℕ) → elem v cron.weekday ≡ true → v ≤ 6

  -- Whatever text is parsed, the minutes that the expression selects are at most 59, the hours at
  -- most 23, the days 1 to 31, the months 1 to 12, and the weekdays at most 6: Sunday is 0, never 7.
  pub parse-InBounds :
      (value : List ℕ) (cron : CronExpression) → parse decimal value ≡ ok cron → InBounds cron
  unfolding parse of_fields
  parse-InBounds value cron h =
      let f = parse_fields-Fields (words value) cron h in
      subst InBounds f.made (record {
        minutes = λ v e. (field-bounds f.texts.0 0 59 f.minute f.of_minute v e).1;
        hours = λ v e. (field-bounds f.texts.1 0 23 f.hour f.of_hour v e).1;
        days = field-bounds f.texts.2 1 31 f.day f.of_day;
        months = field-bounds f.texts.3 1 12 f.month f.of_month;
        weekdays = weekday-bounds f.texts.4 f.weekday f.of_weekday;
      })
