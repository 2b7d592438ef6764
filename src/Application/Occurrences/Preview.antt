-- ===== src/Application/Occurrences/Preview.antt =====
-- The preview of a cron schedule: which occurrences it lists.
use code_xd.Prelude.{
  ℕ, zero, suc, ◌+◌, ◌*◌, ◌/◌, ◌≤◌, ◌<◌, ◌≡◌, refl, sym, ◌∙◌, subst, true, false, ◌||◌, Option,
  none, some, List, [], ◌∷◌, length, any, ltb, ◌==◌, arith, dec_lt, ok,
}
use code_xd.Domain.Cron.{CronExpression, LocalTime, matches, parse}
use code_xd.Application.Occurrences.{
  ScheduleSpec, Occurrence, Calendar, cron, horizon, next_occurrence, preview_from, last_minute,
  preview_occurrences,
}
use code_xd.Application.Occurrences.Search.{Earliest, next_occurrence-Earliest}

-- Each is later than the one before, the first later than the instant.
abbrev pub Increasing : ℕ → List Occurrence → Type 0
Increasing cursor [] = Unit
Increasing cursor (o ∷ os) = (cursor < o.utc_ms) × Increasing o.utc_ms os

-- The last occurrence, or the instant when there is none.
abbrev pub last_time : ℕ → List Occurrence → ℕ
last_time cursor [] = cursor
last_time cursor (o ∷ os) = last_time o.utc_ms os

-- The minutes of the list, up to its last one, are exactly those that match; a list that is shorter
-- than what was wanted is so because no minute of the next five leap years matches.
pub record Preview (expr : CronExpression) (local : ℕ → LocalTime × List ℕ) (wanted cursor : ℕ)
    (os : List Occurrence) : Type 0 where
  pub bounded : length os ≤ wanted
  pub increasing : Increasing cursor os
  pub complete :
      (k : ℕ)
      → cursor < k * 60000
      → k * 60000 ≤ last_time cursor os
      → matches expr (local k).0 ≡ any (λ o. o.utc_ms == k * 60000) os
  pub exhausted :
      length os < wanted
      → (k : ℕ) → last_time cursor os < k * 60000
      → k * 60000 ≤ last_time cursor os + horizon * 60000
      → matches expr (local k).0 ≡ false

Increasing-absent :
    (cursor t : ℕ) (os : List Occurrence)
    → Increasing cursor os
    → t ≤ cursor
    → any (λ (o : Occurrence). o.utc_ms == t) os ≡ false
Increasing-absent cursor t [] i h = refl
Increasing-absent cursor t (o ∷ os) (l, i) h =
    ground (arith, l, Increasing-absent o.utc_ms t os i (omega (arith, l)))

module _ (expr : CronExpression) (local : ℕ → LocalTime × List ℕ) where
  Preview-none :
      (wanted cursor : ℕ) → Earliest expr local cursor none → Preview expr local wanted cursor []
  Preview-none wanted cursor e = record {
    bounded = omega arith;
    increasing = tt;
    complete = λ k a b. absurd (omega arith);
    exhausted = λ short k a b. e k a b;
  }

  complete-some :
      (wanted cursor : ℕ) (o : Occurrence) (os : List Occurrence) (m : ℕ)
      → o.utc_ms ≡ m * 60000
      → matches expr (local m).0 ≡ true
      → ((k : ℕ) → cursor < k * 60000 → k < m → matches expr (local k).0 ≡ false)
      → Preview expr local wanted o.utc_ms os
      → (k : ℕ) → cursor < k * 60000
      → k * 60000 ≤ last_time o.utc_ms os
      → matches expr (local k).0 ≡ any (λ o. o.utc_ms == k * 60000) (o ∷ os)
  complete-some wanted cursor o os m at match none_before p k a b = elim (dec_lt k m) [
    | yes before ↦ ground (
      arith,
      none_before k a before,
      at,
      Increasing-absent o.utc_ms (k * 60000) os p.increasing (omega (arith, at)),
    )
    | no n ↦ elim (dec_lt m k) [
      | yes after ↦ ground (arith, at, p.complete k (omega (arith, at)) b)
      | no n' ↦
          let eq : k ≡ m = omega (arith, n, n') in
          subst (λ i. matches expr (local i).0 ≡ true) (sym eq) match ∙ ground (arith, at, eq)
    ]
  ]

  Preview-some :
      (wanted cursor : ℕ) (o : Occurrence) (os : List Occurrence)
      → Earliest expr local cursor (some o)
      → Preview expr local wanted o.utc_ms os
      → Preview expr local (suc wanted) cursor (o ∷ os)
  Preview-some wanted cursor o os (m, at, text, later, near, match, none_before) p = record {
    bounded = omega (arith, p.bounded);
    increasing = (later, p.increasing);
    complete = λ k a b. complete-some wanted cursor o os m at match none_before p k a b;
    exhausted = λ short k a b. p.exhausted (omega arith) k a b;
  }

-- The occurrence that was found leaves one search less to fit under the bound.
search_fits :
    (wanted cursor m t bound : ℕ)
    → t ≡ m * 60000
    → m ≤ cursor / 60000 + suc horizon
    → cursor / 60000 + suc wanted * suc horizon ≤ bound
    → t / 60000 + wanted * suc horizon ≤ bound
search_fits wanted cursor m t bound at near fits = omega arith

module _ (calendar : Calendar) (spec : ScheduleSpec) (expr : CronExpression)
    (local : ℕ → LocalTime × List ℕ) (bound : ℕ) where
  -- The occurrences, whatever they are, are what the search promises.
  Previewed : ℕ → ℕ → Type 0
  Previewed wanted cursor =
      (os : List Occurrence) × (preview_from calendar spec wanted cursor ≡ ok os)
      × Preview expr local wanted cursor os

  Previewed-round :
      (wanted cursor : ℕ) (o : Option Occurrence)
      → next_occurrence calendar spec cursor ≡ ok o
      → Earliest expr local cursor o
      → cursor / 60000 + suc wanted * suc horizon ≤ bound
      → ((c : ℕ) → c / 60000 + wanted * suc horizon ≤ bound → Previewed wanted c)
      → Previewed (suc wanted) cursor
  unfolding preview_from Previewed
  Previewed-round wanted cursor none h e fits r =
      ([], rw h refl, Preview-none expr local (suc wanted) cursor e)
  Previewed-round wanted cursor (some o) h e fits r =
      let (m, at, text, later, near, match, before) = e in
      let (os, eq, p) = r o.utc_ms (search_fits wanted cursor m o.utc_ms bound at near fits) in
      (o ∷ os, rw h (rw eq refl), Preview-some expr local wanted cursor o os e p)

  preview_from-Previewed :
      spec.kind ≡ cron
      → parse calendar.decimal spec.expression ≡ ok expr
      → calendar.zone_known spec.timezone ≡ true
      → ((k : ℕ) → k ≤ bound → calendar.astimezone spec.timezone (k * 60000) ≡ some (local k))
      → bound < last_minute
      → (wanted cursor : ℕ) → cursor / 60000 + wanted * suc horizon ≤ bound
      → Previewed wanted cursor
  unfolding preview_from Previewed
  preview_from-Previewed k h known agree far zero cursor fits = (
    [],
    refl,
    record {
      bounded = omega arith;
      increasing = tt;
      complete = λ i a b. absurd (omega arith);
      exhausted = λ short. absurd (omega arith);
    },
  )
  preview_from-Previewed k h known agree far (suc wanted) cursor fits =
      let (o, eq, e) =
        next_occurrence-Earliest calendar spec expr local cursor bound k h known agree far
          (omega (arith, fits)) in
      Previewed-round wanted cursor o eq e fits (preview_from-Previewed k h known agree far wanted)

  -- For a cron schedule whose expression parses and whose zone `ZoneInfo` knows, and a limit from 1 to
  -- 10: if every minute from 1970 to a bound has a local time, the bound is before the last minute of
  -- the year 9999, and the limit times five leap years and a minute after the instant are not beyond
  -- the bound, then `preview_occurrences` returns. The occurrences are at most so many and increase;
  -- up to the last of them the minutes listed are exactly those whose local time matches, and if they
  -- are fewer than the limit, no minute of the five leap years after the last one matches.
  pub preview_occurrences-Preview :
      spec.kind ≡ cron
      → parse calendar.decimal spec.expression ≡ ok expr
      → calendar.zone_known spec.timezone ≡ true
      → ((k : ℕ) → k ≤ bound → calendar.astimezone spec.timezone (k * 60000) ≡ some (local k))
      → bound < last_minute
      → (after_ms limit : ℕ) → 1 ≤ limit
      → limit ≤ 10
      → after_ms / 60000 + limit * suc horizon ≤ bound
      → (os : List Occurrence) × (preview_occurrences calendar spec after_ms limit ≡ ok os)
        × Preview expr local limit after_ms os
  unfolding preview_occurrences Previewed
  preview_occurrences-Preview k h known agree far after_ms limit low high fits =
      let (os, eq, p) = preview_from-Previewed k h known agree far limit after_ms fits in
      let right : (ltb limit 1 || ltb 10 limit) ≡ false = ground arith in (os, rw right eq, p)
