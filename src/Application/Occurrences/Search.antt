-- ===== src/Application/Occurrences/Search.antt =====
-- The search for the next occurrence finds the first one, and always returns.
use code_xd.Prelude.{
  ℕ, zero, suc, ◌+◌, ◌*◌, ◌/◌, ◌≤◌, ◌<◌, ◌≡◌, refl, subst, true, false, Option, none, some, List,
  arith, dec_lt, ok, Bool-cases, inl, inr, ltb, lt→ltb, leb, le→leb,
}
use code_xd.Domain.Cron.{CronExpression, LocalTime, matches, parse}
use code_xd.Application.Occurrences.{
  ScheduleSpec, Occurrence, Calendar, cron, horizon, last_minute, first_match, in_zone,
  next_of_kind, next_occurrence,
}

-- The first minute of a range that matches, or that none does.
abbrev FirstMatch : CronExpression → (ℕ → LocalTime × List ℕ) → ℕ → ℕ → Option Occurrence → Type 0
FirstMatch expr local rounds start none =
    (m : ℕ) → start ≤ m → m < start + rounds → matches expr (local m).0 ≡ false
FirstMatch expr local rounds start (some o) =
    (m : ℕ) × (start ≤ m)
    × (m < start + rounds)
    × (o.utc_ms ≡ m * 60000)
    × (o.local_display ≡ (local m).1)
    × (matches expr (local m).0 ≡ true)
    × ((k : ℕ) → start ≤ k → k < m → matches expr (local k).0 ≡ false)

FirstMatch-earlier :
    (expr : CronExpression) (local : ℕ → LocalTime × List ℕ) (rounds start : ℕ)
    (o : Option Occurrence)
    → matches expr (local start).0 ≡ false
    → FirstMatch expr local rounds (suc start) o
    → FirstMatch expr local (suc rounds) start o
FirstMatch-earlier expr local rounds start none h f = λ m a b. elim (dec_lt start m) [
  | yes l ↦ f m l (omega arith)
  | no n ↦ subst (λ i. matches expr (local i).0 ≡ false) (omega (arith, n)) h
]
FirstMatch-earlier expr local rounds start (some o) h (m, a, b, at, text, match, f) = (
  m,
  omega arith,
  omega arith,
  at,
  text,
  match,
  λ k c d. elim (dec_lt start k) [
    | yes l ↦ f k l d
    | no n ↦ subst (λ i. matches expr (local i).0 ≡ false) (omega (arith, n)) h
  ],
)

-- The search over minutes that all have a local time.
first_match-FirstMatch :
    (expr : CronExpression) (zoned : ℕ → Option (LocalTime × List ℕ))
    (local : ℕ → LocalTime × List ℕ) (bound : ℕ)
    → ((k : ℕ) → k ≤ bound → zoned k ≡ some (local k))
    → bound < last_minute
    → (rounds start : ℕ) → start + rounds ≤ suc bound
    → (o : Option Occurrence) × (first_match expr zoned rounds start ≡ ok o)
      × FirstMatch expr local rounds start o
unfolding first_match
first_match-FirstMatch expr zoned local bound agree far zero start fits =
    (none, refl, λ m a b. absurd (omega arith))
first_match-FirstMatch expr zoned local bound agree far (suc rounds) start fits =
    let there = agree start (omega arith) in
    let (o, eq, f) =
      first_match-FirstMatch expr zoned local bound agree far rounds (suc start) (omega arith) in
    elim (Bool-cases (matches expr (local start).0)) [
      | inl match ↦ (
        some record { utc_ms = start * 60000; local_display = (local start).1 },
        rw (first_match, there, match) refl,
        (start, omega arith, omega arith, refl, refl, match, λ k c d. absurd (omega arith)),
      )
      | inr no_match ↦
          let more : ltb start last_minute ≡ true = lt→ltb start last_minute (omega arith) in
          (
            o,
            rw (first_match, there, no_match, more) eq,
            FirstMatch-earlier expr local rounds start o no_match f,
          )
    ]

-- The occurrence is the first minute after the instant that matches, within five leap years, with its
-- text; none means that no minute of five leap years does.
abbrev pub Earliest : CronExpression → (ℕ → LocalTime × List ℕ) → ℕ → Option Occurrence → Type 0
Earliest expr local after_ms none =
    (k : ℕ)
    → after_ms < k * 60000
    → k * 60000 ≤ after_ms + horizon * 60000
    → matches expr (local k).0 ≡ false
Earliest expr local after_ms (some o) =
    (m : ℕ) × (o.utc_ms ≡ m * 60000)
    × (o.local_display ≡ (local m).1)
    × (after_ms < o.utc_ms)
    × (m ≤ after_ms / 60000 + suc horizon)
    × (matches expr (local m).0 ≡ true)
    × ((k : ℕ) → after_ms < k * 60000 → k < m → matches expr (local k).0 ≡ false)

minute_after : (after_ms k : ℕ) → after_ms < k * 60000 → after_ms / 60000 + 1 ≤ k
minute_after after_ms k h = omega arith

after_minute : (after_ms m : ℕ) → after_ms / 60000 + 1 ≤ m → after_ms < m * 60000
after_minute after_ms m h = omega arith

within_horizon :
    (after_ms k : ℕ)
    → k * 60000 ≤ after_ms + horizon * 60000
    → k < after_ms / 60000 + 1 + suc horizon
within_horizon after_ms k h = omega arith

FirstMatch-Earliest :
    (expr : CronExpression) (local : ℕ → LocalTime × List ℕ) (after_ms : ℕ) (o : Option Occurrence)
    → FirstMatch expr local (suc horizon) (after_ms / 60000 + 1) o
    → Earliest expr local after_ms o
FirstMatch-Earliest expr local after_ms none f =
    λ k a b. f k (minute_after after_ms k a) (within_horizon after_ms k b)
FirstMatch-Earliest expr local after_ms (some o) (m, a, b, at, text, match, f) =
    let late : after_ms < m * 60000 = after_minute after_ms m a in
    (
      m,
      at,
      text,
      omega (arith, at, late),
      omega arith,
      match,
      λ k c d. f k (minute_after after_ms k c) d,
    )

-- For a cron schedule whose expression parses and whose zone `ZoneInfo` knows: if every minute from 1970
-- to a bound has a local time, the bound is before the last minute of the year 9999, and five leap
-- years and a minute after the instant are not beyond the bound, then `next_occurrence` returns. What
-- it returns is the first minute after the instant whose local time matches, within five leap years
-- and a minute, with its text; when it returns none, no minute within five leap years matches.
pub next_occurrence-Earliest :
    (calendar : Calendar) (spec : ScheduleSpec) (expr : CronExpression)
    (local : ℕ → LocalTime × List ℕ) (after_ms bound : ℕ)
    → spec.kind ≡ cron
    → parse calendar.decimal spec.expression ≡ ok expr
    → calendar.zone_known spec.timezone ≡ true
    → ((k : ℕ) → k ≤ bound → calendar.astimezone spec.timezone (k * 60000) ≡ some (local k))
    → bound < last_minute
    → after_ms / 60000 + suc horizon ≤ bound
    → (o : Option Occurrence) × (next_occurrence calendar spec after_ms ≡ ok o)
      × Earliest expr local after_ms o
unfolding next_occurrence next_of_kind
next_occurrence-Earliest calendar spec expr local after_ms bound k h known agree far near =
    let (o, eq, f) =
      first_match-FirstMatch expr (in_zone calendar spec.timezone) local bound agree far
        (suc horizon) (after_ms / 60000 + 1) (omega arith) in
    let inside : leb (after_ms / 60000 + 1 + horizon) last_minute ≡ true =
      le→leb _ _ (omega arith) in
    (o, rw k (rw h (rw (known, inside) eq)), FirstMatch-Earliest expr local after_ms o f)
