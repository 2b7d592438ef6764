-- ===== src/Application/Occurrences.antt =====
-- application/schedule_coordinator.py: the next occurrences of a schedule. Instants are milliseconds,
-- and the minutes that the search goes through are counted, from 1970.
mod Tests
pub mod Search
pub mod Preview
use code_xd.Prelude.{
  ℕ, zero, suc, ◌+◌, ◌*◌, ◌/◌, ◌≤◌, ◌<◌, ◌≡◌, Bool, true, false, not, ◌&&◌, ◌||◌, Option, none,
  some, List, [], ◌∷◌, ◌++◌, codes, if◌then◌else◌, ltb, leb, ◌==◌, Result, ok, err, ◌>>=◌, ◌>>◌,
  guard, or_raise,
}
use code_xd.Python.Numerals.{ℤ, pos, negsuc}
use code_xd.Domain.Cron.{
  ConfigurationError, configuration_error, CronExpression, LocalTime, matches, parse,
}

pub data ScheduleKind : Type 0 where
  once cron : ScheduleKind

pub data MisfirePolicy : Type 0 where
  skip latest all : MisfirePolicy

pub record ScheduleSpec : Type 0 where
  pub kind : ScheduleKind
  pub expression : List ℕ
  pub timezone : List ℕ
  pub misfire_policy : MisfirePolicy

pub record Occurrence : Type 0 where
  pub utc_ms : ℕ
  pub local_display : List ℕ

-- What `datetime`, `zoneinfo` and `unicodedata` compute: whether `ZoneInfo` has a zone; the local time
-- of an instant in a zone and its text, where there is one in the years 1 to 9999; the instant of an
-- ISO-8601 text, which is none inside when the text has no offset from UTC; and decimal digits.
pub record Calendar : Type 0 where
  pub zone_known : List ℕ → Bool
  pub astimezone : List ℕ → ℕ → Option (LocalTime × List ℕ)
  pub fromisoformat : List ℕ → Option (Option ℤ)
  pub decimal : ℕ → Option ℕ

-- `ConfigurationError`, `ZoneInfoNotFoundError`, and what `datetime` raises out of its range:
-- `OverflowError`, or `ValueError` from `fromtimestamp`
pub data OccurrenceError : Type 0 where
  invalid : ConfigurationError → OccurrenceError
  zone_not_found out_of_range : OccurrenceError

abbrev pub configured : {A : Type 0} → Result ConfigurationError A → Result OccurrenceError A
configured (ok a) = ok a
configured (err e) = err (invalid e)

-- The last minute of the year 9999
abbrev pub last_minute : ℕ
last_minute = 4223371679

-- `value[:-1] + "+00:00" if value.endswith("Z") else value`
unfoldable pub utc_offset : List ℕ → List ℕ
utc_offset [] = []
utc_offset (c ∷ []) = if c == b'Z' then codes "+00:00" else c ∷ []
utc_offset (c ∷ d ∷ s) = c ∷ utc_offset (d ∷ s)

-- The minutes of `timedelta(days=366 * 5)`
abbrev pub horizon : ℕ
horizon = 2635200

-- The search, from a minute on, over so many minutes.
unfoldable pub first_match :
    CronExpression
    → (ℕ → Option (LocalTime × List ℕ))
    → ℕ
    → ℕ
    → Result OccurrenceError (Option Occurrence)
first_match expr local zero candidate = ok none
first_match expr local (suc rounds) candidate = elim (local candidate) [
  | none ↦ err out_of_range
  | some (time, text) ↦ elim (matches expr time) [
    | true ↦ ok (some record { utc_ms = candidate * 60000; local_display = text })
    | false ↦ elim (ltb candidate last_minute) [
      | true ↦ first_match expr local rounds (suc candidate)
      | false ↦ err out_of_range
    ]
  ]
]

module _ (calendar : Calendar) where
  -- `_parse_instant` without a timezone, in milliseconds
  unfoldable pub parse_instant : List ℕ → Result ConfigurationError ℤ
  parse_instant value = do
    instant ← or_raise (calendar.fromisoformat (utc_offset value)) configuration_error
    or_raise instant configuration_error

  -- The instant, when it is later.
  unfoldable pub later : List ℕ → ℕ → ℤ → Result OccurrenceError (Option Occurrence)
  later timezone after_ms (pos timestamp) = if leb timestamp after_ms then ok none else (do
    guard (calendar.zone_known timezone) zone_not_found
    local ← or_raise (calendar.astimezone timezone timestamp) out_of_range
    ok (some record { utc_ms = timestamp; local_display = local.1 }))
  later timezone after_ms (negsuc n) = ok none

  -- The local time of a minute.
  abbrev pub in_zone : List ℕ → ℕ → Option (LocalTime × List ℕ)
  in_zone timezone candidate = calendar.astimezone timezone (candidate * 60000)

  unfoldable pub next_of_kind :
      ScheduleKind → List ℕ → List ℕ → ℕ → Result OccurrenceError (Option Occurrence)
  next_of_kind once expression timezone after_ms = do
    timestamp ← configured (parse_instant expression)
    later timezone after_ms timestamp
  next_of_kind cron expression timezone after_ms = do
    expr ← configured (parse calendar.decimal expression)
    guard (calendar.zone_known timezone) zone_not_found
    guard (leb (after_ms / 60000 + 1 + horizon) last_minute) out_of_range
    first_match expr (in_zone timezone) (suc horizon) (after_ms / 60000 + 1)

  unfoldable pub next_occurrence : ScheduleSpec → ℕ → Result OccurrenceError (Option Occurrence)
  next_occurrence spec after_ms = next_of_kind spec.kind spec.expression spec.timezone after_ms

  -- The loop, a round for each occurrence that is still wanted.
  unfoldable pub preview_from : ScheduleSpec → ℕ → ℕ → Result OccurrenceError (List Occurrence)
  preview_from spec zero cursor = ok []
  preview_from spec (suc wanted) cursor = do
    occurrence ← next_occurrence spec cursor
    elim occurrence [
      | none ↦ ok []
      | some o ↦ do rest ← preview_from spec wanted o.utc_ms; ok (o ∷ rest)
    ]

  unfoldable pub preview_occurrences :
      ScheduleSpec → ℕ → ℕ → Result OccurrenceError (List Occurrence)
  preview_occurrences spec after_ms limit = do
    guard (not (ltb limit 1 || ltb 10 limit)) (invalid configuration_error)
    preview_from spec limit after_ms
