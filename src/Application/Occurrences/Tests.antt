-- ===== src/Application/Occurrences/Tests.antt =====
-- A toy calendar, and the witnesses.
use code_xd.Prelude.{
  ℕ, ◌/◌, ◌%◌, ◌≡◌, refl, false, Option, none, some, List, [], ◌∷◌, codes, arith, ok, err, true, ap,
  ◌≤◌, ◌*◌,
}
use code_xd.Python.Numerals.{pos, parse_int, signed, scan, digit_value, ascii_digit}
use code_xd.Rendering.Split.{is_space}
use code_xd.Python.Separators.{split, partition, strip, lstrip, push_first, join}
use code_xd.Domain.Cron.{
  CronExpression, LocalTime, ends_word, words, step_of, positive, ends_of, dashed, in_bounds,
  part_range, range, parts_selected, normalized, parse_cron_field, parse_fields, parse, matches,
}
use code_xd.Application.Occurrences.{
  ScheduleSpec, cron, once, latest, Occurrence, Calendar, later, zone_not_found, out_of_range,
  utc_offset, parse_instant, first_match, next_of_kind, next_occurrence, preview_from,
  preview_occurrences,
}
use code_xd.Application.Occurrences.Search.{Earliest, next_occurrence-Earliest}
use code_xd.Application.Occurrences.Preview.{Preview, preview_occurrences-Preview}

abbrev time_of_day : ℕ → LocalTime × List ℕ
time_of_day m =
    (record { minute = m % 60; hour = m / 60 % 24; day = 1; month = 1; weekday = 0 }, [])

-- Every day is the first of January, and a Monday.
abbrev endless_monday : Calendar
endless_monday = record {
  zone_known = λ zone. true;
  astimezone = λ zone ms. some (time_of_day (ms / 60000));
  fromisoformat = λ text. some (some (pos 5000));
  decimal = λ c. none;
}

abbrev five_past : ScheduleSpec
five_past = record {
  kind = cron;
  expression = codes "5 0-1 1 1 7";
  timezone = codes "UTC";
  misfire_policy = latest;
}

abbrev five_past_expression : CronExpression
five_past_expression = record {
  minute = 5 ∷ [];
  hour = 0 ∷ 1 ∷ [];
  day = 1 ∷ [];
  month = 1 ∷ [];
  weekday = 0 ∷ [];
  day_wildcard = false;
  weekday_wildcard = false;
  canonical = codes "5 0-1 1 1 7";
}

parses_five_past : parse endless_monday.decimal five_past.expression ≡ ok five_past_expression
unfolding is_space ends_word words join parse_fields parse split partition strip lstrip push_first
    parse_int signed scan digit_value ascii_digit step_of positive ends_of dashed in_bounds
    part_range range parts_selected normalized parse_cron_field
parses_five_past = refl

abbrev at_five_past : ℕ → Occurrence
at_five_past ms = record { utc_ms = ms; local_display = [] }

finds_five_past :
    preview_occurrences endless_monday five_past 0 2
    ≡ ok (at_five_past 300000 ∷ at_five_past 3900000 ∷ [])
unfolding first_match next_of_kind next_occurrence preview_from preview_occurrences matches is_space
    ends_word words join parse_fields parse split partition strip lstrip push_first parse_int signed
    scan digit_value ascii_digit step_of positive ends_of dashed in_bounds part_range range
    parts_selected normalized parse_cron_field
finds_five_past = refl

abbrev once_spec : ScheduleSpec
once_spec = record {
  kind = once;
  expression = codes "1970-01-01T00:00:05Z";
  timezone = codes "UTC";
  misfire_policy = latest;
}

once_later : next_occurrence endless_monday once_spec 4999 ≡ ok (some (at_five_past 5000))
unfolding utc_offset parse_instant later next_of_kind next_occurrence
once_later = refl

once_past : next_occurrence endless_monday once_spec 5000 ≡ ok none
unfolding utc_offset parse_instant later next_of_kind next_occurrence
once_past = refl

abbrev nowhere : Calendar
nowhere = record endless_monday { zone_known = λ zone. false }

zone_missing : next_occurrence nowhere five_past 0 ≡ err zone_not_found
unfolding first_match next_of_kind next_occurrence matches is_space ends_word words join
    parse_fields parse split partition strip lstrip push_first parse_int signed scan digit_value
    ascii_digit step_of positive ends_of dashed in_bounds part_range range parts_selected normalized
    parse_cron_field
zone_missing = refl

-- The end of the horizon would be after the year 9999.
too_late : next_occurrence endless_monday five_past 253245000000000 ≡ err out_of_range
unfolding first_match next_of_kind next_occurrence matches is_space ends_word words join
    parse_fields parse split partition strip lstrip push_first parse_int signed scan digit_value
    ascii_digit step_of positive ends_of dashed in_bounds part_range range parts_selected normalized
    parse_cron_field
too_late = refl

minute_of : (k : ℕ) → k * 60000 / 60000 ≡ k
minute_of k = omega arith

always_local :
    (k : ℕ)
    → k ≤ 4000000000
    → endless_monday.astimezone five_past.timezone (k * 60000) ≡ some (time_of_day k)
always_local k h = ap (λ (m : ℕ). some (time_of_day m)) (minute_of k)

next_occurrence-Earliest_example :
    (o : Option Occurrence) × (next_occurrence endless_monday five_past 300000 ≡ ok o)
    × Earliest five_past_expression time_of_day 300000 o
next_occurrence-Earliest_example =
    next_occurrence-Earliest endless_monday five_past five_past_expression time_of_day 300000
      4000000000 refl parses_five_past refl always_local (omega arith) (omega arith)

preview_occurrences-Preview_example :
    (os : List Occurrence) × (preview_occurrences endless_monday five_past 0 2 ≡ ok os)
    × Preview five_past_expression time_of_day 2 0 os
preview_occurrences-Preview_example =
    preview_occurrences-Preview endless_monday five_past five_past_expression time_of_day 4000000000
      refl parses_five_past refl always_local (omega arith) 0 2 (omega arith) (omega arith)
      (omega arith)
