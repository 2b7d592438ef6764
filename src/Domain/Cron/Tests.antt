-- ===== src/Domain/Cron/Tests.antt =====
-- Expressions that parse, and the witnesses.
use code_xd.Prelude.{ℕ, ◌≡◌, refl, true, false, Option, none, [], ◌∷◌, codes, ok, err}
use code_xd.Rendering.Split.{is_space}
use code_xd.Python.Separators.{split, partition, strip, lstrip, push_first, join}
use code_xd.Python.Numerals.{parse_int, signed, scan, digit_value, ascii_digit}
use code_xd.Domain.Cron.{
  configuration_error, elem, Field, CronExpression, LocalTime, ends_word, words, step_of, positive,
  ends_of, dashed, in_bounds, part_range, range, parts_selected, normalized, parse_cron_field,
  parse_fields, parse, matches,
}
use code_xd.Domain.Cron.Members.{member, parse_cron_field-member}
use code_xd.Domain.Cron.Fields.{InBounds, parse-InBounds}
use code_xd.Domain.Cron.Canonical.{parse-canonical}

abbrev ascii_only : ℕ → Option ℕ
ascii_only c = none

abbrev late_week : Field
late_week = record { selected = 0 ∷ 5 ∷ []; canonical = codes "5-7/2"; wildcard = false }

parses_late_week : parse_cron_field ascii_only (codes "5-7/2") 0 7 true ≡ ok late_week
unfolding split partition strip lstrip push_first parse_int signed scan digit_value ascii_digit
    step_of positive ends_of dashed in_bounds part_range range parts_selected normalized
    parse_cron_field
parses_late_week = refl

parse_cron_field-member_example :
    elem 0 late_week.selected ≡ member ascii_only 0 7 true (codes "5-7/2") 0
parse_cron_field-member_example =
    parse_cron_field-member ascii_only (codes "5-7/2") 0 7 true late_week parses_late_week 0

abbrev new_year : CronExpression
new_year = record {
  minute = 0 ∷ 30 ∷ [];
  hour = 9 ∷ [];
  day = 1 ∷ [];
  month = 1 ∷ [];
  weekday = 0 ∷ [];
  day_wildcard = false;
  weekday_wildcard = false;
  canonical = codes "0,30 9 1 1 7";
}

parses_new_year : parse ascii_only (codes " 0,30 9  1 1 7") ≡ ok new_year
unfolding is_space ends_word words join parse_fields parse split partition strip lstrip push_first
    parse_int signed scan digit_value ascii_digit step_of positive ends_of dashed in_bounds
    part_range range parts_selected normalized parse_cron_field
parses_new_year = refl

parse-InBounds_example : InBounds ascii_only new_year
parse-InBounds_example = parse-InBounds ascii_only (codes " 0,30 9  1 1 7") new_year parses_new_year

parse-canonical_example : parse ascii_only (codes "0,30 9 1 1 7") ≡ ok new_year
parse-canonical_example =
    parse-canonical ascii_only (codes " 0,30 9  1 1 7") new_year parses_new_year

-- A field out of range, a step of 0, and four fields.
hour_24 : parse_cron_field ascii_only (codes "24") 0 23 false ≡ err configuration_error
unfolding split partition strip lstrip push_first parse_int signed scan digit_value ascii_digit
    step_of positive ends_of dashed in_bounds part_range range parts_selected normalized
    parse_cron_field
hour_24 = refl

step_0 : parse_cron_field ascii_only (codes "*/0") 0 59 false ≡ err configuration_error
unfolding split partition strip lstrip push_first parse_int signed scan digit_value ascii_digit
    step_of positive ends_of dashed in_bounds part_range range parts_selected normalized
    parse_cron_field
step_0 = refl

four_fields : parse ascii_only (codes "* * * *") ≡ err configuration_error
unfolding is_space ends_word words join parse_fields parse split partition strip lstrip push_first
    parse_int signed scan digit_value ascii_digit step_of positive ends_of dashed in_bounds
    part_range range parts_selected normalized parse_cron_field
four_fields = refl

-- A day or a weekday is enough when both are given.
abbrev sunday_morning : LocalTime
sunday_morning = record { minute = 30; hour = 9; day = 5; month = 1; weekday = 6 }

matches_sunday : matches new_year sunday_morning ≡ true
unfolding matches
matches_sunday = refl
