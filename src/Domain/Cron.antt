-- ===== src/Domain/Cron.antt =====
-- domain/schedules.py: cron expressions. A text is the list of its code points, a set of numbers the
-- list of its members. `decimal` is `unicodedata.decimal`, which `int` uses.
pub mod Members
pub mod Fields
pub mod Canonical
mod Tests
use code_xd.Prelude.{
  ℕ, zero, suc, ◌+◌, ◌-◌, ◌%◌, Bool, true, false, not, ◌&&◌, ◌||◌, Option, none, some, List, [],
  ◌∷◌, ◌++◌, codes, any, if◌then◌else◌, ltb, leb, ◌==◌, Result, ok, err, ◌>>=◌, ◌>>◌, guard,
  or_raise,
}
use code_xd.Rendering.Split.{is_space}
use code_xd.Python.Separators.{same, has, split, join, partition, push_first}
use code_xd.Python.Numerals.{ℤ, pos, negsuc, parse_int}

pub data ConfigurationError : Type 0 where
  configuration_error : ConfigurationError

-- No character, or a space.
unfoldable pub ends_word : List ℕ → Bool
ends_word [] = true
ends_word (c ∷ s) = is_space c

-- `value.split()`
unfoldable pub words : List ℕ → List (List ℕ)
unfolding push_first
words [] = []
words (c ∷ s) =
    let rest = words s in
    if is_space c then rest else if ends_word s then (c ∷ []) ∷ rest else push_first c rest

-- `range(start, end + 1, step)`, in so many rounds: as the step is positive, one round for each
-- number from `start` to `end` is enough.
unfoldable pub range : ℕ → ℕ → ℕ → ℕ → List ℕ
range zero start end step = []
range (suc rounds) start end step =
    let rest = range rounds (start + step) end step in if leb start end then start ∷ rest else []

abbrev pub elem : ℕ → List ℕ → Bool
elem v selected = any (λ w. w == v) selected

-- The numbers of a range of which neither end is out of range.
unfoldable pub in_bounds : ℕ → ℕ → ℤ → ℤ → Option (ℕ × ℕ)
in_bounds minimum maximum (pos start) (pos end) =
    if ltb start minimum || ltb maximum end || ltb end start then none else some (start, end)
in_bounds minimum maximum _ _ = none

-- A positive step.
unfoldable pub positive : ℤ → Option ℕ
positive (pos zero) = none
positive (pos (suc n)) = some (suc n)
positive (negsuc n) = none

abbrev pub remove : ℕ → List ℕ → List ℕ
remove v [] = []
remove v (w ∷ selected) = let rest = remove v selected in if w == v then rest else w ∷ rest

-- `if normalize_weekday and 7 in selected: selected.remove(7); selected.add(0)`
unfoldable pub normalized : Bool → List ℕ → List ℕ
normalized normalize_weekday selected =
    if normalize_weekday && elem 7 selected then 0 ∷ remove 7 selected else selected

pub record Field : Type 0 where
  pub selected : List ℕ
  pub canonical : List ℕ
  pub wildcard : Bool

pub record CronExpression : Type 0 where
  pub minute : List ℕ
  pub hour : List ℕ
  pub day : List ℕ
  pub month : List ℕ
  pub weekday : List ℕ
  pub day_wildcard : Bool
  pub weekday_wildcard : Bool
  pub canonical : List ℕ

-- What `matches` reads of a local time; Monday is 0.
pub record LocalTime : Type 0 where
  pub minute : ℕ
  pub hour : ℕ
  pub day : ℕ
  pub month : ℕ
  pub weekday : ℕ

module _ (decimal : ℕ → Option ℕ) where
  -- The step of a part: what follows the slash, or 1.
  unfoldable pub step_of : Option (List ℕ) → Result ConfigurationError ℕ
  step_of none = ok 1
  step_of (some step_raw) = do
    step ← or_raise (parse_int decimal 10 step_raw) configuration_error
    or_raise (positive step) configuration_error

  -- The ends of a range that is a number or `start-end`, from `base.partition("-")`.
  unfoldable pub dashed : List ℕ × Option (List ℕ) → Result ConfigurationError (ℤ × ℤ)
  dashed (whole, none) = do
    number ← or_raise (parse_int decimal 10 whole) configuration_error
    ok (number, number)
  dashed (start_raw, some end_raw) = do
    start ← or_raise (parse_int decimal 10 start_raw) configuration_error
    end ← or_raise (parse_int decimal 10 end_raw) configuration_error
    ok (start, end)

  unfoldable pub ends_of : ℕ → ℕ → List ℕ → Result ConfigurationError (ℤ × ℤ)
  ends_of minimum maximum base =
      if same base (codes "*") then ok (pos minimum, pos maximum) else dashed (partition b'-' base)

  -- The start, the end and the step of one part of a field.
  unfoldable pub part_range : ℕ → ℕ → List ℕ → Result ConfigurationError (ℕ × ℕ × ℕ)
  part_range minimum maximum part = do
    let (base, step_raw) = partition b'/' part
    step ← step_of step_raw
    ends ← ends_of minimum maximum base
    bounds ← or_raise (in_bounds minimum maximum ends.0 ends.1) configuration_error
    ok (bounds.0, bounds.1, step)

  -- `for part in value.split(",")`
  unfoldable pub parts_selected : ℕ → ℕ → List (List ℕ) → Result ConfigurationError (List ℕ)
  parts_selected minimum maximum [] = ok []
  parts_selected minimum maximum (part ∷ parts) = do
    r ← part_range minimum maximum part
    selected ← parts_selected minimum maximum parts
    ok (range (suc r.1 - r.0) r.0 r.1 r.2 ++ selected)

  unfoldable pub parse_cron_field : List ℕ → ℕ → ℕ → Bool → Result ConfigurationError Field
  parse_cron_field value minimum maximum normalize_weekday = do
    selected ← parts_selected minimum maximum (split b',' value)
    ok (record {
      selected = normalized normalize_weekday selected;
      canonical = value;
      wildcard = same value (codes "*");
    })

  -- `CronExpression.parse` on the five fields.
  unfoldable pub parse_fields : List (List ℕ) → Result ConfigurationError CronExpression
  parse_fields (a ∷ b ∷ c ∷ d ∷ e ∷ []) = do
    minute ← parse_cron_field a 0 59 false
    hour ← parse_cron_field b 0 23 false
    day ← parse_cron_field c 1 31 false
    month ← parse_cron_field d 1 12 false
    weekday ← parse_cron_field e 0 7 true
    ok (record {
      minute = minute.selected;
      hour = hour.selected;
      day = day.selected;
      month = month.selected;
      weekday = weekday.selected;
      day_wildcard = day.wildcard;
      weekday_wildcard = weekday.wildcard;
      canonical = join b' ' (
          minute.canonical ∷ hour.canonical ∷ day.canonical ∷ month.canonical ∷ weekday.canonical
          ∷ []);
    })
  parse_fields _ = err configuration_error

  unfoldable pub parse : List ℕ → Result ConfigurationError CronExpression
  parse value = parse_fields (words value)

unfoldable pub matches : CronExpression → LocalTime → Bool
matches cron value =
    let day_match = elem value.day cron.day in
    let weekday_match = elem ((value.weekday + 1) % 7) cron.weekday in
    if not (elem value.minute cron.minute) || not (elem value.hour cron.hour)
    then false
    else if not (elem value.month cron.month)
    then false
    else if cron.day_wildcard && cron.weekday_wildcard
    then true
    else if cron.day_wildcard
    then weekday_match
    else if cron.weekday_wildcard
    then day_match
    else day_match || weekday_match
