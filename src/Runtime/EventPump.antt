-- ===== src/Runtime/EventPump.antt =====
-- runtime/event_pump.py: the pump that takes the events of a Turn's stream, merges the small ones and
-- hands them to the sink. A text is the list of its code points, a payload a function of its keys.
mod Tests
pub mod Merge
pub mod Loop
pub mod Keys
pub mod Texts
pub mod Held
pub mod Delivery
pub mod Waiting
use code_xd.Prelude.{
  ℕ, ◌+◌, ◌-◌, ◌≡◌, Bool, true, false, not, ◌&&◌, ◌||◌, Option, none, some, List, [], ◌∷◌, ◌++◌,
  String, str_eq, is_some, coalesce, if◌then◌else◌, leb, ltb, ◌==◌, length,
}
use code_xd.Python.Separators.{same}
use code_xd.Python.Numerals.{ℤ, pos, negsuc, parse_int}

-- A value of a payload; `other` stands for lists, objects and further values, up to equality.
pub data Json : Type 0 where
  null : Json
  number : ℤ → Json
  text : List ℕ → Json
  other : ℕ → Json

pub record NormalizedEvent : Type 0 where
  pub kind : String
  pub payload : String → Option Json
  pub provider_event_id : Option String
  pub occurred_at : ℕ
  pub raw_type : Option String
  pub raw_hash : Option String
  pub raw_size : Option ℤ
  pub schema_version : ℕ

-- `payload.get(key)`
abbrev pub or_null : Option Json → Json
or_null none = null
or_null (some v) = v

abbrev pub get : NormalizedEvent → String → Json
get event key = or_null (event.payload key)

-- `_REPLACE_BUFFERED_KINDS`
unfoldable pub replaced_kind : String → Bool
replaced_kind kind =
    str_eq kind "diff.updated" || str_eq kind "plan.updated" || str_eq kind "usage.updated"

-- `_BUFFERED_EVENT_KINDS`
unfoldable pub buffered_kind : String → Bool
buffered_kind kind =
    str_eq kind "assistant.text.delta"
    || str_eq kind "plan.delta"
    || str_eq kind "reasoning.summary"
    || str_eq kind "reasoning.hidden_delta_discarded"
    || str_eq kind "command.output.delta"
    || str_eq kind "file_change.output.delta"
    || replaced_kind kind

pub data BufferKey : Type 0 where
  of_kind : String → BufferKey
  of_item : String → List ℕ → BufferKey
  of_summary : String → List ℕ → Json → BufferKey

abbrev pub item_key : String → Json → Json → Option BufferKey
item_key kind (text item_id) index =
    if str_eq kind "reasoning.summary"
    then some (of_summary kind item_id index)
    else some (of_item kind item_id)
item_key kind _ index = none

unfoldable pub buffer_key : NormalizedEvent → Option BufferKey
buffer_key event =
    if not (buffered_kind event.kind) || is_some event.provider_event_id
    then none
    else if replaced_kind event.kind
    then some (of_kind event.kind)
    else item_key event.kind (get event "item_id") (get event "summary_index")

abbrev pub same_number : ℤ → ℤ → Bool
same_number (pos m) (pos n) = m == n
same_number (negsuc m) (negsuc n) = m == n
same_number _ _ = false

abbrev pub same_json : Json → Json → Bool
same_json null null = true
same_json (number m) (number n) = same_number m n
same_json (text s) (text t) = same s t
same_json (other m) (other n) = m == n
same_json _ _ = false

abbrev pub same_key : Option BufferKey → Option BufferKey → Bool
same_key none none = true
same_key (some (of_kind k)) (some (of_kind l)) = str_eq k l
same_key (some (of_item k i)) (some (of_item l j)) = str_eq k l && same i j
same_key (some (of_summary k i m)) (some (of_summary l j n)) =
    str_eq k l && same i j && same_json m n
same_key _ _ = false

-- What `int`, `str.encode` and `unicodedata.decimal` compute, where `encode` is none for a text with a
-- lone surrogate; `int_of` and `truthy` read a value that is neither a number nor a text.
pub record Builtins : Type 0 where
  pub decimal : ℕ → Option ℕ
  pub encode : List ℕ → Option (List ℕ)
  pub int_of : ℕ → Option ℤ
  pub truthy : ℕ → Bool

infixl 60 ◌+ℤ◌
abbrev pub ◌+ℤ◌ : ℤ → ℤ → ℤ
pos m +ℤ pos n = pos (m + n)
pos m +ℤ negsuc n = if ltb n m then pos (m - (n + 1)) else negsuc (n - m)
negsuc m +ℤ pos n = if ltb m n then pos (n - (m + 1)) else negsuc (m - n)
negsuc m +ℤ negsuc n = negsuc (m + n + 1)

-- `size or 0`
abbrev pub or_zero : Option ℤ → ℤ
or_zero none = pos 0
or_zero (some z) = z
