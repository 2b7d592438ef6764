-- ===== src/Runtime/EventPump/Merge.antt =====
-- runtime/event_pump.py: `_merge_buffered` and `_buffered_size`.
use code_xd.Prelude.{
  ℕ, suc, not, Option, none, some, List, [], ◌∷◌, ◌++◌, String, str_eq, coalesce, if◌then◌else◌,
  length, Result, ok, err, ◌>>=◌, or_raise,
}
use code_xd.Python.Numerals.{ℤ, pos, negsuc, parse_int}
use code_xd.Runtime.EventPump.{
  Json, null, number, text, other, NormalizedEvent, get, replaced_kind, buffer_key, same_key,
  Builtins, ◌+ℤ◌, or_zero,
}

abbrev pub hidden_delta : String
hidden_delta = "reasoning.hidden_delta_discarded"

-- The payload of two hidden deltas.
abbrev pub hidden_payload : Json → ℤ → ℤ → String → Option Json
hidden_payload item_id chunk_count raw_size key =
    if str_eq key "item_id"
    then some item_id
    else if str_eq key "chunk_count"
    then some (number chunk_count)
    else if str_eq key "raw_size"
    then some (number raw_size)
    else none

-- `{**previous.payload, **current.payload, "text": merged}`
abbrev pub text_payload : NormalizedEvent → NormalizedEvent → List ℕ → String → Option Json
text_payload previous current merged key =
    if str_eq key "text"
    then some (text merged)
    else coalesce (current.payload key) (previous.payload key)

abbrev pub merged_size : Option ℤ → Option ℤ → Option ℤ
merged_size none none = none
merged_size m n = some (or_zero m +ℤ or_zero n)

-- `current.raw_type or previous.raw_type`
abbrev pub or_nonempty : Option String → Option String → Option String
or_nonempty none b = b
or_nonempty (some s) b = if str_eq s "" then b else some s

abbrev pub merged_event :
    NormalizedEvent → NormalizedEvent → (String → Option Json) → NormalizedEvent
merged_event previous current payload = record {
  kind = current.kind;
  payload = payload;
  provider_event_id = none;
  occurred_at = current.occurred_at;
  raw_type = or_nonempty current.raw_type previous.raw_type;
  raw_hash = none;
  raw_size = merged_size previous.raw_size current.raw_size;
  schema_version = current.schema_version;
}

-- `payload.get("text", "")`, when it is a text.
abbrev pub text_or_empty : Option Json → Option (List ℕ)
text_or_empty none = some []
text_or_empty (some (text t)) = some t
text_or_empty (some _) = none

abbrev pub merged_texts :
    NormalizedEvent → NormalizedEvent → Option (List ℕ) → Option (List ℕ) → Option NormalizedEvent
merged_texts previous current (some s) (some t) =
    some (merged_event previous current (text_payload previous current (s ++ t)))
merged_texts previous current _ _ = none

module _ (lib : Builtins) where
  -- `int(value)`
  unfoldable pub to_int : Json → Result String ℤ
  to_int null = err "TypeError"
  to_int (number z) = ok z
  to_int (text t) = or_raise (parse_int lib.decimal 10 t) "ValueError"
  to_int (other v) = or_raise (lib.int_of v) "TypeError"

  -- `int(payload.get(key, default))`
  abbrev pub int_or : ℤ → Option Json → Result String ℤ
  int_or default none = ok default
  int_or default (some v) = to_int v

  unfoldable pub merge_hidden :
      NormalizedEvent → NormalizedEvent → Result String (Option NormalizedEvent)
  merge_hidden previous current = do
    previous_size ← int_or (or_zero previous.raw_size) (previous.payload "raw_size")
    current_size ← int_or (or_zero current.raw_size) (current.payload "raw_size")
    chunk_count ← int_or (pos 1) (previous.payload "chunk_count")
    ok (
        some (
          merged_event previous current (
            hidden_payload (get current "item_id") (chunk_count +ℤ pos 1)
              (previous_size +ℤ current_size))))

  -- `_merge_buffered` of two events; `err` is the class of what `int` raises.
  unfoldable pub merge_buffered :
      NormalizedEvent → NormalizedEvent → Result String (Option NormalizedEvent)
  merge_buffered previous current =
      let hidden = merge_hidden previous current in
      if not (same_key (buffer_key previous) (buffer_key current))
      then ok none
      else if replaced_kind current.kind
      then ok (some current)
      else if str_eq current.kind hidden_delta
      then hidden
      else ok (
          merged_texts previous current (text_or_empty (previous.payload "text"))
            (text_or_empty (current.payload "text")))

  -- `raw_size or payload.get("raw_size") or 0`, then `int`.
  unfoldable pub raw_size_of : Option ℤ → Json → Result String ℤ
  raw_size_of (some (pos (suc n))) v = ok (pos (suc n))
  raw_size_of (some (negsuc n)) v = ok (negsuc n)
  raw_size_of _ null = ok (pos 0)
  raw_size_of _ (number z) = ok z
  raw_size_of _ (text []) = ok (pos 0)
  raw_size_of _ (text (c ∷ t)) = to_int (text (c ∷ t))
  raw_size_of _ (other v) = if lib.truthy v then to_int (other v) else ok (pos 0)

  -- `len(text.encode())`
  unfoldable pub encoded_size : List ℕ → Result String ℤ
  encoded_size t = do bytes ← or_raise (lib.encode t) "UnicodeEncodeError"; ok (pos (length bytes))

  abbrev pub size_without_text : Json → Option ℤ → Json → Result String ℤ
  size_without_text (text t) raw_size v = encoded_size t
  size_without_text _ raw_size v = raw_size_of raw_size v

  abbrev pub size_from : Json → Json → Option ℤ → Json → Result String ℤ
  size_from (text t) diff raw_size v = encoded_size t
  size_from _ diff raw_size v = size_without_text diff raw_size v

  unfoldable pub buffered_size : NormalizedEvent → Result String ℤ
  buffered_size event =
      size_from (get event "text") (get event "diff") event.raw_size (get event "raw_size")
