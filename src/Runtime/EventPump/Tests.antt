-- ===== src/Runtime/EventPump/Tests.antt =====
-- A stream of three deltas, and the witnesses.
use code_xd.Prelude.{
  ◌≡◌, refl, true, none, some, List, [], ◌∷◌, codes, String, str_eq, if◌then◌else◌,
}
use code_xd.Runtime.EventPump.{
  text, NormalizedEvent, Builtins, BufferKey, of_item, buffered_kind, replaced_kind, buffer_key,
}
use code_xd.Runtime.EventPump.Merge.{merge_buffered, buffered_size, encoded_size}
use code_xd.Runtime.EventPump.Loop.{
  Entry, Answer, recorded, Happening, arrives, times_out, ends, Stage, new_pump, and_then, persist,
  flush, too_large, keep, round, rounds,
}
use code_xd.Runtime.EventPump.Texts.{text_under}
use code_xd.Runtime.EventPump.Held.{journal_text, events_of, Delivered}
use code_xd.Runtime.EventPump.Delivery.{rounds-Delivered}
use code_xd.Runtime.EventPump.Waiting.{Goes, Ready, rounds-Ready}

abbrev toy : Builtins
toy = record { decimal = λ c. none; encode = λ s. some s; int_of = λ v. none; truthy = λ v. true }

-- Every event is recorded, and none is terminal.
abbrev patient : List Entry → Entry → Answer
patient es e = recorded none (some 1)

abbrev delta : String → NormalizedEvent
delta t = record {
  kind = "assistant.text.delta";
  payload = λ key.
      if str_eq key "item_id"
      then some (text (codes "m"))
      else if str_eq key "text"
      then some (text (codes t))
      else none;
  provider_event_id = none;
  occurred_at = 1;
  raw_type = none;
  raw_hash = none;
  raw_size = none;
  schema_version = 1;
}

abbrev key_m : BufferKey
key_m = of_item "assistant.text.delta" (codes "m")

abbrev three_deltas : List Happening
three_deltas =
    arrives 10 (delta "ab")
    ∷ arrives 20 (delta "c")
    ∷ times_out
    ∷ arrives 900 (delta "d")
    ∷ ends
    ∷ []

rounds-Delivered_example :
    Delivered key_m
      (rounds toy patient 500 three_deltas (new_pump []))
      (text_under key_m (events_of three_deltas))
unfolding replaced_kind
rounds-Delivered_example = rounds-Delivered toy patient 500 key_m refl three_deltas

abbrev journal_of : Stage → List Entry
journal_of st = st.0.journal

-- The first two deltas are handed over as one event, at the time to flush.
hands_over_all :
    journal_text key_m (journal_of (rounds toy patient 500 three_deltas (new_pump [])))
    ≡ codes "abcd"
unfolding rounds round and_then persist flush too_large keep merge_buffered buffered_size
    encoded_size buffer_key buffered_kind replaced_kind
hands_over_all = refl

rounds-Ready_example :
    Goes
      (Ready toy patient 500)
      (rounds toy patient 500 (arrives 10 (delta "ab") ∷ arrives 20 (delta "c") ∷ []) (new_pump []))
rounds-Ready_example =
    rounds-Ready toy patient 500 (arrives 10 (delta "ab") ∷ arrives 20 (delta "c") ∷ [])
