-- ===== src/Storage/Events/Tests.antt =====
-- Two events of a running Turn, one of which comes twice, and the witnesses.
use code_xd.Prelude.{ℕ, ◌≡◌, refl, false, none, some, [], ◌∷◌, ok, arith, is_ok, String, Option}
use code_xd.Domain.TurnState.{running}
use code_xd.Storage.Schema.{Turn, Conversation, Lease, LeaseState, ConversationState, Db, find}
use code_xd.Storage.Turns.{lease_valid, lease_matches_project}
use code_xd.Storage.Leases.Rows.{here as no_step}
use code_xd.Runtime.EventPump.{Json, NormalizedEvent}
use code_xd.Storage.Events.{
  EventRow, Journal, last_index, sequence_of, check_turn, insertable, append_event,
}
use code_xd.Storage.Events.Numbering.{Numbered, Reach-Numbered, here, next, appends}
use code_xd.Storage.Events.Fencing.{append_event-Retired}

abbrev lease_of : LeaseState → Lease
lease_of state = record {
  id = "l";
  scope_kind = "shared";
  scope_key = "shared";
  project_id = none;
  generation = 3;
  state = state;
  sdk_version = none;
  runtime_version = none;
  capability_hash = none;
  environment_hash = "e";
  failure_code = none;
  started_at = 1;
  heartbeat_at = 1;
  ended_at = none;
}

abbrev turn_t : Turn
turn_t = record {
  id = "t";
  conversation_id = "c";
  thread_revision_id = some "r";
  runtime_lease_id = some "l";
  runtime_generation = some 3;
  provider_turn_id = some "pt";
  source_kind = code_xd.Domain.TurnState.TurnSource.discord;
  state = running;
  interrupt_origin = none;
  interrupt_reason = none;
  queued_input_text = none;
  queued_skill_inputs = none;
  started_at = some 12;
  ended_at = none;
  terminal_code = none;
  error_code = none;
  error_message = none;
}

abbrev conversation_c : Conversation
conversation_c = record {
  id = "c";
  project_id = "p";
  state = ConversationState.active;
  active_revision_id = some "r";
}

abbrev db_of : LeaseState → Db
db_of state = record {
  turns = turn_t ∷ [];
  conversations = conversation_c ∷ [];
  revisions = [];
  leases = lease_of state ∷ [];
  intents = [];
  journal = [];
}

abbrev event_of : String → NormalizedEvent
event_of provider_event_id = record {
  kind = "item.started";
  payload = λ key. none;
  provider_event_id = some provider_event_id;
  occurred_at = 5;
  raw_type = none;
  raw_hash = none;
  raw_size = none;
  schema_version = 1;
}

abbrev hashed : (String → Option Json) → String
hashed payload = "{}"

abbrev row_of : ℕ → String → String → EventRow
row_of n event_id provider_event_id = record {
  sequence = n;
  event_id = event_id;
  turn_id = some "t";
  project_id = "p";
  conversation_id = "c";
  runtime_generation = some 3;
  provider_event_id = some provider_event_id;
  local_event_index = some n;
  kind = "item.started";
  schema_version = 1;
  payload_json = "{}";
  raw_type = none;
  raw_hash = none;
  raw_size = none;
  occurred_at = 5;
  recorded_at = 9;
}

abbrev empty_journal : Journal
empty_journal = record { events = []; last_sequence = 0; projects = "p" ∷ [] }

abbrev one_event : Journal
one_event = record { events = row_of 1 "e1" "a" ∷ []; last_sequence = 1; projects = "p" ∷ [] }

abbrev two_events : Journal
two_events = record {
  events = row_of 1 "e1" "a" ∷ row_of 2 "e2" "b" ∷ [];
  last_sequence = 2;
  projects = "p" ∷ [];
}

appends_first :
    append_event hashed "e1"
      (some "t")
      "p"
      "c"
      (some 3)
      (event_of "a")
      9
      (db_of LeaseState.ready)
      empty_journal
    ≡ ok (one_event, 1)
unfolding append_event check_turn insertable last_index sequence_of find lease_valid
    lease_matches_project
appends_first = refl

appends_second :
    append_event hashed "e2"
      (some "t")
      "p"
      "c"
      (some 3)
      (event_of "b")
      9
      (db_of LeaseState.ready)
      one_event
    ≡ ok (two_events, 2)
unfolding append_event check_turn insertable last_index sequence_of find lease_valid
    lease_matches_project
appends_second = refl

-- The first event again: nothing changes, and its sequence is returned.
appends_again :
    append_event hashed "e3"
      (some "t")
      "p"
      "c"
      (some 3)
      (event_of "a")
      9
      (db_of LeaseState.ready)
      two_events
    ≡ ok (two_events, 1)
unfolding append_event check_turn insertable last_index sequence_of find lease_valid
    lease_matches_project
appends_again = refl

empty-Numbered : Numbered empty_journal
empty-Numbered = record {
  sequences = refl;
  indices = λ t n. refl;
  recorded_once = λ t p. omega arith;
}

Reach-Numbered_example : Numbered two_events
Reach-Numbered_example =
    Reach-Numbered hashed
      (next
        (next here (
          appends "e1" (some "t") "p" "c" (some 3) (event_of "a") 9 (db_of LeaseState.ready) 1
            appends_first))
        (appends "e2" (some "t") "p" "c" (some 3) (event_of "b") 9 (db_of LeaseState.ready) 2
          appends_second))
      empty-Numbered

append_event-Retired_example :
    is_ok (
      append_event hashed "e3"
        (some "t")
        "p"
        "c"
        (some 3)
        (event_of "b")
        9
        (db_of LeaseState.stopped)
        one_event)
    ≡ false
unfolding find
append_event-Retired_example =
    append_event-Retired hashed no_step "e3" "t" "l" "p" "c" (some 3) (event_of "b") 9 one_event
      turn_t refl (lease_of LeaseState.stopped, refl, refl) refl refl
