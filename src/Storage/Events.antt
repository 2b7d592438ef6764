-- ===== src/Storage/Events.antt =====
-- storage/repository.py: `append_event`, the journal of the events of Turns. `durable` is the text
-- that stands for a payload: `canonical_json` of the hash and the size of its own canonical JSON.
mod Tests
pub mod Changes
pub mod Numbering
pub mod Fencing
use code_xd.Prelude.{
  ℕ, suc, ◌+◌, max, Bool, true, false, not, ◌&&◌, ◌||◌, Option, none, some, List, [], ◌∷◌, ◌++◌,
  String, str_eq, opt_is, is_some, if◌then◌else◌, ◌==◌, any, Result, ok, err, ◌>>=◌, ◌>>◌, guard,
  or_raise, option_map,
}
use code_xd.Python.Numerals.{ℤ}
use code_xd.Domain.TurnState.{TurnState, terminal}
use code_xd.Storage.Schema.{
  Error, not_found, conflict, integrity, Turn, Conversation, Lease, Db, find_turn,
  find_conversation, find_lease,
}
use code_xd.Storage.Turns.{lease_valid}
use code_xd.Storage.Leases.{is_number}
use code_xd.Runtime.EventPump.{Json, NormalizedEvent}

pub record EventRow : Type 0 where
  pub sequence : ℕ
  pub event_id : String
  pub turn_id : Option String
  pub project_id : String
  pub conversation_id : String
  pub runtime_generation : Option ℕ
  pub provider_event_id : Option String
  pub local_event_index : Option ℕ
  pub kind : String
  pub schema_version : ℕ
  pub payload_json : String
  pub raw_type : Option String
  pub raw_hash : Option String
  pub raw_size : Option ℤ
  pub occurred_at : ℕ
  pub recorded_at : ℕ

-- The table of events with the counter of its AUTOINCREMENT, and the ids of the projects.
pub record Journal : Type 0 where
  pub events : List EventRow
  pub last_sequence : ℕ
  pub projects : List String

-- `if turn_id`
abbrev pub nonempty : Option String → Option String
nonempty none = none
nonempty (some s) = if str_eq s "" then none else some s

abbrev pub index_or_zero : Option ℕ → ℕ
index_or_zero none = 0
index_or_zero (some n) = n

-- `COALESCE(MAX(local_event_index), 0)` over the events of the Turn
unfoldable pub last_index : String → List EventRow → ℕ
last_index turn_id [] = 0
last_index turn_id (r ∷ events) =
    max (if opt_is r.turn_id turn_id then index_or_zero r.local_event_index else 0)
      (last_index turn_id events)

-- The event of the Turn with the provider's id.
abbrev pub has_ids : String → String → EventRow → Bool
has_ids turn_id provider_event_id r =
    opt_is r.turn_id turn_id && opt_is r.provider_event_id provider_event_id

unfoldable pub sequence_of : String → String → List EventRow → Option ℕ
sequence_of turn_id provider_event_id [] = none
sequence_of turn_id provider_event_id (r ∷ events) =
    if has_ids turn_id provider_event_id r
    then some r.sequence
    else sequence_of turn_id provider_event_id events

abbrev pub same_generation : Option ℕ → Option ℕ → Bool
same_generation none none = true
same_generation (some m) (some n) = m == n
same_generation _ _ = false

abbrev pub valid_under : Option ℕ → Lease → String → Bool
valid_under none lease project_id = false
valid_under (some generation) lease project_id = lease_valid lease generation project_id

-- The checks on an event's Turn, and the index of the event among the Turn's.
unfoldable pub check_turn :
    Option String → String → String → Option ℕ → Db → List EventRow → Result Error (Option ℕ)
check_turn none project_id conversation_id generation d events = ok none
check_turn (some turn_id) project_id conversation_id generation d events = do
  turn ← or_raise (find_turn turn_id d.turns) not_found
  conversation ← or_raise (find_conversation turn.conversation_id d.conversations) not_found
  guard (str_eq conversation.project_id project_id && str_eq conversation.id conversation_id)
      conflict
  guard (not (terminal turn.state)) conflict
  lease_id ← or_raise turn.runtime_lease_id conflict
  guard (same_generation turn.runtime_generation generation) conflict
  lease ← or_raise (find_lease lease_id d.leases) conflict
  guard (valid_under generation lease conversation.project_id) conflict
  ok (some (last_index turn_id events + 1))

-- The event's ids are already in the table.
abbrev pub ids_taken : Option String → Option String → List EventRow → Bool
ids_taken (some turn_id) (some provider_event_id) events =
    any (has_ids turn_id provider_event_id) events
ids_taken _ _ events = false

-- A foreign key.
abbrev pub turn_known : Option String → Db → Bool
turn_known none d = true
turn_known (some turn_id) d = is_some (find_turn turn_id d.turns)

-- The constraints of the table that a new row can break.
unfoldable pub insertable :
    String → Option String → String → String → Option String → Db → Journal → Bool
insertable event_id turn_id project_id conversation_id provider_event_id d j =
    not (any (λ (r : EventRow). str_eq r.event_id event_id) j.events)
    && not (ids_taken turn_id provider_event_id j.events)
    && turn_known turn_id d
    && any (λ p. str_eq p project_id) j.projects
    && is_some (find_conversation conversation_id d.conversations)

-- `except sqlite3.IntegrityError`: the event was recorded before.
abbrev pub recorded_before : Option String → Option String → List EventRow → Option ℕ
recorded_before (some turn_id) (some provider_event_id) events =
    sequence_of turn_id provider_event_id events
recorded_before _ _ events = none

module _ (durable : (String → Option Json) → String) where
  abbrev pub new_row :
      String
      → Option String
      → String
      → String
      → Option ℕ
      → NormalizedEvent
      → Option ℕ
      → ℕ
      → ℕ
      → EventRow
  new_row event_id turn_id project_id conversation_id generation event index sequence now = record {
    sequence = sequence;
    event_id = event_id;
    turn_id = turn_id;
    project_id = project_id;
    conversation_id = conversation_id;
    runtime_generation = generation;
    provider_event_id = event.provider_event_id;
    local_event_index = index;
    kind = event.kind;
    schema_version = event.schema_version;
    payload_json = durable event.payload;
    raw_type = event.raw_type;
    raw_hash = event.raw_hash;
    raw_size = event.raw_size;
    occurred_at = event.occurred_at;
    recorded_at = now;
  }

  abbrev pub add_row : EventRow → Journal → Journal
  add_row row j = record j { events = j.events ++ row ∷ []; last_sequence = row.sequence }

  -- `event_id` is what `new_id` returns.
  unfoldable pub append_event :
      String
      → Option String
      → String
      → String
      → Option ℕ
      → NormalizedEvent
      → ℕ
      → Db
      → Journal
      → Result Error (Journal × ℕ)
  append_event event_id turn_id project_id conversation_id generation event now d j = do
    index ← check_turn (nonempty turn_id) project_id conversation_id generation d j.events
    let row =
        new_row event_id turn_id project_id conversation_id generation event index
          (j.last_sequence + 1) now
    if insertable event_id turn_id project_id conversation_id event.provider_event_id d j
        then ok (add_row row j, j.last_sequence + 1)
        else do
          sequence ←
              or_raise
                (recorded_before (nonempty turn_id) (nonempty event.provider_event_id) j.events)
                integrity
          ok (j, sequence)
