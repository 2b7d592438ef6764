-- ===== src/Storage/Turns.antt =====
-- storage/repository.py: the operations that move a Turn through its states. Each is one
-- transaction: an error leaves the database as it was, so it comes back alone. A result carries the
-- row that the operation returns. `now` is the clock's reading.
pub mod Interrupts
pub mod Terminal
pub mod Intents
pub mod Cancel
pub mod Rows
pub mod Claims
pub mod Conditions
pub mod Entitled
pub mod Endings
pub mod Trace
pub mod Once
mod Tests
use code_xd.Prelude.{
  ℕ, Bool, true, false, not, ◌&&◌, ◌||◌, Option, none, some, List, [], ◌∷◌, ◌++◌, String, ◌≡◌,
  str_eq, opt_is, is_some, if◌then◌else◌, ltb, ◌==◌, any, Result, ok, err, ◌>>=◌, ◌>>◌, guard,
  or_raise,
}
use code_xd.Domain.TurnState.{
  TurnState, queued, starting, running, cancelling, completed, interrupted, TurnSource, schedule,
  InterruptOrigin, runtime, terminal, active, is_queued, transition_allowed,
}
use code_xd.Storage.Schema.{
  Error, not_found, conflict, invariant, integrity, Turn, Conversation, Revision, Lease, Db, Entry,
  progress, local_terminal, audit, incident, find_turn, update_turn, find_conversation,
  find_revision, find_lease, conversation_active, revision_active, lease_ready, lease_live,
}

abbrev pub Outcome : Type 0
Outcome = Result Error (Db × Turn)

-- The revision exists, belongs to the Conversation and is active.
pub revision_matches : Option Revision → String → Bool
revision_matches none conversation_id = false
revision_matches (some r) conversation_id =
    str_eq r.conversation_id conversation_id && revision_active r.state

-- The Turn's revision is the active one of its Conversation, which is active.
pub targets_active : Conversation → Option Revision → Turn → String → Bool
targets_active conversation revision row revision_id =
    conversation_active conversation.state
    && opt_is conversation.active_revision_id revision_id
    && revision_matches revision row.conversation_id

-- `_runtime_lease_matches_project`
unfoldable pub lease_matches_project : Lease → String → Bool
lease_matches_project lease project_id =
    if str_eq lease.scope_kind "shared"
    then str_eq lease.scope_key "shared" && not (is_some lease.project_id)
    else str_eq lease.scope_kind "project"
      && str_eq lease.scope_key project_id
      && opt_is lease.project_id project_id

unfoldable pub lease_valid : Lease → ℕ → String → Bool
lease_valid lease generation project_id =
    lease.generation == generation
    && lease_ready lease.state
    && lease_matches_project lease project_id

-- A live lease of the same scope with a later generation.
unfoldable pub supersedes : Lease → ℕ → Lease → Bool
supersedes lease generation other =
    str_eq other.scope_kind lease.scope_kind
    && str_eq other.scope_key lease.scope_key
    && ltb generation other.generation
    && lease_live other.state

-- The index `one_active_turn_per_conversation` refuses an active row beside this one.
pub busy : String → String → List Turn → Bool
busy turn_id conversation_id turns =
    any
      (λ (u : Turn).
        not (str_eq u.id turn_id) && str_eq u.conversation_id conversation_id && active u.state)
      turns

pub attach_turn_revision : String → String → Db → Result Error Db
attach_turn_revision turn_id revision_id d = do
  row ← or_raise (find_turn turn_id d.turns) not_found
  conversation ← or_raise (find_conversation row.conversation_id d.conversations) not_found
  guard
      (is_queued row.state
        && not (is_some row.thread_revision_id)
        && targets_active conversation (find_revision revision_id d.revisions) row revision_id)
      conflict
  ok (record d {
    turns = update_turn turn_id (λ t. record t { thread_revision_id = some revision_id }) d.turns;
  })

abbrev pub claimed : String → ℕ → ℕ → Turn → Turn
claimed lease_id generation now t = record t {
  state = starting;
  runtime_lease_id = some lease_id;
  runtime_generation = some generation;
  started_at = some now;
}

pub claim_turn : String → String → ℕ → ℕ → Db → Outcome
claim_turn turn_id lease_id generation now d = do
  row ← or_raise (find_turn turn_id d.turns) not_found
  conversation ← or_raise (find_conversation row.conversation_id d.conversations) not_found
  guard (transition_allowed row.state starting) invariant
  revision_id ← or_raise row.thread_revision_id invariant
  guard (targets_active conversation (find_revision revision_id d.revisions) row revision_id)
      conflict
  lease ← or_raise (find_lease lease_id d.leases) conflict
  guard (lease_valid lease generation conversation.project_id) conflict
  guard (not (any (supersedes lease generation) d.leases)) conflict
  guard (not (busy turn_id row.conversation_id d.turns)) conflict
  ok (
    record d { turns = update_turn turn_id (claimed lease_id generation now) d.turns },
    claimed lease_id generation now row,
  )

-- The states from which a provider identity is accepted, and where they lead.
pub running_target : TurnState → Option TurnState
running_target starting = some running
running_target cancelling = some cancelling
running_target _ = none

-- `provider_turn_id TEXT UNIQUE`
pub identity_taken : String → String → List Turn → Bool
identity_taken turn_id provider_turn_id turns =
    any (λ (u : Turn). not (str_eq u.id turn_id) && opt_is u.provider_turn_id provider_turn_id)
      turns

abbrev pub identified : TurnState → String → Turn → Turn
identified target provider_turn_id t = record t {
  state = target;
  provider_turn_id = some provider_turn_id;
  queued_input_text = none;
  queued_skill_inputs = none;
}

pub mark_turn_running : String → String → Db → Outcome
mark_turn_running turn_id provider_turn_id d = do
  row ← or_raise (find_turn turn_id d.turns) not_found
  target ← or_raise (running_target row.state) conflict
  guard (not (is_some row.provider_turn_id) || opt_is row.provider_turn_id provider_turn_id)
      conflict
  guard (not (identity_taken turn_id provider_turn_id d.turns)) integrity
  ok (
    record d { turns = update_turn turn_id (identified target provider_turn_id) d.turns },
    identified target provider_turn_id row,
  )
