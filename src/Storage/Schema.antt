-- ===== src/Storage/Schema.antt =====
-- The tables of storage/migrations that the Turn operations of storage/repository.py read and
-- write. A table is the list of its rows. What the operations hand to the audit log and to the
-- projections for Discord is a journal of the calls, in order.
mod Table
mod Rewritten
unfoldable pub use Table.*
pub use Rewritten.*
use code_xd.Prelude.{
  ℕ, Bool, true, false, ◌&&◌, Option, none, some, List, String, ◌≡◌, str_eq, opt_is,
}
use code_xd.Domain.TurnState.{TurnState, TurnSource, InterruptOrigin}

-- errors.py, `sqlite3.IntegrityError` and `AssertionError`
pub data Error : Type 0 where
  not_found conflict invariant integrity assertion value_error : Error

pub record Turn : Type 0 where
  pub id : String
  pub conversation_id : String
  pub thread_revision_id : Option String
  pub runtime_lease_id : Option String
  pub runtime_generation : Option ℕ
  pub provider_turn_id : Option String
  pub source_kind : TurnSource
  pub state : TurnState
  pub interrupt_origin : Option InterruptOrigin
  pub interrupt_reason : Option String
  pub queued_input_text : Option String
  pub queued_skill_inputs : Option String
  pub started_at : Option ℕ
  pub ended_at : Option ℕ
  pub terminal_code : Option String
  pub error_code : Option String
  pub error_message : Option String

pub data ConversationState : Type 0 where
  uninitialized active archived blocked deleted : ConversationState

pub record Conversation : Type 0 where
  pub id : String
  pub project_id : String
  pub state : ConversationState
  pub active_revision_id : Option String

pub data RevisionState : Type 0 where
  active archived superseded blocked : RevisionState

pub record Revision : Type 0 where
  pub id : String
  pub conversation_id : String
  pub state : RevisionState

pub data LeaseState : Type 0 where
  starting ready unhealthy stopping stopped failed : LeaseState

pub record Lease : Type 0 where
  pub id : String
  pub scope_kind : String
  pub scope_key : String
  pub project_id : Option String
  pub generation : ℕ
  pub state : LeaseState
  pub sdk_version : Option String
  pub runtime_version : Option String
  pub capability_hash : Option String
  pub environment_hash : String
  pub failure_code : Option String
  pub started_at : ℕ
  pub heartbeat_at : ℕ
  pub ended_at : Option ℕ

pub data IntentState : Type 0 where
  accepted effect_in_flight reconciling succeeded rejected failed unknown : IntentState

-- `result_json` is the pair of the result's code and message.
pub record Intent : Type 0 where
  pub interaction_id : String
  pub project_id : String
  pub conversation_id : Option String
  pub turn_id : Option String
  pub state : IntentState
  pub effect_kind : Option String
  pub effect_correlation_id : Option String
  pub result : Option (String × String)
  pub completed_at : Option ℕ

-- A call of `insert_progress_update`, `_project_local_terminal`, `_insert_audit`, the insertion
-- of an incident, or an incident of a runtime's close.
pub data Entry : Type 0 where
  progress : (turn_id kind content : String) → Entry
  local_terminal :
      (turn_id : String) (target : TurnState) (code : String) (progress_projected : Bool) → Entry
  audit : (turn_id : Option String) (action : String) → Entry
  incident : (turn_id reason : String) → Entry
  close_incident :
      (project_id : Option String) (lease_id : String) (generation : ℕ) (failure_code : String)
      → Entry

pub record Db : Type 0 where
  pub turns : List Turn
  pub conversations : List Conversation
  pub revisions : List Revision
  pub leases : List Lease
  pub intents : List Intent
  pub journal : List Entry

abbrev pub turn_key : Turn → String
turn_key t = t.id

abbrev pub find_turn : String → List Turn → Option Turn
find_turn = find turn_key

abbrev pub update_turn : String → (Turn → Turn) → List Turn → List Turn
update_turn = update turn_key

abbrev pub find_conversation : String → List Conversation → Option Conversation
find_conversation = find (λ c. c.id)

abbrev pub find_revision : String → List Revision → Option Revision
find_revision = find (λ r. r.id)

abbrev pub find_lease : String → List Lease → Option Lease
find_lease = find (λ l. l.id)

abbrev pub find_intent : String → List Intent → Option Intent
find_intent = find (λ i. i.interaction_id)

abbrev pub conversation_active : ConversationState → Bool
conversation_active active = true
conversation_active _ = false

abbrev pub revision_active : RevisionState → Bool
revision_active active = true
revision_active _ = false

abbrev pub lease_ready : LeaseState → Bool
lease_ready ready = true
lease_ready _ = false

-- `state IN ('starting', 'ready', 'unhealthy')`
abbrev pub lease_live : LeaseState → Bool
lease_live starting = true
lease_live ready = true
lease_live unhealthy = true
lease_live _ = false
