-- ===== src/Storage/Turns/Intents.antt =====
-- storage/repository.py: `_complete_intent_in_transaction`, and the part of `request_cancel` that
-- ties the cancel command to its Turn.
use Prim.Native.String.{◌++◌ as str_append}
use code_xd.Prelude.{
  ℕ, Bool, true, false, not, ◌&&◌, ◌||◌, Option, none, some, [], ◌∷◌, ◌++◌, String, str_eq, opt_is,
  is_some, coalesce, if◌then◌else◌, Result, ok, err, ◌>>=◌, ◌>>◌, guard, or_raise,
}
use code_xd.Domain.TurnState.{TurnState, starting, running}
use code_xd.Storage.Schema.{
  Error, not_found, conflict, invariant, assertion, Turn, Intent, IntentState, accepted,
  effect_in_flight, reconciling, succeeded, rejected, failed, unknown, Db, audit, find_intent,
  find_conversation,
}
use code_xd.Storage.Schema

abbrev pub intent_key : Intent → String
intent_key i = i.interaction_id

-- "succeeded", "rejected", "failed"
abbrev pub deterministic : IntentState → Bool
deterministic succeeded = true
deterministic rejected = true
deterministic failed = true
deterministic _ = false

-- `state IN ('accepted', 'effect_in_flight', 'reconciling')`
abbrev pub open_intent : IntentState → Bool
open_intent accepted = true
open_intent effect_in_flight = true
open_intent reconciling = true
open_intent _ = false

abbrev pub intent_state_value : IntentState → String
intent_state_value accepted = "accepted"
intent_state_value effect_in_flight = "effect_in_flight"
intent_state_value reconciling = "reconciling"
intent_state_value succeeded = "succeeded"
intent_state_value rejected = "rejected"
intent_state_value failed = "failed"
intent_state_value unknown = "unknown"

pub same_result : Option (String × String) → String × String → Bool
same_result none result = false
same_result (some (code, message)) (c, m) = str_eq code c && str_eq message m

pub completed_with : IntentState → String × String → ℕ → Intent → Intent
completed_with state result now i =
    if open_intent i.state
    then record i { state = state; result = some result; completed_at = some now }
    else i

-- An intent that has a result keeps it: the same result again changes nothing, another is refused.
unfoldable pub complete_intent : Intent → IntentState → String × String → ℕ → Db → Result Error Db
complete_intent intent state result now d =
    if not (deterministic state)
    then err invariant
    else if not (open_intent intent.state)
    then (if str_eq (intent_state_value intent.state) (intent_state_value state)
          && same_result intent.result result
        then ok d
        else err conflict)
    else do
      current ← or_raise (find_intent intent.interaction_id d.intents) conflict
      guard (open_intent current.state) conflict
      ok (record d {
        intents =
            Schema.update intent_key intent.interaction_id (completed_with state result now)
              d.intents;
        journal =
            d.journal
            ++ audit intent.turn_id (str_append "command." (intent_state_value state)) ∷ [];
      })

abbrev pub interruptible : TurnState → Bool
interruptible starting = true
interruptible running = true
interruptible _ = false

abbrev pub in_flight : String → Intent → Intent
in_flight turn_id i = record i {
  state = effect_in_flight;
  effect_kind = some "turn_cancel";
  effect_correlation_id = some turn_id;
  turn_id = coalesce i.turn_id (some turn_id);
}

-- The command is of the Turn's Conversation and project, and of no other Turn.
pub in_scope : Intent → Turn → String → Bool
in_scope intent row project_id =
    opt_is intent.conversation_id row.conversation_id
    && str_eq intent.project_id project_id
    && (not (is_some intent.turn_id) || opt_is intent.turn_id row.id)

pub same_effect : Intent → String → Bool
same_effect intent turn_id =
    opt_is intent.effect_kind "turn_cancel" && opt_is intent.effect_correlation_id turn_id

-- What follows from the intent's state: the new database, unless the command may not cancel.
unfoldable pub begin_effect : IntentState → Intent → String → Bool → Db → Result Error Db
begin_effect effect_in_flight intent turn_id starts d =
    if same_effect intent turn_id then ok d else err conflict
begin_effect accepted intent turn_id starts d =
    if starts
    then ok (record d {
      intents = Schema.update intent_key intent.interaction_id (in_flight turn_id) d.intents;
    })
    else ok d
begin_effect _ intent turn_id starts d = err conflict

-- The intent as it was read, and whether the cancellation starts an effect at the provider.
unfoldable pub bind_intent : Option String → Turn → Db → Result Error (Db × Option Intent × Bool)
bind_intent none row d = ok (d, none, false)
bind_intent (some interaction_id) row d = do
  intent ← or_raise (find_intent interaction_id d.intents) not_found
  conversation ← or_raise (find_conversation row.conversation_id d.conversations) assertion
  guard (in_scope intent row conversation.project_id) conflict
  let starts = interruptible row.state && not (is_some row.interrupt_reason)
  d' ← begin_effect intent.state intent row.id starts d
  ok (d', some intent, starts)
