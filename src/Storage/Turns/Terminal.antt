-- ===== src/Storage/Turns/Terminal.antt =====
-- storage/repository.py: `terminal_turn` and `interrupt_unreplayable_schedule_turn`.
use Prim.Native.String.{◌++◌ as str_append}
use code_xd.Prelude.{
  ℕ, Bool, true, false, ◌&&◌, Option, none, some, [], ◌∷◌, ◌++◌, String, str_eq, if◌then◌else◌, ok,
  ◌>>=◌, ◌>>◌, guard, or_raise,
}
use code_xd.Domain.TurnState.{
  TurnState, queued, starting, running, cancelling, completed, failed, cancelled, interrupted,
  TurnSource, discord, schedule, runtime, terminal, is_queued, transition_allowed,
}
use code_xd.Storage.Schema.{
  not_found, conflict, invariant, Turn, Db, progress, local_terminal, incident, find_turn,
  update_turn, find_conversation,
}
use code_xd.Storage.Turns.{Outcome}

-- `state.value.title()`
abbrev pub state_title : TurnState → String
state_title queued = "Queued"
state_title starting = "Starting"
state_title running = "Running"
state_title cancelling = "Cancelling"
state_title completed = "Completed"
state_title failed = "Failed"
state_title cancelled = "Cancelled"
state_title interrupted = "Interrupted"

pub terminal_content : TurnState → String → String
terminal_content target code =
    str_append (state_title target) (str_append " · `" (str_append code "`"))

-- `row["terminal_code"] or terminal_code`: an empty text counts as none.
pub text_or : Option String → String → String
text_or none code = code
text_or (some stored) code = if str_eq stored "" then code else stored

abbrev pub ended : TurnState → String → Option String → ℕ → Turn → Turn
ended target code error_code now t = record t {
  state = target;
  terminal_code = some code;
  error_code = error_code;
  error_message = none;
  ended_at = some now;
  queued_input_text = none;
  queued_skill_inputs = none;
}

unfoldable pub terminal_turn : String → TurnState → String → Option String → ℕ → Db → Outcome
terminal_turn turn_id target code error_code now d = do
  guard (terminal target) invariant
  row ← or_raise (find_turn turn_id d.turns) not_found
  if terminal row.state
      then ok (
        record d {
          turns = update_turn turn_id (λ t. record t { error_message = none }) d.turns;
          journal =
              d.journal
              ++ local_terminal turn_id row.state (text_or row.terminal_code code) false ∷ [];
        },
        record row { error_message = none },
      )
      else do
        guard (transition_allowed row.state target) invariant
        ok (
          record d {
            turns = update_turn turn_id (ended target code error_code now) d.turns;
            journal =
                d.journal
                ++ progress turn_id "terminal" (terminal_content target code)
                  ∷ local_terminal turn_id target code true
                  ∷ [];
          },
          ended target code error_code now row,
        )

abbrev pub from_schedule : TurnSource → Bool
from_schedule schedule = true
from_schedule discord = false

abbrev pub not_replayable : String → ℕ → Turn → Turn
not_replayable reason now t = record t {
  state = interrupted;
  terminal_code = some "schedule_snapshot_not_replayable";
  error_code = some reason;
  interrupt_origin = some runtime;
  interrupt_reason = some reason;
  ended_at = some now;
  queued_input_text = none;
  queued_skill_inputs = none;
}

unfoldable pub interrupt_unreplayable_schedule_turn : String → String → ℕ → Db → Outcome
interrupt_unreplayable_schedule_turn turn_id reason now d = do
  row ← or_raise (find_turn turn_id d.turns) not_found
  conversation ← or_raise (find_conversation row.conversation_id d.conversations) not_found
  if terminal row.state then ok (d, row) else do
    guard (is_queued row.state && from_schedule row.source_kind) conflict
    guard (transition_allowed row.state interrupted) invariant
    ok (
      record d {
        turns = update_turn turn_id (not_replayable reason now) d.turns;
        journal =
            d.journal
            ++ progress turn_id "terminal" "Interrupted · `schedule_snapshot_not_replayable`"
              ∷ local_terminal turn_id interrupted "schedule_snapshot_not_replayable" true
              ∷ incident turn_id reason
              ∷ [];
      },
      not_replayable reason now row,
    )
