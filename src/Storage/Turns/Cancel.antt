-- ===== src/Storage/Turns/Cancel.antt =====
-- storage/repository.py: `request_cancel`.
use Prim.Native.String.{◌++◌ as str_append}
use code_xd.Prelude.{
  ◌||◌, ℕ, Bool, true, false, not, ◌&&◌, Option, none, some, [], ◌∷◌, ◌++◌, String, is_some,
  if◌then◌else◌, Result, ok, ◌>>=◌, ◌>>◌, guard, or_raise,
}
use code_xd.Domain.TurnState.{
  TurnState, queued, starting, running, cancelling, completed, failed, cancelled, interrupted,
  InterruptOrigin, terminal, transition_allowed,
}
use code_xd.Storage.Schema.{
  Error, not_found, invariant, Turn, Intent, IntentState, accepted, succeeded, Db, progress,
  local_terminal, find_turn, update_turn,
}
use code_xd.Storage.Turns.{Outcome}
use code_xd.Storage.Turns.Intents.{complete_intent, bind_intent}

abbrev pub state_value : TurnState → String
state_value queued = "queued"
state_value starting = "starting"
state_value running = "running"
state_value cancelling = "cancelling"
state_value completed = "completed"
state_value failed = "failed"
state_value cancelled = "cancelled"
state_value interrupted = "interrupted"

abbrev pub is_cancelled : TurnState → Bool
is_cancelled cancelled = true
is_cancelled _ = false

abbrev pub is_accepted : IntentState → Bool
is_accepted accepted = true
is_accepted _ = false

-- Where a cancellation leads from a state that is not terminal.
abbrev pub cancel_target : TurnState → TurnState
cancel_target queued = cancelled
cancel_target starting = cancelling
cancel_target running = cancelling
cancel_target state = state

-- `target is state`
abbrev pub stays : TurnState → Bool
stays queued = false
stays starting = false
stays running = false
stays _ = true

abbrev pub cancel_row : TurnState → InterruptOrigin → ℕ → Turn → Turn
cancel_row target origin now t = record t {
  state = target;
  interrupt_origin = some origin;
  interrupt_reason =
      if is_cancelled target
      then some "cancelled_before_start"
      else if is_some t.interrupt_reason
      then t.interrupt_reason
      else some "requested";
  ended_at = if is_cancelled target then some now else t.ended_at;
  terminal_code = if is_cancelled target then some "cancelled_before_start" else t.terminal_code;
  queued_input_text = if is_cancelled target then none else t.queued_input_text;
  queued_skill_inputs = if is_cancelled target then none else t.queued_skill_inputs;
}

-- What the projections are told.
abbrev pub cancel_entries : String → TurnState → Db → Db
cancel_entries turn_id target d = record d {
  journal =
      d.journal
      ++ (if is_cancelled target
          then progress turn_id "terminal" "Cancelled · before provider start"
            ∷ local_terminal turn_id cancelled "cancelled_before_start" true
            ∷ []
          else progress turn_id "cancelling" "Cancelling · interrupt requested" ∷ []);
}

-- The command is completed at once where it starts no effect at the provider.
unfoldable pub complete_cancel : Option Intent → Bool → TurnState → ℕ → Db → Result Error Db
complete_cancel none starts target now d = ok d
complete_cancel (some intent) starts target now d =
    if is_accepted intent.state && not starts
    then complete_intent intent succeeded
        (
          "ok",
          if is_cancelled target
              then "Turn cancelled before provider start."
              else "Cancellation was already recorded.",
        )
        now d
    else ok d

unfoldable pub complete_terminal : Option Intent → TurnState → ℕ → Db → Result Error Db
complete_terminal none state now d = ok d
complete_terminal (some intent) state now d =
    complete_intent intent succeeded
      ("already_terminal", str_append "Turn is already " (str_append (state_value state) ".")) now d

-- `projected` is how the projections end, `insert_progress_update` and, when the Turn is cancelled,
-- `_project_local_terminal`; they raise, for instance, the `ValueError` of storage/progress.py, and then
-- nothing of the transaction stays.
unfoldable pub request_cancel :
    String → InterruptOrigin → Option String → ℕ → Result {0, 0} Error Unit → Db → Outcome
request_cancel turn_id origin command_interaction_id now projected d = do
  row ← or_raise (find_turn turn_id d.turns) not_found
  (d', intent, starts) ← bind_intent command_interaction_id row d
  if terminal row.state
      then (do d'' ← complete_terminal intent row.state now d'; ok (d'', row))
      else do
        let target = cancel_target row.state
        guard (stays row.state || transition_allowed row.state target) invariant
        _ ← projected
        d'' ← complete_cancel intent starts target now (
            cancel_entries turn_id target
              (record d' { turns = update_turn turn_id (cancel_row target origin now) d'.turns }))
        ok (d'', cancel_row target origin now row)
