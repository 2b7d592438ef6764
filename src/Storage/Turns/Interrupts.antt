-- ===== src/Storage/Turns/Interrupts.antt =====
-- storage/repository.py: `claim_turn_interrupt` and `resolve_turn_interrupt`, which send the
-- provider at most one interrupt for a Turn.
use Prim.Native.String.{◌++◌ as str_append}
use code_xd.Prelude.{
  Bool, true, false, not, ◌&&◌, some, [], ◌∷◌, ◌++◌, String, opt_is, is_some, if◌then◌else◌, Result,
  ok, err, ◌>>=◌, or_raise,
}
use code_xd.Domain.TurnState.{TurnState, cancelling}
use code_xd.Storage.Schema.{
  Error, not_found, conflict, Turn, Db, audit, find_turn, update_turn, find_conversation,
}
use code_xd.Storage.Turns.{Outcome}

abbrev pub is_cancelling : TurnState → Bool
is_cancelling cancelling = true
is_cancelling _ = false

-- The Turn is being cancelled, the provider knows it, and no interrupt was claimed for it.
unfoldable pub interrupt_pending : Turn → Bool
interrupt_pending t =
    is_cancelling t.state && is_some t.provider_turn_id && opt_is t.interrupt_reason "requested"

abbrev pub with_reason : String → Turn → Turn
with_reason reason t = record t { interrupt_reason = some reason }

unfoldable pub claim_turn_interrupt : String → Db → Result Error (Db × Bool)
claim_turn_interrupt turn_id d = do
  row ← or_raise (find_turn turn_id d.turns) not_found
  conversation ← or_raise (find_conversation row.conversation_id d.conversations) not_found
  if not (interrupt_pending row)
      then ok (d, false)
      else ok (
        record d {
          turns = update_turn turn_id (with_reason "sending") d.turns;
          journal = d.journal ++ audit (some turn_id) "turn.interrupt_sending" ∷ [];
        },
        true,
      )

pub data InterruptOutcome : Type 0 where
  sent failed unknown : InterruptOutcome

abbrev pub outcome_value : InterruptOutcome → String
outcome_value sent = "sent"
outcome_value failed = "failed"
outcome_value unknown = "unknown"

unfoldable pub outcome_reason : InterruptOutcome → String → String
outcome_reason sent code = "interrupt_sent"
outcome_reason failed code = str_append "interrupt_failed:" code
outcome_reason unknown code = str_append "interrupt_unknown:" code

unfoldable pub resolve_turn_interrupt : String → InterruptOutcome → String → Db → Outcome
resolve_turn_interrupt turn_id outcome code d = do
  row ← or_raise (find_turn turn_id d.turns) not_found
  conversation ← or_raise (find_conversation row.conversation_id d.conversations) not_found
  if opt_is row.interrupt_reason (outcome_reason outcome code)
      then ok (d, row)
      else if not (opt_is row.interrupt_reason "sending")
      then err conflict
      else ok (
        record d {
          turns = update_turn turn_id (with_reason (outcome_reason outcome code)) d.turns;
          journal =
              d.journal
              ++ audit (some turn_id) (str_append "turn.interrupt_" (outcome_value outcome)) ∷ [];
        },
        with_reason (outcome_reason outcome code) row,
      )
