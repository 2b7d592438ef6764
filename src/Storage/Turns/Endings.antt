-- ===== src/Storage/Turns/Endings.antt =====
-- `terminal_turn`, the interrupt operations and `request_cancel` change one row lawfully.
use text.Mathlib.TextLemmas.{cons-append}
use Prim.Native.String.compare.{cons-cons}
use code_xd.Prelude.{
  Result, ℕ, Bool, false, not, ◌&&◌, ◌||◌, Option, none, some, String, ◌≡◌, refl, inl, inr, str_eq,
  opt_is, is_some, ok, from_some, from_guard, from_ok, arith, Bool-cases,
}
use code_xd.Domain.TurnState.{TurnState, InterruptOrigin, terminal, transition_allowed}
use code_xd.Storage.Schema.{
  Error, Turn, Intent, IntentState, accepted, effect_in_flight, succeeded, Db, turn_key, find_turn,
  update_turn, find_conversation, find_intent, find-key,
}
use code_xd.Storage.Turns.Rows.{Lawful, Change, nothing, one_row}
use code_xd.Storage.Turns.Interrupts.{
  claim_turn_interrupt, interrupt_pending, with_reason, resolve_turn_interrupt, InterruptOutcome,
  sent, outcome_reason,
}
use code_xd.Storage.Turns.Interrupts
use code_xd.Storage.Turns.Terminal.{
  terminal_turn, ended, interrupt_unreplayable_schedule_turn, not_replayable,
}
use code_xd.Storage.Turns.Intents.{
  complete_intent, bind_intent, begin_effect, in_scope, interruptible, open_intent, deterministic,
}
use code_xd.Storage.Turns.Cancel.{
  request_cancel, cancel_row, cancel_target, cancel_entries, complete_cancel, complete_terminal,
  stays, is_accepted,
}

stored_id :
    (turn_id : String) (d : Db) (row : Turn)
    → find_turn turn_id d.turns ≡ some row
    → row.id ≡ turn_id
stored_id turn_id d row found = find-key turn_key turn_id (λ r. r) (λ r. refl) d.turns row found

pub terminal_turn-Change :
    (turn_id : String) (target : TurnState) (code : String) (error_code : Option String) (now : ℕ)
    (d d' : Db) (t : Turn)
    → terminal_turn turn_id target code error_code now d ≡ ok (d', t)
    → Change d d'
unfolding terminal_turn
terminal_turn-Change turn_id target code error_code now d d' t h =
    from_guard (terminal target) _ _ h λ ends h1.
      from_some (find_turn turn_id d.turns) _ _ h1 λ row found h2.
        elim (Bool-cases (terminal row.state)) [
          | inl over ↦
              one_row turn_id row (λ t. record t { error_message = none }) (λ t. refl) found
                (stored_id turn_id d row found) (ground arith)
                (record {
                  same_conversation = refl;
                  moves = inl refl;
                  keeps_row = λ k. ground arith;
                  keeps_spent = λ k. ground arith;
                  exclusive = λ k. inl k;
                })
          | inr open_turn ↦
              one_row turn_id row (ended target code error_code now) (λ t. refl) found
                (stored_id turn_id d row found) (ground arith)
                (record {
                  same_conversation = refl;
                  moves = ground arith;
                  keeps_row = λ k. ground arith;
                  keeps_spent = λ k. ground arith;
                  exclusive = λ k. ground arith;
                })
        ]

pub interrupt_unreplayable-Change :
    (turn_id reason : String) (now : ℕ) (d d' : Db) (t : Turn)
    → interrupt_unreplayable_schedule_turn turn_id reason now d ≡ ok (d', t)
    → Change d d'
unfolding interrupt_unreplayable_schedule_turn
interrupt_unreplayable-Change turn_id reason now d d' t h =
    from_some (find_turn turn_id d.turns) _ _ h λ row found h1.
      from_some (find_conversation row.conversation_id d.conversations) _ _ h1
        λ conversation joined h2. elim (Bool-cases (terminal row.state)) [
          | inl over ↦ nothing (ground arith)
          | inr open_turn ↦
              one_row turn_id row (not_replayable reason now) (λ t. refl) found
                (stored_id turn_id d row found) (ground arith)
                (record {
                  same_conversation = refl;
                  moves = ground arith;
                  keeps_row = λ k. refl;
                  keeps_spent = λ k. refl;
                  exclusive = λ k. ground arith;
                })
        ]

pub claim_turn_interrupt-Change :
    (turn_id : String) (d d' : Db) (b : Bool)
    → claim_turn_interrupt turn_id d ≡ ok (d', b)
    → Change d d'
unfolding claim_turn_interrupt interrupt_pending
claim_turn_interrupt-Change turn_id d d' b h =
    from_some (find_turn turn_id d.turns) _ _ h λ row found h1.
      from_some (find_conversation row.conversation_id d.conversations) _ _ h1
        λ conversation joined h2. elim (Bool-cases (interrupt_pending row)) [
          | inr idle ↦ nothing (ground arith)
          | inl pending ↦
              one_row turn_id row (with_reason "sending") (λ t. refl) found
                (stored_id turn_id d row found) (ground arith)
                (record {
                  same_conversation = refl;
                  moves = inl refl;
                  keeps_row = λ k. ground arith;
                  keeps_spent = λ k. ground arith;
                  exclusive = λ k. inl k;
                })
        ]

outcome_reason-not_requested :
    (outcome : InterruptOutcome) (code : String)
    → str_eq (outcome_reason outcome code) "requested" ≡ false
unfolding outcome_reason
outcome_reason-not_requested Interrupts.InterruptOutcome.sent code = refl
outcome_reason-not_requested Interrupts.InterruptOutcome.failed code = rw (cons-append, cons-cons)
outcome_reason-not_requested Interrupts.InterruptOutcome.unknown code = rw (cons-append, cons-cons)

pub resolve_turn_interrupt-Change :
    (turn_id : String) (outcome : InterruptOutcome) (code : String) (d d' : Db) (t : Turn)
    → resolve_turn_interrupt turn_id outcome code d ≡ ok (d', t)
    → Change d d'
unfolding resolve_turn_interrupt
resolve_turn_interrupt-Change turn_id outcome code d d' t h =
    from_some (find_turn turn_id d.turns) _ _ h λ row found h1.
      from_some (find_conversation row.conversation_id d.conversations) _ _ h1
        λ conversation joined h2.
          elim (Bool-cases (opt_is row.interrupt_reason (outcome_reason outcome code))) [
            | inl again ↦ nothing (ground arith)
            | inr fresh ↦
                one_row turn_id row (with_reason (outcome_reason outcome code)) (λ t. refl) found
                  (stored_id turn_id d row found) (ground arith)
                  (record {
                    same_conversation = refl;
                    moves = inl refl;
                    keeps_row = λ k. ground arith;
                    keeps_spent = λ k. ground (arith, outcome_reason-not_requested outcome code);
                    exclusive = λ k. inl k;
                  })
          ]

-- The operations on the command intent leave the Turns alone.
complete_intent-turns :
    (intent : Intent) (state : IntentState) (result : String × String) (now : ℕ) (d d' : Db)
    → complete_intent intent state result now d ≡ ok d'
    → d'.turns ≡ d.turns
unfolding complete_intent
complete_intent-turns intent state result now d d' h = elim (Bool-cases (deterministic state)) [
  | inr bad ↦ ground arith
  | inl fine ↦ elim (Bool-cases (open_intent intent.state)) [
    | inr closed ↦ ground arith
    | inl left ↦ ground arith
  ]
]

begin_effect-turns :
    (state : IntentState) (intent : Intent) (turn_id : String) (starts : Bool) (d d' : Db)
    → begin_effect state intent turn_id starts d ≡ ok d'
    → d'.turns ≡ d.turns
unfolding begin_effect
begin_effect-turns effect_in_flight intent turn_id starts d d' h = ground arith
begin_effect-turns accepted intent turn_id starts d d' h = ground arith
begin_effect-turns _ intent turn_id starts d d' h = cc

bind_intent-turns :
    (interaction_id : Option String) (row : Turn) (d d' : Db) (intent : Option Intent)
    (starts : Bool)
    → bind_intent interaction_id row d ≡ ok (d', intent, starts)
    → d'.turns ≡ d.turns
unfolding bind_intent
bind_intent-turns none row d d' intent starts h = ground arith
bind_intent-turns (some interaction_id) row d d' intent starts h =
    from_some (find_intent interaction_id d.intents) _ _ h λ i found h1.
      from_some (find_conversation row.conversation_id d.conversations) _ _ h1
        λ conversation joined h2.
          from_guard (in_scope i row conversation.project_id) _ _ h2 λ scoped h3.
            from_ok
              (begin_effect i.state i row.id
                (interruptible row.state && not (is_some row.interrupt_reason)) d)
              _ h3
              λ e began h4.
                begin_effect-turns i.state i row.id
                  (interruptible row.state && not (is_some row.interrupt_reason)) d d'
                  (ground arith)

complete_cancel-turns :
    (intent : Option Intent) (starts : Bool) (target : TurnState) (now : ℕ) (d d' : Db)
    → complete_cancel intent starts target now d ≡ ok d'
    → d'.turns ≡ d.turns
unfolding complete_cancel
complete_cancel-turns none starts target now d d' h = ground arith
complete_cancel-turns (some intent) starts target now d d' h =
    elim (Bool-cases (is_accepted intent.state && not starts)) [
      | inl now_complete ↦
          complete_intent-turns intent succeeded _ now d d'
            (rw (now_complete, complete_cancel) at h)
      | inr later ↦ ground arith
    ]

complete_terminal-turns :
    (intent : Option Intent) (state : TurnState) (now : ℕ) (d d' : Db)
    → complete_terminal intent state now d ≡ ok d'
    → d'.turns ≡ d.turns
unfolding complete_terminal
complete_terminal-turns none state now d d' h = ground arith
complete_terminal-turns (some intent) state now d d' h =
    complete_intent-turns intent succeeded _ now d d' h

-- The database that `request_cancel` has when it completes the command.
abbrev pub cancelled_turns : String → Turn → InterruptOrigin → ℕ → Db → Db
cancelled_turns turn_id row origin now d =
    cancel_entries turn_id (cancel_target row.state) (record d {
      turns = update_turn turn_id (cancel_row (cancel_target row.state) origin now) d.turns;
    })

cancel_row-Lawful :
    (d : Db) (row : Turn) (origin : InterruptOrigin) (now : ℕ)
    → terminal row.state ≡ false
    → Lawful d.turns row (cancel_row (cancel_target row.state) origin now row)
cancel_row-Lawful d row origin now open_turn = record {
  same_conversation = refl;
  moves = ground arith;
  keeps_row = λ k. ground arith;
  keeps_spent = λ k. ground arith;
  exclusive = λ k. ground arith;
}

pub request_cancel-Change :
    (turn_id : String) (origin : InterruptOrigin) (interaction_id : Option String) (now : ℕ)
    (projected : Result {0, 0} Error Unit) (d d' : Db) (t : Turn)
    → request_cancel turn_id origin interaction_id now projected d ≡ ok (d', t)
    → Change d d'
unfolding request_cancel
request_cancel-Change turn_id origin interaction_id now projected d d' t h =
    from_some (find_turn turn_id d.turns) _ _ h λ row found h1.
      from_ok (bind_intent interaction_id row d) _ h1 λ bound binds h2.
        let kept : bound.0.turns ≡ d.turns =
          bind_intent-turns interaction_id row d bound.0 bound.1 bound.2 binds in
        elim (Bool-cases (terminal row.state)) [
          | inl over ↦
              from_ok (complete_terminal bound.1 row.state now bound.0) _ (rw over at h2)
                λ e done h3.
                  nothing (ground (arith, complete_terminal-turns bound.1 row.state now bound.0 e))
          | inr open_turn ↦
              from_guard (stays row.state || transition_allowed row.state (cancel_target row.state))
                _ _ (rw open_turn at h2)
                λ movable h3. from_ok projected _ h3 λ shown ran h3'.
                  from_ok
                    (complete_cancel bound.1 bound.2 (cancel_target row.state) now
                      (cancelled_turns turn_id row origin now bound.0))
                    _ h3'
                    λ e done h4.
                      one_row turn_id row (cancel_row (cancel_target row.state) origin now)
                        (λ t. refl) found (stored_id turn_id d row found)
                        (ground (
                          arith,
                          complete_cancel-turns bound.1 bound.2 (cancel_target row.state) now
                              (cancelled_turns turn_id row origin now bound.0) e,
                        ))
                        (cancel_row-Lawful d row origin now open_turn)
        ]
