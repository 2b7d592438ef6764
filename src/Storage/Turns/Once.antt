-- ===== src/Storage/Turns/Once.antt =====
-- The provider is sent at most one interrupt for a Turn, and a cancellation always takes effect.
use code_xd.Prelude.{
  err, ℕ, ◌≡◌, refl, Bool, true, false, none, some, String, inl, inr, arith, ok, from_some,
  Bool-cases, if◌then◌else◌,
}
use text.Mathlib.TextPositions.{eq_refl}
use code_xd.Domain.TurnState.{
  TurnState, cancelled, cancelling, InterruptOrigin, terminal, is_queued,
}
use code_xd.Storage.Schema.{Error, Turn, Db, turn_key, find_turn, find_conversation, find-update}
use code_xd.Storage.Turns.Interrupts.{claim_turn_interrupt, interrupt_pending, with_reason}
use code_xd.Storage.Turns.Rows.{spent}
use code_xd.Storage.Turns.Cancel.{
  request_cancel, cancel_row, cancel_target, complete_cancel, complete_terminal,
}
use code_xd.Storage.Turns.Intents.{bind_intent}
use code_xd.Storage.Turns.Endings.{cancelled_turns}
use code_xd.Storage.Turns.Trace.{Reach, Reach-spent}

spent-not_pending : (t : Turn) → spent t ≡ true → interrupt_pending t ≡ false
unfolding interrupt_pending
spent-not_pending t h = ground arith

-- A claim that is granted leaves the row spent.
claimed_row :
    (turn_id : String) (d d' : Db)
    → claim_turn_interrupt turn_id d ≡ ok (d', true)
    → (t : Turn) × (find_turn turn_id d'.turns ≡ some t) × (spent t ≡ true)
unfolding claim_turn_interrupt interrupt_pending
claimed_row turn_id d d' h = from_some (find_turn turn_id d.turns) _ _ h λ row found h1.
    from_some (find_conversation row.conversation_id d.conversations) _ _ h1
      λ conversation joined h2. (
        with_reason "sending" row,
        ground (
          arith,
          find-update turn_key turn_id (with_reason "sending") (λ t. refl) turn_id d.turns,
          eq_refl turn_id,
        ),
        ground arith,
      )

-- Once `claim_turn_interrupt` has granted the interrupt of a Turn, then, whatever the operations
-- after it, no later call grants it again.
pub claim_turn_interrupt-once :
    (turn_id : String) (d : Db) {d' e : Db} (e' : Db) (b : Bool)
    → claim_turn_interrupt turn_id d ≡ ok (d', true)
    → Reach d' e
    → claim_turn_interrupt turn_id e ≡ ok (e', b)
    → b ≡ false
unfolding claim_turn_interrupt
claim_turn_interrupt-once turn_id d {d'} {e} e' b granted reach again =
    let (t, stored, is_spent) = claimed_row turn_id d d' granted in
    let (u, stored', still_spent) = Reach-spent reach turn_id t stored is_spent in
    let idle = spent-not_pending u still_spent in
    from_some (find_turn turn_id e.turns) _ _ again λ row found h1.
      from_some (find_conversation row.conversation_id e.conversations) _ _ h1
        λ conversation joined h2. let same : row ≡ u = ground arith in ground arith

-- The state that a cancellation leaves.
abbrev pub after_cancel : TurnState → TurnState
after_cancel s = if terminal s then s else if is_queued s then cancelled else cancelling

-- A cancellation with no command for a Turn that exists. When its projections return it is not
-- refused: it leaves a Turn that has ended as it is, ends one that was queued, and marks any other as
-- being cancelled; the row that it returns is the row that is stored. When its projections raise, it
-- raises the same for a Turn that has not ended, and one that has ended is still left as it is.
pub request_cancel-outcomes :
    (turn_id : String) (origin : InterruptOrigin) (now : ℕ) (d : Db) (row : Turn)
    → find_turn turn_id d.turns ≡ some row
    → ((d' : Db) × (t : Turn) × (request_cancel turn_id origin none now (ok tt) d ≡ ok (d', t))
        × (find_turn turn_id d'.turns ≡ some t)
        × (t.state ≡ after_cancel row.state))
      × ((e : Error)
          → request_cancel turn_id origin none now (err e) d
            ≡ (if terminal row.state then ok (d, row) else err e))
unfolding request_cancel bind_intent complete_cancel complete_terminal
request_cancel-outcomes turn_id origin now d row found = elim (Bool-cases (terminal row.state)) [
  | inl over ↦ ((d, row, ground arith, found, ground arith), λ e. ground arith)
  | inr left ↦ (
    (
      cancelled_turns turn_id row origin now d,
      cancel_row (cancel_target row.state) origin now row,
      ground arith,
      ground (
        arith,
        find-update turn_key turn_id (cancel_row (cancel_target row.state) origin now) (λ t. refl)
            turn_id d.turns,
        eq_refl turn_id,
      ),
      ground arith,
    ),
    λ e. ground arith,
  )
]
