-- ===== src/Storage/Turns/Tests.antt =====
-- A Conversation with two queued Turns, and the instances of the theorems about Turns.
use code_xd.Prelude.{
  err, ◌≤◌, ◌≡◌, refl, subst, Bool, true, false, none, some, List, [], ◌∷◌, String, str_eq,
  str_eq_iff, ok, err, arith, Bool-cases, inl, inr,
}
use code_xd.Domain.TurnState.{queued, starting, cancelling, completed, user, discord}
use code_xd.Storage.Schema.{
  Turn, Conversation, Revision, Lease, Db, Error, conflict, turn_key, find_turn, find, update,
  UniqueKeys, total,
}
use code_xd.Storage.Schema
use code_xd.Storage.Turns.{
  claim_turn, claimed, busy, targets_active, revision_matches, lease_valid, lease_matches_project,
  supersedes,
}
use code_xd.Storage.Turns.Entitled.{Entitled, claim_turn_iff}
use code_xd.Storage.Turns.Interrupts.{claim_turn_interrupt, interrupt_pending}
use code_xd.Storage.Turns.Cancel.{request_cancel}
use code_xd.Storage.Turns.Trace.{
  Step, claims, here, next, IsValid, Reach-IsValid, Step-Descends, Descends, Reach-terminal,
}
use code_xd.Storage.Turns.Once.{claim_turn_interrupt-once, request_cancel-outcomes}

abbrev queued_turn : String → Turn
queued_turn id = record {
  id = id;
  conversation_id = "c";
  thread_revision_id = some "r";
  runtime_lease_id = none;
  runtime_generation = none;
  provider_turn_id = none;
  source_kind = discord;
  state = queued;
  interrupt_origin = none;
  interrupt_reason = none;
  queued_input_text = some "hello";
  queued_skill_inputs = none;
  started_at = none;
  ended_at = none;
  terminal_code = none;
  error_code = none;
  error_message = none;
}

abbrev lease : Lease
lease = record {
  id = "l";
  scope_kind = "project";
  scope_key = "p";
  project_id = some "p";
  generation = 3;
  state = Schema.LeaseState.ready;
  sdk_version = some "1";
  runtime_version = some "1";
  capability_hash = some "h";
  environment_hash = "e";
  failure_code = none;
  started_at = 1;
  heartbeat_at = 1;
  ended_at = none;
}

abbrev with_turns : List Turn → Db
with_turns turns = record {
  turns = turns;
  conversations =
      record {
        id = "c";
        project_id = "p";
        state = Schema.ConversationState.active;
        active_revision_id = some "r";
      }
      ∷ [];
  revisions = record { id = "r"; conversation_id = "c"; state = Schema.RevisionState.active } ∷ [];
  leases = lease ∷ [];
  intents = [];
  journal = [];
}

abbrev two_queued : Db
two_queued = with_turns (queued_turn "a" ∷ queued_turn "b" ∷ [])

abbrev a_starts : Turn
a_starts = claimed "l" 3 7 (queued_turn "a")

abbrev a_claimed : Db
a_claimed = with_turns (a_starts ∷ queued_turn "b" ∷ [])

claims_a : claim_turn "a" "l" 3 7 two_queued ≡ ok (a_claimed, a_starts)
unfolding claim_turn find update targets_active revision_matches lease_valid lease_matches_project
    supersedes busy
claims_a = refl

-- The other Turn of the Conversation has to wait.
b_waits : claim_turn "b" "l" 3 8 a_claimed ≡ err conflict
unfolding claim_turn find update targets_active revision_matches lease_valid lease_matches_project
    supersedes busy
b_waits = refl

claim_turn_iff_example :
    (row : Turn) × Entitled "a" "l" 3 two_queued row
    × (a_starts ≡ record row {
      state = starting;
      runtime_lease_id = some "l";
      runtime_generation = some 3;
      started_at = some 7;
    })
    × (a_claimed ≡ record two_queued {
      turns =
          Schema.update_turn "a"
            (λ r. record r {
              state = starting;
              runtime_lease_id = some "l";
              runtime_generation = some 3;
              started_at = some 7;
            })
            two_queued.turns;
    })
claim_turn_iff_example = (claim_turn_iff "a" "l" 3 7 two_queued a_claimed a_starts).0 claims_a

two_queued-IsValid : IsValid two_queued
unfolding find
two_queued-IsValid = record {
  keys = λ k. elim (Bool-cases (str_eq "a" k)) [
    | inl is_a ↦
        subst (λ j. Schema.key_count turn_key j two_queued.turns ≤ 1) ((str_eq_iff "a" k).0 is_a)
          (omega arith)
    | inr not_a ↦ rw not_a (ground arith)
  ];
  exclusive = λ c. omega arith;
  rows = λ j t h. ground arith;
}

claim-Step : Step two_queued a_claimed
claim-Step = claims "a" "l" 3 7 a_starts claims_a

Reach-IsValid_example : IsValid a_claimed
Reach-IsValid_example = Reach-IsValid (next here claim-Step) two_queued-IsValid

Step-Descends_example :
    (u : Turn) × (find_turn "a" a_claimed.turns ≡ some u) × Descends (queued_turn "a") u
unfolding find
Step-Descends_example = Step-Descends claim-Step "a" (queued_turn "a") refl

abbrev b_ended : Turn
b_ended = record (queued_turn "b") {
  state = completed;
  queued_input_text = none;
  ended_at = some 5;
  terminal_code = some "ok";
}

abbrev one_ended : Db
one_ended = with_turns (queued_turn "a" ∷ b_ended ∷ [])

one_claims : claim_turn "a" "l" 3 7 one_ended ≡ ok (with_turns (a_starts ∷ b_ended ∷ []), a_starts)
unfolding claim_turn find update targets_active revision_matches lease_valid lease_matches_project
    supersedes busy
one_claims = refl

Reach-terminal_example :
    (u : Turn) × (find_turn "b" (with_turns (a_starts ∷ b_ended ∷ [])).turns ≡ some u)
    × (u.state ≡ completed)
unfolding find
Reach-terminal_example =
    Reach-terminal (next here (claims "a" "l" 3 7 a_starts one_claims)) "b" b_ended refl refl

abbrev a_cancelling : Turn
a_cancelling = record a_starts {
  state = cancelling;
  provider_turn_id = some "p1";
  interrupt_origin = some user;
  interrupt_reason = some "requested";
}

abbrev pending : Db
pending = with_turns (a_cancelling ∷ [])

abbrev sending : Db
sending = record pending {
  turns = record a_cancelling { interrupt_reason = some "sending" } ∷ [];
  journal = Schema.Entry.audit (some "a") "turn.interrupt_sending" ∷ [];
}

granted : claim_turn_interrupt "a" pending ≡ ok (sending, true)
unfolding claim_turn_interrupt interrupt_pending find update
granted = refl

refused : claim_turn_interrupt "a" sending ≡ ok (sending, false)
unfolding claim_turn_interrupt interrupt_pending find update
refused = refl

claim_turn_interrupt-once_example : ◌≡◌ {A = Bool} false false
claim_turn_interrupt-once_example =
    claim_turn_interrupt-once "a" pending sending false granted here refused

request_cancel-outcomes_example :
    ((d' : Db) × (t : Turn) × (request_cancel "a" user none 9 (ok tt) a_claimed ≡ ok (d', t))
      × (find_turn "a" d'.turns ≡ some t)
      × (t.state ≡ cancelling))
    × ((e : Schema.Error) → request_cancel "a" user none 9 (err e) a_claimed ≡ err e)
unfolding find
request_cancel-outcomes_example = request_cancel-outcomes "a" user 9 a_claimed a_starts refl
