-- ===== src/Storage/Leases/Tests.antt =====
-- A Runtime that is replaced and one that is lost, and the instances of the theorems about leases.
use code_xd.Prelude.{◌≡◌, refl, false, none, some, [], ◌∷◌, ok, arith, is_ok}
use code_xd.Domain.TurnState.{starting}
use code_xd.Storage.Schema.{Turn, Lease, Db, find, find_lease, update_where, count_where, key_count}
use code_xd.Storage.Schema
use code_xd.Storage.Turns.{claim_turn}
use code_xd.Storage.Turns.Trace.{IsValid}
use code_xd.Storage.Leases.{
  create_runtime_lease, last_generation, scope_ok, new_lease, mark_runtime_unhealthy, runs_under,
  lost_turn,
}
use code_xd.Storage.Leases.Rows.{here, next, creates, is_lost}
use code_xd.Storage.Leases.Service.{HasGenerations, Reach-HasGenerations}
use code_xd.Storage.Leases.Fencing.{claim_turn-after_create, claim_turn-Retired}
use code_xd.Storage.Leases.Lost.{Lost, mark_runtime_unhealthy-Lost}

abbrev no_leases : Db
no_leases = record {
  turns = [];
  conversations = [];
  revisions = [];
  leases = [];
  intents = [];
  journal = [];
}

abbrev first_lease : Lease
first_lease = new_lease "l1" "project" "p" (some "p") "e" 1 10

abbrev second_lease : Lease
second_lease = new_lease "l2" "project" "p" (some "p") "e" 2 20

abbrev one_lease : Db
one_lease = record no_leases { leases = first_lease ∷ [] }

abbrev two_leases : Db
two_leases = record no_leases { leases = first_lease ∷ second_lease ∷ [] }

creates_first :
    create_runtime_lease "project" "p" (some "p") "e" "l1" 10 no_leases
    ≡ ok (one_lease, first_lease)
unfolding create_runtime_lease last_generation scope_ok find
creates_first = refl

creates_second :
    create_runtime_lease "project" "p" (some "p") "e" "l2" 20 one_lease
    ≡ ok (two_leases, second_lease)
unfolding create_runtime_lease last_generation scope_ok find
creates_second = refl

no_leases-HasGenerations : HasGenerations []
unfolding find
no_leases-HasGenerations = record {
  keys = λ k. omega arith;
  distinct = λ j k l m f g s n. absurd (cc);
}

Reach-HasGenerations_example : HasGenerations two_leases.leases
Reach-HasGenerations_example =
    Reach-HasGenerations
      (next (next here (creates "project" "p" (some "p") "e" "l1" 10 first_lease creates_first))
        (creates "project" "p" (some "p") "e" "l2" 20 second_lease creates_second))
      no_leases-HasGenerations

abbrev second_lost : Lease
second_lost = record second_lease {
  state = Schema.LeaseState.unhealthy;
  failure_code = some "gone";
  heartbeat_at = 25;
  ended_at = some 25;
}

abbrev one_lost_of_two : Db
one_lost_of_two = record no_leases { leases = first_lease ∷ second_lost ∷ [] }

loses_second : mark_runtime_unhealthy "l2" "gone" 25 two_leases ≡ ok (one_lost_of_two, [])
unfolding mark_runtime_unhealthy find update_where
loses_second = refl

claim_turn-after_create_example : is_ok (claim_turn "t" "l1" 1 30 one_lost_of_two) ≡ false
unfolding find
claim_turn-after_create_example =
    claim_turn-after_create "project" "p" (some "p") "e" "l2" 20 second_lease first_lease
      second_lost one_lease two_leases "l1" "t" 1 30 creates_second refl refl refl
      (next here (is_lost "l2" "gone" 25 [] loses_second)) refl refl

abbrev lost_lease : Lease
lost_lease = record first_lease {
  state = Schema.LeaseState.unhealthy;
  failure_code = some "gone";
  heartbeat_at = 40;
  ended_at = some 40;
}

abbrev one_lost : Db
one_lost = record no_leases { leases = lost_lease ∷ [] }

loses_first : mark_runtime_unhealthy "l1" "gone" 40 one_lease ≡ ok (one_lost, [])
unfolding mark_runtime_unhealthy find update_where
loses_first = refl

claim_turn-Retired_example : is_ok (claim_turn "t" "l1" 1 50 one_lost) ≡ false
unfolding find
claim_turn-Retired_example = claim_turn-Retired here "l1" "t" 1 50 (lost_lease, refl, refl)

abbrev running_turn : Turn
running_turn = record {
  id = "t";
  conversation_id = "c";
  thread_revision_id = some "r";
  runtime_lease_id = some "l1";
  runtime_generation = some 1;
  provider_turn_id = none;
  source_kind = code_xd.Domain.TurnState.TurnSource.discord;
  state = starting;
  interrupt_origin = none;
  interrupt_reason = none;
  queued_input_text = some "hello";
  queued_skill_inputs = none;
  started_at = some 12;
  ended_at = none;
  terminal_code = none;
  error_code = none;
  error_message = none;
}

abbrev at_work : Db
at_work = record one_lease { turns = running_turn ∷ [] }

at_work-IsValid : IsValid at_work
unfolding find
at_work-IsValid = record {
  keys = λ k. ground arith;
  exclusive = λ c. ground arith;
  rows = λ j t h. ground arith;
}

abbrev work_lost : Db
work_lost = record one_lost {
  turns = lost_turn "gone" 40 running_turn ∷ [];
  journal =
      Schema.Entry.local_terminal "t" code_xd.Domain.TurnState.TurnState.interrupted "runtime_lost"
        false
      ∷ [];
}

loses_work : mark_runtime_unhealthy "l1" "gone" 40 at_work ≡ ok (work_lost, "t" ∷ [])
unfolding mark_runtime_unhealthy find update_where runs_under
loses_work = refl

mark_runtime_unhealthy-Lost_example : Lost "l1" "gone" 40 first_lease at_work work_lost
unfolding find
mark_runtime_unhealthy-Lost_example =
    mark_runtime_unhealthy-Lost "l1" "gone" 40 first_lease ("t" ∷ []) at_work work_lost
      at_work-IsValid refl loses_work
