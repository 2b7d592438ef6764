-- ===== src/Runtime/Mailbox/Tests.antt =====
-- A Turn that is queued while the task looks, and the witness.
use code_xd.Prelude.{false, ◌≡◌, refl, some, List, [], ◌∷◌}
use code_xd.Domain.TurnState.{queued}
use code_xd.Runtime.Mailbox.{
  QueuedTurn, next_queued_turn, handling, Mailbox, wake, Event, resumes, enqueued, enqueuer_wakes,
  happens, all_happen, new_world,
}
use code_xd.Runtime.Mailbox.Wakes.{Served, all_happen-Served}

abbrev second_turn : QueuedTurn
second_turn = record { id = "t2"; conversation_id = "c"; state = queued; enqueue_sequence = 2 }

abbrev first_turn : QueuedTurn
first_turn = record { id = "t1"; conversation_id = "c"; state = queued; enqueue_sequence = 1 }

-- The task reads an empty queue; before it waits, a Turn is queued and `wake` is called.
abbrev late_wake : List Event
late_wake =
    enqueuer_wakes
    ∷ resumes
    ∷ resumes
    ∷ enqueued second_turn
    ∷ enqueuer_wakes
    ∷ resumes
    ∷ resumes
    ∷ resumes
    ∷ resumes
    ∷ []

abbrev handled_second : Mailbox
handled_second = record { is_awake = false; closed = false; phase = handling second_turn }

handles_late : (all_happen "c" late_wake (new_world [])).mailbox ≡ some handled_second
unfolding all_happen happens wake next_queued_turn
handles_late = refl

takes_earliest : next_queued_turn "c" (second_turn ∷ first_turn ∷ []) ≡ some first_turn
unfolding next_queued_turn
takes_earliest = refl

all_happen-Served_example : Served "c" (all_happen "c" late_wake (new_world []))
all_happen-Served_example = all_happen-Served "c" [] late_wake
