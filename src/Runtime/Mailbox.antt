-- ===== src/Runtime/Mailbox.antt =====
-- runtime/mailbox.py, for one Conversation: its mailbox in the registry, and the task that takes the
-- queued Turns one by one. `storage/repository.py` gives the next one. The task gives way to others
-- only where it awaits, so that what happens between two awaits is one step.
mod Tests
pub mod Wakes
use code_xd.Prelude.{
  ℕ, zero, suc, ◌+◌, ◌-◌, Bool, true, false, not, ◌&&◌, ◌||◌, Option, none, some, List, [], ◌∷◌,
  ◌++◌, String, str_eq, if◌then◌else◌, ltb, any,
}
use code_xd.Domain.TurnState.{TurnState, is_queued, starting}

-- What `next_queued_turn` reads of a row of `turns`.
pub record QueuedTurn : Type 0 where
  pub id : String
  pub conversation_id : String
  pub state : TurnState
  pub enqueue_sequence : ℕ

abbrev pub waits : String → QueuedTurn → Bool
waits conversation_id t = str_eq t.conversation_id conversation_id && is_queued t.state

-- The earlier one of a row and what was found in the rows after it.
abbrev pub earlier : QueuedTurn → Option QueuedTurn → QueuedTurn
earlier t none = t
earlier t (some u) = if ltb u.enqueue_sequence t.enqueue_sequence then u else t

unfoldable pub next_queued_turn : String → List QueuedTurn → Option QueuedTurn
next_queued_turn conversation_id [] = none
next_queued_turn conversation_id (t ∷ turns) =
    let rest = next_queued_turn conversation_id turns in
    if waits conversation_id t then some (earlier t rest) else rest

-- Where the task stands: at `self._wake.wait()`; at the call of `next_queued_turn` before it reads and
-- after it; at the handler; at the error handler; asleep in `_wake_after`; returned; ended by an
-- exception.
pub data Phase : Type 0 where
  idle : Phase
  looking : Phase
  answered : Option QueuedTurn → Phase
  handling : QueuedTurn → Phase
  reporting : Phase
  sleeping : Phase
  returned : Phase
  failed : Phase

pub record Mailbox : Type 0 where
  pub is_awake : Bool
  pub closed : Bool
  pub phase : Phase

-- `ConversationMailbox(...)`
abbrev pub new_mailbox : Mailbox
new_mailbox = record { is_awake = false; closed = false; phase = idle }

-- `while not self._closed`, the outer loop
abbrev pub wait_again : Mailbox → Mailbox
wait_again m = record m { phase = if m.closed then returned else idle }

-- `while not self._closed`, the inner loop
abbrev pub look_again : Mailbox → Mailbox
look_again m = record m { phase = if m.closed then returned else looking }

-- The task goes on from `idle`, `looking` or `answered`.
abbrev pub resume : String → List QueuedTurn → Phase → Mailbox → Mailbox
resume conversation_id turns idle m =
    if m.is_awake then look_again (record m { is_awake = false }) else m
resume conversation_id turns looking m = record m {
  phase = answered (next_queued_turn conversation_id turns);
}
resume conversation_id turns (answered none) m = wait_again m
resume conversation_id turns (answered (some t)) m = record m { phase = handling t }
resume conversation_id turns _ m = m

abbrev pub at_handler : Phase → Bool
at_handler (handling t) = true
at_handler _ = false

abbrev pub at_report : Phase → Bool
at_report reporting = true
at_report _ = false

abbrev pub asleep : Phase → Bool
asleep sleeping = true
asleep _ = false

abbrev pub at_look : Phase → Bool
at_look looking = true
at_look _ = false

-- A step of the task from one of its places.
abbrev pub from_place : (Phase → Bool) → (Mailbox → Mailbox) → Phase → Mailbox → Mailbox
from_place place f p m = if place p then f m else m

-- The handler has returned, perhaps with a delay.
abbrev pub after_handler : Option ℕ → Mailbox → Mailbox
after_handler none m = look_again m
after_handler (some delay) m = record m { phase = sleeping }

-- The handler has raised.
abbrev pub after_error : Mailbox → Mailbox
after_error m = record m { phase = reporting }

-- The error handler has returned or raised; either way the delay is a second.
abbrev pub after_report : Mailbox → Mailbox
after_report m = record m { phase = sleeping }

-- `_wake_after` once it has slept, and the `break` after it.
abbrev pub wake_after : Mailbox → Mailbox
wake_after m = wait_again (record m { is_awake = m.is_awake || not m.closed })

-- `next_queued_turn` has raised, which nothing catches.
abbrev pub after_failure : Mailbox → Mailbox
after_failure m = record m { phase = failed }

-- `self._task.done()`
abbrev pub done : Phase → Bool
done returned = true
done failed = true
done _ = false

-- The registry's entry of the Conversation, the table of Turns, and how many who have queued a Turn
-- have not yet called `wake`.
pub record World : Type 0 where
  pub registry_closed : Bool
  pub mailbox : Option Mailbox
  pub turns : List QueuedTurn
  pub owed : ℕ

-- `_get`
abbrev pub mailbox_of : Option Mailbox → Mailbox
mailbox_of none = new_mailbox
mailbox_of (some m) = if done m.phase then new_mailbox else m

-- `MailboxRegistry.wake`
unfoldable pub wake : World → World
wake w =
    if w.registry_closed
    then w
    else record w { mailbox = some (record (mailbox_of w.mailbox) { is_awake = true }) }

-- `MailboxRegistry.close`, which closes the mailboxes and forgets them.
unfoldable pub close : World → World
close w = record w { registry_closed = true; mailbox = none }

abbrev pub leave_queue : String → List QueuedTurn → List QueuedTurn
leave_queue turn_id [] = []
leave_queue turn_id (t ∷ turns) =
    (if str_eq t.id turn_id then record t { state = starting } else t) ∷ leave_queue turn_id turns

pub data Event : Type 0 where
  resumes : Event
  look_raises : Event
  handler_returns : Option ℕ → Event
  handler_raises : Event
  reported : Event
  slept : Event
  enqueued : QueuedTurn → Event
  dequeued : String → Event
  enqueuer_wakes : Event
  anyone_wakes : Event
  registry_closes : Event

-- The task of the mailbox makes a step.
abbrev pub task_step : (Phase → Mailbox → Mailbox) → Option Mailbox → Option Mailbox
task_step f none = none
task_step f (some m) = some (f m.phase m)

unfoldable pub happens : String → Event → World → World
happens conversation_id resumes w = record w {
  mailbox = task_step (resume conversation_id w.turns) w.mailbox;
}
happens conversation_id look_raises w = record w {
  mailbox = task_step (from_place at_look after_failure) w.mailbox;
}
happens conversation_id (handler_returns retry_after) w = record w {
  mailbox = task_step (from_place at_handler (after_handler retry_after)) w.mailbox;
}
happens conversation_id handler_raises w = record w {
  mailbox = task_step (from_place at_handler after_error) w.mailbox;
}
happens conversation_id reported w = record w {
  mailbox = task_step (from_place at_report after_report) w.mailbox;
}
happens conversation_id slept w = record w {
  mailbox = task_step (from_place asleep wake_after) w.mailbox;
}
happens conversation_id (enqueued t) w = record w { turns = w.turns ++ t ∷ []; owed = w.owed + 1 }
happens conversation_id (dequeued turn_id) w = record w { turns = leave_queue turn_id w.turns }
happens conversation_id enqueuer_wakes w = wake (record w { owed = w.owed - 1 })
happens conversation_id anyone_wakes w = wake w
happens conversation_id registry_closes w = close w

unfoldable pub all_happen : String → List Event → World → World
all_happen conversation_id [] w = w
all_happen conversation_id (e ∷ es) w = all_happen conversation_id es (happens conversation_id e w)

-- A new registry on a database; the start-up, which calls `restore`, is one who has yet to call
-- `wake`.
abbrev pub new_world : List QueuedTurn → World
new_world turns = record { registry_closed = false; mailbox = none; turns = turns; owed = 1 }
