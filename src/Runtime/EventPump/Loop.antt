-- ===== src/Runtime/EventPump/Loop.antt =====
-- runtime/event_pump.py: `EventPump.run`. What happens to the loop is a list: an event comes, the time
-- to flush passes, the stream ends or fails, the pump's task is cancelled. The sink is a function of what it was given before.
use code_xd.Prelude.{
  ℕ, ◌+◌, Bool, true, false, Option, none, some, List, [], ◌∷◌, ◌++◌, String, is_some,
  if◌then◌else◌, leb, Result, ok, err,
}
use code_xd.Python.Numerals.{ℤ, pos, negsuc}
use code_xd.Domain.TurnState.{TurnState}
use code_xd.Runtime.EventPump.{NormalizedEvent, replaced_kind, buffer_key, Builtins}
use code_xd.Runtime.EventPump.Merge.{merge_buffered, buffered_size}

pub record PumpResult : Type 0 where
  pub terminal_state : TurnState
  pub terminal_code : String

-- What is handed to the sink: a provider's event, the interruption of the stream, its lifecycle.
pub data Entry : Type 0 where
  provider : NormalizedEvent → Entry
  stream_interrupted : String → Entry
  stream_lifecycle : Bool → Option String → Entry

-- The sink raises, or answers with the terminal state it recorded and the sequence of the event.
pub data Answer : Type 0 where
  raises : Answer
  recorded : Option (TurnState × String) → Option ℕ → Answer

-- `EventJournalError`, `AdapterError` with its failure's code, `CancelledError`, and any other
-- exception by its class's name.
pub data Raised : Type 0 where
  journal_error : Raised
  adapter_error : String → Raised
  cancelled_error : Raised
  exception : String → Raised

pub data Happening : Type 0 where
  arrives : ℕ → NormalizedEvent → Happening
  times_out : Happening
  ends : Happening
  fails : Raised → Happening
  is_cancelled : Happening

-- How the loop is left: it has ended, returned or raised.
pub data Exit : Type 0 where
  ended : Exit
  returned : PumpResult → Exit
  raised : Raised → Exit

pub record Pump : Type 0 where
  pub buffered : Option NormalizedEvent
  pub flush_deadline : Option ℕ
  pub journal : List Entry
  pub stale_generation : Bool
  pub terminal_notification : Bool

abbrev pub new_pump : List Entry → Pump
new_pump journal = record {
  buffered = none;
  flush_deadline = none;
  journal = journal;
  stale_generation = false;
  terminal_notification = false;
}

-- A part of a round: the pump, and the exit if the loop is left.
abbrev pub Stage : Type 0
Stage = Pump × Option Exit

-- The next part, unless the loop is left.
unfoldable pub and_then : Stage → (Pump → Stage) → Stage
and_then (s, none) k = k s
and_then (s, some exit) k = (s, some exit)

abbrev pub cleared : Pump → Pump
cleared s = record s { buffered = none; flush_deadline = none }

abbrev pub holding : NormalizedEvent → Pump → Pump
holding event s = record s { buffered = some event }

-- `if flush_deadline is None: flush_deadline = loop.time() + flush_seconds`
abbrev pub or_deadline : ℕ → Option ℕ → Option ℕ
or_deadline t none = some t
or_deadline t (some u) = some u

module _ (lib : Builtins) (sink : List Entry → Entry → Answer) (flush_ms : ℕ) where
  -- `persist`, with the sink's answer. The sequence is looked at before the terminal state.
  abbrev pub answered : NormalizedEvent → Answer → Pump → Stage
  answered event raises s = (s, some (raised journal_error))
  answered event (recorded terminal none) s =
      (record s { journal = s.journal ++ provider event ∷ []; stale_generation = true }, none)
  answered event (recorded none (some sequence)) s =
      (record s { journal = s.journal ++ provider event ∷ [] }, none)
  answered event (recorded (some (state, code)) (some sequence)) s = (
    record s { journal = s.journal ++ provider event ∷ []; terminal_notification = true },
    some (returned record { terminal_state = state; terminal_code = code }),
  )

  unfoldable pub persist : NormalizedEvent → Pump → Stage
  persist event s = answered event (sink s.journal (provider event)) s

  -- The event that is held, if any, is persisted.
  abbrev pub flush_held : Option NormalizedEvent → Pump → Stage
  flush_held none s = (s, none)
  flush_held (some event) s = and_then (persist event s) (λ t. (cleared t, none))

  unfoldable pub flush : Pump → Stage
  flush s = flush_held s.buffered s

  -- A large text is persisted at once; a diff, a plan or a usage is only ever the last one.
  unfoldable pub too_large : ℤ → Bool
  too_large (pos n) = leb 65536 n
  too_large (negsuc n) = false

  abbrev pub measured : Result String ℤ → Pump → Stage
  measured (ok size) s = if too_large size then flush s else (s, none)
  measured (err class) s = (s, some (raised (exception class)))

  unfoldable pub keep : ℕ → NormalizedEvent → Pump → Stage
  keep now event s =
      let held = record s {
        buffered = some event;
        flush_deadline = or_deadline (now + flush_ms) s.flush_deadline;
      } in
      if replaced_kind event.kind then (held, none) else measured (buffered_size lib event) held

  -- The event after what is held: merged into it, or kept once that is persisted.
  abbrev pub joined : ℕ → NormalizedEvent → Result String (Option NormalizedEvent) → Pump → Stage
  joined now event (ok (some merged)) s = keep now merged s
  joined now event (ok none) s = and_then (flush s) (keep now event)
  joined now event (err class) s = (s, some (raised (exception class)))

  abbrev pub absorb : ℕ → NormalizedEvent → Option NormalizedEvent → Pump → Stage
  absorb now event none s = keep now event s
  absorb now event (some held) s = joined now event (merge_buffered lib held event) s

  abbrev pub timed_out : Option NormalizedEvent → Pump → Stage
  timed_out none s = (s, some (raised (exception "AssertionError")))
  timed_out (some held) s = flush s

  -- One round of the loop.
  unfoldable pub round : Happening → Pump → Stage
  round (arrives now event) s =
      if is_some (buffer_key event)
      then absorb now event s.buffered s
      else and_then (flush s) (persist event)
  round times_out s = timed_out s.buffered s
  round ends s = and_then (flush s) (λ t. (t, some ended))
  round (fails error) s = and_then (flush s) (λ t. (t, some (raised error)))
  round is_cancelled s = (s, some (raised cancelled_error))

  -- The rounds, until the loop is left or what happened is used up.
  unfoldable pub rounds : List Happening → Pump → Stage
  rounds [] s = (s, none)
  rounds (h ∷ hs) s = and_then (round h s) (rounds hs)
