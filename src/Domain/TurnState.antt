-- ===== src/Domain/TurnState.antt =====
-- domain/turns.py: the states of a Turn and the table of their transitions.
use code_xd.Prelude.{Bool, true, false, ◌≡◌, ◌⊎◌, inl, inr, arith}

pub data TurnState : Type 0 where
  queued starting running cancelling completed failed cancelled interrupted : TurnState

pub data TurnSource : Type 0 where
  discord schedule : TurnSource

pub data InterruptOrigin : Type 0 where
  user shutdown runtime : InterruptOrigin

-- The property `terminal`.
abbrev pub terminal : TurnState → Bool
terminal completed = true
terminal failed = true
terminal cancelled = true
terminal interrupted = true
terminal _ = false

-- `target in _TRANSITIONS[current]`
abbrev pub transition_allowed : TurnState → TurnState → Bool
transition_allowed queued starting = true
transition_allowed queued cancelled = true
transition_allowed queued interrupted = true
transition_allowed starting running = true
transition_allowed starting failed = true
transition_allowed starting interrupted = true
transition_allowed starting cancelling = true
transition_allowed running running = true
transition_allowed running cancelling = true
transition_allowed running completed = true
transition_allowed running failed = true
transition_allowed running interrupted = true
transition_allowed cancelling cancelled = true
transition_allowed cancelling completed = true
transition_allowed cancelling failed = true
transition_allowed cancelling interrupted = true
transition_allowed _ _ = false

-- The states that the index `one_active_turn_per_conversation` covers.
abbrev pub active : TurnState → Bool
active starting = true
active running = true
active cancelling = true
active _ = false

abbrev pub is_queued : TurnState → Bool
is_queued queued = true
is_queued _ = false

-- A state that stays, or moves along the table.
abbrev pub Moves : TurnState → TurnState → Type 0
Moves s t = (s ≡ t) ⊎ (transition_allowed s t ≡ true)

pub Moves-terminal : (s t : TurnState) → terminal s ≡ true → Moves s t → t ≡ s
Moves-terminal s t h (inl e) = ground arith
Moves-terminal s t h (inr e) = ground arith
