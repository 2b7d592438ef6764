-- ===== src/Storage/Turns/Trace.antt =====
-- Any sequence of the operations on Turns, and what holds after it.
use code_xd.Prelude.{
  Result, ℕ, ◌+◌, ◌≤◌, ◌≡◌, refl, sym, ◌∙◌, subst, inl, inr, Bool, true, false, ◌&&◌, Option, some,
  List, [], ◌∷◌, String, str_eq, str_eq_iff, if◌then◌else◌, Bool-cases, arith, ok,
}
use code_xd.Domain.TurnState.{TurnState, InterruptOrigin, terminal, active, Moves, Moves-terminal}
use code_xd.Storage.Schema.{
  Error, Turn, Db, turn_key, find_turn, find, UniqueKeys, key_count, total, find-update,
  UniqueKeys-update, total-update,
}
use code_xd.Storage.Turns.{attach_turn_revision, claim_turn, mark_turn_running, busy}
use code_xd.Storage.Turns.Rows.{Lawful, Change, nothing, one_row, row_ok, spent}
use code_xd.Storage.Turns.Claims.{
  attach_turn_revision-Change, claim_turn-Change, mark_turn_running-Change,
}
use code_xd.Storage.Turns.Interrupts.{
  InterruptOutcome, claim_turn_interrupt, resolve_turn_interrupt,
}
use code_xd.Storage.Turns.Terminal.{terminal_turn, interrupt_unreplayable_schedule_turn}
use code_xd.Storage.Turns.Cancel.{request_cancel}
use code_xd.Storage.Turns.Endings.{
  terminal_turn-Change, interrupt_unreplayable-Change, claim_turn_interrupt-Change,
  resolve_turn_interrupt-Change, request_cancel-Change,
}

-- One operation that returns; one that raises changes nothing.
pub data Step (d d' : Db) : Type 0 where
  attaches :
      (turn_id revision_id : String)
      → attach_turn_revision turn_id revision_id d ≡ ok d'
      → Step d d'
  claims :
      (turn_id lease_id : String) (generation now : ℕ) (t : Turn)
      → claim_turn turn_id lease_id generation now d ≡ ok (d', t)
      → Step d d'
  runs :
      (turn_id provider_turn_id : String) (t : Turn)
      → mark_turn_running turn_id provider_turn_id d ≡ ok (d', t)
      → Step d d'
  cancels :
      (turn_id : String) (origin : InterruptOrigin) (command : Option String) (now : ℕ)
      (projected : Result {0, 0} Error Unit) (t : Turn)
      → request_cancel turn_id origin command now projected d ≡ ok (d', t)
      → Step d d'
  interrupts :
      (turn_id : String) (b : Bool) → claim_turn_interrupt turn_id d ≡ ok (d', b) → Step d d'
  resolves :
      (turn_id : String) (outcome : InterruptOutcome) (code : String) (t : Turn)
      → resolve_turn_interrupt turn_id outcome code d ≡ ok (d', t)
      → Step d d'
  ends :
      (turn_id : String) (target : TurnState) (code : String) (error_code : Option String) (now : ℕ)
      (t : Turn)
      → terminal_turn turn_id target code error_code now d ≡ ok (d', t)
      → Step d d'
  gives_up :
      (turn_id reason : String) (now : ℕ) (t : Turn)
      → interrupt_unreplayable_schedule_turn turn_id reason now d ≡ ok (d', t)
      → Step d d'

pub data Reach (d : Db) : Db → Type 0 where
  here : Reach d d
  next : {e f : Db} → Reach d e → Step e f → Reach d f

Step-Change : {d d' : Db} → Step d d' → Change d d'
Step-Change {d} {d'} (attaches i r h) = attach_turn_revision-Change i r d d' h
Step-Change {d} {d'} (claims i l g n t h) = claim_turn-Change i l g n d d' t h
Step-Change {d} {d'} (runs i p t h) = mark_turn_running-Change i p d d' t h
Step-Change {d} {d'} (cancels i o c n p t h) = request_cancel-Change i o c n p d d' t h
Step-Change {d} {d'} (interrupts i b h) = claim_turn_interrupt-Change i d d' b h
Step-Change {d} {d'} (resolves i o c t h) = resolve_turn_interrupt-Change i o c d d' t h
Step-Change {d} {d'} (ends i g c e n t h) = terminal_turn-Change i g c e n d d' t h
Step-Change {d} {d'} (gives_up i r n t h) = interrupt_unreplayable-Change i r n d d' t h

-- 1 for an active Turn of the Conversation.
abbrev pub active_in : String → Turn → ℕ
active_in c t = if active t.state && str_eq t.conversation_id c then 1 else 0

pub record IsValid (d : Db) : Type 0 where
  pub keys : UniqueKeys turn_key d.turns
  pub exclusive : (c : String) → total (active_in c) d.turns ≤ 1
  pub rows : (j : String) (t : Turn) → find_turn j d.turns ≡ some t → row_ok t ≡ true

busy-absent :
    (i c : String) (turns : List Turn)
    → key_count turn_key i turns ≡ 0
    → busy i c turns ≡ false
    → total (active_in c) turns ≡ 0
unfolding busy
busy-absent i c [] e b = refl
busy-absent i c (t ∷ turns) e b = ground (arith, busy-absent i c turns)

-- With no other active Turn of the Conversation, and this one inactive, there is none.
busy-total :
    (i c : String) (turns : List Turn) (r : Turn)
    → find_turn i turns ≡ some r
    → key_count turn_key i turns ≤ 1
    → active r.state ≡ false
    → busy i c turns ≡ false
    → total (active_in c) turns ≡ 0
unfolding busy find
busy-total i c [] r f k a b = cc
busy-total i c (t ∷ turns) r f k a b = ground (arith, busy-absent i c turns, busy-total i c turns r)

Lawful-exclusive :
    (c : String) (turns : List Turn) (r s : Turn)
    → find_turn r.id turns ≡ some r
    → key_count turn_key r.id turns ≤ 1
    → Lawful turns r s
    → total (active_in c) turns ≤ 1
    → total (active_in c) turns + active_in c s ≤ 1 + active_in c r
Lawful-exclusive c turns r s f k l h = elim (Bool-cases (active s.state)) [
  | inr idle ↦ ground arith
  | inl busy_now ↦ elim (Bool-cases (active r.state)) [
    | inl before ↦ ground (arith, l.same_conversation)
    | inr inactive ↦ ground (
      arith,
      l.same_conversation,
      l.exclusive busy_now,
      str_eq_iff r.conversation_id c,
      busy-total r.id r.conversation_id turns r,
    )
  ]
]

Change-exclusive :
    {d d' : Db} → Change d d' → IsValid d → (c : String) → total (active_in c) d'.turns ≤ 1
Change-exclusive (nothing e) v c = rw e (v.exclusive c)
Change-exclusive {d} {d'} (one_row i r f keeps found same_id e l) v c = rw e (
    omega (
      arith,
      total-update turn_key i f keeps (active_in c) d.turns r found (v.keys i),
      Lawful-exclusive c d.turns r (f r)
          (subst (λ k. find_turn k d.turns ≡ some r) (sym same_id) found) (v.keys r.id) l
          (v.exclusive c),
    ))

-- A row after a change is a row from before, changed lawfully or not at all.
pub record Descends (r s : Turn) : Type 0 where
  pub moves : Moves r.state s.state
  pub same_conversation : s.conversation_id ≡ r.conversation_id
  pub keeps_spent : spent r ≡ true → spent s ≡ true

Change-find :
    {d d' : Db}
    → Change d d'
    → (j : String) (t : Turn) → find_turn j d.turns ≡ some t
    → (s : Turn) × (find_turn j d'.turns ≡ some s) × Descends t s
Change-find (nothing e) j t h =
    (t, rw e h, record { moves = inl refl; same_conversation = refl; keeps_spent = λ k. k })
Change-find {d} {d'} (one_row i r f keeps found same_id e l) j t h =
    elim (Bool-cases (str_eq i j)) [
      | inl here_too ↦
          let same : t ≡ r = ground (arith, str_eq_iff i j) in
          (
            f r,
            rw (e, find-update turn_key i f keeps j d.turns, here_too, h, same),
            record {
              moves = rw same l.moves;
              same_conversation = rw same l.same_conversation;
              keeps_spent = rw same l.keeps_spent;
            },
          )
      | inr elsewhere ↦ (
        t,
        rw (e, find-update turn_key i f keeps j d.turns, elsewhere) h,
        record { moves = inl refl; same_conversation = refl; keeps_spent = λ k. k },
      )
    ]

Change-rows :
    {d d' : Db}
    → Change d d'
    → IsValid d
    → (j : String) (t : Turn) → find_turn j d'.turns ≡ some t
    → row_ok t ≡ true
Change-rows (nothing e) v j t h = v.rows j t (rw e at h)
Change-rows {d} {d'} (one_row i r f keeps found same_id e l) v j t h =
    elim (Bool-cases (str_eq i j)) [
      | inl here_too ↦
          let at_j : find_turn j d.turns ≡ some r =
            subst (λ k. find_turn k d.turns ≡ some r) ((str_eq_iff i j).0 here_too) found in
          let updated : find_turn j d'.turns ≡ some (f r) =
            rw (e, find-update turn_key i f keeps j d.turns, here_too, at_j) in
          let same : f r ≡ t = ground arith in
          subst (λ x. row_ok x ≡ true) same (l.keeps_row (v.rows i r found))
      | inr elsewhere ↦
          v.rows j t (rw (e, find-update turn_key i f keeps j d.turns, elsewhere) at h)
    ]

Change-keys : {d d' : Db} → Change d d' → IsValid d → UniqueKeys turn_key d'.turns
Change-keys (nothing e) v = rw e v.keys
Change-keys {d} (one_row i r f keeps found same_id e l) v =
    rw e (UniqueKeys-update turn_key i f keeps d.turns v.keys)

Step-IsValid : {d d' : Db} → Step d d' → IsValid d → IsValid d'
Step-IsValid s v =
    let change = Step-Change s in
    record {
      keys = Change-keys change v;
      exclusive = Change-exclusive change v;
      rows = Change-rows change v;
    }

-- From a valid table, whatever the operations: the keys stay unique, no Conversation ever has two
-- active Turns, and each row holds what its state needs.
pub Reach-IsValid : {d e : Db} → Reach d e → IsValid d → IsValid e
Reach-IsValid here v = v
Reach-IsValid (next r s) v = Step-IsValid s (Reach-IsValid r v)

-- A Turn moves in one operation only along the table of transitions, and stays in its Conversation.
pub Step-Descends :
    {d d' : Db} (s : Step d d') (j : String) (t : Turn)
    → find_turn j d.turns ≡ some t
    → (u : Turn) × (find_turn j d'.turns ≡ some u) × Descends t u
Step-Descends s = Change-find (Step-Change s)

-- A Turn that has ended keeps its state, whatever the operations.
pub Reach-terminal :
    {d e : Db}
    → Reach d e
    → (j : String) (t : Turn) → find_turn j d.turns ≡ some t
    → terminal t.state ≡ true
    → (u : Turn) × (find_turn j e.turns ≡ some u) × (u.state ≡ t.state)
Reach-terminal here j t h over = (t, h, refl)
Reach-terminal (next r s) j t h over =
    let (u, stored, same) = Reach-terminal r j t h over in
    let (w, stored', descends) = Step-Descends s j u stored in
    (w, stored', Moves-terminal u.state w.state (rw same over) descends.moves ∙ same)

pub Reach-spent :
    {d e : Db}
    → Reach d e
    → (j : String) (t : Turn) → find_turn j d.turns ≡ some t
    → spent t ≡ true
    → (u : Turn) × (find_turn j e.turns ≡ some u) × (spent u ≡ true)
Reach-spent here j t h over = (t, h, over)
Reach-spent (next r s) j t h over =
    let (u, stored, same) = Reach-spent r j t h over in
    let (w, stored', descends) = Step-Descends s j u stored in
    (w, stored', descends.keeps_spent same)
