-- ===== src/Storage/Turns/Conditions.antt =====
-- storage/repository.py: the tests of `claim_turn`, read as statements about the rows.
use code_xd.Prelude.{
  ◌↔◌, ◌⊎◌, inl, inr, ◌≤◌, ◌≡◌, refl, true, false, not, Option, none, some, List, [], ◌∷◌, String,
  All, any, arith, str_eq, str_eq_iff, opt_is, ap, is_some, Bool-cases,
}
use text.Mathlib.TextPositions.{eq_refl}
use code_xd.Domain.TurnState.{TurnState, is_queued, active}
use code_xd.Storage.Schema.{Turn, Lease, LeaseState, lease_live}
use code_xd.Storage.Turns.{busy, lease_matches_project, supersedes}

-- The lease serves every project, or this one.
pub Serves : Lease → String → Type 0
Serves lease project_id =
    ((lease.scope_kind ≡ "shared") × (lease.scope_key ≡ "shared") × (lease.project_id ≡ none))
    ⊎ ((lease.scope_kind ≡ "project")
        × (lease.scope_key ≡ project_id)
        × (lease.project_id ≡ some project_id))

pub Live : LeaseState → Type 0
Live s = (s ≡ LeaseState.starting) ⊎ (s ≡ LeaseState.ready) ⊎ (s ≡ LeaseState.unhealthy)

pub UnderWay : TurnState → Type 0
UnderWay s = (s ≡ TurnState.starting) ⊎ (s ≡ TurnState.running) ⊎ (s ≡ TurnState.cancelling)

-- A live lease of the scope is of no later generation.
pub NotAfter : Lease → Lease → Type 0
NotAfter lease other =
    other.scope_kind ≡ lease.scope_kind
    → other.scope_key ≡ lease.scope_key
    → Live other.state
    → other.generation ≤ lease.generation

-- Another Turn of the Conversation is not under way.
pub LeavesFree : Turn → Turn → Type 0
LeavesFree row other =
    ¬ (other.id ≡ row.id) → other.conversation_id ≡ row.conversation_id → ¬ (UnderWay other.state)

Live-lease_live : (s : LeaseState) → Live s → lease_live s ≡ true
unfolding Live
Live-lease_live s (inl e) = ground arith
Live-lease_live s (inr (inl e)) = ground arith
Live-lease_live s (inr (inr e)) = ground arith

lease_live-Live : (s : LeaseState) → lease_live s ≡ true → Live s
unfolding Live
lease_live-Live LeaseState.starting h = inl refl
lease_live-Live LeaseState.ready h = inr (inl refl)
lease_live-Live LeaseState.unhealthy h = inr (inr refl)
lease_live-Live LeaseState.stopping h = absurd (cc)
lease_live-Live LeaseState.stopped h = absurd (cc)
lease_live-Live LeaseState.failed h = absurd (cc)

UnderWay-active : (s : TurnState) → UnderWay s → active s ≡ true
unfolding UnderWay
UnderWay-active s (inl e) = ground arith
UnderWay-active s (inr (inl e)) = ground arith
UnderWay-active s (inr (inr e)) = ground arith

active-UnderWay : (s : TurnState) → active s ≡ true → UnderWay s
unfolding UnderWay
active-UnderWay TurnState.queued h = absurd (cc)
active-UnderWay TurnState.starting h = inl refl
active-UnderWay TurnState.running h = inr (inl refl)
active-UnderWay TurnState.cancelling h = inr (inr refl)
active-UnderWay TurnState.completed h = absurd (cc)
active-UnderWay TurnState.failed h = absurd (cc)
active-UnderWay TurnState.cancelled h = absurd (cc)
active-UnderWay TurnState.interrupted h = absurd (cc)

pub queued-state : (s : TurnState) → is_queued s ≡ true → s ≡ TurnState.queued
queued-state s h = ground arith

pub same_option : (o : Option String) (s : String) → (opt_is o s ≡ true) ↔ (o ≡ some s)
same_option none s = (λ h. absurd (cc), λ h. absurd (cc))
same_option (some t) s = (λ h. ap some ((str_eq_iff t s).0 h), λ h. ground (arith, str_eq_iff t s))

absent_option : (o : Option String) → not (is_some o) ≡ true → o ≡ none
absent_option none h = refl
absent_option (some t) h = absurd (cc)

pub matches-Serves : (l : Lease) (p : String) → lease_matches_project l p ≡ true → Serves l p
unfolding lease_matches_project Serves
matches-Serves l p h = elim (Bool-cases (str_eq l.scope_kind "shared")) [
  | inl shared ↦ inl (
    (str_eq_iff l.scope_kind "shared").0 shared,
    (str_eq_iff l.scope_key "shared").0 (ground arith),
    absent_option l.project_id (ground arith),
  )
  | inr own ↦ inr (
    (str_eq_iff l.scope_kind "project").0 (ground arith),
    (str_eq_iff l.scope_key p).0 (ground arith),
    (same_option l.project_id p).0 (ground arith),
  )
]

pub Serves-matches : (l : Lease) (p : String) → Serves l p → lease_matches_project l p ≡ true
unfolding lease_matches_project Serves
Serves-matches l p (inl (kind, key, none_named)) = rw (kind, key, none_named) refl
Serves-matches l p (inr (kind, key, named)) = rw (kind, key, named) (ground (arith, eq_refl p))

-- The tests over the tables, row by row.
pub unsuperseded :
    (lease : Lease) (ls : List Lease)
    → any (supersedes lease lease.generation) ls ≡ false
    → All (NotAfter lease) ls
unfolding NotAfter supersedes
unsuperseded lease [] h = tt
unsuperseded lease (o ∷ ls) h = (
  λ kind key live. ground (
    arith,
    kind,
    key,
    Live-lease_live o.state live,
    eq_refl lease.scope_kind,
    eq_refl lease.scope_key,
  ),
  unsuperseded lease ls (ground arith),
)

pub NotAfter-unsuperseded :
    (lease : Lease) (ls : List Lease)
    → All (NotAfter lease) ls
    → any (supersedes lease lease.generation) ls ≡ false
unfolding NotAfter supersedes
NotAfter-unsuperseded lease [] h = refl
NotAfter-unsuperseded lease (o ∷ ls) (h, rest) = ground (
  arith,
  h,
  str_eq_iff o.scope_kind lease.scope_kind,
  str_eq_iff o.scope_key lease.scope_key,
  lease_live-Live o.state,
  NotAfter-unsuperseded lease ls rest,
)

pub free-LeavesFree :
    (row : Turn) (us : List Turn)
    → busy row.id row.conversation_id us ≡ false
    → All (LeavesFree row) us
unfolding LeavesFree busy
free-LeavesFree row [] h = tt
free-LeavesFree row (u ∷ us) h = (
  λ other same up. ground (
    arith,
    other,
    same,
    UnderWay-active u.state up,
    str_eq_iff u.id row.id,
    eq_refl row.conversation_id,
  ),
  free-LeavesFree row us (ground arith),
)

pub LeavesFree-free :
    (row : Turn) (us : List Turn)
    → All (LeavesFree row) us
    → busy row.id row.conversation_id us ≡ false
unfolding LeavesFree busy
LeavesFree-free row [] h = refl
LeavesFree-free row (u ∷ us) (h, rest) = ground (
  arith,
  h,
  str_eq_iff u.id row.id,
  eq_refl u.id,
  str_eq_iff u.conversation_id row.conversation_id,
  active-UnderWay u.state,
  LeavesFree-free row us rest,
)
