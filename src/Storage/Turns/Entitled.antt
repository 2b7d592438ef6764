-- ===== src/Storage/Turns/Entitled.antt =====
-- `claim_turn` against a description of what entitles a lease to a Turn, in which no test of the code
-- occurs.
use code_xd.Prelude.{
  ◌↔◌, ℕ, ◌≡◌, refl, subst, true, false, Option, none, some, String, All, any, ok, arith,
  str_eq_iff, ==_iff,
}
use text.Mathlib.TextPositions.{eq_refl}
use code_xd.Domain.TurnState.{TurnState}
use code_xd.Storage.Schema.{
  Turn, Conversation, ConversationState, Revision, RevisionState, Lease, LeaseState, Db, find_turn,
  update_turn, find_conversation, find_revision, find_lease, find-key, turn_key,
}
use code_xd.Storage.Turns.{
  claim_turn, busy, targets_active, lease_valid, supersedes, revision_matches,
}
use code_xd.Storage.Turns.Conditions.{
  Serves, NotAfter, LeavesFree, queued-state, same_option, matches-Serves, Serves-matches,
  unsuperseded, NotAfter-unsuperseded, free-LeavesFree, LeavesFree-free,
}
use code_xd.Storage.Turns.Claims.{Claimable, claim_turn-Claim, Claim-claim_turn}

module _ (turn_id lease_id : String) (generation : ℕ) (d : Db) where
  -- The lease is entitled to the Turn.
  pub record Entitled (row : Turn) : Type 0 where
    pub stored : find_turn turn_id d.turns ≡ some row
    pub waits : row.state ≡ TurnState.queued
    pub conversation : Conversation
    pub of_conversation : find_conversation row.conversation_id d.conversations ≡ some conversation
    pub is_open : conversation.state ≡ ConversationState.active
    pub revision : Revision
    pub revision_id : String
    pub pinned : row.thread_revision_id ≡ some revision_id
    pub current : conversation.active_revision_id ≡ some revision_id
    pub of_revision : find_revision revision_id d.revisions ≡ some revision
    pub same_conversation : revision.conversation_id ≡ row.conversation_id
    pub in_use : revision.state ≡ RevisionState.active
    pub lease : Lease
    pub of_lease : find_lease lease_id d.leases ≡ some lease
    pub this_generation : lease.generation ≡ generation
    pub is_ready : lease.state ≡ LeaseState.ready
    pub serves : Serves lease conversation.project_id
    pub latest : All (NotAfter lease) d.leases
    pub alone : All (LeavesFree row) d.turns

  targets-current :
      (c : Conversation) (o : Option Revision) (row : Turn) (i : String)
      → targets_active c o row i ≡ true
      → (c.state ≡ ConversationState.active)
        × (c.active_revision_id ≡ some i)
        × (r : Revision) × (o ≡ some r)
        × (r.conversation_id ≡ row.conversation_id)
        × (r.state ≡ RevisionState.active)
  unfolding targets_active revision_matches
  targets-current c none row i h = absurd (ground arith)
  targets-current c (some r) row i h = (
    ground arith,
    (same_option c.active_revision_id i).0 (ground arith),
    r,
    refl,
    (str_eq_iff r.conversation_id row.conversation_id).0 (ground arith),
    ground arith,
  )

  claimable-Entitled :
      (now : ℕ) (row : Turn) → Claimable turn_id lease_id generation now d row → Entitled row
  unfolding lease_valid supersedes
  claimable-Entitled now row c =
      let (is_open, current, revision, found, same, in_use) =
        targets-current c.conversation (find_revision c.revision_id d.revisions) row c.revision_id
          c.revision_is_active in
      let of_generation : c.lease.generation ≡ generation =
        (==_iff c.lease.generation generation).0 (ground (arith, c.lease_is_valid)) in
      let named : row.id ≡ turn_id =
        find-key turn_key turn_id (λ r. r) (λ r. refl) d.turns row c.stored in
      record {
        stored = c.stored;
        waits = queued-state row.state c.queued;
        conversation = c.conversation;
        of_conversation = c.of_conversation;
        is_open = is_open;
        revision = revision;
        revision_id = c.revision_id;
        pinned = c.of_revision;
        current = current;
        of_revision = found;
        same_conversation = same;
        in_use = in_use;
        lease = c.lease;
        of_lease = c.of_lease;
        this_generation = of_generation;
        is_ready = ground (arith, c.lease_is_valid);
        serves =
            matches-Serves c.lease c.conversation.project_id (ground (arith, c.lease_is_valid));
        latest = unsuperseded c.lease d.leases (rw of_generation c.newest);
        alone = free-LeavesFree row d.turns (rw named c.free);
      }

  Entitled-claimable :
      (now : ℕ) (row : Turn) → Entitled row → Claimable turn_id lease_id generation now d row
  unfolding lease_valid targets_active revision_matches
  Entitled-claimable now row c =
      let named : row.id ≡ turn_id =
        find-key turn_key turn_id (λ r. r) (λ r. refl) d.turns row c.stored in
      record {
        stored = c.stored;
        queued = rw c.waits refl;
        conversation = c.conversation;
        of_conversation = c.of_conversation;
        revision_id = c.revision_id;
        of_revision = c.pinned;
        revision_is_active =
            rw (c.is_open, c.current, c.of_revision, c.same_conversation, c.in_use)
              (ground (arith, eq_refl c.revision_id, eq_refl row.conversation_id));
        lease = c.lease;
        of_lease = c.of_lease;
        lease_is_valid = ground (
          arith,
          ==_iff c.lease.generation generation,
          c.this_generation,
          c.is_ready,
          Serves-matches c.lease c.conversation.project_id c.serves,
        );
        newest =
            subst (λ g. any (supersedes c.lease g) d.leases ≡ false) c.this_generation
              (NotAfter-unsuperseded c.lease d.leases c.latest);
        free =
            subst (λ i. busy i row.conversation_id d.turns ≡ false) named
              (LeavesFree-free row d.turns c.alone);
      }

-- `claim_turn` returns exactly when the Turn is stored and queued, its Conversation exists and is
-- active, its revision is the active one of the Conversation, belongs to it and is itself active, the
-- lease exists, has this generation, is ready and serves the project (or all), each lease of its scope
-- that is starting, ready or unhealthy is of no later generation, and no other Turn of the Conversation
-- is starting, running or being cancelled; what it returns then is that row, starting, with the lease,
-- the generation and the time in it, and of the database it changes that row alone, in the same way.
pub claim_turn_iff :
    (turn_id lease_id : String) (generation now : ℕ) (d d' : Db) (t : Turn)
    → (claim_turn turn_id lease_id generation now d ≡ ok (d', t)) ↔ (
        (row : Turn) × Entitled turn_id lease_id generation d row
        × (t ≡ record row {
          state = TurnState.starting;
          runtime_lease_id = some lease_id;
          runtime_generation = some generation;
          started_at = some now;
        })
        × (d' ≡ record d {
          turns =
              update_turn turn_id
                (λ r. record r {
                  state = TurnState.starting;
                  runtime_lease_id = some lease_id;
                  runtime_generation = some generation;
                  started_at = some now;
                })
                d.turns;
        }))
claim_turn_iff turn_id lease_id generation now d d' t = (
  λ h.
      let c = claim_turn-Claim turn_id lease_id generation now d d' t h in
      (
        c.row,
        claimable-Entitled turn_id lease_id generation d now c.row c.claimable,
        c.returned,
        c.written,
      ),
  λ (row, entitled, returned, written).
      Claim-claim_turn turn_id lease_id generation now d d' t (record {
        row = row;
        claimable = Entitled-claimable turn_id lease_id generation d now row entitled;
        returned = returned;
        written = written;
      }),
)
