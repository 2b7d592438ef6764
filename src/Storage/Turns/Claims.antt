-- ===== src/Storage/Turns/Claims.antt =====
-- `attach_turn_revision`, `claim_turn` and `mark_turn_running` change one row lawfully.
use code_xd.Prelude.{
  ℕ, true, false, not, some, String, ◌≡◌, refl, inl, inr, ap, ok, from_some, from_guard, arith, any,
}
use code_xd.Domain.TurnState.{starting, is_queued, transition_allowed}
use code_xd.Storage.Schema.{
  Turn, Conversation, Lease, Db, turn_key, find_turn, update_turn, find_conversation, find_revision,
  find_lease, find-key,
}
use code_xd.Storage.Turns.{
  attach_turn_revision, claim_turn, claimed, mark_turn_running, identified, running_target, busy,
  targets_active, lease_valid, supersedes,
}
use code_xd.Storage.Turns.Rows.{Change, one_row}

module _ (turn_id lease_id : String) (generation now : ℕ) (d : Db) where
  -- What a claim that succeeds has checked.
  pub record Claimable (row : Turn) : Type 0 where
    pub stored : find_turn turn_id d.turns ≡ some row
    pub queued : is_queued row.state ≡ true
    pub conversation : Conversation
    pub of_conversation : find_conversation row.conversation_id d.conversations ≡ some conversation
    pub revision_id : String
    pub of_revision : row.thread_revision_id ≡ some revision_id
    pub revision_is_active :
        targets_active conversation (find_revision revision_id d.revisions) row revision_id ≡ true
    pub lease : Lease
    pub of_lease : find_lease lease_id d.leases ≡ some lease
    pub lease_is_valid : lease_valid lease generation conversation.project_id ≡ true
    pub newest : any (supersedes lease generation) d.leases ≡ false
    pub free : busy turn_id row.conversation_id d.turns ≡ false

  pub record Claim (d' : Db) (t : Turn) : Type 0 where
    pub row : Turn
    pub claimable : Claimable row
    pub returned : t ≡ claimed lease_id generation now row
    pub written :
        d' ≡ record d { turns = update_turn turn_id (claimed lease_id generation now) d.turns }

  pub claim_turn-Claim :
      (d' : Db) (t : Turn) → claim_turn turn_id lease_id generation now d ≡ ok (d', t) → Claim d' t
  unfolding claim_turn
  claim_turn-Claim d' t h = from_some (find_turn turn_id d.turns) _ _ h λ row found h1.
      from_some (find_conversation row.conversation_id d.conversations) _ _ h1
        λ conversation joined h2.
          from_guard (transition_allowed row.state starting) _ _ h2 λ movable h3.
            from_some row.thread_revision_id _ _ h3 λ revision_id pinned h4.
              from_guard
                (targets_active conversation (find_revision revision_id d.revisions) row
                  revision_id)
                _ _ h4
                λ current h5. from_some (find_lease lease_id d.leases) _ _ h5 λ lease leased h6.
                  from_guard (lease_valid lease generation conversation.project_id) _ _ h6
                    λ valid h7.
                      from_guard (not (any (supersedes lease generation) d.leases)) _ _ h7
                        λ newest h8.
                          from_guard (not (busy turn_id row.conversation_id d.turns)) _ _ h8
                            λ free h9. record {
                              row = row;
                              claimable = record {
                                stored = found;
                                queued = ground arith;
                                conversation = conversation;
                                of_conversation = joined;
                                revision_id = revision_id;
                                of_revision = pinned;
                                revision_is_active = current;
                                lease = lease;
                                of_lease = leased;
                                lease_is_valid = valid;
                                newest = ground arith;
                                free = ground arith;
                              };
                              returned = ground arith;
                              written = ground arith;
                            }

pub Claim-claim_turn :
    (turn_id lease_id : String) (generation now : ℕ) (d d' : Db) (t : Turn)
    → Claim turn_id lease_id generation now d d' t
    → claim_turn turn_id lease_id generation now d ≡ ok (d', t)
unfolding claim_turn targets_active
Claim-claim_turn turn_id lease_id generation now d d' t c =
    let p = c.claimable in
    let movable : transition_allowed c.row.state starting ≡ true = ground arith in
    rw
      (
        p.stored, p.of_conversation, movable, p.of_revision, p.revision_is_active, p.of_lease,
        p.lease_is_valid, p.newest, p.free,
      )
      (ground arith)

pub claim_turn-Change :
    (turn_id lease_id : String) (generation now : ℕ) (d d' : Db) (t : Turn)
    → claim_turn turn_id lease_id generation now d ≡ ok (d', t)
    → Change d d'
claim_turn-Change turn_id lease_id generation now d d' t h =
    let c = claim_turn-Claim turn_id lease_id generation now d d' t h in
    let r = c.row in
    let p = c.claimable in
    let same_id : r.id ≡ turn_id =
      find-key turn_key turn_id (λ r. r) (λ r. refl) d.turns r p.stored in
    one_row turn_id r (claimed lease_id generation now) (λ t. refl) p.stored same_id
      (ap (λ (e : Db). e.turns) c.written)
      (record {
        same_conversation = refl;
        moves = ground arith;
        keeps_row = λ k. refl;
        keeps_spent = λ k. ground arith;
        exclusive = λ k. inr (rw same_id p.free);
      })

pub mark_turn_running-Change :
    (turn_id provider_turn_id : String) (d d' : Db) (t : Turn)
    → mark_turn_running turn_id provider_turn_id d ≡ ok (d', t)
    → Change d d'
unfolding mark_turn_running running_target
mark_turn_running-Change turn_id provider_turn_id d d' t h =
    from_some (find_turn turn_id d.turns) _ _ h λ row found h1.
      from_some (running_target row.state) _ _ h1 λ target leads h2.
        let same_id : row.id ≡ turn_id =
          find-key turn_key turn_id (λ r. r) (λ r. refl) d.turns row found in
        one_row turn_id row (identified target provider_turn_id) (λ t. refl) found same_id
          (ground arith)
          (record {
            same_conversation = refl;
            moves = ground arith;
            keeps_row = λ k. ground arith;
            keeps_spent = λ k. ground arith;
            exclusive = λ k. ground arith;
          })

pub attach_turn_revision-Change :
    (turn_id revision_id : String) (d d' : Db)
    → attach_turn_revision turn_id revision_id d ≡ ok d'
    → Change d d'
unfolding attach_turn_revision
attach_turn_revision-Change turn_id revision_id d d' h =
    from_some (find_turn turn_id d.turns) _ _ h λ row found h1.
      one_row turn_id row (λ t. record t { thread_revision_id = some revision_id }) (λ t. refl)
        found (find-key turn_key turn_id (λ r. r) (λ r. refl) d.turns row found) (ground arith)
        (record {
          same_conversation = refl;
          moves = inl refl;
          keeps_row = λ k. ground arith;
          keeps_spent = λ k. ground arith;
          exclusive = λ k. inl k;
        })
