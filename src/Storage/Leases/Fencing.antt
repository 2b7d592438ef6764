-- ===== src/Storage/Leases/Fencing.antt =====
-- What a lease that was replaced, or left service, can no longer do.
use code_xd.Prelude.{
  ◌<◌, ℕ, ◌+◌, ◌≡◌, sym, Bool, true, false, not, Option, some, List, [], ◌∷◌, ◌++◌, String, arith,
  any, ==_iff, is_ok, never_ok, ok, ap, is_some, from_guard, ok-injective,
}
use text.Mathlib.TextPositions.{eq_refl}
use code_xd.Storage.Schema.{lease_live, Lease, Db, find, find_lease, find-append}
use code_xd.Storage.Turns.{claim_turn, supersedes, lease_valid}
use code_xd.Storage.Turns.Claims.{claim_turn-Claim}
use code_xd.Storage.Leases.{create_runtime_lease, new_lease, last_generation, scope_ok}
use code_xd.Storage.Leases.Rows.{lease_key, serving, Reach}
use code_xd.Storage.Leases.Service.{Retired, Reach-Retired, Reach-SameLease, last_generation-bound}

any-find :
    (p : Lease → Bool) (j : String) (ls : List Lease) (l : Lease)
    → find lease_key j ls ≡ some l
    → p l ≡ true
    → any p ls ≡ true
unfolding find
any-find p j [] l f h = cc
any-find p j (m ∷ ls) l f h = ground (arith, any-find p j ls l)

lease_valid-generation :
    (l : Lease) (g : ℕ) (p : String) → lease_valid l g p ≡ true → l.generation ≡ g
unfolding lease_valid
lease_valid-generation l g p h = ground (arith, ==_iff l.generation g)

pub lease_valid-serving :
    (l : Lease) (g : ℕ) (p : String) → lease_valid l g p ≡ true → serving l.state ≡ true
unfolding lease_valid
lease_valid-serving l g p h = ground arith

-- A lease that was just created is found, and is newer than each lease of its scope before it.
create-newest :
    (kind key : String) (p : Option String) (environment id : String) (now : ℕ) (new old : Lease)
    (d d' : Db) (old_id : String)
    → create_runtime_lease kind key p environment id now d ≡ ok (d', new)
    → find_lease old_id d.leases ≡ some old
    → old.scope_key ≡ key
    → (find_lease id d'.leases ≡ some new)
      × (find_lease old_id d'.leases ≡ some old)
      × (new.scope_kind ≡ kind)
      × (new.scope_key ≡ key)
      × (old.generation < new.generation)
unfolding create_runtime_lease
create-newest kind key p environment id now new old d d' old_id h f s =
    from_guard (scope_ok kind key p) _ _ h λ scoped h1.
      from_guard (not (is_some (find_lease id d.leases))) _ _ h1 λ absent h2.
        let fresh = new_lease id kind key p environment (last_generation key d.leases + 1) now in
        let rows : d.leases ++ fresh ∷ [] ≡ d'.leases =
          ap (λ (q : Db × Lease). q.0.leases) (ok-injective h2) in
        let it : fresh ≡ new = ap (λ (q : Db × Lease). q.1) (ok-injective h2) in
        (
          ground (arith, rows, it, eq_refl id, find-append lease_key id d.leases fresh),
          ground (arith, rows, f, find-append lease_key old_id d.leases fresh),
          sym (ap (λ (l : Lease). l.scope_kind) it),
          sym (ap (λ (l : Lease). l.scope_key) it),
          ground (
            arith,
            ap (λ (l : Lease). l.generation) it,
            last_generation-bound key old_id d.leases old f s,
          ),
        )

-- Once a lease is created for a scope, no Turn can be claimed under an older lease of that scope,
-- whatever generation the claim names and whatever the operations on the leases since then, as long
-- as the newer lease is starting, ready or unhealthy.
pub claim_turn-after_create :
    (kind key : String) (p : Option String) (environment id : String) (now : ℕ)
    (new old latest : Lease) (d d' : Db) {e : Db} (old_id turn_id : String) (generation later : ℕ)
    → create_runtime_lease kind key p environment id now d ≡ ok (d', new)
    → find_lease old_id d.leases ≡ some old
    → old.scope_kind ≡ kind
    → old.scope_key ≡ key
    → Reach d' e
    → find_lease id e.leases ≡ some latest
    → lease_live latest.state ≡ true
    → is_ok (claim_turn turn_id old_id generation later e) ≡ false
unfolding supersedes
claim_turn-after_create kind key p environment id now new old latest d d' {e} old_id turn_id g later
      h f k s r at live =
    let (new_at, old_at, new_kind, new_key, newer) =
      create-newest kind key p environment id now new old d d' old_id h f s in
    let (m, m_at, same_new) = Reach-SameLease r id new new_at in
    let (o, o_at, same_old) = Reach-SameLease r old_id old old_at in
    never_ok (claim_turn turn_id old_id g later e) (λ q done.
      let claim = claim_turn-Claim turn_id old_id g later e q.0 q.1 done in
      let c = claim.claimable in
      let named : c.lease.generation ≡ g =
        lease_valid-generation c.lease g c.conversation.project_id c.lease_is_valid in
      let it : c.lease ≡ o = ground (arith, c.of_lease, o_at) in
      let that : latest ≡ m = ground (arith, at, m_at) in
      let kinds : latest.scope_kind ≡ c.lease.scope_kind =
        ground (arith, that, it, same_new.same_kind, same_old.same_kind, new_kind, k) in
      let keys : latest.scope_key ≡ c.lease.scope_key =
        ground (arith, that, it, same_new.same_scope, same_old.same_scope, new_key, s) in
      let above : g < latest.generation =
        ground
          (arith, that, it, named, same_new.same_generation, same_old.same_generation, newer) in
      let over : supersedes c.lease g latest ≡ true =
        ground (arith, kinds, keys, eq_refl c.lease.scope_kind, eq_refl c.lease.scope_key) in
      cc (c.newest, any-find (supersedes c.lease g) id e.leases latest at over))

-- A lease that has left service never has a Turn claimed under it again, whatever the operations on
-- the leases.
pub claim_turn-Retired :
    {d d' : Db} (r : Reach d d') (lease_id turn_id : String) (generation now : ℕ)
    → Retired lease_id d.leases
    → is_ok (claim_turn turn_id lease_id generation now d') ≡ false
claim_turn-Retired {d} {d'} r lease_id turn_id g now out =
    let (l, f, s) = Reach-Retired r lease_id out in
    never_ok (claim_turn turn_id lease_id g now d') (λ p done.
      let claim = claim_turn-Claim turn_id lease_id g now d' p.0 p.1 done in
      let c = claim.claimable in
      ground (
        arith,
        c.of_lease,
        f,
        s,
        lease_valid-serving c.lease g c.conversation.project_id c.lease_is_valid,
      ))
