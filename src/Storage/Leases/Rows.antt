-- ===== src/Storage/Leases/Rows.antt =====
-- What each operation does to the table of leases: it rewrites rows, lawfully, or adds one.
use code_xd.Prelude.{
  ℕ, ◌+◌, ◌≡◌, refl, sym, ap, subst, Bool, true, false, not, ◌||◌, Option, none, some, List, [],
  ◌∷◌, ◌++◌, String, is_some, arith, if◌then◌else◌, ◌==◌, Result, ok, from_guard, from_some,
  from_ok, ok-injective, option_map,
}
use code_xd.Storage.Schema.{
  Error, Lease, LeaseState, Db, find, find_lease, count_where, Rewriting, update_where-Rewriting,
}
use code_xd.Storage.Leases.{
  is_starting, is_ready, is_stopped, closing, may_stop, lease_where, change_lease,
  create_runtime_lease, mark_runtime_ready, mark_runtime_failed, failed_with, heartbeat_runtime,
  mark_runtime_stopping, mark_runtime_stopped, mark_runtime_close_failed, mark_runtime_unhealthy,
  new_lease, last_generation, scope_ok,
}

abbrev pub lease_key : Lease → String
lease_key l = l.id

-- A lease that is being started or is ready.
abbrev pub serving : LeaseState → Bool
serving s = is_starting s || is_ready s

-- A lease keeps its identity, and comes into service only from service.
pub record SameLease (l m : Lease) : Type 0 where
  pub same_id : m.id ≡ l.id
  pub same_kind : m.scope_kind ≡ l.scope_kind
  pub same_scope : m.scope_key ≡ l.scope_key
  pub same_generation : m.generation ≡ l.generation
  pub enters : serving m.state ≡ true → serving l.state ≡ true

pub SameLease-refl : (l : Lease) → SameLease l l
SameLease-refl l = record {
  same_id = refl;
  same_kind = refl;
  same_scope = refl;
  same_generation = refl;
  enters = λ h. h;
}

abbrev pub LeasesRewritten : List Lease → List Lease → Type 0
LeasesRewritten = Rewriting lease_key SameLease

-- One operation on the leases that returns.
pub data Step (d d' : Db) : Type 0 where
  creates :
      (kind key : String) (project_id : Option String) (environment id : String) (now : ℕ)
      (l : Lease)
      → create_runtime_lease kind key project_id environment id now d ≡ ok (d', l)
      → Step d d'
  readies :
      (id sdk version capability : String) (now : ℕ)
      → mark_runtime_ready id sdk version capability now d ≡ ok d'
      → Step d d'
  fails : (id code : String) (now : ℕ) → mark_runtime_failed id code now d ≡ ok d' → Step d d'
  beats : (id : String) (now : ℕ) (b : Bool) → heartbeat_runtime id now d ≡ (d', b) → Step d d'
  stops : (id : String) (now : ℕ) → mark_runtime_stopping id now d ≡ ok d' → Step d d'
  has_stopped : (id : String) (now : ℕ) → mark_runtime_stopped id now d ≡ ok d' → Step d d'
  close_fails :
      (id code : String) (now : ℕ) → mark_runtime_close_failed id code now d ≡ ok d' → Step d d'
  is_lost :
      (id code : String) (now : ℕ) (ids : List String)
      → mark_runtime_unhealthy id code now d ≡ ok (d', ids)
      → Step d d'

pub data Reach (d : Db) : Db → Type 0 where
  here : Reach d d
  next : {e f : Db} → Reach d e → Step e f → Reach d f

option_map_id : {A : Type 0} (o : Option A) → option_map (λ (a : A). a) o ≡ o
option_map_id none = refl
option_map_id (some a) = refl

unchanged : (leases : List Lease) → LeasesRewritten leases leases
unchanged leases = record {
  step = λ l. l;
  finds = λ j. sym (option_map_id (find lease_key j leases));
  counts = λ j. refl;
  lawful = λ j r f. SameLease-refl r;
}

-- A change of the columns that say nothing of a lease's identity.
lawful_change :
    {l m : Lease}
    → m.id ≡ l.id
    → m.scope_kind ≡ l.scope_kind
    → m.scope_key ≡ l.scope_key
    → m.generation ≡ l.generation
    → (serving m.state ≡ true → serving l.state ≡ true)
    → SameLease l m
lawful_change a b c e f = record {
  same_id = a;
  same_kind = b;
  same_scope = c;
  same_generation = e;
  enters = f;
}

change_lease-rewrites :
    (id : String) (test : LeaseState → Bool) (f : Lease → Lease) (d d' : Db)
    → ((l : Lease) → test l.state ≡ true → SameLease l (f l))
    → ((l : Lease) → (f l).id ≡ l.id)
    → change_lease id test f d ≡ ok d'
    → LeasesRewritten d.leases d'.leases
unfolding change_lease
change_lease-rewrites id test f d d' law keeps h =
    from_guard (count_where (lease_where id test) d.leases == 1) _ _ h (λ one k.
      subst (λ (e : Db). LeasesRewritten d.leases e.leases) (ok-injective k)
        (update_where-Rewriting lease_key SameLease SameLease-refl d.leases (lease_where id test) f
          keeps (λ l passes. law l (ground arith))))

-- A lease is created under a new id, in a generation of its own, and starting.
pub record Created (d d' : Db) : Type 0 where
  pub lease : Lease
  pub added : d'.leases ≡ d.leases ++ lease ∷ []
  pub fresh : find lease_key lease.id d.leases ≡ none
  pub next_generation : lease.generation ≡ last_generation lease.scope_key d.leases + 1

pub data Change (d d' : Db) : Type 0 where
  rewrites : LeasesRewritten d.leases d'.leases → Change d d'
  creates : Created d d' → Change d d'

create-Created :
    (kind key : String) (project_id : Option String) (environment id : String) (now : ℕ) (l : Lease)
    (d d' : Db)
    → create_runtime_lease kind key project_id environment id now d ≡ ok (d', l)
    → Created d d'
unfolding create_runtime_lease
create-Created kind key project_id environment id now l d d' h =
    from_guard (scope_ok kind key project_id) _ _ h (λ scoped k.
      from_guard (not (is_some (find_lease id d.leases))) _ _ k (λ absent m. record {
        lease = new_lease id kind key project_id environment (last_generation key d.leases + 1) now;
        added = sym (ap (λ (p : Db × Lease). p.0.leases) (ok-injective m));
        fresh = ground arith;
        next_generation = refl;
      }))

-- The branch that leaves the table alone, and the one that changes a lease.
unless-rewrites :
    (b : Bool) (m : Result Error Db) (d d' : Db)
    → (m ≡ ok d' → LeasesRewritten d.leases d'.leases)
    → (if b then ok d else m) ≡ ok d'
    → LeasesRewritten d.leases d'.leases
unless-rewrites true m d d' k h =
    subst (λ (e : Db). LeasesRewritten d.leases e.leases) (ok-injective h) (unchanged d.leases)
unless-rewrites false m d d' k h = k h

pub Step-Change : {d d' : Db} → Step d d' → Change d d'
unfolding mark_runtime_ready mark_runtime_failed heartbeat_runtime mark_runtime_stopping
    mark_runtime_stopped mark_runtime_close_failed mark_runtime_unhealthy
Step-Change {d} {d'} (creates kind key p env id now l h) =
    creates (create-Created kind key p env id now l d d' h)
Step-Change {d} {d'} (readies id sdk version capability now h) = rewrites (
    change_lease-rewrites id is_starting _ d d'
      (λ l was. lawful_change refl refl refl refl (λ _. ground arith)) (λ l. refl) h)
Step-Change {d} {d'} (fails id code now h) = rewrites (
    change_lease-rewrites id is_starting _ d d'
      (λ l was. lawful_change refl refl refl refl (λ k. absurd (cc))) (λ l. refl) h)
Step-Change {d} {d'} (beats id now b h) = rewrites (
    subst (λ (e : Db). LeasesRewritten d.leases e.leases) (ap (λ p. p.0) h)
      (update_where-Rewriting lease_key SameLease SameLease-refl d.leases _ _ (λ l. refl)
        (λ l passes. lawful_change refl refl refl refl (λ k. k))))
Step-Change {d} {d'} (stops id now h) = rewrites (
    from_some (find_lease id d.leases) _ _ h (λ l found k.
      unless-rewrites (closing l.state) _ d d'
        (change_lease-rewrites id is_ready _ d d'
          (λ m was. lawful_change refl refl refl refl (λ e. absurd (cc))) (λ m. refl))
        k))
Step-Change {d} {d'} (has_stopped id now h) = rewrites (
    from_some (find_lease id d.leases) _ _ h (λ l found k.
      unless-rewrites (is_stopped l.state) _ d d'
        (change_lease-rewrites id may_stop _ d d'
          (λ m was. lawful_change refl refl refl refl (λ e. absurd (cc))) (λ m. refl))
        k))
Step-Change {d} {d'} (close_fails id code now h) = rewrites (
    from_some (find_lease id d.leases) _ _ h (λ l found k.
      unless-rewrites (is_stopped l.state) _ d d'
        (λ m.
          from_ok (change_lease id (λ s. not (is_stopped s)) (failed_with code now) d) _ m
            (λ e changed n.
              subst (λ (x : Db). LeasesRewritten d.leases x.leases) (ok-injective n)
                (change_lease-rewrites id _ _ d e
                  (λ q was. lawful_change refl refl refl refl (λ r. absurd (cc))) (λ q. refl)
                  changed)))
        k))
Step-Change {d} {d'} (is_lost id code now ids h) = rewrites (
    from_some (find_lease id d.leases) _ _ h (λ l found k.
      subst (λ (e : Db). LeasesRewritten d.leases e.leases) (ap (λ p. p.0) (ok-injective k))
        (update_where-Rewriting lease_key SameLease SameLease-refl d.leases _ _ (λ m. refl)
          (λ m passes. lawful_change refl refl refl refl (λ e. absurd (cc))))))
