-- ===== src/Storage/Leases/Service.antt =====
-- The generations of the leases, and what leaves service, over any sequence of operations.
use code_xd.Prelude.{
  ◌∙◌, ◌+◌, ◌≤◌, ◌≡◌, false, none, some, List, [], ◌∷◌, ◌++◌, String, str_eq_iff, arith,
}
use code_xd.Storage.Schema.{
  Lease, Db, find, UniqueKeys, find-append, origin, UniqueKeys-rewriting, UniqueKeys-added,
  old_or_new,
}
use code_xd.Storage.Leases.{last_generation}
use code_xd.Storage.Leases.Rows.{
  lease_key, serving, SameLease, SameLease-refl, LeasesRewritten, Step, Reach, here, next, rewrites,
  creates, Step-Change,
}

pub last_generation-bound :
    (key j : String) (leases : List Lease) (l : Lease)
    → find lease_key j leases ≡ some l
    → l.scope_key ≡ key
    → l.generation ≤ last_generation key leases
unfolding last_generation find
last_generation-bound key j [] l f s = cc
last_generation-bound key j (x ∷ leases) l f s =
    ground (arith, str_eq_iff x.scope_key key, last_generation-bound key j leases l)

-- Keys are unique, and so is a generation within its scope.
pub record HasGenerations (leases : List Lease) : Type 0 where
  pub keys : UniqueKeys lease_key leases
  pub distinct :
      (j k : String) (l m : Lease)
      → find lease_key j leases ≡ some l
      → find lease_key k leases ≡ some m
      → l.scope_key ≡ m.scope_key
      → l.generation ≡ m.generation
      → l.id ≡ m.id

HasGenerations-rewritten :
    (leases leases' : List Lease)
    → LeasesRewritten leases leases'
    → HasGenerations leases
    → HasGenerations leases'
HasGenerations-rewritten leases leases' w v = record {
  keys = UniqueKeys-rewriting lease_key SameLease leases leases' w v.keys;
  distinct = λ j k l m f g scope generation.
      let (l', f', p) = origin lease_key SameLease leases leases' w j l f in
      let (m', g', q) = origin lease_key SameLease leases leases' w k m g in
      let a = w.lawful j l' f' in
      let b = w.lawful k m' g' in
      let old = v.distinct j k l' m' f' g' in
      ground (
        arith, p, q, a.same_id, b.same_id, a.same_scope, b.same_scope, a.same_generation,
        b.same_generation, old,
      );
}

HasGenerations-created :
    (leases : List Lease) (x : Lease)
    → find lease_key x.id leases ≡ none
    → x.generation ≡ last_generation x.scope_key leases + 1
    → HasGenerations leases
    → HasGenerations (leases ++ x ∷ [])
HasGenerations-created leases x fresh generation v = record {
  keys = UniqueKeys-added lease_key leases x fresh v.keys;
  distinct = λ j k l m f g scope same. ground (
    arith,
    generation,
    old_or_new lease_key leases x fresh j l f,
    old_or_new lease_key leases x fresh k m g,
    last_generation-bound x.scope_key j leases l,
    last_generation-bound x.scope_key k leases m,
    v.distinct j k l m,
  );
}

Step-HasGenerations : {d d' : Db} → Step d d' → HasGenerations d.leases → HasGenerations d'.leases
Step-HasGenerations {d} {d'} s v = elim (Step-Change s) [
  | rewrites w ↦ HasGenerations-rewritten d.leases d'.leases w v
  | creates c ↦ rw c.added (HasGenerations-created d.leases c.lease c.fresh c.next_generation v)
]

-- Over any sequence of operations on the leases, an id names one lease, and no two leases of a scope
-- have the same generation.
pub Reach-HasGenerations :
    {d d' : Db} → Reach d d' → HasGenerations d.leases → HasGenerations d'.leases
Reach-HasGenerations here v = v
Reach-HasGenerations (next r s) v = Step-HasGenerations s (Reach-HasGenerations r v)

SameLease-trans : {l m n : Lease} → SameLease l m → SameLease m n → SameLease l n
SameLease-trans a b = record {
  same_id = b.same_id ∙ a.same_id;
  same_kind = b.same_kind ∙ a.same_kind;
  same_scope = b.same_scope ∙ a.same_scope;
  same_generation = b.same_generation ∙ a.same_generation;
  enters = λ h. a.enters (b.enters h);
}

Step-SameLease :
    {d d' : Db} (s : Step d d') (j : String) (l : Lease)
    → find lease_key j d.leases ≡ some l
    → (m : Lease) × (find lease_key j d'.leases ≡ some m) × SameLease l m
Step-SameLease {d} {d'} s j l f = elim (Step-Change s) [
  | rewrites w ↦ (w.step l, ground (arith, w.finds j), w.lawful j l f)
  | creates c ↦
      rw c.added (l, ground (arith, find-append lease_key j d.leases c.lease), SameLease-refl l)
]

-- A lease stays in the table, in its scope and with its generation, whatever the operations.
pub Reach-SameLease :
    {d d' : Db} (r : Reach d d') (j : String) (l : Lease)
    → find lease_key j d.leases ≡ some l
    → (m : Lease) × (find lease_key j d'.leases ≡ some m) × SameLease l m
Reach-SameLease here j l f = (l, f, SameLease-refl l)
Reach-SameLease (next r s) j l f =
    let (m, g, p) = Reach-SameLease r j l f in
    let (n, h, q) = Step-SameLease s j m g in (n, h, SameLease-trans p q)

-- The lease of the id exists, and is neither starting nor ready.
abbrev pub Retired : String → List Lease → Type 0
Retired j leases = (l : Lease) × (find lease_key j leases ≡ some l) × (serving l.state ≡ false)

Step-Retired : {d d' : Db} (s : Step d d') (j : String) → Retired j d.leases → Retired j d'.leases
Step-Retired {d} {d'} s j (l, f, out) = elim (Step-Change s) [
  | rewrites w ↦
      let a = w.lawful j l f in (w.step l, ground (arith, w.finds j), ground (arith, a.enters))
  | creates c ↦ rw c.added (l, ground (arith, find-append lease_key j d.leases c.lease), out)
]

-- A lease that has left service, by stopping, failing or being lost, never comes back into it,
-- whatever the operations.
pub Reach-Retired :
    {d d' : Db} (r : Reach d d') (j : String) → Retired j d.leases → Retired j d'.leases
Reach-Retired here j h = h
Reach-Retired (next r s) j h = Step-Retired s j (Reach-Retired r j h)
