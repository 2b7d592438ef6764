-- ===== src/Storage/Schema/Rewritten.antt =====
-- A table whose rows were rewritten, each to a row that the law `Lawful` allows.
use code_xd.Prelude.{
  ℕ, ◌≤◌, ◌≡◌, Bool, true, none, some, List, [], ◌∷◌, ◌++◌, String, str_eq_iff, arith, option_map,
  if◌then◌else◌, Bool-cases, Option-cases, inl, inr, ◌⊎◌,
}
use code_xd.Storage.Schema.Table.{
  find, update_where, key_count, UniqueKeys, total, find-update_where, key_count-update_where,
  find-append, key_count-append, key_count-absent,
}

module _ {R : Type 0} (key : R → String) (Lawful : R → R → Type 0) where
  pub record Rewriting (rows rows' : List R) : Type 0 where
    pub step : R → R
    pub finds : (j : String) → find key j rows' ≡ option_map step (find key j rows)
    pub counts : (j : String) → key_count key j rows' ≡ key_count key j rows
    pub lawful : (j : String) (r : R) → find key j rows ≡ some r → Lawful r (step r)

  pub update_where-Rewriting :
      (reflexive : (r : R) → Lawful r r) (rows : List R) (test : R → Bool) (f : R → R)
      → ((r : R) → key (f r) ≡ key r)
      → ((r : R) → test r ≡ true → Lawful r (f r))
      → Rewriting rows (update_where test f rows)
  update_where-Rewriting reflexive rows test f keeps law = record {
    step = λ r. if test r then f r else r;
    finds = λ j. find-update_where key test f keeps j rows;
    counts = λ j. key_count-update_where key test f keeps j rows;
    lawful = λ j r found. elim (Bool-cases (test r)) [
      | inl passes ↦ rw passes (law r passes)
      | inr fails ↦ rw fails (reflexive r)
    ];
  }

  module _ (rows rows' : List R) (w : Rewriting rows rows') where
    -- The row that a rewritten one comes from.
    pub origin :
        (j : String) (s : R)
        → find key j rows' ≡ some s
        → (r : R) × (find key j rows ≡ some r) × (s ≡ w.step r)
    origin j s found = elim (Option-cases (find key j rows)) [
      | inl absent ↦ absurd (ground (arith, w.finds j))
      | inr (r, there) ↦ (r, there, ground (arith, w.finds j))
    ]

    pub UniqueKeys-rewriting : UniqueKeys key rows → UniqueKeys key rows'
    UniqueKeys-rewriting u k = rw (w.counts k) (u k)

module _ {R : Type 0} (key : R → String) (rows : List R) (x : R)
    (fresh : find key (key x) rows ≡ none) where
  pub UniqueKeys-added : UniqueKeys key rows → UniqueKeys key (rows ++ x ∷ [])
  UniqueKeys-added u k = ground (
    arith,
    key_count-append key k rows x,
    u k,
    str_eq_iff (key x) k,
    key_count-absent key (key x) rows fresh,
  )

  -- A row of the longer table is an old one or the added one.
  pub old_or_new :
      (j : String) (r : R)
      → find key j (rows ++ x ∷ []) ≡ some r
      → (find key j rows ≡ some r) ⊎ (r ≡ x)
  old_or_new j r f = ground (arith, find-append key j rows x)

module _ {R : Type 0} (test : R → Bool) (f : R → R) (m : R → ℕ) where
  -- An update that raises the measure of no row does not raise the sum.
  pub total-update_where :
      ((r : R) → test r ≡ true → m (f r) ≤ m r)
      → (rows : List R) → total m (update_where test f rows) ≤ total m rows
  unfolding update_where
  total-update_where less [] = omega arith
  total-update_where less (r ∷ rows) = elim (Bool-cases (test r)) [
    | inl passes ↦ rw passes (omega (arith, less r passes, total-update_where less rows))
    | inr fails ↦ rw fails (omega (arith, total-update_where less rows))
  ]
