-- ===== src/Storage/Schema/Table.antt =====
-- A table with a text for its primary key: look up a row, update a row, and sum over the rows.
use code_xd.Prelude.{
  ℕ, ◌+◌, ◌≤◌, ◌≡◌, refl, Option, none, some, List, [], ◌∷◌, String, str_eq, str_eq_iff, arith,
  if◌then◌else◌, option_map, Bool, ◌++◌, is_some, Bool-cases, any, false,
}

module _ {R : Type 0} (key : R → String) where
  unfoldable pub find : String → List R → Option R
  find k [] = none
  find k (r ∷ rows) = if str_eq (key r) k then some r else find k rows

  -- `UPDATE ... WHERE key = k`
  unfoldable pub update : String → (R → R) → List R → List R
  update k f [] = []
  update k f (r ∷ rows) = (if str_eq (key r) k then f r else r) ∷ update k f rows

  abbrev pub key_count : String → List R → ℕ
  key_count k [] = 0
  key_count k (r ∷ rows) = (if str_eq (key r) k then 1 else 0) + key_count k rows

  -- The primary key.
  abbrev pub UniqueKeys : List R → Type 0
  UniqueKeys rows = (k : String) → key_count k rows ≤ 1

abbrev pub total : {R : Type 0} → (R → ℕ) → List R → ℕ
total m [] = 0
total m (r ∷ rows) = m r + total m rows

module _ {R : Type 0} (key : R → String) (k : String) (f : R → R)
    (keeps : (r : R) → key (f r) ≡ key r) where
  pub find-key : (rows : List R) (r : R) → find key k rows ≡ some r → key r ≡ k
  unfolding find
  find-key [] r e = cc
  find-key (x ∷ rows) r e = ground (arith, str_eq_iff (key x) k, find-key rows r)

  -- An update is seen at its key alone.
  pub find-update :
      (j : String) (rows : List R)
      → find key j (update key k f rows)
        ≡ (if str_eq k j then option_map f (find key j rows) else find key j rows)
  unfolding find update
  find-update j [] = ground arith
  find-update j (x ∷ rows) = ground (
    arith,
    keeps x,
    str_eq_iff (key x) k,
    str_eq_iff (key x) j,
    str_eq_iff k j,
    find-update j rows,
  )

  pub key_count-update :
      (j : String) (rows : List R) → key_count key j (update key k f rows) ≡ key_count key j rows
  unfolding update
  key_count-update j [] = refl
  key_count-update j (x ∷ rows) = ground (arith, keeps x, key_count-update j rows)

  pub UniqueKeys-update :
      (rows : List R) → UniqueKeys key rows → UniqueKeys key (update key k f rows)
  UniqueKeys-update rows h j = rw (key_count-update j rows) (h j)

  pub total-update_absent :
      (m : R → ℕ) (rows : List R)
      → key_count key k rows ≡ 0
      → total m (update key k f rows) ≡ total m rows
  unfolding update
  total-update_absent m [] e = refl
  total-update_absent m (x ∷ rows) e = ground (arith, total-update_absent m rows)

  -- With a unique key an update changes the sum by what it changes in its one row.
  pub total-update :
      (m : R → ℕ) (rows : List R) (r : R)
      → find key k rows ≡ some r
      → key_count key k rows ≤ 1
      → total m (update key k f rows) + m r ≡ total m rows + m (f r)
  unfolding find update
  total-update m [] r e h = cc
  total-update m (x ∷ rows) r e h =
      ground (arith, total-update_absent m rows, total-update m rows r)

module _ {R : Type 0} (test : R → Bool) where
  -- `UPDATE ... WHERE test`, for a test that has no key.
  unfoldable pub update_where : (R → R) → List R → List R
  update_where f [] = []
  update_where f (r ∷ rows) = (if test r then f r else r) ∷ update_where f rows

  -- `cursor.rowcount` of such an update.
  unfoldable pub count_where : List R → ℕ
  count_where [] = 0
  count_where (r ∷ rows) = (if test r then 1 else 0) + count_where rows

module _ {R : Type 0} (key : R → String) (test : R → Bool) (f : R → R)
    (keeps : (r : R) → key (f r) ≡ key r) where
  -- Such an update is seen in the rows that pass the test.
  pub find-update_where :
      (j : String) (rows : List R)
      → find key j (update_where test f rows)
        ≡ option_map (λ r. if test r then f r else r) (find key j rows)
  unfolding find update_where
  find-update_where j [] = refl
  find-update_where j (x ∷ rows) =
      ground (arith, keeps x, Bool-cases (test x), find-update_where j rows)

module _ {R : Type 0} (key : R → String) where
  -- A row added at the end is found unless one of its key was there.
  pub find-append :
      (j : String) (rows : List R) (r : R)
      → find key j (rows ++ r ∷ []) ≡ (
          if is_some (find key j rows)
          then find key j rows
          else if str_eq (key r) j
          then some r
          else none)
  unfolding find
  find-append j [] r = ground arith
  find-append j (x ∷ rows) r = ground (arith, find-append j rows r)

  -- What holds of no row does not hold of the row found.
  pub find-unless :
      (p : R → Bool) (j : String) (rows : List R) (r : R)
      → any p rows ≡ false
      → find key j rows ≡ some r
      → p r ≡ false
  unfolding find
  find-unless p j [] r a e = cc
  find-unless p j (x ∷ rows) r a e = ground (arith, find-unless p j rows r)

  pub key_count-append :
      (j : String) (rows : List R) (r : R)
      → key_count key j (rows ++ r ∷ [])
        ≡ key_count key j rows + (if str_eq (key r) j then 1 else 0)
  key_count-append j [] r = ground arith
  key_count-append j (x ∷ rows) r = ground (arith, key_count-append j rows r)

  pub key_count-absent :
      (j : String) (rows : List R) → find key j rows ≡ none → key_count key j rows ≡ 0
  unfolding find
  key_count-absent j [] e = refl
  key_count-absent j (x ∷ rows) e = ground (arith, key_count-absent j rows)

  pub key_count-update_where :
      (test : R → Bool) (f : R → R)
      → ((r : R) → key (f r) ≡ key r)
      → (j : String) (rows : List R)
      → key_count key j (update_where test f rows) ≡ key_count key j rows
  unfolding update_where
  key_count-update_where test f keeps j [] = refl
  key_count-update_where test f keeps j (x ∷ rows) =
      ground (arith, keeps x, key_count-update_where test f keeps j rows)
