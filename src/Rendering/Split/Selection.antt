-- ===== src/Rendering/Split/Selection.antt =====
-- What `max`, `min` and the filters of `_split_boundary` choose.
use code_xd.Prelude.{
  ℕ, zero, suc, ◌+◌, ◌-◌, ◌≤◌, ◌≡◌, refl, subst, ◌⊎◌, inl, inr, Bool, true, ◌||◌, none, some, List,
  [], ◌∷◌, arith, max, leb, ◌==◌, ==_iff, ==_refl, Bool-cases, Option-cases, All, length,
}
use code_xd.Rendering.Split.{maximum, minimum, select, contains, is_prefix, rfind, rfind_from}

max-cases : (x y : ℕ) → (max x y ≡ x) ⊎ (max x y ≡ y)
max-cases x y = grind arith

module _ (P : ℕ → Type 0) where
  -- The maximum and the minimum of a list have what all its entries have.
  pub maximum-All : (xs : List ℕ) (m : ℕ) → All P xs → maximum xs ≡ some m → P m
  unfolding maximum
  maximum-All [] m h e = cc
  maximum-All (x ∷ xs) m h e = elim (Option-cases (maximum xs)) [
    | inl none_left ↦ subst P (ground arith) h.0
    | inr (y, found) ↦ elim (max-cases x y) [
      | inl left ↦ subst P (ground arith) h.0
      | inr right ↦ subst P (ground arith) (maximum-All xs y h.1 found)
    ]
  ]

  pub minimum-All : (xs : List ℕ) (m : ℕ) → All P xs → minimum xs ≡ some m → P m
  unfolding minimum
  minimum-All [] m h e = cc
  minimum-All (x ∷ xs) m h e = elim (Option-cases (minimum xs)) [
    | inl none_left ↦ subst P (ground arith) h.0
    | inr (y, found) ↦ elim (Bool-cases (leb x y)) [
      | inl left ↦ subst P (ground arith) h.0
      | inr right ↦ subst P (ground arith) (minimum-All xs y h.1 found)
    ]
  ]

  pub select-All :
      (keep : ℕ → Bool) (xs : List ℕ) → All P xs → All (λ x. (keep x ≡ true) × P x) (select keep xs)
  unfolding select
  select-All keep [] h = tt
  select-All keep (x ∷ xs) h = elim (Bool-cases (keep x)) [
    | inl kept ↦ rw kept ((kept, h.0), select-All keep xs h.1)
    | inr dropped ↦ rw dropped (select-All keep xs h.1)
  ]

pub maximum-none : (xs : List ℕ) → maximum xs ≡ none → xs ≡ []
unfolding maximum
maximum-none [] e = refl
maximum-none (x ∷ xs) e = ground arith

pub minimum-none : (xs : List ℕ) → minimum xs ≡ none → xs ≡ []
unfolding minimum
minimum-none [] e = refl
minimum-none (x ∷ xs) e = ground arith

-- Every entry is at most the maximum.
pub maximum-le : (xs : List ℕ) (x m : ℕ) → contains xs x ≡ true → maximum xs ≡ some m → x ≤ m
unfolding maximum
maximum-le [] x m h e = cc
maximum-le (y ∷ xs) x m h e = elim (Option-cases (maximum xs)) [
  | inl none_left ↦
      let h' : (y == x || contains [] x) ≡ true =
        subst (λ l. (y == x || contains l x) ≡ true) (maximum-none xs none_left) h in
      ground arith
  | inr (n, found) ↦ ground (arith, maximum-le xs x n)
]

pub contains-select :
    (keep : ℕ → Bool) (xs : List ℕ) (x : ℕ)
    → contains xs x ≡ true
    → keep x ≡ true
    → contains (select keep xs) x ≡ true
unfolding select
contains-select keep [] x h k = cc
contains-select keep (y ∷ xs) x h k = elim (Bool-cases (y == x)) [
  | inl same ↦
      let e : y ≡ x = (==_iff y x).0 same in let k' : keep y ≡ true = rw e k in rw (k', same)
  | inr other ↦ ground (arith, contains-select keep xs x)
]

-- A list's entries are contained in it.
entries_contained :
    (points xs : List ℕ)
    → ((x : ℕ) → contains xs x ≡ true → contains points x ≡ true)
    → All (λ x. contains points x ≡ true) xs
entries_contained points [] h = tt
entries_contained points (x ∷ xs) h =
    (h x (rw (==_refl x)), entries_contained points xs (λ y k. h y (ground arith)))

pub contains-All : (points : List ℕ) → All (λ x. contains points x ≡ true) points
contains-All points = entries_contained points points (λ x k. k)

pub is_prefix-length :
    (marker rest : List ℕ) → is_prefix marker rest ≡ true → length marker ≤ length rest
unfolding is_prefix
is_prefix-length [] rest h = omega arith
is_prefix-length (c ∷ marker) [] h = cc
is_prefix-length (c ∷ marker) (d ∷ rest) h = ground (arith, is_prefix-length marker rest)

module _ (value marker : List ℕ) (start stop : ℕ) where
  rfind_from-range :
      (rounds p : ℕ)
      → rfind_from value marker start stop rounds ≡ some p
      → (start ≤ p) × (p + length marker ≤ stop)
  unfolding rfind_from
  rfind_from-range zero p e = cc
  rfind_from-range (suc rounds) p e = ground (arith, rfind_from-range rounds p)

  -- A place that `rfind` returns is in its range, with the marker.
  pub rfind-range :
      (p : ℕ) → rfind value marker start stop ≡ some p → (start ≤ p) × (p + length marker ≤ stop)
  unfolding rfind
  rfind-range p e = rfind_from-range (stop - start) p e
