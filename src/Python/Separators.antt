-- ===== src/Python/Separators.antt =====
-- Texts in parts: `split` at a separator of one character, and `join`.
use code_xd.Prelude.{
  ℕ, ◌≡◌, refl, ap, Bool, true, false, not, ◌&&◌, Option, none, some, List, [], ◌∷◌, ◌++◌,
  if◌then◌else◌, ◌==◌, ==_iff, any, arith, reverse, Bool-cases, inl, inr,
}
use code_xd.Rendering.Split.{is_space}

abbrev pub same : List ℕ → List ℕ → Bool
same [] [] = true
same (c ∷ s) (d ∷ t) = c == d && same s t
same _ _ = false

pub same_iff-eq : (s t : List ℕ) → same s t ≡ true → s ≡ t
same_iff-eq [] [] h = refl
same_iff-eq [] (d ∷ t) h = cc
same_iff-eq (c ∷ s) [] h = cc
same_iff-eq (c ∷ s) (d ∷ t) h = ground (arith, ==_iff c d, same_iff-eq s t)

pub same_refl : (s : List ℕ) → same s s ≡ true
same_refl [] = refl
same_refl (c ∷ s) = ground (arith, same_refl s)

abbrev pub has : ℕ → List ℕ → Bool
has c s = any (λ d. d == c) s

-- A character goes before the first part.
unfoldable pub push_first : ℕ → List (List ℕ) → List (List ℕ)
push_first c [] = (c ∷ []) ∷ []
push_first c (p ∷ parts) = (c ∷ p) ∷ parts

-- `text.split(separator)`
unfoldable pub split : ℕ → List ℕ → List (List ℕ)
unfolding push_first
split sep [] = [] ∷ []
split sep (c ∷ s) = let rest = split sep s in if c == sep then [] ∷ rest else push_first c rest

-- `separator.join(parts)`
unfoldable pub join : ℕ → List (List ℕ) → List ℕ
join sep [] = []
join sep (p ∷ []) = p
join sep (p ∷ q ∷ parts) = p ++ sep ∷ join sep (q ∷ parts)

-- `text.partition(separator)`, without the separator in the middle; none when it is not found.
unfoldable pub partition : ℕ → List ℕ → List ℕ × Option (List ℕ)
partition sep [] = ([], none)
partition sep (c ∷ s) =
    let rest = partition sep s in if c == sep then ([], some s) else (c ∷ rest.0, rest.1)

-- `text.lstrip()`
unfoldable pub lstrip : List ℕ → List ℕ
unfolding is_space
lstrip [] = []
lstrip (c ∷ s) = if is_space c then lstrip s else c ∷ s

-- `text.strip()`
unfoldable pub strip : List ℕ → List ℕ
unfolding lstrip
strip s = reverse (lstrip (reverse (lstrip s)))

split-absent : (sep : ℕ) (p : List ℕ) → has sep p ≡ false → split sep p ≡ p ∷ []
unfolding split push_first
split-absent sep [] h = refl
split-absent sep (c ∷ p) h = ground (arith, split-absent sep p)

split-append :
    (sep : ℕ) (p s : List ℕ) → has sep p ≡ false → split sep (p ++ sep ∷ s) ≡ p ∷ split sep s
unfolding split push_first
split-append sep [] s h = ground (arith, ==_iff sep sep)
split-append sep (c ∷ p) s h = ground (arith, split-append sep p s)

-- No part of a text has the separator.
abbrev pub parts_plain : ℕ → List (List ℕ) → Bool
parts_plain sep parts = not (any (has sep) parts)

-- Splitting a join gives back its parts, when no part has the separator.
pub split-join :
    (sep : ℕ) (p : List ℕ) (parts : List (List ℕ))
    → parts_plain sep (p ∷ parts) ≡ true
    → split sep (join sep (p ∷ parts)) ≡ p ∷ parts
unfolding join
split-join sep p [] h = split-absent sep p (ground arith)
split-join sep p (q ∷ parts) h =
    rw (split-append sep p (join sep (q ∷ parts)) (ground arith))
      (ap (λ t. p ∷ t) (split-join sep q parts (ground arith)))

push_first-join :
    (sep c : ℕ) (parts : List (List ℕ)) → join sep (push_first c parts) ≡ c ∷ join sep parts
unfolding join push_first
push_first-join sep c [] = refl
push_first-join sep c (p ∷ []) = refl
push_first-join sep c (p ∷ q ∷ parts) = refl

split-cons : (sep : ℕ) (s : List ℕ) → (p : List ℕ) × (r : List (List ℕ)) × (split sep s ≡ p ∷ r)
unfolding split push_first
split-cons sep [] = ([], [], refl)
split-cons sep (c ∷ s) =
    let (p, r, e) = split-cons sep s in
    elim (Bool-cases (c == sep)) [
      | inl here ↦ ([], split sep s, ground (arith, here))
      | inr other ↦ (c ∷ p, r, ground (arith, other, e))
    ]

-- Joining what was split gives back the text.
pub join-split : (sep : ℕ) (s : List ℕ) → join sep (split sep s) ≡ s
unfolding split join
join-split sep [] = refl
join-split sep (c ∷ s) =
    let (p, r, e) = split-cons sep s in
    elim (Bool-cases (c == sep)) [
      | inl here ↦ ground (arith, here, e, ==_iff c sep, join-split sep s)
      | inr other ↦
          rw other (rw (push_first-join sep c (split sep s)) (ap (λ t. c ∷ t) (join-split sep s)))
    ]
