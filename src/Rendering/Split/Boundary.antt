-- ===== src/Rendering/Split/Boundary.antt =====
-- Where `_split_boundary` cuts.
use code_xd.Prelude.{
  ℕ, ◌+◌, ◌-◌, ◌/◌, ◌≤◌, ◌<◌, ◌≡◌, subst, inl, inr, Bool, true, not, ◌&&◌, some, List, [], ◌∷◌,
  arith, leb, ltb, lt→ltb, Bool-cases, Option-cases, All, length, ok,
}
use code_xd.Rendering.Links.{inside_protected}
use code_xd.Rendering.Split.{
  maximum, minimum, select, contains, rfind, marker_candidate, preferred_of, containing, markers,
  last_boundary, forced_boundary, split_boundary,
}
use code_xd.Rendering.Split.Selection.{
  maximum-All, minimum-All, select-All, minimum-none, contains-select, contains-All, rfind-range,
}

-- A cut after `start`, at most one character past the limit, between two grapheme clusters.
pub record IsCut (points : List ℕ) (start limit b : ℕ) : Type 0 where
  pub after : start < b
  pub within : b ≤ start + limit + 1
  pub whole : contains points b ≡ true

module _ (value : List ℕ) (start limit : ℕ) (protected : List (ℕ × ℕ)) (points : List ℕ)
    (pos : 0 < limit) where
  marker_candidate-IsCut :
      (marker : List ℕ) (c : ℕ)
      → 0 < length marker
      → marker_candidate value start (start + limit) protected points marker ≡ some c
      → IsCut points start limit c
  unfolding marker_candidate
  marker_candidate-IsCut marker c nonempty e =
      elim (Option-cases (rfind value marker start (start + limit + 1))) [
        | inl nowhere ↦ ground arith
        | inr (p, found) ↦
            let r = rfind-range value marker start (start + limit + 1) p found in
            record { after = ground arith; within = ground arith; whole = ground arith }
      ]

  pub preferred_of-IsCut :
      (ms : List (List ℕ))
      → All (λ marker. 0 < length marker) ms
      → All
          (IsCut points start limit)
          (preferred_of value start (start + limit) protected points ms)
  unfolding preferred_of
  preferred_of-IsCut [] h = tt
  preferred_of-IsCut (marker ∷ ms) h =
      elim (Option-cases (marker_candidate value start (start + limit) protected points marker)) [
        | inl nothing ↦ rw (nothing, preferred_of) (preferred_of-IsCut ms h.1)
        | inr (c, found) ↦
            rw (found, preferred_of)
              (marker_candidate-IsCut marker c h.0 found, preferred_of-IsCut ms h.1)
      ]

  abbrev near : ℕ → Bool
  near p = ltb start p && leb p (start + limit) && not (inside_protected p protected)

  abbrev later : ℕ → Bool
  later p = ltb start p

  abbrev up_to : ℕ → ℕ → Bool
  up_to from p = ltb start p && leb p from

  last_boundary-IsCut :
      (b : ℕ)
      → start < length value
      → contains points (length value) ≡ true
      → last_boundary value start (start + limit) protected points ≡ ok b
      → IsCut points start limit b
  unfolding last_boundary
  last_boundary-IsCut b more ends e = elim (Option-cases (maximum (select near points))) [
    | inr (point, found) ↦
        let chosen =
          maximum-All (λ p. (near p ≡ true) × (contains points p ≡ true)) (select near points) point
            (select-All _ near points (contains-All points)) found in
        record { after = ground arith; within = ground arith; whole = ground arith }
    | inl nothing ↦ elim (Option-cases (minimum (select later points))) [
      | inr (point, found) ↦
          let chosen =
            minimum-All (λ p. (later p ≡ true) × (contains points p ≡ true)) (select later points)
              point (select-All _ later points (contains-All points)) found in
          record { after = ground arith; within = ground arith; whole = ground arith }
      | inl none_later ↦
          let end_selected : contains (select later points) (length value) ≡ true =
            contains-select later points (length value) ends (lt→ltb start (length value) more) in
          let impossible : contains [] (length value) ≡ true =
            subst (λ l. contains l (length value) ≡ true)
              (minimum-none (select later points) none_later) end_selected in
          cc
    ]
  ]

  containing-inside :
      (point : ℕ) (spans : List (ℕ × ℕ)) (from to : ℕ)
      → containing point spans ≡ some (from, to)
      → (from < point) × (point < to)
  unfolding containing
  containing-inside point [] from to e = cc
  containing-inside point ((f, t) ∷ spans) from to e =
      ground (arith, containing-inside point spans from to)

  forced_boundary-IsCut :
      (b : ℕ)
      → start < length value
      → contains points (length value) ≡ true
      → forced_boundary value start (start + limit) protected points ≡ ok b
      → IsCut points start limit b
  unfolding forced_boundary
  forced_boundary-IsCut b more ends e = elim (Option-cases (containing (start + limit) protected)) [
    | inl outside ↦ last_boundary-IsCut b more ends (rw (outside, forced_boundary) at e)
    | inr ((from, to), found) ↦
        let inside = containing-inside (start + limit) protected from to found in
        elim (Bool-cases (ltb start from)) [
          | inl before ↦ elim (Option-cases (maximum (select (up_to from) points))) [
            | inl nothing ↦ ground arith
            | inr (point, chosen) ↦
                let facts =
                  maximum-All (λ p. (up_to from p ≡ true) × (contains points p ≡ true))
                    (select (up_to from) points) point
                    (select-All _ (up_to from) points (contains-All points)) chosen in
                record { after = ground arith; within = ground arith; whole = ground arith }
          ]
          | inr begins ↦ last_boundary-IsCut b more ends (ground arith)
        ]
  ]

  -- Every cut of `_split_boundary` is legal.
  pub split_boundary-IsCut :
      (b : ℕ)
      → start < length value
      → contains points (length value) ≡ true
      → split_boundary value start (start + limit) protected points ≡ ok b
      → IsCut points start limit b
  unfolding split_boundary
  split_boundary-IsCut b more ends e =
      elim (Option-cases
        (maximum (preferred_of value start (start + limit) protected points markers))) [
          | inl nothing ↦ forced_boundary-IsCut b more ends (rw (nothing, split_boundary) at e)
          | inr (best, found) ↦
              let legal =
                maximum-All (IsCut points start limit)
                  (preferred_of value start (start + limit) protected points markers) best
                  (preferred_of-IsCut markers (omega arith)) found in
              elim (Bool-cases (leb (start + (start + limit - start) / 3) best)) [
                | inl taken ↦ subst (IsCut points start limit) (ground arith) legal
                | inr refused ↦ forced_boundary-IsCut b more ends (ground arith)
              ]
        ]
