-- ===== src/Rendering/Split/Parts.antt =====
-- The parts of `split_discord_text`: nothing is lost, and what bounds them.
use code_xd.Prelude.{
  ℕ, zero, suc, ◌+◌, ◌-◌, ◌≤◌, ◌<◌, ◌≡◌, refl, sym, ap, ◌∙◌, inl, inr, Bool, true, false, Option,
  none, some, List, [], ◌∷◌, ◌++◌, arith, leb, ltb, ltb→lt, Bool-cases, All, all, any,
  if◌then◌else◌, length, length-take, length-drop, drop, drop-drop, drop-all, take-append-drop,
  flatten, Result, ok, err, append-nil,
}
use code_xd.Rendering.Graphemes.{grapheme_boundaries}
use code_xd.Rendering.Graphemes.Ends.{grapheme_boundaries-end}
use code_xd.Rendering.Links.{markdown_link_spans}
use code_xd.Rendering.Split.{
  SplitError, slice, contains, is_space, split_boundary, prepend, link_exceeds_limit, split_from,
  split_discord_text,
}
use code_xd.Rendering.Split.Boundary.{IsCut, split_boundary-IsCut}

-- The call returned, and `P` holds of its parts if it raised nothing.
abbrev pub Returns : (List (List ℕ) → Type 0) → Option (Result SplitError (List (List ℕ))) → Type 0
Returns P none = ⊥
Returns P (some (err e)) = Unit
Returns P (some (ok parts)) = P parts

-- Each part but the last ends at one of the points, counted from `start`.
abbrev pub EndsAt : List ℕ → ℕ → List (List ℕ) → Type 0
EndsAt points start [] = Unit
EndsAt points start (part ∷ []) = Unit
EndsAt points start (part ∷ next ∷ rest) =
    (contains points (start + length part) ≡ true)
    × EndsAt points (start + length part) (next ∷ rest)

pub record IsSplit (rest : List ℕ) (limit start : ℕ) (points : List ℕ) (parts : List (List ℕ))
    : Type 0 where
  pub lossless : flatten parts ≡ rest
  pub bounded : All (λ part. (0 < length part) × (length part ≤ limit + 1)) parts
  pub clusters : EndsAt points start parts

slice-append-drop :
    (value : List ℕ) (start b : ℕ)
    → start ≤ b
    → slice value start b ++ drop b value ≡ drop start value
slice-append-drop value start b h =
    ap (λ t. slice value start b ++ t) (sym (drop-drop (b - start) start b value (omega arith)))
    ∙ take-append-drop (b - start) (drop start value)

length-slice :
    (value : List ℕ) (start b : ℕ) → b ≤ length value → length (slice value start b) ≡ b - start
length-slice value start b h =
    omega (arith, length-take (b - start) (drop start value), length-drop start value)

EndsAt-cons :
    (points : List ℕ) (start : ℕ) (part : List ℕ) (parts : List (List ℕ))
    → contains points (start + length part) ≡ true
    → EndsAt points (start + length part) parts
    → EndsAt points start (part ∷ parts)
EndsAt-cons points start part [] c h = tt
EndsAt-cons points start part (next ∷ rest) c h = (c, h)

prepend-Returns :
    (P Q : List (List ℕ) → Type 0) (part : List ℕ) (r : Option (Result SplitError (List (List ℕ))))
    → ((parts : List (List ℕ)) → P parts → Q (part ∷ parts))
    → Returns P r
    → Returns Q (prepend part r)
unfolding prepend
prepend-Returns P Q part none f h = h
prepend-Returns P Q part (some (err e)) f h = tt
prepend-Returns P Q part (some (ok parts)) f h = f parts h

last_part-IsSplit :
    (value : List ℕ) (limit start : ℕ) (points : List ℕ)
    → length value - start ≤ limit
    → IsSplit
        (drop start value)
        limit
        start
        points
        (if ltb start (length value) then drop start value ∷ [] else [])
last_part-IsSplit value limit start points h =
    let size = length-drop start value in
    elim (Bool-cases (ltb start (length value))) [
      | inl left ↦ rw left (record {
        lossless = append-nil (drop start value);
        bounded = ((ground arith, ground arith), tt);
        clusters = tt;
      })
      | inr done ↦ rw done (record {
        lossless = sym (drop-all start value (ground arith));
        bounded = tt;
        clusters = tt;
      })
    ]

module _ (value : List ℕ) (limit : ℕ) (protected : List (ℕ × ℕ)) (points : List ℕ) (pos : 0 < limit)
    (ends : contains points (length value) ≡ true) where
  IsSplit-cons :
      (start b : ℕ) (parts : List (List ℕ))
      → start + limit < length value
      → IsCut points start limit b
      → IsSplit (drop b value) limit b points parts
      → IsSplit (drop start value) limit start points (slice value start b ∷ parts)
  IsSplit-cons start b parts more cut h =
      let size = length-slice value start b (omega (arith, cut.within)) in
      let at : start + length (slice value start b) ≡ b = omega (arith, cut.after) in
      record {
        lossless =
            ap (λ t. slice value start b ++ t) h.lossless
            ∙ slice-append-drop value start b (omega (arith, cut.after));
        bounded = ((omega (arith, cut.after), omega (arith, cut.within)), h.bounded);
        clusters =
            EndsAt-cons points start (slice value start b) parts (rw at cut.whole)
              (rw at h.clusters);
      }

  split_from-Returns :
      (fuel start : ℕ)
      → length value - start < fuel
      → Returns
          (IsSplit (drop start value) limit start points)
          (split_from value limit protected points fuel start)
  unfolding split_from
  split_from-Returns zero start h = absurd (omega arith)
  split_from-Returns (suc fuel) start h = elim (Bool-cases (ltb limit (length value - start))) [
    | inr stop ↦ rw stop (last_part-IsSplit value limit start points (ground arith))
    | inl more ↦ rw more (
        cut_and_go (ltb→lt _ _ more) (split_from-Returns fuel)
          (split_boundary value start (start + limit) protected points) refl)
  ]
    where
      cut_and_go :
          limit < length value - start
          → ((b : ℕ)
              → length value - b < fuel
              → Returns
                  (IsSplit (drop b value) limit b points)
                  (split_from value limit protected points fuel b))
          → (r : Result SplitError ℕ)
          → split_boundary value start (start + limit) protected points ≡ r
          → Returns (IsSplit (drop start value) limit start points) (elim r [
            | err e ↦ some (err e)
            | ok boundary ↦
                prepend
                  (slice value start boundary)
                  (split_from value limit protected points fuel boundary)
          ])
      cut_and_go more ih (err e) found = tt
      cut_and_go more ih (ok b) found =
          let cut =
            split_boundary-IsCut value start limit protected points pos b (omega arith) ends
              found in
          prepend-Returns (IsSplit (drop b value) limit b points)
            (IsSplit (drop start value) limit start points) (slice value start b)
            (split_from value limit protected points fuel b)
            (λ parts. IsSplit-cons start b parts (omega arith) cut)
            (ih b (omega (arith, cut.after)))

not_blank-length : (value : List ℕ) → all is_space value ≡ false → 0 < length value
not_blank-length [] h = cc
not_blank-length (c ∷ value) h = omega arith

unless-Returns :
    (P : List (List ℕ) → Type 0) (too_long : Bool) (r : Option (Result SplitError (List (List ℕ))))
    → Returns P r
    → Returns P (if too_long then some (err link_exceeds_limit) else r)
unless-Returns P true r h = tt
unless-Returns P false r h = h

module _ (combining : ℕ → Bool) (value : List ℕ) (limit : ℕ) where
  -- Splitting returns, by a `ValueError` or with parts. The parts of a text that is not blank put
  -- together are the text; no part is empty; none is longer than the limit by more than one
  -- character; and each part but the last ends at a boundary of a grapheme cluster.
  pub split_discord_text-Returns :
      all is_space value ≡ false
      → Returns
          (IsSplit value limit 0 (grapheme_boundaries combining value))
          (split_discord_text combining value limit)
  unfolding split_discord_text
  split_discord_text-Returns h = elim (Bool-cases (ltb limit 1)) [
    | inl bad ↦ rw bad tt
    | inr good ↦
        rw (good, h)
          (elim (Bool-cases (leb (length value) limit)) [
            | inl short ↦ rw short (record {
              lossless = append-nil value;
              bounded = ((not_blank-length value h, ground arith), tt);
              clusters = tt;
            })
            | inr long ↦ rw long (
                unless-Returns (IsSplit value limit 0 (grapheme_boundaries combining value))
                  (any (λ (start, end). ltb limit (end - start)) (markdown_link_spans value)) _
                  (split_from-Returns value limit (markdown_link_spans value)
                    (grapheme_boundaries combining value) (ground arith)
                    (grapheme_boundaries-end combining value) (suc (length value)) 0 (omega arith)))
          ])
  ]
