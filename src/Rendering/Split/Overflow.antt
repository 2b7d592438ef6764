-- ===== src/Rendering/Split/Overflow.antt =====
-- Where a cut of `_split_boundary` goes past the limit.
use code_xd.Prelude.{
  ℕ, zero, suc, inl, inr, ◌+◌, ◌-◌, ◌<◌, ◌≡◌, true, false, some, List, [], ◌∷◌, arith, leb, ==_refl,
  Option-cases, get_elem?, drop, ok, le→leb,
}
use code_xd.Rendering.Links.{inside_protected}
use code_xd.Rendering.Split.{
  maximum, contains, rfind, rfind_from, is_prefix, marker_candidate, preferred_of, markers,
  split_boundary,
}
use code_xd.Rendering.Split.Selection.{maximum-All, maximum-le, maximum-none}
use code_xd.Rendering.Split.Boundary.{IsCut, preferred_of-IsCut}

is_prefix-drop :
    (value : List ℕ) (i c : ℕ)
    → get_elem? value i ≡ some c
    → is_prefix (c ∷ []) (drop i value) ≡ true
unfolding is_prefix
is_prefix-drop [] i c e = cc
is_prefix-drop (d ∷ value) zero c e = ground (arith, ==_refl c)
is_prefix-drop (d ∷ value) (suc i) c e = is_prefix-drop value i c e

module _ (value : List ℕ) (start limit : ℕ) (protected : List (ℕ × ℕ)) (points : List ℕ)
    (pos : 0 < limit) (space : get_elem? value (start + limit) ≡ some 32)
    (whole : contains points (start + limit + 1) ≡ true)
    (outside : inside_protected (start + limit + 1) protected ≡ false) where
  space_found : rfind value (32 ∷ []) start (start + limit + 1) ≡ some (start + limit)
  unfolding rfind rfind_from
  space_found =
      let rounds : start + limit + 1 - start ≡ suc limit = omega arith in
      let fits : leb (start + limit + 1) (start + limit + 1) ≡ true = le→leb _ _ (omega arith) in
      rw (rounds, rfind_from, fits, is_prefix-drop value (start + limit) 32 space)

  space_candidate :
      marker_candidate value start (start + limit) protected points (32 ∷ [])
      ≡ some (start + limit + 1)
  unfolding marker_candidate
  space_candidate = rw (space_found, marker_candidate, whole, outside)

  space_preferred :
      contains
        (preferred_of value start (start + limit) protected points markers)
        (start + limit + 1)
      ≡ true
  unfolding preferred_of
  space_preferred = ground (arith, space_candidate, ==_refl (start + limit + 1))

  -- With a positive limit, a space that stands right at the limit is taken into the part, which then
  -- is one code point longer than the limit, provided that a grapheme ends behind the space and that
  -- the place behind it is inside no protected link.
  pub split_boundary_overflow :
      split_boundary value start (start + limit) protected points ≡ ok (start + limit + 1)
  unfolding split_boundary
  split_boundary_overflow =
      elim (Option-cases
        (maximum (preferred_of value start (start + limit) protected points markers))) [
          | inl nothing ↦ cc (
            space_preferred,
            maximum-none (preferred_of value start (start + limit) protected points markers)
                nothing,
          )
          | inr (m, found) ↦
              let legal =
                maximum-All (IsCut points start limit)
                  (preferred_of value start (start + limit) protected points markers) m
                  (preferred_of-IsCut value start limit protected points pos markers (omega arith))
                  found in
              let least =
                maximum-le (preferred_of value start (start + limit) protected points markers)
                  (start + limit + 1) m space_preferred found in
              ground arith
        ]
