-- ===== src/Rendering/Graphemes/Ends.antt =====
-- The boundaries end with the end of the text.
use code_xd.Prelude.{
  ℕ, zero, suc, ◌+◌, ◌≤◌, ◌<◌, ◌≡◌, refl, Bool, true, List, [], ◌∷◌, arith, length, drop,
  length-drop, ◌==◌, any, drop,
}
use code_xd.Rendering.Graphemes.{cluster_tail, cluster_length, boundaries_from, grapheme_boundaries}

module _ (combining : ℕ → Bool) where
  cluster_tail-le :
      (previous : ℕ) (rest : List ℕ) → cluster_tail combining previous rest ≤ length rest
  unfolding cluster_tail
  cluster_tail-le previous [] = omega arith
  cluster_tail-le previous (c ∷ rest) = ground (arith, cluster_tail-le c rest)

  -- A cluster has a character, and ends within the text.
  pub cluster_length_bounds :
      (c : ℕ) (rest : List ℕ)
      → (0 < cluster_length combining (c ∷ rest))
        × (cluster_length combining (c ∷ rest) ≤ length (c ∷ rest))
  unfolding cluster_length
  cluster_length_bounds c [] = omega arith
  cluster_length_bounds c (d ∷ rest) =
      ground (arith, cluster_tail-le d rest, cluster_tail-le c (d ∷ rest))

  boundaries_from-end :
      (fuel index stop : ℕ) (rest : List ℕ)
      → length rest ≤ fuel
      → 0 < length rest
      → index + length rest ≡ stop
      → any (λ p. p == stop) (boundaries_from combining fuel index rest) ≡ true
  unfolding boundaries_from
  boundaries_from-end zero index stop rest h p e = absurd (omega arith)
  boundaries_from-end (suc fuel) index stop [] h p e = absurd (omega arith)
  boundaries_from-end (suc fuel) index stop (c ∷ rest) h p e = ground (
    arith,
    cluster_length_bounds c rest,
    length-drop (cluster_length combining (c ∷ rest)) (c ∷ rest),
    boundaries_from-end fuel (index + cluster_length combining (c ∷ rest)) stop
        (drop (cluster_length combining (c ∷ rest)) (c ∷ rest)),
  )

  -- The end of the text is a boundary.
  pub grapheme_boundaries-end :
      (value : List ℕ) → any (λ p. p == length value) (grapheme_boundaries combining value) ≡ true
  unfolding grapheme_boundaries
  grapheme_boundaries-end [] = refl
  grapheme_boundaries-end (c ∷ rest) = ground (
    arith,
    boundaries_from-end (length (c ∷ rest)) 0 (length (c ∷ rest)) (c ∷ rest) (omega arith)
        (omega arith) (omega arith),
  )
