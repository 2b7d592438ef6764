-- ===== src/Rendering/Graphemes.antt =====
-- rendering/discord.py: `_grapheme_boundaries` and the tests on a character. A text is the list of
-- its code points.
pub mod Ends
use code_xd.Prelude.{
  ℕ, zero, suc, ◌+◌, Bool, ◌&&◌, ◌||◌, List, [], ◌∷◌, leb, ◌==◌, if◌then◌else◌, length, drop,
}

pub regional_indicator : ℕ → Bool
regional_indicator c = leb 0x1f1e6 c && leb c 0x1f1ff

pub variation_selector : ℕ → Bool
variation_selector c = leb 0xfe00 c && leb c 0xfe0f || leb 0xe0100 c && leb c 0xe01ef

pub emoji_modifier : ℕ → Bool
emoji_modifier c = leb 0x1f3fb c && leb c 0x1f3ff

-- `unicodedata.combining(character)` as a truth value.
module _ (combining : ℕ → Bool) where
  -- The test of the inner loop: the character belongs to the cluster of the one before it.
  pub extends : ℕ → ℕ → Bool
  unfolding variation_selector emoji_modifier
  extends previous c =
      combining c || variation_selector c || emoji_modifier c || c == 0x200d || previous == 0x200d

  -- The inner loop: how many characters the cluster takes after `previous`.
  pub cluster_tail : ℕ → List ℕ → ℕ
  unfolding extends
  cluster_tail previous [] = 0
  cluster_tail previous (c ∷ rest) =
      let more = cluster_tail c rest in if extends previous c then suc more else 0

  -- One round of the outer loop: the length of the cluster that begins the text.
  pub cluster_length : List ℕ → ℕ
  unfolding cluster_tail regional_indicator
  cluster_length [] = 0
  cluster_length (c ∷ []) = 1
  cluster_length (c ∷ d ∷ rest) =
      if regional_indicator c && regional_indicator d
      then suc (suc (cluster_tail d rest))
      else suc (cluster_tail c (d ∷ rest))

  -- The outer loop from `index`, where `rest` is `value[index:]`; each round takes a character.
  pub boundaries_from : ℕ → ℕ → List ℕ → List ℕ
  unfolding cluster_length
  boundaries_from zero index rest = []
  boundaries_from (suc fuel) index [] = []
  boundaries_from (suc fuel) index (c ∷ rest) =
      let n = cluster_length (c ∷ rest) in
      (index + n) ∷ boundaries_from fuel (index + n) (drop n (c ∷ rest))

  unfoldable pub grapheme_boundaries : List ℕ → List ℕ
  unfolding boundaries_from
  grapheme_boundaries value = 0 ∷ boundaries_from (length value) 0 value
