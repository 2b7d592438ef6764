-- ===== src/Storage/Transcript/Selection.antt =====
-- The canonical final answer and its place in the transcript.
use code_xd.Prelude.{
  ℕ, suc, ◌+◌, ◌≡◌, ◌⊎◌, Bool, true, false, not, ◌&&◌, List, [], ◌∷◌, ◌++◌, any, map, if◌then◌else◌,
  leb, ◌||◌, Bool-cases, ◌==◌,
}
use code_xd.Storage.Transcript.{
  Visible, keep_some, is_final, is_compatible, without, is_blank, visible_phase, is_text, is_true,
}

-- The indices go up, from `n`.
ascending : ℕ → List Visible → Bool
ascending n [] = true
ascending n (v ∷ vs) = leb n v.index && ascending (suc v.index) vs

-- The visible blocks are `before`, the chosen one and `after`, and the others are what remains.
pub record Placed (vs : List Visible) (c : Visible) : Type 0 where
  pub before : List Visible
  pub after : List Visible
  pub whole : vs ≡ before ++ c ∷ after
  pub others : without c.index vs ≡ before ++ after

-- The last block marked as the final answer, or, when none is, the last one with no phase.
pub record Canonical (vs : List Visible) (c : Visible) : Type 0 where
  pub place : Placed vs c
  pub marked : (is_final c || is_compatible c && not (any is_final vs)) ≡ true
  pub final_last : any is_final place.after ≡ false
  pub compatible_last : is_final c ≡ false → any is_compatible place.after ≡ false
