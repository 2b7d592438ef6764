-- ===== src/Rendering/Split/Tests.antt =====
-- Texts cut by `split_discord_text`, and the instances of the theorems.
use code_xd.Prelude.{ℕ, ◌≡◌, refl, Bool, false, some, List, [], ◌∷◌, ok, codes, arith}
use code_xd.Rendering.Graphemes.{grapheme_boundaries}
use code_xd.Rendering.Links.{markdown_link_spans, inside_protected}
use code_xd.Rendering.Split.{
  split_discord_text, split_boundary, split_from, prepend, forced_boundary, last_boundary,
  containing, preferred_of, marker_candidate, rfind, is_prefix, maximum, minimum, select, is_space,
}
use code_xd.Rendering.Split.Parts.{Returns, IsSplit, split_discord_text-Returns}
use code_xd.Rendering.Split.Overflow.{split_boundary_overflow}

abbrev plain : ℕ → Bool
plain c = false

abbrev words : List ℕ
words = codes "aaa bb cc"

-- The first part has four characters, with a limit of three.
past_the_limit :
    split_discord_text plain words 3 ≡ some (ok (codes "aaa " ∷ codes "bb " ∷ codes "cc" ∷ []))
unfolding split_discord_text split_from prepend split_boundary forced_boundary last_boundary
    containing preferred_of marker_candidate rfind is_prefix maximum minimum select is_space
    grapheme_boundaries markdown_link_spans inside_protected
past_the_limit = refl

link_spans : markdown_link_spans (codes "x ![a](b) \\[c](d)") ≡ (2, 9) ∷ []
unfolding markdown_link_spans
link_spans = refl

split_discord_text-Returns_example :
    Returns (IsSplit words 3 0 (grapheme_boundaries plain words)) (split_discord_text plain words 3)
unfolding is_space
split_discord_text-Returns_example = split_discord_text-Returns plain words 3 refl

split_boundary_overflow_example :
    split_boundary words 0 3 [] (grapheme_boundaries plain words) ≡ ok 4
unfolding grapheme_boundaries inside_protected
split_boundary_overflow_example =
    split_boundary_overflow words 0 3 [] (grapheme_boundaries plain words) (omega arith) refl refl
      refl
