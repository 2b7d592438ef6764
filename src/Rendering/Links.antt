-- ===== src/Rendering/Links.antt =====
-- rendering/discord.py: `_markdown_link_spans`, `_matching_delimiter`, `_escaped`,
-- `_inside_protected`.
use code_xd.Prelude.{
  ℕ, zero, suc, ◌+◌, ◌-◌, ◌%◌, Bool, false, not, ◌&&◌, ◌||◌, Option, none, some, List, [], ◌∷◌, ltb,
  leb, ◌==◌, if◌then◌else◌, length, get_elem?, any,
}

-- `value[index] == c`; false past the end.
pub at_is : List ℕ → ℕ → ℕ → Bool
at_is value index c = elim (get_elem? value index) [ none ↦ false | some d ↦ d == c ]

-- The loop of `_escaped`: the backslashes that end just before `index`.
pub backslashes : List ℕ → ℕ → ℕ
backslashes value zero = 0
backslashes value (suc index) =
    let more = backslashes value index in if at_is value index 92 then suc more else 0

pub escaped : List ℕ → ℕ → Bool
escaped value index = backslashes value index % 2 == 1

-- The loop of `_matching_delimiter` with `rounds` indices left. `depth` is `opened - closed`, which
-- may be negative.
pub matching_from : List ℕ → ℕ → ℕ → ℕ → ℕ → ℕ → ℕ → Option ℕ
matching_from value opening closing opened closed zero index = none
matching_from value opening closing opened closed (suc rounds) index =
    let skip = matching_from value opening closing opened closed rounds (index + 1) in
    let deeper = matching_from value opening closing (opened + 1) closed rounds (index + 1) in
    let shallower = matching_from value opening closing opened (closed + 1) rounds (index + 1) in
    if escaped value index
    then skip
    else if at_is value index opening
    then deeper
    else if at_is value index closing
    then (if opened == closed + 1 then some index else shallower)
    else skip

pub matching_delimiter : List ℕ → ℕ → ℕ → ℕ → Option ℕ
matching_delimiter value start opening closing =
    matching_from value opening closing 0 0 (length value - start) start

-- The span of the link whose `[` stands at `index`: its start, and its end plus one.
pub link_at : List ℕ → ℕ → Option (ℕ × ℕ)
link_at value index =
    if not (at_is value index b'[') || escaped value index
    then none
    else elim (matching_delimiter value index b'[' b']') [
      | none ↦ none
      | some label_end ↦
          if leb (length value) (label_end + 1) || not (at_is value (label_end + 1) b'(')
          then none
          else elim (matching_delimiter value (label_end + 1) b'(' b')') [
            | none ↦ none
            | some destination_end ↦ some (
              if leb 1 index && at_is value (index - 1) b'!' then index - 1 else index,
              destination_end + 1,
            )
          ]
    ]

-- The loop of `_markdown_link_spans` from `index`, on fuel.
pub spans_from : List ℕ → ℕ → ℕ → List (ℕ × ℕ)
spans_from value zero index = []
spans_from value (suc fuel) index =
    let next = spans_from value fuel (index + 1) in
    if ltb index (length value)
    then elim (link_at value index) [
      | none ↦ next
      | some (start, end) ↦ (start, end) ∷ spans_from value fuel end
    ]
    else []

unfoldable pub markdown_link_spans : List ℕ → List (ℕ × ℕ)
unfolding spans_from link_at matching_delimiter matching_from escaped backslashes at_is
markdown_link_spans value = spans_from value (length value) 0

abbrev pub strictly_inside : ℕ → ℕ × ℕ → Bool
strictly_inside point (start, end) = ltb start point && ltb point end

unfoldable pub inside_protected : ℕ → List (ℕ × ℕ) → Bool
inside_protected boundary protected = any (strictly_inside boundary) protected
