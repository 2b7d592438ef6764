-- ===== src/Rendering/Split.antt =====
-- rendering/discord.py: `split_discord_text` and `_split_boundary`. The limit is a parameter, as in
-- the source, where it is `DISCORD_MESSAGE_LIMIT` by default.
pub mod Selection
pub mod Boundary
pub mod Overflow
pub mod Parts
mod Tests
use code_xd.Prelude.{
  ℕ, zero, suc, ◌+◌, ◌-◌, ◌/◌, Bool, true, false, not, ◌&&◌, ◌||◌, Option, none, some, List, [],
  ◌∷◌, ltb, leb, ◌==◌, if◌then◌else◌, max, length, take, drop, any, all, Result, ok, err,
}
use code_xd.Rendering.Graphemes.{grapheme_boundaries}
use code_xd.Rendering.Links.{markdown_link_spans, inside_protected, strictly_inside}

abbrev pub discord_message_limit : ℕ
discord_message_limit = 1900

-- The `ValueError`s, those of `max` over nothing included.
pub data SplitError : Type 0 where
  limit_not_positive link_exceeds_limit grapheme_exceeds_limit max_of_nothing : SplitError

-- `value[start:end]`
abbrev pub slice : List ℕ → ℕ → ℕ → List ℕ
slice value start end = take (end - start) (drop start value)

-- `str.isspace` on one character, which is what `str.strip` removes.
unfoldable pub is_space : ℕ → Bool
is_space c =
    leb 9 c && leb c 13
    || leb 28 c && leb c 32
    || c == 0x85
    || c == 0xa0
    || c == 0x1680
    || leb 0x2000 c && leb c 0x200a
    || c == 0x2028
    || c == 0x2029
    || c == 0x202f
    || c == 0x205f
    || c == 0x3000

pub is_prefix : List ℕ → List ℕ → Bool
is_prefix [] rest = true
is_prefix (c ∷ marker) [] = false
is_prefix (c ∷ marker) (d ∷ rest) = c == d && is_prefix marker rest

-- `value.rfind(marker, start, stop)`: the last place in the range where the marker fits whole,
-- counted down over `rounds` places from `start + rounds - 1`.
pub rfind_from : List ℕ → List ℕ → ℕ → ℕ → ℕ → Option ℕ
rfind_from value marker start stop zero = none
rfind_from value marker start stop (suc rounds) =
    let earlier = rfind_from value marker start stop rounds in
    if leb (start + rounds + length marker) stop && is_prefix marker (drop (start + rounds) value)
    then some (start + rounds)
    else earlier

pub rfind : List ℕ → List ℕ → ℕ → ℕ → Option ℕ
unfolding rfind_from
rfind value marker start stop = rfind_from value marker start stop (stop - start)

-- "\n\n", "\n", ". ", "。", " "
abbrev pub markers : List (List ℕ)
markers = (10 ∷ 10 ∷ []) ∷ (10 ∷ []) ∷ (46 ∷ 32 ∷ []) ∷ (0x3002 ∷ []) ∷ (32 ∷ []) ∷ []

abbrev pub contains : List ℕ → ℕ → Bool
contains points point = any (λ p. p == point) points

-- `max` of a list, none if it is empty.
pub maximum : List ℕ → Option ℕ
maximum [] = none
maximum (x ∷ xs) = elim (maximum xs) [ none ↦ some x | some y ↦ some (max x y) ]

pub minimum : List ℕ → Option ℕ
minimum [] = none
minimum (x ∷ xs) = elim (minimum xs) [ none ↦ some x | some y ↦ some (if leb x y then x else y) ]

-- `[point for point in points if keep(point)]`
pub select : (ℕ → Bool) → List ℕ → List ℕ
select keep [] = []
select keep (x ∷ xs) = let rest = select keep xs in if keep x then x ∷ rest else rest

-- The candidate of one marker, if it is a legal cut.
pub marker_candidate : List ℕ → ℕ → ℕ → List (ℕ × ℕ) → List ℕ → List ℕ → Option ℕ
marker_candidate value start hard_limit protected points marker =
    elim (rfind value marker start (hard_limit + 1)) [
      | none ↦ none
      | some position ↦
          if contains points (position + length marker)
            && not (inside_protected (position + length marker) protected)
          then some (position + length marker)
          else none
    ]

-- The loop over the markers.
pub preferred_of : List ℕ → ℕ → ℕ → List (ℕ × ℕ) → List ℕ → List (List ℕ) → List ℕ
preferred_of value start hard_limit protected points [] = []
preferred_of value start hard_limit protected points (marker ∷ rest) =
    let more = preferred_of value start hard_limit protected points rest in
    elim (marker_candidate value start hard_limit protected points marker) [
      | none ↦ more
      | some candidate ↦ candidate ∷ more
    ]

-- The first span with the point strictly inside.
pub containing : ℕ → List (ℕ × ℕ) → Option (ℕ × ℕ)
containing point [] = none
containing point (span ∷ rest) =
    let later = containing point rest in if strictly_inside point span then some span else later

-- What `_split_boundary` does when no span holds the limit, or none that helps.
pub last_boundary : List ℕ → ℕ → ℕ → List (ℕ × ℕ) → List ℕ → Result SplitError ℕ
last_boundary value start hard_limit protected points =
    elim (maximum (
      select (λ p. ltb start p && leb p hard_limit && not (inside_protected p protected)) points)) [
        | some point ↦ ok point
        | none ↦ elim (minimum (select (λ p. ltb start p) points)) [
          | none ↦ ok (length value)
          | some boundary ↦
              if ltb hard_limit boundary then err grapheme_exceeds_limit else ok boundary
        ]
      ]

-- `_split_boundary` after the markers.
pub forced_boundary : List ℕ → ℕ → ℕ → List (ℕ × ℕ) → List ℕ → Result SplitError ℕ
forced_boundary value start hard_limit protected points = elim (containing hard_limit protected) [
  | none ↦ last_boundary value start hard_limit protected points
  | some (from, to) ↦
      if ltb start from
      then elim (maximum (select (λ p. ltb start p && leb p from) points)) [
        | none ↦ err max_of_nothing
        | some point ↦ ok point
      ]
      else if leb (to - start) (hard_limit - start)
      then ok to
      else last_boundary value start hard_limit protected points
]

pub split_boundary : List ℕ → ℕ → ℕ → List (ℕ × ℕ) → List ℕ → Result SplitError ℕ
split_boundary value start hard_limit protected points =
    elim (maximum (preferred_of value start hard_limit protected points markers)) [
      | none ↦ forced_boundary value start hard_limit protected points
      | some best ↦
          if leb (start + (hard_limit - start) / 3) best
          then ok best
          else forced_boundary value start hard_limit protected points
    ]

-- `parts.append(part)` before what the other rounds append.
pub prepend :
    List ℕ → Option (Result SplitError (List (List ℕ))) → Option (Result SplitError (List (List ℕ)))
prepend part none = none
prepend part (some (err e)) = some (err e)
prepend part (some (ok parts)) = some (ok (part ∷ parts))

-- The loop of `split_discord_text`, on fuel; `none` means that the fuel ran out.
pub split_from :
    List ℕ → ℕ → List (ℕ × ℕ) → List ℕ → ℕ → ℕ → Option (Result SplitError (List (List ℕ)))
split_from value limit protected points zero start = none
split_from value limit protected points (suc fuel) start =
    if ltb limit (length value - start)
    then elim (split_boundary value start (start + limit) protected points) [
      | err e ↦ some (err e)
      | ok boundary ↦
          prepend (slice value start boundary)
            (split_from value limit protected points fuel boundary)
    ]
    else some (ok (if ltb start (length value) then drop start value ∷ [] else []))

module _ (combining : ℕ → Bool) where
  pub split_discord_text : List ℕ → ℕ → Option (Result SplitError (List (List ℕ)))
  split_discord_text value limit =
      if ltb limit 1
      then some (err limit_not_positive)
      else if all is_space value
      then some (ok [])
      else if leb (length value) limit
      then some (ok (value ∷ []))
      else if any (λ (start, end). ltb limit (end - start)) (markdown_link_spans value)
      then some (err link_exceeds_limit)
      else split_from value limit (markdown_link_spans value) (grapheme_boundaries combining value)
          (suc (length value)) 0
