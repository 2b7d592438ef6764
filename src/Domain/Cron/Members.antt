-- ===== src/Domain/Cron/Members.antt =====
-- What the numbers of a parsed field are.
use code_xd.Prelude.{
  ℕ, zero, suc, ◌+◌, ◌-◌, ◌%◌, ◌≤◌, ◌<◌, ◌≡◌, refl, sym, ap, ◌∙◌, subst, Bool, true, false, not,
  ◌&&◌, ◌||◌, Option, none, some, List, [], ◌∷◌, ◌++◌, any, if◌then◌else◌, leb, ◌==◌, ==_iff, arith,
  Bool-cases, inl, inr, Result, ok, err, or_raise, from_some, from_ok, ok-injective, dec_lt,
}
use native.Mathlib.Nat.{mod-eq-sub-mod, mod-eq_of_lt}
use code_xd.Python.Separators.{split, partition}
use code_xd.Python.Numerals.{ℤ, pos, negsuc, parse_int}
use code_xd.Domain.Cron.{
  ConfigurationError, configuration_error, range, elem, in_bounds, positive, remove, normalized,
  Field, step_of, ends_of, part_range, parts_selected, parse_cron_field,
}

-- A number of the progression from `start` to `end` by `step`.
abbrev pub in_range : ℕ → ℕ → ℕ → ℕ → Bool
in_range start end step v = leb start v && leb v end && (v - start) % step == 0

in_range-next :
    (start end step v : ℕ)
    → 0 < step
    → start ≤ end
    → (start == v || in_range (start + step) end step v) ≡ in_range start end step v
in_range-next start end step v p h = elim (dec_lt v (start + step)) [
  | yes near ↦
      let small : (v - start) % step ≡ v - start = mod-eq_of_lt (omega arith) in
      rw small (ground arith)
  | no far ↦
      let shift : (v - start) % step ≡ (v - start - step) % step = mod-eq-sub-mod (omega arith) in
      let rest : v - start - step ≡ v - (start + step) = omega arith in
      rw shift (rw rest (ground arith))
]

pub elem-range :
    (rounds start end step v : ℕ)
    → 0 < step
    → suc end ≤ start + rounds
    → elem v (range rounds start end step) ≡ in_range start end step v
unfolding range
elem-range zero start end step v p h = ground arith
elem-range (suc n) start end step v p h = elim (Bool-cases (leb start end)) [
  | inl more ↦ ground (
    arith,
    more,
    elem-range n (start + step) end step v p (omega arith),
    in_range-next start end step v p (ground arith),
  )
  | inr done ↦ ground (arith, done)
]

elem-append : (v : ℕ) (s t : List ℕ) → elem v (s ++ t) ≡ (elem v s || elem v t)
elem-append v [] t = refl
elem-append v (w ∷ s) t = ground (arith, elem-append v s t)

elem-remove : (v w : ℕ) (s : List ℕ) → elem v (remove w s) ≡ (not (v == w) && elem v s)
elem-remove v w [] = ground arith
elem-remove v w (u ∷ s) = ground (arith, elem-remove v w s)

-- The numbers of a range with its step.
abbrev pub ranges_over : ℕ → Result ConfigurationError (ℕ × ℕ × ℕ) → Bool
ranges_over v (ok r) = in_range r.0 r.1 r.2 v
ranges_over v (err e) = false

-- What a part of a field selects: the numbers of its range, a step apart.
pub selects : (ℕ → Option ℕ) → ℕ → ℕ → ℕ → List ℕ → Bool
selects decimal minimum maximum v part = ranges_over v (part_range decimal minimum maximum part)

positive-positive :
    (z : ℤ) (step : ℕ) → or_raise (positive z) configuration_error ≡ ok step → 0 < step
unfolding positive
positive-positive (pos zero) step h = cc
positive-positive (pos (suc n)) step h = ground arith
positive-positive (negsuc n) step h = cc

module _ (decimal : ℕ → Option ℕ) (minimum maximum : ℕ) where
  step_of-positive : (raw : Option (List ℕ)) (step : ℕ) → step_of decimal raw ≡ ok step → 0 < step
  unfolding step_of positive
  step_of-positive none step h = ground arith
  step_of-positive (some raw) step h =
      from_some (parse_int decimal 10 raw) _ _ h (λ z e k. positive-positive z step k)

  in_bounds-within :
      (a b : ℤ) (r : ℕ × ℕ)
      → in_bounds minimum maximum a b ≡ some r
      → (minimum ≤ r.0) × (r.1 ≤ maximum) × (r.0 ≤ r.1)
  unfolding in_bounds
  in_bounds-within (pos m) (pos n) r h = ground arith
  in_bounds-within (pos m) (negsuc n) r h = cc
  in_bounds-within (negsuc m) b r h = cc

  -- The range of a part keeps to the bounds, and its step is positive.
  pub part_range-within :
      (part : List ℕ) (r : ℕ × ℕ × ℕ)
      → part_range decimal minimum maximum part ≡ ok r
      → (minimum ≤ r.0) × (r.1 ≤ maximum) × (0 < r.2)
  unfolding part_range
  part_range-within part r h = from_ok (step_of decimal (partition b'/' part).1) _ h λ step e h1.
      from_ok (ends_of decimal minimum maximum (partition b'/' part).0) _ h1 λ ends f h2.
        from_some (in_bounds minimum maximum ends.0 ends.1) _ _ h2 λ bounds g h3.
          let eq : ◌≡◌ {A = ℕ × ℕ × ℕ} (bounds.0, bounds.1, step) r = ok-injective h3 in
          let w = in_bounds-within ends.0 ends.1 bounds g in
          let p = step_of-positive (partition b'/' part).1 step e in
          subst (λ (q : ℕ × ℕ × ℕ). (minimum ≤ q.0) × (q.1 ≤ maximum) × (0 < q.2)) eq (w.0, w.1, p)

  part-selects :
      (v : ℕ) (part : List ℕ) (r : ℕ × ℕ × ℕ)
      → part_range decimal minimum maximum part ≡ ok r
      → elem v (range (suc r.1 - r.0) r.0 r.1 r.2) ≡ selects decimal minimum maximum v part
  unfolding selects
  part-selects v part r h =
      let (low, high, p) = part_range-within part r h in
      elem-range (suc r.1 - r.0) r.0 r.1 r.2 v p (omega arith) ∙ ap (ranges_over v) (sym h)

  parts_selected-elem :
      (v : ℕ) (parts : List (List ℕ)) (selected : List ℕ)
      → parts_selected decimal minimum maximum parts ≡ ok selected
      → elem v selected ≡ any (selects decimal minimum maximum v) parts
  unfolding parts_selected
  parts_selected-elem v [] selected h = subst (λ s. elem v s ≡ false) (ok-injective h) refl
  parts_selected-elem v (part ∷ parts) selected h =
      from_ok (part_range decimal minimum maximum part) _ h λ r e h1.
        from_ok (parts_selected decimal minimum maximum parts) _ h1 λ rest f h2.
          subst (λ s. elem v s ≡ any (selects decimal minimum maximum v) (part ∷ parts))
            (ok-injective h2)
            (ground (
              arith,
              elem-append v (range (suc r.1 - r.0) r.0 r.1 r.2) rest,
              part-selects v part r e,
              parts_selected-elem v parts rest f,
            ))

  ranges_over-bounds :
      (v : ℕ) (r : Result ConfigurationError (ℕ × ℕ × ℕ))
      → (((q : ℕ × ℕ × ℕ) → r ≡ ok q → (minimum ≤ q.0) × (q.1 ≤ maximum) × (0 < q.2)))
      → ranges_over v r ≡ true
      → (minimum ≤ v) × (v ≤ maximum)
  ranges_over-bounds v (ok r) w h = let (low, high, p) = w r refl in ground (arith, low, high)
  ranges_over-bounds v (err e) w h = cc

  pub selects-bounds :
      (v : ℕ) (parts : List (List ℕ))
      → any (selects decimal minimum maximum v) parts ≡ true
      → (minimum ≤ v) × (v ≤ maximum)
  unfolding selects
  selects-bounds v [] h = cc
  selects-bounds v (part ∷ parts) h =
      elim (Bool-cases (ranges_over v (part_range decimal minimum maximum part))) [
        | inl here ↦
            ranges_over-bounds v (part_range decimal minimum maximum part) (part_range-within part)
              here
        | inr other ↦ selects-bounds v parts (ground (arith, other))
      ]

-- The number is one that a part selects; of weekdays, 7 counts as 0.
unfoldable pub member : (ℕ → Option ℕ) → ℕ → ℕ → Bool → List ℕ → ℕ → Bool
member decimal minimum maximum normalize_weekday value v =
    let selected : ℕ → Bool = λ w. any (selects decimal minimum maximum w) (split b',' value) in
    if normalize_weekday then not (v == 7) && (selected v || v == 0 && selected 7) else selected v

normalized-elem :
    (normalize_weekday : Bool) (selected : List ℕ) (v : ℕ)
    → elem v (normalized normalize_weekday selected) ≡ (
        if normalize_weekday
        then not (v == 7) && (elem v selected || v == 0 && elem 7 selected)
        else elem v selected)
unfolding normalized
normalized-elem true selected v = elim (Bool-cases (elem 7 selected)) [
  | inl sunday ↦ ground (arith, sunday, elem-remove v 7 selected, ==_iff v 7, ==_iff v 0)
  | inr other ↦ ground (arith, other, ==_iff v 7)
]
normalized-elem false selected v = refl

-- A field selects exactly the numbers that one of its parts, between commas, selects: the numbers
-- of the part's range, a step apart. Of weekdays, 7 counts as 0, and never is a member itself.
pub parse_cron_field-member :
    (decimal : ℕ → Option ℕ) (value : List ℕ) (minimum maximum : ℕ) (normalize_weekday : Bool)
    (f : Field)
    → parse_cron_field decimal value minimum maximum normalize_weekday ≡ ok f
    → (v : ℕ) → elem v f.selected ≡ member decimal minimum maximum normalize_weekday value v
unfolding parse_cron_field member
parse_cron_field-member decimal value minimum maximum normalize_weekday f h v =
    from_ok (parts_selected decimal minimum maximum (split b',' value)) _ h λ selected e h1.
      let is_elem =
        λ (w : ℕ). parts_selected-elem decimal minimum maximum w (split b',' value) selected e in
      subst
        (λ (g : Field).
          elem v g.selected ≡ member decimal minimum maximum normalize_weekday value v)
        (ok-injective h1)
        (normalized-elem normalize_weekday selected v ∙ rw (is_elem v) (rw (is_elem 7) refl))
