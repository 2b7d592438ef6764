-- ===== src/Security/Signing/Kinds.antt =====
-- The tables of kinds and their codes can be read both ways.
use code_xd.Prelude.{
  ℕ, ◌≡◌, refl, Bool, true, false, not, ◌&&◌, some, List, [], ◌∷◌, any, arith, Bool-cases, inl, inr,
}
use code_xd.Python.Separators.{same, same_refl, same_iff-eq, has}
use code_xd.Security.Signing.{colon, code_of, kind_of, modal_kinds, catalog_kinds}

-- The codes are different and have no colon.
pub good_kinds : List (List ℕ × List ℕ) → Bool
good_kinds [] = true
good_kinds (e ∷ kinds) =
    not (any (λ (f : List ℕ × List ℕ). same e.1 f.1) kinds)
    && not (has colon e.1)
    && good_kinds kinds

other_code :
    (c kind code : List ℕ) (kinds : List (List ℕ × List ℕ))
    → any (λ (f : List ℕ × List ℕ). same c f.1) kinds ≡ false
    → code_of kind kinds ≡ some code
    → same c code ≡ false
unfolding code_of
other_code c kind code [] h e = cc
other_code c kind code (f ∷ kinds) h e = ground (arith, other_code c kind code kinds)

-- The code of a kind has no colon and is the code of that kind alone.
pub code_of-kind_of :
    (kind code : List ℕ) (kinds : List (List ℕ × List ℕ))
    → good_kinds kinds ≡ true
    → code_of kind kinds ≡ some code
    → (kind_of code kinds ≡ some kind) × (has colon code ≡ false)
unfolding good_kinds code_of kind_of
code_of-kind_of kind code [] g e = cc
code_of-kind_of kind code (f ∷ kinds) g e = elim (Bool-cases (same f.0 kind)) [
  | inl here ↦
      let eq : f.1 ≡ code = ground (arith, here) in
      let kn = same_iff-eq f.0 kind here in
      (ground (arith, eq, kn, same_refl code), ground (arith, eq))
  | inr there ↦
      ground (arith, there, other_code f.1 kind code kinds, code_of-kind_of kind code kinds)
]

pub modal_kinds_good : good_kinds modal_kinds ≡ true
unfolding good_kinds
modal_kinds_good = refl

pub catalog_kinds_good : good_kinds catalog_kinds ≡ true
unfolding good_kinds
catalog_kinds_good = refl
