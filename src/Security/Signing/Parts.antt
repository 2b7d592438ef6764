-- ===== src/Security/Signing/Parts.antt =====
-- What makes a signed id readable again: the signature has no colon, and its parts are found.
use code_xd.Prelude.{
  ℕ, ◌≡◌, refl, Bool, true, false, ◌||◌, List, [], ◌∷◌, ◌++◌, any, all, ltb, ◌==◌, ok, arith,
  Bool-cases, inl, inr,
}
use code_xd.Python.Separators.{
  same, same_refl, same_iff-eq, has, split, join, split-join, parts_plain,
}
use code_xd.Security.Signing.{
  Crypto, signature, rstrip, before_stripped, bad_nonce, ascii, compare_digest, colon, signed_id,
  check_signature,
}

-- The alphabet of base64 is ASCII and has no colon.
pub record Alphabet (lib : Crypto) : Type 0 where
  pub no_colon : (s : List ℕ) → has colon (lib.base64 s) ≡ false
  pub is_ascii : (s : List ℕ) → ascii (lib.base64 s) ≡ true

before_stripped-any :
    (p : ℕ → Bool) (c d : ℕ) (t : List ℕ)
    → p d ≡ false
    → any p t ≡ false
    → any p (before_stripped c d t) ≡ false
before_stripped-any p c d [] h k = ground arith
before_stripped-any p c d (e ∷ t) h k = ground arith

rstrip-any : (p : ℕ → Bool) (c : ℕ) (s : List ℕ) → any p s ≡ false → any p (rstrip c s) ≡ false
unfolding rstrip
rstrip-any p c [] h = refl
rstrip-any p c (d ∷ s) h =
    before_stripped-any p c d (rstrip c s) (ground arith) (rstrip-any p c s (ground arith))

before_stripped-all :
    (p : ℕ → Bool) (c d : ℕ) (t : List ℕ)
    → p d ≡ true
    → all p t ≡ true
    → all p (before_stripped c d t) ≡ true
before_stripped-all p c d [] h k = ground arith
before_stripped-all p c d (e ∷ t) h k = ground arith

rstrip-all : (p : ℕ → Bool) (c : ℕ) (s : List ℕ) → all p s ≡ true → all p (rstrip c s) ≡ true
unfolding rstrip
rstrip-all p c [] h = refl
rstrip-all p c (d ∷ s) h =
    before_stripped-all p c d (rstrip c s) (ground arith) (rstrip-all p c s (ground arith))

module _ (lib : Crypto) (a : Alphabet lib) (key : List ℕ) where
  signature-colon : (s : List ℕ) → has colon (signature lib key s) ≡ false
  unfolding signature
  signature-colon s = rstrip-any (λ d. d == colon) b'=' _ (a.no_colon _)

  signature-ascii : (s : List ℕ) → ascii (signature lib key s) ≡ true
  unfolding signature
  signature-ascii s = rstrip-all (λ c. ltb c 128) b'=' _ (a.is_ascii _)

  -- The signature of a body passes its own check.
  pub check-signature :
      (parts : List (List ℕ))
      → check_signature lib key parts (signature lib key (join colon parts)) ≡ ok tt
  unfolding check_signature compare_digest
  check-signature parts =
      ground (
        arith,
        signature-ascii (join colon parts),
        same_refl (signature lib key (join colon parts)),
      )

  any-snoc :
      (p : List ℕ → Bool) (parts : List (List ℕ)) (s : List ℕ)
      → any p (parts ++ s ∷ []) ≡ (any p parts || p s)
  any-snoc p [] s = ground arith
  any-snoc p (q ∷ parts) s = ground (arith, any-snoc p parts s)

  -- The parts of a signed id are found again.
  pub split-signed_id :
      (p : List ℕ) (parts : List (List ℕ))
      → parts_plain colon (p ∷ parts) ≡ true
      → split colon (signed_id lib key (p ∷ parts))
        ≡ p ∷ parts ++ signature lib key (join colon (p ∷ parts)) ∷ []
  unfolding signed_id
  split-signed_id p parts h =
      split-join colon p (parts ++ signature lib key (join colon (p ∷ parts)) ∷ []) (
        ground (
          arith,
          any-snoc (has colon) parts (signature lib key (join colon (p ∷ parts))),
          signature-colon (join colon (p ∷ parts)),
        ))

  -- A text that is one of two is one of them.
  pub one_of_two :
      (s t u : List ℕ)
      → has colon t ≡ false
      → has colon u ≡ false
      → (same s t || same s u) ≡ true
      → has colon s ≡ false
  one_of_two s t u p q h = elim (Bool-cases (same s t)) [
    | inl first ↦ rw (same_iff-eq s t first) p
    | inr other ↦ rw (same_iff-eq s u (ground arith)) q
  ]

  pub bad_nonce-plain : (s : List ℕ) → bad_nonce s ≡ false → has colon s ≡ false
  unfolding bad_nonce
  bad_nonce-plain [] h = cc
  bad_nonce-plain (c ∷ s) h = h
