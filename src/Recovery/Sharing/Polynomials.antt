-- ===== src/Recovery/Sharing/Polynomials.antt =====
-- The polynomials that Split draws: each has its byte of the secret for its lowest coefficient.
use tpt_identity.Prelude.{
  ℕ, suc, ◌≡◌, refl, sym, ap, ◌∙◌, subst, List, [], ◌∷◌, length, Option-cases, Option, some, none,
  inl, inr, ◌<◌,
}
use tpt_identity.Recovery.Sharing.{onto_polynomials, polynomials}
use tpt_identity.Recovery.Sharing.Bytes.{Byte, values}
use tpt_identity.Recovery.Sharing.Hex.{AllBytes}

-- What the code relies on of rand.Read: it fills the coefficients above the lowest with bytes.
pub record Fills (random : ℕ → Option (List ℕ)) (threshold : ℕ) : Type 0 where
  pub count : (k : ℕ) (coeffs : List ℕ) → random k ≡ some coeffs → suc (length coeffs) ≡ threshold
  pub bytes : (k : ℕ) (coeffs : List ℕ) → random k ≡ some coeffs → AllBytes coeffs

-- The polynomial of a byte of the secret.
pub record Carries (threshold b : ℕ) (p : List ℕ) : Type 0 where
  pub lowest : Byte
  pub others : List Byte
  pub coefficients : p ≡ values (lowest ∷ others)
  pub is_secret : lowest.0 ≡ b
  pub counted : suc (length others) ≡ threshold

abbrev pub CarryAll : ℕ → List ℕ → List (List ℕ) → Type 0
CarryAll t [] [] = Unit {0}
CarryAll t [] (p ∷ polys) = ⊥
CarryAll t (b ∷ secret) [] = ⊥
CarryAll t (b ∷ secret) (p ∷ polys) = Carries t b p × CarryAll t secret polys

to_bytes : (l : List ℕ) → AllBytes l → List Byte
to_bytes [] h = []
to_bytes (b ∷ l) h = (b, h.0) ∷ to_bytes l h.1

values-to_bytes : (l : List ℕ) (h : AllBytes l) → values (to_bytes l h) ≡ l
unfolding to_bytes
values-to_bytes [] h = refl
values-to_bytes (b ∷ l) h = ap (λ t. b ∷ t) (values-to_bytes l h.1)

length-to_bytes : (l : List ℕ) (h : AllBytes l) → length (to_bytes l h) ≡ length l
unfolding to_bytes
length-to_bytes [] h = refl
length-to_bytes (b ∷ l) h = ap suc (length-to_bytes l h.1)

module _ (random : ℕ → Option (List ℕ)) (t : ℕ) (fills : Fills random t) where
  carries :
      (k b : ℕ) (coeffs : List ℕ) → random k ≡ some coeffs → b < 256 → Carries t b (b ∷ coeffs)
  carries k b coeffs e h = record {
    lowest = (b, h);
    others = to_bytes coeffs (fills.bytes k coeffs e);
    coefficients = ap (λ l. b ∷ l) (sym (values-to_bytes coeffs (fills.bytes k coeffs e)));
    is_secret = refl;
    counted = ap suc (length-to_bytes coeffs (fills.bytes k coeffs e)) ∙ fills.count k coeffs e;
  }

  pub polynomials-CarryAll :
      (k : ℕ) (secret : List ℕ) (polys : List (List ℕ))
      → AllBytes secret
      → polynomials random k secret ≡ some polys
      → CarryAll t secret polys
  unfolding polynomials
  polynomials-CarryAll k [] [] h e = tt
  polynomials-CarryAll k [] (p ∷ polys) h e = absurd (cc e)
  polynomials-CarryAll k (b ∷ secret) polys h e = elim (Option-cases (random k)) [
    | inl stuck ↦ absurd (no_read stuck)
    | inr (coeffs, read) ↦ elim (Option-cases (polynomials random (suc k) secret)) [
      | inl stuck ↦ absurd (no_rest coeffs read stuck)
      | inr (rest, more) ↦
          subst (CarryAll t (b ∷ secret)) (result coeffs rest read more)
            (carries k b coeffs read h.0, polynomials-CarryAll (suc k) secret rest h.1 more)
    ]
  ]
    where
      no_read : random k ≡ none → ⊥
      no_read stuck =
          cc (sym e ∙ ap (λ r. onto_polynomials b r (polynomials random (suc k) secret)) stuck)

      no_rest :
          (coeffs : List ℕ) → random k ≡ some coeffs → polynomials random (suc k) secret ≡ none → ⊥
      no_rest coeffs read stuck = cc (sym e ∙ (λ i. onto_polynomials b (read i) (stuck i)))

      result :
          (coeffs : List ℕ) (rest : List (List ℕ))
          → random k ≡ some coeffs
          → polynomials random (suc k) secret ≡ some rest
          → (b ∷ coeffs) ∷ rest ≡ polys
      result coeffs rest read more = cc (sym (λ i. onto_polynomials b (read i) (more i)) ∙ e)
