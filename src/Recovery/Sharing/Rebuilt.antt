-- ===== src/Recovery/Sharing/Rebuilt.antt =====
-- Combine gives back what Split divided, from any shares that are as many as the threshold.
use tpt_identity.Prelude.{
  ℕ, zero, suc, ◌+◌, ◌≡◌, ◌≢◌, refl, ap, ◌∙◌, subst, true, false, List, [], ◌∷◌, map, nat_beq, not,
  if◌then◌else◌, length, Option-cases, Option, some, none, inl, inr, ◌⊎◌, arith, ◌≤◌, nat_beq_iff,
}
use tpt_identity.Recovery.Interpolation.{eval, Distinct, Apart, eval-zero}
use tpt_identity.Recovery.Sharing.{
  Share, gf_poly_eval, gf_lagrange, polynomials, shares_from, split, same_lengths, byte_at,
  recovered, combine,
}
use tpt_identity.Recovery.Sharing.Bytes.{Byte, byte_field, values, gf_poly_eval-eval}
use tpt_identity.Recovery.Sharing.Hex.{AllBytes}
use tpt_identity.Recovery.Sharing.Lagrange.{drop, drop-suc, gf_lagrange-eval}
use tpt_identity.Recovery.Sharing.Polynomials.{Fills, Carries, CarryAll, polynomials-CarryAll}

abbrev pub Among : Share → List Share → Type 0
Among s [] = ⊥
Among s (t ∷ shares) = (s ≡ t) ⊎ Among s shares

abbrev pub AllAmong : List Share → List Share → Type 0
AllAmong [] shares = Unit {0}
AllAmong (s ∷ chosen) shares = Among s shares × AllAmong chosen shares

abbrev pub OtherIndexes : ℕ → List Share → Type 0
OtherIndexes i [] = Unit {0}
OtherIndexes i (s ∷ shares) = (s.index ≢ i) × OtherIndexes i shares

abbrev pub DistinctIndexes : List Share → Type 0
DistinctIndexes [] = Unit {0}
DistinctIndexes (s ∷ shares) = OtherIndexes s.index shares × DistinctIndexes shares

abbrev share_at : List (List ℕ) → ℕ → Share
share_at polys i = record { index = i; value = map (λ p. gf_poly_eval p i) polys }

abbrev shares_at : List (List ℕ) → List Byte → List Share
shares_at polys [] = []
shares_at polys (x ∷ xs) = share_at polys x.0 ∷ shares_at polys xs

-- What is among the shares of the indices from `i` on is the share of one of them.
Among-share_at :
    (polys : List (List ℕ)) (s : Share) (i n : ℕ)
    → i + n ≤ 256
    → Among s (shares_from polys i n)
    → (x : Byte) × (s ≡ share_at polys x.0)
unfolding shares_from
Among-share_at polys s i zero h m = absurd m
Among-share_at polys s i (suc n) h (inl e) = ((i, omega arith), e)
Among-share_at polys s i (suc n) h (inr m) = Among-share_at polys s (suc i) n (omega arith) m

AllAmong-shares_at :
    (polys : List (List ℕ)) (n : ℕ) (chosen : List Share)
    → n ≤ 255
    → AllAmong chosen (shares_from polys 1 n)
    → (xs : List Byte) × (chosen ≡ shares_at polys xs)
AllAmong-shares_at polys n [] h m = ([], refl)
AllAmong-shares_at polys n (s ∷ chosen) h m =
    let one = Among-share_at polys s 1 n (omega arith) m.0 in
    let others = AllAmong-shares_at polys n chosen h m.1 in
    (one.0 ∷ others.0, λ i. one.1 i ∷ others.1 i)

length-shares_at :
    (polys : List (List ℕ)) (xs : List Byte) → length (shares_at polys xs) ≡ length xs
length-shares_at polys [] = refl
length-shares_at polys (x ∷ xs) = ap suc (length-shares_at polys xs)

beq_of_ne : (a b : ℕ) → a ≢ b → nat_beq a b ≡ false
beq_of_ne a b h = ground arith

Apart-other :
    (polys : List (List ℕ)) (x : Byte) (xs : List Byte)
    → OtherIndexes x.0 (shares_at polys xs)
    → Apart byte_field x xs
Apart-other polys x [] h = tt
Apart-other polys x (y ∷ xs) h = (beq_of_ne y.0 x.0 h.0, Apart-other polys x xs h.1)

Distinct-indexes :
    (polys : List (List ℕ)) (xs : List Byte)
    → DistinctIndexes (shares_at polys xs)
    → Distinct byte_field xs
Distinct-indexes polys [] h = tt
Distinct-indexes polys (x ∷ xs) h = (Apart-other polys x xs h.0, Distinct-indexes polys xs h.1)

module _ (polys : List (List ℕ)) where
  indexes_of : (xs : List Byte) → map (λ (s : Share). s.index) (shares_at polys xs) ≡ values xs
  indexes_of [] = refl
  indexes_of (x ∷ xs) = ap (λ t. x.0 ∷ t) (indexes_of xs)

  byte_at-drop :
      (k : ℕ) (p : List ℕ) (rest : List (List ℕ)) (i : ℕ)
      → drop k polys ≡ p ∷ rest
      → byte_at k (map (λ q. gf_poly_eval q i) polys) ≡ gf_poly_eval p i
  byte_at-drop k p rest i e = within k polys e
    where
      within :
          (k : ℕ) (all : List (List ℕ))
          → drop k all ≡ p ∷ rest
          → byte_at k (map (λ q. gf_poly_eval q i) all) ≡ gf_poly_eval p i
      within zero [] e = absurd (cc e)
      within (suc k) [] e = absurd (cc e)
      within zero (q ∷ all) e = cc
      within (suc k) (q ∷ all) e = within k all e

  values_of :
      (k t b : ℕ) (p : List ℕ) (rest : List (List ℕ)) (xs : List Byte) (c : Carries t b p)
      → drop k polys ≡ p ∷ rest
      → map (λ (s : Share). byte_at k s.value) (shares_at polys xs)
        ≡ values (map (eval byte_field (c.lowest ∷ c.others)) xs)
  values_of k t b p rest [] c e = refl
  values_of k t b p rest (x ∷ xs) c e = λ i. value x i ∷ values_of k t b p rest xs c e i
    where
      value :
          (x : Byte)
          → byte_at k (map (λ q. gf_poly_eval q x.0) polys)
            ≡ (eval byte_field (c.lowest ∷ c.others) x).0
      value x =
          byte_at-drop k p rest x.0 e
          ∙ ap (λ q. gf_poly_eval q x.0) c.coefficients
          ∙ gf_poly_eval-eval (c.lowest ∷ c.others) x

  recovered_byte :
      (k t b : ℕ) (p : List ℕ) (rest : List (List ℕ)) (xs : List Byte)
      → Carries t b p
      → drop k polys ≡ p ∷ rest
      → t ≤ length xs
      → Distinct byte_field xs
      → gf_lagrange
          (map (λ (s : Share). s.index) (shares_at polys xs))
          (map (λ (s : Share). byte_at k s.value) (shares_at polys xs))
        ≡ b
  recovered_byte k t b p rest xs c e n h =
      (λ i. gf_lagrange (indexes_of xs i) (values_of k t b p rest xs c e i))
      ∙ gf_lagrange-eval xs (c.lowest ∷ c.others) (omega (arith, c.counted)) h
      ∙ ap (λ (x : Byte). x.0) (eval-zero byte_field c.lowest c.others)
      ∙ c.is_secret

  recovered_secret :
      (k t : ℕ) (secret : List ℕ) (rest : List (List ℕ)) (xs : List Byte)
      → CarryAll t secret rest
      → drop k polys ≡ rest
      → t ≤ length xs
      → Distinct byte_field xs
      → recovered (shares_at polys xs) k (length secret) ≡ secret
  unfolding recovered
  recovered_secret k t [] rest xs c e n h = refl
  recovered_secret k t (b ∷ secret) [] xs c e n h = absurd c
  recovered_secret k t (b ∷ secret) (p ∷ rest) xs c e n h = λ i.
      recovered_byte k t b p rest xs c.0 e n h i
      ∷ recovered_secret (suc k) t secret rest xs c.1 (drop-suc k polys p rest e) n h i

length-values :
    (f g : List ℕ → ℕ) (polys : List (List ℕ)) → length (map f polys) ≡ length (map g polys)
length-values f g [] = refl
length-values f g (p ∷ polys) = ap suc (length-values f g polys)

length-CarryAll :
    (t : ℕ) (f : List ℕ → ℕ) (secret : List ℕ) (polys : List (List ℕ))
    → CarryAll t secret polys
    → length (map f polys) ≡ length secret
length-CarryAll t f [] [] c = refl
length-CarryAll t f [] (p ∷ polys) c = absurd c
length-CarryAll t f (b ∷ secret) [] c = absurd c
length-CarryAll t f (b ∷ secret) (p ∷ polys) c = ap suc (length-CarryAll t f secret polys c.1)

same_lengths-shares_at :
    (polys : List (List ℕ)) (g : List ℕ → ℕ) (xs : List Byte)
    → same_lengths (length (map g polys)) (shares_at polys xs) ≡ true
unfolding same_lengths
same_lengths-shares_at polys g [] = refl
same_lengths-shares_at polys g (x ∷ xs) = rw (
  same_lengths,
  (nat_beq_iff _ _).1 (length-values (λ p. gf_poly_eval p x.0) g polys),
  same_lengths-shares_at polys g xs,
)

combine-shares_at :
    (t : ℕ) (secret : List ℕ) (polys : List (List ℕ)) (xs : List Byte)
    → 2 ≤ t
    → CarryAll t secret polys
    → t ≤ length xs
    → Distinct byte_field xs
    → combine (shares_at polys xs) ≡ some secret
unfolding combine
combine-shares_at t secret polys [] two c n h = absurd (omega arith)
combine-shares_at t secret polys (x ∷ []) two c n h = absurd (omega arith)
combine-shares_at t secret polys (x ∷ y ∷ xs) two c n h =
    ap
      (λ b.
        if not b
        then none
        else some (
            recovered (shares_at polys (x ∷ y ∷ xs)) 0
              (length (map (λ p. gf_poly_eval p x.0) polys))))
      (same_lengths-shares_at polys (λ p. gf_poly_eval p x.0) (y ∷ xs))
    ∙ ap (λ l. some (recovered (shares_at polys (x ∷ y ∷ xs)) 0 l))
        (length-CarryAll t (λ p. gf_poly_eval p x.0) secret polys c)
    ∙ ap some (recovered_secret polys 0 t secret polys (x ∷ y ∷ xs) c refl n h)

record Divided (random : ℕ → Option (List ℕ)) (secret : List ℕ) (t n : ℕ) (shares : List Share)
    : Type 0 where
  polys : List (List ℕ)
  drawn : polynomials random 0 secret ≡ some polys
  made : shares ≡ shares_from polys 1 n
  at_least_two : 2 ≤ t
  at_most : n ≤ 255

split-Divided :
    (random : ℕ → Option (List ℕ)) (secret : List ℕ) (t n : ℕ) (shares : List Share)
    → split random secret t n ≡ some shares
    → Divided random secret t n shares
unfolding split
split-Divided random secret t n shares e = elim (Option-cases (polynomials random 0 secret)) [
  | inl stuck ↦ absurd (ground (arith, stuck, e))
  | inr (polys, drawn) ↦ record {
    polys = polys;
    drawn = drawn;
    made = ground (arith, drawn, e);
    at_least_two = ground (arith, e);
    at_most = ground (arith, e);
  }
]

-- Shares of Split that have different indices, and are at least as many as the threshold, combine
-- to the secret: whichever they are and in whatever order.
pub combine-split :
    (random : ℕ → Option (List ℕ)) (secret : List ℕ) (threshold n : ℕ) (shares chosen : List Share)
    → Fills random threshold
    → AllBytes secret
    → split random secret threshold n ≡ some shares
    → AllAmong chosen shares
    → DistinctIndexes chosen
    → threshold ≤ length chosen
    → combine chosen ≡ some secret
combine-split random secret t n shares chosen fills bytes e among distinct enough =
    ap combine located.1
    ∙ combine-shares_at t secret d.polys located.0 d.at_least_two
        (polynomials-CarryAll random t fills 0 secret d.polys bytes d.drawn)
        (omega (arith, ap length located.1, length-shares_at d.polys located.0, enough))
        (Distinct-indexes d.polys located.0 (subst DistinctIndexes located.1 distinct))
  where
    d : Divided random secret t n shares
    d = split-Divided random secret t n shares e

    located : (xs : List Byte) × (chosen ≡ shares_at d.polys xs)
    located = AllAmong-shares_at d.polys n chosen d.at_most (subst (AllAmong chosen) d.made among)
