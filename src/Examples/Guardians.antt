-- ===== src/Examples/Guardians.antt =====
-- A secret split among three guardians, and put together again by two of them.
use tpt_identity.Prelude.{
  ℕ, ◌≡◌, refl, sym, ap, subst, List, [], ◌∷◌, Option, some, arith, inl, inr, suc, length,
}
use tpt_identity.Recovery.Field.{gf_mul}
use tpt_identity.Recovery.Sharing.{Share, split, combine}
use tpt_identity.Recovery.Sharing.Hex.{AllBytes}
use tpt_identity.Recovery.Sharing.Polynomials.{Fills}
use tpt_identity.Recovery.Sharing.Rebuilt.{combine-split}

-- A source of random bytes that gives 7 each time.
abbrev sevens : ℕ → Option (List ℕ)
sevens k = some (7 ∷ [])

drawn : (coeffs : List ℕ) → some (7 ∷ []) ≡ some coeffs → 7 ∷ [] ≡ coeffs
drawn coeffs e = cc e

sevens-Fills : Fills sevens 2
sevens-Fills = record {
  count = λ k coeffs e. ap (λ l. suc (length l)) (sym (drawn coeffs e));
  bytes = λ k coeffs e. subst AllBytes (drawn coeffs e) (omega arith, tt);
}

abbrev secret : List ℕ
secret = 42 ∷ 200 ∷ []

abbrev share : ℕ → ℕ → ℕ → Share
share i a b = record { index = i; value = a ∷ b ∷ [] }

abbrev all_shares : List Share
all_shares = share 1 45 207 ∷ share 2 36 198 ∷ share 3 35 193 ∷ []

split_run : split sevens secret 2 3 ≡ some all_shares
unfolding split gf_mul
split_run = refl

combine-split_example : combine (share 3 35 193 ∷ share 1 45 207 ∷ []) ≡ some secret
combine-split_example =
    combine-split sevens secret 2 3 all_shares (share 3 35 193 ∷ share 1 45 207 ∷ []) sevens-Fills
      (omega arith, (omega arith, tt)) split_run (inr (inr (inl refl)), (inl refl, tt))
      ((omega arith, tt), (tt, tt)) (omega arith)
