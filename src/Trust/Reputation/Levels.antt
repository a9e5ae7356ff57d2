-- ===== src/Trust/Reputation/Levels.antt =====
-- What a DNS record can say of a score, and how scores become levels.
use tpt_identity.Prelude.{
  ℕ, ℤ, pos, negsuc, ◌≤◌, ◌≡◌, inl, inr, refl, String, false, List, [], ◌∷◌, Option, none, some,
  arith, ◌==◌, Bool-cases, Option-cases, subst, ◌↔◌, ◌≢◌, ap,
}
use tpt_identity.Prelude.Words.{fields, cut_at, trim_last}
use tpt_identity.Oidc.Jwt.{◌+++◌}
use tpt_identity.Trust.Reputation.{
  ReputationRecord, Registrar, TrustLevel, Looked, Answer, out_of_range, set_score, read_pair,
  read_word, read_words, parse_words, parse_reputation_txt, first_record, lookup_reputation, looked,
  score_level, level, level_of,
}

-- The place of a level in their order.
abbrev pub rank : TrustLevel → ℕ
rank TrustLevel.unknown = 0
rank TrustLevel.restricted = 1
rank TrustLevel.provisional = 2
rank TrustLevel.verified = 3
rank TrustLevel.trusted = 4

-- -1, or from 0 to 100.
abbrev pub Scored : ℤ → Type 0
Scored (pos n) = n ≤ 100
Scored (negsuc n) = n ≡ 0

-- A record that speaks of its domain.
pub record About (domain : String) (r : ReputationRecord) : Type 0 where
  pub domain_kept : r.domain ≡ domain
  pub scored : Scored r.score

in_range : (n : ℤ) → out_of_range n ≡ false → Scored n
in_range (pos n) h = ground (arith, h)
in_range (negsuc n) h = absurd (cc h)

set_score-About :
    (domain : String) (n : Option ℤ) (r : ReputationRecord)
    → About domain r
    → About domain (set_score n r)
set_score-About domain none r h = h
set_score-About domain (some n) r h = elim (Bool-cases (out_of_range n)) [
  | inl out ↦ rw out h
  | inr inside ↦ rw inside (record { domain_kept = h.domain_kept; scored = in_range n inside })
]

-- A higher score never has a lower level.
pub score_level_mono : (m n : ℕ) → m ≤ n → rank (score_level m) ≤ rank (score_level n)
unfolding score_level
score_level_mono m n h = ground (arith, h)

known : (n : ℕ) → level_of (pos n) ≢ TrustLevel.unknown
unfolding score_level
known n h = ground (arith, h)

unknown_iff :
    (r : ReputationRecord)
    → Scored r.score
    → (level (some r) ≡ TrustLevel.unknown) ↔ (r.score ≡ negsuc 0)
unfolding level
unknown_iff r h = of_score r.score h
  where
    of_score : (n : ℤ) → Scored n → (level_of n ≡ TrustLevel.unknown) ↔ (n ≡ negsuc 0)
    of_score (pos n) k = ((λ e. absurd (known n e)), (λ e. absurd (cc e)))
    of_score (negsuc n) k = ((λ _. ap negsuc k), (λ _. refl))

module _ {Key : Type 0} (g : Registrar Key) (domain : String) where
  read_pair-About :
      (k v : String) (r : ReputationRecord) → About domain r → About domain (read_pair g k v r)
  read_pair-About k v r h = elim (Bool-cases (k == "score")) [
    | inl e ↦ rw e (set_score-About domain (g.atoi v) r h)
    | inr other ↦ rw other (ground (arith, h.domain_kept, h.scored))
  ]

  read_word-About :
      (word : String) (r : ReputationRecord) → About domain r → About domain (read_word g word r)
  unfolding read_word
  read_word-About word r h = elim (Option-cases (cut_at b'=' word)) [
    | inl stop ↦ rw (stop, read_word) h
    | inr ((k, v), cut) ↦ rw (cut, read_word) (read_pair-About k v r h)
  ]

  read_words-About :
      (words : List String) (r : ReputationRecord)
      → About domain r
      → About domain (read_words g words r)
  unfolding read_words
  read_words-About [] r h = h
  read_words-About (word ∷ words) r h =
      read_words-About words (read_word g word r) (read_word-About word r h)

  parse_words-About :
      (txt : String) (words : List String) (r : ReputationRecord)
      → parse_words g domain txt words ≡ some r
      → About domain r
  parse_words-About txt [] r e = absurd (cc e)
  parse_words-About txt (version ∷ words) r e = elim (Bool-cases (version == "v=tpt1")) [
    | inl right ↦
        let begun : ReputationRecord = record {
          domain = domain;
          score = negsuc 0;
          tier = "";
          since = "";
          raw = txt;
        } in
        let made : read_words g words begun ≡ r = ground (arith, right, e) in
        subst (About domain) made
          (read_words-About words begun (record { domain_kept = refl; scored = refl }))
    | inr wrong ↦ absurd (ground (arith, wrong, e))
  ]

  first_record-About :
      (records : List String) (r : ReputationRecord)
      → first_record g domain records ≡ some r
      → About domain r
  unfolding first_record parse_reputation_txt
  first_record-About [] r e = absurd (cc e)
  first_record-About (txt ∷ records) r e = elim (Option-cases (parse_reputation_txt g domain txt)) [
    | inl other ↦ first_record-About records r (ground (arith, other, e))
    | inr (q, parsed) ↦ parse_words-About txt (fields txt) r (ground (arith, parsed, e))
  ]

  -- Whatever texts the DNS answers with, a record that a lookup gives is about the domain asked for,
  -- and its score is from 0 to 100, or -1, whose level is unknown.
  pub lookup_reputation-About :
      (lookup_txt : String → Answer) (r : ReputationRecord)
      → lookup_reputation g lookup_txt domain ≡ Looked.found (some r)
      → About domain r × ((level (some r) ≡ TrustLevel.unknown) ↔ (r.score ≡ negsuc 0))
  unfolding lookup_reputation
  lookup_reputation-About lookup_txt r e =
      of_answer (lookup_txt ("_tpt-rep." +++ trim_last b'.' domain)) e
    where
      of_answer :
          (a : Answer)
          → looked g domain a ≡ Looked.found (some r)
          → About domain r × ((level (some r) ≡ TrustLevel.unknown) ↔ (r.score ≡ negsuc 0))
      of_answer (Answer.texts records) h =
          let k = first_record-About records r (ground (arith, h)) in (k, unknown_iff r k.scored)
      of_answer (Answer.error msg) h = absurd (ground (arith, h))
