-- ===== src/Examples/Services.antt =====
-- Permits and reputations at concrete inputs.
use text.Mathlib.TextLemmas.{cons≢nil}
use tpt_identity.Prelude.{
  ℕ, zero, suc, pos, ◌*◌, ◌/◌, ◌≡◌, ◌↔◌, refl, ap, subst, if◌then◌else◌, nat_beq, length, inl, inr,
  Bool-cases, String, Bool, true, false, [], ◌∷◌, none, some, arith, eq_iff, ◌==◌,
}
use tpt_identity.Oidc.Jwt.{second}
use tpt_identity.Oidc.Jwt.Laws.{NoDot}
use tpt_identity.Trust.Permit.{Permit, PermitCodec, permit_at, issue_permit, verify_permit}
use tpt_identity.Trust.Permit.Laws.{Encodes, Fits, verify_permit-issue_permit}
use tpt_identity.Trust.Reputation.{
  ReputationRecord, ReputationVc, Registrar, Looked, Answer, out_of_range, assessment, proof_with,
  issue_reputation_vc, verify_reputation_vc, lookup_reputation, parse_reputation_txt,
}
use tpt_identity.Trust.Reputation.Issued.{Reads, Times, Lasts, verify_reputation_vc-issue}

abbrev given : Permit
given =
    permit_at "did:web:mail" "did:alice" "did:web:health" "read:email" (pos (60 * second)) "j1" 0

-- One payload, and a signature that is one bit.
abbrev toy : PermitCodec (Unit {0}) Bool
toy = record {
  header = "head";
  marshal = λ _. some "body";
  unmarshal = λ _. some given;
  encode_sig = λ s. elim s [ true ↦ "t" | false ↦ "f" ];
  decode_sig = λ s. some (s == "t");
  sign = λ _ _. true;
  verify = λ _ _ s. s;
}

body_plain : (t : String) → some "body" ≡ some t → NoDot t
body_plain t e =
    subst NoDot (text_of t e) (omega arith, (omega arith, (omega arith, (omega arith, tt))))
  where
    text_of : (t : String) → some "body" ≡ some t → "body" ≡ t
    text_of t e = cc e

toy-Encodes : Encodes toy tt given
toy-Encodes = record {
  header_plain = (omega arith, (omega arith, (omega arith, (omega arith, tt))));
  payload_plain = body_plain;
  reads_back = λ t e. refl;
  sig_plain = elim [ true ↦ (omega arith, tt) | false ↦ (omega arith, tt) ];
  sig_back = elim [ true ↦ refl | false ↦ refl ];
  signed = λ m. refl;
}

verify_permit-issue_permit_example :
    (verify_permit toy "head.body.t" tt "" "read:email" (30 * second) ≡ some given)
    ↔ ((given ≡ given) × Fits given "" "read:email" (30 * second))
verify_permit-issue_permit_example =
    verify_permit-issue_permit toy "did:web:mail" "did:alice" "did:web:health" "read:email" "j1"
      "head.body.t" "" "read:email" tt (pos (60 * second)) 0 (30 * second) given toy-Encodes
      issued_run
  where
    issued_run :
        issue_permit toy "did:web:mail" tt "did:alice" "did:web:health" "read:email"
          (pos (60 * second))
          "j1"
          0
        ≡ some "head.body.t"
    issued_run = unfold issue_permit in refl

-- A time as a text: one character for each second.
abbrev marks : ℕ → String
marks zero = ""
marks (suc n) = String.◌∷◌ "|" (marks n)

abbrev count : String → ℕ
count String.[] = 0
count (String.◌∷◌ c s) = suc (count s)

abbrev behind_first : String → ℕ
behind_first String.[] = 0
behind_first (String.◌∷◌ c s) = count s

not_empty : (s : String) → (String.◌∷◌ "T" s) == "" ≡ false
not_empty s = elim (Bool-cases ((String.◌∷◌ "T" s) == "")) [
  | inl e ↦ absurd (cons≢nil ((eq_iff (String.◌∷◌ "T" s) "").0 e))
  | inr e ↦ e
]

count-marks : (n : ℕ) → count (marks n) ≡ n
count-marks zero = refl
count-marks (suc n) = ap suc (count-marks n)

abbrev good : ReputationRecord
good = record {
  domain = "shop.nz";
  score = pos 90;
  tier = "trusted";
  since = "2020-01-01";
  raw = "";
}

abbrev blank : Registrar (Unit {0})
blank = record {
  jcs_options = λ _. some (1 ∷ []);
  jcs_document = λ _. some (2 ∷ []);
  marshal = λ v p. some "json";
  unmarshal = λ _. none;
  sha256 = λ m. m;
  sign = λ _ m. 9 ∷ [];
  verify = λ _ m s. nat_beq (length s) 1;
  base64_encode = λ _. "CQ";
  base64_decode = λ _. some (9 ∷ []);
  rfc3339 = λ t. String.◌∷◌ "T" (marks (t / second));
  parse_time = λ s. some (behind_first s * second);
  atoi = λ s. if s == "90" then some (pos 90) else none;
}

abbrev rated : ReputationVc
rated = assessment blank "did:web:authority" "shop.nz" good (pos (60 * second)) "u1" 0

abbrev registrar : Registrar (Unit {0})
registrar = record blank { unmarshal = λ _. some (rated, some (proof_with blank "vm" 0 "CQ")) }

registrar-Times : Times registrar
registrar-Times = record {
  time_back = λ t. ap (λ (n : ℕ). some (n * second)) (count-marks (t / second));
  time_given = λ t. not_empty (marks (t / second));
}

registrar-Reads : Reads registrar tt rated (proof_with registrar "vm" 0)
registrar-Reads = record { json_back = λ m t e. refl; sig_back = λ m. refl; signed = λ m. refl }

rated_run :
    issue_reputation_vc registrar "did:web:authority" tt "vm" "shop.nz" good
      (pos (60 * second))
      "u1"
      0
    ≡ some "json"
unfolding issue_reputation_vc
rated_run = refl

verify_reputation_vc-issue_example :
    (out_of_range (pos 90) ≡ false)
    × ((verify_reputation_vc registrar "json" tt (30 * second) ≡ some good)
        ↔ ((good ≡ good) × Lasts 0 (pos (60 * second)) (30 * second)))
verify_reputation_vc-issue_example =
    verify_reputation_vc-issue registrar tt registrar-Times "did:web:authority" "vm" "shop.nz" "u1"
      "json" good (pos (60 * second)) 0 (30 * second) good registrar-Reads rated_run

abbrev looked_up : ReputationRecord
looked_up = record {
  domain = "shop.nz.";
  score = pos 90;
  tier = "trusted";
  since = "";
  raw = "v=tpt1 score=90 tier=trusted";
}

abbrev dns : String → Answer
dns host =
    if host == "_tpt-rep.shop.nz"
    then Answer.texts ("spf" ∷ "v=tpt1 score=90 tier=trusted" ∷ [])
    else Answer.error "no such host"

lookup_run : lookup_reputation registrar dns "shop.nz." ≡ Looked.found (some looked_up)
unfolding lookup_reputation parse_reputation_txt
lookup_run = refl
