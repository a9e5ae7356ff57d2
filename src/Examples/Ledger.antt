-- ===== src/Examples/Ledger.antt =====
-- Logs whose times differ, under an encoding that is read back and a hash of one value.
use Prim.Native.Char.{Char, code}
use text.Mathlib.TextLemmas.{head-eq_of_cons-eq, tail-eq_of_cons-eq}
use tpt_identity.Prelude.{ℕ, ◌≡◌, refl, sym, ap, ◌∙◌, String, List, [], ◌∷◌, arith}
use tpt_identity.Audit.Log.{AuditEvent, Digest, event_hash}
use tpt_identity.Audit.Log.Chain.{Chained, start, link}
use tpt_identity.Audit.Log.Chain.Pinned.{Encodes, SameEvents, Chained-head}
use tpt_identity.Examples.Fixtures.{differ}

-- A text in front of another, each of its characters behind a zero, and a one behind the last.
abbrev framed : String → String → String
framed String.[] k = String.◌∷◌ "1" k
framed (String.◌∷◌ c s) k = String.◌∷◌ "0" (String.◌∷◌ c (framed s k))

abbrev digest : Digest
digest = record {
  marshal = λ t p h. String.◌∷◌ "{" (framed t (framed p (framed h "")));
  sha256_hex = λ s. "h";
}

framed-apart :
    (c d : Char) (s t : String)
    → code c ≡ b'0'
    → code d ≡ b'1'
    → String.◌∷◌ c s ≡ String.◌∷◌ d t
    → ⊥
framed-apart c d s t zero_first one_first e =
    let heads = ap code (head-eq_of_cons-eq e) in omega (arith, heads, zero_first, one_first)

framed-injective : (s t k m : String) → framed s k ≡ framed t m → (s ≡ t) × (k ≡ m)
framed-injective String.[] String.[] k m e = (refl, tail-eq_of_cons-eq e)
framed-injective String.[] (String.◌∷◌ d t) k m e =
    absurd (framed-apart "0" "1" (String.◌∷◌ d (framed t m)) k refl refl (sym e))
framed-injective (String.◌∷◌ c s) String.[] k m e =
    absurd (framed-apart "0" "1" (String.◌∷◌ c (framed s k)) m refl refl e)
framed-injective (String.◌∷◌ c s) (String.◌∷◌ d t) k m e =
    let rest = tail-eq_of_cons-eq e in
    let (same, behind) = framed-injective s t k m (tail-eq_of_cons-eq rest) in
    (ap (λ z. String.◌∷◌ z s) (head-eq_of_cons-eq rest) ∙ ap (String.◌∷◌ d) same, behind)

digest-Encodes : Encodes digest
digest-Encodes = record {
  opens = λ t p h. refl;
  reads_back = λ t p h t' p' h' e.
      let (same, rest) =
        framed-injective t t' (framed p (framed h "")) (framed p' (framed h' ""))
          (tail-eq_of_cons-eq e) in
      let (payload, last) = framed-injective p p' (framed h "") (framed h' "") rest in
      (same, payload, (framed-injective h h' "" "" last).0);
  hex_plain = λ s. (omega arith, tt);
  hex_given = λ s. differ "h" "" refl;
}

abbrev log_at : ℕ → List AuditEvent
log_at t =
    record {
      seq = 1;
      timestamp = t;
      event_type = "login";
      payload = "{}";
      hash = "h";
      prev_hash = "";
    }
    ∷ []

log-Chained : (t : ℕ) → Chained digest (log_at t)
unfolding event_hash
log-Chained t = link refl refl refl start

Chained-head_example : SameEvents (log_at 1) (log_at 2)
Chained-head_example =
    Chained-head digest digest-Encodes (((λ e. refl), tt), tt) (log-Chained 1) (log-Chained 2) refl
