-- ===== src/Vc/Sdjwt/Sound.antt =====
-- What an accepted presentation is: the signatures and digests behind each claim that it discloses.
use tpt_identity.Prelude.{
  ℕ, ◌≡◌, ◌≢◌, ◌⊎◌, refl, String, true, false, List, [], ◌∷◌, some, ◌==◌, arith, inl, inr,
  Option-cases, if◌then◌else◌, eq_iff, eq_refl, Bool-cases,
}
use tpt_identity.Vc.Json.{Json, Members, no_member, member, lookup, put, text_or_empty}
use tpt_identity.Vc.Keys.{Key, Primitives, resolve_signing_key}
use tpt_identity.Vc.Sdjwt.{ok, Outcome-cases, Disclosure, digest, parse_disclosure, mem}
use tpt_identity.Vc.Sdjwt.Verifier.{
  Parsed, parse_sd_jwt, parse_payload, verify_sig, sd_digests, reveal, key_binding, seconds,
  is_past, Verified, verify,
}

-- What verify has passed when it accepts.
pub record Accepted (c : Primitives) (now : ℕ) (token nonce audience : String) (v : Verified)
    : Type 0 where
  pub parsed : Parsed
  pub parses : parse_sd_jwt token ≡ ok parsed
  pub claims : Members
  pub payload : parse_payload c parsed.jwt ≡ some claims
  pub issuer : v.issuer_did ≡ text_or_empty (lookup "iss" claims)
  pub issuer_named : v.issuer_did ≢ ""
  pub key : Key
  pub resolved : resolve_signing_key c v.issuer_did ≡ some key
  pub signed : verify_sig c parsed.jwt key ≡ true
  pub expires : v.expires_at ≡ seconds c (lookup "exp" claims)
  pub current : is_past now v.expires_at ≡ false
  pub revealed :
      reveal c (sd_digests (lookup "_sd" claims)) parsed.disclosures no_member
      ≡ ok v.disclosed_claims
  pub bound : key_binding c parsed claims nonce audience ≡ ok v.key_binding_verified

pub verify-Accepted :
    (c : Primitives) (now : ℕ) (token nonce audience : String) (v : Verified)
    → verify c now token nonce audience ≡ ok v
    → Accepted c now token nonce audience v
unfolding verify
verify-Accepted c now token nonce audience v e = elim (Outcome-cases (parse_sd_jwt token)) [
  | inl (x, bad) ↦ absurd (ground arith)
  | inr (p, parses) ↦ elim (Option-cases (parse_payload c p.jwt)) [
    | inl bad ↦ absurd (ground arith)
    | inr (claims, payload) ↦
        let issuer = text_or_empty (lookup "iss" claims) in
        elim (Option-cases (resolve_signing_key c issuer)) [
          | inl bad ↦ absurd (ground arith)
          | inr (key, resolved) ↦
              elim (Outcome-cases
                (reveal c (sd_digests (lookup "_sd" claims)) p.disclosures no_member)) [
                  | inl (x, bad) ↦ absurd (ground arith)
                  | inr (disclosed, revealed) ↦
                      elim (Outcome-cases (key_binding c p claims nonce audience)) [
                        | inl (x, bad) ↦ absurd (ground arith)
                        | inr (b, bound) ↦ record {
                          parsed = p;
                          parses = parses;
                          claims = claims;
                          payload = payload;
                          issuer = ground arith;
                          issuer_named = ground (arith, eq_iff issuer "");
                          key = key;
                          resolved = ground arith;
                          signed = ground arith;
                          expires = ground arith;
                          current = ground arith;
                          revealed = ground arith;
                          bound = ground arith;
                        }
                      ]
                ]
        ]
  ]
]

pub lookup-put :
    (k j : String) (v : Json) (m : Members)
    → lookup k (put j v m) ≡ (if j == k then some v else lookup k m)
unfolding lookup put
lookup-put k j v no_member = refl
lookup-put k j v (member i u m) =
    ground (arith, eq_iff i j, eq_iff i k, eq_iff j k, lookup-put k j v m)

-- A presented disclosure of the claim, with its digest in the list.
pub record Vouched (c : Primitives) (digests encs : List String) (k : String) (j : Json)
    : Type 0 where
  pub enc : String
  pub presented : mem enc encs ≡ true
  pub disclosure : Disclosure
  pub decodes : parse_disclosure c enc ≡ some disclosure
  pub of_key : disclosure.key ≡ k
  pub of_value : disclosure.value ≡ j
  pub hash : String
  pub hashed : digest c disclosure ≡ some hash
  pub listed : mem hash digests ≡ true

later :
    {c : Primitives} {digests encs : List String} {k : String} {j : Json} (enc : String)
    → Vouched c digests encs k j
    → Vouched c digests (enc ∷ encs) k j
unfolding mem
later enc h = record {
  enc = h.enc;
  presented = ground (arith, h.presented);
  disclosure = h.disclosure;
  decodes = h.decodes;
  of_key = h.of_key;
  of_value = h.of_value;
  hash = h.hash;
  hashed = h.hashed;
  listed = h.listed;
}

reveal-Vouched :
    (c : Primitives) (digests encs : List String) (acc m : Members) (k : String) (j : Json)
    → reveal c digests encs acc ≡ ok m
    → lookup k m ≡ some j
    → Vouched c digests encs k j ⊎ (lookup k acc ≡ some j)
unfolding reveal
reveal-Vouched c digests [] acc m k j e f = inr (ground arith)
reveal-Vouched c digests (enc ∷ encs) acc m k j e f = elim (Option-cases (parse_disclosure c enc)) [
  | inl bad ↦ absurd (ground arith)
  | inr (d, decodes) ↦ elim (Option-cases (digest c d)) [
    | inl bad ↦ absurd (ground arith)
    | inr (h, hashed) ↦ elim (Bool-cases (mem h digests)) [
      | inr other ↦ absurd (ground arith)
      | inl listed ↦
          elim (reveal-Vouched c digests encs (put d.key d.value acc) m k j (ground arith) f) [
            | inl v ↦ inl (later enc v)
            | inr before ↦ elim (Bool-cases (d.key == k)) [
              | inr other ↦ inr (ground (arith, lookup-put k d.key d.value acc))
              | inl same ↦ inl (record {
                enc = enc;
                presented = unfold mem in ground (arith, eq_refl enc);
                disclosure = d;
                decodes = decodes;
                of_key = (eq_iff d.key k).0 same;
                of_value = ground (arith, lookup-put k d.key d.value acc);
                hash = h;
                hashed = hashed;
                listed = listed;
              })
            ]
          ]
    ]
  ]
]

-- Where a claim comes from that verify discloses.
pub record Disclosed (c : Primitives) (now : ℕ) (token : String) (v : Verified) (k : String)
    (j : Json) : Type 0 where
  pub parsed : Parsed
  pub parses : parse_sd_jwt token ≡ ok parsed
  pub claims : Members
  pub payload : parse_payload c parsed.jwt ≡ some claims
  pub issuer : v.issuer_did ≡ text_or_empty (lookup "iss" claims)
  pub key : Key
  pub resolved : resolve_signing_key c v.issuer_did ≡ some key
  pub signed : verify_sig c parsed.jwt key ≡ true
  pub current : is_past now (seconds c (lookup "exp" claims)) ≡ false
  pub vouched : Vouched c (sd_digests (lookup "_sd" claims)) parsed.disclosures k j

-- A claim that verify discloses is one that the issuer signed: the presentation holds a disclosure of the
-- name and value whose digest stands in the `_sd` list of a payload that is not expired, names
-- the issuer, and is signed by the issuer's first active key.
pub verify-Disclosed :
    (c : Primitives) (now : ℕ) (token nonce audience : String) (v : Verified) (k : String)
    (j : Json)
    → verify c now token nonce audience ≡ ok v
    → lookup k v.disclosed_claims ≡ some j
    → Disclosed c now token v k j
unfolding lookup
verify-Disclosed c now token nonce audience v k j e f =
    let a = verify-Accepted c now token nonce audience v e in
    elim (reveal-Vouched c (sd_digests (lookup "_sd" a.claims)) a.parsed.disclosures no_member
      v.disclosed_claims k j a.revealed f) [
        | inr nothing ↦ absurd (ground arith)
        | inl vouched ↦ record {
          parsed = a.parsed;
          parses = a.parses;
          claims = a.claims;
          payload = a.payload;
          issuer = a.issuer;
          key = a.key;
          resolved = a.resolved;
          signed = a.signed;
          current = ground (arith, a.expires, a.current);
          vouched = vouched;
        }
      ]
