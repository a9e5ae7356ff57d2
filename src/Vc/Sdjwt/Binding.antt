-- ===== src/Vc/Sdjwt/Binding.antt =====
-- Key binding: what verify demands of it, and what PresentWithKeyBinding makes.
use text.Mathlib.TextLemmas.{append_assoc}
use tpt_identity.Prelude.{
  ℕ, ◌≡◌, ◌≢◌, refl, String, true, List, some, not, ◌==◌, ◌||◌, arith, inl, inr, Option-cases,
  eq_iff,
}
use tpt_identity.Oidc.Jwt.{◌+++◌}
use tpt_identity.Vc.Json.{Members, lookup, text_or_empty}
use tpt_identity.Vc.Keys.{Key, Primitives}
use tpt_identity.Vc.Sdjwt.{
  ok, Token, select, serialize_with, present, present_with_key_binding, jwt_header, kb_claims,
  kb_members, sign_sd_jwt, join_tilde,
}
use tpt_identity.Vc.Sdjwt.Verifier.{
  Parsed, parse_sd_jwt, parse_payload, verify_sig, key_binding, verify_kb_jwt, extract_holder_key,
  sd_hash_of, Verified, verify,
}
use tpt_identity.Vc.Sdjwt.Parts.{NoTilde, Encoded, parse-join, trim_tilde-append}
use tpt_identity.Vc.Sdjwt.Signed.{
  Carried, sign-Compact, payload-Compact, AllHeld, texts_of, AllEncoded-texts,
}
use tpt_identity.Vc.Sdjwt.Sound.{verify-Accepted}

-- What verify has seen of a holder's key-binding token.
pub record KeyBound (c : Primitives) (token nonce audience : String) : Type 0 where
  pub parsed : Parsed
  pub parses : parse_sd_jwt token ≡ ok parsed
  pub claims : Members
  pub payload : parse_payload c parsed.jwt ≡ some claims
  pub holder : Key
  pub confirmed : extract_holder_key c claims ≡ some holder
  pub kb_claims : Members
  pub kb_payload : parse_payload c parsed.kb_token ≡ some kb_claims
  pub fresh : (nonce == "" || text_or_empty (lookup "nonce" kb_claims) == nonce) ≡ true
  pub addressed : (audience == "" || text_or_empty (lookup "aud" kb_claims) == audience) ≡ true
  pub hashed : text_or_empty (lookup "sd_hash" kb_claims) ≡ sd_hash_of c parsed
  pub signed : verify_sig c parsed.kb_token holder ≡ true

-- Where verify accepts and a nonce or an audience is expected, or the result says so, the
-- key-binding token that ParseSDJWT reads out of the presentation, wherever it stands there, has
-- that nonce and that audience where they are expected and the hash of the issuer's token and the
-- disclosures read, and is signed by the key of the issuer's `cnf` claim.
pub verify-KeyBound :
    (c : Primitives) (now : ℕ) (token nonce audience : String) (v : Verified)
    → verify c now token nonce audience ≡ ok v
    → (not (nonce == "") || not (audience == "") || v.key_binding_verified) ≡ true
    → KeyBound c token nonce audience
unfolding key_binding verify_kb_jwt
verify-KeyBound c now token nonce audience v e wanted =
    let a = verify-Accepted c now token nonce audience v e in
    elim (Option-cases (extract_holder_key c a.claims)) [
      | inl bad ↦ absurd (ground (arith, a.bound))
      | inr (holder, confirmed) ↦ elim (Option-cases (parse_payload c a.parsed.kb_token)) [
        | inl bad ↦ absurd (ground (arith, a.bound))
        | inr (kb, kb_payload) ↦ record {
          parsed = a.parsed;
          parses = a.parses;
          claims = a.claims;
          payload = a.payload;
          holder = holder;
          confirmed = confirmed;
          kb_claims = kb;
          kb_payload = kb_payload;
          fresh = ground (arith, a.bound);
          addressed = ground (arith, a.bound);
          hashed = ground (
            arith,
            a.bound,
            eq_iff (text_or_empty (lookup "sd_hash" kb)) (sd_hash_of c a.parsed),
          );
          signed = ground (arith, a.bound);
        }
      ]
    ]

-- The parts of a presentation with a key-binding token.
pub record Presented (c : Primitives) (t : Token) (keys : List String) (holder : Key)
    (nonce audience : String) (now : ℕ) (token : String) : Type 0 where
  pub kb : String
  pub parses :
      parse_sd_jwt token
      ≡ ok (record {
        jwt = t.jwt;
        disclosures = texts_of c (select keys t.disclosures);
        kb_token = kb;
      })
  pub some_text : kb ≢ ""
  pub payload : Members
  pub says :
      payload
      ≡ kb_members c nonce audience
          (c.sha256 (join_tilde t.jwt (texts_of c (select keys t.disclosures))))
          now
  pub reads : parse_payload c kb ≡ some payload

present-Presented :
    (c : Primitives) (t : Token) (keys : List String) (holder : Key) (kid nonce audience : String)
    (now : ℕ) (token : String)
    → present_with_key_binding c t keys holder kid nonce audience now ≡ some token
    → NoTilde t.jwt
    → AllHeld c (select keys t.disclosures)
    → Carried c (jwt_header kid "kb+jwt")
    → Carried c (
        kb_claims c nonce audience
          (c.sha256 (join_tilde t.jwt (texts_of c (select keys t.disclosures))))
          now)
    → ((m : String) → Encoded (c.sign holder m))
    → Presented c t keys holder nonce audience now token
unfolding present_with_key_binding present serialize_with
present-Presented c t keys holder kid nonce audience now token e no_tilde held header claims signs =
    let parts = texts_of c (select keys t.disclosures) in
    let base = join_tilde t.jwt parts in
    let body = kb_claims c nonce audience (c.sha256 base) now in
    elim (Option-cases (sign_sd_jwt c body holder kid "kb+jwt")) [
      | inl bad ↦ absurd (ground (arith, trim_tilde-append base))
      | inr (kb, made) ↦
          let whole : token ≡ (base +++ "~") +++ kb = ground (arith, trim_tilde-append base) in
          let flat : (base +++ "~") +++ kb ≡ base +++ "~" +++ kb = rw append_assoc refl in
          let compact = sign-Compact c body holder kid "kb+jwt" kb made header claims signs in
          record {
            kb = kb;
            parses =
                rw (whole, flat)
                  (parse-join t.jwt parts kb no_tilde (AllEncoded-texts c _ held) (record {
                    no_tilde = compact.no_tilde;
                    kind = inr (compact.some_text, compact.two_dots);
                  }));
            some_text = compact.some_text;
            payload = kb_members c nonce audience (c.sha256 base) now;
            says = refl;
            reads = payload-Compact c holder _ kb compact;
          }
    ]

hash-says :
    (c : Primitives) (nonce audience h : String) (now : ℕ)
    → text_or_empty (lookup "sd_hash" (kb_members c nonce audience h now)) ≡ h
unfolding lookup
hash-says c nonce audience h now = refl

-- What PresentWithKeyBinding makes is refused by verify at every time and whatever is expected: the
-- token it appends hashes the presentation without the "~" in front of it, and verify hashes
-- the presentation with it. It is assumed that the two texts have different hashes, that the token and its
-- disclosures encode as base64url and read back.
pub key_bound_refused :
    (c : Primitives) (t : Token) (keys : List String) (holder : Key) (kid nonce audience : String)
    (now : ℕ) (token : String) (later : ℕ) (expected_nonce expected_audience : String)
    (v : Verified)
    → present_with_key_binding c t keys holder kid nonce audience now ≡ some token
    → NoTilde t.jwt
    → AllHeld c (select keys t.disclosures)
    → Carried c (jwt_header kid "kb+jwt")
    → Carried c (
        kb_claims c nonce audience
          (c.sha256 (join_tilde t.jwt (texts_of c (select keys t.disclosures))))
          now)
    → ((m : String) → Encoded (c.sign holder m))
    → (let base = join_tilde t.jwt (texts_of c (select keys t.disclosures)) in
        c.sha256 base ≢ c.sha256 (base +++ "~"))
    → verify c later token expected_nonce expected_audience ≢ ok v
unfolding key_binding verify_kb_jwt sd_hash_of
key_bound_refused c t keys holder kid nonce audience now token later n a v e no_tilde held header
      claims signs differ accepted =
    let parts = texts_of c (select keys t.disclosures) in
    let base = join_tilde t.jwt parts in
    let p =
      present-Presented c t keys holder kid nonce audience now token e no_tilde held header claims
        signs in
    let acc = verify-Accepted c later token n a v accepted in
    elim (Option-cases (extract_holder_key c acc.claims)) [
      | inl bad ↦ ground (arith, p.parses, acc.parses, acc.bound, p.some_text, eq_iff p.kb "")
      | inr (h, confirmed) ↦ ground (
        arith,
        p.parses,
        acc.parses,
        acc.bound,
        p.some_text,
        eq_iff p.kb "",
        p.reads,
        p.says,
        hash-says c nonce audience (c.sha256 base) now,
        eq_iff (c.sha256 base) (c.sha256 (base +++ "~")),
      )
    ]
