-- ===== src/Vc/Sdjwt/Roundtrip.antt =====
-- From issuance through a presentation to verification.
use tpt_identity.Prelude.{
  ℕ, ◌≤◌, ◌+◌, pos, ◌≡◌, ◌≢◌, refl, String, Bool, true, false, List, Option, none, some, arith, inl,
  eq_iff,
}
use tpt_identity.Oidc.Jwt.{unix}
use tpt_identity.Schema.Registry.{Schema, Registry}
use tpt_identity.Vc.Json.{
  number, Members, no_member, object, array, text, lookup, put_all, texts, text_items,
  text_or_empty,
}
use tpt_identity.Vc.Keys.{Key, Primitives, resolve_signing_key}
use tpt_identity.Vc.Sdjwt.{
  ok, Disclosure, Token, select, present, serialize_with, IssueOptions, disclose, issued_payload,
  validity, named_schema, issue_sd_jwt, jwt_header, sign_sd_jwt,
}
use tpt_identity.Vc.Sdjwt.Verifier.{
  Parsed, Verified, verify, reveal, sd_digests, seconds, is_past, key_binding, parse_payload,
  verify_sig, visible, parse_sd_jwt,
}
use tpt_identity.Vc.Sdjwt.Parts.{Encoded, parse-join}
use tpt_identity.Vc.Sdjwt.Signed.{
  Carried, sign-Compact, payload-Compact, verify_sig-Compact, AllHeld, select-AllHeld, texts_of,
  AllEncoded-texts,
}
use tpt_identity.Vc.Sdjwt.Selection.{
  only, select-only, select-AllListed, disclose-Drawn, reveal-all, lookup-issued, texts-text_items,
}

-- The library's part for one issued credential: the texts read back, and what the issuer's key signs
-- verifies by the key that its DID document gives.
pub record Serves (c : Primitives) (o : IssueOptions) (key public : Key) (ds : List Disclosure)
    (payload : Members) (expiry : ℕ) : Type 0 where
  pub header : Carried c (jwt_header o.verification_method_id "vc+sd-jwt")
  pub body : Carried c (object payload)
  pub signature : (m : String) → Encoded (c.sign key m)
  pub signs : (m : String) → c.verify public m (c.sign key m) ≡ true
  pub resolves : resolve_signing_key c o.issuer_did ≡ some public
  pub held : AllHeld c ds
  pub number_reads : c.int64 (c.literal expiry) ≡ pos expiry

-- What verify makes of the presentation.
pub record Shown (c : Primitives) (o : IssueOptions) (keys : List String) (later : ℕ)
    (token : String) : Type 0 where
  pub result : Verified
  pub accepts : verify c later token "" "" ≡ ok result
  pub issuer : result.issuer_did ≡ o.issuer_did
  pub claims : result.disclosed_claims ≡ put_all (only keys o.selective_claims) no_member
  pub unbound : result.key_binding_verified ≡ false

issued-jwt :
    (c : Primitives) (registry : Registry) (salt : String → Option String) (o : IssueOptions)
    (key : Key) (schema : Option Schema) (ds : List Disclosure) (hs : List String) (now : ℕ)
    (t : Token)
    → issue_sd_jwt c registry salt o now ≡ ok t
    → o.issuer_key ≡ some key
    → named_schema registry o.schema_id ≡ ok schema
    → disclose c salt o.selective_claims ≡ some (ds, hs)
    → (o.issuer_did ≢ "")
      × (t.disclosures ≡ ds)
      × (sign_sd_jwt c
            (object (issued_payload c o schema hs now))
            key
            o.verification_method_id
            "vc+sd-jwt"
          ≡ some t.jwt)
unfolding issue_sd_jwt
issued-jwt c registry salt o key schema ds hs now t e k n d = (
  ground (arith, k, n, d, eq_iff o.issuer_did ""),
  ground (arith, k, n, d),
  ground (arith, k, n, d),
)

abbrev verified : Primitives → Members → Members → Bool → Verified
verified c claims disclosed bound = record {
  issuer_did = text_or_empty (lookup "iss" claims);
  subject_did = text_or_empty (lookup "sub" claims);
  schema_id = text_or_empty (lookup "vct" claims);
  disclosed_claims = disclosed;
  always_claims = visible claims;
  issued_at = seconds c (lookup "iat" claims);
  expires_at = seconds c (lookup "exp" claims);
  key_binding_verified = bound;
}

-- Whatever passes each of verify's tests is accepted.
accepts :
    (c : Primitives) (now : ℕ) (token nonce audience : String) (p : Parsed)
    (claims disclosed : Members) (key : Key) (bound : Bool)
    → parse_sd_jwt token ≡ ok p
    → parse_payload c p.jwt ≡ some claims
    → text_or_empty (lookup "iss" claims) ≢ ""
    → resolve_signing_key c (text_or_empty (lookup "iss" claims)) ≡ some key
    → verify_sig c p.jwt key ≡ true
    → is_past now (seconds c (lookup "exp" claims)) ≡ false
    → reveal c (sd_digests (lookup "_sd" claims)) p.disclosures no_member ≡ ok disclosed
    → key_binding c p claims nonce audience ≡ ok bound
    → verify c now token nonce audience ≡ ok (verified c claims disclosed bound)
unfolding verify
accepts c now token nonce audience p claims disclosed key bound e f g h i j k l =
    ground (arith, eq_iff (text_or_empty (lookup "iss" claims)) "")

unbound :
    (c : Primitives) (jwt : String) (encs : List String) (claims : Members)
    → key_binding c (record { jwt = jwt; disclosures = encs; kb_token = "" }) claims "" ""
      ≡ ok false
unfolding key_binding
unbound c jwt encs claims = refl

-- An issued credential verifies in every presentation of it until it expires: whatever claims the
-- holder names, verify accepts the presentation, names the issuer, and discloses those of the
-- selective claims and no others. It is assumed that the claims which are always visible leave
-- `iss`, `exp` and `_sd` alone, that the issuer's DID resolves to the key, that a signature by it verifies, and that
-- encoded values read back.
pub verify-present :
    (c : Primitives) (registry : Registry) (salt : String → Option String) (o : IssueOptions)
    (key public : Key) (schema : Option Schema) (ds : List Disclosure) (hs : List String) (now : ℕ)
    (t : Token) (keys : List String) (later : ℕ)
    → issue_sd_jwt c registry salt o now ≡ ok t
    → o.issuer_key ≡ some key
    → named_schema registry o.schema_id ≡ ok schema
    → disclose c salt o.selective_claims ≡ some (ds, hs)
    → Serves c o key public ds
        (issued_payload c o schema hs now)
        (unix (now + validity o.valid_for))
    → lookup "iss" o.always_visible_claims ≡ none
    → lookup "exp" o.always_visible_claims ≡ none
    → lookup "_sd" o.always_visible_claims ≡ none
    → unix later ≤ unix (now + validity o.valid_for)
    → Shown c o keys later (present c t keys)
unfolding present serialize_with lookup
verify-present c registry salt o key public schema ds hs now t keys later e k n d serves iss exp sd
      in_time =
    let made = issued-jwt c registry salt o key schema ds hs now t e k n d in
    let payload = issued_payload c o schema hs now in
    let compact =
      sign-Compact c (object payload) key o.verification_method_id "vc+sd-jwt" t.jwt made.2
        serves.header serves.body serves.signature in
    let drawn = disclose-Drawn c salt o.selective_claims ds hs d in
    let chosen = select keys ds in
    let held = select-AllHeld c keys ds serves.held in
    let parses =
      parse-join t.jwt (texts_of c chosen) "" compact.no_tilde (AllEncoded-texts c chosen held)
        (record { no_tilde = tt; kind = inl refl }) in
    let revealed =
      reveal-all c hs chosen no_member held (select-AllListed c hs keys ds drawn.listed) in
    let issuer : lookup "iss" payload ≡ some (text o.issuer_did) =
      lookup-issued c o schema hs now "iss" iss refl in
    let expiry : lookup "exp" payload
        ≡ some (number (c.literal (unix (now + validity o.valid_for)))) =
      lookup-issued c o schema hs now "exp" exp refl in
    let digests : lookup "_sd" payload ≡ some (array (text_items hs)) =
      lookup-issued c o schema hs now "_sd" sd refl in
    let shown = put_all (only keys o.selective_claims) no_member in
    let same : reveal c (texts (text_items hs)) (texts_of c chosen) no_member ≡ ok shown =
      ground (arith, texts-text_items hs, revealed, select-only keys ds, drawn.claims_drawn) in
    record {
      result = verified c payload shown false;
      accepts = rw (made.1) (
          accepts c later _ "" "" _ payload shown public false parses
            (payload-Compact c key payload t.jwt compact) (ground (arith, issuer, made.0))
            (ground (arith, issuer, serves.resolves))
            (verify_sig-Compact c key public (object payload) t.jwt compact serves.signs)
            (ground (arith, expiry, serves.number_reads)) (ground (arith, digests, same))
            (unbound c t.jwt (texts_of c chosen) payload));
      issuer = ground (arith, issuer);
      claims = refl;
      unbound = refl;
    }
