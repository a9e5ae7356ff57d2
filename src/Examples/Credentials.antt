-- ===== src/Examples/Credentials.antt =====
-- Issuance, presentation and verification of credentials at concrete inputs.
use tpt_identity.Prelude.{
  pos, ◌*◌, ◌≡◌, ◌≢◌, refl, String, Bool, true, false, [], ◌∷◌, Option, none, some, arith,
}
use tpt_identity.Oidc.Jwt.{second, unix, split3, cut_dot}
use tpt_identity.Prelude.Words.{has_prefix, drop_prefix}
use tpt_identity.Vc.Json.{text, no_member, member, lookup, put, put_all, texts, text_items}
use tpt_identity.Vc.Keys.{
  resolve_signing_key, active_key, decode_multibase_ed25519, stripped, decode_uvarint, uvarint,
  drop,
}
use tpt_identity.Vc.Sdjwt.{
  ok, encode, digest, parse_disclosure, disclose, issued_payload, issue_sd_jwt, sign_sd_jwt,
  present, serialize_with, select, mem, join_tilde, present_with_key_binding, trim_tilde,
}
use tpt_identity.Vc.Sdjwt.Verifier.{
  Verified, verify, parse_sd_jwt, split_tilde, sort_parts, count_dot, parse_payload, verify_sig,
  reveal, key_binding, verify_kb_jwt, extract_holder_key, sd_hash_of, visible,
}
use tpt_identity.Vc.Sdjwt.Parts.{Encoded}
use tpt_identity.Vc.Sdjwt.Signed.{carried, Held}
use tpt_identity.Vc.Sdjwt.Roundtrip.{Serves, Shown, verify-present}
use tpt_identity.Vc.Sdjwt.Sound.{Disclosed, verify-Disclosed}
use tpt_identity.Vc.Sdjwt.Binding.{KeyBound, verify-KeyBound, key_bound_refused}
use tpt_identity.Examples.Fixtures.{differ}
use tpt_identity.Examples.Wallet.{
  public_key, private_key, payload, name, age, library, options, no_schemas, token,
}

abbrev salt : String → Option String
salt _ = some "s"

disclosed_run :
    disclose library salt options.selective_claims ≡ some (name ∷ age ∷ [], "#name" ∷ "#age" ∷ [])
unfolding disclose digest encode
disclosed_run = refl

issued_run : issue_sd_jwt library no_schemas salt options (1000 * second) ≡ ok token
unfolding issue_sd_jwt has_prefix drop_prefix disclose digest encode sign_sd_jwt
issued_run = refl

payload_run : issued_payload library options none ("#name" ∷ "#age" ∷ []) (1000 * second) ≡ payload
unfolding issued_payload put_all put text_items
payload_run = refl

hdr_Encoded : Encoded "hdr"
hdr_Encoded = record {
  some_text = differ "hdr" "" refl;
  no_tilde = omega arith;
  no_dot = omega arith;
}

hdk_Encoded : Encoded "hdk"
hdk_Encoded = record {
  some_text = differ "hdk" "" refl;
  no_tilde = omega arith;
  no_dot = omega arith;
}

pay_Encoded : Encoded "pay"
pay_Encoded = record {
  some_text = differ "pay" "" refl;
  no_tilde = omega arith;
  no_dot = omega arith;
}

kba_Encoded : Encoded "kba"
kba_Encoded = record {
  some_text = differ "kba" "" refl;
  no_tilde = omega arith;
  no_dot = omega arith;
}

sig_Encoded : Encoded "sig"
sig_Encoded = record {
  some_text = differ "sig" "" refl;
  no_tilde = omega arith;
  no_dot = omega arith;
}

name_Encoded : Encoded "name"
name_Encoded = record {
  some_text = differ "name" "" refl;
  no_tilde = omega arith;
  no_dot = omega arith;
}

age_Encoded : Encoded "age"
age_Encoded = record {
  some_text = differ "age" "" refl;
  no_tilde = omega arith;
  no_dot = omega arith;
}

resolved_run : resolve_signing_key library "did:web:issuer" ≡ some public_key
unfolding resolve_signing_key active_key decode_multibase_ed25519 stripped decode_uvarint uvarint
    drop has_prefix drop_prefix
resolved_run = refl

name-Held : Held library name
unfolding encode parse_disclosure
name-Held = record { enc = "name"; encodes = refl; encoded = name_Encoded; decodes = refl }

age-Held : Held library age
unfolding encode parse_disclosure
age-Held = record { enc = "age"; encodes = refl; encoded = age_Encoded; decodes = refl }

serves :
    Serves library options private_key public_key (name ∷ age ∷ []) payload (unix (4600 * second))
serves = record {
  header = carried library _ "hdr" refl hdr_Encoded refl;
  body = carried library _ "pay" refl pay_Encoded refl;
  signature = λ _. sig_Encoded;
  signs = λ _. refl;
  resolves = resolved_run;
  held = (name-Held, (age-Held, tt));
  number_reads = refl;
}

verify-present_example :
    Shown library options ("name" ∷ []) (2000 * second) (present library token ("name" ∷ []))
unfolding lookup
verify-present_example =
    verify-present library no_schemas salt options private_key public_key none (name ∷ age ∷ [])
      ("#name" ∷ "#age" ∷ []) (1000 * second) token ("name" ∷ []) (2000 * second) issued_run refl
      refl disclosed_run (rw payload_run serves) refl refl refl (omega arith)

abbrev result : Bool → Verified
result bound = record {
  issuer_did = "did:web:issuer";
  subject_did = "did:web:alice";
  schema_id = "";
  disclosed_claims = member "name" (text "Ada") no_member;
  always_claims = no_member;
  issued_at = some (pos 4600);
  expires_at = some (pos 4600);
  key_binding_verified = bound;
}

accepted_run : verify library (2000 * second) "hdr.pay.sig~name~" "" "" ≡ ok (result false)
unfolding verify parse_sd_jwt split_tilde sort_parts count_dot parse_payload split3 cut_dot lookup
    resolve_signing_key active_key decode_multibase_ed25519 stripped decode_uvarint uvarint drop
    has_prefix drop_prefix verify_sig reveal parse_disclosure digest encode texts mem put
    key_binding visible
accepted_run = refl

verify-Disclosed_example :
    Disclosed library (2000 * second) "hdr.pay.sig~name~" (result false) "name" (text "Ada")
unfolding lookup
verify-Disclosed_example =
    verify-Disclosed library (2000 * second) "hdr.pay.sig~name~" "" "" (result false) "name"
      (text "Ada") accepted_run refl

bound_run :
    verify library (2000 * second) "hdr.pay.sig~name~hdk.kbb.sig" "n1" "rp" ≡ ok (result true)
unfolding verify parse_sd_jwt split_tilde sort_parts count_dot parse_payload split3 cut_dot lookup
    resolve_signing_key active_key decode_multibase_ed25519 stripped decode_uvarint uvarint drop
    has_prefix drop_prefix verify_sig reveal parse_disclosure digest encode texts mem put
    key_binding visible verify_kb_jwt extract_holder_key sd_hash_of join_tilde
bound_run = refl

verify-KeyBound_example : KeyBound library "hdr.pay.sig~name~hdk.kbb.sig" "n1" "rp"
verify-KeyBound_example =
    verify-KeyBound library (2000 * second) "hdr.pay.sig~name~hdk.kbb.sig" "n1" "rp" (result true)
      bound_run refl

bound_by_wallet_run :
    present_with_key_binding library token
      ("name" ∷ [])
      private_key
      "did:web:issuer#k"
      "n1"
      "rp"
      (1000 * second)
    ≡ some "hdr.pay.sig~name~hdk.kba.sig"
unfolding present_with_key_binding present serialize_with select mem encode join_tilde trim_tilde
    sign_sd_jwt
bound_by_wallet_run = refl

key_bound_refused_example :
    verify library (2000 * second) "hdr.pay.sig~name~hdk.kba.sig" "n1" "rp" ≢ ok (result true)
unfolding select mem encode join_tilde
key_bound_refused_example =
    key_bound_refused library token ("name" ∷ []) private_key "did:web:issuer#k" "n1" "rp"
      (1000 * second) "hdr.pay.sig~name~hdk.kba.sig" (2000 * second) "n1" "rp" (result true)
      bound_by_wallet_run (omega arith) (name-Held, tt)
      (carried library _ "hdk" refl hdk_Encoded refl)
      (carried library _ "kba" refl kba_Encoded refl) (λ _. sig_Encoded)
      (differ "#hdr.pay.sig~name" "#hdr.pay.sig~name~" refl)
