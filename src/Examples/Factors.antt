-- ===== src/Examples/Factors.antt =====
-- A second factor and a passphrase of duress, on ciphers that hide nothing.
use tpt_identity.Prelude.{ℕ, ◌%◌, ◌≡◌, ◌↔◌, refl, false, List, [], ◌∷◌, some, map, arith, pos}
use tpt_identity.Recovery.Sharing.{hex_encode}
use tpt_identity.Recovery.Sharing.Hex.{AllBytes}
use tpt_identity.Store.Factors.{
  TotpCredential, DuressConfig, save_totp_credential, save_duress_config,
}
use tpt_identity.Authn.Secrets.{Suite, encrypt_secret}
use tpt_identity.Authn.Secrets.Split.{Sealing}
use tpt_identity.Authn.Totp.{Outcome, generate_totp, verify_code, enrol, otpauth_uri, url_escape}
use tpt_identity.Authn.Totp.Window.{Around, verify_code-enrol}
use tpt_identity.Authn.Duress.{enrol_duress, stored_duress, argon2_hash_duress}
use tpt_identity.Prelude.Table.{upsert}

abbrev pub reduced : List ℕ → List ℕ
reduced bytes = map (λ b. b % 256) bytes

abbrev pub suite : Suite
suite = record {
  derive = λ pass salt. reduced pass;
  seal = λ key iv secret. secret;
  gcm_open = λ key iv sealed. some sealed;
  mac = λ secret msg.
      0x1f ∷ 0x86 ∷ 0x98 ∷ 0x69 ∷ 0x0e ∷ 0x02 ∷ 0xca ∷ 0x16 ∷ 0x61 ∷ 0x85 ∷ 0x50 ∷ 0xef ∷ 0x7f
      ∷ 0x19 ∷ 0xda ∷ 0x8e ∷ 0x94 ∷ 0x5b ∷ 0x55 ∷ 0x5a ∷ [];
  base32 = λ secret. secret;
}

-- The worked example of RFC 4226, of the digits 872921.
generate_run : generate_totp suite [] (pos 0) ≡ b'8' ∷ b'7' ∷ b'2' ∷ b'9' ∷ b'2' ∷ b'1' ∷ []
unfolding generate_totp
generate_run = refl

-- A euro sign is no byte.
escape_run : url_escape "a €" ≡ b'a' ∷ b'%' ∷ b'2' ∷ b'0' ∷ b'%' ∷ b'2' ∷ b'0' ∷ b'A' ∷ b'C' ∷ []
unfolding url_escape
escape_run = refl

pub reduced-AllBytes : (bytes : List ℕ) → AllBytes (reduced bytes)
reduced-AllBytes [] = tt
reduced-AllBytes (b ∷ bytes) = (omega arith, reduced-AllBytes bytes)

sealing : Sealing suite (7 ∷ []) (1 ∷ []) (2 ∷ []) (65 ∷ [])
sealing = record {
  salt_bytes = (omega arith, tt);
  iv_bytes = (omega arith, tt);
  sealed_bytes = (omega arith, tt);
  opens = refl;
}

abbrev credential : TotpCredential
credential = record {
  subject_did = "did:bob";
  encrypted_secret = b'0' ∷ b'1' ∷ b':' ∷ b'0' ∷ b'2' ∷ b':' ∷ b'4' ∷ b'1' ∷ [];
  account_name = "bob";
  created_at = 0;
}

enrol_run :
    enrol suite
      (7 ∷ [])
      "TPT"
      "did:bob"
      "bob"
      (some (65 ∷ []))
      (some (1 ∷ []))
      (some (2 ∷ []))
      0
      false
      []
    ≡ some (otpauth_uri "TPT" "bob" (65 ∷ []), credential ∷ [])
unfolding enrol encrypt_secret save_totp_credential upsert hex_encode
enrol_run = refl

verify_code-enrol_example :
    verify_code suite (7 ∷ []) false 0 "did:bob" (b'8' ∷ []) (credential ∷ []) ≡ Outcome.accepted
    ↔ Around suite (65 ∷ []) (b'8' ∷ []) 0
verify_code-enrol_example =
    verify_code-enrol suite (7 ∷ []) "TPT" "did:bob" "bob" (65 ∷ []) (1 ∷ []) (2 ∷ []) 0 []
      (b'8' ∷ []) (otpauth_uri "TPT" "bob" (65 ∷ [])) 0 (credential ∷ []) sealing enrol_run

abbrev config : DuressConfig
config = record { subject_did = "did:bob"; hash = b'0' ∷ b'1' ∷ b':' ∷ b'0' ∷ b'7' ∷ [] }

enrol_duress_run :
    enrol_duress suite "did:bob" (7 ∷ []) (some (1 ∷ [])) false [] ≡ some (config ∷ [])
unfolding enrol_duress stored_duress argon2_hash_duress save_duress_config upsert hex_encode
enrol_duress_run = refl
