-- ===== src/Trust/Permit.antt =====
-- pkg/trust/permit.go: short-lived permits, signed by the service that issues them.
-- JSON, base64url and Ed25519 are the functions of a `PermitCodec`. Times are nanoseconds.
pub mod Laws
use Prim.Native.Char.{code}
use Prim.Native.String
use tpt_identity.Prelude.{
  ℕ, suc, ℤ, pos, negsuc, ◌+◌, ◌-◌, String, Bool, Option, none, some, not, ltb, nat_beq, ◌==◌, ◌&&◌,
  if◌then◌else◌,
}
use tpt_identity.Oidc.Jwt.{◌+++◌, unix, split3}

pub record Permit : Type 0 where
  pub issuer : String
  pub subject : String
  pub audience : String
  pub action : String
  pub issued_at : ℕ
  pub expires_at : ℕ
  pub jti : String

-- `Key` is a private key or the public key that belongs to it.
pub record PermitCodec (Key Sig : Type 0) : Type 0 where
  -- base64url of the constant header.
  pub header : String
  -- base64url of json.Marshal, and json.Unmarshal of the decoded base64url.
  pub marshal : Permit → Option String
  pub unmarshal : String → Option Permit
  pub encode_sig : Sig → String
  pub decode_sig : String → Option Sig
  pub sign : Key → String → Sig
  pub verify : Key → String → Sig → Bool

-- now.Add, of a duration of either sign.
abbrev pub after : ℕ → ℤ → ℕ
after now (pos n) = now + n
after now (negsuc n) = now - suc n

-- `token[:strings.LastIndex(token, ".")]`, where there is a dot.
unfoldable pub before_last_dot : String → Option String
before_last_dot String.[] = none
before_last_dot (String.◌∷◌ c s) = elim (before_last_dot s) [
  | some rest ↦ some (String.◌∷◌ c rest)
  | none ↦ if nat_beq (code c) b'.' then some "" else none
]

abbrev pub permit_at : String → String → String → String → ℤ → String → ℕ → Permit
permit_at issuer subject audience action ttl jti now = record {
  issuer = issuer;
  subject = subject;
  audience = audience;
  action = action;
  issued_at = unix now;
  expires_at = unix (after now ttl);
  jti = jti;
}

-- `expected != "" && got != expected`
abbrev pub mismatch : String → String → Bool
mismatch expected got = not (expected == "") && not (got == expected)

-- What is refused of a permit under a good signature.
unfoldable pub admit_permit : Permit → String → String → ℕ → Option Permit
admit_permit p audience action now =
    if ltb p.expires_at (unix now)
    then none
    else if mismatch audience p.audience
    then none
    else if mismatch action p.action
    then none
    else some p

module _ {Key Sig : Type 0} (c : PermitCodec Key Sig) where
  unfoldable pub sign_permit : Permit → Key → Option String
  sign_permit p key = elim (c.marshal p) [
    | none ↦ none
    | some payload ↦
        let input = c.header +++ "." +++ payload in
        some (input +++ "." +++ c.encode_sig (c.sign key input))
  ]

  unfoldable pub issue_permit :
      String → Key → String → String → String → ℤ → String → ℕ → Option String
  unfolding sign_permit
  issue_permit issuer key subject audience action ttl jti now =
      sign_permit (permit_at issuer subject audience action ttl jti now) key

  abbrev pub with_sig : Option Permit → Option Sig → Option (Permit × Sig)
  with_sig (some p) (some sig) = some (p, sig)
  with_sig _ _ = none

  unfoldable pub parse_permit_token : String → Option (Permit × Sig)
  unfolding split3
  parse_permit_token token = elim (split3 token) [
    | none ↦ none
    | some (_, payload, sig) ↦ with_sig (c.unmarshal payload) (c.decode_sig sig)
  ]

  unfoldable pub verify_permit : String → Key → String → String → ℕ → Option Permit
  unfolding parse_permit_token before_last_dot admit_permit
  verify_permit token key audience action now = elim (parse_permit_token token) [
    | none ↦ none
    | some (p, sig) ↦ elim (before_last_dot token) [
      | none ↦ none
      | some input ↦
          if not (c.verify key input sig) then none else admit_permit p audience action now
    ]
  ]
