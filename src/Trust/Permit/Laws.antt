-- ===== src/Trust/Permit/Laws.antt =====
-- What a permit's issuer and its verifier promise to one another.
use text.Mathlib.TextLemmas.{nil-append, cons-append, append_assoc}
use tpt_identity.Prelude.{
  ℕ, ℤ, ◌≤◌, ◌≡◌, ◌↔◌, ◌⊎◌, inl, inr, refl, String, true, false, none, some, arith, eq_iff,
  Option-cases, subst,
}
use tpt_identity.Oidc.Jwt.{◌+++◌, unix, split3}
use tpt_identity.Oidc.Jwt.Laws.{NoDot, split3-append}
use tpt_identity.Trust.Permit.{
  Permit, PermitCodec, before_last_dot, sign_permit, permit_at, issue_permit, parse_permit_token,
  mismatch, admit_permit, verify_permit,
}

NoDot-none : (s : String) → NoDot s → before_last_dot s ≡ none
unfolding before_last_dot
NoDot-none String.[] h = refl
NoDot-none (String.◌∷◌ c s) h = ground (arith, NoDot-none s h.1, h.0)

before_last_dot-append : (a b : String) → NoDot b → before_last_dot (a +++ "." +++ b) ≡ some a
unfolding before_last_dot
before_last_dot-append String.[] b h =
    rw (nil-append, cons-append, nil-append) (rw (NoDot-none b h) refl)
before_last_dot-append (String.◌∷◌ c s) b h =
    rw cons-append (ground (arith, before_last_dot-append s b h))

-- What issuer and verifier rely on, for one permit: its encodings read back and hold no dot, and a
-- signature verifies.
pub record Encodes {Key Sig : Type 0} (c : PermitCodec Key Sig) (key : Key) (p : Permit)
    : Type 0 where
  pub header_plain : NoDot c.header
  pub payload_plain : (t : String) → c.marshal p ≡ some t → NoDot t
  pub reads_back : (t : String) → c.marshal p ≡ some t → c.unmarshal t ≡ some p
  pub sig_plain : (sig : Sig) → NoDot (c.encode_sig sig)
  pub sig_back : (sig : Sig) → c.decode_sig (c.encode_sig sig) ≡ some sig
  pub signed : (m : String) → c.verify key m (c.sign key m) ≡ true

-- The permit is in time, and its audience and action are those expected, where any are.
pub record Fits (p : Permit) (audience action : String) (now : ℕ) : Type 0 where
  pub in_time : unix now ≤ p.expires_at
  pub for_audience : (audience ≡ "") ⊎ (p.audience ≡ audience)
  pub for_action : (action ≡ "") ⊎ (p.action ≡ action)

mismatch-false :
    (expected got : String) → (mismatch expected got ≡ false) ↔ ((expected ≡ "") ⊎ (got ≡ expected))
mismatch-false expected got = (
  (λ h. ground (arith, eq_iff expected "", eq_iff got expected, h)),
  (λ h. ground (arith, eq_iff expected "", eq_iff got expected, h)),
)

module _ (p q : Permit) (audience action : String) (now : ℕ) where
  admitted-Fits : admit_permit p audience action now ≡ some q → (q ≡ p) × Fits p audience action now
  unfolding admit_permit
  admitted-Fits h = (
    ground (arith, h),
    record {
      in_time = ground (arith, h);
      for_audience = (mismatch-false audience p.audience).0 (ground (arith, h));
      for_action = (mismatch-false action p.action).0 (ground (arith, h));
    },
  )

  Fits-admitted : q ≡ p → Fits p audience action now → admit_permit p audience action now ≡ some q
  unfolding admit_permit
  Fits-admitted e f = ground (
    arith,
    e,
    f.in_time,
    (mismatch-false audience p.audience).1 f.for_audience,
    (mismatch-false action p.action).1 f.for_action,
  )

module _ {Key Sig : Type 0} (c : PermitCodec Key Sig) where
  split3-permit :
      (payload sig : String)
      → NoDot c.header
      → NoDot payload
      → split3 ((c.header +++ "." +++ payload) +++ "." +++ sig) ≡ some (c.header, payload, sig)
  split3-permit payload sig h k =
      rw (append_assoc, append_assoc) (split3-append c.header payload sig h k)

  verify-payload :
      (p : Permit) (payload : String) (key : Key) (audience action : String) (now : ℕ)
      → Encodes c key p
      → c.marshal p ≡ some payload
      → verify_permit c
          ((c.header +++ "." +++ payload)
            +++ "."
            +++ c.encode_sig (c.sign key (c.header +++ "." +++ payload)))
          key
          audience
          action
          now
        ≡ admit_permit p audience action now
  unfolding verify_permit parse_permit_token
  verify-payload p payload key audience action now h e =
      let input = c.header +++ "." +++ payload in
      let sig = c.sign key input in
      ground (
        arith,
        split3-permit payload (c.encode_sig sig) h.header_plain (h.payload_plain payload e),
        before_last_dot-append input (c.encode_sig sig) (h.sig_plain sig),
        h.reads_back payload e,
        h.sig_back sig,
        h.signed input,
      )

  -- A permit that a service issues verifies under that service's key exactly while it is in time, for the
  -- audience and the action it was issued for or where none is asked: and it is then the permit
  -- issued. Whom it names as its issuer is not asked, so a key's owner may name any.
  pub verify_permit-issue_permit :
      (issuer subject audience action jti token expected_audience expected_action : String)
      (key : Key) (ttl : ℤ) (now later : ℕ) (q : Permit)
      → Encodes c key (permit_at issuer subject audience action ttl jti now)
      → issue_permit c issuer key subject audience action ttl jti now ≡ some token
      → (verify_permit c token key expected_audience expected_action later ≡ some q) ↔ (
          (q ≡ permit_at issuer subject audience action ttl jti now)
          × Fits
              (permit_at issuer subject audience action ttl jti now)
              expected_audience
              expected_action
              later)
  unfolding issue_permit sign_permit
  verify_permit-issue_permit issuer subject audience action jti token aud act key ttl now later q h
        e =
      elim (Option-cases (c.marshal p)) [
        | inl bad ↦ absurd (ground (arith, bad, e))
        | inr (payload, done) ↦
            let made : (c.header +++ "." +++ payload)
                  +++ "."
                  +++ c.encode_sig (c.sign key (c.header +++ "." +++ payload))
                ≡ token =
              ground (arith, done, e) in
            subst
              (λ t.
                (verify_permit c t key aud act later ≡ some q) ↔ ((q ≡ p) × Fits p aud act later))
              made
              (rw (verify-payload p payload key aud act later h done) (
                (λ k. admitted-Fits p q aud act later k),
                (λ k. Fits-admitted p q aud act later k.0 k.1),
              ))
      ]
    where
      p : Permit
      p = permit_at issuer subject audience action ttl jti now
