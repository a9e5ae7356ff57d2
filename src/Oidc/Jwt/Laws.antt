-- ===== src/Oidc/Jwt/Laws.antt =====
-- What signing and verification of a token promise to one another.
use Prim.Native.Char.{Char, code}
use text.Mathlib.TextEquality.{Char-path}
use text.Mathlib.TextLemmas.{nil-append, cons-append, append_assoc}
use tpt_identity.Prelude.{
  ℕ, ◌≤◌, ◌≡◌, ◌≢◌, refl, ap, String, true, none, some, arith, ltb, nat_beq, inl, inr,
  if◌then◌else◌, Bool-cases, Option-cases,
}
use tpt_identity.Oidc.Jwt.{
  ◌+++◌, Codec, Claims, Payload, unix, cut_dot, split3, sign_jwt, parse_unverified, verify,
}

abbrev pub NoDot : String → Type 0
NoDot String.[] = Unit {0}
NoDot (String.◌∷◌ c s) = (code c ≢ b'.') × NoDot s

pub cut_dot-append : (a b : String) → NoDot a → cut_dot (a +++ "." +++ b) ≡ some (a, b)
unfolding cut_dot
cut_dot-append String.[] b h = rw (nil-append, cons-append, nil-append) refl
cut_dot-append (String.◌∷◌ c s) b h = rw cons-append (ground (arith, cut_dot-append s b h.1))

pub split3-append :
    (a b c : String) → NoDot a → NoDot b → split3 (a +++ "." +++ b +++ "." +++ c) ≡ some (a, b, c)
unfolding split3
split3-append a b c p q = ground (arith, cut_dot-append a (b +++ "." +++ c) p, cut_dot-append b c q)

unfoldable pub Cut : String → String × String → Type 0
Cut s (a, b) = (s ≡ a +++ "." +++ b) × NoDot a

Cut-dot : (c : Char) (s : String) → code c ≡ b'.' → Cut (String.◌∷◌ c s) ("", s)
unfolding Cut
Cut-dot c s h =
    (rw (nil-append, cons-append, nil-append) (ap (λ d. String.◌∷◌ d s) (Char-path c "." h)), tt)

Cut-push :
    (c : Char) (s a b : String)
    → code c ≢ b'.'
    → Cut s (a, b)
    → Cut (String.◌∷◌ c s) (String.◌∷◌ c a, b)
unfolding Cut
Cut-push c s a b h (e, k) = (rw cons-append (ap (String.◌∷◌ c) e), (h, k))

pub cut_dot-Cut : (s : String) (ab : String × String) → cut_dot s ≡ some ab → Cut s ab
unfolding cut_dot
cut_dot-Cut String.[] ab e = cc
cut_dot-Cut (String.◌∷◌ c s) ab e = elim (Bool-cases (nat_beq (code c) b'.')) [
  | inl dot ↦ ground (arith, Cut-dot c s)
  | inr other ↦ elim (Option-cases (cut_dot s)) [
    | inl stop ↦ ground arith
    | inr (cd, found) ↦ ground (arith, Cut-push c s cd.0 cd.1, cut_dot-Cut s cd)
  ]
]

Split3 : String → String × String × String → Type 0
Split3 s (a, b, c) = s ≡ a +++ "." +++ b +++ "." +++ c

split3-Split3 : (s : String) (abc : String × String × String) → split3 s ≡ some abc → Split3 s abc
unfolding split3 Split3 Cut
split3-Split3 s abc e = elim (Option-cases (cut_dot s)) [
  | inl stop ↦ ground arith
  | inr ((a, rest), found) ↦ elim (Option-cases (cut_dot rest)) [
    | inl stop ↦ ground arith
    | inr ((b, c), again) ↦
        ground (arith, cut_dot-Cut s (a, rest) found, cut_dot-Cut rest (b, c) again)
  ]
]

-- The library's part in a round trip of one payload: its JSON has no dot and reads back, the
-- header has no dot, and a signature by the provider's key verifies.
pub record Carries (c : Codec) (key_id : String) (p : Payload) : Type 0 where
  pub header_plain : NoDot (c.header key_id)
  pub payload_plain : (s : String) → c.marshal p ≡ some s → NoDot s
  pub payload_reads : (s : String) → c.marshal p ≡ some s → c.unmarshal s ≡ some p.claims
  pub signature_verifies : (m : String) → c.verify m (c.sign m) ≡ some true

split3-sign_jwt :
    (c : Codec) (key_id payload : String)
    → NoDot (c.header key_id)
    → NoDot payload
    → let input = c.header key_id +++ "." +++ payload in
      split3 (input +++ "." +++ c.sign input) ≡ some (c.header key_id, payload, c.sign input)
split3-sign_jwt c key_id payload h k =
    let input = c.header key_id +++ "." +++ payload in
    rw (append_assoc, append_assoc) (split3-append (c.header key_id) payload (c.sign input) h k)

-- A token signed by the provider verifies, and gives its claims back, at every time up to the
-- second of its expiry, and at no later time.
pub verify-sign_jwt :
    (c : Codec) (key_id : String) (p : Payload) (token : String) (now : ℕ)
    → Carries c key_id p
    → sign_jwt c key_id p ≡ some token
    → verify c now token ≡ (if ltb p.claims.expires_at (unix now) then none else some p.claims)
unfolding sign_jwt verify parse_unverified
verify-sign_jwt c key_id p token now carries e = elim (Option-cases (c.marshal p)) [
  | inl bad ↦ ground arith
  | inr (s, done) ↦ ground (
    arith,
    carries.payload_reads s done,
    carries.signature_verifies (c.header key_id +++ "." +++ s),
    split3-sign_jwt c key_id s carries.header_plain (carries.payload_plain s done),
  )
]

-- What a verified token is: three texts joined by dots, of which the third is a good signature
-- over the first two and the second holds the claims, not yet expired.
pub record Vouched (c : Codec) (now : ℕ) (token : String) (claims : Claims) : Type 0 where
  pub header : String
  pub payload : String
  pub sig : String
  pub joined : token ≡ header +++ "." +++ payload +++ "." +++ sig
  pub signed : c.verify (header +++ "." +++ payload) sig ≡ some true
  pub reads : c.unmarshal payload ≡ some claims
  pub current : unix now ≤ claims.expires_at

-- Whatever verifies was signed: its claims are those of a payload under a good signature, and
-- the expiry has not passed.
pub verify-Vouched :
    (c : Codec) (now : ℕ) (token : String) (claims : Claims)
    → verify c now token ≡ some claims
    → Vouched c now token claims
unfolding verify parse_unverified
verify-Vouched c now token claims e = elim (Option-cases (split3 token)) [
  | inl bad ↦ absurd (ground arith)
  | inr ((h, b, sig), found) ↦ record {
    header = h;
    payload = b;
    sig = sig;
    joined = unfold Split3 in split3-Split3 token (h, b, sig) found;
    signed = ground arith;
    reads = ground arith;
    current = ground arith;
  }
]
