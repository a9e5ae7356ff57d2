-- ===== src/Vc/Sdjwt/Signed.antt =====
-- What a compact JWT of pkg/vc/sdjwt.go is made of, and what of it is read back.
use text.Mathlib.TextLemmas.{nil-append, cons-append, append_assoc}
use tpt_identity.Prelude.{
  ◌≡◌, ◌≢◌, refl, sym, subst, String, true, some, arith, inl, inr, List, [], ◌∷◌, map, Bool-cases,
  Option-cases,
}
use tpt_identity.Oidc.Jwt.{◌+++◌, split3}
use tpt_identity.Oidc.Jwt.Laws.{split3-append}
use tpt_identity.Vc.Json.{Json, Members, object}
use tpt_identity.Vc.Keys.{Key, Primitives}
use tpt_identity.Vc.Sdjwt.{
  sign_sd_jwt, jwt_header, Disclosure, encode, or_none, parse_disclosure, select, mem,
}
use tpt_identity.Vc.Sdjwt.Verifier.{count_dot, parse_payload, verify_sig}
use tpt_identity.Vc.Sdjwt.Parts.{NoTilde, Encoded, AllEncoded, count_dot-append, count_dot-NoDot}

-- The library's part for one value: its base64url text is not empty, has no "~" and no ".", and
-- reads back.
pub record Carried (c : Primitives) (j : Json) : Type 0 where
  pub encoded : (s : String) → c.marshal j ≡ some s → Encoded s
  pub reads : (s : String) → c.marshal j ≡ some s → c.unmarshal s ≡ some j

pub carried :
    (c : Primitives) (j : Json) (t : String)
    → c.marshal j ≡ some t
    → Encoded t
    → c.unmarshal t ≡ some j
    → Carried c j
carried c j t e encoded reads = record {
  encoded = λ s f. subst Encoded (same s f) encoded;
  reads = λ s f. subst (λ (r : String). c.unmarshal r ≡ some j) (same s f) reads;
}
  where
    same : (s : String) → c.marshal j ≡ some s → t ≡ s
    same s f = ground (arith, e, f)

-- A token over the value: three texts joined by dots.
pub record Compact (c : Primitives) (key : Key) (j : Json) (jwt : String) : Type 0 where
  pub header : String
  pub payload : String
  pub splits : split3 jwt ≡ some (header, payload, c.sign key (header +++ "." +++ payload))
  pub reads : c.unmarshal payload ≡ some j
  pub no_tilde : NoTilde jwt
  pub two_dots : count_dot jwt ≡ 2
  pub some_text : jwt ≢ ""

NoTilde-append : (a b : String) → NoTilde a → NoTilde b → NoTilde (a +++ "." +++ b)
NoTilde-append String.[] b h k = rw (nil-append, cons-append, nil-append) (ground arith, k)
NoTilde-append (String.◌∷◌ c a) b h k = rw cons-append (h.0, NoTilde-append a b h.1 k)

not_empty : (s : String) → count_dot s ≡ 2 → s ≢ ""
unfolding count_dot
not_empty s e z =
    let f : count_dot "" ≡ 2 = subst (λ (t : String). count_dot t ≡ 2) z e in omega (arith, f)

joined :
    (c : Primitives) (key : Key) (j : Json) (h p : String)
    → Encoded h
    → Encoded p
    → c.unmarshal p ≡ some j
    → Encoded (c.sign key (h +++ "." +++ p))
    → Compact c key j ((h +++ "." +++ p) +++ "." +++ c.sign key (h +++ "." +++ p))
joined c key j h p eh ep reads es =
    let sig = c.sign key (h +++ "." +++ p) in
    let flat : (h +++ "." +++ p) +++ "." +++ sig ≡ h +++ "." +++ p +++ "." +++ sig =
      rw (append_assoc, append_assoc) refl in
    let two : count_dot (h +++ "." +++ p +++ "." +++ sig) ≡ 2 =
      rw
        (
          count_dot-append h (p +++ "." +++ sig) eh.no_dot,
          count_dot-append p sig ep.no_dot,
          count_dot-NoDot sig es.no_dot,
        )
        refl in
    subst (Compact c key j) (sym flat) (record {
      header = h;
      payload = p;
      splits = split3-append h p sig eh.no_dot ep.no_dot;
      reads = reads;
      no_tilde =
          NoTilde-append h (p +++ "." +++ sig) eh.no_tilde
            (NoTilde-append p sig ep.no_tilde es.no_tilde);
      two_dots = two;
      some_text = not_empty _ two;
    })

-- What is signed is compact, where the library does its part.
pub sign-Compact :
    (c : Primitives) (j : Json) (key : Key) (kid typ jwt : String)
    → sign_sd_jwt c j key kid typ ≡ some jwt
    → Carried c (jwt_header kid typ)
    → Carried c j
    → ((m : String) → Encoded (c.sign key m))
    → Compact c key j jwt
unfolding sign_sd_jwt
sign-Compact c j key kid typ jwt e ch cj es = elim (Option-cases (c.marshal (jwt_header kid typ))) [
  | inl bad ↦ absurd (ground arith)
  | inr (h, eh) ↦ elim (Option-cases (c.marshal j)) [
    | inl bad ↦ absurd (ground arith)
    | inr (p, ep) ↦
        let made : jwt ≡ (h +++ "." +++ p) +++ "." +++ c.sign key (h +++ "." +++ p) =
          ground arith in
        subst (Compact c key j) (sym made)
          (joined c key j h p (ch.encoded h eh) (cj.encoded p ep) (cj.reads p ep) (es _))
  ]
]

pub payload-Compact :
    (c : Primitives) (key : Key) (m : Members) (jwt : String)
    → Compact c key (object m) jwt
    → parse_payload c jwt ≡ some m
unfolding parse_payload
payload-Compact c key m jwt h = ground (arith, h.splits, h.reads)

pub verify_sig-Compact :
    (c : Primitives) (key public : Key) (j : Json) (jwt : String)
    → Compact c key j jwt
    → ((m : String) → c.verify public m (c.sign key m) ≡ true)
    → verify_sig c jwt public ≡ true
unfolding verify_sig
verify_sig-Compact c key public j jwt h signs =
    ground (arith, h.splits, signs (h.header +++ "." +++ h.payload))

-- The library's part for one disclosure.
pub record Held (c : Primitives) (d : Disclosure) : Type 0 where
  pub enc : String
  pub encodes : encode c d ≡ some enc
  pub encoded : Encoded enc
  pub decodes : parse_disclosure c enc ≡ some d

abbrev pub AllHeld : Primitives → List Disclosure → Type 0
AllHeld c [] = Unit {0}
AllHeld c (d ∷ ds) = Held c d × AllHeld c ds

pub select-AllHeld :
    (c : Primitives) (keys : List String) (ds : List Disclosure)
    → AllHeld c ds
    → AllHeld c (select keys ds)
unfolding select
select-AllHeld c keys [] h = tt
select-AllHeld c keys (d ∷ ds) h = elim (Bool-cases (mem d.key keys)) [
  | inl wanted ↦ rw wanted (h.0, select-AllHeld c keys ds h.1)
  | inr other ↦ rw other (select-AllHeld c keys ds h.1)
]

abbrev pub texts_of : Primitives → List Disclosure → List String
texts_of c ds = map (λ d. or_none (encode c d)) ds

pub AllEncoded-texts :
    (c : Primitives) (ds : List Disclosure) → AllHeld c ds → AllEncoded (texts_of c ds)
AllEncoded-texts c [] h = tt
AllEncoded-texts c (d ∷ ds) h = (rw (h.0.encodes) h.0.encoded, AllEncoded-texts c ds h.1)
