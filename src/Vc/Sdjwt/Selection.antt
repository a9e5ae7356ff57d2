-- ===== src/Vc/Sdjwt/Selection.antt =====
-- Claims that are drawn, selected, revealed and laid over one another.
use tpt_identity.Prelude.{
  ℕ, ◌≡◌, refl, ap, ◌∙◌, String, true, false, List, [], ◌∷◌, Option, none, some, ◌==◌, arith, inl,
  inr, Option-cases, Bool-cases, if◌then◌else◌, eq_refl,
}
use tpt_identity.Schema.Registry.{Schema}
use tpt_identity.Vc.Json.{Members, no_member, member, lookup, put, put_all, texts, text_items}
use tpt_identity.Vc.Keys.{Primitives}
use tpt_identity.Vc.Sdjwt.{
  ok, Disclosure, digest, mem, select, IssueOptions, disclose, issued_payload, base_payload,
}
use tpt_identity.Vc.Sdjwt.Verifier.{reveal}
use tpt_identity.Vc.Sdjwt.Signed.{AllHeld, texts_of}
use tpt_identity.Vc.Sdjwt.Sound.{lookup-put}

-- The named claims.
unfoldable pub only : List String → Members → Members
unfolding mem
only keys no_member = no_member
only keys (member k v rest) =
    let more = only keys rest in if mem k keys then member k v more else more

unfoldable pub claims_in : List Disclosure → Members
claims_in [] = no_member
claims_in (d ∷ ds) = member d.key d.value (claims_in ds)

pub select-only :
    (keys : List String) (ds : List Disclosure)
    → claims_in (select keys ds) ≡ only keys (claims_in ds)
unfolding claims_in select only
select-only keys [] = refl
select-only keys (d ∷ ds) = ground (arith, select-only keys ds)

-- Each disclosure's digest is in the list.
abbrev pub AllListed : Primitives → List String → List Disclosure → Type 0
AllListed c hs [] = Unit {0}
AllListed c hs (d ∷ ds) =
    ((h : String) × (digest c d ≡ some h) × (mem h hs ≡ true)) × AllListed c hs ds

AllListed-cons :
    (c : Primitives) (h : String) (hs : List String) (ds : List Disclosure)
    → AllListed c hs ds
    → AllListed c (h ∷ hs) ds
AllListed-cons c h hs [] l = tt
AllListed-cons c h hs (d ∷ ds) l =
    ((l.0.0, l.0.1, unfold mem in ground (arith, l.0.2)), AllListed-cons c h hs ds l.1)

pub select-AllListed :
    (c : Primitives) (hs keys : List String) (ds : List Disclosure)
    → AllListed c hs ds
    → AllListed c hs (select keys ds)
unfolding select
select-AllListed c hs keys [] l = tt
select-AllListed c hs keys (d ∷ ds) l = elim (Bool-cases (mem d.key keys)) [
  | inl wanted ↦ rw wanted (l.0, select-AllListed c hs keys ds l.1)
  | inr other ↦ rw other (select-AllListed c hs keys ds l.1)
]

pub record Drawn (c : Primitives) (claims : Members) (ds : List Disclosure) (hs : List String)
    : Type 0 where
  pub claims_drawn : claims_in ds ≡ claims
  pub listed : AllListed c hs ds

pub disclose-Drawn :
    (c : Primitives) (salt : String → Option String) (claims : Members) (ds : List Disclosure)
    (hs : List String)
    → disclose c salt claims ≡ some (ds, hs)
    → Drawn c claims ds hs
unfolding disclose claims_in mem
disclose-Drawn c salt no_member [] hs e = record { claims_drawn = refl; listed = tt }
disclose-Drawn c salt no_member (d ∷ ds) hs e = absurd (ground arith)
disclose-Drawn c salt (member k v claims) ds hs e = elim (Option-cases (salt k)) [
  | inl bad ↦ absurd (ground arith)
  | inr (s, drawn) ↦
      let d : Disclosure = record { salt = s; key = k; value = v } in
      elim (Option-cases (digest c d)) [
        | inl bad ↦ absurd (ground arith)
        | inr (h, hashed) ↦ elim (Option-cases (disclose c salt claims)) [
          | inl bad ↦ absurd (ground arith)
          | inr ((more, others), rest) ↦
              let ih = disclose-Drawn c salt claims more others rest in
              let made : (ds ≡ d ∷ more) × (hs ≡ h ∷ others) = (ground arith, ground arith) in
              rw (made.0, made.1)
                (record {
                  claims_drawn = ap (member k v) ih.claims_drawn;
                  listed = (
                    (h, hashed, ground (arith, eq_refl h)),
                    AllListed-cons c h others more ih.listed,
                  );
                })
        ]
      ]
]

pub reveal-all :
    (c : Primitives) (hs : List String) (ds : List Disclosure) (acc : Members)
    → AllHeld c ds
    → AllListed c hs ds
    → reveal c hs (texts_of c ds) acc ≡ ok (put_all (claims_in ds) acc)
unfolding reveal claims_in put_all
reveal-all c hs [] acc held listed = refl
reveal-all c hs (d ∷ ds) acc held listed = ground (
  arith,
  held.0.encodes,
  held.0.decodes,
  listed.0.1,
  listed.0.2,
  reveal-all c hs ds (put d.key d.value acc) held.1 listed.1,
)

lookup-put_all :
    (k : String) (m more : Members) → lookup k more ≡ none → lookup k (put_all more m) ≡ lookup k m
unfolding lookup put_all
lookup-put_all k m no_member h = refl
lookup-put_all k m (member j v more) h =
    ground (arith, lookup-put k j v m, lookup-put_all k (put j v m) more)

-- A key that neither the claims laid over nor `vct` touch.
pub lookup-issued :
    (c : Primitives) (o : IssueOptions) (schema : Option Schema) (hs : List String) (now : ℕ)
    (k : String)
    → lookup k o.always_visible_claims ≡ none
    → ("vct" == k) ≡ false
    → lookup k (issued_payload c o schema hs now) ≡ lookup k (base_payload c o hs now)
unfolding issued_payload
lookup-issued c o none hs now k free other = lookup-put_all k _ o.always_visible_claims free
lookup-issued c o (some s) hs now k free other =
    lookup-put_all k _ o.always_visible_claims free ∙ (rw (lookup-put k "vct") (rw other refl))

pub texts-text_items : (hs : List String) → texts (text_items hs) ≡ hs
unfolding texts text_items
texts-text_items [] = refl
texts-text_items (h ∷ hs) = ap (◌∷◌ h) (texts-text_items hs)
