-- ===== src/Oidc/Offers/Once.antt =====
-- A credential offer buys one access token: oidc/oid4vci.go.
use tpt_identity.Prelude.{
  ◌≤◌, ◌≡◌, ◌≢◌, ◌∙◌, refl, String, true, false, some, arith, eq_iff, Option-cases, inl, inr,
  if◌then◌else◌,
}
use tpt_identity.Prelude.Table.{find, update, find-update}
use tpt_identity.Store.Rows.{CredentialOffer}
use tpt_identity.Store.Requests.{has_offer_id, get_credential_offer, mark_credential_offer_used}
use tpt_identity.Oidc.Handler.{World, Request, Env, ok, err, refused, invalid_grant}
use tpt_identity.Oidc.Jwt.{issue_jwt_with_extra}
use tpt_identity.Oidc.ClientAuth.{Provider, access_token_ttl}
use tpt_identity.Oidc.Offers.{handle_pre_authorized_code, offer_subject, offer_extra}

abbrev pub offer_code : Request → String
offer_code r = r.form "pre-authorized_code"

pub record Taken (p : Provider) (env : Env) (r : Request) (w w' : World) (token : String)
    : Type 0 where
  pub offer : CredentialOffer
  pub given : offer_code r ≢ ""
  pub found : get_credential_offer (env.down 0) (offer_code r) w.credential_offers ≡ some offer
  pub unused : offer.used ≡ false
  pub in_time : env.now ≤ offer.expires_at
  pub issued :
      issue_jwt_with_extra p.codec p.issuer
        (offer_subject offer (offer_code r))
        p.issuer
        access_token_ttl
        p.key_id
        (offer_extra offer)
        env.now
      ≡ some token
  pub marks : w'.credential_offers ≡ (
      if env.down 1
      then w.credential_offers
      else update (has_offer_id (offer_code r)) (λ o. record o { used = true }) w.credential_offers)

-- A pre-authorized code gives a token only while its offer is unused and in time; the token names
-- the offer's subject and schemas, and the offer is marked as used (if that write does not fail).
pub handle_pre_authorized_code-Taken :
    (p : Provider) (env : Env) (r : Request) (w w' : World) (token : String)
    → handle_pre_authorized_code p env r w ≡ (ok token, w')
    → Taken p env r w w' token
unfolding handle_pre_authorized_code mark_credential_offer_used
handle_pre_authorized_code-Taken p env r w w' token e =
    elim (Option-cases (get_credential_offer (env.down 0) (offer_code r) w.credential_offers)) [
      | inl missing ↦ absurd (ground arith)
      | inr (o, found) ↦ record {
        offer = o;
        given = ground (arith, eq_iff (offer_code r) "");
        found = found;
        unused = ground arith;
        in_time = ground arith;
        issued = ground arith;
        marks = ground arith;
      }
    ]

used_refused :
    (p : Provider) (env : Env) (r : Request) (w : World) (o : CredentialOffer)
    → offer_code r ≢ ""
    → get_credential_offer false (offer_code r) w.credential_offers ≡ some o
    → o.used ≡ true
    → handle_pre_authorized_code p env r w ≡ (err (refused invalid_grant), w)
unfolding handle_pre_authorized_code get_credential_offer
used_refused p env r w o given found used = ground (arith, eq_iff (offer_code r) "")

-- After a token was given and the offer marked, every further request with the code is refused and
-- changes nothing.
pub offer_single_use :
    (p : Provider) (env env' : Env) (r r' : Request) (w w' : World) (token : String)
    → env.down 1 ≡ false
    → offer_code r' ≡ offer_code r
    → handle_pre_authorized_code p env r w ≡ (ok token, w')
    → handle_pre_authorized_code p env' r' w' ≡ (err (refused invalid_grant), w')
unfolding get_credential_offer
offer_single_use p env env' r r' w w' token up same e =
    let done = handle_pre_authorized_code-Taken p env r w w' token e in
    let code = offer_code r in
    let marked : CredentialOffer = record done.offer { used = true } in
    let there : find (has_offer_id code) w.credential_offers ≡ some done.offer =
      ground (arith, done.found) in
    let row =
      find-update (has_offer_id code) (λ o. record o { used = true }) w.credential_offers
        (λ o h. h) in
    used_refused p env' r' w' marked (rw same done.given)
      (rw (same, done.marks, up) (row ∙ rw there refl)) refl
