-- ===== src/Oidc/Offers.antt =====
-- oidc/oid4vci.go: credential offers, the pre-authorized code grant, and the checks of the
-- credential endpoint. The credential itself is issued by package pkg/vc.
pub mod Once
use tpt_identity.Prelude.{
  ℕ, ◌+◌, ◌*◌, String, Bool, true, false, List, [], ◌∷◌, Option, none, some, not, ◌==◌, ◌||◌, ◌&&◌,
  ltb, nat_beq, map, if◌then◌else◌,
}
use tpt_identity.Prelude.Words.{contains, has_prefix, join_words, trim_prefix}
use tpt_identity.Store.Rows.{CredentialOffer}
use tpt_identity.Store.Requests.{
  save_credential_offer, get_credential_offer, mark_credential_offer_used,
}
use tpt_identity.Oidc.Handler.{
  World, Request, Env, Handler, refused, internal_error, invalid_request, invalid_grant,
  invalid_token, insufficient_scope, unsupported_credential_type, ◌>>=◌, ◌>>◌, pure, reject_if,
  read, need, write, try, with_credential_offers,
}
use tpt_identity.Oidc.Jwt.{◌+++◌, Claims, Payload, second, verify, issue_jwt_with_extra}
use tpt_identity.Oidc.ClientAuth.{Provider, access_token_ttl}

pub record OfferRequest : Type 0 where
  pub schema_ids : List String
  pub subject_did : String
  pub client_id : String
  -- `expires_in`; 0 for a negative number, which is treated as 0 is.
  pub expires_in : ℕ

abbrev no_schemas : List String → Bool
no_schemas [] = true
no_schemas (_ ∷ _) = false

abbrev offer_ttl : ℕ → ℕ
offer_ttl n = if nat_beq n 0 then 10 * 60 * second else n * second

-- The reply is made of the offer that is saved.
unfoldable pub create_credential_offer_handler :
    Provider → Env → Option OfferRequest → Handler CredentialOffer
create_credential_offer_handler p env body = do
  q ← need body (refused invalid_request)
  reject_if (no_schemas q.schema_ids) (refused invalid_request)
  id ← need (env.draws 0) internal_error
  let offer =
      let row : CredentialOffer = record {
        id = id;
        client_id = q.client_id;
        schema_ids = q.schema_ids;
        issuer_did = p.issuer;
        subject_did = q.subject_did;
        expires_at = env.now + offer_ttl q.expires_in;
        used = false;
        created_at = env.now;
      } in
      row
  write λ w. with_credential_offers w (save_credential_offer (env.down 0) offer w.credential_offers)
  pure offer

unfoldable pub credential_scopes : List String → List String
credential_scopes [] = []
credential_scopes (s ∷ schema_ids) = ("credential:" +++ s) ∷ credential_scopes schema_ids

abbrev pub offer_subject : CredentialOffer → String → String
offer_subject o code = if o.subject_did == "" then "urn:pre-auth:" +++ code else o.subject_did

abbrev pub offer_extra : CredentialOffer → Claims → Payload
offer_extra o base = record {
  claims = record base { scope = join_words (credential_scopes o.schema_ids) };
  act = none;
  offer_id = o.id;
  schema_ids = o.schema_ids;
}

-- The reply's access token.
unfoldable pub handle_pre_authorized_code : Provider → Env → Request → Handler String
handle_pre_authorized_code p env r = do
  let code = r.form "pre-authorized_code"
  reject_if (code == "") (refused invalid_request)
  offer ←
      read (λ w. get_credential_offer (env.down 0) code w.credential_offers) (refused invalid_grant)
  reject_if offer.used (refused invalid_grant)
  reject_if (ltb offer.expires_at env.now) (refused invalid_grant)
  try λ w.
      with_credential_offers w (mark_credential_offer_used (env.down 1) code w.credential_offers)
  need
      (issue_jwt_with_extra p.codec p.issuer (offer_subject offer code) p.issuer access_token_ttl
        p.key_id (offer_extra offer) env.now)
      internal_error

pub record CredentialRequest : Type 0 where
  pub types : List String
  pub vct : String

abbrev last_type : List String → String
last_type [] = ""
last_type (t ∷ []) = t
last_type (t ∷ u ∷ types) = last_type (u ∷ types)

unfoldable pub requested_schema : CredentialRequest → String
requested_schema q = if q.vct == "" then last_type q.types else q.vct

-- CredentialHandler up to the issuance: the schema and the subject of the credential.
unfoldable pub credential_handler :
    Provider → Env → Request → Option CredentialRequest → Handler (String × String)
credential_handler p env r body = do
  let bearer = trim_prefix (r.header "Authorization") "Bearer "
  reject_if (bearer == "") (refused invalid_token)
  claims ← need (verify p.codec env.now bearer) (refused invalid_token)
  q ← need body (refused invalid_request)
  let schema_id = requested_schema q
  reject_if (schema_id == "") (refused unsupported_credential_type)
  reject_if (not (claims.scope == "") && not (contains claims.scope ("credential:" +++ schema_id)))
      (refused insufficient_scope)
  reject_if (has_prefix claims.subject "urn:pre-auth:") (refused invalid_request)
  pure (schema_id, claims.subject)
