-- ===== src/Oidc/Flow.antt =====
-- The authorization code flow from the redirect to the tokens: oidc/provider.go.
use tpt_identity.Prelude.{◌≡◌, String, some}
use tpt_identity.Oidc.Handler.{World, Request, Env}
use tpt_identity.Oidc.Jwt.{issue_access_token}
use tpt_identity.Oidc.ClientAuth.{Provider, TokenResponse, access_token_ttl}
use tpt_identity.Oidc.ClientAuth.Proven.{Authenticated}

-- Who gets the tokens for a code that an authorization request gave out.
pub record Bound (p : Provider) (env : Env) (asked redeemed : Request) (q : String → String)
    (w : World) (t : TokenResponse) : Type 0 where
  pub verifier : p.codec.sha256_b64 (redeemed.form "code_verifier") ≡ q "code_challenge"
  pub client : Authenticated p (env.down 1) redeemed (q "client_id") w.clients
  pub access :
      issue_access_token p.codec p.issuer
        (asked.header "X-Subject-DID")
        (q "client_id")
        access_token_ttl
        p.key_id
        env.now
      ≡ some t.access_token
  pub scope : t.scope ≡ q "scope"
