-- ===== src/SignIn/State.antt =====
-- api/bridge.go: the signed state that travels with a sign-in at another provider. Times are
-- whole seconds in a state, and nanoseconds on the clock.
pub mod Signed
use tpt_identity.Prelude.{ℕ, ◌+◌, String, Option, none, some, not, ltb, ◌==◌, if◌then◌else◌}
use tpt_identity.Oidc.Jwt.{◌+++◌, unix, cut_dot}

pub record BridgeState : Type 0 where
  pub client_id : String
  pub redirect_uri : String
  pub scope : String
  pub nonce : String
  pub orig_state : String
  pub code_challenge : String
  pub code_challenge_method : String
  pub link_for : String
  pub authn_request_id : String
  pub created_at : ℕ

-- `&bridgeState{}`.
abbrev pub no_state : BridgeState
no_state = record {
  client_id = "";
  redirect_uri = "";
  scope = "";
  nonce = "";
  orig_state = "";
  code_challenge = "";
  code_challenge_method = "";
  link_for = "";
  authn_request_id = "";
  created_at = 0;
}

-- The base64url text of the JSON, the reading of it, and the HMAC under the API key in
-- hexadecimal.
pub record StateCodec : Type 0 where
  pub marshal : BridgeState → Option String
  pub unmarshal : String → Option BridgeState
  pub mac : String → String

module _ (c : StateCodec) where
  unfoldable pub sign_bridge_state : BridgeState → Option String
  sign_bridge_state st = elim (c.marshal st) [
    | none ↦ none
    | some payload ↦ some (payload +++ "." +++ c.mac payload)
  ]

  abbrev pub unless_expired : ℕ → Option BridgeState → Option BridgeState
  unless_expired now none = none
  unless_expired now (some st) = if ltb (st.created_at + 600) (unix now) then none else some st

  abbrev pub verify_parts : ℕ → Option (String × String) → Option BridgeState
  verify_parts now none = none
  verify_parts now (some (payload, sig)) =
      if not (sig == c.mac payload) then none else unless_expired now (c.unmarshal payload)

  unfoldable pub verify_bridge_state : ℕ → String → Option BridgeState
  verify_bridge_state now token = verify_parts now (cut_dot token)
