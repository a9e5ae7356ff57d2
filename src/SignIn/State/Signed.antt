-- ===== src/SignIn/State/Signed.antt =====
-- A state that is verified is one that was signed, for ten minutes.
use tpt_identity.Prelude.{
  ℕ, ◌+◌, ◌≤◌, ◌≡◌, sym, ap, ◌∙◌, subst, String, none, some, not, ltb, eq_iff, eq_refl, arith,
  if◌then◌else◌, Option-cases, inl, inr,
}
use tpt_identity.Oidc.Jwt.{◌+++◌, unix, cut_dot}
use tpt_identity.Oidc.Jwt.Laws.{NoDot, Cut, cut_dot-append, cut_dot-Cut}
use tpt_identity.SignIn.State.{
  BridgeState, StateCodec, sign_bridge_state, unless_expired, verify_parts, verify_bridge_state,
}

module _ (c : StateCodec) where
  -- The payload of a state reads back, and has no dot as base64url has none.
  pub record Encodes (st : BridgeState) : Type 0 where
    pub payload_plain : (t : String) → c.marshal st ≡ some t → NoDot t
    pub reads_back : (t : String) → c.marshal st ≡ some t → c.unmarshal t ≡ some st

  -- A state that the server signed is verified up to ten minutes after its creation, and not
  -- later.
  pub verify_bridge_state-sign :
      (st : BridgeState) (token : String) (now : ℕ)
      → Encodes st
      → sign_bridge_state c st ≡ some token
      → verify_bridge_state c now token
        ≡ (if ltb (st.created_at + 600) (unix now) then none else some st)
  unfolding sign_bridge_state verify_bridge_state
  verify_bridge_state-sign st token now h e = elim (Option-cases (c.marshal st)) [
    | inl missing ↦ absurd (ground (arith, missing, e))
    | inr (payload, there) ↦
        let same : payload +++ "." +++ c.mac payload ≡ token = ground (arith, there, e) in
        ap (λ t. verify_parts c now (cut_dot t)) (sym same)
        ∙ ap (verify_parts c now)
            (cut_dot-append payload (c.mac payload) (h.payload_plain payload there))
        ∙ ap (λ b. if not b then none else unless_expired c now (c.unmarshal payload))
            (eq_refl (c.mac payload))
        ∙ ap (unless_expired c now) (h.reads_back payload there)
  ]

  -- What a verified token is.
  pub record SignedState (token : String) (st : BridgeState) (now : ℕ) : Type 0 where
    pub payload : String
    pub signed : token ≡ payload +++ "." +++ c.mac payload
    pub read : c.unmarshal payload ≡ some st
    pub fresh : unix now ≤ st.created_at + 600

  pub verify_bridge_state-SignedState :
      (token : String) (st : BridgeState) (now : ℕ)
      → verify_bridge_state c now token ≡ some st
      → SignedState token st now
  unfolding verify_bridge_state Cut
  verify_bridge_state-SignedState token st now e = elim (Option-cases (cut_dot token)) [
    | inl whole ↦ absurd (ground (arith, whole, e))
    | inr ((payload, sig), parts) ↦ elim (Option-cases (c.unmarshal payload)) [
      | inl unread ↦ absurd (ground (arith, parts, unread, e))
      | inr (read, there) ↦
          let facts : (sig ≡ c.mac payload) × (unix now ≤ read.created_at + 600) × (read ≡ st) =
            ground (arith, parts, there, e, eq_iff sig (c.mac payload)) in
          let (same, fresh, equal) = facts in
          record {
            payload = payload;
            signed =
                (cut_dot-Cut token (payload, sig) parts).0 ∙ ap (λ t. payload +++ "." +++ t) same;
            read = there ∙ ap some equal;
            fresh = subst (λ (s : BridgeState). unix now ≤ s.created_at + 600) equal fresh;
          }
    ]
  ]
