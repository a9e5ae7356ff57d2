-- ===== src/Oidc/Presentations/Answered.antt =====
-- What a verifier reads of the wallets' posts.
use tpt_identity.Prelude.{
  ℕ, ◌≡◌, ◌≢◌, refl, ap, ◌∙◌, String, List, [], ◌∷◌, Option, none, some, arith, ◌==◌, eq_iff,
  eq_refl, Bool-cases, Option-cases, inl, inr,
}
use tpt_identity.Prelude.Table.{find, delete, find-replace, find-upsert_other, find-delete_other}
use tpt_identity.Oidc.Presentations.{
  VpRequest, VpResponse, VpStore, RequestBody, VpReply, Call, has_id, answers, is_past, evict,
  or_empty, new_request, save_request, create_request, post_response, get_response, save_response,
  call, calls,
}

-- No call posts an answer for this state, and none makes a request of it.
abbrev pub Untouched : String → List Call → Type 0
Untouched state [] = Unit {0}
Untouched state (Call.creates body drawn salt now ∷ cs) =
    (or_empty drawn ≢ state) × Untouched state cs
Untouched state (Call.posts vp other now ∷ cs) = (other ≢ state) × Untouched state cs
Untouched state (Call.evicts now ∷ cs) = Untouched state cs

-- No request has the ID, and the answer for it is `x`.
record Orphan (x : VpResponse) (s : VpStore) : Type 0 where
  no_request : find (has_id x.request_id) s.requests ≡ none
  answered : find (answers x.request_id) s.responses ≡ some x

module _ (x : VpResponse) where
  create-Orphan :
      (issuer : String) (body : Option RequestBody) (id salt : Option String) (now : ℕ)
      (s : VpStore)
      → or_empty id ≢ x.request_id
      → Orphan x s
      → Orphan x (create_request issuer body id salt now s).1
  unfolding create_request
  create-Orphan issuer none id salt now s h k = k
  create-Orphan issuer (some body) id salt now s h k =
      elim (Option-cases body.presentation_definition) [
        | inl absent ↦ rw (absent, create_request) k
        | inr (definition, there) ↦
            rw (there, create_request)
              (record {
                no_request =
                    other_request (new_request issuer body definition id salt now) h ∙ k.no_request;
                answered = k.answered;
              })
      ]
    where
      other_request :
          (q : VpRequest)
          → q.id ≢ x.request_id
          → find (has_id x.request_id) (save_request q s).requests
            ≡ find (has_id x.request_id) s.requests
      other_request q apart =
          find-upsert_other (has_id q.id) (has_id x.request_id) (λ _. q) q s.requests
            (ground (arith, eq_iff q.id x.request_id, apart))
            (λ y e. ground (
              arith,
              eq_iff y.id q.id,
              eq_iff y.id x.request_id,
              eq_iff q.id x.request_id,
              e,
              apart,
            ))

  post-Orphan :
      (issuer vp state : String) (now : ℕ) (s : VpStore)
      → state ≢ x.request_id
      → Orphan x s
      → Orphan x (post_response issuer vp state now s).1
  unfolding post_response
  post-Orphan issuer vp state now s h k = elim (Bool-cases (vp == "")) [
    | inl e ↦ rw (e, post_response) k
    | inr e ↦
        rw (e, post_response)
          (record {
            no_request = k.no_request;
            answered =
                other_response (record { request_id = state; vp_token = vp; received_at = now }) h
                ∙ k.answered;
          })
  ]
    where
      other_response :
          (y : VpResponse)
          → y.request_id ≢ x.request_id
          → find (answers x.request_id) (save_response y s).responses
            ≡ find (answers x.request_id) s.responses
      other_response y apart =
          find-upsert_other (answers y.request_id) (answers x.request_id) (λ _. y) y s.responses
            (ground (arith, eq_iff y.request_id x.request_id, apart))
            (λ z e. ground (
              arith,
              eq_iff z.request_id y.request_id,
              eq_iff z.request_id x.request_id,
              eq_iff y.request_id x.request_id,
              e,
              apart,
            ))

  evict-Orphan : (now : ℕ) (s : VpStore) → Orphan x s → Orphan x (evict now s)
  unfolding evict is_past
  evict-Orphan now s k = record {
    no_request = none_left ∙ k.no_request;
    answered =
        find-delete_other (λ y. is_past now s.requests y.request_id) (answers x.request_id)
          s.responses
          (λ y e. rw ((eq_iff y.request_id x.request_id).0 e) (ground (arith, k.no_request)))
        ∙ k.answered;
  }
    where
      none_left :
          find (has_id x.request_id) (delete (λ r. is_past now s.requests r.id) s.requests)
          ≡ find (has_id x.request_id) s.requests
      none_left =
          find-delete_other (λ r. is_past now s.requests r.id) (has_id x.request_id) s.requests
            (λ y e. rw ((eq_iff y.id x.request_id).0 e) (ground (arith, k.no_request)))

  calls-Orphan :
      (issuer : String) (cs : List Call) (s : VpStore)
      → Untouched x.request_id cs
      → Orphan x s
      → Orphan x (calls issuer cs s)
  unfolding calls call
  calls-Orphan issuer [] s h k = k
  calls-Orphan issuer (Call.creates body id salt now ∷ cs) s h k =
      calls-Orphan issuer cs (create_request issuer body id salt now s).1 h.1
        (create-Orphan issuer body id salt now s h.0 k)
  calls-Orphan issuer (Call.posts vp state now ∷ cs) s h k =
      calls-Orphan issuer cs (post_response issuer vp state now s).1 h.1
        (post-Orphan issuer vp state now s h.0 k)
  calls-Orphan issuer (Call.evicts now ∷ cs) s h k =
      calls-Orphan issuer cs (evict now s) h (evict-Orphan now s k)

posted :
    (issuer vp state : String) (now : ℕ) (s : VpStore)
    → vp ≢ ""
    → (post_response issuer vp state now s).1
      ≡ save_response (record { request_id = state; vp_token = vp; received_at = now }) s
unfolding post_response
posted issuer vp state now s h = elim (Bool-cases (vp == "")) [
  | inl e ↦ absurd (h ((eq_iff vp "").0 e))
  | inr e ↦ rw (e, post_response) refl
]

-- A token that is posted for a state which no request has is stored as its answer all the same, is what the
-- verifier's endpoint then gives, and is never evicted: it is still there after any calls that
-- neither post for that state nor make a request of it.
pub get_response-orphan :
    (issuer vp state : String) (now : ℕ) (s : VpStore) (cs : List Call)
    → vp ≢ ""
    → find (has_id state) s.requests ≡ none
    → Untouched state cs
    → get_response state (calls issuer (Call.posts vp state now ∷ cs) s) ≡ VpReply.complete vp now
unfolding get_response calls call
get_response-orphan issuer vp state now s cs h k untouched =
    ap (λ (u : VpStore). get_response state (calls issuer cs u)) (posted issuer vp state now s h)
    ∙ given (calls issuer cs (save_response x s))
        (calls-Orphan x issuer cs (save_response x s) untouched begun)
  where
    x : VpResponse
    x = record { request_id = state; vp_token = vp; received_at = now }

    begun : Orphan x (save_response x s)
    begun = record {
      no_request = k;
      answered = find-replace (answers state) x s.responses (eq_refl state);
    }

    given : (u : VpStore) → Orphan x u → get_response state u ≡ VpReply.complete vp now
    given u o = ground (arith, o.answered)
