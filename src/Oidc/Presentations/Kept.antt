-- ===== src/Oidc/Presentations/Kept.antt =====
-- A presentation request is served unchanged until it expires, and not afterwards.
use tpt_identity.Prelude.{
  ℕ, ◌≤◌, ◌<◌, ◌≡◌, ◌≢◌, ◌⊎◌, inl, inr, refl, ap, ◌∙◌, String, Bool, true, false, List, [], ◌∷◌,
  Option, none, some, arith, ◌==◌, eq_iff, eq_refl, ltb, Bool-cases, Option-cases,
}
use tpt_identity.Prelude.Table.{find, delete, find-replace, find-upsert_other, find-delete_other}
use tpt_identity.Vc.Json.{Json}
use tpt_identity.Oidc.Presentations.{
  VpRequest, VpStore, RequestBody, VpReply, Call, has_id, is_past, evict, or_empty, new_request,
  save_request, create_request, object_reply, get_request, post_response, call, calls,
}

-- No call makes a request of this ID, and none that evicts is later than `t`.
abbrev pub Apart : String → ℕ → List Call → Type 0
Apart id t [] = Unit {0}
Apart id t (Call.creates body drawn salt now ∷ cs) = (or_empty drawn ≢ id) × Apart id t cs
Apart id t (Call.posts vp state now ∷ cs) = Apart id t cs
Apart id t (Call.evicts now ∷ cs) = (now ≤ t) × Apart id t cs

module _ (r : VpRequest) (t : ℕ) where
  -- The request is there, or it is past and gone.
  abbrev Holds : VpStore → Type 0
  Holds s =
      (find (has_id r.id) s.requests ≡ some r)
      ⊎ ((r.expires_at < t) × (find (has_id r.id) s.requests ≡ none))

  same-Holds :
      (s u : VpStore)
      → find (has_id r.id) u.requests ≡ find (has_id r.id) s.requests
      → Holds s
      → Holds u
  same-Holds s u e (inl k) = inl (e ∙ k)
  same-Holds s u e (inr k) = inr (k.0, e ∙ k.1)

  save_other-Holds :
      (q : VpRequest) (s : VpStore) → q.id ≢ r.id → Holds s → Holds (save_request q s)
  save_other-Holds q s h = same-Holds s (save_request q s) (
      find-upsert_other (has_id q.id) (has_id r.id) (λ _. q) q s.requests
        (ground (arith, eq_iff q.id r.id, h)) apart)
    where
      apart :
          (x : VpRequest) → x.id == q.id ≡ true → (x.id == r.id ≡ false) × (q.id == r.id ≡ false)
      apart x e = ground (arith, eq_iff x.id q.id, eq_iff x.id r.id, eq_iff q.id r.id, e, h)

  create-Holds :
      (issuer : String) (body : Option RequestBody) (id salt : Option String) (now : ℕ)
      (s : VpStore)
      → or_empty id ≢ r.id
      → Holds s
      → Holds (create_request issuer body id salt now s).1
  unfolding create_request
  create-Holds issuer none id salt now s h k = k
  create-Holds issuer (some body) id salt now s h k =
      elim (Option-cases body.presentation_definition) [
        | inl absent ↦ rw (absent, create_request) k
        | inr (definition, there) ↦
            rw (there, create_request)
              (save_other-Holds (new_request issuer body definition id salt now) s h k)
      ]

  post-Holds :
      (issuer vp state : String) (now : ℕ) (s : VpStore)
      → Holds s
      → Holds (post_response issuer vp state now s).1
  unfolding post_response
  post-Holds issuer vp state now s k = elim (Bool-cases (vp == "")) [
    | inl e ↦ rw (e, post_response) k
    | inr e ↦ rw (e, post_response) k
  ]

  find-delete_all :
      (p q : VpRequest → Bool) (xs : List VpRequest)
      → ((x : VpRequest) → q x ≡ true → p x ≡ true)
      → find q (delete p xs) ≡ none
  unfolding find delete
  find-delete_all p q [] h = refl
  find-delete_all p q (x ∷ xs) h = ground (arith, find-delete_all p q xs h, h x)

  past_as :
      (now : ℕ) (requests : List VpRequest) (b : Bool)
      → is_past now requests r.id ≡ b
      → (x : VpRequest) → x.id == r.id ≡ true
      → is_past now requests x.id ≡ b
  past_as now requests b e x k = ap (is_past now requests) ((eq_iff x.id r.id).0 k) ∙ e

  evict-Holds : (now : ℕ) (s : VpStore) → now ≤ t → Holds s → Holds (evict now s)
  unfolding evict
  evict-Holds now s h k = elim (Bool-cases (is_past now s.requests r.id)) [
    | inl past ↦ inr (
      is_over past k,
      find-delete_all (λ x. is_past now s.requests x.id) (has_id r.id) s.requests
          (past_as now s.requests true past),
    )
    | inr current ↦
        same-Holds s (evict now s)
          (find-delete_other (λ x. is_past now s.requests x.id) (has_id r.id) s.requests
            (past_as now s.requests false current))
          k
  ]
    where
      is_over : is_past now s.requests r.id ≡ true → Holds s → r.expires_at < t
      is_over past (inl there) = unfold is_past in ground (arith, there, past, h)
      is_over past (inr over) = over.0

  calls-Holds :
      (issuer : String) (cs : List Call) (s : VpStore)
      → Apart r.id t cs
      → Holds s
      → Holds (calls issuer cs s)
  unfolding calls call
  calls-Holds issuer [] s h k = k
  calls-Holds issuer (Call.creates body id salt now ∷ cs) s h k =
      calls-Holds issuer cs (create_request issuer body id salt now s).1 h.1
        (create-Holds issuer body id salt now s h.0 k)
  calls-Holds issuer (Call.posts vp state now ∷ cs) s h k =
      calls-Holds issuer cs (post_response issuer vp state now s).1 h
        (post-Holds issuer vp state now s k)
  calls-Holds issuer (Call.evicts now ∷ cs) s h k =
      calls-Holds issuer cs (evict now s) h.1 (evict-Holds now s h.0 k)

served :
    (r : VpRequest) (t : ℕ) (sign : VpRequest → ℕ → Option String) (u : VpStore)
    → Holds r t u
    → ((t ≤ r.expires_at) × (get_request sign r.id t u ≡ object_reply (sign r t)))
      ⊎ ((r.expires_at < t)
          × ((get_request sign r.id t u ≡ VpReply.gone)
              ⊎ (get_request sign r.id t u ≡ VpReply.not_found)))
unfolding get_request
served r t sign u (inr (over, k)) = inr (over, inr (rw (k, get_request) refl))
served r t sign u (inl k) = elim (Bool-cases (ltb r.expires_at t)) [
  | inl over ↦ inr (ground (arith, over), inl (ground (arith, k, over)))
  | inr early ↦ inl (ground (arith, early), ground (arith, k, early))
]

-- After a request was created, and whatever is then created under other IDs, posted and evicted up to the time
-- `t`: fetching it at `t` gives its own request object, signed, as long as it has not expired,
-- and afterwards 410 or 404.
pub get_request-create :
    (issuer : String) (body : RequestBody) (definition : Json) (id salt : Option String) (now t : ℕ)
    (s : VpStore) (cs : List Call) (sign : VpRequest → ℕ → Option String)
    → body.presentation_definition ≡ some definition
    → Apart (or_empty id) t cs
    → let r = new_request issuer body definition id salt now in
      let reply =
        get_request sign r.id t (calls issuer (Call.creates (some body) id salt now ∷ cs) s) in
      ((t ≤ r.expires_at) × (reply ≡ object_reply (sign r t)))
      ⊎ ((r.expires_at < t) × ((reply ≡ VpReply.gone) ⊎ (reply ≡ VpReply.not_found)))
unfolding calls call create_request
get_request-create issuer body definition id salt now t s cs sign e h =
    let r = new_request issuer body definition id salt now in
    rw (e, create_request)
      (served r t sign (calls issuer cs (save_request r s)) (
        calls-Holds r t issuer cs (save_request r s) h
          (inl (find-replace (has_id r.id) r s.requests (eq_refl r.id)))))
