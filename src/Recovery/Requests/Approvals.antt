-- ===== src/Recovery/Requests/Approvals.antt =====
-- Who may approve a recovery, and how often.
use tpt_identity.Prelude.{
  ℕ, suc, ◌+◌, ◌≡◌, ◌≢◌, refl, sym, ap, ◌∙◌, String, Bool, false, List, [], ◌∷◌, none, some, length,
  arith, subst, Option-cases, inl, inr,
}
use tpt_identity.Prelude.Table.{find, update, find-update}
use tpt_identity.Store.Recovery.{
  RecoveryRequest, is_request, progress, get_recovery_request, update_recovery_request,
  save_recovery_share,
}
use tpt_identity.Oidc.Jwt.{Codec}
use tpt_identity.Recovery.Requests.{
  Guarded, Answer, subject_from_bearer, collected, approve_as, handle_recovery_approve,
  handle_get_recovery,
}

-- Nothing fails.
abbrev pub up : ℕ → Bool
up _ = false

-- One approval: its header, its text and its time.
pub record Approval : Type 0 where
  pub header : String
  pub share : List ℕ
  pub now : ℕ

-- Every approval is by a bearer of some token and has some text.
abbrev pub Authenticated : Codec → List Approval → Type 0
Authenticated c [] = Unit {0}
Authenticated c (a ∷ approvals) =
    (subject_from_bearer c a.now a.header ≢ none) × (a.share ≢ []) × Authenticated c approvals

unfoldable pub approve_all : Codec → String → List Approval → Guarded → Guarded
approve_all c id [] w = w
approve_all c id (a ∷ approvals) w =
    approve_all c id approvals (handle_recovery_approve c a.header id a.share a.now up w).1

module _ (id : String) where
  abbrev Open : ℕ → Guarded → Type 0
  Open n w =
      (r : RecoveryRequest) × (find (is_request id) w.requests ≡ some r)
      × (r.id ≡ id)
      × (r.shares_collected ≡ n)
      × (r.completed ≡ false)

  find-counted :
      (r : RecoveryRequest) (rows : List RecoveryRequest)
      → find (is_request id) rows ≡ some r
      → find (is_request id) (update (is_request id) (progress (collected r)) rows)
        ≡ some (progress (collected r) r)
  find-counted r rows e =
      find-update (is_request id) (progress (collected r)) rows (λ x k. k) ∙ ground (arith, e)

  approve_as-requests :
      (guardian : String) (b : ℕ) (share : List ℕ) (now : ℕ) (w : Guarded) (r : RecoveryRequest)
      → find (is_request id) w.requests ≡ some r
      → r.completed ≡ false
      → (approve_as guardian id (b ∷ share) now up w).1.requests
        ≡ update (is_request r.id) (progress (collected r)) w.requests
  unfolding approve_as get_recovery_request update_recovery_request save_recovery_share
  approve_as-requests guardian b share now w r there incomplete =
      rw (there, approve_as) (rw (incomplete, approve_as) refl)

  approve_as-Open :
      (guardian : String) (share : List ℕ) (now n : ℕ) (w : Guarded)
      → share ≢ []
      → Open n w
      → Open (n + 1) (approve_as guardian id share now up w).1
  approve_as-Open guardian [] now n w h k = absurd (h refl)
  approve_as-Open guardian (b ∷ share) now n w h (r, there, same, count, incomplete) = (
    progress (collected r) r,
    ap (find (is_request id)) (approve_as-requests guardian b share now w r there incomplete)
        ∙ ap (λ i. find (is_request id) (update (is_request i) (progress (collected r)) w.requests))
            same
        ∙ find-counted r w.requests there,
    same,
    ap (λ t. t + 1) count,
    incomplete,
  )

  approve_all-Open :
      (c : Codec) (approvals : List Approval) (n : ℕ) (w : Guarded)
      → Authenticated c approvals
      → Open n w
      → Open (n + length approvals) (approve_all c id approvals w)
  unfolding approve_all handle_recovery_approve
  approve_all-Open c [] n w h k = subst (λ m. Open m w) (omega arith) k
  approve_all-Open c (a ∷ approvals) n w h k =
      elim (Option-cases (subject_from_bearer c a.now a.header)) [
        | inl nobody ↦ absurd (h.0 nobody)
        | inr (guardian, known) ↦
            let w' = (approve_as guardian id a.share a.now up w).1 in
            let same : (handle_recovery_approve c a.header id a.share a.now up w).1 ≡ w' =
              ground (arith, known) in
            subst
              (λ (u : Guarded). Open (n + suc (length approvals)) (approve_all c id approvals u))
              (sym same)
              (subst (λ m. Open m (approve_all c id approvals w')) (omega arith)
                (approve_all-Open c approvals (n + 1) w' h.2
                  (approve_as-Open guardian a.share a.now n w h.1 k)))
      ]

-- While the store works, an open recovery counts every approval: by whatever bearers of tokens,
-- guardians of the subject or not, the same one again and again, and with whatever texts for
-- shares. It stays open however many there are.
pub approve_all-counted :
    (c : Codec) (id : String) (approvals : List Approval) (w : Guarded) (r : RecoveryRequest)
    → Authenticated c approvals
    → find (is_request id) w.requests ≡ some r
    → r.id ≡ id
    → r.completed ≡ false
    → (q : RecoveryRequest) × (handle_get_recovery id up (approve_all c id approvals w)
        ≡ Answer.progress_of q)
      × (q.shares_collected ≡ r.shares_collected + length approvals)
      × (q.completed ≡ false)
unfolding handle_get_recovery get_recovery_request
approve_all-counted c id approvals w r h there same incomplete =
    let (q, found, same', count, open') =
      approve_all-Open id c approvals r.shares_collected w h (r, there, same, refl, incomplete) in
    (q, ground (arith, found), count, open')
