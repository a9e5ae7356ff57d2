-- ===== src/Examples/Enrolments.antt =====
-- Guardians who are enrolled, and approvals by whoever has a token.
use tpt_identity.Prelude.{
  ℕ, zero, suc, ◌+◌, ◌≡◌, ◌≢◌, refl, String, false, List, [], ◌∷◌, some, none,
}
use tpt_identity.Prelude.Table.{find}
use tpt_identity.Store.Recovery.{RecoveryRequest, save_recovery_config}
use tpt_identity.Oidc.Jwt.{parse_unverified, split3}
use tpt_identity.Recovery.Requests.{
  Guarded, Answer, Draws, subject_from_bearer, enrol_subject, handle_get_recovery,
}
use tpt_identity.Recovery.Requests.Approvals.{
  Approval, Authenticated, approve_all, approve_all-counted, up,
}
use tpt_identity.Examples.Fixtures.{codec}

abbrev opened : RecoveryRequest
opened = record {
  id = "recov_1";
  subject_did = "did:bob";
  started_at = 0;
  shares_collected = 0;
  completed = false;
}

abbrev empty : Guarded
empty = record { configs = []; requests = opened ∷ []; shares = []; published = [] }

-- The same text by the same bearer, twice.
abbrev approval : Approval
approval = record { header = "Bearer head.body.sig"; share = b'x' ∷ []; now = 0 }

known : subject_from_bearer codec 0 "Bearer head.body.sig" ≡ some "did:alice"
unfolding subject_from_bearer parse_unverified split3
known = refl

some-ne-none : (s : String) → some s ≢ none
some-ne-none s e = cc e

authenticated : Authenticated codec (approval ∷ approval ∷ [])
authenticated = (bearer, some_text, (bearer, some_text, tt))
  where
    bearer : subject_from_bearer codec 0 "Bearer head.body.sig" ≢ none
    bearer = rw known (some-ne-none "did:alice")

    some_text : approval.share ≢ []
    some_text e = cc e

approve_all-counted_example :
    (q : RecoveryRequest) × (handle_get_recovery "recov_1" up
        (approve_all codec "recov_1" (approval ∷ approval ∷ []) empty)
      ≡ Answer.progress_of q)
    × (q.shares_collected ≡ 0 + 2)
    × (q.completed ≡ false)
unfolding find
approve_all-counted_example =
    approve_all-counted codec "recov_1" (approval ∷ approval ∷ []) empty opened authenticated refl
      refl refl

-- As many guardians as asked for.
abbrev guardians : ℕ → List String
guardians zero = []
guardians (suc n) = "did:guardian" ∷ guardians n

abbrev draws : Draws
draws = record {
  token = some (1 ∷ []);
  coefficients = λ _. some (7 ∷ []);
  request_id = some "recov_2";
}

enrol_run :
    enrol_subject "did:bob" (some (guardians 256, 2)) 0 up empty
    ≡ (Answer.enrolled_with 2 256, (enrol_subject "did:bob" (some (guardians 256, 2)) 0 up empty).1)
unfolding enrol_subject save_recovery_config
enrol_run = refl
