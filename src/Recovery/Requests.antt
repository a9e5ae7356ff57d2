-- ===== src/Recovery/Requests.antt =====
-- api/recovery.go: the enrolment of guardians, the start of a recovery, and the guardians' approvals.
-- What the handlers publish on the event bus is the list `published`, in order. The n-th call of
-- the store that stands in a handler's text fails if `down n` holds.
pub mod Approvals
pub mod Started
use tpt_identity.Prelude.{
  ℕ, zero, suc, ◌+◌, String, Bool, true, false, List, [], ◌∷◌, ◌++◌, Option, none, some, length,
  ltb, nat_beq, ◌==◌, ◌||◌, if◌then◌else◌,
}
use tpt_identity.Prelude.Words.{trim_prefix}
use tpt_identity.Store.Recovery.{
  RecoveryConfig, RecoveryRequest, RecoveryShare, save_recovery_config, get_recovery_config,
  save_recovery_request, get_recovery_request, update_recovery_request, save_recovery_share,
}
use tpt_identity.Oidc.Jwt.{Codec, verify}
use tpt_identity.Recovery.Sharing.{Share, split, hex, hex_encode}

pub data Notice : Type 0 where
  enrolled : String → ℕ → ℕ → Notice
  initiated : String → String → String → List ℕ → Notice
  approved : String → String → ℕ → Notice

pub record Guarded : Type 0 where
  pub configs : List RecoveryConfig
  pub requests : List RecoveryRequest
  pub shares : List RecoveryShare
  pub published : List Notice

pub data Answer : Type 0 where
  unauthorized bad_request not_found conflict internal_error : Answer
  enrolled_with : ℕ → ℕ → Answer
  config : RecoveryConfig → Answer
  started : String → Answer
  accepted : String → ℕ → Answer
  progress_of : RecoveryRequest → Answer

unfoldable pub subject_from_bearer : Codec → ℕ → String → Option String
unfolding verify trim_prefix
subject_from_bearer c now header =
    if trim_prefix header "Bearer " == ""
    then none
    else elim (verify c now (trim_prefix header "Bearer ")) [
      | none ↦ none
      | some claims ↦ some claims.subject
    ]

abbrev pub with_configs : Guarded → Option (List RecoveryConfig) → Option Guarded
with_configs w none = none
with_configs w (some rows) = some (record w { configs = rows })

abbrev pub with_requests : Guarded → Option (List RecoveryRequest) → Option Guarded
with_requests w none = none
with_requests w (some rows) = some (record w { requests = rows })

abbrev pub with_shares : Guarded → Option (List RecoveryShare) → Option Guarded
with_shares w none = none
with_shares w (some rows) = some (record w { shares = rows })

abbrev pub publish : List Notice → Guarded → Guarded
publish notices w = record w { published = w.published ++ notices }

-- A write whose error ends the handler, and one whose error goes unnoticed.
abbrev pub after_write : Guarded → Option Guarded → (Guarded → Answer × Guarded) → Answer × Guarded
after_write w none k = (internal_error, w)
after_write w (some w') k = k w'

abbrev pub kept : Guarded → Option Guarded → Guarded
kept w none = w
kept w (some w') = w'

-- The guardians and the threshold of the body, which are refused out of range. A negative threshold
-- is refused as 0 is.
unfoldable pub enrol_subject :
    String → Option (List String × ℕ) → ℕ → (ℕ → Bool) → Guarded → Answer × Guarded
enrol_subject subject none now down w = (bad_request, w)
enrol_subject subject (some (guardians, threshold)) now down w =
    if ltb (length guardians) 2 || ltb threshold 2 || ltb (length guardians) threshold
    then (bad_request, w)
    else after_write w
        (with_configs w (
          save_recovery_config (down 0)
            (record {
              subject_did = subject;
              threshold = threshold;
              guardian_dids = guardians;
              created_at = now;
            })
            w.configs))
        (λ w'. (
          enrolled_with threshold (length guardians),
          publish (enrolled subject threshold (length guardians) ∷ []) w',
        ))

unfoldable pub handle_recovery_enrol :
    Codec → String → Option (List String × ℕ) → ℕ → (ℕ → Bool) → Guarded → Answer × Guarded
unfolding subject_from_bearer enrol_subject
handle_recovery_enrol c header body now down w = elim (subject_from_bearer c now header) [
  | none ↦ (unauthorized, w)
  | some subject ↦ enrol_subject subject body now down w
]

unfoldable pub handle_get_recovery_config : Codec → String → ℕ → (ℕ → Bool) → Guarded → Answer
unfolding subject_from_bearer
handle_get_recovery_config c header now down w = elim (subject_from_bearer c now header) [
  | none ↦ unauthorized
  | some subject ↦ elim (get_recovery_config (down 0) subject w.configs) [
    | none ↦ not_found
    | some cfg ↦ config cfg
  ]
]

-- The token of 32 random bytes, the coefficients of its division, and the request's ID, whose error
-- is ignored.
pub record Draws : Type 0 where
  pub token : Option (List ℕ)
  pub coefficients : ℕ → Option (List ℕ)
  pub request_id : Option String

abbrev pub id_of : Option String → String
id_of none = ""
id_of (some hex_text) = hex_text

-- The shares go to the guardians in order.
unfoldable pub deliveries : String → String → List String → List Share → List Notice
deliveries id subject (guardian ∷ guardians) (share ∷ shares) =
    initiated id subject guardian (hex share) ∷ deliveries id subject guardians shares
deliveries id subject _ _ = []

abbrev pub start :
    String
    → RecoveryConfig
    → Draws
    → ℕ
    → (ℕ → Bool)
    → Guarded
    → Option (List Share)
    → Answer × Guarded
start subject cfg d now down w none = (internal_error, w)
start subject cfg d now down w (some shares) =
    after_write w
      (with_requests w (
        save_recovery_request (down 1)
          (record {
            id = id_of d.request_id;
            subject_did = subject;
            started_at = now;
            shares_collected = 0;
            completed = false;
          })
          w.requests))
      (λ w'. (
        started (id_of d.request_id),
        publish (deliveries (id_of d.request_id) subject cfg.guardian_dids shares) w',
      ))

abbrev pub split_token : Draws → RecoveryConfig → Option (List ℕ) → Option (List Share)
split_token d cfg none = none
split_token d cfg (some token) = split d.coefficients token cfg.threshold (length cfg.guardian_dids)

unfoldable pub handle_recovery_initiate :
    String → Draws → ℕ → (ℕ → Bool) → Guarded → Answer × Guarded
handle_recovery_initiate subject d now down w =
    if subject == ""
    then (bad_request, w)
    else elim (get_recovery_config (down 0) subject w.configs) [
      | none ↦ (not_found, w)
      | some cfg ↦ start subject cfg d now down w (split_token d cfg d.token)
    ]

-- `make([]byte, 32)`, `copy`, and the first 16 bytes.
unfoldable pub first_bytes : ℕ → List ℕ → List ℕ
first_bytes zero text = []
first_bytes (suc n) [] = 0 ∷ first_bytes n []
first_bytes (suc n) (b ∷ text) = b ∷ first_bytes n text

unfoldable pub share_hash : List ℕ → List ℕ
unfolding first_bytes
share_hash text = hex_encode (first_bytes 16 text)

abbrev pub is_empty : List ℕ → Bool
is_empty [] = true
is_empty (_ ∷ _) = false

abbrev pub collected : RecoveryRequest → RecoveryRequest
collected r = record r { shares_collected = r.shares_collected + 1 }

unfoldable pub approve_as : String → String → List ℕ → ℕ → (ℕ → Bool) → Guarded → Answer × Guarded
approve_as guardian id share now down w =
    if is_empty share
    then (bad_request, w)
    else elim (get_recovery_request (down 0) id w.requests) [
      | none ↦ (not_found, w)
      | some r ↦
          if r.completed
          then (conflict, w)
          else after_write w
              (with_shares w (
                save_recovery_share (down 1)
                  (record {
                    request_id = id;
                    guardian_did = guardian;
                    share_hash = share_hash share;
                    collected_at = now;
                  })
                  w.shares))
              (λ w'. (
                accepted id (r.shares_collected + 1),
                publish (approved id guardian (r.shares_collected + 1) ∷ []) (
                    kept w' (
                      with_requests w'
                        (update_recovery_request (down 2) (collected r) w'.requests))),
              ))
    ]

unfoldable pub handle_recovery_approve :
    Codec → String → String → List ℕ → ℕ → (ℕ → Bool) → Guarded → Answer × Guarded
unfolding subject_from_bearer approve_as
handle_recovery_approve c header id share now down w = elim (subject_from_bearer c now header) [
  | none ↦ (unauthorized, w)
  | some guardian ↦ approve_as guardian id share now down w
]

unfoldable pub handle_get_recovery : String → (ℕ → Bool) → Guarded → Answer
handle_get_recovery id down w = elim (get_recovery_request (down 0) id w.requests) [
  | none ↦ not_found
  | some r ↦ progress_of r
]
