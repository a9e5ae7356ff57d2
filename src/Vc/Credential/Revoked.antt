-- ===== src/Vc/Credential/Revoked.antt =====
-- A credential and the status list that its issuer publishes.
use tpt_identity.Prelude.{
  ℕ, ℤ, pos, ◌<◌, ◌+◌, ◌*◌, ◌/◌, ◌≡◌, String, Bool, true, false, List, some, arith, if◌then◌else◌,
  not, ◌≤◌, ◌≢◌, eq_iff,
}
use tpt_identity.Vc.Keys.{Key, Primitives}
use tpt_identity.Schema.Registry.{Registry}
use tpt_identity.Vc.Status.{
  StatusList, Answer, answered, new_status_list, at_least_min, check_status,
}
use tpt_identity.Vc.Status.Writes.{Write, writes, marks, history-IsRevoked, history-Bounded}
use tpt_identity.Vc.Status.Check.{check_status-is_revoked}
use tpt_identity.Vc.Credential.{
  CredentialStatus, VerifiableCredential, Suite, IssueOptions, until, has_expired, issue, verify,
}
use tpt_identity.Vc.Credential.Issued.{Signs, verify-issue}

-- Whether CheckStatus returns nil.
abbrev pub is_clear : Answer → Bool
is_clear (answered b) = if b then false else true
is_clear _ = false

-- CheckStatus as the verifier's checker, on the bits of a list.
abbrev pub by_list : StatusList → CredentialStatus → Bool
by_list l status = is_clear (check_status l.bits (some status.status_list_index))

list-clear :
    (id : String) (n : ℤ) (ws : List Write) (k : ℕ)
    → k < (at_least_min n + 7) / 8 * 8
    → is_clear (check_status (writes ws (new_status_list id n)).bits (some (pos k)))
      ≡ not (marks ws k false)
list-clear id n ws k lt =
    let l = writes ws (new_status_list id n) in
    let b = history-Bounded id n ws in
    ground (
      arith,
      check_status-is_revoked l (some (pos k)) (record { bytes = b.bytes; counts = b.counts })
          (omega (arith, b.at_least)),
      history-IsRevoked id n ws (pos k),
    )

-- An issued credential that points at a place of a status list verifies, by CheckStatus on that list, from its
-- issuance on until its duration has passed and only while the calls of Revoke and Unrevoke on the list leave
-- its place unrevoked.
pub verify-issue-writes :
    (s : Suite) (registry : Registry) (itoa : ℕ → String) (sprint : ℤ → String) (o : IssueOptions)
    (uuid : String) (now : ℕ) (vc : VerifiableCredential) (c : Primitives) (public : Key)
    (later : ℕ) (id : String) (n : ℤ) (ws : List Write) (k : ℕ)
    → issue s registry itoa sprint o uuid now ≡ some vc
    → Signs s c o.issuer_did o.verification_method_id o.issuer_key public
    → now ≤ later
    → o.status_list_credential ≢ ""
    → o.status_list_index ≡ pos k
    → k < (at_least_min n + 7) / 8 * 8
    → verify s c (some (by_list (writes ws (new_status_list id n)))) later vc
      ≡ (if has_expired later (until now o.valid_for) then false else not (marks ws k false))
verify-issue-writes s registry itoa sprint o uuid now vc c public later id n ws k e signs in_time
      listed index lt =
    let l = writes ws (new_status_list id n) in
    ground (
      arith,
      verify-issue s registry itoa sprint o uuid now vc c public (some (by_list l)) later e signs
          in_time,
      list-clear id n ws k lt,
      eq_iff o.status_list_credential "",
    )
