-- ===== src/Vc/Status/Check.antt =====
-- CheckStatus of pkg/vc/status.go, on the bits that a status list publishes.
use tpt_identity.Prelude.{
  ℤ, pos, negsuc, ◌-◌, ◌<◌, ◌≡◌, refl, false, Option, none, some, arith, ltb, leb, if◌then◌else◌,
  Bool-cases, inl, inr,
}
use tpt_identity.Vc.Status.{StatusList, answered, panics, check_index, is_revoked, check_status}
use tpt_identity.Vc.Status.Writes.{Sized}

-- CheckStatus on a published list agrees with IsRevoked on the list at each index that is not
-- negative. At an index from -7 to -1 it answers by one of the first byte's bits, and at a lower one
-- it runs into an index out of range, where IsRevoked refuses both; a credential without a status
-- passes.
pub check_status-is_revoked :
    (s : StatusList) (status : Option ℤ)
    → Sized s
    → 0 < s.size
    → check_status s.bits status ≡ (elim status [
      | none ↦ answered false
      | some i ↦ elim i [
        | pos k ↦ is_revoked (pos k) s
        | negsuc k ↦ if ltb k 7 then is_revoked (pos (7 - k)) s else panics
      ]
    ])
unfolding check_status is_revoked check_index
check_status-is_revoked s none h lt = refl
check_status-is_revoked s (some (pos i)) h lt = elim (Bool-cases (leb s.size i)) [
  | inl ge ↦ ground (arith, h.counts)
  | inr in_range ↦ ground (arith, h.counts)
]
check_status-is_revoked s (some (negsuc k)) h lt = ground (arith, h.counts)
