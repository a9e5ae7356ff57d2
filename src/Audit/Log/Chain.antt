-- ===== src/Audit/Log/Chain.antt =====
-- The chain of hashes: internal/auditlog/auditlog.go.
pub mod Pinned
use tpt_identity.Prelude.{
  ℕ, ◌+◌, ◌≡◌, ◌≢◌, refl, sym, ◌∙◌, ap, String, Bool, true, false, List, [], ◌∷◌, Option,
}
use tpt_identity.Audit.Log.{
  AuditEvent, Digest, prev_hash_of, event_hash, last_seq, head_hash, append_audit_event,
  get_audit_head, handle,
}

-- Every row's hash is that of its content behind the hash of the row before, and the rows are
-- numbered without a gap.
pub data Chained (d : Digest) : List AuditEvent → Type 0 where
  start : Chained d []
  link :
      {e : AuditEvent} {rows : List AuditEvent}
      → e.hash ≡ event_hash d e.event_type e.payload e.prev_hash
      → e.prev_hash ≡ head_hash rows
      → e.seq ≡ last_seq rows + 1
      → Chained d rows
      → Chained d (e ∷ rows)

head-read : (rows : List AuditEvent) → prev_hash_of (get_audit_head false rows) ≡ head_hash rows
unfolding get_audit_head
head-read [] = refl
head-read (e ∷ rows) = refl

-- An event that is handled while the head can be read keeps the chain, written or not.
pub handle-Chained :
    (d : Digest) (down : Bool) (now : ℕ) (event_type : String) (payload : Option String)
    (rows : List AuditEvent)
    → Chained d rows
    → Chained d (handle d false down now event_type payload rows)
unfolding handle append_audit_event
handle-Chained d true now event_type payload rows c = c
handle-Chained d false now event_type payload rows c = link refl (head-read rows) refl c
