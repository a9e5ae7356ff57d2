-- ===== src/Audit/Log.antt =====
-- internal/auditlog/auditlog.go and the statements on audit_log of internal/store/sqlite.go.
-- The table is a list, the newest row first.
pub mod Chain
use Prim.Native.String
use tpt_identity.Prelude.{ℕ, ◌+◌, String, Bool, List, [], ◌∷◌, Option, none, some, if◌then◌else◌}

pub record AuditEvent : Type 0 where
  pub seq : ℕ
  pub timestamp : ℕ
  pub event_type : String
  pub payload : String
  pub hash : String
  pub prev_hash : String

-- json.Marshal of the map with the event's type, its payload and the previous hash; and SHA-256 in
-- hexadecimal.
pub record Digest : Type 0 where
  pub marshal : String → String → String → String
  pub sha256_hex : String → String

unfoldable pub event_hash : Digest → String → String → String → String
event_hash d event_type payload prev =
    d.sha256_hex (String.◌++◌ prev (d.marshal event_type payload prev))

abbrev pub last_seq : List AuditEvent → ℕ
last_seq [] = 0
last_seq (e ∷ _) = e.seq

-- The hash of the newest row, "" where there is none.
abbrev pub head_hash : List AuditEvent → String
head_hash [] = ""
head_hash (e ∷ _) = e.hash

unfoldable pub append_audit_event :
    Digest → Bool → ℕ → String → String → String → List AuditEvent → Option (List AuditEvent)
unfolding event_hash
append_audit_event d down now event_type payload prev rows =
    let event : AuditEvent = record {
      seq = last_seq rows + 1;
      timestamp = now;
      event_type = event_type;
      payload = payload;
      hash = event_hash d event_type payload prev;
      prev_hash = prev;
    } in
    if down then none else some (event ∷ rows)

unfoldable pub get_audit_head : Bool → List AuditEvent → Option AuditEvent
get_audit_head down rows = if down then none else elim rows [ [] ↦ none | e ∷ _ ↦ some e ]

abbrev pub prev_hash_of : Option AuditEvent → String
prev_hash_of none = ""
prev_hash_of (some e) = e.hash

abbrev pub or_unchanged : List AuditEvent → Option (List AuditEvent) → List AuditEvent
or_unchanged rows none = rows
or_unchanged rows (some next) = next

-- json.Marshal of the event's payload, "{}" where that fails.
abbrev pub payload_text : Option String → String
payload_text none = "{}"
payload_text (some text) = text

-- `unread` says that the read of the head fails, `down` that the insertion does.
unfoldable pub handle :
    Digest → Bool → Bool → ℕ → String → Option String → List AuditEvent → List AuditEvent
handle d unread down now event_type payload rows = or_unchanged rows (
    append_audit_event d down now event_type (payload_text payload)
      (prev_hash_of (get_audit_head unread rows)) rows)
