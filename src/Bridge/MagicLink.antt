-- ===== src/Bridge/MagicLink.antt =====
-- internal/bridge/providers/magiclink.go: tokens sent by e-mail, which are used once. The
-- SHA-256 of a token's text in hexadecimal is the argument `hash`, and strings.ToLower is
-- `lower`.
pub mod Once
use tpt_identity.Prelude.{
  ℕ, ◌+◌, ◌*◌, String, Bool, false, List, [], ◌∷◌, Option, none, some, ltb, if◌then◌else◌,
}
use tpt_identity.Store.Failures.{second}
use tpt_identity.Store.Secrets.{
  MagicLinkToken, save_magic_link_token, get_magic_link_token, delete_magic_link_token,
}
use tpt_identity.Bridge.Mapper.{ExternalIdentity}
use tpt_identity.Bridge.Passwords.{normalise_email}

abbrev pub magic_link_ttl : ℕ
magic_link_ttl = 15 * 60 * second

abbrev pub email_identity : String → ExternalIdentity
email_identity email = record {
  provider = "magiclink-email";
  external_id = email;
  claims = ("email", email) ∷ [];
  duress = false;
}

abbrev with_expiry :
    String → ℕ → Option (List MagicLinkToken) → Option ((String × ℕ) × List MagicLinkToken)
with_expiry raw expiry none = none
with_expiry raw expiry (some rows) = some ((raw, expiry), rows)

abbrev pub or_kept : List MagicLinkToken → Option (List MagicLinkToken) → List MagicLinkToken
or_kept rows none = rows
or_kept rows (some rest) = rest

module _ (hash : String → String) where
  -- The raw token, drawn from outside, with its expiry.
  unfoldable pub generate_token :
      (String → String)
      → Bool
      → Option String
      → ℕ
      → String
      → List MagicLinkToken
      → Option ((String × ℕ) × List MagicLinkToken)
  generate_token lower down none now email rows = none
  generate_token lower down (some raw) now email rows = with_expiry raw (now + magic_link_ttl) (
      save_magic_link_token down
        (record {
          hash = hash raw;
          email = normalise_email lower email;
          expires_at = now + magic_link_ttl;
          created_at = now;
        })
        rows)

  -- A token that is found is deleted, in time or not; the deletion's error is dropped.
  unfoldable pub verify_token :
      Bool → Bool → ℕ → String → List MagicLinkToken → Option ExternalIdentity × List MagicLinkToken
  verify_token unread down now raw rows = elim (get_magic_link_token unread (hash raw) rows) [
    | none ↦ (none, rows)
    | some t ↦
        let rest = or_kept rows (delete_magic_link_token down (hash raw) rows) in
        if ltb t.expires_at now then (none, rest) else (some (email_identity t.email), rest)
  ]
