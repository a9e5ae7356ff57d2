-- ===== src/Examples/Lists.antt =====
-- Status lists, signed credentials and linked identities at concrete inputs.
use tpt_identity.Prelude.{
  ℕ, ℤ, pos, ◌≡◌, refl, String, true, false, List, [], ◌∷◌, none, some, arith, nat_beq,
}
use tpt_identity.Prelude.Table.{find, upsert}
use tpt_identity.Prelude.Words.{has_prefix, drop_prefix}
use tpt_identity.Schema.Registry.{Schema, Registry, get_schema, versioned_id}
use tpt_identity.Vc.Keys.{
  extract_ed25519_key, decode_multibase_ed25519, stripped, decode_uvarint, uvarint, drop,
}
use tpt_identity.Vc.Status.{answered, new_status_list, is_revoked}
use tpt_identity.Vc.Status.Writes.{Write, to_revoke, to_unrevoke, writes, marks, history-IsRevoked}
use tpt_identity.Vc.Credential.{
  VerifiableCredential, VerifiablePresentation, Suite, IssueOptions, PresentOptions, unsigned,
  integrity_proof, unsigned_presentation, hash_data, issue, present, verify, verify_all,
  verify_presentation,
}
use tpt_identity.Vc.Credential.Issued.{Signs}
use tpt_identity.Vc.Credential.Revoked.{by_list, verify-issue-writes}
use tpt_identity.Vc.Credential.Shown.{verify_presentation-present}
use tpt_identity.Store.Links.{
  ExternalProviderLink, get_external_link, save_external_link, save_identity, save_document,
  links_of, by_linked_at,
}
use tpt_identity.Bridge.Mapper.{
  ExternalIdentity, ok, Accounts, Surroundings, find_or_create, create_identity, unlink_identity,
}
use tpt_identity.Bridge.Mapper.Kept.{sign_in, link, visits, owner, sign_in-same}
use tpt_identity.Bridge.Mapper.Unlinking.{unlink_identity-foreign}
use tpt_identity.Examples.Fixtures.{differ}
use tpt_identity.Examples.Wallet.{public_key, private_key, document, library}

abbrev calls : List Write
calls = to_revoke (pos 9) ∷ to_revoke (pos 200000) ∷ to_unrevoke (pos 8) ∷ []

history-IsRevoked_example :
    is_revoked (pos 9) (writes calls (new_status_list "list" (pos 100))) ≡ answered true
unfolding marks
history-IsRevoked_example = history-IsRevoked "list" (pos 100) calls (pos 9)

abbrev suite : Suite
suite = record {
  jcs_options = λ _. some (1 ∷ []);
  jcs_credential = λ _. some (2 ∷ []);
  marshal_credential = λ _. some (3 ∷ []);
  marshal_presentation = λ _. some (4 ∷ []);
  sha256 = λ m. m;
  sign = λ _ _. public_key;
  verify = λ _ _ s. elim s [ [] ↦ false | b ∷ _ ↦ nat_beq b 7 ];
  base64_encode = λ _. "xx";
  rfc3339 = λ _. "2026";
  validate = λ _ _. true;
}

abbrev legal_name : Schema
legal_name = record {
  id = "identity.legal-name";
  category_id = "identity";
  name = "Name";
  description = "";
  version = 1;
  extra_sensitive = false;
  claims = [];
  source = "core";
}

abbrev schemas : Registry
schemas = record { categories = []; schemas = legal_name ∷ [] }

abbrev to_issue : IssueOptions
to_issue = record {
  issuer_did = "did:web:issuer";
  issuer_key = private_key;
  verification_method_id = "did:web:issuer#k";
  subject_did = "did:web:alice";
  schema_id = "identity.legal-name";
  claims = [];
  valid_for = pos 0;
  status_list_credential = "list";
  status_list_index = pos 9;
}

abbrev itoa : ℕ → String
itoa _ = "1"

abbrev sprint : ℤ → String
sprint _ = "9"

abbrev issued : VerifiableCredential
issued = record {
  credential = unsigned sprint to_issue "u1" "identity.legal-name-v1" 1000;
  proof = some (integrity_proof suite to_issue 1000 "xx");
}

issue_run : issue suite schemas itoa sprint to_issue "u1" 1000 ≡ some issued
unfolding issue has_prefix drop_prefix get_schema find hash_data versioned_id
issue_run = refl

signs :
    (did : String)
    → did ≡ "did:web:issuer"
    → Signs suite library did "did:web:issuer#k" private_key public_key
unfolding extract_ed25519_key decode_multibase_ed25519 stripped decode_uvarint uvarint drop
    has_prefix drop_prefix
signs did e = rw e (record { resolves = refl; decodes = λ _. refl; verifies = λ _. refl })

verify-issue-writes_example :
    verify suite library
      (some (by_list (writes calls (new_status_list "list" (pos 100)))))
      2000
      issued
    ≡ false
unfolding marks
verify-issue-writes_example =
    verify-issue-writes suite schemas itoa sprint to_issue "u1" 1000 issued library public_key 2000
      "list" (pos 100) calls 9 issue_run (signs _ refl) (omega arith) (differ "list" "" refl) refl
      (omega arith)

abbrev to_present : PresentOptions
to_present = record {
  holder_did = "did:web:issuer";
  holder_key = private_key;
  verification_method_id = "did:web:issuer#k";
  credentials = issued ∷ [];
  challenge = "c1";
  domain = "rp";
}

abbrev shown : VerifiablePresentation
shown = record {
  presentation = unsigned_presentation to_present "u2";
  proof = some (record {
    kind = "Ed25519Signature2020";
    cryptosuite = "";
    created = "2026";
    verification_method = "did:web:issuer#k";
    proof_purpose = "authentication";
    proof_value = "xx";
  });
}

present_run : present suite to_present "u2" 1500 ≡ some shown
unfolding present
present_run = refl

verify_presentation-present_example :
    verify_presentation suite library none 2000 "c1" "rp" shown
    ≡ verify_all suite library none 2000 (issued ∷ [])
verify_presentation-present_example =
    verify_presentation-present suite to_present "u2" 1500 shown library public_key none 2000 "c1"
      "rp" present_run (signs _ refl)

abbrev google : ExternalIdentity
google = record { provider = "google"; external_id = "g-1"; claims = []; duress = false }

abbrev github : ExternalIdentity
github = record { provider = "github"; external_id = "h-1"; claims = []; duress = false }

abbrev at : ℕ → Surroundings
at now = record { now = now; created = some ("did:key:z1", document); down = λ _. false }

abbrev nobody : Accounts
nobody = record { links = []; identities = []; documents = [] }

first_run : (find_or_create (at 1) google nobody).0 ≡ ok ("did:key:z1", true)
unfolding find_or_create get_external_link find create_identity save_identity save_document
    save_external_link upsert
first_run = refl

sign_in-same_example :
    (find_or_create (at 9) google (
      visits
        (link (at 2) "did:key:z9" google ∷ sign_in (at 3) github ∷ [])
        (find_or_create (at 1) google nobody).1)).0
    ≡ ok ("did:key:z1", false)
sign_in-same_example =
    sign_in-same (at 1) (at 9) google nobody "did:key:z1" true
      (link (at 2) "did:key:z9" google ∷ sign_in (at 3) github ∷ []) first_run refl

abbrev linked : String → String → String → ExternalProviderLink
linked subject provider id = record {
  subject_did = subject;
  provider = provider;
  external_id = id;
  linked_at = 1;
  last_used_at = 1;
}

abbrev three_links : Accounts
three_links = record {
  links =
      linked "did:m" "google" "m-1"
      ∷ linked "did:m" "github" "m-2"
      ∷ linked "did:v" "google" "v-1"
      ∷ [];
  identities = [];
  documents = [];
}

unlink_identity-foreign_example :
    let after = unlink_identity (at 5) "did:m" "google" "v-1" three_links in
    (after.0 ≡ ok tt) × (owner "google" "v-1" after.1.links ≡ none)
unfolding owner find links_of by_linked_at
unlink_identity-foreign_example =
    unlink_identity-foreign (at 5) "did:m" "did:v" "google" "v-1" three_links
      (differ "did:m" "did:v" refl) refl (omega arith) refl refl
