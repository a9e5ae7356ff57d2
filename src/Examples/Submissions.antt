-- ===== src/Examples/Submissions.antt =====
-- A submission for a definition with two descriptors, evaluated.
use tpt_identity.Prelude.{
  pos, ◌≡◌, refl, true, false, List, [], ◌∷◌, some, none, ◌==◌, if◌then◌else◌,
}
use tpt_identity.Prelude.Table.{upsert}
use tpt_identity.Vc.Json.{Json, Members, lookup}
use tpt_identity.Exchange.{
  Field, InputDescriptor, PresentationDefinition, PresentationSubmission, Reader, Evaluation,
  evaluate, check_constraints, resolve_credential, nth,
}
use tpt_identity.Exchange.Paths.{path_digits, matches_pattern}
use tpt_identity.Exchange.Met.{AllMet, evaluate-AllMet}
use tpt_identity.Exchange.Satisfied.{evaluate-satisfied}
use tpt_identity.Examples.Fixtures.{differ}

-- A credential is its subject; one digit is read.
abbrev reader : Reader Members
reader = record {
  subject = λ m. some m;
  marshal = λ v. elim v [ Json.text s ↦ s | _ ↦ "?" ];
  scan = λ s. if s == "1" then pos 1 else pos 0;
}

abbrev names : Field
names = record {
  path = "$.name" ∷ [];
  filter = some (record { pattern = "Ali"; const = none; enum = [] });
  optional = false;
}

abbrev descriptors : List InputDescriptor
descriptors =
    record { id = "who"; constraints = some (names ∷ []) }
    ∷ record { id = "any"; constraints = none }
    ∷ []

abbrev definition : PresentationDefinition
definition = record { id = "def"; input_descriptors = descriptors }

abbrev submission : PresentationSubmission
submission = record {
  definition_id = "def";
  descriptor_map =
      record { id = "who"; path = "$.verifiableCredential[1]" }
      ∷ record { id = "any"; path = "$.verifiableCredential[0]" }
      ∷ [];
}

abbrev alice : Members
alice = Members.member "name" (Json.text "Alice") Members.no_member

abbrev wallet : List Members
wallet = Members.no_member ∷ alice ∷ []

abbrev outcome : Evaluation reader
outcome = record { errors = 0; matched = ("who", alice) ∷ ("any", Members.no_member) ∷ [] }

evaluate_run : evaluate reader definition submission wallet ≡ some (true, outcome)
unfolding evaluate resolve_credential check_constraints matches_pattern nth lookup upsert
    path_digits
evaluate_run = refl

evaluate-AllMet_example :
    (submission.definition_id ≡ definition.id)
    × AllMet reader submission.descriptor_map wallet descriptors
evaluate-AllMet_example = evaluate-AllMet reader definition submission wallet outcome evaluate_run

all_met : AllMet reader submission.descriptor_map wallet descriptors
unfolding evaluate resolve_credential check_constraints matches_pattern nth lookup upsert
    path_digits
all_met = (
  record { cred = alice; named = refl; constrained = refl },
  (record { cred = Members.no_member; named = refl; constrained = refl }, tt),
)

evaluate-satisfied_example :
    (r : Evaluation reader) × (evaluate reader definition submission wallet ≡ some (true, r))
evaluate-satisfied_example =
    evaluate-satisfied reader definition submission wallet refl
      ((differ "any" "who" refl, tt), (tt, tt)) all_met
