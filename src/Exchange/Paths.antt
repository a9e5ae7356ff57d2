-- ===== src/Exchange/Paths.antt =====
-- pkg/pe/submission.go: the texts that JSON paths, indices and patterns are.
use Prim.Native.Char.{Char, code}
use tpt_identity.Prelude.{
  ℕ, String, Bool, true, false, List, [], ◌∷◌, Option, none, some, nat_beq, ◌==◌, ◌&&◌, ◌||◌,
  if◌then◌else◌,
}
use tpt_identity.Prelude.Words.{trim_prefix, has_prefix, contains}

abbrev onto_first : Char → List String → List String
onto_first c [] = String.◌∷◌ c "" ∷ []
onto_first c (word ∷ words) = String.◌∷◌ c word ∷ words

-- strings.Split(s, ".").
unfoldable pub split_dots : String → List String
split_dots String.[] = "" ∷ []
split_dots (String.◌∷◌ c s) =
    let rest = split_dots s in if nat_beq (code c) b'.' then "" ∷ rest else onto_first c rest

-- The leading "$." and then "$" are taken off.
unfoldable pub without_root : String → String
unfolding trim_prefix
without_root path = trim_prefix (trim_prefix path "$.") "$"

-- The text behind the last occurrence of a character, and the text before it.
unfoldable pub after_last : ℕ → String → Option String
after_last sep String.[] = none
after_last sep (String.◌∷◌ c s) = elim (after_last sep s) [
  | some rest ↦ some rest
  | none ↦ if nat_beq (code c) sep then some s else none
]

unfoldable pub before_last : ℕ → String → Option String
before_last sep String.[] = none
before_last sep (String.◌∷◌ c s) = elim (before_last sep s) [
  | some rest ↦ some (String.◌∷◌ c rest)
  | none ↦ if nat_beq (code c) sep then some "" else none
]

-- What stands between the last "[" and the last "]", where they stand in this order.
unfoldable pub path_digits : String → Option String
unfolding after_last before_last
path_digits path = elim (after_last b'[' path) [ none ↦ none | some rest ↦ before_last b']' rest ]

abbrev in_cutset : Char → Bool
in_cutset c =
    nat_beq (code c) b'^' || nat_beq (code c) b'$' || nat_beq (code c) b'.' || nat_beq (code c) b'*'

-- strings.Trim(pattern, "^$.*"), from the left and from the right.
unfoldable pub trim_left : String → String
trim_left String.[] = ""
trim_left (String.◌∷◌ c s) = let rest = trim_left s in if in_cutset c then rest else String.◌∷◌ c s

abbrev trimmed : Char → String → String
trimmed c rest = if rest == "" && in_cutset c then "" else String.◌∷◌ c rest

unfoldable pub trim_right : String → String
trim_right String.[] = ""
trim_right (String.◌∷◌ c s) = trimmed c (trim_right s)

abbrev drop_first : String → String
drop_first String.[] = ""
drop_first (String.◌∷◌ c s) = s

abbrev ends_with_dollar : Option String → Bool
ends_with_dollar (some String.[]) = true
ends_with_dollar _ = false

unfoldable pub matches_pattern : String → String → Bool
unfolding has_prefix contains trim_left trim_right after_last before_last
matches_pattern pattern s =
    if has_prefix pattern "^" && ends_with_dollar (after_last b'$' pattern)
    then elim (before_last b'$' pattern) [ none ↦ false | some inner ↦ s == drop_first inner ]
    else contains s (trim_right (trim_left pattern))
