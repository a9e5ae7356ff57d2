-- ===== src/Prelude/Words.antt =====
-- What the code uses of Go's strings package, on native texts.
use Prim.Native.Char.{Char, code}
use Prim.Native.String
use Prim.Native.String.{String}
use mathlib.Core.Bool.{Bool, true, false, ◌&&◌, ◌||◌}
use mathlib.Core.Option.{Option, none, some}
use mathlib.Core.List.{List, [], ◌∷◌}
use text.Mathlib.Text.{◌==◌}
use tpt_identity.Prelude.Tests.{leb, nat_beq, if◌then◌else◌}
use Prim.Native.Nat.{ℕ}

abbrev within : ℕ → ℕ → ℕ → Bool
within a b n = leb a n && leb n b

-- unicode.IsSpace.
abbrev is_space : ℕ → Bool
is_space n =
    within 9 13 n
    || nat_beq n 32
    || nat_beq n 133
    || nat_beq n 160
    || nat_beq n 5760
    || within 8192 8202 n
    || within 8232 8233 n
    || nat_beq n 8239
    || nat_beq n 8287
    || nat_beq n 12288

abbrev flush : String × List String → List String
flush (word, words) = if word == "" then words else word ∷ words

-- The word that a text begins with ("" if it begins with a space), and the words behind it.
unfoldable pub scan_words : String → String × List String
scan_words String.[] = ("", [])
scan_words (String.◌∷◌ c s) =
    let rest = scan_words s in
    if is_space (code c) then ("", flush rest) else (String.◌∷◌ c rest.0, rest.1)

-- strings.Fields.
unfoldable pub fields : String → List String
unfolding scan_words
fields s = flush (scan_words s)

abbrev pub same_char : Char → Char → Bool
same_char a b = nat_beq (code a) (code b)

-- The rest of the second text behind the first.
unfoldable pub drop_prefix : String → String → Option String
drop_prefix String.[] s = some s
drop_prefix (String.◌∷◌ a p) String.[] = none
drop_prefix (String.◌∷◌ a p) (String.◌∷◌ b s) =
    let rest = drop_prefix p s in if same_char a b then rest else none

abbrev is_found : Option String → Bool
is_found none = false
is_found (some _) = true

abbrev or_whole : String → Option String → String
or_whole s none = s
or_whole s (some rest) = rest

-- strings.HasPrefix, strings.TrimPrefix and strings.Contains, the text first.
unfoldable pub has_prefix : String → String → Bool
unfolding drop_prefix
has_prefix s p = is_found (drop_prefix p s)

unfoldable pub trim_prefix : String → String → String
unfolding drop_prefix
trim_prefix s p = or_whole s (drop_prefix p s)

unfoldable pub contains : String → String → Bool
unfolding has_prefix
contains String.[] sub = has_prefix "" sub
contains (String.◌∷◌ c s) sub = has_prefix (String.◌∷◌ c s) sub || contains s sub

-- strings.Join with a space.
unfoldable pub join_words : List String → String
join_words [] = ""
join_words (w ∷ []) = w
join_words (w ∷ v ∷ ws) = String.◌++◌ w (String.◌++◌ " " (join_words (v ∷ ws)))

abbrev pub push_head : Char → Option (String × String) → Option (String × String)
push_head c none = none
push_head c (some (a, b)) = some (String.◌∷◌ c a, b)

-- strings.Cut at a character: the text before its first occurrence, and the text behind it.
unfoldable pub cut_at : ℕ → String → Option (String × String)
cut_at sep String.[] = none
cut_at sep (String.◌∷◌ c s) =
    let rest = push_head c (cut_at sep s) in if nat_beq (code c) sep then some ("", s) else rest

-- strings.TrimSuffix of one character.
unfoldable pub trim_last : ℕ → String → String
trim_last sep String.[] = ""
trim_last sep (String.◌∷◌ c String.[]) = if nat_beq (code c) sep then "" else String.◌∷◌ c ""
trim_last sep (String.◌∷◌ c (String.◌∷◌ d s)) = String.◌∷◌ c (trim_last sep (String.◌∷◌ d s))

unfoldable pub trim_spaces_left : String → String
trim_spaces_left String.[] = ""
trim_spaces_left (String.◌∷◌ c s) =
    let rest = trim_spaces_left s in if is_space (code c) then rest else String.◌∷◌ c s

abbrev unless_blank : Char → String → String
unless_blank c rest = if rest == "" && is_space (code c) then "" else String.◌∷◌ c rest

unfoldable pub trim_spaces_right : String → String
trim_spaces_right String.[] = ""
trim_spaces_right (String.◌∷◌ c s) = unless_blank c (trim_spaces_right s)

-- strings.TrimSpace.
unfoldable pub trim_space : String → String
unfolding trim_spaces_left trim_spaces_right
trim_space s = trim_spaces_right (trim_spaces_left s)
