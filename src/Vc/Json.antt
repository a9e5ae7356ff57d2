-- ===== src/Vc/Json.antt =====
-- encoding/json's `any` and map[string]any, as the code of pkg/vc reads them.
-- A number is its canonical literal. A map is the list of its entries, each key once.
use tpt_identity.Prelude.{String, Bool, List, [], ◌∷◌, Option, none, some, ◌==◌, if◌then◌else◌}

mutual
  pub data Json : Type 0 where
    null : Json
    boolean : Bool → Json
    number : String → Json
    text : String → Json
    array : Items → Json
    object : Members → Json

  pub data Items : Type 0 where
    no_item : Items
    item : Json → Items → Items

  pub data Members : Type 0 where
    no_member : Members
    member : String → Json → Members → Members

-- `m[k]`, and whether the key is there.
unfoldable pub lookup : String → Members → Option Json
lookup k no_member = none
lookup k (member j v m) = let rest = lookup k m in if j == k then some v else rest

-- `m[k] = v`.
unfoldable pub put : String → Json → Members → Members
put k v no_member = member k v no_member
put k v (member j u m) = let rest = member j u (put k v m) in if j == k then member j v m else rest

unfoldable pub put_all : Members → Members → Members
unfolding put
put_all no_member m = m
put_all (member k v rest) m = put_all rest (put k v m)

-- `v.(string)`, and its text with "" where there is none.
abbrev pub as_text : Option Json → Option String
as_text (some (text s)) = some s
as_text _ = none

abbrev pub text_or_empty : Option Json → String
text_or_empty (some (text s)) = s
text_or_empty _ = ""

-- `v.(map[string]any)`.
abbrev pub as_object : Option Json → Option Members
as_object (some (object m)) = some m
as_object _ = none

-- The texts of an array, its other elements passed over.
unfoldable pub texts : Items → List String
texts no_item = []
texts (item (text s) rest) = s ∷ texts rest
texts (item _ rest) = texts rest

unfoldable pub text_items : List String → Items
text_items [] = no_item
text_items (s ∷ rest) = item (text s) (text_items rest)
