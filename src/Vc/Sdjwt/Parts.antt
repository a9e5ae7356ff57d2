-- ===== src/Vc/Sdjwt/Parts.antt =====
-- The parts of a presentation's text: joined with "~" and split again.
use Prim.Native.Char.{code}
use text.Mathlib.TextLemmas.{nil-append, cons-append, append_assoc}
use tpt_identity.Prelude.{
  ◌+◌, ◌≡◌, ◌≢◌, ◌⊎◌, refl, ap, subst, String, List, [], ◌∷◌, ◌++◌, arith, nat_beq, if◌then◌else◌,
  eq_iff,
}
use tpt_identity.Oidc.Jwt.{◌+++◌}
use tpt_identity.Oidc.Jwt.Laws.{NoDot}
use tpt_identity.Vc.Sdjwt.{ok, join_tilde, trim_tilde}
use tpt_identity.Vc.Sdjwt.Verifier.{split_tilde, count_dot, sort_parts, parse_sd_jwt}

abbrev pub NoTilde : String → Type 0
NoTilde String.[] = Unit {0}
NoTilde (String.◌∷◌ c s) = (code c ≢ b'~') × NoTilde s

split_tilde-append :
    (p rest : String)
    → NoTilde p
    → split_tilde (p +++ "~" +++ rest) ≡ (p, (split_tilde rest).0 ∷ (split_tilde rest).1)
unfolding split_tilde
split_tilde-append String.[] rest h = rw (nil-append, cons-append, nil-append) refl
split_tilde-append (String.◌∷◌ c p) rest h =
    rw cons-append (ground (arith, split_tilde-append p rest h.1))

split_tilde-whole : (p : String) → NoTilde p → split_tilde p ≡ (p, [])
unfolding split_tilde
split_tilde-whole String.[] h = refl
split_tilde-whole (String.◌∷◌ c p) h = ground (arith, split_tilde-whole p h.1)

-- What a disclosure is in the text: not empty, without "~" and without ".".
pub record Encoded (p : String) : Type 0 where
  pub some_text : p ≢ ""
  pub no_tilde : NoTilde p
  pub no_dot : NoDot p

abbrev pub AllEncoded : List String → Type 0
AllEncoded [] = Unit {0}
AllEncoded (p ∷ parts) = Encoded p × AllEncoded parts

pub split_tilde-join :
    (p : String) (parts : List String) (last : String)
    → NoTilde p
    → AllEncoded parts
    → NoTilde last
    → split_tilde (join_tilde p parts +++ "~" +++ last) ≡ (p, parts ++ last ∷ [])
unfolding join_tilde
split_tilde-join p [] last h k l = rw (split_tilde-append p last h, split_tilde-whole last l) refl
split_tilde-join p (q ∷ parts) last h k l =
    rw
      (
        append_assoc,
        append_assoc,
        split_tilde-append p (join_tilde q parts +++ "~" +++ last) h,
        split_tilde-join q parts last k.0.no_tilde k.1 l,
      )
      refl

pub count_dot-NoDot : (p : String) → NoDot p → count_dot p ≡ 0
unfolding count_dot
count_dot-NoDot String.[] h = refl
count_dot-NoDot (String.◌∷◌ c p) h = ground (arith, count_dot-NoDot p h.1)

pub count_dot-append : (p q : String) → NoDot p → count_dot (p +++ "." +++ q) ≡ 1 + count_dot q
unfolding count_dot
count_dot-append String.[] q h = rw (nil-append, cons-append, nil-append) refl
count_dot-append (String.◌∷◌ c p) q h = rw cons-append (ground (arith, count_dot-append p q h.1))

append-snoc : {A : Type 0} (xs : List A) (y : A) (ys : List A) → (xs ++ y ∷ []) ++ ys ≡ xs ++ y ∷ ys
append-snoc [] y ys = refl
append-snoc (x ∷ xs) y ys = ap (◌∷◌ x) (append-snoc xs y ys)

append_nil : {A : Type 0} (xs : List A) → xs ++ [] ≡ xs
append_nil [] = refl
append_nil (x ∷ xs) = ap (◌∷◌ x) (append_nil xs)

-- What ParseSDJWT takes the last part for.
abbrev pub binding_of : String → String
binding_of last = if nat_beq (count_dot last) 2 then last else ""

-- A last part that is empty or a key-binding token.
pub record Last (p : String) : Type 0 where
  pub no_tilde : NoTilde p
  pub kind : (p ≡ "") ⊎ ((p ≢ "") × (count_dot p ≡ 2))

sort-Last :
    (acc : List String) (last : String) → Last last → sort_parts (last ∷ []) (acc, "") ≡ (acc, last)
unfolding sort_parts
sort-Last acc last h = ground (arith, eq_iff last "", h.kind)

sort_parts-append :
    (parts acc : List String) (last : String)
    → AllEncoded parts
    → Last last
    → sort_parts (parts ++ last ∷ []) (acc, "") ≡ (acc ++ parts, last)
unfolding sort_parts
sort_parts-append [] acc last h l = rw (append_nil acc) (sort-Last acc last l)
sort_parts-append (p ∷ parts) acc last h l = ground (
  arith,
  eq_iff p "",
  h.0.some_text,
  count_dot-NoDot p h.0.no_dot,
  append-snoc acc p parts,
  sort_parts-append parts (acc ++ p ∷ []) last h.1 l,
)

split-empty : (token : String) → token ≡ "" → split_tilde token ≡ ("", [])
unfolding split_tilde
split-empty token e = rw e refl

parse-split :
    (token p q kb : String) (qs ds : List String)
    → split_tilde token ≡ (p, q ∷ qs)
    → sort_parts (q ∷ qs) ([], "") ≡ (ds, kb)
    → parse_sd_jwt token ≡ ok (record { jwt = p; disclosures = ds; kb_token = kb })
unfolding parse_sd_jwt
parse-split token p q kb qs ds e f = ground (arith, eq_iff token "", split-empty token)

-- A presentation parses into the parts that it is joined from.
pub parse-join :
    (jwt : String) (parts : List String) (last : String)
    → NoTilde jwt
    → AllEncoded parts
    → Last last
    → parse_sd_jwt (join_tilde jwt parts +++ "~" +++ last)
      ≡ ok (record { jwt = jwt; disclosures = parts; kb_token = last })
parse-join jwt [] last h k l =
    parse-split _ jwt last last [] [] (split_tilde-join jwt [] last h k l.no_tilde)
      (sort_parts-append [] [] last k l)
parse-join jwt (p ∷ parts) last h k l =
    parse-split _ jwt p last (parts ++ last ∷ []) (p ∷ parts)
      (split_tilde-join jwt (p ∷ parts) last h k l.no_tilde)
      (sort_parts-append (p ∷ parts) [] last k l)

-- TrimSuffix takes back the "~" that serializeWith puts behind the parts.
pub trim_tilde-append : (s : String) → trim_tilde (s +++ "~") ≡ s
unfolding trim_tilde
trim_tilde-append String.[] = refl
trim_tilde-append (String.◌∷◌ c String.[]) = rw cons-append refl
trim_tilde-append (String.◌∷◌ c (String.◌∷◌ d s)) =
    rw (cons-append, cons-append)
      (ap (String.◌∷◌ c) (
        subst (λ (t : String). trim_tilde t ≡ String.◌∷◌ d s) (cons-append d s "~")
          (trim_tilde-append (String.◌∷◌ d s))))
