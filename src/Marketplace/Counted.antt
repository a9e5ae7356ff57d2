-- ===== src/Marketplace/Counted.antt =====
-- What a registry holds after any calls.
use tpt_identity.Prelude.{
  ℕ, ◌+◌, ◌^◌, ◌<◌, ◌≡◌, ◌≢◌, refl, sym, ap, ◌∙◌, subst, String, true, false, List, [], ◌∷◌, Option,
  none, some, arith, ◌==◌, eq_iff, eq_refl, if◌then◌else◌, Bool-cases, inl, inr,
}
use tpt_identity.Prelude.Table.{find, upsert, merged, find-upsert, find-upsert_other}
use tpt_identity.Marketplace.{
  Entry, Registry, key_of, is_key, one_more, count_one, new_entry, register, record_issuance,
}

pub data Call : Type 0 where
  registers : String → String → String → Call
  records : String → String → Call

unfoldable pub apply_call : Call → Registry → Registry
apply_call (registers issuer schema name) r = register issuer schema name r
apply_call (records issuer schema) r = record_issuance issuer schema r

unfoldable pub apply_all : List Call → Registry → Registry
unfolding apply_call
apply_all [] r = r
apply_all (c ∷ calls) r = apply_all calls (apply_call c r)

-- The entry that a call makes where there is none, before anything is counted.
abbrev opened : Call → Entry
opened (registers issuer schema name) = new_entry issuer schema name
opened (records issuer schema) = new_entry issuer schema ""

abbrev key_in : Call → String
key_in (registers issuer schema name) = key_of issuer schema
key_in (records issuer schema) = key_of issuer schema

abbrev counts : Call → ℕ
counts (registers issuer schema name) = 0
counts (records issuer schema) = 1

-- The first entry that is made under a key, and the issuances that are recorded under it.
unfoldable pub first_opened : String → List Call → Option Entry
first_opened k [] = none
first_opened k (c ∷ calls) =
    let rest = first_opened k calls in if key_in c == k then some (opened c) else rest

unfoldable pub issuances : String → List Call → ℕ
issuances k [] = 0
issuances k (c ∷ calls) =
    let rest = issuances k calls in if key_in c == k then counts c + rest else rest

abbrev pub counted : ℕ → Option Entry → Option Entry
counted n none = none
counted n (some e) = some (record e { issued_count = n })

abbrev pub plus_issued : ℕ → Entry → Entry
plus_issued n e = record e { issued_count = e.issued_count + n }

abbrev entry_of : Option (String × Entry) → Option Entry
entry_of none = none
entry_of (some (_, e)) = some e

-- The entry that the map has under a key.
unfoldable pub entry_under : String → Registry → Option Entry
unfolding find
entry_under k r = entry_of (find (is_key k) r)

abbrev counted_before : Option Entry → ℕ
counted_before none = 0
counted_before (some e) = e.issued_count

abbrev begin : Call → Option Entry → Entry
begin c none = opened c
begin c (some e) = e

abbrev on_entry : (Entry → Entry) → String × Entry → String × Entry
on_entry g p = (p.0, g p.1)

abbrev changed : (Entry → Entry) → Entry → Option Entry → Entry
changed g new none = new
changed g new (some e) = g e

upsert-own :
    (k : String) (g : Entry → Entry) (new : Entry) (r : Registry)
    → entry_under k (upsert (is_key k) (on_entry g) (k, new) r)
      ≡ some (changed g new (entry_under k r))
unfolding entry_under
upsert-own k g new r =
    ap entry_of (find-upsert (is_key k) (on_entry g) (k, new) r (eq_refl k) (λ x e. e))
    ∙ merged_entry (find (is_key k) r)
  where
    merged_entry :
        (o : Option (String × Entry))
        → entry_of (some (merged (on_entry g) (k, new) o)) ≡ some (changed g new (entry_of o))
    merged_entry none = refl
    merged_entry (some (l, e)) = refl

one_more_below : (e : Entry) → e.issued_count + 1 < 2 ^ 63 → one_more e ≡ plus_issued 1 e
one_more_below e h = ap (λ n. record e { issued_count = n }) (omega (arith, h))

none_more : (e : Entry) → e ≡ plus_issued 0 e
none_more e = ap (λ n. record e { issued_count = n }) (omega arith)

registered :
    (new : Entry) (o : Option Entry) (c : Call)
    → opened c ≡ new
    → changed (λ e. e) new o ≡ plus_issued 0 (begin c o)
registered new none c h = none_more new ∙ ap (plus_issued 0) (sym h)
registered new (some e) c h = none_more e

recorded :
    (new : Entry) (o : Option Entry) (c : Call)
    → opened c ≡ new
    → counted_before o + 1 < 2 ^ 63
    → new.issued_count ≡ 0
    → changed one_more (one_more new) o ≡ plus_issued 1 (begin c o)
recorded new none c h l z = one_more_below new (omega (arith, z)) ∙ ap (plus_issued 1) (sym h)
recorded new (some e) c h l z = one_more_below e l

apply_call-own :
    (c : Call) (r : Registry)
    → counted_before (entry_under (key_in c) r) + counts c < 2 ^ 63
    → entry_under (key_in c) (apply_call c r)
      ≡ some (plus_issued (counts c) (begin c (entry_under (key_in c) r)))
unfolding apply_call register record_issuance
apply_call-own (registers issuer schema name) r h =
    upsert-own (key_of issuer schema) (λ e. e) (new_entry issuer schema name) r
    ∙ ap some (
        registered (new_entry issuer schema name) (entry_under (key_of issuer schema) r)
          (registers issuer schema name) refl)
apply_call-own (records issuer schema) r h =
    upsert-own (key_of issuer schema) one_more (one_more (new_entry issuer schema "")) r
    ∙ ap some (
        recorded (new_entry issuer schema "") (entry_under (key_of issuer schema) r)
          (records issuer schema) refl h refl)

apply_call-other :
    (c : Call) (r : Registry) (k : String)
    → key_in c ≢ k
    → entry_under k (apply_call c r) ≡ entry_under k r
unfolding apply_call register record_issuance entry_under
apply_call-other (registers issuer schema name) r k d = ap entry_of (
    find-upsert_other (is_key (key_of issuer schema)) (is_key k) (λ old. old)
      (key_of issuer schema, new_entry issuer schema name) r
      (ground (arith, eq_iff (key_of issuer schema) k, d))
      (λ x h. ground (arith, eq_iff x.0 (key_of issuer schema), eq_iff x.0 k, h, d)))
apply_call-other (records issuer schema) r k d = ap entry_of (
    find-upsert_other (is_key (key_of issuer schema)) (is_key k) count_one
      (key_of issuer schema, one_more (new_entry issuer schema "")) r
      (ground (arith, eq_iff (key_of issuer schema) k, d))
      (λ x h. ground (arith, eq_iff x.0 (key_of issuer schema), eq_iff x.0 k, h, d)))

abbrev plus_all : ℕ → Option Entry → Option Entry
plus_all n none = none
plus_all n (some e) = some (plus_issued n e)

-- What any calls make of an entry under a key, or of none.
abbrev described : Option Entry → String → List Call → Option Entry
described none k calls = plus_all (issuances k calls) (first_opened k calls)
described (some e) k calls = some (plus_issued (issuances k calls) e)

described_nothing : (o : Option Entry) (k : String) → o ≡ described o k []
unfolding first_opened issuances
described_nothing none k = refl
described_nothing (some e) k = ap some (none_more e)

plus_plus : (a b : ℕ) (e : Entry) → plus_issued b (plus_issued a e) ≡ plus_issued (a + b) e
plus_plus a b e = ap (λ n. record e { issued_count = n }) (omega arith)

described_own :
    (c : Call) (calls : List Call) (o : Option Entry) (k : String)
    → key_in c == k ≡ true
    → some (plus_issued (issuances k calls) (plus_issued (counts c) (begin c o)))
      ≡ described o k (c ∷ calls)
unfolding first_opened issuances
described_own c calls none k h =
    rw (h, described) (ap some (plus_plus (counts c) (issuances k calls) (opened c)))
described_own c calls (some e) k h = rw h (ap some (plus_plus (counts c) (issuances k calls) e))

described_other :
    (c : Call) (calls : List Call) (o : Option Entry) (k : String)
    → key_in c == k ≡ false
    → described o k calls ≡ described o k (c ∷ calls)
unfolding first_opened issuances
described_other c calls none k h = rw (h, described) refl
described_other c calls (some e) k h = rw h refl

issuances_other :
    (c : Call) (calls : List Call) (k : String)
    → key_in c == k ≡ false
    → issuances k (c ∷ calls) ≡ issuances k calls
unfolding issuances
issuances_other c calls k h = ground (arith, h)

issuances_own :
    (c : Call) (calls : List Call) (k : String)
    → key_in c == k ≡ true
    → issuances k (c ∷ calls) ≡ counts c + issuances k calls
unfolding issuances
issuances_own c calls k h = ground (arith, h)

begin_count : (c : Call) (o : Option Entry) → (begin c o).issued_count ≡ counted_before o
begin_count (registers issuer schema name) none = refl
begin_count (records issuer schema) none = refl
begin_count c (some e) = refl

-- What a call leaves under its own key.
own :
    (c : Call) (r : Registry) (k : String)
    → key_in c ≡ k
    → counted_before (entry_under k r) + counts c < 2 ^ 63
    → entry_under k (apply_call c r) ≡ some (plus_issued (counts c) (begin c (entry_under k r)))
own c r k e =
    subst
      (λ l.
        counted_before (entry_under l r) + counts c < 2 ^ 63
        → entry_under l (apply_call c r)
          ≡ some (plus_issued (counts c) (begin c (entry_under l r))))
      e (apply_call-own c r)

apply_all-described :
    (calls : List Call) (r : Registry) (k : String)
    → counted_before (entry_under k r) + issuances k calls < 2 ^ 63
    → entry_under k (apply_all calls r) ≡ described (entry_under k r) k calls
unfolding apply_all
apply_all-described [] r k h = described_nothing (entry_under k r) k
apply_all-described (c ∷ calls) r k h = elim (Bool-cases (key_in c == k)) [
  | inl e ↦
      let here =
        own c r k ((eq_iff (key_in c) k).0 e) (omega (arith, h, issuances_own c calls k e)) in
      let counted = ap counted_before here in
      apply_all-described calls (apply_call c r) k
        (omega (arith, h, counted, begin_count c (entry_under k r), issuances_own c calls k e))
      ∙ ap (λ o. described o k calls) here
      ∙ described_own c calls (entry_under k r) k e
  | inr e ↦
      let kept = apply_call-other c r k (λ same. ground (arith, eq_iff (key_in c) k, e, same)) in
      apply_all-described calls (apply_call c r) k
        (omega (arith, h, ap counted_before kept, issuances_other c calls k e))
      ∙ ap (λ o. described o k calls) kept
      ∙ described_other c calls (entry_under k r) k e
]

opened_uncounted :
    (c : Call) (n : ℕ) → plus_issued n (opened c) ≡ record (opened c) { issued_count = n }
opened_uncounted (registers issuer schema name) n =
    ap (λ t. record (new_entry issuer schema name) { issued_count = t }) (omega arith)
opened_uncounted (records issuer schema) n =
    ap (λ t. record (new_entry issuer schema "") { issued_count = t }) (omega arith)

first_counted :
    (calls : List Call) (k : String) (n : ℕ)
    → plus_all n (first_opened k calls) ≡ counted n (first_opened k calls)
unfolding first_opened
first_counted [] k n = refl
first_counted (c ∷ calls) k n = elim (Bool-cases (key_in c == k)) [
  | inl e ↦ rw (e, first_opened) (ap some (opened_uncounted c n))
  | inr e ↦ rw (e, first_opened) (first_counted calls k n)
]

-- After any calls of Register and RecordIssuance on an empty registry, of which fewer than 2^63
-- record an issuance under a key: the map has under that key nothing if no call named it, and
-- else the issuer, the schema and the name of the first call that did, with the number of those
-- issuances as its count.
pub apply_all-counted :
    (calls : List Call) (k : String)
    → issuances k calls < 2 ^ 63
    → entry_under k (apply_all calls []) ≡ counted (issuances k calls) (first_opened k calls)
unfolding entry_under find
apply_all-counted calls k h =
    apply_all-described calls [] k (omega (arith, h)) ∙ first_counted calls k (issuances k calls)
