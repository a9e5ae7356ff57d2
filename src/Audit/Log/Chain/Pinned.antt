-- ===== src/Audit/Log/Chain/Pinned.antt =====
-- What the last hash of a log pins down.
use Prim.Native.Char.{code}
use Prim.Native.String
use text.Mathlib.TextLemmas.{nil-append, cons-append, head-eq_of_cons-eq, tail-eq_of_cons-eq}
use tpt_identity.Prelude.{◌+◌, ◌≡◌, ◌≢◌, refl, sym, ◌∙◌, ap, subst, String, List, [], ◌∷◌}
use tpt_identity.Audit.Log.{AuditEvent, Digest, event_hash, last_seq, head_hash}
use tpt_identity.Audit.Log.Chain.{Chained, start, link}

abbrev pub NoBrace : String → Type 0
NoBrace String.[] = Unit {0}
NoBrace (String.◌∷◌ c s) = (code c ≢ b'{') × NoBrace s

abbrev pub OpensBrace : String → Type 0
OpensBrace String.[] = ⊥
OpensBrace (String.◌∷◌ c s) = code c ≡ b'{'

-- Two texts before an opening brace each.
split_at_brace :
    (a b x y : String)
    → NoBrace a
    → NoBrace b
    → OpensBrace x
    → OpensBrace y
    → String.◌++◌ a x ≡ String.◌++◌ b y
    → (a ≡ b) × (x ≡ y)
split_at_brace String.[] String.[] x y p q h k e = (refl, sym (nil-append x) ∙ e ∙ nil-append y)
split_at_brace String.[] (String.◌∷◌ c b) (String.◌∷◌ d x) y p q h k e =
    let heads : d ≡ c =
      head-eq_of_cons-eq (sym (nil-append (String.◌∷◌ d x)) ∙ e ∙ cons-append c b y) in
    absurd (q.0 (sym (ap code heads) ∙ h))
split_at_brace (String.◌∷◌ c a) String.[] x (String.◌∷◌ d y) p q h k e =
    let heads : c ≡ d =
      head-eq_of_cons-eq (sym (cons-append c a x) ∙ e ∙ nil-append (String.◌∷◌ d y)) in
    absurd (p.0 (ap code heads ∙ k))
split_at_brace (String.◌∷◌ c a) (String.◌∷◌ d b) x y p q h k e =
    let cons = sym (cons-append c a x) ∙ e ∙ cons-append d b y in
    let (same, rest) = split_at_brace a b x y p.1 q.1 h k (tail-eq_of_cons-eq cons) in
    (ap (λ z. String.◌∷◌ z a) (head-eq_of_cons-eq cons) ∙ ap (String.◌∷◌ d) same, rest)
split_at_brace a b String.[] y p q h k e = absurd h
split_at_brace a b x String.[] p q h k e = absurd k

-- What the log relies on: the JSON of an object opens with a brace and is that of its three texts
-- alone, and the hexadecimal of a hash has no brace and is not empty.
pub record Encodes (d : Digest) : Type 0 where
  pub opens : (t p h : String) → OpensBrace (d.marshal t p h)
  pub reads_back :
      (t p h t' p' h' : String)
      → d.marshal t p h ≡ d.marshal t' p' h'
      → (t ≡ t') × (p ≡ p') × (h ≡ h')
  pub hex_plain : (s : String) → NoBrace (d.sha256_hex s)
  pub hex_given : (s : String) → d.sha256_hex s ≢ ""

abbrev pub Every : (AuditEvent → Type 0) → List AuditEvent → Type 0
Every P [] = Unit {0}
Every P (e ∷ rows) = P e × Every P rows

Every-map :
    (P Q : AuditEvent → Type 0) (rows : List AuditEvent)
    → ((e : AuditEvent) → P e → Q e)
    → Every P rows
    → Every Q rows
Every-map P Q [] f h = tt
Every-map P Q (e ∷ rows) f h = (f e h.0, Every-map P Q rows f h.1)

-- The text whose SHA-256 stands for an event: the previous hash and a JSON object.
abbrev pub sealed_text : Digest → AuditEvent → String
sealed_text d e = String.◌++◌ e.prev_hash (d.marshal e.event_type e.payload e.prev_hash)

-- SHA-256 has no collision between the texts of the two logs.
abbrev pub NoCollision : Digest → List AuditEvent → List AuditEvent → Type 0
NoCollision d rows sows =
    Every
      (λ e.
        Every
          (λ f.
            d.sha256_hex (sealed_text d e) ≡ d.sha256_hex (sealed_text d f)
            → sealed_text d e ≡ sealed_text d f)
          sows)
      rows

-- The same events, in the same order, under the same numbers and hashes; the times may differ,
-- which the hash does not cover.
pub data SameEvents : List AuditEvent → List AuditEvent → Type 0 where
  both_empty : SameEvents [] []
  both :
      {e f : AuditEvent} {rows sows : List AuditEvent}
      → e.event_type ≡ f.event_type
      → e.payload ≡ f.payload
      → e.hash ≡ f.hash
      → e.seq ≡ f.seq
      → SameEvents rows sows
      → SameEvents (e ∷ rows) (f ∷ sows)

same-last_seq : {rows sows : List AuditEvent} → SameEvents rows sows → last_seq rows ≡ last_seq sows
same-last_seq both_empty = refl
same-last_seq (both _ _ _ n _) = n

module _ (d : Digest) (x : Encodes d) where
  sealed :
      (e : AuditEvent)
      → event_hash d e.event_type e.payload e.prev_hash ≡ d.sha256_hex (sealed_text d e)
  unfolding event_hash
  sealed e = refl

  given : (e : AuditEvent) → e.hash ≡ event_hash d e.event_type e.payload e.prev_hash → e.hash ≢ ""
  given e h empty = x.hex_given (sealed_text d e) (sym (h ∙ sealed e) ∙ empty)

  head_hash-NoBrace : {rows : List AuditEvent} → Chained d rows → NoBrace (head_hash rows)
  head_hash-NoBrace start = tt
  head_hash-NoBrace (link {e} h _ _ _) =
      subst NoBrace (sym (h ∙ sealed e)) (x.hex_plain (sealed_text d e))

  sealed_text-content :
      (e f : AuditEvent)
      → NoBrace e.prev_hash
      → NoBrace f.prev_hash
      → sealed_text d e ≡ sealed_text d f
      → (e.event_type ≡ f.event_type) × (e.payload ≡ f.payload) × (e.prev_hash ≡ f.prev_hash)
  sealed_text-content e f p q same =
      x.reads_back e.event_type e.payload e.prev_hash f.event_type f.payload f.prev_hash
        (split_at_brace e.prev_hash f.prev_hash (d.marshal e.event_type e.payload e.prev_hash)
          (d.marshal f.event_type f.payload f.prev_hash) p q
          (x.opens e.event_type e.payload e.prev_hash) (x.opens f.event_type f.payload f.prev_hash)
          same).1

-- Two logs that are chained and end in the same hash hold the same events, numbers and hashes:
-- whoever knows the last hash notices every insertion, every deletion, and every change but that of
-- a time, which no hash covers. It is assumed that SHA-256 has no collision between the texts hashed
-- for the two logs, that JSON encodes different contents differently and as an object, and that a
-- hash in hexadecimal is not empty and has no brace.
pub Chained-head :
    (d : Digest) {rows sows : List AuditEvent}
    → Encodes d
    → NoCollision d rows sows
    → Chained d rows
    → Chained d sows
    → head_hash rows ≡ head_hash sows
    → SameEvents rows sows
Chained-head d x n start start h = both_empty
Chained-head d x n start (link {e} hash _ _ _) h = absurd (given d x e hash (sym h))
Chained-head d x n (link {e} hash _ _ _) start h = absurd (given d x e hash h)
Chained-head d x n (link {e} {rows} hash prev seq c)
      (link {e = f} {rows = sows} hash' prev' seq' c') h =
    let texts : sealed_text d e ≡ sealed_text d f =
      n.0.0 (sym (hash ∙ sealed d x e) ∙ h ∙ hash' ∙ sealed d x f) in
    let same =
      sealed_text-content d x e f (subst NoBrace (sym prev) (head_hash-NoBrace d x c))
        (subst NoBrace (sym prev') (head_hash-NoBrace d x c')) texts in
    let rest : NoCollision d rows sows = Every-map _ _ rows (λ g k. k.1) n.1 in
    let before = Chained-head d x rest c c' (sym prev ∙ same.2 ∙ prev') in
    both same.0 same.1 h (seq ∙ ap (λ k. k + 1) (same-last_seq before) ∙ sym seq') before
