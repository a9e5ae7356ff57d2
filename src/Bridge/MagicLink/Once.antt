-- ===== src/Bridge/MagicLink/Once.antt =====
-- A token of a magic link is good once, for a quarter of an hour.
use tpt_identity.Prelude.{
  ℕ, ◌+◌, ◌≡◌, ◌≢◌, sym, ap, ◌∙◌, subst, String, false, List, [], ◌∷◌, Option, none, some, ltb,
  arith, eq_iff, eq_refl, if◌then◌else◌, Option-cases, inl, inr,
}
use tpt_identity.Prelude.Table.{
  find, delete, insert, find-delete, find-delete-none, find-append_none, find-insert,
}
use tpt_identity.Store.Secrets.{
  MagicLinkToken, has_link_hash, save_magic_link_token, get_magic_link_token,
  delete_magic_link_token,
}
use tpt_identity.Bridge.Mapper.{ExternalIdentity}
use tpt_identity.Bridge.Passwords.{normalise_email}
use tpt_identity.Bridge.MagicLink.{magic_link_ttl, email_identity, generate_token, verify_token}

module _ (hash : String → String) where
  generate_token-row :
      (lower : String → String) (raw email : String) (now expiry : ℕ) (token : String)
      (rows rows' : List MagicLinkToken)
      → generate_token hash lower false (some raw) now email rows ≡ some ((token, expiry), rows')
      → (token ≡ raw)
        × (expiry ≡ now + magic_link_ttl)
        × (find (has_link_hash (hash raw)) rows'
            ≡ some (record {
              hash = hash raw;
              email = normalise_email lower email;
              expires_at = now + magic_link_ttl;
              created_at = now;
            }))
  unfolding generate_token save_magic_link_token
  generate_token-row lower raw email now expiry token rows rows' e =
      let row : MagicLinkToken = record {
        hash = hash raw;
        email = normalise_email lower email;
        expires_at = now + magic_link_ttl;
        created_at = now;
      } in
      elim (Option-cases (insert (has_link_hash (hash raw)) row rows)) [
        | inl refused ↦ absurd (ground (arith, refused, e))
        | inr (made, there) ↦
            let found =
              find-insert (has_link_hash (hash raw)) row rows made there (eq_refl (hash raw)) in
            ground (arith, there, e, found)
      ]

  -- Later calls, while the store works.
  pub data Call : Type 0 where
    generates : (String → String) → String → ℕ → String → Call
    verifies : ℕ → String → Call

  abbrev or_before :
      List MagicLinkToken → Option ((String × ℕ) × List MagicLinkToken) → List MagicLinkToken
  or_before rows none = rows
  or_before rows (some (_, next)) = next

  unfoldable pub apply_call : Call → List MagicLinkToken → List MagicLinkToken
  apply_call (generates lower raw now email) rows =
      or_before rows (generate_token hash lower false (some raw) now email rows)
  apply_call (verifies now raw) rows = (verify_token hash false false now raw rows).1

  unfoldable pub apply_all : List Call → List MagicLinkToken → List MagicLinkToken
  unfolding apply_call
  apply_all [] rows = rows
  apply_all (c ∷ calls) rows = apply_all calls (apply_call c rows)

  -- No later token has the hash.
  abbrev pub Others : String → List Call → Type 0
  Others k [] = Unit {0}
  Others k (generates lower raw now email ∷ calls) = (hash raw ≢ k) × Others k calls
  Others k (verifies now raw ∷ calls) = Others k calls

  generate_token-none :
      (k : String) (lower : String → String) (raw : String) (now : ℕ) (email : String)
      (rows : List MagicLinkToken)
      → hash raw ≢ k
      → find (has_link_hash k) rows ≡ none
      → find
          (has_link_hash k)
          (or_before rows (generate_token hash lower false (some raw) now email rows))
        ≡ none
  unfolding generate_token save_magic_link_token insert
  generate_token-none k lower raw now email rows d e =
      let row : MagicLinkToken = record {
        hash = hash raw;
        email = normalise_email lower email;
        expires_at = now + magic_link_ttl;
        created_at = now;
      } in
      ground (arith, find-append_none (has_link_hash k) rows row e, eq_iff (hash raw) k, d, e)

  verify_token-none :
      (k : String) (now : ℕ) (raw : String) (rows : List MagicLinkToken)
      → find (has_link_hash k) rows ≡ none
      → find (has_link_hash k) (verify_token hash false false now raw rows).1 ≡ none
  unfolding verify_token delete_magic_link_token
  verify_token-none k now raw rows e =
      ground (arith, e, find-delete-none (has_link_hash (hash raw)) (has_link_hash k) rows e)

  apply_all-none :
      (k : String) (calls : List Call) (rows : List MagicLinkToken)
      → Others k calls
      → find (has_link_hash k) rows ≡ none
      → find (has_link_hash k) (apply_all calls rows) ≡ none
  unfolding apply_all
  apply_all-none k [] rows d e = e
  apply_all-none k (generates lower raw now email ∷ calls) rows d e =
      apply_all-none k calls (apply_call (generates lower raw now email) rows) d.1
        (generate_token-none k lower raw now email rows d.0 e)
  apply_all-none k (verifies now raw ∷ calls) rows d e =
      apply_all-none k calls (apply_call (verifies now raw) rows) d
        (verify_token-none k now raw rows e)

  verify_token-first :
      (raw : String) (now : ℕ) (rows : List MagicLinkToken) (t : MagicLinkToken)
      → find (has_link_hash (hash raw)) rows ≡ some t
      → verify_token hash false false now raw rows ≡ (
        (if ltb t.expires_at now then none else some (email_identity t.email)),
        delete (has_link_hash (hash raw)) rows,
      )
  unfolding verify_token get_magic_link_token delete_magic_link_token
  verify_token-first raw now rows t e = ground (arith, e)

  verify_token-missing :
      (raw : String) (now : ℕ) (rows : List MagicLinkToken)
      → find (has_link_hash (hash raw)) rows ≡ none
      → (verify_token hash false false now raw rows).0 ≡ none
  unfolding verify_token get_magic_link_token
  verify_token-missing raw now rows e = ground (arith, e)

-- A generated token, when it is first verified, gives the normalised address up to a quarter of
-- an hour after it was made and nothing later; after that, and whatever tokens of other hashes
-- are generated and whatever is verified in between, it gives nothing at any time. It is assumed
-- that the store works.
pub verify_token-once :
    (hash lower : String → String) (raw email token : String) (made at later expiry : ℕ)
    (rows rows' : List MagicLinkToken) (calls : List (Call hash))
    → generate_token hash lower false (some raw) made email rows ≡ some ((token, expiry), rows')
    → Others hash (hash raw) calls
    → ((verify_token hash false false at token rows').0 ≡ (
        if ltb (made + magic_link_ttl) at
        then none
        else some (email_identity (normalise_email lower email))))
      × ((verify_token hash false false later token
            (apply_all hash calls (verify_token hash false false at token rows').1)).0
          ≡ none)
verify_token-once hash lower raw email token made at later expiry rows rows' calls e d =
    let (same, _, there) = generate_token-row hash lower raw email made expiry token rows rows' e in
    let row : MagicLinkToken = record {
      hash = hash raw;
      email = normalise_email lower email;
      expires_at = made + magic_link_ttl;
      created_at = made;
    } in
    let first = verify_token-first hash raw at rows' row there in
    let gone : find (has_link_hash (hash raw)) (verify_token hash false false at raw rows').1
        ≡ none =
      ap
        (λ (p : Option ExternalIdentity × List MagicLinkToken). find (has_link_hash (hash raw)) p.1)
        first
      ∙ find-delete (has_link_hash (hash raw)) rows' in
    subst
      (λ t.
        ((verify_token hash false false at t rows').0 ≡ (
          if ltb (made + magic_link_ttl) at
          then none
          else some (email_identity (normalise_email lower email))))
        × ((verify_token hash false false later t
              (apply_all hash calls (verify_token hash false false at t rows').1)).0
            ≡ none))
      (sym same)
      (
        ap (λ (p : Option ExternalIdentity × List MagicLinkToken). p.0) first,
        verify_token-missing hash raw later
            (apply_all hash calls (verify_token hash false false at raw rows').1)
            (apply_all-none hash (hash raw) calls (verify_token hash false false at raw rows').1 d
              gone),
      )
