-- ===== src/Authn/Secrets.antt =====
-- internal/authn/totp.go and internal/authn/duress.go: the texts in which secrets are stored. A
-- text is its bytes; Argon2id, AES-256-GCM, HMAC-SHA-1 and base32 are the functions of a
-- `Suite`.
pub mod Split
use Prim.Native.Nat.{bit_or}
use tpt_identity.Prelude.{
  ℕ, Bool, true, false, List, [], ◌∷◌, ◌++◌, Option, none, some, not, length, nat_beq,
  if◌then◌else◌,
}
use tpt_identity.Recovery.Field.{◌⊕◌}
use tpt_identity.Recovery.Sharing.{hex_encode, hex_decode}

-- A key that Argon2id derives has the 32 bytes that AES-256 takes. `gcm_open` gives nothing
-- where Go's returns an error, and where it panics at a nonce of another length.
pub record Suite : Type 0 where
  pub derive : List ℕ → List ℕ → List ℕ
  pub seal : List ℕ → List ℕ → List ℕ → List ℕ
  pub gcm_open : List ℕ → List ℕ → List ℕ → Option (List ℕ)
  pub mac : List ℕ → List ℕ → List ℕ
  pub base32 : List ℕ → List ℕ

abbrev push_byte : ℕ → Option (List ℕ × List ℕ) → Option (List ℕ × List ℕ)
push_byte b none = none
push_byte b (some (s, t)) = some (b ∷ s, t)

-- The texts before and behind the first colon.
unfoldable pub split_colon : List ℕ → Option (List ℕ × List ℕ)
split_colon [] = none
split_colon (b ∷ s) =
    let rest = push_byte b (split_colon s) in if nat_beq b b':' then some ([], s) else rest

abbrev pub with_first : List ℕ → Option (List ℕ × List ℕ) → Option (List ℕ × List ℕ × List ℕ)
with_first a none = none
with_first a (some (b, rest)) = some (a, b, rest)

-- strings.SplitN(encoded, ":", 3), where it gives three parts.
abbrev pub three_parts : Option (List ℕ × List ℕ) → Option (List ℕ × List ℕ × List ℕ)
three_parts none = none
three_parts (some (a, rest)) = with_first a (split_colon rest)

-- The loop of timingSafeEqual.
unfoldable pub differences : ℕ → List ℕ → List ℕ → ℕ
differences result (a ∷ s) (b ∷ t) = differences (bit_or result (a ⊕ b)) s t
differences result _ _ = result

unfoldable pub timing_safe_equal : List ℕ → List ℕ → Bool
unfolding differences
timing_safe_equal s t =
    if not (nat_beq (length s) (length t)) then false else nat_beq (differences 0 s t) 0

module _ (c : Suite) (passphrase : List ℕ) where
  -- The salt and the nonce are drawn in this order.
  unfoldable pub encrypt_secret : Option (List ℕ) → Option (List ℕ) → List ℕ → Option (List ℕ)
  unfolding hex_encode
  encrypt_secret none nonce_draw secret = none
  encrypt_secret (some salt) none secret = none
  encrypt_secret (some salt) (some iv) secret = some (
      hex_encode salt
      ++ (b':'
          ∷ (hex_encode iv ++ (b':' ∷ hex_encode (c.seal (c.derive passphrase salt) iv secret)))))

  abbrev pub opened : Option (List ℕ) → Option (List ℕ) → Option (List ℕ) → Option (List ℕ)
  opened (some salt) (some iv) (some ct) = c.gcm_open (c.derive passphrase salt) iv ct
  opened _ _ _ = none

  abbrev pub open_parts : Option (List ℕ × List ℕ × List ℕ) → Option (List ℕ)
  open_parts none = none
  open_parts (some (salt, iv, ct)) = opened (hex_decode salt) (hex_decode iv) (hex_decode ct)

  unfoldable pub decrypt_secret : List ℕ → Option (List ℕ)
  decrypt_secret encoded = open_parts (three_parts (split_colon encoded))
