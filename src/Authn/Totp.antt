-- ===== src/Authn/Totp.antt =====
-- internal/authn/totp.go: the enrolment of a secret, and the codes made of it. Texts that are
-- printed are their bytes; times are nanoseconds.
pub mod Window
use Prim.Native.Nat.{bit_and, bit_or}
use Prim.Native.Char.{code}
use tpt_identity.Prelude.{
  ℕ, zero, suc, ◌+◌, ◌-◌, ◌*◌, ◌/◌, ◌%◌, ◌^◌, String, Bool, true, false, List, [], ◌∷◌, ◌++◌,
  Option, none, some, ℤ, pos, negsuc, ltb, leb, nat_beq, ◌&&◌, ◌||◌, if◌then◌else◌,
}
use tpt_identity.Oidc.Jwt.{unix}
use tpt_identity.Recovery.Sharing.{byte_at}
use tpt_identity.Store.Factors.{
  TotpCredential, save_totp_credential, get_totp_credential, delete_totp_credential,
}
use tpt_identity.Authn.Secrets.{Suite, timing_safe_equal, encrypt_secret, decrypt_secret}

abbrev pub totp_digits : ℕ
totp_digits = 6

abbrev pub totp_period : ℕ
totp_period = 30

-- uint64 of an int64.
abbrev pub uint64_of : ℤ → ℕ
uint64_of (pos n) = n % 2 ^ 64
uint64_of (negsuc n) = 2 ^ 64 - 1 - n % 2 ^ 64

-- binary.BigEndian, of as many bytes.
unfoldable pub big_endian : ℕ → ℕ → List ℕ
big_endian zero n = []
big_endian (suc k) n = big_endian k (n / 256) ++ n % 256 ∷ []

abbrev pub last_byte : List ℕ → ℕ
last_byte [] = 0
last_byte (b ∷ []) = b
last_byte (b ∷ d ∷ bytes) = last_byte (d ∷ bytes)

-- The 31 bits from the offset that the last byte names. HMAC-SHA-1 gives 20 bytes, so all of
-- them are there.
unfoldable pub truncated : List ℕ → ℕ
truncated h =
    let offset = bit_and (last_byte h) 0x0f in
    bit_or
      (bit_or (bit_or (bit_and (byte_at offset h) 0x7f * 2 ^ 24) (byte_at (offset + 1) h * 2 ^ 16))
        (byte_at (offset + 2) h * 2 ^ 8))
      (byte_at (offset + 3) h)

-- `%0*d` of a number below 10 to the width.
unfoldable pub padded : ℕ → ℕ → List ℕ
padded zero n = []
padded (suc width) n = padded width (n / 10) ++ (b'0' + n % 10) ∷ []

abbrev pub unreserved : ℕ → Bool
unreserved c =
    leb b'A' c && leb c b'Z'
    || leb b'a' c && leb c b'z'
    || leb b'0' c && leb c b'9'
    || nat_beq c b'-'
    || nat_beq c b'_'
    || nat_beq c b'.'
    || nat_beq c b'~'

abbrev upper_digit : ℕ → ℕ
upper_digit n = if ltb n 10 then b'0' + n else b'A' + (n - 10)

unfoldable pub upper_hex : ℕ → ℕ → List ℕ
upper_hex zero n = []
upper_hex (suc width) n = upper_hex width (n / 16) ++ upper_digit (n % 16) ∷ []

-- `%02X` of a code point: as many digits as it has, and at least two.
abbrev pub hex_width : ℕ → ℕ
hex_width c =
    if ltb c 0x100
    then 2
    else if ltb c 0x1000
    then 3
    else if ltb c 0x10000
    then 4
    else if ltb c 0x100000
    then 5
    else 6

unfoldable pub url_escape : String → List ℕ
unfolding upper_hex
url_escape String.[] = []
url_escape (String.◌∷◌ c s) =
    let rest = url_escape s in
    if unreserved (code c)
    then code c ∷ rest
    else b'%' ∷ (upper_hex (hex_width (code c)) (code c) ++ rest)

-- A text of ASCII characters.
unfoldable pub ascii : String → List ℕ
ascii String.[] = []
ascii (String.◌∷◌ c s) = code c ∷ ascii s

unfoldable pub otpauth_uri : String → String → List ℕ → List ℕ
unfolding url_escape ascii
otpauth_uri issuer account b32 =
    ascii "otpauth://totp/"
    ++ (url_escape issuer
        ++ (ascii ":"
            ++ (url_escape account
                ++ (ascii "?secret="
                    ++ (b32
                        ++ (ascii "&issuer="
                            ++ (url_escape issuer
                                ++ ascii "&algorithm=SHA1&digits=6&period=30")))))))

-- The error that VerifyCtx returns, or none.
pub data Outcome : Type 0 where
  accepted not_enrolled undecryptable invalid_code : Outcome

-- counter + delta.
unfoldable pub shifted : ℕ → ℤ → ℤ
shifted n (pos d) = pos (n + d)
shifted zero (negsuc d) = negsuc d
shifted (suc n) (negsuc zero) = pos n
shifted (suc n) (negsuc (suc d)) = shifted n (negsuc d)

-- From -totpWindow up to totpWindow.
abbrev pub deltas : List ℤ
deltas = negsuc 0 ∷ pos 0 ∷ pos 1 ∷ []

module _ (c : Suite) where
  unfoldable pub generate_totp : List ℕ → ℤ → List ℕ
  unfolding big_endian truncated padded
  generate_totp secret counter =
      padded totp_digits
        (truncated (c.mac secret (big_endian 8 (uint64_of counter))) % 10 ^ totp_digits)

  -- The loop over the periods, which ends at the first whose code is the one given.
  unfoldable pub in_window : List ℕ → ℕ → List ℕ → List ℤ → Bool
  unfolding generate_totp timing_safe_equal
  in_window secret counter given [] = false
  in_window secret counter given (delta ∷ rest) =
      let later = in_window secret counter given rest in
      if timing_safe_equal given (generate_totp secret (shifted counter delta)) then true else later

  abbrev pub check_secret : ℕ → List ℕ → Option (List ℕ) → Outcome
  check_secret now given none = undecryptable
  check_secret now given (some secret) =
      if in_window secret (unix now / totp_period) given deltas then accepted else invalid_code

  abbrev pub check_credential : List ℕ → ℕ → List ℕ → Option TotpCredential → Outcome
  check_credential passphrase now given none = not_enrolled
  check_credential passphrase now given (some cred) =
      check_secret now given (decrypt_secret c passphrase cred.encrypted_secret)

  unfoldable pub verify_code : List ℕ → Bool → ℕ → String → List ℕ → List TotpCredential → Outcome
  verify_code passphrase down now subject given rows =
      check_credential passphrase now given (get_totp_credential down subject rows)

  abbrev pub with_uri :
      List ℕ → Option (List TotpCredential) → Option (List ℕ × List TotpCredential)
  with_uri uri none = none
  with_uri uri (some rows) = some (uri, rows)

  abbrev pub save_encrypted :
      String
      → String
      → String
      → List ℕ
      → ℕ
      → Bool
      → List TotpCredential
      → Option (List ℕ)
      → Option (List ℕ × List TotpCredential)
  save_encrypted issuer subject account secret now down rows none = none
  save_encrypted issuer subject account secret now down rows (some encrypted) =
      with_uri (otpauth_uri issuer account (c.base32 secret)) (
        save_totp_credential down
          (record {
            subject_did = subject;
            encrypted_secret = encrypted;
            account_name = account;
            created_at = now;
          })
          rows)

  -- The secret, the salt and the nonce are drawn in this order.
  unfoldable pub enrol :
      List ℕ
      → String
      → String
      → String
      → Option (List ℕ)
      → Option (List ℕ)
      → Option (List ℕ)
      → ℕ
      → Bool
      → List TotpCredential
      → Option (List ℕ × List TotpCredential)
  enrol passphrase issuer subject account none salt iv now down rows = none
  enrol passphrase issuer subject account (some secret) salt iv now down rows =
      save_encrypted issuer subject account secret now down rows
        (encrypt_secret c passphrase salt iv secret)

unfoldable pub is_enrolled : Bool → String → List TotpCredential → Bool
is_enrolled down subject rows = elim (get_totp_credential down subject rows) [
  | none ↦ false
  | some _ ↦ true
]

unfoldable pub unenrol : Bool → String → List TotpCredential → Option (List TotpCredential)
unenrol down subject rows = delete_totp_credential down subject rows
