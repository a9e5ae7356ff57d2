-- ===== src/Authn/Secrets/Split.antt =====
-- Texts of hexadecimal digits between colons, and the comparison in constant time.
use Prim.Native.Nat.{digits, max, bit_or, bit_or-bitwise}
use tpt_identity.Prelude.{
  ℕ, zero, suc, ◌/◌, ◌%◌, ◌≤◌, ◌<◌, ◌≡◌, ◌↔◌, refl, sym, ap, ◌∙◌, subst, true, false, List, [], ◌∷◌,
  ◌++◌, some, length, nat_beq, arith,
}
use tpt_identity.Recovery.Field.{◌⊕◌}
use tpt_identity.Recovery.Field.Xor.{xor_assoc, xor_self, xor_zero, zero_xor}
use tpt_identity.Recovery.Sharing.{hex_digit, hex_encode}
use tpt_identity.Recovery.Sharing.Hex.{AllBytes, decode-encode}
use tpt_identity.Authn.Secrets.{
  Suite, with_first, three_parts, open_parts, split_colon, differences, timing_safe_equal,
  encrypt_secret, decrypt_secret,
}

hex_digit-colon : (n : ℕ) → n < 16 → nat_beq (hex_digit n) b':' ≡ false
hex_digit-colon n h = ground arith

pub split_colon-hex :
    (bytes rest : List ℕ)
    → AllBytes bytes
    → split_colon (hex_encode bytes ++ (b':' ∷ rest)) ≡ some (hex_encode bytes, rest)
unfolding split_colon hex_encode
split_colon-hex [] rest h = refl
split_colon-hex (b ∷ bytes) rest h =
    rw
      (
        hex_digit-colon (b / 16) (omega (arith, h.0)),
        hex_digit-colon (b % 16) (omega arith),
        split_colon-hex bytes rest h.1,
      )
      refl

xor-equal : (a b : ℕ) → a ⊕ b ≡ 0 → a ≡ b
xor-equal a b e =
    sym (xor_zero a)
    ∙ ap (λ t. a ⊕ t) (sym (xor_self b))
    ∙ sym (xor_assoc a b b)
    ∙ ap (λ t. t ⊕ b) e
    ∙ zero_xor b

zero_or : (b : ℕ) → bit_or 0 b ≡ b
zero_or b = simp bit_or-bitwise refl

max_zero : (x y : ℕ) → max x y ≡ 0 → (x ≡ 0) × (y ≡ 0)
max_zero zero zero e = (refl, e)
max_zero zero (suc y) e = absurd (omega (arith, e))
max_zero (suc x) zero e = absurd (omega (arith, e))
max_zero (suc x) (suc y) e = absurd (omega (arith, e))

or_fuel : (n a b : ℕ) → a ≤ n → digits (λ b. b) max n a b ≡ 0 → (a ≡ 0) × (b ≡ 0)
or_fuel zero a b h e = (omega arith, e)
or_fuel (suc n) zero b h e = (refl, e)
or_fuel (suc n) (suc a) b h e =
    let high = or_fuel n (suc a / 2) (b / 2) (omega arith) (omega (arith, e)) in
    let low = max_zero (suc a % 2) (b % 2) (omega (arith, e)) in
    (omega (arith, high, low), omega (arith, high, low))

or_zero : (a b : ℕ) → bit_or a b ≡ 0 → (a ≡ 0) × (b ≡ 0)
or_zero a b e = or_fuel a a b (omega arith) (sym (bit_or-bitwise a b) ∙ e)

same_differences : (s : List ℕ) → differences 0 s s ≡ 0
unfolding differences
same_differences [] = refl
same_differences (a ∷ s) = rw (xor_self a, zero_or 0) (same_differences s)

no_differences :
    (result : ℕ) (s t : List ℕ)
    → length s ≡ length t
    → differences result s t ≡ 0
    → (result ≡ 0) × (s ≡ t)
unfolding differences
no_differences result [] [] h e = (e, refl)
no_differences result [] (b ∷ t) h e = absurd (omega (arith, h))
no_differences result (a ∷ s) [] h e = absurd (omega (arith, h))
no_differences result (a ∷ s) (b ∷ t) h e =
    let rest = no_differences (bit_or result (a ⊕ b)) s t (omega (arith, h)) e in
    let here = or_zero result (a ⊕ b) rest.0 in (here.0, cc (xor-equal a b here.1, rest.1))

-- Comparing in constant time is comparing.
pub timing_safe_equal_iff : (s t : List ℕ) → timing_safe_equal s t ≡ true ↔ s ≡ t
unfolding timing_safe_equal
timing_safe_equal_iff s t = (
  λ e. (no_differences 0 s t (ground (arith, e)) (ground (arith, e))).1,
  λ e. subst (λ u. timing_safe_equal s u ≡ true) e (ground (arith, same_differences s)),
)

module _ (c : Suite) (passphrase salt iv secret : List ℕ) where
  abbrev sealed : List ℕ
  sealed = c.seal (c.derive passphrase salt) iv secret

  -- What is needed of the library for one draw of salt and nonce: they and the sealed secret
  -- are bytes, and what is sealed opens.
  pub record Sealing : Type 0 where
    pub salt_bytes : AllBytes salt
    pub iv_bytes : AllBytes iv
    pub sealed_bytes : AllBytes sealed
    pub opens : c.gcm_open (c.derive passphrase salt) iv sealed ≡ some secret

  abbrev stored : List ℕ
  stored = hex_encode salt ++ (b':' ∷ (hex_encode iv ++ (b':' ∷ hex_encode sealed)))

  decrypt_parts :
      (text : List ℕ)
      → decrypt_secret c passphrase text ≡ open_parts c passphrase (three_parts (split_colon text))
  unfolding decrypt_secret
  decrypt_parts text = refl

  stored_parts :
      Sealing
      → three_parts (split_colon stored) ≡ some (hex_encode salt, hex_encode iv, hex_encode sealed)
  stored_parts h =
      ap three_parts
        (split_colon-hex salt (hex_encode iv ++ (b':' ∷ hex_encode sealed)) h.salt_bytes)
      ∙ ap (with_first (hex_encode salt)) (split_colon-hex iv (hex_encode sealed) h.iv_bytes)

  decrypt-stored : Sealing → decrypt_secret c passphrase stored ≡ some secret
  decrypt-stored h =
      decrypt_parts stored
      ∙ ap (open_parts c passphrase) (stored_parts h)
      ∙ rw
          (
            decode-encode salt h.salt_bytes,
            decode-encode iv h.iv_bytes,
            decode-encode sealed h.sealed_bytes,
          )
          h.opens

  pub decrypt-encrypt :
      (text : List ℕ)
      → Sealing
      → encrypt_secret c passphrase (some salt) (some iv) secret ≡ some text
      → decrypt_secret c passphrase text ≡ some secret
  unfolding encrypt_secret
  decrypt-encrypt text h e =
      let same : stored ≡ text = cc e in
      subst (λ t. decrypt_secret c passphrase t ≡ some secret) same (decrypt-stored h)
