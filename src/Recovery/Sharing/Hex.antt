-- ===== src/Recovery/Sharing/Hex.antt =====
-- The text of a share reads back.
use tpt_identity.Prelude.{
  ℕ, ◌/◌, ◌%◌, ◌<◌, ◌≡◌, ◌≢◌, refl, ap, sym, subst, List, [], ◌∷◌, some, arith,
}
use tpt_identity.Recovery.Sharing.{
  Share, hex_digit, hex_encode, hex, from_digit, from_digits, hex_decode, parse_hex,
}

abbrev pub AllBytes : List ℕ → Type 0
AllBytes [] = Unit {0}
AllBytes (b ∷ bytes) = (b < 256) × AllBytes bytes

from-hex_digit : (n : ℕ) → n < 16 → from_digit (hex_digit n) ≡ some n
from-hex_digit n h = ground arith

from_digits-byte :
    (b : ℕ)
    → b < 256
    → from_digits (from_digit (hex_digit (b / 16))) (from_digit (hex_digit (b % 16))) ≡ some b
from_digits-byte b h =
    rw (from-hex_digit (b / 16) (omega arith), from-hex_digit (b % 16) (omega arith))
      (ap some (omega arith))

pub decode-encode : (bytes : List ℕ) → AllBytes bytes → hex_decode (hex_encode bytes) ≡ some bytes
unfolding hex_decode hex_encode
decode-encode [] h = refl
decode-encode (b ∷ bytes) h = rw (from_digits-byte b h.0, decode-encode bytes h.1) refl

-- The text of one byte more, behind the colon.
parse_hex-digits :
    (index b : ℕ) (bytes : List ℕ)
    → index < 256
    → AllBytes (b ∷ bytes)
    → parse_hex (hex (record { index = index; value = b ∷ bytes }))
      ≡ some (record { index = index; value = b ∷ bytes })
unfolding parse_hex hex hex_encode
parse_hex-digits index b bytes h k =
    rw (from_digits-byte index h, from_digits-byte b k.0, decode-encode bytes k.1) refl

-- A share whose value is not empty, as those that Split makes, is what ParseHex makes of its text.
pub parse_hex-hex :
    (s : Share) → s.index < 256 → AllBytes s.value → s.value ≢ [] → parse_hex (hex s) ≡ some s
parse_hex-hex s h k some_value = of_value s.value refl k
  where
    of_value : (v : List ℕ) → s.value ≡ v → AllBytes v → parse_hex (hex s) ≡ some s
    of_value [] e l = absurd (some_value e)
    of_value (b ∷ bytes) e l =
        subst
          (λ v.
            parse_hex (hex (record { index = s.index; value = v }))
            ≡ some (record { index = s.index; value = v }))
          (sym e) (parse_hex-digits s.index b bytes h l)
