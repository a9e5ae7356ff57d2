-- ===== src/Recovery/Sharing.antt =====
-- pkg/recovery/recovery.go: splitting and combining of a secret, and the text of a share.
-- A byte is a number below 256, and a text is its bytes.
pub mod Bytes
pub mod Hex
pub mod Lagrange
pub mod Polynomials
pub mod Rebuilt
use tpt_identity.Prelude.{
  ℕ, zero, suc, ◌+◌, ◌-◌, ◌*◌, ◌/◌, ◌%◌, Bool, true, false, List, [], ◌∷◌, ◌++◌, Option, none, some,
  map, not, length, ◌&&◌, ◌||◌, leb, ltb, nat_beq, if◌then◌else◌,
}
use tpt_identity.Recovery.Field.{◌⊕◌, gf_mul, gf_inv}

pub record Share : Type 0 where
  pub index : ℕ
  pub value : List ℕ

abbrev pub hex_digit : ℕ → ℕ
hex_digit n = if ltb n 10 then b'0' + n else b'a' + (n - 10)

-- hex.EncodeToString.
unfoldable pub hex_encode : List ℕ → List ℕ
hex_encode [] = []
hex_encode (b ∷ bytes) = hex_digit (b / 16) ∷ hex_digit (b % 16) ∷ hex_encode bytes

unfoldable pub hex : Share → List ℕ
unfolding hex_encode
hex s = hex_encode (s.index ∷ []) ++ b':' ∷ hex_encode s.value

abbrev pub from_digit : ℕ → Option ℕ
from_digit c =
    if leb b'0' c && leb c b'9'
    then some (c - b'0')
    else if leb b'a' c && leb c b'f'
    then some (c - b'a' + 10)
    else if leb b'A' c && leb c b'F'
    then some (c - b'A' + 10)
    else none

abbrev pub from_digits : Option ℕ → Option ℕ → Option ℕ
from_digits (some hi) (some lo) = some (hi * 16 + lo)
from_digits _ _ = none

abbrev pub put_byte : Option ℕ → Option (List ℕ) → Option (List ℕ)
put_byte (some b) (some bytes) = some (b ∷ bytes)
put_byte _ _ = none

-- hex.DecodeString.
unfoldable pub hex_decode : List ℕ → Option (List ℕ)
hex_decode [] = some []
hex_decode (c ∷ []) = none
hex_decode (c ∷ d ∷ text) = put_byte (from_digits (from_digit c) (from_digit d)) (hex_decode text)

abbrev pub share_of : Option ℕ → Option (List ℕ) → Option Share
share_of (some index) (some value) = some (record { index = index; value = value })
share_of _ _ = none

-- Two digits, a colon, and at least one byte of text more.
unfoldable pub parse_hex : List ℕ → Option Share
unfolding hex_decode
parse_hex (c ∷ d ∷ colon ∷ e ∷ text) =
    if not (nat_beq colon b':')
    then none
    else share_of (from_digits (from_digit c) (from_digit d)) (hex_decode (e ∷ text))
parse_hex _ = none

-- The loop from the highest coefficient down, on coefficients from the lowest up.
unfoldable pub gf_poly_eval : List ℕ → ℕ → ℕ
unfolding gf_mul
gf_poly_eval [] x = 0
gf_poly_eval (c ∷ coeffs) x = gf_mul (gf_poly_eval coeffs x) x ⊕ c

-- The polynomials of the secret's bytes, by their random coefficients: `random k` is the k-th read.
abbrev onto_polynomials : ℕ → Option (List ℕ) → Option (List (List ℕ)) → Option (List (List ℕ))
onto_polynomials b (some coeffs) (some polys) = some ((b ∷ coeffs) ∷ polys)
onto_polynomials b _ _ = none

unfoldable pub polynomials : (ℕ → Option (List ℕ)) → ℕ → List ℕ → Option (List (List ℕ))
polynomials random k [] = some []
polynomials random k (b ∷ secret) =
    onto_polynomials b (random k) (polynomials random (suc k) secret)

-- The shares of the indices from `i` on.
unfoldable pub shares_from : List (List ℕ) → ℕ → ℕ → List Share
unfolding gf_poly_eval
shares_from polys i zero = []
shares_from polys i (suc n) =
    record { index = i; value = map (λ p. gf_poly_eval p i) polys } ∷ shares_from polys (suc i) n

abbrev shares_of : ℕ → Option (List (List ℕ)) → Option (List Share)
shares_of n none = none
shares_of n (some polys) = some (shares_from polys 1 n)

-- A read of random bytes gives one byte for each coefficient but the lowest.
unfoldable pub split : (ℕ → Option (List ℕ)) → List ℕ → ℕ → ℕ → Option (List Share)
unfolding polynomials shares_from
split random secret threshold n =
    if nat_beq (length secret) 0
    then none
    else if ltb threshold 2 || ltb n threshold || ltb 255 n
    then none
    else shares_of n (polynomials random 0 secret)

-- The inner loop of gfLagrange: the other points' part of numerator and denominator.
unfoldable pub lagrange_terms : ℕ → ℕ → ℕ → List ℕ → ℕ × ℕ → ℕ × ℕ
unfolding gf_mul
lagrange_terms i x j [] (num, den) = (num, den)
lagrange_terms i x j (z ∷ xs) (num, den) =
    lagrange_terms i x (suc j) xs
      (if nat_beq i j then (num, den) else (gf_mul num z, gf_mul den (x ⊕ z)))

-- The outer loop, over the points that are left.
unfoldable pub lagrange_sum : List ℕ → ℕ → List ℕ → List ℕ → ℕ → ℕ
unfolding gf_mul gf_inv lagrange_terms
lagrange_sum all i (x ∷ xs) (y ∷ ys) result =
    let terms = lagrange_terms i x 0 all (1, 1) in
    lagrange_sum all (suc i) xs ys (result ⊕ gf_mul y (gf_mul terms.0 (gf_inv terms.1)))
lagrange_sum all i _ _ result = result

unfoldable pub gf_lagrange : List ℕ → List ℕ → ℕ
unfolding lagrange_sum
gf_lagrange xs ys = lagrange_sum xs 0 xs ys 0

unfoldable pub same_lengths : ℕ → List Share → Bool
same_lengths n [] = true
same_lengths n (s ∷ shares) = nat_beq (length s.value) n && same_lengths n shares

abbrev pub byte_at : ℕ → List ℕ → ℕ
byte_at k [] = 0
byte_at zero (b ∷ bytes) = b
byte_at (suc k) (b ∷ bytes) = byte_at k bytes

-- The bytes from the k-th on.
unfoldable pub recovered : List Share → ℕ → ℕ → List ℕ
unfolding gf_lagrange
recovered shares k zero = []
recovered shares k (suc n) =
    gf_lagrange (map (λ s. s.index) shares) (map (λ s. byte_at k s.value) shares)
    ∷ recovered shares (suc k) n

unfoldable pub combine : List Share → Option (List ℕ)
unfolding same_lengths recovered
combine [] = none
combine (s ∷ []) = none
combine (s ∷ t ∷ shares) =
    if not (same_lengths (length s.value) (t ∷ shares))
    then none
    else some (recovered (s ∷ t ∷ shares) 0 (length s.value))
