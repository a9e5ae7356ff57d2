-- ===== src/Vc/Status/Bytes.antt =====
-- Bits of one byte, and bytes of a slice.
use Prim.Native.Nat.{bit_and-bitwise}
use tpt_identity.Prelude.{
  length, ℕ, zero, suc, ◌<◌, ◌^◌, ◌≡◌, refl, Bool, true, false, List, [], ◌∷◌, some, not, ◌&&◌,
  ◌||◌, arith, nat_beq, ltb, ltb→lt, ap, if◌then◌else◌,
}
use tpt_identity.Vc.Status.{set_bit, clear_bit, has_bit, get_elem?, update_at, zeros}

-- A test that holds of every number below a bound, by trying each.
all_below : ℕ → (ℕ → Bool) → Bool
all_below zero p = true
all_below (suc n) p = p n && all_below n p

all_below_holds : (n : ℕ) (p : ℕ → Bool) (x : ℕ) → all_below n p ≡ true → x < n → p x ≡ true
unfolding all_below
all_below_holds zero p x h lt = absurd (ground arith)
all_below_holds (suc n) p x h lt = ground (arith, all_below_holds n p x)

abbrev same : Bool → Bool → Bool
same true b = b
same false b = not b

abbrev set_right : ℕ → ℕ → ℕ → Bool
set_right b k m =
    same (has_bit m (set_bit k b)) (nat_beq k m || has_bit m b)
    && same (has_bit m (clear_bit k b)) (not (nat_beq k m) && has_bit m b)
    && ltb (set_bit k b) 256
    && ltb (clear_bit k b) 256

byte_table : all_below 256 (λ b. all_below 8 (λ k. all_below 8 (λ m. set_right b k m))) ≡ true
unfolding all_below
byte_table = refl

row_right : (b k m : ℕ) → b < 256 → k < 8 → m < 8 → set_right b k m ≡ true
row_right b k m h i j =
    all_below_holds 8 (λ m. set_right b k m) m
      (all_below_holds 8 (λ k. all_below 8 (λ m. set_right b k m)) k
        (all_below_holds 256 (λ b. all_below 8 (λ k. all_below 8 (λ m. set_right b k m))) b
          byte_table h)
        i)
      j

-- What setting and clearing one bit do to each bit, and that the result is a byte.
pub record Written (b k m : ℕ) : Type 0 where
  pub set : has_bit m (set_bit k b) ≡ (nat_beq k m || has_bit m b)
  pub cleared : has_bit m (clear_bit k b) ≡ (not (nat_beq k m) && has_bit m b)
  pub set_byte : set_bit k b < 256
  pub cleared_byte : clear_bit k b < 256

same_eq : (a b : Bool) → same a b ≡ true → a ≡ b
same_eq true true h = refl
same_eq true false h = cc
same_eq false true h = cc
same_eq false false h = refl

all4 :
    (a b c d : Bool) → (a && b && c && d) ≡ true → (a ≡ true) × (b ≡ true) × (c ≡ true) × (d ≡ true)
all4 a b c d h = ground arith

pub written : (b k m : ℕ) → b < 256 → k < 8 → m < 8 → Written b k m
written b k m h i j =
    let set = same (has_bit m (set_bit k b)) (nat_beq k m || has_bit m b) in
    let cleared = same (has_bit m (clear_bit k b)) (not (nat_beq k m) && has_bit m b) in
    let all =
      all4 set cleared (ltb (set_bit k b) 256) (ltb (clear_bit k b) 256) (row_right b k m h i j) in
    record {
      set = same_eq _ _ all.0;
      cleared = same_eq _ _ all.1;
      set_byte = ltb→lt _ _ all.2;
      cleared_byte = ltb→lt _ _ all.3;
    }

-- Every element of a slice of bytes is a byte.
abbrev pub AllBytes : List ℕ → Type 0
AllBytes [] = Unit {0}
AllBytes (b ∷ bits) = (b < 256) × AllBytes bits

pub get_elem?-in :
    (bits : List ℕ) (n : ℕ)
    → AllBytes bits
    → n < length bits
    → (b : ℕ) × (get_elem? bits n ≡ some b) × (b < 256)
unfolding get_elem?
get_elem?-in [] n h lt = absurd (omega arith)
get_elem?-in (b ∷ bits) zero h lt = (b, refl, h.0)
get_elem?-in (b ∷ bits) (suc n) h lt = get_elem?-in bits n h.1 (omega arith)

pub get_elem?-update_at :
    (f : ℕ → ℕ) (bits : List ℕ) (n m b : ℕ)
    → get_elem? bits m ≡ some b
    → get_elem? (update_at f bits n) m ≡ some (if nat_beq n m then f b else b)
unfolding get_elem? update_at
get_elem?-update_at f [] n m b e = absurd (ground arith)
get_elem?-update_at f (c ∷ bits) zero zero b e = ground arith
get_elem?-update_at f (c ∷ bits) zero (suc m) b e = ground arith
get_elem?-update_at f (c ∷ bits) (suc n) zero b e = ground arith
get_elem?-update_at f (c ∷ bits) (suc n) (suc m) b e =
    ground (arith, get_elem?-update_at f bits n m b e)

pub length-update_at :
    (f : ℕ → ℕ) (bits : List ℕ) (n : ℕ) → length (update_at f bits n) ≡ length bits
unfolding update_at
length-update_at f [] n = refl
length-update_at f (b ∷ bits) zero = refl
length-update_at f (b ∷ bits) (suc n) = ap suc (length-update_at f bits n)

pub update_at-AllBytes :
    (f : ℕ → ℕ) (bits : List ℕ) (n : ℕ)
    → ((b : ℕ) → b < 256 → f b < 256)
    → AllBytes bits
    → AllBytes (update_at f bits n)
unfolding update_at
update_at-AllBytes f [] n k h = tt
update_at-AllBytes f (b ∷ bits) zero k h = (k b h.0, h.1)
update_at-AllBytes f (b ∷ bits) (suc n) k h = (h.0, update_at-AllBytes f bits n k h.1)

pub length-zeros : (n : ℕ) → length (zeros n) ≡ n
unfolding zeros
length-zeros zero = refl
length-zeros (suc n) = ap suc (length-zeros n)

pub zeros-AllBytes : (n : ℕ) → AllBytes (zeros n)
unfolding zeros
zeros-AllBytes zero = tt
zeros-AllBytes (suc n) = (omega arith, zeros-AllBytes n)

pub get_elem?-zeros : (n m : ℕ) → m < n → get_elem? (zeros n) m ≡ some 0
unfolding get_elem? zeros
get_elem?-zeros zero m h = absurd (omega arith)
get_elem?-zeros (suc n) zero h = refl
get_elem?-zeros (suc n) (suc m) h = get_elem?-zeros n m (omega arith)

pub no_bit : (m : ℕ) → has_bit m 0 ≡ false
no_bit m = rw (bit_and-bitwise 0 (2 ^ m)) refl
