-- ===== src/Vc/Status.antt =====
-- pkg/vc/status.go: the status list of revoked credentials, a string of bits in bytes.
-- An index is Go's int: a credential of somebody else may carry a negative one.
pub mod Bytes
pub mod Check
pub mod Writes
use Prim.Native.Nat.{bit_and, bit_or, bit_xor}
use tpt_identity.Prelude.{
  length, ℕ, ℤ, pos, negsuc, zero, suc, ◌+◌, ◌-◌, ◌*◌, ◌/◌, ◌%◌, ◌^◌, String, Bool, true, false,
  List, [], ◌∷◌, Option, none, some, not, ltb, leb, nat_beq, if◌then◌else◌,
}

pub record StatusList : Type 0 where
  pub id : String
  pub bits : List ℕ
  pub size : ℕ

abbrev pub status_list_min_size : ℕ
status_list_min_size = 131072

unfoldable pub zeros : ℕ → List ℕ
zeros zero = []
zeros (suc n) = 0 ∷ zeros n

-- `size < StatusListMinSize`, also of a negative size.
abbrev pub at_least_min : ℤ → ℕ
at_least_min (pos n) = if ltb n status_list_min_size then status_list_min_size else n
at_least_min (negsuc _) = status_list_min_size

unfoldable pub new_status_list : String → ℤ → StatusList
unfolding zeros
new_status_list id size =
    let byte_len = (at_least_min size + 7) / 8 in
    record { id = id; bits = zeros byte_len; size = byte_len * 8 }

unfoldable pub get_elem? : List ℕ → ℕ → Option ℕ
get_elem? [] n = none
get_elem? (b ∷ bits) zero = some b
get_elem? (b ∷ bits) (suc n) = get_elem? bits n

unfoldable pub update_at : (ℕ → ℕ) → List ℕ → ℕ → List ℕ
update_at f [] n = []
update_at f (b ∷ bits) zero = f b ∷ bits
update_at f (b ∷ bits) (suc n) = b ∷ update_at f bits n

-- `b |= 1 << k`, `b &^= 1 << k` and `b & (1 << k) != 0` of a byte.
abbrev pub set_bit : ℕ → ℕ → ℕ
set_bit k b = bit_or b (2 ^ k)

abbrev pub clear_bit : ℕ → ℕ → ℕ
clear_bit k b = bit_and b (bit_xor (2 ^ k) 255)

abbrev pub has_bit : ℕ → ℕ → Bool
has_bit k b = not (nat_beq (bit_and b (2 ^ k)) 0)

-- The index, where checkIndex lets it pass.
unfoldable pub check_index : ℤ → StatusList → Option ℕ
check_index (negsuc _) s = none
check_index (pos i) s = if leb s.size i then none else some i

unfoldable pub revoke : ℤ → StatusList → Option StatusList
unfolding check_index update_at
revoke index s = elim (check_index index s) [
  | none ↦ none
  | some i ↦ some (record s { bits = update_at (set_bit (i % 8)) s.bits (i / 8) })
]

unfoldable pub unrevoke : ℤ → StatusList → Option StatusList
unfolding check_index update_at
unrevoke index s = elim (check_index index s) [
  | none ↦ none
  | some i ↦ some (record s { bits = update_at (clear_bit (i % 8)) s.bits (i / 8) })
]

-- An access behind the end of a slice is a run-time panic.
pub data Answer : Type 0 where
  answered : Bool → Answer
  refused panics : Answer

abbrev pub read_bit : ℕ → Option ℕ → Answer
read_bit k none = panics
read_bit k (some b) = answered (has_bit k b)

unfoldable pub is_revoked : ℤ → StatusList → Answer
unfolding check_index get_elem?
is_revoked index s = elim (check_index index s) [
  | none ↦ refused
  | some i ↦ read_bit (i % 8) (get_elem? s.bits (i / 8))
]

-- CheckStatus reads a published list; there is no status to check where the credential has none.
-- Go's division truncates towards zero, and `uint` wraps a negative index.
unfoldable pub check_status : List ℕ → Option ℤ → Answer
unfolding get_elem?
check_status bits none = answered false
check_status bits (some (pos i)) =
    if leb (length bits) (i / 8) then refused else read_bit (i % 8) (get_elem? bits (i / 8))
check_status bits (some (negsuc n)) =
    if nat_beq (suc n / 8) 0
    then (if leb (length bits) 0
        then refused
        else read_bit ((2 ^ 64 - suc n) % 8) (get_elem? bits 0))
    else panics
