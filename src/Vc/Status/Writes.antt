-- ===== src/Vc/Status/Writes.antt =====
-- A status list as a set of revoked indices: a history of Revoke and Unrevoke calls, and what
-- IsRevoked and CheckStatus read after it.
use tpt_identity.Prelude.{
  length, ℕ, ℤ, pos, negsuc, ◌+◌, ◌*◌, ◌/◌, ◌%◌, ◌≤◌, ◌<◌, ◌≡◌, refl, Bool, true, false, String,
  List, [], ◌∷◌, Option, none, some, not, ◌&&◌, ◌||◌, arith, leb, nat_beq, if◌then◌else◌, ltb,
  ltb→lt, subst, sym, ◌∙◌, Bool-cases, inl, inr,
}
use tpt_identity.Vc.Status.{
  StatusList, answered, refused, new_status_list, at_least_min, check_index, revoke, unrevoke,
  is_revoked, update_at, get_elem?, set_bit, clear_bit, has_bit,
}
use tpt_identity.Vc.Status.Bytes.{
  AllBytes, written, get_elem?-in, get_elem?-update_at, length-update_at, update_at-AllBytes,
  length-zeros, zeros-AllBytes, get_elem?-zeros, no_bit,
}

pub data Write : Type 0 where
  to_revoke to_unrevoke : ℤ → Write

-- A call that reports an error leaves the list as it is.
abbrev or_same : StatusList → Option StatusList → StatusList
or_same s none = s
or_same s (some t) = t

unfoldable pub write : Write → StatusList → StatusList
unfolding revoke unrevoke
write (to_revoke i) s = or_same s (revoke i s)
write (to_unrevoke i) s = or_same s (unrevoke i s)

unfoldable pub writes : List Write → StatusList → StatusList
unfolding write
writes [] s = s
writes (w ∷ ws) s = writes ws (write w s)

-- The same calls on a set of indices, given by its characteristic function at `i`.
abbrev pub mark : Write → ℕ → Bool → Bool
mark (to_revoke (pos k)) i b = nat_beq k i || b
mark (to_unrevoke (pos k)) i b = not (nat_beq k i) && b
mark (to_revoke (negsuc _)) i b = b
mark (to_unrevoke (negsuc _)) i b = b

unfoldable pub marks : List Write → ℕ → Bool → Bool
marks [] i b = b
marks (w ∷ ws) i b = marks ws i (mark w i b)

-- The list's bits are bytes, and its size counts them.
pub record Sized (s : StatusList) : Type 0 where
  pub bytes : AllBytes s.bits
  pub counts : s.size ≡ length s.bits * 8

update_at-Sized :
    (f : ℕ → ℕ) (s : StatusList) (n : ℕ)
    → ((b : ℕ) → b < 256 → f b < 256)
    → Sized s
    → Sized (record s { bits = update_at f s.bits n })
update_at-Sized f s n k h = record {
  bytes = update_at-AllBytes f s.bits n k h.bytes;
  counts = omega (arith, h.counts, length-update_at f s.bits n);
}

set_bit-byte : (k b : ℕ) → k < 8 → b < 256 → set_bit k b < 256
set_bit-byte k b h l = (written b k k l h h).set_byte

clear_bit-byte : (k b : ℕ) → k < 8 → b < 256 → clear_bit k b < 256
clear_bit-byte k b h l = (written b k k l h h).cleared_byte

either-Sized : (v : Bool) (s t : StatusList) → Sized s → Sized t → Sized (if v then s else t)
either-Sized true s t h k = h
either-Sized false s t h k = k

-- A call on an index writes one byte, or nothing where the index is behind the end.
write-revoke :
    (k : ℕ) (s : StatusList)
    → write (to_revoke (pos k)) s
      ≡ (if leb s.size k then s else record s { bits = update_at (set_bit (k % 8)) s.bits (k / 8) })
unfolding write revoke check_index
write-revoke k s = ground arith

write-unrevoke :
    (k : ℕ) (s : StatusList)
    → write (to_unrevoke (pos k)) s ≡ (
        if leb s.size k
        then s
        else record s { bits = update_at (clear_bit (k % 8)) s.bits (k / 8) })
unfolding write unrevoke check_index
write-unrevoke k s = ground arith

write-Sized : (w : Write) (s : StatusList) → Sized s → Sized (write w s)
unfolding write revoke unrevoke check_index
write-Sized (to_revoke (negsuc _)) s h = h
write-Sized (to_unrevoke (negsuc _)) s h = h
write-Sized (to_revoke (pos k)) s h = subst Sized (sym (write-revoke k s)) (
    either-Sized (leb s.size k) s _ h
      (update_at-Sized _ s (k / 8) (λ b. set_bit-byte (k % 8) b (omega arith)) h))
write-Sized (to_unrevoke (pos k)) s h = subst Sized (sym (write-unrevoke k s)) (
    either-Sized (leb s.size k) s _ h
      (update_at-Sized _ s (k / 8) (λ b. clear_bit-byte (k % 8) b (omega arith)) h))

writes-Sized : (ws : List Write) (s : StatusList) → Sized s → Sized (writes ws s)
unfolding writes
writes-Sized [] s h = h
writes-Sized (w ∷ ws) s h = writes-Sized ws (write w s) (write-Sized w s h)

write-size : (w : Write) (s : StatusList) → (write w s).size ≡ s.size
unfolding write revoke unrevoke check_index
write-size (to_revoke (negsuc _)) s = refl
write-size (to_unrevoke (negsuc _)) s = refl
write-size (to_revoke (pos k)) s = ground arith
write-size (to_unrevoke (pos k)) s = ground arith

-- The bit of an index within the size.
read-in :
    (s : StatusList) (i : ℕ)
    → Sized s
    → i < s.size
    → (b : ℕ) × (get_elem? s.bits (i / 8) ≡ some b)
      × (b < 256)
      × (is_revoked (pos i) s ≡ answered (has_bit (i % 8) b))
unfolding is_revoked check_index
read-in s i h lt =
    let found = get_elem?-in s.bits (i / 8) h.bytes (omega (arith, h.counts)) in
    (found.0, found.1, found.2, ground (arith, found.1))

write-mark :
    (w : Write) (s : StatusList) (i : ℕ) (v : Bool)
    → Sized s
    → i < s.size
    → is_revoked (pos i) s ≡ answered v
    → is_revoked (pos i) (write w s) ≡ answered (mark w i v)
unfolding write revoke unrevoke is_revoked check_index
write-mark (to_revoke (negsuc _)) s i v h lt e = e
write-mark (to_unrevoke (negsuc _)) s i v h lt e = e
write-mark (to_revoke (pos k)) s i v h lt e =
    let at = read-in s i h lt in
    ground (
      arith,
      at.1,
      at.3,
      get_elem?-update_at (set_bit (k % 8)) s.bits (k / 8) (i / 8) at.0 at.1,
      (written at.0 (k % 8) (i % 8) at.2 (omega arith) (omega arith)).set,
    )
write-mark (to_unrevoke (pos k)) s i v h lt e =
    let at = read-in s i h lt in
    ground (
      arith,
      at.1,
      at.3,
      get_elem?-update_at (clear_bit (k % 8)) s.bits (k / 8) (i / 8) at.0 at.1,
      (written at.0 (k % 8) (i % 8) at.2 (omega arith) (omega arith)).cleared,
    )

-- Whatever calls of Revoke and Unrevoke a list has seen, those on indices out of range included,
-- IsRevoked answers of an index in range as if the list were the set that the calls make.
pub writes-marks :
    (ws : List Write) (s : StatusList) (i : ℕ) (v : Bool)
    → Sized s
    → i < s.size
    → is_revoked (pos i) s ≡ answered v
    → is_revoked (pos i) (writes ws s) ≡ answered (marks ws i v)
unfolding writes marks
writes-marks [] s i v h lt e = e
writes-marks (w ∷ ws) s i v h lt e =
    writes-marks ws (write w s) i (mark w i v) (write-Sized w s h) (omega (arith, write-size w s))
      (write-mark w s i v h lt e)

new-Sized : (id : String) (n : ℤ) → Sized (new_status_list id n)
unfolding new_status_list
new-Sized id n = record {
  bytes = zeros-AllBytes _;
  counts = omega (arith, length-zeros ((at_least_min n + 7) / 8));
}

new-size : (id : String) (n : ℤ) → (new_status_list id n).size ≡ (at_least_min n + 7) / 8 * 8
unfolding new_status_list
new-size id n = refl

writes-size : (ws : List Write) (s : StatusList) → (writes ws s).size ≡ s.size
unfolding writes
writes-size [] s = refl
writes-size (w ∷ ws) s = writes-size ws (write w s) ∙ write-size w s

new-clear :
    (id : String) (n : ℤ) (i : ℕ)
    → i < (new_status_list id n).size
    → is_revoked (pos i) (new_status_list id n) ≡ answered false
unfolding new_status_list is_revoked check_index
new-clear id n i h =
    ground (arith, get_elem?-zeros ((at_least_min n + 7) / 8) (i / 8) (omega arith), no_bit (i % 8))

-- After any calls of Revoke and Unrevoke on a new status list, IsRevoked answers as the set of
-- indices that the calls make from the empty set, at each index below the size asked for or the
-- minimum of 131072, rounded up to a multiple of 8; it refuses a negative index and one from there on.
pub history-IsRevoked :
    (id : String) (n : ℤ) (ws : List Write) (i : ℤ)
    → is_revoked i (writes ws (new_status_list id n)) ≡ (elim i [
      | negsuc _ ↦ refused
      | pos k ↦
          if ltb k ((at_least_min n + 7) / 8 * 8) then answered (marks ws k false) else refused
    ])
unfolding is_revoked check_index
history-IsRevoked id n ws (negsuc _) = refl
history-IsRevoked id n ws (pos k) =
    let s = new_status_list id n in
    elim (Bool-cases (ltb k s.size)) [
      | inl lt ↦ ground (
        arith,
        new-size id n,
        writes-marks ws s k false (new-Sized id n) (ltb→lt _ _ lt)
            (new-clear id n k (ltb→lt _ _ lt)),
      )
      | inr ge ↦ ground (arith, new-size id n, writes-size ws s)
    ]

-- How many bits a list has that was asked for `n`.
pub record Bounded (n : ℤ) (s : StatusList) : Type 0 where
  pub bytes : AllBytes s.bits
  pub counts : s.size ≡ length s.bits * 8
  pub at_least : at_least_min n ≤ s.size
  pub below : s.size < at_least_min n + 8

-- A list is never written or read behind its end: after any calls on a new list the size is 8
-- times the number of bytes, at least 131072 and at least the size asked for, and below that
-- plus 8, and each of its elements is below 256.
pub history-Bounded :
    (id : String) (n : ℤ) (ws : List Write) → Bounded n (writes ws (new_status_list id n))
history-Bounded id n ws =
    let s = new_status_list id n in
    let sized = writes-Sized ws s (new-Sized id n) in
    let size = writes-size ws s in
    record {
      bytes = sized.bytes;
      counts = sized.counts;
      at_least = omega (arith, size, new-size id n);
      below = omega (arith, size, new-size id n);
    }
