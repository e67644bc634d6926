-- ===== src/Direct/Set/Flipped.antt =====
-- src/direct/set.rs: what the calls of the bit set do to its bits, and to their number.
use idmap_rs.Common.{
  ℕ, ◌+◌, ◌<◌, ◌≤◌, ◌≡◌, Option, none, ◌++◌, arith, ◌==◌, if◌then◌else◌, length, set, replicate,
  slot, occupied, filled, slot-set, slot-pad, occupied-set, occupied-pad, length-set, length-append,
  length-replicate,
}
use idmap_rs.Direct.BitSet.{Bits}

-- what writing `o` at index `i` makes of the bits
pub record IsFlipped (limit : ℕ) (before after : Bits) (i : ℕ) (o : Option (Unit {0}))
    : Type 0 where
  pub slots : (j : ℕ) → slot after j ≡ (if i == j then o else slot before j)
  pub entries : occupied after + filled (slot before i) ≡ occupied before + filled o
  pub fits : length after ≤ limit

pub set-IsFlipped :
    (limit : ℕ) (bits : Bits) (i : ℕ) (o : Option (Unit {0}))
    → i < length bits
    → length bits ≤ limit
    → IsFlipped limit bits (set bits i o) i o
set-IsFlipped limit bits i o lt le = record {
  slots = λ j. slot-set bits i j o lt;
  entries = occupied-set bits i o lt;
  fits = omega (arith, length-set bits i o);
}

pub pad-IsFlipped :
    (limit : ℕ) (bits : Bits) (i n : ℕ) (o : Option (Unit {0}))
    → i < length bits + n
    → length bits + n ≤ limit
    → IsFlipped limit bits (set (bits ++ replicate n none) i o) i o
pad-IsFlipped limit bits i n o lt le =
    let size : length (bits ++ replicate n none) ≡ length bits + n = omega (
      arith,
      length-append bits (replicate n none),
      length-replicate {A = Option (Unit {0})} n none,
    ) in
    let flipped = set-IsFlipped limit (bits ++ replicate n none) i o (omega arith) (omega arith) in
    record {
      slots = λ j. ground (arith, flipped.slots j, slot-pad bits n j);
      entries = ground (arith, flipped.entries, slot-pad bits n i, occupied-pad bits n);
      fits = flipped.fits;
    }
