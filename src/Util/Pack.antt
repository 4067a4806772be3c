-- ===== src/Util/Pack.antt =====
-- core/husarnet/util.h: `pack` and `unpack` copy an integer's bytes. Every target is
-- little-endian, so the lowest byte comes first.
use native.Mathlib.Nat.{pow-suc}
use husarnet.Common.{
  ℕ, zero, suc, ◌+◌, ◌*◌, ◌/◌, ◌%◌, ◌^◌, ◌<◌, ◌≡◌, refl, ap, ap₂, ◌∙◌, Option, none, some, [], ◌∷◌,
  arith, Bytes, IsBytes, length, ◌==◌, if◌then◌else◌, ==_refl,
}

-- The bytes of an integer of `w` bytes.
unfoldable pub pack : ℕ → ℕ → Bytes
pack zero v = []
pack (suc w) v = (v % 256) ∷ pack w (v / 256)

-- `memcpy` of the bytes over an integer.
unfoldable pub from_bytes : Bytes → ℕ
from_bytes [] = 0
from_bytes (b ∷ bs) = b + 256 * from_bytes bs

-- A wrong length aborts.
unfoldable pub unpack : ℕ → Bytes → Option ℕ
unpack w s = if length s == w then some (from_bytes s) else none

pub length-pack : (w v : ℕ) → length (pack w v) ≡ w
unfolding pack
length-pack zero v = refl
length-pack (suc w) v = ap suc (length-pack w (v / 256))

pub pack-IsBytes : (w v : ℕ) → IsBytes (pack w v)
unfolding pack
pack-IsBytes zero v = tt
pack-IsBytes (suc w) v = (omega arith, pack-IsBytes w (v / 256))

pub from_bytes-pack : (w v : ℕ) → v < 256 ^ w → from_bytes (pack w v) ≡ v
unfolding pack from_bytes
from_bytes-pack zero v h = omega arith
from_bytes-pack (suc w) v h =
    omega (arith, from_bytes-pack w (v / 256) (grind (arith, pow-suc 256 w)))

-- An integer that fits its width comes back from its bytes.
pub unpack-pack : (w v : ℕ) → v < 256 ^ w → unpack w (pack w v) ≡ some v
unfolding unpack
unpack-pack w v h = rw (length-pack w v, ==_refl w) (ap some (from_bytes-pack w v h))

pub from_bytes_lt : (s : Bytes) → IsBytes s → from_bytes s < 256 ^ length s
unfolding from_bytes
from_bytes_lt [] h = omega arith
from_bytes_lt (b ∷ bs) h = omega (arith, from_bytes_lt bs h.1, pow-suc 256 (length bs), h.0)

-- Bytes come back from the integer that they stand for.
pub pack-from_bytes : (s : Bytes) → IsBytes s → pack (length s) (from_bytes s) ≡ s
unfolding pack from_bytes
pack-from_bytes [] h = refl
pack-from_bytes (b ∷ bs) h = ap₂ ◌∷◌ (omega (arith, h.0)) (tail ∙ pack-from_bytes bs h.1)
  where
    high : (b + 256 * from_bytes bs) / 256 ≡ from_bytes bs
    high = omega (arith, h.0)

    tail : pack (length bs) ((b + 256 * from_bytes bs) / 256) ≡ pack (length bs) (from_bytes bs)
    tail = ap (pack (length bs)) high
