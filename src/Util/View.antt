-- ===== src/Util/View.antt =====
-- core/husarnet/string_view.h and fstring.h: the accessors assert that they stay inside the
-- string. `none` is a failed assertion.
use husarnet.Common.{
  ℕ, ◌+◌, ◌≤◌, ◌<◌, ◌≡◌, Option, none, some, arith, Bytes, length, take, drop, byte_at, leb, ltb,
  if◌then◌else◌, length-take, length-drop,
}

-- `operator[]`
unfoldable pub view_at : Bytes → ℕ → Option ℕ
view_at s i = if ltb i (length s) then some (byte_at s i) else none

-- `substr(start, size)`, and fstring's `substr<start, size>`.
unfoldable pub view_substr : ℕ → ℕ → Bytes → Option Bytes
view_substr start size s =
    if leb (start + size) (length s) then some (take size (drop start s)) else none

-- `substr(start)`
unfoldable pub view_from : ℕ → Bytes → Option Bytes
view_from start s = if leb start (length s) then some (drop start s) else none

pub view_substr_inside :
    (start size : ℕ) (s : Bytes)
    → start + size ≤ length s
    → view_substr start size s ≡ some (take size (drop start s))
unfolding view_substr
view_substr_inside start size s h = ground arith

pub view_from_inside :
    (start : ℕ) (s : Bytes) → start ≤ length s → view_from start s ≡ some (drop start s)
unfolding view_from
view_from_inside start s h = ground arith

pub view_at_inside : (s : Bytes) (i : ℕ) → i < length s → view_at s i ≡ some (byte_at s i)
unfolding view_at
view_at_inside s i h = ground arith

pub length-take-drop :
    (start size : ℕ) (s : Bytes)
    → start + size ≤ length s
    → length (take size (drop start s)) ≡ size
length-take-drop start size s h =
    length-take size (drop start s) (omega (arith, length-drop start s))
