-- ===== src/Common/ByteStrings.antt =====
-- Byte strings: lists of numbers below 256, `std::string::substr` and `==` on them.
use Prim.Native.Nat.{ℕ, zero, suc, ◌+◌, ◌<◌, ◌≤◌}
use mathlib.Core.Path.{◌≡◌, refl, subst, ap, ◌∙◌}
use mathlib.Core.Logic.{◌↔◌}
use mathlib.Core.Bool.{Bool, true, false, ◌&&◌}
use mathlib.Core.List.{List, [], ◌∷◌, ◌++◌}
use native.Mathlib.Omega.{arith}
use husarnet.Common.Tests.{◌==◌}
use husarnet.Common.Lists.{
  take, drop, All, length, drop-append, take-append, drop_within-append, take_within-append,
  length-drop,
}

abbrev pub Bytes : Type 0
Bytes = List ℕ

abbrev pub IsByte : ℕ → Type 0
IsByte b = b < 256

abbrev pub IsBytes : Bytes → Type 0
IsBytes = All IsByte

-- `size` bytes from `start`.
abbrev pub substr : ℕ → ℕ → Bytes → Bytes
substr start size s = take size (drop start s)

abbrev pub byte_at : Bytes → ℕ → ℕ
byte_at [] i = 0
byte_at (x ∷ xs) zero = x
byte_at (x ∷ xs) (suc i) = byte_at xs i

unfoldable pub same_bytes : Bytes → Bytes → Bool
same_bytes [] [] = true
same_bytes [] (y ∷ ys) = false
same_bytes (x ∷ xs) [] = false
same_bytes (x ∷ xs) (y ∷ ys) = (x == y) && same_bytes xs ys

pub same_bytes_refl : (xs : Bytes) → same_bytes xs xs ≡ true
unfolding same_bytes
same_bytes_refl [] = refl
same_bytes_refl (x ∷ xs) = ground (arith, same_bytes_refl xs)

pub same_bytes_sound : (xs ys : Bytes) → same_bytes xs ys ≡ true → xs ≡ ys
unfolding same_bytes
same_bytes_sound [] [] h = refl
same_bytes_sound [] (y ∷ ys) h = cc
same_bytes_sound (x ∷ xs) [] h = cc
same_bytes_sound (x ∷ xs) (y ∷ ys) h = ground (arith, same_bytes_sound xs ys)

pub same_bytes_iff : (xs ys : Bytes) → (same_bytes xs ys ≡ true) ↔ (xs ≡ ys)
same_bytes_iff xs ys =
    (same_bytes_sound xs ys, λ e. subst (λ z. same_bytes xs z ≡ true) e (same_bytes_refl xs))

-- A field of `m` bytes behind `n` bytes.
pub substr_field :
    (n m : ℕ) (s before field after : Bytes)
    → s ≡ before ++ (field ++ after)
    → length before ≡ n
    → length field ≡ m
    → substr n m s ≡ field
substr_field n m s before field after e hn hm =
    rw e (ap (take m) (drop-append n before (field ++ after) hn) ∙ take-append m field after hm)

-- A field within the first of two joined strings.
pub substr_within-append :
    (start size : ℕ) (xs ys : Bytes)
    → start + size ≤ length xs
    → substr start size (xs ++ ys) ≡ substr start size xs
substr_within-append start size xs ys h =
    ap (take size) (drop_within-append start xs ys (omega arith))
    ∙ take_within-append size (drop start xs) ys (omega (arith, length-drop start xs))

-- What follows `n` bytes.
pub drop_field :
    (n : ℕ) (s before after : Bytes) → s ≡ before ++ after → length before ≡ n → drop n s ≡ after
drop_field n s before after e hn = rw e (drop-append n before after hn)

-- The first `n` bytes.
pub take_field :
    (n : ℕ) (s before after : Bytes) → s ≡ before ++ after → length before ≡ n → take n s ≡ before
take_field n s before after e hn = rw e (take-append n before after hn)
