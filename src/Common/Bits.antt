-- ===== src/Common/Bits.antt =====
-- Exclusive or: the same key twice changes nothing.
use Prim.Native.Nat.{
  ℕ, zero, suc, ◌+◌, ◌*◌, ◌/◌, ◌%◌, ◌≤◌, ◌<◌, bit_xor, bit_xor-bitwise, digits, differ,
}
use mathlib.Core.Path.{◌≡◌, refl, ap, sym, ◌∙◌}
use native.Mathlib.Omega.{arith}

-- The native operation counts digits down from its first number; any larger count gives the same.
counted :
    (n m a b : ℕ) → a ≤ n → a ≤ m → digits (λ b. b) differ n a b ≡ digits (λ b. b) differ m a b
counted zero zero a b h k = refl
counted zero (suc m) zero b h k = refl
counted zero (suc m) (suc a) b h k = absurd (omega arith)
counted (suc n) zero zero b h k = refl
counted (suc n) (suc m) zero b h k = refl
counted (suc n) zero (suc a) b h k = absurd (omega arith)
counted (suc n) (suc m) (suc a) b h k =
    ap (λ high. high * 2 + differ (suc a % 2) (b % 2))
      (counted n m (suc a / 2) (b / 2) (omega arith) (omega arith))

zero-bit_xor : (b : ℕ) → bit_xor 0 b ≡ b
zero-bit_xor b = bit_xor-bitwise 0 b

bit_xor-halves : (a b : ℕ) → bit_xor a b ≡ bit_xor (a / 2) (b / 2) * 2 + differ (a % 2) (b % 2)
bit_xor-halves zero b =
    zero-bit_xor b ∙ (omega arith ∙ ap (λ h. h * 2 + b % 2) (sym (zero-bit_xor (b / 2))))
bit_xor-halves (suc a) b =
    bit_xor-bitwise (suc a) b
    ∙ ap (λ high. high * 2 + differ (suc a % 2) (b % 2))
        (counted a (suc a / 2) (suc a / 2) (b / 2) (omega arith) (omega arith)
          ∙ sym (bit_xor-bitwise (suc a / 2) (b / 2)))

differ_twice : (p q : ℕ) → p < 2 → q < 2 → (differ p q < 2) × (differ (differ p q) q ≡ p)
differ_twice zero zero h k = (omega arith, refl)
differ_twice zero (suc zero) h k = (omega arith, refl)
differ_twice (suc zero) zero h k = (omega arith, refl)
differ_twice (suc zero) (suc zero) h k = (omega arith, refl)
differ_twice (suc (suc p)) q h k = absurd (omega arith)
differ_twice p (suc (suc q)) h k = absurd (omega arith)

twice_below : (n a b : ℕ) → a ≤ n → b ≤ n → bit_xor (bit_xor a b) b ≡ a
twice_below zero zero zero h k = refl
twice_below zero (suc a) b h k = absurd (omega arith)
twice_below zero zero (suc b) h k = absurd (omega arith)
twice_below (suc n) a b h k = omega (
  arith,
  halved,
  upper,
  lower,
  twice_below n (a / 2) (b / 2) (omega arith) (omega arith),
  digit.1,
)
  where
    x : ℕ
    x = bit_xor a b

    digit : (differ (a % 2) (b % 2) < 2) × (differ (differ (a % 2) (b % 2)) (b % 2) ≡ a % 2)
    digit = differ_twice (a % 2) (b % 2) (omega arith) (omega arith)

    halved : bit_xor x b ≡ bit_xor (x / 2) (b / 2) * 2 + differ (x % 2) (b % 2)
    halved = bit_xor-halves x b

    upper : bit_xor (x / 2) (b / 2) ≡ bit_xor (bit_xor (a / 2) (b / 2)) (b / 2)
    upper = ap (λ h. bit_xor h (b / 2)) (omega (arith, bit_xor-halves a b, digit.0))

    lower : differ (x % 2) (b % 2) ≡ differ (differ (a % 2) (b % 2)) (b % 2)
    lower = ap (λ d. differ d (b % 2)) (omega (arith, bit_xor-halves a b, digit.0))

pub bit_xor_twice : (a b : ℕ) → bit_xor (bit_xor a b) b ≡ a
bit_xor_twice a b = twice_below (a + b) a b (omega arith) (omega arith)
