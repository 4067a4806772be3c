-- ===== src/Common/Disjoint.antt =====
-- The binary or of numbers without a common digit is their sum.
use Prim.Native.Nat.{
  ℕ, zero, suc, ◌+◌, ◌*◌, ◌/◌, ◌%◌, ◌^◌, ◌≤◌, ◌<◌, bit_or, bit_or-bitwise, digits, max,
}
use mathlib.Core.Path.{◌≡◌, refl, ap, ◌∙◌}
use native.Mathlib.Omega.{arith}

abbrev double : ℕ → ℕ → ℕ
double zero x = x
double (suc k) x = double k x * 2

digits-zero : (n a : ℕ) → a ≤ n → digits (λ b. b) max n a 0 ≡ a
digits-zero zero a h = omega arith
digits-zero (suc n) zero h = refl
digits-zero (suc n) (suc a) h =
    ap (λ high. high * 2 + max (suc a % 2) 0) (digits-zero n (suc a / 2) (omega arith))
    ∙ omega arith

digits-double :
    (k n x a b : ℕ) → a ≡ double k x → a ≤ n → b < double k 1 → digits (λ b. b) max n a b ≡ a + b
digits-double zero n x a b e h small =
    ap (λ d. digits (λ b. b) max n a d) (omega (arith, small)) ∙ (digits-zero n a h ∙ omega arith)
digits-double (suc k) zero x a b e h small = omega arith
digits-double (suc k) (suc n) x zero b e h small = omega arith
digits-double (suc k) (suc n) x (suc a) b e h small =
    ap (λ high. high * 2 + max (suc a % 2) (b % 2))
      (digits-double k n x (suc a / 2) (b / 2) (omega (arith, e)) (omega arith)
        (omega (arith, small)))
    ∙ omega (arith, e)

-- Two halves of a word.
pub bit_or-halves : (x b : ℕ) → b < 2 ^ 16 → bit_or (x * 2 ^ 16) b ≡ x * 2 ^ 16 + b
bit_or-halves x b h =
    bit_or-bitwise (x * 2 ^ 16) b
    ∙ digits-double 16 (x * 2 ^ 16) x (x * 2 ^ 16) b (omega arith) (omega arith) (omega (arith, h))
