-- ===== src/IpAddress/Order.antt =====
-- `operator<` on addresses, with and without ports.
use husarnet.Common.{
  ◌≡◌, refl, sym, ◌∙◌, if◌then◌else◌, ◌<◌, ap, [], ◌∷◌, arith, Bytes, true, false, same_bytes,
  same_bytes_sound, ◌↔◌, same_bytes_refl, ℕ, ◌+◌, ◌*◌, ◌<◌, ◌^◌, length, IsBytes, Bool-cases, inl,
  inr, ltb,
}
use husarnet.IpAddress.{bytes_lt, InetAddress, inet_lt, same_inet}

pub bytes_lt_irrefl : (xs : Bytes) → bytes_lt xs xs ≡ false
unfolding bytes_lt
bytes_lt_irrefl [] = refl
bytes_lt_irrefl (x ∷ xs) = ground (arith, bytes_lt_irrefl xs)

pub bytes_lt_trans :
    (xs ys zs : Bytes) → bytes_lt xs ys ≡ true → bytes_lt ys zs ≡ true → bytes_lt xs zs ≡ true
unfolding bytes_lt
bytes_lt_trans [] [] zs p q = cc
bytes_lt_trans [] (y ∷ ys) [] p q = cc
bytes_lt_trans [] (y ∷ ys) (z ∷ zs) p q = refl
bytes_lt_trans (x ∷ xs) [] zs p q = cc
bytes_lt_trans (x ∷ xs) (y ∷ ys) [] p q = cc
bytes_lt_trans (x ∷ xs) (y ∷ ys) (z ∷ zs) p q = ground (arith, bytes_lt_trans xs ys zs)

pub same_inet_iff : (a b : InetAddress) → (same_inet a b ≡ true) ↔ (a ≡ b)
unfolding same_inet
same_inet_iff a b = (
  λ h. ground (arith, same_bytes_sound a.ip b.ip),
  λ e. ground (arith, same_bytes_refl a.ip, ap (λ (x : InetAddress). same_bytes a.ip x.ip) e),
)

-- Bytes as one number, the first byte highest, behind what was read before.
abbrev pub number_from : ℕ → Bytes → ℕ
number_from before [] = before
number_from before (x ∷ xs) = number_from (before * 256 + x) xs

-- A smaller start stays smaller.
number_from_lt :
    (m n : ℕ) (xs ys : Bytes)
    → m < n
    → length xs ≡ length ys
    → IsBytes xs
    → number_from m xs < number_from n ys
number_from_lt m n [] [] less size h = less
number_from_lt m n [] (y ∷ ys) less size h = absurd (omega (arith, size))
number_from_lt m n (x ∷ xs) [] less size h = absurd (omega (arith, size))
number_from_lt m n (x ∷ xs) (y ∷ ys) less size h =
    number_from_lt (m * 256 + x) (n * 256 + y) xs ys (omega (arith, less, h.0))
      (omega (arith, size)) h.1

bytes_lt-number :
    (before : ℕ) (xs ys : Bytes)
    → length xs ≡ length ys
    → IsBytes xs
    → IsBytes ys
    → bytes_lt xs ys ≡ ltb (number_from before xs) (number_from before ys)
unfolding bytes_lt
bytes_lt-number before [] [] size hx hy = ground arith
bytes_lt-number before [] (y ∷ ys) size hx hy = absurd (omega (arith, size))
bytes_lt-number before (x ∷ xs) [] size hx hy = absurd (omega (arith, size))
bytes_lt-number before (x ∷ xs) (y ∷ ys) size hx hy =
    by_first (number_from_lt (before * 256 + x) (before * 256 + y) xs ys)
      (number_from_lt (before * 256 + y) (before * 256 + x) ys xs)
      (bytes_lt-number (before * 256 + x) xs ys (omega (arith, size)) hx.1 hy.1)
  where
    m : ℕ
    m = number_from (before * 256 + x) xs

    n : ℕ
    n = number_from (before * 256 + y) ys

    by_first :
        (before * 256 + x < before * 256 + y → length xs ≡ length ys → IsBytes xs → m < n)
        → (before * 256 + y < before * 256 + x → length ys ≡ length xs → IsBytes ys → n < m)
        → bytes_lt xs ys ≡ ltb m (number_from (before * 256 + x) ys)
        → (if ltb x y then true else if ltb y x then false else bytes_lt xs ys) ≡ ltb m n
    by_first less more rest = elim (Bool-cases (ltb x y)) [
      | inl e ↦
          let lt = less (ground (arith, e)) (omega (arith, size)) hx.1 in rw e (ground (arith, lt))
      | inr e ↦ elim (Bool-cases (ltb y x)) [
        | inl f ↦
            let lt = more (ground (arith, f)) (omega (arith, size)) hy.1 in
            rw (e, f) (ground (arith, lt))
        | inr f ↦
            let same : x ≡ y = ground (arith, e, f) in
            rw (e, f) (rest ∙ ap (λ z. ltb m (number_from (before * 256 + z) ys)) same)
      ]
    ]

-- An address with its port as one number.
abbrev pub number : InetAddress → ℕ
number a = number_from 0 a.ip * 2 ^ 16 + a.port

-- For addresses of bytes, of one length, and ports below 2^16, the order of addresses with their ports is
-- that of the numbers which the bytes of the address, the first highest, and then the port are.
pub inet_lt-number :
    (a b : InetAddress)
    → length a.ip ≡ length b.ip
    → IsBytes a.ip
    → IsBytes b.ip
    → a.port < 2 ^ 16
    → b.port < 2 ^ 16
    → inet_lt a b ≡ ltb (number a) (number b)
unfolding inet_lt
inet_lt-number a b size ha hb pa pb = ground (
  arith,
  bytes_lt-number 0 a.ip b.ip size ha hb,
  bytes_lt-number 0 b.ip a.ip (sym size) hb ha,
  pa,
  pb,
)
