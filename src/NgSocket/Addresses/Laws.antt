-- ===== src/NgSocket/Addresses/Laws.antt =====
-- The set and the map of addresses obey the laws of sets and maps.
use husarnet.Common.{
  ℕ, zero, suc, ◌≤◌, ◌<◌, ◌≡◌, refl, ap, true, false, none, some, List, [], ◌∷◌, arith, length,
  get_or, if◌then◌else◌,
}
use husarnet.IpAddress.{InetAddress, same_inet}
use husarnet.IpAddress.Order.{same_inet_iff}
use husarnet.NgSocket.Addresses.{contains_inet, erase_inet, lookup, store, remove}

pub same_inet_refl : (a : InetAddress) → same_inet a a ≡ true
same_inet_refl a = (same_inet_iff a a).1 refl

-- Two equal keys compare alike with a third.
pub same_inet_eq : (a b c : InetAddress) → same_inet a b ≡ true → same_inet a c ≡ same_inet b c
same_inet_eq a b c h = ap (λ x. same_inet x c) ((same_inet_iff a b).0 h)

pub same_inet_eq_right :
    (x a b : InetAddress) → same_inet a b ≡ true → same_inet x a ≡ same_inet x b
same_inet_eq_right x a b h = ap (same_inet x) ((same_inet_iff a b).0 h)

pub contains-erase :
    (xs : List InetAddress) (a b : InetAddress)
    → contains_inet (erase_inet xs a) b ≡ (if same_inet a b then false else contains_inet xs b)
unfolding contains_inet erase_inet
contains-erase [] a b = ground arith
contains-erase (x ∷ xs) a b =
    ground (arith, contains-erase xs a b, same_inet_eq_right x a b, same_inet_eq x a b)

pub length-erase-le :
    (xs : List InetAddress) (a : InetAddress) → length (erase_inet xs a) ≤ length xs
unfolding erase_inet
length-erase-le [] a = omega arith
length-erase-le (x ∷ xs) a = ground (arith, length-erase-le xs a)

pub length-erase-lt :
    (xs : List InetAddress) (a : InetAddress)
    → contains_inet xs a ≡ true
    → length (erase_inet xs a) < length xs
unfolding contains_inet erase_inet
length-erase-lt [] a h = cc
length-erase-lt (x ∷ xs) a h = ground (arith, length-erase-lt xs a, length-erase-le xs a)

pub contains-get_or :
    (xs : List InetAddress) (i : ℕ) (d : InetAddress)
    → i < length xs
    → contains_inet xs (get_or xs i d) ≡ true
unfolding contains_inet
contains-get_or [] i d h = absurd (omega arith)
contains-get_or (x ∷ xs) zero d h = ground (arith, same_inet_refl x)
contains-get_or (x ∷ xs) (suc i) d h = ground (arith, contains-get_or xs i d)

pub lookup-store :
    (m : List (InetAddress × ℕ)) (a b : InetAddress) (p : ℕ)
    → lookup (store m a p) b ≡ (if same_inet a b then some p else lookup m b)
unfolding lookup store
lookup-store [] a b p = refl
lookup-store ((key, q) ∷ rest) a b p =
    ground (arith, lookup-store rest a b p, same_inet_eq_right key a b, same_inet_eq key a b)

pub lookup-remove :
    (m : List (InetAddress × ℕ)) (a b : InetAddress)
    → lookup (remove m a) b ≡ (if same_inet a b then none else lookup m b)
unfolding lookup remove
lookup-remove [] a b = ground arith
lookup-remove ((key, q) ∷ rest) a b =
    ground (arith, lookup-remove rest a b, same_inet_eq_right key a b, same_inet_eq key a b)
