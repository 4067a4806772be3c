-- ===== src/NgSocket/Addresses.antt =====
-- Lists of addresses with ports: std::sort, std::unique and the set of source addresses.
pub mod Laws
use husarnet.Common.{ℕ, Bool, true, false, ◌||◌, List, [], ◌∷◌, if◌then◌else◌, Option, none, some}
use husarnet.IpAddress.{InetAddress, inet_lt, same_inet}

unfoldable pub contains_inet : List InetAddress → InetAddress → Bool
contains_inet [] a = false
contains_inet (x ∷ xs) a = same_inet x a || contains_inet xs a

unfoldable pub erase_inet : List InetAddress → InetAddress → List InetAddress
erase_inet [] a = []
erase_inet (x ∷ xs) a = if same_inet x a then erase_inet xs a else x ∷ erase_inet xs a

-- `std::sort` with `operator<`.
unfoldable pub insert_sorted : InetAddress → List InetAddress → List InetAddress
insert_sorted a [] = a ∷ []
insert_sorted a (x ∷ xs) = if inet_lt a x then a ∷ x ∷ xs else x ∷ insert_sorted a xs

unfoldable pub sort : List InetAddress → List InetAddress
unfolding insert_sorted
sort [] = []
sort (x ∷ xs) = insert_sorted x (sort xs)

-- `std::unique` behind a kept element.
unfoldable pub unique_from : InetAddress → List InetAddress → List InetAddress
unique_from last [] = []
unique_from last (x ∷ xs) =
    let kept = x ∷ unique_from x xs in
    let dropped = unique_from last xs in if same_inet last x then dropped else kept

unfoldable pub unique : List InetAddress → List InetAddress
unfolding unique_from
unique [] = []
unique (x ∷ xs) = x ∷ unique_from x xs

unfoldable pub same_list : List InetAddress → List InetAddress → Bool
same_list [] [] = true
same_list [] (y ∷ ys) = false
same_list (x ∷ xs) [] = false
same_list (x ∷ xs) (y ∷ ys) = if same_inet x y then same_list xs ys else false

-- `std::unordered_map<InetAddress, Peer*>`.
unfoldable pub lookup : List (InetAddress × ℕ) → InetAddress → Option ℕ
lookup [] a = none
lookup ((key, p) ∷ rest) a = if same_inet key a then some p else lookup rest a

unfoldable pub store : List (InetAddress × ℕ) → InetAddress → ℕ → List (InetAddress × ℕ)
store [] a p = (a, p) ∷ []
store ((key, q) ∷ rest) a p = if same_inet key a then (key, p) ∷ rest else (key, q) ∷ store rest a p

unfoldable pub remove : List (InetAddress × ℕ) → InetAddress → List (InetAddress × ℕ)
remove [] a = []
remove ((key, q) ∷ rest) a = if same_inet key a then remove rest a else (key, q) ∷ remove rest a
