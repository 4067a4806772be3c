-- ===== src/ConfigManager/Whitelist.antt =====
-- The whitelist of config_manager.cpp: a set of at most eight addresses, and what it allows.
use husarnet.Common.{
  ◌≤◌, ◌≡◌, refl, false, true, List, [], ◌∷◌, arith, same_bytes, same_bytes_sound, same_bytes_refl,
  ap, length,
}
use husarnet.IpAddress.{IpAddress}
use husarnet.ConfigManager.{
  ConfigManager, contains, erase, insert, user_whitelist_add, user_whitelist_rm, is_peer_allowed,
  user_whitelist_size_limit,
}

-- No address stands twice.
abbrev pub IsSetList : List IpAddress → Type 0
IsSetList [] = Unit {0}
IsSetList (x ∷ xs) = (contains xs x ≡ false) × IsSetList xs

-- A set within the limit.
abbrev pub WhitelistOk : ConfigManager → Type 0
WhitelistOk c = IsSetList c.user_whitelist × (length c.user_whitelist ≤ user_whitelist_size_limit)

same_bytes_sym : (a b : IpAddress) → same_bytes a b ≡ same_bytes b a
same_bytes_sym a b = ground (
  arith,
  same_bytes_sound a b,
  same_bytes_sound b a,
  same_bytes_refl a,
  ap (same_bytes a) {x = a} {y = b},
)

contains-erase :
    (xs : List IpAddress) (a b : IpAddress)
    → contains xs b ≡ false
    → contains (erase xs a) b ≡ false
unfolding contains erase
contains-erase [] a b h = h
contains-erase (x ∷ xs) a b h = ground (arith, contains-erase xs a b)

erase-IsSetList : (xs : List IpAddress) (a : IpAddress) → IsSetList xs → IsSetList (erase xs a)
unfolding erase
erase-IsSetList [] a h = h
erase-IsSetList (x ∷ xs) a h =
    ground (arith, erase-IsSetList xs a h.1, contains-erase xs a x h.0, h.0, h.1)

length-erase-le : (xs : List IpAddress) (a : IpAddress) → length (erase xs a) ≤ length xs
unfolding erase
length-erase-le [] a = omega arith
length-erase-le (x ∷ xs) a = ground (arith, length-erase-le xs a)

erased_is_gone :
    (xs : List IpAddress) (a : IpAddress) → IsSetList xs → contains (erase xs a) a ≡ false
unfolding contains erase
erased_is_gone [] a h = refl
erased_is_gone (x ∷ xs) a h =
    ground
      (arith, erased_is_gone xs a h.1, h.0, same_bytes_sound x a, ap (contains xs) {x = x} {y = a})

-- Whatever address is added to a whitelist or taken from it, it stays a set of at most eight.
pub user_whitelist-WhitelistOk :
    (c : ConfigManager) (a : IpAddress)
    → WhitelistOk c
    → WhitelistOk (user_whitelist_add c a).0 × WhitelistOk (user_whitelist_rm c a).0
unfolding user_whitelist_add user_whitelist_rm insert
user_whitelist-WhitelistOk c a v =
    ground
      (arith, v.0, v.1, erase-IsSetList c.user_whitelist a v.0, length-erase-le c.user_whitelist a)

-- A peer whose address was added to the whitelist is allowed.
pub is_peer_allowed-user_whitelist_add :
    (c : ConfigManager) (a : IpAddress)
    → (user_whitelist_add c a).1 ≡ true
    → is_peer_allowed (user_whitelist_add c a).0 a ≡ true
unfolding user_whitelist_add insert is_peer_allowed contains
is_peer_allowed-user_whitelist_add c a h = ground (arith, same_bytes_refl a)

-- A peer whose address was taken off a whitelist that is a set of at most eight is allowed exactly if
-- it is allowed with an empty whitelist.
pub is_peer_allowed-user_whitelist_rm :
    (c : ConfigManager) (a : IpAddress)
    → WhitelistOk c
    → (user_whitelist_rm c a).1 ≡ true
    → is_peer_allowed (user_whitelist_rm c a).0 a
      ≡ is_peer_allowed (record c { user_whitelist = [] }) a
unfolding user_whitelist_rm is_peer_allowed contains
is_peer_allowed-user_whitelist_rm c a v h = ground (arith, erased_is_gone c.user_whitelist a v.0)
