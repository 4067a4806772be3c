-- ===== src/ConfigManager.antt =====
-- core/husarnet/config_manager.h and config_manager.cpp: which peers may be reached. The sets are
-- lists without repetition; the json documents, the files and the periodic thread are not here.
pub mod Whitelist
use husarnet.Common.{
  ℕ, ◌+◌, ◌≡◌, Bool, true, false, ◌||◌, not, List, [], ◌∷◌, leb, if◌then◌else◌, length, same_bytes,
  Option, none, some, get_or, Bytes, take, ◌>>=◌,
}
use husarnet.IpAddress.{IpAddress, InetAddress, no_address, is_fc94}

pub record ConfigManager : Type 0 where
  pub allow_everyone : Bool
  pub allowed_peers : List IpAddress
  pub user_whitelist : List IpAddress
  pub api_addresses : List IpAddress
  pub eb_addresses : List IpAddress
  pub base_addresses : List IpAddress
  pub worker_queue_size : ℕ

-- `USER_WHITELIST_SIZE_LIMIT`
abbrev pub user_whitelist_size_limit : ℕ
user_whitelist_size_limit = 8

unfoldable pub contains : List IpAddress → IpAddress → Bool
contains [] a = false
contains (x ∷ xs) a = same_bytes x a || contains xs a

unfoldable pub erase : List IpAddress → IpAddress → List IpAddress
erase [] a = []
erase (x ∷ xs) a = if same_bytes x a then xs else x ∷ erase xs a

unfoldable pub insert : List IpAddress → IpAddress → List IpAddress
unfolding contains
insert xs a = if contains xs a then xs else a ∷ xs

unfoldable pub is_peer_allowed : ConfigManager → IpAddress → Bool
is_peer_allowed c a =
    if c.allow_everyone
    then true
    else if contains c.api_addresses a
    then true
    else if contains c.eb_addresses a
    then true
    else if contains c.user_whitelist a
    then true
    else contains c.allowed_peers a

unfoldable pub get_api_address : ConfigManager → IpAddress
get_api_address c = get_or c.api_addresses 0 no_address

unfoldable pub get_eb_address : ConfigManager → IpAddress
get_eb_address c = get_or c.eb_addresses 0 no_address

-- All allowed peers, whatever the multicast address.
unfoldable pub get_multicast_destinations : ConfigManager → IpAddress → List IpAddress
get_multicast_destinations c id = c.allowed_peers

-- The new state and the result. The write of the file, whose result is only logged, is not here.
unfoldable pub user_whitelist_add : ConfigManager → IpAddress → ConfigManager × Bool
user_whitelist_add c a =
    if contains c.user_whitelist a
    then (c, false)
    else if leb user_whitelist_size_limit (length c.user_whitelist)
    then (c, false)
    else (record c { user_whitelist = insert c.user_whitelist a }, true)

unfoldable pub user_whitelist_rm : ConfigManager → IpAddress → ConfigManager × Bool
user_whitelist_rm c a =
    if contains c.user_whitelist a
    then (record c { user_whitelist = erase c.user_whitelist a }, true)
    else (c, false)

-- `updateUserConfigData`: the entries of the stored whitelist, parsed. Those outside fc94::/16 are
-- left out; the set is emptied first. `none` is
-- etl's error of an insertion into a full set, which is not guarded here.
unfoldable pub load_whitelist : List IpAddress → List IpAddress → Option (List IpAddress)
unfolding insert
load_whitelist set [] = some set
load_whitelist set (a ∷ entries) =
    let skipped = load_whitelist set entries in
    let added = load_whitelist (insert set a) entries in
    if not (is_fc94 a)
    then skipped
    else if leb user_whitelist_size_limit (length set)
    then none
    else added

unfoldable pub update_user_config : ConfigManager → List IpAddress → Option ConfigManager
unfolding load_whitelist
update_user_config c entries =
    load_whitelist [] entries >>= λ set. some (record c { user_whitelist = set })
