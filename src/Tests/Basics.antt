-- ===== src/Tests/Basics.antt =====
-- Tests of the helpers, the addresses and the peers.
use husarnet.Common.{
  ℕ, ◌+◌, ◌≤◌, ◌≡◌, ◌≢◌, ◌⊎◌, refl, true, false, Option, some, [], ◌∷◌, Bytes, length, arith,
  same_bytes, All, ltb, ◌<◌,
}
use husarnet.IpAddress.{InetAddress, inet_lt, no_address}
use husarnet.IpAddress.Order.{inet_lt-number, number}
use husarnet.Util.Pack.{pack, unpack, unpack-pack}
use husarnet.Util.Text.{
  encode_hex, decode_hex, split, split_loop, trim, ltrim, rtrim, is_space, base64_decode,
  base64_loop, charmap, hex_letter,
}
use husarnet.Util.Text.Laws.{decode_hex-encode_hex, join, join-split, AllButLast, Without}
use husarnet.ConfigManager.{
  ConfigManager, contains, user_whitelist_add, user_whitelist_rm, is_peer_allowed,
}
use husarnet.ConfigManager.Whitelist.{
  WhitelistOk, user_whitelist-WhitelistOk, is_peer_allowed-user_whitelist_add,
  is_peer_allowed-user_whitelist_rm,
}
use husarnet.PeerContainer.{new_container, find, create_peer, get_peer, get_or_create_peer}
use husarnet.PeerContainer.Invariant.{
  ContainerOk, Found, get_or_create_peer-Found, get_or_create_peer_stable, get_or_create_peer_self,
  get_peer_allowed, get_peer_stale,
}
use husarnet.Tests.World.{
  replicate-IsBytes, sodium, config, my_id, other_id, empty_container, container_with,
}

-- An IPv4 packet's length field.
unpack-pack_example : unpack 2 (pack 2 1000) ≡ some 1000
unpack-pack_example = unpack-pack 2 1000 (omega arith)

decode_hex-encode_hex_example : decode_hex (encode_hex (0 ∷ 171 ∷ 255 ∷ [])) ≡ 0 ∷ 171 ∷ 255 ∷ []
decode_hex-encode_hex_example =
    decode_hex-encode_hex (0 ∷ 171 ∷ 255 ∷ []) (omega arith, (omega arith, (omega arith, tt)))

encoded : encode_hex (171 ∷ []) ≡ b'a' ∷ b'b' ∷ []
unfolding encode_hex hex_letter
encoded = refl

abbrev words : Bytes
words = b'a' ∷ b'=' ∷ b'b' ∷ b'=' ∷ b'c' ∷ []

join-split_example :
    (join 61 (split words 61 1) ≡ words)
    × ((length (split words 61 1) ≤ 1 + 1)
        × (AllButLast (Without 61) (split words 61 1)
            × (length (split words 61 1) < 1 + 1 → All (Without 61) (split words 61 1))))
join-split_example = join-split words 61 1

split_once : split words 61 1 ≡ (b'a' ∷ []) ∷ (b'b' ∷ b'=' ∷ b'c' ∷ []) ∷ []
unfolding split split_loop
split_once = refl

trimmed : trim (32 ∷ 9 ∷ b'a' ∷ 32 ∷ b'b' ∷ 10 ∷ []) ≡ b'a' ∷ 32 ∷ b'b' ∷ []
unfolding trim ltrim rtrim is_space
trimmed = refl

-- "aGk=" is "hi".
decoded : base64_decode (b'a' ∷ b'G' ∷ b'k' ∷ b'=' ∷ []) ≡ b'h' ∷ b'i' ∷ []
unfolding base64_decode base64_loop charmap
decoded = refl

abbrev low : InetAddress
low = record { ip = no_address; port = 1 }

abbrev high : InetAddress
high = record { ip = other_id; port = 0 }

inet_lt-number_example : inet_lt low high ≡ ltb (number low) (number high)
inet_lt-number_example =
    inet_lt-number low high refl (omega arith, (omega arith, replicate-IsBytes 14 0 (omega arith)))
      (omega arith, (omega arith, replicate-IsBytes 14 8 (omega arith))) (omega arith) (omega arith)

config-WhitelistOk : WhitelistOk config
unfolding contains
config-WhitelistOk = ((refl, tt), omega arith)

user_whitelist-WhitelistOk_example :
    WhitelistOk (user_whitelist_add config my_id).0 × WhitelistOk (user_whitelist_rm config my_id).0
user_whitelist-WhitelistOk_example = user_whitelist-WhitelistOk config my_id config-WhitelistOk

is_peer_allowed-user_whitelist_add_example :
    is_peer_allowed (user_whitelist_add config my_id).0 my_id ≡ true
unfolding user_whitelist_add contains same_bytes
is_peer_allowed-user_whitelist_add_example = is_peer_allowed-user_whitelist_add config my_id refl

is_peer_allowed-user_whitelist_rm_example :
    is_peer_allowed (user_whitelist_rm config other_id).0 other_id
    ≡ is_peer_allowed (record config { user_whitelist = [] }) other_id
unfolding user_whitelist_rm contains same_bytes
is_peer_allowed-user_whitelist_rm_example =
    is_peer_allowed-user_whitelist_rm config other_id config-WhitelistOk refl

empty-ContainerOk : ContainerOk empty_container
unfolding new_container find
empty-ContainerOk = record { entries = λ id p e. cc; cache = λ p e. cc }

get_or_create_peer-Found_example :
    Found empty_container other_id (get_or_create_peer sodium empty_container other_id)
get_or_create_peer-Found_example =
    get_or_create_peer-Found sodium empty_container other_id empty-ContainerOk

other_is_not_me : other_id ≢ my_id
other_is_not_me e = ground arith

none_is_not_me : no_address ≢ my_id
none_is_not_me e = ground arith

none_is_not_other : no_address ≢ other_id
none_is_not_other e = ground arith

get_or_create_peer_stable_example :
    (get_or_create_peer sodium (get_or_create_peer sodium empty_container other_id).0 other_id).1
    ≡ some 0
unfolding new_container get_or_create_peer get_peer create_peer find is_peer_allowed same_bytes
get_or_create_peer_stable_example =
    get_or_create_peer_stable sodium empty_container other_id 0 other_is_not_me
      (λ e. absurd (none_is_not_other e)) refl

get_or_create_peer_self_example :
    let again = get_or_create_peer sodium empty_container my_id in
    (again.1 ≡ some 0) × (again.0.fresh ≡ 0 + 1) × (again.0.cached_peer_id ≡ no_address)
unfolding new_container is_peer_allowed
get_or_create_peer_self_example = get_or_create_peer_self sodium empty_container none_is_not_me refl

get_peer_allowed_example :
    (is_peer_allowed config other_id ≡ true)
    ⊎ ((other_id ≡ other_id) × (◌≡◌ {A = Option ℕ} (some 0) (some 0)))
unfolding new_container get_peer same_bytes
get_peer_allowed_example = get_peer_allowed (container_with my_id other_id) other_id 0 refl

-- A configuration that allows no peer.
abbrev strict : ConfigManager
strict = record config { allow_everyone = false; user_whitelist = []; allowed_peers = [] }

get_peer_stale_example :
    (get_peer
      (record (get_peer (container_with my_id other_id) other_id).0 { config = strict })
      other_id).1
    ≡ some 0
unfolding new_container get_peer same_bytes is_peer_allowed contains
get_peer_stale_example = get_peer_stale (container_with my_id other_id) other_id 0 strict refl refl
