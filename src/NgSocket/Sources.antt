-- ===== src/NgSocket/Sources.antt =====
-- The source addresses: each peer keeps at most five addresses that greetings came from, and
-- `peer_source_addresses` leads from an address back to its peer.
pub mod Invariant
use husarnet.Common.{
  ℕ, ◌+◌, ◌%◌, Bool, true, false, Option, none, some, List, [], ◌∷◌, leb, if◌then◌else◌, length,
  get_or,
}
use husarnet.IpAddress.{InetAddress, no_inet_address}
use husarnet.NgSocket.Addresses.{contains_inet, erase_inet, lookup, store, remove}
use husarnet.NgSocket.State.{NgSocket, Env, peer_of, set_peer, max_source_addresses}

unfoldable pub remove_source_address : ℕ → InetAddress → NgSocket → NgSocket
remove_source_address p a s =
    let peer = peer_of s p in
    let dropped =
      set_peer s p (record peer { source_addresses = erase_inet peer.source_addresses a }) in
    record dropped { peer_source_addresses = remove s.peer_source_addresses a }

-- `addresses[rand() % addresses.size()]`
abbrev pub victim : Env → ℕ → NgSocket → InetAddress
victim env p s =
    let addresses = (peer_of s p).source_addresses in
    get_or addresses (env.rand s.container.draws % length addresses) no_inet_address

abbrev pub drawn : NgSocket → NgSocket
drawn s = record s { container = record s.container { draws = s.container.draws + 1 } }

-- Room for one more: at the limit a random address is dropped.
unfoldable pub make_room : Env → ℕ → NgSocket → NgSocket
make_room env p s =
    if leb max_source_addresses (length (peer_of s p).source_addresses)
    then remove_source_address p (victim env p s) (drawn s)
    else s

-- `peer->sourceAddresses.insert(source)`
unfoldable pub insert_source : ℕ → InetAddress → NgSocket → NgSocket
insert_source p a s =
    let peer = peer_of s p in
    set_peer s p (record peer { source_addresses = a ∷ peer.source_addresses })

-- The last peer under that address loses it.
unfoldable pub release_source : InetAddress → NgSocket → NgSocket
release_source a s = elim (lookup s.peer_source_addresses a) [
  | none ↦ s
  | some last ↦
      let peer = peer_of s last in
      set_peer s last (record peer { source_addresses = erase_inet peer.source_addresses a })
]

-- `peerSourceAddresses[source] = peer`
unfoldable pub claim_source : ℕ → InetAddress → NgSocket → NgSocket
claim_source p a s = record s { peer_source_addresses = store s.peer_source_addresses a p }

unfoldable pub add_source_address : Env → ℕ → InetAddress → NgSocket → NgSocket
add_source_address env p a s =
    if contains_inet (peer_of s p).source_addresses a
    then s
    else claim_source p a (release_source a (insert_source p a (make_room env p s)))

unfoldable pub find_peer_by_source_address : NgSocket → InetAddress → Option ℕ
find_peer_by_source_address s a = lookup s.peer_source_addresses a
