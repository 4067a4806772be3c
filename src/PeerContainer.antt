-- ===== src/PeerContainer.antt =====
-- core/husarnet/peer_container.h and peer_container.cpp. A `Peer*` is the number of a cell of
-- `heap`; `fresh` is the next unused one. `draws` counts the random values taken so far.
pub mod Invariant
use husarnet.Common.{
  ℕ, ◌+◌, not, Option, none, some, List, [], ◌∷◌, ◌==◌, if◌then◌else◌, same_bytes,
}
use husarnet.IpAddress.{IpAddress, no_address}
use husarnet.ConfigManager.{ConfigManager, is_peer_allowed}
use husarnet.Crypto.{Sodium, generate_random_string}
use husarnet.Peer.{Peer, new_peer}

pub record PeerContainer : Type 0 where
  pub config : ConfigManager
  pub own_id : IpAddress
  pub heap : ℕ → Peer
  pub fresh : ℕ
  pub peers : List (IpAddress × ℕ)
  pub cached_peer : Option ℕ
  pub cached_peer_id : IpAddress
  pub draws : ℕ

-- The constructor.
unfoldable pub new_container : ConfigManager → IpAddress → PeerContainer
new_container config own_id = record {
  config = config;
  own_id = own_id;
  heap = λ _. new_peer;
  fresh = 0;
  peers = [];
  cached_peer = none;
  cached_peer_id = no_address;
  draws = 0;
}

-- `peers.find(id)`
unfoldable pub find : List (IpAddress × ℕ) → IpAddress → Option ℕ
find [] id = none
find ((key, p) ∷ rest) id = if same_bytes key id then some p else find rest id

-- `peers[id] = peer`
unfoldable pub assign : List (IpAddress × ℕ) → IpAddress → ℕ → List (IpAddress × ℕ)
assign [] id p = (id, p) ∷ []
assign ((key, q) ∷ rest) id p =
    if same_bytes key id then (key, p) ∷ rest else (key, q) ∷ assign rest id p

-- A write through a pointer.
abbrev pub update : (ℕ → Peer) → ℕ → Peer → ℕ → Peer
update heap p v q = if p == q then v else heap q

-- `getPeer`: the container with its cache, and the pointer, `none` for `nullptr`.
unfoldable pub get_peer : PeerContainer → IpAddress → PeerContainer × Option ℕ
get_peer c id =
    if same_bytes c.cached_peer_id id
    then (c, c.cached_peer)
    else if same_bytes id c.own_id
    then (c, none)
    else if not (is_peer_allowed c.config id)
    then (c, none)
    else elim (find c.peers id) [
      | none ↦ (c, none)
      | some p ↦ (record c { cached_peer_id = id; cached_peer = some p }, some p)
    ]

module _ (so : Sodium) where
  -- `createPeer`: 8 random letters, then a key pair.
  unfoldable pub create_peer : PeerContainer → IpAddress → PeerContainer × Option ℕ
  create_peer c id =
      if not (is_peer_allowed c.config id)
      then (c, none)
      else let (public_key, private_key) = so.kx_keypair (c.draws + 8) in
        let peer : Peer = record new_peer {
          heartbeat_ident = generate_random_string so c.draws 8;
          id = id;
          kx_pubkey = public_key;
          kx_privkey = private_key;
        } in
        (
          record c {
            heap = update c.heap c.fresh peer;
            fresh = c.fresh + 1;
            peers = assign c.peers id c.fresh;
            draws = c.draws + 9;
          },
          some c.fresh,
        )

  unfoldable pub get_or_create_peer : PeerContainer → IpAddress → PeerContainer × Option ℕ
  get_or_create_peer c id =
      let (found, peer) = get_peer c id in
      elim peer [ none ↦ create_peer found id | some p ↦ (found, some p) ]
