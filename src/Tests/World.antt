-- ===== src/Tests/World.antt =====
-- A small world for the tests: cryptography that signs with ones and boxes without hiding, two
-- devices, and a socket that knows one peer.
use husarnet.Common.{
  ℕ, zero, suc, ◌<◌, IsBytes, byte_at, ◌+◌, ◌-◌, ◌≡◌, refl, true, some, [], ◌∷◌, ◌++◌, Bytes,
  length, take, replicate, arith, length-append, length-replicate, take-append, ap,
}
use husarnet.IpAddress.{IpAddress, InetAddress}
use husarnet.ConfigManager.{ConfigManager}
use husarnet.Crypto.{Sodium, SigningLaws, BoxLaws, Identity}
use husarnet.Peer.{Peer, new_peer}
use husarnet.PeerContainer.{PeerContainer, new_container}
use husarnet.NgSocket.State.{NgSocket, Env, new_socket}
use husarnet.SecurityLayer.{SecurityLayer}

abbrev pub sodium : Sodium
sodium = record {
  hash_sha256 = λ m. 0 ∷ 1 ∷ 0 ∷ (replicate 14 (byte_at m 0 + 1) ++ replicate 15 0);
  sign_detached = λ m k. replicate 64 1;
  verify_detached = λ s m k. true;
  kx_keypair = λ n. (replicate 32 2, replicate 32 3);
  kx_client_session_keys = λ p k q. some (replicate 32 4, replicate 32 5);
  kx_server_session_keys = λ p k q. some (replicate 32 5, replicate 32 4);
  secretbox_easy = λ m n k. m ++ replicate 16 0;
  secretbox_open_easy = λ c n k. some (take (length c - 16) c);
  random_bytes = λ draw size. replicate size 9;
  random_letter = λ draw. 97;
}

box_opens : (m : Bytes) → take (length (m ++ replicate 16 0) - 16) (m ++ replicate 16 0) ≡ m
box_opens m = take-append (length (m ++ replicate 16 0) - 16) m (replicate 16 0) size
  where
    size : length m ≡ length (m ++ replicate 16 0) - 16
    size = omega (arith, length-append m (replicate 16 0))

pub sodium-BoxLaws : BoxLaws sodium
sodium-BoxLaws = record {
  opens = λ m n k. ap some (box_opens m);
  box_size = λ m n k. length-append m (replicate 16 0);
  random_size = λ draw size. length-replicate size 9;
}

pub sodium-SigningLaws : (pubkey privkey : Bytes) → SigningLaws sodium pubkey privkey
sodium-SigningLaws pubkey privkey = record { verifies = λ m. refl; signature_size = λ m. refl }

abbrev pub my_id : IpAddress
my_id = 0xfc ∷ 0x94 ∷ replicate 14 7

abbrev pub other_id : IpAddress
other_id = 0xfc ∷ 0x94 ∷ replicate 14 8

abbrev pub me : Identity
me = record { pubkey = replicate 32 6; privkey = replicate 64 6; device_id = my_id }

abbrev pub config : ConfigManager
config = record {
  allow_everyone = true;
  allowed_peers = other_id ∷ [];
  user_whitelist = other_id ∷ [];
  api_addresses = [];
  eb_addresses = [];
  base_addresses = [];
  worker_queue_size = 4;
}

abbrev pub env : Env
env = record { user_agent = b'x' ∷ []; connects = λ n. true; rand = λ n. n }

abbrev pub peer_address : InetAddress
peer_address = record { ip = replicate 10 0 ++ (0xff ∷ 0xff ∷ 10 ∷ 0 ∷ 0 ∷ 9 ∷ []); port = 5582 }

abbrev pub empty_container : PeerContainer
empty_container = new_container config my_id

-- One peer, the one that was asked for last.
abbrev pub known_peer : IpAddress → Peer
known_peer id = record new_peer { id = id; negotiated = true }

abbrev pub container_with : IpAddress → IpAddress → PeerContainer
container_with own id = record (new_container config own) {
  heap = λ p. known_peer id;
  fresh = 1;
  peers = (id, 0) ∷ [];
  cached_peer = some 0;
  cached_peer_id = id;
}

abbrev pub socket : NgSocket
socket = new_socket (container_with my_id other_id) me 4 5582

abbrev pub layer_of : ℕ → IpAddress → IpAddress → SecurityLayer
layer_of key own id = record {
  identity = record { pubkey = replicate 32 key; privkey = replicate 64 key; device_id = own };
  flags = 1;
  container = container_with own id;
  helloseq = 0;
  queued_packets = 0;
  sent = [];
}

pub replicate-IsBytes : (n c : ℕ) → c < 256 → IsBytes (replicate n c)
replicate-IsBytes zero c h = tt
replicate-IsBytes (suc n) c h = (h, replicate-IsBytes n c h)
