-- ===== src/NgSocket/State.antt =====
-- The fields of `NgSocket`, what it hands to the outside, and its three ways to send.
use husarnet.Common.{
  ℕ, ◌+◌, ◌*◌, Bool, true, false, Option, none, some, List, [], ◌∷◌, Bytes, ◌==◌, if◌then◌else◌,
  length, ltb,
}
use husarnet.IpAddress.{IpAddress, InetAddress, no_inet_address}
use husarnet.Crypto.{Sodium, Identity}
use husarnet.Peer.{Peer}
use husarnet.PeerContainer.{PeerContainer, update}
use husarnet.NgSocket.Messages.{
  PeerToPeerMessage, PeerToBaseMessage, PeerToBaseMessageKind, serialize_peer_to_peer_message,
  serialize_peer_to_base_message,
}

abbrev pub refresh_timeout : ℕ
refresh_timeout = 25 * 1000

abbrev pub nat_init_timeout : ℕ
nat_init_timeout = 3 * 1000

abbrev pub tcp_pong_timeout : ℕ
tcp_pong_timeout = 35 * 1000

abbrev pub udp_base_timeout : ℕ
udp_base_timeout = 35 * 1000

abbrev pub reestablish_timeout : ℕ
reestablish_timeout = 3 * 1000

abbrev pub renegotiation_timeout : ℕ
renegotiation_timeout = 120 * 1000

abbrev pub max_failed_establishments : ℕ
max_failed_establishments = 5

abbrev pub max_source_addresses : ℕ
max_source_addresses = 5

abbrev pub baseserver_port : ℕ
baseserver_port = 443

-- What leaves the layer. `aborted` is an `abort()`, a failed assertion or a division by zero.
pub data Output : Type 0 where
  udp_send : InetAddress → Bytes → Output
  udp_send_multicast : Bytes → Output
  tcp_connect : InetAddress → Output
  tcp_close : Output
  tcp_write : Bytes → Output
  to_upper_layer : IpAddress → Bytes → Output
  aborted : Output

-- What waits for the worker thread: a refresh, or a greeting with its source.
pub data Job : Type 0 where
  refresh_job : Job
  greeting_job : InetAddress → Bytes → Job

-- What the operating system and the build decide: the user agent, whether the n-th attempt to
-- connect succeeds, and `rand()` by the number of the draw.
pub record Env : Type 0 where
  pub user_agent : Bytes
  pub connects : ℕ → Bool
  pub rand : ℕ → ℕ

-- The newest output stands first in `outputs`. A connection is numbered by its attempt.
pub record NgSocket : Type 0 where
  pub container : PeerContainer
  pub identity : Identity
  pub worker_queue_size : ℕ
  pub peer_source_addresses : List (InetAddress × ℕ)
  pub local_addresses : List InetAddress
  pub last_refresh : ℕ
  pub last_periodic : ℕ
  pub nat_init_counter : ℕ
  pub cookie : Bytes
  pub last_base_tcp_message : ℕ
  pub last_base_tcp_action : ℕ
  pub base_connect_retries : ℕ
  pub base_address : InetAddress
  pub base_transient_port : ℕ
  pub base_transient_range : ℕ × ℕ
  pub last_nat_init_confirmation : ℕ
  pub last_nat_init_sent : ℕ
  pub nat_init_confirmed : Bool
  pub source_port : ℕ
  pub base_udp_address : InetAddress
  pub all_base_udp_addresses : List InetAddress
  pub base_connection : Option ℕ
  pub connection_attempts : ℕ
  pub worker_queue : List Job
  pub outputs : List Output

-- The fields at start, before `init` takes a port.
abbrev pub new_socket : PeerContainer → Identity → ℕ → ℕ → NgSocket
new_socket container identity queue_size port = record {
  container = container;
  identity = identity;
  worker_queue_size = queue_size;
  peer_source_addresses = [];
  local_addresses = [];
  last_refresh = 0;
  last_periodic = 0;
  nat_init_counter = 0;
  cookie = [];
  last_base_tcp_message = 0;
  last_base_tcp_action = 0;
  base_connect_retries = 0;
  base_address = no_inet_address;
  base_transient_port = 0;
  base_transient_range = (0, 0);
  last_nat_init_confirmation = 0;
  last_nat_init_sent = 0;
  nat_init_confirmed = true;
  source_port = port;
  base_udp_address = no_inet_address;
  all_base_udp_addresses = [];
  base_connection = none;
  connection_attempts = 0;
  worker_queue = [];
  outputs = [];
}

abbrev pub emit : Output → NgSocket → NgSocket
emit o s = record s { outputs = o ∷ s.outputs }

-- Reads and writes through a `Peer*`.
abbrev pub peer_of : NgSocket → ℕ → Peer
peer_of s p = s.container.heap p

abbrev pub set_peer : NgSocket → ℕ → Peer → NgSocket
set_peer s p peer = record s {
  container = record s.container { heap = update s.container.heap p peer };
}

abbrev pub with_container : NgSocket → PeerContainer → NgSocket
with_container s c = record s { container = c }

-- `isBaseUdp`
unfoldable pub is_base_udp : ℕ → NgSocket → Bool
is_base_udp now s = ltb now (s.last_nat_init_confirmation + udp_base_timeout)

-- `!baseConnection || cookie.size() == 0`
unfoldable pub base_unreachable : NgSocket → Bool
base_unreachable s = elim s.base_connection [ none ↦ true | some c ↦ length s.cookie == 0 ]

-- The messages that go to all addresses of the base server.
unfoldable pub goes_to_all : PeerToBaseMessageKind → Bool
goes_to_all PeerToBaseMessageKind.nat_init = true
goes_to_all PeerToBaseMessageKind.nat_ok_confirm = true
goes_to_all PeerToBaseMessageKind.nat_init_transient = true
goes_to_all _ = false

unfoldable pub is_transient : PeerToBaseMessageKind → Bool
is_transient PeerToBaseMessageKind.nat_init_transient = true
is_transient _ = false

-- The loop over the addresses. For the transient message it only sets the port of a copy.
unfoldable pub send_to_all : Bool → Bytes → List InetAddress → NgSocket → NgSocket
send_to_all transient bytes [] s = s
send_to_all transient bytes (a ∷ rest) s =
    send_to_all transient bytes rest (if transient then s else emit (udp_send a bytes) s)

module _ (so : Sodium) where
  abbrev pub serialized : NgSocket → PeerToBaseMessage → Option Bytes
  serialized s msg =
      serialize_peer_to_base_message so s.identity s.cookie s.local_addresses s.nat_init_counter msg

  unfoldable pub send_to_base_udp : PeerToBaseMessage → NgSocket → NgSocket
  unfolding base_unreachable goes_to_all is_transient send_to_all
  send_to_base_udp msg s = if base_unreachable s then s else elim (serialized s msg) [
    | none ↦ emit aborted s
    | some bytes ↦
        if goes_to_all msg.kind
        then send_to_all (is_transient msg.kind) bytes s.all_base_udp_addresses s
        else emit (udp_send s.base_udp_address bytes) s
  ]

  unfoldable pub send_to_base_tcp : PeerToBaseMessage → NgSocket → NgSocket
  unfolding base_unreachable
  send_to_base_tcp msg s =
      if base_unreachable s
      then s
      else elim (serialized s msg) [ none ↦ emit aborted s | some bytes ↦ emit (tcp_write bytes) s ]

  unfoldable pub send_to_peer : InetAddress → PeerToPeerMessage → NgSocket → NgSocket
  send_to_peer dest msg s = elim (serialize_peer_to_peer_message so s.identity msg) [
    | none ↦ emit aborted s
    | some bytes ↦ emit (udp_send dest bytes) s
  ]
