-- ===== src/Peer.antt =====
-- core/husarnet/peer.h and peer.cpp. Times are milliseconds of a clock that never goes back, and a
-- difference of times is compared by moving the subtrahend over.
use husarnet.Common.{
  ℕ, ◌+◌, ◌*◌, Bool, true, false, not, List, [], Bytes, ltb, if◌then◌else◌, replicate,
}
use husarnet.Common.Int.{ℤ, negsuc}
use husarnet.IpAddress.{IpAddress, InetAddress, no_address, no_inet_address, is_set}
use husarnet.PeerFlags.{default_flags}

abbrev pub teardown_timeout : ℕ
teardown_timeout = 120 * 1000

pub record Peer : Type 0 where
  pub id : IpAddress
  pub last_packet : ℕ
  pub last_reestablish : ℕ
  pub latency : ℤ
  pub connected : Bool
  pub reestablishing : Bool
  pub failed_establishments : ℕ
  pub target_address : InetAddress
  pub hello_cookie : Bytes
  pub target_addresses : List InetAddress
  pub link_local_address : InetAddress
  pub source_addresses : List InetAddress
  pub packet_queue : List Bytes
  pub negotiated : Bool
  pub kx_pubkey : Bytes
  pub kx_privkey : Bytes
  pub tx_key : Bytes
  pub rx_key : Bytes
  pub last_latency_received : ℕ
  pub last_latency_sent : ℕ
  pub last_valid_packet : ℕ
  pub heartbeat_ident : Bytes
  pub flags : ℕ

-- `new Peer`
abbrev pub new_peer : Peer
new_peer = record {
  id = no_address;
  last_packet = 0;
  last_reestablish = 0;
  latency = negsuc 0;
  connected = false;
  reestablishing = false;
  failed_establishments = 0;
  target_address = no_inet_address;
  hello_cookie = [];
  target_addresses = [];
  link_local_address = no_inet_address;
  source_addresses = [];
  packet_queue = [];
  negotiated = false;
  kx_pubkey = replicate 32 0;
  kx_privkey = replicate 32 0;
  tx_key = replicate 32 0;
  rx_key = replicate 32 0;
  last_latency_received = 0;
  last_latency_sent = 0;
  last_valid_packet = 0;
  heartbeat_ident = replicate 8 0;
  flags = default_flags;
}

unfoldable pub is_active : ℕ → Peer → Bool
is_active now p = ltb now (p.last_packet + teardown_timeout)

unfoldable pub is_tunelled : Peer → Bool
is_tunelled p =
    if not (is_set p.target_address) then true else if not p.connected then true else false
