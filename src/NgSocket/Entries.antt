-- ===== src/NgSocket/Entries.antt =====
-- All ways into the layer, in any order: packets, the worker, the timer and the upper layer.
pub mod Pointers
pub mod Safe
use husarnet.Common.{ℕ, List, [], ◌∷◌, Bytes}
use husarnet.IpAddress.{IpAddress, InetAddress}
use husarnet.Crypto.{Sodium}
use husarnet.NgSocket.State.{NgSocket, Env}
use husarnet.NgSocket.Peers.{on_upper_layer_data}
use husarnet.NgSocket.Base.{connection_failed}
use husarnet.NgSocket.Worker.{
  periodic, worker_step, udp_packet_received, tcp_packet_received, multicast_packet_received,
}

pub data Entry : Type 0 where
  from_upper_layer : IpAddress → Bytes → Entry
  timer : List IpAddress → Entry
  worker : Entry
  udp_packet : InetAddress → Bytes → Entry
  tcp_packet : Bytes → Entry
  connection_lost : ℕ → Entry
  announcement : InetAddress → Bytes → Entry

module _ (so : Sodium) (env : Env) where
  pub enter : ℕ → Entry → NgSocket → NgSocket
  enter now (from_upper_layer id packet) = on_upper_layer_data so now id packet
  enter now (timer system) = periodic so env now system
  enter now worker = worker_step so env now
  enter now (udp_packet source packet) = udp_packet_received so env now source packet
  enter now (tcp_packet packet) = tcp_packet_received so env now packet
  enter now (connection_lost c) = connection_failed now c
  enter now (announcement source packet) = multicast_packet_received so now source packet

  -- A history: the entries with their times.
  pub run : List (ℕ × Entry) → NgSocket → NgSocket
  run [] s = s
  run ((now, entry) ∷ rest) s = run rest (enter now entry s)
