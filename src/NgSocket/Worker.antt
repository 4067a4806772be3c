-- ===== src/NgSocket/Worker.antt =====
-- The entry points of ngsocket.cpp: the periodic work, the worker thread, and received packets.
use husarnet.Common.{
  ℕ, ◌+◌, ◌%◌, ◌^◌, Bool, false, not, ◌&&◌, ◌||◌, none, some, List, [], ◌∷◌, ◌++◌, Bytes, ◌==◌, ltb,
  leb, if◌then◌else◌, length, same_bytes, take, substr,
}
use husarnet.IpAddress.{IpAddress, InetAddress, is_fc94, is_link_local, is_private_v4, same_inet}
use husarnet.Crypto.{Sodium}
use husarnet.PeerContainer.{get_peer}
use husarnet.Util.Pack.{from_bytes}
use husarnet.NgSocket.Addresses.{sort, same_list}
use husarnet.NgSocket.Parse.{parse_base_to_peer_message, parse_peer_to_peer_message}
use husarnet.NgSocket.State.{
  NgSocket, Env, refresh_job, greeting_job, aborted, emit, peer_of, set_peer, with_container,
  is_base_udp, refresh_timeout, nat_init_timeout, tcp_pong_timeout, udp_base_timeout,
}
use husarnet.NgSocket.Peers.{attempt_reestablish, peer_message_received, periodic_peer}
use husarnet.NgSocket.Base.{
  request_refresh, send_nat_init_to_base, send_local_addresses_to_base, connect_to_base,
  base_message_received_udp, base_message_received_tcp, send_multicast,
}

pub data BaseConnectionType : Type 0 where
  no_connection tcp udp : BaseConnectionType

unfoldable pub get_current_base_connection_type : ℕ → NgSocket → BaseConnectionType
get_current_base_connection_type now s =
    if is_base_udp now s
    then udp
    else if leb now (s.last_base_tcp_message + udp_base_timeout)
    then tcp
    else no_connection

unfoldable pub get_current_base_address : ℕ → NgSocket → InetAddress
get_current_base_address now s = if is_base_udp now s then s.base_udp_address else s.base_address

-- The local addresses that are reported, from those of the system.
unfoldable pub own_addresses : ℕ → List IpAddress → List InetAddress
own_addresses port [] = []
own_addresses port (a ∷ rest) =
    let others = own_addresses port rest in
    if is_fc94 a then others else record { ip = a; port = port % 2 ^ 16 } ∷ others

-- `reloadLocalAddresses`: whether known addresses have changed.
unfoldable pub reload_local_addresses : List IpAddress → NgSocket → NgSocket × Bool
reload_local_addresses system s =
    let new_addresses = sort (own_addresses s.source_port system) in
    if not (same_list new_addresses s.local_addresses)
    then (record s { local_addresses = new_addresses }, not (length s.local_addresses == 0))
    else (s, false)

module _ (so : Sodium) where
  unfoldable pub refresh_peers : ℕ → List (IpAddress × ℕ) → NgSocket → NgSocket
  refresh_peers now [] s = s
  refresh_peers now ((id, p) ∷ rest) s = refresh_peers now rest (periodic_peer so now p s)

  unfoldable pub refresh : ℕ → NgSocket → NgSocket
  refresh now s =
      let told = send_local_addresses_to_base so (record s { last_refresh = now }) in
      let announced = send_multicast (send_nat_init_to_base so now told) in
      refresh_peers now announced.container.peers announced

  -- One round of `workerLoop`; with an empty queue it waits.
  unfoldable pub worker_step : Env → ℕ → NgSocket → NgSocket
  worker_step env now s = elim s.worker_queue [
    | [] ↦ s
    | job ∷ rest ↦
        let popped = record s { worker_queue = rest } in
        elim job [
          | refresh_job ↦ refresh now popped
          | greeting_job source packet ↦ elim (parse_peer_to_peer_message so packet) [
            | none ↦ emit aborted popped
            | some msg ↦ peer_message_received so env now source msg popped
          ]
        ]
  ]

  -- The parts of `periodic` after the addresses are reloaded, in their order.
  unfoldable pub refresh_if_due : ℕ → NgSocket → NgSocket
  refresh_if_due now s = if ltb (s.last_refresh + refresh_timeout) now then request_refresh s else s

  unfoldable pub nat_init_if_due : ℕ → NgSocket → NgSocket
  nat_init_if_due now s =
      if not s.nat_init_confirmed && ltb (s.last_nat_init_sent + nat_init_timeout) now
      then send_nat_init_to_base so now s
      else s

  unfoldable pub patience : NgSocket → ℕ
  patience s = elim s.base_connection [ none ↦ nat_init_timeout | some c ↦ tcp_pong_timeout ]

  unfoldable pub reconnect_if_due : Env → ℕ → NgSocket → NgSocket
  reconnect_if_due env now s =
      if ltb (s.last_base_tcp_action + patience s) now then connect_to_base so env now s else s

  unfoldable pub periodic_timers : Env → ℕ → NgSocket → NgSocket
  periodic_timers env now s = reconnect_if_due env now (nat_init_if_due now (refresh_if_due now s))

  unfoldable pub periodic : Env → ℕ → List IpAddress → NgSocket → NgSocket
  periodic env now system s =
      let (reloaded, changed) = reload_local_addresses system (record s { last_periodic = now }) in
      let asked = request_refresh reloaded in
      let accelerated =
        if ltb (asked.last_base_tcp_action + nat_init_timeout) now
        then connect_to_base so env now asked
        else asked in
      if ltb now (s.last_periodic + 1000)
      then s
      else periodic_timers env now (if changed then accelerated else reloaded)

  -- A packet of the base server, or of a peer: greetings go to the worker thread.
  unfoldable pub peer_packet_received : Env → ℕ → InetAddress → Bytes → NgSocket → NgSocket
  peer_packet_received env now source packet s = elim packet [
    | [] ↦ emit aborted s
    | first ∷ rest ↦
        let queued =
          if ltb (length s.worker_queue) s.worker_queue_size
          then record s {
            worker_queue = s.worker_queue ++ (greeting_job source (first ∷ rest) ∷ []);
          }
          else s in
        let handled : NgSocket = elim (parse_peer_to_peer_message so (first ∷ rest)) [
          | none ↦ emit aborted s
          | some msg ↦ peer_message_received so env now source msg s
        ] in
        if first == 0 || first == 1 then queued else handled
  ]

  unfoldable pub udp_packet_received : Env → ℕ → InetAddress → Bytes → NgSocket → NgSocket
  udp_packet_received env now source packet s =
      let from_base : NgSocket = elim (parse_base_to_peer_message packet) [
        | none ↦ emit aborted s
        | some msg ↦ base_message_received_udp so now msg s
      ] in
      if same_inet source s.base_udp_address
      then from_base
      else peer_packet_received env now source packet s

  -- The data callback of the connection.
  unfoldable pub tcp_packet_received : Env → ℕ → Bytes → NgSocket → NgSocket
  tcp_packet_received env now packet s =
      let heard = record s { last_base_tcp_message = now } in
      elim (parse_base_to_peer_message packet) [
        | none ↦ emit aborted heard
        | some msg ↦ base_message_received_tcp so env now msg heard
      ]

  -- An announcement from the local network: a new local address of a known peer.
  unfoldable pub announced_at : ℕ → IpAddress → InetAddress → NgSocket → NgSocket
  announced_at now id source s =
      let (container, peer) = get_peer s.container id in
      let found = with_container s container in
      elim peer [
        | none ↦ found
        | some p ↦
            if not (same_inet (peer_of found p).link_local_address source)
            then attempt_reestablish so now p
                (set_peer found p (record (peer_of found p) { link_local_address = source }))
            else found
      ]

  unfoldable pub multicast_packet_received : ℕ → InetAddress → Bytes → NgSocket → NgSocket
  multicast_packet_received now address packet s =
      let id = substr 2 16 packet in
      let source : InetAddress = record { ip = address.ip; port = from_bytes (take 2 packet) } in
      if not (is_link_local address.ip || is_private_v4 address.ip)
      then s
      else if ltb (length packet) 18
      then s
      else if same_bytes id s.identity.device_id
      then s
      else announced_at now id source s
