-- ===== src/NgSocket/Base.antt =====
-- The base server's part of ngsocket.cpp: the NAT messages, the connection, and its messages.
use husarnet.Common.{
  ℕ, ◌+◌, ◌%◌, ◌^◌, true, false, not, ◌&&◌, none, some, List, [], ◌∷◌, ◌++◌, ◌==◌, ltb, leb,
  if◌then◌else◌, length, get_or,
}
use husarnet.IpAddress.{IpAddress, InetAddress, no_address, no_inet_address}
use husarnet.Crypto.{Sodium}
use husarnet.Peer.{is_active}
use husarnet.PeerContainer.{get_peer}
use husarnet.Util.Pack.{pack}
use husarnet.NgSocket.Messages.{
  BaseToPeerMessage, BaseToPeerMessageKind, PeerToBaseMessageKind, to_base_message,
}
use husarnet.NgSocket.State.{
  NgSocket, Env, Output, udp_send_multicast, tcp_connect, tcp_close, to_upper_layer, aborted,
  refresh_job, emit, peer_of, with_container, send_to_base_udp, send_to_base_tcp, baseserver_port,
}
use husarnet.NgSocket.Peers.{send_info_request_to_base, change_peer_target_addresses}

-- `requestRefresh`: a full queue loses the request.
unfoldable pub request_refresh : NgSocket → NgSocket
request_refresh s =
    if ltb (length s.worker_queue) s.worker_queue_size
    then record s { worker_queue = s.worker_queue ++ (refresh_job ∷ []) }
    else s

-- The next port of the transient range, from its start behind its end.
unfoldable pub next_transient_port : NgSocket → NgSocket
next_transient_port s =
    let port = s.base_transient_port + 1 in
    record s {
      base_transient_port =
          if ltb s.base_transient_range.1 port then s.base_transient_range.0 else port;
    }

-- The address that `connectToBase` chooses: they take turns.
unfoldable pub chosen_base_address : NgSocket → InetAddress
chosen_base_address s =
    let addresses = s.container.config.base_addresses in
    record {
      ip = get_or addresses (s.base_connect_retries % length addresses) no_address;
      port = baseserver_port;
    }

-- The old connection is closed, and a new one attempted.
unfoldable pub open_connection : Env → ℕ → NgSocket → NgSocket
unfolding chosen_base_address
open_connection env now s =
    let address = chosen_base_address s in
    let closed : List Output = elim s.base_connection [
      | none ↦ s.outputs
      | some c ↦ tcp_close ∷ s.outputs
    ] in
    let attempt = s.connection_attempts in
    record s {
      base_address = address;
      base_connect_retries = s.base_connect_retries + 1;
      base_connection = if env.connects attempt then some attempt else none;
      connection_attempts = attempt + 1;
      last_base_tcp_action = now;
      outputs = tcp_connect address ∷ closed;
    }

module _ (so : Sodium) where
  unfoldable pub send_nat_init_to_base : ℕ → NgSocket → NgSocket
  send_nat_init_to_base now s =
      let counted = record s {
        last_nat_init_sent = now;
        nat_init_confirmed = false;
        nat_init_counter = (s.nat_init_counter + 1) % 2 ^ 64;
      } in
      let first =
        send_to_base_udp so
          (record (to_base_message PeerToBaseMessageKind.nat_init) {
            device_id = s.identity.device_id;
            counter = s.nat_init_counter;
          })
          counted in
      let second =
        send_to_base_udp so
          (record (to_base_message PeerToBaseMessageKind.nat_init_transient) {
            device_id = s.identity.device_id;
            counter = counted.nat_init_counter;
          })
          first in
      if length s.cookie == 0
      then s
      else if not (s.base_transient_port == 0)
      then next_transient_port second
      else first

  unfoldable pub send_local_addresses_to_base : NgSocket → NgSocket
  send_local_addresses_to_base = send_to_base_tcp so (to_base_message PeerToBaseMessageKind.info)

  -- `iteratePeers`, and the active ones among them asked for.
  unfoldable pub resend_info_requests : ℕ → List (IpAddress × ℕ) → NgSocket → NgSocket
  resend_info_requests now [] s = s
  resend_info_requests now ((id, p) ∷ rest) s =
      let asked = send_info_request_to_base so (peer_of s p).id s in
      resend_info_requests now rest (if is_active now (peer_of s p) then asked else s)

  -- `connectToBase`. With no address of a base server the code divides by zero.
  unfoldable pub connect_to_base : Env → ℕ → NgSocket → NgSocket
  unfolding open_connection
  connect_to_base env now s =
      let greeting = record (to_base_message PeerToBaseMessageKind.user_agent) {
        user_agent = env.user_agent;
      } in
      let greeted = send_to_base_tcp so greeting (open_connection env now s) in
      if length s.container.config.base_addresses == 0 then emit aborted s else greeted

-- The error callback of a connection.
unfoldable pub connection_failed : ℕ → ℕ → NgSocket → NgSocket
connection_failed now c s = elim s.base_connection [
  | none ↦ s
  | some current ↦
      if c == current
      then record s {
        base_connection = none;
        last_base_tcp_action = now;
        outputs = tcp_close ∷ s.outputs;
      }
      else s
]

-- The STATE branch: the first address is used, and a range of ports is taken if it is one.
unfoldable pub state_received : BaseToPeerMessage → NgSocket → NgSocket
state_received msg s =
    let range = msg.nat_transient_range in
    let addressed = record s {
      all_base_udp_addresses = msg.udp_address;
      base_udp_address = get_or msg.udp_address 0 no_inet_address;
    } in
    let ranged = record addressed {
      base_transient_range = range;
      base_transient_port = if s.base_transient_port == 0 then range.0 else s.base_transient_port;
    } in
    let known = if not (range.0 == 0) && leb range.0 range.1 then ranged else addressed in
    elim msg.udp_address [ [] ↦ emit aborted s | a ∷ rest ↦ known ]

module _ (so : Sodium) where
  unfoldable pub base_message_received_udp : ℕ → BaseToPeerMessage → NgSocket → NgSocket
  base_message_received_udp now msg s = elim msg.kind [
    | BaseToPeerMessageKind.data_message ↦ emit (to_upper_layer msg.source msg.payload) s
    | BaseToPeerMessageKind.nat_ok ↦
        send_to_base_udp so (to_base_message PeerToBaseMessageKind.nat_ok_confirm)
          (record s { last_nat_init_confirmation = now; nat_init_confirmed = true })
    | _ ↦ s
  ]

  unfoldable pub device_addresses_received : ℕ → BaseToPeerMessage → NgSocket → NgSocket
  device_addresses_received now msg s =
      let (container, peer) = get_peer s.container msg.device_id in
      let found = with_container s container in
      elim peer [
        | none ↦ found
        | some p ↦ change_peer_target_addresses so now p msg.addresses found
      ]

  unfoldable pub hello_from_base : ℕ → BaseToPeerMessage → NgSocket → NgSocket
  hello_from_base now msg s =
      let known = record s { cookie = msg.cookie } in
      request_refresh
        (send_local_addresses_to_base so (resend_info_requests so now known.container.peers known))

  unfoldable pub base_message_received_tcp : Env → ℕ → BaseToPeerMessage → NgSocket → NgSocket
  base_message_received_tcp env now msg s =
      let heard = record s {
        last_base_tcp_action = now;
        last_base_tcp_message = now;
        base_connect_retries = 0;
      } in
      elim msg.kind [
        | BaseToPeerMessageKind.data_message ↦ emit (to_upper_layer msg.source msg.payload) heard
        | BaseToPeerMessageKind.hello ↦ hello_from_base now msg heard
        | BaseToPeerMessageKind.device_addresses ↦ device_addresses_received now msg heard
        | BaseToPeerMessageKind.state ↦ state_received msg heard
        | BaseToPeerMessageKind.redirect ↦
            connect_to_base so env now (record heard { base_address = msg.new_base_address })
        | BaseToPeerMessageKind.nat_ok ↦ heard
        | BaseToPeerMessageKind.invalid ↦ heard
      ]

-- The port and the id, to the IPv4 group and to the IPv6 group.
unfoldable pub send_multicast : NgSocket → NgSocket
send_multicast s =
    let packet = pack 2 (s.source_port % 2 ^ 16) ++ s.identity.device_id in
    emit (udp_send_multicast packet) (emit (udp_send_multicast packet) s)
