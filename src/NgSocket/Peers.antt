-- ===== src/NgSocket/Peers.antt =====
-- The peers' part of ngsocket.cpp: greetings, the choice of an address, and the packets. `now` is the
-- time at which a handler runs.
use husarnet.Common.{
  ℕ, ◌+◌, Bool, true, false, not, ◌&&◌, ◌||◌, none, some, List, [], ◌∷◌, ◌++◌, Bytes, ltb, leb,
  if◌then◌else◌, same_bytes,
}
use husarnet.IpAddress.{IpAddress, InetAddress, is_fc94, is_link_local, is_set, same_inet}
use husarnet.Crypto.{Sodium, generate_random_string}
use husarnet.Peer.{Peer, is_active}
use husarnet.PeerContainer.{get_peer, get_or_create_peer}
use husarnet.NgSocket.Messages.{
  PeerToPeerMessage, PeerToPeerMessageKind, PeerToBaseMessageKind, peer_message, to_base_message,
}
use husarnet.NgSocket.Addresses.{sort, unique, same_list}
use husarnet.NgSocket.State.{
  NgSocket, Env, to_upper_layer, emit, peer_of, set_peer, with_container, is_base_udp, send_to_peer,
  send_to_base_udp, send_to_base_tcp, reestablish_timeout, renegotiation_timeout,
  max_failed_establishments,
}
use husarnet.NgSocket.Sources.{add_source_address, find_peer_by_source_address}

-- The addresses that `attemptReestablish` greets, in its order.
unfoldable pub candidates : Peer → List InetAddress
candidates peer =
    let local = if is_set peer.link_local_address then peer.link_local_address ∷ [] else [] in
    unique (sort (peer.target_addresses ++ (local ++ peer.source_addresses)))

-- What a failed attempt leaves in the peer.
unfoldable pub start_reestablish : ℕ → Bytes → Peer → Peer
start_reestablish now cookie peer = record peer {
  failed_establishments = peer.failed_establishments + 1;
  last_reestablish = now;
  reestablishing = true;
  hello_cookie = cookie;
}

module _ (so : Sodium) where
  -- The loop over the addresses: fc94::/16 is left out, the active address is greeted twice.
  unfoldable pub send_hellos :
      InetAddress → PeerToPeerMessage → List InetAddress → NgSocket → NgSocket
  send_hellos target hello [] s = s
  send_hellos target hello (a ∷ rest) s =
      let once = send_to_peer so a hello s in
      let sent = if same_inet a target then send_to_peer so a hello once else once in
      send_hellos target hello rest (if is_fc94 a.ip then s else sent)

  unfoldable pub attempt_reestablish : ℕ → ℕ → NgSocket → NgSocket
  attempt_reestablish now p s =
      let cookie = generate_random_string so s.container.draws 16 in
      let peer = start_reestablish now cookie (peer_of s p) in
      let drawn = with_container s (record s.container { draws = s.container.draws + 16 }) in
      let hello : PeerToPeerMessage = record (peer_message PeerToPeerMessageKind.hello) {
        your_id = peer.id;
        hello_cookie = cookie;
      } in
      send_hellos peer.target_address hello (candidates peer) (set_peer drawn p peer)

  unfoldable pub send_info_request_to_base : IpAddress → NgSocket → NgSocket
  send_info_request_to_base id =
      send_to_base_tcp so
        (record (to_base_message PeerToBaseMessageKind.request_info) { device_id = id })

  -- The packet itself: to the peer's address, or through the base server, with a new attempt if
  -- none is under way or the last one is over.
  unfoldable pub transmit : ℕ → ℕ → Bytes → NgSocket → NgSocket
  transmit now p packet s =
      let peer = peer_of s p in
      let direct =
        send_to_peer so peer.target_address
          (record (peer_message PeerToPeerMessageKind.data_message) { payload = packet }) s in
      let retry =
        not peer.reestablishing
        || (ltb (peer.last_reestablish + reestablish_timeout) now
            && leb peer.failed_establishments max_failed_establishments) in
      let tried = if retry then attempt_reestablish now p s else s in
      let relayed = record (to_base_message PeerToBaseMessageKind.data_message) {
        target = peer.id;
        payload = packet;
      } in
      let tunnelled =
        if is_base_udp now s
        then send_to_base_udp so relayed tried
        else send_to_base_tcp so relayed tried in
      if peer.connected then direct else tunnelled

  unfoldable pub send_data_to_peer : ℕ → ℕ → Bytes → NgSocket → NgSocket
  send_data_to_peer now p packet s =
      let sent = transmit now p packet s in
      let asked =
        if not (is_active now (peer_of s p))
        then send_info_request_to_base (peer_of s p).id sent
        else sent in
      set_peer asked p (record (peer_of asked p) { last_packet = now })

  -- `onUpperLayerData`
  unfoldable pub on_upper_layer_data : ℕ → IpAddress → Bytes → NgSocket → NgSocket
  on_upper_layer_data now id packet s =
      let (container, peer) = get_or_create_peer so s.container id in
      let found = with_container s container in
      elim peer [ none ↦ found | some p ↦ send_data_to_peer now p packet found ]

  -- A greeting from a link-local address becomes the peer's local address, if it has none.
  unfoldable pub note_link_local : ℕ → ℕ → InetAddress → NgSocket → NgSocket
  note_link_local now p source s =
      let peer = peer_of s p in
      let noted = set_peer s p (record peer { link_local_address = source }) in
      let tried = if is_active now peer then attempt_reestablish now p noted else noted in
      if is_link_local source.ip && not (is_set peer.link_local_address) then tried else s

  unfoldable pub hello_received : Env → ℕ → InetAddress → PeerToPeerMessage → NgSocket → NgSocket
  hello_received env now source msg s =
      let (container, peer) = get_or_create_peer so s.container msg.my_id in
      let found = with_container s container in
      let reply : PeerToPeerMessage = record (peer_message PeerToPeerMessageKind.hello_reply) {
        your_id = msg.my_id;
        hello_cookie = msg.hello_cookie;
      } in
      let answered : NgSocket = elim peer [
        | none ↦ found
        | some p ↦
            send_to_peer so source reply
              (note_link_local now p source (add_source_address env p source found))
      ] in
      if not (same_bytes msg.your_id s.identity.device_id) then s else answered

-- The state of a peer that has been reached at `source`.
unfoldable pub establish : InetAddress → Peer → Peer
establish source peer = record peer {
  target_address = source;
  connected = true;
  failed_establishments = 0;
  reestablishing = false;
}

unfoldable pub hello_reply_received : InetAddress → PeerToPeerMessage → NgSocket → NgSocket
hello_reply_received source msg s =
    let (container, peer) = get_peer s.container msg.my_id in
    let found = with_container s container in
    let answered : NgSocket = elim peer [
      | none ↦ found
      | some p ↦
          if not (peer_of found p).reestablishing
          then found
          else if not (same_bytes (peer_of found p).hello_cookie msg.hello_cookie)
          then found
          else set_peer found p (establish source (peer_of found p))
    ] in
    if not (same_bytes msg.your_id s.identity.device_id) then s else answered

unfoldable pub peer_data_packet_received : InetAddress → Bytes → NgSocket → NgSocket
peer_data_packet_received source packet s = elim (find_peer_by_source_address s source) [
  | none ↦ s
  | some p ↦ emit (to_upper_layer (peer_of s p).id packet) s
]

-- `peer->negotiated && peer->lastValidPacket < now - RENEGOTIATION_TIMEOUT`
unfoldable pub has_timed_out : ℕ → Peer → Bool
has_timed_out now peer = peer.negotiated && ltb (peer.last_valid_packet + renegotiation_timeout) now

-- The attempt to reach a connected peer again has had no answer in time.
unfoldable pub has_fallen_back : ℕ → Peer → Bool
has_fallen_back now peer =
    peer.reestablishing && peer.connected && ltb (peer.last_reestablish + reestablish_timeout) now

abbrev pub disconnected : Peer → Peer
disconnected peer = record peer { connected = false }

abbrev pub session_dropped : Peer → Peer
session_dropped peer = record peer { negotiated = false; connected = false }

module _ (so : Sodium) where
  unfoldable pub peer_message_received :
      Env → ℕ → InetAddress → PeerToPeerMessage → NgSocket → NgSocket
  peer_message_received env now source msg s = elim msg.kind [
    | PeerToPeerMessageKind.data_message ↦ peer_data_packet_received source msg.payload s
    | PeerToPeerMessageKind.hello ↦ hello_received so env now source msg s
    | PeerToPeerMessageKind.hello_reply ↦ hello_reply_received source msg s
    | PeerToPeerMessageKind.invalid ↦ s
  ]

  -- A session that has gone quiet is dropped; a peer that is in use is greeted again.
  unfoldable pub periodic_peer : ℕ → ℕ → NgSocket → NgSocket
  unfolding has_timed_out has_fallen_back
  periodic_peer now p s =
      let peer = peer_of s p in
      let relayed = set_peer s p (disconnected peer) in
      if has_timed_out now peer
      then set_peer s p (session_dropped peer)
      else if not (is_active now peer)
      then relayed
      else attempt_reestablish so now p (if has_fallen_back now peer then relayed else s)

  unfoldable pub change_peer_target_addresses : ℕ → ℕ → List InetAddress → NgSocket → NgSocket
  change_peer_target_addresses now p addresses s =
      let sorted = sort addresses in
      let changed = set_peer s p (record (peer_of s p) { target_addresses = sorted }) in
      let tried = attempt_reestablish so now p changed in
      if not (same_list (peer_of s p).target_addresses sorted) then tried else s
