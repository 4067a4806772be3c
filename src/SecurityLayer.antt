-- ===== src/SecurityLayer.antt =====
-- core/husarnet/security_layer.h and security_layer.cpp: key exchange and encryption between the
-- multicast layer above and the socket layer below. The layer's peers are those of the shared
-- container; `sent` lists what it hands to the layers around it, newest first.
pub mod Hello
pub mod Agreement
pub mod Data
pub mod Upward
pub mod Queue
use husarnet.Common.{
  ℕ, ◌+◌, ◌-◌, ◌%◌, ◌^◌, Bool, true, false, not, ◌&&◌, ◌||◌, Option, none, some, List, [], ◌∷◌,
  ◌++◌, Bytes, ◌==◌, ltb, leb, if◌then◌else◌, length, take, drop, substr, same_bytes, replicate,
}
use husarnet.Common.Int.{ℤ, pos, negsuc}
use husarnet.Util.Pack.{pack, from_bytes}
use husarnet.Util.View.{view_at}
use husarnet.IpAddress.{IpAddress, bytes_lt}
use husarnet.Crypto.{
  Sodium, Identity, sign, verify_signature, pubkey_to_device_id, generate_random_string,
}
use husarnet.Peer.{Peer}
use husarnet.PeerContainer.{PeerContainer, get_or_create_peer, update}

abbrev pub max_queued_packets : ℕ
max_queued_packets = 10

-- "ng-kx-pubkey"
abbrev pub kx_kind : Bytes
kx_kind = b'n' ∷ b'g' ∷ b'-' ∷ b'k' ∷ b'x' ∷ b'-' ∷ b'p' ∷ b'u' ∷ b'b' ∷ b'k' ∷ b'e' ∷ b'y' ∷ []

-- `aborted` is a failed assertion.
pub data Sent : Type 0 where
  to_lower : IpAddress → Bytes → Sent
  to_upper : IpAddress → Bytes → Sent
  aborted : Sent

pub record SecurityLayer : Type 0 where
  pub identity : Identity
  pub flags : ℕ
  pub container : PeerContainer
  pub helloseq : ℕ
  pub queued_packets : ℕ
  pub sent : List Sent

abbrev pub peer_at : SecurityLayer → ℕ → Peer
peer_at s p = s.container.heap p

abbrev pub put_peer : SecurityLayer → ℕ → Peer → SecurityLayer
put_peer s p peer = record s {
  container = record s.container { heap = update s.container.heap p peer };
}

abbrev pub send : Sent → SecurityLayer → SecurityLayer
send o s = record s { sent = o ∷ s.sent }

-- A lookup that leaves the container's cache and draws behind.
abbrev pub in_container : SecurityLayer → PeerContainer → SecurityLayer
in_container s c = record s { container = c }

-- A call of the layer: a packet from either side, or a request for the latency.
pub data Call : Type 0 where
  from_upper from_lower : IpAddress → Bytes → Call
  latency_of : IpAddress → Call

module _ (so : Sodium) where
  unfoldable pub mix_flags : Bytes → ℕ → ℕ → Bytes
  mix_flags key flags1 flags2 = so.hash_sha256 (key ++ (pack 8 flags1 ++ pack 8 flags2))

  -- `SecurityLayer`: only the upper half of the random number is kept.
  unfoldable pub new_security_layer : Identity → ℕ → PeerContainer → SecurityLayer
  new_security_layer me flags c =
      let random = from_bytes (so.random_bytes c.draws 8) in
      record {
        identity = me;
        flags = flags;
        container = record c { draws = c.draws + 1 };
        helloseq = random - random % 2 ^ 32;
        queued_packets = 0;
        sent = [];
      }

  -- The bytes of a hello before its signature.
  unfoldable pub hello_body : SecurityLayer → Peer → ℕ → ℕ → Bytes
  hello_body s peer num seq =
      num
      ∷ (s.identity.pubkey
          ++ (peer.kx_pubkey ++ (peer.id ++ (pack 8 s.helloseq ++ (pack 8 seq ++ pack 8 s.flags)))))

  unfoldable pub hello_packet : SecurityLayer → Peer → ℕ → ℕ → Bytes
  unfolding hello_body
  hello_packet s peer num seq =
      hello_body s peer num seq ++ sign so (hello_body s peer num seq) kx_kind s.identity

  unfoldable pub send_hello_packet : ℕ → ℕ → ℕ → SecurityLayer → SecurityLayer
  send_hello_packet p num seq s =
      if num == 1 || num == 2 || num == 3
      then send (to_lower (peer_at s p).id (hello_packet s (peer_at s p) num seq)) s
      else send aborted s

  -- The sequence number in front of the data is always 0.
  unfoldable pub data_packet : Bytes → Bytes → Bytes → Bytes
  data_packet key nonce packet =
      0 ∷ (nonce ++ so.secretbox_easy (replicate 8 0 ++ packet) nonce key)

  -- The buffers hold 2010 and 2100 bytes.
  unfoldable pub do_send_data_packet : ℕ → Bytes → SecurityLayer → SecurityLayer
  do_send_data_packet p packet s =
      let drawn = in_container s (record s.container { draws = s.container.draws + 1 }) in
      let nonce = so.random_bytes s.container.draws 24 in
      if not (ltb (length packet) 10240)
      then send aborted s
      else if leb 2010 (length packet)
      then s
      else if leb 2010 (length packet + 8)
      then s
      else if leb 2100 (1 + 24 + 16 + (length packet + 8))
      then s
      else send (to_lower (peer_at s p).id (data_packet (peer_at s p).tx_key nonce packet)) drawn

  unfoldable pub send_queue : ℕ → List Bytes → SecurityLayer → SecurityLayer
  send_queue p [] s = s
  send_queue p (packet ∷ rest) s =
      send_queue p rest
        (do_send_data_packet p packet (record s { queued_packets = s.queued_packets - 1 }))

  unfoldable pub finish_negotiation : ℕ → SecurityLayer → SecurityLayer
  finish_negotiation p s =
      let agreed = put_peer s p (record (peer_at s p) { negotiated = true }) in
      let emptied = send_queue p (peer_at s p).packet_queue agreed in
      put_peer emptied p (record (peer_at emptied p) { packet_queue = [] })

  -- A packet from the layer above.
  unfoldable pub on_upper_layer_data : IpAddress → Bytes → SecurityLayer → SecurityLayer
  on_upper_layer_data target packet s =
      let (container, peer) = get_or_create_peer so s.container target in
      let found = in_container s container in
      elim peer [
        | none ↦ found
        | some p ↦
            let queue = (peer_at found p).packet_queue ++ (packet ∷ []) in
            let queued =
              if ltb found.queued_packets max_queued_packets
              then put_peer (record found { queued_packets = found.queued_packets + 1 }) p
                  (record (peer_at found p) { packet_queue = queue })
              else found in
            if (peer_at found p).negotiated
            then do_send_data_packet p packet found
            else send_hello_packet p 1 0 queued
      ]

  unfoldable pub handle_data_packet : ℕ → IpAddress → Bytes → SecurityLayer → SecurityLayer
  handle_data_packet now source packet s =
      let (container, peer) = get_or_create_peer so s.container source in
      let found = in_container s container in
      if leb (length packet) 49 then s else elim peer [
        | none ↦ found
        | some p ↦
            let opened : SecurityLayer =
              elim (so.secretbox_open_easy (drop 25 packet) (substr 1 24 packet)
                (peer_at found p).rx_key) [
                  | none ↦ found
                  | some clear ↦
                      send (to_upper source (take (length packet - 49) (drop 8 clear)))
                        (put_peer found p (record (peer_at found p) { last_valid_packet = now }))
                ] in
            if not (peer_at found p).negotiated then send_hello_packet p 1 0 found else opened
      ]

  unfoldable pub handle_heartbeat : IpAddress → Bytes → SecurityLayer → SecurityLayer
  handle_heartbeat source ident s = send (to_lower source (5 ∷ ident)) s

  unfoldable pub handle_heartbeat_reply : ℕ → IpAddress → Bytes → SecurityLayer → SecurityLayer
  handle_heartbeat_reply now source ident s =
      let (container, peer) = get_or_create_peer so s.container source in
      let found = in_container s container in
      elim peer [
        | none ↦ found
        | some p ↦
            let timed = record (peer_at found p) {
              last_latency_received = now;
              latency = pos (now - (peer_at found p).last_latency_sent);
            } in
            if same_bytes ident (peer_at found p).heartbeat_ident
            then put_peer found p timed
            else found
      ]

  -- The identifier of a new heartbeat, and the latency of the last one, -1 when that is old.
  unfoldable pub get_latency : ℕ → IpAddress → SecurityLayer → SecurityLayer × ℤ
  get_latency now target s =
      let (container, peer) = get_or_create_peer so s.container target in
      let found = in_container s container in
      elim peer [
        | none ↦ (found, negsuc 0)
        | some p ↦
            let ident = generate_random_string so found.container.draws 8 in
            let drawn = in_container found (record container { draws = container.draws + 8 }) in
            let asked =
              put_peer drawn p
                (record (peer_at drawn p) { heartbeat_ident = ident; last_latency_sent = now }) in
            let latency : ℤ =
              if ltb ((peer_at found p).last_latency_received + 10000) now
              then negsuc 0
              else (peer_at found p).latency in
            (send (to_lower (peer_at found p).id (4 ∷ ident)) asked, latency)
      ]

  -- The four checks of a hello, in the order of the code; the flags are absent in short ones.
  unfoldable pub hello_flags : Bytes → ℕ
  hello_flags packet = if leb 169 (length packet) then from_bytes (substr 97 8 packet) else 0

  unfoldable pub hello_is_genuine : IpAddress → Bytes → SecurityLayer → Bool
  hello_is_genuine source packet s =
      let incoming_pubkey = substr 1 32 packet in
      let signature = drop (length packet - 64) packet in
      if not (same_bytes (substr 65 16 packet) s.identity.device_id)
      then false
      else if not (same_bytes (pubkey_to_device_id so incoming_pubkey) source)
      then false
      else verify_signature so (take (length packet - 64) packet) kx_kind incoming_pubkey signature

  -- The session keys: the device with the smaller id is the client.
  unfoldable pub session_keys : IpAddress → Bytes → Bytes → Peer → Option (Bytes × Bytes)
  session_keys source own_id their_kx peer =
      if bytes_lt source own_id
      then so.kx_client_session_keys peer.kx_pubkey peer.kx_privkey their_kx
      else so.kx_server_session_keys peer.kx_pubkey peer.kx_privkey their_kx

  unfoldable pub mix_into : ℕ → ℕ → Peer → Peer
  mix_into theirs ours peer = if theirs == 0 then peer else record peer {
    rx_key = mix_flags peer.rx_key theirs ours;
    tx_key = mix_flags peer.tx_key ours theirs;
  }

  -- The key exchange of a genuine hello 2 or 3 with the current `helloseq`. A failed exchange keeps
  -- the old keys, but mixes flags into them.
  unfoldable pub exchange_keys : IpAddress → Bytes → ℕ → ℕ → SecurityLayer → SecurityLayer
  exchange_keys source packet num p s =
      let flagged = record (peer_at s p) { flags = hello_flags packet } in
      let keys = session_keys source s.identity.device_id (substr 33 32 packet) flagged in
      elim keys [
        | none ↦ put_peer s p (mix_into (hello_flags packet) s.flags flagged)
        | some (rx, tx) ↦
            let mixed =
              mix_into (hello_flags packet) s.flags (record flagged { rx_key = rx; tx_key = tx }) in
            let finished = finish_negotiation p (put_peer s p mixed) in
            let counted = record finished { helloseq = (finished.helloseq + 1) % 2 ^ 64 } in
            if num == 2
            then send_hello_packet p 3 (from_bytes (substr 81 8 packet)) counted
            else counted
      ]

  unfoldable pub handle_hello_packet : IpAddress → Bytes → ℕ → SecurityLayer → SecurityLayer
  handle_hello_packet source packet num s =
      let (container, peer) = get_or_create_peer so s.container source in
      let found = in_container s container in
      if ltb (length packet) 161 then s else elim peer [
        | none ↦ found
        | some p ↦
            if not (hello_is_genuine source packet found)
            then found
            else if num == 1
            then send_hello_packet p 2 (from_bytes (substr 81 8 packet)) found
            else if not (from_bytes (substr 89 8 packet) == found.helloseq)
            then found
            else exchange_keys source packet num p found
      ]

  -- By the first byte of the packet.
  unfoldable pub dispatch : ℕ → IpAddress → Bytes → ℕ → SecurityLayer → SecurityLayer
  dispatch now source packet kind s =
      if kind == 0
      then if leb (length packet) 25 then s else handle_data_packet now source packet s
      else if kind == 1 || kind == 2 || kind == 3
      then if leb (length packet) 25 then s else handle_hello_packet source packet kind s
      else if kind == 4 || kind == 5
      then if ltb (length packet) 9
        then s
        else if kind == 4
        then handle_heartbeat source (substr 1 8 packet) s
        else handle_heartbeat_reply now source (substr 1 8 packet) s
      else s

  -- A packet from the layer below. `data[0]` of no data is a failed assertion.
  unfoldable pub on_lower_layer_data : ℕ → IpAddress → Bytes → SecurityLayer → SecurityLayer
  on_lower_layer_data now source packet s =
      if leb 2000 (length packet) then s else elim (view_at packet 0) [
        | none ↦ send aborted s
        | some kind ↦ dispatch now source packet kind s
      ]

  -- One call, at its time.
  pub call : ℕ → Call → SecurityLayer → SecurityLayer
  call now (from_upper target packet) s = on_upper_layer_data target packet s
  call now (from_lower source packet) s = on_lower_layer_data now source packet s
  call now (latency_of target) s = (get_latency now target s).0

  -- The calls with their times, in their order.
  pub run : List (ℕ × Call) → SecurityLayer → SecurityLayer
  run [] s = s
  run ((now, c) ∷ rest) s = run rest (call now c s)
