-- ===== src/SecurityLayer/Agreement.antt =====
-- The two ends of a key exchange of security_layer.cpp.
use husarnet.Common.{
  ℕ, ◌+◌, ◌^◌, ◌%◌, ◌≡◌, ◌≢◌, refl, subst, ap, true, false, some, arith, Bytes, length, substr, ltb,
  if◌then◌else◌, ◌==◌, Bool-cases, inl, inr, ne→==, ==_iff,
}
use husarnet.Util.Pack.{from_bytes}
use husarnet.IpAddress.{IpAddress, bytes_lt}
use husarnet.IpAddress.Order.{bytes_lt_trans, bytes_lt_irrefl}
use husarnet.Crypto.{Sodium}
use husarnet.Peer.{Peer}
use husarnet.PeerContainer.{get_or_create_peer}
use husarnet.SecurityLayer.{
  SecurityLayer, peer_at, put_peer, mix_flags, mix_into, session_keys, hello_flags, hello_packet,
  hello_is_genuine, send_hello_packet, finish_negotiation, exchange_keys, handle_hello_packet,
}
use husarnet.SecurityLayer.Hello.{CanGreet, hello_packet-HelloFields, hello_packet-genuine}
use husarnet.SecurityLayer.Queue.Steps.{send_queue-Drained}

module _ (so : Sodium) where
  finished_keys :
      (p : ℕ) (s : SecurityLayer)
      → ((peer_at (finish_negotiation so p s) p).negotiated ≡ true)
        × ((peer_at (finish_negotiation so p s) p).rx_key ≡ (peer_at s p).rx_key)
        × ((peer_at (finish_negotiation so p s) p).tx_key ≡ (peer_at s p).tx_key)
  unfolding finish_negotiation
  finished_keys p s =
      let agreed = put_peer s p (record (peer_at s p) { negotiated = true }) in
      let d = send_queue-Drained so p (peer_at s p).packet_queue agreed in
      (
        ground (arith, ap (λ heap. (heap p).negotiated) d.heap),
        ground (arith, ap (λ heap. (heap p).rx_key) d.heap),
        ground (arith, ap (λ heap. (heap p).tx_key) d.heap),
      )

  greeted_peer :
      (p q num seq : ℕ) (s : SecurityLayer)
      → peer_at (send_hello_packet so p num seq s) q ≡ peer_at s q
  unfolding send_hello_packet
  greeted_peer p q num seq s = ground arith

  -- A key with the flags of both ends mixed in, if the other end has any.
  abbrev mixed : ℕ → ℕ → ℕ → Bytes → Bytes
  mixed theirs flags1 flags2 key = if theirs == 0 then key else mix_flags so key flags1 flags2

  mixed_keys :
      (theirs ours : ℕ) (peer : Peer)
      → ((mix_into so theirs ours peer).rx_key ≡ mixed theirs theirs ours peer.rx_key)
        × ((mix_into so theirs ours peer).tx_key ≡ mixed theirs ours theirs peer.tx_key)
  unfolding mix_into
  mixed_keys theirs ours peer = (ground arith, ground arith)

  record Exchanged (peer : Peer) (theirs ours : ℕ) (rx tx : Bytes) : Type 0 where
    negotiated : peer.negotiated ≡ true
    rx_key : peer.rx_key ≡ mixed theirs theirs ours rx
    tx_key : peer.tx_key ≡ mixed theirs ours theirs tx

  -- The keys after a successful exchange.
  exchange_keys-Exchanged :
      (source : IpAddress) (packet : Bytes) (num p : ℕ) (s : SecurityLayer) (rx tx : Bytes)
      → session_keys so source s.identity.device_id
          (substr 33 32 packet)
          (record (peer_at s p) { flags = hello_flags so packet })
        ≡ some (rx, tx)
      → Exchanged
          (peer_at (exchange_keys so source packet num p s) p)
          (hello_flags so packet)
          s.flags
          rx
          tx
  unfolding exchange_keys
  exchange_keys-Exchanged source packet num p s rx tx e =
      let flagged = record (peer_at s p) { flags = hello_flags so packet } in
      let keyed = record flagged { rx_key = rx; tx_key = tx } in
      let mixed = mix_into so (hello_flags so packet) s.flags keyed in
      let done = finished_keys p (put_peer s p mixed) in
      let keys = mixed_keys (hello_flags so packet) s.flags keyed in
      let finished = finish_negotiation so p (put_peer s p mixed) in
      let counted = record finished { helloseq = (finished.helloseq + 1) % 2 ^ 64 } in
      let greeted = greeted_peer p p 3 (from_bytes (substr 81 8 packet)) counted in
      rw (e, exchange_keys)
        (record {
          negotiated = ground (arith, done.0, ap (λ (peer : Peer). peer.negotiated) greeted);
          rx_key = ground (arith, done.1, keys.0, ap (λ (peer : Peer). peer.rx_key) greeted);
          tx_key = ground (arith, done.2, keys.1, ap (λ (peer : Peer). peer.tx_key) greeted);
        })

  accepted :
      (source : IpAddress) (packet : Bytes) (num p : ℕ) (s : SecurityLayer)
      → get_or_create_peer so s.container source ≡ (s.container, some p)
      → length packet ≡ 169
      → hello_is_genuine so source packet s ≡ true
      → num ≢ 1
      → from_bytes (substr 89 8 packet) ≡ s.helloseq
      → handle_hello_packet so source packet num s ≡ exchange_keys so source packet num p s
  unfolding handle_hello_packet
  accepted source packet num p s found size genuine later current =
      let pointer : (get_or_create_peer so s.container source).1 ≡ some p = ap (λ x. x.1) found in
      let kept : (get_or_create_peer so s.container source).0 ≡ s.container = ap (λ x. x.0) found in
      let big : ltb (length packet) 161 ≡ false = ground (arith, size) in
      let second : (num == 1) ≡ false = ne→== num 1 later in
      let newest : (from_bytes (substr 89 8 packet) == s.helloseq) ≡ true =
        (==_iff (from_bytes (substr 89 8 packet)) s.helloseq).1 current in
      rw (pointer, handle_hello_packet, kept, big, genuine, second, newest) refl

  -- What libsodium documents of the two ends of a key exchange.
  pub record KxAgrees (client_pub client_priv server_pub server_priv rx tx : Bytes) : Type 0 where
    pub client : so.kx_client_session_keys client_pub client_priv server_pub ≡ some (rx, tx)
    pub server : so.kx_server_session_keys server_pub server_priv client_pub ≡ some (tx, rx)

  -- A device, and its peer for the other one, which is known and is not being looked up anew.
  pub record Knows (s : SecurityLayer) (p : ℕ) (other : IpAddress) : Type 0 where
    pub greets : CanGreet so s (peer_at s p)
    pub found : get_or_create_peer so s.container other ≡ (s.container, some p)
    pub names : (peer_at s p).id ≡ other
    pub flagged : s.flags ≢ 0

  -- The exchange at one end, for a hello from the other.
  end_of_exchange :
      (s r : SecurityLayer) (p q num : ℕ) (rx tx : Bytes)
      → Knows s p r.identity.device_id
      → Knows r q s.identity.device_id
      → num ≢ 1
      → session_keys so s.identity.device_id r.identity.device_id
          (peer_at s p).kx_pubkey
          (record (peer_at r q) { flags = s.flags })
        ≡ some (rx, tx)
      → Exchanged
          (peer_at
            (handle_hello_packet so s.identity.device_id
              (hello_packet so s (peer_at s p) num r.helloseq)
              num
              r)
            q)
          s.flags
          r.flags
          rx
          tx
  end_of_exchange s r p q num rx tx ks kr later keys =
      let packet = hello_packet so s (peer_at s p) num r.helloseq in
      let f =
        hello_packet-HelloFields so s (peer_at s p) num r.helloseq ks.greets
          kr.greets.helloseq_fits in
      let genuine =
        hello_packet-genuine so s r (peer_at s p) num r.helloseq ks.greets kr.greets.helloseq_fits
          ks.names in
      let done =
        exchange_keys-Exchanged s.identity.device_id packet num q r rx tx
          (rw (f.kx_pubkey, f.flags) keys) in
      rw (accepted s.identity.device_id packet num q r kr.found f.size genuine later f.answer) (
        subst
          (λ theirs.
            Exchanged (peer_at (exchange_keys so s.identity.device_id packet num q r) q) theirs
              r.flags rx tx)
          f.flags done)

  larger :
      (a b : SecurityLayer)
      → bytes_lt a.identity.device_id b.identity.device_id ≡ true
      → bytes_lt b.identity.device_id a.identity.device_id ≡ false
  larger a b smaller = elim (Bool-cases (bytes_lt b.identity.device_id a.identity.device_id)) [
    | inl e ↦ ground (
      arith,
      bytes_lt_trans a.identity.device_id b.identity.device_id a.identity.device_id smaller e,
      bytes_lt_irrefl a.identity.device_id,
    )
    | inr e ↦ e
  ]

  client_keys :
      (a b : SecurityLayer) (p q : ℕ) (rx tx : Bytes)
      → bytes_lt a.identity.device_id b.identity.device_id ≡ true
      → KxAgrees
          (peer_at b q).kx_pubkey
          (peer_at b q).kx_privkey
          (peer_at a p).kx_pubkey
          (peer_at a p).kx_privkey
          rx
          tx
      → session_keys so a.identity.device_id b.identity.device_id
          (peer_at a p).kx_pubkey
          (record (peer_at b q) { flags = a.flags })
        ≡ some (rx, tx)
  unfolding session_keys
  client_keys a b p q rx tx smaller kx = rw smaller kx.client

  server_keys :
      (a b : SecurityLayer) (p q : ℕ) (rx tx : Bytes)
      → bytes_lt a.identity.device_id b.identity.device_id ≡ true
      → KxAgrees
          (peer_at b q).kx_pubkey
          (peer_at b q).kx_privkey
          (peer_at a p).kx_pubkey
          (peer_at a p).kx_privkey
          rx
          tx
      → session_keys so b.identity.device_id a.identity.device_id
          (peer_at b q).kx_pubkey
          (record (peer_at a p) { flags = b.flags })
        ≡ some (tx, rx)
  unfolding session_keys
  server_keys a b p q rx tx smaller kx = rw (larger a b smaller) kx.server

  -- Two devices that know each other, the first with the smaller id, and that each handle a hello of
  -- the other with its current sequence number, have session keys afterwards, and what one sends with
  -- is what the other receives with. Both ends have flags, and the key exchange succeeds.
  pub handle_hello_packet_agrees :
      (a b : SecurityLayer) (p q m n : ℕ) (rx tx : Bytes)
      → Knows a p b.identity.device_id
      → Knows b q a.identity.device_id
      → bytes_lt a.identity.device_id b.identity.device_id ≡ true
      → KxAgrees
          (peer_at b q).kx_pubkey
          (peer_at b q).kx_privkey
          (peer_at a p).kx_pubkey
          (peer_at a p).kx_privkey
          rx
          tx
      → m ≢ 1
      → n ≢ 1
      → let a' =
          peer_at
            (handle_hello_packet so b.identity.device_id
              (hello_packet so b (peer_at b q) m a.helloseq)
              m
              a)
            p in
        let b' =
          peer_at
            (handle_hello_packet so a.identity.device_id
              (hello_packet so a (peer_at a p) n b.helloseq)
              n
              b)
            q in
        (a'.negotiated ≡ true)
        × (b'.negotiated ≡ true)
        × (a'.tx_key ≡ b'.rx_key)
        × (a'.rx_key ≡ b'.tx_key)
  handle_hello_packet_agrees a b p q m n rx tx ka kb smaller kx hm hn =
      let x = end_of_exchange b a q p m tx rx kb ka hm (server_keys a b p q rx tx smaller kx) in
      let y = end_of_exchange a b p q n rx tx ka kb hn (client_keys a b p q rx tx smaller kx) in
      (
        x.negotiated,
        y.negotiated,
        ground (arith, x.tx_key, y.rx_key, ka.flagged, kb.flagged),
        ground (arith, x.rx_key, y.tx_key, ka.flagged, kb.flagged),
      )
