-- ===== src/SecurityLayer/Queue/Steps.antt =====
-- How the parts of a handler of security_layer.cpp move the queues.
use husarnet.Common.{
  ℕ, ◌+◌, ◌-◌, ◌%◌, ◌^◌, ◌<◌, ◌≡◌, refl, sym, subst, ap, ap₂, ◌∙◌, true, List, [], ◌∷◌, arith,
  Bytes, length, take, drop, substr, ◌==◌, Option-cases, inl, inr,
}
use husarnet.IpAddress.{IpAddress}
use husarnet.Crypto.{Sodium}
use husarnet.Peer.{Peer}
use husarnet.Util.Pack.{from_bytes}
use husarnet.PeerContainer.{PeerContainer, get_or_create_peer, get_peer, create_peer}
use husarnet.SecurityLayer.{
  SecurityLayer, peer_at, put_peer, do_send_data_packet, send_queue, finish_negotiation,
  send_hello_packet, exchange_keys, session_keys, mix_into, hello_flags,
}
use husarnet.SecurityLayer.Queue.{
  Moves, waiting, waiting_beyond, waiting-update, update_here, Moves-trans, Moves-put_peer,
  Moves-quiet, Moves-if,
}

module _ (so : Sodium) where
  pub Moves-do_send :
      (p : ℕ) (packet : Bytes) (s : SecurityLayer) → Moves s (do_send_data_packet so p packet s)
  unfolding do_send_data_packet
  Moves-do_send p packet s =
      Moves-quiet s _ (ground arith) (ground arith) (ground arith) (ground arith) (ground arith)
        (ground arith)

  pub Moves-send_hello :
      (p num seq : ℕ) (s : SecurityLayer) → Moves s (send_hello_packet so p num seq s)
  unfolding send_hello_packet
  Moves-send_hello p num seq s =
      Moves-quiet s _ (ground arith) (ground arith) (ground arith) (ground arith) (ground arith)
        (ground arith)

  -- What sending a queue of `n` packets leaves as it was.
  pub record Drained (n : ℕ) (s t : SecurityLayer) : Type 0 where
    pub fresh : t.container.fresh ≡ s.container.fresh
    pub peers : t.container.peers ≡ s.container.peers
    pub cached_peer : t.container.cached_peer ≡ s.container.cached_peer
    pub cached_peer_id : t.container.cached_peer_id ≡ s.container.cached_peer_id
    pub heap : t.container.heap ≡ s.container.heap
    pub count : t.queued_packets ≡ s.queued_packets - n

  pub send_queue-Drained :
      (p : ℕ) (queue : List Bytes) (s : SecurityLayer)
      → Drained (length queue) s (send_queue so p queue s)
  unfolding send_queue
  send_queue-Drained p [] s = record {
    fresh = refl;
    peers = refl;
    cached_peer = refl;
    cached_peer_id = refl;
    heap = refl;
    count = omega arith;
  }
  send_queue-Drained p (packet ∷ rest) s =
      let less = record s { queued_packets = s.queued_packets - 1 } in
      let later = send_queue-Drained p rest (do_send_data_packet so p packet less) in
      record {
        fresh = later.fresh ∙ (unfold do_send_data_packet in ground arith);
        peers = later.peers ∙ (unfold do_send_data_packet in ground arith);
        cached_peer = later.cached_peer ∙ (unfold do_send_data_packet in ground arith);
        cached_peer_id = later.cached_peer_id ∙ (unfold do_send_data_packet in ground arith);
        heap = later.heap ∙ (unfold do_send_data_packet in ground arith);
        count = later.count ∙ (unfold do_send_data_packet in ground arith);
      }

  pub Moves-finish :
      (p : ℕ) (s : SecurityLayer) → p < s.container.fresh → Moves s (finish_negotiation so p s)
  unfolding finish_negotiation
  Moves-finish p s live =
      let agreed = put_peer s p (record (peer_at s p) { negotiated = true }) in
      let d = send_queue-Drained p (peer_at s p).packet_queue agreed in
      let emptied = send_queue so p (peer_at s p).packet_queue agreed in
      let first = Moves-put_peer s p (record (peer_at s p) { negotiated = true }) live refl refl in
      let bare = record (peer_at emptied p) { packet_queue = [] } in
      let same : peer_at emptied p ≡ peer_at agreed p = ap (λ heap. heap p) d.heap in
      record {
        fresh = d.fresh;
        peers = d.peers;
        cached_peer = d.cached_peer;
        cached_peer_id = d.cached_peer_id;
        ids = λ q. ground (arith, ap (λ heap. (heap q).id) d.heap);
        queue = λ v. record {
          counted = omega (
            arith,
            d.count,
            v.counted,
            (first.queue v).counted,
            waiting-update emptied.container.heap emptied.container.fresh p bare
                (subst (λ n. p < n) (sym d.fresh) live),
            ap₂ waiting d.heap d.fresh,
            ap (λ peer. length peer.packet_queue) same,
            ap (λ peer. length peer.packet_queue)
                (update_here s.container.heap p (record (peer_at s p) { negotiated = true })),
          );
          bounded = omega (arith, d.count, v.bounded);
        };
      }

  pub Moves-mix :
      (theirs ours : ℕ) (peer : Peer)
      → ((mix_into so theirs ours peer).id ≡ peer.id)
        × ((mix_into so theirs ours peer).packet_queue ≡ peer.packet_queue)
  unfolding mix_into
  Moves-mix theirs ours peer = (ground arith, ground arith)

  pub get_or_create_waiting :
      (c : PeerContainer) (id : IpAddress)
      → waiting (get_or_create_peer so c id).0.heap (get_or_create_peer so c id).0.fresh
        ≡ waiting c.heap c.fresh
  unfolding get_or_create_peer get_peer create_peer waiting
  get_or_create_waiting c id = grind (arith, waiting_beyond)

  pub Moves-exchange :
      (source : IpAddress) (packet : Bytes) (num p : ℕ) (s : SecurityLayer)
      → p < s.container.fresh
      → Moves s (exchange_keys so source packet num p s)
  unfolding exchange_keys
  Moves-exchange source packet num p s live =
      let flagged = record (peer_at s p) { flags = hello_flags so packet } in
      elim (Option-cases
        (session_keys so source s.identity.device_id (take 32 (drop 33 packet)) flagged)) [
          | inl e ↦
              let mixed = Moves-mix (hello_flags so packet) s.flags flagged in
              rw (e, exchange_keys)
                (Moves-put_peer s p (mix_into so (hello_flags so packet) s.flags flagged) live
                  mixed.0 (ap length mixed.1))
          | inr ((rx, tx), e) ↦
              let keyed = record flagged { rx_key = rx; tx_key = tx } in
              let mixed = Moves-mix (hello_flags so packet) s.flags keyed in
              let written = put_peer s p (mix_into so (hello_flags so packet) s.flags keyed) in
              let finished = finish_negotiation so p written in
              let counted = record finished { helloseq = (finished.helloseq + 1) % 2 ^ 64 } in
              let moved =
                Moves-trans
                  (Moves-trans
                    (Moves-put_peer s p (mix_into so (hello_flags so packet) s.flags keyed) live
                      mixed.0 (ap length mixed.1))
                    (Moves-finish p written live))
                  (Moves-quiet finished counted refl refl refl refl refl refl) in
              rw (e, exchange_keys)
                (Moves-if (num == 2)
                  (Moves-trans moved
                    (Moves-send_hello p 3 (from_bytes (substr 81 8 packet)) counted))
                  moved)
        ]
