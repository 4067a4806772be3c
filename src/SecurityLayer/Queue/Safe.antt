-- ===== src/SecurityLayer/Queue/Safe.antt =====
-- Every call of security_layer.cpp keeps the queues in order.
use husarnet.Common.{
  ℕ, ◌+◌, ◌-◌, ◌<◌, ◌≡◌, refl, sym, ap, ◌∙◌, true, false, Option, none, some, List, [], ◌∷◌, ◌++◌,
  arith, Bytes, length, drop, substr, ◌==◌, ltb, leb, if◌then◌else◌, Bool, not, Option-cases, inl,
  inr, Bool-cases, length-append, same_bytes, ◌||◌,
}
use husarnet.Util.View.{view_at}
use husarnet.IpAddress.{IpAddress}
use husarnet.Common.Int.{pos}
use husarnet.Crypto.{Sodium, generate_random_string}
use husarnet.Peer.{Peer}
use husarnet.Util.Pack.{from_bytes}
use husarnet.PeerContainer.{get_or_create_peer}
use husarnet.PeerContainer.Invariant.{get_or_create_peer-Found}
use husarnet.SecurityLayer.{
  SecurityLayer, Sent, peer_at, put_peer, in_container, handle_hello_packet, handle_data_packet,
  handle_heartbeat, handle_heartbeat_reply, dispatch, on_lower_layer_data, on_upper_layer_data,
  get_latency, max_queued_packets, send, hello_is_genuine, Call, from_upper, from_lower, latency_of,
  call, run,
}
use husarnet.SecurityLayer.Queue.{
  LayerOk, waiting-update, Moves-LayerOk, Moves-put_peer, Moves-quiet,
}
use husarnet.SecurityLayer.Queue.Steps.{
  Moves-do_send, Moves-send_hello, Moves-exchange, get_or_create_waiting,
}

module _ (so : Sodium) where
  found-LayerOk :
      (s : SecurityLayer) (id : IpAddress)
      → LayerOk s
      → LayerOk (in_container s (get_or_create_peer so s.container id).0)
  found-LayerOk s id v = record {
    queue = record {
      counted = v.queue.counted ∙ sym (get_or_create_waiting so s.container id);
      bounded = v.queue.bounded;
    };
    pointers = (get_or_create_peer-Found so s.container id v.pointers).valid;
  }

  live_of :
      (s : SecurityLayer) (id : IpAddress) (p : ℕ)
      → LayerOk s
      → (get_or_create_peer so s.container id).1 ≡ some p
      → p < (get_or_create_peer so s.container id).0.fresh
  live_of s id p v e = ((get_or_create_peer-Found so s.container id v.pointers).live p e).0

  LayerOk-elim :
      (o : Option ℕ) {x : SecurityLayer} {f : ℕ → SecurityLayer}
      → LayerOk x
      → ((p : ℕ) → o ≡ some p → LayerOk (f p))
      → LayerOk (elim o [ none ↦ x | some p ↦ f p ])
  LayerOk-elim none x f = x
  LayerOk-elim (some p) x f = f p refl

  LayerOk-if :
      (b : Bool) {x y : SecurityLayer} → LayerOk x → LayerOk y → LayerOk (if b then x else y)
  LayerOk-if true x y = x
  LayerOk-if false x y = y

  -- One more packet in a queue that the counter leaves room for.
  enqueue-LayerOk :
      (s : SecurityLayer) (p : ℕ) (packet : Bytes)
      → p < s.container.fresh
      → ltb s.queued_packets max_queued_packets ≡ true
      → LayerOk s
      → LayerOk (
          put_peer
            (record s { queued_packets = s.queued_packets + 1 })
            p
            (record (peer_at s p) { packet_queue = (peer_at s p).packet_queue ++ (packet ∷ []) }))
  enqueue-LayerOk s p packet live room v =
      let longer = record (peer_at s p) {
        packet_queue = (peer_at s p).packet_queue ++ (packet ∷ []);
      } in
      record {
        queue = record {
          counted = omega (
            arith,
            v.queue.counted,
            waiting-update s.container.heap s.container.fresh p longer live,
            length-append (peer_at s p).packet_queue (packet ∷ []),
          );
          bounded = ground arith;
        };
        pointers = record {
          entries = λ id q e. ground (arith, v.pointers.entries id q);
          cache = λ q e. ground (arith, v.pointers.cache q);
        };
      }

  on_upper_layer_data-LayerOk :
      (target : IpAddress) (packet : Bytes) (s : SecurityLayer)
      → LayerOk s
      → LayerOk (on_upper_layer_data so target packet s)
  unfolding on_upper_layer_data
  on_upper_layer_data-LayerOk target packet s v =
      let found = in_container s (get_or_create_peer so s.container target).0 in
      let ok = found-LayerOk s target v in
      LayerOk-elim (get_or_create_peer so s.container target).1 ok λ p e.
        LayerOk-if (peer_at found p).negotiated (Moves-LayerOk (Moves-do_send so p packet found) ok)
          (Moves-LayerOk (Moves-send_hello so p 1 0 _)
            (elim (Bool-cases (ltb s.queued_packets max_queued_packets)) [
              | inl room ↦
                  rw (room) (enqueue-LayerOk found p packet (live_of s target p v e) room ok)
              | inr full ↦ rw (full) ok
            ]))

  -- A write to a peer that leaves its queue and its id.
  write-LayerOk :
      (s : SecurityLayer) (p : ℕ) (peer : Peer)
      → p < s.container.fresh
      → peer.id ≡ (peer_at s p).id
      → peer.packet_queue ≡ (peer_at s p).packet_queue
      → LayerOk s
      → LayerOk (put_peer s p peer)
  write-LayerOk s p peer live i q v = Moves-LayerOk (Moves-put_peer s p peer live i (ap length q)) v

  send-LayerOk : (o : Sent) (s : SecurityLayer) → LayerOk s → LayerOk (send o s)
  send-LayerOk o s v = Moves-LayerOk (Moves-quiet s (send o s) refl refl refl refl refl refl) v

  opened_LayerOk :
      (o : Option Bytes) {x : SecurityLayer} {f : Bytes → SecurityLayer}
      → LayerOk x
      → ((clear : Bytes) → LayerOk (f clear))
      → LayerOk (elim o [ none ↦ x | some clear ↦ f clear ])
  opened_LayerOk none x f = x
  opened_LayerOk (some clear) x f = f clear

  handle_data_packet-LayerOk :
      (now : ℕ) (source : IpAddress) (packet : Bytes) (s : SecurityLayer)
      → LayerOk s
      → LayerOk (handle_data_packet so now source packet s)
  unfolding handle_data_packet
  handle_data_packet-LayerOk now source packet s v =
      let found = in_container s (get_or_create_peer so s.container source).0 in
      let ok = found-LayerOk s source v in
      LayerOk-if (leb (length packet) 49) v (
        LayerOk-elim (get_or_create_peer so s.container source).1 ok λ p e.
          LayerOk-if (not (peer_at found p).negotiated)
            (Moves-LayerOk (Moves-send_hello so p 1 0 found) ok)
            (opened_LayerOk
              (so.secretbox_open_easy (drop 25 packet) (substr 1 24 packet)
                (peer_at found p).rx_key)
              ok
              λ clear. send-LayerOk _ _ (
                write-LayerOk found p (record (peer_at found p) { last_valid_packet = now })
                  (live_of s source p v e) refl refl ok)))

  handle_heartbeat_reply-LayerOk :
      (now : ℕ) (source : IpAddress) (ident : Bytes) (s : SecurityLayer)
      → LayerOk s
      → LayerOk (handle_heartbeat_reply so now source ident s)
  unfolding handle_heartbeat_reply
  handle_heartbeat_reply-LayerOk now source ident s v =
      let found = in_container s (get_or_create_peer so s.container source).0 in
      let ok = found-LayerOk s source v in
      LayerOk-elim (get_or_create_peer so s.container source).1 ok λ p e.
        LayerOk-if (same_bytes ident (peer_at found p).heartbeat_ident)
          (write-LayerOk found p
            (record (peer_at found p) {
              last_latency_received = now;
              latency = pos (now - (peer_at found p).last_latency_sent);
            })
            (live_of s source p v e) refl refl ok)
          ok

  get_latency-LayerOk :
      (now : ℕ) (target : IpAddress) (s : SecurityLayer)
      → LayerOk s
      → LayerOk (get_latency so now target s).0
  unfolding get_latency
  get_latency-LayerOk now target s v =
      let c = (get_or_create_peer so s.container target).0 in
      let ok = found-LayerOk s target v in
      elim (Option-cases (get_or_create_peer so s.container target).1) [
        | inl e ↦ rw (e, get_latency) ok
        | inr (p, e) ↦
            let drawn = in_container s (record c { draws = c.draws + 8 }) in
            let quiet = Moves-quiet (in_container s c) drawn refl refl refl refl refl refl in
            rw (e, get_latency)
              (send-LayerOk _ _ (
                write-LayerOk drawn p
                  (record (peer_at drawn p) {
                    heartbeat_ident = generate_random_string so c.draws 8;
                    last_latency_sent = now;
                  })
                  (live_of s target p v e) refl refl (Moves-LayerOk quiet ok)))
      ]

  handle_hello_packet-LayerOk :
      (source : IpAddress) (packet : Bytes) (num : ℕ) (s : SecurityLayer)
      → LayerOk s
      → LayerOk (handle_hello_packet so source packet num s)
  unfolding handle_hello_packet
  handle_hello_packet-LayerOk source packet num s v =
      let found = in_container s (get_or_create_peer so s.container source).0 in
      let ok = found-LayerOk s source v in
      LayerOk-if (ltb (length packet) 161) v (
        LayerOk-elim (get_or_create_peer so s.container source).1 ok λ p e.
          LayerOk-if (not (hello_is_genuine so source packet found)) ok (
            LayerOk-if (num == 1) (Moves-LayerOk (Moves-send_hello so p 2 _ found) ok) (
              LayerOk-if (not (from_bytes (substr 89 8 packet) == s.helloseq)) ok (
                Moves-LayerOk (Moves-exchange so source packet num p found (live_of s source p v e))
                  ok))))

  dispatch-LayerOk :
      (now : ℕ) (source : IpAddress) (packet : Bytes) (kind : ℕ) (s : SecurityLayer)
      → LayerOk s
      → LayerOk (dispatch so now source packet kind s)
  unfolding dispatch handle_heartbeat
  dispatch-LayerOk now source packet kind s v =
      LayerOk-if (kind == 0)
        (LayerOk-if (leb (length packet) 25) v (handle_data_packet-LayerOk now source packet s v))
        (LayerOk-if (kind == 1 || kind == 2 || kind == 3)
          (LayerOk-if (leb (length packet) 25) v
            (handle_hello_packet-LayerOk source packet kind s v))
          (LayerOk-if (kind == 4 || kind == 5)
            (LayerOk-if (ltb (length packet) 9) v (
              LayerOk-if (kind == 4) (send-LayerOk _ s v)
                (handle_heartbeat_reply-LayerOk now source (substr 1 8 packet) s v)))
            v))

  on_lower_layer_data-LayerOk :
      (now : ℕ) (source : IpAddress) (packet : Bytes) (s : SecurityLayer)
      → LayerOk s
      → LayerOk (on_lower_layer_data so now source packet s)
  unfolding on_lower_layer_data
  on_lower_layer_data-LayerOk now source packet s v = LayerOk-if (leb 2000 (length packet)) v (
      LayerOk-elim (view_at packet 0) (send-LayerOk _ s v)
        λ kind e. dispatch-LayerOk now source packet kind s v)

  call-LayerOk : (now : ℕ) (c : Call) (s : SecurityLayer) → LayerOk s → LayerOk (call so now c s)
  unfolding call
  call-LayerOk now (from_upper target packet) s v = on_upper_layer_data-LayerOk target packet s v
  call-LayerOk now (from_lower source packet) s v =
      on_lower_layer_data-LayerOk now source packet s v
  call-LayerOk now (latency_of target) s v = get_latency-LayerOk now target s v

  -- Every call keeps the pointers of the container valid, the counter equal to the number of packets
  -- that wait in all queues together, and that number at most ten.
  pub run-LayerOk :
      (calls : List (ℕ × Call)) (s : SecurityLayer) → LayerOk s → LayerOk (run so calls s)
  unfolding run
  run-LayerOk [] s v = v
  run-LayerOk ((now, c) ∷ rest) s v = run-LayerOk rest _ (call-LayerOk now c s v)
