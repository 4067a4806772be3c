-- ===== src/SecurityLayer/Upward.antt =====
-- What security_layer.cpp hands to the layer above, whatever comes from below.
use husarnet.Common.{
  ℕ, ◌-◌, ◌≡◌, ◌⊎◌, refl, ◌∙◌, true, false, some, List, [], ◌∷◌, arith, Bytes, length, take, drop,
  substr, ◌==◌, leb, if◌then◌else◌, Bool, Option-cases, Bool-cases, inl, inr,
}
use husarnet.Util.View.{view_at, view_at_inside}
use husarnet.IpAddress.{IpAddress}
use husarnet.Crypto.{Sodium}
use husarnet.PeerContainer.{get_or_create_peer}
use husarnet.SecurityLayer.{
  SecurityLayer, Sent, to_lower, to_upper, aborted, peer_at, in_container, do_send_data_packet,
  send_queue, finish_negotiation, send_hello_packet, exchange_keys, session_keys, hello_flags,
  handle_hello_packet, handle_data_packet, handle_heartbeat, handle_heartbeat_reply, dispatch,
  on_lower_layer_data,
}

-- The packets for the layer above, newest first.
unfoldable pub upward : List Sent → List (IpAddress × Bytes)
upward [] = []
upward (to_upper source packet ∷ rest) = (source, packet) ∷ upward rest
upward (to_lower target packet ∷ rest) = upward rest
upward (aborted ∷ rest) = upward rest

module _ (so : Sodium) where
  -- A packet from `source` that a negotiated peer's key opens, and its bytes.
  pub record Authentic (source : IpAddress) (packet payload : Bytes) (s : SecurityLayer)
      : Type 0 where
    pub peer : ℕ
    pub clear : Bytes
    pub found : (get_or_create_peer so s.container source).1 ≡ some peer
    pub agreed : ((get_or_create_peer so s.container source).0.heap peer).negotiated ≡ true
    pub opened :
        so.secretbox_open_easy
          (drop 25 packet)
          (substr 1 24 packet)
          ((get_or_create_peer so s.container source).0.heap peer).rx_key
        ≡ some clear
    pub bytes : payload ≡ take (length packet - 49) (drop 8 clear)

  do_send_quiet :
      (p : ℕ) (packet : Bytes) (s : SecurityLayer)
      → upward (do_send_data_packet so p packet s).sent ≡ upward s.sent
  unfolding do_send_data_packet upward
  do_send_quiet p packet s = ground arith

  send_hello_quiet :
      (p num seq : ℕ) (s : SecurityLayer)
      → upward (send_hello_packet so p num seq s).sent ≡ upward s.sent
  unfolding send_hello_packet upward
  send_hello_quiet p num seq s = ground arith

  send_queue_quiet :
      (p : ℕ) (queue : List Bytes) (s : SecurityLayer)
      → upward (send_queue so p queue s).sent ≡ upward s.sent
  unfolding send_queue
  send_queue_quiet p [] s = refl
  send_queue_quiet p (packet ∷ rest) s = send_queue_quiet p rest _ ∙ do_send_quiet p packet _

  finish_quiet :
      (p : ℕ) (s : SecurityLayer) → upward (finish_negotiation so p s).sent ≡ upward s.sent
  unfolding finish_negotiation
  finish_quiet p s = send_queue_quiet p _ _

  exchange_quiet :
      (source : IpAddress) (packet : Bytes) (num p : ℕ) (s : SecurityLayer)
      → upward (exchange_keys so source packet num p s).sent ≡ upward s.sent
  unfolding exchange_keys
  exchange_quiet source packet num p s =
      elim (Option-cases (
        session_keys so source s.identity.device_id (take 32 (drop 33 packet))
          (record (peer_at s p) { flags = hello_flags so packet }))) [
            | inl e ↦ rw (e, exchange_keys) refl
            | inr ((rx, tx), e) ↦ grind (arith, finish_quiet, send_hello_quiet)
          ]

  hello_quiet :
      (source : IpAddress) (packet : Bytes) (num : ℕ) (s : SecurityLayer)
      → upward (handle_hello_packet so source packet num s).sent ≡ upward s.sent
  unfolding handle_hello_packet
  hello_quiet source packet num s = grind (arith, exchange_quiet, send_hello_quiet)

  heartbeats_quiet :
      (now : ℕ) (source : IpAddress) (ident : Bytes) (s : SecurityLayer)
      → (upward (handle_heartbeat so source ident s).sent ≡ upward s.sent)
        × (upward (handle_heartbeat_reply so now source ident s).sent ≡ upward s.sent)
  unfolding handle_heartbeat handle_heartbeat_reply upward
  heartbeats_quiet now source ident s = (refl, ground arith)

  data-Authentic :
      (now : ℕ) (source : IpAddress) (packet : Bytes) (s : SecurityLayer)
      → (upward (handle_data_packet so now source packet s).sent ≡ upward s.sent)
        ⊎ ((payload : Bytes) × (Authentic source packet payload s)
            × (upward (handle_data_packet so now source packet s).sent
                ≡ (source, payload) ∷ upward s.sent))
  unfolding handle_data_packet upward
  data-Authentic now source packet s =
      elim (Option-cases (get_or_create_peer so s.container source).1) [
        | inl e ↦ inl (ground arith)
        | inr (p, e) ↦
            let peer = (get_or_create_peer so s.container source).0.heap p in
            elim (Bool-cases (leb (length packet) 49)) [
              | inl small ↦ inl (ground arith)
              | inr big ↦ elim (Bool-cases peer.negotiated) [
                | inr n ↦ inl (
                    ground (
                      arith,
                      send_hello_quiet p 1 0
                          (in_container s (get_or_create_peer so s.container source).0),
                    ))
                | inl n ↦
                    elim (Option-cases
                      (so.secretbox_open_easy (drop 25 packet) (substr 1 24 packet) peer.rx_key)) [
                        | inl c ↦ inl (ground arith)
                        | inr (clear, c) ↦ inr (
                          take (length packet - 49) (drop 8 clear),
                          record {
                            peer = p;
                            clear = clear;
                            found = e;
                            agreed = n;
                            opened = c;
                            bytes = refl;
                          },
                          ground arith,
                        )
                      ]
              ]
            ]
      ]

  dispatch-Authentic :
      (now : ℕ) (source : IpAddress) (packet : Bytes) (kind : ℕ) (s : SecurityLayer)
      → (upward (dispatch so now source packet kind s).sent ≡ upward s.sent)
        ⊎ ((payload : Bytes) × (Authentic source packet payload s)
            × (upward (dispatch so now source packet kind s).sent
                ≡ (source, payload) ∷ upward s.sent))
  unfolding dispatch
  dispatch-Authentic now source packet kind s = elim (Bool-cases (kind == 0)) [
    | inl z ↦ elim (Bool-cases (leb (length packet) 25)) [
      | inl small ↦ inl (ground arith)
      | inr big ↦ rw (z, dispatch, big) (data-Authentic now source packet s)
    ]
    | inr z ↦ inl (
        ground (
          arith,
          hello_quiet source packet kind s,
          heartbeats_quiet now source (substr 1 8 packet) s,
        ))
  ]

  by_size :
      (source : IpAddress) (packet : Bytes) (s t : SecurityLayer) (b : Bool)
      → (upward t.sent ≡ upward s.sent)
        ⊎ ((payload : Bytes) × (Authentic source packet payload s)
            × (upward t.sent ≡ (source, payload) ∷ upward s.sent))
      → (upward (if b then s else t).sent ≡ upward s.sent)
        ⊎ ((payload : Bytes) × (Authentic source packet payload s)
            × (upward (if b then s else t).sent ≡ (source, payload) ∷ upward s.sent))
  by_size source packet s t true h = inl refl
  by_size source packet s t false h = h

  -- Whatever packet comes from below, at most one packet goes up; it goes up only if the peer of its
  -- source has session keys that open it, and it is what they open, without the eight bytes in front.
  pub on_lower_layer_data-upward :
      (now : ℕ) (source : IpAddress) (packet : Bytes) (s : SecurityLayer)
      → (upward (on_lower_layer_data so now source packet s).sent ≡ upward s.sent)
        ⊎ ((payload : Bytes) × (Authentic source packet payload s)
            × (upward (on_lower_layer_data so now source packet s).sent
                ≡ (source, payload) ∷ upward s.sent))
  unfolding on_lower_layer_data
  on_lower_layer_data-upward now source [] s = unfold view_at in unfold upward in inl refl
  on_lower_layer_data-upward now source (kind ∷ rest) s =
      let first : view_at (kind ∷ rest) 0 ≡ some kind =
        view_at_inside (kind ∷ rest) 0 (omega arith) in
      rw (first, on_lower_layer_data)
        (by_size source (kind ∷ rest) s (dispatch so now source (kind ∷ rest) kind s)
          (leb 2000 (length (kind ∷ rest))) (dispatch-Authentic now source (kind ∷ rest) kind s))
