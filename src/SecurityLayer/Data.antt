-- ===== src/SecurityLayer/Data.antt =====
-- Data packets of security_layer.cpp: what is sent, and what reaches the layer above.
use husarnet.Common.{
  ℕ, ◌+◌, ◌-◌, ◌≤◌, ◌≡◌, refl, true, some, ◌∷◌, ◌++◌, arith, Bytes, length, drop, substr, replicate,
  length-append, take_all, drop_field, take_field,
}
use husarnet.Util.View.{view_at}
use husarnet.IpAddress.{IpAddress}
use husarnet.Crypto.{Sodium, BoxLaws}
use husarnet.PeerContainer.{get_or_create_peer}
use husarnet.SecurityLayer.{
  SecurityLayer, to_lower, to_upper, data_packet, do_send_data_packet, on_upper_layer_data,
  handle_data_packet, on_lower_layer_data, dispatch,
}

module _ (so : Sodium) (laws : BoxLaws so) where
  data_packet-length :
      (key payload : Bytes) (draw : ℕ)
      → length (data_packet so key (so.random_bytes draw 24) payload) ≡ length payload + 49
  unfolding data_packet
  data_packet-length key payload draw = omega (
    arith,
    length-append (so.random_bytes draw 24)
        (so.secretbox_easy (replicate 8 0 ++ payload) (so.random_bytes draw 24) key),
    laws.random_size draw 24,
    laws.box_size (replicate 8 0 ++ payload) (so.random_bytes draw 24) key,
  )

  -- What the receiver opens is what the sender has closed.
  data_packet_opened :
      (key payload : Bytes) (draw : ℕ)
      → let packet = data_packet so key (so.random_bytes draw 24) payload in
        so.secretbox_open_easy (drop 25 packet) (substr 1 24 packet) key
        ≡ some (replicate 8 0 ++ payload)
  unfolding data_packet
  data_packet_opened key payload draw =
      let nonce = so.random_bytes draw 24 in
      let box = so.secretbox_easy (replicate 8 0 ++ payload) nonce key in
      let cut = drop_field 24 (nonce ++ box) nonce box refl (laws.random_size draw 24) in
      let head = take_field 24 (nonce ++ box) nonce box refl (laws.random_size draw 24) in
      rw (cut, head) (laws.opens (replicate 8 0 ++ payload) nonce key)

  sent_when_negotiated :
      (to : IpAddress) (payload : Bytes) (s : SecurityLayer) (p : ℕ)
      → length payload ≤ 1950
      → (get_or_create_peer so s.container to).1 ≡ some p
      → ((get_or_create_peer so s.container to).0.heap p).negotiated ≡ true
      → (on_upper_layer_data so to payload s).sent
        ≡ to_lower ((get_or_create_peer so s.container to).0.heap p).id (
            data_packet so
              ((get_or_create_peer so s.container to).0.heap p).tx_key
              (so.random_bytes (get_or_create_peer so s.container to).0.draws 24)
              payload)
          ∷ s.sent
  unfolding on_upper_layer_data do_send_data_packet
  sent_when_negotiated to payload s p small found agreed = ground arith

  handled_when_negotiated :
      (now : ℕ) (from : IpAddress) (payload : Bytes) (s : SecurityLayer) (q draw : ℕ) (key : Bytes)
      → 1 ≤ length payload
      → length payload ≤ 1950
      → (get_or_create_peer so s.container from).1 ≡ some q
      → ((get_or_create_peer so s.container from).0.heap q).negotiated ≡ true
      → key ≡ ((get_or_create_peer so s.container from).0.heap q).rx_key
      → (handle_data_packet so now from
          (data_packet so key (so.random_bytes draw 24) payload)
          s).sent
        ≡ to_upper from payload ∷ s.sent
  unfolding handle_data_packet
  handled_when_negotiated now from payload s q draw key big small found agreed same =
      let opened = data_packet_opened key payload draw in
      let size = data_packet-length key payload draw in
      let whole = take_all (length payload) payload (omega arith) in
      let shorter : length payload + 49 - 49 ≡ length payload = omega arith in
      ground (arith, opened, size, whole, shorter)

  received_when_negotiated :
      (now : ℕ) (from : IpAddress) (payload : Bytes) (s : SecurityLayer) (q draw : ℕ) (key : Bytes)
      → 1 ≤ length payload
      → length payload ≤ 1950
      → (get_or_create_peer so s.container from).1 ≡ some q
      → ((get_or_create_peer so s.container from).0.heap q).negotiated ≡ true
      → key ≡ ((get_or_create_peer so s.container from).0.heap q).rx_key
      → (on_lower_layer_data so now from
          (data_packet so key (so.random_bytes draw 24) payload)
          s).sent
        ≡ to_upper from payload ∷ s.sent
  unfolding on_lower_layer_data dispatch view_at
  received_when_negotiated now from payload s q draw key big small found agreed same =
      let packet = data_packet so key (so.random_bytes draw 24) payload in
      let handled =
        handled_when_negotiated now from payload s q draw key big small found agreed same in
      let size = data_packet-length key payload draw in
      unfold data_packet in ground (arith, handled, size)

  -- A packet of 1 to 1950 bytes for a peer with session keys leaves as one packet below, and the
  -- receiver that has the same key for the sender hands exactly those bytes to its upper layer.
  pub on_lower_layer_data-on_upper_layer_data :
      (now : ℕ) (from to : IpAddress) (payload : Bytes) (a b : SecurityLayer) (p q : ℕ)
      → 1 ≤ length payload
      → length payload ≤ 1950
      → (get_or_create_peer so a.container to).1 ≡ some p
      → (get_or_create_peer so b.container from).1 ≡ some q
      → ((get_or_create_peer so a.container to).0.heap p).negotiated ≡ true
      → ((get_or_create_peer so b.container from).0.heap q).negotiated ≡ true
      → ((get_or_create_peer so a.container to).0.heap p).tx_key
        ≡ ((get_or_create_peer so b.container from).0.heap q).rx_key
      → (wire : Bytes) × ((on_upper_layer_data so to payload a).sent
          ≡ to_lower ((get_or_create_peer so a.container to).0.heap p).id wire ∷ a.sent)
        × ((on_lower_layer_data so now from wire b).sent ≡ to_upper from payload ∷ b.sent)
  on_lower_layer_data-on_upper_layer_data now from to payload a b p q big small fa fb na nb same = (
    data_packet so ((get_or_create_peer so a.container to).0.heap p).tx_key
        (so.random_bytes (get_or_create_peer so a.container to).0.draws 24) payload,
    sent_when_negotiated to payload a p small fa na,
    received_when_negotiated now from payload b q (get_or_create_peer so a.container to).0.draws _
        big small fb nb same,
  )
