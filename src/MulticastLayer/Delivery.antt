-- ===== src/MulticastLayer/Delivery.antt =====
-- Packets that go through multicast_layer.cpp on one device and come out of it on another.
use husarnet.Common.{
  ℕ, zero, suc, sym, append_assoc, ◌+◌, ◌/◌, ◌≤◌, ◌<◌, ◌≡◌, ◌≢◌, ◌⊎◌, refl, ap, ◌∙◌, List, [], ◌∷◌,
  ◌++◌, arith, Bytes, length, drop, substr, byte_at, length-append, same_bytes_refl, substr_field,
  drop_field, take_field, map,
}
use husarnet.IpAddress.{IpAddress, no_address}
use husarnet.ConfigManager.{ConfigManager, get_multicast_destinations}
use husarnet.MulticastLayer.{
  to_lower, to_upper, ip_packet, on_lower_layer_data, on_upper_layer_data, send_to_all,
}

-- An IPv6 packet: its first eight bytes, its addresses and what follows them.
pub record IsIpv6 (head : Bytes) (source target : IpAddress) (payload : Bytes) : Type 0 where
  pub head_size : length head ≡ 8
  pub version : byte_at head 0 / 16 ≡ 6
  pub source_size : length source ≡ 16
  pub target_size : length target ≡ 16
  pub filled : 1 ≤ length payload

abbrev pub packet_of : Bytes → IpAddress → IpAddress → Bytes → Bytes
packet_of head source target payload = head ++ (source ++ (target ++ payload))

byte_at-append : (i : ℕ) (xs ys : Bytes) → i < length xs → byte_at (xs ++ ys) i ≡ byte_at xs i
byte_at-append i [] ys h = absurd (omega arith)
byte_at-append zero (x ∷ xs) ys h = refl
byte_at-append (suc i) (x ∷ xs) ys h = byte_at-append i xs ys (omega arith)

record Fields (head : Bytes) (source target : IpAddress) (payload : Bytes) : Type 0 where
  source_field : substr 8 16 (packet_of head source target payload) ≡ source
  target_field : substr 24 16 (packet_of head source target payload) ≡ target
  rest : drop 40 (packet_of head source target payload) ≡ payload
  size : length (packet_of head source target payload) ≡ length payload + 40
  first : byte_at (packet_of head source target payload) 0 ≡ byte_at head 0
  protocol : byte_at (packet_of head source target payload) 6 ≡ byte_at head 6

fields :
    (head : Bytes) (source target : IpAddress) (payload : Bytes)
    → IsIpv6 head source target payload
    → Fields head source target payload
fields head source target payload v = record {
  source_field = substr_field 8 16 _ head source (target ++ payload) refl v.head_size v.source_size;
  target_field =
      substr_field 24 16 _ (head ++ source) target payload
        (sym (append_assoc head source (target ++ payload)))
        (omega (arith, length-append head source, v.head_size, v.source_size)) v.target_size;
  rest =
      drop_field 40 _ (head ++ (source ++ target)) payload
        (ap (λ x. head ++ x) (sym (append_assoc source target payload))
          ∙ sym (append_assoc head (source ++ target) payload))
        (omega (
          arith,
          length-append head (source ++ target),
          length-append source target,
          v.head_size,
          v.source_size,
          v.target_size,
        ));
  size = omega (
    arith,
    length-append head (source ++ (target ++ payload)),
    length-append source (target ++ payload),
    length-append target payload,
    v.head_size,
    v.source_size,
    v.target_size,
  );
  first = byte_at-append 0 head _ (omega (arith, v.head_size));
  protocol = byte_at-append 6 head _ (omega (arith, v.head_size));
}

abbrev pub unicast_wire : Bytes → Bytes → Bytes
unicast_wire head payload = byte_at head 6 ∷ payload

sent_unicast :
    (config : ConfigManager) (head : Bytes) (source target : IpAddress) (payload : Bytes)
    → IsIpv6 head source target payload
    → byte_at target 0 ≡ 0xfc
    → byte_at target 1 ≡ 0x94
    → on_upper_layer_data config source (packet_of head source target payload)
      ≡ to_lower target (unicast_wire head payload) ∷ []
unfolding on_upper_layer_data
sent_unicast config head source target payload v fc nf =
    let f = fields head source target payload v in
    ground (
      arith,
      f.source_field,
      f.target_field,
      f.rest,
      f.size,
      f.first,
      f.protocol,
      v.version,
      v.filled,
      same_bytes_refl source,
    )

received_unicast :
    (head : Bytes) (source target : IpAddress) (payload : Bytes)
    → 1 ≤ length payload
    → (byte_at head 6 ≢ 0xff) ⊎ (byte_at payload 0 ≢ 0x01)
    → on_lower_layer_data target source (unicast_wire head payload)
      ≡ to_upper source (ip_packet (byte_at head 6) source target payload) ∷ []
unfolding on_lower_layer_data
received_unicast head source target payload filled apart = ground arith

-- A packet of the network device for another device leaves once, for that device, and comes out there
-- with the same addresses, protocol and payload. It excludes protocol 255 with a payload that starts
-- with 1, which reads as multicast.
pub on_lower_layer_data-on_upper_layer_data_unicast :
    (config : ConfigManager) (head : Bytes) (source target : IpAddress) (payload : Bytes)
    → IsIpv6 head source target payload
    → byte_at target 0 ≡ 0xfc
    → byte_at target 1 ≡ 0x94
    → (byte_at head 6 ≢ 0xff) ⊎ (byte_at payload 0 ≢ 0x01)
    → (wire : Bytes) × (on_upper_layer_data config source (packet_of head source target payload)
        ≡ to_lower target wire ∷ [])
      × (on_lower_layer_data target source wire
          ≡ to_upper source (ip_packet (byte_at head 6) source target payload) ∷ [])
on_lower_layer_data-on_upper_layer_data_unicast config head source target payload v fc nf apart = (
  unicast_wire head payload,
  sent_unicast config head source target payload v fc nf,
  received_unicast head source target payload v.filled apart,
)

abbrev pub multicast_wire : Bytes → IpAddress → Bytes → Bytes
multicast_wire head target payload = 0xff ∷ 0x01 ∷ byte_at head 6 ∷ (target ++ payload)

received_multicast :
    (head : Bytes) (me source target : IpAddress) (payload : Bytes)
    → 1 ≤ length payload
    → length target ≡ 16
    → byte_at target 0 ≡ 0xff
    → on_lower_layer_data me source (multicast_wire head target payload)
      ≡ to_upper no_address (ip_packet (byte_at head 6) source target payload) ∷ []
unfolding on_lower_layer_data
received_multicast head me source target payload filled size ff = ground (
  arith,
  take_field 16 (target ++ payload) target payload refl size,
  drop_field 16 (target ++ payload) target payload refl size,
  length-append target payload,
)

send_to_all-map :
    (list : List IpAddress) (packet : Bytes)
    → send_to_all list packet ≡ map (λ dest. to_lower dest packet) list
unfolding send_to_all
send_to_all-map [] packet = refl
send_to_all-map (dest ∷ rest) packet = rw (send_to_all-map rest packet) refl

-- A multicast packet of the network device, whatever its source address, leaves once for each allowed
-- peer, and comes out of any device with its target address, protocol and payload, and as its source
-- the peer that sent it.
pub on_lower_layer_data-on_upper_layer_data_multicast :
    (config : ConfigManager) (me other : IpAddress) (head : Bytes) (source target : IpAddress)
    (payload : Bytes)
    → IsIpv6 head source target payload
    → byte_at target 0 ≡ 0xff
    → (wire : Bytes) × (on_upper_layer_data config me (packet_of head source target payload)
        ≡ map (λ dest. to_lower dest wire) config.allowed_peers)
      × (on_lower_layer_data other me wire
          ≡ to_upper no_address (ip_packet (byte_at head 6) me target payload) ∷ [])
unfolding on_upper_layer_data get_multicast_destinations
on_lower_layer_data-on_upper_layer_data_multicast config me other head source target payload v ff =
    let f = fields head source target payload v in
    let wire = multicast_wire head target payload in
    (
      wire,
      ground (
        arith,
        f.target_field,
        f.rest,
        f.size,
        f.first,
        f.protocol,
        v.version,
        v.filled,
        send_to_all-map config.allowed_peers wire,
      ),
      received_multicast head other me target payload v.filled v.target_size ff,
    )
