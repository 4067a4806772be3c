-- ===== src/Tests/Layers.antt =====
-- Tests of the multicast and the security layer.
use husarnet.Common.{
  true, ◌≡◌, ◌⊎◌, refl, [], ◌∷◌, ◌++◌, Bytes, replicate, arith, map, byte_at, same_bytes, inl,
  same_bytes_iff, ◌≢◌,
}
use husarnet.IpAddress.{IpAddress, no_address, bytes_lt}
use husarnet.PeerContainer.{new_container, find, get_peer, get_or_create_peer}
use husarnet.SecurityLayer.{
  SecurityLayer, from_upper, from_lower, latency_of, run, new_security_layer,
}
use husarnet.SecurityLayer.{peer_at, hello_packet, hello_is_genuine, handle_hello_packet}
use husarnet.SecurityLayer.Hello.{CanGreet, hello_packet-genuine}
use husarnet.SecurityLayer.Agreement.{KxAgrees, Knows, handle_hello_packet_agrees}
use husarnet.Crypto.{pubkey_to_device_id}
use husarnet.SecurityLayer.Data.{on_lower_layer_data-on_upper_layer_data}
use husarnet.SecurityLayer.Queue.{LayerOk, waiting}
use husarnet.SecurityLayer.Queue.Safe.{run-LayerOk}
use husarnet.SecurityLayer.Upward.{upward, Authentic, on_lower_layer_data-upward}
use husarnet.MulticastLayer.{ip_packet, to_lower, to_upper}
use husarnet.MulticastLayer
use husarnet.SecurityLayer
use husarnet.MulticastLayer.Delivery.{
  IsIpv6, packet_of, on_lower_layer_data-on_upper_layer_data_unicast,
  on_lower_layer_data-on_upper_layer_data_multicast,
}
use husarnet.Tests.World.{
  sodium, sodium-BoxLaws, sodium-SigningLaws, config, my_id, other_id, layer_of,
}

abbrev head : Bytes
head = 0x60 ∷ 0 ∷ 0 ∷ 0 ∷ 0 ∷ 2 ∷ 17 ∷ 64 ∷ []

abbrev payload : Bytes
payload = 5 ∷ 6 ∷ []

head-IsIpv6 : IsIpv6 head my_id other_id payload
head-IsIpv6 = record {
  head_size = refl;
  version = refl;
  source_size = refl;
  target_size = refl;
  filled = omega arith;
}

abbrev group : IpAddress
group = 0xff ∷ 0x02 ∷ replicate 14 1

group-IsIpv6 : IsIpv6 head my_id group payload
group-IsIpv6 = record {
  head_size = refl;
  version = refl;
  source_size = refl;
  target_size = refl;
  filled = omega arith;
}

udp_is_not_255 : byte_at head 6 ≢ 0xff
udp_is_not_255 e = ground arith

on_lower_layer_data-on_upper_layer_data_unicast_example :
    (wire : Bytes) × (MulticastLayer.on_upper_layer_data config my_id
        (packet_of head my_id other_id payload)
      ≡ to_lower other_id wire ∷ [])
    × (MulticastLayer.on_lower_layer_data other_id my_id wire
        ≡ to_upper my_id (ip_packet (byte_at head 6) my_id other_id payload) ∷ [])
on_lower_layer_data-on_upper_layer_data_unicast_example =
    on_lower_layer_data-on_upper_layer_data_unicast config head my_id other_id payload head-IsIpv6
      refl refl (inl udp_is_not_255)

on_lower_layer_data-on_upper_layer_data_multicast_example :
    (wire : Bytes) × (MulticastLayer.on_upper_layer_data config my_id
        (packet_of head my_id group payload)
      ≡ map (λ dest. to_lower dest wire) (other_id ∷ []))
    × (MulticastLayer.on_lower_layer_data other_id my_id wire
        ≡ to_upper no_address (ip_packet (byte_at head 6) my_id group payload) ∷ [])
on_lower_layer_data-on_upper_layer_data_multicast_example =
    on_lower_layer_data-on_upper_layer_data_multicast config my_id other_id head my_id group payload
      group-IsIpv6 refl

abbrev mine : SecurityLayer
mine = layer_of 6 my_id other_id

abbrev theirs : SecurityLayer
theirs = layer_of 7 other_id my_id

on_lower_layer_data-on_upper_layer_data_example :
    (wire : Bytes) × ((SecurityLayer.on_upper_layer_data sodium other_id payload mine).sent
      ≡ SecurityLayer.to_lower other_id wire ∷ [])
    × ((SecurityLayer.on_lower_layer_data sodium 7 my_id wire theirs).sent
        ≡ SecurityLayer.to_upper my_id payload ∷ [])
unfolding new_container get_or_create_peer get_peer same_bytes
on_lower_layer_data-on_upper_layer_data_example =
    on_lower_layer_data-on_upper_layer_data sodium sodium-BoxLaws 7 my_id other_id payload mine
      theirs 0 0 (omega arith) (omega arith) refl refl refl refl refl

-- A data packet that the keys open.
abbrev wire_packet : Bytes
wire_packet = 0 ∷ (replicate 24 9 ++ (replicate 8 0 ++ (payload ++ replicate 16 0)))

on_lower_layer_data-upward_example :
    (upward (SecurityLayer.on_lower_layer_data sodium 7 my_id wire_packet theirs).sent ≡ [])
    ⊎ ((bytes : Bytes) × (Authentic sodium my_id wire_packet bytes theirs)
        × (upward (SecurityLayer.on_lower_layer_data sodium 7 my_id wire_packet theirs).sent
            ≡ (my_id, bytes) ∷ []))
unfolding upward
on_lower_layer_data-upward_example = on_lower_layer_data-upward sodium 7 my_id wire_packet theirs

mine-LayerOk : LayerOk mine
unfolding new_container find waiting
mine-LayerOk = record {
  queue = record { counted = refl; bounded = omega arith };
  pointers = record {
    entries = λ id p e. ground (arith, same_bytes_iff other_id id);
    cache = λ p e. ground arith;
  };
}

run-LayerOk_example :
    LayerOk (
      run sodium
        ((5, from_upper other_id payload) ∷ (6, from_lower other_id wire_packet) ∷ [])
        mine)
run-LayerOk_example =
    run-LayerOk sodium
      ((5, from_upper other_id payload) ∷ (6, from_lower other_id wire_packet) ∷ []) mine
      mine-LayerOk

mine-CanGreet : CanGreet sodium mine (peer_at mine 0)
unfolding new_container pubkey_to_device_id
mine-CanGreet = record {
  hashes = refl;
  key_size = refl;
  signing = sodium-SigningLaws (replicate 32 6) (replicate 64 6);
  kx_size = refl;
  id_size = refl;
  helloseq_fits = omega arith;
  flags_fit = omega arith;
}

theirs-CanGreet : CanGreet sodium theirs (peer_at theirs 0)
unfolding new_container pubkey_to_device_id
theirs-CanGreet = record {
  hashes = refl;
  key_size = refl;
  signing = sodium-SigningLaws (replicate 32 7) (replicate 64 7);
  kx_size = refl;
  id_size = refl;
  helloseq_fits = omega arith;
  flags_fit = omega arith;
}

mine-Knows : Knows sodium mine 0 other_id
unfolding new_container get_or_create_peer get_peer same_bytes
mine-Knows = record {
  greets = mine-CanGreet;
  found = refl;
  names = refl;
  flagged = λ e. omega arith;
}

theirs-Knows : Knows sodium theirs 0 my_id
unfolding new_container get_or_create_peer get_peer same_bytes
theirs-Knows = record {
  greets = theirs-CanGreet;
  found = refl;
  names = refl;
  flagged = λ e. omega arith;
}

keys-KxAgrees :
    KxAgrees sodium
      (peer_at theirs 0).kx_pubkey
      (peer_at theirs 0).kx_privkey
      (peer_at mine 0).kx_pubkey
      (peer_at mine 0).kx_privkey
      (replicate 32 4)
      (replicate 32 5)
keys-KxAgrees = record { client = refl; server = refl }

handle_hello_packet_agrees_example :
    let a' =
      peer_at
        (handle_hello_packet sodium other_id
          (hello_packet sodium theirs (peer_at theirs 0) 2 0)
          2
          mine)
        0 in
    let b' =
      peer_at
        (handle_hello_packet sodium my_id (hello_packet sodium mine (peer_at mine 0) 3 0) 3 theirs)
        0 in
    (a'.negotiated ≡ true)
    × (b'.negotiated ≡ true)
    × (a'.tx_key ≡ b'.rx_key)
    × (a'.rx_key ≡ b'.tx_key)
unfolding bytes_lt
handle_hello_packet_agrees_example =
    handle_hello_packet_agrees sodium mine theirs 0 0 2 3 (replicate 32 4) (replicate 32 5)
      mine-Knows theirs-Knows refl keys-KxAgrees (λ e. omega arith) (λ e. omega arith)

hello_packet-genuine_example :
    hello_is_genuine sodium my_id (hello_packet sodium mine (peer_at mine 0) 1 0) theirs ≡ true
unfolding new_container
hello_packet-genuine_example =
    hello_packet-genuine sodium mine theirs (peer_at mine 0) 1 0 mine-CanGreet (omega arith) refl
