-- ===== src/MulticastLayer.antt =====
-- core/husarnet/multicast_layer.h and multicast_layer.cpp, compression_layer.cpp without zstd: between
-- the network device, which gives and takes IPv6 packets, and the layers below. The layer keeps no
-- state: its operations are the list of what it sends, in order.
pub mod Delivery
use husarnet.Common.{
  ℕ, ◌-◌, ◌*◌, ◌/◌, ◌%◌, Bool, true, false, not, ◌&&◌, List, [], ◌∷◌, ◌++◌, Bytes, ◌==◌, ltb, leb,
  if◌then◌else◌, length, drop, substr, byte_at, same_bytes,
}
use husarnet.IpAddress.{IpAddress, no_address}
use husarnet.ConfigManager.{ConfigManager, get_multicast_destinations}

pub data Sent : Type 0 where
  to_lower to_upper : IpAddress → Bytes → Sent

-- The IPv6 packet for the network device: no traffic class, no flow label, hop limit 3.
unfoldable pub ip_packet : ℕ → IpAddress → IpAddress → Bytes → Bytes
ip_packet protocol source target payload =
    96
    ∷ 0
    ∷ 0
    ∷ 0
    ∷ (length payload / 256 % 256)
    ∷ (length payload % 256)
    ∷ protocol
    ∷ 3
    ∷ (source ++ (target ++ payload))

-- A packet from a peer: a multicast one starts with 0xff and 0x01.
unfoldable pub on_lower_layer_data : IpAddress → IpAddress → Bytes → List Sent
on_lower_layer_data my_device_id source packet =
    if ltb (length packet) 2
    then []
    else if (byte_at packet 0 == 0xff) && (byte_at packet 1 == 0x01)
    then if ltb (length packet) 20
      then []
      else if not (byte_at (substr 3 16 packet) 0 == 0xff)
      then []
      else to_upper no_address
          (ip_packet (byte_at packet 2) source (substr 3 16 packet) (drop 19 packet))
        ∷ []
    else to_upper source (ip_packet (byte_at packet 0) source my_device_id (drop 1 packet)) ∷ []

unfoldable pub send_to_all : List IpAddress → Bytes → List Sent
send_to_all [] packet = []
send_to_all (dest ∷ rest) packet = to_lower dest packet ∷ send_to_all rest packet

-- A packet from the network device.
unfoldable pub on_upper_layer_data : ConfigManager → IpAddress → Bytes → List Sent
on_upper_layer_data config my_device_id packet =
    let source = substr 8 16 packet in
    let target = substr 24 16 packet in
    let protocol = byte_at packet 6 in
    if leb (length packet) 40
    then []
    else if not (byte_at packet 0 / 16 == 6)
    then []
    else if byte_at target 0 == 0xff
    then send_to_all (get_multicast_destinations config target)
        (0xff ∷ 0x01 ∷ protocol ∷ (target ++ drop 40 packet))
    else if (byte_at target 0 == 0xfc) && (byte_at target 1 == 0x94)
    then if not (same_bytes source my_device_id)
      then []
      else to_lower target (protocol ∷ drop 40 packet) ∷ []
    else []

-- `CompressionLayer`, built without zstd: `shouldProceed` is false, so packets pass in both directions.
unfoldable pub should_proceed : IpAddress → Bool
should_proceed peer_address = false

unfoldable pub compression_on_upper_layer_data : IpAddress → Bytes → List Sent
compression_on_upper_layer_data peer_address packet =
    if not (should_proceed peer_address) then to_lower peer_address packet ∷ [] else []

unfoldable pub compression_on_lower_layer_data : IpAddress → Bytes → List Sent
compression_on_lower_layer_data peer_address packet =
    if not (should_proceed peer_address) then to_upper peer_address packet ∷ [] else []
