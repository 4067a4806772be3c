-- ===== src/NgSocket/Parse/Lists.antt =====
-- The address lists of DEVICE_ADDRESSES and STATE are read back as they were packed.
use husarnet.Common.{
  ℕ, zero, suc, ◌+◌, ◌*◌, ◌^◌, ◌≤◌, ◌<◌, ◌≡◌, ◌≢◌, refl, sym, ap, ◌∙◌, some, List, [], ◌∷◌, ◌++◌,
  Bytes, arith, length, length-append, substr, substr_field, append_assoc, append-nil, All, leb,
  ltb, ◌&&◌, true, false,
}
use husarnet.IpAddress.{IpAddress, InetAddress}
use husarnet.Util.Pack.{pack, length-pack, unpack-pack}
use husarnet.Util.View.{view_at, view_substr_inside}
use husarnet.NgSocket.Messages.{
  pack_addresses, base_message, base_to_peer_kind, BaseToPeerMessageKind,
}
use husarnet.NgSocket.Parse.{
  read_address, read_addresses, read_udp_addresses, read_range, parse_state, parse_device_addresses,
  parse_base_to_peer_message, with_kind,
}

-- 16 bytes and a 16-bit port.
abbrev pub IsInet : InetAddress → Type 0
IsInet a = (length a.ip ≡ 16) × (a.port < 256 ^ 2)

pub length-pack_addresses :
    (list : List InetAddress) → All IsInet list → length (pack_addresses list) ≡ 18 * length list
unfolding pack_addresses
length-pack_addresses [] h = refl
length-pack_addresses (a ∷ list) h =
    simp length-append (omega (arith, length-pack_addresses list h.1, length-pack 2 a.port, h.0.0))

-- One address behind `before`.
read_packed :
    (before after : Bytes) (a : InetAddress) (i : ℕ)
    → IsInet a
    → length before ≡ i
    → read_address (before ++ (a.ip ++ (pack 2 a.port ++ after))) i ≡ some a
unfolding read_address
read_packed before after a i h hi =
    let packet = before ++ (a.ip ++ (pack 2 a.port ++ after)) in
    let size : length packet ≡ i + 18 + length after =
      simp length-append (omega (arith, length-pack 2 a.port, h.0)) in
    let ip_field : substr i 16 packet ≡ a.ip =
      substr_field i 16 packet before a.ip (pack 2 a.port ++ after) refl hi h.0 in
    let port_field : substr (i + 16) 2 packet ≡ pack 2 a.port =
      substr_field (i + 16) 2 packet (before ++ a.ip) (pack 2 a.port) after (simp append_assoc)
        (simp length-append (omega (arith, h.0))) (length-pack 2 a.port) in
    rw (
      view_substr_inside i 16 packet (omega (arith, size)),
      view_substr_inside (i + 16) 2 packet (omega (arith, size)),
      ip_field,
      port_field,
      unpack-pack 2 a.port h.1,
    )

-- The rest of a packet, bracketed behind what has been read.
shift_packet :
    (before after : Bytes) (a : InetAddress) (list : List InetAddress)
    → before ++ (pack_addresses (a ∷ list) ++ after)
      ≡ (before ++ (a.ip ++ pack 2 a.port)) ++ (pack_addresses list ++ after)
unfolding pack_addresses
shift_packet before after a list = simp append_assoc

open_packet :
    (before after : Bytes) (a : InetAddress) (list : List InetAddress)
    → before ++ (pack_addresses (a ∷ list) ++ after)
      ≡ before ++ (a.ip ++ (pack 2 a.port ++ (pack_addresses list ++ after)))
unfolding pack_addresses
open_packet before after a list = simp append_assoc

length_shifted :
    (before : Bytes) (a : InetAddress) (i : ℕ)
    → IsInet a
    → length before ≡ i
    → length (before ++ (a.ip ++ pack 2 a.port)) ≡ i + 18
length_shifted before a i h hi = simp length-append (omega (arith, length-pack 2 a.port, h.0))

length_packet :
    (before after : Bytes) (list : List InetAddress) (i : ℕ)
    → All IsInet list
    → length before ≡ i
    → length (before ++ (pack_addresses list ++ after)) ≡ i + 18 * length list + length after
length_packet before after list i h hi =
    simp length-append (omega (arith, length-pack_addresses list h))

read_first :
    (before after : Bytes) (a : InetAddress) (list : List InetAddress) (i : ℕ)
    → IsInet a
    → length before ≡ i
    → read_address (before ++ (pack_addresses (a ∷ list) ++ after)) i ≡ some a
read_first before after a list i h hi =
    rw (open_packet before after a list)
      (read_packed before (pack_addresses list ++ after) a i h hi)

read_addresses_packed :
    (fuel : ℕ) (before after : Bytes) (list seen : List InetAddress) (i : ℕ)
    → All IsInet list
    → length list ≤ fuel
    → length after < 18
    → length before ≡ i
    → read_addresses fuel (before ++ (pack_addresses list ++ after)) i seen ≡ some (seen ++ list)
unfolding read_addresses
read_addresses_packed zero before after [] seen i h hf ha hi = ap some (sym (append-nil seen))
read_addresses_packed zero before after (a ∷ list) seen i h hf ha hi = absurd (omega arith)
read_addresses_packed (suc fuel) before after [] seen i h hf ha hi =
    ground (arith, length_packet before after [] i h hi, append-nil seen)
read_addresses_packed (suc fuel) before after (a ∷ list) seen i h hf ha hi =
    rw (inside, read_first before after a list i h.0 hi)
      (ap (λ packet. read_addresses fuel packet (i + 18) (seen ++ (a ∷ [])))
          (shift_packet before after a list)
        ∙ read_addresses_packed fuel (before ++ (a.ip ++ pack 2 a.port)) after list
            (seen ++ (a ∷ [])) (i + 18) h.1 (omega arith) ha (length_shifted before a i h.0 hi)
        ∙ ap some (append_assoc seen (a ∷ []) list))
  where
    inside : leb (i + 18) (length (before ++ (pack_addresses (a ∷ list) ++ after))) ≡ true
    inside = ground (arith, length_packet before after (a ∷ list) i h hi)

read_udp_addresses_packed :
    (fuel : ℕ) (before after : Bytes) (list seen : List InetAddress) (i : ℕ)
    → All IsInet list
    → length list < fuel
    → length seen + length list ≤ 5
    → length after < 18
    → length before ≡ i
    → read_udp_addresses fuel (before ++ (pack_addresses list ++ after)) i seen
      ≡ some (i + 18 * length list, seen ++ list)
unfolding read_udp_addresses
read_udp_addresses_packed zero before after list seen i h hf hs ha hi = absurd (omega arith)
read_udp_addresses_packed (suc fuel) before after [] seen i h hf hs ha hi =
    ground (arith, length_packet before after [] i h hi, append-nil seen)
read_udp_addresses_packed (suc fuel) before after (a ∷ list) seen i h hf hs ha hi =
    rw (inside, read_first before after a list i h.0 hi)
      (ap (λ packet. read_udp_addresses fuel packet (i + 18) (seen ++ (a ∷ [])))
          (shift_packet before after a list)
        ∙ read_udp_addresses_packed fuel (before ++ (a.ip ++ pack 2 a.port)) after list
            (seen ++ (a ∷ [])) (i + 18) h.1 (omega arith)
            (omega (arith, length-append seen (a ∷ []))) ha (length_shifted before a i h.0 hi)
        ∙ ap some (λ j. (same_end j, append_assoc seen (a ∷ []) list j)))
  where
    inside :
        (leb (i + 18) (length (before ++ (pack_addresses (a ∷ list) ++ after)))
          && ltb (length seen) 5)
        ≡ true
    inside = ground (arith, length_packet before after (a ∷ list) i h hi)

    same_end : i + 18 + 18 * length list ≡ i + 18 * length (a ∷ list)
    same_end = omega arith

-- The packets of the base server, as it lays them out.
abbrev pub device_addresses_packet : IpAddress → List InetAddress → Bytes
device_addresses_packet id list = 1 ∷ (id ++ pack_addresses list)

abbrev pub state_packet : List InetAddress → ℕ → ℕ → Bytes
state_packet list low high = 4 ∷ (pack_addresses list ++ (pack 2 low ++ pack 2 high))

device_addresses_fields :
    (id : IpAddress) (list : List InetAddress)
    → length id ≡ 16
    → list ≢ []
    → All IsInet list
    → parse_device_addresses (device_addresses_packet id list)
      ≡ some (record (base_message BaseToPeerMessageKind.device_addresses) {
        device_id = id;
        addresses = list;
      })
unfolding parse_device_addresses with_kind base_to_peer_kind
device_addresses_fields id [] hid hne h = absurd (hne refl)
device_addresses_fields id (a ∷ list) hid hne h =
    let packet = device_addresses_packet id (a ∷ list) in
    let size : length packet ≡ 17 + 18 * length (a ∷ list) =
      simp length-append (omega (arith, length-pack_addresses (a ∷ list) h)) in
    let long : leb (length packet) 17 ≡ false = ground (arith, size) in
    let reads : read_addresses (length packet) packet 17 [] ≡ some (a ∷ list) =
      ap (λ p. read_addresses (length packet) (1 ∷ (id ++ p)) 17 []) (sym (append-nil _))
      ∙ read_addresses_packed (length packet) (1 ∷ id) [] (a ∷ list) [] 17 h (omega (arith, size))
          (omega arith) (omega arith) in
    let id_field : substr 1 16 packet ≡ id =
      substr_field 1 16 packet (1 ∷ []) id (pack_addresses (a ∷ list)) refl refl hid in
    rw (long, view_substr_inside 1 16 packet (omega (arith, size)), id_field, reads)

-- A packet goes to the branch of its first byte.
device_addresses_branch :
    (rest : Bytes) → parse_base_to_peer_message (1 ∷ rest) ≡ parse_device_addresses (1 ∷ rest)
unfolding parse_base_to_peer_message view_at
device_addresses_branch rest = ground arith

state_branch : (rest : Bytes) → parse_base_to_peer_message (4 ∷ rest) ≡ parse_state (4 ∷ rest)
unfolding parse_base_to_peer_message view_at
state_branch rest = ground arith

-- DEVICE_ADDRESSES of at least one address is parsed to the device and exactly those addresses.
pub parse_device_addresses-packet :
    (id : IpAddress) (list : List InetAddress)
    → length id ≡ 16
    → list ≢ []
    → All IsInet list
    → parse_base_to_peer_message (device_addresses_packet id list)
      ≡ some (record (base_message BaseToPeerMessageKind.device_addresses) {
        device_id = id;
        addresses = list;
      })
parse_device_addresses-packet id list hid hne h =
    device_addresses_branch _ ∙ device_addresses_fields id list hid hne h

range_read :
    (list : List InetAddress) (low high : ℕ)
    → All IsInet list
    → low < 256 ^ 2
    → high < 256 ^ 2
    → read_range (state_packet list low high) (1 + 18 * length list) ≡ some (low, high)
unfolding read_range
range_read list low high h hl hh =
    let packet = state_packet list low high in
    let i = 1 + 18 * length list in
    let addresses = length-pack_addresses list h in
    let size : length packet ≡ i + 4 =
      simp length-append (omega (arith, addresses, length-pack 2 low, length-pack 2 high)) in
    let low_field : substr i 2 packet ≡ pack 2 low =
      substr_field i 2 packet (4 ∷ pack_addresses list) (pack 2 low) (pack 2 high) refl
        (omega (arith, addresses)) (length-pack 2 low) in
    let high_field : substr (i + 2) 2 packet ≡ pack 2 high =
      substr_field (i + 2) 2 packet (4 ∷ (pack_addresses list ++ pack 2 low)) (pack 2 high) []
        (simp (append_assoc, append-nil))
        (simp length-append (omega (arith, addresses, length-pack 2 low))) (length-pack 2 high) in
    let inside : leb (i + 4) (length packet) ≡ true = ground (arith, size) in
    rw (
      inside,
      view_substr_inside i 2 packet (omega (arith, size)),
      view_substr_inside (i + 2) 2 packet (omega (arith, size)),
      low_field,
      high_field,
      unpack-pack 2 low hl,
      unpack-pack 2 high hh,
    )

state_fields :
    (list : List InetAddress) (low high : ℕ)
    → list ≢ []
    → length list ≤ 5
    → All IsInet list
    → low < 256 ^ 2
    → high < 256 ^ 2
    → parse_state (state_packet list low high)
      ≡ some (record (base_message BaseToPeerMessageKind.state) {
        udp_address = list;
        nat_transient_range = (low, high);
      })
unfolding parse_state with_kind base_to_peer_kind
state_fields [] low high hne h5 h hl hh = absurd (hne refl)
state_fields (a ∷ list) low high hne h5 h hl hh =
    let filled : ltb (suc (length list)) 1 ≡ false = ground arith in
    rw (
      read_udp_addresses_packed 6 (4 ∷ []) (pack 2 low ++ pack 2 high) (a ∷ list) [] 1 h
          (omega arith) (omega arith)
          (simp length-append (omega (arith, length-pack 2 low, length-pack 2 high))) refl,
      range_read (a ∷ list) low high h hl hh,
      filled,
    )

-- STATE of one to five addresses and a range of ports is parsed to exactly those.
pub parse_state-packet :
    (list : List InetAddress) (low high : ℕ)
    → list ≢ []
    → length list ≤ 5
    → All IsInet list
    → low < 256 ^ 2
    → high < 256 ^ 2
    → parse_base_to_peer_message (state_packet list low high)
      ≡ some (record (base_message BaseToPeerMessageKind.state) {
        udp_address = list;
        nat_transient_range = (low, high);
      })
parse_state-packet list low high hne h5 h hl hh =
    state_branch _ ∙ state_fields list low high hne h5 h hl hh
