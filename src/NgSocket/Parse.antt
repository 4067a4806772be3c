-- ===== src/NgSocket/Parse.antt =====
-- The two parsers of ngsocket.cpp. `none` is a failed assertion, or the abort of `unpack`.
pub mod Total
pub mod RoundTrip
pub mod Lists
use husarnet.Common.{
  ℕ, zero, suc, ◌+◌, ◌≡◌, Option, none, some, List, [], ◌∷◌, ◌++◌, Bytes, Bool, true, false, ◌&&◌,
  ◌||◌, not, ◌==◌, leb, ltb, if◌then◌else◌, length, ◌>>=◌, same_bytes,
}
use husarnet.IpAddress.{IpAddress, InetAddress}
use husarnet.Crypto.{Sodium, pubkey_to_device_id, verify_signature}
use husarnet.Util.Pack.{unpack}
use husarnet.Util.View.{view_at, view_substr, view_from}
use husarnet.NgSocket.Messages.{
  BaseToPeerMessage, BaseToPeerMessageKind, PeerToPeerMessage, PeerToPeerMessageKind, base_message,
  peer_message, base_to_peer_kind, p2p_kind,
}

-- An address and a port from the bytes `i` to `i + 17`.
unfoldable pub read_address : Bytes → ℕ → Option InetAddress
read_address packet i = do
  ip ← view_substr i 16 packet
  bytes ← view_substr (i + 16) 2 packet
  port ← unpack 2 bytes
  some (record { ip = ip; port = port })

-- `for(int i = 17; i + 18 <= data.size(); i += 18)`. Each round takes 18 bytes, so a fuel of the
-- packet's length is enough.
unfoldable pub read_addresses : ℕ → Bytes → ℕ → List InetAddress → Option (List InetAddress)
read_addresses zero packet i addresses = some addresses
read_addresses (suc fuel) packet i addresses =
    let next = (do
      a ← read_address packet i
      read_addresses fuel packet (i + 18) (addresses ++ (a ∷ []))) in
    if leb (i + 18) (length packet) then next else some addresses

-- `while(i + 18 <= data.size() && msg.udpAddress.size() < 5)`: at most five rounds.
unfoldable pub read_udp_addresses : ℕ → Bytes → ℕ → List InetAddress → Option (ℕ × List InetAddress)
read_udp_addresses zero packet i addresses = some (i, addresses)
read_udp_addresses (suc fuel) packet i addresses =
    let next = (do
      a ← read_address packet i
      read_udp_addresses fuel packet (i + 18) (addresses ++ (a ∷ []))) in
    if leb (i + 18) (length packet) && ltb (length addresses) 5 then next else some (i, addresses)

-- The range behind the addresses of a STATE message, if there is one.
unfoldable pub read_range : Bytes → ℕ → Option (ℕ × ℕ)
read_range packet i =
    let read = (do
      low_bytes ← view_substr i 2 packet
      low ← unpack 2 low_bytes
      high_bytes ← view_substr (i + 2) 2 packet
      high ← unpack 2 high_bytes
      some (low, high)) in
    if leb (i + 4) (length packet) then read else some (0, 0)

-- `msg.kind` by `_from_integral_nothrow(data[0])`.
unfoldable pub with_kind : ℕ → BaseToPeerMessage → BaseToPeerMessage
with_kind first msg = elim (base_to_peer_kind first) [
  | none ↦ msg
  | some kind ↦ record msg { kind = kind }
]

abbrev pub invalid_message : BaseToPeerMessage
invalid_message = base_message BaseToPeerMessageKind.invalid

-- The STATE branch.
unfoldable pub parse_state : Bytes → Option BaseToPeerMessage
parse_state packet = do
  (i, addresses) ← read_udp_addresses 6 packet 1 []
  range ← read_range packet i
  let msg = record invalid_message { udp_address = addresses; nat_transient_range = range }
  if ltb (length addresses) 1 then some msg else some (with_kind 4 msg)

unfoldable pub parse_device_addresses : Bytes → Option BaseToPeerMessage
parse_device_addresses packet =
    let read = (do
      id ← view_substr 1 16 packet
      addresses ← read_addresses (length packet) packet 17 []
      some (with_kind 1 (record invalid_message { device_id = id; addresses = addresses }))) in
    if leb (length packet) 17 then some invalid_message else read

-- The HELLO branch.
unfoldable pub parse_cookie : Bytes → Option BaseToPeerMessage
parse_cookie packet =
    let read = (do
      cookie ← view_substr 1 16 packet
      some (with_kind 0 (record invalid_message { cookie = cookie }))) in
    if not (length packet == 17) then some invalid_message else read

-- The DATA branch.
unfoldable pub parse_relayed : Bytes → Option BaseToPeerMessage
parse_relayed packet =
    let read = (do
      source ← view_substr 1 16 packet
      payload ← view_from 17 packet
      some (with_kind 2 (record invalid_message { source = source; payload = payload }))) in
    if leb (length packet) 17 then some invalid_message else read

unfoldable pub parse_base_to_peer_message : Bytes → Option BaseToPeerMessage
parse_base_to_peer_message packet =
    let read = (do
      first ← view_at packet 0
      if first == 0
          then parse_cookie packet
          else if first == 1
          then parse_device_addresses packet
          else if first == 2
          then parse_relayed packet
          else if first == 3
          then some (with_kind 3 invalid_message)
          else if first == 4
          then parse_state packet
          else some invalid_message) in
    if length packet == 0 then some invalid_message else read

module _ (so : Sodium) where
  -- A greeting is valid if the sender's id is the hash of its key and the signature is right.
  unfoldable pub judge_hello :
      PeerToPeerMessage → PeerToPeerMessageKind → Bytes → Bytes → Bytes → PeerToPeerMessage
  judge_hello msg kind pubkey signed signature =
      if not (same_bytes (pubkey_to_device_id so pubkey) msg.my_id)
      then msg
      else if not (verify_signature so signed p2p_kind pubkey signature)
      then msg
      else record msg { kind = kind }

  -- The HELLO and HELLO_REPLY branch, at the right size.
  unfoldable pub parse_hello : PeerToPeerMessageKind → Bytes → Option PeerToPeerMessage
  parse_hello kind packet = do
    my_id ← view_substr 1 16 packet
    pubkey ← view_substr 17 32 packet
    your_id ← view_substr 49 16 packet
    hello_cookie ← view_substr 65 16 packet
    signature ← view_substr 81 64 packet
    signed ← view_substr 0 81 packet
    let msg : PeerToPeerMessage = record (peer_message PeerToPeerMessageKind.invalid) {
      my_id = my_id;
      your_id = your_id;
      hello_cookie = hello_cookie;
    }
    some (judge_hello msg kind pubkey signed signature)

  unfoldable pub parse_peer_to_peer_message : Bytes → Option PeerToPeerMessage
  parse_peer_to_peer_message packet =
      let invalid = peer_message PeerToPeerMessageKind.invalid in
      let wrong_size = not (length packet == 145) in
      let read = (do
        first ← view_at packet 0
        let data_branch = do
          payload ← view_from 1 packet
          some (record (peer_message PeerToPeerMessageKind.data_message) { payload = payload })
        if first == 0
            then (if wrong_size
                then some invalid
                else parse_hello PeerToPeerMessageKind.hello packet)
            else if first == 1
            then (if wrong_size
                then some invalid
                else parse_hello PeerToPeerMessageKind.hello_reply packet)
            else if first == 2
            then data_branch
            else some invalid) in
      if length packet == 0 then some invalid else read
