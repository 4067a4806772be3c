-- ===== src/Tests/Sockets.antt =====
-- Tests of the socket layer.
use husarnet.Common.{
  ◌⊎◌, same_bytes, true, ℕ, ◌≡◌, ◌≢◌, refl, some, List, [], ◌∷◌, Bytes, replicate, arith, All,
}
use husarnet.IpAddress.{InetAddress}
use husarnet.Crypto.{pubkey_to_device_id}
use husarnet.PeerContainer.{get_peer, new_container}
use husarnet.NgSocket.Addresses.{contains_inet, lookup}
use husarnet.NgSocket.Messages.{
  PeerToPeerMessage, PeerToPeerMessageKind, peer_message, base_message, BaseToPeerMessage,
  BaseToPeerMessageKind, serialize_peer_to_peer_message,
}
use husarnet.NgSocket.Parse.{parse_base_to_peer_message, parse_peer_to_peer_message}
use husarnet.NgSocket.Parse.Total.{parse_base_total, parse_peer_total}
use husarnet.NgSocket.Parse.RoundTrip.{IsGenuine, as_received, parse-serialize}
use husarnet.NgSocket.Parse.Lists.{
  IsInet, device_addresses_packet, state_packet, parse_device_addresses-packet, parse_state-packet,
}
use husarnet.NgSocket.Peers.{hello_reply_received, establish}
use husarnet.NgSocket.Answers.{Answers, hello_reply_received-Answers}
use husarnet.NgSocket.State.{NgSocket, peer_of, set_peer, new_socket}
use husarnet.NgSocket.Sources.{add_source_address, find_peer_by_source_address}
use husarnet.NgSocket.Sources.Invariant.{
  SourcesOk, add_source_address-SourcesOk, find-add_source_address,
}
use husarnet.NgSocket.Frame.{Inv}
use husarnet.NgSocket.Entries.{
  Entry, from_upper_layer, timer, worker, udp_packet, tcp_packet, connection_lost, run,
}
use husarnet.NgSocket.Entries.Safe.{run-Inv}
use husarnet.Tests.World.{
  sodium, sodium-SigningLaws, env, config, me, my_id, other_id, peer_address, socket,
}

me-IsGenuine : IsGenuine sodium me
unfolding pubkey_to_device_id
me-IsGenuine = record {
  hashes = refl;
  id_size = refl;
  key_size = refl;
  signing = sodium-SigningLaws (replicate 32 6) (replicate 64 6);
}

abbrev hello : PeerToPeerMessage
hello = record (peer_message PeerToPeerMessageKind.hello) {
  your_id = other_id;
  hello_cookie = replicate 16 b'c';
}

parse-serialize_example :
    (packet : Bytes) × (serialize_peer_to_peer_message sodium me hello ≡ some packet)
    × (parse_peer_to_peer_message sodium packet ≡ some (as_received me hello))
parse-serialize_example = parse-serialize sodium me me-IsGenuine hello (refl, refl)

-- A cut packet with addresses.
parse_base_total_example :
    (msg : BaseToPeerMessage) × (parse_base_to_peer_message (1 ∷ replicate 30 5) ≡ some msg)
parse_base_total_example = parse_base_total (1 ∷ replicate 30 5)

parse_peer_total_example :
    (msg : PeerToPeerMessage) × (parse_peer_to_peer_message sodium (0 ∷ replicate 200 5) ≡ some msg)
parse_peer_total_example = parse_peer_total sodium (0 ∷ replicate 200 5)

abbrev addresses : List InetAddress
addresses = peer_address ∷ []

some_addresses : addresses ≢ []
some_addresses e = cc

addresses_fit : All IsInet addresses
addresses_fit = ((refl, omega arith), tt)

parse_device_addresses-packet_example :
    parse_base_to_peer_message (device_addresses_packet other_id addresses)
    ≡ some (record (base_message BaseToPeerMessageKind.device_addresses) {
      device_id = other_id;
      addresses = addresses;
    })
parse_device_addresses-packet_example =
    parse_device_addresses-packet other_id addresses refl some_addresses addresses_fit

parse_state-packet_example :
    parse_base_to_peer_message (state_packet addresses 7000 7020)
    ≡ some (record (base_message BaseToPeerMessageKind.state) {
      udp_address = addresses;
      nat_transient_range = (7000, 7020);
    })
parse_state-packet_example =
    parse_state-packet addresses 7000 7020 some_addresses (omega arith) addresses_fit (omega arith)
      (omega arith)

socket-SourcesOk : SourcesOk socket
unfolding new_container contains_inet lookup
socket-SourcesOk = record {
  linked = λ p a. (λ h. cc, λ h. cc);
  few = λ p. omega arith;
  unborn = λ p h. refl;
}

add_source_address-SourcesOk_example : SourcesOk (add_source_address env 0 peer_address socket)
unfolding new_container
add_source_address-SourcesOk_example =
    add_source_address-SourcesOk env 0 peer_address socket (omega arith) socket-SourcesOk

find-add_source_address_example :
    find_peer_by_source_address (add_source_address env 0 peer_address socket) peer_address ≡ some 0
find-add_source_address_example = find-add_source_address env 0 peer_address socket socket-SourcesOk

-- A packet for an unknown peer, a tick, a greeting with its work, and a lost connection.
abbrev history : List (ℕ × Entry)
history =
    (1000, from_upper_layer other_id (1 ∷ 2 ∷ []))
    ∷ (4000, timer [])
    ∷ (4001, udp_packet peer_address (0 ∷ replicate 200 5))
    ∷ (4002, worker)
    ∷ (4003, tcp_packet (0 ∷ replicate 16 9))
    ∷ (4004, connection_lost 1)
    ∷ []

run-Inv_example : Inv (run sodium env history (new_socket (new_container config my_id) me 4 5582))
run-Inv_example = run-Inv sodium env config me 4 5582 history

-- A peer that has been greeted with this cookie.
abbrev asking : NgSocket
asking =
    set_peer socket 0
      (record (peer_of socket 0) { reestablishing = true; hello_cookie = replicate 16 b'c' })

abbrev answer : PeerToPeerMessage
answer = record (peer_message PeerToPeerMessageKind.hello_reply) {
  my_id = other_id;
  your_id = my_id;
  hello_cookie = replicate 16 b'c';
}

hello_reply_received-Answers_example :
    (peer_of (hello_reply_received peer_address answer asking) 0 ≡ peer_of asking 0)
    ⊎ (Answers answer asking 0
        × (peer_of (hello_reply_received peer_address answer asking) 0
            ≡ establish peer_address (peer_of asking 0)))
hello_reply_received-Answers_example = hello_reply_received-Answers peer_address answer asking 0

-- It is the answer that connects the peer.
connected : (peer_of (hello_reply_received peer_address answer asking) 0).connected ≡ true
unfolding hello_reply_received get_peer new_container same_bytes establish
connected = refl
