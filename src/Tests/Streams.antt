-- ===== src/Tests/Streams.antt =====
-- Tests of connections, on a socket that hands over 14 bytes at a time and takes one.
use husarnet.Common.{
  ℕ, ◌<◌, ◌≤◌, ◌≡◌, refl, true, false, List, [], ◌∷◌, ◌++◌, Bytes, Option, none, some, take, arith,
  All, drop, take-append-drop, ◌≢◌, ap, sym, Bool, same_bytes, length, ◌>>=◌,
}
use husarnet.TcpConnection.{
  Received, received, would_block, recv_failed, Socket, StreamLaws, TcpConnection,
  framed_tls_masked, handle_read, write, write_string, send_all, on_wire, frame_header, read_more,
  round, deliver, after_split, split_packets,
}
use husarnet.Util.Pack.{pack, from_bytes}
use husarnet.TcpConnection.Frames.{IsPacket, stream, frame}
use husarnet.TcpConnection.Reading.{OnStream, Reads, handle_read-Delivers}
use husarnet.TcpConnection.Writing.{write-Sent, Sent}
use husarnet.TcpConnection.Delivery.{write_all, polls, handle_read-write_all}
use husarnet.TcpConnection.Ending.{handle_read_ends}

-- What is still to be read, and what was sent.
abbrev pub World : Type 0
World = Bytes × Bytes

abbrev pub recv_some : World → ℕ → Received × World
recv_some ([], sent) room = (would_block, ([], sent))
recv_some (b ∷ rest, sent) room = (received (b ∷ take 13 rest), (drop 13 rest, sent))

abbrev send_one : World → Bytes → Option ℕ × World
send_one (pending, sent) [] = (none, (pending, sent))
send_one (pending, sent) (b ∷ rest) = (some 1, (pending, sent ++ (b ∷ [])))

abbrev pub byte_socket : Socket World
byte_socket = record { recv = recv_some; send_some = send_one }

recv_some_bytes :
    (w next : World) (room : ℕ) (chunk : Bytes)
    → recv_some w room ≡ (received chunk, next)
    → (w.0 ≡ chunk ++ next.0) × (0 < length chunk)
recv_some_bytes ([], sent) next room chunk e = cc
recv_some_bytes (b ∷ rest, sent) next room chunk e =
    let same : chunk ≡ b ∷ take 13 rest = cc in
    let left : next ≡ (drop 13 rest, sent) = cc in
    rw (same, left) (ap (◌∷◌ b) (sym (take-append-drop 13 rest)), omega arith)

recv_some_nothing :
    (w next : World) (room : ℕ) → recv_some w room ≡ (would_block, next) → next.0 ≡ w.0
recv_some_nothing ([], sent) next room e = cc
recv_some_nothing (b ∷ rest, sent) next room e = cc

send_one_bytes :
    (w next : World) (bytes : Bytes) (n : ℕ)
    → send_one w bytes ≡ (some n, next)
    → (0 < n) × ((n ≤ length bytes) × (next.1 ≡ w.1 ++ take n bytes))
send_one_bytes (pending, sent) next [] n e = cc
send_one_bytes (pending, sent) next (b ∷ rest) n e =
    let same : n ≡ 1 = cc in
    let left : next ≡ (pending, sent ++ (b ∷ [])) = cc in
    rw (same, left) (omega arith, (omega arith, refl))

send_one_nothing : (w next : World) (bytes : Bytes) → send_one w bytes ≡ (none, next) → next.1 ≡ w.1
send_one_nothing (pending, sent) next [] e = cc
send_one_nothing (pending, sent) next (b ∷ rest) e = cc

abbrev byte_laws : StreamLaws byte_socket
byte_laws = record {
  incoming = λ w. w.0;
  outgoing = λ w. w.1;
  recv_bytes = recv_some_bytes;
  recv_nothing = recv_some_nothing;
  send_bytes = send_one_bytes;
  send_nothing = send_one_nothing;
}

recv_some_reliable : (w : World) (room : ℕ) → (recv_some w room).0 ≢ recv_failed
recv_some_reliable ([], sent) room e = cc
recv_some_reliable (b ∷ rest, sent) room e = cc

recv_some_arrived : (w next : World) (room : ℕ) → recv_some w room ≡ (would_block, next) → w.0 ≡ []
recv_some_arrived ([], sent) next room e = refl
recv_some_arrived (b ∷ rest, sent) next room e = cc

abbrev framed : TcpConnection
framed = record {
  is_open = true;
  read_buffer = [];
  encapsulation = framed_tls_masked;
  has_errored = false;
}

abbrev eight : Bytes
eight = b'1' ∷ b'2' ∷ b'3' ∷ b'4' ∷ b'5' ∷ b'6' ∷ b'7' ∷ b'8' ∷ []

abbrev packets : List Bytes
packets = (b'h' ∷ b'i' ∷ []) ∷ eight ∷ []

abbrev pub nothing : World
nothing = ([], [])

abbrev on_the_way : World
on_the_way = (stream packets, [])

packets-IsPacket : All IsPacket packets
packets-IsPacket = ((omega arith, omega arith), ((omega arith, omega arith), tt))

all_written : write_all byte_socket framed packets nothing ≡ (true, ([], stream packets))
unfolding write_string send_all on_wire frame_header pack
all_written = refl

sent_bytes : stream packets ≡ 0x17 ∷ 3 ∷ 3 ∷ 2 ∷ 0 ∷ b'h' ∷ b'i' ∷ 0x17 ∷ 3 ∷ 3 ∷ 8 ∷ 0 ∷ eight
unfolding frame_header pack
sent_bytes = refl

stream_size : length (stream packets) < 22
stream_size = omega (arith, ap length sent_bytes)

first_frame : frame (b'h' ∷ b'i' ∷ []) ≡ 0x17 ∷ 3 ∷ 3 ∷ 2 ∷ 0 ∷ b'h' ∷ b'i' ∷ []
unfolding frame_header pack
first_frame = refl

on_the_way-OnStream : OnStream byte_laws framed on_the_way packets
on_the_way-OnStream = record {
  framed = refl;
  healthy = refl;
  room = omega arith;
  frames = refl;
  packets = packets-IsPacket;
  caught_up = omega (arith, ap length first_frame);
}

-- The first read ends within the second packet.
delivered : (handle_read byte_socket 22 framed on_the_way >>= λ r. some r.0) ≡ some packets
unfolding handle_read read_more round deliver after_split split_packets frame_header pack from_bytes
    same_bytes
delivered = refl

handle_read-Delivers_example :
    Reads byte_socket byte_laws recv_some_reliable on_the_way packets
      (handle_read byte_socket 22 framed on_the_way)
handle_read-Delivers_example =
    handle_read-Delivers byte_socket byte_laws recv_some_reliable 22 framed on_the_way packets
      stream_size on_the_way-OnStream

handle_read_ends_example :
    (r : List Bytes × (TcpConnection × World)) × ((fuel : ℕ)
      → length (stream packets) < fuel
      → handle_read byte_socket fuel framed on_the_way ≡ some r)
handle_read_ends_example = handle_read_ends byte_socket byte_laws framed on_the_way (omega arith)

-- A system that takes one byte and then no more.
abbrev takes_one : World → Bytes → Option ℕ × World
takes_one (pending, []) bytes = send_one (pending, []) bytes
takes_one (pending, b ∷ sent) bytes = (none, (pending, b ∷ sent))

cut_off :
    send_all (record { recv = recv_some; send_some = takes_one }) 2 (b'h' ∷ b'i' ∷ []) nothing
    ≡ (false, ([], b'h' ∷ []))
unfolding send_all
cut_off = refl

two_on_wire : length (on_wire framed_tls_masked (b'h' ∷ b'i' ∷ [])) ≡ 7
unfolding on_wire frame_header pack
two_on_wire = refl

write-Sent_example :
    (r : Bool × World) × ((write byte_socket framed 2000 (b'h' ∷ b'i' ∷ []) nothing ≡ some r)
      × ((write_string byte_socket framed (b'h' ∷ b'i' ∷ []) nothing ≡ some r)
          × Sent byte_socket byte_laws nothing (on_wire framed_tls_masked (b'h' ∷ b'i' ∷ [])) r))
write-Sent_example =
    write-Sent byte_socket byte_laws framed 2000 (b'h' ∷ b'i' ∷ []) nothing refl (omega arith)
      (omega (arith, two_on_wire))

handle_read-write_all_example :
    (r : List Bytes × (TcpConnection × World)) × ((polls byte_socket 22 22 framed on_the_way
        ≡ some r)
      × (r.0 ≡ packets))
handle_read-write_all_example =
    handle_read-write_all byte_socket byte_laws byte_socket byte_laws recv_some_reliable
      recv_some_arrived framed framed 22 22 packets nothing on_the_way (refl, refl) packets-IsPacket
      refl (ap (λ r. r.0) all_written) refl refl refl (ap (λ r. r.1.1) (sym all_written))
      stream_size (omega (arith, stream_size))
