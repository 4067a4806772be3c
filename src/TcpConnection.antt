-- ===== src/TcpConnection.antt =====
-- core/husarnet/ports/sockets.h and sockets.cpp: a TCP connection, its framing and its read buffer. The
-- operating system's calls are the fields of `Socket`, and what it documents of a stream is
-- `StreamLaws`. Callbacks are the list of what they are called with; that a callback closes the
-- connection it is called from is not modelled, nor the single read of ESP_PLATFORM.
pub mod Frames
pub mod Ending
pub mod Reading
pub mod Writing
pub mod Delivery
use husarnet.Common.{
  ℕ, zero, suc, ◌+◌, ◌-◌, ◌≤◌, ◌<◌, ◌≡◌, Bool, true, false, not, ◌&&◌, Option, none, some, List, [],
  ◌∷◌, ◌++◌, Bytes, ◌==◌, ltb, leb, if◌then◌else◌, length, take, drop, substr, same_bytes, ◌>>=◌,
}
use husarnet.Util.Pack.{pack, from_bytes}

abbrev pub tcp_read_buffer : ℕ
tcp_read_buffer = 2000

pub data Encapsulation : Type 0 where
  -- NONE
  unframed : Encapsulation
  framed_tls_masked : Encapsulation

-- What `recv` reports: bytes, EAGAIN, or an error or the end of the stream.
pub data Received : Type 0 where
  received : Bytes → Received
  would_block : Received
  recv_failed : Received

-- The socket of a connection, in a world that its calls change.
pub record Socket (W : Type 0) : Type 0 where
  -- room
  pub recv : W → ℕ → Received × W
  -- bytes; how many were taken, or `none` for 0 and for an error
  pub send_some : W → Bytes → Option ℕ × W

-- What the system documents of a stream: `incoming` is what the other end sent and was not read,
-- `outgoing` what was sent.
pub record StreamLaws {W : Type 0} (io : Socket W) : Type 0 where
  pub incoming : W → Bytes
  pub outgoing : W → Bytes
  pub recv_bytes :
      (w next : W) (room : ℕ) (chunk : Bytes)
      → io.recv w room ≡ (received chunk, next)
      → (incoming w ≡ chunk ++ incoming next) × (0 < length chunk)
  pub recv_nothing :
      (w next : W) (room : ℕ) → io.recv w room ≡ (would_block, next) → incoming next ≡ incoming w
  pub send_bytes :
      (w next : W) (bytes : Bytes) (n : ℕ)
      → io.send_some w bytes ≡ (some n, next)
      → (0 < n) × ((n ≤ length bytes) × (outgoing next ≡ outgoing w ++ take n bytes))
  pub send_nothing :
      (w next : W) (bytes : Bytes)
      → io.send_some w bytes ≡ (none, next)
      → outgoing next ≡ outgoing w

pub record TcpConnection : Type 0 where
  -- `fd != -1`
  pub is_open : Bool
  pub read_buffer : Bytes
  pub encapsulation : Encapsulation
  pub has_errored : Bool

unfoldable pub close : TcpConnection → TcpConnection
close conn = record conn { is_open = false; has_errored = true }

-- What the system answers to `connect`: the socket, whether the connection is on its way, whether it
-- becomes writable in time, and whether it is free of errors then.
pub record Dialed : Type 0 where
  pub got_socket : Bool
  pub under_way : Bool
  pub writable : Bool
  pub clean : Bool

-- `TcpConnection::connect`; `none` is the null pointer. That the connection is put on the list of those
-- that are polled is not part of the model.
unfoldable pub connect : Encapsulation → Dialed → Option TcpConnection
connect enc dialed =
    if not dialed.got_socket
    then none
    else if not dialed.under_way
    then none
    else if not dialed.writable
    then none
    else if not dialed.clean
    then none
    else some record { is_open = true; read_buffer = []; encapsulation = enc; has_errored = false }

-- TLS_HEADER
abbrev pub tls_header : Bytes
tls_header = 0x17 ∷ 3 ∷ 3 ∷ []

-- The header that `write` puts in front of a packet; the size is cut to 16 bits.
unfoldable pub frame_header : Bytes → Bytes
frame_header packet = tls_header ++ pack 2 (length packet)

abbrev pub is_framed : Encapsulation → Bool
is_framed unframed = false
is_framed framed_tls_masked = true

-- A packet as `write` sends it.
unfoldable pub on_wire : Encapsulation → Bytes → Bytes
on_wire unframed packet = packet
on_wire framed_tls_masked packet = frame_header packet ++ packet

-- How the inner loop of `_handleRead` ends: it returns, it leaves the loop to read on, or it closes
-- the connection.
pub data LoopEnd : Type 0 where
  short : LoopEnd
  partial : LoopEnd
  broken : LoopEnd

-- The inner loop: the packets of the buffer, and what is left of it.
unfoldable pub split_packets : ℕ → Bytes → List Bytes × (Bytes × LoopEnd)
split_packets zero buffer = ([], (buffer, short))
split_packets (suc fuel) buffer =
    let size = from_bytes (substr 3 2 buffer) in
    let more = split_packets fuel (drop (5 + size) buffer) in
    if leb (length buffer) 5
    then ([], (buffer, short))
    else if not (same_bytes (take 3 buffer) tls_header)
    then ([], (buffer, broken))
    else if leb tcp_read_buffer (5 + size)
    then ([], (buffer, broken))
    else if leb (5 + size) (length buffer)
    then (substr 5 size buffer ∷ more.0, more.1)
    else ([], (buffer, partial))

-- A round of `_handleRead`: what the data callback is called with, and whether the outer loop goes on.
pub data Round (W : Type 0) : Type 0 where
  ended : List Bytes → TcpConnection → W → Round W
  again : List Bytes → TcpConnection → W → Round W

-- What is kept of the buffer, and what happens after the inner loop.
unfoldable pub after_split :
    {W : Type 0} → TcpConnection → W → List Bytes × (Bytes × LoopEnd) → Round W
unfolding close
after_split conn w (packets, (left, short)) = ended packets (record conn { read_buffer = left }) w
after_split conn w (packets, (left, partial)) = again packets (record conn { read_buffer = left }) w
after_split conn w (packets, (left, broken)) =
    ended packets (close (record conn { read_buffer = left })) w

-- The bytes that were read go to the callback as they are, or by frames.
unfoldable pub deliver : {W : Type 0} → Encapsulation → TcpConnection → Bytes → W → Round W
unfolding after_split
deliver unframed conn buffer w = again (buffer ∷ []) (record conn { read_buffer = [] }) w
deliver framed_tls_masked conn buffer w = after_split conn w (split_packets (length buffer) buffer)

-- The body of the outer loop after `recv`.
unfoldable pub round : {W : Type 0} → TcpConnection → Received × W → Round W
unfolding close deliver
round conn (would_block, w) = ended [] conn w
round conn (recv_failed, w) = ended [] (close conn) w
round conn (received chunk, w) = deliver conn.encapsulation conn (conn.read_buffer ++ chunk) w

module _ {W : Type 0} (io : Socket W) where
  -- The read of a round; a full buffer is not read into.
  unfoldable pub read_more : TcpConnection → W → Received × W
  read_more conn w =
      if ltb (length conn.read_buffer) tcp_read_buffer
      then io.recv w (tcp_read_buffer - length conn.read_buffer)
      else (received [], w)

  -- `_handleRead`, of whose loop at most `fuel` rounds are followed: `none` if it has not ended then.
  unfoldable pub handle_read : ℕ → TcpConnection → W → Option (List Bytes × (TcpConnection × W))
  handle_read zero conn w = none
  handle_read (suc fuel) conn w = elim (round conn (read_more conn w)) [
    | ended packets after next ↦ some (packets, (after, next))
    | again packets after next ↦
        handle_read fuel after next >>= λ rest. some (packets ++ rest.0, rest.1)
  ]

  -- The loop of both forms of `write`: whether all bytes were sent.
  unfoldable pub send_all : ℕ → Bytes → W → Bool × W
  send_all zero bytes w = (false, w)
  send_all (suc fuel) bytes w = elim (io.send_some w bytes).0 [
    | none ↦ (false, (io.send_some w bytes).1)
    | some n ↦
        let rest = send_all fuel (drop n bytes) (io.send_some w bytes).1 in
        if n == length bytes then (true, (io.send_some w bytes).1) else rest
  ]

  -- `write` of a buffer that holds `capacity` bytes; `none` is the failed assertion that the packet is
  -- not empty. The fuel is the number of bytes: each call of `send` takes one at least.
  unfoldable pub write : TcpConnection → ℕ → Bytes → W → Option (Bool × W)
  write conn capacity packet w =
      let bytes = on_wire conn.encapsulation packet in
      if not conn.is_open
      then some (false, w)
      else if length packet == 0
      then none
      else if is_framed conn.encapsulation && ltb capacity (length bytes)
      then some (false, w)
      else some (send_all (length bytes) bytes w)

  -- `write` of a string, which grows.
  unfoldable pub write_string : TcpConnection → Bytes → W → Option (Bool × W)
  write_string conn packet w =
      if not conn.is_open
      then some (false, w)
      else if length packet == 0
      then none
      else some (
          send_all (length (on_wire conn.encapsulation packet)) (on_wire conn.encapsulation packet)
            w)
