-- ===== src/Tests/WebSockets.antt =====
-- Tests of the WebSocket: a handshake, messages and a close, on the socket of the stream tests.
use husarnet.Common.{
  ℕ, ◌+◌, ◌*◌, ◌-◌, ◌≡◌, refl, true, false, List, [], ◌∷◌, ◌++◌, Bytes, Option, none, some,
  replicate, arith, All, map, same_bytes, length, ◌>>=◌, ap,
}
use husarnet.IpAddress.{bytes_lt, no_inet_address}
use husarnet.Tests.Streams.{World, byte_socket, nothing}
use husarnet.TcpConnection.{Dialed, write, send_all, on_wire}
use husarnet.TcpConnection
use husarnet.Http
use husarnet.Http.{
  find_text, find_from, assign_header, header_of, start_fields, take_fields, parse_start_line,
  parse_lines, parse_header, parse_body, from_body, from_header, from_start_line, finish,
  encode_headers,
}
use husarnet.Util.Text.{starts_with, c_string}
use husarnet.WebSocket.Message.{
  parsed, encode, encode_flags, encode_length, encode_payload, apply_mask, parse_behind, read_head,
  parse_length, parse_masked, parse_payload, unmask, read_length, shift_in, widen, parse, op_text,
  op_ping,
}
use husarnet.WebSocket.Message.RoundTrip.{parse-encode, readable}
use husarnet.WebSocket.Handshake.{
  Digests, header_or_empty, expected_accept, verify_server_handshake,
}
use husarnet.WebSocket.Session.{
  WebSocket, Context, sock_closed, ws_open, ws_connecting, handle_read, handle_data,
  handle_handshake, handle_message, send_pong, send_message, send_raw,
}
use husarnet.WebSocket.Session.Invariant.{OnSome, SessionOk}
use husarnet.WebSocket.Session.Calls.{SocketCall, connects, reads, run, run-SessionOk}
use husarnet.WebSocket.Session.Stream.{
  Frame, IsFrame, frames, message_of, handle_all, handle_data-frames,
}

abbrev digests : Digests
digests = record { sha1 = λ m. m; bin2base64 = λ m. b'k' ∷ [] }

-- The number of up to three digits.
abbrev number : Bytes → Option ℕ
number (a ∷ b ∷ c ∷ []) = some ((a - 48) * 100 + (b - 48) * 10 + (c - 48))
number s = none

abbrev pub ctx : Context World
ctx = record {
  io = byte_socket;
  digests = digests;
  random_bytes = λ draw size. replicate size 9;
  to_unsigned = number;
  to_size = λ s. 0;
  signed = true;
  user_agent = b'x' ∷ [];
}

abbrev pub fresh : WebSocket World
fresh = record {
  state = sock_closed;
  conn = none;
  server_addr = no_inet_address;
  server_endpoint = [];
  nonce = [];
  draws = 0;
  delivered = [];
  world = nothing;
}

abbrev dialed : Dialed
dialed = record { got_socket = true; under_way = true; writable = true; clean = true }

abbrev answer : Bytes
answer =
    b'H' ∷ b'T' ∷ b'T' ∷ b'P' ∷ b'/' ∷ b'1' ∷ b'.' ∷ b'1' ∷ 32 ∷ b'1' ∷ b'0' ∷ b'1' ∷ 32 ∷ b'O'
    ∷ b'K' ∷ 13 ∷ 10 ∷ b'C' ∷ b'o' ∷ b'n' ∷ b'n' ∷ b'e' ∷ b'c' ∷ b't' ∷ b'i' ∷ b'o' ∷ b'n' ∷ b':'
    ∷ 32 ∷ b'U' ∷ b'p' ∷ b'g' ∷ b'r' ∷ b'a' ∷ b'd' ∷ b'e' ∷ 13 ∷ 10 ∷ b'S' ∷ b'e' ∷ b'c' ∷ b'-'
    ∷ b'W' ∷ b'e' ∷ b'b' ∷ b'S' ∷ b'o' ∷ b'c' ∷ b'k' ∷ b'e' ∷ b't' ∷ b'-' ∷ b'A' ∷ b'c' ∷ b'c'
    ∷ b'e' ∷ b'p' ∷ b't' ∷ b':' ∷ 32 ∷ b'k' ∷ 13 ∷ 10 ∷ b'U' ∷ b'p' ∷ b'g' ∷ b'r' ∷ b'a' ∷ b'd'
    ∷ b'e' ∷ b':' ∷ 32 ∷ b'w' ∷ b'e' ∷ b'b' ∷ b's' ∷ b'o' ∷ b'c' ∷ b'k' ∷ b'e' ∷ b't' ∷ 13 ∷ 10 ∷ 13
    ∷ 10 ∷ []

abbrev hello : Frame
hello = record {
  opcode = op_text;
  masked = true;
  key = 1 ∷ 2 ∷ 3 ∷ 4 ∷ [];
  payload = b'h' ∷ b'i' ∷ [];
}

abbrev ping : Frame
ping = record { opcode = op_ping; masked = false; key = replicate 4 0; payload = [] }

abbrev calls : List SocketCall
calls =
    connects dialed no_inet_address (b'/' ∷ [])
    ∷ reads answer
    ∷ reads (frames (hello ∷ ping ∷ []))
    ∷ []

room : readable true ≡ 127
unfolding readable
room = refl

parse-encode_example :
    (bytes : Bytes) × ((encode 1024 hello.key (message_of hello) ≡ some bytes)
      × (parse true (bytes ++ (7 ∷ [])) ≡ parsed (length bytes) (message_of hello)))
parse-encode_example =
    parse-encode true true op_text hello.key hello.payload (7 ∷ []) refl (omega arith)
      (omega (arith, room))

run-SessionOk_example : OnSome SessionOk (run ctx calls fresh)
run-SessionOk_example = run-SessionOk ctx calls fresh tt

abbrev waiting : WebSocket World
waiting = record fresh {
  state = ws_connecting;
  conn = TcpConnection.connect TcpConnection.unframed dialed;
}

-- The answer opens the WebSocket.
answered : (handle_read ctx answer waiting >>= λ t. some t.state) ≡ some ws_open
unfolding handle_read handle_handshake verify_server_handshake header_or_empty expected_accept
    c_string Http.parse find_text find_from assign_header header_of start_fields take_fields
    parse_start_line parse_lines parse_header parse_body from_body from_header from_start_line
    finish starts_with same_bytes bytes_lt
answered = refl

abbrev opened : WebSocket World
opened = record waiting { state = ws_open }

both-IsFrame : All (IsFrame true) (hello ∷ ping ∷ [])
both-IsFrame =
    ((omega arith, (refl, omega (arith, room))), ((omega arith, (refl, omega (arith, room))), tt))

sent : frames (hello ∷ ping ∷ []) ≡ 129 ∷ 130 ∷ 1 ∷ 2 ∷ 3 ∷ 4 ∷ 105 ∷ 107 ∷ 137 ∷ 0 ∷ []
unfolding encode encode_flags encode_length encode_payload apply_mask
sent = refl

-- The text goes to the callback, the ping is answered.
handled :
    (handle_data ctx 10 (frames (hello ∷ ping ∷ [])) opened >>= λ t. some t.delivered)
    ≡ some (message_of hello ∷ [])
unfolding TcpConnection.connect handle_data handle_message send_pong send_message send_raw write
    send_all on_wire encode encode_flags encode_length encode_payload apply_mask parse parse_behind
    read_head parse_length parse_masked parse_payload unmask read_length shift_in widen
handled = refl

handle_data-frames_example :
    handle_data ctx 10 (frames (hello ∷ ping ∷ [])) opened
    ≡ handle_all ctx (map message_of (hello ∷ ping ∷ [])) opened
handle_data-frames_example =
    handle_data-frames ctx 10 (hello ∷ ping ∷ []) opened both-IsFrame
      (omega (arith, ap length sent))
