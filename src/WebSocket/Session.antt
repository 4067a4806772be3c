-- ===== src/WebSocket/Session.antt =====
-- core/husarnet/websocket.h and websocket.cpp: the state of a WebSocket and its handlers. `none` is a
-- failed assertion, a payload that does not fit its vector, or undefined behaviour. Assertions are
-- taken to be compiled in: two of them hold the calls of `encode`.
pub mod Invariant
pub mod Calls
pub mod Stream
use husarnet.Common.{
  ℕ, zero, suc, ◌+◌, Bool, true, false, not, ◌&&◌, Option, none, some, List, [], ◌∷◌, ◌++◌, Bytes,
  ◌==◌, ltb, if◌then◌else◌, length, take, drop, ◌>>=◌,
}
use husarnet.IpAddress.{InetAddress, no_inet_address}
use husarnet.Http.{Result, ok, incomplete, invalid, HttpMessage, new_http_message}
use husarnet.Http
use husarnet.TcpConnection.{Socket, TcpConnection, Dialed, unframed, close, write}
use husarnet.TcpConnection
use husarnet.Util.Text.{c_string}
use husarnet.WebSocket.Message.{
  Message, Parsed, rejected, overflow, parsed, new_message, op_text, op_binary, op_close, op_ping,
  op_pong, encode, max_payload,
}
use husarnet.WebSocket.Message
use husarnet.WebSocket.Handshake.{Digests, client_handshake, verify_server_handshake}

-- WS_CLOSED is never set.
pub data State : Type 0 where
  sock_closed : State
  ws_closed : State
  ws_connecting : State
  ws_open : State
  ws_closing : State

pub record WebSocket (W : Type 0) : Type 0 where
  pub state : State
  pub conn : Option TcpConnection
  pub server_addr : InetAddress
  pub server_endpoint : Bytes
  pub nonce : Bytes
  -- Draws of the random generator so far.
  pub draws : ℕ
  -- What the message callback was called with.
  pub delivered : List Message
  -- The system.
  pub world : W

abbrev pub transport_buffer : ℕ
transport_buffer = 1024

-- What the handlers call of other code; whether `char` is signed.
pub record Context (W : Type 0) : Type 0 where
  pub io : Socket W
  pub digests : Digests
  -- draw, size
  pub random_bytes : ℕ → ℕ → Bytes
  pub to_unsigned : Bytes → Option ℕ
  pub to_size : Bytes → ℕ
  pub signed : Bool
  pub user_agent : Bytes

module _ {W : Type 0} (ctx : Context W) where
  -- `close`
  unfoldable pub close_socket : WebSocket W → WebSocket W
  close_socket s = elim s.conn [ none ↦ s | some c ↦ record s { conn = none; state = sock_closed } ]

  -- `_sendRaw`
  unfoldable pub send_raw : Bytes → WebSocket W → Option (Bool × WebSocket W)
  send_raw bytes s = s.conn >>= λ c.
      write ctx.io c transport_buffer bytes s.world >>= λ r. some (r.0, record s { world = r.1 })

  -- `encode` and `_sendRaw`, with a new masking key.
  unfoldable pub send_message : Message → WebSocket W → Option (Bool × WebSocket W)
  unfolding send_raw
  send_message m s = encode transport_buffer (ctx.random_bytes s.draws 4) m >>= λ bytes.
      send_raw bytes (record s { draws = s.draws + 1 })

  -- `send`, of the text up to a NUL, cut to what `data` holds.
  unfoldable pub send_text : Bytes → WebSocket W → Option (WebSocket W)
  unfolding send_message
  send_text text s =
      send_message
        (record (new_message op_text true) { data_bytes = c_string (take max_payload text) }) s
      >>= λ r. some r.1

  -- `_sendPong`
  unfoldable pub send_pong : Message → WebSocket W → Option (WebSocket W)
  unfolding send_message
  send_pong m s =
      send_message (record m { opcode = op_pong; masked = true; fin = true }) s >>= λ r. some r.1

  -- `_sendClose`
  unfoldable pub send_close : WebSocket W → Option (WebSocket W)
  unfolding send_message
  send_close s = send_message (new_message op_close true) s >>= λ r. some r.1

  -- The switch of `_handleData` over a message.
  unfoldable pub handle_message : Message → WebSocket W → Option (WebSocket W)
  unfolding send_pong send_close close_socket
  handle_message m s =
      let answered = send_pong m s in
      let closed = send_close (record s { state = ws_closing }) >>= λ t. some (close_socket t) in
      if m.opcode == op_text
      then some (record s { delivered = s.delivered ++ (m ∷ []) })
      else if m.opcode == op_binary
      then some (record s { delivered = s.delivered ++ (m ∷ []) })
      else if m.opcode == op_ping
      then answered
      else if m.opcode == op_close
      then closed
      else some s

  -- `_handleData`; the fuel is the size of the data.
  unfoldable pub handle_data : ℕ → Bytes → WebSocket W → Option (WebSocket W)
  unfolding handle_message
  handle_data zero buf s = some s
  handle_data (suc fuel) buf s =
      if length buf == 0 then some s else elim (Message.parse ctx.signed buf) [
        | rejected ↦ some s
        | overflow ↦ none
        | parsed consumed m ↦ handle_message m s >>= λ t. handle_data fuel (drop consumed buf) t
      ]

  -- `_handleHandshake`
  unfoldable pub handle_handshake : Bytes → WebSocket W → Option (WebSocket W)
  unfolding close_socket
  handle_handshake buf s = Http.parse ctx.to_unsigned ctx.to_size buf new_http_message >>= λ r.
      elim r.0 [
        | ok ↦
            if verify_server_handshake ctx.digests s.nonce r.1
            then some (record s { state = ws_open })
            else some (close_socket s)
        | _ ↦ some (close_socket s)
      ]

  -- `_handleRead`
  unfoldable pub handle_read : Bytes → WebSocket W → Option (WebSocket W)
  unfolding handle_data handle_handshake
  handle_read buf s = elim s.state [
    | sock_closed ↦ some s
    | ws_closed ↦ some s
    | ws_connecting ↦ handle_handshake buf s
    | ws_open ↦ handle_data (length buf) buf s
    | ws_closing ↦ handle_data (length buf) buf s
  ]

  -- `_sendClientHandshake`, with a new nonce.
  unfoldable pub send_client_handshake : WebSocket W → Option (Bool × WebSocket W)
  unfolding send_raw
  send_client_handshake s =
      let nonce = ctx.digests.bin2base64 (ctx.random_bytes s.draws 16) in
      let t = record s { nonce = nonce; draws = s.draws + 1 } in
      Http.encode 1024 (client_handshake ctx.user_agent s.server_addr s.server_endpoint nonce)
      >>= λ encoded. send_raw encoded.1 t

  -- `connect` and `_connectSocket`. The endpoint holds 128 characters.
  unfoldable pub connect : Dialed → InetAddress → Bytes → WebSocket W → Option (WebSocket W)
  unfolding send_client_handshake close_socket
  connect dialed addr endpoint s =
      let asked = record s { server_addr = addr; server_endpoint = endpoint } in
      elim s.conn [
        | some c ↦ none
        | none ↦
            if ltb 128 (length endpoint)
            then none
            else elim (TcpConnection.connect unframed dialed) [
              | none ↦ some asked
              | some c ↦ send_client_handshake (record asked { conn = some c }) >>= λ r.
                  if r.0
                  then some (record r.1 { state = ws_connecting })
                  else some (close_socket r.1)
            ]
      ]
