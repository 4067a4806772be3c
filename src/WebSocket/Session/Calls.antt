-- ===== src/WebSocket/Session/Calls.antt =====
-- All calls of a WebSocket, in any order.
use husarnet.Common.{
  ◌+◌, ◌≡◌, ◌≢◌, ◌⊎◌, refl, sym, ◌∙◌, subst, Bool, true, Option, none, some, List, [], ◌∷◌, Bytes,
  if◌then◌else◌, not, length, ◌>>=◌, ltb,
}
use husarnet.IpAddress.{InetAddress}
use husarnet.Http
use husarnet.WebSocket.Handshake.{client_handshake}
use husarnet.Http.{ok, HttpMessage, new_http_message}
use husarnet.Http
use husarnet.TcpConnection.{TcpConnection, Dialed, unframed, Encapsulation}
use husarnet.TcpConnection
use husarnet.WebSocket.Handshake.{verify_server_handshake}
use husarnet.WebSocket.Session.{
  ws_connecting, ws_open, ws_closing, WebSocket, Context, close_socket, send_message, send_text,
  handle_read, send_client_handshake, connect,
}
use husarnet.WebSocket.Session.Invariant.{
  OnSome, OnSome-bind, OnSome-if, Linked, SessionOk, Same, Linked-Same, SentOn, sent_on,
  send_raw-SentOn, close_socket-closed, close_socket-SessionOk, handle_read-SessionOk,
}

abbrev IsOpen : TcpConnection → Type 0
IsOpen c = c.is_open ≡ true

connect-IsOpen : (enc : Encapsulation) (d : Dialed) → OnSome IsOpen (TcpConnection.connect enc d)
unfolding TcpConnection.connect
connect-IsOpen enc d = OnSome-if IsOpen (not d.got_socket) none _ tt (
    OnSome-if IsOpen (not d.under_way) none _ tt
      (OnSome-if IsOpen (not d.writable) none _ tt (OnSome-if IsOpen (not d.clean) none _ tt refl)))

module _ {W : Type 0} (ctx : Context W) where
  send_client_handshake-SentOn :
      (s : WebSocket W) → OnSome (SentOn ctx s) (send_client_handshake ctx s)
  unfolding send_client_handshake
  send_client_handshake-SentOn s =
      let nonce = ctx.digests.bin2base64 (ctx.random_bytes s.draws 16) in
      OnSome-bind (SentOn ctx s)
        (Http.encode 1024 (client_handshake ctx.user_agent s.server_addr s.server_endpoint nonce)) _
        (λ encoded e.
          send_raw-SentOn ctx encoded.1 (record s { nonce = nonce; draws = s.draws + 1 }))

  greeted :
      (s : WebSocket W) (c : TcpConnection) (r : Bool × WebSocket W)
      → s.conn ≡ some c
      → c.is_open ≡ true
      → Same s r.1
      → OnSome SessionOk
          (if r.0 then some (record r.1 { state = ws_connecting }) else some (close_socket ctx r.1))
  greeted s c r e o same =
      OnSome-if SessionOk r.0 _ _ (subst (λ x. Linked ws_connecting x) (sym (same.1.0 ∙ e)) o)
        (close_socket-closed ctx r.1 c (same.1.0 ∙ e))

  connect-SessionOk :
      (d : Dialed) (addr : InetAddress) (endpoint : Bytes) (s : WebSocket W)
      → SessionOk s
      → OnSome SessionOk (connect ctx d addr endpoint s)
  unfolding connect
  connect-SessionOk d addr endpoint s h = free s.conn
    where
      asked : WebSocket W
      asked = record s { server_addr = addr; server_endpoint = endpoint }

      dialed :
          (o : Option TcpConnection)
          → OnSome IsOpen o
          → OnSome SessionOk (elim o [
            | none ↦ some asked
            | some c ↦ send_client_handshake ctx (record asked { conn = some c }) >>= λ r.
                if r.0
                then some (record r.1 { state = ws_connecting })
                else some (close_socket ctx r.1)
          ])
      dialed none o = h
      dialed (some c) o =
          OnSome-bind SessionOk (send_client_handshake ctx (record asked { conn = some c })) _
            (λ r e.
              greeted (record asked { conn = some c }) c r refl o
                (subst (OnSome (SentOn ctx (record asked { conn = some c }))) e
                  (send_client_handshake-SentOn (record asked { conn = some c }))).0)

      free :
          (o : Option TcpConnection)
          → OnSome SessionOk (elim o [
            | some c ↦ none
            | none ↦
                if ltb 128 (length endpoint)
                then none
                else elim (TcpConnection.connect unframed d) [
                  | none ↦ some asked
                  | some c ↦ send_client_handshake ctx (record asked { conn = some c }) >>= λ r.
                      if r.0
                      then some (record r.1 { state = ws_connecting })
                      else some (close_socket ctx r.1)
                ]
          ])
      free none =
          OnSome-if SessionOk (ltb 128 (length endpoint)) _ _ tt
            (dialed (TcpConnection.connect unframed d) (connect-IsOpen unframed d))
      free (some c) = tt

  send_text-SessionOk :
      (text : Bytes) (s : WebSocket W) → SessionOk s → OnSome SessionOk (send_text ctx text s)
  unfolding send_text
  send_text-SessionOk text s h =
      OnSome-bind SessionOk (send_message ctx _ s) _
        (λ r e. Linked-Same ctx s r.1 (sent_on ctx _ s r e).0 h)

-- A call by the event bus or by the sockets.
pub data SocketCall : Type 0 where
  connects : Dialed → InetAddress → Bytes → SocketCall
  sends : Bytes → SocketCall
  reads : Bytes → SocketCall
  -- The error callback of the connection, or `close`.
  closes : SocketCall

module _ {W : Type 0} (ctx : Context W) where
  abbrev pub call : SocketCall → WebSocket W → Option (WebSocket W)
  call (connects d addr endpoint) s = connect ctx d addr endpoint s
  call (sends text) s = send_text ctx text s
  call (reads buf) s = handle_read ctx buf s
  call closes s = some (close_socket ctx s)

  abbrev pub run : List SocketCall → WebSocket W → Option (WebSocket W)
  run [] s = some s
  run (c ∷ cs) s = call c s >>= λ t. run cs t

  call-SessionOk : (c : SocketCall) (s : WebSocket W) → SessionOk s → OnSome SessionOk (call c s)
  call-SessionOk (connects d addr endpoint) s h = connect-SessionOk ctx d addr endpoint s h
  call-SessionOk (sends text) s h = send_text-SessionOk ctx text s h
  call-SessionOk (reads buf) s h = handle_read-SessionOk ctx buf s h
  call-SessionOk closes s h = close_socket-SessionOk ctx s h

  -- After any calls that run to their end, a WebSocket is closed and has no connection, or it is
  -- connecting or open and has an open one.
  pub run-SessionOk :
      (cs : List SocketCall) (s : WebSocket W) → SessionOk s → OnSome SessionOk (run cs s)
  run-SessionOk [] s h = h
  run-SessionOk (c ∷ cs) s h =
      OnSome-bind SessionOk (call c s) _
        (λ t e. run-SessionOk cs t (subst (OnSome SessionOk) e (call-SessionOk c s h)))

  -- What opens a WebSocket: a complete answer that is verified against the nonce.
  abbrev pub IsVerified : Bytes → Bytes → Type 0
  IsVerified nonce buf =
      (m : HttpMessage) × ((Http.parse ctx.to_unsigned ctx.to_size buf new_http_message
          ≡ some (ok, m))
        × (verify_server_handshake ctx.digests nonce m ≡ true))

  abbrev pub Opens : WebSocket W → Bytes → WebSocket W → Type 0
  Opens s buf t =
      ((s.state ≡ ws_open) ⊎ (s.state ≡ ws_closing))
      ⊎ ((t.delivered ≡ s.delivered)
          × ((t.state ≢ ws_open) ⊎ ((s.state ≡ ws_connecting) × IsVerified s.nonce buf)))
