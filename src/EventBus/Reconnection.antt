-- ===== src/EventBus/Reconnection.antt =====
-- The event bus tries to connect once its interval has passed, and not before.
use husarnet.Common.{
  ℕ, suc, ◌+◌, ◌≤◌, ◌≡◌, refl, ap, ◌∙◌, subst, Bool, true, false, not, Option, none, some, [], ◌∷◌,
  Bytes, ◌==◌, ltb, if◌then◌else◌, length, ◌>>=◌, arith, ==_refl, drop,
}
use husarnet.IpAddress.{InetAddress, is_fc94}
use husarnet.ConfigManager.{ConfigManager, get_eb_address}
use husarnet.TcpConnection.{Dialed, Socket, TcpConnection, unframed, send_all, write, on_wire}
use husarnet.TcpConnection
use husarnet.Http
use husarnet.WebSocket.Handshake.{client_handshake}
use husarnet.WebSocket.Session.{
  State, sock_closed, ws_closed, ws_connecting, ws_open, ws_closing, WebSocket, Context,
  close_socket, connect, send_raw, send_client_handshake,
}
use husarnet.WebSocket.Session.Invariant.{Linked, SessionOk}
use husarnet.EventBus.{EventBus, device_endpoint, reconnect, event_bus_periodic}

-- Nothing in the way of a connection.
abbrev pub reachable : Dialed
reachable = record { got_socket = true; under_way = true; writable = true; clean = true }

-- The connection that it makes.
abbrev fresh : TcpConnection
fresh = record { is_open = true; read_buffer = []; encapsulation = unframed; has_errored = false }

if_true : {A : Type 0} (b : Bool) (x y : A) → b ≡ true → (if b then x else y) ≡ x
if_true true x y h = refl
if_true false x y h = cc

if_false : {A : Type 0} (b : Bool) (x y : A) → b ≡ false → (if b then x else y) ≡ y
if_false true x y h = cc
if_false false x y h = refl

module _ {W : Type 0} (ctx : Context W)
    (takes_all : (w : W) (bytes : Bytes) → (ctx.io.send_some w bytes).0 ≡ some (length bytes)) where
  sent : W → Bytes → W
  sent w bytes = (ctx.io.send_some w bytes).1

  send_all-all :
      (fuel : ℕ) (bytes : Bytes) (w : W) → send_all ctx.io (suc fuel) bytes w ≡ (true, sent w bytes)
  unfolding sent send_all
  send_all-all fuel bytes w =
      rw (send_all, takes_all w bytes)
        (if_true (length bytes == length bytes) _ _ (==_refl (length bytes)))

  write-all :
      (b : ℕ) (rest : Bytes) (w : W)
      → write ctx.io fresh 1024 (b ∷ rest) w ≡ some (true, sent w (b ∷ rest))
  unfolding write on_wire
  write-all b rest w =
      if_false (length (b ∷ rest) == 0) _ _ (ground arith)
      ∙ ap some (send_all-all (length rest) (b ∷ rest) w)

  abbrev linked : WebSocket W → WebSocket W
  linked s = record s { conn = some fresh }

  send_raw-all :
      (b : ℕ) (rest : Bytes) (s : WebSocket W)
      → send_raw ctx (b ∷ rest) (linked s)
        ≡ some (true, record s { conn = some fresh; world = sent s.world (b ∷ rest) })
  unfolding send_raw
  send_raw-all b rest s =
      ap (λ o. o >>= λ r. some (r.0, record s { conn = some fresh; world = r.1 }))
        (write-all b rest s.world)

  -- The request goes out, and the WebSocket waits for the answer.
  abbrev Waits : Option (Bool × WebSocket W) → Type 0
  Waits o = (t : WebSocket W) × (o ≡ some (true, t))

  -- The handshake's bytes, with the nonce that is drawn next.
  abbrev pub greeting : WebSocket W → InetAddress → Bytes → Bytes
  greeting s addr endpoint =
      (Http.message_bytes (
        client_handshake ctx.user_agent addr endpoint
          (ctx.digests.bin2base64 (ctx.random_bytes s.draws 16)))).1

  encode-fits :
      (capacity : ℕ) (m : Http.HttpMessage)
      → length (Http.message_bytes m).1 ≤ capacity
      → Http.encode capacity m ≡ some (Http.message_bytes m)
  unfolding Http.encode
  encode-fits capacity m h =
      if_false (ltb capacity (length (Http.message_bytes m).1)) _ _ (ground (arith, h))

  send_client_handshake-Waits :
      (s : WebSocket W)
      → length (greeting s s.server_addr s.server_endpoint) ≤ 1024
      → Waits (send_client_handshake ctx (linked s))
  unfolding send_client_handshake Http.message_bytes client_handshake
  send_client_handshake-Waits s h =
      let nonce = ctx.digests.bin2base64 (ctx.random_bytes s.draws 16) in
      let request = client_handshake ctx.user_agent s.server_addr s.server_endpoint nonce in
      let t = record s { conn = some fresh; nonce = nonce; draws = s.draws + 1 } in
      (
        _,
        ap (λ o. o >>= λ encoded. send_raw ctx encoded.1 t) (encode-fits 1024 request h)
            ∙ send_raw-all b'G' (drop 1 (Http.message_bytes request).1)
                (record s { nonce = nonce; draws = s.draws + 1 }),
      )

  connect-reachable :
      (addr : InetAddress) (endpoint : Bytes) (s : WebSocket W)
      → s.conn ≡ none
      → length endpoint ≤ 128
      → length (greeting s addr endpoint) ≤ 1024
      → (t : WebSocket W) × ((connect ctx reachable addr endpoint s ≡ some t)
          × (t.state ≡ ws_connecting))
  unfolding connect TcpConnection.connect
  connect-reachable addr endpoint s e h fits = at s.conn e
    where
      asked : WebSocket W
      asked = record s { server_addr = addr; server_endpoint = endpoint }

      greeted : Waits (send_client_handshake ctx (linked asked))
      greeted = send_client_handshake-Waits asked fits

      at :
          (o : Option TcpConnection)
          → o ≡ none
          → (t : WebSocket W) × (Path
                (Option (WebSocket W))
                (elim o [
                  | some c ↦ none
                  | none ↦
                      if ltb 128 (length endpoint)
                      then none
                      else elim (TcpConnection.connect unframed reachable) [
                        | none ↦ some asked
                        | some c ↦
                            send_client_handshake ctx (record asked { conn = some c }) >>= λ r.
                            if r.0
                            then some (record r.1 { state = ws_connecting })
                            else some (close_socket ctx r.1)
                      ]
                ])
                (some t)
              × (t.state ≡ ws_connecting))
      at (some c) f = cc
      at none f = (
        record greeted.0 { state = ws_connecting },
        (
          if_false (ltb 128 (length endpoint)) _ _ (ground (arith, h))
              ∙ ap
                  (λ o. o >>= λ r.
                    if r.0
                    then some (record r.1 { state = ws_connecting })
                    else some (close_socket ctx r.1))
                  greeted.1,
          refl,
        ),
      )

  unlinked : (s : WebSocket W) → s.state ≡ sock_closed → SessionOk s → s.conn ≡ none
  unlinked s e h = no_conn s.conn (subst (λ st. Linked st s.conn) e h)
    where
      no_conn : (o : Option TcpConnection) → Linked sock_closed o → o ≡ none
      no_conn none k = refl
      no_conn (some c) k = absurd k

  reconnect-made :
      (config : ConfigManager) (now : ℕ) (s : EventBus W) (ws : WebSocket W)
      → is_fc94 (get_eb_address config) ≡ true
      → connect ctx reachable
          (record { ip = get_eb_address config; port = 80 })
          (device_endpoint s.my_address)
          s.ws
        ≡ some ws
      → reconnect ctx config reachable now s
        ≡ some (record s { ws = ws; connected = false; last_connection_attempt = now })
  unfolding reconnect
  reconnect-made config now s ws fc94 made =
      let tried = record s { connected = false; last_connection_attempt = now } in
      if_false (not (is_fc94 (get_eb_address config))) _ _ (ap not fc94)
      ∙ ap (λ o. o >>= λ v. some (record tried { ws = v })) made

  periodic_closed :
      (config : ConfigManager) (dialed : Dialed) (now : ℕ) (s : EventBus W)
      → s.ws.state ≡ sock_closed
      → event_bus_periodic ctx config dialed now s ≡ (
          if ltb now (s.last_connection_attempt + 1000)
          then some (record s { connected = false })
          else reconnect ctx config dialed now s)
  unfolding event_bus_periodic
  periodic_closed config dialed now s closed = ap by_state closed
    where
      by_state : State → Option (EventBus W)
      by_state sock_closed =
          if ltb now (s.last_connection_attempt + 1000)
          then some (record s { connected = false })
          else reconnect ctx config dialed now s
      by_state ws_open = some (record s { connected = true })
      by_state ws_closed = some s
      by_state ws_connecting = some s
      by_state ws_closing = some s

  -- Once a second has passed since the last attempt, a closed event bus whose configuration has a server
  -- of the network connects if the system makes the connection and takes all bytes, and the handshake
  -- fits the 1024 bytes of its buffer: the WebSocket waits for the answer, and the time of the attempt is kept.
  pub event_bus_connects :
      (config : ConfigManager) (now : ℕ) (s : EventBus W)
      → s.ws.state ≡ sock_closed
      → SessionOk s.ws
      → is_fc94 (get_eb_address config) ≡ true
      → length (device_endpoint s.my_address) ≤ 128
      → length (
          greeting s.ws
            (record { ip = get_eb_address config; port = 80 })
            (device_endpoint s.my_address))
        ≤ 1024
      → s.last_connection_attempt + 1000 ≤ now
      → (t : EventBus W) × ((event_bus_periodic ctx config reachable now s ≡ some t)
          × ((t.ws.state ≡ ws_connecting) × (t.last_connection_attempt ≡ now)))
  event_bus_connects config now s closed ok fc94 short fits due =
      let ep_ip = get_eb_address config in
      let (ws, (made, waits)) =
        connect-reachable (record { ip = ep_ip; port = 80 }) (device_endpoint s.my_address) s.ws
          (unlinked s.ws closed ok) short fits in
      (
        record s { ws = ws; connected = false; last_connection_attempt = now },
        (
          periodic_closed config reachable now s closed
              ∙ (if_false (ltb now (s.last_connection_attempt + 1000)) _ _ (ground (arith, due))
                  ∙ reconnect-made config now s ws fc94 made),
          (waits, refl),
        ),
      )
