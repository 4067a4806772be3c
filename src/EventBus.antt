-- ===== src/EventBus.antt =====
-- core/husarnet/eventbus.h and eventbus.cpp: the client of the control plane. It keeps its WebSocket
-- connected and passes on the request to fetch the configuration.
pub mod Reconnection
use husarnet.Common.{
  ℕ, ◌+◌, ◌≡◌, Bool, true, false, not, Option, none, some, [], ◌∷◌, ◌++◌, Bytes, ◌==◌, ltb,
  if◌then◌else◌, length, same_bytes, ◌>>=◌,
}
use husarnet.IpAddress.{IpAddress, is_fc94}
use husarnet.IpAddress.Text.{address_text}
use husarnet.ConfigManager.{ConfigManager, get_eb_address}
use husarnet.TcpConnection.{Dialed}
use husarnet.WebSocket.Message.{Message, op_text}
use husarnet.WebSocket.Session.{
  State, sock_closed, ws_closed, ws_connecting, ws_open, ws_closing, WebSocket, Context, connect,
}

pub record EventBus (W : Type 0) : Type 0 where
  pub my_address : IpAddress
  pub ws : WebSocket W
  pub connected : Bool
  pub last_connection_attempt : ℕ

-- CONNECTION_ATTEMPT_INTERVAL
abbrev pub connection_attempt_interval : ℕ
connection_attempt_interval = 1000

-- The path of this device on the server.
unfoldable pub device_endpoint : IpAddress → Bytes
device_endpoint a = b'/' ∷ b'd' ∷ b'e' ∷ b'v' ∷ b'i' ∷ b'c' ∷ b'e' ∷ b'/' ∷ address_text a

-- `_handleMessage`: whether `triggerGetConfig` is called.
unfoldable pub asks_for_config : Message → Bool
asks_for_config m =
    if not (m.opcode == op_text)
    then false
    else if length m.data_bytes == 0
    then false
    else same_bytes m.data_bytes
        (b'g' ∷ b'e' ∷ b't' ∷ b'_' ∷ b'c' ∷ b'o' ∷ b'n' ∷ b'f' ∷ b'i' ∷ b'g' ∷ [])

module _ {W : Type 0} (ctx : Context W) where
  -- What `periodic` does on a closed WebSocket, once it is time for an attempt.
  unfoldable pub reconnect : ConfigManager → Dialed → ℕ → EventBus W → Option (EventBus W)
  unfolding device_endpoint
  reconnect config dialed now s =
      let tried = record s { connected = false; last_connection_attempt = now } in
      let ep_ip = get_eb_address config in
      let dialing =
        connect ctx dialed (record { ip = ep_ip; port = 80 }) (device_endpoint s.my_address) s.ws
        >>= λ ws. some (record tried { ws = ws }) in
      if not (is_fc94 ep_ip) then some tried else dialing

  -- `periodic`, at a time, with what the system answers to a connection attempt.
  unfoldable pub event_bus_periodic : ConfigManager → Dialed → ℕ → EventBus W → Option (EventBus W)
  unfolding reconnect
  event_bus_periodic config dialed now s = elim s.ws.state [
    | sock_closed ↦
        if ltb now (s.last_connection_attempt + connection_attempt_interval)
        then some (record s { connected = false })
        else reconnect config dialed now s
    | ws_open ↦ some (record s { connected = true })
    | _ ↦ some s
  ]
