-- ===== src/WebSocket/Handshake.antt =====
-- core/husarnet/websocket.cpp: the client's request and the server's answer. SHA-1 and the base64 encoding
-- of libsodium are arguments.
use husarnet.Common.{
  Bool, false, not, none, some, [], ◌∷◌, ◌++◌, Bytes, ◌==◌, if◌then◌else◌, take, same_bytes,
}
use husarnet.IpAddress.{InetAddress}
use husarnet.IpAddress.Text.{inet_text}
use husarnet.Util.Text.{c_string}
use husarnet.Http.{
  HttpMessage, unknown, request, response, new_http_message, assign_header, header_of,
}

-- What the handshake calls of other code.
pub record Digests : Type 0 where
  pub sha1 : Bytes → Bytes
  pub bin2base64 : Bytes → Bytes

-- `headers[key]` of a map.
unfoldable pub header_or_empty : HttpMessage → Bytes → Bytes
header_or_empty m key = elim (header_of m.headers key) [ none ↦ [] | some value ↦ value ]

abbrev key_upgrade : Bytes
key_upgrade = b'U' ∷ b'p' ∷ b'g' ∷ b'r' ∷ b'a' ∷ b'd' ∷ b'e' ∷ []

abbrev key_connection : Bytes
key_connection = b'C' ∷ b'o' ∷ b'n' ∷ b'n' ∷ b'e' ∷ b'c' ∷ b't' ∷ b'i' ∷ b'o' ∷ b'n' ∷ []

abbrev key_accept : Bytes
key_accept =
    b'S' ∷ b'e' ∷ b'c' ∷ b'-' ∷ b'W' ∷ b'e' ∷ b'b' ∷ b'S' ∷ b'o' ∷ b'c' ∷ b'k' ∷ b'e' ∷ b't' ∷ b'-'
    ∷ b'A' ∷ b'c' ∷ b'c' ∷ b'e' ∷ b'p' ∷ b't' ∷ []

abbrev value_websocket : Bytes
value_websocket = b'w' ∷ b'e' ∷ b'b' ∷ b's' ∷ b'o' ∷ b'c' ∷ b'k' ∷ b'e' ∷ b't' ∷ []

-- The key that every server appends to the nonce.
abbrev server_key : Bytes
server_key =
    b'2' ∷ b'5' ∷ b'8' ∷ b'E' ∷ b'A' ∷ b'F' ∷ b'A' ∷ b'5' ∷ b'-' ∷ b'E' ∷ b'9' ∷ b'1' ∷ b'4' ∷ b'-'
    ∷ b'4' ∷ b'7' ∷ b'D' ∷ b'A' ∷ b'-' ∷ b'9' ∷ b'5' ∷ b'C' ∷ b'A' ∷ b'-' ∷ b'C' ∷ b'5' ∷ b'A'
    ∷ b'B' ∷ b'0' ∷ b'D' ∷ b'C' ∷ b'8' ∷ b'5' ∷ b'B' ∷ b'1' ∷ b'1' ∷ []

-- The answer that the server must give to a nonce.
unfoldable pub expected_accept : Digests → Bytes → Bytes
expected_accept digests nonce = digests.bin2base64 (digests.sha1 (nonce ++ server_key))

-- `_verifyServerHandshake`
unfoldable pub verify_server_handshake : Digests → Bytes → HttpMessage → Bool
unfolding header_or_empty
verify_server_handshake digests nonce m = elim m.kind [
  | unknown ↦ false
  | request ↦ false
  | response ↦
      if not (m.status_code == 101)
      then false
      else if not (same_bytes (header_or_empty m key_upgrade) value_websocket)
      then false
      else if not (same_bytes (header_or_empty m key_connection) key_upgrade)
      then false
      else elim (header_of m.headers key_accept) [
        | none ↦ false
        | some value ↦
            same_bytes (take 29 (c_string (expected_accept digests nonce)))
              (take 29 (c_string value))
      ]
]

-- The request of `_sendClientHandshake`.
unfoldable pub client_handshake : Bytes → InetAddress → Bytes → Bytes → HttpMessage
client_handshake user_agent address endpoint nonce = record new_http_message {
  method = b'G' ∷ b'E' ∷ b'T' ∷ [];
  endpoint = endpoint;
  headers =
      assign_header
        (assign_header
          (assign_header
            (assign_header
              (assign_header (assign_header [] (b'H' ∷ b'o' ∷ b's' ∷ b't' ∷ []) (inet_text address))
                key_upgrade value_websocket)
              key_connection key_upgrade)
            (b'S' ∷ b'e' ∷ b'c' ∷ b'-' ∷ b'W' ∷ b'e' ∷ b'b' ∷ b'S' ∷ b'o' ∷ b'c' ∷ b'k' ∷ b'e'
              ∷ b't' ∷ b'-' ∷ b'V' ∷ b'e' ∷ b'r' ∷ b's' ∷ b'i' ∷ b'o' ∷ b'n' ∷ [])
            (b'1' ∷ b'3' ∷ []))
          (b'U' ∷ b's' ∷ b'e' ∷ b'r' ∷ b'-' ∷ b'A' ∷ b'g' ∷ b'e' ∷ b'n' ∷ b't' ∷ []) user_agent)
        (b'S' ∷ b'e' ∷ b'c' ∷ b'-' ∷ b'W' ∷ b'e' ∷ b'b' ∷ b'S' ∷ b'o' ∷ b'c' ∷ b'k' ∷ b'e' ∷ b't'
          ∷ b'-' ∷ b'K' ∷ b'e' ∷ b'y' ∷ [])
        nonce;
}
