-- ===== src/NgSocket/Parse/RoundTrip.antt =====
-- What one peer serializes the other parses: the layout of a greeting, and both kinds of packet.
mod Layout
use husarnet.Common.{
  ℕ, ◌+◌, ◌≡◌, refl, ap, ◌⊎◌, ◌∙◌, Option, some, List, [], ◌∷◌, ◌++◌, Bytes, arith, length, ◌>>=◌,
  true, ==_refl, same_bytes_refl, length-append, substr,
}
use husarnet.IpAddress.{IpAddress}
use husarnet.Crypto.{Sodium, Identity, SigningLaws, pubkey_to_device_id, verify_signature, sign}
use husarnet.Util.Pack.{pack}
use husarnet.Util.View.{view_at, view_from}
use husarnet.NgSocket.Messages.{
  PeerToPeerMessage, PeerToPeerMessageKind, peer_message, serialize_peer_to_peer_message, p2p_kind,
  serialize_hello, peer_to_peer_value,
}
use husarnet.NgSocket.Parse.{judge_hello, parse_hello, parse_peer_to_peer_message}
use husarnet.NgSocket.Parse.Total.{parse_hello_inside}
use Layout.{greeting, length-greeting, greeting_fields, Fields}

-- What the receiver of a message knows of it.
abbrev pub as_received : Identity → PeerToPeerMessage → PeerToPeerMessage
as_received me msg = elim msg.kind [
  | PeerToPeerMessageKind.data_message ↦ record (peer_message PeerToPeerMessageKind.data_message) {
    payload = msg.payload;
  }
  | kind ↦ record (peer_message kind) {
    my_id = me.device_id;
    your_id = msg.your_id;
    hello_cookie = msg.hello_cookie;
  }
]

-- An identity as `Identity::create` makes it: the id is the hash of the key, and the keys match.
pub record IsGenuine (so : Sodium) (me : Identity) : Type 0 where
  pub hashes : pubkey_to_device_id so me.pubkey ≡ me.device_id
  pub id_size : length me.device_id ≡ 16
  pub key_size : length me.pubkey ≡ 32
  pub signing : SigningLaws so me.pubkey me.privkey

verify-sign :
    (so : Sodium) (me : Identity) (message : Bytes)
    → IsGenuine so me
    → verify_signature so message p2p_kind me.pubkey (sign so message p2p_kind me) ≡ true
unfolding verify_signature sign
verify-sign so me message g = g.signing.verifies _

length-sign :
    (so : Sodium) (me : Identity) (message : Bytes)
    → IsGenuine so me
    → length (sign so message p2p_kind me) ≡ 64
unfolding sign
length-sign so me message g = g.signing.signature_size _

judge_genuine :
    (so : Sodium) (me : Identity) (msg : PeerToPeerMessage) (kind : PeerToPeerMessageKind)
    (signed : Bytes)
    → IsGenuine so me
    → msg.my_id ≡ me.device_id
    → judge_hello so msg kind me.pubkey signed (sign so signed p2p_kind me)
      ≡ record msg { kind = kind }
unfolding judge_hello
judge_genuine so me msg kind signed g e =
    ground (arith, g.hashes, verify-sign so me signed g, same_bytes_refl me.device_id)

-- A packet of the right size goes to the branch of its first byte.
parse_hello_packet :
    (so : Sodium) (rest : Bytes)
    → length (0 ∷ rest) ≡ 145
    → parse_peer_to_peer_message so (0 ∷ rest)
      ≡ parse_hello so PeerToPeerMessageKind.hello (0 ∷ rest)
unfolding parse_peer_to_peer_message view_at
parse_hello_packet so rest h = ground arith

parse_reply_packet :
    (so : Sodium) (rest : Bytes)
    → length (1 ∷ rest) ≡ 145
    → parse_peer_to_peer_message so (1 ∷ rest)
      ≡ parse_hello so PeerToPeerMessageKind.hello_reply (1 ∷ rest)
unfolding parse_peer_to_peer_message view_at
parse_reply_packet so rest h = ground arith

parse_data_packet :
    (so : Sodium) (rest : Bytes)
    → parse_peer_to_peer_message so (2 ∷ rest)
      ≡ some (record (peer_message PeerToPeerMessageKind.data_message) { payload = rest })
unfolding parse_peer_to_peer_message view_at view_from
parse_data_packet so rest = ground arith

module _ (so : Sodium) (me : Identity) (g : IsGenuine so me) (msg : PeerToPeerMessage) where
  -- A greeting with kind number `n` is parsed by `parse_hello`, and found genuine.
  parse_greeting :
      (n : ℕ) (kind : PeerToPeerMessageKind)
      → length msg.your_id ≡ 16
      → length msg.hello_cookie ≡ 16
      → let signed = n ∷ (me.device_id ++ (me.pubkey ++ (msg.your_id ++ msg.hello_cookie))) in
        parse_hello so kind (signed ++ sign so signed p2p_kind me)
        ≡ some (record (peer_message kind) {
          my_id = me.device_id;
          your_id = msg.your_id;
          hello_cookie = msg.hello_cookie;
        })
  parse_greeting n kind hy hc =
      let signed = n ∷ (me.device_id ++ (me.pubkey ++ (msg.your_id ++ msg.hello_cookie))) in
      let sig = sign so signed p2p_kind me in
      let hs = length-sign so me signed g in
      let fields : Fields n me.device_id me.pubkey msg.your_id msg.hello_cookie sig g.id_size
          g.key_size hy hc hs =
        greeting_fields n me.device_id me.pubkey msg.your_id msg.hello_cookie sig g.id_size
          g.key_size hy hc hs in
      rw
        (
          parse_hello_inside so kind (signed ++ sig) (
              length-greeting n me.device_id me.pubkey msg.your_id msg.hello_cookie sig g.id_size
                g.key_size hy hc hs),
          fields.id_field,
          fields.key_field,
          fields.your_field,
          fields.cookie_field,
          fields.sig_field,
          fields.signed_field,
        )
        (ap some (judge_genuine so me _ kind signed g refl))

  greeting_size :
      (n : ℕ)
      → length msg.your_id ≡ 16
      → length msg.hello_cookie ≡ 16
      → let signed = n ∷ (me.device_id ++ (me.pubkey ++ (msg.your_id ++ msg.hello_cookie))) in
        length (signed ++ sign so signed p2p_kind me) ≡ 145
  greeting_size n hy hc =
      let signed = n ∷ (me.device_id ++ (me.pubkey ++ (msg.your_id ++ msg.hello_cookie))) in
      length-greeting n me.device_id me.pubkey msg.your_id msg.hello_cookie _ g.id_size g.key_size
        hy hc (length-sign so me signed g)

-- What can be sent: a data packet, or a greeting with an addressee and a cookie.
abbrev pub IsSendable : PeerToPeerMessage → Type 0
IsSendable msg = elim msg.kind [
  | PeerToPeerMessageKind.data_message ↦ Unit {0}
  | PeerToPeerMessageKind.invalid ↦ ⊥
  | _ ↦ (length msg.your_id ≡ 16) × (length msg.hello_cookie ≡ 16)
]

abbrev ComesBack : Sodium → Identity → PeerToPeerMessage → Type 0
ComesBack so me msg =
    (packet : Bytes) × (serialize_peer_to_peer_message so me msg ≡ some packet)
    × (parse_peer_to_peer_message so packet ≡ some (as_received me msg))

comes_back :
    (so : Sodium) (me : Identity) (g : IsGenuine so me) (msg : PeerToPeerMessage)
    (kind : PeerToPeerMessageKind)
    → IsSendable (record msg { kind = kind })
    → ComesBack so me (record msg { kind = kind })
unfolding serialize_peer_to_peer_message serialize_hello pack
comes_back so me g msg PeerToPeerMessageKind.hello (hy, hc) = (
  _,
  rw (g.id_size, hy, hc, g.key_size),
  parse_hello_packet so _ (greeting_size so me g msg 0 hy hc)
      ∙ parse_greeting so me g msg 0 PeerToPeerMessageKind.hello hy hc,
)
comes_back so me g msg PeerToPeerMessageKind.hello_reply (hy, hc) = (
  _,
  rw (g.id_size, hy, hc, g.key_size),
  parse_reply_packet so _ (greeting_size so me g msg 1 hy hc)
      ∙ parse_greeting so me g msg 1 PeerToPeerMessageKind.hello_reply hy hc,
)
comes_back so me g msg PeerToPeerMessageKind.data_message h =
    (_, refl, parse_data_packet so msg.payload)
comes_back so me g msg PeerToPeerMessageKind.invalid h = absurd h

-- A genuine identity can serialize every sendable message, and the receiver parses the packet to
-- the same kind with the sender's id, the addressee and the cookie, or to the same payload. Its
-- hypotheses on libsodium are that it accepts its own signatures and makes them of 64 bytes.
pub parse-serialize :
    (so : Sodium) (me : Identity)
    → IsGenuine so me
    → (msg : PeerToPeerMessage) → IsSendable msg
    → (packet : Bytes) × (serialize_peer_to_peer_message so me msg ≡ some packet)
      × (parse_peer_to_peer_message so packet ≡ some (as_received me msg))
parse-serialize so me g msg h = comes_back so me g msg msg.kind h
