-- ===== src/NgSocket/Messages.antt =====
-- core/husarnet/ngsocket_messages.h: the messages, and the two serializers of ngsocket.cpp.
use husarnet.Common.{
  ℕ, Option, none, some, List, [], ◌∷◌, ◌++◌, Bytes, ◌&&◌, ◌==◌, if◌then◌else◌, length, replicate,
}
use husarnet.IpAddress.{IpAddress, InetAddress, no_address, no_inet_address}
use husarnet.Crypto.{Sodium, Identity, sign}
use husarnet.Util.Pack.{pack}

pub data BaseToPeerMessageKind : Type 0 where
  hello device_addresses data_message nat_ok state redirect invalid : BaseToPeerMessageKind

pub record BaseToPeerMessage : Type 0 where
  pub kind : BaseToPeerMessageKind
  pub cookie : Bytes
  pub udp_address : List InetAddress
  pub nat_transient_range : ℕ × ℕ
  pub device_id : IpAddress
  pub addresses : List InetAddress
  pub source : IpAddress
  pub payload : Bytes
  pub new_base_address : InetAddress

pub data PeerToBaseMessageKind : Type 0 where
  request_info data_message info nat_init user_agent nat_ok_confirm nat_init_transient invalid :
      PeerToBaseMessageKind

pub record PeerToBaseMessage : Type 0 where
  pub kind : PeerToBaseMessageKind
  pub device_id : IpAddress
  pub target : IpAddress
  pub payload : Bytes
  pub counter : ℕ
  pub user_agent : Bytes

pub data PeerToPeerMessageKind : Type 0 where
  hello hello_reply data_message invalid : PeerToPeerMessageKind

pub record PeerToPeerMessage : Type 0 where
  pub kind : PeerToPeerMessageKind
  pub my_id : IpAddress
  pub your_id : IpAddress
  pub hello_cookie : Bytes
  pub payload : Bytes

-- A message of each type with nothing set but the kind.
abbrev pub base_message : BaseToPeerMessageKind → BaseToPeerMessage
base_message kind = record {
  kind = kind;
  cookie = replicate 16 0;
  udp_address = [];
  nat_transient_range = (0, 0);
  device_id = no_address;
  addresses = [];
  source = no_address;
  payload = [];
  new_base_address = no_inet_address;
}

abbrev pub to_base_message : PeerToBaseMessageKind → PeerToBaseMessage
to_base_message kind = record {
  kind = kind;
  device_id = no_address;
  target = no_address;
  payload = [];
  counter = 0;
  user_agent = [];
}

abbrev pub peer_message : PeerToPeerMessageKind → PeerToPeerMessage
peer_message kind = record {
  kind = kind;
  my_id = no_address;
  your_id = no_address;
  hello_cookie = [];
  payload = [];
}

-- The number of a kind, `_value`.
unfoldable pub base_to_peer_kind : ℕ → Option BaseToPeerMessageKind
base_to_peer_kind n =
    if n == 0
    then some BaseToPeerMessageKind.hello
    else if n == 1
    then some BaseToPeerMessageKind.device_addresses
    else if n == 2
    then some BaseToPeerMessageKind.data_message
    else if n == 3
    then some BaseToPeerMessageKind.nat_ok
    else if n == 4
    then some BaseToPeerMessageKind.state
    else if n == 5
    then some BaseToPeerMessageKind.redirect
    else if n == 6
    then some BaseToPeerMessageKind.invalid
    else none

unfoldable pub peer_to_base_value : PeerToBaseMessageKind → ℕ
peer_to_base_value PeerToBaseMessageKind.request_info = 0
peer_to_base_value PeerToBaseMessageKind.data_message = 1
peer_to_base_value PeerToBaseMessageKind.info = 2
peer_to_base_value PeerToBaseMessageKind.nat_init = 3
peer_to_base_value PeerToBaseMessageKind.user_agent = 4
peer_to_base_value PeerToBaseMessageKind.nat_ok_confirm = 5
peer_to_base_value PeerToBaseMessageKind.nat_init_transient = 6
peer_to_base_value PeerToBaseMessageKind.invalid = 7

unfoldable pub peer_to_peer_value : PeerToPeerMessageKind → ℕ
peer_to_peer_value PeerToPeerMessageKind.hello = 0
peer_to_peer_value PeerToPeerMessageKind.hello_reply = 1
peer_to_peer_value PeerToPeerMessageKind.data_message = 2
peer_to_peer_value PeerToPeerMessageKind.invalid = 3

-- "ng-p2p-msg" and "ng-p2b-msg".
abbrev pub p2p_kind : Bytes
p2p_kind = b'n' ∷ b'g' ∷ b'-' ∷ b'p' ∷ b'2' ∷ b'p' ∷ b'-' ∷ b'm' ∷ b's' ∷ b'g' ∷ []

abbrev pub p2b_kind : Bytes
p2b_kind = b'n' ∷ b'g' ∷ b'-' ∷ b'p' ∷ b'2' ∷ b'b' ∷ b'-' ∷ b'm' ∷ b's' ∷ b'g' ∷ []

-- The addresses of an INFO message.
unfoldable pub pack_addresses : List InetAddress → Bytes
pack_addresses [] = []
pack_addresses (a ∷ rest) = a.ip ++ (pack 2 a.port ++ pack_addresses rest)

module _ (so : Sodium) where
  -- The signed part of a greeting and its signature. `none` is a failed assertion.
  unfoldable pub serialize_hello : Identity → PeerToPeerMessage → Option Bytes
  unfolding peer_to_peer_value
  serialize_hello me msg =
      let signed =
        pack 1 (peer_to_peer_value msg.kind)
        ++ (me.device_id ++ (me.pubkey ++ (msg.your_id ++ msg.hello_cookie))) in
      if length me.device_id == 16
        && length msg.your_id == 16
        && length msg.hello_cookie == 16
        && length me.pubkey == 32
      then some (signed ++ sign so signed p2p_kind me)
      else none

  -- `none` is a failed assertion or `abort()`.
  unfoldable pub serialize_peer_to_peer_message : Identity → PeerToPeerMessage → Option Bytes
  unfolding serialize_hello peer_to_peer_value
  serialize_peer_to_peer_message me msg = elim msg.kind [
    | PeerToPeerMessageKind.hello ↦ serialize_hello me msg
    | PeerToPeerMessageKind.hello_reply ↦ serialize_hello me msg
    | PeerToPeerMessageKind.data_message ↦
        some (pack 1 (peer_to_peer_value msg.kind) ++ msg.payload)
    | PeerToPeerMessageKind.invalid ↦ none
  ]

  -- The cookie, the local addresses and the NAT counter are those of the socket; the ones in the
  -- message are not used.
  unfoldable pub serialize_peer_to_base_message :
      Identity → Bytes → List InetAddress → ℕ → PeerToBaseMessage → Option Bytes
  unfolding peer_to_base_value
  serialize_peer_to_base_message me cookie local_addresses nat_init_counter msg =
      let number = pack 1 (peer_to_base_value msg.kind) in
      let head = number ++ (me.device_id ++ (me.pubkey ++ cookie)) in
      let signed : Bytes → Bytes = λ message. message ++ sign so message p2b_kind me in
      if length me.device_id == 16 && length cookie == 16 && length me.pubkey == 32
      then elim msg.kind [
        | PeerToBaseMessageKind.request_info ↦ some (signed (head ++ msg.device_id))
        | PeerToBaseMessageKind.data_message ↦
            some (number ++ (me.device_id ++ (msg.target ++ msg.payload)))
        | PeerToBaseMessageKind.user_agent ↦ some (number ++ msg.user_agent)
        | PeerToBaseMessageKind.info ↦ some (signed (head ++ pack_addresses local_addresses))
        | PeerToBaseMessageKind.nat_init ↦ some (signed (head ++ pack 8 nat_init_counter))
        | PeerToBaseMessageKind.nat_ok_confirm ↦ some (signed (head ++ pack 8 nat_init_counter))
        | PeerToBaseMessageKind.nat_init_transient ↦ some (signed head)
        | PeerToBaseMessageKind.invalid ↦ some (signed head)
      ]
      else none
