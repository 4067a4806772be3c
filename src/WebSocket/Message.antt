-- ===== src/WebSocket/Message.antt =====
-- core/husarnet/websocket.h and websocket_message.cpp: the frames of a WebSocket. `char` is signed on
-- some targets and unsigned on others, so that is an argument; `size_t` has 64 bits.
pub mod RoundTrip
use husarnet.Common.{
  ℕ, zero, suc, ◌+◌, ◌-◌, ◌*◌, ◌/◌, ◌%◌, ◌^◌, ◌≡◌, Bool, true, false, not, ◌&&◌, ◌||◌, Option, none,
  some, List, [], ◌∷◌, ◌++◌, Bytes, ◌==◌, ltb, leb, if◌then◌else◌, length, take, drop, byte_at,
  bit_or, bit_xor,
}

pub record Message : Type 0 where
  pub fin : Bool
  pub rsv1 : Bool
  pub rsv2 : Bool
  pub rsv3 : Bool
  pub opcode : ℕ
  pub masked : Bool
  pub data_bytes : Bytes

-- Opcode
abbrev pub op_text : ℕ
op_text = 1

abbrev pub op_binary : ℕ
op_binary = 2

abbrev pub op_close : ℕ
op_close = 8

abbrev pub op_ping : ℕ
op_ping = 9

abbrev pub op_pong : ℕ
op_pong = 10

-- The capacity of `Message::data`.
abbrev pub max_payload : ℕ
max_payload = 128

-- `Message(opcode, masked)`
abbrev pub new_message : ℕ → Bool → Message
new_message opcode masked = record {
  fin = true;
  rsv1 = false;
  rsv2 = false;
  rsv3 = false;
  opcode = opcode;
  masked = masked;
  data_bytes = [];
}

-- A bit of a byte, by its weight.
abbrev pub has_bit : ℕ → ℕ → Bool
has_bit weight byte = byte / weight % 2 == 1

abbrev pub bit : Bool → ℕ → ℕ
bit true weight = weight
bit false weight = 0

-- A `char` as a `size_t`.
unfoldable pub widen : Bool → ℕ → ℕ
widen signed c = if signed && leb 128 c then 2 ^ 64 - 256 + c else c

-- `length = (length << 8) | *it++` for the bytes after the first.
unfoldable pub shift_in : Bool → ℕ → Bytes → ℕ
shift_in signed size [] = size
shift_in signed size (c ∷ rest) =
    shift_in signed (bit_or (size * 256 % 2 ^ 64) (widen signed c)) rest

-- `length = *it++` and what follows.
unfoldable pub read_length : Bool → Bytes → ℕ
read_length signed [] = 0
read_length signed (c ∷ rest) = shift_in signed (widen signed c) rest

-- The length by its first byte, and what follows; `none` is the return of 0.
unfoldable pub parse_length : Bool → ℕ → Bytes → Option (ℕ × Bytes)
parse_length signed len_byte rest =
    if ltb len_byte 126
    then some (len_byte, rest)
    else if len_byte == 126 && leb 2 (length rest)
    then some (read_length signed (take 2 rest), drop 2 rest)
    else if len_byte == 127 && leb 8 (length rest)
    then some (read_length signed (take 8 rest), drop 8 rest)
    else none

-- `data[i] ^= maskingKey[i % 4]`, from the i-th byte on.
unfoldable pub apply_mask : Bytes → ℕ → Bytes → Bytes
apply_mask key i [] = []
apply_mask key i (c ∷ rest) = bit_xor c (byte_at key (i % 4)) ∷ apply_mask key (i + 1) rest

-- What `parse` does: it returns 0, it assigns more than `data` holds, or it returns the bytes used.
pub data Parsed : Type 0 where
  rejected : Parsed
  overflow : Parsed
  parsed : ℕ → Message → Parsed

unfoldable pub unmask : Bool → Bytes → Bytes → Bytes
unmask true key payload = apply_mask key 0 payload
unmask false key payload = payload

-- The payload behind the masking key.
unfoldable pub parse_payload : Bool → ℕ → Message → ℕ → Bytes → Bytes → Parsed
parse_payload masked consumed message size key rest =
    if ltb (length rest) size
    then rejected
    else if ltb max_payload size
    then overflow
    else parsed (consumed + size)
        (record message { data_bytes = unmask masked key (take size rest) })

-- The masking key, if there is one, and the payload.
unfoldable pub parse_masked : Bool → ℕ → Message → ℕ → Bytes → Parsed
parse_masked false consumed message size rest = parse_payload false consumed message size [] rest
parse_masked true consumed message size rest =
    if ltb (length rest) 4
    then rejected
    else parse_payload true (consumed + 4) message size (take 4 rest) (drop 4 rest)

-- The fields of the first two bytes.
unfoldable pub read_head : ℕ → ℕ → Message
read_head flags byte = record {
  fin = has_bit 128 flags;
  rsv1 = has_bit 64 flags;
  rsv2 = has_bit 32 flags;
  rsv3 = has_bit 16 flags;
  opcode = flags % 16;
  masked = has_bit 128 byte;
  data_bytes = [];
}

-- The checks of the flags, and what follows the first two bytes.
unfoldable pub parse_behind : Bool → Message → ℕ → Bytes → Parsed
unfolding parse_length parse_masked
parse_behind signed head len_byte rest =
    if head.rsv1 || head.rsv2 || head.rsv3
    then rejected
    else if not head.fin
    then rejected
    else elim (parse_length signed len_byte rest) [
      | none ↦ rejected
      | some field ↦
          parse_masked head.masked (2 + (length rest - length field.1)) head field.0 field.1
    ]

-- `Message::parse`
unfoldable pub parse : Bool → Bytes → Parsed
unfolding read_head parse_behind
parse signed (flags ∷ byte ∷ rest) = parse_behind signed (read_head flags byte) (byte % 128) rest
parse signed [] = rejected
parse signed (flags ∷ []) = rejected

-- The length and the mask bit.
unfoldable pub encode_length : ℕ → Bool → Bytes
encode_length size masked =
    if ltb size 126
    then (size + bit masked 128) ∷ []
    else if ltb size 65536
    then (126 + bit masked 128) ∷ (size / 256) ∷ (size % 256) ∷ []
    else (127 + bit masked 128)
      ∷ (size / 2 ^ 56 % 256)
      ∷ (size / 2 ^ 48 % 256)
      ∷ (size / 2 ^ 40 % 256)
      ∷ (size / 2 ^ 32 % 256)
      ∷ (size / 2 ^ 24 % 256)
      ∷ (size / 2 ^ 16 % 256)
      ∷ (size / 2 ^ 8 % 256)
      ∷ (size % 256)
      ∷ []

unfoldable pub encode_flags : Message → ℕ
encode_flags m = bit m.fin 128 + bit m.rsv1 64 + bit m.rsv2 32 + bit m.rsv3 16 + m.opcode % 16

-- The payload, behind its key if it is masked.
unfoldable pub encode_payload : Bool → Bytes → Bytes → Bytes
encode_payload true key payload = key ++ apply_mask key 0 payload
encode_payload false key payload = payload

-- `Message::encode` to a buffer that holds `capacity` bytes, with the key that the random generator
-- gives; `none` is the return of false. The check is made before the key is counted: the buffers
-- that the program encodes to hold 1024 bytes, which no payload of 128 bytes fills.
unfoldable pub encode : ℕ → Bytes → Message → Option Bytes
encode capacity key m =
    let head = encode_flags m ∷ encode_length (length m.data_bytes) m.masked in
    if ltb (capacity - length head) (length m.data_bytes)
    then none
    else some (head ++ encode_payload m.masked key m.data_bytes)
