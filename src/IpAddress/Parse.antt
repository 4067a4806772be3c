-- ===== src/IpAddress/Parse.antt =====
-- core/husarnet/ipaddress.h and ipaddress.cpp: addresses read from text.
pub mod RoundTrip
pub mod Groups
pub mod DeviceId
use husarnet.Common.{
  ℕ, zero, suc, ◌+◌, ◌-◌, ◌*◌, ◌/◌, ◌%◌, ◌^◌, Bool, true, false, not, ◌&&◌, ◌||◌, Option, none,
  some, List, [], ◌∷◌, ◌++◌, Bytes, ◌==◌, ltb, leb, if◌then◌else◌, length, take, drop, byte_at,
  bit_or, ◌>>=◌,
}
use husarnet.Util.Text.{c_string, is_space, is_lower}
use husarnet.IpAddress.{IpAddress, InetAddress, no_address, no_inet_address, from_binary4}

unfoldable pub is_digit : ℕ → Bool
is_digit c = leb 48 c && leb c 57

unfoldable pub is_xdigit : ℕ → Bool
unfolding is_digit
is_xdigit c = is_digit c || (leb 97 c && leb c 102) || (leb 65 c && leb c 70)

-- What a hexadecimal digit counts.
unfoldable pub xdigit_value : ℕ → ℕ
unfolding is_digit
xdigit_value c = if is_digit c then c - 48 else if is_lower c then 10 + (c - 97) else 10 + (c - 65)

-- An integer of 32 bits in network order.
unfoldable pub network_order : ℕ → Bytes
network_order n = (n / 2 ^ 24 % 256) ∷ (n / 2 ^ 16 % 256) ∷ (n / 2 ^ 8 % 256) ∷ (n % 256) ∷ []

-- The variables of `husarnet_ip6addr_aton`: the words of the address, and which block is read.
pub record Blocks : Type 0 where
  pub words : List ℕ
  pub addr_index : ℕ
  pub block_index : ℕ
  pub block_value : ℕ

unfoldable pub count_colons : Bytes → ℕ
unfolding is_xdigit
count_colons [] = 0
count_colons (c ∷ rest) =
    let more = count_colons rest in if c == 58 then more + 1 else if is_xdigit c then more else 0

unfoldable pub set_word : List ℕ → ℕ → ℕ → List ℕ
set_word [] i value = []
set_word (w ∷ ws) zero value = value ∷ ws
set_word (w ∷ ws) (suc i) value = w ∷ set_word ws i value

-- The block that was read, into its half of a word.
unfoldable pub put_block : Blocks → Blocks
unfolding set_word
put_block b =
    if b.block_index % 2 == 1
    then record b {
      words = set_word b.words b.addr_index (bit_or (byte_at b.words b.addr_index) b.block_value);
      addr_index = b.addr_index + 1;
    }
    else record b { words = set_word b.words b.addr_index (b.block_value * 2 ^ 16 % 2 ^ 32) }

-- The loop that sets `zero_blocks` blocks to zero, at most until the eighth is passed; `none` is the
-- return of 0.
unfoldable pub zero_fill : ℕ → ℕ → Blocks → Option Blocks
unfolding set_word
zero_fill zero zero_blocks b = some b
zero_fill (suc fuel) zero_blocks b =
    let next =
      if b.block_index % 2 == 1
      then record b { addr_index = b.addr_index + 1; block_index = b.block_index + 1 }
      else record b { words = set_word b.words b.addr_index 0; block_index = b.block_index + 1 } in
    let rest = zero_fill fuel (zero_blocks - 1) next in
    if zero_blocks == 0 then some b else if ltb 7 next.block_index then none else rest

-- The loop over the text, which stops at the first other character. `zero_blocks` is spent by the
-- first `::`.
unfoldable pub read_blocks : ℕ → ℕ → Blocks → Bytes → Option Blocks
unfolding put_block zero_fill is_xdigit xdigit_value
read_blocks zero zero_blocks b s = some b
read_blocks (suc fuel) zero_blocks b [] = some b
read_blocks (suc fuel) zero_blocks b (c ∷ rest) =
    let placed = put_block b in
    let next = record placed { block_index = b.block_index + 1; block_value = 0 } in
    let longer = record b {
      block_value = (b.block_value * 16 % 2 ^ 32 + xdigit_value c) % 2 ^ 32;
    } in
    let plain = read_blocks fuel zero_blocks next rest in
    let digits = read_blocks fuel zero_blocks longer rest in
    let filled = zero_fill 9 zero_blocks next >>= λ z. read_blocks fuel 0 z (drop 1 rest) in
    if c == 58
    then if ltb 7 next.block_index
      then none
      else if not (byte_at rest 0 == 58)
      then plain
      else if byte_at rest 1 == 58
      then none
      else filled
    else if is_xdigit c
    then digits
    else some b

-- `husarnet_ip6addr_aton`; `none` is the return of 0.
unfoldable pub ip6addr_aton : Bytes → Option Bytes
unfolding count_colons read_blocks put_block network_order
ip6addr_aton s =
    let start : Blocks = record {
      words = 0 ∷ 0 ∷ 0 ∷ 0 ∷ [];
      addr_index = 0;
      block_index = 0;
      block_value = 0;
    } in
    read_blocks (length s + 1) ((8 + 2 ^ 32 - count_colons s) % 2 ^ 32) start s >>= λ b.
    let done = put_block b in
    if b.block_index == 7
    then some (
        network_order (byte_at done.words 0)
        ++ (network_order (byte_at done.words 1)
            ++ (network_order (byte_at done.words 2) ++ network_order (byte_at done.words 3))))
    else none

-- The digits of a number: its value, and what follows.
unfoldable pub read_digits : ℕ → ℕ → Bytes → ℕ × Bytes
unfolding is_digit is_xdigit xdigit_value
read_digits base val [] = (val, [])
read_digits base val (c ∷ rest) =
    let decimal = read_digits base ((val * base % 2 ^ 32 + (c - 48)) % 2 ^ 32) rest in
    let hexadecimal = read_digits base (val * 16 % 2 ^ 32 + xdigit_value c) rest in
    if is_digit c
    then decimal
    else if base == 16 && is_xdigit c
    then hexadecimal
    else (val, c ∷ rest)

-- A number with the prefix of its base; `none` is the return of 0.
unfoldable pub read_number : Bytes → Option (ℕ × Bytes)
unfolding is_digit read_digits
read_number [] = none
read_number (c ∷ rest) =
    if not (is_digit c)
    then none
    else if not (c == 48)
    then some (read_digits 10 0 (c ∷ rest))
    else if byte_at rest 0 == b'x' || byte_at rest 0 == b'X'
    then some (read_digits 16 0 (drop 1 rest))
    else some (read_digits 8 0 rest)

-- The numbers between dots, four at most, and what follows.
unfoldable pub read_parts : ℕ → Bytes → Option (List ℕ × Bytes)
unfolding read_number
read_parts zero s = none
read_parts (suc more) s = read_number s >>= λ r.
    if byte_at r.1 0 == b'.'
    then (read_parts more (drop 1 r.1) >>= λ rest. some (r.0 ∷ rest.0, rest.1))
    else some (r.0 ∷ [], r.1)

-- The address by the number of parts.
unfoldable pub join_parts : List ℕ → Option ℕ
join_parts (val ∷ []) = some val
join_parts (a ∷ val ∷ []) = if ltb 0xffffff val || ltb 0xff a then none else some (a * 2 ^ 24 + val)
join_parts (a ∷ b ∷ val ∷ []) =
    if ltb 0xffff val || ltb 0xff a || ltb 0xff b
    then none
    else some (a * 2 ^ 24 + b * 2 ^ 16 + val)
join_parts (a ∷ b ∷ c ∷ val ∷ []) =
    if ltb 0xff val || ltb 0xff a || ltb 0xff b || ltb 0xff c
    then none
    else some (a * 2 ^ 24 + b * 2 ^ 16 + c * 2 ^ 8 + val)
join_parts parts = none

-- `husarnet_ip4addr_aton`; `none` is the return of 0.
unfoldable pub ip4addr_aton : Bytes → Option Bytes
unfolding read_parts join_parts network_order
ip4addr_aton s = read_parts 4 s >>= λ r.
    if length r.1 == 0 || is_space (byte_at r.1 0)
    then (join_parts r.0 >>= λ val. some (network_order val))
    else none

-- `IpAddress::parse`
unfoldable pub parse_address : Bytes → IpAddress
unfolding ip4addr_aton ip6addr_aton
parse_address s = elim (ip4addr_aton (c_string s)) [
  | some v4 ↦ from_binary4 v4
  | none ↦ elim (ip6addr_aton (c_string s)) [ some bytes ↦ bytes | none ↦ no_address ]
]

-- `rfind(':')`
unfoldable pub last_colon : Bytes → Option ℕ
last_colon [] = none
last_colon (c ∷ rest) = elim (last_colon rest) [
  | some i ↦ some (i + 1)
  | none ↦ if c == 58 then some 0 else none
]

-- The text between brackets, if it is in brackets.
unfoldable pub strip_brackets : Bytes → Bytes
strip_brackets s =
    if ltb 2 (length s) && byte_at s 0 == b'[' && byte_at s (length s - 1) == b']'
    then take (length s - 2) (drop 1 s)
    else s

-- `InetAddress::parse`; `atoi` is the C library's, as its lowest 16 bits.
unfoldable pub parse_inet : (Bytes → ℕ) → Bytes → InetAddress
unfolding last_colon strip_brackets parse_address
parse_inet atoi s = elim (last_colon s) [
  | none ↦ no_inet_address
  | some pos ↦ record {
    ip = parse_address (strip_brackets (take pos s));
    port = atoi (drop (pos + 1) s) % 2 ^ 16;
  }
]
