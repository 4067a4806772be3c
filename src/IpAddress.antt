-- ===== src/IpAddress.antt =====
-- core/husarnet/ipaddress.h and ipaddress.cpp: addresses as 16 bytes, their kinds and their order.
pub mod Order
pub mod Text
pub mod Parse
use husarnet.Common.{
  ℕ, ◌+◌, ◌<◌, ◌≡◌, refl, Option, none, some, List, [], ◌∷◌, ◌++◌, arith, Bytes, IsBytes, Bool,
  true, false, not, ◌&&◌, ◌||◌, ltb, ◌==◌, if◌then◌else◌, byte_at, take, length, same_bytes,
  bit_and, replicate,
}

-- The `data` field, an array of 16 bytes.
abbrev pub IpAddress : Type 0
IpAddress = Bytes

abbrev pub IsAddress : IpAddress → Type 0
IsAddress a = (length a ≡ 16) × IsBytes a

-- `IpAddress()`: 3fff::, which stands for no address.
abbrev pub no_address : IpAddress
no_address = 0x3f ∷ 0xff ∷ replicate 14 0

-- `memcmp(data, bytes, n) == 0` for n bytes.
abbrev pub begins_with : IpAddress → Bytes → Bool
begins_with a bytes = same_bytes (take (length bytes) a) bytes

-- `operator<` of the arrays.
unfoldable pub bytes_lt : Bytes → Bytes → Bool
bytes_lt [] [] = false
bytes_lt [] (y ∷ ys) = true
bytes_lt (x ∷ xs) [] = false
bytes_lt (x ∷ xs) (y ∷ ys) =
    let rest = bytes_lt xs ys in if ltb x y then true else if ltb y x then false else rest

unfoldable pub is_mapped_v4 : IpAddress → Bool
is_mapped_v4 a = begins_with a (replicate 10 0 ++ 0xff ∷ 0xff ∷ [])

unfoldable pub is_link_local : IpAddress → Bool
is_link_local a =
    if is_mapped_v4 a
    then byte_at a 12 == 169 && byte_at a 13 == 254
    else byte_at a 0 == 0xfe && byte_at a 1 == 0x80

unfoldable pub is_private_v4 : IpAddress → Bool
is_private_v4 a =
    if not (is_mapped_v4 a)
    then false
    else if byte_at a 12 == 127
    then true
    else if byte_at a 12 == 10
    then true
    else if byte_at a 12 == 192 && byte_at a 13 == 168
    then true
    else byte_at a 12 == 172 && bit_and (byte_at a 13) 0xf0 == 16

unfoldable pub is_fc94 : IpAddress → Bool
is_fc94 a = byte_at a 0 == 0xfc && byte_at a 1 == 0x94

unfoldable pub is_zero : IpAddress → Bool
is_zero a = begins_with a (replicate 16 0)

unfoldable pub is_wildcard : IpAddress → Bool
is_wildcard a = if is_mapped_v4 a then byte_at a 12 == 0 else is_zero a

unfoldable pub is_loopback : IpAddress → Bool
is_loopback a =
    if is_mapped_v4 a then byte_at a 12 == 127 else begins_with a (replicate 15 0 ++ 1 ∷ [])

unfoldable pub is_multicast : IpAddress → Bool
is_multicast a = if is_mapped_v4 a then bit_and (byte_at a 12) 0xf0 == 224 else byte_at a 0 == 0xff

unfoldable pub is_private_network_v4 : IpAddress → Bool
is_private_network_v4 a =
    if not (is_mapped_v4 a)
    then false
    else if byte_at a 12 == 10
    then true
    else if byte_at a 12 == 172 && bit_and (byte_at a 13) 0xf0 == 16
    then true
    else byte_at a 12 == 192 && byte_at a 13 == 168

-- The reserved IPv4 blocks of `isReservedNotPrivate`.
reserved_v4 : IpAddress → Bool
reserved_v4 a =
    (byte_at a 12 == 100 && bit_and (byte_at a 13) 0xc0 == 64)
    || (byte_at a 12 == 192 && byte_at a 13 == 0 && byte_at a 14 == 0)
    || (byte_at a 12 == 192 && byte_at a 13 == 0 && byte_at a 14 == 2)
    || (byte_at a 12 == 198 && bit_and (byte_at a 13) 0xfe == 18)
    || (byte_at a 12 == 198 && byte_at a 13 == 88 && byte_at a 14 == 99)
    || (byte_at a 12 == 198 && byte_at a 13 == 51 && byte_at a 14 == 100)
    || (byte_at a 12 == 203 && byte_at a 13 == 0 && byte_at a 14 == 113)
    || (byte_at a 12 == 233 && byte_at a 13 == 252 && byte_at a 15 == 0)
    || bit_and (byte_at a 12) 0xf0 == 240
    || (byte_at a 12 == 255 && byte_at a 13 == 255 && byte_at a 14 == 255 && byte_at a 15 == 255)

-- The reserved IPv6 prefixes of `isReservedNotPrivate`.
reserved_v6 : IpAddress → Bool
reserved_v6 a =
    begins_with a (0 ∷ 0x64 ∷ 0xff ∷ 0x9b ∷ replicate 8 0)
    || begins_with a (0 ∷ 0x64 ∷ 0xff ∷ 0x9b ∷ 0 ∷ 1 ∷ [])
    || begins_with a (1 ∷ replicate 7 0)
    || begins_with a (0x20 ∷ 1 ∷ 0 ∷ 0 ∷ [])
    || (byte_at a 0 == 0x20
        && byte_at a 1 == 1
        && byte_at a 2 == 0
        && bit_and (byte_at a 3) 0xf0 == 0x20)
    || begins_with a (0x20 ∷ 1 ∷ 0x0d ∷ 0xb8 ∷ [])
    || begins_with a (0x20 ∷ 2 ∷ [])

unfoldable pub is_reserved_not_private : IpAddress → Bool
unfolding reserved_v4 reserved_v6
is_reserved_not_private a =
    if is_private_network_v4 a
    then false
    else if is_wildcard a || is_loopback a || is_multicast a || is_link_local a || is_fc94 a
    then true
    else if is_mapped_v4 a
    then reserved_v4 a
    else reserved_v6 a

unfoldable pub is_invalid : IpAddress → Bool
is_invalid a = begins_with a (0x3f ∷ 0xff ∷ [])

unfoldable pub is_valid : IpAddress → Bool
is_valid a = not (is_invalid a)

-- `fromBinary4`: the IPv4 bytes under ::ffff:0:0. The bytes 2 to 9 stay those of `IpAddress()`, 0.
unfoldable pub from_binary4 : Bytes → IpAddress
from_binary4 v4 = replicate 10 0 ++ (0xff ∷ 0xff ∷ take 4 v4)

pub record InetAddress : Type 0 where
  pub ip : IpAddress
  pub port : ℕ

-- `InetAddress{}`. The port is not set there; 0 stands for it.
abbrev pub no_inet_address : InetAddress
no_inet_address = record { ip = no_address; port = 0 }

unfoldable pub same_inet : InetAddress → InetAddress → Bool
same_inet a b = same_bytes a.ip b.ip && a.port == b.port

-- `operator<` of the pairs.
unfoldable pub inet_lt : InetAddress → InetAddress → Bool
inet_lt a b =
    if bytes_lt a.ip b.ip then true else if bytes_lt b.ip a.ip then false else ltb a.port b.port

-- `operator bool`
unfoldable pub is_set : InetAddress → Bool
is_set a = is_valid a.ip
