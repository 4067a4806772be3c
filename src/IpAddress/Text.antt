-- ===== src/IpAddress/Text.antt =====
-- core/husarnet/ipaddress.h and ipaddress.cpp: addresses as text.
use husarnet.Common.{[], ◌∷◌, ◌++◌, Bytes, byte_at, if◌then◌else◌}
use husarnet.Util.Text.{encode_hex}
use husarnet.Util.Decimal.{to_string}
use husarnet.IpAddress.{IpAddress, InetAddress, is_mapped_v4}

-- The groups of two bytes, "%02x%02x" with colons between.
unfoldable pub group_text : Bytes → Bytes
group_text (a ∷ b ∷ []) = encode_hex (a ∷ b ∷ [])
group_text (a ∷ b ∷ c ∷ rest) = encode_hex (a ∷ b ∷ []) ++ (b':' ∷ group_text (c ∷ rest))
group_text [] = []
group_text (a ∷ []) = []

-- Numbers with dots between.
unfoldable pub dotted_text : Bytes → Bytes
dotted_text [] = []
dotted_text (n ∷ []) = to_string n
dotted_text (n ∷ m ∷ rest) = to_string n ++ (b'.' ∷ dotted_text (m ∷ rest))

-- `IpAddress::toString`
unfoldable pub address_text : IpAddress → Bytes
unfolding group_text dotted_text
address_text a =
    if is_mapped_v4 a
    then dotted_text (byte_at a 12 ∷ byte_at a 13 ∷ byte_at a 14 ∷ byte_at a 15 ∷ [])
    else group_text a

-- `InetAddress::str`
unfoldable pub inet_text : InetAddress → Bytes
inet_text a =
    if is_mapped_v4 a.ip
    then address_text a.ip ++ (b':' ∷ to_string a.port)
    else b'[' ∷ (address_text a.ip ++ (b']' ∷ b':' ∷ to_string a.port))
