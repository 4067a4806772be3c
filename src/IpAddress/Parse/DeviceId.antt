-- ===== src/IpAddress/Parse/DeviceId.antt =====
-- A Husarnet address is read back from its text.
use husarnet.Common.{
  ℕ, zero, suc, ◌+◌, ◌-◌, ◌*◌, ◌/◌, ◌%◌, ◌^◌, ◌≡◌, refl, All, All-append, sym, subst, ap, ap₂, ◌∙◌,
  true, false, Option, none, some, [], ◌∷◌, ◌++◌, arith, Bytes, ◌==◌, if◌then◌else◌, length,
  byte_at, same_bytes, ◌>>=◌, drop, IsBytes,
}
use husarnet.Util.Text.{hex_letter, encode_hex}
use husarnet.Util.Text.Laws.{IsGraph, c_string-graph, encode_hex-IsGraph}
use husarnet.IpAddress.{IpAddress, no_address, from_binary4, is_fc94, is_mapped_v4}
use husarnet.IpAddress.Text.{group_text, address_text}
use husarnet.IpAddress.Parse.{
  Blocks, is_digit, set_word, put_block, read_blocks, ip6addr_aton, ip4addr_aton, read_parts,
  read_number, parse_address, network_order, count_colons,
}
use husarnet.IpAddress.Parse.Groups.{
  group_text-digit, blocks, read_block, read_group, high, word, network_order-word,
}

module _ (x0 x1 x2 x3 x4 x5 x6 x7 x8 x9 x10 x11 x12 x13 x14 x15 : ℕ)
    (h : IsBytes (
      x0 ∷ x1 ∷ x2 ∷ x3 ∷ x4 ∷ x5 ∷ x6 ∷ x7 ∷ x8 ∷ x9 ∷ x10 ∷ x11 ∷ x12 ∷ x13 ∷ x14 ∷ x15
      ∷ [])) where
  read_groups :
      (zeros : ℕ)
      → read_blocks 40 zeros (blocks (0 ∷ 0 ∷ 0 ∷ 0 ∷ []) 0 0 0) (
          group_text (
            x0 ∷ x1 ∷ x2 ∷ x3 ∷ x4 ∷ x5 ∷ x6 ∷ x7 ∷ x8 ∷ x9 ∷ x10 ∷ x11 ∷ x12 ∷ x13 ∷ x14 ∷ x15
            ∷ []))
        ≡ some (
            blocks
              (word x0 x1 x2 x3 ∷ word x4 x5 x6 x7 ∷ word x8 x9 x10 x11 ∷ high x12 x13 ∷ [])
              3
              7
              (x14 * 256 + x15))
  unfolding group_text encode_hex put_block set_word read_blocks
  read_groups zeros =
      read_block zeros (0 ∷ 0 ∷ 0 ∷ 0 ∷ []) 0 0 35 x0 x1 x2 x3
        (x4 ∷ x5 ∷ x6 ∷ x7 ∷ x8 ∷ x9 ∷ x10 ∷ x11 ∷ x12 ∷ x13 ∷ x14 ∷ x15 ∷ []) (omega arith)
        (omega arith) (omega arith)
      ∙ (read_block zeros (high x0 x1 ∷ 0 ∷ 0 ∷ 0 ∷ []) 0 1 30 x2 x3 x4 x5
            (x6 ∷ x7 ∷ x8 ∷ x9 ∷ x10 ∷ x11 ∷ x12 ∷ x13 ∷ x14 ∷ x15 ∷ []) (omega arith) (omega arith)
            (omega arith)
          ∙ (read_block zeros (word x0 x1 x2 x3 ∷ 0 ∷ 0 ∷ 0 ∷ []) 1 2 25 x4 x5 x6 x7
                (x8 ∷ x9 ∷ x10 ∷ x11 ∷ x12 ∷ x13 ∷ x14 ∷ x15 ∷ []) (omega arith) (omega arith)
                (omega arith)
              ∙ (read_block zeros (word x0 x1 x2 x3 ∷ high x4 x5 ∷ 0 ∷ 0 ∷ []) 1 3 20 x6 x7 x8 x9
                    (x10 ∷ x11 ∷ x12 ∷ x13 ∷ x14 ∷ x15 ∷ []) (omega arith) (omega arith)
                    (omega arith)
                  ∙ (read_block zeros (word x0 x1 x2 x3 ∷ word x4 x5 x6 x7 ∷ 0 ∷ 0 ∷ []) 2 4 15 x8
                        x9 x10 x11 (x12 ∷ x13 ∷ x14 ∷ x15 ∷ []) (omega arith) (omega arith)
                        (omega arith)
                      ∙ (read_block zeros
                            (word x0 x1 x2 x3 ∷ word x4 x5 x6 x7 ∷ high x8 x9 ∷ 0 ∷ []) 2 5 10 x10
                            x11 x12 x13 (x14 ∷ x15 ∷ []) (omega arith) (omega arith) (omega arith)
                          ∙ (read_block zeros
                                (word x0 x1 x2 x3 ∷ word x4 x5 x6 x7 ∷ word x8 x9 x10 x11 ∷ 0 ∷ [])
                                3 6 5 x12 x13 x14 x15 ([]) (omega arith) (omega arith) (omega arith)
                              ∙ (read_group zeros
                                  (word x0 x1 x2 x3
                                    ∷ word x4 x5 x6 x7
                                    ∷ word x8 x9 x10 x11
                                    ∷ high x12 x13
                                    ∷ [])
                                  3 7 1 x14 x15 [] (omega arith) (omega arith))))))))

  joined_words :
      network_order (word x0 x1 x2 x3)
        ++ (network_order (word x4 x5 x6 x7)
            ++ (network_order (word x8 x9 x10 x11) ++ network_order (word x12 x13 x14 x15)))
      ≡ x0 ∷ x1 ∷ x2 ∷ x3 ∷ x4 ∷ x5 ∷ x6 ∷ x7 ∷ x8 ∷ x9 ∷ x10 ∷ x11 ∷ x12 ∷ x13 ∷ x14 ∷ x15 ∷ []
  joined_words = ap₂ ◌++◌ (network_order-word x0 x1 x2 x3 h.0 h.1.0 h.1.1.0 h.1.1.1.0) (
      ap₂ ◌++◌
        (network_order-word x4 x5 x6 x7 (omega arith) (omega arith) (omega arith) (omega arith))
        (ap₂ ◌++◌
          (network_order-word x8 x9 x10 x11 (omega arith) (omega arith) (omega arith) (omega arith))
          (network_order-word x12 x13 x14 x15 (omega arith) (omega arith) (omega arith)
            (omega arith))))

  length-group_text :
      length (
          group_text (
            x0 ∷ x1 ∷ x2 ∷ x3 ∷ x4 ∷ x5 ∷ x6 ∷ x7 ∷ x8 ∷ x9 ∷ x10 ∷ x11 ∷ x12 ∷ x13 ∷ x14 ∷ x15
            ∷ []))
        + 1
      ≡ 40
  unfolding group_text encode_hex
  length-group_text = omega arith

  ip6addr_aton-groups :
      ip6addr_aton (
        group_text (
          x0 ∷ x1 ∷ x2 ∷ x3 ∷ x4 ∷ x5 ∷ x6 ∷ x7 ∷ x8 ∷ x9 ∷ x10 ∷ x11 ∷ x12 ∷ x13 ∷ x14 ∷ x15 ∷ []))
      ≡ some
          (x0 ∷ x1 ∷ x2 ∷ x3 ∷ x4 ∷ x5 ∷ x6 ∷ x7 ∷ x8 ∷ x9 ∷ x10 ∷ x11 ∷ x12 ∷ x13 ∷ x14 ∷ x15 ∷ [])
  unfolding ip6addr_aton put_block set_word
  ip6addr_aton-groups =
      ap (λ fuel. result_of (read_blocks fuel zeros (blocks (0 ∷ 0 ∷ 0 ∷ 0 ∷ []) 0 0 0) text))
        length-group_text
      ∙ (ap result_of (read_groups zeros) ∙ ap some joined_words)
    where
      text : Bytes
      text =
          group_text (
            x0 ∷ x1 ∷ x2 ∷ x3 ∷ x4 ∷ x5 ∷ x6 ∷ x7 ∷ x8 ∷ x9 ∷ x10 ∷ x11 ∷ x12 ∷ x13 ∷ x14 ∷ x15
            ∷ [])

      zeros : ℕ
      zeros = (8 + 2 ^ 32 - count_colons text) % 2 ^ 32

      result_of : Option Blocks → Option Bytes
      result_of o = o >>= λ b.
          if b.block_index == 7
          then some (
              network_order (byte_at (put_block b).words 0)
              ++ (network_order (byte_at (put_block b).words 1)
                  ++ (network_order (byte_at (put_block b).words 2)
                      ++ network_order (byte_at (put_block b).words 3))))
          else none

-- A text as its first bytes, one by one.
abbrev bytes_of : ℕ → Bytes → Bytes
bytes_of zero s = []
bytes_of (suc n) s = byte_at s 0 ∷ bytes_of n (drop 1 s)

bytes_of-length : (n : ℕ) (s : Bytes) → length s ≡ n → s ≡ bytes_of n s
bytes_of-length zero [] e = refl
bytes_of-length zero (c ∷ s) e = absurd (omega (arith, e))
bytes_of-length (suc n) [] e = absurd (omega (arith, e))
bytes_of-length (suc n) (c ∷ s) e = ap (λ t. c ∷ t) (bytes_of-length n s (omega (arith, e)))

-- The sixteen bytes of an address are read back from their groups.
pub ip6addr_aton-group_text :
    (s : Bytes) → length s ≡ 16 → IsBytes s → ip6addr_aton (group_text s) ≡ some s
ip6addr_aton-group_text s size h =
    subst (λ t. IsBytes t → ip6addr_aton (group_text t) ≡ some t) (sym (bytes_of-length 16 s size))
      (ip6addr_aton-groups _ _ _ _ _ _ _ _ _ _ _ _ _ _ _ _) h

pub group_text-IsGraph : (s : Bytes) → All IsGraph (group_text s)
unfolding group_text
group_text-IsGraph [] = tt
group_text-IsGraph (a ∷ []) = tt
group_text-IsGraph (a ∷ b ∷ []) = encode_hex-IsGraph (a ∷ b ∷ [])
group_text-IsGraph (a ∷ b ∷ c ∷ rest) =
    All-append IsGraph _ _ (encode_hex-IsGraph (a ∷ b ∷ []))
      (omega arith, group_text-IsGraph (c ∷ rest))

fc94-not_mapped : (a : IpAddress) → is_fc94 a ≡ true → is_mapped_v4 a ≡ false
unfolding is_fc94 is_mapped_v4 same_bytes
fc94-not_mapped [] h = refl
fc94-not_mapped (c ∷ rest) h = ground (arith, h)

-- A text that begins with the letter f is no IPv4 address.
fc94-no_ip4 : (c d : ℕ) (rest : Bytes) → c ≡ 0xfc → ip4addr_aton (group_text (c ∷ d ∷ rest)) ≡ none
unfolding ip4addr_aton read_parts read_number is_digit hex_letter
fc94-no_ip4 c d rest e =
    let (t, digit) = group_text-digit c d rest in
    ap ip4addr_aton (digit ∙ ap (λ x. hex_letter (x / 16 % 16) ∷ t) e)

pub address_text-fc94 : (a : IpAddress) → is_fc94 a ≡ true → address_text a ≡ group_text a
unfolding address_text
address_text-fc94 a fc = rw (fc94-not_mapped a fc) refl

-- A Husarnet address is read back from its text.
pub parse_address-fc94 :
    (a : IpAddress)
    → length a ≡ 16
    → IsBytes a
    → is_fc94 a ≡ true
    → parse_address (address_text a) ≡ a
unfolding parse_address is_fc94
parse_address-fc94 [] size h fc = absurd (omega (arith, size))
parse_address-fc94 (c ∷ []) size h fc = absurd (omega (arith, size))
parse_address-fc94 (c ∷ d ∷ rest) size h fc =
    ap parse_address (address_text-fc94 (c ∷ d ∷ rest) fc)
    ∙ (ap read (c_string-graph (group_text (c ∷ d ∷ rest)) (group_text-IsGraph (c ∷ d ∷ rest)))
        ∙ (ap
              (λ o. elim o as (λ x. IpAddress) [
                | some v4 ↦ from_binary4 v4
                | none ↦ elim (ip6addr_aton (group_text (c ∷ d ∷ rest))) [
                  | some bytes ↦ bytes
                  | none ↦ no_address
                ]
              ])
              (fc94-no_ip4 c d rest (ground (arith, fc)))
            ∙ ap (λ o. elim o as (λ x. IpAddress) [ some bytes ↦ bytes | none ↦ no_address ])
                (ip6addr_aton-group_text (c ∷ d ∷ rest) size h)))
  where
    read : Bytes → IpAddress
    read s = elim (ip4addr_aton s) [
      | some v4 ↦ from_binary4 v4
      | none ↦ elim (ip6addr_aton s) [ some bytes ↦ bytes | none ↦ no_address ]
    ]
