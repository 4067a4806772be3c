-- ===== src/Identity/RoundTrip.antt =====
-- An identity is read back from the text of its file.
use husarnet.Common.{
  ℕ, ◌<◌, ◌≡◌, refl, sym, ap, ◌∙◌, true, false, Option, some, [], ◌∷◌, ◌++◌, Bytes, IsBytes, All,
  ◌==◌, length, arith, ◌>>=◌, length-append, take_all,
}
use husarnet.Util.Text.{is_space, encode_hex, decode_hex}
use husarnet.Util.Text.Laws.{IsGraph, encode_hex-IsGraph, decode_hex-encode_hex, length-encode_hex}
use husarnet.IpAddress.Text.{address_text, group_text}
use husarnet.IpAddress.Parse.{parse_address}
use husarnet.IpAddress.Parse.Groups.{group_text-full}
use husarnet.IpAddress.Parse.DeviceId.{address_text-fc94, group_text-IsGraph, parse_address-fc94}
use husarnet.Crypto.{Sodium, Identity, identity_is_valid, pubkey_to_device_id}
use husarnet.Identity.{skip_space, take_word, read_word, to_fstring, deserialize, serialize}

graph-no_space : (c : ℕ) → IsGraph c → is_space c ≡ false
unfolding is_space
graph-no_space c h = ground (arith, h)

take_word-append :
    (word rest : Bytes) (c : ℕ)
    → All IsGraph word
    → is_space c ≡ true
    → take_word (word ++ (c ∷ rest)) ≡ (word, c ∷ rest)
unfolding take_word
take_word-append [] rest c h e = rw e refl
take_word-append (w ∷ word) rest c h e =
    rw (graph-no_space w h.0) (ap (λ r. (w ∷ r.0, r.1)) (take_word-append word rest c h.1 e))

read_word-append :
    (word rest : Bytes) (c : ℕ)
    → 0 < length word
    → All IsGraph word
    → is_space c ≡ true
    → read_word (word ++ (c ∷ rest)) ≡ (word, c ∷ rest)
unfolding read_word skip_space
read_word-append [] rest c full h e = absurd (omega (arith, full))
read_word-append (w ∷ word) rest c full h e =
    rw (graph-no_space w h.0) (take_word-append (w ∷ word) rest c h e)

read_word-space : (s : Bytes) → read_word (b' ' ∷ s) ≡ read_word s
unfolding read_word skip_space is_space
read_word-space s = refl

to_fstring-all : (size : ℕ) (s : Bytes) → length s ≡ size → to_fstring size s ≡ some s
unfolding to_fstring
to_fstring-all size s e = ground (arith, e, take_all size s (omega (arith, e)))

-- A key is read back from its hexadecimal digits.
to_fstring-encode_hex :
    (size : ℕ) (key : Bytes)
    → length key ≡ size
    → IsBytes key
    → to_fstring size (decode_hex (encode_hex key)) ≡ some key
to_fstring-encode_hex size key e h =
    ap (to_fstring size) (decode_hex-encode_hex key h) ∙ to_fstring-all size key e

-- The three words of the file, and what they are read to.
read_back : Bytes → Bytes → Bytes → Option Identity
read_back ip pubkey privkey = to_fstring 32 (decode_hex pubkey) >>= λ public_bytes.
    to_fstring 64 (decode_hex privkey) >>= λ secret_bytes.
    some (record { pubkey = public_bytes; privkey = secret_bytes; device_id = parse_address ip })

deserialize-words :
    (ip pubkey privkey : Bytes)
    → (0 < length ip) × (All IsGraph ip)
    → (0 < length pubkey) × (All IsGraph pubkey)
    → (0 < length privkey) × (All IsGraph privkey)
    → deserialize (ip ++ (b' ' ∷ (pubkey ++ (b' ' ∷ (privkey ++ (b'\n' ∷ []))))))
      ≡ read_back ip pubkey privkey
unfolding deserialize read_back is_space
deserialize-words ip pubkey privkey (i, hi) (p, hp) (s, hs) = rw not_empty (
    ap (λ r. second r.0 (read_word r.1)) (read_word-append ip behind b' ' i hi refl)
    ∙ (ap (second ip) (read_word-space behind ∙ read_word-append pubkey last b' ' p hp refl)
        ∙ ap (λ r. read_back ip pubkey r.0)
            (read_word-space last ∙ read_word-append privkey [] b'\n' s hs refl)))
  where
    last : Bytes
    last = privkey ++ (b'\n' ∷ [])

    behind : Bytes
    behind = pubkey ++ (b' ' ∷ last)

    not_empty : (length (ip ++ (b' ' ∷ behind)) == 0) ≡ false
    not_empty = ground (arith, length-append ip (b' ' ∷ behind), i)

    second : Bytes → Bytes × Bytes → Option Identity
    second a r = read_back a r.0 (read_word r.1).0

module _ (so : Sodium) where
  -- An identity with the id of its key is read back from the text of its file.
  pub deserialize-serialize :
      (i : Identity)
      → length i.pubkey ≡ 32
      → IsBytes i.pubkey
      → length i.privkey ≡ 64
      → IsBytes i.privkey
      → length i.device_id ≡ 16
      → IsBytes i.device_id
      → pubkey_to_device_id so i.pubkey ≡ i.device_id
      → identity_is_valid i ≡ true
      → deserialize (serialize so i) ≡ some i
  unfolding serialize identity_is_valid read_back
  deserialize-serialize i p hp s hs d hd hashes valid =
      ap (λ a. deserialize (address_text a ++ behind)) hashes
      ∙ (ap (λ text. deserialize (text ++ behind)) (address_text-fc94 i.device_id valid)
          ∙ (deserialize-words (group_text i.device_id) (encode_hex i.pubkey) (encode_hex i.privkey)
                (group_text-full i.device_id d, group_text-IsGraph i.device_id)
                (omega (arith, p, length-encode_hex i.pubkey), encode_hex-IsGraph i.pubkey)
                (omega (arith, s, length-encode_hex i.privkey), encode_hex-IsGraph i.privkey)
              ∙ (ap
                    (λ o. o >>= λ public_bytes.
                      to_fstring 64 (decode_hex (encode_hex i.privkey)) >>= λ secret_bytes.
                      some (record {
                        pubkey = public_bytes;
                        privkey = secret_bytes;
                        device_id = parse_address (group_text i.device_id);
                      }))
                    (to_fstring-encode_hex 32 i.pubkey p hp)
                  ∙ (ap
                        (λ o. o >>= λ secret_bytes. some (record {
                          pubkey = i.pubkey;
                          privkey = secret_bytes;
                          device_id = parse_address (group_text i.device_id);
                        }))
                        (to_fstring-encode_hex 64 i.privkey s hs)
                      ∙ ap (λ a. some (record i { device_id = a }))
                          (ap parse_address (sym (address_text-fc94 i.device_id valid))
                            ∙ parse_address-fc94 i.device_id d hd valid)))))
    where
      behind : Bytes
      behind = b' ' ∷ (encode_hex i.pubkey ++ (b' ' ∷ (encode_hex i.privkey ++ (b'\n' ∷ []))))
