-- ===== src/Identity.antt =====
-- core/husarnet/identity.cpp: the identity's file, and how an identity is made.
pub mod RoundTrip
use husarnet.Common.{
  ℕ, zero, suc, ◌+◌, ◌==◌, Bool, true, false, not, Option, none, some, [], ◌∷◌, ◌++◌, Bytes, ltb,
  if◌then◌else◌, length, take, replicate, ◌>>=◌,
}
use husarnet.Util.Text.{is_space, encode_hex, decode_hex}
use husarnet.IpAddress.{no_address}
use husarnet.IpAddress.Text.{address_text}
use husarnet.IpAddress.Parse.{parse_address}
use husarnet.Crypto.{Sodium, Identity, identity_is_valid, pubkey_to_device_id}

-- `Identity::Identity`
abbrev pub no_identity : Identity
no_identity = record { pubkey = replicate 32 0; privkey = replicate 64 0; device_id = no_address }

unfoldable pub skip_space : Bytes → Bytes
unfolding is_space
skip_space [] = []
skip_space (c ∷ rest) = let more = skip_space rest in if is_space c then more else c ∷ rest

-- The characters up to the next space, and what follows.
unfoldable pub take_word : Bytes → Bytes × Bytes
unfolding is_space
take_word [] = ([], [])
take_word (c ∷ rest) =
    let more = take_word rest in if is_space c then ([], c ∷ rest) else (c ∷ more.0, more.1)

-- `>>` of a stream to a string.
unfoldable pub read_word : Bytes → Bytes × Bytes
unfolding skip_space take_word
read_word s = take_word (skip_space s)

-- A string as an `fstring`; `none` is its assertion.
unfoldable pub to_fstring : ℕ → Bytes → Option Bytes
to_fstring size s = if ltb (length s) size then none else some (take size s)

-- `Identity::deserialize`
unfoldable pub deserialize : Bytes → Option Identity
unfolding read_word to_fstring
deserialize text =
    let ip = read_word text in
    let pubkey = read_word ip.1 in
    let privkey = read_word pubkey.1 in
    if length text == 0
    then some no_identity
    else (to_fstring 32 (decode_hex pubkey.0) >>= λ public_bytes.
        to_fstring 64 (decode_hex privkey.0) >>= λ secret_bytes.
        some (record {
          pubkey = public_bytes;
          privkey = secret_bytes;
          device_id = parse_address ip.0;
        }))

module _ (so : Sodium) where
  -- `Identity::serialize`
  unfoldable pub serialize : Identity → Bytes
  serialize i =
      address_text (pubkey_to_device_id so i.pubkey)
      ++ (b' ' ∷ (encode_hex i.pubkey ++ (b' ' ∷ (encode_hex i.privkey ++ (b'\n' ∷ [])))))

  -- `Identity::create`: `keypair` is libsodium's signing key pair by the number of the draw. Of its
  -- loop at most `fuel` rounds are followed.
  unfoldable pub create : (ℕ → Bytes × Bytes) → ℕ → ℕ → Option Identity
  create keypair zero draw = none
  create keypair (suc fuel) draw =
      let pair = keypair draw in
      let made : Identity = record {
        pubkey = pair.0;
        privkey = pair.1;
        device_id = pubkey_to_device_id so pair.0;
      } in
      let next = create keypair fuel (draw + 1) in
      if identity_is_valid made then some made else next

  -- `Identity::init` on the stored text, with whether writing it succeeds: the identity, and the text
  -- that is stored then.
  unfoldable pub init : (ℕ → Bytes × Bytes) → Bool → ℕ → Bytes → Option (Identity × Bytes)
  unfolding deserialize serialize create
  init keypair written fuel stored =
      (if length stored == 0 then some no_identity else deserialize stored) >>= λ found.
      if identity_is_valid found
      then some (found, stored)
      else (create keypair fuel 0 >>= λ made.
          some (made, if written then serialize made else stored))
