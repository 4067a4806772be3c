-- ===== src/Crypto.antt =====
-- core/husarnet/identity.h, identity.cpp, ngsocket_crypto.h and ngsocket_crypto.cpp. libsodium is a
-- parameter: its functions are the fields of `Sodium`, and what it documents is `Laws`.
use husarnet.Common.{
  ℕ, zero, suc, ◌+◌, ◌≡◌, Option, some, [], ◌∷◌, ◌++◌, Bytes, Bool, true, not, ◌&&◌, ltb, ◌==◌,
  if◌then◌else◌, byte_at, substr, length,
}
use husarnet.IpAddress.{IpAddress, no_address, is_fc94}

-- The functions of libsodium that the program calls, and its random numbers by the number of the
-- draw.
pub record Sodium : Type 0 where
  pub hash_sha256 : Bytes → Bytes
  -- message, secret key
  pub sign_detached : Bytes → Bytes → Bytes
  -- signature, message, public key
  pub verify_detached : Bytes → Bytes → Bytes → Bool
  -- public key, secret key
  pub kx_keypair : ℕ → Bytes × Bytes
  -- own public key, own secret key, their public key; the receive and transmit keys
  pub kx_client_session_keys : Bytes → Bytes → Bytes → Option (Bytes × Bytes)
  pub kx_server_session_keys : Bytes → Bytes → Bytes → Option (Bytes × Bytes)
  -- message, nonce, key
  pub secretbox_easy : Bytes → Bytes → Bytes → Bytes
  pub secretbox_open_easy : Bytes → Bytes → Bytes → Option Bytes
  -- draw, size
  pub random_bytes : ℕ → ℕ → Bytes
  -- A letter from 'a' to 'z' by the standard library's generator.
  pub random_letter : ℕ → ℕ

-- What libsodium documents of a matching pair of signing keys.
pub record SigningLaws (so : Sodium) (pubkey privkey : Bytes) : Type 0 where
  pub verifies : (m : Bytes) → so.verify_detached (so.sign_detached m privkey) m pubkey ≡ true
  pub signature_size : (m : Bytes) → length (so.sign_detached m privkey) ≡ 64

-- What it documents of the secret box.
pub record BoxLaws (so : Sodium) : Type 0 where
  pub opens : (m n k : Bytes) → so.secretbox_open_easy (so.secretbox_easy m n k) n k ≡ some m
  pub box_size : (m n k : Bytes) → length (so.secretbox_easy m n k) ≡ length m + 16
  pub random_size : (draw size : ℕ) → length (so.random_bytes draw size) ≡ size

pub record Identity : Type 0 where
  pub pubkey : Bytes
  pub privkey : Bytes
  pub device_id : IpAddress

-- `Identity::isValid`
unfoldable pub identity_is_valid : Identity → Bool
identity_is_valid i = is_fc94 i.device_id

unfoldable pub make_message : Bytes → Bytes → Bytes
make_message message kind = kind ++ (b'\n' ∷ message)

module _ (so : Sodium) where
  -- `Identity::sign`
  unfoldable pub identity_sign : Identity → Bytes → Bytes
  identity_sign i msg = so.sign_detached msg i.privkey

  -- `NgSocketCrypto::sign`
  unfoldable pub sign : Bytes → Bytes → Identity → Bytes
  unfolding make_message identity_sign
  sign message kind i = identity_sign i (make_message message kind)

  unfoldable pub pubkey_to_device_id : Bytes → IpAddress
  pubkey_to_device_id pubkey =
      let hash = so.hash_sha256 pubkey in
      if not (byte_at hash 0 == 0 && ltb (byte_at hash 1) 50)
      then no_address
      else 0xfc ∷ 0x94 ∷ substr 3 14 hash

  unfoldable pub verify_signature : Bytes → Bytes → Bytes → Bytes → Bool
  unfolding make_message
  verify_signature message kind pubkey sig =
      so.verify_detached sig (make_message message kind) pubkey

  -- `generateRandomString`: the next `size` letters of the generator.
  unfoldable pub generate_random_string : ℕ → ℕ → Bytes
  generate_random_string draw zero = []
  generate_random_string draw (suc size) =
      so.random_letter draw ∷ generate_random_string (draw + 1) size
