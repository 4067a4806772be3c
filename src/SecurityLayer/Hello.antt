-- ===== src/SecurityLayer/Hello.antt =====
-- The hello of security_layer.cpp: what its receiver reads from it.
use husarnet.Common.{
  ℕ, ◌-◌, ◌<◌, ◌^◌, ◌≡◌, refl, ap, ◌∙◌, true, [], ◌∷◌, ◌++◌, arith, Bytes, length, take, drop,
  substr, length-append, append_assoc, substr_field, drop_field, take_field, same_bytes,
  same_bytes_refl,
}
use husarnet.Util.Pack.{pack, from_bytes, length-pack, from_bytes-pack}
use husarnet.Crypto.{
  Sodium, SigningLaws, sign, verify_signature, identity_sign, make_message, pubkey_to_device_id,
}
use husarnet.Peer.{Peer}
use husarnet.SecurityLayer.{
  SecurityLayer, kx_kind, hello_body, hello_packet, hello_flags, hello_is_genuine,
}

-- A layer whose identity is genuine, and its fields and those of one of its peers of the right sizes.
pub record CanGreet (so : Sodium) (s : SecurityLayer) (peer : Peer) : Type 0 where
  pub hashes : pubkey_to_device_id so s.identity.pubkey ≡ s.identity.device_id
  pub key_size : length s.identity.pubkey ≡ 32
  pub signing : SigningLaws so s.identity.pubkey s.identity.privkey
  pub kx_size : length peer.kx_pubkey ≡ 32
  pub id_size : length peer.id ≡ 16
  pub helloseq_fits : s.helloseq < 256 ^ 8
  pub flags_fit : s.flags < 256 ^ 8

-- What is read of a hello.
pub record HelloFields (so : Sodium) (s : SecurityLayer) (peer : Peer) (seq : ℕ) (packet : Bytes)
    : Type 0 where
  pub size : length packet ≡ 169
  pub pubkey : substr 1 32 packet ≡ s.identity.pubkey
  pub kx_pubkey : substr 33 32 packet ≡ peer.kx_pubkey
  pub target : substr 65 16 packet ≡ peer.id
  pub helloseq : from_bytes (substr 81 8 packet) ≡ s.helloseq
  pub answer : from_bytes (substr 89 8 packet) ≡ seq
  pub flags : hello_flags so packet ≡ s.flags
  pub verified :
      verify_signature so
        (take (length packet - 64) packet)
        kx_kind
        (substr 1 32 packet)
        (drop (length packet - 64) packet)
      ≡ true

module _ (so : Sodium) (s : SecurityLayer) (peer : Peer) (num seq : ℕ) (g : CanGreet so s peer)
    (fits : seq < 256 ^ 8) where
  signature_size : length (sign so (hello_body so s peer num seq) kx_kind s.identity) ≡ 64
  unfolding sign
  signature_size = g.signing.signature_size _

  body_size : length (hello_body so s peer num seq) ≡ 105
  unfolding hello_body
  body_size = simp length-append (
      omega (
        arith,
        g.key_size,
        g.kx_size,
        g.id_size,
        length-pack 8 s.helloseq,
        length-pack 8 seq,
        length-pack 8 s.flags,
      ))

  flags_read :
      (packet : Bytes)
      → length packet ≡ 169
      → substr 97 8 packet ≡ pack 8 s.flags
      → hello_flags so packet ≡ s.flags
  unfolding hello_flags
  flags_read packet size field =
      ground (arith, size, ap from_bytes field, from_bytes-pack 8 s.flags g.flags_fit)

  signed :
      (body : Bytes)
      → verify_signature so body kx_kind s.identity.pubkey (sign so body kx_kind s.identity) ≡ true
  unfolding sign verify_signature identity_sign make_message
  signed body = g.signing.verifies _

  -- A hello has 169 bytes, and its receiver reads its fields and finds it signed.
  pub hello_packet-HelloFields : HelloFields so s peer seq (hello_packet so s peer num seq)
  unfolding hello_packet
  hello_packet-HelloFields =
      let signature = sign so (hello_body so s peer num seq) kx_kind s.identity in
      let body = hello_body so s peer num seq in
      let pk = s.identity.pubkey in
      let kx = peer.kx_pubkey in
      let id = peer.id in
      let hs = pack 8 s.helloseq in
      let an = pack 8 seq in
      let fl = pack 8 s.flags in
      let l1 = length-pack 8 s.helloseq in
      let l2 = length-pack 8 seq in
      let l3 = length-pack 8 s.flags in
      let whole : length (body ++ signature) ≡ 169 =
        omega (arith, length-append body signature, body_size, signature_size) in
      let end : length (body ++ signature) - 64 ≡ 105 = omega (arith, whole) in
      let pk_read : substr 1 32 (body ++ signature) ≡ pk =
        substr_field 1 32 (body ++ signature) (num ∷ []) pk
          (kx ++ (id ++ (hs ++ (an ++ (fl ++ signature))))) (unfold hello_body in simp append_assoc)
          refl g.key_size in
      record {
        size = whole;
        pubkey = pk_read;
        kx_pubkey =
            substr_field 33 32 (body ++ signature) (num ∷ pk) kx
              (id ++ (hs ++ (an ++ (fl ++ signature)))) (unfold hello_body in simp append_assoc)
              (omega (arith, g.key_size)) g.kx_size;
        target =
            substr_field 65 16 (body ++ signature) (num ∷ (pk ++ kx)) id
              (hs ++ (an ++ (fl ++ signature))) (unfold hello_body in simp append_assoc)
              (simp length-append (omega (arith, g.key_size, g.kx_size))) g.id_size;
        helloseq =
            ap from_bytes (
              substr_field 81 8 (body ++ signature) (num ∷ (pk ++ (kx ++ id))) hs
                (an ++ (fl ++ signature)) (unfold hello_body in simp append_assoc)
                (simp length-append (omega (arith, g.key_size, g.kx_size, g.id_size))) l1)
            ∙ from_bytes-pack 8 s.helloseq g.helloseq_fits;
        answer =
            ap from_bytes (
              substr_field 89 8 (body ++ signature) (num ∷ (pk ++ (kx ++ (id ++ hs)))) an
                (fl ++ signature) (unfold hello_body in simp append_assoc)
                (simp length-append (omega (arith, g.key_size, g.kx_size, g.id_size, l1))) l2)
            ∙ from_bytes-pack 8 seq fits;
        flags = flags_read (body ++ signature) whole (
            substr_field 97 8 (body ++ signature) (num ∷ (pk ++ (kx ++ (id ++ (hs ++ an))))) fl
              signature (unfold hello_body in simp append_assoc)
              (simp length-append (omega (arith, g.key_size, g.kx_size, g.id_size, l1, l2))) l3);
        verified =
            rw
              (
                end,
                pk_read,
                drop_field 105 (body ++ signature) body signature refl body_size,
                take_field 105 (body ++ signature) body signature refl body_size,
              )
              (signed body);
      }

-- The device that a hello is for takes it as genuine.
pub hello_packet-genuine :
    (so : Sodium) (s r : SecurityLayer) (peer : Peer) (num seq : ℕ)
    → CanGreet so s peer
    → seq < 256 ^ 8
    → peer.id ≡ r.identity.device_id
    → hello_is_genuine so s.identity.device_id (hello_packet so s peer num seq) r ≡ true
unfolding hello_is_genuine
hello_packet-genuine so s r peer num seq g fits mine =
    let f = hello_packet-HelloFields so s peer num seq g fits in
    ground (
      arith,
      f.target,
      f.verified,
      ap (pubkey_to_device_id so) f.pubkey,
      g.hashes,
      mine,
      same_bytes_refl peer.id,
      ap (same_bytes peer.id) mine,
      same_bytes_refl s.identity.device_id,
    )
