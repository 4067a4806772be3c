-- ===== src/NgSocket/Parse/Total.antt =====
-- The parsers never fail an assertion: no read is out of bounds, whatever the packet is.
use husarnet.Common.{
  ℕ, zero, suc, ◌+◌, ◌≤◌, ◌≡◌, refl, Option, some, List, [], ◌∷◌, ◌++◌, Bytes, arith, length, take,
  drop, substr, ◌>>=◌, Bool-cases, inl, inr, leb, ltb, ◌==◌, true, false, ◌&&◌, Bool, not,
  if◌then◌else◌,
}
use husarnet.IpAddress.{InetAddress}
use husarnet.Crypto.{Sodium}
use husarnet.Util.Pack.{unpack, from_bytes}
use husarnet.Util.View.{
  view_at, view_substr, view_from, view_substr_inside, view_from_inside, view_at_inside,
  length-take-drop,
}
use husarnet.NgSocket.Messages.{
  peer_message, PeerToPeerMessageKind, PeerToPeerMessage, BaseToPeerMessage,
}
use husarnet.NgSocket.Parse.{
  read_address, read_addresses, read_udp_addresses, read_range, parse_state, parse_device_addresses,
  parse_cookie, parse_relayed, parse_base_to_peer_message, judge_hello, parse_hello,
  parse_peer_to_peer_message,
}

-- A value is there.
abbrev pub HasValue {ℓ} : {A : Type ℓ} → Option A → Type ℓ
HasValue {A = A} o = (a : A) × (o ≡ some a)

HasValue-bind {ℓ κ} :
    {A : Type ℓ} {B : Type κ} (o : Option A) (f : A → Option B)
    → HasValue o
    → ((a : A) → HasValue (f a))
    → HasValue (o >>= f)
HasValue-bind o f (a, e) k = ((k a).0, rw e (k a).1)

HasValue-if {ℓ} :
    {A : Type ℓ} (b : Bool) (x y : Option A)
    → (b ≡ true → HasValue x)
    → (b ≡ false → HasValue y)
    → HasValue (if b then x else y)
HasValue-if true x y p q = p refl
HasValue-if false x y p q = q refl

unpack_two : (s : Bytes) → length s ≡ 2 → unpack 2 s ≡ some (from_bytes s)
unfolding unpack
unpack_two s h = rw h

pub unpack_at :
    (i : ℕ) (packet : Bytes)
    → i + 2 ≤ length packet
    → (view_substr i 2 packet >>= unpack 2) ≡ some (from_bytes (take 2 (drop i packet)))
unpack_at i packet h =
    rw (view_substr_inside i 2 packet h) (unpack_two _ (length-take-drop i 2 packet h))

-- What `read_address` finds at `i`.
abbrev pub address_at : Bytes → ℕ → InetAddress
address_at packet i = record {
  ip = take 16 (drop i packet);
  port = from_bytes (take 2 (drop (i + 16) packet));
}

pub read_address_inside :
    (packet : Bytes) (i : ℕ)
    → i + 18 ≤ length packet
    → read_address packet i ≡ some (address_at packet i)
unfolding read_address
read_address_inside packet i h =
    rw
      (
        view_substr_inside i 16 packet (omega arith),
        view_substr_inside (i + 16) 2 packet (omega arith),
      )
      (rw (unpack_two _ (length-take-drop (i + 16) 2 packet (omega arith))))

read_addresses-HasValue :
    (fuel : ℕ) (packet : Bytes) (i : ℕ) (addresses : List InetAddress)
    → HasValue (read_addresses fuel packet i addresses)
unfolding read_addresses
read_addresses-HasValue zero packet i addresses = (addresses, refl)
read_addresses-HasValue (suc fuel) packet i addresses =
    elim (Bool-cases (leb (i + 18) (length packet))) [
      | inl inside ↦
          let rest =
            read_addresses-HasValue fuel packet (i + 18)
              (addresses ++ (address_at packet i ∷ [])) in
          (rest.0, rw (inside, read_address_inside packet i (ground arith)) rest.1)
      | inr done ↦ (addresses, rw done)
    ]

read_udp_addresses-HasValue :
    (fuel : ℕ) (packet : Bytes) (i : ℕ) (addresses : List InetAddress)
    → HasValue (read_udp_addresses fuel packet i addresses)
unfolding read_udp_addresses
read_udp_addresses-HasValue zero packet i addresses = ((i, addresses), refl)
read_udp_addresses-HasValue (suc fuel) packet i addresses =
    elim (Bool-cases (leb (i + 18) (length packet) && ltb (length addresses) 5)) [
      | inl inside ↦
          let rest =
            read_udp_addresses-HasValue fuel packet (i + 18)
              (addresses ++ (address_at packet i ∷ [])) in
          (rest.0, rw (inside, read_address_inside packet i (ground arith)) rest.1)
      | inr done ↦ ((i, addresses), rw done)
    ]

pub read_range_inside :
    (packet : Bytes) (i : ℕ)
    → i + 4 ≤ length packet
    → read_range packet i
      ≡ some (from_bytes (take 2 (drop i packet)), from_bytes (take 2 (drop (i + 2) packet)))
unfolding read_range
read_range_inside packet i h = ground (
  arith,
  view_substr_inside i 2 packet,
  view_substr_inside (i + 2) 2 packet,
  unpack_two (take 2 (drop i packet)),
  unpack_two (take 2 (drop (i + 2) packet)),
  length-take-drop i 2 packet,
  length-take-drop (i + 2) 2 packet,
)

read_range-HasValue : (packet : Bytes) (i : ℕ) → HasValue (read_range packet i)
read_range-HasValue packet i = elim (Bool-cases (leb (i + 4) (length packet))) [
  | inl inside ↦ (_, read_range_inside packet i (ground arith))
  | inr done ↦ ((0, 0), unfold read_range in rw done)
]

parse_state-HasValue : (packet : Bytes) → HasValue (parse_state packet)
unfolding parse_state
parse_state-HasValue packet =
    HasValue-bind (read_udp_addresses 6 packet 1 []) _ (read_udp_addresses-HasValue 6 packet 1 [])
      λ r.
        HasValue-bind (read_range packet r.0) _ (read_range-HasValue packet r.0)
          λ range. HasValue-if (ltb (length r.1) 1) _ _ (λ _. (_, refl)) (λ _. (_, refl))

parse_device_addresses-HasValue : (packet : Bytes) → HasValue (parse_device_addresses packet)
unfolding parse_device_addresses
parse_device_addresses-HasValue packet =
    HasValue-if (leb (length packet) 17) _ _ (λ _. (_, refl))
      λ long.
        HasValue-bind (view_substr 1 16 packet) _ (_, view_substr_inside 1 16 packet (ground arith))
          λ id.
            HasValue-bind (read_addresses (length packet) packet 17 []) _
              (read_addresses-HasValue (length packet) packet 17 []) λ addresses. (_, refl)

parse_cookie-HasValue : (packet : Bytes) → HasValue (parse_cookie packet)
unfolding parse_cookie
parse_cookie-HasValue packet =
    HasValue-if (not (length packet == 17)) _ _ (λ _. (_, refl))
      λ exact.
        HasValue-bind (view_substr 1 16 packet) _ (_, view_substr_inside 1 16 packet (ground arith))
          λ cookie. (_, refl)

parse_relayed-HasValue : (packet : Bytes) → HasValue (parse_relayed packet)
unfolding parse_relayed
parse_relayed-HasValue packet =
    HasValue-if (leb (length packet) 17) _ _ (λ _. (_, refl))
      λ long.
        HasValue-bind (view_substr 1 16 packet) _ (_, view_substr_inside 1 16 packet (ground arith))
          λ source.
            HasValue-bind (view_from 17 packet) _ (_, view_from_inside 17 packet (ground arith))
              λ payload. (_, refl)

-- Every packet of the base server is parsed, to an invalid message at worst: no read leaves the
-- packet.
pub parse_base_total :
    (packet : Bytes) → (msg : BaseToPeerMessage) × (parse_base_to_peer_message packet ≡ some msg)
unfolding parse_base_to_peer_message
parse_base_total packet =
    HasValue-if (length packet == 0) _ _ (λ _. (_, refl))
      λ some_bytes.
        HasValue-bind (view_at packet 0) _ (_, view_at_inside packet 0 (ground arith))
          λ first.
            HasValue-if (first == 0) _ _ (λ _. parse_cookie-HasValue packet)
              λ _.
                HasValue-if (first == 1) _ _ (λ _. parse_device_addresses-HasValue packet)
                  λ _.
                    HasValue-if (first == 2) _ _ (λ _. parse_relayed-HasValue packet)
                      λ _.
                        HasValue-if (first == 3) _ _ (λ _. (_, refl))
                          λ _.
                            HasValue-if (first == 4) _ _ (λ _. parse_state-HasValue packet)
                              λ _. (_, refl)

-- What the greeting at the head of a packet of the right size is parsed to.
pub parse_hello_inside :
    (so : Sodium) (kind : PeerToPeerMessageKind) (packet : Bytes)
    → length packet ≡ 145
    → parse_hello so kind packet
      ≡ some (
          judge_hello so
            (record (peer_message PeerToPeerMessageKind.invalid) {
              my_id = substr 1 16 packet;
              your_id = substr 49 16 packet;
              hello_cookie = substr 65 16 packet;
            })
            kind
            (substr 17 32 packet)
            (substr 0 81 packet)
            (substr 81 64 packet))
unfolding parse_hello
parse_hello_inside so kind packet h = rw (
  view_substr_inside 1 16 packet (omega arith),
  view_substr_inside 17 32 packet (omega arith),
  view_substr_inside 49 16 packet (omega arith),
  view_substr_inside 65 16 packet (omega arith),
  view_substr_inside 81 64 packet (omega arith),
  view_substr_inside 0 81 packet (omega arith),
)

-- Every packet of a peer is parsed, to an invalid message at worst: no read leaves the packet.
pub parse_peer_total :
    (so : Sodium) (packet : Bytes)
    → (msg : PeerToPeerMessage) × (parse_peer_to_peer_message so packet ≡ some msg)
unfolding parse_peer_to_peer_message
parse_peer_total so packet =
    HasValue-if (length packet == 0) _ _ (λ _. (_, refl))
      λ some_bytes.
        HasValue-bind (view_at packet 0) _ (_, view_at_inside packet 0 (ground arith))
          λ first.
            HasValue-if (first == 0) _ _
              (λ _.
                HasValue-if (not (length packet == 145)) _ _ (λ _. (_, refl))
                  λ exact. (_, parse_hello_inside so _ packet (ground arith)))
              λ _.
                HasValue-if (first == 1) _ _
                  (λ _.
                    HasValue-if (not (length packet == 145)) _ _ (λ _. (_, refl))
                      λ exact. (_, parse_hello_inside so _ packet (ground arith)))
                  λ _.
                    HasValue-if (first == 2) _ _
                      (λ _.
                        HasValue-bind (view_from 1 packet) _
                          (_, view_from_inside 1 packet (ground arith)) λ payload. (_, refl))
                      λ _. (_, refl)
