-- ===== src/NgSocket/Frame.antt =====
-- Most handlers leave the source addresses, the identities of the peers and the worker's queue alone.
pub mod Handlers
pub mod BaseHandlers
use native.Mathlib.Nat.{ℕ_set}
use husarnet.Common.{
  ℕ, ◌+◌, ◌≤◌, ◌<◌, ◌≡◌, refl, ap, sym, ◌∙◌, Bool, true, false, not, ◌&&◌, ◌||◌, Option, none, some,
  List, [], ◌∷◌, Bytes, arith, length, ◌==◌, ltb, leb, if◌then◌else◌,
}
use husarnet.IpAddress.{IpAddress, InetAddress, same_inet, is_fc94}
use husarnet.Crypto.{Sodium}
use husarnet.Peer.{Peer, is_active}
use husarnet.PeerContainer.{PeerContainer, find}
use husarnet.PeerContainer.Invariant.{ContainerOk}
use husarnet.NgSocket.Addresses.{contains_inet, lookup}
use husarnet.NgSocket.Messages.{
  PeerToPeerMessage, PeerToBaseMessage, BaseToPeerMessage, BaseToPeerMessageKind,
}
use husarnet.NgSocket.State.{
  NgSocket, Env, Output, Job, emit, peer_of, set_peer, with_container, serialized, send_to_all,
  send_to_base_udp, send_to_base_tcp, send_to_peer, is_transient, goes_to_all, udp_send,
}
use husarnet.NgSocket.Sources.Invariant.{held, SourcesOk, Linked}

-- What a handler that is in the frame leaves as it was.
pub record Same (s t : NgSocket) : Type 0 where
  pub queue : t.worker_queue ≡ s.worker_queue
  pub limit : t.worker_queue_size ≡ s.worker_queue_size
  pub sources : t.peer_source_addresses ≡ s.peer_source_addresses
  pub fresh : t.container.fresh ≡ s.container.fresh
  pub peers : t.container.peers ≡ s.container.peers
  pub cached_peer : t.container.cached_peer ≡ s.container.cached_peer
  pub cached_peer_id : t.container.cached_peer_id ≡ s.container.cached_peer_id
  pub addresses : (p : ℕ) → held t p ≡ held s p
  pub ids : (p : ℕ) → (peer_of t p).id ≡ (peer_of s p).id

-- What holds between two entries.
pub record Inv (s : NgSocket) : Type 0 where
  pub source_addresses : SourcesOk s
  pub pointers : ContainerOk s.container
  pub bounded : length s.worker_queue ≤ s.worker_queue_size

pub Same-refl : (s : NgSocket) → Same s s
Same-refl s = record {
  queue = refl;
  limit = refl;
  sources = refl;
  fresh = refl;
  peers = refl;
  cached_peer = refl;
  cached_peer_id = refl;
  addresses = λ p. refl;
  ids = λ p. refl;
}

pub Same-trans : {s t u : NgSocket} → Same s t → Same t u → Same s u
Same-trans a b = record {
  queue = b.queue ∙ a.queue;
  limit = b.limit ∙ a.limit;
  sources = b.sources ∙ a.sources;
  fresh = b.fresh ∙ a.fresh;
  peers = b.peers ∙ a.peers;
  cached_peer = b.cached_peer ∙ a.cached_peer;
  cached_peer_id = b.cached_peer_id ∙ a.cached_peer_id;
  addresses = λ p. b.addresses p ∙ a.addresses p;
  ids = λ p. b.ids p ∙ a.ids p;
}

pub Same-if : (b : Bool) {s x y : NgSocket} → Same s x → Same s y → Same s (if b then x else y)
Same-if true p q = p
Same-if false p q = q

pub Same-elim {ℓ} :
    {A : Type ℓ} (o : Option A) {s x : NgSocket} {f : A → NgSocket}
    → Same s x
    → ((a : A) → Same s (f a))
    → Same s (elim o [ none ↦ x | some a ↦ f a ])
Same-elim none p q = p
Same-elim (some a) p q = q a

pub Same-emit : (o : Output) (s : NgSocket) → Same s (emit o s)
Same-emit o s = record {
  queue = refl;
  limit = refl;
  sources = refl;
  fresh = refl;
  peers = refl;
  cached_peer = refl;
  cached_peer_id = refl;
  addresses = λ p. refl;
  ids = λ p. refl;
}

pub Same-set_peer :
    (s : NgSocket) (p : ℕ) (peer : Peer)
    → peer.source_addresses ≡ held s p
    → peer.id ≡ (peer_of s p).id
    → Same s (set_peer s p peer)
Same-set_peer s p peer h i = record {
  queue = refl;
  limit = refl;
  sources = refl;
  fresh = refl;
  peers = refl;
  cached_peer = refl;
  cached_peer_id = refl;
  addresses = λ q. ground arith;
  ids = λ q. ground arith;
}

Same-SourcesOk : {s t : NgSocket} → Same s t → SourcesOk s → SourcesOk t
Same-SourcesOk {s} {t} k v = record {
  linked = λ p a. (
    λ h. ground (arith, v.linked p a, k.addresses p, k.sources),
    λ h. ground (arith, v.linked p a, k.addresses p, k.sources),
  );
  few = λ p. ground (arith, v.few p, k.addresses p);
  unborn = λ p h. ground (arith, v.unborn p, k.addresses p, k.fresh);
}

Same-ContainerOk : {s t : NgSocket} → Same s t → ContainerOk s.container → ContainerOk t.container
Same-ContainerOk {s} {t} k v = record {
  entries = λ id p e. ground (arith, v.entries id p, k.ids p, k.fresh, k.peers);
  cache = λ p e. ground (arith, v.cache p, k.ids p, k.fresh, k.cached_peer, k.cached_peer_id);
}

-- The frame keeps the invariant.
pub Same-Inv : {s t : NgSocket} → Same s t → Inv s → Inv t
Same-Inv k v = record {
  source_addresses = Same-SourcesOk k v.source_addresses;
  pointers = Same-ContainerOk k v.pointers;
  bounded = ground (arith, k.queue, k.limit, v.bounded);
}

pub Same-send_to_all :
    (transient : Bool) (bytes : Bytes) (list : List InetAddress) (s : NgSocket)
    → Same s (send_to_all transient bytes list s)
unfolding send_to_all
Same-send_to_all transient bytes [] s = Same-refl s
Same-send_to_all transient bytes (a ∷ rest) s =
    Same-trans (Same-if transient (Same-refl s) (Same-emit _ s))
      (Same-send_to_all transient bytes rest _)

module _ (so : Sodium) where
  pub Same-send_to_base_udp :
      (msg : PeerToBaseMessage) (s : NgSocket) → Same s (send_to_base_udp so msg s)
  unfolding send_to_base_udp
  Same-send_to_base_udp msg s = Same-if _ (Same-refl s) (
      Same-elim (serialized so s msg) (Same-emit _ s) λ bytes.
        Same-if (goes_to_all msg.kind)
          (Same-send_to_all (is_transient msg.kind) bytes s.all_base_udp_addresses s)
          (Same-emit (udp_send s.base_udp_address bytes) s))

  pub Same-send_to_base_tcp :
      (msg : PeerToBaseMessage) (s : NgSocket) → Same s (send_to_base_tcp so msg s)
  unfolding send_to_base_tcp
  Same-send_to_base_tcp msg s =
      Same-if _ (Same-refl s)
        (Same-elim (serialized so s msg) (Same-emit _ s) λ bytes. Same-emit _ s)

  pub Same-send_to_peer :
      (dest : InetAddress) (msg : PeerToPeerMessage) (s : NgSocket)
      → Same s (send_to_peer so dest msg s)
  unfolding send_to_peer
  Same-send_to_peer dest msg s = Same-elim _ (Same-emit _ s) λ bytes. Same-emit _ s
