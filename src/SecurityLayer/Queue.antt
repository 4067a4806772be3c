-- ===== src/SecurityLayer/Queue.antt =====
-- The queues of security_layer.cpp: packets that wait for session keys, and steps that move them.
pub mod Steps
pub mod Safe
use husarnet.Common.{
  ℕ, zero, suc, ◌+◌, ◌-◌, ◌%◌, ◌^◌, ◌≤◌, ◌<◌, ◌≡◌, refl, sym, subst, ap, ap₂, ◌∙◌, true, false,
  Option, none, some, List, [], ◌∷◌, ◌++◌, arith, Bytes, length, take, drop, substr, ◌==◌, ltb, leb,
  if◌then◌else◌, Bool, not, Option-cases, inl, inr, Bool-cases, length-append, same_bytes, ◌||◌,
}
use husarnet.Util.View.{view_at}
use husarnet.IpAddress.{IpAddress}
use husarnet.Common.Int.{pos}
use husarnet.Crypto.{Sodium, generate_random_string}
use husarnet.Peer.{Peer}
use husarnet.Util.Pack.{from_bytes}
use husarnet.PeerContainer.{PeerContainer, get_or_create_peer, update, get_peer, create_peer}
use husarnet.PeerContainer.Invariant.{ContainerOk, get_or_create_peer-Found}
use husarnet.SecurityLayer.{
  SecurityLayer, Sent, peer_at, put_peer, in_container, do_send_data_packet, send_queue,
  finish_negotiation, send_hello_packet, exchange_keys, session_keys, mix_into, hello_flags,
  handle_hello_packet, handle_data_packet, handle_heartbeat, handle_heartbeat_reply, dispatch,
  on_lower_layer_data, on_upper_layer_data, get_latency, max_queued_packets, send, hello_is_genuine,
  Call, from_upper, from_lower, latency_of, call, run,
}

-- The packets that wait for the first `n` peers.
unfoldable pub waiting : (ℕ → Peer) → ℕ → ℕ
waiting heap zero = 0
waiting heap (suc n) = waiting heap n + length (heap n).packet_queue

-- The counter counts what waits, and stays within its bound.
pub record QueueOk (s : SecurityLayer) : Type 0 where
  pub counted : s.queued_packets ≡ waiting s.container.heap s.container.fresh
  pub bounded : s.queued_packets ≤ max_queued_packets

pub waiting_beyond :
    (heap : ℕ → Peer) (n p : ℕ) (peer : Peer)
    → n ≤ p
    → waiting (update heap p peer) n ≡ waiting heap n
unfolding waiting
waiting_beyond heap zero p peer h = refl
waiting_beyond heap (suc n) p peer h = ground (arith, waiting_beyond heap n p peer)

pub update_here : (heap : ℕ → Peer) (p : ℕ) (peer : Peer) → update heap p peer p ≡ peer
update_here heap p peer = ground arith

-- A peer that is written with a queue of another length.
pub waiting-update :
    (heap : ℕ → Peer) (n p : ℕ) (peer : Peer)
    → p < n
    → waiting (update heap p peer) n + length (heap p).packet_queue
      ≡ waiting heap n + length peer.packet_queue
unfolding waiting
waiting-update heap zero p peer h = absurd (omega arith)
waiting-update heap (suc n) p peer h =
    ground (arith, waiting-update heap n p peer, waiting_beyond heap n p peer)

pub waiting_at_least :
    (heap : ℕ → Peer) (n p : ℕ) → p < n → length (heap p).packet_queue ≤ waiting heap n
unfolding waiting
waiting_at_least heap zero p h = absurd (omega arith)
waiting_at_least heap (suc n) p h = ground (arith, waiting_at_least heap n p)

-- What holds between two calls.
pub record LayerOk (s : SecurityLayer) : Type 0 where
  pub queue : QueueOk s
  pub pointers : ContainerOk s.container

-- A step that leaves the pointers alone, and moves the counter as it moves the queues.
pub record Moves (s t : SecurityLayer) : Type 0 where
  pub fresh : t.container.fresh ≡ s.container.fresh
  pub peers : t.container.peers ≡ s.container.peers
  pub cached_peer : t.container.cached_peer ≡ s.container.cached_peer
  pub cached_peer_id : t.container.cached_peer_id ≡ s.container.cached_peer_id
  pub ids : (p : ℕ) → (peer_at t p).id ≡ (peer_at s p).id
  pub queue : QueueOk s → QueueOk t

pub Moves-LayerOk : {s t : SecurityLayer} → Moves s t → LayerOk s → LayerOk t
Moves-LayerOk m v = record {
  queue = m.queue v.queue;
  pointers = record {
    entries = λ id p e. ground (arith, v.pointers.entries id p, m.ids p, m.fresh, m.peers);
    cache = λ p e.
        ground (arith, v.pointers.cache p, m.ids p, m.fresh, m.cached_peer, m.cached_peer_id);
  };
}

pub Moves-trans : {s t u : SecurityLayer} → Moves s t → Moves t u → Moves s u
Moves-trans a b = record {
  fresh = b.fresh ∙ a.fresh;
  peers = b.peers ∙ a.peers;
  cached_peer = b.cached_peer ∙ a.cached_peer;
  cached_peer_id = b.cached_peer_id ∙ a.cached_peer_id;
  ids = λ p. b.ids p ∙ a.ids p;
  queue = λ v. b.queue (a.queue v);
}

pub Moves-put_peer :
    (s : SecurityLayer) (p : ℕ) (peer : Peer)
    → p < s.container.fresh
    → peer.id ≡ (peer_at s p).id
    → length peer.packet_queue ≡ length (peer_at s p).packet_queue
    → Moves s (put_peer s p peer)
Moves-put_peer s p peer live same kept = record {
  fresh = refl;
  peers = refl;
  cached_peer = refl;
  cached_peer_id = refl;
  ids = λ q. ground arith;
  queue = λ v. record {
    counted =
        omega (arith, v.counted, waiting-update s.container.heap s.container.fresh p peer live);
    bounded = v.bounded;
  };
}

-- A step that writes no peer.
pub Moves-quiet :
    (s t : SecurityLayer)
    → t.container.fresh ≡ s.container.fresh
    → t.container.peers ≡ s.container.peers
    → t.container.cached_peer ≡ s.container.cached_peer
    → t.container.cached_peer_id ≡ s.container.cached_peer_id
    → t.container.heap ≡ s.container.heap
    → t.queued_packets ≡ s.queued_packets
    → Moves s t
Moves-quiet s t f p c i h q = record {
  fresh = f;
  peers = p;
  cached_peer = c;
  cached_peer_id = i;
  ids = λ p. ap (λ heap. (heap p).id) h;
  queue = λ v. record {
    counted = q ∙ v.counted ∙ ap₂ waiting (sym h) (sym f);
    bounded = omega (arith, q, v.bounded);
  };
}

pub Moves-if :
    (b : Bool) {s x y : SecurityLayer} → Moves s x → Moves s y → Moves s (if b then x else y)
Moves-if true p q = p
Moves-if false p q = q
