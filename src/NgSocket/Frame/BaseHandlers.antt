-- ===== src/NgSocket/Frame/BaseHandlers.antt =====
-- The base server's handlers that are in the frame.
use husarnet.Common.{ℕ, ◌≡◌, refl, ap, not, List, [], ◌∷◌, arith, ◌==◌, length}
use husarnet.IpAddress.{IpAddress}
use husarnet.Crypto.{Sodium}
use husarnet.Peer.{is_active}
use husarnet.NgSocket.Messages.{BaseToPeerMessage, BaseToPeerMessageKind}
use husarnet.NgSocket.State.{NgSocket, Env, peer_of}
use husarnet.NgSocket.Peers.{send_info_request_to_base}
use husarnet.NgSocket.Base.{
  next_transient_port, send_nat_init_to_base, send_local_addresses_to_base, resend_info_requests,
  open_connection, connect_to_base, connection_failed, state_received, base_message_received_udp,
  send_multicast,
}
use husarnet.NgSocket.Worker.{refresh_peers, refresh}
use husarnet.NgSocket.Frame.{
  Same, Same-refl, Same-trans, Same-if, Same-emit, Same-send_to_base_udp, Same-send_to_base_tcp,
}
use husarnet.NgSocket.Frame.Handlers.{Same-periodic_peer}

-- All fields of the frame are the same by computation.
pub Same-fields :
    (s t : NgSocket)
    → t.worker_queue ≡ s.worker_queue
    → t.worker_queue_size ≡ s.worker_queue_size
    → t.peer_source_addresses ≡ s.peer_source_addresses
    → t.container ≡ s.container
    → Same s t
Same-fields s t q l a c = record {
  queue = q;
  limit = l;
  sources = a;
  fresh = ap (λ x. x.fresh) c;
  peers = ap (λ x. x.peers) c;
  cached_peer = ap (λ x. x.cached_peer) c;
  cached_peer_id = ap (λ x. x.cached_peer_id) c;
  addresses = λ p. ap (λ x. (x.heap p).source_addresses) c;
  ids = λ p. ap (λ x. (x.heap p).id) c;
}

Same-next_transient_port : (s : NgSocket) → Same s (next_transient_port s)
unfolding next_transient_port
Same-next_transient_port s = Same-fields s _ refl refl refl refl

pub Same-state_received : (msg : BaseToPeerMessage) (s : NgSocket) → Same s (state_received msg s)
unfolding state_received
Same-state_received msg s =
    Same-fields s _ (ground arith) (ground arith) (ground arith) (ground arith)

pub Same-connection_failed : (now c : ℕ) (s : NgSocket) → Same s (connection_failed now c s)
unfolding connection_failed
Same-connection_failed now c s =
    Same-fields s _ (ground arith) (ground arith) (ground arith) (ground arith)

pub Same-send_multicast : (s : NgSocket) → Same s (send_multicast s)
unfolding send_multicast
Same-send_multicast s = Same-fields s _ refl refl refl refl

module _ (so : Sodium) where
  pub Same-send_local_addresses_to_base :
      (s : NgSocket) → Same s (send_local_addresses_to_base so s)
  unfolding send_local_addresses_to_base
  Same-send_local_addresses_to_base s = Same-send_to_base_tcp so _ s

  pub Same-send_nat_init_to_base :
      (now : ℕ) (s : NgSocket) → Same s (send_nat_init_to_base so now s)
  unfolding send_nat_init_to_base
  Same-send_nat_init_to_base now s =
      let first = Same-trans (Same-fields s _ refl refl refl refl) (Same-send_to_base_udp so _ _) in
      Same-if (length s.cookie == 0) (Same-refl s) (
        Same-if (not (s.base_transient_port == 0))
          (Same-trans first
            (Same-trans (Same-send_to_base_udp so _ _) (Same-next_transient_port _)))
          first)

  pub Same-resend_info_requests :
      (now : ℕ) (list : List (IpAddress × ℕ)) (s : NgSocket)
      → Same s (resend_info_requests so now list s)
  unfolding resend_info_requests send_info_request_to_base
  Same-resend_info_requests now [] s = Same-refl s
  Same-resend_info_requests now ((id, p) ∷ rest) s =
      Same-trans
        (Same-if (is_active now (peer_of s p)) (Same-send_to_base_tcp so _ s) (Same-refl s))
        (Same-resend_info_requests now rest _)

  pub Same-connect_to_base :
      (env : Env) (now : ℕ) (s : NgSocket) → Same s (connect_to_base so env now s)
  unfolding connect_to_base
  Same-connect_to_base env now s =
      Same-if (length s.container.config.base_addresses == 0) (Same-emit _ s) (
        Same-trans (Same-fields s (open_connection env now s) refl refl refl refl)
          (Same-send_to_base_tcp so _ _))

  -- A message of the base server over UDP, by its kind.
  udp_by_kind :
      (now : ℕ) (msg : BaseToPeerMessage) (s : NgSocket) (kind : BaseToPeerMessageKind)
      → Same s (base_message_received_udp so now (record msg { kind = kind }) s)
  unfolding base_message_received_udp
  udp_by_kind now msg s BaseToPeerMessageKind.data_message = Same-emit _ s
  udp_by_kind now msg s BaseToPeerMessageKind.nat_ok =
      Same-trans (Same-fields s _ refl refl refl refl) (Same-send_to_base_udp so _ _)
  udp_by_kind now msg s _ = Same-refl s

  pub Same-base_message_received_udp :
      (now : ℕ) (msg : BaseToPeerMessage) (s : NgSocket)
      → Same s (base_message_received_udp so now msg s)
  Same-base_message_received_udp now msg s = udp_by_kind now msg s msg.kind

  Same-refresh_peers :
      (now : ℕ) (list : List (IpAddress × ℕ)) (s : NgSocket) → Same s (refresh_peers so now list s)
  unfolding refresh_peers
  Same-refresh_peers now [] s = Same-refl s
  Same-refresh_peers now ((id, p) ∷ rest) s =
      Same-trans (Same-periodic_peer so now p s) (Same-refresh_peers now rest _)

  pub Same-refresh : (now : ℕ) (s : NgSocket) → Same s (refresh so now s)
  unfolding refresh
  Same-refresh now s =
      Same-trans (Same-fields s (record s { last_refresh = now }) refl refl refl refl) (
        Same-trans (Same-send_local_addresses_to_base _) (
          Same-trans (Same-send_nat_init_to_base now _)
            (Same-trans (Same-send_multicast _) (Same-refresh_peers now _ _))))
