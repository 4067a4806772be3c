-- ===== src/NgSocket/Frame/Handlers.antt =====
-- The handlers that are in the frame.
use husarnet.Common.{ℕ, refl, not, List, [], ◌∷◌, Bytes, arith}
use husarnet.IpAddress.{InetAddress, same_inet, is_fc94}
use husarnet.Crypto.{Sodium}
use husarnet.NgSocket.Messages.{PeerToPeerMessage}
use husarnet.NgSocket.State.{NgSocket, peer_of}
use husarnet.NgSocket.Peers.{
  start_reestablish, send_hellos, attempt_reestablish, transmit, send_data_to_peer, note_link_local,
  send_info_request_to_base, periodic_peer, change_peer_target_addresses, has_timed_out,
  has_fallen_back, disconnected, session_dropped,
}
use husarnet.Peer.{is_active}
use husarnet.NgSocket.Frame.{
  Same, Same-refl, Same-trans, Same-if, Same-set_peer, Same-send_to_base_udp, Same-send_to_base_tcp,
  Same-send_to_peer,
}

-- A change of fields that the frame does not mention.
abbrev Touches : (NgSocket → NgSocket) → Type 0
Touches f = (s : NgSocket) → Same s (f s)

module _ (so : Sodium) where
  Same-send_hellos :
      (target : InetAddress) (hello : PeerToPeerMessage) (list : List InetAddress) (s : NgSocket)
      → Same s (send_hellos so target hello list s)
  unfolding send_hellos
  Same-send_hellos target hello [] s = Same-refl s
  Same-send_hellos target hello (a ∷ rest) s =
      let once = Same-send_to_peer so a hello s in
      Same-trans
        (Same-if (is_fc94 a.ip) (Same-refl s)
          (Same-if (same_inet a target) (Same-trans once (Same-send_to_peer so a hello _)) once))
        (Same-send_hellos target hello rest _)

  pub Same-attempt_reestablish :
      (now p : ℕ) (s : NgSocket) → Same s (attempt_reestablish so now p s)
  unfolding attempt_reestablish start_reestablish
  Same-attempt_reestablish now p s =
      Same-trans
        (record {
          queue = refl;
          limit = refl;
          sources = refl;
          fresh = refl;
          peers = refl;
          cached_peer = refl;
          cached_peer_id = refl;
          addresses = λ q. ground arith;
          ids = λ q. ground arith;
        })
        (Same-send_hellos _ _ _ _)

  Same-transmit : (now p : ℕ) (packet : Bytes) (s : NgSocket) → Same s (transmit so now p packet s)
  unfolding transmit
  Same-transmit now p packet s =
      let tried = Same-if _ (Same-attempt_reestablish now p s) (Same-refl s) in
      Same-if _ (Same-send_to_peer so _ _ s) (
        Same-if _ (Same-trans tried (Same-send_to_base_udp so _ _))
          (Same-trans tried (Same-send_to_base_tcp so _ _)))

  pub Same-send_data_to_peer :
      (now p : ℕ) (packet : Bytes) (s : NgSocket) → Same s (send_data_to_peer so now p packet s)
  unfolding send_data_to_peer send_info_request_to_base
  Same-send_data_to_peer now p packet s =
      let sent = Same-transmit now p packet s in
      Same-trans (Same-if _ (Same-trans sent (Same-send_to_base_tcp so _ _)) sent)
        (Same-set_peer _ p _ refl refl)

  pub Same-note_link_local :
      (now p : ℕ) (source : InetAddress) (s : NgSocket) → Same s (note_link_local so now p source s)
  unfolding note_link_local
  Same-note_link_local now p source s =
      let noted = Same-set_peer s p _ refl refl in
      Same-if _ (Same-if _ (Same-trans noted (Same-attempt_reestablish now p _)) noted)
        (Same-refl s)

  pub Same-periodic_peer : (now p : ℕ) (s : NgSocket) → Same s (periodic_peer so now p s)
  unfolding periodic_peer
  Same-periodic_peer now p s =
      let peer = peer_of s p in
      let relayed = Same-set_peer s p (disconnected peer) refl refl in
      Same-if (has_timed_out now peer) (Same-set_peer s p (session_dropped peer) refl refl) (
        Same-if (not (is_active now peer)) relayed (
          Same-trans (Same-if (has_fallen_back now peer) relayed (Same-refl s))
            (Same-attempt_reestablish now p _)))

  pub Same-change_peer_target_addresses :
      (now p : ℕ) (list : List InetAddress) (s : NgSocket)
      → Same s (change_peer_target_addresses so now p list s)
  unfolding change_peer_target_addresses
  Same-change_peer_target_addresses now p list s =
      Same-if _ (Same-trans (Same-set_peer s p _ refl refl) (Same-attempt_reestablish now p _))
        (Same-refl s)
