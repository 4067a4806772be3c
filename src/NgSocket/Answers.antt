-- ===== src/NgSocket/Answers.antt =====
-- helloReplyReceived of ngsocket.cpp: which answers change a peer.
use husarnet.Common.{
  ℕ, ◌≡◌, ◌⊎◌, refl, true, some, arith, Bool-cases, Option-cases, inl, inr, same_bytes,
  same_bytes_iff, ◌==◌, ap, sym, subst, ◌∙◌,
}
use husarnet.IpAddress.{IpAddress, InetAddress}
use husarnet.Peer.{Peer}
use husarnet.PeerContainer.{PeerContainer, get_peer}
use husarnet.NgSocket.Messages.{PeerToPeerMessage}
use husarnet.NgSocket.State.{NgSocket, peer_of, set_peer, with_container}
use husarnet.NgSocket.Peers.{establish, hello_reply_received}

-- An answer for this device to the greeting that it sent to the peer in cell `p`.
pub record Answers (msg : PeerToPeerMessage) (s : NgSocket) (p : ℕ) : Type 0 where
  pub addressed : msg.your_id ≡ s.identity.device_id
  pub known : (get_peer s.container msg.my_id).1 ≡ some p
  pub asked : (peer_of s p).reestablishing ≡ true
  pub cookie : msg.hello_cookie ≡ (peer_of s p).hello_cookie

get_peer_heap : (c : PeerContainer) (id : IpAddress) → (get_peer c id).0.heap ≡ c.heap
unfolding get_peer
get_peer_heap c id = ground arith

-- One cell after a write to a cell, which may be it.
written :
    (s : NgSocket) (p q : ℕ) (peer : Peer)
    → (peer_of (set_peer s p peer) q ≡ peer_of s q)
      ⊎ ((p ≡ q) × (peer_of (set_peer s p peer) q ≡ peer))
written s p q peer = elim (Bool-cases (p == q)) [
  | inl e ↦ inr (ground arith, ground arith)
  | inr e ↦ inl (ground arith)
]

-- An answer changes no peer, unless it is for this device and carries the cookie of the last greeting
-- to its sender, which is still waiting for it: then that peer is connected at the source of the
-- answer.
pub hello_reply_received-Answers :
    (source : InetAddress) (msg : PeerToPeerMessage) (s : NgSocket) (q : ℕ)
    → (peer_of (hello_reply_received source msg s) q ≡ peer_of s q)
      ⊎ (Answers msg s q
          × (peer_of (hello_reply_received source msg s) q ≡ establish source (peer_of s q)))
unfolding hello_reply_received
hello_reply_received-Answers source msg s q =
    let found = with_container s (get_peer s.container msg.my_id).0 in
    let same : (p : ℕ) → peer_of found p ≡ peer_of s p =
      λ p. ap (λ heap. heap p) (get_peer_heap s.container msg.my_id) in
    elim (Bool-cases (same_bytes msg.your_id s.identity.device_id)) [
      | inr e ↦ inl (rw (e, hello_reply_received) refl)
      | inl e ↦ elim (Option-cases (get_peer s.container msg.my_id).1) [
        | inl n ↦ inl (rw (e, hello_reply_received, n) (same q))
        | inr (p, f) ↦ elim (Bool-cases (peer_of found p).reestablishing) [
          | inr r ↦ inl (rw (e, hello_reply_received, f, r) (same q))
          | inl r ↦ elim (Bool-cases (same_bytes (peer_of found p).hello_cookie msg.hello_cookie)) [
            | inr c ↦ inl (rw (e, hello_reply_received, f, r, c) (same q))
            | inl c ↦ elim (written found p q (establish source (peer_of found p))) [
              | inl k ↦ inl (rw (e, hello_reply_received, f, r, c) (k ∙ same q))
              | inr (pq, k) ↦ inr (
                record {
                  addressed = (same_bytes_iff msg.your_id s.identity.device_id).0 e;
                  known = f ∙ ap some pq;
                  asked =
                      subst (λ n. (peer_of s n).reestablishing ≡ true) pq
                        (ap (λ (peer : Peer). peer.reestablishing) (sym (same p)) ∙ r);
                  cookie =
                      subst (λ n. msg.hello_cookie ≡ (peer_of s n).hello_cookie) pq
                        (sym ((same_bytes_iff (peer_of found p).hello_cookie msg.hello_cookie).0 c)
                          ∙ ap (λ (peer : Peer). peer.hello_cookie) (same p));
                },
                rw (e, hello_reply_received, f, r, c)
                    (k ∙ ap (establish source) (same p ∙ ap (peer_of s) pq)),
              )
            ]
          ]
        ]
      ]
    ]
