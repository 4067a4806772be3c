-- ===== src/NgSocket/Sources/Invariant.antt =====
-- Each source address belongs to exactly the peer that the map leads to, and no peer has more than
-- five.
use husarnet.Common.{
  ℕ, ◌≤◌, ◌<◌, ◌≡◌, ◌↔◌, refl, true, false, none, some, List, [], ◌∷◌, arith, length, leb,
  Option-cases, inl, inr, Bool-cases,
}
use husarnet.IpAddress.{InetAddress, no_inet_address}
use husarnet.IpAddress.Order.{same_inet_iff}
use husarnet.NgSocket.Addresses.{contains_inet, erase_inet, lookup}
use husarnet.NgSocket.Addresses.Laws.{
  same_inet_refl, contains-erase, length-erase-le, length-erase-lt, contains-get_or, lookup-store,
  lookup-remove,
}
use husarnet.NgSocket.State.{NgSocket, Env, peer_of}
use husarnet.NgSocket.Sources.{
  remove_source_address, make_room, insert_source, release_source, claim_source, add_source_address,
  victim, drawn, find_peer_by_source_address,
}

-- The addresses of the peer in each cell.
abbrev pub held : NgSocket → ℕ → List InetAddress
held s p = (peer_of s p).source_addresses

abbrev pub Linked : (ℕ → List InetAddress) → List (InetAddress × ℕ) → Type 0
Linked h m = (p : ℕ) (a : InetAddress) → (contains_inet (h p) a ≡ true) ↔ (lookup m a ≡ some p)

pub record SourcesOk (s : NgSocket) : Type 0 where
  pub linked : Linked (held s) s.peer_source_addresses
  pub few : (p : ℕ) → length (held s p) ≤ 5
  pub unborn : (p : ℕ) → s.container.fresh ≤ p → held s p ≡ []

remove_source_address-Linked :
    (p : ℕ) (a : InetAddress) (s : NgSocket)
    → contains_inet (held s p) a ≡ true
    → Linked (held s) s.peer_source_addresses
    → Linked
        (held (remove_source_address p a s))
        (remove_source_address p a s).peer_source_addresses
unfolding remove_source_address
remove_source_address-Linked p a s h l q b = (
  λ e. ground (
    arith,
    contains-erase (held s p) a b,
    lookup-remove s.peer_source_addresses a b,
    (l q b).0,
    (l p a).0,
    (same_inet_iff a b).0,
  ),
  λ e.
      ground (
        arith,
        contains-erase (held s p) a b,
        lookup-remove s.peer_source_addresses a b,
        (l q b).1,
      ),
)

remove_source_address-few :
    (p : ℕ) (a : InetAddress) (s : NgSocket)
    → ((q : ℕ) → length (held s q) ≤ 5)
    → (q : ℕ) → length (held (remove_source_address p a s) q) ≤ 5
unfolding remove_source_address
remove_source_address-few p a s few q = ground (arith, few q, length-erase-le (held s p) a, few p)

remove_source_address-unborn :
    (p : ℕ) (a : InetAddress) (s : NgSocket)
    → ((q : ℕ) → s.container.fresh ≤ q → held s q ≡ [])
    → (q : ℕ) → (remove_source_address p a s).container.fresh ≤ q
    → held (remove_source_address p a s) q ≡ []
unfolding remove_source_address erase_inet
remove_source_address-unborn p a s unborn q h = ground (arith, unborn q h, unborn p)

-- Dropping an address keeps the invariant, if the peer has that address.
remove_source_address-SourcesOk :
    (p : ℕ) (a : InetAddress) (s : NgSocket)
    → contains_inet (held s p) a ≡ true
    → SourcesOk s
    → SourcesOk (remove_source_address p a s)
remove_source_address-SourcesOk p a s h v = record {
  linked = remove_source_address-Linked p a s h v.linked;
  few = remove_source_address-few p a s v.few;
  unborn = remove_source_address-unborn p a s v.unborn;
}

-- After `make_room` the peer, which had the addresses `before`, has room, and no new address.
record HasRoom (p : ℕ) (before : List InetAddress) (fresh : ℕ) (t : NgSocket) : Type 0 where
  valid : SourcesOk t
  room : length (held t p) ≤ 4
  fewer : (a : InetAddress) → contains_inet before a ≡ false → contains_inet (held t p) a ≡ false
  same_fresh : t.container.fresh ≡ fresh

drop_one :
    (p : ℕ) (a : InetAddress) (s : NgSocket)
    → contains_inet (held s p) a ≡ true
    → SourcesOk s
    → HasRoom p (held s p) s.container.fresh (remove_source_address p a s)
unfolding remove_source_address
drop_one p a s h v = record {
  valid = remove_source_address-SourcesOk p a s h v;
  room = ground (arith, length-erase-lt (held s p) a, v.few p);
  fewer = λ b e. ground (arith, contains-erase (held s p) a b);
  same_fresh = refl;
}

-- A draw changes nothing that the invariant speaks of.
drawn-SourcesOk : (s : NgSocket) → SourcesOk s → SourcesOk (drawn s)
drawn-SourcesOk s v = record { linked = v.linked; few = v.few; unborn = v.unborn }

victim-contains :
    (env : Env) (p : ℕ) (s : NgSocket)
    → 5 ≤ length (held s p)
    → contains_inet (held s p) (victim env p s) ≡ true
victim-contains env p s h = contains-get_or (held s p) _ no_inet_address (grind arith)

make_room-HasRoom :
    (env : Env) (p : ℕ) (s : NgSocket)
    → SourcesOk s
    → HasRoom p (held s p) s.container.fresh (make_room env p s)
unfolding make_room
make_room-HasRoom env p s v = elim (Bool-cases (leb 5 (length (held s p)))) [
  | inl full ↦ rw full (
      drop_one p (victim env p s) (drawn s) (victim-contains env p s (ground arith))
        (drawn-SourcesOk s v))
  | inr free ↦
      rw free (record { valid = v; room = ground arith; fewer = λ a e. e; same_fresh = refl })
]

-- The address goes to the peer, and from the one that had it.
abbrev assigned : ℕ → InetAddress → NgSocket → NgSocket
assigned p a t = claim_source p a (release_source a (insert_source p a t))

module _ (p : ℕ) (a : InetAddress) (t : NgSocket) (v : SourcesOk t)
    (new : contains_inet (held t p) a ≡ false) where
  assigned-Linked_free :
      lookup t.peer_source_addresses a ≡ none
      → Linked (held (assigned p a t)) (assigned p a t).peer_source_addresses
  unfolding claim_source release_source insert_source contains_inet
  assigned-Linked_free e q b = (
    λ h. ground (
      arith,
      e,
      lookup-store t.peer_source_addresses a b p,
      v.linked q b,
      v.linked q a,
      same_inet_iff a b,
    ),
    λ h. ground (
      arith,
      e,
      lookup-store t.peer_source_addresses a b p,
      v.linked q b,
      v.linked q a,
      same_inet_iff a b,
    ),
  )

  assigned-Linked_taken :
      (last : ℕ)
      → lookup t.peer_source_addresses a ≡ some last
      → Linked (held (assigned p a t)) (assigned p a t).peer_source_addresses
  unfolding claim_source release_source insert_source contains_inet
  assigned-Linked_taken last e q b = (
    λ h. ground (
      arith,
      lookup-store t.peer_source_addresses a b p,
      contains-erase (held t last) a b,
      v.linked q b,
      v.linked q a,
      v.linked p a,
      same_inet_iff a b,
    ),
    λ h. ground (
      arith,
      lookup-store t.peer_source_addresses a b p,
      contains-erase (held t last) a b,
      v.linked q b,
      v.linked q a,
      v.linked p a,
      same_inet_iff a b,
    ),
  )

  assigned-few : length (held t p) ≤ 4 → (q : ℕ) → length (held (assigned p a t) q) ≤ 5
  unfolding claim_source release_source insert_source erase_inet
  assigned-few room q = elim (Option-cases (lookup t.peer_source_addresses a)) [
    | inl e ↦ ground (arith, e, v.few q, room)
    | inr (last, e) ↦ ground (
      arith,
      e,
      v.few q,
      v.few last,
      room,
      length-erase-le (held t last) a,
      length-erase-le (a ∷ held t p) a,
    )
  ]

  assigned-unborn :
      p < t.container.fresh
      → (q : ℕ) → (assigned p a t).container.fresh ≤ q
      → held (assigned p a t) q ≡ []
  unfolding claim_source release_source insert_source erase_inet
  assigned-unborn live q h = elim (Option-cases (lookup t.peer_source_addresses a)) [
    | inl e ↦ ground (arith, e, v.unborn q, live)
    | inr (last, e) ↦ ground (arith, e, v.unborn q, v.unborn last, live)
  ]

  assigned-SourcesOk : length (held t p) ≤ 4 → p < t.container.fresh → SourcesOk (assigned p a t)
  assigned-SourcesOk room live = record {
    linked = elim (Option-cases (lookup t.peer_source_addresses a)) [
      | inl e ↦ assigned-Linked_free e
      | inr (last, e) ↦ assigned-Linked_taken last e
    ];
    few = assigned-few room;
    unborn = assigned-unborn live;
  }

-- Adding a source address to an existing peer keeps the invariant: the map leads from an address to
-- the one peer that has it, and to no other, and no peer has more than five.
pub add_source_address-SourcesOk :
    (env : Env) (p : ℕ) (a : InetAddress) (s : NgSocket)
    → p < s.container.fresh
    → SourcesOk s
    → SourcesOk (add_source_address env p a s)
unfolding add_source_address
add_source_address-SourcesOk env p a s live v = elim (Bool-cases (contains_inet (held s p) a)) [
  | inl known ↦ rw known v
  | inr new ↦
      let r = make_room-HasRoom env p s v in
      rw new (
        assigned-SourcesOk p a (make_room env p s) r.valid (r.fewer a new) r.room
          (omega (arith, r.same_fresh)))
]

assigned-found :
    (p : ℕ) (a : InetAddress) (t : NgSocket)
    → lookup (assigned p a t).peer_source_addresses a ≡ some p
unfolding claim_source
assigned-found p a t = rw (lookup-store, same_inet_refl a)

-- An address that was added leads to its peer.
pub find-add_source_address :
    (env : Env) (p : ℕ) (a : InetAddress) (s : NgSocket)
    → SourcesOk s
    → find_peer_by_source_address (add_source_address env p a s) a ≡ some p
unfolding add_source_address find_peer_by_source_address
find-add_source_address env p a s v = elim (Bool-cases (contains_inet (held s p) a)) [
  | inl known ↦ rw known ((v.linked p a).0 known)
  | inr new ↦ rw new (assigned-found p a (make_room env p s))
]
