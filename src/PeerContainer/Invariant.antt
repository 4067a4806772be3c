-- ===== src/PeerContainer/Invariant.antt =====
-- The container's pointers are of live peers with the right id, and when a peer is found, created
-- or refused.
use native.Mathlib.Nat.{le_trans}
use husarnet.Common.{
  ℕ, ◌+◌, ◌≤◌, ◌<◌, ◌≡◌, ◌≢◌, ◌⊎◌, refl, ap, ◌∙◌, true, false, Option, none, some, List, [], ◌∷◌,
  arith, Bytes, if◌then◌else◌, same_bytes, same_bytes_iff, same_bytes_refl, Option-cases, inl, inr,
}
use husarnet.IpAddress.{IpAddress}
use husarnet.ConfigManager.{ConfigManager, is_peer_allowed}
use husarnet.Crypto.{Sodium}
use husarnet.PeerContainer.{PeerContainer, find, assign, get_peer, create_peer, get_or_create_peer}

pub record ContainerOk (c : PeerContainer) : Type 0 where
  pub entries :
      (id : IpAddress) (p : ℕ) → find c.peers id ≡ some p → (p < c.fresh) × ((c.heap p).id ≡ id)
  pub cache : (p : ℕ) → c.cached_peer ≡ some p → (p < c.fresh) × ((c.heap p).id ≡ c.cached_peer_id)

same_bytes_left : (a b c : Bytes) → same_bytes a b ≡ true → same_bytes a c ≡ same_bytes b c
same_bytes_left a b c h = ap (λ x. same_bytes x c) ((same_bytes_iff a b).0 h)

same_bytes_right : (a b c : Bytes) → same_bytes a b ≡ true → same_bytes c a ≡ same_bytes c b
same_bytes_right a b c h = ap (same_bytes c) ((same_bytes_iff a b).0 h)

pub find-assign :
    (m : List (IpAddress × ℕ)) (a b : IpAddress) (p : ℕ)
    → find (assign m a p) b ≡ (if same_bytes a b then some p else find m b)
unfolding find assign
find-assign [] a b p = refl
find-assign ((key, q) ∷ rest) a b p =
    ground (arith, find-assign rest a b p, same_bytes_right a b key, same_bytes_left key a b)

-- A lookup changes the cache only, and what it finds is a live peer of that id.
pub record Found (c : PeerContainer) (id : IpAddress) (found : PeerContainer × Option ℕ)
    : Type 0 where
  pub valid : ContainerOk found.0
  pub live : (p : ℕ) → found.1 ≡ some p → (p < found.0.fresh) × ((found.0.heap p).id ≡ id)
  pub grows : c.fresh ≤ found.0.fresh

pub get_peer-Found :
    (c : PeerContainer) (id : IpAddress) → ContainerOk c → Found c id (get_peer c id)
unfolding get_peer
get_peer-Found c id v = record {
  valid = record {
    entries = λ id' p. ground (arith, v.entries id' p);
    cache = λ p e. ground (arith, v.entries id p, v.cache p);
  };
  live = λ p e. ground (arith, v.entries id p, v.cache p, same_bytes_iff c.cached_peer_id id);
  grows = ground arith;
}

module _ (so : Sodium) where
  create_peer-Found :
      (c : PeerContainer) (id : IpAddress) → ContainerOk c → Found c id (create_peer so c id)
  unfolding create_peer
  create_peer-Found c id v = record {
    valid = record {
      entries = λ id' p e.
          ground
            (arith, v.entries id' p, find-assign c.peers id id' c.fresh, same_bytes_iff id id');
      cache = λ p e. ground (arith, v.cache p);
    };
    live = λ p e. ground arith;
    grows = ground arith;
  }

  -- The container stays valid, and the pointer, if there is one, is of a live peer with the id that
  -- was asked for.
  pub get_or_create_peer-Found :
      (c : PeerContainer) (id : IpAddress) → ContainerOk c → Found c id (get_or_create_peer so c id)
  unfolding get_or_create_peer
  get_or_create_peer-Found c id v = elim (Option-cases (get_peer c id).1) [
    | inl e ↦
        let f = get_peer-Found c id v in
        let g = create_peer-Found (get_peer c id).0 id f.valid in
        rw (e, get_or_create_peer)
          (record { valid = g.valid; live = g.live; grows = le_trans f.grows g.grows })
    | inr (p, e) ↦
        let f = get_peer-Found c id v in
        rw (e, get_or_create_peer)
          (record { valid = f.valid; live = λ q h. f.live q (e ∙ h); grows = f.grows })
  ]

  -- Asking again for a peer that was found or created gives the same pointer. It excludes the
  -- device's own id, and the id 3fff:: of the empty cache.
  pub get_or_create_peer_stable :
      (c : PeerContainer) (id : IpAddress) (p : ℕ)
      → id ≢ c.own_id
      → (c.cached_peer_id ≡ id → c.cached_peer ≢ none)
      → (get_or_create_peer so c id).1 ≡ some p
      → (get_or_create_peer so (get_or_create_peer so c id).0 id).1 ≡ some p
  unfolding get_or_create_peer get_peer create_peer
  get_or_create_peer_stable c id p own filled h = ground (
    arith,
    same_bytes_iff id c.own_id,
    same_bytes_iff c.cached_peer_id id,
    same_bytes_refl id,
    find-assign c.peers id id c.fresh,
  )

  -- The device's own id is never found, so each request for it makes one more peer, if the
  -- configuration allows the id.
  pub get_or_create_peer_self :
      (c : PeerContainer)
      → c.cached_peer_id ≢ c.own_id
      → is_peer_allowed c.config c.own_id ≡ true
      → let again = get_or_create_peer so c c.own_id in
        (again.1 ≡ some c.fresh)
        × (again.0.fresh ≡ c.fresh + 1)
        × (again.0.cached_peer_id ≡ c.cached_peer_id)
  unfolding get_or_create_peer get_peer create_peer
  get_or_create_peer_self c cold allowed =
      ground (arith, same_bytes_iff c.cached_peer_id c.own_id, same_bytes_refl c.own_id)

-- A peer is handed out only if the configuration allows it, or if it is the last one handed out.
pub get_peer_allowed :
    (c : PeerContainer) (id : IpAddress) (p : ℕ)
    → (get_peer c id).1 ≡ some p
    → (is_peer_allowed c.config id ≡ true) ⊎ ((c.cached_peer_id ≡ id) × (c.cached_peer ≡ some p))
unfolding get_peer
get_peer_allowed c id p h = ground (arith, same_bytes_iff c.cached_peer_id id)

-- The peer that was found last is handed out again after the configuration has stopped allowing it.
pub get_peer_stale :
    (c : PeerContainer) (id : IpAddress) (p : ℕ) (config : ConfigManager)
    → (get_peer c id).1 ≡ some p
    → is_peer_allowed config id ≡ false
    → (get_peer (record (get_peer c id).0 { config = config }) id).1 ≡ some p
unfolding get_peer
get_peer_stale c id p config found refused =
    ground (arith, same_bytes_iff c.cached_peer_id id, same_bytes_refl id)
