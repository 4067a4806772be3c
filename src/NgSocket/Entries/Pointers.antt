-- ===== src/NgSocket/Entries/Pointers.antt =====
-- The parts of the handlers outside the frame: a peer is looked up or created, an address is added,
-- a job is queued.
use husarnet.Common.{
  ℕ, ◌≤◌, ◌<◌, ◌≡◌, ap, ◌∙◌, Option, some, List, [], ◌∷◌, ◌++◌, arith, length, length-append, ltb,
  if◌then◌else◌, Bool-cases, Option-cases, inl, inr,
}
use husarnet.IpAddress.{IpAddress, InetAddress}
use husarnet.Crypto.{Sodium}
use husarnet.PeerContainer.{PeerContainer, get_peer, create_peer, get_or_create_peer}
use husarnet.PeerContainer.Invariant.{ContainerOk, get_peer-Found, get_or_create_peer-Found}
use husarnet.NgSocket.State.{NgSocket, Env, Job, peer_of, with_container}
use husarnet.NgSocket.Sources.{
  add_source_address, make_room, remove_source_address, insert_source, release_source, claim_source,
}
use husarnet.NgSocket.Sources.Invariant.{add_source_address-SourcesOk}
use husarnet.NgSocket.Base.{request_refresh}
use husarnet.NgSocket.Frame.{Inv}

-- A container in which the peers have the same addresses as before, and that no unborn peer has any.
record SameAddresses (c d : PeerContainer) : Type 0 where
  addresses : (p : ℕ) → (d.heap p).source_addresses ≡ (c.heap p).source_addresses
  grows : c.fresh ≤ d.fresh

get_peer-SameAddresses : (c : PeerContainer) (id : IpAddress) → SameAddresses c (get_peer c id).0
unfolding get_peer
get_peer-SameAddresses c id = record { addresses = λ p. ground arith; grows = ground arith }

create_peer-SameAddresses :
    (so : Sodium) (c : PeerContainer) (id : IpAddress)
    → (c.heap c.fresh).source_addresses ≡ []
    → SameAddresses c (create_peer so c id).0
unfolding create_peer
create_peer-SameAddresses so c id h = record { addresses = λ p. ground arith; grows = ground arith }

get_peer_fresh : (c : PeerContainer) (id : IpAddress) → (get_peer c id).0.fresh ≡ c.fresh
unfolding get_peer
get_peer_fresh c id = ground arith

get_or_create_peer-SameAddresses :
    (so : Sodium) (c : PeerContainer) (id : IpAddress)
    → (c.heap c.fresh).source_addresses ≡ []
    → SameAddresses c (get_or_create_peer so c id).0
unfolding get_or_create_peer
get_or_create_peer-SameAddresses so c id h = elim (Option-cases (get_peer c id).1) [
  | inl e ↦
      let f = get_peer-SameAddresses c id in
      let none_yet : ((get_peer c id).0.heap (get_peer c id).0.fresh).source_addresses ≡ [] =
        f.addresses _ ∙ ap (λ n. (c.heap n).source_addresses) (get_peer_fresh c id) ∙ h in
      let g = create_peer-SameAddresses so (get_peer c id).0 id none_yet in
      rw (e, get_or_create_peer)
        (record {
          addresses = λ p. g.addresses p ∙ f.addresses p;
          grows = omega (arith, f.grows, g.grows);
        })
  | inr (p, e) ↦ rw (e, get_or_create_peer) (get_peer-SameAddresses c id)
]

container-Inv :
    (s : NgSocket) (c : PeerContainer)
    → Inv s
    → ContainerOk c
    → SameAddresses s.container c
    → Inv (with_container s c)
container-Inv s c v ok k = record {
  source_addresses = record {
    linked = λ p a. (
      λ h. ground (arith, v.source_addresses.linked p a, k.addresses p),
      λ h. ground (arith, v.source_addresses.linked p a, k.addresses p),
    );
    few = λ p. ground (arith, v.source_addresses.few p, k.addresses p);
    unborn = λ p h. ground (arith, v.source_addresses.unborn p, k.addresses p, k.grows);
  };
  pointers = ok;
  bounded = v.bounded;
}

-- A state and the pointer to a live peer in it.
pub record Located (s : NgSocket) (peer : Option ℕ) : Type 0 where
  pub valid : Inv s
  pub live : (p : ℕ) → peer ≡ some p → p < s.container.fresh

pub get_peer-Located :
    (s : NgSocket) (id : IpAddress)
    → Inv s
    → Located (with_container s (get_peer s.container id).0) (get_peer s.container id).1
get_peer-Located s id v =
    let f = get_peer-Found s.container id v.pointers in
    record {
      valid = container-Inv s _ v f.valid (get_peer-SameAddresses s.container id);
      live = λ p e. (f.live p e).0;
    }

pub get_or_create_peer-Located :
    (so : Sodium) (s : NgSocket) (id : IpAddress)
    → Inv s
    → Located
        (with_container s (get_or_create_peer so s.container id).0)
        (get_or_create_peer so s.container id).1
get_or_create_peer-Located so s id v =
    let f = get_or_create_peer-Found so s.container id v.pointers in
    let none_yet = v.source_addresses.unborn s.container.fresh (omega arith) in
    record {
      valid =
          container-Inv s _ v f.valid (get_or_create_peer-SameAddresses so s.container id none_yet);
      live = λ p e. (f.live p e).0;
    }

-- What an added source address leaves alone.
record SamePointers (s t : NgSocket) : Type 0 where
  queue : t.worker_queue ≡ s.worker_queue
  limit : t.worker_queue_size ≡ s.worker_queue_size
  fresh : t.container.fresh ≡ s.container.fresh
  peers : t.container.peers ≡ s.container.peers
  cached_peer : t.container.cached_peer ≡ s.container.cached_peer
  cached_peer_id : t.container.cached_peer_id ≡ s.container.cached_peer_id
  ids : (p : ℕ) → (peer_of t p).id ≡ (peer_of s p).id

add_source_address-SamePointers :
    (env : Env) (p : ℕ) (a : InetAddress) (s : NgSocket)
    → SamePointers s (add_source_address env p a s)
unfolding add_source_address make_room remove_source_address insert_source release_source
    claim_source
add_source_address-SamePointers env p a s = record {
  queue = ground arith;
  limit = ground arith;
  fresh = ground arith;
  peers = ground arith;
  cached_peer = ground arith;
  cached_peer_id = ground arith;
  ids = λ q. ground arith;
}

pub add_source_address-Inv :
    (env : Env) (p : ℕ) (a : InetAddress) (s : NgSocket)
    → p < s.container.fresh
    → Inv s
    → Inv (add_source_address env p a s)
add_source_address-Inv env p a s live v =
    let k = add_source_address-SamePointers env p a s in
    record {
      source_addresses = add_source_address-SourcesOk env p a s live v.source_addresses;
      pointers = record {
        entries = λ id q e. ground (arith, v.pointers.entries id q, k.ids q, k.fresh, k.peers);
        cache = λ q e.
            ground (arith, v.pointers.cache q, k.ids q, k.fresh, k.cached_peer, k.cached_peer_id);
      };
      bounded = ground (arith, k.queue, k.limit, v.bounded);
    }

-- A job is queued only where there is room.
pub push_job-Inv :
    (job : Job) (s : NgSocket)
    → Inv s
    → Inv (
        if ltb (length s.worker_queue) s.worker_queue_size
        then record s { worker_queue = s.worker_queue ++ (job ∷ []) }
        else s)
push_job-Inv job s v = elim (Bool-cases (ltb (length s.worker_queue) s.worker_queue_size)) [
  | inl room ↦ rw room (record {
    source_addresses = record {
      linked = v.source_addresses.linked;
      few = v.source_addresses.few;
      unborn = v.source_addresses.unborn;
    };
    pointers = v.pointers;
    bounded = ground (arith, length-append s.worker_queue (job ∷ []));
  })
  | inr full ↦ rw full v
]

pub request_refresh-Inv : (s : NgSocket) → Inv s → Inv (request_refresh s)
unfolding request_refresh
request_refresh-Inv s v = push_job-Inv _ s v

pub pop_job-Inv :
    (s : NgSocket) (job : Job) (rest : List Job)
    → s.worker_queue ≡ job ∷ rest
    → Inv s
    → Inv (record s { worker_queue = rest })
pop_job-Inv s job rest e v = record {
  source_addresses = record {
    linked = v.source_addresses.linked;
    few = v.source_addresses.few;
    unborn = v.source_addresses.unborn;
  };
  pointers = v.pointers;
  bounded = omega (arith, ap length e, v.bounded);
}
