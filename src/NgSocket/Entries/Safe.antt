-- ===== src/NgSocket/Entries/Safe.antt =====
-- Every entry keeps the invariant, so it holds after any history.
use husarnet.Common.{
  ℕ, ◌+◌, ◌≡◌, refl, Bool, true, false, not, ◌||◌, ◌&&◌, Option, none, some, List, [], ◌∷◌, Bytes,
  arith, length, ltb, if◌then◌else◌, same_bytes, ◌==◌, substr,
}
use husarnet.IpAddress.{IpAddress, InetAddress, same_inet, is_link_local, is_private_v4}
use husarnet.Crypto.{Sodium, Identity}
use husarnet.ConfigManager.{ConfigManager}
use husarnet.PeerContainer.{get_peer, get_or_create_peer, new_container, find}
use husarnet.NgSocket.Addresses.{contains_inet, lookup}
use husarnet.NgSocket.Messages.{
  PeerToPeerMessage, PeerToPeerMessageKind, BaseToPeerMessage, BaseToPeerMessageKind,
}
use husarnet.NgSocket.Parse.{parse_base_to_peer_message, parse_peer_to_peer_message}
use husarnet.NgSocket.State.{
  NgSocket, Env, Job, refresh_timeout, nat_init_timeout, to_upper_layer, refresh_job, greeting_job,
  aborted, peer_of, with_container, new_socket,
}
use husarnet.NgSocket.Sources.{find_peer_by_source_address}
use husarnet.NgSocket.Peers.{
  hello_received, hello_reply_received, peer_data_packet_received, peer_message_received,
  on_upper_layer_data, establish,
}
use husarnet.NgSocket.Base.{device_addresses_received, hello_from_base, base_message_received_tcp}
use husarnet.NgSocket.Worker.{
  worker_step, refresh_if_due, nat_init_if_due, patience, reconnect_if_due, periodic_timers,
  periodic, peer_packet_received, udp_packet_received, tcp_packet_received, announced_at,
  multicast_packet_received, reload_local_addresses,
}
use husarnet.NgSocket.Frame.{
  Inv, Same, Same-trans, Same-Inv, Same-emit, Same-set_peer, Same-send_to_peer,
}
use husarnet.NgSocket.Frame.Handlers.{
  Same-attempt_reestablish, Same-send_data_to_peer, Same-note_link_local,
  Same-change_peer_target_addresses,
}
use husarnet.NgSocket.Frame.BaseHandlers.{
  Same-fields, Same-state_received, Same-connection_failed, Same-send_local_addresses_to_base,
  Same-send_nat_init_to_base, Same-resend_info_requests, Same-connect_to_base,
  Same-base_message_received_udp, Same-refresh,
}
use husarnet.NgSocket.Entries.{
  Entry, from_upper_layer, timer, worker, udp_packet, tcp_packet, connection_lost, announcement,
  enter, run,
}
use husarnet.NgSocket.Entries.Pointers.{
  get_peer-Located, get_or_create_peer-Located, add_source_address-Inv, push_job-Inv,
  request_refresh-Inv, pop_job-Inv,
}

Inv-if : (b : Bool) {x y : NgSocket} → Inv x → Inv y → Inv (if b then x else y)
Inv-if true p q = p
Inv-if false p q = q

Inv-elim {ℓ} :
    {A : Type ℓ} (o : Option A) {x : NgSocket} {f : A → NgSocket}
    → Inv x
    → ((a : A) → o ≡ some a → Inv (f a))
    → Inv (elim o [ none ↦ x | some a ↦ f a ])
Inv-elim none p q = p
Inv-elim (some a) p q = q a refl

module _ (so : Sodium) (env : Env) where
  hello_received-Inv :
      (now : ℕ) (source : InetAddress) (msg : PeerToPeerMessage) (s : NgSocket)
      → Inv s
      → Inv (hello_received so env now source msg s)
  unfolding hello_received
  hello_received-Inv now source msg s v =
      let at = get_or_create_peer-Located so s msg.my_id v in
      Inv-if (not (same_bytes msg.your_id s.identity.device_id)) v (
        Inv-elim (get_or_create_peer so s.container msg.my_id).1 at.valid λ p e.
          Same-Inv
            (Same-trans (Same-note_link_local so now p source _) (Same-send_to_peer so source _ _))
            (add_source_address-Inv env p source _ (at.live p e) at.valid))

  peer_data_packet_received-Inv :
      (source : InetAddress) (packet : Bytes) (s : NgSocket)
      → Inv s
      → Inv (peer_data_packet_received source packet s)
  unfolding peer_data_packet_received
  peer_data_packet_received-Inv source packet s v =
      Inv-elim (find_peer_by_source_address s source) v
        λ p e. Same-Inv (Same-emit (to_upper_layer (peer_of s p).id packet) s) v

  hello_reply_received-Inv :
      (source : InetAddress) (msg : PeerToPeerMessage) (s : NgSocket)
      → Inv s
      → Inv (hello_reply_received source msg s)
  unfolding hello_reply_received
  hello_reply_received-Inv source msg s v =
      let at = get_peer-Located s msg.my_id v in
      let found = with_container s (get_peer s.container msg.my_id).0 in
      Inv-if (not (same_bytes msg.your_id s.identity.device_id)) v (
        Inv-elim (get_peer s.container msg.my_id).1 at.valid λ p e.
          Inv-if (not (peer_of found p).reestablishing) at.valid (
            Inv-if (not (same_bytes (peer_of found p).hello_cookie msg.hello_cookie)) at.valid (
              Same-Inv
                (Same-set_peer found p (establish source (peer_of found p))
                  (unfold establish in refl) (unfold establish in refl))
                at.valid)))

  message_by_kind :
      (now : ℕ) (source : InetAddress) (msg : PeerToPeerMessage) (kind : PeerToPeerMessageKind)
      (s : NgSocket)
      → Inv s
      → Inv (peer_message_received so env now source (record msg { kind = kind }) s)
  unfolding peer_message_received
  message_by_kind now source msg PeerToPeerMessageKind.data_message s v =
      peer_data_packet_received-Inv source msg.payload s v
  message_by_kind now source msg PeerToPeerMessageKind.hello s v =
      hello_received-Inv now source _ s v
  message_by_kind now source msg PeerToPeerMessageKind.hello_reply s v =
      hello_reply_received-Inv source _ s v
  message_by_kind now source msg PeerToPeerMessageKind.invalid s v = v

  peer_message_received-Inv :
      (now : ℕ) (source : InetAddress) (msg : PeerToPeerMessage) (s : NgSocket)
      → Inv s
      → Inv (peer_message_received so env now source msg s)
  peer_message_received-Inv now source msg s v = message_by_kind now source msg msg.kind s v

  on_upper_layer_data-Inv :
      (now : ℕ) (id : IpAddress) (packet : Bytes) (s : NgSocket)
      → Inv s
      → Inv (on_upper_layer_data so now id packet s)
  unfolding on_upper_layer_data
  on_upper_layer_data-Inv now id packet s v =
      let at = get_or_create_peer-Located so s id v in
      Inv-elim (get_or_create_peer so s.container id).1 at.valid
        λ p e. Same-Inv (Same-send_data_to_peer so now p packet _) at.valid

  device_addresses_received-Inv :
      (now : ℕ) (msg : BaseToPeerMessage) (s : NgSocket)
      → Inv s
      → Inv (device_addresses_received so now msg s)
  unfolding device_addresses_received
  device_addresses_received-Inv now msg s v =
      let at = get_peer-Located s msg.device_id v in
      Inv-elim (get_peer s.container msg.device_id).1 at.valid
        λ p e. Same-Inv (Same-change_peer_target_addresses so now p msg.addresses _) at.valid

  hello_from_base-Inv :
      (now : ℕ) (msg : BaseToPeerMessage) (s : NgSocket)
      → Inv s
      → Inv (hello_from_base so now msg s)
  unfolding hello_from_base
  hello_from_base-Inv now msg s v = request_refresh-Inv _ (
      Same-Inv
        (Same-trans (Same-fields s (record s { cookie = msg.cookie }) refl refl refl refl) (
          Same-trans (Same-resend_info_requests so now _ _)
            (Same-send_local_addresses_to_base so _)))
        v)

  base_by_kind :
      (now : ℕ) (msg : BaseToPeerMessage) (kind : BaseToPeerMessageKind) (s : NgSocket)
      → Inv s
      → Inv (base_message_received_tcp so env now (record msg { kind = kind }) s)
  unfolding base_message_received_tcp
  base_by_kind now msg BaseToPeerMessageKind.data_message s v =
      Same-Inv (Same-trans (Same-fields s _ refl refl refl refl) (Same-emit _ _)) v
  base_by_kind now msg BaseToPeerMessageKind.hello s v =
      hello_from_base-Inv now _ _ (Same-Inv (Same-fields s _ refl refl refl refl) v)
  base_by_kind now msg BaseToPeerMessageKind.device_addresses s v =
      device_addresses_received-Inv now _ _ (Same-Inv (Same-fields s _ refl refl refl refl) v)
  base_by_kind now msg BaseToPeerMessageKind.state s v =
      Same-Inv (Same-trans (Same-fields s _ refl refl refl refl) (Same-state_received _ _)) v
  base_by_kind now msg BaseToPeerMessageKind.redirect s v =
      Same-Inv
        (Same-trans (Same-fields s _ refl refl refl refl) (Same-connect_to_base so env now _)) v
  base_by_kind now msg BaseToPeerMessageKind.nat_ok s v =
      Same-Inv (Same-fields s _ refl refl refl refl) v
  base_by_kind now msg BaseToPeerMessageKind.invalid s v =
      Same-Inv (Same-fields s _ refl refl refl refl) v

  base_message_received_tcp-Inv :
      (now : ℕ) (msg : BaseToPeerMessage) (s : NgSocket)
      → Inv s
      → Inv (base_message_received_tcp so env now msg s)
  base_message_received_tcp-Inv now msg s v = base_by_kind now msg msg.kind s v

  worker_by_job :
      (now : ℕ) (s : NgSocket) (job : Job) (rest : List Job)
      → Inv (record s { worker_queue = job ∷ rest })
      → Inv (worker_step so env now (record s { worker_queue = job ∷ rest }))
  unfolding worker_step
  worker_by_job now s refresh_job rest v =
      Same-Inv (Same-refresh so now _)
        (pop_job-Inv (record s { worker_queue = refresh_job ∷ rest }) _ rest refl v)
  worker_by_job now s (greeting_job source packet) rest v =
      let popped =
        pop_job-Inv (record s { worker_queue = greeting_job source packet ∷ rest }) _ rest refl v in
      Inv-elim (parse_peer_to_peer_message so packet) (Same-Inv (Same-emit _ _) popped)
        λ msg e. peer_message_received-Inv now source msg _ popped

  worker_by_queue :
      (now : ℕ) (s : NgSocket) (queue : List Job)
      → Inv (record s { worker_queue = queue })
      → Inv (worker_step so env now (record s { worker_queue = queue }))
  worker_by_queue now s [] v = unfold worker_step in v
  worker_by_queue now s (job ∷ rest) v = worker_by_job now s job rest v

  worker_step-Inv : (now : ℕ) (s : NgSocket) → Inv s → Inv (worker_step so env now s)
  worker_step-Inv now s v = worker_by_queue now s s.worker_queue v

  refresh_if_due-Inv : (now : ℕ) (s : NgSocket) → Inv s → Inv (refresh_if_due so now s)
  unfolding refresh_if_due
  refresh_if_due-Inv now s v =
      Inv-if (ltb (s.last_refresh + refresh_timeout) now) (request_refresh-Inv s v) v

  nat_init_if_due-Inv : (now : ℕ) (s : NgSocket) → Inv s → Inv (nat_init_if_due so now s)
  unfolding nat_init_if_due
  nat_init_if_due-Inv now s v =
      Inv-if (not s.nat_init_confirmed && ltb (s.last_nat_init_sent + nat_init_timeout) now)
        (Same-Inv (Same-send_nat_init_to_base so now s) v) v

  reconnect_if_due-Inv : (now : ℕ) (s : NgSocket) → Inv s → Inv (reconnect_if_due so env now s)
  unfolding reconnect_if_due
  reconnect_if_due-Inv now s v =
      Inv-if (ltb (s.last_base_tcp_action + patience so s) now)
        (Same-Inv (Same-connect_to_base so env now s) v) v

  periodic_timers-Inv : (now : ℕ) (s : NgSocket) → Inv s → Inv (periodic_timers so env now s)
  unfolding periodic_timers
  periodic_timers-Inv now s v =
      reconnect_if_due-Inv now _ (nat_init_if_due-Inv now _ (refresh_if_due-Inv now s v))

  reload-Same :
      (system : List IpAddress) (s : NgSocket) → Same s (reload_local_addresses system s).0
  unfolding reload_local_addresses
  reload-Same system s = Same-fields s _ (ground arith) (ground arith) (ground arith) (ground arith)

  periodic-Inv :
      (now : ℕ) (system : List IpAddress) (s : NgSocket)
      → Inv s
      → Inv (periodic so env now system s)
  unfolding periodic
  periodic-Inv now system s v =
      let reloaded =
        Same-Inv
          (Same-trans (Same-fields s (record s { last_periodic = now }) refl refl refl refl)
            (reload-Same system _))
          v in
      let asked = request_refresh-Inv _ reloaded in
      Inv-if (ltb now (s.last_periodic + 1000)) v (
        periodic_timers-Inv now _ (
          Inv-if (reload_local_addresses system (record s { last_periodic = now })).1
            (Inv-if _ (Same-Inv (Same-connect_to_base so env now _) asked) asked) reloaded))

  peer_packet_received-Inv :
      (now : ℕ) (source : InetAddress) (packet : Bytes) (s : NgSocket)
      → Inv s
      → Inv (peer_packet_received so env now source packet s)
  unfolding peer_packet_received
  peer_packet_received-Inv now source [] s v = Same-Inv (Same-emit _ s) v
  peer_packet_received-Inv now source (first ∷ rest) s v =
      Inv-if (first == 0 || first == 1) (push_job-Inv (greeting_job source (first ∷ rest)) s v) (
        Inv-elim (parse_peer_to_peer_message so (first ∷ rest)) (Same-Inv (Same-emit aborted s) v)
          λ msg e. peer_message_received-Inv now source msg s v)

  udp_packet_received-Inv :
      (now : ℕ) (source : InetAddress) (packet : Bytes) (s : NgSocket)
      → Inv s
      → Inv (udp_packet_received so env now source packet s)
  unfolding udp_packet_received
  udp_packet_received-Inv now source packet s v =
      Inv-if (same_inet source s.base_udp_address)
        (Inv-elim (parse_base_to_peer_message packet) (Same-Inv (Same-emit aborted s) v)
          λ msg e. Same-Inv (Same-base_message_received_udp so now msg s) v)
        (peer_packet_received-Inv now source packet s v)

  tcp_packet_received-Inv :
      (now : ℕ) (packet : Bytes) (s : NgSocket)
      → Inv s
      → Inv (tcp_packet_received so env now packet s)
  unfolding tcp_packet_received
  tcp_packet_received-Inv now packet s v =
      let heard =
        Same-Inv (Same-fields s (record s { last_base_tcp_message = now }) refl refl refl refl) v in
      Inv-elim (parse_base_to_peer_message packet) (Same-Inv (Same-emit aborted _) heard)
        λ msg e. base_message_received_tcp-Inv now msg _ heard

  announced_at-Inv :
      (now : ℕ) (id : IpAddress) (source : InetAddress) (s : NgSocket)
      → Inv s
      → Inv (announced_at so now id source s)
  unfolding announced_at
  announced_at-Inv now id source s v =
      let at = get_peer-Located s id v in
      let found = with_container s (get_peer s.container id).0 in
      Inv-elim (get_peer s.container id).1 at.valid λ p e.
        Inv-if (not (same_inet (peer_of found p).link_local_address source))
          (Same-Inv
            (Same-trans
              (Same-set_peer found p (record (peer_of found p) { link_local_address = source }) refl
                refl)
              (Same-attempt_reestablish so now p _))
            at.valid)
          at.valid

  multicast_packet_received-Inv :
      (now : ℕ) (address : InetAddress) (packet : Bytes) (s : NgSocket)
      → Inv s
      → Inv (multicast_packet_received so now address packet s)
  unfolding multicast_packet_received
  multicast_packet_received-Inv now address packet s v =
      Inv-if (not (is_link_local address.ip || is_private_v4 address.ip)) v (
        Inv-if (ltb (length packet) 18) v (
          Inv-if (same_bytes (substr 2 16 packet) s.identity.device_id) v
            (announced_at-Inv now _ _ s v)))

  enter-Inv : (now : ℕ) (entry : Entry) (s : NgSocket) → Inv s → Inv (enter so env now entry s)
  unfolding enter
  enter-Inv now (from_upper_layer id packet) s v = on_upper_layer_data-Inv now id packet s v
  enter-Inv now (timer system) s v = periodic-Inv now system s v
  enter-Inv now worker s v = worker_step-Inv now s v
  enter-Inv now (udp_packet source packet) s v = udp_packet_received-Inv now source packet s v
  enter-Inv now (tcp_packet packet) s v = tcp_packet_received-Inv now packet s v
  enter-Inv now (connection_lost c) s v = Same-Inv (Same-connection_failed now c s) v
  enter-Inv now (announcement source packet) s v =
      multicast_packet_received-Inv now source packet s v

  run_keeps : (history : List (ℕ × Entry)) (s : NgSocket) → Inv s → Inv (run so env history s)
  unfolding run
  run_keeps [] s v = v
  run_keeps ((now, entry) ∷ rest) s v = run_keeps rest _ (enter-Inv now entry s v)

start-Inv :
    (config : ConfigManager) (me : Identity) (queue_size port : ℕ)
    → Inv (new_socket (new_container config me.device_id) me queue_size port)
unfolding new_container contains_inet lookup find
start-Inv config me queue_size port = record {
  source_addresses = record {
    linked = λ p a. (λ h. cc, λ h. cc);
    few = λ p. omega arith;
    unborn = λ p h. refl;
  };
  pointers = record { entries = λ id p e. cc; cache = λ p e. cc };
  bounded = omega arith;
}

-- After any history of packets, timers, jobs and sends, from the start on: an address leads to a
-- peer exactly if that peer has it as a source address; no peer has more than five of them; every
-- pointer that the container finds or caches is of a live peer with the id that it stands under; and
-- the worker's queue is within its size.
pub run-Inv :
    (so : Sodium) (env : Env) (config : ConfigManager) (me : Identity) (queue_size port : ℕ)
    (history : List (ℕ × Entry))
    → Inv (run so env history (new_socket (new_container config me.device_id) me queue_size port))
run-Inv so env config me queue_size port history =
    run_keeps so env history _ (start-Inv config me queue_size port)
