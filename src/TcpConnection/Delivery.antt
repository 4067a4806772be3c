-- ===== src/TcpConnection/Delivery.antt =====
-- Packets that one end writes are delivered at the other.
use husarnet.Common.{
  ℕ, zero, suc, ◌-◌, ◌≤◌, ◌<◌, ◌≡◌, ◌≢◌, refl, sym, ap, ◌∙◌, subst, List, [], ◌∷◌, ◌++◌, arith,
  Bytes, All, length, length-append, append_assoc, append-nil, true, false, Bool, inl, inr, Option,
  some, none, ◌>>=◌, take_all,
}
use husarnet.TcpConnection.{
  would_block, recv_failed, Socket, StreamLaws, TcpConnection, framed_tls_masked, handle_read,
  write_string, on_wire,
}
use husarnet.TcpConnection.Frames.{IsPacket, LessThanNext, stream, frame, length-frame}
use husarnet.TcpConnection.Reading.{
  OnStream, Delivers, Delivers-after, Stopped, handle_read-Delivers,
}
use husarnet.TcpConnection.Writing.{Sent, write_string-Sent}

-- An open connection that frames its packets.
abbrev pub IsSender : TcpConnection → Type 0
IsSender conn = (conn.is_open ≡ true) × (conn.encapsulation ≡ framed_tls_masked)

module _ {W : Type 0} (io : Socket W) where
  -- What follows a write that went well.
  abbrev pub then_write : Option (Bool × W) → W → (W → Bool × W) → Bool × W
  then_write none w rest = (false, w)
  then_write (some (true, next)) w rest = rest next
  then_write (some (false, next)) w rest = (false, next)

  -- Packets written one after the other, until one fails.
  abbrev pub write_all : TcpConnection → List Bytes → W → Bool × W
  write_all conn [] w = (true, w)
  write_all conn (p ∷ ps) w =
      then_write (write_string io conn p w) w (λ next. write_all conn ps next)

  then_write-true :
      (o : Option (Bool × W)) (w : W) (rest : W → Bool × W) (r : Bool × W)
      → o ≡ some r
      → (then_write o w rest).0 ≡ true
      → (r.0 ≡ true) × (then_write o w rest ≡ rest r.1)
  then_write-true none w rest r e t = cc
  then_write-true (some (true, next)) w rest r e t = (cc, cc)
  then_write-true (some (false, next)) w rest r e t = cc

  -- `_handleRead` called again and again: all that is delivered.
  abbrev pub polls : ℕ → ℕ → TcpConnection → W → Option (List Bytes × (TcpConnection × W))
  polls fuel zero conn w = some ([], (conn, w))
  polls fuel (suc calls) conn w = handle_read io fuel conn w >>= λ r.
      polls fuel calls r.1.0 r.1.1 >>= λ rest. some (r.0 ++ rest.0, rest.1)

module _ {W : Type 0} (io : Socket W) (laws : StreamLaws io) where
  on_stream :
      (w : W) (p : Bytes) (r : Bool × W)
      → Sent io laws w (frame p) r
      → r.0 ≡ true
      → laws.outgoing r.1 ≡ laws.outgoing w ++ frame p
  on_stream w p r v t = elim v.told [
    | inl all ↦
        v.prefix ∙ ap (◌++◌ (laws.outgoing w)) (take_all v.count (frame p) (omega (arith, all.1)))
    | inr less ↦ absurd (true_not_false (sym t ∙ less.0))
  ]
    where
      true_not_false : true ≢ false
      true_not_false e = cc

  write_all-stream :
      (conn : TcpConnection) (ps : List Bytes) (w : W)
      → IsSender conn
      → All IsPacket ps
      → (write_all io conn ps w).0 ≡ true
      → laws.outgoing (write_all io conn ps w).1 ≡ laws.outgoing w ++ stream ps
  unfolding on_wire
  write_all-stream conn [] w is ok t = sym (append-nil (laws.outgoing w))
  write_all-stream conn (p ∷ ps) w is ok t =
      let (r, (e, sent)) = write_string-Sent io laws conn p w is.0 ok.0.0 in
      let framed = subst (λ enc. Sent io laws w (on_wire enc p) r) is.1 sent in
      let rest : W → Bool × W = λ next. write_all io conn ps next in
      let (all, same) = then_write-true io (write_string io conn p w) w rest r e t in
      ap (λ s. laws.outgoing s.1) same
      ∙ (write_all-stream conn ps r.1 is ok.1 (ap (λ s. s.0) (sym same) ∙ t)
          ∙ (ap (λ o. o ++ stream ps) (on_stream w p r framed all)
              ∙ append_assoc (laws.outgoing w) (frame p) (stream ps)))

module _ {V : Type 0} (io : Socket V) (laws : StreamLaws io)
    (reliable : (v : V) (room : ℕ) → (io.recv v room).0 ≢ recv_failed)
    (arrived : (v next : V) (room : ℕ)
      → io.recv v room ≡ (would_block, next)
      → laws.incoming v ≡ []) where
  Stopped-less :
      (v next : V) (conn : TcpConnection)
      → Stopped io laws reliable v conn next
      → length (laws.incoming next) ≤ length (laws.incoming v) - 1
  Stopped-less v next conn (inl (last, room, e)) =
      omega (
        arith,
        ap length (laws.recv_nothing last next room e),
        ap length (arrived last next room e),
      )
  Stopped-less v next conn (inr few) = omega (arith, few.1)

  polls-Delivers :
      (fuel calls : ℕ) (conn : TcpConnection) (v : V) (qs : List Bytes)
      → length (laws.incoming v) < fuel
      → OnStream laws conn v qs
      → (r : List Bytes × (TcpConnection × V)) × ((polls io fuel calls conn v ≡ some r)
          × (Delivers laws qs r.0 r.1.0 r.1.1
              × (length (laws.incoming r.1.1) ≤ length (laws.incoming v) - calls)))
  polls-Delivers fuel zero conn v qs h on =
      (([], (conn, v)), (refl, (record { waiting = qs; order = refl; ready = on }, omega arith)))
  polls-Delivers fuel (suc calls) conn v qs h on =
      let (r, (e, (ds, stopped))) = handle_read-Delivers io laws reliable fuel conn v qs h on in
      let less = Stopped-less v r.1.1 r.1.0 stopped in
      let (rest, (f, (more, fewer))) =
        polls-Delivers fuel calls r.1.0 r.1.1 ds.waiting (omega (arith, less, h)) ds.ready in
      (
        (r.0 ++ rest.0, rest.1),
        (
          ap
                (λ o. o >>= λ s.
                  polls io fuel calls s.1.0 s.1.1 >>= λ rest. some (s.0 ++ rest.0, rest.1))
                e
              ∙ ap (λ o. o >>= λ rest. some (r.0 ++ rest.0, rest.1)) f,
          (
            Delivers-after io laws reliable qs r.0 rest.0 rest.1.0 rest.1.1 ds.waiting ds.order
                more,
            omega (arith, fewer, less),
          ),
        ),
      )

  -- When nothing is left to read no packet is left out.
  delivered_all :
      (qs ds : List Bytes) (conn : TcpConnection) (v : V)
      → Delivers laws qs ds conn v
      → length (laws.incoming v) ≡ 0
      → ds ≡ qs
  delivered_all qs ds conn v d none_left =
      sym (d.order ∙ (ap (◌++◌ ds) (empty d.waiting d.ready) ∙ append-nil ds))
    where
      empty : (waiting : List Bytes) → OnStream laws conn v waiting → waiting ≡ []
      empty [] on = refl
      empty (q ∷ waiting) on = absurd (
          omega (
            arith,
            ap length on.frames,
            length-append conn.read_buffer (laws.incoming v),
            length-append (frame q) (stream waiting),
            on.caught_up,
            none_left,
          ))

module _ {W V : Type 0} (io : Socket W) (laws : StreamLaws io) (their_io : Socket V)
    (their_laws : StreamLaws their_io)
    (reliable : (v : V) (room : ℕ) → (their_io.recv v room).0 ≢ recv_failed)
    (arrived : (v next : V) (room : ℕ)
      → their_io.recv v room ≡ (would_block, next)
      → their_laws.incoming v ≡ []) where
  -- Packets, none of them empty and each with its header below 2000 bytes, that are written one after the
  -- other to a framed connection with success, and have arrived at the other end, are delivered there,
  -- these and no others, in order and whole, by as many calls of `_handleRead` as there are bytes,
  -- however either system cuts the stream. The receiving system reports no errors, and that it has
  -- nothing to read only when nothing is left.
  pub handle_read-write_all :
      (sender receiver : TcpConnection) (fuel calls : ℕ) (ps : List Bytes) (w : W) (v : V)
      → IsSender sender
      → All IsPacket ps
      → laws.outgoing w ≡ []
      → (write_all io sender ps w).0 ≡ true
      → receiver.encapsulation ≡ framed_tls_masked
      → receiver.has_errored ≡ false
      → receiver.read_buffer ≡ []
      → their_laws.incoming v ≡ laws.outgoing (write_all io sender ps w).1
      → length (their_laws.incoming v) < fuel
      → length (their_laws.incoming v) ≤ calls
      → (r : List Bytes × (TcpConnection × V)) × ((polls their_io fuel calls receiver v ≡ some r)
          × (r.0 ≡ ps))
  handle_read-write_all sender receiver fuel calls ps w v is ok none_sent all framed healthy fresh
        arrives enough often =
      let (r, (e, (ds, fewer))) =
        polls-Delivers their_io their_laws reliable arrived fuel calls receiver v ps enough ready in
      (
        r,
        (
          e,
          delivered_all their_io their_laws reliable arrived ps r.0 r.1.0 r.1.1 ds
              (omega (arith, fewer, often)),
        ),
      )
    where
      came : their_laws.incoming v ≡ stream ps
      came =
          arrives
          ∙ (write_all-stream io laws sender ps w is ok all ∙ ap (λ o. o ++ stream ps) none_sent)

      less_than_next : (qs : List Bytes) → LessThanNext [] qs
      less_than_next [] = tt
      less_than_next (q ∷ qs) = omega (arith, length-frame q)

      ready : OnStream their_laws receiver v ps
      ready = record {
        framed = framed;
        healthy = healthy;
        room = omega (arith, ap length fresh);
        frames = ap (λ b. b ++ their_laws.incoming v) fresh ∙ came;
        packets = ok;
        caught_up = subst (λ b. LessThanNext b ps) (sym fresh) (less_than_next ps);
      }
