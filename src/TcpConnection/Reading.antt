-- ===== src/TcpConnection/Reading.antt =====
-- `_handleRead` on a stream of frames: what it delivers, however the system cuts the stream.
use husarnet.Common.{
  ℕ, zero, suc, ◌-◌, ◌<◌, ◌≡◌, ◌≢◌, refl, sym, ap, ◌∙◌, subst, List, ◌++◌, arith, Bytes, All,
  All-append_right, length, length-append, append_assoc, true, false, Bool, ◌≤◌, Option, some,
  ◌>>=◌, ◌⊎◌, inl, inr,
}
use husarnet.TcpConnection.{
  Received, received, would_block, recv_failed, Socket, StreamLaws, TcpConnection,
  framed_tls_masked, LoopEnd, short, partial, broken, split_packets, read_more, handle_read, close,
  tcp_read_buffer, Round, ended, again, round, after_split, deliver,
}
use husarnet.TcpConnection.Frames.{
  IsPacket, LessThanNext, stream, Splits, split_packets-stream, split_packets-Left,
  split_packets-short,
}

-- The buffer has room.
abbrev pub HasRoom : TcpConnection → Type 0
HasRoom conn = length conn.read_buffer < tcp_read_buffer

-- The end of a round, whether the loop goes on or not.
abbrev pub AfterRound :
    {W : Type 0} → (List Bytes → TcpConnection → W → Bool → Type 0) → Round W → Type 0
AfterRound P (ended packets conn w) = P packets conn w false
AfterRound P (again packets conn w) = P packets conn w true

module _ {W : Type 0} (P : List Bytes → TcpConnection → W → Bool → Type 0) (conn : TcpConnection)
    (w : W) where
  pub after_split-elim :
      (r : List Bytes × (Bytes × LoopEnd))
      → ((more : Bool)
          → r.1.1 ≢ broken
          → (more ≡ false → r.1.1 ≡ short)
          → P r.0 (record conn { read_buffer = r.1.0 }) w more)
      → (r.1.1 ≡ broken → P r.0 (close (record conn { read_buffer = r.1.0 })) w false)
      → AfterRound P (after_split conn w r)
  unfolding after_split
  after_split-elim (ds, (left, short)) fine bad = fine false (λ c. cc) (λ m. refl)
  after_split-elim (ds, (left, partial)) fine bad = fine true (λ c. cc) (λ m. cc)
  after_split-elim (ds, (left, broken)) fine bad = bad refl

-- A round on a stream of frames that never fails: what is still to come, and that nothing is lost.
pub record OnStream {W : Type 0} {io : Socket W} (laws : StreamLaws io) (conn : TcpConnection)
    (w : W) (qs : List Bytes) : Type 0 where
  pub framed : conn.encapsulation ≡ framed_tls_masked
  pub healthy : conn.has_errored ≡ false
  pub room : HasRoom conn
  pub frames : conn.read_buffer ++ laws.incoming w ≡ stream qs
  pub packets : All IsPacket qs
  pub caught_up : LessThanNext conn.read_buffer qs

pub record Delivers {W : Type 0} {io : Socket W} (laws : StreamLaws io) (qs : List Bytes)
    (ds : List Bytes) (conn : TcpConnection) (w : W) : Type 0 where
  pub waiting : List Bytes
  pub order : qs ≡ ds ++ waiting
  pub ready : OnStream laws conn w waiting

pub read_more-recv :
    {W : Type 0} (io : Socket W) (conn : TcpConnection) (w : W)
    → HasRoom conn
    → read_more io conn w ≡ io.recv w (tcp_read_buffer - length conn.read_buffer)
unfolding read_more
read_more-recv io conn w h = ground arith

module _ {W : Type 0} (io : Socket W) (laws : StreamLaws io)
    (reliable : (w : W) (room : ℕ) → (io.recv w room).0 ≢ recv_failed) where
  -- Why the loop has ended: the system has reported that there is nothing to read, or bytes were read
  -- and the buffer holds too few for a header and a packet.
  abbrev pub Stopped : W → TcpConnection → W → Type 0
  Stopped w conn next =
      ((last : W) × (room : ℕ) × (io.recv last room ≡ (would_block, next)))
      ⊎ (length conn.read_buffer ≤ 5) × (length (laws.incoming next) < length (laws.incoming w))

  -- After a round: the packets that it delivered, and less to read if the loop goes on.
  abbrev RoundOk : W → List Bytes → List Bytes → TcpConnection → W → Bool → Type 0
  RoundOk w qs ds conn next more =
      Delivers laws qs ds conn next
      × ((more ≡ true → length (laws.incoming next) < length (laws.incoming w))
          × (more ≡ false → Stopped w conn next))

  split-RoundOk :
      (conn : TcpConnection) (w next : W) (qs : List Bytes) (chunk : Bytes)
      → OnStream laws conn w qs
      → (laws.incoming w ≡ chunk ++ laws.incoming next) × (0 < length chunk)
      → AfterRound (RoundOk w qs) (
          after_split conn next
            (split_packets (length (conn.read_buffer ++ chunk)) (conn.read_buffer ++ chunk)))
  split-RoundOk conn w next qs chunk on (came, some_came) =
      after_split-elim (RoundOk w qs) conn next parts fine (λ bad. absurd (splits.whole bad))
    where
      buffer : Bytes
      buffer = conn.read_buffer ++ chunk

      parts : List Bytes × (Bytes × LoopEnd)
      parts = split_packets (length buffer) buffer

      frames : buffer ++ laws.incoming next ≡ stream qs
      frames =
          append_assoc conn.read_buffer chunk (laws.incoming next)
          ∙ (ap (◌++◌ conn.read_buffer) (sym came) ∙ on.frames)

      splits : Splits buffer (laws.incoming next) qs parts
      splits =
          split_packets-stream (length buffer) buffer (laws.incoming next) qs (omega arith)
            on.packets frames

      shrinks : length (laws.incoming next) < length (laws.incoming w)
      shrinks = omega (arith, ap length came, length-append chunk (laws.incoming next), some_came)

      fine :
          (more : Bool)
          → parts.1.1 ≢ broken
          → (more ≡ false → parts.1.1 ≡ short)
          → RoundOk w qs parts.0 (record conn { read_buffer = parts.1.0 }) next more
      fine more ne only = (
        record {
          waiting = splits.waiting;
          order = splits.delivered;
          ready = record {
            framed = on.framed;
            healthy = on.healthy;
            room = (split_packets-Left (length buffer) buffer (omega arith)).1 ne;
            frames = splits.kept;
            packets =
                All-append_right IsPacket parts.0 splits.waiting
                  (subst (All IsPacket) splits.delivered on.packets);
            caught_up = splits.complete;
          };
        },
        (
          λ m. shrinks,
          λ m. inr (split_packets-short (length buffer) buffer (omega arith) (only m), shrinks),
        ),
      )

  round-RoundOk :
      (conn : TcpConnection) (w : W) (qs : List Bytes) (room : ℕ) (r : Received × W)
      → OnStream laws conn w qs
      → io.recv w room ≡ r
      → AfterRound (RoundOk w qs) (round conn r)
  unfolding round deliver
  round-RoundOk conn w qs room (received chunk, next) on e =
      subst (λ enc. AfterRound (RoundOk w qs) (deliver enc conn (conn.read_buffer ++ chunk) next))
        (sym on.framed)
        (split-RoundOk conn w next qs chunk on (laws.recv_bytes w next room chunk e))
  round-RoundOk conn w qs room (would_block, next) on e =
      let same = laws.recv_nothing w next room e in
      (
        record {
          waiting = qs;
          order = refl;
          ready = record {
            framed = on.framed;
            healthy = on.healthy;
            room = on.room;
            frames = ap (◌++◌ conn.read_buffer) same ∙ on.frames;
            packets = on.packets;
            caught_up = on.caught_up;
          };
        },
        (λ m. cc, λ m. inl (w, room, e)),
      )
  round-RoundOk conn w qs room (recv_failed, next) on e = absurd (reliable w room (ap (λ r. r.0) e))

  -- What two parts of a run deliver, one after the other.
  pub Delivers-after :
      (qs ds more : List Bytes) (conn : TcpConnection) (w : W) (first : List Bytes)
      → qs ≡ ds ++ first
      → Delivers laws first more conn w
      → Delivers laws qs (ds ++ more) conn w
  Delivers-after qs ds more conn w first e v = record {
    waiting = v.waiting;
    order = e ∙ (ap (◌++◌ ds) v.order ∙ sym (append_assoc ds more v.waiting));
    ready = v.ready;
  }

  Stopped-after :
      (w between : W) (conn : TcpConnection) (next : W)
      → length (laws.incoming between) < length (laws.incoming w)
      → Stopped between conn next
      → Stopped w conn next
  Stopped-after w between conn next less (inl nothing) = inl nothing
  Stopped-after w between conn next less (inr few) = inr (few.0, omega (arith, few.1))

  -- The loop ends, with these deliveries.
  abbrev pub Reads : W → List Bytes → Option (List Bytes × (TcpConnection × W)) → Type 0
  Reads w qs o =
      (r : List Bytes × (TcpConnection × W)) × ((o ≡ some r)
        × (Delivers laws qs r.0 r.1.0 r.1.1 × Stopped w r.1.0 r.1.1))

  loop-Reads :
      (fuel : ℕ) (w : W) (qs : List Bytes) (r : Round W)
      → length (laws.incoming w) < suc fuel
      → AfterRound (RoundOk w qs) r
      → ((conn : TcpConnection) (next : W) (waiting : List Bytes)
          → length (laws.incoming next) < fuel
          → OnStream laws conn next waiting
          → Reads next waiting (handle_read io fuel conn next))
      → Reads w qs (elim r [
        | ended packets after next ↦ some (packets, (after, next))
        | again packets after next ↦
            handle_read io fuel after next >>= λ rest. some (packets ++ rest.0, rest.1)
      ])
  loop-Reads fuel w qs (ended ds conn next) h v ih = ((ds, (conn, next)), (refl, (v.0, v.1.1 refl)))
  loop-Reads fuel w qs (again ds conn next) h v ih =
      let less = v.1.0 refl in
      let (rest, (e, (more, stopped))) = ih conn next v.0.waiting (omega (arith, less)) v.0.ready in
      (
        (ds ++ rest.0, rest.1),
        (
          ap (λ o. o >>= λ rest. some (ds ++ rest.0, rest.1)) e,
          (
            Delivers-after qs ds rest.0 rest.1.0 rest.1.1 v.0.waiting v.0.order more,
            Stopped-after w next rest.1.0 rest.1.1 less stopped,
          ),
        ),
      )

  -- On a framed connection whose buffer begins a stream of frames, each below 2000 bytes, and holds less
  -- than the first, cut by the system in any way, `_handleRead` ends, one more round than bytes
  -- is enough, and it has delivered packets in order and whole: what the buffer and the system still
  -- hold begins with the next frame, and the buffer holds less than that frame. It has ended because
  -- the system has reported that there is nothing to read, or because, after bytes were read, at most
  -- five are left in the buffer. The system reports no errors.
  pub handle_read-Delivers :
      (fuel : ℕ) (conn : TcpConnection) (w : W) (qs : List Bytes)
      → length (laws.incoming w) < fuel
      → OnStream laws conn w qs
      → Reads w qs (handle_read io fuel conn w)
  unfolding handle_read
  handle_read-Delivers zero conn w qs h on = absurd (omega arith)
  handle_read-Delivers (suc fuel) conn w qs h on =
      loop-Reads fuel w qs (round conn (read_more io conn w)) h
        (round-RoundOk conn w qs (tcp_read_buffer - length conn.read_buffer) (read_more io conn w)
          on (sym (read_more-recv io conn w on.room)))
        (λ after next waiting less ready. handle_read-Delivers fuel after next waiting less ready)
