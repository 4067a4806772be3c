-- ===== src/TcpConnection/Ending.antt =====
-- `_handleRead` ends: each round that goes on has read something.
use husarnet.Common.{
  ℕ, zero, suc, ◌-◌, ◌<◌, ◌≤◌, Option, some, ◌>>=◌, ◌≡◌, refl, sym, ap, List, ◌++◌, arith, Bytes,
  Bool, true, length, length-append,
}
use husarnet.TcpConnection.{
  Received, received, would_block, recv_failed, Socket, StreamLaws, TcpConnection, Encapsulation,
  unframed, framed_tls_masked, split_packets, tcp_read_buffer, Round, ended, again, round, deliver,
  read_more, handle_read,
}
use husarnet.TcpConnection.Frames.{split_packets-Left}
use husarnet.TcpConnection.Reading.{HasRoom, AfterRound, after_split-elim, read_more-recv}

module _ {W : Type 0} (io : Socket W) (laws : StreamLaws io) where
  -- If the loop goes on there is less to read, and room for it.
  abbrev GoesOn : W → List Bytes → TcpConnection → W → Bool → Type 0
  GoesOn w ds conn next more =
      more ≡ true → HasRoom conn × (length (laws.incoming next) < length (laws.incoming w))

  deliver-GoesOn :
      (enc : Encapsulation) (conn : TcpConnection) (buffer : Bytes) (w next : W)
      → length (laws.incoming next) < length (laws.incoming w)
      → AfterRound (GoesOn w) (deliver enc conn buffer next)
  unfolding deliver
  deliver-GoesOn unframed conn buffer w next h = λ m. (omega arith, h)
  deliver-GoesOn framed_tls_masked conn buffer w next h =
      let left = split_packets-Left (length buffer) buffer (omega arith) in
      after_split-elim (GoesOn w) conn next (split_packets (length buffer) buffer)
        (λ more fine only m. (left.1 fine, h)) (λ bad m. cc)

  round-GoesOn :
      (conn : TcpConnection) (w : W) (room : ℕ) (r : Received × W)
      → io.recv w room ≡ r
      → AfterRound (GoesOn w) (round conn r)
  unfolding round
  round-GoesOn conn w room (would_block, next) e = λ m. cc
  round-GoesOn conn w room (recv_failed, next) e = λ m. cc
  round-GoesOn conn w room (received chunk, next) e =
      let read = laws.recv_bytes w next room chunk e in
      deliver-GoesOn conn.encapsulation conn (conn.read_buffer ++ chunk) w next
        (omega (arith, ap length read.0, length-append chunk (laws.incoming next), read.1))

  -- What a round with `fuel` more to follow comes to.
  abbrev follow : ℕ → Round W → Option (List Bytes × (TcpConnection × W))
  follow fuel (ended packets after next) = some (packets, (after, next))
  follow fuel (again packets after next) =
      handle_read io fuel after next >>= λ rest. some (packets ++ rest.0, rest.1)

  -- The one result that every fuel above the bound gives.
  abbrev Ends : ℕ → TcpConnection → W → Type 0
  Ends bound conn w =
      (r : List Bytes × (TcpConnection × W)) × ((fuel : ℕ)
        → bound < fuel
        → handle_read io fuel conn w ≡ some r)

  rounds_end :
      (bound : ℕ) (w : W) (r : Round W)
      → length (laws.incoming w) ≤ bound
      → AfterRound (GoesOn w) r
      → ((conn : TcpConnection) (next : W)
          → HasRoom conn
          → length (laws.incoming next) < length (laws.incoming w)
          → Ends (length (laws.incoming next)) conn next)
      → (end : List Bytes × (TcpConnection × W)) × ((fuel : ℕ)
          → bound < suc fuel
          → follow fuel r ≡ some end)
  rounds_end bound w (ended ds conn next) h v ih = ((ds, (conn, next)), λ fuel k. refl)
  rounds_end bound w (again ds conn next) h v ih =
      let (rest, same) = ih conn next (v refl).0 (v refl).1 in
      (
        (ds ++ rest.0, rest.1),
        λ fuel k.
            ap (λ o. o >>= λ rest. some (ds ++ rest.0, rest.1))
              (same fuel (omega (arith, h, k, (v refl).1))),
      )

  -- If every later round ends, so does this one.
  Ends-here :
      (conn : TcpConnection) (w : W)
      → HasRoom conn
      → ((after : TcpConnection) (next : W)
          → HasRoom after
          → length (laws.incoming next) < length (laws.incoming w)
          → Ends (length (laws.incoming next)) after next)
      → Ends (length (laws.incoming w)) conn w
  unfolding handle_read
  Ends-here conn w room ih =
      let (end, same) =
        rounds_end (length (laws.incoming w)) w (round conn (read_more io conn w)) (omega arith)
          (round-GoesOn conn w (tcp_read_buffer - length conn.read_buffer) (read_more io conn w)
            (sym (read_more-recv io conn w room)))
          ih in
      (end, λ fuel k. with_fuel fuel k end same)
    where
      with_fuel :
          (fuel : ℕ)
          → length (laws.incoming w) < fuel
          → (end : List Bytes × (TcpConnection × W))
          → ((fuel : ℕ)
              → length (laws.incoming w) < suc fuel
              → follow fuel (round conn (read_more io conn w)) ≡ some end)
          → handle_read io fuel conn w ≡ some end
      with_fuel zero k end same = absurd (omega arith)
      with_fuel (suc fuel) k end same = same fuel k

  by_bound :
      (bound : ℕ) (conn : TcpConnection) (w : W)
      → HasRoom conn
      → length (laws.incoming w) ≤ bound
      → Ends (length (laws.incoming w)) conn w
  by_bound zero conn w room h =
      Ends-here conn w room (λ after next space less. absurd (omega arith))
  by_bound (suc bound) conn w room h =
      Ends-here conn w room (λ after next space less. by_bound bound after next space (omega arith))

  -- The loop of the reader, whose buffer has room, ends, on any stream, with any encapsulation, and also when the system
  -- reports errors: every number of rounds above the number of bytes to read gives the same result.
  pub handle_read_ends :
      (conn : TcpConnection) (w : W)
      → HasRoom conn
      → (r : List Bytes × (TcpConnection × W)) × ((fuel : ℕ)
          → length (laws.incoming w) < fuel
          → handle_read io fuel conn w ≡ some r)
  handle_read_ends conn w room = by_bound (length (laws.incoming w)) conn w room (omega arith)
