-- ===== src/TcpConnection/Writing.antt =====
-- What `write` puts on the stream.
use husarnet.Common.{
  ℕ, zero, suc, ◌+◌, ◌≤◌, ◌<◌, ◌≡◌, refl, sym, ap, ◌∙◌, [], ◌∷◌, ◌++◌, arith, Bytes, length, take,
  drop, length-drop, append_assoc, append-nil, true, false, Bool, Bool-cases, inl, inr, Option,
  some, none, ◌==◌, if◌then◌else◌, ◌⊎◌, takes_join,
}
use husarnet.TcpConnection.{
  Socket, StreamLaws, TcpConnection, Encapsulation, unframed, framed_tls_masked, send_all, write,
  write_string, on_wire,
}
use husarnet.TcpConnection.Frames.{length-frame}

length-on_wire : (enc : Encapsulation) (p : Bytes) → length p ≤ length (on_wire enc p)
unfolding on_wire
length-on_wire unframed p = omega arith
length-on_wire framed_tls_masked p = omega (arith, length-frame p)

drop-drop : (n m : ℕ) (bytes : Bytes) → drop m (drop n bytes) ≡ drop (n + m) bytes
drop-drop zero m bytes = let e : m ≡ 0 + m = omega arith in ap (λ k. drop k bytes) e
drop-drop (suc n) m [] = drop_none m ∙ sym (drop_none (suc n + m))
  where
    drop_none : (k : ℕ) → drop {A = ℕ} k [] ≡ []
    drop_none zero = refl
    drop_none (suc k) = refl
drop-drop (suc n) m (b ∷ bytes) =
    let e : suc (n + m) ≡ suc n + m = omega arith in
    drop-drop n m bytes ∙ ap (λ k. drop k (b ∷ bytes)) e

module _ {W : Type 0} (io : Socket W) (laws : StreamLaws io) where
  -- The system was asked to take the rest, when it had taken what came before, and took nothing.
  abbrev pub Refused : Bytes → Bytes → W → Type 0
  Refused taken rest next =
      (last : W) × ((laws.outgoing last ≡ taken) × (io.send_some last rest ≡ (none, next)))

  -- Whether all bytes went out; if not, less than all of them did, and the system refused the rest.
  pub record Sent (w : W) (bytes : Bytes) (r : Bool × W) : Type 0 where
    pub count : ℕ
    pub prefix : laws.outgoing r.1 ≡ laws.outgoing w ++ take count bytes
    pub told :
        (r.0 ≡ true) × (count ≡ length bytes)
        ⊎ (r.0 ≡ false)
          × ((count < length bytes)
              × Refused (laws.outgoing w ++ take count bytes) (drop count bytes) r.1)

  sent_first :
      (w next : W) (bytes : Bytes) (n : ℕ) (r : Bool × W)
      → io.send_some w bytes ≡ (some n, next)
      → n < length bytes
      → Sent next (drop n bytes) r
      → Sent w bytes r
  sent_first w next bytes n r e h v = record {
    count = n + v.count;
    prefix = v.prefix ∙ joined;
    told = elim v.told [
      | inl all ↦ inl (all.0, omega (arith, all.1, length-drop n bytes))
      | inr less ↦ inr (
        less.0,
        (
          omega (arith, less.1.0, length-drop n bytes),
          (
            less.1.1.0,
            (
              less.1.1.1.0 ∙ joined,
              ap (io.send_some less.1.1.0) (sym (drop-drop n v.count bytes)) ∙ less.1.1.1.1,
            ),
          ),
        ),
      )
    ];
  }
    where
      joined :
          laws.outgoing next ++ take v.count (drop n bytes)
          ≡ laws.outgoing w ++ take (n + v.count) bytes
      joined =
          ap (λ o. o ++ take v.count (drop n bytes)) (laws.send_bytes w next bytes n e).1.1
          ∙ (append_assoc (laws.outgoing w) (take n bytes) (take v.count (drop n bytes))
              ∙ ap (◌++◌ (laws.outgoing w)) (takes_join n v.count bytes (omega arith)))

  send_all-step :
      (fuel : ℕ) (bytes : Bytes) (w : W) (r : Option ℕ × W)
      → io.send_some w bytes ≡ r
      → 0 < length bytes
      → ((n : ℕ)
          → 0 < n
          → n < length bytes
          → Sent r.1 (drop n bytes) (send_all io fuel (drop n bytes) r.1))
      → Sent w bytes (elim r.0 [
        | none ↦ (false, r.1)
        | some n ↦
            let rest = send_all io fuel (drop n bytes) r.1 in
            if n == length bytes then (true, r.1) else rest
      ])
  send_all-step fuel bytes w (none, next) e h ih = record {
    count = 0;
    prefix = laws.send_nothing w next bytes e ∙ sym (append-nil (laws.outgoing w));
    told = inr (refl, (h, (w, (sym (append-nil (laws.outgoing w)), e))));
  }
  send_all-step fuel bytes w (some n, next) e h ih =
      let law = laws.send_bytes w next bytes n e in
      elim (Bool-cases (n == length bytes)) [
        | inl all ↦ rw all (record { count = n; prefix = law.1.1; told = inl (refl, ground arith) })
        | inr part ↦
            let less : n < length bytes = ground (arith, law.1.0) in
            rw part (
              sent_first w next bytes n (send_all io fuel (drop n bytes) next) e less
                (ih n law.0 less))
      ]

  send_all-Sent :
      (fuel : ℕ) (bytes : Bytes) (w : W)
      → 0 < length bytes
      → length bytes ≤ fuel
      → Sent w bytes (send_all io fuel bytes w)
  unfolding send_all
  send_all-Sent zero bytes w some_bytes h = absurd (omega arith)
  send_all-Sent (suc fuel) bytes w some_bytes h =
      send_all-step fuel bytes w (io.send_some w bytes) refl some_bytes (λ n positive less.
        send_all-Sent fuel (drop n bytes) (io.send_some w bytes).1
          (omega (arith, length-drop n bytes)) (omega (arith, length-drop n bytes)))

  -- `write` of a string that is not empty.
  pub write_string-Sent :
      (conn : TcpConnection) (packet : Bytes) (w : W)
      → conn.is_open ≡ true
      → 0 < length packet
      → (r : Bool × W) × ((write_string io conn packet w ≡ some r)
          × Sent w (on_wire conn.encapsulation packet) r)
  unfolding write_string
  write_string-Sent conn packet w o h =
      let bytes = on_wire conn.encapsulation packet in
      let longer = length-on_wire conn.encapsulation packet in
      (
        send_all io (length bytes) bytes w,
        (
          ground (arith, o, h),
          send_all-Sent (length bytes) bytes w (omega (arith, h, longer)) (omega arith),
        ),
      )

  -- On an open connection a packet that is not empty and fits is sent to its end, unless the system refuses to take more; then
  -- what it took before is sent, and the result tells. On a framed connection its header goes first. Both
  -- forms of `write` do the same.
  pub write-Sent :
      (conn : TcpConnection) (capacity : ℕ) (packet : Bytes) (w : W)
      → conn.is_open ≡ true
      → 0 < length packet
      → length (on_wire conn.encapsulation packet) ≤ capacity
      → (r : Bool × W) × ((write io conn capacity packet w ≡ some r)
          × ((write_string io conn packet w ≡ some r)
              × Sent w (on_wire conn.encapsulation packet) r))
  unfolding write write_string
  write-Sent conn capacity packet w o h fits =
      let (r, (e, sent)) = write_string-Sent conn packet w o h in (r, (same ∙ e, (e, sent)))
    where
      same : write io conn capacity packet w ≡ write_string io conn packet w
      same = ground (arith, o, h, fits)
