-- ===== src/TcpConnection/Frames.antt =====
-- The frames of a stream come out of the buffer, in order and whole.
use husarnet.Common.{
  ℕ, zero, suc, ◌+◌, ◌≤◌, ◌<◌, ◌≡◌, ◌≢◌, refl, sym, ap, ◌∙◌, List, [], ◌∷◌, ◌++◌, arith, Bytes, All,
  length, take, drop, substr, length-append, length-drop, append_assoc, Bool-cases, inl, inr, leb,
  drop-append, same_bytes_refl, same_bytes, true, subst, take_within-append, drop_within-append,
  substr_field, substr_within-append,
}
use husarnet.Util.Pack.{pack, from_bytes, length-pack, from_bytes-pack}
use husarnet.TcpConnection.{
  LoopEnd, short, partial, broken, split_packets, frame_header, tls_header, tcp_read_buffer,
}

-- A packet that is neither empty nor too large for the reader.
abbrev pub IsPacket : Bytes → Type 0
IsPacket p = (0 < length p) × (5 + length p < tcp_read_buffer)

-- A packet as it is on the stream.
abbrev pub frame : Bytes → Bytes
frame p = frame_header p ++ p

abbrev pub stream : List Bytes → Bytes
stream [] = []
stream (p ∷ ps) = frame p ++ stream ps

length-frame_header : (p : Bytes) → length (frame_header p) ≡ 5
unfolding frame_header
length-frame_header p = omega (arith, length-pack 2 (length p))

-- Less than the next frame is in the buffer.
abbrev pub LessThanNext : Bytes → List Bytes → Type 0
LessThanNext buffer [] = Unit
LessThanNext buffer (q ∷ qs) = length buffer < length (frame q)

pub length-frame : (p : Bytes) → length (frame p) ≡ 5 + length p
length-frame p = omega (arith, length-append (frame_header p) p, length-frame_header p)

-- What the loop leaves of a buffer never outgrows it, and the reader has room when it reads on.
pub record Splits (buffer later : Bytes) (qs : List Bytes) (r : List Bytes × (Bytes × LoopEnd))
    : Type 0 where
  pub waiting : List Bytes
  pub delivered : qs ≡ r.0 ++ waiting
  pub kept : r.1.0 ++ later ≡ stream waiting
  pub whole : r.1.1 ≢ broken
  pub complete : LessThanNext r.1.0 waiting

-- Fields of a buffer that begins a frame.
module _ (buffer later rest p : Bytes) (e : buffer ++ later ≡ frame p ++ rest) where
  whole_stream : buffer ++ later ≡ tls_header ++ (pack 2 (length p) ++ (p ++ rest))
  unfolding frame_header
  whole_stream = e ∙ append_assoc (frame_header p) p rest

  header_bytes : 3 ≤ length buffer → take 3 buffer ≡ tls_header
  header_bytes h = sym (take_within-append 3 buffer later h) ∙ rw whole_stream refl

  size_of : 5 ≤ length buffer → length p < 65536 → from_bytes (substr 3 2 buffer) ≡ length p
  size_of h small = ap from_bytes field ∙ from_bytes-pack 2 (length p) small
    where
      cut : substr 3 2 buffer ≡ substr 3 2 (buffer ++ later)
      cut = sym (substr_within-append 3 2 buffer later h)

      field : substr 3 2 buffer ≡ pack 2 (length p)
      field =
          cut
          ∙ substr_field 3 2 (buffer ++ later) tls_header (pack 2 (length p)) (p ++ rest)
              whole_stream refl (length-pack 2 (length p))

  packet_of : 5 + length p ≤ length buffer → substr 5 (length p) buffer ≡ p
  packet_of h =
      sym (substr_within-append 5 (length p) buffer later h)
      ∙ substr_field 5 (length p) (buffer ++ later) (frame_header p) p rest
          (e ∙ append_assoc (frame_header p) p rest) (length-frame_header p) refl

  rest_of : 5 + length p ≤ length buffer → drop (5 + length p) buffer ++ later ≡ rest
  rest_of h =
      sym (drop_within-append (5 + length p) buffer later h)
      ∙ (ap (drop (5 + length p)) e ∙ drop-append (5 + length p) (frame p) rest (length-frame p))

split_few :
    (fuel : ℕ) (buffer : Bytes)
    → length buffer ≤ 5
    → split_packets fuel buffer ≡ ([], (buffer, short))
unfolding split_packets
split_few zero buffer h = refl
split_few (suc fuel) buffer h = ground arith

module _ (fuel n : ℕ) (buffer : Bytes) (many : 5 < length buffer)
    (header : take 3 buffer ≡ tls_header) (size : from_bytes (substr 3 2 buffer) ≡ n)
    (small : 5 + n < tcp_read_buffer) where
  same_header : same_bytes (take 3 buffer) tls_header ≡ true
  same_header = rw header (same_bytes_refl tls_header)

  split_whole :
      5 + n ≤ length buffer
      → split_packets (suc fuel) buffer ≡ (
        substr 5 n buffer ∷ (split_packets fuel (drop (5 + n) buffer)).0,
        (split_packets fuel (drop (5 + n) buffer)).1,
      )
  unfolding split_packets
  split_whole h = rw size (ground (arith, same_header))

  split_part : length buffer < 5 + n → split_packets (suc fuel) buffer ≡ ([], (buffer, partial))
  unfolding split_packets
  split_part h = rw size (ground (arith, same_header))

module _ (buffer later : Bytes) (qs : List Bytes) (e : buffer ++ later ≡ stream qs) where
  kept-Splits :
      (loop_end : LoopEnd)
      → loop_end ≢ broken
      → LessThanNext buffer qs
      → Splits buffer later qs ([], (buffer, loop_end))
  kept-Splits loop_end ne done = record {
    waiting = qs;
    delivered = refl;
    kept = e;
    whole = ne;
    complete = done;
  }

next-Splits :
    (buffer later : Bytes) (q : Bytes) (qs : List Bytes) (r : List Bytes × (Bytes × LoopEnd))
    → Splits buffer later qs r
    → {whole_buffer : Bytes} → Splits whole_buffer later (q ∷ qs) (q ∷ r.0, r.1)
next-Splits buffer later q qs r v = record {
  waiting = v.waiting;
  delivered = ap (◌∷◌ q) v.delivered;
  kept = v.kept;
  whole = v.whole;
  complete = v.complete;
}

few-Splits :
    (fuel : ℕ) (buffer later : Bytes) (qs : List Bytes)
    → length buffer ≤ 5
    → All IsPacket qs
    → buffer ++ later ≡ stream qs
    → Splits buffer later qs (split_packets fuel buffer)
few-Splits fuel buffer later qs h ok e =
    subst (Splits buffer later qs) (sym (split_few fuel buffer h))
      (kept-Splits buffer later qs e short (λ c. cc) (less_than_next qs ok))
  where
    less_than_next : (rest : List Bytes) → All IsPacket rest → LessThanNext buffer rest
    less_than_next [] ok = tt
    less_than_next (q ∷ rest) ok = omega (arith, h, ok.0.0, length-frame q)

-- The frames at the start of the stream come out in order and whole; the rest stays in the buffer.
pub split_packets-stream :
    (fuel : ℕ) (buffer later : Bytes) (qs : List Bytes)
    → length buffer ≤ fuel
    → All IsPacket qs
    → buffer ++ later ≡ stream qs
    → Splits buffer later qs (split_packets fuel buffer)
split_packets-stream zero buffer later qs h ok e =
    few-Splits zero buffer later qs (omega arith) ok e
split_packets-stream (suc fuel) buffer later [] h ok e =
    few-Splits (suc fuel) buffer later [] none_held ok e
  where
    none_held : length buffer ≤ 5
    none_held = omega (arith, ap length e, length-append buffer later)
split_packets-stream (suc fuel) buffer later (q ∷ qs) h ok e =
    elim (Bool-cases (leb (length buffer) 5)) [
      | inl few ↦ few-Splits (suc fuel) buffer later (q ∷ qs) (ground arith) ok e
      | inr many ↦
          longer (ground arith)
            (λ left small rest. split_packets-stream fuel left later qs small ok.1 rest)
    ]
  where
    n : ℕ
    n = length q

    longer :
        5 < length buffer
        → ((left : Bytes)
            → length left ≤ fuel
            → left ++ later ≡ stream qs
            → Splits left later qs (split_packets fuel left))
        → Splits buffer later (q ∷ qs) (split_packets (suc fuel) buffer)
    longer many more =
        let header = header_bytes buffer later (stream qs) q e (omega arith) in
        let size = size_of buffer later (stream qs) q e (omega arith) (omega (arith, ok.0.1)) in
        elim (Bool-cases (leb (5 + n) (length buffer))) [
          | inl full ↦
              let left = drop (5 + n) buffer in
              let rest = rest_of buffer later (stream qs) q e (ground arith) in
              let first = packet_of buffer later (stream qs) q e (ground arith) in
              subst (Splits buffer later (q ∷ qs))
                (sym (
                  split_whole fuel n buffer many header size ok.0.1 (ground arith)
                  ∙ ap (λ p. (p ∷ (split_packets fuel left).0, (split_packets fuel left).1)) first))
                (next-Splits left later q qs (split_packets fuel left)
                  (more left (omega (arith, length-drop (5 + n) buffer)) rest))
          | inr part ↦
              subst (Splits buffer later (q ∷ qs))
                (sym (split_part fuel n buffer many header size ok.0.1 (ground arith)))
                (kept-Splits buffer later (q ∷ qs) e partial (λ c. cc)
                  (ground (arith, length-frame q)))
        ]

-- What is left never outgrows the buffer, and unless the connection is closed there is room.
abbrev pub Left : Bytes → Bytes × LoopEnd → Type 0
Left buffer r = (length r.0 ≤ length buffer) × (r.1 ≢ broken → length r.0 < tcp_read_buffer)

pub split_packets-Left :
    (fuel : ℕ) (buffer : Bytes) → length buffer ≤ fuel → Left buffer (split_packets fuel buffer).1
unfolding split_packets
split_packets-Left zero buffer h = (omega arith, λ n. omega arith)
split_packets-Left (suc fuel) buffer h =
    elim (Bool-cases (leb (5 + from_bytes (substr 3 2 buffer)) (length buffer))) [
      | inl full ↦
          let left = drop (5 + from_bytes (substr 3 2 buffer)) buffer in
          let smaller = length-drop (5 + from_bytes (substr 3 2 buffer)) buffer in
          let rest = split_packets-Left fuel left (omega (arith, smaller)) in
          (ground (arith, rest.0, smaller), ground (arith, rest.1))
      | inr part ↦ (ground arith, ground arith)
    ]

-- The loop leaves a buffer that may hold a header only with five bytes at most.
pub split_packets-short :
    (fuel : ℕ) (buffer : Bytes)
    → length buffer ≤ fuel
    → (split_packets fuel buffer).1.1 ≡ short
    → length (split_packets fuel buffer).1.0 ≤ 5
unfolding split_packets
split_packets-short zero buffer h = λ e. omega arith
split_packets-short (suc fuel) buffer h =
    elim (Bool-cases (leb (5 + from_bytes (substr 3 2 buffer)) (length buffer))) [
      | inl full ↦
          let left = drop (5 + from_bytes (substr 3 2 buffer)) buffer in
          let smaller = length-drop (5 + from_bytes (substr 3 2 buffer)) buffer in
          let rest = split_packets-short fuel left (omega (arith, smaller)) in
          λ e. ground (arith, rest, e, smaller)
      | inr part ↦ λ e. ground (arith, e)
    ]
