-- ===== src/WebSocket/Message/RoundTrip.antt =====
-- A message that is encoded is parsed back, whatever follows it.
use husarnet.Common.{
  ℕ, suc, ◌+◌, ◌-◌, ◌/◌, ◌%◌, ◌≤◌, ◌<◌, ◌≡◌, refl, sym, ap, ap₂, subst, ◌==◌, take-append,
  drop-append, append_assoc, ◌∙◌, Bool, true, false, some, [], ◌∷◌, ◌++◌, arith, Bytes, ltb, length,
  byte_at, Bool-cases, inl, inr, length-append,
}
use husarnet.Common.Bits.{bit_xor_twice}
use husarnet.WebSocket.Message.{
  Message, parsed, new_message, parse, parse_behind, read_head, parse_length, parse_masked,
  parse_payload, encode, encode_length, encode_flags, encode_payload, apply_mask, unmask,
  read_length, shift_in, widen, bit, has_bit, max_payload,
}

apply_mask_twice : (key : Bytes) (i : ℕ) (s : Bytes) → apply_mask key i (apply_mask key i s) ≡ s
unfolding apply_mask
apply_mask_twice key i [] = refl
apply_mask_twice key i (c ∷ rest) =
    rw (bit_xor_twice c (byte_at key (i % 4)), apply_mask_twice key (i + 1) rest) refl

length-apply_mask : (key : Bytes) (i : ℕ) (s : Bytes) → length (apply_mask key i s) ≡ length s
unfolding apply_mask
length-apply_mask key i [] = refl
length-apply_mask key i (c ∷ rest) = ap suc (length-apply_mask key (i + 1) rest)

-- The longest payload that is read back: a signed `char` spoils a length byte of 128.
unfoldable pub readable : Bool → ℕ
readable true = 127
readable false = 128

-- The length bytes of an encoded message, and how they are read.
record LengthField (signed masked : Bool) (size : ℕ) : Type 0 where
  first : ℕ
  more : Bytes
  written : encode_length size masked ≡ (first + bit masked 128) ∷ more
  small : first < 128
  read : (rest : Bytes) → parse_length signed first (more ++ rest) ≡ some (size, rest)

two_bytes :
    (signed : Bool) (low : ℕ) (rest : Bytes)
    → parse_length signed 126 (0 ∷ low ∷ rest) ≡ some (read_length signed (0 ∷ low ∷ []), rest)
unfolding parse_length
two_bytes signed low rest = ground arith

long_field :
    (signed masked : Bool) (size : ℕ)
    → size ≤ 128
    → 126 ≤ size
    → read_length signed (0 ∷ size ∷ []) ≡ size
    → LengthField signed masked size
unfolding encode_length
long_field signed masked size h k e = record {
  first = 126;
  more = 0 ∷ size ∷ [];
  written =
      longer
      ∙ ap₂ (λ high low. (126 + bit masked 128) ∷ high ∷ low ∷ []) (omega arith) (omega arith);
  small = omega arith;
  read = λ rest. two_bytes signed size rest ∙ ap (λ n. some (n, rest)) e;
}
  where
    longer : encode_length size masked ≡ (126 + bit masked 128) ∷ size / 256 ∷ size % 256 ∷ []
    longer = ground arith

-- The three lengths of two bytes that a payload can have.
low_byte :
    (signed : Bool) (size : ℕ)
    → 126 ≤ size
    → size ≤ readable signed
    → read_length signed (0 ∷ size ∷ []) ≡ size
unfolding read_length shift_in widen readable
low_byte true size k h = elim (Bool-cases (size == 126)) [
  | inl e ↦ ground_at 126 (ground arith) refl
  | inr e ↦ ground_at 127 (ground arith) refl
]
  where
    ground_at :
        (n : ℕ)
        → size ≡ n
        → read_length true (0 ∷ n ∷ []) ≡ n
        → read_length true (0 ∷ size ∷ []) ≡ size
    ground_at n e f = subst (λ s. read_length true (0 ∷ s ∷ []) ≡ s) (sym e) f
low_byte false size k h = elim (Bool-cases (size == 126)) [
  | inl e ↦ at 126 (ground arith) refl
  | inr e ↦ elim (Bool-cases (size == 127)) [
    | inl f ↦ at 127 (ground arith) refl
    | inr f ↦ at 128 (ground arith) refl
  ]
]
  where
    at :
        (n : ℕ)
        → size ≡ n
        → read_length false (0 ∷ n ∷ []) ≡ n
        → read_length false (0 ∷ size ∷ []) ≡ size
    at n e f = subst (λ s. read_length false (0 ∷ s ∷ []) ≡ s) (sym e) f

pub readable_le : (signed : Bool) → readable signed ≤ 128
unfolding readable
readable_le true = omega arith
readable_le false = omega arith

length_field :
    (signed masked : Bool) (size : ℕ) → size ≤ readable signed → LengthField signed masked size
unfolding encode_length parse_length readable read_length shift_in widen
length_field signed masked size h = elim (Bool-cases (ltb size 126)) [
  | inl few ↦ record {
    first = size;
    more = [];
    written = ground (arith, few);
    small = ground arith;
    read = λ rest. ground (arith, few);
  }
  | inr many ↦
      long_field signed masked size (omega (arith, readable_le signed)) (ground arith)
        (low_byte signed size (ground arith) h)
]

has_bit-mask :
    (masked : Bool) (first : ℕ) → first < 128 → has_bit 128 (first + bit masked 128) ≡ masked
has_bit-mask true first h = ground arith
has_bit-mask false first h = ground arith

payload_read :
    (masked : Bool) (consumed : ℕ) (message : Message) (key payload rest : Bytes)
    → length payload ≤ max_payload
    → parse_payload masked consumed message (length payload) key (payload ++ rest)
      ≡ parsed
          (consumed + length payload)
          (record message { data_bytes = unmask masked key payload })
unfolding parse_payload
payload_read masked consumed message key s rest h =
    rw (take-append (length s) s rest refl) (ground (arith, length-append s rest, h))

parse_masked-encode_payload :
    (masked : Bool) (consumed : ℕ) (message : Message) (key payload rest : Bytes)
    → length key ≡ 4
    → length payload ≤ max_payload
    → parse_masked masked consumed message
        (length payload)
        (encode_payload masked key payload ++ rest)
      ≡ parsed
          (consumed + length (encode_payload masked key payload))
          (record message { data_bytes = payload })
unfolding parse_masked encode_payload unmask
parse_masked-encode_payload false consumed message key s rest k h =
    payload_read false consumed message [] s rest h
parse_masked-encode_payload true consumed message key s rest k h =
    rw
      (
        append_assoc key hidden rest,
        take-append 4 key (hidden ++ rest) k,
        drop-append 4 key (hidden ++ rest) k,
        enough,
      )
      (sized ∙ same)
  where
    hidden : Bytes
    hidden = apply_mask key 0 s

    size : length hidden ≡ length s
    size = length-apply_mask key 0 s

    enough : ltb (length (key ++ (hidden ++ rest))) 4 ≡ false
    enough = ground (arith, length-append key (hidden ++ rest), k)

    sized :
        parse_payload true (consumed + 4) message (length s) key (hidden ++ rest)
        ≡ parsed
            (consumed + 4 + length hidden)
            (record message { data_bytes = apply_mask key 0 hidden })
    sized =
        ap (λ n. parse_payload true (consumed + 4) message n key (hidden ++ rest)) (sym size)
        ∙ payload_read true (consumed + 4) message key hidden rest (omega (arith, size, h))

    same :
        parsed
          (consumed + 4 + length hidden)
          (record message { data_bytes = apply_mask key 0 hidden })
        ≡ parsed (consumed + length (key ++ hidden)) (record message { data_bytes = s })
    same =
        ap₂ (λ n d. parsed n (record message { data_bytes = d }))
          (omega (arith, length-append key hidden, k)) (apply_mask_twice key 0 s)

abbrev pub plain_message : ℕ → Bool → Bytes → Message
plain_message opcode masked payload = record (new_message opcode masked) { data_bytes = payload }

read_head-fields :
    (flags byte opcode : ℕ) (masked : Bool)
    → flags / 128 % 2 ≡ 1
    → flags / 64 % 2 ≡ 0
    → flags / 32 % 2 ≡ 0
    → flags / 16 % 2 ≡ 0
    → flags % 16 ≡ opcode
    → has_bit 128 byte ≡ masked
    → read_head flags byte ≡ new_message opcode masked
unfolding read_head
read_head-fields flags byte opcode masked fin rsv1 rsv2 rsv3 low mask =
    rw (fin, rsv1, rsv2, rsv3, low) (ap (new_message opcode) mask)

read_head-flags :
    (masked : Bool) (opcode first : ℕ)
    → opcode < 16
    → first < 128
    → read_head (128 + opcode % 16) (first + bit masked 128) ≡ new_message opcode masked
read_head-flags masked opcode first o h =
    read_head-fields (128 + opcode % 16) (first + bit masked 128) opcode masked (omega arith)
      (omega arith) (omega arith) (omega arith) (omega arith) (has_bit-mask masked first h)

parse_behind-encoded :
    (signed masked : Bool) (opcode : ℕ) (key payload rest : Bytes)
    → length key ≡ 4
    → length payload ≤ readable signed
    → (f : LengthField signed masked (length payload))
    → parse_behind signed
        (new_message opcode masked)
        f.first
        (f.more ++ (encode_payload masked key payload ++ rest))
      ≡ parsed
          (2 + length f.more + length (encode_payload masked key payload))
          (plain_message opcode masked payload)
unfolding parse_behind
parse_behind-encoded signed masked opcode key payload rest k h f = rw (f.read after) (
    parse_masked-encode_payload masked used (new_message opcode masked) key payload rest k
      (omega (arith, readable_le signed))
    ∙ ap (λ n. parsed n (plain_message opcode masked payload))
        (omega (arith, length-append f.more after)))
  where
    after : Bytes
    after = encode_payload masked key payload ++ rest

    used : ℕ
    used = 2 + (length (f.more ++ after) - length after)

parse_byte : (masked : Bool) (first : ℕ) → first < 128 → (first + bit masked 128) % 128 ≡ first
parse_byte true first h = omega arith
parse_byte false first h = omega arith

-- An encoded message fits its buffer.
pub encode-fits :
    (key : Bytes) (m : Message)
    → length m.data_bytes ≤ max_payload
    → encode 1024 key m
      ≡ some (
          (encode_flags m ∷ encode_length (length m.data_bytes) m.masked)
          ++ encode_payload m.masked key m.data_bytes)
unfolding encode encode_length
encode-fits key m h = ground (arith, h)

parse-written :
    (signed masked : Bool) (opcode : ℕ) (key payload rest : Bytes)
    → length key ≡ 4
    → opcode < 16
    → length payload ≤ readable signed
    → (f : LengthField signed masked (length payload))
    → parse signed (
        (128 + opcode % 16)
        ∷ ((f.first + bit masked 128) ∷ (f.more ++ (encode_payload masked key payload ++ rest))))
      ≡ parsed
          (2 + length f.more + length (encode_payload masked key payload))
          (plain_message opcode masked payload)
unfolding parse
parse-written signed masked opcode key payload rest k o h f =
    ap₂ (λ head len_byte. parse_behind signed head len_byte after)
      (read_head-flags masked opcode f.first o f.small) (parse_byte masked f.first f.small)
    ∙ parse_behind-encoded signed masked opcode key payload rest k h f
  where
    after : Bytes
    after = f.more ++ (encode_payload masked key payload ++ rest)

-- A message with at most 127 bytes of payload where `char` is signed, or 128 where it is not, is encoded,
-- masked or not, into 1024 bytes, and parsed back whatever follows it, and exactly its bytes are used.
pub parse-encode :
    (signed masked : Bool) (opcode : ℕ) (key payload rest : Bytes)
    → length key ≡ 4
    → opcode < 16
    → length payload ≤ readable signed
    → (bytes : Bytes) × ((encode 1024 key (plain_message opcode masked payload) ≡ some bytes)
        × (parse signed (bytes ++ rest)
            ≡ parsed (length bytes) (plain_message opcode masked payload)))
unfolding encode_flags
parse-encode signed masked opcode key payload rest k o h =
    let m = plain_message opcode masked payload in
    let flags = 128 + opcode % 16 in
    let hidden = encode_payload masked key payload in
    let f = length_field signed masked (length payload) h in
    let behind = append_assoc f.more hidden rest in
    let size : 2 + length f.more + length hidden ≡ suc (suc (length (f.more ++ hidden))) =
      omega (arith, length-append f.more hidden) in
    (
      (flags ∷ encode_length (length payload) masked) ++ hidden,
      (
        encode-fits key m (omega (arith, h, readable_le signed))
            ∙ ap (λ b. some (b ∷ (encode_length (length payload) masked ++ hidden))) (omega arith),
        rw (f.written) (
            ap (λ s. parse signed (flags ∷ (f.first + bit masked 128) ∷ s)) behind
            ∙ (parse-written signed masked opcode key payload rest k o h f
                ∙ ap (λ n. parsed n m) size)),
      ),
    )
