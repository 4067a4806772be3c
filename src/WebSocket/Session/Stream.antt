-- ===== src/WebSocket/Session/Stream.antt =====
-- `_handleData` on the frames of the other end.
use husarnet.Common.{
  ℕ, zero, suc, ◌+◌, ◌≤◌, ◌<◌, ◌≡◌, refl, sym, ap, ◌∙◌, subst, Bool, true, false, Option, none,
  some, List, [], ◌∷◌, ◌++◌, Bytes, if◌then◌else◌, length, drop, ◌>>=◌, arith, All, length-append,
  drop-append, ◌==◌, map,
}
use husarnet.WebSocket.Message.{
  Message, Parsed, parsed, encode, encode_flags, encode_length, encode_payload, max_payload,
}
use husarnet.WebSocket.Message
use husarnet.WebSocket.Message.RoundTrip.{
  parse-encode, plain_message, readable, readable_le, encode-fits,
}
use husarnet.WebSocket.Session.{WebSocket, Context, handle_message, handle_data}

-- A message of the other end, with its masking key.
pub record Frame : Type 0 where
  pub opcode : ℕ
  pub masked : Bool
  pub key : Bytes
  pub payload : Bytes

abbrev pub IsFrame : Bool → Frame → Type 0
IsFrame signed f = (f.opcode < 16) × ((length f.key ≡ 4) × (length f.payload ≤ readable signed))

abbrev pub message_of : Frame → Message
message_of f = plain_message f.opcode f.masked f.payload

-- The bytes that `encode` makes of it.
abbrev bytes_of : Option Bytes → Bytes
bytes_of none = []
bytes_of (some bytes) = bytes

abbrev pub written : Frame → Bytes
written f = bytes_of (encode 1024 f.key (message_of f))

abbrev pub frames : List Frame → Bytes
frames [] = []
frames (f ∷ fs) = written f ++ frames fs

bind_same :
    {A B : Type 0} (o : Option A) (f g : A → Option B)
    → ((a : A) → f a ≡ g a)
    → (o >>= f) ≡ (o >>= g)
bind_same none f g h = refl
bind_same (some a) f g h = h a

if_false : {A : Type 0} (b : Bool) (x y : A) → b ≡ false → (if b then x else y) ≡ y
if_false true x y h = cc
if_false false x y h = refl

written_some : (f : Frame) → length f.payload ≤ max_payload → 0 < length (written f)
written_some f h =
    subst (λ o. 0 < length (bytes_of o)) (sym (encode-fits f.key (message_of f) h)) (omega arith)

fits_data : (signed : Bool) (f : Frame) → IsFrame signed f → length f.payload ≤ max_payload
fits_data signed f ok = omega (arith, ok.1.1, readable_le signed)

parse_written :
    (signed : Bool) (f : Frame) (rest : Bytes)
    → IsFrame signed f
    → Message.parse signed (written f ++ rest) ≡ parsed (length (written f)) (message_of f)
parse_written signed f rest ok =
    let (bytes, (e, p)) =
      parse-encode signed f.masked f.opcode f.key f.payload rest ok.1.0 ok.0 ok.1.1 in
    let same : written f ≡ bytes = ap bytes_of e in rw same p

module _ {W : Type 0} (ctx : Context W) where
  -- The messages handled one after the other.
  abbrev pub handle_all : List Message → WebSocket W → Option (WebSocket W)
  handle_all [] s = some s
  handle_all (m ∷ ms) s = handle_message ctx m s >>= λ t. handle_all ms t

  data_step :
      (fuel : ℕ) (buf : Bytes) (s : WebSocket W) (n : ℕ) (m : Message)
      → 0 < length buf
      → Message.parse ctx.signed buf ≡ parsed n m
      → handle_data ctx (suc fuel) buf s
        ≡ (handle_message ctx m s >>= λ t. handle_data ctx fuel (drop n buf) t)
  unfolding handle_data
  data_step fuel [] s n m h e = absurd (omega arith)
  data_step fuel (c ∷ buf) s n m h e = rw e (if_false (length (c ∷ buf) == 0) _ _ not_empty)
    where
      not_empty : (length (c ∷ buf) == 0) ≡ false
      not_empty = ground arith

  data_done : (fuel : ℕ) (s : WebSocket W) → handle_data ctx fuel [] s ≡ some s
  unfolding handle_data
  data_done zero s = refl
  data_done (suc fuel) s = refl

  -- Frames that `encode` makes, with a key of four bytes and at most 127 bytes of payload where `char` is
  -- signed or 128 where it is not, that stand one after the other in a read, are handled one after the
  -- other, whatever their masks and keys: the loop takes each frame's bytes and no others.
  pub handle_data-frames :
      (fuel : ℕ) (fs : List Frame) (s : WebSocket W)
      → All (IsFrame ctx.signed) fs
      → length (frames fs) ≤ fuel
      → handle_data ctx fuel (frames fs) s ≡ handle_all (map message_of fs) s
  handle_data-frames fuel [] s ok h = data_done fuel s
  handle_data-frames zero (f ∷ fs) s ok h = absurd (
      omega (
        arith,
        h,
        length-append (written f) (frames fs),
        written_some f (fits_data ctx.signed f ok.0),
      ))
  handle_data-frames (suc fuel) (f ∷ fs) s ok h =
      data_step fuel (frames (f ∷ fs)) s (length (written f)) (message_of f)
        (omega (arith, size, some_bytes)) (parse_written ctx.signed f (frames fs) ok.0)
      ∙ bind_same (handle_message ctx (message_of f) s) _ _ (λ t.
        ap (λ rest. handle_data ctx fuel rest t)
          (drop-append (length (written f)) (written f) (frames fs) refl)
        ∙ handle_data-frames fuel fs t ok.1 (omega (arith, h, size, some_bytes)))
    where
      size : length (frames (f ∷ fs)) ≡ length (written f) + length (frames fs)
      size = length-append (written f) (frames fs)

      some_bytes : 0 < length (written f)
      some_bytes = written_some f (fits_data ctx.signed f ok.0)
