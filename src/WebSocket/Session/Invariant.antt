-- ===== src/WebSocket/Session/Invariant.antt =====
-- A WebSocket has a connection exactly when it is connecting or open, and it opens only by a verified
-- answer.
use husarnet.Common.{
  ℕ, zero, suc, ◌+◌, ◌≡◌, refl, sym, ◌∙◌, subst, Bool, true, false, Option, none, some, Bytes,
  if◌then◌else◌, length, drop, ◌>>=◌, ◌==◌,
}
use husarnet.Http.{Result, ok, incomplete, invalid, HttpMessage, new_http_message}
use husarnet.Http
use husarnet.TcpConnection.{TcpConnection, write}
use husarnet.WebSocket.Message.{
  Message, Parsed, rejected, overflow, parsed, op_text, op_binary, op_ping, op_close,
}
use husarnet.WebSocket.Message
use husarnet.WebSocket.Handshake.{verify_server_handshake}
use husarnet.WebSocket.Session.{
  State, sock_closed, ws_closed, ws_connecting, ws_open, ws_closing, WebSocket, Context,
  close_socket, send_raw, send_message, send_pong, send_close, handle_message, handle_data,
  handle_handshake, handle_read,
}

-- What holds if there is a result.
abbrev pub OnSome {ℓ} : {A : Type ℓ} → (A → Type 0) → Option A → Type 0
OnSome P none = Unit
OnSome P (some a) = P a

pub OnSome-bind {ℓ} :
    {A : Type ℓ} {B : Type 0} (P : B → Type 0) (o : Option A) (f : A → Option B)
    → ((a : A) → o ≡ some a → OnSome P (f a))
    → OnSome P (o >>= f)
OnSome-bind P none f h = tt
OnSome-bind P (some a) f h = h a refl

pub OnSome-if :
    {A : Type 0} (P : A → Type 0) (b : Bool) (x y : Option A)
    → OnSome P x
    → OnSome P y
    → OnSome P (if b then x else y)
OnSome-if P true x y h k = h
OnSome-if P false x y h k = k

-- Which connection goes with a state.
abbrev pub Linked : State → Option TcpConnection → Type 0
Linked sock_closed none = Unit
Linked sock_closed (some c) = ⊥
Linked ws_closed conn = ⊥
Linked ws_connecting none = ⊥
Linked ws_connecting (some c) = c.is_open ≡ true
Linked ws_open none = ⊥
Linked ws_open (some c) = c.is_open ≡ true
Linked ws_closing conn = ⊥

abbrev pub SessionOk : {W : Type 0} → WebSocket W → Type 0
SessionOk s = Linked s.state s.conn

-- What sending leaves as it is.
abbrev pub Same : {W : Type 0} → WebSocket W → WebSocket W → Type 0
Same s t = (t.state ≡ s.state) × ((t.conn ≡ s.conn) × (t.delivered ≡ s.delivered))

module _ {W : Type 0} (ctx : Context W) where
  -- Sending needs a connection and keeps it.
  abbrev pub SentOn : WebSocket W → Bool × WebSocket W → Type 0
  SentOn s r = Same s r.1 × ((c : TcpConnection) × (r.1.conn ≡ some c))

  pub send_raw-SentOn : (bytes : Bytes) (s : WebSocket W) → OnSome (SentOn s) (send_raw ctx bytes s)
  unfolding send_raw
  send_raw-SentOn bytes s = OnSome-bind (SentOn s) s.conn _ (λ c e.
      OnSome-bind (SentOn s) (write ctx.io c 1024 bytes s.world) _
        (λ r f. ((refl, (refl, refl)), (c, e))))

  send_message-SentOn : (m : Message) (s : WebSocket W) → OnSome (SentOn s) (send_message ctx m s)
  unfolding send_message
  send_message-SentOn m s =
      OnSome-bind (SentOn s) (Message.encode 1024 (ctx.random_bytes s.draws 4) m) _
        (λ bytes e. send_raw-SentOn bytes (record s { draws = s.draws + 1 }))

  pub Linked-Same : (s t : WebSocket W) → Same s t → SessionOk s → SessionOk t
  Linked-Same s t v h =
      subst (λ st. Linked st t.conn) (sym v.0) (subst (λ c. Linked s.state c) (sym v.1.0) h)

  pub close_socket-closed :
      (s : WebSocket W) (c : TcpConnection) → s.conn ≡ some c → SessionOk (close_socket ctx s)
  unfolding close_socket
  close_socket-closed s c e = rw e tt

  pub close_socket-SessionOk : (s : WebSocket W) → SessionOk s → SessionOk (close_socket ctx s)
  unfolding close_socket
  close_socket-SessionOk s h = closed s.conn
    where
      closed :
          (o : Option TcpConnection)
          → SessionOk (elim o [ none ↦ s | some c ↦ record s { conn = none; state = sock_closed } ])
      closed none = h
      closed (some c) = tt

  pub sent_on :
      (m : Message) (s : WebSocket W) (r : Bool × WebSocket W)
      → send_message ctx m s ≡ some r
      → SentOn s r
  sent_on m s r e = subst (OnSome (SentOn s)) e (send_message-SentOn m s)

  send_pong-SessionOk :
      (m : Message) (s : WebSocket W) → SessionOk s → OnSome SessionOk (send_pong ctx m s)
  unfolding send_pong
  send_pong-SessionOk m s h =
      OnSome-bind SessionOk (send_message ctx _ s) _
        (λ r e. Linked-Same s r.1 (sent_on _ s r e).0 h)

  send_close-linked :
      (s : WebSocket W) → OnSome (λ t. (c : TcpConnection) × (t.conn ≡ some c)) (send_close ctx s)
  unfolding send_close
  send_close-linked s = OnSome-bind _ (send_message ctx _ s) _ (λ r e. (sent_on _ s r e).1)

  -- A handled message leaves the state and the connection in agreement.
  handle_message-SessionOk :
      (m : Message) (s : WebSocket W) → SessionOk s → OnSome SessionOk (handle_message ctx m s)
  unfolding handle_message
  handle_message-SessionOk m s h = OnSome-if SessionOk (m.opcode == op_text) _ _ h (
      OnSome-if SessionOk (m.opcode == op_binary) _ _ h (
        OnSome-if SessionOk (m.opcode == op_ping) _ _ (send_pong-SessionOk m s h)
          (OnSome-if SessionOk (m.opcode == op_close) _ _ closed h)))
    where
      closing : WebSocket W
      closing = record s { state = ws_closing }

      closed : OnSome SessionOk (send_close ctx closing >>= λ t. some (close_socket ctx t))
      closed = OnSome-bind SessionOk (send_close ctx closing) _ (λ t e.
          let (c, f) = subst (OnSome _) e (send_close-linked closing) in close_socket-closed t c f)

  pub handle_data-SessionOk :
      (fuel : ℕ) (buf : Bytes) (s : WebSocket W)
      → SessionOk s
      → OnSome SessionOk (handle_data ctx fuel buf s)
  unfolding handle_data
  handle_data-SessionOk zero buf s h = h
  handle_data-SessionOk (suc fuel) buf s h =
      OnSome-if SessionOk (length buf == 0) _ _ h
        (step (Message.parse ctx.signed buf) (λ rest t k. handle_data-SessionOk fuel rest t k))
    where
      step :
          (r : Parsed)
          → ((rest : Bytes) (t : WebSocket W)
              → SessionOk t
              → OnSome SessionOk (handle_data ctx fuel rest t))
          → OnSome SessionOk (elim r [
            | rejected ↦ some s
            | overflow ↦ none
            | parsed consumed m ↦
                handle_message ctx m s >>= λ t. handle_data ctx fuel (drop consumed buf) t
          ])
      step rejected ih = h
      step overflow ih = tt
      step (parsed consumed m) ih = OnSome-bind SessionOk (handle_message ctx m s) _ (λ t e.
          ih (drop consumed buf) t (subst (OnSome SessionOk) e (handle_message-SessionOk m s h)))

  opened :
      (s : WebSocket W) (st : State)
      → s.state ≡ st
      → st ≡ ws_connecting
      → SessionOk s
      → Linked ws_open s.conn
  opened s st e f h = at_open s.conn (subst (λ x. Linked x s.conn) (e ∙ f) h)
    where
      at_open : (o : Option TcpConnection) → Linked ws_connecting o → Linked ws_open o
      at_open none k = k
      at_open (some c) k = k

  handle_handshake-SessionOk :
      (buf : Bytes) (s : WebSocket W)
      → SessionOk s
      → s.state ≡ ws_connecting
      → OnSome SessionOk (handle_handshake ctx buf s)
  unfolding handle_handshake
  handle_handshake-SessionOk buf s h e =
      OnSome-bind SessionOk (Http.parse ctx.to_unsigned ctx.to_size buf new_http_message) _
        (λ r f. answered r.0 (verify_server_handshake ctx.digests s.nonce r.1))
    where
      answered :
          (result : Result) (verified : Bool)
          → OnSome SessionOk (elim result [
            | ok ↦
                if verified then some (record s { state = ws_open }) else some (close_socket ctx s)
            | _ ↦ some (close_socket ctx s)
          ])
      answered ok true = opened s s.state refl e h
      answered ok false = close_socket-SessionOk s h
      answered incomplete verified = close_socket-SessionOk s h
      answered invalid verified = close_socket-SessionOk s h

  pub handle_read-SessionOk :
      (buf : Bytes) (s : WebSocket W) → SessionOk s → OnSome SessionOk (handle_read ctx buf s)
  unfolding handle_read
  handle_read-SessionOk buf s h = by_state s.state refl
    where
      by_state :
          (st : State)
          → s.state ≡ st
          → OnSome SessionOk (elim st [
            | sock_closed ↦ some s
            | ws_closed ↦ some s
            | ws_connecting ↦ handle_handshake ctx buf s
            | ws_open ↦ handle_data ctx (length buf) buf s
            | ws_closing ↦ handle_data ctx (length buf) buf s
          ])
      by_state sock_closed e = h
      by_state ws_closed e = h
      by_state ws_connecting e = handle_handshake-SessionOk buf s h e
      by_state ws_open e = handle_data-SessionOk (length buf) buf s h
      by_state ws_closing e = handle_data-SessionOk (length buf) buf s h
