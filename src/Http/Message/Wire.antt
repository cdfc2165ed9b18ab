-- ===== src/Http/Message/Wire.antt =====
-- net::Socket is a stream for http::OutgoingMessage: what the message needs, the socket does.
use libnode.Base.{
  ◌≡◌, refl, sym, ap, ◌∙◌, Bool, true, false, none, some, ◌++◌, is_some, append-nil, Option-cases,
  inl, inr,
}
use libnode.Net.Socket.State.{
  Bytes, Chunk, undefined, other, text, buffer, Encoding, no_encoding, utf8, Socket, Env,
}
use libnode.Net.Socket.Ops.{to_buffer, write_bytes, write}
use libnode.Net.Socket.Transfer.{sent, Accepts, write_bytes-Sends}
use libnode.Http.Message.State.{Stream}
use libnode.Http.Message.Transfer.{payload, Taking}

-- A socket, and whether its httpMessage() is the message; it has no other one.
abbrev pub Peer : Type 0
Peer = Bool × Socket

abbrev pub put_socket : Env → Chunk → Encoding → Peer → Peer × Bool
put_socket env d enc (mine, s) = let (s', r) = write env d enc none s in ((mine, s'), r)

abbrev pub socket_stream : Env → Stream Peer
socket_stream env = record {
  is_writable = λ p. p.1.writable;
  is_mine = λ p. p.0;
  has_message = λ p. p.0;
  put = put_socket env;
  set_http_message = λ p. (true, p.1);
}

abbrev pub peer_sent : Peer → Bytes
peer_sent p = sent p.1.trace

-- The socket is the message's, connected and writable.
abbrev pub IsOpen : Peer → Type 0
IsOpen p =
    (p.0 ≡ true) × (p.1.writable ≡ true) × (is_some p.1.handle ≡ true) × (p.1.connecting ≡ false)

-- UTF-8, or no encoding, which write() takes for UTF-8.
abbrev pub is_utf8 : Encoding → Bool
is_utf8 no_encoding = true
is_utf8 utf8 = true
is_utf8 enc = false

-- An encoder that leaves each text as it is, as UTF-8 leaves those of ASCII.
abbrev pub KeepsText : Env → Type 0
KeepsText env = (t : Bytes) → env.encode utf8 t ≡ some t

module _ (env : Env) (accepts : Accepts env) where
  write-some :
      (d : Chunk) (enc : Encoding) (b : Bytes) (s : Socket)
      → to_buffer env d enc ≡ some b
      → (write env d enc none s).0 ≡ (write_bytes env b none s).0
  unfolding write
  write-some d enc b s h = rw (h, write) refl

  write-none :
      (d : Chunk) (enc : Encoding) (s : Socket)
      → to_buffer env d enc ≡ none
      → (write env d enc none s).0 ≡ s
  unfolding write
  write-none d enc s h = rw (h, write) refl

  put-IsOpen :
      (d : Chunk) (enc : Encoding) (p : Peer) → IsOpen p → IsOpen (put_socket env d enc p).0
  put-IsOpen d enc (mine, s) o = elim (Option-cases (to_buffer env d enc)) [
    | inl h ↦ rw (write-none d enc s h) o
    | inr (b, h) ↦
        let q = write_bytes-Sends env accepts b none s o.2 o.3 in
        rw (write-some d enc b s h)
          (o.0, q.same_writable ∙ o.1, ap is_some q.same_handle ∙ o.2, q.same_connecting ∙ o.3)
  ]

  sent_at :
      (d : Chunk) (enc : Encoding) (b : Bytes) (p : Peer)
      → IsOpen p
      → to_buffer env d enc ≡ some b
      → peer_sent (put_socket env d enc p).0 ≡ peer_sent p ++ b
  sent_at d enc b (mine, s) o h =
      rw (write-some d enc b s h) ((write_bytes-Sends env accepts b none s o.2 o.3).order)

  put-sent :
      KeepsText env
      → (d : Chunk) (enc : Encoding) (p : Peer) → IsOpen p
      → is_utf8 enc ≡ true
      → peer_sent (put_socket env d enc p).0 ≡ peer_sent p ++ payload d
  unfolding to_buffer
  put-sent keeps undefined enc (mine, s) o e =
      rw (write-none undefined enc s refl) (sym (append-nil (sent s.trace)))
  put-sent keeps other enc (mine, s) o e =
      rw (write-none other enc s refl) (sym (append-nil (sent s.trace)))
  put-sent keeps (buffer b) enc p o e = sent_at (buffer b) enc b p o refl
  put-sent keeps (text t) no_encoding p o e = sent_at (text t) no_encoding t p o (keeps t)
  put-sent keeps (text t) utf8 p o e = sent_at (text t) utf8 t p o (keeps t)
  put-sent keeps (text t) enc p o e = absurd (cc)

  -- A socket that is connected, whose writes libuv accepts, keeps the promises that
  -- http::OutgoingMessage relies on: it stays open, and what it is given goes out behind what went
  -- out before, if texts are encoded as themselves.
  pub socket_stream-Taking : KeepsText env → Taking (socket_stream env) peer_sent IsOpen is_utf8
  socket_stream-Taking keeps = record {
    writable_ready = λ p o. o.1;
    mine_ready = λ p o. o.0;
    put_ready = put-IsOpen;
    put_sent = put-sent keeps;
    plain_default = refl;
    plain_utf8 = refl;
  }
