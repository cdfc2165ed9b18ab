-- ===== src/Http/Message/Transfer.antt =====
-- What http::OutgoingMessage puts on its socket: header, body and end, in one order whichever way
-- end() takes.
use libnode.Base.{
  ℕ, ◌≡◌, refl, sym, ap, ◌∙◌, Bool, true, false, some, [], ◌∷◌, ◌++◌, append-nil, append_assoc,
}
use libnode.Net.Socket.State.{
  Bytes, Chunk, undefined, other, text, buffer, Encoding, no_encoding, utf8,
}
use libnode.Http.Message.State.{Stream, Codec, Message}
use libnode.Http.Message.Ops.{write_raw, put_or_keep, drain_output, put_after, send_first, send}

-- The bytes of a value.
abbrev pub payload : Chunk → Bytes
payload undefined = []
payload other = []
payload (text t) = t
payload (buffer b) = b

-- A stream that takes what it is given while it is ready, and stays ready. `sent` is what it took;
-- a text in a `plain` encoding goes out as it is.
pub record Taking {P : Type 0} (stream : Stream P) (sent : P → Bytes) (Ready : P → Type 0)
    (plain : Encoding → Bool) : Type 0 where
  pub writable_ready : (p : P) → Ready p → stream.is_writable p ≡ true
  pub mine_ready : (p : P) → Ready p → stream.is_mine p ≡ true
  pub put_ready : (d : Chunk) (enc : Encoding) (p : P) → Ready p → Ready (stream.put d enc p).0
  pub put_sent :
      (d : Chunk) (enc : Encoding) (p : P)
      → Ready p
      → plain enc ≡ true
      → sent (stream.put d enc p).0 ≡ sent p ++ payload d
  pub plain_default : plain no_encoding ≡ true
  pub plain_utf8 : plain utf8 ≡ true

-- A message with a body, a socket and the header `h`, which has been sent or not, and nothing kept.
abbrev pub streaming : {P : Type 0} → Message P → Bytes → Bool → P → Message P
streaming m h b p = record m {
  socket = some p;
  output = [];
  header = some h;
  res_buf = some h;
  has_body = true;
  finished = false;
  header_sent = b;
}

abbrev pub pending : Bool → Bytes → Bytes
pending true h = []
pending false h = h

module _ {P : Type 0} (stream : Stream P) (cd : Codec) (sent : P → Bytes) (Ready : P → Type 0)
    (plain : Encoding → Bool) (taking : Taking stream sent Ready plain) where
  -- `t` is the message once `bs` is sent.
  abbrev pub Streams : Message P → Bytes → P → Bytes → Message P → Type 0
  Streams m h p bs t = (p' : P) × (t ≡ streaming m h true p') × Ready p' × (sent p' ≡ sent p ++ bs)

  put_or_keep-streaming :
      (d : Chunk) (enc : Encoding) (m : Message P) (h : Bytes) (b : Bool) (p : P)
      → Ready p
      → (put_or_keep stream d enc (streaming m h b p)).0 ≡ streaming m h b (stream.put d enc p).0
  unfolding put_or_keep put_after drain_output
  put_or_keep-streaming d enc m h b p r = rw (taking.mine_ready p r, taking.writable_ready p r) refl

  -- A buffer that is sent first goes out behind the header that was put in front of it.
  put_or_keep-header :
      (d : Chunk) (enc : Encoding) (m : Message P) (h : Bytes) (p : P)
      → Ready p
      → (put_or_keep stream d enc
          (record (streaming m h true p) { output = (text h, utf8) ∷ [] })).0
        ≡ streaming m h true (stream.put d enc (stream.put (text h) utf8 p).0).0
  unfolding put_or_keep put_after drain_output
  put_or_keep-header d enc m h p r = rw (taking.mine_ready p r, taking.writable_ready p r) refl

  pub send_text-Streams :
      (t : Bytes) (enc : Encoding) (m : Message P) (c : ℕ) (h : Bytes) (b : Bool) (p : P)
      → Ready p
      → plain enc ≡ true
      → Streams m
          (c ∷ h)
          p
          (pending b (c ∷ h) ++ t)
          (send stream (text t) enc (streaming m (c ∷ h) b p)).0
  unfolding send send_first write_raw
  send_text-Streams t enc m c h false p r e = (
    (stream.put (text (c ∷ h ++ t)) enc p).0,
    put_or_keep-streaming (text (c ∷ h ++ t)) enc m (c ∷ h) true p r,
    taking.put_ready (text (c ∷ h ++ t)) enc p r,
    taking.put_sent (text (c ∷ h ++ t)) enc p r e,
  )
  send_text-Streams [] enc m c h true p r e = (p, refl, r, sym (append-nil (sent p)))
  send_text-Streams (x ∷ t) enc m c h true p r e = (
    (stream.put (text (x ∷ t)) enc p).0,
    put_or_keep-streaming (text (x ∷ t)) enc m (c ∷ h) true p r,
    taking.put_ready (text (x ∷ t)) enc p r,
    taking.put_sent (text (x ∷ t)) enc p r e,
  )

  pub send_buffer-Streams :
      (x : ℕ) (d : Bytes) (enc : Encoding) (m : Message P) (c : ℕ) (h : Bytes) (b : Bool) (p : P)
      → Ready p
      → plain enc ≡ true
      → Streams m
          (c ∷ h)
          p
          (pending b (c ∷ h) ++ (x ∷ d))
          (send stream (buffer (x ∷ d)) enc (streaming m (c ∷ h) b p)).0
  unfolding send send_first write_raw
  send_buffer-Streams x d enc m c h true p r e = (
    (stream.put (buffer (x ∷ d)) enc p).0,
    put_or_keep-streaming (buffer (x ∷ d)) enc m (c ∷ h) true p r,
    taking.put_ready (buffer (x ∷ d)) enc p r,
    taking.put_sent (buffer (x ∷ d)) enc p r e,
  )
  send_buffer-Streams x d enc m c h false p r e =
      let q = (stream.put (text (c ∷ h)) utf8 p).0 in
      let r' = taking.put_ready (text (c ∷ h)) utf8 p r in
      (
        (stream.put (buffer (x ∷ d)) enc q).0,
        put_or_keep-header (buffer (x ∷ d)) enc m (c ∷ h) p r,
        taking.put_ready (buffer (x ∷ d)) enc q r',
        taking.put_sent (buffer (x ∷ d)) enc q r' e
            ∙ ap (λ s. s ++ x ∷ d) (taking.put_sent (text (c ∷ h)) utf8 p r taking.plain_utf8)
            ∙ append_assoc (sent p) (c ∷ h) (x ∷ d),
      )
