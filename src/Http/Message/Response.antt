-- ===== src/Http/Message/Response.antt =====
-- A whole message: write() calls and then end().
use libnode.Base.{
  ℕ, ◌≡◌, ap, ◌∙◌, Bool, true, false, ◌&&◌, List, [], ◌∷◌, ◌++◌, arith, append-nil, append_assoc,
  length,
}
use libnode.Net.Socket.State.{Bytes, Chunk, undefined, other, text, buffer, Encoding, no_encoding}
use libnode.Http.Message.State.{Stream, Codec, Message}
use libnode.Http.Message.Ops.{send}
use libnode.Http.Message.Head.{crlf}
use libnode.Http.Message.Body.{
  chunk_head, chunk_text, last_chunk, ensure_header, write_body, write, end_cold,
}
use libnode.Http.Message.Transfer.{
  payload, Taking, streaming, pending, Streams, send_text-Streams, send_buffer-Streams,
}

-- A text or a buffer that is not empty.
abbrev pub is_data : Chunk → Bool
is_data (text (x ∷ t)) = true
is_data (buffer (x ∷ b)) = true
is_data d = false

-- The bytes that one write() adds to the body, chunked or not.
abbrev pub frame : Codec → Bool → Encoding → Chunk → Bytes
frame cd true enc (text t) = chunk_head cd (cd.byte_length t enc) ++ (t ++ crlf)
frame cd true enc (buffer b) = chunk_head cd (length b) ++ (b ++ crlf)
frame cd true enc d = []
frame cd false enc d = payload d

abbrev pub frames : Codec → Bool → Encoding → List Chunk → Bytes
frames cd c enc [] = []
frames cd c enc (d ∷ ds) = frame cd c enc d ++ frames cd c enc ds

-- The bytes that end the body.
abbrev pub terminator : Bool → Bytes → Bytes
terminator true trailer = last_chunk trailer
terminator false trailer = []

abbrev pub all_data : List Chunk → Bool
all_data [] = true
all_data (d ∷ ds) = is_data d && all_data ds

module _ {P : Type 0} (stream : Stream P) (cd : Codec) where
  -- write() for each value in turn.
  abbrev pub write_all : Encoding → List Chunk → Message P → Message P
  write_all enc [] m = m
  write_all enc (d ∷ ds) m = write_all enc ds (write stream cd d enc m).0

abbrev pub chunking : {P : Type 0} → Bool → Message P → Message P
chunking k m = record m { chunked_encoding = k }

module _ {P : Type 0} (stream : Stream P) (cd : Codec) (sent : P → Bytes) (Ready : P → Type 0)
    (plain : Encoding → Bool) (taking : Taking stream sent Ready plain) where
  write_text-at :
      (k : Bool) (x : ℕ) (t : Bytes) (enc : Encoding) (m : Message P) (c : ℕ) (h : Bytes) (b : Bool)
      (p : P)
      → Ready p
      → plain enc ≡ true
      → Streams stream cd sent Ready plain taking
          (chunking k m)
          (c ∷ h)
          p
          (pending b (c ∷ h) ++ frame cd k enc (text (x ∷ t)))
          (write stream cd (text (x ∷ t)) enc (streaming (chunking k m) (c ∷ h) b p)).0
  unfolding write write_body ensure_header
  write_text-at true x t enc m c h b p r e =
      send_text-Streams stream cd sent Ready plain taking (chunk_text stream cd (x ∷ t) enc) enc
        (chunking true m) c h b p r e
  write_text-at false x t enc m c h b p r e =
      send_text-Streams stream cd sent Ready plain taking (x ∷ t) enc (chunking false m) c h b p r e

  -- The three sends of a chunk that holds a buffer.
  send_chunk-Streams :
      (x : ℕ) (d : Bytes) (m : Message P) (c : ℕ) (h : Bytes) (b : Bool) (p : P)
      → Ready p
      → Streams stream cd sent Ready plain taking m
          (c ∷ h)
          p
          (pending b (c ∷ h) ++ frame cd true no_encoding (buffer (x ∷ d)))
          (send stream
            (text crlf)
            no_encoding
            (send stream
              (buffer (x ∷ d))
              no_encoding
              (send stream
                (text (chunk_head cd (length (x ∷ d))))
                no_encoding
                (streaming m (c ∷ h) b p)).0).0).0
  send_chunk-Streams x d m c h b p r =
      let e = taking.plain_default in
      let s =
        send_text-Streams stream cd sent Ready plain taking (chunk_head cd (length (x ∷ d)))
          no_encoding m c h b p r e in
      let u =
        send_buffer-Streams stream cd sent Ready plain taking x d no_encoding m c h true s.0 s.2
          e in
      let v =
        send_text-Streams stream cd sent Ready plain taking crlf no_encoding m c h true u.0 u.2 e in
      (
        v.0,
        ap
              (λ t.
                (send stream (text crlf) no_encoding
                  (send stream (buffer (x ∷ d)) no_encoding t).0).0)
              s.1
            ∙ ap (λ t. (send stream (text crlf) no_encoding t).0) u.1
            ∙ v.1,
        v.2,
        simp (v.3, u.3, s.3, append_assoc),
      )

  write_buffer-at :
      (k : Bool) (x : ℕ) (d : Bytes) (enc : Encoding) (m : Message P) (c : ℕ) (h : Bytes) (b : Bool)
      (p : P)
      → Ready p
      → plain enc ≡ true
      → Streams stream cd sent Ready plain taking
          (chunking k m)
          (c ∷ h)
          p
          (pending b (c ∷ h) ++ frame cd k enc (buffer (x ∷ d)))
          (write stream cd (buffer (x ∷ d)) enc (streaming (chunking k m) (c ∷ h) b p)).0
  unfolding write write_body ensure_header
  write_buffer-at true x d enc m c h b p r e = send_chunk-Streams x d (chunking true m) c h b p r
  write_buffer-at false x d enc m c h b p r e =
      send_buffer-Streams stream cd sent Ready plain taking x d enc (chunking false m) c h b p r e

  pub write-Streams :
      (d : Chunk) (enc : Encoding) (m : Message P) (c : ℕ) (h : Bytes) (b : Bool) (p : P)
      → Ready p
      → plain enc ≡ true
      → is_data d ≡ true
      → Streams stream cd sent Ready plain taking m
          (c ∷ h)
          p
          (pending b (c ∷ h) ++ frame cd m.chunked_encoding enc d)
          (write stream cd d enc (streaming m (c ∷ h) b p)).0
  write-Streams (text (x ∷ t)) enc m c h b p r e i =
      write_text-at m.chunked_encoding x t enc m c h b p r e
  write-Streams (buffer (x ∷ d)) enc m c h b p r e i =
      write_buffer-at m.chunked_encoding x d enc m c h b p r e
  write-Streams (text []) enc m c h b p r e i = absurd (cc)
  write-Streams (buffer []) enc m c h b p r e i = absurd (cc)
  write-Streams undefined enc m c h b p r e i = absurd (cc)
  write-Streams other enc m c h b p r e i = absurd (cc)

  -- write() for each value of a list that is not empty.
  pub write_all-Streams :
      (d : Chunk) (ds : List Chunk) (enc : Encoding) (m : Message P) (c : ℕ) (h : Bytes) (b : Bool)
      (p : P)
      → Ready p
      → plain enc ≡ true
      → all_data (d ∷ ds) ≡ true
      → Streams stream cd sent Ready plain taking m
          (c ∷ h)
          p
          (pending b (c ∷ h) ++ frames cd m.chunked_encoding enc (d ∷ ds))
          (write_all stream cd enc (d ∷ ds) (streaming m (c ∷ h) b p))
  write_all-Streams d [] enc m c h b p r e i =
      let s = write-Streams d enc m c h b p r e (ground arith) in
      (s.0, s.1, s.2, simp (s.3, append-nil))
  write_all-Streams d (d' ∷ ds) enc m c h b p r e i =
      let s = write-Streams d enc m c h b p r e (ground arith) in
      let u = write_all-Streams d' ds enc m c h true s.0 s.2 e (ground arith) in
      (
        u.0,
        ap (λ t. write_all stream cd enc (d' ∷ ds) t) s.1 ∙ u.1,
        u.2,
        simp (u.3, s.3, append_assoc),
      )

  pub end_cold_nil-at :
      (k : Bool) (enc : Encoding) (m : Message P) (c : ℕ) (h : Bytes) (b : Bool) (p : P)
      → Ready p
      → Streams stream cd sent Ready plain taking
          (chunking k m)
          (c ∷ h)
          p
          (pending b (c ∷ h) ++ terminator k m.trailer)
          (end_cold stream cd undefined enc (streaming (chunking k m) (c ∷ h) b p)).0
  unfolding end_cold
  end_cold_nil-at true enc m c h b p r =
      send_text-Streams stream cd sent Ready plain taking (last_chunk m.trailer) no_encoding
        (chunking true m) c h b p r taking.plain_default
  end_cold_nil-at false enc m c h b p r =
      send_text-Streams stream cd sent Ready plain taking [] no_encoding (chunking false m) c h b p
        r taking.plain_default
