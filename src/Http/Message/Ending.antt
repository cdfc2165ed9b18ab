-- ===== src/Http/Message/Ending.antt =====
-- end() after any number of write() calls: the whole message on the socket, by either of its ways.
use libnode.Base.{
  ℕ, ◌≡◌, refl, ap, ◌∙◌, Bool, true, false, Option, some, List, [], ◌∷◌, ◌++◌, append-nil,
  append_assoc, if◌then◌else◌,
}
use libnode.Net.Socket.State.{Bytes, Chunk, undefined, other, text, buffer, Encoding, no_encoding}
use libnode.Http.Message.State.{Stream, Codec, finished_event, Message}
use libnode.Http.Message.Ops.{send, finish}
use libnode.Http.Message.Body.{
  chunk_text, last_chunk, ensure_header, write, end_hot, end_cold, end_data, finish_if_flushed, end,
}
use libnode.Http.Message.Transfer.{Taking, streaming, pending}
use libnode.Http.Message.Response.{
  is_data, frame, frames, terminator, all_data, chunking, write_all, write-Streams,
  write_all-Streams, end_cold_nil-at,
}

-- What end() may be given: nothing, or data.
abbrev pub is_final : Chunk → Bool
is_final undefined = true
is_final d = is_data d

-- `t` is the message `m` once it has put `bs` on the socket `p` and is finished.
abbrev pub Whole :
    {P : Type 0} → (P → Bytes) → (P → Type 0) → Message P → P → Bytes → Message P → Type 0
Whole {P} sent Ready m p bs t =
    (p' : P) × (t.socket ≡ some p')
    × Ready p'
    × (sent p' ≡ sent p ++ bs)
    × (t.output ≡ [])
    × (t.finished ≡ true)
    × (t.emitted ≡ m.emitted ++ finished_event ∷ [])

module _ {P : Type 0} (stream : Stream P) (cd : Codec) (sent : P → Bytes) (Ready : P → Type 0)
    (plain : Encoding → Bool) (taking : Taking stream sent Ready plain) where
  -- `t` is the message once `bs` is sent; the hot way of end() also leaves the text in `resBuf_`.
  abbrev Ends : Message P → Bytes → P → Bytes → Message P → Type 0
  Ends m h p bs t =
      (p' : P) × (r : Option Bytes) × (t ≡ record (streaming m h true p') { res_buf = r })
      × Ready p'
      × (sent p' ≡ sent p ++ bs)

  end_cold-Ends :
      (k : Bool) (d : Chunk) (enc : Encoding) (m : Message P) (c : ℕ) (h : Bytes) (b : Bool) (p : P)
      → Ready p
      → plain enc ≡ true
      → is_data d ≡ true
      → Ends
          (chunking k m)
          (c ∷ h)
          p
          (pending b (c ∷ h) ++ (frame cd k enc d ++ terminator k m.trailer))
          (send stream
            (text (
              if (write stream cd d enc (streaming (chunking k m) (c ∷ h) b p)).0.chunked_encoding
              then last_chunk
                  (write stream cd d enc (streaming (chunking k m) (c ∷ h) b p)).0.trailer
              else []))
            no_encoding
            (write stream cd d enc (streaming (chunking k m) (c ∷ h) b p)).0).0
  end_cold-Ends k d enc m c h b p r e i =
      let s = write-Streams stream cd sent Ready plain taking d enc (chunking k m) c h b p r e i in
      let u = end_cold_nil-at stream cd sent Ready plain taking k enc m c h true s.0 s.2 in
      (
        u.0,
        some (c ∷ h),
        ap
              (λ t.
                (send stream (text (if t.chunked_encoding then last_chunk t.trailer else []))
                  no_encoding t).0)
              s.1
            ∙ (unfold end_cold in u.1),
        u.2,
        simp (u.3, s.3, append_assoc),
      )

  end_hot-Ends :
      (k : Bool) (t : Bytes) (enc : Encoding) (m : Message P) (c : ℕ) (h : Bytes) (p : P)
      → Ready p
      → plain enc ≡ true
      → Ends
          (chunking k m)
          (c ∷ h)
          p
          (c ∷ h ++ (frame cd k enc (text t) ++ terminator k m.trailer))
          (end_hot stream cd t enc (streaming (chunking k m) (c ∷ h) false p)).0
  unfolding end_hot
  end_hot-Ends true t enc m c h p r e =
      let all = text (c ∷ h ++ (chunk_text stream cd t enc ++ last_chunk m.trailer)) in
      (
        (stream.put all enc p).0,
        some (c ∷ h ++ (chunk_text stream cd t enc ++ last_chunk m.trailer)),
        refl,
        taking.put_ready all enc p r,
        taking.put_sent all enc p r e,
      )
  end_hot-Ends false t enc m c h p r e =
      let all = text (c ∷ h ++ t) in
      (
        (stream.put all enc p).0,
        some (c ∷ h ++ t),
        refl,
        taking.put_ready all enc p r,
        simp (taking.put_sent all enc p r e, append-nil),
      )

  end_data-Ends :
      (k : Bool) (d : Chunk) (enc : Encoding) (m : Message P) (c : ℕ) (h : Bytes) (b : Bool) (p : P)
      → Ready p
      → plain enc ≡ true
      → is_final d ≡ true
      → Ends
          (chunking k m)
          (c ∷ h)
          p
          (pending b (c ∷ h) ++ (frame cd k enc d ++ terminator k m.trailer))
          (end_data stream cd d enc (streaming (chunking k m) (c ∷ h) b p)).0
  unfolding end_data end_cold
  end_data-Ends true undefined enc m c h b p r e i =
      let u = end_cold_nil-at stream cd sent Ready plain taking true enc m c h b p r in
      (u.0, some (c ∷ h), u.1, u.2, u.3)
  end_data-Ends false undefined enc m c h b p r e i =
      let u = end_cold_nil-at stream cd sent Ready plain taking false enc m c h b p r in
      (u.0, some (c ∷ h), u.1, u.2, u.3)
  end_data-Ends k other enc m c h b p r e i = absurd (cc)
  end_data-Ends k (text []) enc m c h b p r e i = absurd (cc)
  end_data-Ends k (buffer []) enc m c h b p r e i = absurd (cc)
  end_data-Ends k (buffer (x ∷ d)) enc m c h b p r e i =
      end_cold-Ends k (buffer (x ∷ d)) enc m c h b p r e refl
  end_data-Ends k (text (x ∷ t)) enc m c h true p r e i =
      end_cold-Ends k (text (x ∷ t)) enc m c h true p r e refl
  end_data-Ends k (text (x ∷ t)) enc m c h false p r e i =
      rw (taking.writable_ready p r, taking.mine_ready p r) (end_hot-Ends k (x ∷ t) enc m c h p r e)

  end-finish_if_flushed :
      (d : Chunk) (enc : Encoding) (m : Message P) (h : Bytes) (b : Bool) (p : P)
      → (end stream cd d enc (streaming m h b p)).0
        ≡ finish_if_flushed stream cd
            (record (end_data stream cd d enc (streaming m h b p)).0 { finished = true })
  unfolding end ensure_header
  end-finish_if_flushed d enc m h b p = refl

  finish_if_flushed_ready :
      (m : Message P) (h : Bytes) (r : Option Bytes) (p : P)
      → Ready p
      → finish_if_flushed stream cd (record (streaming m h true p) { res_buf = r; finished = true })
        ≡ finish (record (streaming m h true p) { res_buf = r; finished = true })
  unfolding finish_if_flushed
  finish_if_flushed_ready m h r p rd = rw (taking.mine_ready p rd) refl

  -- end() on a message that streams.
  end-Ends :
      (d : Chunk) (enc : Encoding) (m : Message P) (c : ℕ) (h : Bytes) (b : Bool) (p : P)
      → Ready p
      → plain enc ≡ true
      → is_final d ≡ true
      → Whole sent Ready m p
          (pending b (c ∷ h)
            ++ (frame cd m.chunked_encoding enc d ++ terminator m.chunked_encoding m.trailer))
          (end stream cd d enc (streaming m (c ∷ h) b p)).0
  unfolding finish
  end-Ends d enc m c h b p r e i =
      let u = end_data-Ends m.chunked_encoding d enc m c h b p r e i in
      let q =
        end-finish_if_flushed d enc m (c ∷ h) b p
        ∙ ap (λ t. finish_if_flushed stream cd (record t { finished = true })) u.2
        ∙ finish_if_flushed_ready m (c ∷ h) u.1 u.0 u.3 in
      rw q (u.0, refl, u.3, u.4, refl, refl, refl)

  -- A message with a body is written to a socket that is ready, with any number of values that are
  -- not empty and then end() with nothing or with such a value, in an encoding that keeps the bytes:
  -- the socket takes the header once, each value in its order, as a chunk if the message is
  -- chunked, and the end of the body; nothing is left, and the message is finished and says so once.
  -- That holds whether end() goes its hot way (header and body in one write) or not.
  pub end-write_all :
      (ds : List Chunk) (d : Chunk) (enc : Encoding) (m : Message P) (c : ℕ) (h : Bytes) (p : P)
      → Ready p
      → plain enc ≡ true
      → all_data ds ≡ true
      → is_final d ≡ true
      → let k = m.chunked_encoding in
        Whole sent Ready m p
          (c ∷ h ++ (frames cd k enc ds ++ (frame cd k enc d ++ terminator k m.trailer)))
          (end stream cd d enc (write_all stream cd enc ds (streaming m (c ∷ h) false p))).0
  end-write_all [] d enc m c h p r e i j = end-Ends d enc m c h false p r e j
  end-write_all (d' ∷ ds) d enc m c h p r e i j =
      let s = write_all-Streams stream cd sent Ready plain taking d' ds enc m c h false p r e i in
      let u = end-Ends d enc m c h true s.0 s.2 e j in
      rw s.1 (u.0, u.1, u.2, simp (u.3, s.3, append_assoc), u.4, u.5, u.6)
