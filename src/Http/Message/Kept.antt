-- ===== src/Http/Message/Kept.antt =====
-- What http::OutgoingMessage keeps while it has no socket, and what flush() sends of it.
use libnode.Base.{
  ℕ, ◌≡◌, refl, sym, ap, ◌∙◌, Bool, true, false, ◌&&◌, some, List, [], ◌∷◌, ◌++◌, arith, append-nil,
  append_assoc,
}
use libnode.Net.Socket.State.{
  Bytes, Chunk, text, Encoding, no_encoding, utf8, utf16be, utf16le, utf32be, utf32le, base64, hex,
}
use libnode.Http.Message.State.{Stream, finished_event, Message}
use libnode.Http.Message.Ops.{
  joins_last, concat_last, keep, drain_output, flushed, flush, assign_socket, finish,
}
use libnode.Http.Message.Transfer.{payload, Taking}

-- The bytes of the entries, in their order.
abbrev pub kept_bytes : List (Chunk × Encoding) → Bytes
kept_bytes [] = []
kept_bytes ((d, e) ∷ q) = payload d ++ kept_bytes q

kept_bytes-append :
    (q r : List (Chunk × Encoding)) → kept_bytes (q ++ r) ≡ kept_bytes q ++ kept_bytes r
kept_bytes-append [] r = refl
kept_bytes-append ((d, e) ∷ q) r =
    ap (λ b. payload d ++ b) (kept_bytes-append q r)
    ∙ sym (append_assoc (payload d) (kept_bytes q) (kept_bytes r))

joins_last_same : (enc : Encoding) (t : Bytes) → joins_last enc (text t) enc ≡ true
joins_last_same no_encoding t = refl
joins_last_same utf8 t = refl
joins_last_same utf16be t = refl
joins_last_same utf16le t = refl
joins_last_same utf32be t = refl
joins_last_same utf32le t = refl
joins_last_same base64 t = refl
joins_last_same hex t = refl

concat_last_snoc :
    (t u : Bytes) (enc : Encoding) (q : List (Chunk × Encoding))
    → concat_last t enc (q ++ (text u, enc) ∷ []) ≡ some (q ++ (text (u ++ t), enc) ∷ [])
unfolding concat_last
concat_last_snoc t u enc [] = rw (joins_last_same enc u) refl
concat_last_snoc t u enc (x ∷ []) = rw (joins_last_same enc u) refl
concat_last_snoc t u enc (x ∷ y ∷ q) = rw (concat_last_snoc t u enc (y ∷ q)) refl

keep-output :
    {P : Type 0} (x : ℕ) (t : Bytes) (enc : Encoding) (q : List (Chunk × Encoding)) (m : Message P)
    → concat_last (x ∷ t) enc m.output ≡ some q
    → (keep (text (x ∷ t)) enc m).output ≡ q ++ (text (x ∷ t), enc) ∷ []
unfolding keep
keep-output x t enc q m h = rw (h, keep) refl

-- buffer() of a text behind a text in the same encoding keeps the new text twice: it is appended to
-- the last entry, and then added as an entry of its own.
keep_twice :
    {P : Type 0} (x : ℕ) (t u : Bytes) (enc : Encoding) (q : List (Chunk × Encoding))
    (m : Message P)
    → m.output ≡ q ++ (text u, enc) ∷ []
    → kept_bytes (keep (text (x ∷ t)) enc m).output ≡ kept_bytes m.output ++ ((x ∷ t) ++ (x ∷ t))
keep_twice x t u enc q m h =
    ap kept_bytes (
      keep-output x t enc (q ++ (text (u ++ x ∷ t), enc) ∷ []) m
        (ap (concat_last (x ∷ t) enc) h ∙ concat_last_snoc (x ∷ t) u enc q))
    ∙ simp (h, kept_bytes-append, append_assoc, append-nil)

abbrev pub all_plain : (Encoding → Bool) → List (Chunk × Encoding) → Bool
all_plain plain [] = true
all_plain plain ((d, e) ∷ q) = plain e && all_plain plain q

module _ {P : Type 0} (stream : Stream P) (sent : P → Bytes) (Ready : P → Type 0)
    (plain : Encoding → Bool) (taking : Taking stream sent Ready plain) where
  drain_output-sent :
      (q : List (Chunk × Encoding)) (p : P) (r : Bool)
      → Ready p
      → all_plain plain q ≡ true
      → (p' : P) × (r' : Bool) × (drain_output stream q p r ≡ (p', [], r'))
        × Ready p'
        × (sent p' ≡ sent p ++ kept_bytes q)
  unfolding drain_output
  drain_output-sent [] p r rd a = (p, r, refl, rd, sym (append-nil (sent p)))
  drain_output-sent ((d, e) ∷ q) p r rd a =
      let s =
        drain_output-sent q (stream.put d e p).0 (stream.put d e p).1 (taking.put_ready d e p rd)
          (ground arith) in
      (
        s.0,
        s.1,
        rw (taking.writable_ready p rd) s.2,
        s.3,
        s.4
            ∙ ap (λ b. b ++ kept_bytes q) (taking.put_sent d e p rd (ground arith))
            ∙ append_assoc (sent p) (payload d) (kept_bytes q),
      )

  -- assignSocket() gives a socket that has no message, and is ready once it has this one, all that the
  -- message has kept, in the order in which it was kept, if all of it is in encodings that keep the
  -- bytes; it keeps nothing, no assertion fails, and a message that is finished says so.
  pub assign_socket-sent :
      (p : P) (m : Message P)
      → Ready (stream.set_http_message p)
      → stream.has_message p ≡ false
      → all_plain plain m.output ≡ true
      → let t = assign_socket stream p m in
        (p' : P) × (t.socket ≡ some p')
        × Ready p'
        × (sent p' ≡ sent (stream.set_http_message p) ++ kept_bytes m.output)
        × (t.output ≡ [])
        × (t.fault ≡ m.fault)
        × (m.finished ≡ true → t.emitted ≡ m.emitted ++ finished_event ∷ [])
  unfolding assign_socket flush flushed finish
  assign_socket-sent p m rd free a =
      let s = drain_output-sent m.output (stream.set_http_message p) false rd a in
      (
        s.0,
        rw s.2 (ground arith),
        s.3,
        s.4,
        rw s.2 (ground arith),
        rw s.2 (ground (arith, free)),
        λ f. rw s.2 (ground arith),
      )
