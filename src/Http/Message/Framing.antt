-- ===== src/Http/Message/Framing.antt =====
-- Every message that storeHeader() composes tells where its body ends.
use libnode.Base.{
  ◌≡◌, refl, ap, ◌∙◌, Bool, true, false, ◌&&◌, ◌||◌, inl, inr, Option, some, List, [], ◌∷◌, ◌++◌,
  arith, is_some, Option-cases, Bool-cases,
}
use libnode.Net.Socket.State.{Bytes, Chunk, undefined, other, text, buffer, Encoding, no_encoding}
use libnode.Http.Message.State.{Stream, Codec, HeaderValue, one, many, Message}
use libnode.Http.Message.Ops.{
  keep, drain_output, put_after, put_or_keep, write_raw, send_first, send,
}
use libnode.Http.Message.Head.{
  mark_connection, mark_transfer_encoding, mark_field, unmark, keeps_alive, store, store_many,
  store_value, store_all, default_date, default_connection, default_framing, close_header,
  compose_header, store_header, or_empty,
}

-- What sending leaves of the flags that say how the body ends.
pub record SameHead {P : Type 0} (m t : Message P) : Type 0 where
  pub same_chunked : t.chunked_encoding ≡ m.chunked_encoding
  pub same_last : t.last ≡ m.last
  pub same_body : t.has_body ≡ m.has_body
  pub same_default : t.use_chunked_by_default ≡ m.use_chunked_by_default
  pub same_length : t.sent_content_length ≡ m.sent_content_length
  pub same_transfer : t.sent_transfer_encoding ≡ m.sent_transfer_encoding
  pub same_connection : t.sent_connection ≡ m.sent_connection
  pub same_alive : t.should_keep_alive ≡ m.should_keep_alive
  pub same_header : t.header ≡ m.header
  pub same_agent : t.has_agent ≡ m.has_agent
  pub same_send_date : t.send_date ≡ m.send_date
  pub same_date : t.sent_date ≡ m.sent_date

module _ {P : Type 0} where
  SameHead-refl : (m : Message P) → SameHead m m
  SameHead-refl m = ground arith

  keep-SameHead : (d : Chunk) (enc : Encoding) (m : Message P) → SameHead m (keep d enc m)
  unfolding keep
  keep-SameHead undefined enc m = ground arith
  keep-SameHead other enc m = ground arith
  keep-SameHead (buffer []) enc m = ground arith
  keep-SameHead (buffer (x ∷ b)) enc m = ground arith
  keep-SameHead (text []) enc m = ground arith
  keep-SameHead (text (x ∷ t)) enc m = ground arith

module _ {P : Type 0} (stream : Stream P) where
  put_after-SameHead :
      (d : Chunk) (enc : Encoding) (r : P × List (Chunk × Encoding) × Bool) (m : Message P)
      → SameHead m (put_after stream d enc r m).0
  unfolding put_after
  put_after-SameHead d enc (p, [], r) m = ground arith
  put_after-SameHead d enc (p, x ∷ q, r) m =
      ground (arith, keep-SameHead d enc (record m { socket = some p; output = x ∷ q }))

  put_or_keep-SameHead :
      (d : Chunk) (enc : Encoding) (m : Message P) → SameHead m (put_or_keep stream d enc m).0
  unfolding put_or_keep
  put_or_keep-SameHead d enc m = elim (Option-cases m.socket) [
    | inl h ↦ ground (arith, keep-SameHead d enc m)
    | inr (p, h) ↦ ground (
      arith,
      keep-SameHead d enc m,
      put_after-SameHead d enc (drain_output stream m.output p false) m,
    )
  ]

  write_raw-SameHead :
      (d : Chunk) (enc : Encoding) (m : Message P) → SameHead m (write_raw stream d enc m).0
  unfolding write_raw
  write_raw-SameHead undefined enc m = ground arith
  write_raw-SameHead other enc m = ground arith
  write_raw-SameHead (buffer []) enc m = ground arith
  write_raw-SameHead (buffer (x ∷ b)) enc m = put_or_keep-SameHead (buffer (x ∷ b)) enc m
  write_raw-SameHead (text []) enc m = ground arith
  write_raw-SameHead (text (x ∷ t)) enc m = put_or_keep-SameHead (text (x ∷ t)) enc m

  pub send_text-SameHead :
      (t : Bytes) (enc : Encoding) (m : Message P) → SameHead m (send stream (text t) enc m).0
  unfolding send send_first
  send_text-SameHead t enc m = elim (Option-cases m.header) [
    | inl h ↦ ground (arith, write_raw-SameHead (text t) enc m)
    | inr (b, h) ↦ ground (
      arith,
      write_raw-SameHead (text t) enc m,
      write_raw-SameHead (text (b ++ t)) enc (record m { header_sent = true }),
    )
  ]

-- What the headers of a message leave: whether it has a body, and whether it is chunked by default.
pub record SameKind {P : Type 0} (m t : Message P) : Type 0 where
  pub kind_body : t.has_body ≡ m.has_body
  pub kind_default : t.use_chunked_by_default ≡ m.use_chunked_by_default

module _ {P : Type 0} (cd : Codec) where
  SameKind-trans : (m t u : Message P) → SameKind m t → SameKind t u → SameKind m u
  SameKind-trans m t u a b = ground arith

  mark_field-SameKind :
      (lower value : Bytes) (m : Message P) → SameKind m (mark_field lower value m)
  unfolding mark_field mark_connection mark_transfer_encoding
  mark_field-SameKind lower value m = ground arith

  store-SameKind :
      (field value : Bytes) (am : Bytes × Message P) → SameKind am.1 (store cd field value am).1
  unfolding store
  store-SameKind field value (acc, m) = mark_field-SameKind (cd.scan field) value m

  store_many-SameKind :
      (field : Bytes) (vs : List Bytes) (am : Bytes × Message P)
      → SameKind am.1 (store_many cd field vs am).1
  unfolding store_many
  store_many-SameKind field [] am = record { kind_body = refl; kind_default = refl }
  store_many-SameKind field (v ∷ vs) am =
      SameKind-trans am.1 (store cd field v am).1 _ (store-SameKind field v am)
        (store_many-SameKind field vs (store cd field v am))

  store_value-SameKind :
      (field : Bytes) (v : HeaderValue) (am : Bytes × Message P)
      → SameKind am.1 (store_value cd field v am).1
  unfolding store_value
  store_value-SameKind field (one v) am = store-SameKind field v am
  store_value-SameKind field (many vs) am = store_many-SameKind field vs am

  pub store_all-SameKind :
      (hs : List (Bytes × HeaderValue)) (am : Bytes × Message P)
      → SameKind am.1 (store_all cd hs am).1
  unfolding store_all
  store_all-SameKind [] am = record { kind_body = refl; kind_default = refl }
  store_all-SameKind ((field, v) ∷ hs) am =
      SameKind-trans am.1 (store_value cd field v am).1 _ (store_value-SameKind field v am)
        (store_all-SameKind hs (store_value cd field v am))

  default_date-same : (am : Bytes × Message P) → (default_date cd am).1 ≡ am.1
  unfolding default_date
  default_date-same (acc, m) = ground arith

-- How the body of a message ends: after Content-Length or as its Transfer-Encoding says, in chunks,
-- or with the connection; a message without a body is not chunked of its own accord.
pub record Framed {P : Type 0} (body default : Bool) (t : Message P) : Type 0 where
  pub delimited :
      body ≡ true
      → (t.sent_content_length || (t.sent_transfer_encoding || (t.chunked_encoding || t.last)))
        ≡ true
  pub by_default :
      (t.sent_content_length || t.sent_transfer_encoding) ≡ false
      → (body && default) ≡ true
      → t.chunked_encoding ≡ true
  pub bodiless_plain :
      (t.sent_content_length || t.sent_transfer_encoding) ≡ false
      → body ≡ false
      → t.chunked_encoding ≡ false
  pub closes : t.sent_connection ≡ false → keeps_alive t ≡ false → t.last ≡ true
  pub body_kept : t.has_body ≡ body
  pub composed : is_some t.header ≡ true

module _ {P : Type 0} (cd : Codec) where
  close_header-Framed :
      (acc : Bytes) (m : Message P)
      → Framed m.has_body m.use_chunked_by_default
          (close_header cd (default_framing cd (default_connection cd (acc, m))))
  unfolding close_header default_framing default_connection
  close_header-Framed acc m = ground arith

  close_header-Framed_at :
      (am : Bytes × Message P) (body default : Bool)
      → am.1.has_body ≡ body
      → am.1.use_chunked_by_default ≡ default
      → Framed body default (close_header cd (default_framing cd (default_connection cd am)))
  close_header-Framed_at (acc, m) body default h k = simp (← h, ← k) (close_header-Framed acc m)

  compose_header-Framed :
      (first_line : Bytes) (hs : Option (List (Bytes × HeaderValue))) (m : Message P)
      → Framed m.has_body m.use_chunked_by_default (compose_header cd first_line hs m)
  unfolding compose_header unmark
  compose_header-Framed first_line hs m =
      let k = store_all-SameKind cd (or_empty hs) (first_line, unmark m) in
      let e = default_date-same cd (store_all cd (or_empty hs) (first_line, unmark m)) in
      close_header-Framed_at (default_date cd (store_all cd (or_empty hs) (first_line, unmark m)))
        m.has_body m.use_chunked_by_default (ap (λ t. t.has_body) e ∙ k.kind_body)
        (ap (λ t. t.use_chunked_by_default) e ∙ k.kind_default)

  Framed-SameHead :
      (body default : Bool) (m t : Message P)
      → SameHead m t
      → Framed body default m
      → Framed body default t
  Framed-SameHead body default m t s f =
      ground (arith, f.delimited, f.by_default, f.bodiless_plain, f.closes)

  -- After storeHeader(), whatever headers it is given: a message with a body has a Content-Length or
  -- a Transfer-Encoding header of its own, is chunked, or closes the connection at its end. Without
  -- those two headers it is chunked when it has a body and chunking is the default, and not chunked
  -- when it has no body. When a
  -- Connection header is added and cannot be keep-alive, the message is the last on its connection.
  -- Whether it has a body is unchanged, and it has a header.
  pub store_header-Framed :
      (stream : Stream P) (first_line : Bytes) (hs : Option (List (Bytes × HeaderValue)))
      (m : Message P)
      → Framed m.has_body m.use_chunked_by_default (store_header stream cd first_line hs m)
  unfolding store_header
  store_header-Framed stream first_line hs m =
      elim (Bool-cases (compose_header cd first_line hs m).sent_expect) [
        | inl h ↦ simp h (
            Framed-SameHead m.has_body m.use_chunked_by_default (compose_header cd first_line hs m)
              (send stream (text []) no_encoding (compose_header cd first_line hs m)).0
              (send_text-SameHead stream [] no_encoding (compose_header cd first_line hs m))
              (compose_header-Framed first_line hs m))
        | inr h ↦ simp h (compose_header-Framed first_line hs m)
      ]
