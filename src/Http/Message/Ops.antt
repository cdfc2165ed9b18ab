-- ===== src/Http/Message/Ops.antt =====
-- How http::OutgoingMessage sends: buffer(), writeRaw(), send(), flush() and finish().
use libnode.Base.{
  ℕ, Bool, true, false, ◌&&◌, Option, none, some, List, [], ◌∷◌, ◌++◌, if◌then◌else◌, ◌==◌, ◌||◌,
}
use libnode.Net.Socket.State.{
  Bytes, Chunk, undefined, other, text, buffer, Encoding, no_encoding, utf8, utf16be, utf16le,
  utf32be, utf32le, base64, hex,
}
use libnode.Http.Message.State.{Stream, Event, finished_event, drained_event, Message}

abbrev pub encoding_code : Encoding → ℕ
encoding_code no_encoding = 0
encoding_code utf8 = 1
encoding_code utf16be = 2
encoding_code utf16le = 3
encoding_code utf32be = 4
encoding_code utf32le = 5
encoding_code base64 = 6
encoding_code hex = 7

abbrev pub is_text : Chunk → Bool
is_text (text t) = true
is_text c = false

abbrev pub is_empty {ℓ} : {A : Type ℓ} → List A → Bool
is_empty [] = true
is_empty (x ∷ xs) = false

-- The test on the encoding and the type of the last entry in buffer().
abbrev pub joins_last : Encoding → Chunk → Encoding → Bool
joins_last no_encoding d e = is_text d
joins_last enc d e = encoding_code e == encoding_code enc

-- `toCPtr<String>(lastData)->concat(str)`; `none` is the use of a null pointer.
abbrev pub concat_text : Chunk → Bytes → Option Chunk
concat_text (text u) t = some (text (u ++ t))
concat_text c t = none

abbrev concat_entry : Bytes → Encoding → Chunk → Encoding → Option (List (Chunk × Encoding))
concat_entry t enc d e =
    if joins_last enc d e
    then (elim (concat_text d t) [ none ↦ none | some d' ↦ some ((d', e) ∷ []) ])
    else some ((d, e) ∷ [])

abbrev cons_entry :
    Chunk × Encoding → Option (List (Chunk × Encoding)) → Option (List (Chunk × Encoding))
cons_entry x none = none
cons_entry x (some q) = some (x ∷ q)

-- A text is appended to the last entry where the encodings allow it.
unfoldable pub concat_last :
    Bytes → Encoding → List (Chunk × Encoding) → Option (List (Chunk × Encoding))
concat_last t enc [] = some []
concat_last t enc ((d, e) ∷ []) = concat_entry t enc d e
concat_last t enc (x ∷ y ∷ q) = cons_entry x (concat_last t enc (y ∷ q))

module _ {P : Type 0} where
  abbrev pub push_output : Chunk → Encoding → Message P → Message P
  push_output d enc m = record m { output = m.output ++ (d, enc) ∷ [] }

  -- buffer() keeps data for later. It returns true for an empty text or buffer, else false.
  unfoldable pub keep : Chunk → Encoding → Message P → Message P
  keep undefined enc m = record m { fault = true }
  keep other enc m = record m { fault = true }
  keep (buffer []) enc m = m
  keep (buffer (x ∷ b)) enc m = push_output (buffer (x ∷ b)) enc m
  keep (text []) enc m = m
  keep (text (x ∷ t)) enc m = elim (concat_last (x ∷ t) enc m.output) [
    | none ↦ record m { fault = true }
    | some q ↦ push_output (text (x ∷ t)) enc (record m { output = q })
  ]

  abbrev pub log_event : Event → Message P → Message P
  log_event e m = record m { emitted = m.emitted ++ e ∷ [] }

  unfoldable pub finish : Message P → Message P
  finish m = log_event finished_event m

module _ {P : Type 0} (stream : Stream P) where
  -- The loops of writeRaw() and flush(): entries go to the socket while it is writable. The result
  -- is the socket, the entries that are left, and the result of the last write.
  unfoldable pub drain_output :
      List (Chunk × Encoding) → P → Bool → P × List (Chunk × Encoding) × Bool
  drain_output [] p r = (p, [], r)
  drain_output ((d, e) ∷ q) p r =
      let (p', r') = stream.put d e p in
      if stream.is_writable p then drain_output q p' r' else (p, (d, e) ∷ q, r)

  -- writeRaw() once the loop has stopped.
  unfoldable pub put_after :
      Chunk → Encoding → P × List (Chunk × Encoding) × Bool → Message P → Message P × Bool
  put_after d enc (p, [], r) m =
      let (p', r') = stream.put d enc p in (record m { socket = some p'; output = [] }, r')
  put_after d enc (p, x ∷ q, r) m =
      (keep d enc (record m { socket = some p; output = x ∷ q }), false)

  unfoldable pub put_or_keep : Chunk → Encoding → Message P → Message P × Bool
  put_or_keep d enc m = elim m.socket [
    | none ↦ (keep d enc m, false)
    | some p ↦
        if stream.is_mine p && stream.is_writable p
        then put_after d enc (drain_output m.output p false) m
        else (keep d enc m, false)
  ]

  unfoldable pub write_raw : Chunk → Encoding → Message P → Message P × Bool
  write_raw undefined enc m = (record m { fault = true }, false)
  write_raw other enc m = (record m { fault = true }, false)
  write_raw (text []) enc m = (m, true)
  write_raw (buffer []) enc m = (m, true)
  write_raw d enc m = put_or_keep d enc m

  -- The first send(): a text goes out behind the header, other data after it.
  unfoldable pub send_first : Bytes → Chunk → Encoding → Message P → Message P × Bool
  send_first h (text t) enc m = write_raw (text (h ++ t)) enc m
  send_first h d enc m = write_raw d enc (record m { output = (text h, utf8) ∷ m.output })

  unfoldable pub send : Chunk → Encoding → Message P → Message P × Bool
  send d enc m = if m.header_sent then write_raw d enc m else elim m.header [
    | none ↦ (record m { fault = true }, false)
    | some h ↦ send_first h d enc (record m { header_sent = true })
  ]

  -- flush() once its loop has stopped.
  unfoldable pub flushed : P × List (Chunk × Encoding) × Bool → Message P → Message P
  flushed (p, x ∷ q, r) m = record m { socket = some p; output = x ∷ q }
  flushed (p, [], r) m₀ =
      let m = record m₀ { socket = some p; output = [] } in
      if m.finished then finish m else if r then log_event drained_event m else m

  unfoldable pub flush : Message P → Message P
  flush m = elim m.socket [ none ↦ m | some p ↦ flushed (drain_output m.output p false) m ]

  -- assignSocket() asserts that the socket has no message, makes it the message's own and sends what
  -- was kept.
  unfoldable pub assign_socket : P → Message P → Message P
  assign_socket p m = flush (record m {
    socket = some (stream.set_http_message p);
    fault = m.fault || stream.has_message p;
  })
