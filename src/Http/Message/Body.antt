-- ===== src/Http/Message/Body.antt =====
-- The calls of a program on http::OutgoingMessage: header fields, writeHead(), write() and end().
use libnode.Base.{
  ℕ, Bool, true, false, not, ◌&&◌, Option, none, some, List, [], ◌∷◌, ◌++◌, is_some, if◌then◌else◌,
  codes, length, ◌||◌,
}
use libnode.Net.Socket.State.{
  Bytes, Chunk, undefined, other, text, buffer, Encoding, no_encoding, utf8,
}
use libnode.Http.Status.{status_message}
use libnode.Http.Message.State.{Stream, Codec, HeaderValue, Message, new_message}
use libnode.Http.Message.Ops.{is_empty, finish, send, write_raw}
use libnode.Http.Message.Head.{
  crlf, line, get_entry, put_entry, remove_entry, render_entries, merge_headers, misuses_head,
  bodiless, or_empty, store_header,
}

-- The first line and the header of writeHead(), before its flags.
abbrev pub status_line : Codec → Bytes → ℕ → Option Bytes → Bytes
status_line cd start code reason =
    start
    ++ (codes "HTTP/1.1 "
        ++ (cd.decimal code ++ (codes " " ++ (status_message code reason ++ crlf))))

-- A chunk of the chunked encoding.
abbrev pub chunk_head : Codec → ℕ → Bytes
chunk_head cd n = cd.hex n ++ crlf

-- The chunk that ends a body, with the trailer.
abbrev pub last_chunk : Bytes → Bytes
last_chunk trailer = codes "0" ++ (crlf ++ (trailer ++ crlf))

-- The text entries of addTrailers(): a key and a value are null when they are not texts.
unfoldable pub trailer_lines : List (Option Bytes × Option Bytes) → Bytes
trailer_lines [] = []
trailer_lines ((some k, some v) ∷ rest) = line k v ++ trailer_lines rest
trailer_lines ((some k, none) ∷ rest) = trailer_lines rest
trailer_lines ((none, v) ∷ rest) = trailer_lines rest

module _ {P : Type 0} (stream : Stream P) (cd : Codec) where
  unfoldable pub get_header : Option Bytes → Message P → Option Bytes
  get_header none m = none
  get_header (some name) m = get_entry (cd.scan name) m.headers

  unfoldable pub set_header : Option Bytes → Option Bytes → Message P → Message P × Bool
  set_header (some name) (some value) m = if is_some m.header then (m, false) else (
    record m {
      headers = put_entry (cd.scan name) value m.headers;
      header_names = put_entry (cd.scan name) name m.header_names;
    },
    true,
  )
  set_header (some name) none m = (m, false)
  set_header none value m = (m, false)

  unfoldable pub remove_header : Option Bytes → Message P → Message P × Bool
  remove_header (some name) m = if is_some m.header then (m, false) else (
    record m {
      headers = remove_entry (cd.scan name) m.headers;
      header_names = remove_entry (cd.scan name) m.header_names;
    },
    true,
  )
  remove_header none m = (m, false)

  unfoldable pub add_trailers :
      Option (List (Option Bytes × Option Bytes)) → Message P → Message P × Bool
  add_trailers none m = (m, false)
  add_trailers (some entries) m = (record m { trailer = trailer_lines entries }, true)

  unfoldable pub write_continue : Message P → Message P
  write_continue m =
      record (write_raw stream (text (codes "HTTP/1.1 100 Continue" ++ (crlf ++ crlf))) utf8 m).0 {
        sent_100 = true;
      }

  -- The flags that writeHead() changes.
  unfoldable pub head_flags : ℕ → Message P → Message P
  head_flags code m = record m {
    status_code = code;
    has_body = m.has_body && not (bodiless code);
    should_keep_alive = m.should_keep_alive && not (m.expect_continue && not m.sent_100);
  }

  unfoldable pub write_head :
      ℕ → Option Bytes → Option (List (Bytes × HeaderValue)) → Message P → Message P
  write_head code reason obj m =
      store_header stream cd (status_line cd (or_empty m.res_buf) code reason) (merge_headers m obj)
        (head_flags code (record m { fault = m.fault || misuses_head m obj }))

  -- `renderHeaders()` gives null once there is a header.
  abbrev rendered : Message P → Option (List (Bytes × HeaderValue))
  rendered m = if is_some m.header then none else some (render_entries m.header_names m.headers)

  -- implicitHeader() of a client asserts that it has a method and a path.
  unfoldable pub request_header : Option Bytes → Option Bytes → Message P → Message P
  request_header (some method) (some path) m =
      store_header stream cd (method ++ (codes " " ++ (path ++ (codes " HTTP/1.1" ++ crlf))))
        (rendered m) m
  request_header (some method) none m = record m { fault = true }
  request_header none path m = record m { fault = true }

  unfoldable pub implicit_header : Message P → Message P
  implicit_header m =
      if m.server_side
      then write_head m.status_code none none m
      else request_header m.method m.path m

  -- `if (!header_) implicitHeader();`
  unfoldable pub ensure_header : Message P → Message P
  ensure_header m = if is_some m.header then m else implicit_header m

  abbrev pub chunk_text : Bytes → Encoding → Bytes
  chunk_text t enc = chunk_head cd (cd.byte_length t enc) ++ (t ++ crlf)

  -- write() of a message that may have a body.
  unfoldable pub write_body : Chunk → Encoding → Message P → Message P × Bool
  write_body undefined enc m = (m, false)
  write_body other enc m = (m, false)
  write_body (text []) enc m = (m, false)
  write_body (buffer []) enc m = (m, false)
  write_body (text (x ∷ t)) enc m =
      if m.chunked_encoding
      then send stream (text (chunk_text (x ∷ t) enc)) enc m
      else send stream (text (x ∷ t)) enc m
  write_body (buffer (x ∷ b)) enc m =
      if m.chunked_encoding
      then send stream (text crlf) no_encoding
          (send stream (buffer (x ∷ b)) no_encoding
            (send stream (text (chunk_head cd (length (x ∷ b)))) no_encoding m).0).0
      else send stream (buffer (x ∷ b)) enc m

  unfoldable pub write : Chunk → Encoding → Message P → Message P × Bool
  write d enc m₀ = let m = ensure_header m₀ in if m.has_body then write_body d enc m else (m, true)

  abbrev pub is_ready : Option P → Bool
  is_ready none = false
  is_ready (some p) = stream.is_writable p && stream.is_mine p

  -- The test `hot` of end(), for a text that is not empty.
  abbrev pub is_hot : Message P → Bool
  is_hot m = not m.header_sent && is_empty m.output && is_ready m.socket

  abbrev pub end_text : Bytes → Encoding → Message P → Bytes
  end_text t enc m = if m.chunked_encoding then chunk_text t enc ++ last_chunk m.trailer else t

  -- The hot branch of end(): header and body in one write.
  unfoldable pub end_hot : Bytes → Encoding → Message P → Message P × Bool
  end_hot t enc m = elim m.socket [
    | none ↦ (record m { fault = true }, false)
    | some p ↦
        let all = or_empty m.res_buf ++ end_text t enc m in
        let (p', r) = stream.put (text all) enc p in
        (record m { socket = some p'; res_buf = some all; header_sent = true }, r)
  ]

  abbrev write_defined : Chunk → Encoding → Message P → Message P
  write_defined undefined enc m = m
  write_defined d enc m = (write d enc m).0

  unfoldable pub end_cold : Chunk → Encoding → Message P → Message P × Bool
  end_cold d enc m₀ =
      let m = write_defined d enc m₀ in
      send stream (text (if m.chunked_encoding then last_chunk m.trailer else [])) no_encoding m

  unfoldable pub end_data : Chunk → Encoding → Message P → Message P × Bool
  end_data (text (x ∷ t)) enc m =
      if is_hot m then end_hot (x ∷ t) enc m else end_cold (text (x ∷ t)) enc m
  end_data d enc m = end_cold d enc m

  -- The end of end(): a message that has sent everything is finished.
  unfoldable pub finish_if_flushed : Message P → Message P
  finish_if_flushed m = if not (is_empty m.output) then m else elim m.socket [
    | none ↦ record m { fault = true }
    | some p ↦ if stream.is_mine p then finish m else m
  ]

  unfoldable pub end : Chunk → Encoding → Message P → Message P × Bool
  end d enc m₀ =
      let m = ensure_header m₀ in
      let (m', r) = end_data (if m.has_body then d else undefined) enc m in
      if m₀.finished then (m₀, false) else (finish_if_flushed (record m' { finished = true }), r)

  -- clear(): everything but the buffer `resBuf_`, which is emptied.
  unfoldable pub clear : Message P → Message P
  clear m = record new_message {
    res_buf = elim m.res_buf [ none ↦ none | some b ↦ some [] ];
    emitted = m.emitted;
    fault = m.fault;
  }
