-- ===== src/Http/Message/Bodiless.antt =====
-- Responses that have no body: 204, 304 and 1xx.
use libnode.Base.{ℕ, ◌≡◌, ◌⊎◌, inl, inr, ◌≤◌, true, false, ◌||◌, ◌∙◌, Option, List, arith, is_some}
use libnode.Net.Socket.State.{Bytes, Chunk, undefined, Encoding}
use libnode.Http.Message.State.{Stream, Codec, HeaderValue, Message}
use libnode.Http.Message.Head.{bodiless, merge_headers, misuses_head, or_empty}
use libnode.Http.Message.Body.{head_flags, write_head, ensure_header, write, end, status_line}
use libnode.Http.Message.Framing.{Framed, store_header-Framed}

bodiless_code :
    (code : ℕ)
    → (code ≡ 204) ⊎ ((code ≡ 304) ⊎ ((100 ≤ code) × (code ≤ 199)))
    → bodiless code ≡ true
bodiless_code code (inl e) = ground (arith, e)
bodiless_code code (inr (inl e)) = ground (arith, e)
bodiless_code code (inr (inr (l, u))) = ground (arith, l, u)

abbrev checked : {P : Type 0} → Message P → Option (List (Bytes × HeaderValue)) → Message P
checked m obj = record m { fault = m.fault || misuses_head m obj }

module _ {P : Type 0} (stream : Stream P) (cd : Codec) where
  head_flags-has_body :
      (code : ℕ) (m : Message P)
      → bodiless code ≡ true
      → (head_flags stream cd code m).has_body ≡ false
  unfolding head_flags
  head_flags-has_body code m b = ground arith

  write_head-Framed :
      (code : ℕ) (reason : Option Bytes) (obj : Option (List (Bytes × HeaderValue))) (m : Message P)
      → Framed
          (head_flags stream cd code (checked m obj)).has_body
          (head_flags stream cd code (checked m obj)).use_chunked_by_default
          (write_head stream cd code reason obj m)
  unfolding write_head
  write_head-Framed code reason obj m =
      store_header-Framed cd stream (status_line cd (or_empty m.res_buf) code reason)
        (merge_headers m obj) (head_flags stream cd code (checked m obj))

  write_without_body :
      (d : Chunk) (enc : Encoding) (t : Message P)
      → is_some t.header ≡ true
      → t.has_body ≡ false
      → write stream cd d enc t ≡ (t, true)
  unfolding write ensure_header
  write_without_body d enc t h b = simp (h, b)

  end_without_body :
      (d : Chunk) (enc : Encoding) (t : Message P)
      → is_some t.header ≡ true
      → t.has_body ≡ false
      → end stream cd d enc t ≡ end stream cd undefined enc t
  unfolding end ensure_header
  end_without_body d enc t h b = simp (h, b)

  -- After writeHead() with 204, 304 or a code of the hundreds: the message has no body, and is not
  -- chunked unless a header says so; write() sends nothing, and end() ignores its data.
  pub write_head-bodiless :
      (code : ℕ) (reason : Option Bytes) (obj : Option (List (Bytes × HeaderValue))) (m : Message P)
      (d : Chunk) (enc : Encoding)
      → (code ≡ 204) ⊎ ((code ≡ 304) ⊎ ((100 ≤ code) × (code ≤ 199)))
      → let t = write_head stream cd code reason obj m in
        (t.has_body ≡ false)
        × ((t.sent_content_length || t.sent_transfer_encoding) ≡ false → t.chunked_encoding ≡ false)
        × (write stream cd d enc t ≡ (t, true))
        × (end stream cd d enc t ≡ end stream cd undefined enc t)
  write_head-bodiless code reason obj m d enc has_none =
      let b = bodiless_code code has_none in
      let f = write_head-Framed code reason obj m in
      let n = f.body_kept ∙ head_flags-has_body code (checked m obj) b in
      (
        n,
        (λ u. f.bodiless_plain u (head_flags-has_body code (checked m obj) b)),
        write_without_body d enc (write_head stream cd code reason obj m) f.composed n,
        end_without_body d enc (write_head stream cd code reason obj m) f.composed n,
      )
