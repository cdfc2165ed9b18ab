-- ===== src/Http/Message/Tests.antt =====
-- Messages that meet the hypotheses of the theorems about http::OutgoingMessage, and runs.
use libnode.Base.{inl, ◌||◌, ℕ, ◌+◌, ◌≡◌, refl, true, false, none, some, Option, [], ◌∷◌, codes}
use libnode.Net.Socket.State.{Bytes, tcp, undefined, text, buffer, utf8, Env}
use libnode.Net.Socket.Connect.{new_socket}
use libnode.Net.Socket.Ops.{write_bytes, write_buffer, to_buffer, active}
use libnode.Http.HeaderScanner.{scan_header_field, longest_match, is_prefix, to_lower}
use libnode.Http.Message.State.{Codec, finished_event, Message, new_message}
use libnode.Http.Message.Ops.{assign_socket, finish}
use libnode.Http.Message.Body.{
  write_head, write, ensure_header, end_hot, end_data, finish_if_flushed, end,
}
use libnode.Http.Message.Told.{Told}
use libnode.Http.Message.Bodiless.{write_head-bodiless}
use libnode.Http.Message.Transfer.{Taking, streaming}
use libnode.Http.Message.Response.{write_all}
use libnode.Http.Message.Ending.{Whole, end-write_all}
use libnode.Http.Message.Wire.{
  Peer, socket_stream, peer_sent, IsOpen, is_utf8, socket_stream-Taking,
}
use libnode.Http.Message.Kept.{assign_socket-sent}

abbrev taker : Env
taker = record {
  read_start_result = λ s. 0;
  read_stop_result = λ s. 0;
  shutdown_result = λ s. 0;
  write_result = λ s b. 0;
  connect_result = λ s. 0;
  bind_result = λ s. 0;
  option_result = λ a. 0;
  encode = λ enc t. some t;
  decode = λ enc b. some b;
  react = λ c s. s;
}

-- Numbers below ten have one digit.
abbrev digits : Codec
digits = record {
  hex = λ n. (48 + n) ∷ [];
  decimal = λ n. (48 + n) ∷ [];
  byte_length = λ t enc. length_of t;
  scan = scan_header_field;
  utc_date = [];
}
  where
    length_of : Bytes → ℕ
    length_of [] = 0
    length_of (x ∷ t) = 1 + length_of t

abbrev peer : Peer
peer = (true, record new_socket { handle = some tcp; writable = true })

abbrev or_peer : Option Peer → Peer
or_peer none = peer
or_peer (some p) = p

taker-Taking : Taking (socket_stream taker) peer_sent IsOpen is_utf8
taker-Taking = socket_stream-Taking taker ((λ s b. refl), λ s. refl) (λ t. refl)

-- A chunked answer with the header "H".
abbrev answer : Message Peer
answer = record new_message { chunked_encoding = true }

end-write_all_example :
    Whole peer_sent IsOpen answer peer
      (72 ∷ 49 ∷ 13 ∷ 10 ∷ 65 ∷ 13 ∷ 10 ∷ 50 ∷ 13 ∷ 10 ∷ 66 ∷ 67 ∷ 13 ∷ 10 ∷ 48 ∷ 13 ∷ 10 ∷ 13 ∷ 10
        ∷ [])
      (end (socket_stream taker) digits undefined utf8 (
        write_all
          (socket_stream taker)
          digits
          utf8
          (text (65 ∷ []) ∷ buffer (66 ∷ 67 ∷ []) ∷ [])
          (streaming answer (72 ∷ []) false peer))).0
end-write_all_example =
    end-write_all (socket_stream taker) digits peer_sent IsOpen is_utf8 taker-Taking
      (text (65 ∷ []) ∷ buffer (66 ∷ 67 ∷ []) ∷ []) undefined utf8 answer 72 [] peer
      (refl, refl, refl, refl) refl refl refl

-- A text in one write, by the hot way.
hot_example :
    peer_sent (
      or_peer
        (end
          (socket_stream taker)
          digits
          (text (65 ∷ []))
          utf8
          (streaming answer (72 ∷ []) false peer)).0.socket)
    ≡ 72 ∷ 49 ∷ 13 ∷ 10 ∷ 65 ∷ 13 ∷ 10 ∷ 48 ∷ 13 ∷ 10 ∷ 13 ∷ 10 ∷ []
unfolding end end_data end_hot ensure_header finish_if_flushed finish write_bytes write_buffer
    to_buffer active libnode.Net.Socket.Ops.write
hot_example = refl

-- A message with the field "Host".
abbrev fielded : Message Peer
fielded = record new_message { headers = (codes "host", codes "a") ∷ [] }

-- A text is kept, and a second one.
abbrev keeping : Message Peer
keeping = record new_message { output = (text (65 ∷ []), utf8) ∷ []; finished = true }

assign_socket-sent_example :
    let t = assign_socket (socket_stream taker) (false, peer.1) keeping in
    (p' : Peer) × (t.socket ≡ some p')
    × IsOpen p'
    × (peer_sent p' ≡ 65 ∷ [])
    × (t.output ≡ [])
    × (t.fault ≡ false)
    × (true ≡ true → t.emitted ≡ finished_event ∷ [])
assign_socket-sent_example =
    assign_socket-sent (socket_stream taker) peer_sent IsOpen is_utf8 taker-Taking (false, peer.1)
      keeping (refl, refl, refl, refl) refl refl

scan_cases : scan_header_field (codes "CONTENT-length") ≡ codes "content-length"
unfolding scan_header_field longest_match is_prefix to_lower
scan_cases = refl

write_head-bodiless_example :
    let t = write_head (socket_stream taker) digits 204 none none new_message in
    (t.has_body ≡ false)
    × ((t.sent_content_length || t.sent_transfer_encoding) ≡ false → t.chunked_encoding ≡ false)
    × (write (socket_stream taker) digits (text (65 ∷ [])) utf8 t ≡ (t, true))
    × (end (socket_stream taker) digits (text (65 ∷ [])) utf8 t
        ≡ end (socket_stream taker) digits undefined utf8 t)
write_head-bodiless_example =
    write_head-bodiless (socket_stream taker) digits 204 none none new_message (text (65 ∷ [])) utf8
      (inl refl)
