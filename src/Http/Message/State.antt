-- ===== src/Http/Message/State.antt =====
-- The fields of http::OutgoingMessage, and what it takes from its socket and from the libraries.
use libnode.Base.{ℕ, Bool, true, false, Option, none, List, []}
use libnode.Net.Socket.State.{Bytes, Chunk, Encoding}

-- The socket as the message sees it: writable(), `httpMessage() == this`, `!!httpMessage()`, write()
-- and setHttpMessage(this).
pub record Stream (P : Type 0) : Type 0 where
  pub is_writable : P → Bool
  pub is_mine : P → Bool
  pub has_message : P → Bool
  pub put : Chunk → Encoding → P → P × Bool
  pub set_http_message : P → P

-- Text conversions that other code provides: numbers in base 16 and base 10, the length of a text
-- in an encoding, scanHeaderField(), and the date.
pub record Codec : Type 0 where
  pub hex : ℕ → Bytes
  pub decimal : ℕ → Bytes
  pub byte_length : Bytes → Encoding → ℕ
  pub scan : Bytes → Bytes
  pub utc_date : Bytes

pub data Event : Type 0 where
  finished_event drained_event : Event

-- The value of a header: a text or an array of texts.
pub data HeaderValue : Type 0 where
  one : Bytes → HeaderValue
  many : List Bytes → HeaderValue

-- `output_` and `outputEncodings_` are one list of pairs; `flags_` has one Boolean for each bit that
-- the modelled code uses. `emitted` lists the events, newest last; `fault` is set where the code
-- would use a null pointer or break an assertion.
pub record Message (P : Type 0) : Type 0 where
  pub socket : Option P
  pub status_code : ℕ
  pub method : Option Bytes
  pub path : Option Bytes
  pub header : Option Bytes
  pub trailer : Bytes
  pub res_buf : Option Bytes
  pub headers : List (Bytes × Bytes)
  pub header_names : List (Bytes × Bytes)
  pub output : List (Chunk × Encoding)
  pub has_agent : Bool
  pub server_side : Bool
  pub last : Bool
  pub should_keep_alive : Bool
  pub chunked_encoding : Bool
  pub use_chunked_by_default : Bool
  pub send_date : Bool
  pub has_body : Bool
  pub finished : Bool
  pub header_sent : Bool
  pub expect_continue : Bool
  pub sent_100 : Bool
  pub sent_connection : Bool
  pub sent_content_length : Bool
  pub sent_transfer_encoding : Bool
  pub sent_date : Bool
  pub sent_expect : Bool
  pub emitted : List Event
  pub fault : Bool

-- The constructor of OutgoingMessage, and what clear() restores.
abbrev pub new_message : {P : Type 0} → Message P
new_message = record {
  socket = none;
  status_code = 200;
  method = none;
  path = none;
  header = none;
  trailer = [];
  res_buf = none;
  headers = [];
  header_names = [];
  output = [];
  has_agent = false;
  server_side = false;
  last = false;
  should_keep_alive = true;
  chunked_encoding = false;
  use_chunked_by_default = true;
  send_date = false;
  has_body = true;
  finished = false;
  header_sent = false;
  expect_continue = false;
  sent_100 = false;
  sent_connection = false;
  sent_content_length = false;
  sent_transfer_encoding = false;
  sent_date = false;
  sent_expect = false;
  emitted = [];
  fault = false;
}
