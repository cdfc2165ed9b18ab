-- ===== src/Http/Incoming/State.antt =====
-- The fields of http::IncomingMessage and of the parser, and what they take from the socket, the
-- text decoder and the listeners.
use libnode.Base.{ℕ, Bool, true, false, Option, none, some, List, []}
use libnode.Net.Socket.State.{Bytes, Encoding}
use libnode.Http.Message.State.{HeaderValue}

-- What the listeners of a message get: data as a buffer or as the decoder's text, and the end.
pub data Event : Type 0 where
  data_event : Bytes → Event
  text_event : Bytes → Event
  end_event : Event

-- What a message asks of its socket.
pub data SocketCall : Type 0 where
  pause_call resume_call destroy_call : SocketCall

-- What a listener may do with the message that calls it.
pub data Reaction : Type 0 where
  nothing pauses resumes : Reaction

-- The answers of the socket, the text of a buffer in an encoding, and what the listeners do once
-- the events of a list are emitted.
pub record Env : Type 0 where
  pub pause_result : Bool
  pub resume_result : Bool
  pub destroy_result : Bool
  pub socket_readable : Bool
  pub to_string : Encoding → Bytes → Bytes
  pub reacts : List Event → Reaction

-- `pendings` holds the chunks that wait, `none` being the end. `events`, `calls` and `called` are
-- logs, the newest entry last; `ticks` holds the callbacks of the EmitPending that
-- process::nextTick will run.
pub record Incoming : Type 0 where
  pub socket : Option ℕ
  pub method : Option Bytes
  pub url : Option Bytes
  pub http_version : Option Bytes
  pub http_version_major : ℕ
  pub http_version_minor : ℕ
  pub status_code : ℕ
  pub headers : List (Bytes × HeaderValue)
  pub trailers : List (Bytes × HeaderValue)
  pub pendings : List (Option Bytes)
  pub decoder : Option Encoding
  pub req : Option ℕ
  pub complete : Bool
  pub readable : Bool
  pub paused : Bool
  pub end_emitted : Bool
  pub upgrade : Bool
  pub unused : Bool
  pub ticks : List (Option ℕ)
  pub events : List Event
  pub calls : List SocketCall
  pub called : List ℕ

unfoldable pub create : Option ℕ → Option Incoming
create none = none
create (some socket) = some (record {
  socket = some socket;
  method = none;
  url = some [];
  http_version = none;
  http_version_major = 0;
  http_version_minor = 0;
  status_code = 0;
  headers = [];
  trailers = [];
  pendings = [];
  decoder = none;
  req = none;
  complete = false;
  readable = true;
  paused = false;
  end_emitted = false;
  upgrade = false;
  unused = false;
  ticks = [];
  events = [];
  calls = [];
  called = [];
})

-- setNewSocket(): a message of the free list begins anew.
unfoldable pub set_new_socket : Option ℕ → Incoming → Incoming
set_new_socket socket m = record m {
  socket = socket;
  headers = [];
  trailers = [];
  pendings = [];
  decoder = none;
  req = none;
  complete = false;
  readable = true;
  paused = false;
  end_emitted = false;
  upgrade = false;
  unused = false;
}
