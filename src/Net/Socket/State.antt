-- ===== src/Net/Socket/State.antt =====
-- The fields of net::Socket, and what it takes from libuv and from its listeners.
use libnode.Base.{ℕ, Bool, Option, List}

abbrev pub Bytes : Type 0
Bytes = List ℕ

pub data Kind : Type 0 where
  tcp pipe : Kind

-- Buffer::Encoding.
pub data Encoding : Type 0 where
  no_encoding utf8 utf16be utf16le utf32be utf32le base64 hex : Encoding

-- LIBNODE_UV_ERROR(code) keeps the code that libuv returned.
pub data SocketError : Type 0 where
  illegal_state : SocketError
  uv_error : ℕ → SocketError

-- What runs synchronously and is not the socket's own code.
pub data Call : Type 0 where
  emit_connect emit_end emit_timeout emit_drain emit_destroy : Call
  emit_data : Bytes → Call
  call_on_data : ℕ → Bytes → Call
  call_on_end : ℕ → Call
  emit_error : SocketError → Call
  emit_close : Bool → Call
  call_back : ℕ → Option SocketError → Call

-- What process::nextTick holds for later.
pub data Tick : Type 0 where
  error_tick error_and_destroy_tick : SocketError → Tick
  close_tick : Option SocketError → Tick

-- What the socket asks of its handle and of its timer.
pub data Action : Type 0 where
  read_start read_stop shutdown_handle close_handle clear_timer : Action
  write_handle : Bytes → Action
  connect_handle bind_handle : Action
  arm_timer : ℕ → Action
  no_delay_handle : Bool → Action
  keep_alive_handle : Bool → ℕ → Action
  name_handle : Action

-- A value passed to write() or end().
pub data Chunk : Type 0 where
  undefined other : Chunk
  text : Bytes → Chunk
  buffer : Bytes → Chunk

-- `flags_` has one Boolean for each bit of the enum `Flag`. `trace` lists the actions, newest first;
-- `fault` is set where the code would go through a null `handle_`, `broken` where an assertion of
-- OnRead fails.
pub record Socket : Type 0 where
  pub handle : Option Kind
  pub readable : Bool
  pub writable : Bool
  pub connecting : Bool
  pub paused : Bool
  pub got_eof : Bool
  pub destroyed : Bool
  pub destroy_soon_set : Bool
  pub shutdown : Bool
  pub shutdown_queued : Bool
  pub error_emitted : Bool
  pub allow_half_open : Bool
  pub timer : Bool
  pub timeout : ℕ
  pub pending_write_reqs : ℕ
  pub connect_queue_size : ℕ
  pub connect_buf_queue : Option (List Bytes)
  pub connect_cb_queue : Option (List (Option ℕ))
  pub bytes_read : ℕ
  pub bytes_dispatched : ℕ
  pub decoder : Option Encoding
  pub on_data : Option ℕ
  pub on_end : Option ℕ
  pub ticks : List Tick
  pub trace : List Action
  pub fault : Bool
  pub broken : Bool

-- What is not the socket's code: the results of libuv (0 is success), the conversion of a text to a
-- buffer, and the listeners and callbacks, which may change the socket.
pub record Env : Type 0 where
  pub read_start_result : Socket → ℕ
  pub read_stop_result : Socket → ℕ
  pub shutdown_result : Socket → ℕ
  pub write_result : Socket → Bytes → ℕ
  pub connect_result : Socket → ℕ
  pub bind_result : Socket → ℕ
  pub option_result : Action → ℕ
  pub encode : Encoding → Bytes → Option Bytes
  pub decode : Encoding → Bytes → Option Bytes
  pub react : Call → Socket → Socket
