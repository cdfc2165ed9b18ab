-- ===== src/Net/Socket/Connect.antt =====
-- How a net::Socket is made and connected (include/libnode/detail/net/socket.h).
use libnode.Base.{
  ℕ, Bool, true, false, not, ◌&&◌, ◌||◌, Option, none, some, List, [], ◌∷◌, is_some, if◌then◌else◌,
  ◌==◌,
}
use libnode.Net.Socket.State.{
  Bytes, Kind, tcp, pipe, no_encoding, SocketError, uv_error, emit_connect, error_and_destroy_tick,
  read_start, connect_handle, bind_handle, undefined, Socket, Env,
}
use libnode.Net.Socket.Ops.{
  on_handle, next_tick, active, connect_queue_clean_up, destroy_with, write_bytes, queue, end,
}

-- The constructor Socket(), which leaves every flag unset.
abbrev pub new_socket : Socket
new_socket = record {
  handle = none;
  readable = false;
  writable = false;
  connecting = false;
  paused = false;
  got_eof = false;
  destroyed = false;
  destroy_soon_set = false;
  shutdown = false;
  shutdown_queued = false;
  error_emitted = false;
  allow_half_open = false;
  timer = false;
  timeout = 0;
  pending_write_reqs = 0;
  connect_queue_size = 0;
  connect_buf_queue = none;
  connect_cb_queue = none;
  bytes_read = 0;
  bytes_dispatched = 0;
  decoder = none;
  on_data = none;
  on_end = none;
  ticks = [];
  trace = [];
  fault = false;
  broken = false;
}

-- `self->flags_ = 0` and the counters; the handle gets its read callback.
unfoldable pub init_socket_handle : Socket → Socket
init_socket_handle s = record s {
  readable = false;
  writable = false;
  connecting = false;
  paused = false;
  got_eof = false;
  destroyed = false;
  destroy_soon_set = false;
  shutdown = false;
  shutdown_queued = false;
  error_emitted = false;
  allow_half_open = false;
  pending_write_reqs = 0;
  connect_queue_size = 0;
  bytes_read = 0;
  bytes_dispatched = 0;
}

-- create(handle, allowHalfOpen): the flag is set before the handle is initialised.
unfoldable pub create : Option Kind → Bool → Socket
unfolding init_socket_handle
create handle half_open =
    init_socket_handle (record new_socket { handle = handle; allow_half_open = half_open })

-- create(fd, allowHalfOpen), for a file descriptor opened as a pipe.
unfoldable pub create_fd : Bool → Socket
unfolding init_socket_handle
create_fd half_open = init_socket_handle (record new_socket {
  handle = some pipe;
  readable = true;
  writable = true;
  allow_half_open = half_open;
})

-- The second half of the static connect() on a TCP handle.
unfoldable pub ask_connect : Env → Socket → Socket
ask_connect env s =
    let asked = on_handle connect_handle s in
    let err = env.connect_result asked in
    if err == 0 then asked else (destroy_with env (some (uv_error err)) none asked).0

-- The static connect() on a TCP handle; the Boolean says whether a local address is given.
unfoldable pub connect_tcp : Env → Bool → Socket → Socket
connect_tcp env false s = ask_connect env s
connect_tcp env true s =
    let bound = on_handle bind_handle s in
    let err = env.bind_result bound in
    if err == 0
    then ask_connect env bound
    else (destroy_with env (some (uv_error err)) none bound).0

-- connect(port, host, localAddress, path, cb) up to the call of libuv or of the lookup.
unfoldable pub begin_connect : Kind → Socket → Socket
begin_connect kind s₀ =
    let s =
      if s₀.destroyed || not (is_some s₀.handle)
      then init_socket_handle (record s₀ { handle = some kind })
      else s₀ in
    record (active s) { connecting = true; writable = true }

-- connect() to a path: a pipe, whose connect has no result.
unfoldable pub connect_path : Socket → Socket
connect_path s = on_handle connect_handle (begin_connect pipe s)

-- connect() to a port, with no host: the address is 127.0.0.1. With a host the lookup comes first.
unfoldable pub connect_port : Env → Bool → Socket → Socket
connect_port env host s =
    let s' = begin_connect tcp s in if host then s' else connect_tcp env false s'

-- AfterLookup: `err` is the lookup's error.
unfoldable pub after_lookup : Env → Option SocketError → Bool → Socket → Socket
after_lookup env err local s = if not s.connecting then s else elim err [
  | some e ↦ next_tick (error_and_destroy_tick e) s
  | none ↦ connect_tcp env local (active s)
]

-- The loop over the two queues; the code asserts that they have one length.
unfoldable pub flush_queue : Env → List Bytes → List (Option ℕ) → Socket → Socket
flush_queue env [] cbs s = s
flush_queue env (b ∷ bs) [] s = flush_queue env bs [] (write_bytes env b none s).0
flush_queue env (b ∷ bs) (cb ∷ cbs) s = flush_queue env bs cbs (write_bytes env b cb s).0

-- The middle of AfterConnect: what was written while connecting.
unfoldable pub write_queued : Env → Socket → Socket
write_queued env s =
    if s.connect_queue_size == 0
    then s
    else connect_queue_clean_up
        (flush_queue env (queue s.connect_buf_queue) (queue s.connect_cb_queue) s)

-- The flags that a successful AfterConnect sets, and the start of reading.
unfoldable pub opened : Bool → Bool → Socket → Socket
opened readable writable s₀ =
    let s = active (record s₀ { connecting = false; readable = readable; writable = writable }) in
    if readable && not s.paused then on_handle read_start s else s

-- The end of AfterConnect.
unfoldable pub announce : Env → Socket → Socket
announce env s₀ =
    let s = env.react emit_connect s₀ in
    if s.shutdown_queued
    then (end env undefined no_encoding (record s { shutdown_queued = false })).0
    else s

unfoldable pub after_connect : Env → ℕ → Bool → Bool → Socket → Socket
after_connect env status readable writable s =
    if s.destroyed
    then s
    else if status == 0
    then announce env (write_queued env (opened readable writable s))
    else (destroy_with env (some (uv_error status)) none
        (connect_queue_clean_up (record s { connecting = false }))).0
