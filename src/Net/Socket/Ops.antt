-- ===== src/Net/Socket/Ops.antt =====
-- The operations of net::Socket that write, end and destroy, with the private helpers they call.
use libnode.Base.{
  ℕ, ◌/◌, ◌+◌, Bool, true, false, not, ◌&&◌, Option, none, some, List, [], ◌∷◌, ◌++◌, length,
  is_some, if◌then◌else◌, ◌==◌,
}
use libnode.Net.Socket.State.{
  Kind, tcp, no_delay_handle, keep_alive_handle, name_handle, Bytes, Encoding, no_encoding, utf8,
  base64, SocketError, illegal_state, uv_error, call_back, Tick, error_tick, close_tick, Action,
  read_start, read_stop, shutdown_handle, close_handle, clear_timer, write_handle, arm_timer, Chunk,
  undefined, other, text, buffer, Socket, Env,
}

abbrev pub log : Action → Socket → Socket
log a s = record s { trace = a ∷ s.trace }

-- A call of a method of `*handle_`.
abbrev pub on_handle : Action → Socket → Socket
on_handle a s = elim s.handle [ none ↦ record s { fault = true } | some k ↦ log a s ]

abbrev pub next_tick : Tick → Socket → Socket
next_tick t s = record s { ticks = s.ticks ++ t ∷ [] }

abbrev pub run_callback : Env → Option ℕ → Option SocketError → Socket → Socket
run_callback env none err s = s
run_callback env (some f) err s = env.react (call_back f err) s

unfoldable pub finish_timer : Socket → Socket
finish_timer s = record (log clear_timer s) { timer = false }

unfoldable pub start_timer : ℕ → Socket → Socket
unfolding finish_timer
start_timer timeout s =
    let s' = if s.timer then finish_timer s else s in
    record (log (arm_timer timeout) s') { timer = true; timeout = timeout }

unfoldable pub active : Socket → Socket
unfolding finish_timer start_timer
active s = if s.timer then start_timer s.timeout (finish_timer s) else s

unfoldable pub set_timeout : ℕ → Socket → Socket
unfolding finish_timer start_timer
set_timeout timeout s = if timeout == 0 then finish_timer s else start_timer timeout s

unfoldable pub connect_queue_clean_up : Socket → Socket
connect_queue_clean_up s = record s {
  connecting = false;
  connect_queue_size = 0;
  connect_buf_queue = none;
  connect_cb_queue = none;
}

unfoldable pub schedule_error : SocketError → Socket → Socket
schedule_error e s =
    if s.error_emitted then s else record (next_tick (error_tick e) s) { error_emitted = true }

unfoldable pub fire_error_callbacks : Env → Option SocketError → Option ℕ → Socket → Socket
fire_error_callbacks env err cb s = elim err [
  | none ↦ run_callback env cb none s
  | some e ↦ schedule_error e (run_callback env cb (some e) s)
]

-- `if (handle_) { handle_->close(); handle_->setOnRead(null); handle_ = NULL; }`
unfoldable pub close_the_handle : Socket → Socket
close_the_handle s = elim s.handle [
  | none ↦ s
  | some k ↦ record (log close_handle s) { handle = none }
]

-- destroy() up to the callbacks.
unfoldable pub tear_down : Socket → Socket
unfolding connect_queue_clean_up finish_timer close_the_handle
tear_down s =
    close_the_handle
      (finish_timer (record (connect_queue_clean_up s) { readable = false; writable = false }))

-- destroy(err, cb), as built with LIBNODE_REMOVE_LISTENER (the default).
unfoldable pub destroy_with : Env → Option SocketError → Option ℕ → Socket → Socket × Bool
destroy_with env err cb s = if s.destroyed then (s, false) else (
  record (next_tick (close_tick err) (fire_error_callbacks env err cb (tear_down s))) {
    destroyed = true;
  },
  true,
)

unfoldable pub destroy : Env → Socket → Socket × Bool
destroy env s = destroy_with env none none s

unfoldable pub destroy_soon : Env → Socket → Socket × Bool
destroy_soon env s =
    let s' = record s { writable = false; destroy_soon_set = true } in
    if s.destroyed
    then (s, false)
    else if s.pending_write_reqs == 0
    then destroy env s'
    else (s', true)

unfoldable pub write_buffer : Env → Bytes → Option ℕ → Socket → Socket × Bool
write_buffer env buf cb s₀ =
    let s = active s₀ in
    let err = env.write_result s buf in
    elim s.handle [
      | none ↦ ((destroy_with env (some illegal_state) cb s).0, false)
      | some k ↦
          if err == 0
          then (
            record (log (write_handle buf) s) {
              pending_write_reqs = s.pending_write_reqs + 1;
              bytes_dispatched = s.bytes_dispatched + length buf;
            },
            true,
          )
          else ((destroy_with env (some (uv_error err)) cb s).0, false)
    ]

abbrev pub queue {ℓ} : {A : Type ℓ} → Option (List A) → List A
queue none = []
queue (some q) = q

-- While connecting, write() keeps the buffer and its callback for later.
unfoldable pub enqueue : Bytes → Option ℕ → Socket → Socket
enqueue buf cb s = record s {
  connect_queue_size = s.connect_queue_size + length buf;
  connect_buf_queue = some (queue s.connect_buf_queue ++ buf ∷ []);
  connect_cb_queue = some (queue s.connect_cb_queue ++ cb ∷ []);
}

-- `if (enc == Buffer::NONE) enc = Buffer::UTF8;`
abbrev text_encoding : Encoding → Encoding
text_encoding no_encoding = utf8
text_encoding enc = enc

-- The buffer that write() makes of its argument.
unfoldable pub to_buffer : Env → Chunk → Encoding → Option Bytes
to_buffer env undefined enc = none
to_buffer env other enc = none
to_buffer env (text t) enc = env.encode (text_encoding enc) t
to_buffer env (buffer b) enc = some b

unfoldable pub write_bytes : Env → Bytes → Option ℕ → Socket → Socket × Bool
write_bytes env buf cb s =
    if s.connecting then (enqueue buf cb s, false) else write_buffer env buf cb s

unfoldable pub write : Env → Chunk → Encoding → Option ℕ → Socket → Socket × Bool
write env chunk enc cb s = elim (to_buffer env chunk enc) [
  | none ↦ (s, false)
  | some buf ↦ write_bytes env buf cb s
]

-- `if (!data.isUndefined()) write(data, enc);`
unfoldable pub write_if_defined : Env → Chunk → Encoding → Socket → Socket
write_if_defined env undefined enc s = s
write_if_defined env chunk enc s = (write env chunk enc none s).0

-- The first `if` of end(): a socket that is still connecting ends later.
unfoldable pub queue_shutdown : Env → Chunk → Encoding → Socket → Socket
queue_shutdown env chunk enc s =
    if s.connecting && not s.shutdown_queued
    then record (write_if_defined env chunk enc s) { writable = false; shutdown_queued = true }
    else s

-- The rest of end(), once WRITABLE is unset and the data is written.
unfoldable pub finish_end : Env → Socket → Socket × Bool
finish_end env s =
    let s' = on_handle shutdown_handle (record s { shutdown = true }) in
    let err = env.shutdown_result s' in
    if not s.readable
    then destroy_soon env s
    else if err == 0
    then (s', true)
    else ((destroy_with env (some (uv_error err)) none s').0, false)

unfoldable pub end : Env → Chunk → Encoding → Socket → Socket × Bool
end env chunk enc s₀ =
    let s = queue_shutdown env chunk enc s₀ in
    if not s.writable
    then (s, false)
    else finish_end env (write_if_defined env chunk enc (record s { writable = false }))

unfoldable pub pause : Env → Socket → Socket × Bool
pause env s₀ =
    let s = record s₀ { paused = true } in
    if is_some s.handle && not s.connecting
    then (on_handle read_stop s, env.read_stop_result s == 0)
    else (s, false)

unfoldable pub resume : Env → Socket → Socket × Bool
resume env s₀ =
    let s = record s₀ { paused = false } in
    if is_some s.handle && not s.connecting
    then (on_handle read_start s, env.read_start_result s == 0)
    else (s, false)

-- setEncoding(): an encoding that a decoder supports, or none.
unfoldable pub set_encoding : Encoding → Socket → Socket × Bool
set_encoding base64 s = (record s { decoder = none }, false)
set_encoding enc s = (record s { decoder = some enc }, true)

-- setOnData() and setOnEnd() return the callback that they replace.
unfoldable pub set_on_data : Option ℕ → Socket → Socket × Option ℕ
set_on_data f s = (record s { on_data = f }, s.on_data)

unfoldable pub set_on_end : Option ℕ → Socket → Socket × Option ℕ
set_on_end f s = (record s { on_end = f }, s.on_end)

abbrev pub is_tcp : Option Kind → Bool
is_tcp none = false
is_tcp (some tcp) = true
is_tcp (some k) = false

abbrev pub ask_tcp : Env → Action → Socket → Socket × Bool
ask_tcp env a s = if is_tcp s.handle then (on_handle a s, env.option_result a == 0) else (s, false)

unfoldable pub set_no_delay : Env → Bool → Socket → Socket × Bool
set_no_delay env flag s = ask_tcp env (no_delay_handle flag) s

-- setKeepAlive(), whose delay is divided by 1000.
unfoldable pub set_keep_alive : Env → Bool → ℕ → Socket → Socket × Bool
set_keep_alive env enable initial_delay s =
    ask_tcp env (keep_alive_handle enable (initial_delay / 1000)) s

-- address(), remoteAddress() and remotePort(): whether a handle is asked for its names.
unfoldable pub ask_name : Socket → Socket × Bool
ask_name s = if is_tcp s.handle then (on_handle name_handle s, true) else (s, false)
