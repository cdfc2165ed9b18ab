-- ===== src/Net/Socket/Receive.antt =====
-- The callbacks of net::Socket (include/libnode/detail/net/socket.h): AfterWrite, AfterShutdown, OnRead,
-- OnTimeout and the ticks, and bytesWritten().
use libnode.Base.{
  ℕ, ◌+◌, ◌-◌, Bool, true, false, not, ◌&&◌, ◌||◌, Option, none, some, List, [], ◌∷◌, length,
  is_some, if◌then◌else◌, ◌==◌,
}
use libnode.Net.Socket.State.{
  Bytes, no_encoding, uv_error, emit_end, emit_timeout, emit_drain, emit_destroy, emit_data,
  call_on_data, call_on_end, emit_error, emit_close, Tick, error_tick, error_and_destroy_tick,
  close_tick, undefined, Socket, Env,
}
use libnode.Net.Socket.Ops.{run_callback, active, destroy_with, destroy, end}

abbrev pub size_max : ℕ
size_max = 18446744073709551615

-- `pendingWriteReqs_--` on a 64-bit Size.
abbrev pub decrement : ℕ → ℕ
decrement n = if n == 0 then size_max else n - 1

-- `if (pendingWriteReqs_ == 0) emit(EVENT_DRAIN);`
unfoldable pub drain_if_idle : Env → Socket → Socket
drain_if_idle env s = if s.pending_write_reqs == 0 then env.react emit_drain s else s

-- The last `if` of AfterWrite.
unfoldable pub destroy_if_idle : Env → Socket → Socket
destroy_if_idle env s =
    if (s.pending_write_reqs == 0) && s.destroy_soon_set then (destroy env s).0 else s

-- AfterWrite, once the write has succeeded.
unfoldable pub write_done : Env → Option ℕ → Socket → Socket
write_done env cb s₀ =
    let s = active s₀ in
    destroy_if_idle env (
      run_callback env cb none
        (drain_if_idle env (record s { pending_write_reqs = decrement s.pending_write_reqs })))

unfoldable pub after_write : Env → ℕ → Option ℕ → Socket → Socket
after_write env status cb s =
    if s.destroyed
    then s
    else if status == 0
    then write_done env cb s
    else (destroy_with env (some (uv_error status)) cb s).0

unfoldable pub after_shutdown : Env → Socket → Socket
after_shutdown env s =
    if s.destroyed then s else if s.got_eof || not s.readable then (destroy env s).0 else s

-- `if (!hasFlag(WRITABLE)) destroy();` and `if (!hasFlag(ALLOW_HALF_OPEN)) end();`
unfoldable pub destroy_if_ended : Env → Socket → Socket
destroy_if_ended env s = if s.writable then s else (destroy env s).0

unfoldable pub end_unless_half_open : Env → Socket → Socket
end_unless_half_open env s = if s.allow_half_open then s else (end env undefined no_encoding s).0

unfoldable pub run_on_end : Env → Socket → Socket
run_on_end env s = elim s.on_end [ none ↦ s | some f ↦ env.react (call_on_end f) s ]

-- OnRead at the end of the stream.
unfoldable pub on_eof : Env → Socket → Socket
on_eof env s = run_on_end env (
    env.react emit_end (
      end_unless_half_open env
        (destroy_if_ended env (record s { readable = false; got_eof = true }))))

-- The `data` event: the text that the decoder makes of the buffer, if any, or the buffer.
unfoldable pub emit_text : Env → Option Bytes → Socket → Socket
emit_text env none s = s
emit_text env (some str) s = if length str == 0 then s else env.react (emit_data str) s

unfoldable pub emit_read : Env → Bytes → Socket → Socket
emit_read env buf s = elim s.decoder [
  | none ↦ env.react (emit_data buf) s
  | some enc ↦ emit_text env (env.decode enc buf) s
]

unfoldable pub run_on_data : Env → Bytes → Socket → Socket
run_on_data env buf s = elim s.on_data [ none ↦ s | some f ↦ env.react (call_on_data f buf) s ]

unfoldable pub on_bytes : Env → Bytes → Socket → Socket
on_bytes env buf s₀ =
    let s = emit_read env buf s₀ in
    run_on_data env buf (record s { bytes_read = s.bytes_read + length buf })

-- What a read brings: nothing, the end of the stream, an error, or bytes.
pub data Read : Type 0 where
  nothing eof : Read
  failed : ℕ → Read
  got : Bytes → Read

abbrev pub assert_that : Bool → Socket → Socket
assert_that b s = record s { broken = s.broken || not b }

-- `assert(self_->handle_ == handle_); self_->active();`: a socket loses its handle but never takes
-- another one.
abbrev pub begin_read : Socket → Socket
begin_read s = active (assert_that (is_some s.handle) s)

-- OnRead; at the end of the stream it asserts that GOT_EOF is not set.
unfoldable pub on_read : Env → Read → Socket → Socket
on_read env nothing s = begin_read s
on_read env eof s = on_eof env (assert_that (not s.got_eof) (begin_read s))
on_read env (failed code) s = (destroy_with env (some (uv_error code)) none (begin_read s)).0
on_read env (got buf) s = on_bytes env buf (begin_read s)

-- EmitError, EmitErrorAndDestroy and EmitClose.
unfoldable pub run_tick : Env → Tick → Socket → Socket
run_tick env (error_tick e) s = env.react (emit_error e) s
run_tick env (error_and_destroy_tick e) s = (destroy env (env.react (emit_error e) s)).0
run_tick env (close_tick err) s = env.react emit_destroy (env.react (emit_close (is_some err)) s)

-- EmitTimeout.
unfoldable pub on_timeout : Env → Socket → Socket
on_timeout env s = env.react emit_timeout s

abbrev pub total : List Bytes → ℕ
total [] = 0
total (b ∷ bs) = length b + total bs

-- bytesWritten(); `none` where it goes through a null `connectBufQueue_`.
unfoldable pub bytes_written : Socket → Option ℕ
bytes_written s = elim s.connect_buf_queue [
  | none ↦ none
  | some q ↦ some (s.bytes_dispatched + total q)
]
