-- ===== src/Net/Socket/Accounting.antt =====
-- The count of bytes that net::Socket keeps, and bytesWritten(), which reads it.
use libnode.Base.{ℕ, ◌+◌, ◌≡◌, ◌⊎◌, Bool, true, Option, none, some, arith, ◌≢◌, length}
use libnode.Net.Socket.State.{Bytes, Kind, SocketError, illegal_state, uv_error, Socket, Env}
use libnode.Net.Socket.Ops.{
  active, connect_queue_clean_up, destroy_with, write_buffer, enqueue, write_bytes, queue,
}
use libnode.Net.Socket.Connect.{create, write_queued}
use libnode.Net.Socket.Receive.{bytes_written, total}
use libnode.Net.Socket.Transfer.{total_snoc}

-- The bytes that the socket has taken: those given to the handle and those in the queue.
abbrev pub taken : Socket → ℕ
taken s = s.bytes_dispatched + total (queue s.connect_buf_queue)

active-taken : (s : Socket) → taken (active s) ≡ taken s
unfolding active
active-taken s = ground arith

destroy_with-destroyed :
    (env : Env) (err : Option SocketError) (cb : Option ℕ) (s : Socket)
    → (destroy_with env err cb s).0.destroyed ≡ true
unfolding destroy_with
destroy_with-destroyed env err cb s = ground arith

write_buffer-taken :
    (env : Env) (buf : Bytes) (cb : Option ℕ) (s : Socket)
    → let t = (write_buffer env buf cb s).0 in
      (taken t ≡ taken s + length buf) ⊎ (t.destroyed ≡ true)
unfolding write_buffer
write_buffer-taken env buf cb s = ground (
  arith,
  active-taken s,
  destroy_with-destroyed env (some illegal_state) cb (active s),
  destroy_with-destroyed env (some (uv_error (env.write_result (active s) buf))) cb (active s),
)

-- A write either counts exactly its bytes, or it fails and destroys the socket.
pub write_bytes-taken :
    (env : Env) (buf : Bytes) (cb : Option ℕ) (s : Socket)
    → let t = (write_bytes env buf cb s).0 in
      (taken t ≡ taken s + length buf) ⊎ (t.destroyed ≡ true)
unfolding write_bytes enqueue
write_bytes-taken env buf cb s =
    ground (arith, total_snoc (queue s.connect_buf_queue) buf, write_buffer-taken env buf cb s)

-- bytesWritten() goes through a null pointer on a socket fresh from create(), and again after the
-- bytes that were queued while connecting have been sent.
bytes_written_faults :
    (env : Env) (k : Option Kind) (half_open : Bool) (s : Socket)
    → s.connect_queue_size ≢ 0
    → (bytes_written (create k half_open) ≡ none) × (bytes_written (write_queued env s) ≡ none)
unfolding bytes_written create write_queued connect_queue_clean_up
bytes_written_faults env k half_open s h = ground arith
