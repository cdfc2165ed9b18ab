-- ===== src/Net/Socket/Safety.antt =====
-- No operation and no callback of net::Socket goes through a null `handle_`, whatever libuv returns
-- and whatever the listeners do, as long as the listeners keep the socket safe themselves.
use libnode.Base.{
  ℕ, ◌≡◌, inl, inr, not, true, false, Option, none, some, arith, is_some, Bool-cases, Option-cases,
  if◌then◌else◌,
}
use libnode.Net.Socket.State.{
  Bytes, Encoding, SocketError, illegal_state, uv_error, Call, call_back, Chunk, undefined, Socket,
  Env, shutdown_handle,
}
use libnode.Net.Socket.Ops.{
  run_callback, on_handle, active, set_timeout, schedule_error, fire_error_callbacks, tear_down,
  destroy_with, destroy, destroy_soon, write_buffer, enqueue, to_buffer, write_bytes, write,
  write_if_defined, queue_shutdown, finish_end, end, pause, resume,
}

-- A socket that reads, writes or connects has a handle, and no null handle was used so far.
pub record IsSafe (s : Socket) : Type 0 where
  pub sound : s.fault ≡ false
  pub reads : s.readable ≡ true → is_some s.handle ≡ true
  pub writes : s.writable ≡ true → is_some s.handle ≡ true
  pub connects : s.connecting ≡ true → is_some s.handle ≡ true

-- The listeners and callbacks act on the socket through its operations.
abbrev pub Keeps : Env → Type 0
Keeps env = (c : Call) (s : Socket) → IsSafe s → IsSafe (env.react c s)

pub active-IsSafe : (s : Socket) → IsSafe s → IsSafe (active s)
unfolding active
active-IsSafe s h = ground arith

pub set_timeout-IsSafe : (t : ℕ) (s : Socket) → IsSafe s → IsSafe (set_timeout t s)
unfolding set_timeout
set_timeout-IsSafe t s h = ground arith

tear_down-IsSafe : (s : Socket) → IsSafe s → IsSafe (tear_down s)
unfolding tear_down
tear_down-IsSafe s h = ground arith

schedule_error-IsSafe : (e : SocketError) (s : Socket) → IsSafe s → IsSafe (schedule_error e s)
unfolding schedule_error
schedule_error-IsSafe e s h = ground arith

module _ (env : Env) (keeps : Keeps env) where
  pub run_callback-IsSafe :
      (cb : Option ℕ) (err : Option SocketError) (s : Socket)
      → IsSafe s
      → IsSafe (run_callback env cb err s)
  run_callback-IsSafe none err s h = h
  run_callback-IsSafe (some f) err s h = keeps (call_back f err) s h

  fire_error_callbacks-IsSafe :
      (err : Option SocketError) (cb : Option ℕ) (s : Socket)
      → IsSafe s
      → IsSafe (fire_error_callbacks env err cb s)
  unfolding fire_error_callbacks
  fire_error_callbacks-IsSafe none cb s h = run_callback-IsSafe cb none s h
  fire_error_callbacks-IsSafe (some e) cb s h =
      schedule_error-IsSafe e _ (run_callback-IsSafe cb (some e) s h)

  pub destroy_with-IsSafe :
      (err : Option SocketError) (cb : Option ℕ) (s : Socket)
      → IsSafe s
      → IsSafe (destroy_with env err cb s).0
  unfolding destroy_with
  destroy_with-IsSafe err cb s h =
      ground (arith, fire_error_callbacks-IsSafe err cb (tear_down s) (tear_down-IsSafe s h))

  pub destroy-IsSafe : (s : Socket) → IsSafe s → IsSafe (destroy env s).0
  unfolding destroy
  destroy-IsSafe s h = destroy_with-IsSafe none none s h

  pub destroy_soon-IsSafe : (s : Socket) → IsSafe s → IsSafe (destroy_soon env s).0
  unfolding destroy_soon
  destroy_soon-IsSafe s h =
      ground (arith, destroy-IsSafe (record s { writable = false; destroy_soon_set = true }))

  pub write_buffer-IsSafe :
      (buf : Bytes) (cb : Option ℕ) (s : Socket) → IsSafe s → IsSafe (write_buffer env buf cb s).0
  unfolding write_buffer
  write_buffer-IsSafe buf cb s h = ground (
    arith,
    active-IsSafe s h,
    destroy_with-IsSafe (some illegal_state) cb (active s),
    destroy_with-IsSafe (some (uv_error (env.write_result (active s) buf))) cb (active s),
  )

  pub write_bytes-IsSafe :
      (buf : Bytes) (cb : Option ℕ) (s : Socket) → IsSafe s → IsSafe (write_bytes env buf cb s).0
  unfolding write_bytes enqueue
  write_bytes-IsSafe buf cb s h = ground (arith, write_buffer-IsSafe buf cb s h)

  pub write-IsSafe :
      (chunk : Chunk) (enc : Encoding) (cb : Option ℕ) (s : Socket)
      → IsSafe s
      → IsSafe (write env chunk enc cb s).0
  unfolding write
  write-IsSafe chunk enc cb s h = elim (Option-cases (to_buffer env chunk enc)) [
    | inl e ↦ rw (e, write) h
    | inr (buf, e) ↦ rw (e, write) (write_bytes-IsSafe buf cb s h)
  ]

  write_if_defined-IsSafe :
      (chunk : Chunk) (enc : Encoding) (s : Socket)
      → IsSafe s
      → IsSafe (write_if_defined env chunk enc s)
  unfolding write_if_defined
  write_if_defined-IsSafe undefined enc s h = h
  write_if_defined-IsSafe chunk enc s h = write-IsSafe chunk enc none s h

  queue_shutdown-IsSafe :
      (chunk : Chunk) (enc : Encoding) (s : Socket)
      → IsSafe s
      → IsSafe (queue_shutdown env chunk enc s)
  unfolding queue_shutdown
  queue_shutdown-IsSafe chunk enc s h = ground (arith, write_if_defined-IsSafe chunk enc s h)

  finish_end-IsSafe : (s : Socket) → IsSafe s → IsSafe (finish_end env s).0
  unfolding finish_end
  finish_end-IsSafe s h = elim (Bool-cases s.readable) [
    | inl r ↦ ground (
      arith,
      asked r,
      destroy_with-IsSafe (some (uv_error (env.shutdown_result (asking s)))) none (asking s),
    )
    | inr r ↦ simp r (destroy_soon-IsSafe s h)
  ]
    where
      asking : Socket → Socket
      asking t = on_handle shutdown_handle (record t { shutdown = true })

      asked : s.readable ≡ true → IsSafe (asking s)
      asked r = ground (arith, h.reads r)

  pub end-IsSafe :
      (chunk : Chunk) (enc : Encoding) (s : Socket) → IsSafe s → IsSafe (end env chunk enc s).0
  unfolding end
  end-IsSafe chunk enc s h =
      go (queue_shutdown env chunk enc s) (queue_shutdown-IsSafe chunk enc s h)
    where
      go :
          (t : Socket)
          → IsSafe t
          → IsSafe
              (if not t.writable
                then (t, false)
                else finish_end env
                    (write_if_defined env chunk enc (record t { writable = false }))).0
      go t k = ground (
        arith,
        finish_end-IsSafe (write_if_defined env chunk enc (record t { writable = false })),
        write_if_defined-IsSafe chunk enc (record t { writable = false }),
      )

  pub pause-IsSafe : (s : Socket) → IsSafe s → IsSafe (pause env s).0
  unfolding pause
  pause-IsSafe s h = ground arith

  pub resume-IsSafe : (s : Socket) → IsSafe s → IsSafe (resume env s).0
  unfolding resume
  resume-IsSafe s h = ground arith
