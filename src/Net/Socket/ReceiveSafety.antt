-- ===== src/Net/Socket/ReceiveSafety.antt =====
-- The callbacks for writes, reads and ticks keep a net::Socket safe.
use libnode.Base.{
  Bool, is_some, not, ℕ, inl, inr, true, false, Option, none, some, arith, Option-cases,
}
use libnode.Net.Socket.State.{
  Bytes, no_encoding, uv_error, emit_end, emit_drain, emit_destroy, emit_data, call_on_data,
  call_on_end, emit_error, Tick, error_tick, error_and_destroy_tick, close_tick, undefined, Socket,
  Env,
}
use libnode.Net.Socket.Ops.{active}
use libnode.Net.Socket.Receive.{
  drain_if_idle, destroy_if_idle, destroy_if_ended, end_unless_half_open, run_on_end, emit_text,
  run_on_data, write_done, after_write, after_shutdown, on_eof, emit_read, on_bytes, Read, nothing,
  eof, failed, got, assert_that, begin_read, on_read, run_tick,
}
use libnode.Net.Socket.Safety.{
  IsSafe, Keeps, active-IsSafe, run_callback-IsSafe, destroy_with-IsSafe, destroy-IsSafe,
  end-IsSafe,
}

uncounted-IsSafe : (n : ℕ) (s : Socket) → IsSafe s → IsSafe (record s { pending_write_reqs = n })
uncounted-IsSafe n s h = ground arith

unread-IsSafe : (s : Socket) → IsSafe s → IsSafe (record s { readable = false; got_eof = true })
unread-IsSafe s h = ground arith

counted-IsSafe : (n : ℕ) (s : Socket) → IsSafe s → IsSafe (record s { bytes_read = n })
counted-IsSafe n s h = ground arith

module _ (env : Env) (keeps : Keeps env) where
  drain_if_idle-IsSafe : (s : Socket) → IsSafe s → IsSafe (drain_if_idle env s)
  unfolding drain_if_idle
  drain_if_idle-IsSafe s h = ground (arith, keeps emit_drain s h)

  destroy_if_idle-IsSafe : (s : Socket) → IsSafe s → IsSafe (destroy_if_idle env s)
  unfolding destroy_if_idle
  destroy_if_idle-IsSafe s h = ground (arith, destroy-IsSafe env keeps s h)

  write_done-IsSafe : (cb : Option ℕ) (s : Socket) → IsSafe s → IsSafe (write_done env cb s)
  unfolding write_done
  write_done-IsSafe cb s h = destroy_if_idle-IsSafe _ (
      run_callback-IsSafe env keeps cb none _
        (drain_if_idle-IsSafe _ (uncounted-IsSafe _ (active s) (active-IsSafe s h))))

  pub after_write-IsSafe :
      (status : ℕ) (cb : Option ℕ) (s : Socket) → IsSafe s → IsSafe (after_write env status cb s)
  unfolding after_write
  after_write-IsSafe status cb s h = ground (
    arith,
    write_done-IsSafe cb s h,
    destroy_with-IsSafe env keeps (some (uv_error status)) cb s h,
  )

  pub after_shutdown-IsSafe : (s : Socket) → IsSafe s → IsSafe (after_shutdown env s)
  unfolding after_shutdown
  after_shutdown-IsSafe s h = ground (arith, destroy-IsSafe env keeps s h)

  destroy_if_ended-IsSafe : (s : Socket) → IsSafe s → IsSafe (destroy_if_ended env s)
  unfolding destroy_if_ended
  destroy_if_ended-IsSafe s h = ground (arith, destroy-IsSafe env keeps s h)

  end_unless_half_open-IsSafe : (s : Socket) → IsSafe s → IsSafe (end_unless_half_open env s)
  unfolding end_unless_half_open
  end_unless_half_open-IsSafe s h = ground (arith, end-IsSafe env keeps undefined no_encoding s h)

  run_on_end-IsSafe : (s : Socket) → IsSafe s → IsSafe (run_on_end env s)
  unfolding run_on_end
  run_on_end-IsSafe s h = elim (Option-cases s.on_end) [
    | inl e ↦ simp (e, run_on_end) h
    | inr (f, e) ↦ simp (e, run_on_end) (keeps (call_on_end f) s h)
  ]

  on_eof-IsSafe : (s : Socket) → IsSafe s → IsSafe (on_eof env s)
  unfolding on_eof
  on_eof-IsSafe s h = run_on_end-IsSafe _ (
      keeps emit_end _
        (end_unless_half_open-IsSafe _ (destroy_if_ended-IsSafe _ (unread-IsSafe s h))))

  emit_text-IsSafe : (str : Option Bytes) (s : Socket) → IsSafe s → IsSafe (emit_text env str s)
  unfolding emit_text
  emit_text-IsSafe none s h = h
  emit_text-IsSafe (some str) s h = ground (arith, keeps (emit_data str) s h)

  emit_read-IsSafe : (buf : Bytes) (s : Socket) → IsSafe s → IsSafe (emit_read env buf s)
  unfolding emit_read
  emit_read-IsSafe buf s h = elim (Option-cases s.decoder) [
    | inl e ↦ simp (e, emit_read) (keeps (emit_data buf) s h)
    | inr (enc, e) ↦ simp (e, emit_read) (emit_text-IsSafe (env.decode enc buf) s h)
  ]

  run_on_data-IsSafe : (buf : Bytes) (s : Socket) → IsSafe s → IsSafe (run_on_data env buf s)
  unfolding run_on_data
  run_on_data-IsSafe buf s h = elim (Option-cases s.on_data) [
    | inl e ↦ simp (e, run_on_data) h
    | inr (f, e) ↦ simp (e, run_on_data) (keeps (call_on_data f buf) s h)
  ]

  on_bytes-IsSafe : (buf : Bytes) (s : Socket) → IsSafe s → IsSafe (on_bytes env buf s)
  unfolding on_bytes
  on_bytes-IsSafe buf s h =
      run_on_data-IsSafe buf _ (counted-IsSafe _ (emit_read env buf s) (emit_read-IsSafe buf s h))

  asserted-IsSafe : (b : Bool) (s : Socket) → IsSafe s → IsSafe (assert_that b s)
  asserted-IsSafe b s h = ground arith

  begin_read-IsSafe : (s : Socket) → IsSafe s → IsSafe (begin_read s)
  begin_read-IsSafe s h = active-IsSafe _ (asserted-IsSafe (is_some s.handle) s h)

  pub on_read-IsSafe : (r : Read) (s : Socket) → IsSafe s → IsSafe (on_read env r s)
  unfolding on_read
  on_read-IsSafe nothing s h = begin_read-IsSafe s h
  on_read-IsSafe eof s h =
      on_eof-IsSafe _ (asserted-IsSafe (not s.got_eof) _ (begin_read-IsSafe s h))
  on_read-IsSafe (failed code) s h =
      destroy_with-IsSafe env keeps (some (uv_error code)) none _ (begin_read-IsSafe s h)
  on_read-IsSafe (got buf) s h = on_bytes-IsSafe buf _ (begin_read-IsSafe s h)

  pub run_tick-IsSafe : (t : Tick) (s : Socket) → IsSafe s → IsSafe (run_tick env t s)
  unfolding run_tick
  run_tick-IsSafe (error_tick e) s h = keeps (emit_error e) s h
  run_tick-IsSafe (error_and_destroy_tick e) s h =
      destroy-IsSafe env keeps _ (keeps (emit_error e) s h)
  run_tick-IsSafe (close_tick err) s h = keeps emit_destroy _ (keeps _ s h)
