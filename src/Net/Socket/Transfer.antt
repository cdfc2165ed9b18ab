-- ===== src/Net/Socket/Transfer.antt =====
-- What net::Socket sends: the bytes that are written while it connects, and what end() leaves.
use mathlib.Core.List.{flatten}
use libnode.Base.{
  ℕ, ◌+◌, ◌≡◌, refl, ◌∙◌, inl, inr, Bool, true, false, Option, none, List, [], ◌∷◌, ◌++◌, arith,
  length, length-append, is_some, append_assoc, append-nil, ◌==◌, Bool-cases,
}
use libnode.Net.Socket.State.{Bytes, Action, write_handle, Socket, Env, buffer, no_encoding}
use libnode.Net.Socket.Ops.{active, connect_queue_clean_up, write_buffer, write_bytes, queue, write}
use libnode.Net.Socket.Connect.{flush_queue, write_queued, opened}
use libnode.Net.Socket.Receive.{total}

-- The bytes given to the handle, oldest first.
abbrev pub sent : List Action → Bytes
sent [] = []
sent (write_handle b ∷ rest) = sent rest ++ b
sent (a ∷ rest) = sent rest

-- libuv takes every write and every shutdown.
abbrev pub Accepts : Env → Type 0
Accepts env =
    ((s : Socket) (b : Bytes) → env.write_result s b ≡ 0)
    × ((s : Socket) → env.shutdown_result s ≡ 0)

-- `t` is `s` after sending `b`.
pub record Sends (s : Socket) (b : Bytes) (t : Socket) : Type 0 where
  pub order : sent t.trace ≡ sent s.trace ++ b
  pub count : t.bytes_dispatched ≡ s.bytes_dispatched + length b
  pub same_handle : t.handle ≡ s.handle
  pub same_connecting : t.connecting ≡ s.connecting
  pub same_destroyed : t.destroyed ≡ s.destroyed
  pub same_readable : t.readable ≡ s.readable
  pub same_writable : t.writable ≡ s.writable
  pub same_queued : t.shutdown_queued ≡ s.shutdown_queued

Sends-refl : (s : Socket) → Sends s [] s
Sends-refl s = ground (arith, append-nil (sent s.trace))

Sends-trans :
    (s : Socket) (a : Bytes) (t : Socket) (b : Bytes) (u : Socket)
    → Sends s a t
    → Sends t b u
    → Sends s (a ++ b) u
Sends-trans s a t b u p q = ground (arith, append_assoc (sent s.trace) a b, length-append a b)

active-Sends : (s : Socket) → Sends s [] (active s)
unfolding active
active-Sends s = ground (arith, append-nil (sent s.trace))

clean_up-Sends :
    (s : Socket) (b : Bytes) (t : Socket)
    → Sends s b t
    → s.connecting ≡ false
    → Sends s b (connect_queue_clean_up t)
unfolding connect_queue_clean_up
clean_up-Sends s b t p c = ground arith

-- connectQueueSize_ counts the bytes that the queue holds.
abbrev pub IsQueued : Socket → Type 0
IsQueued s = s.connect_queue_size ≡ total (queue s.connect_buf_queue)

flatten-nil : (bs : List Bytes) → total bs ≡ 0 → flatten bs ≡ []
unfolding flatten
flatten-nil [] h = refl
flatten-nil ([] ∷ bs) h = flatten-nil bs (omega arith)
flatten-nil ((x ∷ b) ∷ bs) h = absurd (omega arith)

pub length-flatten : (bs : List Bytes) → length (flatten bs) ≡ total bs
unfolding flatten
length-flatten [] = refl
length-flatten (b ∷ bs) = omega (arith, length-append b (flatten bs), length-flatten bs)

pub flatten_snoc : (bs : List Bytes) (b : Bytes) → flatten (bs ++ b ∷ []) ≡ flatten bs ++ b
unfolding flatten
flatten_snoc [] b = rw append-nil
flatten_snoc (c ∷ bs) b = simp (flatten_snoc bs b, append_assoc)

pub total_snoc : (bs : List Bytes) (b : Bytes) → total (bs ++ b ∷ []) ≡ total bs + length b
total_snoc [] b = omega arith
total_snoc (c ∷ bs) b = omega (arith, total_snoc bs b)

pub opened_lem :
    (r w : Bool) (s : Socket)
    → is_some s.handle ≡ true
    → let t = opened r w s in
      (sent t.trace ≡ sent s.trace)
      × (t.bytes_dispatched ≡ s.bytes_dispatched)
      × (t.handle ≡ s.handle)
      × (t.connecting ≡ false)
      × (t.destroyed ≡ s.destroyed)
      × (t.readable ≡ r)
      × (t.writable ≡ w)
      × (t.shutdown_queued ≡ s.shutdown_queued)
      × (t.connect_buf_queue ≡ s.connect_buf_queue)
      × (t.connect_queue_size ≡ s.connect_queue_size)
unfolding opened active
opened_lem r w s h = ground arith

-- Calls of write(), one after another.
abbrev pub write_each : Env → List (Bytes × Option ℕ) → Socket → Socket
write_each env [] s = s
write_each env ((b, cb) ∷ ws) s = write_each env ws (write env (buffer b) no_encoding cb s).0

abbrev pub written : List (Bytes × Option ℕ) → Bytes
written [] = []
written ((b, cb) ∷ ws) = b ++ written ws

-- `t` is `s`, which is connecting, with `b` behind what its queue has.
record Waits (s : Socket) (b : Bytes) (t : Socket) : Type 0 where
  behind : flatten (queue t.connect_buf_queue) ≡ flatten (queue s.connect_buf_queue) ++ b
  sized : IsQueued t
  waits_connecting : t.connecting ≡ s.connecting
  waits_handle : t.handle ≡ s.handle
  waits_destroyed : t.destroyed ≡ s.destroyed
  waits_shutdown : t.shutdown_queued ≡ s.shutdown_queued
  waits_trace : t.trace ≡ s.trace
  waits_count : t.bytes_dispatched ≡ s.bytes_dispatched

module _ (env : Env) (accepts : Accepts env) where
  write_buffer-Sends :
      (b : Bytes) (cb : Option ℕ) (s : Socket)
      → is_some s.handle ≡ true
      → Sends s b (write_buffer env b cb s).0
  unfolding write_buffer
  write_buffer-Sends b cb s h =
      ground (arith, active-Sends s, accepts.0 (active s) b, append-nil (sent s.trace))

  pub write_bytes-Sends :
      (b : Bytes) (cb : Option ℕ) (s : Socket)
      → is_some s.handle ≡ true
      → s.connecting ≡ false
      → Sends s b (write_bytes env b cb s).0
  unfolding write_bytes
  write_bytes-Sends b cb s h c = ground (arith, write_buffer-Sends b cb s h)

  flush_queue-Sends :
      (bs : List Bytes) (cbs : List (Option ℕ)) (s : Socket)
      → is_some s.handle ≡ true
      → s.connecting ≡ false
      → Sends s (flatten bs) (flush_queue env bs cbs s)
  unfolding flush_queue flatten
  flush_queue-Sends [] cbs s h c = Sends-refl s
  flush_queue-Sends (b ∷ bs) [] s h c =
      let p = write_bytes-Sends b none s h c in
      Sends-trans s b _ (flatten bs) _ p
        (flush_queue-Sends bs [] _ (rw p.same_handle h) (p.same_connecting ∙ c))
  flush_queue-Sends (b ∷ bs) (cb ∷ cbs) s h c =
      let p = write_bytes-Sends b cb s h c in
      Sends-trans s b _ (flatten bs) _ p
        (flush_queue-Sends bs cbs _ (rw p.same_handle h) (p.same_connecting ∙ c))

  pub write_queued-Sends :
      (s : Socket)
      → IsQueued s
      → is_some s.handle ≡ true
      → s.connecting ≡ false
      → Sends s (flatten (queue s.connect_buf_queue)) (write_queued env s)
  unfolding write_queued
  write_queued-Sends s q h c = elim (Bool-cases (s.connect_queue_size == 0)) [
    | inl e ↦ simp e (rw (flatten-nil (queue s.connect_buf_queue) (ground arith)) (Sends-refl s))
    | inr e ↦ simp e (clean_up-Sends _ _ _ (flush_queue-Sends _ (queue s.connect_cb_queue) s h c) c)
  ]
