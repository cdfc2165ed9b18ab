-- ===== src/Net/Socket/Ending.antt =====
-- end() on a net::Socket that is still connecting.
use mathlib.Core.List.{flatten}
use libnode.Base.{◌≡◌, refl, true, false, none, List, ◌∷◌, ◌++◌, arith, is_some}
use libnode.Net.Socket.State.{
  Bytes, Encoding, no_encoding, Action, shutdown_handle, undefined, buffer, Socket, Env,
  emit_connect,
}
use libnode.Net.Socket.Ops.{
  enqueue, to_buffer, write_bytes, write, write_if_defined, queue_shutdown, finish_end, end, queue,
  log,
}
use libnode.Net.Socket.Connect.{write_queued, opened, announce, after_connect}
use libnode.Net.Socket.Lifecycle.{IsQuiet}
use libnode.Net.Socket.Transfer.{
  sent, Accepts, IsQueued, total_snoc, flatten_snoc, opened_lem, write_queued-Sends,
}

-- end(data) while connecting only queues.
abbrev ending : Bytes → Socket → Socket
ending b s = record (enqueue b none s) { writable = false; shutdown_queued = true }

ending-IsQueued : (b : Bytes) (s : Socket) → IsQueued s → IsQueued (ending b s)
unfolding enqueue
ending-IsQueued b s n = omega (arith, total_snoc (queue s.connect_buf_queue) b)

ending-flatten :
    (b : Bytes) (s : Socket)
    → flatten (queue (ending b s).connect_buf_queue) ≡ flatten (queue s.connect_buf_queue) ++ b
unfolding enqueue
ending-flatten b s = flatten_snoc (queue s.connect_buf_queue) b

end_connecting :
    (env : Env) (b : Bytes) (enc : Encoding) (s : Socket)
    → s.connecting ≡ true
    → s.shutdown_queued ≡ false
    → end env (buffer b) enc s ≡ (ending b s, false)
unfolding end queue_shutdown write_if_defined write to_buffer write_bytes
end_connecting env b enc s c q = ground arith

module _ (env : Env) (quiet : IsQuiet env) (accepts : Accepts env) where
  end_open :
      (s : Socket)
      → s.connecting ≡ false
      → s.writable ≡ true
      → s.readable ≡ true
      → is_some s.handle ≡ true
      → (end env undefined no_encoding s).0
        ≡ log shutdown_handle (record s { writable = false; shutdown = true })
  unfolding end queue_shutdown finish_end write_if_defined
  end_open s c w r h =
      ground
        (arith, accepts.1 (log shutdown_handle (record s { writable = false; shutdown = true })))

  announce_end :
      (s : Socket)
      → s.shutdown_queued ≡ true
      → s.connecting ≡ false
      → s.writable ≡ true
      → s.readable ≡ true
      → is_some s.handle ≡ true
      → announce env s
        ≡ log shutdown_handle
            (record s { writable = false; shutdown = true; shutdown_queued = false })
  unfolding announce
  announce_end s q c w r h =
      rw (quiet emit_connect s) (simp q (end_open (record s { shutdown_queued = false }) c w r h))

  -- A connection whose end was asked for before: what is queued is sent, and the shutdown is last.
  connect_and_end :
      (s : Socket)
      → s.destroyed ≡ false
      → is_some s.handle ≡ true
      → s.shutdown_queued ≡ true
      → IsQueued s
      → let t = after_connect env 0 true true s in
        (rest : List Action) × (t.trace ≡ shutdown_handle ∷ rest)
        × (sent rest ≡ sent s.trace ++ flatten (queue s.connect_buf_queue))
        × (t.shutdown ≡ true)
        × (t.writable ≡ false)
  unfolding after_connect
  connect_and_end s d h q n = simp d (
    (write_queued env (opened true true s)).trace,
    ground (arith, facts, announced),
    ground (arith, facts),
    ground (arith, facts, announced),
    ground (arith, facts, announced),
  )
    where
      open_facts :
          let t = opened true true s in
          (t.connecting ≡ false) × (is_some t.handle ≡ true) × IsQueued t
      open_facts = ground (arith, opened_lem true true s h)

      facts :
          let t = write_queued env (opened true true s) in
          (sent t.trace ≡ sent s.trace ++ flatten (queue s.connect_buf_queue))
          × (t.connecting ≡ false)
          × (t.writable ≡ true)
          × (t.readable ≡ true)
          × (is_some t.handle ≡ true)
          × (t.shutdown_queued ≡ true)
      facts = ground (
        arith,
        opened_lem true true s h,
        write_queued-Sends env accepts (opened true true s) open_facts.2 open_facts.1 open_facts.0,
      )

      announced :
          let t = write_queued env (opened true true s) in
          announce env t
          ≡ log shutdown_handle
              (record t { writable = false; shutdown = true; shutdown_queued = false })
      announced = announce_end _ facts.5 facts.1 facts.2 facts.3 facts.4

  -- end(data) on a socket that is still connecting: once connected, the socket sends what was
  -- written before, then the data, and then shuts down; nothing is sent after the shutdown.
  pub end_while_connecting :
      (b : Bytes) (enc : Encoding) (s : Socket)
      → s.connecting ≡ true
      → s.destroyed ≡ false
      → is_some s.handle ≡ true
      → s.shutdown_queued ≡ false
      → IsQueued s
      → let t = after_connect env 0 true true (end env (buffer b) enc s).0 in
        (rest : List Action) × (t.trace ≡ shutdown_handle ∷ rest)
        × (sent rest ≡ sent s.trace ++ (flatten (queue s.connect_buf_queue) ++ b))
        × (t.shutdown ≡ true)
        × (t.writable ≡ false)
  unfolding enqueue
  end_while_connecting b enc s c d h q n =
      rw (end_connecting env b enc s c q, ← ending-flatten b s)
        (connect_and_end (ending b s) d h refl (ending-IsQueued b s n))
