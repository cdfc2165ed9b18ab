-- ===== src/Net/Socket/Reach.antt =====
-- Every net::Socket that the program reaches is safe: the calls of the program, the callbacks of
-- libuv and the deferred functions of process::nextTick, in any order.
use libnode.Base.{refl, ℕ, ◌/◌, if◌then◌else◌, none, some, ◌≡◌, Bool, true, false, Option, arith}
use libnode.Net.Socket.State.{
  no_delay_handle, keep_alive_handle, name_handle, Action, Kind, Encoding, base64, SocketError,
  emit_timeout, Tick, Chunk, Socket, Env,
}
use libnode.Net.Socket.Ops.{
  set_timeout, destroy, destroy_soon, write, end, pause, resume, set_encoding, set_on_data,
  set_on_end, set_no_delay, set_keep_alive, ask_name, is_tcp, on_handle,
}
use libnode.Net.Socket.Connect.{
  create, create_fd, connect_path, connect_port, after_lookup, after_connect,
}
use libnode.Net.Socket.Receive.{after_write, after_shutdown, Read, on_read, run_tick, on_timeout}
use libnode.Net.Socket.Safety.{
  IsSafe, Keeps, set_timeout-IsSafe, destroy-IsSafe, destroy_soon-IsSafe, write-IsSafe, end-IsSafe,
  pause-IsSafe, resume-IsSafe,
}
use libnode.Net.Socket.Callbacks.{
  create-IsSafe, create_fd-IsSafe, connect_path-IsSafe, connect_port-IsSafe, after_lookup-IsSafe,
  after_connect-IsSafe,
}
use libnode.Net.Socket.ReceiveSafety.{
  after_write-IsSafe, after_shutdown-IsSafe, on_read-IsSafe, run_tick-IsSafe,
}

-- One step of the program or of the event loop. AfterConnect asserts CONNECTING unless the socket is
-- destroyed.
pub data Step (env : Env) : Socket → Socket → Type 0 where
  writes :
      (s : Socket) (c : Chunk) (enc : Encoding) (cb : Option ℕ)
      → Step env s (write env c enc cb s).0
  ends : (s : Socket) (c : Chunk) (enc : Encoding) → Step env s (end env c enc s).0
  destroys : (s : Socket) → Step env s (destroy env s).0
  destroys_soon : (s : Socket) → Step env s (destroy_soon env s).0
  pauses : (s : Socket) → Step env s (pause env s).0
  resumes : (s : Socket) → Step env s (resume env s).0
  sets_timeout : (s : Socket) (t : ℕ) → Step env s (set_timeout t s)
  sets_encoding : (s : Socket) (enc : Encoding) → Step env s (set_encoding enc s).0
  sets_on_data : (s : Socket) (f : Option ℕ) → Step env s (set_on_data f s).0
  sets_on_end : (s : Socket) (f : Option ℕ) → Step env s (set_on_end f s).0
  sets_no_delay : (s : Socket) (b : Bool) → Step env s (set_no_delay env b s).0
  sets_keep_alive : (s : Socket) (b : Bool) (t : ℕ) → Step env s (set_keep_alive env b t s).0
  asks_name : (s : Socket) → Step env s (ask_name s).0
  connects_path : (s : Socket) → Step env s (connect_path s)
  connects_port : (s : Socket) (host : Bool) → Step env s (connect_port env host s)
  looked_up :
      (s : Socket) (err : Option SocketError) (local : Bool)
      → Step env s (after_lookup env err local s)
  connected :
      (s : Socket) (status : ℕ) (r w : Bool)
      → (s.destroyed ≡ false → s.connecting ≡ true)
      → Step env s (after_connect env status r w s)
  wrote : (s : Socket) (status : ℕ) (cb : Option ℕ) → Step env s (after_write env status cb s)
  shut_down : (s : Socket) → Step env s (after_shutdown env s)
  read : (s : Socket) (r : Read) → Step env s (on_read env r s)
  ticked : (s : Socket) (t : Tick) → Step env s (run_tick env t s)
  timed_out : (s : Socket) → Step env s (on_timeout env s)

-- From a socket that create() made.
pub data Reach (env : Env) : Socket → Type 0 where
  created : (k : Option Kind) (half_open : Bool) → Reach env (create k half_open)
  created_fd : (half_open : Bool) → Reach env (create_fd half_open)
  next : {s t : Socket} → Reach env s → Step env s t → Reach env t

set_encoding-IsSafe : (enc : Encoding) (s : Socket) → IsSafe s → IsSafe (set_encoding enc s).0
unfolding set_encoding
set_encoding-IsSafe base64 s h = ground arith
set_encoding-IsSafe _ s h = ground arith

on_handle-IsSafe :
    (k : Option Kind) (a : Action) (s : Socket)
    → s.handle ≡ k
    → IsSafe s
    → is_tcp k ≡ true
    → IsSafe (on_handle a s)
on_handle-IsSafe none a s e h b = absurd (cc)
on_handle-IsSafe (some k) a s e h b = ground (arith, e)

asked-IsSafe :
    (a : Action) (r : Bool) (s : Socket)
    → IsSafe s
    → IsSafe (if◌then◌else◌ {A = Socket × Bool} (is_tcp s.handle) (on_handle a s, r) (s, false)).0
asked-IsSafe a r s h = go (is_tcp s.handle) refl
  where
    go :
        (b : Bool)
        → is_tcp s.handle ≡ b
        → IsSafe (if◌then◌else◌ {A = Socket × Bool} b (on_handle a s, r) (s, false)).0
    go true e = on_handle-IsSafe s.handle a s refl h e
    go false e = h

module _ (env : Env) (keeps : Keeps env) where
  Step-IsSafe : {s t : Socket} → Step env s t → IsSafe s → IsSafe t
  unfolding on_timeout set_no_delay set_keep_alive ask_name set_on_data set_on_end
  Step-IsSafe (writes s c enc cb) h = write-IsSafe env keeps c enc cb s h
  Step-IsSafe (ends s c enc) h = end-IsSafe env keeps c enc s h
  Step-IsSafe (destroys s) h = destroy-IsSafe env keeps s h
  Step-IsSafe (destroys_soon s) h = destroy_soon-IsSafe env keeps s h
  Step-IsSafe (pauses s) h = pause-IsSafe env keeps s h
  Step-IsSafe (resumes s) h = resume-IsSafe env keeps s h
  Step-IsSafe (sets_timeout s t) h = set_timeout-IsSafe t s h
  Step-IsSafe (sets_encoding s enc) h = set_encoding-IsSafe enc s h
  Step-IsSafe (sets_on_data s f) h = ground arith
  Step-IsSafe (sets_on_end s f) h = ground arith
  Step-IsSafe (sets_no_delay s b) h = asked-IsSafe (no_delay_handle b) _ s h
  Step-IsSafe (sets_keep_alive s b t) h = asked-IsSafe (keep_alive_handle b (t / 1000)) _ s h
  Step-IsSafe (asks_name s) h = asked-IsSafe name_handle _ s h
  Step-IsSafe (connects_path s) h = connect_path-IsSafe s h
  Step-IsSafe (connects_port s host) h = connect_port-IsSafe env keeps host s h
  Step-IsSafe (looked_up s err local) h = after_lookup-IsSafe env keeps err local s h
  Step-IsSafe (connected s status r w c) h = after_connect-IsSafe env keeps status r w s c h
  Step-IsSafe (wrote s status cb) h = after_write-IsSafe env keeps status cb s h
  Step-IsSafe (shut_down s) h = after_shutdown-IsSafe env keeps s h
  Step-IsSafe (read s r) h = on_read-IsSafe env keeps r s h
  Step-IsSafe (ticked s t) h = run_tick-IsSafe env keeps t s h
  Step-IsSafe (timed_out s) h = keeps emit_timeout s h

  -- Whatever libuv returns and in whatever order it calls back, and whatever of the steps above the
  -- program calls, a socket that create() made never goes through a null `handle_`, and it has a handle whenever it
  -- is readable, writable or connecting. The listeners and callbacks are assumed to keep this
  -- themselves, and AfterConnect to come only while the socket is connecting or destroyed.
  pub Reach-IsSafe : {s : Socket} → Reach env s → IsSafe s
  Reach-IsSafe (created k half_open) = create-IsSafe k half_open
  Reach-IsSafe (created_fd half_open) = create_fd-IsSafe half_open
  Reach-IsSafe (next r st) = Step-IsSafe st (Reach-IsSafe r)
