-- ===== src/Net/Socket/Callbacks.antt =====
-- How a net::Socket is made and connected, and its callbacks, keep it safe.
use libnode.Base.{
  ℕ, ◌≡◌, refl, Bool, true, false, Option, none, some, List, [], ◌∷◌, arith, if◌then◌else◌, ◌==◌,
}
use libnode.Net.Socket.State.{
  Bytes, Kind, pipe, tcp, no_encoding, SocketError, uv_error, emit_connect, undefined, Socket, Env,
  bind_handle, connect_handle,
}
use libnode.Net.Socket.Ops.{on_handle, active, connect_queue_clean_up, destroy_with, queue}
use libnode.Net.Socket.Connect.{
  init_socket_handle, ask_connect, create, create_fd, connect_tcp, begin_connect, connect_path,
  connect_port, after_lookup, flush_queue, write_queued, opened, announce, after_connect,
}
use libnode.Net.Socket.Safety.{
  IsSafe, Keeps, active-IsSafe, destroy_with-IsSafe, write_bytes-IsSafe, end-IsSafe,
}

pub create-IsSafe : (handle : Option Kind) (half_open : Bool) → IsSafe (create handle half_open)
unfolding create
create-IsSafe handle half_open = ground arith

pub create_fd-IsSafe : (half_open : Bool) → IsSafe (create_fd half_open)
unfolding create_fd
create_fd-IsSafe half_open = ground arith

begin_connect-IsSafe : (kind : Kind) (s : Socket) → IsSafe s → IsSafe (begin_connect kind s)
unfolding begin_connect active init_socket_handle
begin_connect-IsSafe kind s h = ground arith

begin_connect-connecting : (kind : Kind) (s : Socket) → (begin_connect kind s).connecting ≡ true
unfolding begin_connect
begin_connect-connecting kind s = refl

pub connect_path-IsSafe : (s : Socket) → IsSafe s → IsSafe (connect_path s)
unfolding connect_path
connect_path-IsSafe s h =
    ground (arith, begin_connect-IsSafe pipe s h, begin_connect-connecting pipe s)

clean_up-IsSafe : (s : Socket) → IsSafe s → IsSafe (connect_queue_clean_up s)
unfolding connect_queue_clean_up
clean_up-IsSafe s h = ground arith

opened-IsSafe : (r w : Bool) (s : Socket) → s.connecting ≡ true → IsSafe s → IsSafe (opened r w s)
unfolding opened active
opened-IsSafe r w s c h = ground arith

active-connecting : (s : Socket) → (active s).connecting ≡ s.connecting
unfolding active
active-connecting s = ground arith

module _ (env : Env) (keeps : Keeps env) where
  ask_connect-IsSafe : (s : Socket) → s.connecting ≡ true → IsSafe s → IsSafe (ask_connect env s)
  unfolding ask_connect
  ask_connect-IsSafe s c h = go (on_handle connect_handle s) (ground (arith, h.connects c))
    where
      go :
          (t : Socket)
          → IsSafe t
          → IsSafe (
              if env.connect_result t == 0
              then t
              else (destroy_with env (some (uv_error (env.connect_result t))) none t).0)
      go t k =
          ground
            (arith, destroy_with-IsSafe env keeps (some (uv_error (env.connect_result t))) none t k)

  connect_tcp-IsSafe :
      (local : Bool) (s : Socket)
      → s.connecting ≡ true
      → IsSafe s
      → IsSafe (connect_tcp env local s)
  unfolding connect_tcp
  connect_tcp-IsSafe false s c h = ask_connect-IsSafe s c h
  connect_tcp-IsSafe true s c h =
      go (on_handle bind_handle s) (ground (arith, h.connects c)) (ground (arith, h.connects c))
    where
      go :
          (t : Socket)
          → t.connecting ≡ true
          → IsSafe t
          → IsSafe (
              if env.bind_result t == 0
              then ask_connect env t
              else (destroy_with env (some (uv_error (env.bind_result t))) none t).0)
      go t d k = ground (
        arith,
        ask_connect-IsSafe t d k,
        destroy_with-IsSafe env keeps (some (uv_error (env.bind_result t))) none t k,
      )

  pub connect_port-IsSafe : (host : Bool) (s : Socket) → IsSafe s → IsSafe (connect_port env host s)
  unfolding connect_port
  connect_port-IsSafe true s h = begin_connect-IsSafe tcp s h
  connect_port-IsSafe false s h =
      connect_tcp-IsSafe false _ (begin_connect-connecting tcp s) (begin_connect-IsSafe tcp s h)

  pub after_lookup-IsSafe :
      (err : Option SocketError) (local : Bool) (s : Socket)
      → IsSafe s
      → IsSafe (after_lookup env err local s)
  unfolding after_lookup
  after_lookup-IsSafe none local s h =
      ground (arith, connect_tcp-IsSafe local (active s), active-IsSafe s h, active-connecting s)
  after_lookup-IsSafe (some e) local s h = ground arith

  flush_queue-IsSafe :
      (bs : List Bytes) (cbs : List (Option ℕ)) (s : Socket)
      → IsSafe s
      → IsSafe (flush_queue env bs cbs s)
  unfolding flush_queue
  flush_queue-IsSafe [] cbs s h = h
  flush_queue-IsSafe (b ∷ bs) [] s h =
      flush_queue-IsSafe bs [] _ (write_bytes-IsSafe env keeps b none s h)
  flush_queue-IsSafe (b ∷ bs) (cb ∷ cbs) s h =
      flush_queue-IsSafe bs cbs _ (write_bytes-IsSafe env keeps b cb s h)

  write_queued-IsSafe : (s : Socket) → IsSafe s → IsSafe (write_queued env s)
  unfolding write_queued
  write_queued-IsSafe s h = ground (
    arith,
    clean_up-IsSafe _
        (flush_queue-IsSafe (queue s.connect_buf_queue) (queue s.connect_cb_queue) s h),
  )

  announce-IsSafe : (s : Socket) → IsSafe s → IsSafe (announce env s)
  unfolding announce
  announce-IsSafe s h = ground (
    arith,
    keeps emit_connect s h,
    end-IsSafe env keeps undefined no_encoding
        (record (env.react emit_connect s) { shutdown_queued = false }),
  )

  pub after_connect-IsSafe :
      (status : ℕ) (r w : Bool) (s : Socket)
      → (s.destroyed ≡ false → s.connecting ≡ true)
      → IsSafe s
      → IsSafe (after_connect env status r w s)
  unfolding after_connect
  after_connect-IsSafe status r w s c h = ground (
    arith,
    opened-IsSafe r w s,
    write_queued-IsSafe (opened r w s),
    announce-IsSafe (write_queued env (opened r w s)),
    clean_up-IsSafe (record s { connecting = false }),
    destroy_with-IsSafe env keeps (some (uv_error status)) none
        (connect_queue_clean_up (record s { connecting = false })),
  )
