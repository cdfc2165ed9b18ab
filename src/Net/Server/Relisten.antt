-- ===== src/Net/Server/Relisten.antt =====
-- listen() behind close(), before the close event.
use libnode.Base.{◌≡◌, refl, true, none, some, []}
use libnode.Net.Socket.State.{Bytes}
use libnode.Net.Server.State.{HandleType, path_type, pipe_handle, Env, Server}
use libnode.Net.Server.Ops.{
  create_server_handle, start_listening, listen_on, listen_path, emit_close_if_drained, close,
  on_destroy, emit_close, run_tick, run_next,
}

-- A server without connections and with nothing scheduled that is closed and then listens on another
-- path, which libuv allows, before process::nextTick runs: the close event meets the assertion of
-- OnDestroy, which fails, while the server listens.
listen_path-close :
    (env : Env) (h : HandleType) (path : Bytes) (s : Server)
    → s.handle ≡ some h
    → s.connections ≡ 0
    → s.ticks ≡ []
    → env.bind_result path_type path none ≡ 0
    → env.listen_result pipe_handle 511 ≡ 0
    → let again = (listen_path env path none (close none s).0).0 in
      ((run_next again.ticks again).failed ≡ true)
      × ((run_next again.ticks again).handle ≡ some pipe_handle)
unfolding close emit_close_if_drained listen_path listen_on create_server_handle start_listening
    run_next run_tick emit_close on_destroy
listen_path-close env h path s open_handle idle none_waits binds listens =
    simp (open_handle, idle, none_waits, binds, listens) (refl, refl)
