-- ===== src/Net/Server/Tests.antt =====
-- Servers that meet the hypotheses of the theorems about net::Server, and runs.
use libnode.Base.{◌≡◌, refl, false, none, some, [], ◌∷◌}
use libnode.Net.Server.State.{
  close_event, connection_event, destroy_event, Env, Server, create, ip4, listening_event,
}
use libnode.Net.Server.Ops.{
  close, on_connection, remove_connection, run_next, run_tick, emit_close, on_destroy,
  emit_close_if_drained, listen_port, set_max_connections, listen_on, create_server_handle,
  start_listening,
}
use libnode.Net.Server.Counting.{ticks}

abbrev willing : Env
willing = record {
  is_ip = λ h. none;
  is_pipe_fd = λ fd. false;
  bind_result = λ t a p. 0;
  listen_result = λ h b. 0;
  einval = 22;
}

abbrev addressed : Env
addressed = record willing { is_ip = λ h. some ip4 }

-- A server that listens and takes one connection at a time.
abbrev one_at_a_time : Server
one_at_a_time = (listen_port addressed 80 [] 511 (some 2) (set_max_connections 1 (create none))).0

-- A second client is refused; close() waits for the first, and then calls its callback.
abbrev served : Server
served =
    let ready = run_next one_at_a_time.ticks one_at_a_time in
    let s = on_connection (some 8) (on_connection (some 7) ready) in
    let closed = remove_connection 7 (close (some 3) s).0 in run_next closed.ticks closed

served_called : served.called ≡ 2 ∷ 3 ∷ []
unfolding create on_connection close remove_connection emit_close_if_drained run_next run_tick
    emit_close on_destroy listen_port set_max_connections listen_on create_server_handle
    start_listening
served_called = refl

served_events :
    served.events ≡ listening_event ∷ connection_event 7 ∷ close_event ∷ destroy_event ∷ []
unfolding create on_connection close remove_connection emit_close_if_drained run_next run_tick
    emit_close on_destroy listen_port set_max_connections listen_on create_server_handle
    start_listening
served_events = refl
