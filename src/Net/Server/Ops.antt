-- ===== src/Net/Server/Ops.antt =====
-- The operations of net::Server and its callbacks.
use libnode.Base.{
  ℕ, ◌+◌, ◌-◌, Bool, true, false, not, ◌&&◌, ◌||◌, Option, none, some, List, [], ◌∷◌, ◌++◌, is_some,
  leb, if◌then◌else◌, ◌==◌,
}
use libnode.Net.Socket.State.{Bytes}
use libnode.Net.Server.State.{
  AddressType, path_type, HandleType, tcp_handle, pipe_handle, illegal_argument, illegal_state,
  uv_error, Event, listening_event, close_event, destroy_event, error_event, connection_event, Tick,
  close_tick, listening_tick, error_tick, Env, Server,
}

abbrev pub emit : Event → Server → Server
emit e s = record s { events = s.events ++ e ∷ [] }

abbrev pub next_tick : Tick → Server → Server
next_tick t s = record s { ticks = s.ticks ++ t ∷ [] }

abbrev pub add_callback : Option ℕ → List ℕ → List ℕ
add_callback none fs = fs
add_callback (some f) fs = fs ++ f ∷ []

abbrev pub new_handle : AddressType → HandleType
new_handle path_type = pipe_handle
new_handle type = tcp_handle

abbrev pub bind_error : Env → AddressType → Option Bytes → Option ℕ → ℕ
bind_error env type none port = 0
bind_error env type (some address) port = env.bind_result type address port

-- createServerHandle(); `none` is NULL. A port or fd that is none is INVALID_PORT or INVALID_FD.
unfoldable pub create_server_handle :
    Env → Option Bytes → Option ℕ → AddressType → Option ℕ → Option HandleType
create_server_handle env address port type (some fd) =
    if env.is_pipe_fd fd then some pipe_handle else none
create_server_handle env address port type none =
    if bind_error env type address port == 0 then some (new_handle type) else none

-- handle_->listen() and what follows it.
unfoldable pub start_listening :
    Env → Option Bytes → Option ℕ → AddressType → ℕ → HandleType → Server → Server × Bool
start_listening env address port type backlog handle s =
    let err = env.listen_result handle backlog in
    if err == 0
    then (
      next_tick listening_tick
          (record s { handle = some handle; connection_key = some (type, address, port) }),
      true,
    )
    else (next_tick (error_tick err) (record s { handle = none }), false)

abbrev pub listen_with :
    Option HandleType → Env → Option Bytes → Option ℕ → AddressType → ℕ → Server → Server × Bool
listen_with none env address port type backlog s = (next_tick (error_tick env.einval) s, false)
listen_with (some h) env address port type backlog s =
    start_listening env address port type backlog h s

abbrev pub or_create : Option HandleType → Option HandleType → Option HandleType
or_create none made = made
or_create (some h) made = some h

-- The private listen().
unfoldable pub listen_on :
    Env → Option Bytes → Option ℕ → AddressType → ℕ → Option ℕ → Server → Server × Bool
listen_on env address port type backlog fd s =
    let made = or_create s.handle (create_server_handle env address port type fd) in
    listen_with made env address port type backlog s

abbrev pub once_listening : Option ℕ → Server → Server
once_listening callback s = record s {
  listening_callbacks = add_callback callback s.listening_callbacks;
}

-- listen(port, host, backlog, callback).
unfoldable pub listen_port : Env → ℕ → Bytes → ℕ → Option ℕ → Server → Server × Bool
listen_port env port host backlog callback s =
    if is_some s.handle then (s, false) else elim (env.is_ip host) [
      | none ↦ (emit (error_event illegal_argument) (once_listening callback s), false)
      | some type ↦
          listen_on env (some host) (some port) type backlog none (once_listening callback s)
    ]

-- listen(path, callback).
unfoldable pub listen_path : Env → Bytes → Option ℕ → Server → Server × Bool
listen_path env path callback s =
    if is_some s.handle
    then (s, false)
    else listen_on env (some path) none path_type 511 none (once_listening callback s)

abbrev pub emit_close_unless : Bool → Server → Server
emit_close_unless true s = s
emit_close_unless false s = next_tick close_tick s

unfoldable pub emit_close_if_drained : Server → Server
emit_close_if_drained s = emit_close_unless (is_some s.handle || not (s.connections == 0)) s

abbrev pub close_handle : Option HandleType → Option ℕ → Server → Server × Bool
close_handle none callback s = (s, false)
close_handle (some h) callback s = (
  emit_close_if_drained
      (record s { close_callbacks = add_callback callback s.close_callbacks; handle = none }),
  true,
)

unfoldable pub close : Option ℕ → Server → Server × Bool
close callback s = close_handle s.handle callback s

unfoldable pub set_max_connections : ℕ → Server → Server
set_max_connections max s = record s { max_connections = max }

abbrev pub is_full : Server → Bool
is_full s = not (s.max_connections == 0) && leb s.max_connections s.connections

abbrev pub connect_client : Bool → ℕ → Server → Server
connect_client true client s = record s { refused = s.refused ++ client ∷ [] }
connect_client false client s = record s {
  connections = s.connections + 1;
  live = s.live ++ client ∷ [];
  events = s.events ++ connection_event client ∷ [];
}

-- OnConnection, on a client or none.
unfoldable pub on_connection : Option ℕ → Server → Server
on_connection none s = emit (error_event illegal_state) s
on_connection (some client) s = connect_client (is_full s) client s

abbrev pub remove_id : ℕ → List ℕ → List ℕ
remove_id c [] = []
remove_id c (d ∷ ds) = if c == d then ds else d ∷ remove_id c ds

abbrev pub word : ℕ
word = 18446744073709551616

-- `connections_--` on a Size of 64 bits.
abbrev pub decrement : ℕ → ℕ
decrement n = if n == 0 then word - 1 else n - 1

-- RemoveConnection, at the close event of a socket.
unfoldable pub remove_connection : ℕ → Server → Server
remove_connection client s =
    emit_close_if_drained
      (record s { connections = decrement s.connections; live = remove_id client s.live })

-- OnDestroy and its assertions.
unfoldable pub on_destroy : Server → Server
on_destroy s = record s { failed = (is_some s.handle || not (s.connections == 0)) || s.failed }

-- EmitClose: the callbacks of once(), and the listener that create() added.
unfoldable pub emit_close : Server → Server
emit_close s = on_destroy (
    emit destroy_event (record (emit close_event s) {
      called = s.called ++ s.close_callbacks;
      close_callbacks = [];
    }))

unfoldable pub run_tick : Tick → Server → Server
run_tick close_tick s = emit_close s
run_tick listening_tick s = record (emit listening_event s) {
  called = s.called ++ s.listening_callbacks;
  listening_callbacks = [];
}
run_tick (error_tick err) s = emit (error_event (uv_error err)) s

-- What process::nextTick does with its oldest entry.
unfoldable pub run_next : List Tick → Server → Server
run_next [] s = s
run_next (t ∷ ts) s = run_tick t (record s { ticks = ts })
