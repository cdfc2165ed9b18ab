-- ===== src/Http/Agent/Pool.antt =====
-- The sockets and the waiting requests of http::Agent, by the name "host:port" or
-- "host:port:localAddress". Sockets and requests are numbers.
use libnode.Base.{
  ℕ, suc, Option, none, some, List, [], ◌∷◌, ◌++◌, codes, length, ltb, if◌then◌else◌, ◌==◌,
}
use libnode.Net.Socket.State.{Bytes}
use libnode.Http.Message.Head.{text_eq}

-- `sockets_` and `requests_` give the empty list for a name that they do not have. `given` logs the
-- calls `req->onSocket(socket)`, and `destroyed` the calls of destroy(), newest last.
pub record Agent : Type 0 where
  pub max_sockets : ℕ
  pub sockets : Bytes → List ℕ
  pub requests : Bytes → List ℕ
  pub next_socket : ℕ
  pub given : Bytes → List (ℕ × ℕ)
  pub destroyed : List ℕ

abbrev pub new_agent : ℕ → Agent
new_agent max = record {
  max_sockets = max;
  sockets = λ n. [];
  requests = λ n. [];
  next_socket = 0;
  given = λ n. [];
  destroyed = [];
}

abbrev pub set_list {ℓ} : {A : Type ℓ} → Bytes → List A → (Bytes → List A) → Bytes → List A
set_list k l f n = if text_eq k n then l else f n

unfoldable pub socket_name : Bytes → Bytes → Option Bytes → Bytes
socket_name host port none = host ++ (codes ":" ++ port)
socket_name host port (some address) = host ++ (codes ":" ++ (port ++ (codes ":" ++ address)))

-- createSocket() adds a new socket under the name.
unfoldable pub create_socket : Bytes → Agent → ℕ × Agent
create_socket name a = (
  a.next_socket,
  record a {
    sockets = set_list name (a.sockets name ++ a.next_socket ∷ []) a.sockets;
    next_socket = suc a.next_socket;
  },
)

-- `req->onSocket(socket)`
unfoldable pub give : Bytes → ℕ → ℕ → Agent → Agent
give name req socket a = record a {
  given = set_list name (a.given name ++ (req, socket) ∷ []) a.given;
}

-- The listener Free of the event `free`: the socket goes to the request that waits longest, or is
-- destroyed.
unfoldable pub free_socket : Bytes → ℕ → Agent → Agent
free_socket name socket a = elim (a.requests name) [
  | [] ↦ record a { destroyed = a.destroyed ++ socket ∷ [] }
  | req ∷ rest ↦ give name req socket (record a { requests = set_list name rest a.requests })
]

unfoldable pub start_request : Bytes → ℕ → ℕ × Agent → Agent
start_request name req (socket, a) = give name req socket a

unfoldable pub queue_request : Bytes → ℕ → Agent → Agent
queue_request name req a = record a {
  requests = set_list name (a.requests name ++ req ∷ []) a.requests;
}

unfoldable pub add_request : Bytes → ℕ → Agent → Agent
add_request name req a =
    if ltb (length (a.sockets name)) a.max_sockets
    then start_request name req (create_socket name a)
    else queue_request name req a

unfoldable pub remove_id : ℕ → List ℕ → List ℕ
remove_id s [] = []
remove_id s (x ∷ xs) = if x == s then xs else x ∷ remove_id s xs

-- `createSocket(...)->emit(EVENT_FREE)`
unfoldable pub replace_socket : Bytes → ℕ × Agent → Agent
replace_socket name (socket, a) = free_socket name socket a

-- removeSocket(): a request that waits gets a new socket.
unfoldable pub remove_socket : Bytes → ℕ → Agent → Agent
remove_socket name socket a₀ =
    let a = record a₀ { sockets = set_list name (remove_id socket (a₀.sockets name)) a₀.sockets } in
    elim (a₀.requests name) [ [] ↦ a | req ∷ rest ↦ replace_socket name (create_socket name a) ]

unfoldable pub set_max_sockets : ℕ → Agent → Agent
set_max_sockets max a = record a { max_sockets = max }
