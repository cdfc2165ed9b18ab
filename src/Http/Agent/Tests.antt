-- ===== src/Http/Agent/Tests.antt =====
-- A run of http::Agent: one socket, two requests, and the socket goes.
use libnode.Base.{◌≡◌, refl, true, none, [], ◌∷◌, ◌++◌, codes}
use libnode.Net.Socket.State.{Bytes}
use libnode.Http.Message.Head.{text_eq}
use libnode.Http.Agent.Pool.{
  Agent, new_agent, set_list, socket_name, create_socket, give, start_request, queue_request,
  add_request, free_socket, replace_socket, remove_id, remove_socket,
}
use libnode.Http.Agent.Fairness.{IsFair, has_id, Run, start, asks, closes, Run-IsFair}

abbrev host : Bytes
host = codes "h:80"

host_name : socket_name (codes "h") (codes "80") none ≡ host
unfolding socket_name
host_name = refl

abbrev two_asked : Agent
two_asked = add_request host 8 (add_request host 7 (new_agent 1))

two_asked-Run : Run 1 two_asked (
    set_list host
      (set_list host (7 ∷ []) (λ n. []) host ++ 8 ∷ [])
      (set_list host (7 ∷ []) (λ n. [])))
two_asked-Run = asks host 8 (asks host 7 start)

abbrev replaced : Agent
replaced = remove_socket host 0 two_asked

-- The second request got the new socket.
replaced-given : replaced.given host ≡ (7, 0) ∷ (8, 1) ∷ []
unfolding text_eq create_socket give start_request queue_request add_request free_socket
    replace_socket remove_id remove_socket
replaced-given = refl

held : has_id 0 (two_asked.sockets host) ≡ true
unfolding text_eq create_socket give start_request queue_request add_request
held = refl

Run-IsFair_example : IsFair replaced (7 ∷ 8 ∷ []) host
unfolding text_eq
Run-IsFair_example = Run-IsFair (closes host 0 held two_asked-Run) host
