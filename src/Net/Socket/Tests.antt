-- ===== src/Net/Socket/Tests.antt =====
-- Inputs that meet the hypotheses of the theorems about net::Socket, and runs of the operations.
use mathlib.Core.List.{flatten}
use libnode.Base.{◌≡◌, refl, true, false, none, some, Option, ℕ, List, [], ◌∷◌, ◌++◌}
use libnode.Net.Socket.State.{
  Bytes, tcp, no_encoding, clear_timer, close_handle, uv_error, Call, call_back, error_tick,
  close_tick, Action, shutdown_handle, buffer, Socket, Env,
}
use libnode.Net.Socket.Ops.{destroy_with, destroy, destroy_soon, end}
use libnode.Net.Socket.Connect.{new_socket, create, connect_port, after_connect}
use libnode.Net.Socket.Safety.{IsSafe}
use libnode.Net.Socket.Reach.{created, next, connects_port, Reach-IsSafe}
use libnode.Net.Socket.Lifecycle.{IsDead, complete, destroy_with-IsDead, complete-destroy_soon}
use libnode.Net.Socket.Transfer.{sent}
use libnode.Net.Socket.Ending.{end_while_connecting}

-- libuv takes everything, and nobody listens.
abbrev calm : Env
calm = record {
  read_start_result = λ s. 0;
  read_stop_result = λ s. 0;
  shutdown_result = λ s. 0;
  write_result = λ s b. 0;
  connect_result = λ s. 0;
  bind_result = λ s. 0;
  option_result = λ a. 0;
  encode = λ enc t. some t;
  decode = λ enc b. some b;
  react = λ c s. s;
}

-- A socket that is connecting, with two writes in its queue.
abbrev waiting : Socket
waiting = record new_socket {
  handle = some tcp;
  connecting = true;
  writable = true;
  connect_queue_size = 3;
  connect_buf_queue = some ((1 ∷ 2 ∷ []) ∷ (3 ∷ []) ∷ []);
  connect_cb_queue = some (none ∷ none ∷ []);
}

-- An open socket with two writes pending.
abbrev busy : Socket
busy = record new_socket {
  handle = some tcp;
  readable = true;
  writable = true;
  pending_write_reqs = 2;
}

-- Its callback 7 destroys the socket on an error.
abbrev touchy : Env
touchy = record calm { react = react }
  where
    react : Call → Socket → Socket
    react (call_back f (some e)) s = (destroy calm s).0
    react c s = s

Reach-IsSafe_example : IsSafe (connect_port calm false (create none false))
Reach-IsSafe_example =
    Reach-IsSafe calm (λ c s h. h)
      (next (created none false) (connects_port (create none false) false))

destroy_with-IsDead_example :
    let t = (destroy_with calm (some (uv_error 4)) none busy).0 in
    IsDead t
    × (t.trace ≡ close_handle ∷ clear_timer ∷ [])
    × (t.ticks ≡ error_tick (uv_error 4) ∷ close_tick (some (uv_error 4)) ∷ [])
    × ((destroy_with calm (some (uv_error 4)) none busy).1 ≡ true)
destroy_with-IsDead_example =
    destroy_with-IsDead calm (λ c s. refl) (some (uv_error 4)) none busy refl

complete-destroy_soon_example :
    let t = (destroy_soon calm busy).0 in
    ((complete calm 1 t).destroyed ≡ false) × ((complete calm 2 t).destroyed ≡ true)
complete-destroy_soon_example = complete-destroy_soon calm (λ c s. refl) 1 busy refl refl

abbrev two_writes : List (Bytes × Option ℕ)
two_writes = (4 ∷ [], some 3) ∷ (5 ∷ 6 ∷ [], none) ∷ []

end_while_connecting_example :
    let t = after_connect calm 0 true true (end calm (buffer (9 ∷ [])) no_encoding waiting).0 in
    (rest : List Action) × (t.trace ≡ shutdown_handle ∷ rest)
    × (sent rest ≡ flatten ((1 ∷ 2 ∷ []) ∷ (3 ∷ []) ∷ []) ++ 9 ∷ [])
    × (t.shutdown ≡ true)
    × (t.writable ≡ false)
end_while_connecting_example =
    end_while_connecting calm (λ c s. refl) ((λ s b. refl), (λ s. refl)) (9 ∷ []) no_encoding
      waiting refl refl refl refl refl
