-- ===== src/Jsonrpc/Service.antt =====
-- The operations of jsonrpc::Service, and what its queue delivers.
use libnode.Base.{
  ℕ, zero, suc, ◌+◌, Bool, true, false, Option, none, some, List, [], ◌∷◌, if◌then◌else◌,
}
use libnode.Net.Socket.State.{Bytes}
use libnode.Http.Message.Head.{text_eq}
use libnode.Shared.MessageQueue.{open_queue, emit_message, close_queue, post_message}
use libnode.Jsonrpc.State.{Method, Outcome, Responder, Message, Env, Service}
use libnode.Jsonrpc.Request.{respond, on_message}

-- A message is emitted to each OnMessage listener of the queue.
unfoldable pub handle : ℕ → Env → Message → Service → Service
handle zero env m s = s
handle (suc n) env m s = handle n env m (on_message env m s)

unfoldable pub handle_all : Env → List Message → Service → Service
handle_all env [] s = s
handle_all env (m ∷ ms) s = handle_all env ms (handle s.listeners env m s)

-- receive() of the queue.
unfoldable pub deliver : Env → Service → Service
deliver env s = handle_all env s.queue.queue (record s { queue = emit_message s.queue })

unfoldable pub start : Service → Service × Bool
start s = if s.running then (s, false) else (
  record s { listeners = s.listeners + 1; queue = (open_queue true s.queue).0; running = true },
  true,
)

-- close() of the queue, which delivers what waits in it.
abbrev pub close_messages : Env → Service → Service
close_messages env s =
    if s.queue.is_open
    then handle_all env s.queue.queue (record s { queue = (close_queue s.queue).0 })
    else s

unfoldable pub stop : Env → Service → Service × Bool
stop env s =
    if s.running
    then (record (close_messages env (record s { methods = [] })) { running = false }, true)
    else (s, false)

unfoldable pub put_method : Method → List (Bytes × Method) → List (Bytes × Method)
put_method m [] = (m.name, m) ∷ []
put_method m ((k, m') ∷ ms) = if text_eq k m.name then (k, m) ∷ ms else (k, m') ∷ put_method m ms

abbrev pub add_given : Option Method → Service → Service × Bool
add_given none s = (s, false)
add_given (some m) s = (record s { methods = put_method m s.methods }, true)

unfoldable pub add_method : Option Method → Service → Service × Bool
add_method m s = if s.running then add_given m s else (s, false)

-- postRequest(); `result` is that of uv_async_send().
unfoldable pub post_request : Bool → Message → Service → Service × Bool
post_request result m s =
    let (q, posted) = post_message result m s.queue in (record s { queue = q }, posted)

-- A method tells a responder of an earlier call something.
unfoldable pub respond_at : ℕ → Outcome → List Responder → Service → Service × List Responder
respond_at i o [] s = (s, [])
respond_at zero o (r ∷ rs) s = let (s', r') = respond o r s in (s', r' ∷ rs)
respond_at (suc i) o (r ∷ rs) s = let (s', rs') = respond_at i o rs s in (s', r ∷ rs')

unfoldable pub respond_later : ℕ → Outcome → Service → Service
respond_later i o s = let (s', rs) = respond_at i o s.responders s in record s' { responders = rs }
