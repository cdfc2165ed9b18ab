-- ===== src/Http/Server/Ops.antt =====
-- The callbacks of http::Server on one connection.
use libnode.Base.{
  ℕ, ◌+◌, Bool, true, false, not, ◌&&◌, ◌||◌, Option, none, some, List, [], ◌∷◌, ◌++◌, is_some,
  if◌then◌else◌, ◌==◌,
}
use libnode.Http.Server.State.{
  In, Out, Event, request_event, check_continue_event, aborted_event, close_event, upgrade_event,
  connect_event, client_error_event, Connection,
}

abbrev pub emit : Event → Connection → Connection
emit e c = record c { events = c.events ++ e ∷ [] }

-- abortIncoming().
unfoldable pub abort_events : List In → List Event
abort_events [] = []
abort_events (i ∷ is) = aborted_event i.id ∷ close_event i.id ∷ abort_events is

unfoldable pub abort_incoming : Connection → Connection
abort_incoming c = record c { incomings = []; events = c.events ++ abort_events c.incomings }

-- The socket's destroy(), and its end(): it takes no write any more.
abbrev pub destroy : Connection → Connection
destroy c = record c { writable = false; destroyed = true }

abbrev pub end_socket : Connection → Connection
end_socket c = record c { writable = false }

-- destroySoon(): the socket ends, and is destroyed once its writes are done.
abbrev pub destroy_soon : Connection → Connection
destroy_soon c = record c { writable = false; closing = true }

-- A message that finishes goes to the free list when its flag UNUSED is set already.
abbrev pub release_in : In → Connection → Connection
release_in i c = record c { freed_in = c.freed_in ++ (if i.unused then i.id ∷ [] else []) }

abbrev pub release_out : Out → Connection → Connection
release_out o c = record c { freed_out = c.freed_out ++ (if o.unused then o.id ∷ [] else []) }

-- The first part of OutgoingOnFinish: the request leaves its array and the response the socket.
abbrev pub detach : Out → In → List In → Connection → Connection
detach o i is c =
    release_in i
      (record c { incomings = is; http_message = none; responses = c.responses ++ o.id ∷ [] })

-- OutgoingOnFinish, with the requests and with the responses that wait: without a request,
-- `in->hasFlag` goes through a null pointer. The next response gets the socket, by assignSocket(),
-- which sends what the response has kept: one that was ended finishes at once, if the socket takes
-- writes.
unfoldable pub finish_out : List In → List Out → Out → Connection → Connection
finish_out [] outs o c = record c { crashed = true }
finish_out (i ∷ is) [] o c =
    let d = detach o i is c in release_out o (if o.last then destroy_soon d else d)
finish_out (i ∷ is) (n ∷ outs) o c =
    let d = detach o i is c in
    let assigned = record d { outgoings = outs; http_message = some n } in
    let finished = finish_out is outs n assigned in
    release_out o
      (if o.last then destroy_soon d else if n.ended && c.writable then finished else assigned)

abbrev pub add_out : Option Out → Out → Connection → Connection
add_out none o c = record c { http_message = some o }
add_out (some h) o c = record c { outgoings = c.outgoings ++ o ∷ [] }

-- The request event, or what comes of Expect: 100-continue.
unfoldable pub announce : ℕ → Bool → Bool → Connection → Connection
announce n expects has_check_listener c =
    if expects
    then if has_check_listener
      then emit (check_continue_event n) c
      else emit (request_event n) (record c { continued = c.continued ++ n ∷ [] })
    else emit (request_event n) c

abbrev pub new_in : ℕ → In
new_in n = record { id = n; unused = false }

abbrev pub new_out : ℕ → Bool → Bool → Out
new_out n should_keep_alive expects = record {
  id = n;
  last = false;
  should_keep_alive = should_keep_alive;
  expect_continue = expects;
  unused = false;
  ended = false;
}

-- ParserOnIncoming.
unfoldable pub on_incoming : Bool → Bool → Bool → Connection → Connection
on_incoming should_keep_alive expects has_check_listener c =
    let n = c.next_id in
    let pushed = record c {
      next_id = n + 1;
      incomings = c.incomings ++ new_in n ∷ [];
      requests = c.requests ++ n ∷ [];
    } in
    announce n expects has_check_listener
      (add_out c.http_message (new_out n should_keep_alive expects) pushed)

unfoldable pub end_waiting : ℕ → List Out → List Out
end_waiting n [] = []
end_waiting n (o ∷ os) = if o.id == n then record o { ended = true } ∷ os else o ∷ end_waiting n os

unfoldable pub last_waiting : ℕ → List Out → List Out
last_waiting n [] = []
last_waiting n (o ∷ os) = if o.id == n then record o { last = true } ∷ os else o ∷ last_waiting n os

-- The handler ends response `n`: the response that has the socket finishes if the socket takes its
-- bytes, or if it has none left (`flushed`); one that waits keeps them.
abbrev pub end_held : Option Out → Bool → ℕ → Connection → Connection
end_held none flushed n c = record c { outgoings = end_waiting n c.outgoings }
end_held (some o) flushed n c =
    if o.id == n
    then if o.ended
      then c
      else if c.writable || flushed
      then finish_out c.incomings c.outgoings o c
      else record c { http_message = some (record o { ended = true }) }
    else record c { outgoings = end_waiting n c.outgoings }

unfoldable pub end_out : Bool → ℕ → Connection → Connection
end_out flushed n c = end_held c.http_message flushed n c

abbrev pub last_held : Option Out → ℕ → Connection → Connection
last_held none n c = record c { outgoings = last_waiting n c.outgoings }
last_held (some o) n c =
    if o.id == n
    then record c { http_message = some (record o { last = true }) }
    else record c { outgoings = last_waiting n c.outgoings }

-- The header of response `n` sets its flag LAST.
unfoldable pub set_last : ℕ → Connection → Connection
set_last n c = last_held c.http_message n c

abbrev pub mark_last : List Out → List Out
mark_last [] = []
mark_last (o ∷ []) = record o { last = true } ∷ []
mark_last (o ∷ n ∷ os) = o ∷ mark_last (n ∷ os)

abbrev pub end_half_open : List Out → Option Out → Connection → Connection
end_half_open (o ∷ os) held c = record c { outgoings = mark_last (o ∷ os) }
end_half_open [] (some h) c = record c { http_message = some (record h { last = true }) }
end_half_open [] none c = end_socket c

-- SocketOnEnd, with the result of the parser's finish() and the flag HTTP_ALLOW_HALF_OPEN.
unfoldable pub on_end : Bool → Bool → Connection → Connection
on_end parsed half_open c =
    if not parsed
    then destroy c
    else if not half_open
    then end_socket (abort_incoming c)
    else end_half_open c.outgoings c.http_message c

-- SocketOnClose.
unfoldable pub on_close : Connection → Connection
on_close c = abort_incoming (record c { has_parser = false })

-- SocketOnData, with the result of the parser, whether the request asks for an upgrade, by CONNECT,
-- and whether the server has listeners for that.
unfoldable pub on_data : Option ℕ → Bool → Bool → Bool → Connection → Connection
on_data none upgrade is_connect has_listeners c = destroy c
on_data (some parsed) upgrade is_connect has_listeners c =
    if upgrade
    then if has_listeners
      then emit (if is_connect then connect_event else upgrade_event)
          (record c { has_parser = false })
      else destroy (record c { has_parser = false })
    else c

-- SocketOnTimeout, with what the listeners of the request, the response and the server answer.
unfoldable pub on_timeout : Bool → Bool → Bool → Connection → Connection
on_timeout req_timeout res_timeout server_timeout c =
    let handled =
      (c.has_parser && req_timeout) || (is_some c.http_message && res_timeout) || server_timeout in
    if handled then c else destroy c

-- SocketOnError and ServerOnClientError.
unfoldable pub on_error : Connection → Connection
on_error c = destroy (emit client_error_event c)
