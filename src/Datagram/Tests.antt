-- ===== src/Datagram/Tests.antt =====
-- Sockets that meet the hypotheses of the theorems about dgram::Socket, and runs.
use libnode.Base.{ℕ, ◌-◌, ◌<◌, ◌+◌, ◌≡◌, refl, true, false, none, some, [], ◌∷◌, ◌++◌, codes, arith}
use libnode.Buffer.State.{Buffer}
use libnode.Datagram.State.{
  udp4, binding, bound, for_send, Message, Lookup, for_bind, found, failed, Env, Socket, create,
}
use libnode.Datagram.Ops.{
  word, bind, send, after_lookup, after_lookup_in_bind, lookup, lookup_of, is_sendable, close,
}
use libnode.Datagram.Queue.{begins, sends, queued, offer}
use libnode.Datagram.Closed.{Run-closed}
use libnode.Datagram.Refused.{bind_refused, wrapped-is_sendable}

abbrev five_bytes : Buffer
five_bytes = record { array = 0; offset = 0; length_ = 5 }

abbrev message : ℕ → Message
message port = record {
  buffer = some five_bytes;
  offset = 0;
  length_ = 5;
  port = port;
  address = none;
  callback = some 7;
}

abbrev calm : Env
calm = record {
  resolves = λ domain family. true;
  bind_result = λ type ip port. 0;
  send_result = λ type ip m. 0;
  option_result = λ option. 0;
  hears = λ f s. s;
}

-- A resolver that takes no lookup.
abbrev deaf : Env
deaf = record calm { resolves = λ domain family. false }

-- A socket with two messages that wait, and the lookup of the bind() that the first one made.
abbrev waiting : Socket
waiting = (send calm (message 2) (send calm (message 1) (create udp4)).0).0

abbrev bind_lookup : Lookup
bind_lookup = lookup_of udp4 none (for_bind 0)

-- The two messages, in their order, and a third that is sent once the socket is bound.
abbrev listening : Socket
listening =
    after_lookup calm bind_lookup.purpose (found (codes "0.0.0.0"))
      (record waiting { pending = [] })

Run-closed_example :
    ((send calm (message 1) (close (create udp4))).0.handle ≡ false)
    × ((send calm (message 1) (close (create udp4))).0.actions ≡ (close (create udp4)).actions)
    × ([] ++ offer (message 1) (close (create udp4)) ≡ [])
unfolding close create
Run-closed_example =
    Run-closed {env = calm} {s = close (create udp4)} refl (sends (message 1) begins)

bind_refused_example :
    let s = (bind deaf 0 none none (create udp4)).0 in
    ((send deaf (message 1) s).0.bind_state ≡ binding)
    × ((send deaf (message 1) s).0.asked ≡ bind_lookup ∷ [])
    × (queued (send deaf (message 1) s).0.send_queue ≡ [] ++ offer (message 1) s)
    × (bind deaf 0 none none (send deaf (message 1) s).0 ≡ ((send deaf (message 1) s).0, false))
bind_refused_example = bind_refused deaf udp4 0 none none refl (sends (message 1) begins)

abbrev wrapping : Message
wrapping = record (message 1) { offset = 1; length_ = word - 1 }

abbrev bound_socket : Socket
bound_socket = record (create udp4) { bind_state = bound }

wrapped-is_sendable_example :
    (send calm wrapping bound_socket ≡ lookup calm none (for_send wrapping) bound_socket)
    × (5 < 1 + (word - 1))
unfolding create
wrapped-is_sendable_example =
    wrapped-is_sendable calm bound_socket five_bytes wrapping refl (omega arith) (omega arith)
      (omega arith) refl refl refl

-- A lookup that fails makes the socket unbound again, and the next send() binds it anew.
bound_again :
    (send calm (message 3) (
      after_lookup calm bind_lookup.purpose
        (failed 9)
        (record waiting { pending = [] }))).0.bind_state
    ≡ binding
unfolding send bind is_sendable lookup lookup_of create after_lookup after_lookup_in_bind
bound_again = refl
