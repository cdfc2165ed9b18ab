-- ===== src/Datagram/Ops.antt =====
-- The operations of dgram::Socket and its callbacks.
use libnode.Base.{
  ℕ, ◌+◌, ◌%◌, Bool, true, false, ◌&&◌, Option, none, some, List, [], ◌∷◌, ◌++◌, codes, ltb, leb,
  if◌then◌else◌, ◌==◌,
}
use libnode.Net.Socket.State.{Bytes}
use libnode.Buffer.State.{Buffer}
use libnode.Datagram.State.{
  SocketType, udp4, udp6, BindState, unbound, binding, bound, Message, Purpose, for_bind, for_send,
  Lookup, Answer, found, failed, Listener, once_listener, on_listening_listener, Event,
  listening_event, close_event, message_event, error_event, Action, set_on_message, recv_start,
  recv_stop, close_handle, bind_handle, send_handle, set_option, call_listening, call_error,
  call_sent, Env, Socket,
}

abbrev pub word : ℕ
word = 18446744073709551616

abbrev pub emit : Event → Socket → Socket
emit e s = record s { events = s.events ++ e ∷ [] }

abbrev pub act : Action → Socket → Socket
act a s = record s { actions = s.actions ++ a ∷ [] }

abbrev pub or_address : Option Bytes → Bytes → Bytes
or_address none other = other
or_address (some a) other = a

-- The domain and family that lookup() passes to dns::lookup().
unfoldable pub lookup_of : SocketType → Option Bytes → Purpose → Lookup
lookup_of udp4 addr p = record {
  domain = or_address addr (codes "0.0.0.0");
  family = 4;
  purpose = p;
}
lookup_of udp6 addr p = record { domain = or_address addr (codes "::0"); family = 6; purpose = p }

-- dns::lookup(): a lookup that is taken is answered later.
abbrev pub ask : Bool → Lookup → Socket → Socket
ask true l s = record s { pending = s.pending ++ l ∷ []; asked = s.asked ++ l ∷ [] }
ask false l s = record s { asked = s.asked ++ l ∷ [] }

-- lookup().
unfoldable pub lookup : Env → Option Bytes → Purpose → Socket → Socket × Bool
lookup env addr p s =
    let l = lookup_of s.type_ addr p in
    let taken = env.resolves l.domain l.family in (ask taken l s, taken)

abbrev pub is_unbound : BindState → Bool
is_unbound unbound = true
is_unbound binding = false
is_unbound bound = false

abbrev pub is_bound : BindState → Bool
is_bound unbound = false
is_bound binding = false
is_bound bound = true

abbrev pub add_once : Option ℕ → List Listener → List Listener
add_once none ls = ls
add_once (some f) ls = ls ++ once_listener f ∷ []

-- bind().
unfoldable pub bind : Env → ℕ → Option Bytes → Option ℕ → Socket → Socket × Bool
bind env port addr callback s =
    if s.handle && is_unbound s.bind_state
    then lookup env addr (for_bind port)
        (record s { bind_state = binding; listeners = add_once callback s.listeners })
    else (s, false)

-- The bytes from `offset` on are those of the buffer; the sum is a Size of 64 bits.
abbrev pub is_within : ℕ → ℕ → ℕ → Bool
is_within offset length_ buf_len = ltb offset buf_len && leb ((offset + length_) % word) buf_len

-- The guards of send() on its arguments.
unfoldable pub is_sendable : Message → Bool
is_sendable m = elim m.buffer [ none ↦ false | some b ↦ is_within m.offset m.length_ b.length_ ]

abbrev pub push : Option (List Message) → Message → Socket → Socket
push none m s = record s {
  send_queue = some (m ∷ []);
  listeners = s.listeners ++ on_listening_listener ∷ [];
}
push (some q) m s = record s { send_queue = some (q ++ m ∷ []) }

-- What send() does with a socket that is bound or not.
abbrev pub send_when : Bool → Env → Message → Socket → Socket × Bool
send_when false env m s = (push s.send_queue m s, true)
send_when true env m s = lookup env m.address (for_send m) s

abbrev pub send_bind : Bool → Env → Socket → Socket
send_bind true env s = (bind env 0 none none s).0
send_bind false env s = s

-- send().
unfoldable pub send : Env → Message → Socket → Socket × Bool
send env m s =
    let s' = send_bind (is_unbound s.bind_state) env s in
    if s.handle && is_sendable m then send_when (is_bound s'.bind_state) env m s' else (s, false)

-- The loop of OnListening.
unfoldable pub send_all : Env → List Message → Socket → Socket
send_all env [] s = s
send_all env (m ∷ ms) s = send_all env ms (send env m s).0

abbrev pub clear_queue : Option (List Message) → Option (List Message)
clear_queue none = none
clear_queue (some q) = some []

abbrev pub flush : Option (List Message) → Env → Socket → Socket
flush none env s = record s { fault = true }
flush (some q) env s = record (send_all env q s) { send_queue = some [] }

-- OnListening.
unfoldable pub on_listening : Env → Socket → Socket
on_listening env s = flush s.send_queue env s

-- emit(EVENT_LISTENING) on the listeners.
unfoldable pub run_listeners : Env → List Listener → Socket → Socket
run_listeners env [] s = s
run_listeners env (once_listener f ∷ ls) s =
    run_listeners env ls (env.hears f (record s { calls = s.calls ++ call_listening f ∷ [] }))
run_listeners env (on_listening_listener ∷ ls) s = run_listeners env ls (on_listening env s)

-- The listeners that emit() leaves.
abbrev pub lasting : List Listener → List Listener
lasting [] = []
lasting (once_listener f ∷ ls) = lasting ls
lasting (on_listening_listener ∷ ls) = on_listening_listener ∷ lasting ls

-- startListening().
unfoldable pub start_listening : Env → Socket → Socket
start_listening env s =
    let ready = record s {
      actions = s.actions ++ (set_on_message ∷ recv_start ∷ []);
      receiving = true;
      bind_state = bound;
      listeners = lasting s.listeners;
      events = s.events ++ listening_event ∷ [];
    } in
    run_listeners env s.listeners ready

abbrev pub bind_failed : ℕ → Socket → Socket
bind_failed err s = emit (error_event err) (record s { bind_state = unbound })

-- AfterLookupInBind.
unfoldable pub after_lookup_in_bind : Env → ℕ → Answer → Socket → Socket
after_lookup_in_bind env port (failed err) s = bind_failed err s
after_lookup_in_bind env port (found ip) s =
    let err = env.bind_result s.type_ ip port in
    let asked = act (bind_handle s.type_ ip port) s in
    if s.handle then if err == 0 then start_listening env asked else bind_failed err asked else s

abbrev pub call_back : Option ℕ → ℕ → Socket → Socket
call_back none err s = s
call_back (some f) err s = record s { calls = s.calls ++ call_error f err ∷ [] }

-- invoke() of a callback that may be null.
abbrev pub invoke : Option ℕ → ℕ → Socket → Socket
invoke none err s = record s { fault = true }
invoke (some f) err s = record s { calls = s.calls ++ call_error f err ∷ [] }

-- AfterLookupInSend.
unfoldable pub after_lookup_in_send : Env → Message → Answer → Socket → Socket
after_lookup_in_send env m (failed err) s = emit (error_event err) (call_back m.callback err s)
after_lookup_in_send env m (found ip) s =
    let err = env.send_result s.type_ ip m in
    let asked = act (send_handle s.type_ ip m) s in
    if s.handle then if err == 0 then asked else invoke m.callback err asked else s

-- The answer of a lookup.
unfoldable pub after_lookup : Env → Purpose → Answer → Socket → Socket
after_lookup env (for_bind port) a s = after_lookup_in_bind env port a s
after_lookup env (for_send m) a s = after_lookup_in_send env m a s

abbrev pub tell : Option ℕ → Option Buffer → Socket → Socket
tell none buffer s = s
tell (some f) none s = s
tell (some f) (some b) s = record s { calls = s.calls ++ call_sent f b.length_ ∷ [] }

-- AfterSend, on the status of libuv and the message that was sent.
unfoldable pub after_send : ℕ → Message → Socket → Socket
after_send status m s =
    if status == 0 then tell m.callback m.buffer s else record s { fault = true }

-- OnMessage.
unfoldable pub on_message : Bytes → Socket → Socket
on_message bytes s = emit (message_event bytes) s

abbrev pub stop_receiving : Bool → Socket → Socket
stop_receiving true s = record (act recv_stop s) { receiving = false }
stop_receiving false s = s

-- close(), whose tick AfterClose does nothing.
unfoldable pub close : Socket → Socket
close s =
    if s.handle
    then emit close_event
        (record (act close_handle (stop_receiving s.receiving s)) { handle = false })
    else s

-- setBroadcast(), setTTL() and the others, by a number for each call; addMembership() and
-- dropMembership() want an address.
unfoldable pub set_socket_option : Env → Bool → ℕ → Socket → Socket × Bool
set_socket_option env given option s =
    if s.handle && given
    then (act (set_option option) s, env.option_result option == 0)
    else (s, false)
