-- ===== src/Datagram/Refused.antt =====
-- A dgram::Socket whose lookup for bind() is refused, and the range that send() takes.
use mathlib.Core.Path.{subst}
use libnode.Base.{
  ℕ, ◌+◌, ◌-◌, ◌<◌, ◌≡◌, refl, sym, ap, ◌∙◌, Bool, true, false, ◌&&◌, Option, none, some, List, [],
  ◌∷◌, ◌++◌, append-nil, arith, if◌then◌else◌, ◌==◌, inl, inr, Bool-cases,
}
use libnode.Net.Socket.State.{Bytes}
use libnode.Buffer.State.{Buffer}
use libnode.Datagram.State.{
  SocketType, binding, bound, for_send, set_option, close_handle, close_event, Message, for_bind,
  Lookup, Env, Socket, create,
}
use libnode.Datagram.Ops.{
  word, act, emit, lookup_of, lookup, bind, send, is_sendable, push, after_send, tell, on_message,
  close, stop_receiving, set_socket_option,
}
use libnode.Datagram.Queue.{
  Step, binds, closes, sets, answers, receives, sent, Run, begins, steps, sends, offer, queued,
}

-- The socket is being bound, no lookup will be answered, and all messages wait.
pub record IsStuck (asked : List Lookup) (ms : List Message) (s : Socket) : Type 0 where
  pub is_binding : s.bind_state ≡ binding
  pub unanswered : s.pending ≡ []
  pub same_asked : s.asked ≡ asked
  pub waiting : queued s.send_queue ≡ ms

-- What an operation does not change.
abbrev Untouched : Socket → Socket → Type 0
Untouched s t =
    (t.bind_state ≡ s.bind_state)
    × (t.pending ≡ s.pending)
    × (t.asked ≡ s.asked)
    × (t.send_queue ≡ s.send_queue)

Untouched-IsStuck :
    {asked : List Lookup} {ms : List Message} {s t : Socket}
    → Untouched s t
    → IsStuck asked ms s
    → IsStuck asked ms t
Untouched-IsStuck (b, p, a, q) k = record {
  is_binding = b ∙ k.is_binding;
  unanswered = p ∙ k.unanswered;
  same_asked = a ∙ k.same_asked;
  waiting = ap queued q ∙ k.waiting;
}

push-IsStuck :
    {asked : List Lookup} {ms : List Message} (q : Option (List Message)) (m : Message) (s : Socket)
    → s.send_queue ≡ q
    → IsStuck asked ms s
    → IsStuck asked (ms ++ m ∷ []) (push q m s)
push-IsStuck none m s e k = record {
  is_binding = k.is_binding;
  unanswered = k.unanswered;
  same_asked = k.same_asked;
  waiting = ap (λ r. r ++ m ∷ []) (ap queued (sym e) ∙ k.waiting);
}
push-IsStuck (some q) m s e k = record {
  is_binding = k.is_binding;
  unanswered = k.unanswered;
  same_asked = k.same_asked;
  waiting = ap (λ r. r ++ m ∷ []) (ap queued (sym e) ∙ k.waiting);
}

send_if-IsStuck :
    {asked : List Lookup} {ms : List Message} (b : Bool) (m : Message) (s : Socket)
    → IsStuck asked ms s
    → IsStuck asked
        (ms ++ (if b then m ∷ [] else []))
        (if◌then◌else◌ {A = Socket × Bool} b (push s.send_queue m s, true) (s, false)).0
send_if-IsStuck true m s k = push-IsStuck s.send_queue m s refl k
send_if-IsStuck {asked} {ms} false m s k = rw (append-nil ms) k

send_binding :
    (env : Env) (m : Message) (s : Socket)
    → s.bind_state ≡ binding
    → send env m s
      ≡ (if s.handle && is_sendable m then (push s.send_queue m s, true) else (s, false))
unfolding send
send_binding env m s b = simp b

send-IsStuck :
    {asked : List Lookup} {ms : List Message} (env : Env) (m : Message) (s : Socket)
    → IsStuck asked ms s
    → IsStuck asked (ms ++ offer m s) (send env m s).0
send-IsStuck {asked} {ms} env m s k =
    subst (λ x. IsStuck asked (ms ++ offer m s) x.0) (sym (send_binding env m s k.is_binding))
      (send_if-IsStuck (s.handle && is_sendable m) m s k)

after_send-Untouched : (status : ℕ) (m : Message) (s : Socket) → Untouched s (after_send status m s)
unfolding after_send
after_send-Untouched status m s = told (status == 0) m.callback m.buffer
  where
    told :
        (b : Bool) (callback : Option ℕ) (buffer : Option Buffer)
        → Untouched s (if b then tell callback buffer s else record s { fault = true })
    told true none buffer = (refl, refl, refl, refl)
    told true (some f) none = (refl, refl, refl, refl)
    told true (some f) (some b) = (refl, refl, refl, refl)
    told false callback buffer = (refl, refl, refl, refl)

close-Untouched : (s : Socket) → Untouched s (close s)
unfolding close
close-Untouched s = closed s.handle s.receiving
  where
    closed :
        (b r : Bool)
        → Untouched s (
            if b
            then emit close_event
                (record (act close_handle (stop_receiving r s)) { handle = false })
            else s)
    closed true true = (refl, refl, refl, refl)
    closed true false = (refl, refl, refl, refl)
    closed false r = (refl, refl, refl, refl)

set-Untouched :
    (env : Env) (given : Bool) (option : ℕ) (s : Socket)
    → Untouched s (set_socket_option env given option s).0
unfolding set_socket_option
set-Untouched env given option s = set (s.handle && given)
  where
    set :
        (b : Bool)
        → Untouched s
            (if◌then◌else◌ {A = Socket × Bool} b
              (act (set_option option) s, env.option_result option == 0)
              (s, false)).0
    set true = (refl, refl, refl, refl)
    set false = (refl, refl, refl, refl)

bind_binding :
    (env : Env) (port : ℕ) (addr : Option Bytes) (callback : Option ℕ) (s : Socket)
    → s.bind_state ≡ binding
    → bind env port addr callback s ≡ (s, false)
unfolding bind
bind_binding env port addr callback s b = elim (Bool-cases s.handle) [
  | inl h ↦ simp (h, b)
  | inr h ↦ simp (h, b)
]

no_member : (before after : List Lookup) (l : Lookup) → [] ≡ before ++ l ∷ after → ⊥
no_member [] after l e = cc
no_member (k ∷ before) after l e = cc

Step-IsStuck :
    {asked : List Lookup} {ms : List Message} {env : Env} {s t : Socket}
    → Step env s t
    → IsStuck asked ms s
    → IsStuck asked ms t
unfolding on_message
Step-IsStuck {asked} {ms} {env} (binds {s} port addr callback) k =
    subst (λ x. IsStuck asked ms x.0) (sym (bind_binding env port addr callback s k.is_binding)) k
Step-IsStuck (closes {s}) k = Untouched-IsStuck (close-Untouched s) k
Step-IsStuck {env} (sets {s} given option) k =
    Untouched-IsStuck (set-Untouched env given option s) k
Step-IsStuck (answers before after l a e) k =
    absurd (no_member before after l (sym k.unanswered ∙ e))
Step-IsStuck (receives bytes e) k = Untouched-IsStuck (refl, refl, refl, refl) k
Step-IsStuck (sent {s} status m) k = Untouched-IsStuck (after_send-Untouched status m s) k

Run-IsStuck :
    {asked : List Lookup} {env : Env} {s t : Socket} {ms : List Message}
    → IsStuck asked [] s
    → Run env s t ms
    → IsStuck asked ms t
Run-IsStuck k begins = k
Run-IsStuck k (steps r st) = Step-IsStuck st (Run-IsStuck k r)
Run-IsStuck {env} k (sends {t} m r) = send-IsStuck env m t (Run-IsStuck k r)

bind-IsStuck :
    (env : Env) (type : SocketType) (port : ℕ) (addr : Option Bytes) (callback : Option ℕ)
    → let l = lookup_of type addr (for_bind port) in
      env.resolves l.domain l.family ≡ false
      → IsStuck (l ∷ []) [] (bind env port addr callback (create type)).0
unfolding bind lookup create
bind-IsStuck env type port addr callback e =
    rw e (record { is_binding = refl; unanswered = refl; same_asked = refl; waiting = refl })

-- When dns::lookup() refuses the lookup of bind() on a new socket, the socket is being bound for
-- ever: in every run from there bind() is refused, no address is looked up, and every message that
-- send() takes waits.
pub bind_refused :
    (env : Env) (type : SocketType) (port : ℕ) (addr : Option Bytes) (callback : Option ℕ)
    {t : Socket} {ms : List Message}
    → env.resolves
        (lookup_of type addr (for_bind port)).domain
        (lookup_of type addr (for_bind port)).family
      ≡ false
    → Run env (bind env port addr callback (create type)).0 t ms
    → (t.bind_state ≡ binding)
      × (t.asked ≡ lookup_of type addr (for_bind port) ∷ [])
      × (queued t.send_queue ≡ ms)
      × (bind env port addr callback t ≡ (t, false))
bind_refused env type port addr callback {t} e r =
    let k = Run-IsStuck (bind-IsStuck env type port addr callback e) r in
    (k.is_binding, k.same_asked, k.waiting, bind_binding env port addr callback t k.is_binding)

wrapped :
    (b : Buffer) (m : Message)
    → m.buffer ≡ some b
    → b.length_ < word
    → 0 < m.offset
    → m.offset < b.length_
    → m.length_ ≡ word - m.offset
    → (is_sendable m ≡ true) × (b.length_ < m.offset + m.length_)
unfolding is_sendable
wrapped b m e w p o l = rw e (ground (arith, l))

-- A range that begins behind the first byte of a buffer, and whose length makes the sum of both wrap
-- around to 0, is one that send() takes, although it ends behind the buffer: on a socket that is
-- open and bound, send() does what lookup() does with the address of the message.
pub wrapped-is_sendable :
    (env : Env) (s : Socket) (b : Buffer) (m : Message)
    → m.buffer ≡ some b
    → b.length_ < word
    → 0 < m.offset
    → m.offset < b.length_
    → m.length_ ≡ word - m.offset
    → s.handle ≡ true
    → s.bind_state ≡ bound
    → (send env m s ≡ lookup env m.address (for_send m) s) × (b.length_ < m.offset + m.length_)
unfolding send
wrapped-is_sendable env s b m e w p o l h k =
    let (sendable, beyond) = wrapped b m e w p o l in (rw (h, k, sendable) refl, beyond)
