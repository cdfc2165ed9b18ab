-- ===== src/Datagram/Queue.antt =====
-- What can happen to a dgram::Socket, and the messages that it keeps and looks up.
use mathlib.Core.Path.{subst}
use libnode.Base.{
  ℕ, ◌≡◌, refl, sym, ap, ◌∙◌, Bool, true, false, ◌&&◌, Option, none, some, List, [], ◌∷◌, ◌++◌,
  append-nil, append_assoc, if◌then◌else◌,
}
use libnode.Net.Socket.State.{Bytes}
use libnode.Datagram.State.{
  SocketType, udp4, udp6, Message, Purpose, for_bind, for_send, Lookup, Answer, Listener,
  once_listener, on_listening_listener, Env, Socket, bound,
}
use libnode.Datagram.Ops.{
  lookup_of, ask, lookup, bind, is_sendable, send, send_all, lasting, after_lookup, after_send,
  on_message, close, set_socket_option,
}

-- What can happen but for send(): a program calls another operation, a lookup is answered, a
-- message comes or has been sent.
pub data Step (env : Env) : Socket → Socket → Type 0 where
  binds :
      {s : Socket} (port : ℕ) (addr : Option Bytes) (callback : Option ℕ)
      → Step env s (bind env port addr callback s).0
  closes : {s : Socket} → Step env s (close s)
  sets :
      {s : Socket} (given : Bool) (option : ℕ) → Step env s (set_socket_option env given option s).0
  answers :
      {s : Socket} (before after : List Lookup) (l : Lookup) (a : Answer)
      → s.pending ≡ before ++ l ∷ after
      → Step env s (after_lookup env l.purpose a (record s { pending = before ++ after }))
  receives : {s : Socket} (bytes : Bytes) → s.receiving ≡ true → Step env s (on_message bytes s)
  sent : {s : Socket} (status : ℕ) (m : Message) → Step env s (after_send status m s)

-- The message, if send() takes it.
abbrev pub offer : Message → Socket → List Message
offer m s = if s.handle && is_sendable m then m ∷ [] else []

-- A run, and the messages that send() took in it, in their order.
pub data Run (env : Env) (s : Socket) : Socket → List Message → Type 0 where
  begins : Run env s s []
  steps : {t u : Socket} {ms : List Message} → Run env s t ms → Step env t u → Run env s u ms
  sends :
      {t : Socket} {ms : List Message} (m : Message)
      → Run env s t ms
      → Run env s (send env m t).0 (ms ++ offer m t)

abbrev pub sent_by : Purpose → List Message → List Message
sent_by (for_bind port) ms = ms
sent_by (for_send m) ms = m ∷ ms

-- The messages of lookups.
abbrev pub sent_of : List Lookup → List Message
sent_of [] = []
sent_of (l ∷ ls) = sent_by l.purpose (sent_of ls)

abbrev pub queued : Option (List Message) → List Message
queued none = []
queued (some q) = q

abbrev pub has_flush : List Listener → Bool
has_flush [] = false
has_flush (once_listener f ∷ ls) = has_flush ls
has_flush (on_listening_listener ∷ ls) = true

abbrev pub AllSendable : List Message → Type 0
AllSendable [] = Unit
AllSendable (m ∷ ms) = (is_sendable m ≡ true) × AllSendable ms

-- The messages that a socket has looked an address up for, and then those that wait.
abbrev pub taken : Socket → List Message
taken s = sent_of s.asked ++ queued s.send_queue

sent_by-append : (p : Purpose) (ms ns : List Message) → sent_by p (ms ++ ns) ≡ sent_by p ms ++ ns
sent_by-append (for_bind port) ms ns = refl
sent_by-append (for_send m) ms ns = refl

pub sent_of-append : (p q : List Lookup) → sent_of (p ++ q) ≡ sent_of p ++ sent_of q
sent_of-append [] q = refl
sent_of-append (l ∷ p) q =
    ap (sent_by l.purpose) (sent_of-append p q) ∙ sent_by-append l.purpose (sent_of p) (sent_of q)

pub AllSendable-append :
    (ms : List Message) (m : Message)
    → AllSendable ms
    → is_sendable m ≡ true
    → AllSendable (ms ++ m ∷ [])
AllSendable-append [] m h e = (e, tt)
AllSendable-append (n ∷ ms) m h e = (h.0, AllSendable-append ms m h.1 e)

pub has_flush-append :
    (ls : List Listener) (l : Listener) → has_flush ls ≡ true → has_flush (ls ++ l ∷ []) ≡ true
has_flush-append [] l h = absurd (cc)
has_flush-append (once_listener f ∷ ls) l h = has_flush-append ls l h
has_flush-append (on_listening_listener ∷ ls) l h = refl

pub has_flush-added : (ls : List Listener) → has_flush (ls ++ on_listening_listener ∷ []) ≡ true
has_flush-added [] = refl
has_flush-added (once_listener f ∷ ls) = has_flush-added ls
has_flush-added (on_listening_listener ∷ ls) = refl

pub has_flush-once :
    (ls : List Listener) (f : ℕ) → has_flush (ls ++ once_listener f ∷ []) ≡ has_flush ls
has_flush-once [] f = refl
has_flush-once (once_listener g ∷ ls) f = has_flush-once ls f
has_flush-once (on_listening_listener ∷ ls) f = refl

pub has_flush-lasting : (ls : List Listener) → has_flush (lasting ls) ≡ has_flush ls
has_flush-lasting [] = refl
has_flush-lasting (once_listener f ∷ ls) = has_flush-lasting ls
has_flush-lasting (on_listening_listener ∷ ls) = refl

pub purpose-lookup_of :
    (type : SocketType) (addr : Option Bytes) (p : Purpose) → (lookup_of type addr p).purpose ≡ p
unfolding lookup_of
purpose-lookup_of udp4 addr p = refl
purpose-lookup_of udp6 addr p = refl

-- What the order of messages depends on, beside the lookups.
abbrev pub Kept : Socket → Socket → Type 0
Kept s t =
    (t.handle ≡ s.handle)
    × (t.bind_state ≡ s.bind_state)
    × (t.listeners ≡ s.listeners)
    × (t.send_queue ≡ s.send_queue)

ask-Kept :
    (b : Bool) (l : Lookup) (s : Socket)
    → Kept s (ask b l s) × ((ask b l s).asked ≡ s.asked ++ l ∷ [])
ask-Kept true l s = ((refl, refl, refl, refl), refl)
ask-Kept false l s = ((refl, refl, refl, refl), refl)

-- A lookup asks for the message that it is for, and for nothing else.
pub lookup-Kept :
    (env : Env) (addr : Option Bytes) (p : Purpose) (s : Socket)
    → Kept s (lookup env addr p s).0
      × (sent_of (lookup env addr p s).0.asked ≡ sent_of s.asked ++ sent_by p [])
unfolding lookup
lookup-Kept env addr p s =
    let l = lookup_of s.type_ addr p in
    let (kept, more) = ask-Kept (env.resolves l.domain l.family) l s in
    (
      kept,
      ap sent_of more
          ∙ sent_of-append s.asked (l ∷ [])
          ∙ ap (λ q. sent_of s.asked ++ sent_by q []) (purpose-lookup_of s.type_ addr p),
    )

send_bound :
    (env : Env) (m : Message) (s : Socket)
    → s.handle ≡ true
    → s.bind_state ≡ bound
    → is_sendable m ≡ true
    → (send env m s).0 ≡ (lookup env m.address (for_send m) s).0
unfolding send
send_bound env m s h b e = simp (h, b, e)

-- The loop of OnListening on a bound socket looks the messages up in their order.
pub send_all-Kept :
    (env : Env) (ms : List Message) (s : Socket)
    → s.handle ≡ true
    → s.bind_state ≡ bound
    → AllSendable ms
    → Kept s (send_all env ms s) × (sent_of (send_all env ms s).asked ≡ sent_of s.asked ++ ms)
unfolding send_all
send_all-Kept env [] s h b a = ((refl, refl, refl, refl), sym (append-nil (sent_of s.asked)))
send_all-Kept env (m ∷ ms) s h b a =
    let t = (lookup env m.address (for_send m) s).0 in
    let ((kh, kb, kl, kq), more) = lookup-Kept env m.address (for_send m) s in
    let ((h', b', l', q'), more') = send_all-Kept env ms t (kh ∙ h) (kb ∙ b) a.1 in
    subst
      (λ x.
        Kept s (send_all env ms x)
        × (sent_of (send_all env ms x).asked ≡ sent_of s.asked ++ m ∷ ms))
      (sym (send_bound env m s h b a.0))
      (
        (h' ∙ kh, b' ∙ kb, l' ∙ kl, q' ∙ kq),
        more' ∙ ap (λ r. r ++ ms) more ∙ append_assoc (sent_of s.asked) (m ∷ []) ms,
      )
