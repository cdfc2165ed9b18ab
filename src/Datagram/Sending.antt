-- ===== src/Datagram/Sending.antt =====
-- What bind() and send() do to the messages of a socket.
use mathlib.Core.Path.{subst}
use libnode.Base.{
  ℕ, ◌≡◌, refl, sym, ap, ◌∙◌, Bool, true, false, ◌&&◌, Option, none, some, List, [], ◌∷◌, ◌++◌,
  append-nil, append_assoc, is_some, if◌then◌else◌, and_right,
}
use libnode.Net.Socket.State.{Bytes}
use libnode.Datagram.State.{binding, Message, for_bind, for_send, Listener, Env, Socket}
use libnode.Datagram.Ops.{
  lookup, bind, add_once, is_sendable, is_bound, is_unbound, push, send, send_when, send_bind,
}
use libnode.Datagram.Queue.{
  offer, sent_of, queued, has_flush, AllSendable, taken, AllSendable-append, has_flush-added,
  has_flush-once, lookup-Kept,
}

-- The messages that wait wait for the socket to be bound, and a listener is there to send them.
pub record IsOrdered (ms : List Message) (s : Socket) : Type 0 where
  pub in_order : taken s ≡ ms
  pub sendable : AllSendable (queued s.send_queue)
  pub drained : is_bound s.bind_state ≡ true → queued s.send_queue ≡ []
  pub flushes : has_flush s.listeners ≡ is_some s.send_queue

-- What an operation keeps that leaves the queue and the lookups of messages alone.
pub same-IsOrdered :
    {ms : List Message} {s : Socket} (t : Socket)
    → (is_bound t.bind_state ≡ true → is_bound s.bind_state ≡ true)
    → has_flush t.listeners ≡ has_flush s.listeners
    → t.send_queue ≡ s.send_queue
    → sent_of t.asked ≡ sent_of s.asked
    → IsOrdered ms s
    → IsOrdered ms t
same-IsOrdered t b l q a o = record {
  in_order = rw (q, a) o.in_order;
  sendable = rw q o.sendable;
  drained = λ h. ap queued q ∙ o.drained (b h);
  flushes = l ∙ o.flushes ∙ ap is_some (sym q);
}

has_flush-add_once :
    (callback : Option ℕ) (ls : List Listener) → has_flush (add_once callback ls) ≡ has_flush ls
has_flush-add_once none ls = refl
has_flush-add_once (some f) ls = has_flush-once ls f

pub either-IsOrdered :
    {ms : List Message} (b : Bool) (x y : Socket × Bool)
    → IsOrdered ms x.0
    → IsOrdered ms y.0
    → IsOrdered ms (if b then x else y).0
either-IsOrdered true x y p q = p
either-IsOrdered false x y p q = q

pub bind-IsOrdered :
    {ms : List Message} (env : Env) (port : ℕ) (addr : Option Bytes) (callback : Option ℕ)
    (s : Socket)
    → IsOrdered ms s
    → IsOrdered ms (bind env port addr callback s).0
unfolding bind
bind-IsOrdered env port addr callback s o =
    let s' = record s { bind_state = binding; listeners = add_once callback s.listeners } in
    let ((kh, kb, kl, kq), more) = lookup-Kept env addr (for_bind port) s' in
    let busy : is_bound (lookup env addr (for_bind port) s').0.bind_state ≡ false =
      ap is_bound kb in
    either-IsOrdered (s.handle && is_unbound s.bind_state) (lookup env addr (for_bind port) s')
      (s, false)
      (same-IsOrdered (lookup env addr (for_bind port) s').0 (λ h. cc)
        (ap has_flush kl ∙ has_flush-add_once callback s.listeners) kq
        (more ∙ append-nil (sent_of s.asked)) o)
      o

send_bind-IsOrdered :
    {ms : List Message} (b : Bool) (env : Env) (s : Socket)
    → IsOrdered ms s
    → IsOrdered ms (send_bind b env s)
send_bind-IsOrdered true env s o = bind-IsOrdered env 0 none none s o
send_bind-IsOrdered false env s o = o

push-IsOrdered :
    {ms : List Message} (q : Option (List Message)) (m : Message) (s : Socket)
    → s.send_queue ≡ q
    → is_bound s.bind_state ≡ false
    → is_sendable m ≡ true
    → IsOrdered ms s
    → IsOrdered (ms ++ m ∷ []) (push q m s)
push-IsOrdered {ms} none m s e b d o = record {
  in_order =
      ap (λ r. r ++ m ∷ [])
        (sym (append-nil (sent_of s.asked))
          ∙ ap (λ x. sent_of s.asked ++ queued x) (sym e)
          ∙ o.in_order);
  sendable = (d, tt);
  drained = λ h. cc;
  flushes = has_flush-added s.listeners;
}
push-IsOrdered {ms} (some q) m s e b d o = record {
  in_order =
      sym (append_assoc (sent_of s.asked) q (m ∷ []))
      ∙ ap (λ r. r ++ m ∷ []) (ap (λ x. sent_of s.asked ++ queued x) (sym e) ∙ o.in_order);
  sendable = AllSendable-append q m (subst (λ x. AllSendable (queued x)) e o.sendable) d;
  drained = λ h. cc;
  flushes = o.flushes ∙ ap is_some e;
}

send_when-IsOrdered :
    {ms : List Message} (b : Bool) (env : Env) (m : Message) (s : Socket)
    → is_bound s.bind_state ≡ b
    → is_sendable m ≡ true
    → IsOrdered ms s
    → IsOrdered (ms ++ m ∷ []) (send_when b env m s).0
send_when-IsOrdered false env m s b d o = push-IsOrdered s.send_queue m s refl b d o
send_when-IsOrdered {ms} true env m s b d o =
    let ((kh, kb, kl, kq), more) = lookup-Kept env m.address (for_send m) s in
    let none_waits = o.drained b in
    let before : sent_of s.asked ≡ ms =
      sym (append-nil (sent_of s.asked))
      ∙ ap (λ r. sent_of s.asked ++ r) (sym none_waits)
      ∙ o.in_order in
    record {
      in_order =
          ap (λ r. r ++ queued (lookup env m.address (for_send m) s).0.send_queue)
            (more ∙ ap (λ r. r ++ m ∷ []) before)
          ∙ ap (λ r. (ms ++ m ∷ []) ++ r) (ap queued kq ∙ none_waits)
          ∙ append-nil (ms ++ m ∷ []);
      sendable = rw kq o.sendable;
      drained = λ h. ap queued kq ∙ none_waits;
      flushes = ap has_flush kl ∙ o.flushes ∙ ap is_some (sym kq);
    }

send_if-IsOrdered :
    {ms : List Message} (b : Bool) (env : Env) (m : Message) (s s' : Socket)
    → (b ≡ true → is_sendable m ≡ true)
    → IsOrdered ms s
    → IsOrdered ms s'
    → IsOrdered
        (ms ++ (if b then m ∷ [] else []))
        (if b then send_when (is_bound s'.bind_state) env m s' else (s, false)).0
send_if-IsOrdered true env m s s' d o o' =
    send_when-IsOrdered (is_bound s'.bind_state) env m s' refl (d refl) o'
send_if-IsOrdered {ms} false env m s s' d o o' = rw (append-nil ms) o

pub send-IsOrdered :
    {ms : List Message} (env : Env) (m : Message) (s : Socket)
    → IsOrdered ms s
    → IsOrdered (ms ++ offer m s) (send env m s).0
unfolding send
send-IsOrdered env m s o =
    send_if-IsOrdered (s.handle && is_sendable m) env m s
      (send_bind (is_unbound s.bind_state) env s) (and_right s.handle (is_sendable m)) o
      (send_bind-IsOrdered (is_unbound s.bind_state) env s o)
