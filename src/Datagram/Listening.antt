-- ===== src/Datagram/Listening.antt =====
-- What a socket that begins to listen does with the messages that wait.
use mathlib.Core.Path.{subst}
use libnode.Base.{
  ℕ, ◌≡◌, refl, sym, ap, ◌∙◌, Bool, true, false, Option, none, some, List, [], ◌∷◌, ◌++◌, inl, inr,
  append-nil, is_some, if◌then◌else◌, ◌⊎◌,
}
use libnode.Datagram.State.{
  bound, call_listening, set_on_message, recv_start, listening_event, Message, Listener,
  once_listener, on_listening_listener, Env, Socket,
}
use libnode.Datagram.Ops.{on_listening, flush, run_listeners, lasting, start_listening, bind_failed}
use libnode.Datagram.Queue.{
  sent_of, queued, has_flush, AllSendable, taken, has_flush-lasting, send_all-Kept,
}
use libnode.Datagram.Sending.{IsOrdered, same-IsOrdered}

-- What OnListening leaves of a socket that is bound.
abbrev Emptied : Socket → Socket → Type 0
Emptied s t =
    (t.handle ≡ s.handle)
    × (t.bind_state ≡ s.bind_state)
    × (t.listeners ≡ s.listeners)
    × (is_some t.send_queue ≡ is_some s.send_queue)
    × (taken t ≡ taken s)
    × (queued t.send_queue ≡ [])

flush-Emptied :
    (q : Option (List Message)) (env : Env) (s : Socket)
    → s.send_queue ≡ q
    → s.handle ≡ true
    → s.bind_state ≡ bound
    → AllSendable (queued s.send_queue)
    → Emptied s (flush q env s)
flush-Emptied none env s e h b a = (refl, refl, refl, refl, refl, ap queued e)
flush-Emptied (some q) env s e h b a =
    let ((kh, kb, kl, kq), more) =
      send_all-Kept env q s h b (subst (λ x. AllSendable (queued x)) e a) in
    (
      kh,
      kb,
      kl,
      ap is_some (sym e),
      append-nil _ ∙ more ∙ ap (λ x. sent_of s.asked ++ queued x) (sym e),
      refl,
    )

-- Callbacks of bind() that leave the socket alone.
abbrev pub IsCalm : Env → Type 0
IsCalm env = (f : ℕ) (s : Socket) → env.hears f s ≡ s

run_listeners-Emptied :
    (env : Env) (calm : IsCalm env) (ls : List Listener) (s : Socket)
    → s.handle ≡ true
    → s.bind_state ≡ bound
    → AllSendable (queued s.send_queue)
    → (has_flush ls ≡ true) ⊎ (queued s.send_queue ≡ [])
    → Emptied s (run_listeners env ls s)
unfolding run_listeners on_listening
run_listeners-Emptied env calm [] s h b a (inl f) = absurd (cc)
run_listeners-Emptied env calm [] s h b a (inr e) = (refl, refl, refl, refl, refl, e)
run_listeners-Emptied env calm (once_listener f ∷ ls) s h b a o =
    let told = record s { calls = s.calls ++ call_listening f ∷ [] } in
    subst (λ t. Emptied s (run_listeners env ls t)) (sym (calm f told))
      (run_listeners-Emptied env calm ls told h b a o)
run_listeners-Emptied env calm (on_listening_listener ∷ ls) s h b a o =
    let (th, tb, tl, ti, tt', tq) = flush-Emptied s.send_queue env s refl h b a in
    let (uh, ub, ul, ui, ut, uq) =
      run_listeners-Emptied env calm ls (flush s.send_queue env s) (th ∙ h) (tb ∙ b) (rw tq tt)
        (inr tq) in
    (uh ∙ th, ub ∙ tb, ul ∙ tl, ui ∙ ti, ut ∙ tt', uq)

waiting_flushes :
    {ms : List Message} (q : Option (List Message)) (s : Socket)
    → s.send_queue ≡ q
    → IsOrdered ms s
    → (has_flush s.listeners ≡ true) ⊎ (queued s.send_queue ≡ [])
waiting_flushes none s e o = inr (ap queued e)
waiting_flushes (some q) s e o = inl (o.flushes ∙ ap is_some e)

start_listening-IsOrdered :
    {ms : List Message} (env : Env) (calm : IsCalm env) (s : Socket)
    → s.handle ≡ true
    → IsOrdered ms s
    → IsOrdered ms (start_listening env s)
unfolding start_listening
start_listening-IsOrdered env calm s h o =
    let ready = record s {
      actions = s.actions ++ (set_on_message ∷ recv_start ∷ []);
      receiving = true;
      bind_state = bound;
      listeners = lasting s.listeners;
      events = s.events ++ listening_event ∷ [];
    } in
    let (th, tb, tl, ti, tk, tq) =
      run_listeners-Emptied env calm s.listeners ready h refl o.sendable
        (waiting_flushes s.send_queue s refl o) in
    record {
      in_order = tk ∙ o.in_order;
      sendable = rw tq tt;
      drained = λ _. tq;
      flushes = ap has_flush tl ∙ has_flush-lasting s.listeners ∙ o.flushes ∙ sym ti;
    }

pub bind_failed-IsOrdered :
    {ms : List Message} (err : ℕ) (s : Socket) → IsOrdered ms s → IsOrdered ms (bind_failed err s)
bind_failed-IsOrdered err s o = same-IsOrdered (bind_failed err s) (λ h. cc) refl refl refl o

pub after_bind-IsOrdered :
    {ms : List Message} (opened bound_ : Bool) (env : Env) (calm : IsCalm env) (err : ℕ)
    (s s' : Socket)
    → (opened ≡ true → s'.handle ≡ true)
    → IsOrdered ms s
    → IsOrdered ms s'
    → IsOrdered ms
        (if opened then if bound_ then start_listening env s' else bind_failed err s' else s)
after_bind-IsOrdered true true env calm err s s' h o o' =
    start_listening-IsOrdered env calm s' (h refl) o'
after_bind-IsOrdered true false env calm err s s' h o o' = bind_failed-IsOrdered err s' o'
after_bind-IsOrdered false bound_ env calm err s s' h o o' = o
