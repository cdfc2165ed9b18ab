-- ===== src/Datagram/Closed.antt =====
-- A dgram::Socket that is closed.
use libnode.Base.{
  ℕ, ◌≡◌, refl, ap, ◌∙◌, Bool, true, false, Option, none, some, List, [], ◌++◌, append-nil,
  if◌then◌else◌, ◌==◌,
}
use libnode.Buffer.State.{Buffer}
use libnode.Datagram.State.{
  Message, Purpose, for_bind, for_send, Answer, found, failed, Env, Socket,
}
use libnode.Datagram.Ops.{
  bind, send, after_lookup_in_bind, after_lookup_in_send, after_lookup, call_back, after_send, tell,
  on_message, close, set_socket_option,
}
use libnode.Datagram.Queue.{
  Step, binds, closes, sets, answers, receives, sent, Run, begins, steps, sends, offer,
}

-- The socket has no handle, and nothing was asked of it.
abbrev pub Unused : Socket → Socket → Type 0
Unused s t = (t.handle ≡ false) × (t.actions ≡ s.actions)

answered-Unused :
    (env : Env) (p : Purpose) (a : Answer) (s : Socket)
    → s.handle ≡ false
    → Unused s (after_lookup env p a s)
unfolding after_lookup after_lookup_in_bind after_lookup_in_send
answered-Unused env (for_bind port) (failed err) s h = (h, refl)
answered-Unused env (for_bind port) (found ip) s h = (simp h, simp h)
answered-Unused env (for_send m) (failed err) s h = told m.callback
  where
    told : (callback : Option ℕ) → Unused s (call_back callback err s)
    told none = (h, refl)
    told (some f) = (h, refl)
answered-Unused env (for_send m) (found ip) s h = (simp h, simp h)

after_send-Unused :
    (status : ℕ) (m : Message) (s : Socket) → s.handle ≡ false → Unused s (after_send status m s)
unfolding after_send
after_send-Unused status m s h = told (status == 0) m.callback m.buffer
  where
    told :
        (b : Bool) (callback : Option ℕ) (buffer : Option Buffer)
        → Unused s (if b then tell callback buffer s else record s { fault = true })
    told true none buffer = (h, refl)
    told true (some f) none = (h, refl)
    told true (some f) (some b) = (h, refl)
    told false callback buffer = (h, refl)

Step-Unused : {env : Env} {s t : Socket} → Step env s t → s.handle ≡ false → Unused s t
unfolding bind close set_socket_option on_message
Step-Unused (binds {s} port addr callback) h = (simp h, simp h)
Step-Unused (closes {s}) h = (simp h, simp h)
Step-Unused (sets {s} given option) h = (simp h, simp h)
Step-Unused {env} (answers {s} before after l a e) h =
    answered-Unused env l.purpose a (record s { pending = before ++ after }) h
Step-Unused (receives bytes e) h = (h, refl)
Step-Unused (sent {s} status m) h = after_send-Unused status m s h

send-Unused : (env : Env) (m : Message) (s : Socket) → s.handle ≡ false → (send env m s).0 ≡ s
unfolding send
send-Unused env m s h = simp h

offer-none : (m : Message) (s : Socket) → s.handle ≡ false → offer m s ≡ []
offer-none m s h = simp h

-- Whatever a program does with a socket that is closed, and whatever is answered to it: nothing is
-- asked of a handle, no message is taken, and the socket stays closed.
pub Run-closed :
    {env : Env} {s t : Socket} {ms : List Message}
    → s.handle ≡ false
    → Run env s t ms
    → (t.handle ≡ false) × (t.actions ≡ s.actions) × (ms ≡ [])
Run-closed h begins = (h, refl, refl)
Run-closed h (steps r st) =
    let (th, ta, tm) = Run-closed h r in let (uh, ua) = Step-Unused st th in (uh, ua ∙ ta, tm)
Run-closed {env} h (sends {t} {ms} m r) =
    let (th, ta, tm) = Run-closed h r in
    let same = send-Unused env m t th in
    (
      ap (λ x. x.handle) same ∙ th,
      ap (λ x. x.actions) same ∙ ta,
      ap (λ x. ms ++ x) (offer-none m t th) ∙ append-nil ms ∙ tm,
    )
