-- ===== src/Jsonrpc/Once.antt =====
-- A request is responded to at most once.
use libnode.Base.{
  ℕ, zero, suc, ◌+◌, ◌≤◌, ◌≡◌, refl, ◌∙◌, Bool, true, false, Option, none, some, List, [], ◌∷◌,
  arith, if◌then◌else◌,
}
use libnode.Jsonrpc.State.{Method, Outcome, Responder, Message, Env, Service, new_service}
use libnode.Jsonrpc.Request.{on_message}
use libnode.Jsonrpc.Service.{
  handle, handle_all, deliver, start, close_messages, stop, add_given, add_method, post_request,
  respond_at, respond_later,
}
use libnode.Jsonrpc.Responses.{responses, all_to_come, total, respond-Moves}
use libnode.Jsonrpc.Counting.{on_parsed-Adds}

-- Each message that was handled has at most one response, emitted or to come, and no other has one.
pub record IsOnce (s : Service) : Type 0 where
  pub at_most_one : (t : ℕ) → total t s ≤ 1
  pub none_other : (t : ℕ) → s.next ≤ t → total t s ≡ 0

on_message-IsOnce : (env : Env) (m : Message) (s : Service) → IsOnce s → IsOnce (on_message env m s)
unfolding on_message
on_message-IsOnce env m s o =
    let (ad, nx) =
      on_parsed-Adds env s.next m.callback (env.parse m.json) (record s { next = s.next + 1 }) in
    record {
      at_most_one = λ t. ground (arith, ad t, o.at_most_one t, o.none_other t);
      none_other = λ t h. ground (arith, ad t, o.none_other t, nx, h);
    }

same-IsOnce :
    {s : Service} (s' : Service)
    → s'.events ≡ s.events
    → s'.responders ≡ s.responders
    → s'.next ≡ s.next
    → IsOnce s
    → IsOnce s'
same-IsOnce s' e r n o = record {
  at_most_one = λ t. rw (e, r) (o.at_most_one t);
  none_other = λ t h. rw (e, r) (o.none_other t (omega (arith, n, h)));
}

handle-IsOnce :
    (n : ℕ) (env : Env) (m : Message) (s : Service) → IsOnce s → IsOnce (handle n env m s)
unfolding handle
handle-IsOnce zero env m s o = o
handle-IsOnce (suc n) env m s o =
    handle-IsOnce n env m (on_message env m s) (on_message-IsOnce env m s o)

handle_all-IsOnce :
    (env : Env) (ms : List Message) (s : Service) → IsOnce s → IsOnce (handle_all env ms s)
unfolding handle_all
handle_all-IsOnce env [] s o = o
handle_all-IsOnce env (m ∷ ms) s o =
    handle_all-IsOnce env ms (handle s.listeners env m s) (handle-IsOnce s.listeners env m s o)

respond_at-kept :
    (i : ℕ) (o : Outcome) (rs : List Responder) (s : Service)
    → let done = respond_at i o rs s in
      ((t : ℕ)
        → responses t done.0.events + all_to_come t done.1
          ≡ responses t s.events + all_to_come t rs)
      × (done.0.next ≡ s.next)
unfolding respond_at
respond_at-kept i o [] s = ((λ t. refl), refl)
respond_at-kept zero o (r ∷ rs) s =
    let (ev, rr, nx) = respond-Moves o r s in ((λ t. omega (arith, ev t)), nx)
respond_at-kept (suc i) o (r ∷ rs) s =
    let (ev, nx) = respond_at-kept i o rs s in ((λ t. omega (arith, ev t)), nx)

-- What can happen to a service: a program calls an operation, its queue delivers, or a method tells
-- a responder of an earlier call something.
pub data Step (env : Env) : Service → Service → Type 0 where
  starts : {s : Service} → Step env s (start s).0
  stops : {s : Service} → Step env s (stop env s).0
  adds : {s : Service} (m : Option Method) → Step env s (add_method m s).0
  posts : {s : Service} (result : Bool) (m : Message) → Step env s (post_request result m s).0
  delivers : {s : Service} → Step env s (deliver env s)
  responds : {s : Service} (i : ℕ) (o : Outcome) → Step env s (respond_later i o s)

pub data Run (env : Env) : Service → Type 0 where
  begins : Run env new_service
  steps : {s t : Service} → Run env s → Step env s t → Run env t

either-IsOnce :
    (b : Bool) (x y : Service × Bool)
    → IsOnce x.0
    → IsOnce y.0
    → IsOnce (if◌then◌else◌ {A = Service × Bool} b x y).0
either-IsOnce true x y p q = p
either-IsOnce false x y p q = q

closed-IsOnce :
    (env : Env) (b : Bool) (ms : List Message) (s s' : Service)
    → IsOnce s
    → IsOnce s'
    → IsOnce (if b then handle_all env ms s' else s)
closed-IsOnce env true ms s s' o o' = handle_all-IsOnce env ms s' o'
closed-IsOnce env false ms s s' o o' = o

Step-IsOnce : {env : Env} {s t : Service} → Step env s t → IsOnce s → IsOnce t
unfolding start stop add_method post_request deliver respond_later
Step-IsOnce (starts {s}) o = either-IsOnce s.running (s, false) _ o (same-IsOnce _ refl refl refl o)
Step-IsOnce {env} (stops {s}) o =
    let cleared = record s { methods = [] } in
    let o' : IsOnce cleared = same-IsOnce cleared refl refl refl o in
    either-IsOnce s.running (record (close_messages env cleared) { running = false }, true)
      (s, false)
      (same-IsOnce _ refl refl refl (
        closed-IsOnce env cleared.queue.is_open cleared.queue.queue cleared _ o'
          (same-IsOnce _ refl refl refl o')))
      o
Step-IsOnce (adds {s} none) o = either-IsOnce s.running (s, false) (s, false) o o
Step-IsOnce (adds {s} (some m)) o =
    either-IsOnce s.running (add_given (some m) s) (s, false) (same-IsOnce _ refl refl refl o) o
Step-IsOnce (posts done m) o = same-IsOnce _ refl refl refl o
Step-IsOnce {env} (delivers {s}) o =
    handle_all-IsOnce env s.queue.queue _ (same-IsOnce _ refl refl refl o)
Step-IsOnce (responds {s} i x) o =
    let (ev, nx) = respond_at-kept i x s.responders s in
    record {
      at_most_one = λ t. omega (arith, ev t, o.at_most_one t);
      none_other = λ t h. ev t ∙ o.none_other t (omega (arith, nx, h));
    }

-- In every run of a service, whatever its methods tell their responders and when, if the listeners and
-- the callback of a response do not use its responder themselves: each handling of a message has at
-- most one response, and only what was handled has one.
pub Run-IsOnce : {env : Env} {s : Service} → Run env s → IsOnce s
unfolding new_service
Run-IsOnce begins = record { at_most_one = λ t. omega arith; none_other = λ t h. refl }
Run-IsOnce (steps r st) = Step-IsOnce st (Run-IsOnce r)
