-- ===== src/Jsonrpc/Lifecycle.antt =====
-- What stop() does with the calls that wait, and a service that is started again.
use mathlib.Core.Path.{subst}
use libnode.Base.{
  ℕ, zero, suc, ◌+◌, ◌≡◌, refl, sym, ap, ◌∙◌, true, false, Option, none, some, List, [], ◌∷◌, ◌++◌,
  arith, append-nil, append_assoc,
}
use libnode.Net.Socket.State.{Bytes}
use libnode.Shared.MessageQueue.{close_queue}
use libnode.Jsonrpc.State.{
  Field, string, Request, an_object, Method, method_not_found, error, Response, Message, Env,
  Service,
}
use libnode.Jsonrpc.Request.{
  emit20, get_method, is_undefined, check_id20, check_params20, is_version20, jsonrpc20, on_message,
}
use libnode.Jsonrpc.Service.{handle, handle_all, stop}
use libnode.Jsonrpc.Answers.{response20, emit20-Responds}

-- A text is a call of version 2.0: it has an id, a method and params that are right.
pub record IsCall (env : Env) (m : Message) (req : Request) : Type 0 where
  pub parsed : env.parse m.json ≡ an_object req
  pub version : is_version20 req.jsonrpc ≡ true
  pub id_checked : check_id20 req.id ≡ true
  pub id_defined : is_undefined req.id ≡ false
  pub named : (name : Bytes) × (req.method ≡ string name)
  pub params_checked : check_params20 req.params ≡ true

-- What no method means for a call.
abbrev pub refusal : Request → Response
refusal req = response20 req.id (error method_not_found)

-- The responses of a number of listeners to one message, and to several.
abbrev pub repeated : ℕ → ℕ → Response → List (ℕ × Response)
repeated zero t r = []
repeated (suc n) t r = (t, r) ∷ repeated n (t + 1) r

abbrev pub refusals : ℕ → ℕ → List (Message × Request) → List (ℕ × Response)
refusals n t [] = []
refusals n t ((m, req) ∷ cs) = repeated n t (refusal req) ++ refusals n (t + n) cs

abbrev pub messages : List (Message × Request) → List Message
messages [] = []
messages ((m, req) ∷ cs) = m ∷ messages cs

abbrev pub AllCalls : Env → List (Message × Request) → Type 0
AllCalls env [] = Unit
AllCalls env ((m, req) ∷ cs) = IsCall env m req × AllCalls env cs

-- What a refusal leaves as it is, and what it adds.
abbrev Refuses : ℕ → List (ℕ × Response) → Service → Service → Type 0
Refuses n added s s' =
    (s'.events ≡ s.events ++ added)
    × (s'.methods ≡ s.methods)
    × (s'.listeners ≡ s.listeners)
    × (s'.next ≡ s.next + n)

emit20-kept :
    (tag : ℕ) (id : Field) (cb : Option ℕ) (s : Service)
    → let s' = emit20 tag (error method_not_found) id cb s in
      (s'.methods ≡ s.methods) × (s'.listeners ≡ s.listeners) × (s'.next ≡ s.next)
unfolding emit20
emit20-kept tag id none s = (refl, refl, refl)
emit20-kept tag id (some cb) s = (refl, refl, refl)

get_method-none : (name : Bytes) (ms : List (Bytes × Method)) → ms ≡ [] → get_method name ms ≡ none
unfolding get_method
get_method-none name ms e = rw e refl

on_message-refused :
    (env : Env) (m : Message) (req : Request) (s : Service)
    → IsCall env m req
    → s.methods ≡ []
    → on_message env m s
      ≡ emit20 s.next (error method_not_found) req.id m.callback (record s { next = s.next + 1 })
unfolding on_message jsonrpc20
on_message-refused env m req s c e =
    rw
      (
        c.parsed,
        c.version,
        c.id_checked,
        c.named.1,
        c.params_checked,
        c.id_defined,
        get_method-none c.named.0 s.methods e,
      )
      refl

on_message-Refuses :
    (env : Env) (m : Message) (req : Request) (s : Service)
    → IsCall env m req
    → s.methods ≡ []
    → Refuses 1 ((s.next, refusal req) ∷ []) s (on_message env m s)
on_message-Refuses env m req s c e =
    let s' = record s { next = s.next + 1 } in
    let (ev, k, r) =
      emit20-Responds s.next (error method_not_found) req.id m.callback s' c.id_defined in
    subst (Refuses 1 ((s.next, refusal req) ∷ []) s) (sym (on_message-refused env m req s c e))
      (let (me, li, nx) = emit20-kept s.next req.id m.callback s' in (ev, me, li, nx))

handle-Refuses :
    (n : ℕ) (env : Env) (m : Message) (req : Request) (s : Service)
    → IsCall env m req
    → s.methods ≡ []
    → Refuses n (repeated n s.next (refusal req)) s (handle n env m s)
unfolding handle
handle-Refuses zero env m req s c e = (sym (append-nil s.events), refl, refl, omega arith)
handle-Refuses (suc n) env m req s c e =
    let (ev, me, li, nx) = on_message-Refuses env m req s c e in
    let (ev', me', li', nx') = handle-Refuses n env m req (on_message env m s) c (me ∙ e) in
    (
      ev'
          ∙ ap (λ r. r ++ repeated n (on_message env m s).next (refusal req)) ev
          ∙ append_assoc s.events ((s.next, refusal req) ∷ []) _
          ∙ ap (λ t. s.events ++ (s.next, refusal req) ∷ repeated n t (refusal req)) nx,
      me' ∙ me,
      li' ∙ li,
      omega (arith, nx', nx),
    )

handle_all-refused :
    (n : ℕ) (env : Env) (cs : List (Message × Request)) (s : Service)
    → AllCalls env cs
    → s.methods ≡ []
    → s.listeners ≡ n
    → (handle_all env (messages cs) s).events ≡ s.events ++ refusals n s.next cs
unfolding handle_all
handle_all-refused n env [] s a e l = sym (append-nil s.events)
handle_all-refused n env ((m, req) ∷ cs) s a e l =
    let s' = handle s.listeners env m s in
    let (ev, me, li, nx) = handle-Refuses s.listeners env m req s a.0 e in
    handle_all-refused n env cs s' a.1 (me ∙ e) (li ∙ l)
    ∙ ap (λ r. r ++ refusals n s'.next cs) ev
    ∙ append_assoc s.events (repeated s.listeners s.next (refusal req)) (refusals n s'.next cs)
    ∙ ap (λ t. s.events ++ (repeated s.listeners s.next (refusal req) ++ refusals n t cs))
        (nx ∙ ap (λ k. s.next + k) l)
    ∙ ap (λ k. s.events ++ (repeated k s.next (refusal req) ++ refusals n (s.next + n) cs)) l

-- stop() forgets the methods before the queue delivers what waits in it: each call of version 2.0
-- that was posted and not yet delivered is answered, by each listener, that there is no such method.
pub stop-refuses :
    (env : Env) (cs : List (Message × Request)) (s : Service)
    → s.running ≡ true
    → s.queue.is_open ≡ true
    → s.queue.queue ≡ messages cs
    → AllCalls env cs
    → (stop env s).0.events ≡ s.events ++ refusals s.listeners s.next cs
unfolding stop
stop-refuses env cs s r o q a =
    let cleared = record s { running = true; queue = (close_queue s.queue).0; methods = [] } in
    simp (r, o, q) (handle_all-refused s.listeners env cs cleared a refl refl)
