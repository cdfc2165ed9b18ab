-- ===== src/Jsdp/Same.antt =====
-- The operations that leave the numbers of discoveries and their callbacks alone.
use libnode.Base.{
  ℕ, ◌≡◌, refl, Bool, true, false, Option, none, some, [], ◌∷◌, ◌++◌, is_some, if◌then◌else◌,
}
use libnode.Net.Socket.State.{Bytes}
use libnode.Http.Message.Head.{text_eq, get_entry}
use libnode.Jsdp.State.{Entry, Discovery, Value, Packet, Message, Env, Service}
use libnode.Jsdp.Keys.{key_of}
use libnode.Jsdp.Ops.{
  save_hash, contains_key, put_service, remove_service, own_name, join, leave, on_close, stop,
  start, send, discovery, answer_secretly, answer, callback_of, password_of, opened, call_back,
  call_shown, handle_result, is_method, on_result, on_request,
}

-- What no operation but discover() and OnTimeout changes.
abbrev pub Same : Service → Service → Type 0
Same s t = (t.callbacks ≡ s.callbacks) × (t.id ≡ s.id)

pub either-Same :
    (s : Service) (b : Bool) (x y : Service × Bool)
    → Same s x.0
    → Same s y.0
    → Same s (if◌then◌else◌ {A = Service × Bool} b x y).0
either-Same s true x y p q = p
either-Same s false x y p q = q

pub if-Same :
    (s : Service) (b : Bool) (x y : Service) → Same s x → Same s y → Same s (if b then x else y)
if-Same s true x y p q = p
if-Same s false x y p q = q

pub save_hash-Same :
    (env : Env) (password : Option Bytes) (s : Service) → Same s (save_hash env password s)
save_hash-Same env none s = (refl, refl)
save_hash-Same env (some password) s = (refl, refl)

pub put_service-Same : (env : Env) (e : Entry) (s : Service) → Same s (put_service env e s)
unfolding put_service
put_service-Same env e s = save_hash-Same env e.password s

pub send-Same : (address : Bytes) (p : Packet) (s : Service) → Same s (send address p s)
unfolding send
send-Same address p s =
    if-Same s s.has_socket (record s { sent = s.sent ++ (address, p) ∷ [] }) s (refl, refl)
      (refl, refl)

pub stop-Same : (s : Service) → Same s (stop s).0
unfolding stop on_close
stop-Same s =
    either-Same s s.has_socket (record (record s { services = [] }) { has_socket = false }, true)
      (s, false) (refl, refl) (refl, refl)

pub answer-Same :
    (env : Env) (id : ℕ) (name hash : Option Bytes) (address : Bytes) (s : Service)
    → Same s (answer env id name hash address s)
unfolding answer
answer-Same env id name none address s = send-Same address _ s
answer-Same env id name (some hash) address s = told (get_entry hash s.hash_passwords)
  where
    told :
        (password : Option Bytes)
        → Same s (answer_secretly env id password (discovery env name (some hash) s) address s)
    told none = (refl, refl)
    told (some password) = send-Same address _ s

pub call_shown-Same :
    (r : Option Discovery) (id : ℕ) (address : Bytes) (s : Service)
    → Same s (call_shown r id address s)
call_shown-Same none id address s = (refl, refl)
call_shown-Same (some r) id address s =
    if-Same s (is_some r.host) _ s (told (callback_of id s.callbacks)) (refl, refl)
  where
    told : (cb : Option ℕ) → Same s (call_back cb r address s)
    told none = (refl, refl)
    told (some cb) = (refl, refl)

pub on_result-Same :
    (env : Env) (v : Option Value) (id : ℕ) (address : Bytes) (s : Service)
    → Same s (on_result env v id address s)
unfolding handle_result
on_result-Same env none id address s = (refl, refl)
on_result-Same env (some v) id address s =
    call_shown-Same (opened env (password_of id s.passwords) v) id address s

pub on_request-Same :
    (env : Env) (m : Message) (params : Option (Option Bytes × Option Bytes)) (address : Bytes)
    (s : Service)
    → Same s (on_request env m params address s)
on_request-Same env m none address s = on_result-Same env m.result m.id address s
on_request-Same env m (some (name, hash)) address s =
    if-Same s (is_some m.method) _ _
      (if-Same s (is_method m.method) _ s (answer-Same env m.id name hash address s) (refl, refl))
      (on_result-Same env m.result m.id address s)

pub start-Same : (env : Env) (s : Service) → Same s (start env s).0
unfolding start
start-Same env s =
    either-Same s s.has_socket (s, false) _ (refl, refl)
      (either-Same s env.binds (record s { has_socket = true }, true)
        ((stop (record s { has_socket = true })).0, false) (refl, refl)
        (stop-Same (record s { has_socket = true })))

pub join-Same : (env : Env) (e : Option Entry) (s : Service) → Same s (join env e s).0
unfolding join
join-Same env none s = (refl, refl)
join-Same env (some e) s =
    either-Same s (text_eq e.name own_name) (s, false) _ (refl, refl) (put_service-Same env e s)

pub leave-Same : (env : Env) (e : Option Entry) (s : Service) → Same s (leave env e s).0
unfolding leave remove_service
leave-Same env none s = (refl, refl)
leave-Same env (some e) s =
    either-Same s (text_eq e.name own_name) (s, false) _ (refl, refl)
      (either-Same s (contains_key (key_of env e) s.services) _ _ (save_hash-Same env e.password s)
        (save_hash-Same env e.password s))
