-- ===== src/Jsdp/Secrets.antt =====
-- A response that is not encrypted shows no service that has a password.
use libnode.Base.{
  ℕ, ◌≡◌, Bool, true, false, Option, none, some, List, [], ◌∷◌, ◌++◌, is_some, if◌then◌else◌, ◌==◌,
}
use libnode.Net.Socket.State.{Bytes}
use libnode.Http.Message.Head.{text_eq, get_entry}
use libnode.Jsdp.State.{Entry, Discovery, Value, Packet, Message, Env, Service, new_service}
use libnode.Jsdp.Keys.{key_of}
use libnode.Jsdp.Ops.{
  save_hash, remove_key, contains_key, put_service, remove_service, own_name, own_entry, join,
  leave, on_close, stop, on_error, start, on_bind, set_hostname, send, discover, discovery,
  answer_secretly, answer, callback_of, password_of, opened, call_back, call_shown, handle_result,
  is_method, on_result, on_request, on_message, on_timeout,
}
use libnode.Jsdp.Found.{IsHash, AllKeyed}
use libnode.Jsdp.Runs.{
  Step, starts, stops, fails, is_bound, names, joins, leaves, discovers, receives, times_out, Run,
  begins, steps,
}
use libnode.Jsdp.Discreet.{
  ShowsOpen, IsDiscreet, AllShowOpen-append, AllKeyed-put_key, AllKeyed-remove_key,
  get_services-AllOpen,
}

same-IsDiscreet :
    {env : Env} {s : Service} (s' : Service)
    → s'.services ≡ s.services
    → s'.sent ≡ s.sent
    → IsDiscreet env s
    → IsDiscreet env s'
same-IsDiscreet s' e p d = record { keyed = rw e d.keyed; shown = rw p d.shown }

either-IsDiscreet :
    {env : Env} (b : Bool) (x y : Service × Bool)
    → IsDiscreet env x.0
    → IsDiscreet env y.0
    → IsDiscreet env (if◌then◌else◌ {A = Service × Bool} b x y).0
either-IsDiscreet true x y p q = p
either-IsDiscreet false x y p q = q

if-IsDiscreet :
    {env : Env} (b : Bool) (x y : Service)
    → IsDiscreet env x
    → IsDiscreet env y
    → IsDiscreet env (if b then x else y)
if-IsDiscreet true x y p q = p
if-IsDiscreet false x y p q = q

saved-IsDiscreet :
    {env : Env} (password : Option Bytes) (s : Service) (es : List (Bytes × Entry))
    → AllKeyed env es
    → IsDiscreet env s
    → IsDiscreet env (record (save_hash env password s) { services = es })
saved-IsDiscreet none s es k d = record { keyed = k; shown = d.shown }
saved-IsDiscreet (some password) s es k d = record { keyed = k; shown = d.shown }

put_service-IsDiscreet :
    (env : Env) (e : Entry) (s : Service) → IsDiscreet env s → IsDiscreet env (put_service env e s)
unfolding put_service
put_service-IsDiscreet env e s d =
    saved-IsDiscreet e.password s _ (AllKeyed-put_key env e s.services d.keyed) d

save_hash-IsDiscreet :
    {env : Env} (password : Option Bytes) (s : Service)
    → IsDiscreet env s
    → IsDiscreet env (save_hash env password s)
save_hash-IsDiscreet none s d = d
save_hash-IsDiscreet (some password) s d = record { keyed = d.keyed; shown = d.shown }

remove_service-IsDiscreet :
    (env : Env) (e : Entry) (s : Service)
    → IsDiscreet env s
    → IsDiscreet env (remove_service env e s).0
unfolding remove_service
remove_service-IsDiscreet env e s d =
    either-IsDiscreet (contains_key (key_of env e) s.services)
      (
        record (save_hash env e.password s) { services = remove_key (key_of env e) s.services },
        true,
      )
      (save_hash env e.password s, false)
      (saved-IsDiscreet e.password s _ (AllKeyed-remove_key env (key_of env e) s.services d.keyed)
        d)
      (save_hash-IsDiscreet e.password s d)

send-IsDiscreet :
    {env : Env} (address : Bytes) (p : Packet) (s : Service)
    → ShowsOpen p
    → IsDiscreet env s
    → IsDiscreet env (send address p s)
unfolding send
send-IsDiscreet address p s o d =
    if-IsDiscreet s.has_socket (record s { sent = s.sent ++ (address, p) ∷ [] }) s
      (record { keyed = d.keyed; shown = AllShowOpen-append s.sent address p d.shown o }) d

discover-IsDiscreet :
    (env : Env) (name password : Option Bytes) (cb : Option ℕ) (s : Service)
    → IsDiscreet env s
    → IsDiscreet env (discover env name password cb s).0
unfolding discover
discover-IsDiscreet env name password none s d = d
discover-IsDiscreet env name password (some cb) s d =
    either-IsDiscreet s.has_socket _ (s, false)
      (send-IsDiscreet env.group _ _ tt (record { keyed = d.keyed; shown = d.shown })) d

answer-IsDiscreet :
    (env : Env) (id : ℕ) (name hash : Option Bytes) (address : Bytes) (s : Service)
    → IsHash env
    → IsDiscreet env s
    → IsDiscreet env (answer env id name hash address s)
unfolding answer
answer-IsDiscreet env id name none address s h d =
    send-IsDiscreet address _ s (get_services-AllOpen env name s.services h d.keyed) d
answer-IsDiscreet env id name (some hash) address s h d = told (get_entry hash s.hash_passwords)
  where
    told :
        (password : Option Bytes)
        → IsDiscreet env
            (answer_secretly env id password (discovery env name (some hash) s) address s)
    told none = d
    told (some password) = send-IsDiscreet address _ s tt d

call_back-IsDiscreet :
    {env : Env} (cb : Option ℕ) (r : Discovery) (address : Bytes) (s : Service)
    → IsDiscreet env s
    → IsDiscreet env (call_back cb r address s)
call_back-IsDiscreet none r address s d = d
call_back-IsDiscreet (some cb) r address s d = record { keyed = d.keyed; shown = d.shown }

call_shown-IsDiscreet :
    {env : Env} (r : Option Discovery) (id : ℕ) (address : Bytes) (s : Service)
    → IsDiscreet env s
    → IsDiscreet env (call_shown r id address s)
call_shown-IsDiscreet none id address s d = d
call_shown-IsDiscreet (some r) id address s d =
    if-IsDiscreet (is_some r.host) _ s
      (call_back-IsDiscreet (callback_of id s.callbacks) r address s d) d

on_result-IsDiscreet :
    (env : Env) (v : Option Value) (id : ℕ) (address : Bytes) (s : Service)
    → IsDiscreet env s
    → IsDiscreet env (on_result env v id address s)
unfolding handle_result
on_result-IsDiscreet env none id address s d = d
on_result-IsDiscreet env (some v) id address s d =
    call_shown-IsDiscreet (opened env (password_of id s.passwords) v) id address s d

on_request-IsDiscreet :
    (env : Env) (m : Message) (params : Option (Option Bytes × Option Bytes)) (address : Bytes)
    (s : Service)
    → IsHash env
    → IsDiscreet env s
    → IsDiscreet env (on_request env m params address s)
on_request-IsDiscreet env m none address s h d = on_result-IsDiscreet env m.result m.id address s d
on_request-IsDiscreet env m (some (name, hash)) address s h d =
    if-IsDiscreet (is_some m.method) _ _
      (if-IsDiscreet (is_method m.method) _ s (answer-IsDiscreet env m.id name hash address s h d)
        d)
      (on_result-IsDiscreet env m.result m.id address s d)

stop-IsDiscreet : {env : Env} (s : Service) → IsDiscreet env s → IsDiscreet env (stop s).0
unfolding stop on_close
stop-IsDiscreet s d =
    either-IsDiscreet s.has_socket
      (record (record s { services = [] }) { has_socket = false }, true) (s, false)
      (record { keyed = tt; shown = d.shown }) d

start-IsDiscreet : (env : Env) (s : Service) → IsDiscreet env s → IsDiscreet env (start env s).0
unfolding start
start-IsDiscreet env s d =
    let opened_ = record s { has_socket = true } in
    let d' : IsDiscreet env opened_ = record { keyed = d.keyed; shown = d.shown } in
    either-IsDiscreet s.has_socket (s, false) _ d
      (either-IsDiscreet env.binds (opened_, true) ((stop opened_).0, false) d'
        (stop-IsDiscreet opened_ d'))

join-IsDiscreet :
    (env : Env) (e : Option Entry) (s : Service)
    → IsDiscreet env s
    → IsDiscreet env (join env e s).0
unfolding join
join-IsDiscreet env none s d = d
join-IsDiscreet env (some e) s d =
    either-IsDiscreet (text_eq e.name own_name) (s, false) _ d (put_service-IsDiscreet env e s d)

leave-IsDiscreet :
    (env : Env) (e : Option Entry) (s : Service)
    → IsDiscreet env s
    → IsDiscreet env (leave env e s).0
unfolding leave
leave-IsDiscreet env none s d = d
leave-IsDiscreet env (some e) s d =
    either-IsDiscreet (text_eq e.name own_name) (s, false) (remove_service env e s) d
      (remove_service-IsDiscreet env e s d)

Step-IsDiscreet :
    {env : Env} {s t : Service} → IsHash env → Step env s t → IsDiscreet env s → IsDiscreet env t
unfolding on_error on_bind set_hostname on_timeout on_message
Step-IsDiscreet {env} h (starts {s}) d = start-IsDiscreet env s d
Step-IsDiscreet h (stops {s}) d = stop-IsDiscreet s d
Step-IsDiscreet h (fails {s}) d = stop-IsDiscreet s d
Step-IsDiscreet {env} h (is_bound {s} b) d = put_service-IsDiscreet env own_entry s d
Step-IsDiscreet h (names name) d = record { keyed = d.keyed; shown = d.shown }
Step-IsDiscreet {env} h (joins {s} e) d = join-IsDiscreet env e s d
Step-IsDiscreet {env} h (leaves {s} e) d = leave-IsDiscreet env e s d
Step-IsDiscreet {env} h (discovers {s} name password cb) d =
    discover-IsDiscreet env name password cb s d
Step-IsDiscreet {env} h (receives {s} m address) d =
    if-IsDiscreet (m.id == 0) s _ d (on_request-IsDiscreet env m m.params address s h d)
Step-IsDiscreet h (times_out id) d = record { keyed = d.keyed; shown = d.shown }

-- In every run of a new service, whatever joins, leaves and asks: each service is kept under its own
-- key, and a response that is not encrypted shows no service that has a password.
pub Run-IsDiscreet :
    (env : Env) {t : Service} → IsHash env → Run env new_service t → IsDiscreet env t
unfolding new_service
Run-IsDiscreet env h begins = record { keyed = tt; shown = tt }
Run-IsDiscreet env h (steps r st) = Step-IsDiscreet h st (Run-IsDiscreet env h r)
