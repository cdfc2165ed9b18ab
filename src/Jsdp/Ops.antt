-- ===== src/Jsdp/Ops.antt =====
-- The operations of jsdp::DiscoveryService, and the callbacks of its socket and its timers.
use libnode.Base.{
  ℕ, ◌+◌, Bool, true, false, ◌||◌, Option, none, some, List, [], ◌∷◌, ◌++◌, is_some, codes,
  if◌then◌else◌, ◌==◌,
}
use libnode.Net.Socket.State.{Bytes}
use libnode.Http.Message.Head.{text_eq, get_entry, put_entry}
use libnode.Jsdp.State.{
  Entry, Discovery, Value, text, object, other, Packet, request, response, Message, Env, Service,
}
use libnode.Jsdp.Keys.{hash_of, key_of, get_services}

-- getHash() with what it saves, on a password that may be null.
abbrev pub save_hash : Env → Option Bytes → Service → Service
save_hash env none s = s
save_hash env (some password) s = record s {
  hash_passwords = put_entry (env.hash password) password s.hash_passwords;
}

unfoldable pub put_key : Bytes → Entry → List (Bytes × Entry) → List (Bytes × Entry)
put_key key e [] = (key, e) ∷ []
put_key key e ((k, e') ∷ es) = if text_eq k key then (k, e) ∷ es else (k, e') ∷ put_key key e es

unfoldable pub remove_key : Bytes → List (Bytes × Entry) → List (Bytes × Entry)
remove_key key [] = []
remove_key key ((k, e) ∷ es) = if text_eq k key then es else (k, e) ∷ remove_key key es

unfoldable pub contains_key : Bytes → List (Bytes × Entry) → Bool
contains_key key [] = false
contains_key key ((k, e) ∷ es) = text_eq k key || contains_key key es

-- putService().
unfoldable pub put_service : Env → Entry → Service → Service
put_service env e s = record (save_hash env e.password s) {
  services = put_key (key_of env e) e s.services;
}

-- removeService().
unfoldable pub remove_service : Env → Entry → Service → Service × Bool
remove_service env e s =
    let saved = save_hash env e.password s in
    if contains_key (key_of env e) s.services
    then (record saved { services = remove_key (key_of env e) s.services }, true)
    else (saved, false)

abbrev pub own_name : Bytes
own_name = codes "jsds"

-- The service itself, with the name and the version of its constructor.
abbrev pub own_entry : Entry
own_entry = record { name = own_name; version = some (codes "1.0"); password = none }

-- join() and leave().
unfoldable pub join : Env → Option Entry → Service → Service × Bool
join env none s = (s, false)
join env (some e) s = if text_eq e.name own_name then (s, false) else (put_service env e s, true)

unfoldable pub leave : Env → Option Entry → Service → Service × Bool
leave env none s = (s, false)
leave env (some e) s = if text_eq e.name own_name then (s, false) else remove_service env e s

-- OnClose.
unfoldable pub on_close : Service → Service
on_close s = record s { services = [] }

-- stop(); close() of the socket emits its close event at once.
unfoldable pub stop : Service → Service × Bool
stop s = if s.has_socket then (record (on_close s) { has_socket = false }, true) else (s, false)

-- OnError.
unfoldable pub on_error : Service → Service
on_error s = (stop s).0

-- start().
unfoldable pub start : Env → Service → Service × Bool
start env s =
    if s.has_socket
    then (s, false)
    else if env.binds
    then (record s { has_socket = true }, true)
    else ((stop (record s { has_socket = true })).0, false)

-- OnBind, which asserts that there is a socket.
unfoldable pub on_bind : Env → Service → Service
on_bind env s = put_service env own_entry s

unfoldable pub set_hostname : Option Bytes → Service → Service
set_hostname name s = record s { hostname = name }

-- send().
unfoldable pub send : Bytes → Packet → Service → Service
send address p s = if s.has_socket then record s { sent = s.sent ++ (address, p) ∷ [] } else s

-- discover(), whose timer will run OnTimeout.
unfoldable pub discover : Env → Option Bytes → Option Bytes → Option ℕ → Service → Service × Bool
discover env name password none s = (s, false)
discover env name password (some cb) s =
    let asked = record s {
      id = s.id + 1;
      passwords = s.passwords ++ (s.id + 1, password) ∷ [];
      callbacks = s.callbacks ++ (s.id + 1, cb) ∷ [];
    } in
    if s.has_socket
    then (send env.group (request (s.id + 1) name (hash_of env password)) asked, true)
    else (s, false)

abbrev pub or_host : Option Bytes → Bytes → Bytes
or_host none other_name = other_name
or_host (some name) other_name = name

-- The result of OnMessage::discover().
abbrev pub discovery : Env → Option Bytes → Option Bytes → Service → Discovery
discovery env name hash s = record {
  host = some (or_host s.hostname env.os_hostname);
  services = get_services name hash s.services;
}

abbrev pub answer_secretly : Env → ℕ → Option Bytes → Discovery → Bytes → Service → Service
answer_secretly env id none d address s = s
answer_secretly env id (some password) d address s =
    send address (response id (text (env.encrypt password d))) s

-- OnMessage::discover().
unfoldable pub answer : Env → ℕ → Option Bytes → Option Bytes → Bytes → Service → Service
answer env id name none address s =
    send address (response id (object (discovery env name none s))) s
answer env id name (some hash) address s =
    answer_secretly env id (get_entry hash s.hash_passwords) (discovery env name (some hash) s)
      address s

unfoldable pub callback_of : ℕ → List (ℕ × ℕ) → Option ℕ
callback_of id [] = none
callback_of id ((i, cb) ∷ cs) = if i == id then some cb else callback_of id cs

-- The password of an id; null and no entry are the same.
unfoldable pub password_of : ℕ → List (ℕ × Option Bytes) → Option Bytes
password_of id [] = none
password_of id ((i, password) ∷ ps) = if i == id then password else password_of id ps

-- What a result shows: with a password a text is decrypted, without one it is an object.
unfoldable pub opened : Env → Option Bytes → Value → Option Discovery
opened env (some password) (text t) = env.decrypt password t
opened env (some password) (object d) = none
opened env (some password) other = none
opened env none (text t) = none
opened env none (object d) = some d
opened env none other = none

abbrev pub call_back : Option ℕ → Discovery → Bytes → Service → Service
call_back none d address s = s
call_back (some cb) d address s = record s { called = s.called ++ (cb, d, address) ∷ [] }

abbrev pub call_shown : Option Discovery → ℕ → Bytes → Service → Service
call_shown none id address s = s
call_shown (some d) id address s =
    if is_some d.host then call_back (callback_of id s.callbacks) d address s else s

-- OnMessage::handleResult().
unfoldable pub handle_result : Env → ℕ → Value → Bytes → Service → Service
handle_result env id v address s =
    call_shown (opened env (password_of id s.passwords) v) id address s

abbrev pub is_method : Option Bytes → Bool
is_method none = false
is_method (some m) = text_eq m (codes "discover")

abbrev pub on_result : Env → Option Value → ℕ → Bytes → Service → Service
on_result env none id address s = s
on_result env (some v) id address s = handle_result env id v address s

abbrev pub on_request :
    Env → Message → Option (Option Bytes × Option Bytes) → Bytes → Service → Service
on_request env m none address s = on_result env m.result m.id address s
on_request env m (some (name, hash)) address s =
    if is_some m.method
    then if is_method m.method then answer env m.id name hash address s else s
    else on_result env m.result m.id address s

-- OnMessage, on a message that is an object, from an address.
unfoldable pub on_message : Env → Message → Bytes → Service → Service
on_message env m address s = if m.id == 0 then s else on_request env m m.params address s

unfoldable pub remove_id {ℓ} : {A : Type ℓ} → ℕ → List (ℕ × A) → List (ℕ × A)
remove_id id [] = []
remove_id id ((i, a) ∷ as_) = if i == id then as_ else (i, a) ∷ remove_id id as_

-- OnTimeout.
unfoldable pub on_timeout : ℕ → Service → Service
on_timeout id s = record s {
  callbacks = remove_id id s.callbacks;
  passwords = remove_id id s.passwords;
}
