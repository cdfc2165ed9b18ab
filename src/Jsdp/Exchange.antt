-- ===== src/Jsdp/Exchange.antt =====
-- A discovery with a password, from the one that asks to the one that answers and back.
use libnode.Base.{
  ℕ, ◌+◌, ◌≡◌, refl, sym, ap, ◌∙◌, Bool, true, false, Option, none, some, List, [], ◌∷◌, ◌++◌, map,
  codes, arith, if◌then◌else◌, ◌==◌, Bool-cases, inl, inr,
}
use libnode.Net.Socket.State.{Bytes}
use libnode.Http.Message.Head.{text_eq, get_entry}
use libnode.Jsdp.State.{Entry, Discovery, text, request, response, Message, Env, Service}
use libnode.Jsdp.Keys.{get_services}
use libnode.Jsdp.Ops.{
  send, discover, opened, or_host, answer, callback_of, password_of, handle_result, on_message,
}
use libnode.Jsdp.Found.{IsHash, no_colon_in, AllKeyed, AllNamed, wanted, get_services-wanted}

-- A request and a response, as OnMessage reads them.
abbrev pub question : ℕ → Option Bytes → Option Bytes → Message
question id name hash = record {
  id = id;
  method = some (codes "discover");
  params = some (name, hash);
  result = none;
}

abbrev pub reply : ℕ → Bytes → Message
reply id t = record { id = id; method = none; params = none; result = some (text t) }

-- What a service shows of itself to a password.
abbrev pub shown_to : Env → Option Bytes → Bytes → Service → Discovery
shown_to env name password s = record {
  host = some (or_host s.hostname env.os_hostname);
  services = wanted env name (some password) s.services;
}

-- The text of a service, which has no password in it.
abbrev pub bare_entry : Entry → Entry
bare_entry e = record { name = e.name; version = e.version; password = none }

abbrev pub bare : Discovery → Discovery
bare d = record { host = d.host; services = map bare_entry d.services }

suc_nonzero : (n : ℕ) → (n + 1 == 0) ≡ false
suc_nonzero n = ground arith

self_eq : (n : ℕ) → (n == n) ≡ true
self_eq n = ground arith

callback_of-added :
    (id cb : ℕ) (cs : List (ℕ × ℕ))
    → callback_of id cs ≡ none
    → callback_of id (cs ++ (id, cb) ∷ []) ≡ some cb
unfolding callback_of
callback_of-added id cb [] h = rw (self_eq id) refl
callback_of-added id cb ((i, c) ∷ cs) h = elim (Bool-cases (i == id)) [
  | inl e ↦ absurd (cc (ap (λ b. if b then some c else callback_of id cs) (sym e) ∙ h))
  | inr e ↦
      rw e
        (callback_of-added id cb cs (ap (λ b. if b then some c else callback_of id cs) (sym e) ∙ h))
]

-- No password is kept for a number.
abbrev pub is_kept : ℕ → List (ℕ × Option Bytes) → Bool
is_kept id [] = false
is_kept id ((i, p) ∷ ps) = if i == id then true else is_kept id ps

password_of-added :
    (id : ℕ) (p : Option Bytes) (ps : List (ℕ × Option Bytes))
    → is_kept id ps ≡ false
    → password_of id (ps ++ (id, p) ∷ []) ≡ p
unfolding password_of
password_of-added id p [] h = rw (self_eq id) refl
password_of-added id p ((i, q) ∷ ps) h = elim (Bool-cases (i == id)) [
  | inl e ↦ absurd (cc (ap (λ b. if b then true else is_kept id ps) (sym e) ∙ h))
  | inr e ↦
      rw e (password_of-added id p ps (ap (λ b. if b then true else is_kept id ps) (sym e) ∙ h))
]

answered :
    (env : Env) (id : ℕ) (name : Option Bytes) (password there : Bytes) (a : Service)
    → (id == 0) ≡ false
    → a.has_socket ≡ true
    → get_entry (env.hash password) a.hash_passwords ≡ some password
    → get_services name (some (env.hash password)) a.services
      ≡ wanted env name (some password) a.services
    → (on_message env (question id name (some (env.hash password))) there a).sent
      ≡ a.sent
        ++ (there, response id (text (env.encrypt password (shown_to env name password a)))) ∷ []
unfolding on_message answer send text_eq
answered env id name password there a z h g d = rw (z, g, d) (simp h)

received :
    (env : Env) (id cb : ℕ) (password t here : Bytes) (d : Discovery) (b : Service) (host : Bytes)
    → (id == 0) ≡ false
    → password_of id b.passwords ≡ some password
    → callback_of id b.callbacks ≡ some cb
    → env.decrypt password t ≡ some d
    → d.host ≡ some host
    → (on_message env (reply id t) here b).called ≡ b.called ++ (cb, d, here) ∷ []
unfolding on_message handle_result opened
received env id cb password t here d b host z p c e o = simp (z, p, e, o, c)

-- A service `b` that asks with a password, and a service `a` that knows the password of this hash, the
-- cipher being one that gives back the text of what it encrypted: `b` sends the hash, `a` answers with
-- the encryption of its services of the name that are open to the password, and the answer calls the
-- callback of `b` with the texts of just these, which have no passwords, and the address of `a`.
pub exchange :
    (env : Env) (name : Option Bytes) (password : Bytes) (cb : ℕ) (here there : Bytes)
    (a b : Service)
    → IsHash env
    → no_colon_in name ≡ true
    → AllKeyed env a.services
    → AllNamed a.services
    → a.has_socket ≡ true
    → b.has_socket ≡ true
    → get_entry (env.hash password) a.hash_passwords ≡ some password
    → callback_of (b.id + 1) b.callbacks ≡ none
    → is_kept (b.id + 1) b.passwords ≡ false
    → env.decrypt password (env.encrypt password (shown_to env name password a))
      ≡ some (bare (shown_to env name password a))
    → let id = b.id + 1 in
      let d = shown_to env name password a in
      let asked = (discover env name (some password) (some cb) b).0 in
      (asked.sent ≡ b.sent ++ (env.group, request id name (some (env.hash password))) ∷ [])
      × ((on_message env (question id name (some (env.hash password))) there a).sent
          ≡ a.sent ++ (there, response id (text (env.encrypt password d))) ∷ [])
      × ((on_message env (reply id (env.encrypt password d)) here asked).called
          ≡ b.called ++ (cb, bare d, here) ∷ [])
unfolding discover send
exchange env name password cb here there a b h n k m sa sb g c p e =
    let id = b.id + 1 in
    let d = shown_to env name password a in
    let asked : Service = record b {
      id = id;
      passwords = b.passwords ++ (id, some password) ∷ [];
      callbacks = b.callbacks ++ (id, cb) ∷ [];
      sent = b.sent ++ (env.group, request id name (some (env.hash password))) ∷ [];
    } in
    let asks : (discover env name (some password) (some cb) b).0 ≡ asked = simp sb in
    (
      ap (λ s. s.sent) asks,
      answered env id name password there a (suc_nonzero b.id) sa g
          (get_services-wanted env name (some password) a.services h n k m),
      ap (λ s. (on_message env (reply id (env.encrypt password d)) here s).called) asks
          ∙ received env id cb password (env.encrypt password d) here (bare d) asked
              (or_host a.hostname env.os_hostname) (suc_nonzero b.id)
              (password_of-added id (some password) b.passwords p)
              (callback_of-added id cb b.callbacks c) e refl,
    )
