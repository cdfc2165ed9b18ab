-- ===== src/Jsdp/Timeouts.antt =====
-- The numbers of discoveries, and a discovery that has timed out.
use libnode.Base.{
  ℕ, ◌+◌, ◌-◌, ◌≤◌, ◌<◌, ◌≡◌, refl, ap, ◌∙◌, Bool, true, false, Option, none, some, List, [], ◌∷◌,
  ◌++◌, is_some, arith, if◌then◌else◌, ◌==◌, Bool-cases, ◌⊎◌, inl, inr,
}
use libnode.Net.Socket.State.{Bytes}
use libnode.Http.Message.Head.{get_entry}
use libnode.Jsdp.State.{Discovery, Value, Packet, request, Message, Env, Service, new_service}
use libnode.Jsdp.Keys.{hash_of}
use libnode.Jsdp.Ops.{
  put_service, own_entry, join, leave, stop, on_error, start, on_bind, set_hostname, send, discover,
  discovery, answer_secretly, answer, callback_of, password_of, opened, call_shown, handle_result,
  is_method, on_result, on_request, on_message, remove_id, on_timeout,
}
use libnode.Jsdp.Runs.{
  Step, starts, stops, fails, is_bound, names, joins, leaves, discovers, receives, times_out, Run,
  begins, steps,
}
use libnode.Jsdp.Same.{
  Same, if-Same, put_service-Same, send-Same, stop-Same, on_request-Same, start-Same, join-Same,
  leave-Same,
}

-- How often a number stands among the entries.
abbrev pub count {ℓ} : {A : Type ℓ} → ℕ → List (ℕ × A) → ℕ
count id [] = 0
count id ((i, a) ∷ as_) = if i == id then 1 + count id as_ else count id as_

count-append {ℓ} :
    {A : Type ℓ} (id : ℕ) (xs ys : List (ℕ × A)) → count id (xs ++ ys) ≡ count id xs + count id ys
count-append id [] ys = omega arith
count-append id ((i, a) ∷ xs) ys = ground (arith, count-append id xs ys)

count-remove_id {ℓ} :
    {A : Type ℓ} (id : ℕ) (xs : List (ℕ × A)) → count id (remove_id id xs) ≡ count id xs - 1
unfolding remove_id
count-remove_id id [] = omega arith
count-remove_id id ((i, a) ∷ xs) = ground (arith, count-remove_id id xs)

count-remove_other {ℓ} :
    {A : Type ℓ} (id j : ℕ) (xs : List (ℕ × A)) → count j (remove_id id xs) ≤ count j xs
unfolding remove_id
count-remove_other id j [] = omega arith
count-remove_other id j ((i, a) ∷ xs) = ground (arith, count-remove_other id j xs)

callback_of-none : (id : ℕ) (cs : List (ℕ × ℕ)) → count id cs ≡ 0 → callback_of id cs ≡ none
unfolding callback_of
callback_of-none id [] h = refl
callback_of-none id ((i, cb) ∷ cs) h = elim (Bool-cases (i == id)) [
  | inl e ↦ absurd (ground (arith, e, h))
  | inr e ↦ rw e (callback_of-none id cs (ground (arith, e, h)))
]

-- A number is used once, and none above the last one.
pub record IsCounted (s : Service) : Type 0 where
  pub once : (i : ℕ) → count i s.callbacks ≤ 1
  pub unused : (i : ℕ) → s.id < i → count i s.callbacks ≡ 0

-- A step uses the next number once, or no number that was not used.
abbrev Counts : Service → Service → Type 0
Counts s t =
    (((i : ℕ) → count i t.callbacks ≤ count i s.callbacks + (if s.id + 1 == i then 1 else 0))
      × (t.id ≡ s.id + 1))
    ⊎ (((i : ℕ) → count i t.callbacks ≤ count i s.callbacks) × (t.id ≡ s.id))

Same-Counts : (s t : Service) → Same s t → Counts s t
Same-Counts s t (c, e) = inr ((λ i. omega (arith, ap (count i) c)), e)

send_asked-Counts :
    (s asked : Service) (address : Bytes) (p : Packet)
    → Counts s asked
    → Counts s (send address p asked)
send_asked-Counts s asked address p k = let (c, e) = send-Same address p asked in rw (c, e) k

discover-Counts :
    (env : Env) (name password : Option Bytes) (cb : Option ℕ) (s : Service)
    → Counts s (discover env name password cb s).0
unfolding discover
discover-Counts env name password none s = Same-Counts s s (refl, refl)
discover-Counts env name password (some cb) s = asked_if s.has_socket
  where
    asked : Service
    asked = record s {
      id = s.id + 1;
      passwords = s.passwords ++ (s.id + 1, password) ∷ [];
      callbacks = s.callbacks ++ (s.id + 1, cb) ∷ [];
    }

    asked_if :
        (b : Bool)
        → Counts s
            (if◌then◌else◌ {A = Service × Bool} b
              (send env.group (request (s.id + 1) name (hash_of env password)) asked, true)
              (s, false)).0
    asked_if true =
        send_asked-Counts s asked env.group _
          (inl ((λ i. ground (arith, count-append i s.callbacks ((s.id + 1, cb) ∷ []))), refl))
    asked_if false = Same-Counts s s (refl, refl)

Step-Counts : {env : Env} {s t : Service} → Step env s t → Counts s t
unfolding on_error on_bind set_hostname on_timeout on_message
Step-Counts {env} (starts {s}) = Same-Counts s (start env s).0 (start-Same env s)
Step-Counts (stops {s}) = Same-Counts s (stop s).0 (stop-Same s)
Step-Counts (fails {s}) = Same-Counts s (stop s).0 (stop-Same s)
Step-Counts {env} (is_bound {s} b) =
    Same-Counts s (put_service env own_entry s) (put_service-Same env own_entry s)
Step-Counts (names {s} name) = Same-Counts s (record s { hostname = name }) (refl, refl)
Step-Counts {env} (joins {s} e) = Same-Counts s (join env e s).0 (join-Same env e s)
Step-Counts {env} (leaves {s} e) = Same-Counts s (leave env e s).0 (leave-Same env e s)
Step-Counts {env} (discovers {s} name password cb) = discover-Counts env name password cb s
Step-Counts {env} (receives {s} m address) =
    Same-Counts s (if m.id == 0 then s else on_request env m m.params address s)
      (if-Same s (m.id == 0) s _ (refl, refl) (on_request-Same env m m.params address s))
Step-Counts (times_out {s} id) = inr ((λ i. count-remove_other id i s.callbacks), refl)

counted : (s t : Service) → Counts s t → IsCounted s → IsCounted t
counted s t (inl (c, e)) k = record {
  once = λ i. ground (arith, c i, k.once i, k.unused i);
  unused = λ i h. ground (arith, c i, k.unused i, e, h);
}
counted s t (inr (c, e)) k = record {
  once = λ i. omega (arith, c i, k.once i);
  unused = λ i h. omega (arith, c i, k.unused i (omega (arith, e, h)));
}

Run-IsCounted : {env : Env} {t : Service} → Run env new_service t → IsCounted t
unfolding new_service
Run-IsCounted begins = record { once = λ i. omega arith; unused = λ i h. refl }
Run-IsCounted (steps {t} {u} r st) = counted t u (Step-Counts st) (Run-IsCounted r)

-- A number that was used and has no callback.
abbrev IsGone : ℕ → Service → Type 0
IsGone id s = (id ≤ s.id) × (count id s.callbacks ≡ 0)

gone : (id : ℕ) (s t : Service) → Counts s t → IsGone id s → IsGone id t
gone id s t (inl (c, e)) (le, z) = (omega (arith, le, e), ground (arith, c id, e, le, z))
gone id s t (inr (c, e)) (le, z) = (omega (arith, le, e), omega (arith, c id, z))

Run-IsGone : (id : ℕ) {env : Env} {s t : Service} → IsGone id s → Run env s t → IsGone id t
Run-IsGone id g begins = g
Run-IsGone id g (steps {t} {u} r st) = gone id t u (Step-Counts st) (Run-IsGone id g r)

-- A message whose number has no callback calls nothing.
send-called : (address : Bytes) (p : Packet) (s : Service) → (send address p s).called ≡ s.called
unfolding send
send-called address p s = elim (Bool-cases s.has_socket) [ inl e ↦ simp e | inr e ↦ simp e ]

answer-called :
    (env : Env) (id : ℕ) (name hash : Option Bytes) (address : Bytes) (s : Service)
    → (answer env id name hash address s).called ≡ s.called
unfolding answer
answer-called env id name none address s = send-called address _ s
answer-called env id name (some hash) address s = told (get_entry hash s.hash_passwords)
  where
    told :
        (password : Option Bytes)
        → (answer_secretly env id password (discovery env name (some hash) s) address s).called
          ≡ s.called
    told none = refl
    told (some password) = send-called address _ s

call_shown-called :
    (r : Option Discovery) (id : ℕ) (address : Bytes) (s : Service)
    → callback_of id s.callbacks ≡ none
    → (call_shown r id address s).called ≡ s.called
call_shown-called none id address s n = refl
call_shown-called (some r) id address s n = rw n (told (is_some r.host))
  where
    told : (b : Bool) → (if b then s else s).called ≡ s.called
    told true = refl
    told false = refl

on_result-called :
    (env : Env) (v : Option Value) (id : ℕ) (address : Bytes) (s : Service)
    → callback_of id s.callbacks ≡ none
    → (on_result env v id address s).called ≡ s.called
unfolding handle_result
on_result-called env none id address s n = refl
on_result-called env (some v) id address s n =
    call_shown-called (opened env (password_of id s.passwords) v) id address s n

if-called :
    (s : Service) (b : Bool) (x y : Service)
    → x.called ≡ s.called
    → y.called ≡ s.called
    → (if b then x else y).called ≡ s.called
if-called s true x y p q = p
if-called s false x y p q = q

on_request-called :
    (env : Env) (m : Message) (params : Option (Option Bytes × Option Bytes)) (address : Bytes)
    (s : Service)
    → callback_of m.id s.callbacks ≡ none
    → (on_request env m params address s).called ≡ s.called
on_request-called env m none address s n = on_result-called env m.result m.id address s n
on_request-called env m (some (name, hash)) address s n =
    if-called s (is_some m.method) _ _
      (if-called s (is_method m.method) (answer env m.id name hash address s) s
        (answer-called env m.id name hash address s) refl)
      (on_result-called env m.result m.id address s n)

-- In every run of a new service: once a discovery that was made has timed out, no message with its
-- number calls anything, whatever happens in between.
pub timed_out-called :
    (env : Env) (id : ℕ) (m : Message) (address : Bytes) {s t : Service}
    → Run env new_service s
    → id ≤ s.id
    → Run env (on_timeout id s) t
    → m.id ≡ id
    → (on_message env m address t).called ≡ t.called
unfolding on_timeout on_message
timed_out-called env id m address {s} {t} before le after e =
    let once = (Run-IsCounted before).once id in
    let none_left = count-remove_id id s.callbacks in
    let (le', z) = Run-IsGone id {s = on_timeout id s} (le, omega (arith, once, none_left)) after in
    if-called t (m.id == 0) t (on_request env m m.params address t) refl (
      on_request-called env m m.params address t
        (callback_of-none m.id t.callbacks (ap (λ i. count i t.callbacks) e ∙ z)))
