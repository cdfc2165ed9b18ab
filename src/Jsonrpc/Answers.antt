-- ===== src/Jsonrpc/Answers.antt =====
-- What the handling of a request of version 2.0 emits.
use libnode.Base.{
  ℕ, ◌+◌, ◌≡◌, refl, sym, ap, ◌∙◌, ◌⊎◌, inl, inr, Bool, true, false, not, Option, none, some, List,
  [], ◌∷◌, ◌++◌, append-nil, if◌then◌else◌,
}
use libnode.Net.Socket.State.{Bytes}
use libnode.Jsonrpc.State.{
  Field, undefined, null, long, double, string, array, object, other, Request, an_object, Method,
  Code, invalid_request, version20, Outcome, result, error, Response, Responder, Message, Env,
  Service,
}
use libnode.Jsonrpc.Request.{
  emit_response, shown_id, emit20, respond, respond_all, call_method, notify, get_method, string_of,
  is_undefined, check_id20, check_params20, to_arguments20, notify20_with, notify20, call20_with,
  call20, checked20, jsonrpc20, is_version20, on_message,
}

abbrev pub response20 : Field → Outcome → Response
response20 id o = record { version = version20; id = id; outcome = o }

abbrev pub calls_of : Option ℕ → Response → List (ℕ × Option Response)
calls_of none r = []
calls_of (some cb) r = (cb, some r) ∷ []

-- One response was emitted, and given to the callback.
abbrev pub Responds : ℕ → Field → Option ℕ → Outcome → Service → Service → Type 0
Responds tag id cb o s s' =
    (s'.events ≡ s.events ++ (tag, response20 id o) ∷ [])
    × (s'.called ≡ s.called ++ calls_of cb (response20 id o))
    × (s'.responders ≡ s.responders)

abbrev pub waiting_responder : ℕ → Field → Option ℕ → Responder
waiting_responder tag id cb = record {
  tag = tag;
  version = version20;
  id = id;
  callback = cb;
  emitted = false;
}

-- A request was answered with one response, or it waits for the responder that its method has.
abbrev pub Answered : ℕ → Field → Option ℕ → Service → Service → Type 0
Answered tag id cb s s' =
    ((o : Outcome) × (s'.events ≡ s.events ++ (tag, response20 id o) ∷ [])
      × (s'.called ≡ s.called ++ calls_of cb (response20 id o)))
    ⊎ ((s'.events ≡ s.events)
        × (s'.called ≡ s.called)
        × (s'.responders ≡ s.responders ++ waiting_responder tag id cb ∷ []))

shown_id-defined : (id : Field) → is_undefined id ≡ false → shown_id id ≡ id
shown_id-defined undefined h = cc
shown_id-defined null h = refl
shown_id-defined (long n) h = refl
shown_id-defined (double n) h = refl
shown_id-defined (string t) h = refl
shown_id-defined (array vs) h = refl
shown_id-defined (object vs) h = refl
shown_id-defined (other b) h = refl

emit_response-Responds :
    (tag : ℕ) (id : Field) (o : Outcome) (cb : Option ℕ) (s : Service)
    → Responds tag id cb o s (emit_response tag (response20 id o) cb s)
emit_response-Responds tag id o none s = (refl, sym (append-nil s.called), refl)
emit_response-Responds tag id o (some cb) s = (refl, refl, refl)

pub emit20-Responds :
    (tag : ℕ) (o : Outcome) (id : Field) (cb : Option ℕ) (s : Service)
    → is_undefined id ≡ false
    → Responds tag id cb o s (emit20 tag o id cb s)
unfolding emit20
emit20-Responds tag (result v) id cb s h = emit_response-Responds tag id (result v) cb s
emit20-Responds tag (error c) id cb s h =
    rw (shown_id-defined id h) (emit_response-Responds tag id (error c) cb s)

error20-Answered :
    (tag : ℕ) (c : Code) (id : Field) (cb : Option ℕ) (s : Service)
    → is_undefined id ≡ false
    → Answered tag id cb s (emit20 tag (error c) id cb s)
error20-Answered tag c id cb s h =
    let (e, k, r) = emit20-Responds tag (error c) id cb s h in inl (error c, e, k)

-- A responder that has emitted emits nothing more.
respond_all-emitted :
    (os : List Outcome) (r : Responder) (s : Service)
    → r.emitted ≡ true
    → respond_all os r s ≡ (s, r)
unfolding respond_all respond
respond_all-emitted [] r s e = refl
respond_all-emitted (o ∷ os) r s e = simp e (respond_all-emitted os r s e)

respond_first :
    (o : Outcome) (os : List Outcome) (tag : ℕ) (id : Field) (cb : Option ℕ) (s : Service)
    → (respond_all (o ∷ os) (waiting_responder tag id cb) s).0 ≡ emit20 tag o id cb s
unfolding respond_all respond
respond_first o os tag id cb s =
    ap (λ x. x.0)
      (respond_all-emitted os (record (waiting_responder tag id cb) { emitted = true })
        (emit20 tag o id cb s) refl)

call_method-Answered :
    (env : Env) (tag : ℕ) (id : Field) (cb : Option ℕ) (m : Method) (args : List (Option ℕ))
    (s : Service)
    → is_undefined id ≡ false
    → Answered tag id cb s (call_method env tag version20 id cb m args s)
unfolding call_method respond_all
call_method-Answered env tag id cb m args s h = told (env.body m.function args)
  where
    s' : Service
    s' = record s { invoked = s.invoked ++ (m.function, args) ∷ [] }

    done : List Outcome → Service × Responder
    done os = respond_all os (waiting_responder tag id cb) s'

    told :
        (os : List Outcome)
        → Answered tag id cb s
            (record (done os).0 { responders = (done os).0.responders ++ (done os).1 ∷ [] })
    told [] = inr (refl, refl, refl)
    told (o ∷ os) =
        let first = respond_first o os tag id cb s' in
        let (e, c, r) = emit20-Responds tag o id cb s' h in
        inl (o, ap (λ x. x.events) first ∙ e, ap (λ x. x.called) first ∙ c)

module _ (env : Env) (tag : ℕ) (id : Field) (cb : Option ℕ)
    (defined : is_undefined id ≡ false) where
  call20_with-Answered :
      (args : Option (List (Option ℕ))) (m : Method) (s : Service)
      → Answered tag id cb s (call20_with env tag args m id cb s)
  call20_with-Answered none m s = error20-Answered tag _ id cb s defined
  call20_with-Answered (some args) m s = call_method-Answered env tag id cb m args s defined

  call20-Answered :
      (m : Option Method) (params : Field) (s : Service)
      → Answered tag id cb s (call20 env tag m params id cb s)
  call20-Answered none params s = error20-Answered tag _ id cb s defined
  call20-Answered (some m) params s = call20_with-Answered _ m s

  checked20-Answered :
      (name : Option Bytes) (params : Field) (s : Service)
      → Answered tag id cb s (checked20 env tag name params id cb s)
  checked20-Answered none params s = error20-Answered tag _ id cb s defined
  checked20-Answered (some name) params s = checked (check_params20 params)
    where
      checked :
          (b : Bool)
          → Answered tag id cb s (
              if not b
              then emit20 tag (error invalid_request) id cb s
              else if is_undefined id
              then notify20 (get_method name s.methods) params cb s
              else call20 env tag (get_method name s.methods) params id cb s)
      checked false = error20-Answered tag _ id cb s defined
      checked true = rw defined (call20-Answered (get_method name s.methods) params s)

-- A call of version 2.0 with a valid id, whatever is right or wrong with the rest of it, is handled
-- with one response that has its id, which its callback gets too; or its method said nothing before
-- it returned, and a responder with its id waits.
pub on_message-Answered :
    (env : Env) (m : Message) (req : Request) (s : Service)
    → env.parse m.json ≡ an_object req
    → is_version20 req.jsonrpc ≡ true
    → check_id20 req.id ≡ true
    → is_undefined req.id ≡ false
    → Answered s.next req.id m.callback s (on_message env m s)
unfolding on_message jsonrpc20
on_message-Answered env m req s p v c d =
    rw (p, v, c)
      (checked20-Answered env s.next req.id m.callback d (string_of req.method) req.params
        (record s { next = s.next + 1 }))

abbrev is_string : Option Bytes → Bool
is_string none = false
is_string (some t) = true

-- What a notification may change.
abbrev pub IsSilent : Service → Service → Type 0
IsSilent s s' =
    (s'.events ≡ s.events)
    × (s'.responders ≡ s.responders)
    × ((s'.invoked ≡ s.invoked)
        ⊎ ((f : ℕ) × (args : List (Option ℕ)) × (s'.invoked ≡ s.invoked ++ (f, args) ∷ [])))

notify-IsSilent :
    (cb : Option ℕ) (m : Method) (args : List (Option ℕ)) (s : Service)
    → IsSilent s (notify cb m args s)
unfolding notify
notify-IsSilent none m args s = (refl, refl, inr (m.function, args, refl))
notify-IsSilent (some cb) m args s = (refl, refl, inr (m.function, args, refl))

notify20-IsSilent :
    (m : Option Method) (params : Field) (cb : Option ℕ) (s : Service)
    → IsSilent s (notify20 m params cb s)
notify20-IsSilent none params cb s = (refl, refl, inl refl)
notify20-IsSilent (some m) params cb s = told (to_arguments20 m.parameters params)
  where
    told : (args : Option (List (Option ℕ))) → IsSilent s (notify20_with args m cb s)
    told none = (refl, refl, inl refl)
    told (some args) = notify-IsSilent cb m args s

-- A notification of version 2.0, which has no id, whose method is a text, and whose params are absent,
-- an array or an object, has no response and no responder, whatever method it names and whatever is
-- in its params; at most one function is called.
pub on_message-IsSilent :
    (env : Env) (m : Message) (req : Request) (name : Bytes) (s : Service)
    → env.parse m.json ≡ an_object req
    → is_version20 req.jsonrpc ≡ true
    → req.id ≡ undefined
    → req.method ≡ string name
    → check_params20 req.params ≡ true
    → IsSilent s (on_message env m s)
unfolding on_message jsonrpc20 check_id20
on_message-IsSilent env m req name s p v u n c =
    rw (p, v, u, n, c)
      (notify20-IsSilent (get_method name s.methods) req.params m.callback
        (record s { next = s.next + 1 }))
