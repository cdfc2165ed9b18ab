-- ===== src/Jsonrpc/Counting.antt =====
-- How many responses a message has, and what its handling adds to them.
use libnode.Base.{
  ℕ, ◌+◌, ◌≤◌, ◌≡◌, refl, ap, Bool, true, false, not, Option, none, some, List, [], ◌∷◌, ◌++◌,
  arith, if◌then◌else◌, ◌==◌,
}
use libnode.Net.Socket.State.{Bytes}
use libnode.Jsonrpc.State.{
  Field, Request, Parsed, failed, no_object, an_object, Method, Version, Outcome, Responder, Env,
  Service,
}
use libnode.Jsonrpc.Request.{
  emit10, emit20, respond_all, call_method, notify, is_undefined, is_null, same_length, notify10,
  call10, checked10, jsonrpc10, check_id20, check_params20, notify20_with, notify20, call20_with,
  call20, checked20, jsonrpc20, is_version20, on_parsed,
}
use libnode.Jsonrpc.Responses.{
  all_to_come, total, one_if, to_come-append, Emits, emit10-Emits, emit20-Emits, respond_all-Moves,
}

-- What the handling of a message adds: at most one response to it, now or later.
abbrev pub Adds : ℕ → Service → Service → Type 0
Adds tag s s' = ((t : ℕ) → total t s' ≤ total t s + one_if (tag == t)) × (s'.next ≡ s.next)

Emits-Adds : (tag : ℕ) (s s' : Service) → Emits tag s s' → Adds tag s s'
Emits-Adds tag s s' (ev, rs, nx) = ((λ t. omega (arith, ev t, ap (all_to_come t) rs)), nx)

Adds-none : (tag : ℕ) (s : Service) → Adds tag s s
Adds-none tag s = ((λ t. omega arith), refl)

call_method-Adds :
    (env : Env) (tag : ℕ) (v : Version) (id : Field) (cb : Option ℕ) (m : Method)
    (args : List (Option ℕ)) (s : Service)
    → Adds tag s (call_method env tag v id cb m args s)
unfolding call_method
call_method-Adds env tag v id cb m args s =
    let r : Responder = record {
      tag = tag;
      version = v;
      id = id;
      callback = cb;
      emitted = false;
    } in
    let s' = record s { invoked = s.invoked ++ (m.function, args) ∷ [] } in
    let done = respond_all (env.body m.function args) r s' in
    let (ev, rs, nx) = respond_all-Moves (env.body m.function args) r s' in
    (
      (λ t.
          omega
            (arith, ev t, ap (all_to_come t) rs, to_come-append t done.0.responders (done.1 ∷ []))),
      nx,
    )

notify-Adds :
    (tag : ℕ) (cb : Option ℕ) (m : Method) (args : List (Option ℕ)) (s : Service)
    → Adds tag s (notify cb m args s)
unfolding notify
notify-Adds tag none m args s = ((λ t. omega arith), refl)
notify-Adds tag (some cb) m args s = ((λ t. omega arith), refl)

either-Adds :
    (b : Bool) (tag : ℕ) (s x y : Service)
    → Adds tag s x
    → Adds tag s y
    → Adds tag s (if b then x else y)
either-Adds true tag s x y p q = p
either-Adds false tag s x y p q = q

module _ (env : Env) (tag : ℕ) (cb : Option ℕ) where
  error10-Adds : (o : Outcome) (id : Field) (s : Service) → Adds tag s (emit10 tag o id cb s)
  error10-Adds o id s = Emits-Adds tag s (emit10 tag o id cb s) (emit10-Emits tag o id cb s)

  error20-Adds : (o : Outcome) (id : Field) (s : Service) → Adds tag s (emit20 tag o id cb s)
  error20-Adds o id s = Emits-Adds tag s (emit20 tag o id cb s) (emit20-Emits tag o id cb s)

  notify10-Adds : (m : Option Method) (vs : List ℕ) (s : Service) → Adds tag s (notify10 m vs cb s)
  notify10-Adds none vs s = Adds-none tag s
  notify10-Adds (some m) vs s =
      either-Adds (same_length vs m.parameters) tag s _ s (notify-Adds tag cb m _ s)
        (Adds-none tag s)

  call10-Adds :
      (m : Option Method) (vs : List ℕ) (id : Field) (s : Service)
      → Adds tag s (call10 env tag m vs id cb s)
  call10-Adds none vs id s = error10-Adds _ id s
  call10-Adds (some m) vs id s =
      either-Adds (same_length vs m.parameters) tag s _ _ (call_method-Adds env tag _ id cb m _ s)
        (error10-Adds _ id s)

  checked10-Adds :
      (name : Option Bytes) (params : Option (List ℕ)) (id : Field) (s : Service)
      → Adds tag s (checked10 env tag name params id cb s)
  checked10-Adds none params id s = error10-Adds _ id s
  checked10-Adds (some name) none id s = error10-Adds _ id s
  checked10-Adds (some name) (some vs) id s =
      either-Adds (is_null id) tag s _ _ (notify10-Adds _ vs s) (call10-Adds _ vs id s)

  jsonrpc10-Adds : (req : Request) (s : Service) → Adds tag s (jsonrpc10 env tag req cb s)
  unfolding jsonrpc10
  jsonrpc10-Adds req s =
      either-Adds (is_undefined req.id) tag s _ _ (error10-Adds _ _ s) (checked10-Adds _ _ req.id s)

  notify20_with-Adds :
      (args : Option (List (Option ℕ))) (m : Method) (s : Service)
      → Adds tag s (notify20_with args m cb s)
  notify20_with-Adds none m s = Adds-none tag s
  notify20_with-Adds (some args) m s = notify-Adds tag cb m args s

  notify20-Adds :
      (m : Option Method) (params : Field) (s : Service) → Adds tag s (notify20 m params cb s)
  notify20-Adds none params s = Adds-none tag s
  notify20-Adds (some m) params s = notify20_with-Adds _ m s

  call20_with-Adds :
      (args : Option (List (Option ℕ))) (m : Method) (id : Field) (s : Service)
      → Adds tag s (call20_with env tag args m id cb s)
  call20_with-Adds none m id s = error20-Adds _ id s
  call20_with-Adds (some args) m id s = call_method-Adds env tag _ id cb m args s

  call20-Adds :
      (m : Option Method) (params id : Field) (s : Service)
      → Adds tag s (call20 env tag m params id cb s)
  call20-Adds none params id s = error20-Adds _ id s
  call20-Adds (some m) params id s = call20_with-Adds _ m id s

  checked20-Adds :
      (name : Option Bytes) (params id : Field) (s : Service)
      → Adds tag s (checked20 env tag name params id cb s)
  checked20-Adds none params id s = error20-Adds _ id s
  checked20-Adds (some name) params id s =
      either-Adds (not (check_params20 params)) tag s _ _ (error20-Adds _ id s) (
        either-Adds (is_undefined id) tag s _ _ (notify20-Adds _ params s)
          (call20-Adds _ params id s))

  jsonrpc20-Adds : (req : Request) (s : Service) → Adds tag s (jsonrpc20 env tag req cb s)
  unfolding jsonrpc20
  jsonrpc20-Adds req s =
      either-Adds (not (check_id20 req.id)) tag s _ _ (error20-Adds _ _ s)
        (checked20-Adds _ req.params req.id s)

  pub on_parsed-Adds : (p : Parsed) (s : Service) → Adds tag s (on_parsed env tag p cb s)
  on_parsed-Adds failed s = error20-Adds _ _ s
  on_parsed-Adds no_object s = error20-Adds _ _ s
  on_parsed-Adds (an_object req) s =
      either-Adds (is_version20 req.jsonrpc) tag s _ _ (jsonrpc20-Adds req s) (jsonrpc10-Adds req s)
