-- ===== src/Jsonrpc/Request.antt =====
-- OnMessage of jsonrpc::Service: a request is checked, its method called, and its response emitted.
-- What the listeners of a response do comes later, but for what respond_while is given.
use libnode.Base.{
  ℕ, zero, suc, ◌+◌, Bool, true, false, not, Option, none, some, List, [], ◌∷◌, ◌++◌, codes, length,
  if◌then◌else◌, ◌==◌, map, ◌>>=◌,
}
use libnode.Net.Socket.State.{Bytes}
use libnode.Http.Message.Head.{text_eq}
use libnode.Jsonrpc.State.{
  Field, undefined, null, long, double, string, array, object, other, Request, Parsed, failed,
  no_object, an_object, Method, parse_error, invalid_request, method_not_found, invalid_params,
  Version, version10, version20, Outcome, result, error, Response, Responder, Message, Env, Service,
}

abbrev pub add_call : Option ℕ → Option Response → Service → Service
add_call none r s = s
add_call (some cb) r s = record s { called = s.called ++ (cb, r) ∷ [] }

-- emit(EVENT_RESPONSE, res) and invoke(cb, res).
abbrev pub emit_response : ℕ → Response → Option ℕ → Service → Service
emit_response tag r cb s = add_call cb (some r) (record s { events = s.events ++ (tag, r) ∷ [] })

-- The id of an error of version 2.0.
abbrev pub shown_id : Field → Field
shown_id undefined = null
shown_id null = null
shown_id (long n) = long n
shown_id (double n) = double n
shown_id (string t) = string t
shown_id (array vs) = array vs
shown_id (object vs) = object vs
shown_id (other b) = other b

-- emitResult10() and emitError10().
unfoldable pub emit10 : ℕ → Outcome → Field → Option ℕ → Service → Service
emit10 tag o id cb s = emit_response tag (record { version = version10; id = id; outcome = o }) cb s

-- emitResult20() and emitError20().
unfoldable pub emit20 : ℕ → Outcome → Field → Option ℕ → Service → Service
emit20 tag (result v) id cb s =
    emit_response tag (record { version = version20; id = id; outcome = result v }) cb s
emit20 tag (error c) id cb s =
    emit_response tag (record { version = version20; id = shown_id id; outcome = error c }) cb s

abbrev pub emit_as : Version → ℕ → Outcome → Field → Option ℕ → Service → Service
emit_as version10 = emit10
emit_as version20 = emit20

-- The emissions that a responder makes while its flag is not set.
abbrev pub emit_each : List Outcome → Responder → Service → Service
emit_each [] r s = s
emit_each (o ∷ os) r s = emit_each os r (emit_as r.version r.tag o r.id r.callback s)

-- result() and error() of Respond10 and Respond20, where `again` is what the listeners and the
-- callback of the response tell the same responder: emitted_ is set when the emission is over, so
-- that they pass its test too. Their responses are counted behind the first one.
unfoldable pub respond_while : List Outcome → Outcome → Responder → Service → Service × Responder
respond_while again o r s = if r.emitted then (s, r) else (
  emit_each again r (emit_as r.version r.tag o r.id r.callback s),
  record r { emitted = true },
)

-- result() and error() when the listeners and the callback of the response leave the responder alone.
unfoldable pub respond : Outcome → Responder → Service → Service × Responder
unfolding respond_while
respond o r s = respond_while [] o r s

-- What a method tells its responder.
unfoldable pub respond_all : List Outcome → Responder → Service → Service × Responder
respond_all [] r s = (s, r)
respond_all (o ∷ os) r s = let (s', r') = respond o r s in respond_all os r' s'

-- The call of the function of a method, with a new responder.
unfoldable pub call_method :
    Env → ℕ → Version → Field → Option ℕ → Method → List (Option ℕ) → Service → Service
call_method env tag version id cb m args s =
    let r : Responder = record {
      tag = tag;
      version = version;
      id = id;
      callback = cb;
      emitted = false;
    } in
    let s' = record s { invoked = s.invoked ++ (m.function, args) ∷ [] } in
    let (s'', r') = respond_all (env.body m.function args) r s' in
    record s'' { responders = s''.responders ++ r' ∷ [] }

-- The call of the function of a method with NotRespond, which emits nothing.
unfoldable pub notify : Option ℕ → Method → List (Option ℕ) → Service → Service
notify cb m args s = add_call cb none (record s { invoked = s.invoked ++ (m.function, args) ∷ [] })

unfoldable pub get_method : Bytes → List (Bytes × Method) → Option Method
get_method name [] = none
get_method name ((k, m) ∷ ms) = if text_eq k name then some m else get_method name ms

abbrev pub string_of : Field → Option Bytes
string_of (string t) = some t
string_of f = none

abbrev pub array_of : Field → Option (List ℕ)
array_of (array vs) = some vs
array_of f = none

abbrev pub is_undefined : Field → Bool
is_undefined undefined = true
is_undefined f = false

abbrev pub is_null : Field → Bool
is_null null = true
is_null f = false

abbrev pub same_length : List ℕ → List Bytes → Bool
same_length vs names = length vs == length names

abbrev pub notify10 : Option Method → List ℕ → Option ℕ → Service → Service
notify10 none vs cb s = s
notify10 (some m) vs cb s = if same_length vs m.parameters then notify cb m (map some vs) s else s

abbrev pub call10 : Env → ℕ → Option Method → List ℕ → Field → Option ℕ → Service → Service
call10 env tag none vs id cb s = emit10 tag (error method_not_found) id cb s
call10 env tag (some m) vs id cb s =
    if same_length vs m.parameters
    then call_method env tag version10 id cb m (map some vs) s
    else emit10 tag (error invalid_params) id cb s

abbrev pub checked10 :
    Env → ℕ → Option Bytes → Option (List ℕ) → Field → Option ℕ → Service → Service
checked10 env tag (some name) (some vs) id cb s =
    if is_null id
    then notify10 (get_method name s.methods) vs cb s
    else call10 env tag (get_method name s.methods) vs id cb s
checked10 env tag name params id cb s = emit10 tag (error invalid_request) id cb s

unfoldable pub jsonrpc10 : Env → ℕ → Request → Option ℕ → Service → Service
jsonrpc10 env tag req cb s =
    if is_undefined req.id
    then emit10 tag (error invalid_request) null cb s
    else checked10 env tag (string_of req.method) (array_of req.params) req.id cb s

unfoldable pub check_id20 : Field → Bool
check_id20 undefined = true
check_id20 null = true
check_id20 (long n) = true
check_id20 (double n) = true
check_id20 (string t) = true
check_id20 (array vs) = false
check_id20 (object vs) = false
check_id20 (other b) = false

unfoldable pub check_params20 : Field → Bool
check_params20 undefined = true
check_params20 (array vs) = true
check_params20 (object vs) = true
check_params20 null = false
check_params20 (long n) = false
check_params20 (double n) = false
check_params20 (string t) = false
check_params20 (other b) = false

abbrev pub next_index : Option ℕ → Option ℕ
next_index none = none
next_index (some i) = some (suc i)

unfoldable pub index_of : Bytes → List Bytes → Option ℕ
index_of key [] = none
index_of key (n ∷ ns) = if text_eq key n then some 0 else next_index (index_of key ns)

unfoldable pub set : ℕ → ℕ → List (Option ℕ) → List (Option ℕ)
set i v [] = []
set zero v (a ∷ args) = some v ∷ args
set (suc i) v (a ∷ args) = a ∷ set i v args

abbrev pub set_at : Option ℕ → ℕ → List (Option ℕ) → Option (List (Option ℕ))
set_at none v args = none
set_at (some i) v args = some (set i v args)

-- The loop over the entries of an object.
unfoldable pub set_named :
    List Bytes → List (Bytes × ℕ) → List (Option ℕ) → Option (List (Option ℕ))
set_named names [] args = some args
set_named names ((k, v) ∷ es) args =
    set_at (index_of k names) v args >>= λ args'. set_named names es args'

abbrev pub blanks : List Bytes → List (Option ℕ)
blanks [] = []
blanks (n ∷ ns) = none ∷ blanks ns

-- toArguments20(); `none` is null.
unfoldable pub to_arguments20 : List Bytes → Field → Option (List (Option ℕ))
to_arguments20 names undefined = if length names == 0 then some [] else none
to_arguments20 names (array vs) = if same_length vs names then some (map some vs) else none
to_arguments20 names (object es) =
    if length es == length names then set_named names es (blanks names) else none
to_arguments20 names null = none
to_arguments20 names (long n) = none
to_arguments20 names (double n) = none
to_arguments20 names (string t) = none
to_arguments20 names (other b) = none

abbrev pub notify20_with : Option (List (Option ℕ)) → Method → Option ℕ → Service → Service
notify20_with none m cb s = s
notify20_with (some args) m cb s = notify cb m args s

abbrev pub notify20 : Option Method → Field → Option ℕ → Service → Service
notify20 none params cb s = s
notify20 (some m) params cb s = notify20_with (to_arguments20 m.parameters params) m cb s

abbrev pub call20_with :
    Env → ℕ → Option (List (Option ℕ)) → Method → Field → Option ℕ → Service → Service
call20_with env tag none m id cb s = emit20 tag (error invalid_params) id cb s
call20_with env tag (some args) m id cb s = call_method env tag version20 id cb m args s

abbrev pub call20 : Env → ℕ → Option Method → Field → Field → Option ℕ → Service → Service
call20 env tag none params id cb s = emit20 tag (error method_not_found) id cb s
call20 env tag (some m) params id cb s =
    call20_with env tag (to_arguments20 m.parameters params) m id cb s

abbrev pub checked20 : Env → ℕ → Option Bytes → Field → Field → Option ℕ → Service → Service
checked20 env tag none params id cb s = emit20 tag (error invalid_request) id cb s
checked20 env tag (some name) params id cb s =
    if not (check_params20 params)
    then emit20 tag (error invalid_request) id cb s
    else if is_undefined id
    then notify20 (get_method name s.methods) params cb s
    else call20 env tag (get_method name s.methods) params id cb s

unfoldable pub jsonrpc20 : Env → ℕ → Request → Option ℕ → Service → Service
jsonrpc20 env tag req cb s =
    if not (check_id20 req.id)
    then emit20 tag (error invalid_request) null cb s
    else checked20 env tag (string_of req.method) req.params req.id cb s

abbrev pub is_version20 : Field → Bool
is_version20 (string t) = text_eq t (codes "2.0")
is_version20 f = false

abbrev pub on_parsed : Env → ℕ → Parsed → Option ℕ → Service → Service
on_parsed env tag failed cb s = emit20 tag (error parse_error) null cb s
on_parsed env tag no_object cb s = emit20 tag (error invalid_request) null cb s
on_parsed env tag (an_object req) cb s =
    if is_version20 req.jsonrpc then jsonrpc20 env tag req cb s else jsonrpc10 env tag req cb s

-- OnMessage.
unfoldable pub on_message : Env → Message → Service → Service
on_message env m s =
    on_parsed env s.next (env.parse m.json) m.callback (record s { next = s.next + 1 })
