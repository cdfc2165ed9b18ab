-- ===== src/Http/Incoming/Parser.antt =====
-- The callbacks of the parser (include/libnode/detail/http/parser.h). What http-parser reports is
-- their argument; `none` is an assertion that fails.
use libnode.Base.{
  ℕ, zero, suc, ◌+◌, Bool, true, false, not, ◌&&◌, ◌||◌, Option, none, some, List, [], ◌∷◌, ◌++◌,
  codes, length, if◌then◌else◌, ◌==◌, ◌>>=◌,
}
use libnode.Net.Socket.State.{Bytes}
use libnode.Http.HeaderScanner.{scan_header_field}
use libnode.Http.Incoming.State.{resume_call, Env, Incoming, create, set_new_socket}
use libnode.Http.Incoming.Stream.{receive}
use libnode.Http.Incoming.Lines.{add_header_lines}

-- The fields of Parser; `alloc` is what incomingMessageList()->alloc() gives.
pub record Parser : Type 0 where
  pub url : Option Bytes
  pub method : Option Bytes
  pub status_code : ℕ
  pub major_ver : ℕ
  pub minor_ver : ℕ
  pub fields : List Bytes
  pub values : List Bytes
  pub max_headers_count : ℕ
  pub socket : Option ℕ
  pub incoming : Option Incoming
  pub upgrade : Bool
  pub should_keep_alive : Bool

unfoldable pub new_parser : Option ℕ → ℕ → Parser
new_parser socket max = record {
  url = none;
  method = none;
  status_code = 0;
  major_ver = 0;
  minor_ver = 0;
  fields = [];
  values = [];
  max_headers_count = max;
  socket = socket;
  incoming = none;
  upgrade = false;
  should_keep_alive = false;
}

-- The methods of http-parser that onHeadersComplete() names, and the others.
pub data ParserMethod : Type 0 where
  delete get head post put connect options trace copy lock : ParserMethod
  mkcol move propfind proppatch search_method unlock other_method : ParserMethod

unfoldable pub method_name : ParserMethod → Bytes
method_name delete = codes "DELETE"
method_name get = codes "GET"
method_name head = codes "HEAD"
method_name post = codes "POST"
method_name put = codes "PUT"
method_name connect = codes "CONNECT"
method_name options = codes "OPTIONS"
method_name trace = codes "TRACE"
method_name copy = codes "COPY"
method_name lock = codes "LOCK"
method_name mkcol = codes "MKCOL"
method_name move = codes "MOVE"
method_name propfind = codes "PROPFIND"
method_name proppatch = codes "PROPPATCH"
method_name search_method = codes "SEARCH"
method_name unlock = codes "UNLOCK"
method_name other_method = []

-- The first line of a message.
pub data FirstLine : Type 0 where
  request : ParserMethod → FirstLine
  response : ℕ → FirstLine

-- What http-parser knows when the headers are complete.
pub record Head : Type 0 where
  pub first_line : FirstLine
  pub http_major : ℕ
  pub http_minor : ℕ
  pub is_upgrade : Bool
  pub keeps_alive : Bool

-- execute(): the result of http_parser_execute() that the caller sees, -1 being `none`.
unfoldable pub execute : Bool → ℕ → ℕ → Option ℕ
execute upgrade len parsed = if not upgrade && not (parsed == len) then none else some parsed

unfoldable pub finish : ℕ → Bool
finish parsed = parsed == 0

-- concat(), where `utf8` is String::create() of bytes in UTF-8.
abbrev pub concat : (Bytes → Bytes) → Option Bytes → Bytes → Bytes
concat utf8 none at = utf8 at
concat utf8 (some s) at = s ++ utf8 at

unfoldable pub on_message_begin : Parser → Parser
on_message_begin p = record p { url = none; fields = []; values = [] }

unfoldable pub on_url : (Bytes → Bytes) → Bytes → Parser → Parser
on_url utf8 at p = record p { url = some (concat utf8 p.url at) }

unfoldable pub on_header_field : Bytes → Parser → Option Parser
on_header_field at p =
    if length p.fields == length p.values
    then some (record p { fields = p.fields ++ scan_header_field at ∷ [] })
    else none

-- The values with `at` behind the last one.
unfoldable pub extend_last : Bytes → List Bytes → List Bytes
extend_last at [] = []
extend_last at (v ∷ []) = (v ++ at) ∷ []
extend_last at (v ∷ w ∷ vs) = v ∷ extend_last at (w ∷ vs)

-- onHeaderValue() on the values, when there are `n` fields; without a field there is no value to
-- extend.
unfoldable pub add_value : ℕ → Bytes → List Bytes → Option (List Bytes)
add_value n at vs =
    if n == 0
    then none
    else if length vs == n
    then some (extend_last at vs)
    else if length vs + 1 == n
    then some (vs ++ at ∷ [])
    else none

abbrev pub with_values : Parser → Option (List Bytes) → Option Parser
with_values p none = none
with_values p (some vs) = some (record p { values = vs })

unfoldable pub on_header_value : (Bytes → Bytes) → Bytes → Parser → Option Parser
on_header_value utf8 at p = with_values p (add_value (length p.fields) (utf8 at) p.values)

abbrev pub zip : List Bytes → List Bytes → List (Bytes × Bytes)
zip [] vs = []
zip (f ∷ fs) [] = []
zip (f ∷ fs) (v ∷ vs) = (f, v) ∷ zip fs vs

-- The first `n` lines.
abbrev pub take_lines {ℓ} : {A : Type ℓ} → ℕ → List A → List A
take_lines n [] = []
take_lines zero (l ∷ ls) = []
take_lines (suc n) (l ∷ ls) = l ∷ take_lines n ls

-- The lines that maxHeadersCount_ lets through, 0 being no limit.
unfoldable pub lines_within : ℕ → List (Bytes × Bytes) → List (Bytes × Bytes)
lines_within max lines = if max == 0 then lines else take_lines max lines

-- The static onHeadersComplete().
unfoldable pub note_head : Head → Parser → Parser
note_head h p =
    let noted = record p {
      major_ver = h.http_major;
      minor_ver = h.http_minor;
      upgrade = h.is_upgrade;
      should_keep_alive = h.keeps_alive;
    } in
    elim h.first_line [
      | request method ↦ record noted { method = some (method_name method) }
      | response code ↦ record noted { status_code = code }
    ]

unfoldable pub version_text : (ℕ → Bytes) → ℕ → ℕ → Bytes
version_text decimal major minor =
    if (major == 1) && (minor == 1) then codes "1.1" else decimal major ++ (46 ∷ decimal minor)

-- A message of the free list, or a new one.
abbrev pub allocate : Option Incoming → Option ℕ → Option Incoming
allocate none socket = create socket
allocate (some m) socket = some (set_new_socket socket m)

abbrev pub set_first_line : Option Bytes → ℕ → Incoming → Incoming
set_first_line (some method) code m = record m { method = some method }
set_first_line none code m = record m { status_code = code }

-- The message as onIncoming_ gets it.
unfoldable pub fill : (ℕ → Bytes) → Parser → Incoming → Incoming
fill decimal p m =
    let begun = record m {
      url = p.url;
      http_version_major = p.major_ver;
      http_version_minor = p.minor_ver;
      http_version = some (version_text decimal p.major_ver p.minor_ver);
    } in
    let lined = add_header_lines (lines_within p.max_headers_count (zip p.fields p.values)) begun in
    let first = set_first_line p.method p.status_code lined in
    record first { upgrade = p.upgrade || first.upgrade }

-- The other onHeadersComplete(), with the free list's message and the function onIncoming_; the
-- Boolean is its result, and `none` a failed assertion or a parser without a socket.
unfoldable pub on_headers_complete :
    (ℕ → Bytes)
    → Option Incoming
    → (Incoming → Bool → Incoming × Bool)
    → Head
    → Parser
    → Option (Parser × Bool)
on_headers_complete decimal spare on_incoming h p₀ =
    let p = note_head h p₀ in
    let n = length p.values in
    let fits = (length p.fields == n) || (length p.fields == n + 1) in
    elim (if fits then allocate spare p.socket else none) [
      | none ↦ none
      | some m ↦
          let filled = fill decimal p m in
          let answer =
            if p.upgrade then (filled, false) else on_incoming filled p.should_keep_alive in
          some
            (record p { url = none; fields = []; values = []; incoming = some answer.0 }, answer.1)
    ]

unfoldable pub on_body : Env → Bytes → Parser → Option Parser
on_body env at p = elim p.incoming [
  | none ↦ none
  | some m ↦ some (record p { incoming = some (receive env (some at) m) })
]

abbrev pub resume_if : Bool → Incoming → Incoming
resume_if true m = record m { calls = m.calls ++ resume_call ∷ [] }
resume_if false m = m

-- onMessageComplete() on the message, with the trailers that came.
unfoldable pub complete_with : Env → List (Bytes × Bytes) → Incoming → Incoming
complete_with env lines m =
    let trailed = add_header_lines lines (record m { complete = true }) in
    let ended = if trailed.upgrade then trailed else receive env none trailed in
    resume_if env.socket_readable ended

-- The lines of the trailers; their assertion is only met when there are some.
unfoldable pub trailer_lines : List Bytes → List Bytes → Option (List (Bytes × Bytes))
trailer_lines [] vs = some []
trailer_lines (f ∷ fs) vs = if length (f ∷ fs) == length vs then some (zip (f ∷ fs) vs) else none

abbrev pub forget_lines : List Bytes → Parser → Parser
forget_lines [] p = p
forget_lines (f ∷ fs) p = record p { url = none; fields = []; values = [] }

unfoldable pub on_message_complete : Env → Parser → Option Parser
on_message_complete env p = p.incoming >>= λ m. trailer_lines p.fields p.values >>= λ lines.
    some (record (forget_lines p.fields p) { incoming = some (complete_with env lines m) })

-- Parser::free(); the functions that it takes off the socket are the caller's.
unfoldable pub free : Parser → Parser
free p = record p { fields = []; values = []; socket = none; incoming = none }
