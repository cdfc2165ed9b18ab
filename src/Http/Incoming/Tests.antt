-- ===== src/Http/Incoming/Tests.antt =====
-- Messages that meet the hypotheses of the theorems about http::IncomingMessage, and runs.
use libnode.Base.{◌≡◌, refl, ◌≢◌, ◌⊎◌, true, false, none, some, List, [], ◌∷◌, ◌++◌, codes, ◌>>=◌}
use libnode.Http.HeaderScanner.{to_lower}
use libnode.Http.Message.State.{many}
use libnode.Http.Message.Head.{text_eq}
use libnode.Http.Incoming.State.{
  data_event, end_event, nothing, pauses, Event, Reaction, Env, Incoming, set_new_socket,
}
use libnode.Http.Incoming.Stream.{
  emit, emit_data, emit_end, emit_chunk, emit_loop, emit_pending, run_emit_pending, run_tick,
  receive, react, pause, resume,
}
use libnode.Http.Incoming.Lines.{field_kind, get_value}
use libnode.Http.Incoming.Parser.{
  Parser, new_parser, fill, lines_within, on_url, on_header_field, on_header_value,
}
use libnode.Http.Incoming.Chunks.{events_of}
use libnode.Http.Incoming.Order.{
  Step, body, finish, resuming, ticking, steps, arrivals, steps-ordered,
}
use libnode.Http.Incoming.Awake.{Rests, steps_settle}
use libnode.Http.Incoming.Filling.{fill-headers}
use libnode.Http.Incoming.Split.{pieces_joined}

-- A listener that pauses the message at the first chunk.
abbrev hasty : Env
hasty = record {
  pause_result = true;
  resume_result = true;
  destroy_result = true;
  socket_readable = true;
  to_string = λ enc b. b;
  reacts = pauses_at_first;
}
  where
    pauses_at_first : List Event → Reaction
    pauses_at_first (e ∷ []) = pauses
    pauses_at_first es = nothing

abbrev fresh : Incoming
fresh = record {
  socket = some 1;
  method = none;
  url = some [];
  http_version = none;
  http_version_major = 1;
  http_version_minor = 1;
  status_code = 0;
  headers = [];
  trailers = [];
  pendings = [];
  decoder = none;
  req = none;
  complete = false;
  readable = true;
  paused = false;
  end_emitted = false;
  upgrade = false;
  unused = false;
  ticks = [];
  events = [];
  calls = [];
  called = [];
}

abbrev two_bodies : List Step
two_bodies = body (1 ∷ []) ∷ body (2 ∷ []) ∷ finish ∷ resuming ∷ ticking ∷ []

two_bodies_shown :
    (steps hasty two_bodies fresh).events
    ≡ data_event (1 ∷ []) ∷ data_event (2 ∷ []) ∷ end_event ∷ []
unfolding steps receive emit_chunk emit_data emit_end emit react pause resume emit_pending run_tick
    run_emit_pending emit_loop
two_bodies_shown = refl

steps-ordered_example :
    (steps hasty two_bodies fresh).events
      ++ events_of hasty none (steps hasty two_bodies fresh).pendings
    ≡ events_of hasty none (arrivals two_bodies)
steps-ordered_example = steps-ordered hasty two_bodies fresh refl refl refl (refl, (refl, refl))

abbrev one_waits : List Step
one_waits = body (1 ∷ []) ∷ body (2 ∷ []) ∷ resuming ∷ []

steps_settle_example :
    Rests (steps hasty one_waits fresh)
    ⊎ (((steps hasty one_waits fresh).ticks ≢ [])
        × Rests (run_tick hasty (steps hasty one_waits fresh)))
steps_settle_example = steps_settle hasty one_waits fresh refl

abbrev begun : Parser
begun = new_parser (some 1) 0

-- A message of the free list that was complete and had a header.
abbrev used : Incoming
used = record fresh { complete = true; headers = (codes "set-cookie", many []) ∷ [] }

abbrev collected : Parser
collected = record begun {
  fields = codes "Set-Cookie" ∷ codes "host" ∷ codes "SET-COOKIE" ∷ [];
  values = (1 ∷ []) ∷ (7 ∷ []) ∷ (2 ∷ []) ∷ [];
}

fill-headers_example :
    get_value
      (codes "set-cookie")
      (fill (λ n. n ∷ []) collected (set_new_socket (some 1) used)).headers
    ≡ some (many ((1 ∷ []) ∷ (2 ∷ []) ∷ []))
unfolding field_kind text_eq to_lower lines_within new_parser
fill-headers_example =
    fill-headers (codes "set-cookie") (λ n. n ∷ []) (some used) collected
      (set_new_socket (some 1) used) refl

abbrev hosted : Parser
hosted = record begun { fields = codes "host" ∷ [] }

pieces_joined_example :
    (on_url (λ t. t) (codes "st") (on_url (λ t. t) (codes "te") hosted)
      ≡ on_url (λ t. t) (codes "test") hosted)
    × (on_header_value (λ t. t) (codes "te") hosted >>= on_header_value (λ t. t) (codes "st")
        ≡ on_header_value (λ t. t) (codes "test") hosted)
    × (on_header_field (codes "te") hosted >>= on_header_field (codes "st") ≡ none)
pieces_joined_example = pieces_joined (λ t. t) (codes "te") (codes "st") hosted refl
