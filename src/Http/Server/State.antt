-- ===== src/Http/Server/State.antt =====
-- One connection of http::Server: the messages of its two arrays, and its socket.
use libnode.Base.{ℕ, Bool, true, false, Option, none, List, []}

-- A request, by a number, with its flag UNUSED.
pub record In : Type 0 where
  pub id : ℕ
  pub unused : Bool

-- The response to the request of the same number: LAST, SHOULD_KEEP_ALIVE, EXPECT_CONTINUE, UNUSED,
-- and whether its handler has ended it.
pub record Out : Type 0 where
  pub id : ℕ
  pub last : Bool
  pub should_keep_alive : Bool
  pub expect_continue : Bool
  pub unused : Bool
  pub ended : Bool

pub data Event : Type 0 where
  request_event check_continue_event aborted_event close_event : ℕ → Event
  upgrade_event connect_event : Event
  client_error_event : Event

-- `http_message` is that of the socket, `writable` is whether the socket takes writes, `closing`
-- whether destroySoon() was called. `requests` and `responses` list the numbers of the requests and
-- of the responses whose finish event came, the oldest first; `freed_in` and `freed_out` are what
-- went to the free lists. `crashed` is set where the code goes through a null pointer.
pub record Connection : Type 0 where
  pub incomings : List In
  pub outgoings : List Out
  pub http_message : Option Out
  pub next_id : ℕ
  pub has_parser : Bool
  pub writable : Bool
  pub closing : Bool
  pub destroyed : Bool
  pub requests : List ℕ
  pub responses : List ℕ
  pub continued : List ℕ
  pub events : List Event
  pub freed_in : List ℕ
  pub freed_out : List ℕ
  pub crashed : Bool

-- ServerOnConnection: the arrays are empty, and the parser is new.
unfoldable pub new_connection : Connection
new_connection = record {
  incomings = [];
  outgoings = [];
  http_message = none;
  next_id = 0;
  has_parser = true;
  writable = true;
  closing = false;
  destroyed = false;
  requests = [];
  responses = [];
  continued = [];
  events = [];
  freed_in = [];
  freed_out = [];
  crashed = false;
}
