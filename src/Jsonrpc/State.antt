-- ===== src/Jsonrpc/State.antt =====
-- Requests, methods, responses and the fields of jsonrpc::Service.
use libnode.Base.{ℕ, Bool, false, Option, List, []}
use libnode.Net.Socket.State.{Bytes}
use libnode.Shared.MessageQueue.{MessageQueue, new_queue}

-- A value of a request. A value within an array or an object is a number that names it, `other` is
-- a Boolean.
pub data Field : Type 0 where
  undefined null : Field
  long double : ℕ → Field
  string : Bytes → Field
  array : List ℕ → Field
  object : List (Bytes × ℕ) → Field
  other : Bool → Field

-- The fields "id", "method", "params" and "jsonrpc" of an object, undefined without a key.
pub record Request : Type 0 where
  pub id : Field
  pub method : Field
  pub params : Field
  pub jsonrpc : Field

-- What json::parse() makes of a text: an error, a value that is no object, or an object.
pub data Parsed : Type 0 where
  failed no_object : Parsed
  an_object : Request → Parsed

-- A method, whose function is named by a number.
pub record Method : Type 0 where
  pub name : Bytes
  pub parameters : List Bytes
  pub function : ℕ

pub data Code : Type 0 where
  parse_error invalid_request method_not_found invalid_params : Code
  own_error : ℕ → Code

pub data Version : Type 0 where
  version10 version20 : Version

pub data Outcome : Type 0 where
  result : ℕ → Outcome
  error : Code → Outcome

pub record Response : Type 0 where
  pub version : Version
  pub id : Field
  pub outcome : Outcome

-- Respond10 and Respond20; `tag` is the number of the message that they belong to.
pub record Responder : Type 0 where
  pub tag : ℕ
  pub version : Version
  pub id : Field
  pub callback : Option ℕ
  pub emitted : Bool

-- What postRequest() puts in the queue.
pub record Message : Type 0 where
  pub json : Bytes
  pub callback : Option ℕ

-- json::parse(), and what the function of a method tells its responder before it returns; `none`
-- among the arguments is undefined.
pub record Env : Type 0 where
  pub parse : Bytes → Parsed
  pub body : ℕ → List (Option ℕ) → List Outcome

-- `next` is the number of messages that were handled and `listeners` that of the OnMessage listeners
-- of the queue. `events` (with the number of the message), `called` (none being null) and `invoked`
-- are logs, the newest entry last.
pub record Service : Type 0 where
  pub running : Bool
  pub queue : MessageQueue Message
  pub methods : List (Bytes × Method)
  pub listeners : ℕ
  pub next : ℕ
  pub responders : List Responder
  pub events : List (ℕ × Response)
  pub called : List (ℕ × Option Response)
  pub invoked : List (ℕ × List (Option ℕ))

-- The constructor.
unfoldable pub new_service : Service
new_service = record {
  running = false;
  queue = new_queue;
  methods = [];
  listeners = 0;
  next = 0;
  responders = [];
  events = [];
  called = [];
  invoked = [];
}
