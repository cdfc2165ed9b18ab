-- ===== src/Datagram/State.antt =====
-- The fields of dgram::Socket, and what it takes from the resolver and from libuv.
use libnode.Base.{ℕ, Bool, true, false, Option, none, List, []}
use libnode.Net.Socket.State.{Bytes}
use libnode.Buffer.State.{Buffer}

pub data SocketType : Type 0 where
  udp4 udp6 : SocketType

pub data BindState : Type 0 where
  unbound binding bound : BindState

-- The arguments of send(), which sendQueue_ keeps as an array.
pub record Message : Type 0 where
  pub buffer : Option Buffer
  pub offset : ℕ
  pub length_ : ℕ
  pub port : ℕ
  pub address : Option Bytes
  pub callback : Option ℕ

-- What AfterLookupInBind and AfterLookupInSend remember.
pub data Purpose : Type 0 where
  for_bind : ℕ → Purpose
  for_send : Message → Purpose

pub record Lookup : Type 0 where
  pub domain : Bytes
  pub family : ℕ
  pub purpose : Purpose

pub data Answer : Type 0 where
  found : Bytes → Answer
  failed : ℕ → Answer

-- A listener of EVENT_LISTENING: one of once(), or OnListening.
pub data Listener : Type 0 where
  once_listener : ℕ → Listener
  on_listening_listener : Listener

pub data Event : Type 0 where
  listening_event close_event : Event
  message_event : Bytes → Event
  error_event : ℕ → Event

-- What the socket asks of its handle.
pub data Action : Type 0 where
  set_on_message recv_start recv_stop close_handle : Action
  bind_handle : SocketType → Bytes → ℕ → Action
  send_handle : SocketType → Bytes → Message → Action
  set_option : ℕ → Action

-- A callback of a program: of once(), with an error, or with the length of a buffer.
pub data Call : Type 0 where
  call_listening : ℕ → Call
  call_error : ℕ → ℕ → Call
  call_sent : ℕ → ℕ → Call

-- `pending` are the lookups without an answer; `asked` (every call of dns::lookup()), `actions`,
-- `events` and `calls` are logs, the newest entry last. `fault` is set where an assertion fails or a
-- callback that is null is called.
pub record Socket : Type 0 where
  pub handle : Bool
  pub type_ : SocketType
  pub receiving : Bool
  pub bind_state : BindState
  pub send_queue : Option (List Message)
  pub listeners : List Listener
  pub pending : List Lookup
  pub asked : List Lookup
  pub actions : List Action
  pub events : List Event
  pub calls : List Call
  pub fault : Bool

-- Whether dns::lookup() takes a domain of a family, the results of libuv, 0 being success, and what
-- the callback of a bind() does to the socket.
pub record Env : Type 0 where
  pub resolves : Bytes → ℕ → Bool
  pub bind_result : SocketType → Bytes → ℕ → ℕ
  pub send_result : SocketType → Bytes → Message → ℕ
  pub option_result : ℕ → ℕ
  pub hears : ℕ → Socket → Socket

-- create() and the constructor.
unfoldable pub create : SocketType → Socket
create type = record {
  handle = true;
  type_ = type;
  receiving = false;
  bind_state = unbound;
  send_queue = none;
  listeners = [];
  pending = [];
  asked = [];
  actions = [];
  events = [];
  calls = [];
  fault = false;
}
