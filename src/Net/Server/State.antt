-- ===== src/Net/Server/State.antt =====
-- The fields of net::Server, and what it takes from libuv.
use libnode.Base.{ℕ, Bool, false, Option, none, some, List, []}
use libnode.Net.Socket.State.{Bytes}

-- What an address is: PATH_TYPE, or the 4 or 6 of isIP().
pub data AddressType : Type 0 where
  path_type ip4 ip6 : AddressType

pub data HandleType : Type 0 where
  tcp_handle pipe_handle : HandleType

pub data ServerError : Type 0 where
  illegal_argument illegal_state : ServerError
  uv_error : ℕ → ServerError

pub data Event : Type 0 where
  listening_event close_event destroy_event : Event
  error_event : ServerError → Event
  connection_event : ℕ → Event

-- What process::nextTick holds for later.
pub data Tick : Type 0 where
  close_tick listening_tick : Tick
  error_tick : ℕ → Tick

-- isIP(), guessHandleType(), and the results of bind and listen, 0 being success.
pub record Env : Type 0 where
  pub is_ip : Bytes → Option AddressType
  pub is_pipe_fd : ℕ → Bool
  pub bind_result : AddressType → Bytes → Option ℕ → ℕ
  pub listen_result : HandleType → ℕ → ℕ
  pub einval : ℕ

-- `live` lists the sockets whose close event RemoveConnection waits for, `refused` the clients that
-- are closed for the maximum. `events` and `called` are logs, the newest entry last; the two lists of
-- callbacks are those that once() added. `failed` is set where an assertion of OnDestroy fails.
pub record Server : Type 0 where
  pub handle : Option HandleType
  pub connections : ℕ
  pub max_connections : ℕ
  pub connection_key : Option (AddressType × Option Bytes × Option ℕ)
  pub allow_half_open : Bool
  pub live : List ℕ
  pub refused : List ℕ
  pub listening_callbacks : List ℕ
  pub close_callbacks : List ℕ
  pub ticks : List Tick
  pub events : List Event
  pub called : List ℕ
  pub failed : Bool

-- create(): options and their value of allowHalfOpen.
unfoldable pub create : Option Bool → Server
create options = record {
  handle = none;
  connections = 0;
  max_connections = 0;
  connection_key = none;
  allow_half_open = elim options [ none ↦ false | some half_open ↦ half_open ];
  live = [];
  refused = [];
  listening_callbacks = [];
  close_callbacks = [];
  ticks = [];
  events = [];
  called = [];
  failed = false;
}
