-- ===== src/Jsdp/State.antt =====
-- Services, packets and the fields of jsdp::DiscoveryService, and what it takes from other classes.
use libnode.Base.{ℕ, Bool, false, Option, none, List, []}
use libnode.Net.Socket.State.{Bytes}

-- A service, without its port.
pub record Entry : Type 0 where
  pub name : Bytes
  pub version : Option Bytes
  pub password : Option Bytes

-- The result of a discovery; without a host object the name of the host is none.
pub record Discovery : Type 0 where
  pub host : Option Bytes
  pub services : List Entry

-- The "result" of a message: an encrypted text, an object, or another value.
pub data Value : Type 0 where
  text : Bytes → Value
  object : Discovery → Value
  other : Value

-- What is sent: a request with a name and a hash, or a response.
pub data Packet : Type 0 where
  request : ℕ → Option Bytes → Option Bytes → Packet
  response : ℕ → Value → Packet

-- The fields of a message: "id" (0 without one), "method", the two texts of "params", and "result".
pub record Message : Type 0 where
  pub id : ℕ
  pub method : Option Bytes
  pub params : Option (Option Bytes × Option Bytes)
  pub result : Option Value

-- The text of a hash, the ciphers of a password (with the text of an object and its parsing), the
-- name of the host, whether a socket can be bound, and the address of the group.
pub record Env : Type 0 where
  pub hash : Bytes → Bytes
  pub encrypt : Bytes → Discovery → Bytes
  pub decrypt : Bytes → Bytes → Option Discovery
  pub os_hostname : Bytes
  pub binds : Bool
  pub group : Bytes

-- `sent` (with an address) and `called` (a callback with a result and the address it came from) are
-- logs, the newest entry last.
pub record Service : Type 0 where
  pub id : ℕ
  pub hostname : Option Bytes
  pub has_socket : Bool
  pub services : List (Bytes × Entry)
  pub callbacks : List (ℕ × ℕ)
  pub passwords : List (ℕ × Option Bytes)
  pub hash_passwords : List (Bytes × Bytes)
  pub sent : List (Bytes × Packet)
  pub called : List (ℕ × Discovery × Bytes)

-- The constructor.
unfoldable pub new_service : Service
new_service = record {
  id = 0;
  hostname = none;
  has_socket = false;
  services = [];
  callbacks = [];
  passwords = [];
  hash_passwords = [];
  sent = [];
  called = [];
}
