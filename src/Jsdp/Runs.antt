-- ===== src/Jsdp/Runs.antt =====
-- What can happen to a jsdp::DiscoveryService.
use libnode.Base.{ℕ, ◌≡◌, true, Option}
use libnode.Net.Socket.State.{Bytes}
use libnode.Jsdp.State.{Entry, Message, Env, Service}
use libnode.Jsdp.Ops.{
  join, leave, stop, on_error, start, on_bind, set_hostname, discover, on_message, on_timeout,
}

-- What can happen to a service: a program calls an operation, its socket is bound, fails or brings a
-- message, or a timer runs out.
pub data Step (env : Env) : Service → Service → Type 0 where
  starts : {s : Service} → Step env s (start env s).0
  stops : {s : Service} → Step env s (stop s).0
  fails : {s : Service} → Step env s (on_error s)
  is_bound : {s : Service} → s.has_socket ≡ true → Step env s (on_bind env s)
  names : {s : Service} (name : Option Bytes) → Step env s (set_hostname name s)
  joins : {s : Service} (e : Option Entry) → Step env s (join env e s).0
  leaves : {s : Service} (e : Option Entry) → Step env s (leave env e s).0
  discovers :
      {s : Service} (name password : Option Bytes) (cb : Option ℕ)
      → Step env s (discover env name password cb s).0
  receives : {s : Service} (m : Message) (address : Bytes) → Step env s (on_message env m address s)
  times_out : {s : Service} (id : ℕ) → Step env s (on_timeout id s)

pub data Run (env : Env) (s : Service) : Service → Type 0 where
  begins : Run env s s
  steps : {t u : Service} → Run env s t → Step env t u → Run env s u
