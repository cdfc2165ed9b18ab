-- ===== src/Net/Socket/Defects.antt =====
-- Where net::Socket does not do what its interface says: the half-open option and a
-- destroy() from inside a callback.
use libnode.Base.{
  ℕ, ◌≡◌, refl, Bool, true, false, none, some, [], ◌∷◌, ◌++◌, arith, ap, append_assoc,
}
use libnode.Net.Socket.State.{Kind, SocketError, close_tick, call_back, emit_end, Socket, Env}
use libnode.Net.Socket.Ops.{
  active, fire_error_callbacks, tear_down, destroy_with, destroy, destroy_soon, finish_end, end,
  queue_shutdown, write_if_defined,
}
use libnode.Net.Socket.Connect.{create}
use libnode.Net.Socket.Receive.{
  destroy_if_ended, end_unless_half_open, run_on_end, on_eof, on_read, eof,
}
use libnode.Net.Socket.Lifecycle.{error_ticks, IsQuiet, tear_down-kept, scheduled, scheduled-ticks}

on_eof_quiet :
    (env : Env) (s : Socket)
    → IsQuiet env
    → on_eof env s
      ≡ run_on_end env (
          end_unless_half_open env
            (destroy_if_ended env (record s { readable = false; got_eof = true })))
unfolding on_eof
on_eof_quiet env s quiet = ap (run_on_end env) (quiet emit_end _)

-- net::Server makes each socket by create() and then sets READABLE and WRITABLE.
abbrev pub accepted : Kind → Bool → Socket
accepted k half_open = record (create (some k) half_open) { readable = true; writable = true }

eof_accepted :
    (env : Env) (k : Kind) (half_open : Bool)
    → let t = run_on_end env (
        end_unless_half_open env (
          destroy_if_ended env
            (record (accepted k half_open) { readable = false; got_eof = true }))) in
      (t.destroyed ≡ true) × (t.handle ≡ none)
unfolding create destroy_if_ended end_unless_half_open run_on_end end queue_shutdown finish_end
    write_if_defined destroy_soon destroy destroy_with fire_error_callbacks tear_down
eof_accepted env k half_open = (refl, refl)

-- create() loses the half-open option: whether it is asked for or not, the end of the stream
-- destroys a socket of net::Server that has nothing left to write.
eof_destroys_half_open :
    (env : Env) (k : Kind) (half_open : Bool)
    → IsQuiet env
    → let t = on_read env eof (accepted k half_open) in (t.destroyed ≡ true) × (t.handle ≡ none)
unfolding on_read create active
eof_destroys_half_open env k half_open quiet =
    rw (on_eof_quiet env (accepted k half_open) quiet) (eof_accepted env k half_open)

destroy_kept :
    (env : Env) (s : Socket)
    → s.destroyed ≡ false
    → ((destroy env s).0.ticks ≡ s.ticks ++ close_tick none ∷ [])
      × ((destroy env s).0.error_emitted ≡ s.error_emitted)
unfolding destroy destroy_with fire_error_callbacks tear_down
destroy_kept env s d = ground arith

-- A write callback that destroys the socket when its write fails is run before the socket is marked
-- as destroyed, so the `close` event is scheduled twice.
destroy_in_callback :
    (env : Env) (e : SocketError) (f : ℕ) (s : Socket)
    → s.destroyed ≡ false
    → ((t : Socket) → env.react (call_back f (some e)) t ≡ (destroy env t).0)
    → (destroy_with env (some e) (some f) s).0.ticks
      ≡ s.ticks
        ++ close_tick none ∷ (error_ticks s.error_emitted (some e) ++ close_tick (some e) ∷ [])
unfolding destroy_with fire_error_callbacks scheduled
destroy_in_callback env e f s d h = ground (
  arith,
  h (tear_down s),
  tear_down-kept s,
  destroy_kept env (tear_down s),
  scheduled-ticks (some e) (destroy env (tear_down s)).0,
  append_assoc (s.ticks ++ close_tick none ∷ []) (error_ticks s.error_emitted (some e))
      (close_tick (some e) ∷ []),
  append_assoc s.ticks (close_tick none ∷ [])
      (error_ticks s.error_emitted (some e) ++ close_tick (some e) ∷ []),
)
