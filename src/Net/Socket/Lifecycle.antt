-- ===== src/Net/Socket/Lifecycle.antt =====
-- The end of a net::Socket: destroy(), destroySoon(), and what the half-open option comes to.
use libnode.Base.{
  ℕ, zero, suc, ◌≡◌, refl, Bool, true, false, Option, none, some, List, [], ◌∷◌, ◌++◌, arith,
  append_assoc, append-nil, ap, ◌∙◌, Option-cases, inl, inr,
}
use libnode.Net.Socket.State.{
  Kind, Action, clear_timer, close_handle, SocketError, Tick, error_tick, close_tick, Socket, Env,
  Call, call_back, emit_drain,
}
use libnode.Net.Socket.Ops.{
  run_callback, next_tick, active, schedule_error, fire_error_callbacks, tear_down, destroy_with,
  destroy, destroy_soon,
}
use libnode.Net.Socket.Receive.{decrement, drain_if_idle, destroy_if_idle, write_done, after_write}

-- Listeners and callbacks that leave the socket alone.
abbrev pub IsQuiet : Env → Type 0
IsQuiet env = (c : Call) (s : Socket) → env.react c s ≡ s

-- What a destroyed socket looks like.
pub record IsDead (s : Socket) : Type 0 where
  pub marked : s.destroyed ≡ true
  pub unhandled : s.handle ≡ none
  pub unreadable : s.readable ≡ false
  pub unwritable : s.writable ≡ false
  pub unconnecting : s.connecting ≡ false
  pub unqueued : s.connect_buf_queue ≡ none
  pub untimed : s.timer ≡ false

abbrev pub error_ticks : Bool → Option SocketError → List Tick
error_ticks emitted none = []
error_ticks true (some e) = []
error_ticks false (some e) = error_tick e ∷ []

unfoldable pub scheduled : Option SocketError → Socket → Socket
scheduled none s = s
scheduled (some e) s = schedule_error e s

-- What destroy() asks of libuv, the newest first: it clears the timer and closes the handle.
abbrev pub torn : Option Kind → List Action
torn none = clear_timer ∷ []
torn (some k) = close_handle ∷ clear_timer ∷ []

tear_down-torn : (s : Socket) → (tear_down s).trace ≡ torn s.handle ++ s.trace
unfolding tear_down
tear_down-torn s = elim (Option-cases s.handle) [ inl h ↦ rw h refl | inr (k, h) ↦ rw h refl ]

scheduled-trace :
    (err : Option SocketError) (t : Tick) (s : Socket)
    → (next_tick t (scheduled err s)).trace ≡ s.trace
unfolding scheduled schedule_error
scheduled-trace none t s = refl
scheduled-trace (some e) t s = ground arith

finished-IsDead :
    (err : Option SocketError) (t : Tick) (s : Socket)
    → IsDead (record (next_tick t (scheduled err (tear_down s))) { destroyed = true })
unfolding tear_down scheduled schedule_error
finished-IsDead none t s = ground arith
finished-IsDead (some e) t s = ground arith

pub tear_down-kept :
    (s : Socket)
    → ((tear_down s).ticks ≡ s.ticks)
      × ((tear_down s).error_emitted ≡ s.error_emitted)
      × ((tear_down s).destroyed ≡ s.destroyed)
unfolding tear_down
tear_down-kept s = ground arith

pub scheduled-ticks :
    (err : Option SocketError) (s : Socket)
    → (scheduled err s).ticks ≡ s.ticks ++ error_ticks s.error_emitted err
unfolding scheduled schedule_error
scheduled-ticks none s = rw append-nil
scheduled-ticks (some e) s = ground (arith, append-nil s.ticks)

active_kept :
    (s : Socket)
    → ((active s).pending_write_reqs ≡ s.pending_write_reqs)
      × ((active s).destroy_soon_set ≡ s.destroy_soon_set)
      × ((active s).destroyed ≡ s.destroyed)
unfolding active
active_kept s = ground arith

waits :
    (env : Env) (s : Socket) (n : ℕ)
    → s.destroyed ≡ false
    → s.pending_write_reqs ≡ suc n
    → destroy_soon env s ≡ (record s { writable = false; destroy_soon_set = true }, true)
unfolding destroy_soon
waits env s n d p = ground arith

-- The completion of `n` writes, one after another.
unfoldable pub complete : Env → ℕ → Socket → Socket
complete env zero s = s
complete env (suc n) s = complete env n (after_write env 0 none s)

module _ (env : Env) (quiet : IsQuiet env) where
  pub run_callback_quiet :
      (cb : Option ℕ) (err : Option SocketError) (s : Socket) → run_callback env cb err s ≡ s
  run_callback_quiet none err s = refl
  run_callback_quiet (some f) err s = quiet (call_back f err) s

  fire_quiet :
      (err : Option SocketError) (cb : Option ℕ) (s : Socket)
      → fire_error_callbacks env err cb s ≡ scheduled err s
  unfolding fire_error_callbacks scheduled
  fire_quiet none cb s = run_callback_quiet cb none s
  fire_quiet (some e) cb s = ap (schedule_error e) (run_callback_quiet cb (some e) s)

  -- destroy() of a socket that is not destroyed, with callbacks that leave it alone: it is destroyed,
  -- its timer is cleared and its handle closed and let go, and it is neither readable, writable nor
  -- connecting; the `error` event is scheduled if there is an error and none was scheduled before,
  -- and then the `close` event, once.
  pub destroy_with-IsDead :
      (err : Option SocketError) (cb : Option ℕ) (s : Socket)
      → s.destroyed ≡ false
      → let t = (destroy_with env err cb s).0 in
        IsDead t
        × (t.trace ≡ torn s.handle ++ s.trace)
        × (t.ticks ≡ s.ticks ++ (error_ticks s.error_emitted err ++ close_tick err ∷ []))
        × ((destroy_with env err cb s).1 ≡ true)
  unfolding destroy_with
  destroy_with-IsDead err cb s d =
      simp (d, fire_quiet err cb (tear_down s))
        (
          finished-IsDead err (close_tick err) s,
          scheduled-trace err (close_tick err) (tear_down s) ∙ tear_down-torn s,
          rw (scheduled-ticks err (tear_down s)) (
              ground (
                arith,
                tear_down-kept s,
                append_assoc s.ticks (error_ticks s.error_emitted err) (close_tick err ∷ []),
              )),
          refl,
        )

  destroy-destroyed : (s : Socket) → (destroy env s).0.destroyed ≡ true
  unfolding destroy destroy_with
  destroy-destroyed s = ground arith

  write_done-destroy_if_idle :
      (s : Socket)
      → write_done env none s
        ≡ destroy_if_idle env
            (record (active s) { pending_write_reqs = decrement (active s).pending_write_reqs })
  unfolding write_done drain_if_idle
  write_done-destroy_if_idle s = ground (
    arith,
    quiet emit_drain
        (record (active s) { pending_write_reqs = decrement (active s).pending_write_reqs }),
  )

  -- One write that completes, of several that are pending: the socket stays open.
  write_done_pending :
      (s : Socket) (n : ℕ)
      → s.pending_write_reqs ≡ suc (suc n)
      → let t = write_done env none s in
        (t.destroyed ≡ s.destroyed)
        × (t.pending_write_reqs ≡ suc n)
        × (t.destroy_soon_set ≡ s.destroy_soon_set)
  write_done_pending s n e =
      rw (write_done-destroy_if_idle s) (unfold destroy_if_idle active in ground arith)

  write_done_last :
      (s : Socket)
      → s.pending_write_reqs ≡ 1
      → s.destroy_soon_set ≡ true
      → (write_done env none s).destroyed ≡ true
  unfolding destroy_if_idle
  write_done_last s e d = rw (write_done-destroy_if_idle s) (
      ground (
        arith,
        active_kept s,
        destroy-destroyed
            (record (active s) { pending_write_reqs = decrement (active s).pending_write_reqs }),
      ))

  complete_soon :
      (n : ℕ) (s : Socket)
      → s.destroyed ≡ false
      → s.pending_write_reqs ≡ suc n
      → s.destroy_soon_set ≡ true
      → ((complete env n s).destroyed ≡ false) × ((complete env (suc n) s).destroyed ≡ true)
  unfolding complete after_write
  complete_soon zero s d p w = ground (arith, write_done_last s p w)
  complete_soon (suc n) s d p w =
      ground (arith, write_done_pending s n p, complete_soon n (write_done env none s))

  -- destroySoon() waits: with `n + 1` writes pending, the socket is still open when `n` of them have
  -- completed, and destroyed when the last one has.
  pub complete-destroy_soon :
      (n : ℕ) (s : Socket)
      → s.destroyed ≡ false
      → s.pending_write_reqs ≡ suc n
      → let t = (destroy_soon env s).0 in
        ((complete env n t).destroyed ≡ false) × ((complete env (suc n) t).destroyed ≡ true)
  complete-destroy_soon n s d p =
      rw (waits env s n d p)
        (complete_soon n (record s { writable = false; destroy_soon_set = true }) d p refl)

-- A second destroy() does nothing, whatever the listeners do in the first.
pub destroy_twice :
    (env : Env) (err err' : Option SocketError) (cb cb' : Option ℕ) (s : Socket)
    → let t = (destroy_with env err cb s).0 in destroy_with env err' cb' t ≡ (t, false)
unfolding destroy_with
destroy_twice env err err' cb cb' s = ground arith
