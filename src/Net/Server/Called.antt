-- ===== src/Net/Server/Called.antt =====
-- A net::Server from its listen() on: its connections, its close event, and its callbacks.
use libnode.Base.{
  ℕ, ◌+◌, ◌≡◌, Bool, true, false, Option, List, [], ◌∷◌, is_some, if◌then◌else◌, ◌==◌,
}
use libnode.Net.Server.State.{Server}
use libnode.Net.Server.Ops.{add_callback}
use libnode.Net.Server.Counting.{
  Step, comes, no_client, goes, closes, ticks, Run, begins, steps, IsSound,
}

abbrev pub count : ℕ → List ℕ → ℕ
count f [] = 0
count f (g ∷ gs) = (if f == g then 1 else 0) + count f gs

-- How often a callback was called, or waits to be called.
abbrev pub held : ℕ → Server → ℕ
held f s = count f s.called + (count f s.listening_callbacks + count f s.close_callbacks)

-- How often a callback is given to a close() that is not refused.
abbrev pub given : ℕ → Server → Option ℕ → ℕ
given f s callback = if is_some s.handle then count f (add_callback callback []) else 0

abbrev pub given_in : {s t : Server} → ℕ → Step s t → ℕ
given_in f (comes client h) = 0
given_in f no_client = 0
given_in f (goes client h) = 0
given_in f (closes {s} callback) = given f s callback
given_in f ticks = 0

abbrev pub given_to : {s t : Server} → ℕ → Run s t → ℕ
given_to f begins = 0
given_to f (steps run step) = given_to f run + given_in f step

-- A server that was never used.
abbrev Fresh : Server → Type 0
Fresh s =
    (s.connections ≡ 0) × (s.live ≡ []) × (s.ticks ≡ []) × (s.events ≡ []) × (s.failed ≡ false)

-- What listen() makes of a fresh server, if it is not refused.
abbrev Begun : ℕ → Server → Server × Bool → Type 0
Begun f s r = r.1 ≡ true → IsSound r.0 × (held f r.0 ≡ held f s)
