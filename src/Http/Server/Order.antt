-- ===== src/Http/Server/Order.antt =====
-- The responses of a connection leave in the order of its requests.
use libnode.Base.{
  ℕ, Option, some, none, is_some, ◌||◌, ◌&&◌, ◌⊎◌, ◌∙◌, inl, if◌then◌else◌, ◌+◌, ◌≡◌, refl, inr,
  Bool, true, false, [], ◌∷◌, ◌++◌,
}
use libnode.Http.Server.State.{Connection, new_connection}
use libnode.Http.Server.Ops.{
  new_in, new_out, add_out, on_incoming, end_out, set_last, on_end, on_data, on_timeout, on_error,
  destroy,
}
use libnode.Http.Server.Finish.{IsInOrder}
use libnode.Http.Server.Kept.{
  end_held-IsInOrder, last_held-IsInOrder, end_half_open-IsInOrder, announce-IsInOrder,
}
use libnode.Http.Server.Added.{added-IsInOrder}

-- What can happen to a connection: a request comes while the socket is not closing; the handler of a
-- response ends it, or its header makes it the last; bytes come, with what the parser makes of them;
-- it times out; its socket fails; the parser refuses the end; and the client ends its side, of a server
-- with the flag HTTP_ALLOW_HALF_OPEN.
pub data Step : Connection → Connection → Type 0 where
  requested :
      {c : Connection} (should_keep_alive expects check : Bool)
      → c.closing ≡ false
      → Step c (on_incoming should_keep_alive expects check c)
  ended : {c : Connection} (flushed : Bool) (n : ℕ) → Step c (end_out flushed n c)
  made_last : {c : Connection} (n : ℕ) → Step c (set_last n c)
  came :
      {c : Connection} (parsed : Option ℕ) (upgrade is_connect has_listeners : Bool)
      → Step c (on_data parsed upgrade is_connect has_listeners c)
  timed_out :
      {c : Connection} (req_timeout res_timeout server_timeout : Bool)
      → Step c (on_timeout req_timeout res_timeout server_timeout c)
  failed : {c : Connection} → Step c (on_error c)
  ended_badly : {c : Connection} (half_open : Bool) → Step c (on_end false half_open c)
  half_closed : {c : Connection} → Step c (on_end true true c)

pub data Run : Connection → Connection → Type 0 where
  begins : {c : Connection} → Run c c
  steps : {c d e : Connection} → Run c d → Step d e → Run c e

-- What leaves the messages of a connection alone, and may end its socket.
untouched-IsInOrder :
    {c : Connection} (d : Connection)
    → (d.incomings ≡ c.incomings)
      × (d.outgoings ≡ c.outgoings)
      × (d.http_message ≡ c.http_message)
      × (d.requests ≡ c.requests)
      × (d.responses ≡ c.responses)
      × (d.closing ≡ c.closing)
      × (d.crashed ≡ c.crashed)
    → (d.writable ≡ c.writable) ⊎ (d.writable ≡ false)
    → IsInOrder c
    → IsInOrder d
untouched-IsInOrder d (i, o, h, r, s, l, x) w a = record {
  paired = rw (i, o, h) a.paired;
  in_order = rw (o, h, r, s) a.in_order;
  waits_behind = rw (o, h, l) a.waits_behind;
  prompt = elim w [ inl e ↦ rw (e, h) a.prompt | inr e ↦ inl e ];
  safe = x ∙ a.safe;
}

dropped-IsInOrder :
    (handled : Bool) (c : Connection) → IsInOrder c → IsInOrder (if handled then c else destroy c)
dropped-IsInOrder true c a = a
dropped-IsInOrder false c a =
    untouched-IsInOrder (destroy c) (refl, refl, refl, refl, refl, refl, refl) (inr refl) a

Step-IsInOrder : (c d : Connection) → Step c d → IsInOrder c → IsInOrder d
unfolding on_incoming end_out set_last on_end on_data on_timeout on_error
Step-IsInOrder c d (requested keep expects check k) a =
    announce-IsInOrder c.next_id expects check
      (add_out c.http_message (new_out c.next_id keep expects) (record c {
        next_id = c.next_id + 1;
        incomings = c.incomings ++ new_in c.next_id ∷ [];
        requests = c.requests ++ c.next_id ∷ [];
      }))
      (added-IsInOrder c.http_message (new_out c.next_id keep expects) c refl k refl a)
Step-IsInOrder c d (ended flushed n) a = end_held-IsInOrder c.http_message flushed n c refl a
Step-IsInOrder c d (made_last n) a = last_held-IsInOrder c.http_message n c refl a
Step-IsInOrder c d (came none upgrade is_connect has_listeners) a =
    untouched-IsInOrder d (refl, refl, refl, refl, refl, refl, refl) (inr refl) a
Step-IsInOrder c d (came (some n) true is_connect true) a =
    untouched-IsInOrder d (refl, refl, refl, refl, refl, refl, refl) (inl refl) a
Step-IsInOrder c d (came (some n) true is_connect false) a =
    untouched-IsInOrder d (refl, refl, refl, refl, refl, refl, refl) (inr refl) a
Step-IsInOrder c d (came (some n) false is_connect has_listeners) a = a
Step-IsInOrder c d (timed_out req_timeout res_timeout server_timeout) a =
    dropped-IsInOrder
      ((c.has_parser && req_timeout) || (is_some c.http_message && res_timeout) || server_timeout) c
      a
Step-IsInOrder c d failed a =
    untouched-IsInOrder d (refl, refl, refl, refl, refl, refl, refl) (inr refl) a
Step-IsInOrder c d (ended_badly half_open) a =
    untouched-IsInOrder d (refl, refl, refl, refl, refl, refl, refl) (inr refl) a
Step-IsInOrder c d half_closed a = end_half_open-IsInOrder c.outgoings c.http_message c refl refl a

new_connection-IsInOrder : IsInOrder new_connection
unfolding new_connection
new_connection-IsInOrder = record {
  paired = refl;
  in_order = refl;
  waits_behind = tt;
  prompt = inr tt;
  safe = refl;
}

Run_kept : {c d : Connection} → IsInOrder c → Run c d → IsInOrder d
Run_kept a begins = a
Run_kept a (steps {c} {d} {e} run step) = Step-IsInOrder d e step (Run_kept a run)

-- In every run of a new connection of the steps above, so until the client ends its side (of a server
-- without the flag HTTP_ALLOW_HALF_OPEN) or the socket closes, and with no request that is parsed
-- after destroySoon(): each response that is not finished has its request, the responses finish in
-- the order of the requests and none is left out, one waits only behind another or once the socket
-- closes, the one that has the socket is not ended while the socket takes writes, and no null pointer
-- is met.
pub Run-IsInOrder : {c : Connection} → Run new_connection c → IsInOrder c
Run-IsInOrder run = Run_kept new_connection-IsInOrder run
