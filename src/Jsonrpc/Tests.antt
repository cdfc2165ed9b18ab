-- ===== src/Jsonrpc/Tests.antt =====
-- Requests and services that meet the hypotheses of the theorems about jsonrpc::Service, and runs.
use libnode.Base.{
  ℕ, ◌≡◌, refl, true, ◌&&◌, none, some, [], ◌∷◌, ◌++◌, codes, length, if◌then◌else◌, ◌==◌,
}
use libnode.Net.Socket.State.{Bytes}
use libnode.Http.Message.Head.{text_eq}
use libnode.Shared.MessageQueue.{open_queue, post_message}
use libnode.Jsonrpc.State.{
  undefined, long, string, object, Request, failed, an_object, Method, result, Message, Env,
  Service, new_service,
}
use libnode.Jsonrpc.Request.{
  to_arguments20, on_message, check_id20, check_params20, jsonrpc20, get_method, call_method,
  respond, respond_all, emit20, index_of, set, set_named,
}
use libnode.Jsonrpc.Service.{start, stop, add_method, put_method, post_request, deliver}
use libnode.Jsonrpc.Named.{values_of, to_arguments20-values_of, are_names}
use libnode.Jsonrpc.Once.{IsOnce, begins, steps, starts, adds, posts, delivers, Run-IsOnce}
use libnode.Jsonrpc.Answers.{
  Answered, response20, IsSilent, on_message-Answered, on_message-IsSilent,
}
use libnode.Jsonrpc.Lifecycle.{IsCall, refusals, stop-refuses}

-- {"jsonrpc": "2.0", "method": "sub", "params": {"b": 3, "a": 5}, "id": 1}.
abbrev call : Request
call = record {
  id = long 1;
  method = string (codes "sub");
  params = object ((codes "b", 3) ∷ (codes "a", 5) ∷ []);
  jsonrpc = string (codes "2.0");
}

abbrev notification : Request
notification = record call { id = undefined }

abbrev sub : Method
sub = record { name = codes "sub"; parameters = codes "a" ∷ codes "b" ∷ []; function = 7 }

-- The text "c" is the call, "n" the notification, and others are wrong; every method says 2 and
-- then 4.
abbrev env : Env
env = record {
  parse = λ json.
      if text_eq json (codes "c")
      then an_object call
      else if text_eq json (codes "n")
      then an_object notification
      else failed;
  body = λ function args. result 2 ∷ result 4 ∷ [];
}

abbrev call_message : Message
call_message = record { json = codes "c"; callback = some 9 }

abbrev notification_message : Message
notification_message = record { json = codes "n"; callback = none }

abbrev subtracting : Service
subtracting = (add_method (some sub) (start new_service).0).0

arguments_ordered :
    to_arguments20 (codes "a" ∷ codes "b" ∷ []) (object ((codes "b", 3) ∷ (codes "a", 5) ∷ []))
    ≡ some (some 5 ∷ some 3 ∷ [])
unfolding to_arguments20 set_named index_of set text_eq
arguments_ordered = refl

answered_once :
    (on_message env call_message subtracting).events ≡ (0, response20 (long 1) (result 2)) ∷ []
unfolding on_message check_id20 check_params20 jsonrpc20 get_method call_method respond respond_all
    emit20 to_arguments20 set_named index_of set text_eq start add_method put_method new_service
answered_once = refl

to_arguments20-values_of_example :
    to_arguments20 (codes "a" ∷ codes "b" ∷ []) (object ((codes "b", 3) ∷ (codes "a", 5) ∷ [])) ≡ (
      if length {A = Bytes × ℕ} ((codes "b", 3) ∷ (codes "a", 5) ∷ [])
          == length (codes "a" ∷ codes "b" ∷ [])
        && are_names ((codes "b", 3) ∷ (codes "a", 5) ∷ []) (codes "a" ∷ codes "b" ∷ [])
      then some (values_of (codes "a" ∷ codes "b" ∷ []) ((codes "b", 3) ∷ (codes "a", 5) ∷ []))
      else none)
unfolding text_eq
to_arguments20-values_of_example =
    to_arguments20-values_of (codes "a" ∷ codes "b" ∷ []) ((codes "b", 3) ∷ (codes "a", 5) ∷ [])
      refl refl

Run-IsOnce_example : IsOnce (deliver env (post_request true call_message subtracting).0)
Run-IsOnce_example = Run-IsOnce {env = env} (
    steps (steps (steps (steps begins starts) (adds (some sub))) (posts true call_message))
      delivers)

on_message-Answered_example :
    Answered subtracting.next
      (long 1)
      (some 9)
      subtracting
      (on_message env call_message subtracting)
unfolding text_eq check_id20
on_message-Answered_example =
    on_message-Answered env call_message call subtracting refl refl refl refl

on_message-IsSilent_example : IsSilent subtracting (on_message env notification_message subtracting)
unfolding text_eq check_params20
on_message-IsSilent_example =
    on_message-IsSilent env notification_message notification (codes "sub") subtracting refl refl
      refl refl refl

call_message-IsCall : IsCall env call_message call
unfolding text_eq check_id20 check_params20
call_message-IsCall = record {
  parsed = refl;
  version = refl;
  id_checked = refl;
  id_defined = refl;
  named = (codes "sub", refl);
  params_checked = refl;
}

abbrev posted : Service
posted = (post_request true call_message subtracting).0

stop-refuses_example :
    (stop env posted).0.events
    ≡ posted.events ++ refusals posted.listeners posted.next ((call_message, call) ∷ [])
unfolding post_request start add_method put_method new_service post_message open_queue
stop-refuses_example =
    stop-refuses env ((call_message, call) ∷ []) posted refl refl refl (call_message-IsCall, tt)
