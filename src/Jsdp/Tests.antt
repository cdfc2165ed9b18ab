-- ===== src/Jsdp/Tests.antt =====
-- Services that meet the hypotheses of the theorems about jsdp::DiscoveryService, and runs.
use libnode.Base.{◌+◌, ◌%◌, ◌≡◌, refl, true, none, some, [], ◌∷◌, ◌++◌, codes, length, arith}
use libnode.Http.Message.Head.{text_eq, get_entry, put_entry}
use libnode.Jsdp.State.{Entry, text, request, response, Env, Service, new_service}
use libnode.Jsdp.Keys.{hash_of, get_services, key_of, starts_with, ends_with, is_prefix, is_suffix}
use libnode.Jsdp.Ops.{
  put_service, put_key, join, start, discover, send, on_message, on_timeout, callback_of,
}
use libnode.Jsdp.Runs.{begins, steps, starts, joins, discovers, receives}
use libnode.Jsdp.Found.{IsHash, wanted, get_services-wanted}
use libnode.Jsdp.Discreet.{IsDiscreet}
use libnode.Jsdp.Secrets.{Run-IsDiscreet}
use libnode.Jsdp.Timeouts.{timed_out-called}
use libnode.Jsdp.Exchange.{question, reply, shown_to, bare, exchange}

abbrev printer : Entry
printer = record { name = codes "print"; version = some (codes "1.0"); password = none }

abbrev vault : Entry
vault = record { name = codes "vault"; version = none; password = some (codes "abc") }

-- A hash of one digit, and a cipher of which nothing is deciphered.
abbrev plain_env : Env
plain_env = record {
  hash = λ password. (length password % 10 + 48) ∷ [];
  encrypt = λ password d. codes "x";
  decrypt = λ password t. none;
  os_hostname = codes "host";
  binds = true;
  group = codes "224.0.0.1";
}

plain_env-IsHash : IsHash plain_env
plain_env-IsHash = record {
  size = 1;
  not_empty = omega arith;
  same_length = λ password. refl;
  has_no_colon = λ password. ground arith;
}

abbrev registry : Service
registry =
    (join plain_env (some vault)
      (join plain_env (some printer) (start plain_env new_service).0).0).0

-- Without a password the printer is found, with the one of the vault both are.
found_open : get_services none none registry.services ≡ printer ∷ []
unfolding get_services starts_with ends_with is_prefix is_suffix join put_service put_key key_of
    text_eq start new_service
found_open = refl

found_both : get_services none (some (51 ∷ [])) registry.services ≡ printer ∷ vault ∷ []
unfolding get_services starts_with ends_with is_prefix is_suffix join put_service put_key key_of
    text_eq start new_service
found_both = refl

get_services-wanted_example :
    get_services (some (codes "vault")) (hash_of plain_env (some (codes "abc"))) registry.services
    ≡ wanted plain_env (some (codes "vault")) (some (codes "abc")) registry.services
unfolding join put_service put_key key_of text_eq start new_service
get_services-wanted_example =
    get_services-wanted plain_env (some (codes "vault")) (some (codes "abc")) registry.services
      plain_env-IsHash refl (refl, (refl, tt)) (refl, (refl, tt))

Run-IsDiscreet_example :
    IsDiscreet plain_env (on_message plain_env (question 4 none none) (codes "10.0.0.1") registry)
Run-IsDiscreet_example = Run-IsDiscreet plain_env plain_env-IsHash (
    steps (steps (steps (steps begins starts) (joins (some printer))) (joins (some vault)))
      (receives (question 4 none none) (codes "10.0.0.1")))

abbrev asking : Service
asking = (discover plain_env none none (some 5) (start plain_env new_service).0).0

timed_out-called_example :
    (on_message plain_env (reply 1 []) (codes "10.0.0.1") (on_timeout 1 asking)).called
    ≡ (on_timeout 1 asking).called
unfolding discover send start new_service
timed_out-called_example =
    timed_out-called plain_env 1 (reply 1 []) (codes "10.0.0.1") {s = asking}
      (steps (steps begins starts) (discovers none none (some 5))) (omega arith) begins refl

-- The cipher of what the registry shows.
abbrev env : Env
env = record plain_env {
  decrypt =
      λ password t. some (bare (shown_to plain_env (some (codes "vault")) (codes "abc") registry));
}

exchange_example :
    let b = (start env new_service).0 in
    let d = shown_to env (some (codes "vault")) (codes "abc") registry in
    let asked = (discover env (some (codes "vault")) (some (codes "abc")) (some 5) b).0 in
    (asked.sent
      ≡ b.sent
        ++ (env.group, request (b.id + 1) (some (codes "vault")) (some (env.hash (codes "abc"))))
          ∷ [])
    × ((on_message env
          (question (b.id + 1) (some (codes "vault")) (some (env.hash (codes "abc"))))
          (codes "10.0.0.2")
          registry).sent
        ≡ registry.sent
          ++ (codes "10.0.0.2", response (b.id + 1) (text (env.encrypt (codes "abc") d))) ∷ [])
    × ((on_message env
          (reply (b.id + 1) (env.encrypt (codes "abc") d))
          (codes "10.0.0.1")
          asked).called
        ≡ b.called ++ (5, bare d, codes "10.0.0.1") ∷ [])
unfolding join put_service put_key key_of text_eq start new_service get_entry put_entry wanted
    callback_of
exchange_example =
    exchange env (some (codes "vault")) (codes "abc") 5 (codes "10.0.0.1") (codes "10.0.0.2")
      registry (start env new_service).0
      (record {
        size = 1;
        not_empty = omega arith;
        same_length = λ password. refl;
        has_no_colon = λ password. ground arith;
      })
      refl (refl, (refl, tt)) (refl, (refl, tt)) refl refl refl refl refl refl
