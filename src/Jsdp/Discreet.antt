-- ===== src/Jsdp/Discreet.antt =====
-- What an unencrypted response shows, and the services under their keys.
use libnode.Base.{
  ◌≡◌, refl, sym, ap, ◌∙◌, true, ◌&&◌, Option, none, some, List, [], ◌∷◌, ◌++◌, Bool-cases, inl,
  inr, and_right,
}
use libnode.Net.Socket.State.{Bytes}
use libnode.Http.Message.Head.{text_eq}
use libnode.Http.Message.Fields.{text_eq_sound}
use libnode.Jsdp.State.{Entry, text, object, other, Packet, request, response, Env, Service}
use libnode.Jsdp.Keys.{key_of, starts_with, ends_with, get_services}
use libnode.Jsdp.Ops.{put_key, remove_key}
use libnode.Jsdp.Found.{IsHash, AllKeyed, is_open, ends_with-key_of}

abbrev pub AllOpen : List Entry → Type 0
AllOpen [] = Unit
AllOpen (e ∷ es) = (e.password ≡ none) × AllOpen es

abbrev pub ShowsOpen : Packet → Type 0
ShowsOpen (request id name hash) = Unit
ShowsOpen (response id (text t)) = Unit
ShowsOpen (response id (object d)) = AllOpen d.services
ShowsOpen (response id other) = Unit

abbrev pub AllShowOpen : List (Bytes × Packet) → Type 0
AllShowOpen [] = Unit
AllShowOpen ((address, p) ∷ ps) = ShowsOpen p × AllShowOpen ps

pub record IsDiscreet (env : Env) (s : Service) : Type 0 where
  pub keyed : AllKeyed env s.services
  pub shown : AllShowOpen s.sent

pub AllShowOpen-append :
    (ps : List (Bytes × Packet)) (address : Bytes) (p : Packet)
    → AllShowOpen ps
    → ShowsOpen p
    → AllShowOpen (ps ++ (address, p) ∷ [])
AllShowOpen-append [] address p h e = (e, tt)
AllShowOpen-append (x ∷ ps) address p h e = (h.0, AllShowOpen-append ps address p h.1 e)

pub AllKeyed-put_key :
    (env : Env) (e : Entry) (es : List (Bytes × Entry))
    → AllKeyed env es
    → AllKeyed env (put_key (key_of env e) e es)
unfolding put_key
AllKeyed-put_key env e [] k = (refl, tt)
AllKeyed-put_key env e ((key, e') ∷ es) k = elim (Bool-cases (text_eq key (key_of env e))) [
  | inl y ↦ rw y (text_eq_sound key (key_of env e) y, k.1)
  | inr n ↦ rw n (k.0, AllKeyed-put_key env e es k.1)
]

pub AllKeyed-remove_key :
    (env : Env) (key : Bytes) (es : List (Bytes × Entry))
    → AllKeyed env es
    → AllKeyed env (remove_key key es)
unfolding remove_key
AllKeyed-remove_key env key [] k = tt
AllKeyed-remove_key env key ((key', e) ∷ es) k = elim (Bool-cases (text_eq key' key)) [
  | inl y ↦ rw y k.1
  | inr n ↦ rw n (k.0, AllKeyed-remove_key env key es k.1)
]

open_password :
    (env : Env) (e : Entry) → IsHash env → ends_with (key_of env e) none ≡ true → e.password ≡ none
open_password env e h t = shown e.password (sym (ends_with-key_of env e none h) ∙ t)
  where
    shown : (password : Option Bytes) → is_open env password none ≡ true → password ≡ none
    shown none t = refl
    shown (some password) t = absurd (cc)

-- Without a hash, getServices() gives services without passwords.
pub get_services-AllOpen :
    (env : Env) (name : Option Bytes) (es : List (Bytes × Entry))
    → IsHash env
    → AllKeyed env es
    → AllOpen (get_services name none es)
unfolding get_services
get_services-AllOpen env name [] h k = tt
get_services-AllOpen env name ((key, e) ∷ es) h k =
    elim (Bool-cases (starts_with key name && ends_with key none)) [
      | inl y ↦ rw y (
        open_password env e h (
            ap (λ x. ends_with x none) (sym k.0)
            ∙ and_right (starts_with key name) (ends_with key none) y),
        get_services-AllOpen env name es h k.1,
      )
      | inr n ↦ rw n (get_services-AllOpen env name es h k.1)
    ]
