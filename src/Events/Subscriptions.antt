-- ===== src/Events/Subscriptions.antt =====
-- EventEmitter seen as a map from events to lists of listeners: what each operation does to the
-- list of every event.
use Prim.Native.String.{String}
use text.Mathlib.Text.{◌==◌ as str_eq}
use text.Mathlib.TextEquality.{eq_iff}
use libnode.Base.{
  ℕ, ◌≡◌, refl, inl, inr, none, some, List, [], ◌∷◌, ◌++◌, arith, if◌then◌else◌, ◌==◌, Option-cases,
}
use libnode.Events.Emitter.{
  Listener, Emitter, set_array, get_listeners, new_listeners, listeners, push_listener,
  remove_first, remove_listener, remove_all_listeners_of,
}
use libnode.Events.Arrays.{
  Paired, lookup-lt, lookup_inj, lookup_snoc, Paired-snoc, drop_event-Dropped,
}

-- The listeners of an event, in the order in which they are called.
unfoldable pub subscribed : String → Emitter → List Listener
subscribed ev e = elim (get_listeners ev e) [ none ↦ [] | some a ↦ e.arrays a ]

abbrev pub IsPaired : Emitter → Type 0
IsPaired e = Paired e.next_array e.events e.listener_arrays

pub subscribed-none : (ev : String) (e : Emitter) → get_listeners ev e ≡ none → subscribed ev e ≡ []
unfolding subscribed
subscribed-none ev e h = rw (h, subscribed)

pub subscribed-some :
    (ev : String) (e : Emitter) (a : ℕ) → get_listeners ev e ≡ some a → subscribed ev e ≡ e.arrays a
unfolding subscribed
subscribed-some ev e a h = rw (h, subscribed)

-- A write to the array of one event is seen under that event alone.
set_array-subscribed :
    (ev y : String) (a : ℕ) (ls : List Listener) (e : Emitter)
    → IsPaired e
    → get_listeners ev e ≡ some a
    → subscribed y (set_array a ls e) ≡ (if str_eq ev y then ls else subscribed y e)
set_array-subscribed ev y a ls e p h = elim (Option-cases (get_listeners y e)) [
  | inl k ↦
      ground (arith, eq_iff ev y, subscribed-none y e k, subscribed-none y (set_array a ls e) k)
  | inr (b, k) ↦ ground (
    arith,
    eq_iff ev y,
    subscribed-some y e b k,
    subscribed-some y (set_array a ls e) b k,
    lookup_inj e.next_array e.events e.listener_arrays ev y {b = a} p h,
  )
]

pub new_listeners-IsPaired :
    (ev : String) (e : Emitter)
    → IsPaired e
    → get_listeners ev e ≡ none
    → IsPaired (new_listeners ev e).1
unfolding new_listeners
new_listeners-IsPaired ev e p h = Paired-snoc e.next_array e.events e.listener_arrays ev p h

new_listeners-get_listeners :
    (ev y : String) (e : Emitter)
    → IsPaired e
    → get_listeners ev e ≡ none
    → get_listeners y (new_listeners ev e).1
      ≡ (if str_eq ev y then some e.next_array else get_listeners y e)
unfolding new_listeners
new_listeners-get_listeners ev y e p h =
    lookup_snoc e.next_array e.events e.listener_arrays ev y e.next_array p h

new_listeners-arrays :
    (ev : String) (e : Emitter) (b : ℕ)
    → (new_listeners ev e).1.arrays b ≡ (if e.next_array == b then [] else e.arrays b)
unfolding new_listeners
new_listeners-arrays ev e b = refl

pub listeners-some :
    (ev : String) (e : Emitter) (a : ℕ) → get_listeners ev e ≡ some a → listeners ev e ≡ (a, e)
unfolding listeners
listeners-some ev e a h = rw (h, listeners)

pub listeners-none :
    (ev : String) (e : Emitter) → get_listeners ev e ≡ none → listeners ev e ≡ new_listeners ev e
unfolding listeners
listeners-none ev e h = rw (h, listeners)

-- A new array is empty, and no other event sees it.
pub new_listeners-subscribed :
    (ev y : String) (e : Emitter)
    → IsPaired e
    → get_listeners ev e ≡ none
    → subscribed y (new_listeners ev e).1 ≡ subscribed y e
new_listeners-subscribed ev y e p h = elim (Option-cases (get_listeners y e)) [
  | inl k ↦ ground (
    arith,
    subscribed-none y e k,
    new_listeners-get_listeners ev y e p h,
    subscribed-some y (new_listeners ev e).1 e.next_array,
    subscribed-none y (new_listeners ev e).1,
    new_listeners-arrays ev e e.next_array,
  )
  | inr (b, k) ↦ ground (
    arith,
    eq_iff ev y,
    subscribed-some y e b k,
    new_listeners-get_listeners ev y e p h,
    subscribed-some y (new_listeners ev e).1 b,
    new_listeners-arrays ev e b,
    lookup-lt e.next_array e.events e.listener_arrays y {b = b} p k,
  )
]

push_listener-some :
    (ev : String) (l : Listener) (e : Emitter) (a : ℕ)
    → get_listeners ev e ≡ some a
    → push_listener ev l e ≡ set_array a (e.arrays a ++ l ∷ []) e
unfolding push_listener
push_listener-some ev l e a h = rw (listeners-some ev e a h)

push_listener-none :
    (ev : String) (l : Listener) (e : Emitter)
    → get_listeners ev e ≡ none
    → push_listener ev l e
      ≡ set_array e.next_array
          ((new_listeners ev e).1.arrays e.next_array ++ l ∷ [])
          (new_listeners ev e).1
unfolding push_listener
push_listener-none ev l e h = rw (listeners-none ev e h) (unfold new_listeners in refl)

-- Subscribing one listener, through an array that is there or a new one.
pub push_listener-subscribed :
    (ev y : String) (l : Listener) (e : Emitter)
    → IsPaired e
    → subscribed y (push_listener ev l e)
      ≡ (if str_eq ev y then subscribed ev e ++ l ∷ [] else subscribed y e)
push_listener-subscribed ev y l e p = elim (Option-cases (get_listeners ev e)) [
  | inl h ↦ rw (push_listener-none ev l e h) (
      ground (
        arith,
        set_array-subscribed ev y e.next_array
            ((new_listeners ev e).1.arrays e.next_array ++ l ∷ []) (new_listeners ev e).1
            (new_listeners-IsPaired ev e p h),
        new_listeners-get_listeners ev ev e p h,
        eq_iff ev ev,
        new_listeners-subscribed ev y e p h,
        new_listeners-arrays ev e e.next_array,
        subscribed-none ev e h,
      ))
  | inr (a, h) ↦
      rw (push_listener-some ev l e a h, subscribed-some ev e a h)
        (set_array-subscribed ev y a (e.arrays a ++ l ∷ []) e p h)
]

pub push_listener-IsPaired :
    (ev : String) (l : Listener) (e : Emitter) → IsPaired e → IsPaired (push_listener ev l e)
push_listener-IsPaired ev l e p = elim (Option-cases (get_listeners ev e)) [
  | inl h ↦ rw (push_listener-none ev l e h) (new_listeners-IsPaired ev e p h)
  | inr (a, h) ↦ rw (push_listener-some ev l e a h) p
]

pub remove_listener-some :
    (ev : String) (f : ℕ) (e : Emitter) (a : ℕ)
    → get_listeners ev e ≡ some a
    → remove_listener ev f e ≡ set_array a (remove_first f (e.arrays a)) e
unfolding remove_listener
remove_listener-some ev f e a h = rw (h, remove_listener)

remove_listener-none :
    (ev : String) (f : ℕ) (e : Emitter) → get_listeners ev e ≡ none → remove_listener ev f e ≡ e
unfolding remove_listener
remove_listener-none ev f e h = rw (h, remove_listener)

pub remove_listener-IsPaired :
    (ev : String) (f : ℕ) (e : Emitter) → IsPaired e → IsPaired (remove_listener ev f e)
remove_listener-IsPaired ev f e p = elim (Option-cases (get_listeners ev e)) [
  | inl h ↦ rw (remove_listener-none ev f e h) p
  | inr (a, h) ↦ rw (remove_listener-some ev f e a h) p
]

pub remove_listener-subscribed :
    (ev y : String) (f : ℕ) (e : Emitter)
    → IsPaired e
    → subscribed y (remove_listener ev f e)
      ≡ (if str_eq ev y then remove_first f (subscribed ev e) else subscribed y e)
unfolding remove_first
remove_listener-subscribed ev y f e p = elim (Option-cases (get_listeners ev e)) [
  | inl h ↦ rw (remove_listener-none ev f e h) (ground (arith, eq_iff ev y, subscribed-none ev e h))
  | inr (a, h) ↦
      rw (remove_listener-some ev f e a h, subscribed-some ev e a h)
        (set_array-subscribed ev y a (remove_first f (e.arrays a)) e p h)
]

pub remove_all_listeners_of-subscribed :
    (ev y : String) (e : Emitter)
    → IsPaired e
    → subscribed y (remove_all_listeners_of ev e) ≡ (if str_eq ev y then [] else subscribed y e)
unfolding subscribed remove_all_listeners_of
remove_all_listeners_of-subscribed ev y e p =
    ground (arith, (drop_event-Dropped e.next_array e.events e.listener_arrays ev p).others y)

pub remove_all_listeners_of-IsPaired :
    (ev : String) (e : Emitter) → IsPaired e → IsPaired (remove_all_listeners_of ev e)
unfolding remove_all_listeners_of
remove_all_listeners_of-IsPaired ev e p =
    (drop_event-Dropped e.next_array e.events e.listener_arrays ev p).paired
