-- ===== src/Events/Emitter.antt =====
-- EventEmitter as built with shared_ptr (LIBNODE_USE_SP, the default): two parallel arrays of event
-- names and of listener arrays. A listener array is an object that emit() holds while listeners run,
-- so it is a number here, and `arrays` says what each array contains.
use Prim.Native.String.{String}
use text.Mathlib.Text.{◌==◌ as str_eq}
use libnode.Base.{
  ℕ, zero, suc, Bool, true, false, Option, none, some, List, [], ◌∷◌, ◌++◌, length, get_elem?,
  if◌then◌else◌, ◌==◌,
}

-- A function, or a Once object with the event and the function that it wraps.
pub data Listener : Type 0 where
  plain : ℕ → Listener
  one_time : String → ℕ → Listener

pub record Emitter : Type 0 where
  pub max_listeners : ℕ
  pub events : List String
  pub listener_arrays : List ℕ
  pub arrays : ℕ → List Listener
  pub next_array : ℕ

abbrev pub new_emitter : Emitter
new_emitter = record {
  max_listeners = 10;
  events = [];
  listener_arrays = [];
  arrays = λ a. [];
  next_array = 0;
}

abbrev pub update : (ℕ → List Listener) → ℕ → List Listener → ℕ → List Listener
update arrays a ls b = if a == b then ls else arrays b

abbrev pub set_array : ℕ → List Listener → Emitter → Emitter
set_array a ls e = record e { arrays = update e.arrays a ls }

-- The loop of getListeners().
unfoldable pub lookup : String → List String → List ℕ → Option ℕ
lookup ev [] as' = none
lookup ev (x ∷ xs) [] = none
lookup ev (x ∷ xs) (a ∷ as') = if str_eq x ev then some a else lookup ev xs as'

abbrev pub get_listeners : String → Emitter → Option ℕ
get_listeners ev e = lookup ev e.events e.listener_arrays

-- newListeners() appends the event and a new array.
unfoldable pub new_listeners : String → Emitter → ℕ × Emitter
new_listeners ev e = (
  e.next_array,
  record e {
    events = e.events ++ ev ∷ [];
    listener_arrays = e.listener_arrays ++ e.next_array ∷ [];
    arrays = update e.arrays e.next_array [];
    next_array = suc e.next_array;
  },
)

-- listeners(): the array of the event, made if there is none.
unfoldable pub listeners : String → Emitter → ℕ × Emitter
listeners ev e = elim (get_listeners ev e) [ none ↦ new_listeners ev e | some a ↦ (a, e) ]

-- The first half of addListener(): the listener goes to the end of the event's array.
unfoldable pub push_listener : String → Listener → Emitter → Emitter
push_listener ev l e = let (a, e') = listeners ev e in set_array a (e'.arrays a ++ l ∷ []) e'

abbrev pub target : Listener → ℕ
target (plain f) = f
target (one_time ev f) = f

-- The loop of removeListener(): the first entry that is the function or wraps it.
unfoldable pub remove_first : ℕ → List Listener → List Listener
remove_first f [] = []
remove_first f (l ∷ ls) = if target l == f then ls else l ∷ remove_first f ls

unfoldable pub remove_listener : String → ℕ → Emitter → Emitter
remove_listener ev f e = elim (get_listeners ev e) [
  | none ↦ e
  | some a ↦ set_array a (remove_first f (e.arrays a)) e
]

unfoldable pub remove_all_listeners : Emitter → Emitter
remove_all_listeners e = record e { events = []; listener_arrays = [] }

-- removeAllListeners(event): the first entry for the event goes from both arrays.
unfoldable pub drop_event : String → List String → List ℕ → List String × List ℕ
drop_event ev [] as' = ([], as')
drop_event ev (x ∷ xs) [] = (x ∷ xs, [])
drop_event ev (x ∷ xs) (a ∷ as') =
    let (ys, bs) = drop_event ev xs as' in if str_eq x ev then (xs, as') else (x ∷ ys, a ∷ bs)

unfoldable pub remove_all_listeners_of : String → Emitter → Emitter
remove_all_listeners_of ev e =
    let (ys, bs) = drop_event ev e.events e.listener_arrays in
    record e { events = ys; listener_arrays = bs }

unfoldable pub set_max_listeners : ℕ → Emitter → Emitter
set_max_listeners max e = record e { max_listeners = max }

-- The array of arguments; `none` is the null array.
abbrev pub Args : Type 0 → Type 0
Args V = Option (List V)

-- `args->add(v1); args->add(v2); …` of the overloads of emit().
unfoldable pub add_all {ℓ} : {V : Type ℓ} → List V → List V → List V
add_all args [] = args
add_all args (v ∷ vs) = add_all (args ++ v ∷ []) vs

-- What a listener does to the world and to the emitter; `none` is a crash.
abbrev pub Caller : Type 0 → Type 0 → Type 0
Caller V W = ℕ → Args V → W → Emitter → Option (W × Emitter)

module _ {V W : Type 0} (call : Caller V W) where
  -- A listener is called; a Once object then removes its function from its event.
  unfoldable pub run_listener : Listener → Args V → W → Emitter → Option (W × Emitter)
  run_listener (plain f) args w e = call f args w e
  run_listener (one_time ev f) args w e = elim (call f args w e) [
    | none ↦ none
    | some (w', e') ↦ some (w', remove_listener ev f e')
  ]

  -- `i++` for a function; for a Once object `len--`.
  abbrev pub next_index : Listener → ℕ → ℕ
  next_index (plain f) i = suc i
  next_index (one_time ev f) i = i

  -- The loop of emit() on the array `a`, with `len - i` rounds left. Each round either raises `i` or
  -- lowers `len`. An index past the end of the array is a crash.
  unfoldable pub emit_loop : ℕ → ℕ → ℕ → Args V → W → Emitter → Option (W × Emitter)
  emit_loop zero a i args w e = some (w, e)
  emit_loop (suc rounds) a i args w e = elim (get_elem? (e.arrays a) i) [
    | none ↦ none
    | some l ↦ elim (run_listener l args w e) [
      | none ↦ none
      | some (w', e') ↦ emit_loop rounds a (next_index l i) args w' e'
    ]
  ]

  abbrev pub finish_emit : Option (W × Emitter) → Option (W × Emitter × Bool)
  finish_emit none = none
  finish_emit (some (w, e)) = some (w, e, true)

  unfoldable pub emit : String → Args V → W → Emitter → Option (W × Emitter × Bool)
  emit ev args w e = elim (get_listeners ev e) [
    | none ↦ some (w, e, false)
    | some a ↦ elim (length (e.arrays a)) [
      | zero ↦ some (w, e, false)
      | suc n ↦ finish_emit (emit_loop (suc n) a 0 args w e)
    ]
  ]

  -- emit(event, v1, …, vn), for one to nine values.
  unfoldable pub emit_values : String → List V → W → Emitter → Option (W × Emitter × Bool)
  emit_values ev vs w e = emit ev (some (add_all [] vs)) w e

  -- addListener(); `new_listener` is I::EVENT_NEW_LISTENER.
  unfoldable pub add_listener :
      String → String → Option Listener → W → Emitter → Option (W × Emitter × Bool)
  add_listener new_listener ev none w e = some (w, e, false)
  add_listener new_listener ev (some l) w e = emit new_listener none w (push_listener ev l e)

  -- once() wraps a function that is not null.
  unfoldable pub once : String → String → Option ℕ → W → Emitter → Option (W × Emitter × Bool)
  once new_listener ev none w e = some (w, e, false)
  once new_listener ev (some f) w e = add_listener new_listener ev (some (one_time ev f)) w e
