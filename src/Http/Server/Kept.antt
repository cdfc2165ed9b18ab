-- ===== src/Http/Server/Kept.antt =====
-- Each operation keeps the order of a connection.
use mathlib.Core.Path.{subst}
use libnode.Base.{
  ℕ, ◌≡◌, refl, sym, ap, ◌∙◌, ◌⊎◌, inl, inr, Bool, true, false, ◌||◌, Option, none, some, List, [],
  ◌∷◌, ◌++◌, if◌then◌else◌, ◌==◌, Bool-cases,
}
use libnode.Http.Server.State.{Out, Connection}
use libnode.Http.Server.Ops.{
  finish_out, announce, end_waiting, last_waiting, end_held, last_held, mark_last, end_half_open,
}
use libnode.Http.Server.Finish.{
  out_ids, held_ids, NotEnded, WaitsBehind, IsInOrder, finish_out-IsInOrder,
}

end_waiting-out_ids : (n : ℕ) (os : List Out) → out_ids (end_waiting n os) ≡ out_ids os
unfolding end_waiting
end_waiting-out_ids n [] = refl
end_waiting-out_ids n (o ∷ os) = elim (Bool-cases (o.id == n)) [
  | inl h ↦ simp h refl
  | inr h ↦ simp h (ap (λ l. o.id ∷ l) (end_waiting-out_ids n os))
]

last_waiting-out_ids : (n : ℕ) (os : List Out) → out_ids (last_waiting n os) ≡ out_ids os
unfolding last_waiting
last_waiting-out_ids n [] = refl
last_waiting-out_ids n (o ∷ os) = elim (Bool-cases (o.id == n)) [
  | inl h ↦ simp h refl
  | inr h ↦ simp h (ap (λ l. o.id ∷ l) (last_waiting-out_ids n os))
]

mark_last-out_ids : (os : List Out) → out_ids (mark_last os) ≡ out_ids os
mark_last-out_ids [] = refl
mark_last-out_ids (o ∷ []) = refl
mark_last-out_ids (o ∷ n ∷ os) = ap (λ l. o.id ∷ l) (mark_last-out_ids (n ∷ os))

WaitsBehind-same :
    (h : Option Out) (os os' : List Out) (closing : Bool)
    → out_ids os' ≡ out_ids os
    → WaitsBehind h os closing
    → WaitsBehind h os' closing
WaitsBehind-same (some o) os os' closing e w = tt
WaitsBehind-same none os [] closing e w = tt
WaitsBehind-same none [] (o ∷ os') closing e w = absurd (cc)
WaitsBehind-same none (o ∷ os) (o' ∷ os') closing e w = w

-- Responses that wait may change all but their numbers.
outgoings-IsInOrder :
    (os : List Out) (c : Connection)
    → out_ids os ≡ out_ids c.outgoings
    → IsInOrder c
    → IsInOrder (record c { outgoings = os })
outgoings-IsInOrder os c e a = record {
  paired = a.paired ∙ ap (λ l. held_ids c.http_message ++ l) (sym e);
  in_order = ap (λ l. c.responses ++ (held_ids c.http_message ++ l)) e ∙ a.in_order;
  waits_behind = WaitsBehind-same c.http_message c.outgoings os c.closing e a.waits_behind;
  prompt = a.prompt;
  safe = a.safe;
}

held-IsInOrder :
    (o o' : Out) (c : Connection)
    → c.http_message ≡ some o
    → o'.id ≡ o.id
    → (c.writable ≡ false) ⊎ (o'.ended ≡ false)
    → IsInOrder c
    → IsInOrder (record c { http_message = some o' })
held-IsInOrder o o' c h e w a =
    let held : held_ids c.http_message ≡ o'.id ∷ [] = ap held_ids h ∙ ap (λ n. n ∷ []) (sym e) in
    record {
      paired = a.paired ∙ ap (λ l. l ++ out_ids c.outgoings) held;
      in_order = ap (λ l. c.responses ++ (l ++ out_ids c.outgoings)) (sym held) ∙ a.in_order;
      waits_behind = tt;
      prompt = w;
      safe = a.safe;
    }

pub end_held-IsInOrder :
    (h : Option Out) (flushed : Bool) (n : ℕ) (c : Connection)
    → c.http_message ≡ h
    → IsInOrder c
    → IsInOrder (end_held h flushed n c)
end_held-IsInOrder none flushed n c h a =
    outgoings-IsInOrder (end_waiting n c.outgoings) c (end_waiting-out_ids n c.outgoings) a
end_held-IsInOrder (some o) flushed n c h a = go (o.id == n) o.ended (c.writable || flushed) refl
  where
    finished : IsInOrder (finish_out c.incomings c.outgoings o c)
    finished =
        finish_out-IsInOrder c.incomings c.outgoings o c refl
          (a.paired ∙ ap (λ x. held_ids x ++ out_ids c.outgoings) h)
          (ap (λ x. c.responses ++ (held_ids x ++ out_ids c.outgoings)) (sym h) ∙ a.in_order) a.safe

    left_false : (b b' : Bool) → (b || b') ≡ false → b ≡ false
    left_false true b' e = e
    left_false false b' e = refl

    go :
        (b e w : Bool)
        → (c.writable || flushed) ≡ w
        → IsInOrder (
            if b
            then if e
              then c
              else if w
              then finish_out c.incomings c.outgoings o c
              else record c { http_message = some (record o { ended = true }) }
            else record c { outgoings = end_waiting n c.outgoings })
    go false e w k =
        outgoings-IsInOrder (end_waiting n c.outgoings) c (end_waiting-out_ids n c.outgoings) a
    go true true w k = a
    go true false true k = finished
    go true false false k =
        held-IsInOrder o (record o { ended = true }) c h refl
          (inl (left_false c.writable flushed k)) a

held_prompt :
    (o : Out) (c : Connection)
    → c.http_message ≡ some o
    → IsInOrder c
    → (c.writable ≡ false) ⊎ (o.ended ≡ false)
held_prompt o c h a = subst (λ x. (c.writable ≡ false) ⊎ NotEnded x) h a.prompt

pub last_held-IsInOrder :
    (h : Option Out) (n : ℕ) (c : Connection)
    → c.http_message ≡ h
    → IsInOrder c
    → IsInOrder (last_held h n c)
last_held-IsInOrder none n c h a =
    outgoings-IsInOrder (last_waiting n c.outgoings) c (last_waiting-out_ids n c.outgoings) a
last_held-IsInOrder (some o) n c h a = go (o.id == n)
  where
    go :
        (b : Bool)
        → IsInOrder (
            if b
            then record c { http_message = some (record o { last = true }) }
            else record c { outgoings = last_waiting n c.outgoings })
    go true = held-IsInOrder o (record o { last = true }) c h refl (held_prompt o c h a) a
    go false =
        outgoings-IsInOrder (last_waiting n c.outgoings) c (last_waiting-out_ids n c.outgoings) a

pub end_half_open-IsInOrder :
    (os : List Out) (h : Option Out) (c : Connection)
    → c.outgoings ≡ os
    → c.http_message ≡ h
    → IsInOrder c
    → IsInOrder (end_half_open os h c)
end_half_open-IsInOrder (o ∷ os) h c e k a =
    outgoings-IsInOrder (mark_last (o ∷ os)) c (mark_last-out_ids (o ∷ os) ∙ ap out_ids (sym e)) a
end_half_open-IsInOrder [] (some o) c e k a =
    held-IsInOrder o (record o { last = true }) c k refl (held_prompt o c k a) a
end_half_open-IsInOrder [] none c e k a = record {
  paired = a.paired;
  in_order = a.in_order;
  waits_behind = a.waits_behind;
  prompt = inl refl;
  safe = a.safe;
}

pub announce-IsInOrder :
    (n : ℕ) (expects check : Bool) (c : Connection)
    → IsInOrder c
    → IsInOrder (announce n expects check c)
unfolding announce
announce-IsInOrder n true true c a = record {
  paired = a.paired;
  in_order = a.in_order;
  waits_behind = a.waits_behind;
  prompt = a.prompt;
  safe = a.safe;
}
announce-IsInOrder n true false c a = record {
  paired = a.paired;
  in_order = a.in_order;
  waits_behind = a.waits_behind;
  prompt = a.prompt;
  safe = a.safe;
}
announce-IsInOrder n false check c a = record {
  paired = a.paired;
  in_order = a.in_order;
  waits_behind = a.waits_behind;
  prompt = a.prompt;
  safe = a.safe;
}
