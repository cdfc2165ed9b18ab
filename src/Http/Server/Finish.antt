-- ===== src/Http/Server/Finish.antt =====
-- A response that finishes, and those that finish with it.
use mathlib.Core.Path.{subst}
use libnode.Base.{
  ℕ, ◌≡◌, refl, sym, ap, ◌∙◌, ◌⊎◌, inl, inr, Bool, true, false, ◌&&◌, Option, none, some, List, [],
  ◌∷◌, ◌++◌, append_assoc, if◌then◌else◌, Bool-cases,
}
use libnode.Http.Server.State.{In, Out, Connection}
use libnode.Http.Server.Ops.{destroy_soon, release_out, detach, finish_out}

abbrev pub in_ids : List In → List ℕ
in_ids [] = []
in_ids (i ∷ is) = i.id ∷ in_ids is

abbrev pub out_ids : List Out → List ℕ
out_ids [] = []
out_ids (o ∷ os) = o.id ∷ out_ids os

-- The responses that are not finished: the one that has the socket, and those that wait.
abbrev pub held_ids : Option Out → List ℕ
held_ids none = []
held_ids (some o) = o.id ∷ []

-- The response that has the socket is not ended.
abbrev pub NotEnded : Option Out → Type 0
NotEnded none = Unit {0}
NotEnded (some o) = o.ended ≡ false

-- A response waits only behind another, or once the socket closes.
abbrev pub WaitsBehind : Option Out → List Out → Bool → Type 0
WaitsBehind (some o) os closing = Unit {0}
WaitsBehind none [] closing = Unit {0}
WaitsBehind none (o ∷ os) closing = closing ≡ true

pub record IsInOrder (c : Connection) : Type 0 where
  pub paired : in_ids c.incomings ≡ held_ids c.http_message ++ out_ids c.outgoings
  pub in_order : c.responses ++ (held_ids c.http_message ++ out_ids c.outgoings) ≡ c.requests
  pub waits_behind : WaitsBehind c.http_message c.outgoings c.closing
  pub prompt : (c.writable ≡ false) ⊎ NotEnded c.http_message
  pub safe : c.crashed ≡ false

-- The fields that IsInOrder is about are those of another connection.
release_out-IsInOrder : (o : Out) (c : Connection) → IsInOrder c → IsInOrder (release_out o c)
release_out-IsInOrder o c a = record {
  paired = a.paired;
  in_order = a.in_order;
  waits_behind = a.waits_behind;
  prompt = a.prompt;
  safe = a.safe;
}

closing-WaitsBehind : (os : List Out) → WaitsBehind none os true
closing-WaitsBehind [] = tt
closing-WaitsBehind (o ∷ os) = refl

not_now : (n : Out) (w : Bool) → (n.ended && w) ≡ false → (w ≡ false) ⊎ NotEnded (some n)
not_now n w h = elim (Bool-cases n.ended) [
  | inl e ↦ inl (subst (λ b. (b && w) ≡ false) e h)
  | inr e ↦ inr e
]

-- A response that leaves: the request and the response of its number are gone.
pub left_in_order :
    (o : Out) (outs : List Out) (c : Connection)
    → c.responses ++ (o.id ∷ out_ids outs) ≡ c.requests
    → (c.responses ++ o.id ∷ []) ++ out_ids outs ≡ c.requests
left_in_order o outs c q = append_assoc c.responses (o.id ∷ []) (out_ids outs) ∙ q

tail_eq : (x y : ℕ) (xs ys : List ℕ) → x ∷ xs ≡ y ∷ ys → xs ≡ ys
tail_eq x y xs ys h = cc

soon-IsInOrder :
    (i : In) (is : List In) (outs : List Out) (o : Out) (c : Connection)
    → c.outgoings ≡ outs
    → in_ids (i ∷ is) ≡ o.id ∷ out_ids outs
    → c.responses ++ (o.id ∷ out_ids outs) ≡ c.requests
    → c.crashed ≡ false
    → IsInOrder (destroy_soon (detach o i is c))
soon-IsInOrder i is outs o c e p q s = record {
  paired = tail_eq i.id o.id (in_ids is) (out_ids outs) p ∙ ap out_ids (sym e);
  in_order = ap (λ l. (c.responses ++ o.id ∷ []) ++ out_ids l) e ∙ left_in_order o outs c q;
  waits_behind = closing-WaitsBehind c.outgoings;
  prompt = inl refl;
  safe = s;
}

pub finish_out-IsInOrder :
    (is : List In) (outs : List Out) (o : Out) (c : Connection)
    → c.outgoings ≡ outs
    → in_ids is ≡ o.id ∷ out_ids outs
    → c.responses ++ (o.id ∷ out_ids outs) ≡ c.requests
    → c.crashed ≡ false
    → IsInOrder (finish_out is outs o c)
unfolding finish_out
finish_out-IsInOrder [] outs o c e p q s = absurd (cc)
finish_out-IsInOrder (i ∷ is) [] o c e p q s = release_out-IsInOrder o after (choice o.last)
  where
    after : Connection
    after = if o.last then destroy_soon (detach o i is c) else detach o i is c

    choice : (b : Bool) → IsInOrder (if b then destroy_soon (detach o i is c) else detach o i is c)
    choice true = soon-IsInOrder i is [] o c e p q s
    choice false = record {
      paired = tail_eq i.id o.id (in_ids is) [] p ∙ ap out_ids (sym e);
      in_order = ap (λ l. (c.responses ++ o.id ∷ []) ++ out_ids l) e ∙ left_in_order o [] c q;
      waits_behind = subst (λ l. WaitsBehind none l c.closing) (sym e) tt;
      prompt = inr tt;
      safe = s;
    }
finish_out-IsInOrder (i ∷ is) (n ∷ outs) o c e p q s = release_out-IsInOrder o after (
    choice
      (finish_out-IsInOrder is outs n
        (record (detach o i is c) { outgoings = outs; http_message = some n }) refl rest_paired
        rest_in_order s)
      o.last (n.ended && c.writable) refl)
  where
    assigned : Connection
    assigned = record (detach o i is c) { outgoings = outs; http_message = some n }

    after : Connection
    after =
        if o.last
        then destroy_soon (detach o i is c)
        else if n.ended && c.writable
        then finish_out is outs n assigned
        else assigned

    rest_paired : in_ids is ≡ n.id ∷ out_ids outs
    rest_paired = tail_eq i.id o.id (in_ids is) (n.id ∷ out_ids outs) p

    rest_in_order : (c.responses ++ o.id ∷ []) ++ (n.id ∷ out_ids outs) ≡ c.requests
    rest_in_order = left_in_order o (n ∷ outs) c q

    choice :
        IsInOrder (finish_out is outs n assigned)
        → (b now : Bool) → (n.ended && c.writable) ≡ now
        → IsInOrder (
            if b
            then destroy_soon (detach o i is c)
            else if now
            then finish_out is outs n assigned
            else assigned)
    choice ih true now h = soon-IsInOrder i is (n ∷ outs) o c e p q s
    choice ih false true h = ih
    choice ih false false h = record {
      paired = rest_paired;
      in_order = rest_in_order;
      waits_behind = tt;
      prompt = not_now n c.writable h;
      safe = s;
    }
