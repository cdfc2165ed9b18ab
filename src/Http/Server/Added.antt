-- ===== src/Http/Server/Added.antt =====
-- A new message and its response come last in the order of a connection.
use mathlib.Core.Path.{subst}
use libnode.Base.{
  ℕ, ◌+◌, ◌≡◌, refl, sym, ap, ◌∙◌, inr, false, Option, none, some, List, [], ◌∷◌, ◌++◌,
  append_assoc, append-nil,
}
use libnode.Http.Server.State.{In, Out, Connection}
use libnode.Http.Server.Ops.{new_in, add_out}
use libnode.Http.Server.Finish.{in_ids, out_ids, held_ids, WaitsBehind, IsInOrder}

in_ids-append : (is js : List In) → in_ids (is ++ js) ≡ in_ids is ++ in_ids js
in_ids-append [] js = refl
in_ids-append (i ∷ is) js = ap (λ l. i.id ∷ l) (in_ids-append is js)

out_ids-append : (os ps : List Out) → out_ids (os ++ ps) ≡ out_ids os ++ out_ids ps
out_ids-append [] ps = refl
out_ids-append (o ∷ os) ps = ap (λ l. o.id ∷ l) (out_ids-append os ps)

none_wait : (os : List Out) → WaitsBehind none os false → out_ids os ≡ []
none_wait [] w = refl
none_wait (o ∷ os) w = absurd (cc)

abbrev with_request : ℕ → Connection → Connection
with_request n c = record c {
  next_id = n + 1;
  incomings = c.incomings ++ new_in n ∷ [];
  requests = c.requests ++ n ∷ [];
}

added_first :
    (o : Out) (c : Connection)
    → c.http_message ≡ none
    → c.closing ≡ false
    → o.ended ≡ false
    → IsInOrder c
    → IsInOrder (record (with_request o.id c) { http_message = some o })
added_first o c h k e a =
    let behind = subst (λ b. WaitsBehind c.http_message c.outgoings b) k a.waits_behind in
    let empty = none_wait c.outgoings (subst (λ x. WaitsBehind x c.outgoings false) h behind) in
    let nothing : held_ids c.http_message ++ out_ids c.outgoings ≡ [] =
      ap (λ x. held_ids x ++ out_ids c.outgoings) h ∙ empty in
    let all : c.responses ≡ c.requests =
      sym (append-nil c.responses) ∙ ap (λ l. c.responses ++ l) (sym nothing) ∙ a.in_order in
    record {
      paired =
          in_ids-append c.incomings (new_in o.id ∷ [])
          ∙ ap (λ l. l ++ o.id ∷ []) (a.paired ∙ nothing)
          ∙ ap (λ l. o.id ∷ l) (sym empty);
      in_order = ap (λ l. c.responses ++ (o.id ∷ l)) empty ∙ ap (λ l. l ++ o.id ∷ []) all;
      waits_behind = tt;
      prompt = inr e;
      safe = a.safe;
    }

added_behind :
    (x o : Out) (c : Connection)
    → c.http_message ≡ some x
    → IsInOrder c
    → IsInOrder (record (with_request o.id c) { outgoings = c.outgoings ++ o ∷ [] })
added_behind x o c h a =
    let held = held_ids c.http_message in
    let outs = out_ids c.outgoings in
    record {
      paired =
          in_ids-append c.incomings (new_in o.id ∷ [])
          ∙ ap (λ l. l ++ o.id ∷ []) a.paired
          ∙ append_assoc held outs (o.id ∷ [])
          ∙ ap (λ l. held ++ l) (sym (out_ids-append c.outgoings (o ∷ [])));
      in_order =
          ap (λ l. c.responses ++ (held ++ l)) (out_ids-append c.outgoings (o ∷ []))
          ∙ ap (λ l. c.responses ++ l) (sym (append_assoc held outs (o.id ∷ [])))
          ∙ sym (append_assoc c.responses (held ++ outs) (o.id ∷ []))
          ∙ ap (λ l. l ++ o.id ∷ []) a.in_order;
      waits_behind = subst (λ y. WaitsBehind y (c.outgoings ++ o ∷ []) c.closing) (sym h) tt;
      prompt = a.prompt;
      safe = a.safe;
    }

pub added-IsInOrder :
    (h : Option Out) (o : Out) (c : Connection)
    → c.http_message ≡ h
    → c.closing ≡ false
    → o.ended ≡ false
    → IsInOrder c
    → IsInOrder (add_out h o (with_request o.id c))
added-IsInOrder none o c h k e a = added_first o c h k e a
added-IsInOrder (some x) o c h k e a = added_behind x o c h a
