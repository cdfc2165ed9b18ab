-- ===== src/Http/Incoming/Filling.antt =====
-- The headers of the message that the parser makes of the lines it collected.
use libnode.Base.{ℕ, ◌≡◌, refl, ap, ◌∙◌, false, Option, none, some, []}
use mathlib.Core.Path.{subst}
use libnode.Net.Socket.State.{Bytes}
use libnode.Http.Incoming.State.{Incoming, create, set_new_socket}
use libnode.Http.Incoming.Lines.{field_kind, get_value, add_header_lines}
use libnode.Http.Incoming.Joining.{values_of, header_of, add_header_lines-headers}
use libnode.Http.Incoming.Parser.{
  Parser, zip, lines_within, version_text, allocate, set_first_line, fill,
}

abbrev Blank : Option Incoming → Type 0
Blank none = Unit {0}
Blank (some m) = (m.complete ≡ false) × (m.headers ≡ [])

allocate-Blank : (spare : Option Incoming) (socket : Option ℕ) → Blank (allocate spare socket)
unfolding create set_new_socket
allocate-Blank none none = tt
allocate-Blank none (some s) = (refl, refl)
allocate-Blank (some m) socket = (refl, refl)

set_first_line-headers :
    (method : Option Bytes) (code : ℕ) (m : Incoming)
    → (set_first_line method code m).headers ≡ m.headers
set_first_line-headers none code m = refl
set_first_line-headers (some method) code m = refl

blank_filled :
    (f : Bytes) (decimal : ℕ → Bytes) (p : Parser) (m : Incoming)
    → m.complete ≡ false
    → m.headers ≡ []
    → get_value f (fill decimal p m).headers
      ≡ header_of
          (field_kind f)
          (values_of f (lines_within p.max_headers_count (zip p.fields p.values)))
unfolding fill
blank_filled f decimal p m c h =
    let lines = lines_within p.max_headers_count (zip p.fields p.values) in
    let begun = record m {
      url = p.url;
      http_version_major = p.major_ver;
      http_version_minor = p.minor_ver;
      http_version = some (version_text decimal p.major_ver p.minor_ver);
    } in
    ap (get_value f) (set_first_line-headers p.method p.status_code (add_header_lines lines begun))
    ∙ add_header_lines-headers f lines begun c h

-- Whether the message is new or one of the free list, with whatever headers and flags it had, the
-- parser gives it, for each field: nothing without a line of that field in whatever case; else for
-- Set-Cookie the array of all values, for the fields that are joined (x-..., Accept, Cookie and
-- others) all values with ", " between them, and for the others the last value. The lines are those
-- that the parser collected, up to maxHeadersCount_ of them.
pub fill-headers :
    (f : Bytes) (decimal : ℕ → Bytes) (spare : Option Incoming) (p : Parser) (m : Incoming)
    → allocate spare p.socket ≡ some m
    → get_value f (fill decimal p m).headers
      ≡ header_of
          (field_kind f)
          (values_of f (lines_within p.max_headers_count (zip p.fields p.values)))
fill-headers f decimal spare p m e =
    let blank = subst Blank e (allocate-Blank spare p.socket) in
    blank_filled f decimal p m blank.0 blank.1
