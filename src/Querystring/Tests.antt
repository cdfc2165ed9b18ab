-- ===== src/Querystring/Tests.antt =====
-- Queries that meet the hypotheses of the theorem about parse(), and runs.
use libnode.Base.{◌≡◌, refl, some, [], ◌∷◌, codes}
use libnode.Util.Percent.{
  percent_encode, percent_decode, is_unreserved, encode_into, encode_loop, encode_byte, escape,
  decode_loop, c_string, hex_value,
}
use libnode.Http.Message.Head.{text_eq}
use libnode.Querystring.Parse.{
  text, texts, add_pair, add_decoded, substring, field_at, parse_loop, parse,
}
use libnode.Querystring.Print.{
  blank, plain, scalar, array, scalar_text, array_text, entry_text, entries_text, stringify,
}
use libnode.Querystring.Cutting.{add_fields}
use libnode.Querystring.Fields.{all_fields, parse-add_fields}

parsed :
    parse (λ t. t) (some (codes "a=1&b&a=%41=c")) 38 61
    ≡ some (
        (codes "a", text (codes "1")) ∷ (codes "b", text []) ∷ (codes "a=A", text (codes "c")) ∷ [])
unfolding parse parse_loop field_at substring add_decoded add_pair percent_decode decode_loop
    c_string hex_value text_eq
parsed = refl

parsed_array :
    parse (λ t. t) (some (codes "a=1&a=2&a=3")) 38 61
    ≡ some ((codes "a", texts (codes "1" ∷ codes "2" ∷ codes "3" ∷ [])) ∷ [])
unfolding parse parse_loop field_at substring add_decoded add_pair percent_decode decode_loop
    c_string hex_value text_eq
parsed_array = refl

stringified :
    stringify
      (some (
        (codes "a", array (plain (codes "1") ∷ blank ∷ []))
        ∷ (codes "b c", scalar (plain (codes "/")))
        ∷ []))
      38
      61
    ≡ codes "a=1&a=&b%20c=%2F"
unfolding stringify entries_text entry_text array_text scalar_text percent_encode encode_into
    encode_loop encode_byte escape is_unreserved
stringified = refl

parse-add_fields_example :
    parse (λ t. t) (some (codes "a=1&b&a=x=c")) 38 61
    ≡ add_fields (λ t. t) 61 (all_fields 38 61 (codes "a=1&b&a=x=c")) (some [])
parse-add_fields_example = parse-add_fields (λ t. t) 38 61 97 (codes "=1&b&a=x=c")
