-- ===== src/Uri/Tests.antt =====
-- The coders of `uri` on concrete texts.
use atframe_utils.Base.{codes, ℕ, ◌<◌, true, false, ◌++◌, All, ◌≡◌, refl, arith, List, [], ◌∷◌}
use atframe_utils.Uri.{
  in_char_range, raw_url_map, uri_component_map, uri_map, hex_char, encode_char, encode_with,
  hex_value, decode_char, taken_behind, decode_from, decode_with, encode_uri, decode_uri,
  encode_uri_component, decode_uri_component, raw_encode_url, raw_decode_url, encode_url,
  decode_url,
}
use atframe_utils.Uri.RoundTrip.{AreInverse, uri_coders-AreInverse}
use atframe_utils.Uri.Written.{is_written, uri_encoders-written}

abbrev sentence : List ℕ
sentence = codes "key=value&foo=bar baz"

encodes_component : encode_uri_component sentence 21 ≡ codes "key%3Dvalue%26foo%3Dbar%20baz"
unfolding encode_uri_component encode_with encode_char uri_component_map raw_url_map in_char_range
    hex_char
encodes_component = refl

encodes_uri : encode_uri sentence 21 ≡ codes "key=value&foo=bar%20baz"
unfolding encode_uri encode_with encode_char uri_map uri_component_map raw_url_map in_char_range
    hex_char
encodes_uri = refl

encodes_url : encode_url (codes "hello world~") 0 ≡ codes "hello+world%7E"
unfolding encode_url encode_with encode_char raw_url_map in_char_range hex_char
encodes_url = refl

-- An escape that the text ends in, or a plus sign outside of PHP's form, stays as it is.
decodes_cut : decode_uri_component (codes "a+b%41%2") 0 ≡ codes "a+bA%2"
unfolding decode_uri_component decode_with decode_from decode_char taken_behind hex_value
    in_char_range
decodes_cut = refl

-- An escape whose digits are none gives a zero for each.
decodes_wrong : decode_url (codes "a+%zz%4g") 0 ≡ codes "a " ++ 0 ∷ 64 ∷ []
unfolding decode_url decode_with decode_from decode_char taken_behind hex_value in_char_range
decodes_wrong = refl

sentence_bytes : All (λ c. c < 256) (codes "a b%")
sentence_bytes = (omega arith, (omega arith, (omega arith, (omega arith, tt))))

uri_coders-AreInverse_example :
    AreInverse encode_uri decode_uri (codes "a b%")
    × AreInverse encode_uri_component decode_uri_component (codes "a b%")
    × AreInverse raw_encode_url raw_decode_url (codes "a b%")
    × AreInverse encode_url decode_url (codes "a b%")
uri_coders-AreInverse_example = uri_coders-AreInverse (codes "a b%") sentence_bytes

uri_encoders-written_example :
    All (λ c. is_written uri_map false c ≡ true) (encode_uri (codes "a b%") 4)
    × All (λ c. is_written uri_component_map false c ≡ true) (encode_uri_component (codes "a b%") 4)
    × All (λ c. is_written raw_url_map false c ≡ true) (raw_encode_url (codes "a b%") 4)
    × All (λ c. is_written raw_url_map true c ≡ true) (encode_url (codes "a b%") 4)
uri_encoders-written_example = uri_encoders-written (codes "a b%") sentence_bytes
