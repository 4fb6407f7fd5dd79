-- ===== src/Uri.antt =====
-- string/tquerystring.cpp, the functions of the namespace `uri`. A character is its code as an
-- unsigned char, and a buffer is the list of its characters.
pub mod RoundTrip
mod Tests
pub mod Written
use atframe_utils.Base.{
  codes, contains, c_str, ℕ, zero, suc, ◌+◌, ◌-◌, ◌*◌, ◌/◌, ◌%◌, List, [], ◌∷◌, ◌++◌, Bool, true,
  false, not, ◌&&◌, ◌||◌, ltb, leb, ◌==◌, if◌then◌else◌, length, take,
}

in_char_range : ℕ → ℕ → ℕ → Bool
in_char_range first n c = leb first c && ltb c (first + n)

-- The characters that each table marks, after its `_init` function.
pub raw_url_map : ℕ → Bool
unfolding in_char_range
raw_url_map c =
    in_char_range b'a' 26 c
    || in_char_range b'A' 26 c
    || in_char_range b'0' 10 c
    || contains (codes "-_.") c

pub uri_component_map : ℕ → Bool
uri_component_map c = raw_url_map c || contains (codes "!~*'()") c

pub uri_map : ℕ → Bool
uri_map c = uri_component_map c || contains (codes ";/?:@&=+$,#") c

hex_char : ℕ → ℕ
hex_char v = if ltb v 10 then b'0' + v else b'A' - 10 + v

-- `_encode_uri`, one character of its loop
encode_char : (ℕ → Bool) → Bool → ℕ → List ℕ
encode_char kept like_php c =
    if kept c
    then c ∷ []
    else if like_php && (c == b' ')
    then b'+' ∷ []
    else b'%' ∷ hex_char (c / 16) ∷ hex_char (c % 16) ∷ []

-- `_encode_uri`
encode_with : (ℕ → Bool) → Bool → List ℕ → List ℕ
encode_with kept like_php [] = []
encode_with kept like_php (c ∷ text) = encode_char kept like_php c ++ encode_with kept like_php text

-- `hex_char_map` of `_decode_uri`, with 0 for what is no digit
hex_value : ℕ → ℕ
unfolding in_char_range
hex_value c =
    if in_char_range b'0' 10 c
    then c - b'0'
    else if in_char_range b'A' 6 c
    then c - b'A' + 10
    else if in_char_range b'a' 6 c
    then c - b'a' + 10
    else 0

-- `_decode_uri`, what is put out at a character with the rest of the buffer behind it
decode_char : Bool → ℕ → List ℕ → ℕ
decode_char like_php c [] = if like_php && (c == b'+') then b' ' else c
decode_char like_php c (high ∷ []) = if like_php && (c == b'+') then b' ' else c
decode_char like_php c (high ∷ low ∷ rest) =
    if like_php && (c == b'+')
    then b' '
    else if not (c == b'%')
    then c
    else (hex_value high * 16 + hex_value low) % 256

-- `_decode_uri`, how many further characters are taken at a character
taken_behind : Bool → ℕ → List ℕ → ℕ
taken_behind like_php c rest =
    if like_php && (c == b'+') then 0 else if not (c == b'%') || ltb (length rest) 2 then 0 else 2

-- `_decode_uri`, with the number of characters still to be passed over
decode_from : Bool → List ℕ → ℕ → List ℕ
unfolding decode_char taken_behind
decode_from like_php [] passed = []
decode_from like_php (c ∷ rest) zero =
    decode_char like_php c rest ∷ decode_from like_php rest (taken_behind like_php c rest)
decode_from like_php (c ∷ rest) (suc passed) = decode_from like_php rest passed

decode_with : Bool → List ℕ → List ℕ
decode_with like_php text = decode_from like_php text 0

-- The characters a call reads: a size of 0 stands for the length of a C string.
abbrev pub content_of : List ℕ → ℕ → List ℕ
content_of content sz = if sz == 0 then c_str content else take sz content

-- `uri::encode_uri`
pub encode_uri : List ℕ → ℕ → List ℕ
encode_uri content sz = encode_with uri_map false (content_of content sz)

-- `uri::decode_uri`
pub decode_uri : List ℕ → ℕ → List ℕ
decode_uri uri sz = decode_with false (content_of uri sz)

-- `uri::encode_uri_component`
pub encode_uri_component : List ℕ → ℕ → List ℕ
encode_uri_component content sz = encode_with uri_component_map false (content_of content sz)

-- `uri::decode_uri_component`
pub decode_uri_component : List ℕ → ℕ → List ℕ
decode_uri_component uri sz = decode_with false (content_of uri sz)

-- `uri::raw_encode_url`
pub raw_encode_url : List ℕ → ℕ → List ℕ
raw_encode_url content sz = encode_with raw_url_map false (content_of content sz)

-- `uri::raw_decode_url`
pub raw_decode_url : List ℕ → ℕ → List ℕ
raw_decode_url uri sz = decode_with false (content_of uri sz)

-- `uri::encode_url`
pub encode_url : List ℕ → ℕ → List ℕ
encode_url content sz = encode_with raw_url_map true (content_of content sz)

-- `uri::decode_url`
pub decode_url : List ℕ → ℕ → List ℕ
decode_url uri sz = decode_with true (content_of uri sz)
