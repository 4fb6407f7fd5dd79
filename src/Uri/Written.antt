-- ===== src/Uri/Written.antt =====
-- What the coders of `uri` can write, and how long it is.
use atframe_utils.Base.{
  contains, codes, All, All-append, c_str, length-take, length, length-append, if-split,
  holds_under, holds_under-lt, ℕ, zero, suc, ◌*◌, ◌/◌, ◌%◌, ◌≤◌, ◌<◌, ◌≡◌, refl, arith, List, [],
  ◌∷◌, Bool, true, false, ◌&&◌, ◌||◌, ◌==◌,
}
use atframe_utils.Uri.{
  in_char_range, raw_url_map, uri_component_map, uri_map, hex_char, encode_char, encode_with,
  taken_behind, decode_from, decode_with, decode_uri, decode_url, encode_uri, encode_uri_component,
  content_of, raw_encode_url, encode_url,
}
use atframe_utils.Uri.RoundTrip.{content_of-length}

-- A character of an encoded text.
abbrev pub is_written : (ℕ → Bool) → Bool → ℕ → Bool
is_written kept like_php c = kept c || (c == b'%') || like_php && (c == b'+')

module _ (kept : ℕ → Bool) (like_php : Bool)
    (digits : holds_under (λ v. kept (hex_char v)) 16 ≡ true) where
  encode_char-written :
      (c : ℕ) → c < 256 → All (λ x. is_written kept like_php x ≡ true) (encode_char kept like_php c)
  unfolding encode_char
  encode_char-written c byte =
      let P : List ℕ → Type 0 = λ l. All (λ x. is_written kept like_php x ≡ true) l in
      let high = holds_under-lt (λ v. kept (hex_char v)) 16 (c / 16) digits (omega (arith, byte)) in
      let low = holds_under-lt (λ v. kept (hex_char v)) 16 (c % 16) digits (omega arith) in
      if-split P (kept c) (λ h. (ground (arith, h), tt))
        (λ _.
          if-split P (like_php && (c == b' ')) (λ h. (ground (arith, h), tt))
            (λ _. (ground arith, (ground (arith, high), (ground (arith, low), tt)))))

  encode_with-written :
      (text : List ℕ)
      → All (λ c. c < 256) text
      → All (λ x. is_written kept like_php x ≡ true) (encode_with kept like_php text)
  unfolding encode_with
  encode_with-written [] bytes = tt
  encode_with-written (c ∷ text) bytes =
      All-append (λ x. is_written kept like_php x ≡ true) (encode_char kept like_php c)
        (encode_with kept like_php text) (encode_char-written c bytes.0)
        (encode_with-written text bytes.1)

  coder-written :
      (text : List ℕ)
      → All (λ c. c < 256) text
      → All
          (λ x. is_written kept like_php x ≡ true)
          (encode_with kept like_php (content_of text (length text)))
  coder-written text bytes = rw (content_of-length text) (encode_with-written text bytes)

raw_url_map-digits : holds_under (λ v. raw_url_map (hex_char v)) 16 ≡ true
unfolding raw_url_map in_char_range hex_char holds_under
raw_url_map-digits = refl

uri_component_map-digits : holds_under (λ v. uri_component_map (hex_char v)) 16 ≡ true
unfolding uri_component_map raw_url_map in_char_range hex_char holds_under
uri_component_map-digits = refl

uri_map-digits : holds_under (λ v. uri_map (hex_char v)) 16 ≡ true
unfolding uri_map uri_component_map raw_url_map in_char_range hex_char holds_under
uri_map-digits = refl

-- For a text of bytes, read with its length: each character that an encoder of `uri` writes is
-- marked in its table, or a percent sign, or, for the form of PHP, a plus sign.
pub uri_encoders-written :
    (text : List ℕ)
    → All (λ c. c < 256) text
    → All (λ c. is_written uri_map false c ≡ true) (encode_uri text (length text))
      × All
          (λ c. is_written uri_component_map false c ≡ true)
          (encode_uri_component text (length text))
      × All (λ c. is_written raw_url_map false c ≡ true) (raw_encode_url text (length text))
      × All (λ c. is_written raw_url_map true c ≡ true) (encode_url text (length text))
unfolding encode_uri encode_uri_component raw_encode_url encode_url
uri_encoders-written text bytes = (
  coder-written uri_map false uri_map-digits text bytes,
  coder-written uri_component_map false uri_component_map-digits text bytes,
  coder-written raw_url_map false raw_url_map-digits text bytes,
  coder-written raw_url_map true raw_url_map-digits text bytes,
)

decode_from-le :
    (like_php : Bool) (text : List ℕ) (passed : ℕ)
    → length (decode_from like_php text passed) ≤ length text
unfolding decode_from
decode_from-le like_php [] passed = omega arith
decode_from-le like_php (c ∷ rest) zero =
    let IH = decode_from-le like_php rest in omega (arith, IH (taken_behind like_php c rest))
decode_from-le like_php (c ∷ rest) (suc passed) = omega (arith, decode_from-le like_php rest passed)

c_str-le : (content : List ℕ) → length (c_str content) ≤ length content
c_str-le [] = omega arith
c_str-le (zero ∷ s) = omega arith
c_str-le (suc c ∷ s) = omega (arith, c_str-le s)

content_of-le : (content : List ℕ) (sz : ℕ) → length (content_of content sz) ≤ length content
content_of-le content sz =
    if-split (λ t. length t ≤ length content) (sz == 0) (λ _. c_str-le content)
      (λ _. omega (arith, length-take sz content))

encode_char-bounds :
    (kept : ℕ → Bool) (like_php : Bool) (c : ℕ)
    → (1 ≤ length (encode_char kept like_php c)) × (length (encode_char kept like_php c) ≤ 3)
unfolding encode_char
encode_char-bounds kept like_php c =
    let P : List ℕ → Type 0 = λ l. (1 ≤ length l) × (length l ≤ 3) in
    if-split P (kept c) (λ _. (omega arith, omega arith))
      (λ _.
        if-split P (like_php && (c == b' ')) (λ _. (omega arith, omega arith))
          (λ _. (omega arith, omega arith)))

encode_with-bounds :
    (kept : ℕ → Bool) (like_php : Bool) (text : List ℕ)
    → (length text ≤ length (encode_with kept like_php text))
      × (length (encode_with kept like_php text) ≤ 3 * length text)
unfolding encode_with
encode_with-bounds kept like_php [] = (omega arith, omega arith)
encode_with-bounds kept like_php (c ∷ text) =
    let rest = encode_with kept like_php text in
    let sum = length-append (encode_char kept like_php c) rest in
    let one = encode_char-bounds kept like_php c in
    let all = encode_with-bounds kept like_php text in
    (omega (arith, sum, one.0, all.0), omega (arith, sum, one.1, all.1))

-- For any text and any size, malformed escapes included: a decoder writes at most as many
-- characters as the text has, and an encoder writes at least one and at most three characters
-- for each that it reads.
uri_coders-bounds :
    (text : List ℕ) (sz : ℕ)
    → (length (decode_uri text sz) ≤ length text)
      × (length (decode_url text sz) ≤ length text)
      × ((length (content_of text sz) ≤ length (encode_uri_component text sz))
          × (length (encode_uri_component text sz) ≤ 3 * length (content_of text sz)))
      × ((length (content_of text sz) ≤ length (encode_url text sz))
          × (length (encode_url text sz) ≤ 3 * length (content_of text sz)))
unfolding decode_uri decode_url decode_with encode_uri_component encode_url
uri_coders-bounds text sz =
    let read = content_of text sz in
    (
      omega (arith, decode_from-le false read 0, content_of-le text sz),
      omega (arith, decode_from-le true read 0, content_of-le text sz),
      encode_with-bounds uri_component_map false read,
      encode_with-bounds raw_url_map true read,
    )

-- No character of an encoded component is an equals sign or one of the default separators.
pub is_written-IsPlain :
    (c : ℕ)
    → is_written uri_component_map false c ≡ true
    → ((c == b'=') ≡ false) × (contains (codes "?#&") c ≡ false)
unfolding uri_component_map raw_url_map in_char_range
is_written-IsPlain c h = (ground (arith, h), ground (arith, h))
