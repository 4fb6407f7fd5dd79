-- ===== src/Uri/RoundTrip.antt =====
-- Decoding what the encoders of `uri` write.
use atframe_utils.Base.{
  take-length, holds_under, holds_under-lt, All, length, if-split, ℕ, suc, ◌+◌, ◌*◌, ◌/◌, ◌%◌, ◌<◌,
  ◌≡◌, refl, ap, ◌∙◌, arith, List, [], ◌∷◌, ◌++◌, Bool, true, false, ◌&&◌, ◌==◌,
}
use atframe_utils.Uri.{
  in_char_range, raw_url_map, uri_component_map, uri_map, hex_char, encode_char, encode_with,
  hex_value, decode_char, taken_behind, decode_from, decode_with, content_of, encode_uri,
  decode_uri, encode_uri_component, decode_uri_component, raw_encode_url, raw_decode_url,
  encode_url, decode_url,
}

-- Two digits of base 16 hold a byte.
hex_fits : ℕ → Bool
unfolding hex_char hex_value
hex_fits c = (hex_value (hex_char (c / 16)) * 16 + hex_value (hex_char (c % 16))) % 256 == c

hex_fits_all : holds_under hex_fits 256 ≡ true
unfolding holds_under hex_fits hex_char hex_value in_char_range
hex_fits_all = refl

-- A character that a table keeps is neither the percent sign nor, for PHP's form, a plus sign.
abbrev KeptFits : (ℕ → Bool) → Bool → Type 0
KeptFits kept like_php =
    (c : ℕ) → kept c ≡ true → (like_php && (c == b'+') ≡ false) × ((c == b'%') ≡ false)

hex_value-hex_char :
    (c : ℕ)
    → c < 256
    → (hex_value (hex_char (c / 16)) * 16 + hex_value (hex_char (c % 16))) % 256 ≡ c
unfolding hex_fits
hex_value-hex_char c byte = ground (arith, holds_under-lt hex_fits 256 c hex_fits_all byte)

decode_from-encode_char :
    (kept : ℕ → Bool) (like_php : Bool)
    → KeptFits kept like_php
    → (c : ℕ) → c < 256
    → (rest : List ℕ)
    → decode_from like_php (encode_char kept like_php c ++ rest) 0 ≡ c ∷ decode_from like_php rest 0
unfolding decode_from encode_char decode_char taken_behind
decode_from-encode_char kept like_php fits c byte rest =
    if-split (λ l. decode_from like_php (l ++ rest) 0 ≡ c ∷ decode_from like_php rest 0) (kept c)
      (λ h. ground (arith, fits c h))
      (λ _.
        if-split (λ l. decode_from like_php (l ++ rest) 0 ≡ c ∷ decode_from like_php rest 0)
          (like_php && (c == b' ')) (λ space. ground (arith, space))
          (λ _. ground (arith, hex_value-hex_char c byte)))

decode_with-encode_with :
    (kept : ℕ → Bool) (like_php : Bool)
    → KeptFits kept like_php
    → (text : List ℕ) → All (λ c. c < 256) text
    → decode_with like_php (encode_with kept like_php text) ≡ text
unfolding decode_with encode_with decode_from
decode_with-encode_with kept like_php fits [] bytes = refl
decode_with-encode_with kept like_php fits (c ∷ text) bytes =
    decode_from-encode_char kept like_php fits c bytes.0 (encode_with kept like_php text)
    ∙ ap (λ t. c ∷ t) (decode_with-encode_with kept like_php fits text bytes.1)

pub content_of-length : (text : List ℕ) → content_of text (length text) ≡ text
content_of-length [] = refl
content_of-length (c ∷ text) =
    if-split (λ t. t ≡ c ∷ text) (suc (length text) == 0) (λ h. absurd (ground (arith, h)))
      (λ _. ap (λ t. c ∷ t) (take-length text))

-- A decoder with a size gives back what an encoder with a size has written.
abbrev pub AreInverse : (List ℕ → ℕ → List ℕ) → (List ℕ → ℕ → List ℕ) → List ℕ → Type 0
AreInverse encoder decoder text =
    let written = encoder text (length text) in decoder written (length written) ≡ text

module _ (kept : ℕ → Bool) (like_php : Bool) (fits : KeptFits kept like_php) where
  coders-AreInverse :
      (text : List ℕ)
      → All (λ c. c < 256) text
      → AreInverse
          (λ content sz. encode_with kept like_php (content_of content sz))
          (λ uri sz. decode_with like_php (content_of uri sz))
          text
  coders-AreInverse text bytes = rw (
    content_of-length text,
    content_of-length (encode_with kept like_php text),
    decode_with-encode_with kept like_php fits text bytes,
  )

raw_url_map-fits : (like_php : Bool) → KeptFits raw_url_map like_php
unfolding raw_url_map in_char_range
raw_url_map-fits like_php c h = (ground (arith, h), ground (arith, h))

uri_component_map-fits : KeptFits uri_component_map false
unfolding uri_component_map raw_url_map in_char_range
uri_component_map-fits c h = (refl, ground (arith, h))

uri_map-fits : KeptFits uri_map false
unfolding uri_map uri_component_map raw_url_map in_char_range
uri_map-fits c h = (refl, ground (arith, h))

-- For a text of bytes, read with its length: each of the four decoders of the namespace `uri`
-- gives back what the encoder of its kind has written.
pub uri_coders-AreInverse :
    (text : List ℕ)
    → All (λ c. c < 256) text
    → AreInverse encode_uri decode_uri text
      × AreInverse encode_uri_component decode_uri_component text
      × AreInverse raw_encode_url raw_decode_url text
      × AreInverse encode_url decode_url text
unfolding encode_uri decode_uri encode_uri_component decode_uri_component raw_encode_url
    raw_decode_url encode_url decode_url
uri_coders-AreInverse text bytes = (
  coders-AreInverse uri_map false uri_map-fits text bytes,
  coders-AreInverse uri_component_map false uri_component_map-fits text bytes,
  coders-AreInverse raw_url_map false (raw_url_map-fits false) text bytes,
  coders-AreInverse raw_url_map true (raw_url_map-fits true) text bytes,
)
