-- ===== src/Base64/Tests.antt =====
-- Runs of base64, and its theorems at them.
use atframe_utils.Base.{ℕ, ◌≡◌, inr, refl, arith, true, false, none, some, List, [], ◌∷◌}
use atframe_utils.Base64.Tables.{standard, utf7, enc_char, dec_char}
use atframe_utils.Base64.{
  success, invalid_character, encode_length, encode_one, encode_two, encode_groups, encode_buffer,
  zeros, pop_zero, encode_string, count_char, scan_valid, scan_char, scan, skipped, emit,
  decode_length, decode_buffer, decode_string,
}
use atframe_utils.Base64.Buffers.{
  IsEncoded, IsDecoded, IsForeign, encode_buffer_lem, decode_buffer_lem, decode_buffer-foreign,
}

program : Unit {0}
unfolding enc_char dec_char encode_length encode_one encode_two encode_groups encode_buffer zeros
    pop_zero encode_string count_char scan_valid scan_char scan skipped emit decode_length
    decode_buffer decode_string
program = tt

-- The bytes of "foob".
abbrev foob : List ℕ
foob = b'f' ∷ b'o' ∷ b'o' ∷ b'b' ∷ []

encode_foob :
    encode_string standard [] foob
    ≡ some (success, b'Z' ∷ b'm' ∷ b'9' ∷ b'v' ∷ b'Y' ∷ b'g' ∷ b'=' ∷ b'=' ∷ [])
unfolding program
encode_foob = refl

encode_foob_utf7 :
    encode_string utf7 [] foob ≡ some (success, b'Z' ∷ b'm' ∷ b'9' ∷ b'v' ∷ b'Y' ∷ b'g' ∷ [])
unfolding program
encode_foob_utf7 = refl

decode_lines :
    decode_string standard [] (b'Z' ∷ b'm' ∷ b'\n' ∷ b'9' ∷ b'v' ∷ b' ' ∷ [])
    ≡ (success, b'f' ∷ b'o' ∷ b'o' ∷ [])
unfolding program
decode_lines = refl

-- An empty source leaves the string as it was.
decode_empty : decode_string standard foob [] ≡ (success, foob)
unfolding program
decode_empty = refl

-- A character that no byte can hold is dropped.
decode_single : decode_string standard [] (b'Z' ∷ []) ≡ (success, [])
unfolding program
decode_single = refl

encode_buffer_lem_example : IsEncoded standard false 8 foob (encode_buffer standard false 8 foob)
encode_buffer_lem_example = encode_buffer_lem standard false 8 foob (omega arith)

decode_buffer_lem_example :
    IsDecoded standard false 2
      (b'Z' ∷ b'm' ∷ [])
      (decode_buffer standard false 2 (b'Z' ∷ b'm' ∷ []))
decode_buffer_lem_example = decode_buffer_lem standard false 2 (b'Z' ∷ b'm' ∷ [])

star-IsForeign : IsForeign standard b'*'
unfolding program
star-IsForeign = (refl, inr refl)

decode_buffer-foreign_example :
    decode_buffer standard true 0 (b'Z' ∷ b'*' ∷ b'm' ∷ [])
    ≡ record { code = invalid_character; olen = none; written = [] }
decode_buffer-foreign_example =
    decode_buffer-foreign standard true 0 b'*' (b'Z' ∷ []) (b'm' ∷ []) star-IsForeign
