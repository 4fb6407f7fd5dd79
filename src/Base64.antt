-- ===== src/Base64.antt =====
-- algorithm/base64.cpp. A buffer or a string is the list of its bytes; `|` of values without a common
-- bit is a sum.
pub mod Tables
pub mod Chars
pub mod Scanning
pub mod Lengths
pub mod Buffers
pub mod Accepting
pub mod RoundTrip
pub mod Strings
mod Tests
use atframe_utils.Base.{
  ℕ, zero, suc, ◌+◌, ◌-◌, ◌*◌, ◌/◌, ◌%◌, ◌^◌, Bool, true, false, not, ◌&&◌, ◌||◌, Option, none,
  some, List, [], ◌∷◌, ◌++◌, ltb, leb, ◌==◌, if◌then◌else◌, length, drop, take,
}
use atframe_utils.Base64.Tables.{Mode, base64_get_padding_char, enc_char, dec_char}

-- What the functions return: 0, -1 and -2.
pub data Code : Type 0 where
  success buffer_too_small invalid_character : Code

-- The code, `*olen` where it is written, and the bytes that are written to `dst`.
pub record Outcome : Type 0 where
  pub code : Code
  pub olen : Option ℕ
  pub written : List ℕ

-- `BASE64_SIZE_T_MAX` on 64 bits.
abbrev pub size_t_max : ℕ
size_t_max = 2 ^ 64 - 1

module _ (mode : Mode) where
  abbrev pub padding_char : ℕ
  padding_char = base64_get_padding_char mode

  -- The length that `base64_encode_inner` computes before it writes.
  unfoldable pub encode_length : ℕ → ℕ
  encode_length slen =
      let n = (slen + 2) / 3 * 4 in
      if padding_char == 0 && not (slen % 3 == 0) then n - (3 - slen % 3) else n

  -- The characters of a last group of two bytes or one.
  unfoldable pub encode_two : ℕ → ℕ → List ℕ
  encode_two c1 c2 =
      enc_char mode (c1 / 4 % 64)
      ∷ enc_char mode ((c1 % 4 * 16 + c2 / 16) % 64)
      ∷ enc_char mode (c2 % 16 * 4 % 64)
      ∷ (if padding_char == 0 then [] else padding_char ∷ [])

  unfoldable pub encode_one : ℕ → List ℕ
  encode_one c1 =
      enc_char mode (c1 / 4 % 64)
      ∷ enc_char mode ((c1 % 4 * 16 + 0 / 16) % 64)
      ∷ (if padding_char == 0 then [] else padding_char ∷ padding_char ∷ [])

  -- The loop of `base64_encode_inner` over groups of three bytes, and the last group.
  unfoldable pub encode_groups : List ℕ → List ℕ
  encode_groups [] = []
  encode_groups (c1 ∷ []) = encode_one c1
  encode_groups (c1 ∷ c2 ∷ []) = encode_two c1 c2
  encode_groups (c1 ∷ c2 ∷ c3 ∷ src) =
      enc_char mode (c1 / 4 % 64)
      ∷ enc_char mode ((c1 % 4 * 16 + c2 / 16) % 64)
      ∷ enc_char mode ((c2 % 16 * 4 + c3 / 64) % 64)
      ∷ enc_char mode (c3 % 64)
      ∷ encode_groups src

  -- `base64_encode` to a buffer of `dlen` bytes, or to a null pointer.
  unfoldable pub encode_buffer : Bool → ℕ → List ℕ → Outcome
  encode_buffer dst_is_null dlen src =
      let slen = length src in
      let n = encode_length slen in
      let out = encode_groups src in
      if slen == 0
      then record { code = success; olen = some 0; written = [] }
      else (if ltb ((size_t_max - 1) / 4) ((slen + 2) / 3)
          then record { code = buffer_too_small; olen = some size_t_max; written = [] }
          else (if ltb dlen (n + 1) || dst_is_null
              then record { code = buffer_too_small; olen = some (n + 1); written = [] }
              else record { code = success; olen = some (length out); written = out ++ 0 ∷ [] }))

-- `std::string::resize`
unfoldable pub zeros : ℕ → List ℕ
zeros zero = []
zeros (suc n) = 0 ∷ zeros n

abbrev pub resize : List ℕ → ℕ → List ℕ
resize s n = take n s ++ zeros (n - length s)

-- A buffer whose first bytes are written.
abbrev pub overwrite : List ℕ → List ℕ → List ℕ
overwrite buffer written = written ++ drop (length written) buffer

-- `dst.resize(dst.size() - 1)` where the last byte is 0.
unfoldable pub pop_zero : List ℕ → List ℕ
pop_zero [] = []
pop_zero (x ∷ []) = if x == 0 then [] else x ∷ []
pop_zero (x ∷ y ∷ s) = x ∷ pop_zero (y ∷ s)

abbrev pub olen_or_zero : Option ℕ → ℕ
olen_or_zero none = 0
olen_or_zero (some n) = n

-- `base64_encode` to a string: the code and the string. A length that does not fit is a resize to the
-- greatest size_t, which throws: none.
unfoldable pub encode_string : Mode → List ℕ → List ℕ → Option (Code × List ℕ)
encode_string mode dst src =
    let olen = olen_or_zero (encode_buffer mode true 0 src).olen in
    let dst' = resize dst olen in
    let r = encode_buffer mode false olen src in
    if olen == size_t_max
    then none
    else (if length src == 0
        then some (success, dst')
        else some (r.code, pop_zero (overwrite dst' r.written)))

-- The counters of the first pass of `base64_decode_inner`.
pub record Scan : Type 0 where
  pub valid_slen : ℕ
  pub line_len : ℕ
  pub j : ℕ
  pub n : ℕ

abbrev pub start_scan : Scan
start_scan = record { valid_slen = 0; line_len = 0; j = 0; n = 0 }

module _ (mode : Mode) where
  -- The test for a character of the alphabet behind padding, and the end of a round.
  unfoldable pub count_char : ℕ → Scan → Option (ℕ × Scan)
  count_char c s =
      if ltb (dec_char mode c) 64 && not (s.j == 0)
      then none
      else some (0, record s { n = s.n + 1 })

  -- The part of a round behind the spaces and line ends.
  unfoldable pub scan_valid : ℕ → Scan → Option (ℕ × Scan)
  scan_valid c s =
      let s' = record s { valid_slen = s.valid_slen + 1; line_len = s.line_len + 1 } in
      if c == padding_char mode
      then (if ltb 2 (s.j + 1) || (s'.valid_slen % 4 == 1 || s'.valid_slen % 4 == 2)
          then none
          else count_char c (record s' { j = s.j + 1 }))
      else (if ltb 127 c || dec_char mode c == 127 then none else count_char c s')

  -- One character of the first pass, with the number of spaces before it: none is the return of -2.
  unfoldable pub scan_char : ℕ → ℕ → Scan → Option (ℕ × Scan)
  scan_char c x s =
      if c == b' ' || c == b'\t'
      then some (x + 1, s)
      else (if c == b'\r' || c == b'\n'
          then some (0, record s { line_len = 0 })
          else (if not (x == 0) && not (s.line_len == 0) then none else scan_valid c s))

  -- The first pass.
  unfoldable pub scan : ℕ → Scan → List ℕ → Option Scan
  scan x s [] = some s
  scan x s (c ∷ src) = elim (scan_char c x s) [ none ↦ none | some (x', s') ↦ scan x' s' src ]

  -- What the second pass skips.
  unfoldable pub skipped : ℕ → Bool
  skipped c = (c == b'\r' || c == b'\n') || (c == b' ' || c == b'\t') || c == padding_char mode

  -- The second pass from `n` and `x` on, with the code for a last group.
  unfoldable pub emit : ℕ → ℕ → List ℕ → List ℕ
  emit n x [] =
      if n == 2
      then x / 2 ^ 4 % 256 ∷ []
      else (if n == 3 then x / 2 ^ 10 % 256 ∷ x / 2 ^ 2 % 256 ∷ [] else [])
  emit n x (c ∷ src) =
      let x' = x * 64 % 2 ^ 64 + dec_char mode c % 64 in
      let after_skip = emit n x src in
      let next_group = emit 0 x' src in
      let same_group = emit (n + 1) x' src in
      if skipped c
      then after_skip
      else (if n + 1 == 4
          then x' / 2 ^ 16 % 256 ∷ x' / 2 ^ 8 % 256 ∷ x' % 256 ∷ next_group
          else same_group)

-- The length that `base64_decode_inner` computes from the counters.
unfoldable pub decode_length : Scan → ℕ
decode_length s =
    let missing = if s.valid_slen % 4 == 0 then 0 else 4 - s.valid_slen % 4 in
    let n = s.n + missing in 6 * (n / 8) + (6 * (n % 8) + 7) / 8 - (s.j + missing)

-- `base64_decode` to a buffer of `dlen` bytes, or to a null pointer.
unfoldable pub decode_buffer : Mode → Bool → ℕ → List ℕ → Outcome
decode_buffer mode dst_is_null dlen src = elim (scan mode 0 start_scan src) [
  | none ↦ record { code = invalid_character; olen = none; written = [] }
  | some s ↦
      let n = decode_length s in
      let out = emit mode 0 0 src in
      if s.n == 0
      then record { code = success; olen = some 0; written = [] }
      else (if dst_is_null || ltb dlen n
          then record { code = buffer_too_small; olen = some n; written = [] }
          else record { code = success; olen = some (length out); written = out })
]

-- `base64_decode` to a string: the code and the string.
unfoldable pub decode_string : Mode → List ℕ → List ℕ → Code × List ℕ
decode_string mode dst src = elim (decode_buffer mode true 0 src).code [
  | invalid_character ↦ (invalid_character, dst)
  | _ ↦
      let olen = olen_or_zero (decode_buffer mode true 0 src).olen in
      let dst' = resize dst olen in
      let r = decode_buffer mode false olen src in
      if length src == 0 then (success, dst) else (r.code, overwrite dst' r.written)
]
