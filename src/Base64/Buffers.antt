-- ===== src/Base64/Buffers.antt =====
-- What base64 writes to a buffer, and what it refuses.
use atframe_utils.Base.{
  if-split, ℕ, ◌+◌, ◌-◌, ◌/◌, ◌≤◌, ◌<◌, ◌≡◌, ◌⊎◌, ◌∙◌, ap, inl, inr, refl, arith, Bool, true, false,
  not, ◌&&◌, ◌||◌, ltb, ◌==◌, ==_iff, Option, none, some, Option-cases, List, [], ◌∷◌, ◌++◌, length,
  length-append,
}
use atframe_utils.Base64.Tables.{Mode, dec_char}
use atframe_utils.Base64.{
  success, buffer_too_small, invalid_character, Outcome, padding_char, size_t_max, encode_length,
  encode_groups, encode_buffer, Scan, start_scan, scan_valid, scan_char, scan, skipped, emit,
  decode_length, decode_buffer,
}
use atframe_utils.Base64.Lengths.{length-encode_groups, length-emit}

-- The three ends of an encoding, with the room that it needs.
abbrev pub IsEncoded : Mode → Bool → ℕ → List ℕ → Outcome → Type 0
IsEncoded mode dst_is_null dlen src r =
    let need = encode_length mode (length src) + 1 in
    (length src ≡ 0) × (r ≡ record { code = success; olen = some 0; written = [] })
    ⊎ ((dst_is_null ≡ true) ⊎ (dlen < need))
      × (r ≡ record { code = buffer_too_small; olen = some need; written = [] })
    ⊎ ((dst_is_null ≡ false)
        × (need ≤ dlen)
        × (r.code ≡ success)
        × (r.olen ≡ some (need - 1))
        × (r.written ≡ encode_groups mode src ++ 0 ∷ [])
        × (length r.written ≡ need))

-- For a source whose encoded length a size_t can hold, `base64_encode` to a buffer ends in one of
-- three ways: an empty source writes nothing; without a buffer or with one that is too small it
-- returns -1, gives the room that it needs and writes nothing; else it writes exactly that room, the
-- characters and a last 0, and gives the number of the characters.
pub encode_buffer_lem :
    (mode : Mode) (dst_is_null : Bool) (dlen : ℕ) (src : List ℕ)
    → (length src + 2) / 3 ≤ (size_t_max - 1) / 4
    → IsEncoded mode dst_is_null dlen src (encode_buffer mode dst_is_null dlen src)
unfolding encode_buffer
encode_buffer_lem mode dst_is_null dlen src fits =
    if-split P (length src == 0) (λ e. inl ((==_iff (length src) 0).0 e, refl))
      (λ _.
        if-split P (ltb ((size_t_max - 1) / 4) ((length src + 2) / 3))
          (λ far. ground (arith, far, fits))
          (λ _.
            if-split P (ltb dlen (encode_length mode (length src) + 1) || dst_is_null)
              (λ small. inr (inl (ground (arith, small), refl)))
              (λ room. inr (
                inr (
                  ground (arith, room),
                  ground (arith, room),
                  refl,
                  ap some (len ∙ omega arith),
                  refl,
                  omega (arith, length-append (encode_groups mode src) (0 ∷ []), len),
                )))))
  where
    P : Outcome → Type 0
    P = IsEncoded mode dst_is_null dlen src

    len : length (encode_groups mode src) ≡ encode_length mode (length src)
    len = length-encode_groups mode src

-- A decoding, all branches: -2 leaves all alone; -1 asks for more room; success tells what is written.
abbrev pub IsDecoded : Mode → Bool → ℕ → List ℕ → Outcome → Type 0
IsDecoded mode dst_is_null dlen src r =
    (r ≡ record { code = invalid_character; olen = none; written = [] })
    ⊎ ((k : ℕ) × ((dst_is_null ≡ true) ⊎ (dlen < k))
        × (r ≡ record { code = buffer_too_small; olen = some k; written = [] })
        × (length (emit mode 0 0 src) ≡ k))
    ⊎ ((r.code ≡ success) × (r.olen ≡ some (length r.written)) × (length r.written ≤ dlen))

-- `base64_decode` to a buffer returns -2 and gives no length; or it returns -1 without a buffer or
-- with one that is too small, writes nothing and gives exactly the length that the second pass would
-- write; or it writes at most `dlen` bytes and gives their number.
pub decode_buffer_lem :
    (mode : Mode) (dst_is_null : Bool) (dlen : ℕ) (src : List ℕ)
    → IsDecoded mode dst_is_null dlen src (decode_buffer mode dst_is_null dlen src)
unfolding decode_buffer
decode_buffer_lem mode dst_is_null dlen src = elim (Option-cases (scan mode 0 start_scan src)) [
  | inl e ↦ rw (e, decode_buffer) (inl refl)
  | inr (s, e) ↦
      let len = length-emit mode src s e in
      rw (e, decode_buffer)
        (if-split P (s.n == 0) (λ _. inr (inr (refl, refl, omega arith)))
          (λ _.
            if-split P (dst_is_null || ltb dlen (decode_length s))
              (λ small. inr (inl (decode_length s, ground (arith, small), refl, len)))
              (λ room. inr (inr (refl, refl, ground (arith, room, len))))))
]
  where
    P : Outcome → Type 0
    P = IsDecoded mode dst_is_null dlen src

-- The first pass refuses a character that is no blank, no padding and not in the alphabet.
abbrev pub IsForeign : Mode → ℕ → Type 0
IsForeign mode c = (skipped mode c ≡ false) × ((127 < c) ⊎ (dec_char mode c ≡ 127))

scan_char-foreign :
    (mode : Mode) (c x : ℕ) (s : Scan) → IsForeign mode c → scan_char mode c x s ≡ none
unfolding scan_char scan_valid skipped
scan_char-foreign mode c x s h =
    if-split P (c == b' ' || c == b'\t') (λ e. ground (arith, e, h))
      (λ _.
        if-split P (c == b'\r' || c == b'\n') (λ e. ground (arith, e, h))
          (λ _.
            if-split P (not (x == 0) && not (s.line_len == 0)) (λ _. refl)
              (λ _.
                if-split P (c == padding_char mode) (λ e. ground (arith, e, h))
                  (λ _.
                    if-split P (ltb 127 c || dec_char mode c == 127) (λ _. refl)
                      (λ e. ground (arith, e, h))))))
  where
    P : Option (ℕ × Scan) → Type 0
    P o = o ≡ none

scan-foreign :
    (mode : Mode) (c x : ℕ) (s : Scan) (before after : List ℕ)
    → IsForeign mode c
    → scan mode x s (before ++ c ∷ after) ≡ none
unfolding scan
scan-foreign mode c x s [] after h = rw (scan_char-foreign mode c x s h, scan) refl
scan-foreign mode c x s (b ∷ before) after h = elim (Option-cases (scan_char mode b x s)) [
  | inl e ↦ rw (e, scan) refl
  | inr ((x', t), e) ↦ rw (e, scan) (scan-foreign mode c x' t before after h)
]

-- A character that is neither blank nor padding and not in the alphabet of the mode makes
-- `base64_decode` return -2 wherever it stands, whatever the buffer is, and nothing is written.
pub decode_buffer-foreign :
    (mode : Mode) (dst_is_null : Bool) (dlen c : ℕ) (before after : List ℕ)
    → IsForeign mode c
    → decode_buffer mode dst_is_null dlen (before ++ c ∷ after)
      ≡ record { code = invalid_character; olen = none; written = [] }
unfolding decode_buffer
decode_buffer-foreign mode dst_is_null dlen c before after h =
    rw (scan-foreign mode c 0 start_scan before after h, decode_buffer) refl
