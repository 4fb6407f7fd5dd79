-- ===== src/Base64/Scanning.antt =====
-- The first pass of the base64 decoder, one character at a time.
use atframe_utils.Base.{
  if-split, ℕ, ◌+◌, ◌%◌, ◌≤◌, ◌<◌, ◌≡◌, ◌≢◌, ◌⊎◌, inl, inr, refl, arith, true, false, not, ◌&&◌,
  ◌||◌, ltb, ◌==◌, Option, none, some,
}
use atframe_utils.Base64.Tables.{Mode, dec_char}
use atframe_utils.Base64.{padding_char, Scan, count_char, scan_valid, scan_char, skipped}
use atframe_utils.Base64.Chars.{dec_char-lt}

-- What an accepted character does to the counters.
pub record IsBlank (mode : Mode) (c : ℕ) (s s' : Scan) : Type 0 where
  pub skip : skipped mode c ≡ true
  pub valid : s'.valid_slen ≡ s.valid_slen
  pub padding : s'.j ≡ s.j
  pub count : s'.n ≡ s.n

pub record IsPadding (mode : Mode) (c : ℕ) (s s' : Scan) : Type 0 where
  pub skip : skipped mode c ≡ true
  pub valid : s'.valid_slen ≡ s.valid_slen + 1
  pub padding : s'.j ≡ s.j + 1
  pub count : s'.n ≡ s.n + 1
  pub at_most : s'.j ≤ 2
  pub late : (s'.valid_slen % 4 ≢ 1) × (s'.valid_slen % 4 ≢ 2)

pub record IsValue (mode : Mode) (c : ℕ) (s s' : Scan) : Type 0 where
  pub keep : skipped mode c ≡ false
  pub valid : s'.valid_slen ≡ s.valid_slen + 1
  pub padding : s'.j ≡ s.j
  pub count : s'.n ≡ s.n + 1
  pub unpadded : s.j ≡ 0
  pub value : dec_char mode c < 64

abbrev pub IsStep : Mode → ℕ → Scan → Option (ℕ × Scan) → Type 0
IsStep mode c s none = Unit
IsStep mode c s (some (x, s')) = IsBlank mode c s s' ⊎ IsPadding mode c s s' ⊎ IsValue mode c s s'

module _ (mode : Mode) (c : ℕ) (s : Scan) where
  -- A character that is neither a space nor the end of a line.
  scan_valid-IsStep :
      (c == b'\r' || c == b'\n') || (c == b' ' || c == b'\t') ≡ false
      → IsStep mode c s (scan_valid mode c s)
  unfolding scan_valid count_char skipped
  scan_valid-IsStep kept =
      let s' = record s { valid_slen = s.valid_slen + 1; line_len = s.line_len + 1 } in
      if-split (IsStep mode c s) (c == padding_char mode)
        (λ pad.
          if-split (IsStep mode c s)
            (ltb 2 (s.j + 1) || (s'.valid_slen % 4 == 1 || s'.valid_slen % 4 == 2)) (λ _. tt)
            (λ ok.
              if-split (IsStep mode c s) (ltb (dec_char mode c) 64 && not (s.j + 1 == 0)) (λ _. tt)
                (λ _. inr (
                  inl (record {
                    skip = ground (arith, kept, pad);
                    valid = refl;
                    padding = refl;
                    count = refl;
                    at_most = ground (arith, ok);
                    late = ground (arith, ok);
                  })))))
        (λ no_pad.
          if-split (IsStep mode c s) (ltb 127 c || dec_char mode c == 127) (λ _. tt)
            (λ ok.
              if-split (IsStep mode c s) (ltb (dec_char mode c) 64 && not (s.j == 0)) (λ _. tt)
                (λ first.
                  let small : c ≤ 127 = ground (arith, ok) in
                  let entry : (dec_char mode c == 127) ≡ false = ground (arith, ok) in
                  let lt = dec_char-lt mode c small entry in
                  inr (
                    inr (record {
                      keep = ground (arith, kept, no_pad);
                      valid = refl;
                      padding = refl;
                      count = refl;
                      unpadded = ground (arith, first, lt);
                      value = lt;
                    })))))

  pub scan_char-IsStep : (x : ℕ) → IsStep mode c s (scan_char mode c x s)
  unfolding scan_char skipped
  scan_char-IsStep x =
      if-split (IsStep mode c s) (c == b' ' || c == b'\t')
        (λ space.
          inl (record { skip = ground (arith, space); valid = refl; padding = refl; count = refl }))
        (λ no_space.
          if-split (IsStep mode c s) (c == b'\r' || c == b'\n')
            (λ end_of_line. inl (record {
              skip = ground (arith, end_of_line);
              valid = refl;
              padding = refl;
              count = refl;
            }))
            (λ inside.
              if-split (IsStep mode c s) (not (x == 0) && not (s.line_len == 0)) (λ _. tt)
                (λ _. scan_valid-IsStep (ground (arith, no_space, inside)))))
