-- ===== src/Base64/Accepting.antt =====
-- The first pass accepts what was encoded.
use atframe_utils.Base.{
  if-split, ℕ, ◌+◌, ◌%◌, ◌≤◌, ◌<◌, ◌≡◌, ◌≢◌, ◌∙◌, refl, arith, not, ◌&&◌, ◌||◌, ltb, ◌==◌, ==_iff,
  Option, some, List, [], ◌∷◌, All, length,
}
use atframe_utils.Base64.Tables.{Mode, enc_char, dec_char}
use atframe_utils.Base64.{
  padding_char, encode_two, encode_one, encode_groups, Scan, count_char, scan_valid, scan_char,
  scan, skipped,
}
use atframe_utils.Base64.Chars.{IsChar, enc_char-IsChar, dec_char-padding_char, padding_char-kept}

-- The counters behind a value and behind padding.
abbrev with_value : Scan → Scan
with_value s = record {
  valid_slen = s.valid_slen + 1;
  line_len = s.line_len + 1;
  j = s.j;
  n = s.n + 1;
}

abbrev with_padding : Scan → Scan
with_padding s = record {
  valid_slen = s.valid_slen + 1;
  line_len = s.line_len + 1;
  j = s.j + 1;
  n = s.n + 1;
}

scan_char-value :
    (mode : Mode) (v c : ℕ) (s : Scan)
    → v < 64
    → IsChar mode v c
    → s.j ≡ 0
    → scan_char mode c 0 s ≡ some (0, with_value s)
unfolding scan_char scan_valid count_char skipped
scan_char-value mode v c s lt h j =
    if-split P (c == b' ' || c == b'\t') (λ e. ground (arith, e, h.kept))
      (λ _.
        if-split P (c == b'\r' || c == b'\n') (λ e. ground (arith, e, h.kept))
          (λ _.
            if-split P (c == padding_char mode) (λ e. ground (arith, e, h.kept))
              (λ _.
                if-split P (ltb 127 c || dec_char mode c == 127)
                  (λ e. ground (arith, e, lt, h.small, h.decoded))
                  (λ _.
                    if-split P (ltb (dec_char mode c) 64 && not (s.j == 0))
                      (λ e. ground (arith, e, j)) (λ _. refl)))))
  where
    P : Option (ℕ × Scan) → Type 0
    P o = o ≡ some (0, with_value s)

scan_char-padding :
    (mode : Mode) (s : Scan)
    → s.j < 2
    → (s.valid_slen % 4 ≢ 0) × (s.valid_slen % 4 ≢ 1)
    → scan_char mode (padding_char mode) 0 s ≡ some (0, with_padding s)
unfolding scan_char scan_valid count_char
scan_char-padding mode s few late =
    let c = padding_char mode in
    let kind = padding_char-kept mode in
    if-split P (c == b' ' || c == b'\t') (λ e. ground (arith, e, kind))
      (λ _.
        if-split P (c == b'\r' || c == b'\n') (λ e. ground (arith, e, kind))
          (λ _.
            if-split P (c == c)
              (λ _.
                if-split P
                  (ltb 2 (s.j + 1) || ((s.valid_slen + 1) % 4 == 1 || (s.valid_slen + 1) % 4 == 2))
                  (λ e. ground (arith, e, few, late))
                  (λ _.
                    if-split P (ltb (dec_char mode c) 64 && not (s.j + 1 == 0))
                      (λ e. ground (arith, e, dec_char-padding_char mode)) (λ _. refl)))
              (λ e. ground (arith, e, (==_iff c c).1 refl))))
  where
    P : Option (ℕ × Scan) → Type 0
    P o = o ≡ some (0, with_padding s)

scan-some :
    (mode : Mode) (c : ℕ) (s t : Scan) (src : List ℕ)
    → scan_char mode c 0 s ≡ some (0, t)
    → scan mode 0 s (c ∷ src) ≡ scan mode 0 t src
unfolding scan
scan-some mode c s t src e = rw (e, scan) refl

scan-value :
    (mode : Mode) (v : ℕ) (s : Scan) (src : List ℕ)
    → v < 64
    → s.j ≡ 0
    → scan mode 0 s (enc_char mode v ∷ src) ≡ scan mode 0 (with_value s) src
scan-value mode v s src lt j =
    scan-some mode _ s _ src (scan_char-value mode v _ s lt (enc_char-IsChar mode v lt) j)

-- The pass ends well, and counts one character for each byte at least.
abbrev pub IsAccepted : Mode → Scan → List ℕ → ℕ → Type 0
IsAccepted mode s chars least = (t : Scan) × (scan mode 0 s chars ≡ some t) × (s.n + least ≤ t.n)

scan-padding :
    (mode : Mode) (s : Scan) (src : List ℕ)
    → s.j < 2
    → (s.valid_slen % 4 ≢ 0) × (s.valid_slen % 4 ≢ 1)
    → scan mode 0 s (padding_char mode ∷ src) ≡ scan mode 0 (with_padding s) src
scan-padding mode s src few late = scan-some mode _ s _ src (scan_char-padding mode s few late)

accepts :
    (mode : Mode) (s t : Scan) (chars rest : List ℕ) (least least' : ℕ)
    → scan mode 0 s chars ≡ scan mode 0 t rest
    → s.n + least ≤ t.n + least'
    → IsAccepted mode t rest least'
    → IsAccepted mode s chars least
accepts mode s t chars rest least least' e le (u, a, k) = (u, e ∙ a, omega (arith, le, k))

accepts_nil : (mode : Mode) (s : Scan) → IsAccepted mode s [] 0
unfolding scan
accepts_nil mode s = (s, refl, omega arith)

pub scan-encode_groups :
    (mode : Mode) (src : List ℕ) (s : Scan)
    → s.j ≡ 0
    → s.valid_slen % 4 ≡ 0
    → All (λ b. b < 256) src
    → IsAccepted mode s (encode_groups mode src) (length src)
unfolding encode_groups encode_one encode_two
scan-encode_groups mode [] s j v h = accepts_nil mode s
scan-encode_groups mode (c1 ∷ []) s j v h =
    accepts mode s (with_value (with_value s)) _ _ 1 0
      (scan-value mode _ s _ (omega arith) j ∙ scan-value mode _ (with_value s) _ (omega arith) j)
      (omega arith)
      (if-split (λ src. IsAccepted mode (with_value (with_value s)) src 0) (padding_char mode == 0)
        (λ _. accepts_nil mode _)
        (λ _.
          accepts mode _ (with_padding (with_padding (with_value (with_value s)))) _ [] 0 0
            (scan-padding mode _ _ (omega (arith, j)) (ground (arith, v))
              ∙ scan-padding mode _ _ (omega (arith, j)) (ground (arith, v)))
            (omega arith) (accepts_nil mode _)))
scan-encode_groups mode (c1 ∷ c2 ∷ []) s j v h =
    let t = with_value (with_value (with_value s)) in
    accepts mode s t _ _ 2 0
      (scan-value mode _ s _ (omega arith) j
        ∙ scan-value mode _ (with_value s) _ (omega arith) j
        ∙ scan-value mode _ (with_value (with_value s)) _ (omega arith) j)
      (omega arith)
      (if-split (λ src. IsAccepted mode t src 0) (padding_char mode == 0) (λ _. accepts_nil mode _)
        (λ _.
          accepts mode _ (with_padding t) _ [] 0 0
            (scan-padding mode _ _ (omega (arith, j)) (ground (arith, v))) (omega arith)
            (accepts_nil mode _)))
scan-encode_groups mode (c1 ∷ c2 ∷ c3 ∷ src) s j v h =
    let t = with_value (with_value (with_value (with_value s))) in
    accepts mode s t _ (encode_groups mode src) _ (length src)
      (scan-value mode _ s _ (omega arith) j
        ∙ scan-value mode _ (with_value s) _ (omega arith) j
        ∙ scan-value mode _ (with_value (with_value s)) _ (omega arith) j
        ∙ scan-value mode _ (with_value (with_value (with_value s))) _ (omega arith) j)
      (omega arith) (scan-encode_groups mode src t j (omega (arith, v)) h.1.1.1)
