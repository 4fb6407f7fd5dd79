-- ===== src/Base64/RoundTrip.antt =====
-- Decoding gives back what was encoded.
use atframe_utils.Base.{
  if-split, ℕ, ◌+◌, ◌*◌, ◌/◌, ◌%◌, ◌^◌, ◌<◌, ◌≡◌, ◌∙◌, ap, refl, arith, true, ◌==◌, ==_iff, List,
  [], ◌∷◌, All, if◌then◌else◌,
}
use atframe_utils.Base64.Tables.{Mode, enc_char}
use atframe_utils.Base64.{padding_char, encode_two, encode_one, encode_groups, skipped, emit}
use atframe_utils.Base64.Chars.{IsChar, enc_char-IsChar}
use atframe_utils.Base64.Lengths.{emit-skipped, emit-value}

-- `emit` at a character of the alphabet.
emit-char :
    (mode : Mode) (n x v c : ℕ) (src : List ℕ)
    → IsChar mode v c
    → v < 64
    → emit mode n x (c ∷ src) ≡ (
        let x' = x * 64 % 2 ^ 64 + v in
        if n + 1 == 4
        then x' / 2 ^ 16 % 256 ∷ x' / 2 ^ 8 % 256 ∷ x' % 256 ∷ emit mode 0 x' src
        else emit mode (n + 1) x' src)
emit-char mode n x v c src h lt =
    emit-value mode n x c src h.kept
    ∙ ap
        (λ d.
          let x' = x * 64 % 2 ^ 64 + d in
          if n + 1 == 4
          then x' / 2 ^ 16 % 256 ∷ x' / 2 ^ 8 % 256 ∷ x' % 256 ∷ emit mode 0 x' src
          else emit mode (n + 1) x' src)
        (omega (arith, h.decoded, lt))

-- Six more bits.
abbrev push_bits : ℕ → ℕ → ℕ
push_bits x v = x * 64 % 2 ^ 64 + v

emit_two :
    (mode : Mode) (x v1 v2 : ℕ) (src : List ℕ)
    → v1 < 64
    → v2 < 64
    → emit mode 0 x (enc_char mode v1 ∷ enc_char mode v2 ∷ src)
      ≡ emit mode 2 (push_bits (push_bits x v1) v2) src
emit_two mode x v1 v2 src h1 h2 =
    emit-char mode 0 x v1 _ _ (enc_char-IsChar mode v1 h1) h1
    ∙ emit-char mode 1 (push_bits x v1) v2 _ src (enc_char-IsChar mode v2 h2) h2

emit_four :
    (mode : Mode) (x v1 v2 v3 v4 : ℕ) (src : List ℕ)
    → v1 < 64
    → v2 < 64
    → v3 < 64
    → v4 < 64
    → let x' = push_bits (push_bits (push_bits (push_bits x v1) v2) v3) v4 in
      emit mode 0 x
        (enc_char mode v1 ∷ enc_char mode v2 ∷ enc_char mode v3 ∷ enc_char mode v4 ∷ src)
      ≡ x' / 2 ^ 16 % 256 ∷ x' / 2 ^ 8 % 256 ∷ x' % 256 ∷ emit mode 0 x' src
emit_four mode x v1 v2 v3 v4 src h1 h2 h3 h4 =
    emit_two mode x v1 v2 _ h1 h2
    ∙ emit-char mode 2 _ v3 _ _ (enc_char-IsChar mode v3 h3) h3
    ∙ emit-char mode 3 _ v4 _ src (enc_char-IsChar mode v4 h4) h4

padding-skipped : (mode : Mode) → skipped mode (padding_char mode) ≡ true
unfolding skipped
padding-skipped mode = ground (arith, (==_iff (padding_char mode) (padding_char mode)).1 refl)

-- Padding is skipped up to the end.
emit-padding_one :
    (mode : Mode) (n x : ℕ)
    → emit mode n x (if padding_char mode == 0 then [] else padding_char mode ∷ [])
      ≡ emit mode n x []
emit-padding_one mode n x =
    if-split (λ src. emit mode n x src ≡ emit mode n x []) (padding_char mode == 0) (λ _. refl)
      (λ _. emit-skipped mode n x (padding_char mode) [] (padding-skipped mode))

emit-padding_two :
    (mode : Mode) (n x : ℕ)
    → emit mode n x
        (if padding_char mode == 0 then [] else padding_char mode ∷ padding_char mode ∷ [])
      ≡ emit mode n x []
emit-padding_two mode n x =
    if-split (λ src. emit mode n x src ≡ emit mode n x []) (padding_char mode == 0) (λ _. refl)
      (λ _.
        emit-skipped mode n x (padding_char mode) _ (padding-skipped mode)
        ∙ emit-skipped mode n x (padding_char mode) [] (padding-skipped mode))

-- The bytes of a last group, by the bits that were pushed.
last_one : (mode : Mode) (y c : ℕ) → y / 2 ^ 4 % 256 ≡ c → emit mode 2 y [] ≡ c ∷ []
unfolding emit
last_one mode y c h = ap (λ b. b ∷ []) h

last_two :
    (mode : Mode) (y c1 c2 : ℕ)
    → y / 2 ^ 10 % 256 ≡ c1
    → y / 2 ^ 2 % 256 ≡ c2
    → emit mode 3 y [] ≡ c1 ∷ c2 ∷ []
unfolding emit
last_two mode y c1 c2 h k = rw (h, k) refl

cons_three :
    (a b c a' b' c' : ℕ) (xs ys : List ℕ)
    → a ≡ a'
    → b ≡ b'
    → c ≡ c'
    → xs ≡ ys
    → a ∷ b ∷ c ∷ xs ≡ a' ∷ b' ∷ c' ∷ ys
cons_three a b c a' b' c' xs ys p q r e = rw (p, q, r, e) refl

-- The second pass gives the bytes back.
pub emit-encode_groups :
    (mode : Mode) (src : List ℕ) (x : ℕ)
    → All (λ b. b < 256) src
    → emit mode 0 x (encode_groups mode src) ≡ src
unfolding encode_groups encode_one encode_two
emit-encode_groups mode [] x h = unfold emit in refl
emit-encode_groups mode (c1 ∷ []) x (h1, h) =
    emit_two mode x (c1 / 4 % 64) ((c1 % 4 * 16 + 0 / 16) % 64) _ (omega arith) (omega arith)
    ∙ emit-padding_two mode 2 _
    ∙ last_one mode _ c1 (omega arith)
emit-encode_groups mode (c1 ∷ c2 ∷ []) x (h1, (h2, h)) =
    emit_two mode x (c1 / 4 % 64) ((c1 % 4 * 16 + c2 / 16) % 64) _ (omega arith) (omega arith)
    ∙ emit-char mode 2 _ (c2 % 16 * 4 % 64) _ _ (enc_char-IsChar mode _ (omega arith)) (omega arith)
    ∙ emit-padding_one mode 3 _
    ∙ last_two mode _ c1 c2 (omega arith) (omega arith)
emit-encode_groups mode (c1 ∷ c2 ∷ c3 ∷ src) x (h1, (h2, (h3, h))) =
    emit_four mode x (c1 / 4 % 64) ((c1 % 4 * 16 + c2 / 16) % 64) ((c2 % 16 * 4 + c3 / 64) % 64)
      (c3 % 64) (encode_groups mode src) (omega arith) (omega arith) (omega arith) (omega arith)
    ∙ cons_three _ _ _ c1 c2 c3 _ _ (omega arith) (omega arith) (omega arith)
        (emit-encode_groups mode src _ h)
