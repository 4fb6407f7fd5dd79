-- ===== src/Xxtea/Bytes.antt =====
-- The round trip of the calls with two buffers.
use atframe_utils.Base.{
  ℕ, zero, suc, ◌+◌, ◌-◌, ◌*◌, ◌/◌, ◌%◌, ◌^◌, ◌≤◌, ◌<◌, ◌≡◌, refl, ap, sym, ◌∙◌, arith, false, ◌||◌,
  Option, none, some, ltb, ◌==◌, if-split, inl, inr, ◌⊎◌,
}
use atframe_utils.Xxtea.{aborts, xxtea_encrypt, xxtea_decrypt}
use atframe_utils.Xxtea.Passes.{AreWords}
use atframe_utils.Xxtea.Inverse.{xxtea_decrypt-xxtea_encrypt, xxtea_encrypt-AreWords}
use atframe_utils.Xxtea.Locality.{xxtea_encrypt-Agree}
use atframe_utils.Xxtea.Buffers.{
  words_of, bytes_of, real_length, padded, crypt_buffers, xxtea_encrypt_buffers,
  xxtea_decrypt_buffers,
}

-- Every value of a buffer is a byte.
abbrev pub AreBytes : (ℕ → ℕ) → Type 0
AreBytes b = (i : ℕ) → b i < 256

words_of-AreWords : (b : ℕ → ℕ) → AreBytes b → AreWords (words_of b)
unfolding words_of
words_of-AreWords b h i = omega (arith, h (i * 4), h (i * 4 + 1), h (i * 4 + 2), h (i * 4 + 3))

byte-at : (v : ℕ → ℕ) (i r : ℕ) → r < 4 → bytes_of v (i * 4 + r) ≡ v i / 256 ^ r % 256
unfolding bytes_of
byte-at v i r h =
    let quotient : (i * 4 + r) / 4 ≡ i = omega arith in
    let remainder : (i * 4 + r) % 4 ≡ r = omega arith in
    ap (λ q. v q / 256 ^ ((i * 4 + r) % 4) % 256) quotient ∙ ap (λ m. v i / 256 ^ m % 256) remainder

words_of-bytes_of : (v : ℕ → ℕ) → AreWords v → words_of (bytes_of v) ≡ v
unfolding words_of
words_of-bytes_of v w = λ k. λ i. at i k
  where
    first : (i : ℕ) → bytes_of v (i * 4) ≡ v i / 256 ^ 0 % 256
    first i = ap (bytes_of v) (omega arith) ∙ byte-at v i 0 (omega arith)

    at : (i : ℕ) → words_of (bytes_of v) i ≡ v i
    at i = omega (
      arith,
      w i,
      first i,
      byte-at v i 1 (omega arith),
      byte-at v i 2 (omega arith),
      byte-at v i 3 (omega arith),
    )

bytes_of-words_of : (b : ℕ → ℕ) → AreBytes b → bytes_of (words_of b) ≡ b
unfolding words_of
bytes_of-words_of b h = λ k. λ j. at j k
  where
    same : (i : ℕ) → b (i * 4) ≡ b (i * 4 + 0)
    same i = ap b (omega arith)

    here : (i r : ℕ) → r < 4 → words_of b i / 256 ^ r % 256 ≡ b (i * 4 + r)
    here i zero lt = omega (arith, h (i * 4), h (i * 4 + 1), h (i * 4 + 2), h (i * 4 + 3), same i)
    here i (suc zero) lt = omega (arith, h (i * 4), h (i * 4 + 1), h (i * 4 + 2), h (i * 4 + 3))
    here i (suc (suc zero)) lt =
        omega (arith, h (i * 4), h (i * 4 + 1), h (i * 4 + 2), h (i * 4 + 3))
    here i (suc (suc (suc zero))) lt =
        omega (arith, h (i * 4), h (i * 4 + 1), h (i * 4 + 2), h (i * 4 + 3))
    here i (suc (suc (suc (suc r)))) lt = absurd (omega arith)

    at : (j : ℕ) → bytes_of (words_of b) j ≡ b j
    at j =
        let split : j ≡ j / 4 * 4 + j % 4 = omega arith in
        ap (bytes_of (words_of b)) split
        ∙ byte-at (words_of b) (j / 4) (j % 4) (omega arith)
        ∙ here (j / 4) (j % 4) (omega arith)
        ∙ ap b (sym split)

-- A call whose checks hold, by what the call in place gives.
crypt_buffers_lem :
    (crypt : (ℕ → ℕ) → ℕ → (ℕ → ℕ) → Option (ℕ → ℕ)) (key input output words : ℕ → ℕ)
    (ilen room : ℕ)
    → 0 < ilen
    → real_length ilen ≤ room
    → crypt key (real_length ilen) (words_of (padded input ilen output)) ≡ some words
    → crypt_buffers crypt (some key) (some input) ilen (some output) (some room)
      ≡ some (some (real_length ilen), some (bytes_of words))
unfolding crypt_buffers
crypt_buffers_lem crypt key input output words ilen room pos fits e =
    if-split
      (λ (r : Option (Option ℕ × Option (ℕ → ℕ))).
        r ≡ some (some (real_length ilen), some (bytes_of words)))
      (ilen == 0 || ltb room (real_length ilen)) (λ h. absurd (ground (arith, h, pos, fits)))
      (λ _.
        ap
          (λ (o : Option (ℕ → ℕ)). elim o as (λ _. Option (Option ℕ × Option (ℕ → ℕ))) [
            | none ↦ none
            | some w ↦ some (some (real_length ilen), some (bytes_of w))
          ])
          e)

padded-AreBytes :
    (input output : ℕ → ℕ) (ilen : ℕ)
    → AreBytes input
    → AreBytes output
    → AreBytes (padded input ilen output)
unfolding padded
padded-AreBytes input output ilen h h' j =
    if-split (λ (x : ℕ). x < 256) (ltb j ilen) (λ _. h j)
      (λ _. if-split (λ (x : ℕ). x < 256) (ltb j (real_length ilen)) (λ _. omega arith) (λ _. h' j))

-- The words of a copy: those of the input, and behind them those of the output.
module _ (b t : ℕ → ℕ) (len : ℕ) (whole : len % 4 ≡ 0) (same : real_length len ≡ len) where
  padded_below : (j : ℕ) → j < len → padded b len t j ≡ b j
  unfolding padded
  padded_below j h =
      if-split (λ (x : ℕ). x ≡ b j) (ltb j len) (λ _. refl)
        (λ above. absurd (ground (arith, above, h)))

  padded_above : (j : ℕ) → len ≤ j → padded b len t j ≡ t j
  unfolding padded
  padded_above j h =
      if-split (λ (x : ℕ). x ≡ t j) (ltb j len) (λ below. absurd (ground (arith, below, h)))
        (λ _.
          if-split (λ (x : ℕ). x ≡ t j) (ltb j (real_length len))
            (λ below. absurd (ground (arith, below, h, same))) (λ _. refl))

  words_of-padded : (i : ℕ) → i < len / 4 → words_of (padded b len t) i ≡ words_of b i
  unfolding words_of
  words_of-padded i h = omega (
    arith,
    padded_below (i * 4) (omega (arith, h)),
    padded_below (i * 4 + 1) (omega (arith, h)),
    padded_below (i * 4 + 2) (omega (arith, h)),
    padded_below (i * 4 + 3) (omega (arith, h)),
  )

  words_of-padded_above : (i : ℕ) → len / 4 ≤ i → words_of (padded b len t) i ≡ words_of t i
  unfolding words_of
  words_of-padded_above i h = omega (
    arith,
    padded_above (i * 4) (omega (arith, h, whole)),
    padded_above (i * 4 + 1) (omega (arith, h, whole)),
    padded_above (i * 4 + 2) (omega (arith, h, whole)),
    padded_above (i * 4 + 3) (omega (arith, h, whole)),
  )

fits-aborts : (len : ℕ) → len % 4 ≡ 0 → len ≤ 17179869180 → aborts len ≡ false
unfolding aborts
fits-aborts len whole small = ground (arith, whole, small)

real_length-lem :
    (ilen : ℕ)
    → 5 ≤ ilen
    → ilen ≤ (2 ^ 32 - 1) * 4
    → (real_length (real_length ilen) ≡ real_length ilen)
      × (8 ≤ real_length ilen)
      × (aborts (real_length ilen) ≡ false)
real_length-lem ilen low high =
    (omega arith, omega arith, fits-aborts (real_length ilen) (omega arith) (omega arith))

lt-or-le : (i n : ℕ) → (i < n) ⊎ (n ≤ i)
lt-or-le i n = ground arith

-- Encrypted words that are copied into another buffer are decrypted there.
xxtea_decrypt-copied :
    (key copied target u : ℕ → ℕ) (len : ℕ)
    → AreBytes copied
    → AreBytes target
    → 8 ≤ len
    → len % 4 ≡ 0
    → real_length len ≡ len
    → aborts len ≡ false
    → AreWords u
    → xxtea_encrypt key len (words_of copied) ≡ some u
    → xxtea_decrypt key len (words_of (padded (bytes_of u) len target))
      ≡ some (words_of (padded copied len target))
xxtea_decrypt-copied key copied target u len bytes target_bytes long whole same fine u-words e =
    let other = words_of (padded copied len target) in
    let other_words : AreWords other =
      words_of-AreWords (padded copied len target)
        (padded-AreBytes copied target len bytes target_bytes) in
    let (t, e', d) = xxtea_decrypt-xxtea_encrypt key other len other_words long fine in
    let agree =
      xxtea_encrypt-Agree key (words_of copied) other u t len long fine
        (λ i lt. sym (words_of-padded copied target len whole same i lt)) e e' in
    let at : (i : ℕ) → words_of (padded (bytes_of u) len target) i ≡ t i = λ i.
      elim (lt-or-le i (len / 4)) [
        | inl lt ↦
            words_of-padded (bytes_of u) target len whole same i lt
            ∙ ap (λ w. w i) (words_of-bytes_of u u-words)
            ∙ agree.0 i lt
        | inr le ↦
            words_of-padded_above (bytes_of u) target len whole same i le
            ∙ sym (agree.1 i le ∙ words_of-padded_above copied target len whole same i le)
      ] in
    let moved : words_of (padded (bytes_of u) len target) ≡ t = λ k. λ i. at i k in
    ap (xxtea_decrypt key len) moved ∙ d

-- For an input of at least five bytes, with room for its padded length, the call of `xxtea_encrypt`
-- with two buffers succeeds; and `xxtea_decrypt` with the same key from its output into any other
-- buffer of bytes, with room for that length, succeeds and leaves there the input and the padding,
-- and behind them the bytes that the buffer had.
pub xxtea_decrypt_buffers-xxtea_encrypt_buffers :
    (key input output target : ℕ → ℕ) (ilen room target_room : ℕ)
    → AreBytes input
    → AreBytes output
    → AreBytes target
    → 5 ≤ ilen
    → ilen ≤ (2 ^ 32 - 1) * 4
    → real_length ilen ≤ room
    → real_length ilen ≤ target_room
    → (sealed : ℕ → ℕ) × (xxtea_encrypt_buffers
          (some key)
          (some input)
          ilen
          (some output)
          (some room)
        ≡ some (some (real_length ilen), some sealed))
      × (xxtea_decrypt_buffers
            (some key)
            (some sealed)
            (real_length ilen)
            (some target)
            (some target_room)
          ≡ some (
            some (real_length ilen),
            some (padded (padded input ilen output) (real_length ilen) target),
          ))
xxtea_decrypt_buffers-xxtea_encrypt_buffers key input output target ilen room target_room h h' h2
      low high fits target_fits =
    let len = real_length ilen in
    let copied = padded input ilen output in
    let result = padded copied len target in
    let bytes : AreBytes copied = padded-AreBytes input output ilen h h' in
    let words : AreWords (words_of copied) = words_of-AreWords copied bytes in
    let (same_length, long, fine) = real_length-lem ilen low high in
    let (u, e, d) = xxtea_decrypt-xxtea_encrypt key (words_of copied) len words long fine in
    let sealed = bytes_of u in
    let u-words : AreWords u =
      xxtea_encrypt-AreWords key (words_of copied) u len words long fine e in
    let back : xxtea_decrypt key (real_length len) (words_of (padded sealed len target))
        ≡ some (words_of result) =
      ap (λ n. xxtea_decrypt key n (words_of (padded sealed len target))) same_length
      ∙ xxtea_decrypt-copied key copied target u len bytes h2 long (omega arith) same_length fine
          u-words e in
    (
      sealed,
      crypt_buffers_lem xxtea_encrypt key input output u ilen room (omega arith) fits e,
      crypt_buffers_lem xxtea_decrypt key sealed target (words_of result) len target_room
            (omega arith) (omega (arith, same_length, target_fits)) back
          ∙ ap (λ n. some (some n, some (bytes_of (words_of result)))) same_length
          ∙ ap (λ b. some (some len, some b))
              (bytes_of-words_of result (padded-AreBytes copied target len bytes h2)),
    )
