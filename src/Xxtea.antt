-- ===== src/Xxtea.antt =====
-- algorithm/xxtea.cpp. The buffer is its words, `uint32_t` values at the positions below n.
pub mod Passes
pub mod Inverse
pub mod Buffers
pub mod Locality
pub mod Bytes
mod Tests
use Prim.Native.Nat.{bit_xor}
use atframe_utils.Base.{
  ℕ, zero, suc, ◌+◌, ◌-◌, ◌*◌, ◌/◌, ◌%◌, ◌^◌, Bool, true, false, not, ◌||◌, Option, none, some, ltb,
  ◌==◌, if◌then◌else◌,
}

-- A value cast to `uint32_t`.
abbrev pub word : ℕ → ℕ
word x = x % 2 ^ 32

-- `a - b` on `uint32_t`.
abbrev pub word_sub : ℕ → ℕ → ℕ
word_sub a b = (a + (2 ^ 32 - b % 2 ^ 32)) % 2 ^ 32

-- `XXTEA_DELTA`
abbrev pub delta : ℕ
delta = 0x9e3779b9

-- `XXTEA_MX` with `e` from the sum.
unfoldable pub mx : (ℕ → ℕ) → ℕ → ℕ → ℕ → ℕ → ℕ
mx key sum p y z =
    let e = sum / 4 % 4 in
    bit_xor (word (bit_xor (z / 32) (word (y * 4)) + bit_xor (y / 8) (word (z * 16))))
      (word (bit_xor sum y + bit_xor (key (bit_xor (p % 4) e)) z))

-- A write of one word.
abbrev pub put : (ℕ → ℕ) → ℕ → ℕ → ℕ → ℕ
put v p x j = if j == p then x else v j

module _ (key : ℕ → ℕ) where
  -- The inner loop of `xxtea_encrypt`, with the number of words to go, `p`, `z` and the words.
  unfoldable pub encrypt_words : ℕ → ℕ → ℕ → ℕ → (ℕ → ℕ) → ℕ × (ℕ → ℕ)
  encrypt_words sum zero p z v = (z, v)
  encrypt_words sum (suc left) p z v =
      let x = word (v p + mx key sum p (v (p + 1)) z) in
      encrypt_words sum left (p + 1) x (put v p x)

  -- A round of `xxtea_encrypt` for n words.
  unfoldable pub encrypt_round : ℕ → ℕ → ℕ → (ℕ → ℕ) → ℕ × (ℕ → ℕ)
  encrypt_round n sum z v =
      let (z', v') = encrypt_words sum (n - 1) 0 z v in
      let x = word (v' (n - 1) + mx key sum (n - 1) (v' 0) z') in (x, put v' (n - 1) x)

  unfoldable pub encrypt_rounds : ℕ → ℕ → ℕ → ℕ → (ℕ → ℕ) → ℕ → ℕ
  encrypt_rounds n zero sum z v = v
  encrypt_rounds n (suc rounds) sum z v =
      let sum' = word (sum + delta) in
      let (z', v') = encrypt_round n sum' z v in encrypt_rounds n rounds sum' z' v'

  -- The inner loop of `xxtea_decrypt` from `p` down to 1, with `y` and the words.
  unfoldable pub decrypt_words : ℕ → ℕ → ℕ → (ℕ → ℕ) → ℕ × (ℕ → ℕ)
  decrypt_words sum zero y v = (y, v)
  decrypt_words sum (suc p) y v =
      let x = word_sub (v (suc p)) (mx key sum (suc p) y (v p)) in
      decrypt_words sum p x (put v (suc p) x)

  -- A round of `xxtea_decrypt` for n words.
  unfoldable pub decrypt_round : ℕ → ℕ → ℕ → (ℕ → ℕ) → ℕ × (ℕ → ℕ)
  decrypt_round n sum y v =
      let (y', v') = decrypt_words sum (n - 1) y v in
      let x = word_sub (v' 0) (mx key sum 0 y' (v' (n - 1))) in (x, put v' 0 x)

  unfoldable pub decrypt_rounds : ℕ → ℕ → ℕ → ℕ → (ℕ → ℕ) → ℕ → ℕ
  decrypt_rounds n zero sum y v = v
  decrypt_rounds n (suc rounds) sum y v =
      let (y', v') = decrypt_round n sum y v in decrypt_rounds n rounds (word_sub sum delta) y' v'

-- The number of rounds for n words.
abbrev pub round_count : ℕ → ℕ
round_count n = 6 + 52 / n

-- Whether a length makes `std::abort` stop the program: not a multiple of 4, or above 2^34 - 4.
unfoldable pub aborts : ℕ → Bool
aborts len = not (len % 4 == 0) || ltb ((2 ^ 32 - 1) * 4) len

-- `xxtea_encrypt` in place, with a key that is set; none where the program stops.
unfoldable pub xxtea_encrypt : (ℕ → ℕ) → ℕ → (ℕ → ℕ) → Option (ℕ → ℕ)
xxtea_encrypt key len v =
    let n = len / 4 in
    if aborts len
    then none
    else (if len == 0 then some v else some (encrypt_rounds key n (round_count n) 0 (v (n - 1)) v))

-- `xxtea_decrypt` in place.
unfoldable pub xxtea_decrypt : (ℕ → ℕ) → ℕ → (ℕ → ℕ) → Option (ℕ → ℕ)
xxtea_decrypt key len v =
    let n = len / 4 in
    if aborts len
    then none
    else (if len == 0
        then some v
        else some (decrypt_rounds key n (round_count n) (word (round_count n * delta)) (v 0) v))
