-- ===== src/Xxtea/Tests.antt =====
-- Runs of xxtea, and its theorem at a buffer of three words.
use atframe_utils.Base.{none, ℕ, ◌+◌, ◌%◌, ◌^◌, ◌≡◌, refl, arith, false, some}
use atframe_utils.Xxtea.{
  mx, encrypt_words, encrypt_round, encrypt_rounds, decrypt_words, decrypt_round, decrypt_rounds,
  aborts, xxtea_encrypt, xxtea_decrypt,
}
use atframe_utils.Xxtea.Passes.{AreWords}
use atframe_utils.Xxtea.Buffers.{
  xxtea_setup, padded, crypt_buffers, xxtea_encrypt_buffers, xxtea_decrypt_buffers,
}
use atframe_utils.Xxtea.Bytes.{AreBytes, xxtea_decrypt_buffers-xxtea_encrypt_buffers}
use atframe_utils.Xxtea.Inverse.{xxtea_decrypt-xxtea_encrypt}

-- The key 1, 2, 3, 4 and the words 10, 11, 12 and so on.
abbrev key : ℕ → ℕ
key i = i + 1

abbrev words : ℕ → ℕ
words i = (i + 10) % 2 ^ 32

words-AreWords : AreWords words
words-AreWords i = omega arith

program : Unit {0}
unfolding mx encrypt_words encrypt_round encrypt_rounds decrypt_words decrypt_round decrypt_rounds
    aborts xxtea_encrypt xxtea_decrypt
program = tt

-- A round for three words.
three_words : (encrypt_round key 3 0x9e3779b9 (words 2) words).0 ≡ 104641168
unfolding program
three_words = refl

-- A round for one word, and its inverse round, which does not give 10 back: the word is mixed with
-- itself.
one_word : (encrypt_round key 1 0x9e3779b9 (words 0) words).0 ≡ 2654435711
unfolding program
one_word = refl

one_word_back : (decrypt_round key 1 0x9e3779b9 2654435711 (λ _. 2654435711)).0 ≡ 2873936939
unfolding program
one_word_back = refl

fine : aborts 12 ≡ false
unfolding program
fine = refl

xxtea_decrypt-xxtea_encrypt_example :
    (u : ℕ → ℕ) × (xxtea_encrypt key 12 words ≡ some u) × (xxtea_decrypt key 12 u ≡ some words)
xxtea_decrypt-xxtea_encrypt_example =
    xxtea_decrypt-xxtea_encrypt key words 12 words-AreWords (omega arith) fine

-- The key from the bytes 0 to 15, and a call without room for five bytes.
setup_run : xxtea_setup (λ i. i) 1 ≡ 0x04050607
unfolding xxtea_setup
setup_run = refl

abbrev bytes : ℕ → ℕ
bytes i = (i + 250) % 256

no_room :
    xxtea_encrypt_buffers (some key) (some bytes) 5 (some bytes) (some 7)
    ≡ some (some 0, some bytes)
unfolding crypt_buffers
no_room = refl

no_key : xxtea_encrypt_buffers none (some bytes) 5 (some bytes) (some 8) ≡ some (some 0, some bytes)
unfolding crypt_buffers
no_key = refl

padding_run : padded bytes 5 bytes 6 ≡ 0
unfolding padded
padding_run = refl

bytes-AreBytes : AreBytes bytes
bytes-AreBytes i = omega arith

-- A buffer of eights and its room for twelve bytes.
abbrev eights : ℕ → ℕ
eights i = 8

eights-AreBytes : AreBytes eights
eights-AreBytes i = omega arith

xxtea_decrypt_buffers-xxtea_encrypt_buffers_example :
    (sealed : ℕ → ℕ) × (xxtea_encrypt_buffers (some key) (some bytes) 5 (some bytes) (some 9)
      ≡ some (some 8, some sealed))
    × (xxtea_decrypt_buffers (some key) (some sealed) 8 (some eights) (some 12)
        ≡ some (some 8, some (padded (padded bytes 5 bytes) 8 eights)))
xxtea_decrypt_buffers-xxtea_encrypt_buffers_example =
    xxtea_decrypt_buffers-xxtea_encrypt_buffers key bytes bytes eights 5 9 12 bytes-AreBytes
      bytes-AreBytes eights-AreBytes (omega arith) (omega arith) (omega arith) (omega arith)
