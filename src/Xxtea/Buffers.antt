-- ===== src/Xxtea/Buffers.antt =====
-- algorithm/xxtea.cpp: the key from bytes, and the calls from one buffer to another one. A buffer is
-- its bytes at all positions, which a little-endian machine reads as words.
use atframe_utils.Base.{
  ℕ, ◌+◌, ◌-◌, ◌*◌, ◌/◌, ◌%◌, ◌^◌, ◌||◌, Option, none, some, ltb, ◌==◌, if◌then◌else◌,
}
use atframe_utils.Xxtea.{xxtea_encrypt, xxtea_decrypt}

-- `XXTEA_GET_UINT32_BE`
abbrev pub get_uint32_be : (ℕ → ℕ) → ℕ → ℕ
get_uint32_be b i = b i * 2 ^ 24 + b (i + 1) * 2 ^ 16 + b (i + 2) * 2 ^ 8 + b (i + 3)

-- `xxtea_setup`
unfoldable pub xxtea_setup : (ℕ → ℕ) → ℕ → ℕ
xxtea_setup filled i = if ltb i 4 then get_uint32_be filled (i * 4) else 0

-- The words of a buffer, and back.
unfoldable pub words_of : (ℕ → ℕ) → ℕ → ℕ
words_of b i = b (i * 4) + b (i * 4 + 1) * 2 ^ 8 + b (i * 4 + 2) * 2 ^ 16 + b (i * 4 + 3) * 2 ^ 24

unfoldable pub bytes_of : (ℕ → ℕ) → ℕ → ℕ
bytes_of v j = v (j / 4) / 256 ^ (j % 4) % 256

-- `real_olen`: the length up to the next multiple of 4, on a size_t.
abbrev pub real_length : ℕ → ℕ
real_length ilen = ((ilen - 1) / 4 * 4 + 3 + 1) % 2 ^ 64

-- The output after the copy and the padding.
unfoldable pub padded : (ℕ → ℕ) → ℕ → (ℕ → ℕ) → ℕ → ℕ
padded input ilen output j =
    if ltb j ilen then input j else (if ltb j (real_length ilen) then 0 else output j)

-- Both calls with two buffers, for the call in place: the length at `olen` and the output that they
-- leave, none where the program stops. A null pointer is none.
unfoldable pub crypt_buffers :
    ((ℕ → ℕ) → ℕ → (ℕ → ℕ) → Option (ℕ → ℕ))
    → Option (ℕ → ℕ)
    → Option (ℕ → ℕ)
    → ℕ
    → Option (ℕ → ℕ)
    → Option ℕ
    → Option (Option ℕ × Option (ℕ → ℕ))
crypt_buffers crypt key input ilen output olen =
    let failed : Option ℕ × Option (ℕ → ℕ) =
      (elim olen [ none ↦ none | some _ ↦ some 0 ], output) in
    elim key [
      | none ↦ some failed
      | some k ↦ elim input [
        | none ↦ some failed
        | some source ↦ elim output [
          | none ↦ some failed
          | some target ↦ elim olen [
            | none ↦ some failed
            | some room ↦
                let real_olen = real_length ilen in
                let done : Option (Option ℕ × Option (ℕ → ℕ)) =
                  elim (crypt k real_olen (words_of (padded source ilen target))) [
                    | none ↦ none
                    | some words ↦ some (some real_olen, some (bytes_of words))
                  ] in
                if ilen == 0 || ltb room real_olen then some failed else done
          ]
        ]
      ]
    ]

abbrev pub xxtea_encrypt_buffers :
    Option (ℕ → ℕ)
    → Option (ℕ → ℕ)
    → ℕ
    → Option (ℕ → ℕ)
    → Option ℕ
    → Option (Option ℕ × Option (ℕ → ℕ))
xxtea_encrypt_buffers = crypt_buffers xxtea_encrypt

abbrev pub xxtea_decrypt_buffers :
    Option (ℕ → ℕ)
    → Option (ℕ → ℕ)
    → ℕ
    → Option (ℕ → ℕ)
    → Option ℕ
    → Option (Option ℕ × Option (ℕ → ℕ))
xxtea_decrypt_buffers = crypt_buffers xxtea_decrypt
