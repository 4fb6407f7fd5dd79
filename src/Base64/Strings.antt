-- ===== src/Base64/Strings.antt =====
-- base64 on strings: the call for the length, then the call that writes.
use atframe_utils.Base.{
  ℕ, ◌+◌, ◌<◌, ◌≡◌, false, ◌==◌, Option, none, some, List, length, if◌then◌else◌,
}
use atframe_utils.Base64.Tables.{Mode}
use atframe_utils.Base64.{
  Code, success, invalid_character, Outcome, size_t_max, encode_length, encode_buffer, resize,
  overwrite, pop_zero, olen_or_zero, Scan, start_scan, scan, decode_buffer,
}

module _ (mode : Mode) (src : List ℕ) (some_bytes : 0 < length src) where
  need : ℕ
  need = encode_length mode (length src) + 1

  written_string : List ℕ → ℕ → Option (Code × List ℕ)
  written_string dst olen =
      let dst' = resize dst olen in
      let r = encode_buffer mode false olen src in
      if olen == size_t_max
      then none
      else (if length src == 0
          then some (success, dst')
          else some (r.code, pop_zero (overwrite dst' r.written)))

-- A source that the first pass accepts and that holds a character.
module _ (mode : Mode) (src : List ℕ) (t : Scan) (accepted : scan mode 0 start_scan src ≡ some t)
    (counted : 0 < t.n) where
  decoded_string : List ℕ → Outcome → Code × List ℕ
  decoded_string dst q = elim q.code [
    | invalid_character ↦ (invalid_character, dst)
    | _ ↦
        let r = decode_buffer mode false (olen_or_zero q.olen) src in
        if length src == 0
        then (success, dst)
        else (r.code, overwrite (resize dst (olen_or_zero q.olen)) r.written)
  ]
