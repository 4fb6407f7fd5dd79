-- ===== src/Querystring/Refused.antt =====
-- The records that `decode_record` refuses.
use atframe_utils.Base.{
  All, All-append, All-mono, c_str, codes, length, length-append, ℕ, suc, ◌-◌, ◌<◌, ◌==◌, ◌≡◌, refl,
  ap, ◌∙◌, arith, List, [], ◌∷◌, ◌++◌, true, false, some,
}
use atframe_utils.Querystring.Items.{
  item, empty_array, item_string, item_array, entry, empty_object, is_primitive,
}
use atframe_utils.Querystring.Encode.{
  encode, encode_item, append_to, strip, all_primitive, item_prefix,
}
use atframe_utils.Querystring.Decode.{Tquerystring, read_keys, decode_record}
use atframe_utils.Querystring.Storable.{IsKey, is_key_char}
use atframe_utils.Querystring.Keys.{read_keys-plain, read_keys-array}
use atframe_utils.Querystring.Records.{
  record_text, AreBytes, decode_record-record_text, append_to-record_text, finish_record,
  finish_record-read,
}
use atframe_utils.Querystring.Encoded.{HasNoZero, c_str-HasNoZero, IsKey-HasNoZero}
use atframe_utils.Querystring.Joined.{strip-append}
use atframe_utils.Querystring.Leaves.{IsKey-AreBytes}

finish_refused :
    (origin value : List ℕ) (keys : List (List ℕ)) (q : Tquerystring)
    → read_keys (length origin) origin [] [] ≡ some ([], keys)
    → finish_record origin value q ≡ some (false, q)
finish_refused origin value keys q h = finish_record-read origin value q ([], keys) h

-- What encode writes for a single entry: the text of one record.
encode-string :
    (key value : List ℕ)
    → IsKey key
    → encode (entry key (item_string value) empty_object) [] ≡ (true, record_text key value)
unfolding encode encode_item
encode-string key value h =
    ap (λ p. (true, strip (append_to [] p value)))
      (ap c_str (c_str-HasNoZero key z) ∙ c_str-HasNoZero key z)
    ∙ ap (λ t. (true, strip t)) (append_to-record_text [] key value)
    ∙ ap (λ t. (true, t)) (strip-append (record_text key value))
  where
    z : HasNoZero key
    z = IsKey-HasNoZero key h

encode-array :
    (key value : List ℕ)
    → IsKey key
    → encode (entry key (item_array (item (item_string value) empty_array)) empty_object) []
      ≡ (true, record_text (key ++ codes "[]") value)
unfolding encode encode_item all_primitive is_primitive item_prefix
encode-array key value h =
    ap (λ p. (true, strip (append_to [] (c_str (p ++ codes "[]")) value)))
      (ap c_str (c_str-HasNoZero key z) ∙ c_str-HasNoZero key z)
    ∙ ap (λ p. (true, strip (append_to [] p value)))
        (c_str-HasNoZero (key ++ codes "[]")
          (All-append (λ c. (c == 0) ≡ false) key (codes "[]") z (refl, (refl, tt))))
    ∙ ap (λ t. (true, strip t)) (append_to-record_text [] (key ++ codes "[]") value)
    ∙ ap (λ t. (true, t)) (strip-append (record_text (key ++ codes "[]") value))
  where
    z : HasNoZero key
    z = IsKey-HasNoZero key h

IsKey-no_open : (key : List ℕ) → IsKey key → All (λ c. (c == b'[') ≡ false) key
IsKey-no_open key h =
    All-mono (λ c. is_key_char c ≡ true) (λ c. (c == b'[') ≡ false) key (λ c e. ground (arith, e))
      h.1

decode_record_array :
    (key value : List ℕ) (q : Tquerystring)
    → IsKey key
    → AreBytes value
    → decode_record (record_text (key ++ codes "[]") value) q ≡ some (false, q)
decode_record_array key value q h v =
    let path = key ++ codes "[]" in
    let bytes =
      All-append (λ c. c < 256) key (codes "[]") (IsKey-AreBytes key h)
        (omega arith, (omega arith, tt)) in
    let n = length path - 1 in
    let size : length path ≡ suc n = omega (arith, length-append key (codes "[]")) in
    let refused = ap (λ fuel. read_keys fuel path [] []) size ∙ read_keys-array key n h in
    decode_record-record_text path value q bytes v ∙ finish_refused path value (key ∷ []) q refused

-- For a key that is not empty and holds only bytes other than zero and the brackets, and a value
-- of bytes: encode writes a single string, or an array of a single string, under this key as one
-- record and succeeds, and decode_record refuses either record and changes nothing.
pub decode_record-refuses :
    (key value : List ℕ) (q : Tquerystring)
    → IsKey key
    → AreBytes value
    → (let plain = encode (entry key (item_string value) empty_object) [] in
        let array =
          encode (entry key (item_array (item (item_string value) empty_array)) empty_object) [] in
        (plain.0 ≡ true)
        × (array.0 ≡ true)
        × (decode_record plain.1 q ≡ some (false, q))
        × (decode_record array.1 q ≡ some (false, q)))
decode_record-refuses key value q h v =
    let plain = encode-string key value h in
    let array = encode-array key value h in
    let refused = read_keys-plain key (length key) (IsKey-no_open key h) (omega arith) in
    (
      ap (λ r. r.0) plain,
      ap (λ r. r.0) array,
      ap (λ r. decode_record r.1 q) plain
          ∙ decode_record-record_text key value q (IsKey-AreBytes key h) v
          ∙ finish_refused key value refused.0 q refused.1,
      ap (λ r. decode_record r.1 q) array ∙ decode_record_array key value q h v,
    )
