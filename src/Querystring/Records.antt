-- ===== src/Querystring/Records.antt =====
-- `decode_record` on what `append_to` writes.
use atframe_utils.Base.{
  All, All-append, All-mono, codes, contains, length, append_assoc, ℕ, ◌<◌, ◌==◌, ◌≡◌, refl, ap,
  ap₂, ◌∙◌, arith, List, [], ◌∷◌, ◌++◌, Bool, true, false, Option, none, some, if◌then◌else◌,
}
use atframe_utils.Uri.{encode_uri_component, decode_uri_component, uri_component_map}
use atframe_utils.Uri.RoundTrip.{uri_coders-AreInverse}
use atframe_utils.Uri.Written.{is_written, uri_encoders-written, is_written-IsPlain}
use atframe_utils.Querystring.Encode.{append_to}
use atframe_utils.Querystring.Decode.{
  Tquerystring, parse_keys, find_last_of, read_keys, split_record, store_value, decode_record,
}
use atframe_utils.Querystring.Storable.{IsKey}
use atframe_utils.Querystring.Keys.{brackets, read_keys-path}

-- The text that stands for a key and a value, without the ampersand behind it.
unfoldable pub record_text : List ℕ → List ℕ → List ℕ
record_text key value =
    encode_uri_component key (length key) ++ b'=' ∷ encode_uri_component value (length value)

pub append_to-record_text :
    (target key value : List ℕ)
    → append_to target key value ≡ target ++ (record_text key value ++ b'&' ∷ [])
unfolding append_to record_text
append_to-record_text target key value =
    let k = encode_uri_component key (length key) in
    let v = encode_uri_component value (length value) in
    ap (λ t. target ++ (t ++ codes "&")) (append_assoc k (codes "=") v)

find_last_of-none : (c : ℕ) (s : List ℕ) → All (λ x. (x == c) ≡ false) s → find_last_of c s ≡ none
unfolding find_last_of
find_last_of-none c [] h = refl
find_last_of-none c (x ∷ s) h =
    ap
      (λ o. elim o as (λ _. Option (List ℕ × List ℕ)) [
        | none ↦ (if x == c then some ([], s) else none)
        | some r ↦ some (x ∷ r.0, r.1)
      ])
      (find_last_of-none c s h.1)
    ∙ ap (λ b. if b then some ([], s) else none) h.0

find_last_of-append :
    (c : ℕ) (s t : List ℕ)
    → All (λ x. (x == c) ≡ false) t
    → find_last_of c (s ++ c ∷ t) ≡ some (s, t)
unfolding find_last_of
find_last_of-append c [] t h =
    let same : (c == c) ≡ true = ground arith in
    ap
      (λ o. elim o as (λ _. Option (List ℕ × List ℕ)) [
        | none ↦ (if c == c then some ([], t) else none)
        | some r ↦ some (c ∷ r.0, r.1)
      ])
      (find_last_of-none c t h)
    ∙ ap (λ b. if b then some ([], t) else none) same
find_last_of-append c (x ∷ s) t h =
    ap
      (λ o. elim o as (λ _. Option (List ℕ × List ℕ)) [
        | none ↦ (if x == c then some ([], s ++ c ∷ t) else none)
        | some r ↦ some (x ∷ r.0, r.1)
      ])
      (find_last_of-append c s t h)

abbrev pub AreBytes : List ℕ → Type 0
AreBytes text = All (λ c. c < 256) text

component-lacks_equals :
    (text : List ℕ)
    → AreBytes text
    → All (λ x. (x == b'=') ≡ false) (encode_uri_component text (length text))
component-lacks_equals text bytes =
    All-mono (λ c. is_written uri_component_map false c ≡ true) (λ c. (c == b'=') ≡ false)
      (encode_uri_component text (length text)) (λ c h. (is_written-IsPlain c h).0)
      (uri_encoders-written text bytes).1

component-lacks_separators :
    (text : List ℕ)
    → AreBytes text
    → All (λ x. contains (codes "?#&") x ≡ false) (encode_uri_component text (length text))
component-lacks_separators text bytes =
    All-mono (λ c. is_written uri_component_map false c ≡ true)
      (λ c. contains (codes "?#&") c ≡ false) (encode_uri_component text (length text))
      (λ c h. (is_written-IsPlain c h).1) (uri_encoders-written text bytes).1

pub record_text-lacks_separators :
    (key value : List ℕ)
    → AreBytes key
    → AreBytes value
    → All (λ x. contains (codes "?#&") x ≡ false) (record_text key value)
unfolding record_text
record_text-lacks_separators key value k v =
    All-append (λ x. contains (codes "?#&") x ≡ false) (encode_uri_component key (length key))
      (b'=' ∷ encode_uri_component value (length value)) (component-lacks_separators key k)
      (refl, component-lacks_separators value v)

-- The part of `decode_record` behind the decoding of the key and the value.
abbrev pub finish_record : List ℕ → List ℕ → Tquerystring → Option (Bool × Tquerystring)
finish_record origin value q =
    elim (read_keys (length origin) origin [] []) as (λ _. Option (Bool × Tquerystring)) [
      | none ↦ none
      | some r ↦ some (store_value r value q)
    ]

pub finish_record-read :
    (origin value : List ℕ) (q : Tquerystring) (r : List ℕ × List (List ℕ))
    → read_keys (length origin) origin [] [] ≡ some r
    → finish_record origin value q ≡ some (store_value r value q)
finish_record-read origin value q r h =
    ap
      (λ o. elim o as (λ _. Option (Bool × Tquerystring)) [
        | none ↦ none
        | some s ↦ some (store_value s value q)
      ])
      h

pub decode_record-record_text :
    (key value : List ℕ) (q : Tquerystring)
    → AreBytes key
    → AreBytes value
    → decode_record (record_text key value) q ≡ finish_record key value q
unfolding decode_record split_record record_text
decode_record-record_text key value q k v =
    let before = encode_uri_component key (length key) in
    let behind = encode_uri_component value (length value) in
    ap
      (λ o.
        let parts = elim o as (λ _. List ℕ × List ℕ) [
          | none ↦ (record_text key value, [])
          | some r ↦ (r.0, r.1)
        ] in
        finish_record (decode_uri_component parts.0 (length parts.0))
          (decode_uri_component parts.1 (length parts.1)) q)
      (find_last_of-append b'=' before behind (component-lacks_equals value v))
    ∙ ap₂ (λ x y. finish_record x y q) (uri_coders-AreInverse key k).1
        (uri_coders-AreInverse value v).1

-- The text of a path of at least two keys is parsed as that path.
pub decode_record-path :
    (k next : List ℕ) (ks : List (List ℕ)) (value : List ℕ) (q : Tquerystring)
    → IsKey k
    → All IsKey (next ∷ ks)
    → AreBytes (k ++ brackets (next ∷ ks))
    → AreBytes value
    → decode_record (record_text (k ++ brackets (next ∷ ks)) value) q
      ≡ some (parse_keys (k ∷ next ∷ ks) value q)
decode_record-path k next ks value q h hs bytes v =
    let path = k ++ brackets (next ∷ ks) in
    let read = read_keys-path k next ks h hs in
    decode_record-record_text path value q bytes v
    ∙ finish_record-read path value q read.0 read.1
    ∙ ap (λ b. some (if b then (false, q) else parse_keys (read.0.1 ++ (read.0.0 ∷ [])) value q))
        read.2
    ∙ ap (λ keys. some (parse_keys keys value q)) read.3
