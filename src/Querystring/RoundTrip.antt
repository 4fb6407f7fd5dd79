-- ===== src/Querystring/RoundTrip.antt =====
-- Decoding what `encode` has written.
use atframe_utils.Base.{
  All, codes, contains, length, length-append, tail, is_empty, ℕ, zero, suc, ◌≤◌, ◌≡◌, refl, ap,
  ◌∙◌, arith, List, [], ◌∷◌, ◌++◌, Bool, true, false, Option, none, some,
}
use atframe_utils.Uri.{encode_uri_component}
use atframe_utils.Uri.RoundTrip.{content_of-length}
use atframe_utils.Querystring.Items.{Entries, empty_object, parse_entries}
use atframe_utils.Querystring.Encode.{encode}
use atframe_utils.Querystring.Decode.{
  Tquerystring, parse_keys, until, decode_record, decode_loop, decode, new_querystring,
}
use atframe_utils.Querystring.Rebuild.{Leaf, leaves_in, Grows}
use atframe_utils.Querystring.Storable.{AreStorable, AreStorable-Grows}
use atframe_utils.Querystring.Keys.{brackets, until-append, until_all, is_empty-append}
use atframe_utils.Querystring.Records.{
  record_text, record_text-lacks_separators, decode_record-path,
}
use atframe_utils.Querystring.Joined.{path_text, joined, encode-joined}
use atframe_utils.Querystring.Leaves.{IsReadable, leaves_in-IsReadable, AreObjects, path-AreBytes}

-- A tquerystring with the default separators.
abbrev with_entries : Entries → Tquerystring
with_entries es = record { spliter = codes "?#&"; entries = es }

record_text_full : (key value : List ℕ) → is_empty (record_text key value) ≡ false
unfolding record_text
record_text_full key value =
    is_empty-append (encode_uri_component key (length key)) b'='
      (encode_uri_component value (length value))

-- The record of a leaf changes the entries as its parse does.
decode_record-leaf :
    (leaf : Leaf) (es fs : Entries)
    → IsReadable leaf
    → parse_entries leaf.0 leaf.1 es ≡ (true, fs)
    → decode_record (record_text (path_text leaf.0) leaf.1) (with_entries es)
      ≡ some (true, with_entries fs)
unfolding parse_keys
decode_record-leaf ([], value) es fs h parsed = absurd (ground (arith, h.0))
decode_record-leaf (key ∷ [], value) es fs h parsed = absurd (ground (arith, h.0))
decode_record-leaf (key ∷ next ∷ keys, value) es fs h parsed =
    decode_record-path key next keys value (with_entries es) h.1.0.0 h.1.0.1
      (path-AreBytes key (next ∷ keys) h.1.0) h.1.1
    ∙ ap (λ r. some (r.0, with_entries r.1)) parsed

leaf-lacks_separators :
    (leaf : Leaf)
    → IsReadable leaf
    → All (λ x. contains (codes "?#&") x ≡ false) (record_text (path_text leaf.0) leaf.1)
leaf-lacks_separators ([], value) h = absurd (ground (arith, h.0))
leaf-lacks_separators (key ∷ keys, value) h =
    record_text-lacks_separators (key ++ brackets keys) value (path-AreBytes key keys h.1.0) h.1.1

-- What the loop does behind a record.
abbrev then_loop : ℕ → List ℕ → Option (Bool × Tquerystring) → Option (Bool × Tquerystring)
then_loop fuel text result = elim result as (λ _. Option (Bool × Tquerystring)) [
  | none ↦ none
  | some r ↦ decode_loop fuel text r.0 r.1
]

decode_loop_turn :
    (fuel : ℕ) (text : List ℕ) (ret : Bool) (q : Tquerystring)
    → is_empty text ≡ false
    → decode_loop (suc fuel) text ret q ≡ (
        let parts = until (contains q.spliter) text in
        then_loop fuel (tail parts.1) (decode_record parts.0 q))
unfolding decode_loop
decode_loop_turn fuel [] ret q h = absurd (ground (arith, h))
decode_loop_turn fuel (c ∷ text) ret q h = refl

decode_loop_end :
    (fuel : ℕ) (ret : Bool) (q : Tquerystring) → decode_loop fuel [] ret q ≡ some (ret, q)
unfolding decode_loop
decode_loop_end zero ret q = refl
decode_loop_end (suc fuel) ret q = refl

full_length : (text : List ℕ) → is_empty text ≡ false → 1 ≤ length text
full_length [] h = absurd (ground (arith, h))
full_length (c ∷ text) h = omega arith

length-joined : (leaves : List Leaf) → length leaves ≤ length (joined leaves)
unfolding joined
length-joined [] = omega arith
length-joined (leaf ∷ []) = omega (
  arith,
  full_length (record_text (path_text leaf.0) leaf.1) (record_text_full (path_text leaf.0) leaf.1),
)
length-joined (leaf ∷ next ∷ leaves) =
    let text = record_text (path_text leaf.0) leaf.1 in
    omega (arith, length-joined (next ∷ leaves), length-append text (b'&' ∷ joined (next ∷ leaves)))

decode_loop-joined :
    (leaves : List Leaf) (fuel : ℕ) (es fs : Entries)
    → length leaves ≤ fuel
    → All IsReadable leaves
    → Grows leaves es fs
    → decode_loop fuel (joined leaves) true (with_entries es) ≡ some (true, with_entries fs)
unfolding joined
decode_loop-joined [] fuel es fs enough h grows =
    decode_loop_end fuel true (with_entries es) ∙ ap (λ t. some (true, with_entries t)) grows
decode_loop-joined (leaf ∷ leaves) zero es fs enough h grows = absurd (omega (arith, enough))
decode_loop-joined (leaf ∷ []) (suc fuel) es fs enough h grows =
    let text = record_text (path_text leaf.0) leaf.1 in
    let q = with_entries es in
    decode_loop_turn fuel text true q (record_text_full (path_text leaf.0) leaf.1)
    ∙ ap (λ parts. then_loop fuel (tail parts.1) (decode_record parts.0 q))
        (until_all (contains (codes "?#&")) text (leaf-lacks_separators leaf h.0))
    ∙ ap (then_loop fuel []) (decode_record-leaf leaf es grows.0 h.0 grows.1)
    ∙ decode_loop_end fuel true (with_entries grows.0)
    ∙ ap (λ t. some (true, with_entries t)) grows.2
decode_loop-joined (leaf ∷ next ∷ leaves) (suc fuel) es fs enough h grows =
    let text = record_text (path_text leaf.0) leaf.1 in
    let rest = joined (next ∷ leaves) in
    let q = with_entries es in
    decode_loop_turn fuel (text ++ b'&' ∷ rest) true q (is_empty-append text b'&' rest)
    ∙ ap (λ parts. then_loop fuel (tail parts.1) (decode_record parts.0 q))
        (until-append (contains (codes "?#&")) text b'&' rest (leaf-lacks_separators leaf h.0) refl)
    ∙ ap (then_loop fuel rest) (decode_record-leaf leaf es grows.0 h.0 grows.1)
    ∙ decode_loop-joined (next ∷ leaves) fuel grows.0 fs (omega (arith, enough)) h.1 grows.2

-- For a query string whose entries are all objects, with strings of bytes below them and no empty
-- object, and whose keys are different in each object, are not empty and hold only bytes other
-- than zero and the brackets: encode succeeds, and decode of what it has written, with its size,
-- into a new query string with the default separators succeeds and builds the same entries.
pub decode-encode :
    (es : Entries)
    → AreStorable es
    → AreObjects es
    → (let output = encode es [] in
        (output.0 ≡ true)
        × (decode output.1 (length output.1) new_querystring
            ≡ some (true, record { spliter = codes "?#&"; entries = es })))
unfolding decode
decode-encode es h k =
    let leaves = leaves_in es in
    let done = encode-joined es h in
    let back =
      ap (λ text. decode_loop (length text) text true new_querystring)
        (content_of-length (joined leaves))
      ∙ decode_loop-joined leaves (length (joined leaves)) empty_object es (length-joined leaves)
          (leaves_in-IsReadable es h k) (AreStorable-Grows es h) in
    (ap (λ r. r.0) done, ap (λ r. decode r.1 (length r.1) new_querystring) done ∙ back)
