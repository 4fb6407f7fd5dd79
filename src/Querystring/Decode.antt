-- ===== src/Querystring/Decode.antt =====
-- `tquerystring::decode` and `decode_record`.
use atframe_utils.Base.{
  codes, contains, tail, length, ℕ, zero, suc, List, [], ◌∷◌, ◌++◌, Bool, true, false, not, Option,
  none, some, ◌==◌, if◌then◌else◌, is_empty,
}
use atframe_utils.Uri.{decode_uri_component, content_of}
use atframe_utils.Querystring.Items.{Entries, empty_object, parse_entries}

-- `tquerystring`: the separators, and the data of its item_object
pub record Tquerystring : Type 0 where
  pub spliter : List ℕ
  pub entries : Entries

-- `item_object::parse` of a tquerystring, from the first key on
unfoldable pub parse_keys : List (List ℕ) → List ℕ → Tquerystring → Bool × Tquerystring
parse_keys keys value q =
    let r = parse_entries keys value q.entries in (r.0, record q { entries = r.1 })

-- The text before and behind the last occurrence of a character.
unfoldable pub find_last_of : ℕ → List ℕ → Option (List ℕ × List ℕ)
find_last_of c [] = none
find_last_of c (x ∷ text) = elim (find_last_of c text) [
  | none ↦ (if x == c then some ([], text) else none)
  | some (before, behind) ↦ some (x ∷ before, behind)
]

-- The characters before the first one of a kind, and those from it on.
unfoldable pub until : (ℕ → Bool) → List ℕ → List ℕ × List ℕ
until test [] = ([], [])
until test (c ∷ text) = let r = until test text in if test c then ([], c ∷ text) else (c ∷ r.0, r.1)

-- What a turn of the loop of `decode_record` reads up to an opening bracket, behind the closing
-- brackets in front, and the text from there on.
unfoldable pub plain_part : List ℕ → List ℕ × List ℕ
plain_part text = until (λ x. x == b'[') (until (λ x. not (x == b']')) text).1

-- What it reads behind that bracket up to a closing one, and the text from there on.
unfoldable pub inner_part : List ℕ → List ℕ × List ℕ
inner_part text = until (λ x. x == b']') (tail text)

-- The loop of `decode_record` that reads the keys, on the text from `sz` on, with as much fuel as
-- the text has characters: the segment and the keys it ends with, none where the fuel runs out.
unfoldable pub read_keys : ℕ → List ℕ → List ℕ → List (List ℕ) → Option (List ℕ × List (List ℕ))
read_keys zero [] seg keys = some (seg, keys)
read_keys zero (c ∷ text) seg keys = none
read_keys (suc fuel) [] seg keys = some (seg, keys)
read_keys (suc fuel) (c ∷ text) seg keys =
    let plain = plain_part (c ∷ text) in
    let inner = inner_part plain.1 in
    let rest = read_keys fuel (tail inner.1) inner.0 (keys ++ ((seg ++ plain.0) ∷ [])) in
    if is_empty plain.1 then some ([], keys ++ ((seg ++ plain.0) ∷ [])) else rest

-- `tquerystring::decode_record`, the value and the keys of a record before they are decoded
unfoldable pub split_record : List ℕ → List ℕ × List ℕ
split_record record_text = elim (find_last_of b'=' record_text) [
  | none ↦ (record_text, [])
  | some (before, behind) ↦ (before, behind)
]

-- The end of `decode_record`, with the segment and the keys that its loop leaves.
abbrev pub store_value : List ℕ × List (List ℕ) → List ℕ → Tquerystring → Bool × Tquerystring
store_value r value q = if is_empty r.0 then (false, q) else parse_keys (r.1 ++ (r.0 ∷ [])) value q

-- `tquerystring::decode_record`; none where the fuel of its loop runs out
unfoldable pub decode_record : List ℕ → Tquerystring → Option (Bool × Tquerystring)
decode_record text q =
    let parts = split_record text in
    let value = decode_uri_component parts.1 (length parts.1) in
    let origin = decode_uri_component parts.0 (length parts.0) in
    elim (read_keys (length origin) origin [] []) [
      | none ↦ none
      | some r ↦ some (store_value r value q)
    ]

-- `tquerystring::decode`, the loop over the records, with as much fuel as the text has
-- characters; none where the fuel runs out
unfoldable pub decode_loop : ℕ → List ℕ → Bool → Tquerystring → Option (Bool × Tquerystring)
decode_loop zero [] ret q = some (ret, q)
decode_loop zero (c ∷ text) ret q = none
decode_loop (suc fuel) [] ret q = some (ret, q)
decode_loop (suc fuel) (c ∷ text) ret q =
    let parts = until (contains q.spliter) (c ∷ text) in
    elim (decode_record parts.0 q) [
      | none ↦ none
      | some r ↦ decode_loop fuel (tail parts.1) r.0 r.1
    ]

-- `tquerystring::decode`
unfoldable pub decode : List ℕ → ℕ → Tquerystring → Option (Bool × Tquerystring)
decode content sz q = let text = content_of content sz in decode_loop (length text) text true q

-- A tquerystring without entries and with the default separators.
abbrev pub new_querystring : Tquerystring
new_querystring = record { spliter = codes "?#&"; entries = empty_object }
