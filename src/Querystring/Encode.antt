-- ===== src/Querystring/Encode.antt =====
-- `encode` of the items and of tquerystring.
use atframe_utils.Base.{
  codes, c_str, last?, take, length, ℕ, zero, suc, ◌+◌, ◌-◌, ◌/◌, ◌%◌, List, [], ◌∷◌, ◌++◌, Bool,
  true, false, ◌&&◌, ◌==◌, none, some, ltb, if◌then◌else◌,
}
use atframe_utils.Uri.{encode_uri_component}
use atframe_utils.Querystring.Items.{
  Item, item_string, item_array, item_object, item_querystring, Items, empty_array, item, Entries,
  empty_object, entry, is_primitive,
}

-- The digits of a number as a stream writes them, with as much fuel as digits.
unfoldable pub digits : ℕ → ℕ → List ℕ
digits zero n = []
digits (suc fuel) n =
    if ltb n 10 then (b'0' + n) ∷ [] else digits fuel (n / 10) ++ ((b'0' + n % 10) ∷ [])

-- `uri::any_to_query_string` of a number
unfoldable pub any_to_query_string : ℕ → List ℕ
any_to_query_string n = digits (suc n) n

-- `item_impl::append_to`, with the output before and after it
unfoldable pub append_to : List ℕ → List ℕ → List ℕ → List ℕ
append_to target key value =
    target
    ++ (encode_uri_component key (length key)
        ++ codes "="
        ++ encode_uri_component value (length value)
        ++ codes "&")

unfoldable pub all_primitive : Items → Bool
all_primitive empty_array = true
all_primitive (item x rest) = is_primitive x && all_primitive rest

-- The prefix of an item of an array: without an index where every item is a string.
unfoldable pub item_prefix : Bool → ℕ → List ℕ → List ℕ
item_prefix plain index prefix =
    if plain
    then prefix ++ codes "[]"
    else prefix ++ codes "[" ++ any_to_query_string index ++ codes "]"

-- The end of `tquerystring::encode`: an ampersand at the end of the output is cut off.
unfoldable pub strip : List ℕ → List ℕ
strip output = elim (last? output) [
  | none ↦ output
  | some c ↦ if c == b'&' then take (length output - 1) output else output
]

-- `encode` of each class: whether it succeeds, and the output after it. A prefix is passed as a
-- C string.
unfoldable mutual
  pub encode_item : Item → List ℕ → List ℕ → Bool × List ℕ
  encode_item (item_string text) output prefix = (true, append_to output (c_str prefix) text)
  encode_item (item_array items) output prefix =
      encode_items items (all_primitive items) 0 output (c_str prefix)
  encode_item (item_object entries) output prefix = encode_entries entries output (c_str prefix)
  encode_item (item_querystring spliter entries) output prefix =
      let r = encode_while entries output in (r.0, strip r.1)

  -- `item_array::encode`, the loop from an index on
  pub encode_items : Items → Bool → ℕ → List ℕ → List ℕ → Bool × List ℕ
  encode_items empty_array plain index output prefix = (true, output)
  encode_items (item x rest) plain index output prefix =
      let first = encode_item x output (item_prefix plain index prefix) in
      let others = encode_items rest plain (suc index) first.1 prefix in
      (first.0 && others.0, others.1)

  -- `item_object::encode`, the loop
  pub encode_entries : Entries → List ℕ → List ℕ → Bool × List ℕ
  encode_entries empty_object output prefix = (true, output)
  encode_entries (entry key x rest) output prefix =
      let first = encode_item x output (prefix ++ codes "[" ++ key ++ codes "]") in
      let others = encode_entries rest first.1 prefix in (first.0 && others.0, others.1)

  -- `tquerystring::encode`, the loop: it stops at the first item that fails
  pub encode_while : Entries → List ℕ → Bool × List ℕ
  encode_while empty_object output = (true, output)
  encode_while (entry key x rest) output =
      let first = encode_item x output (c_str key) in
      let others = encode_while rest first.1 in if first.0 then others else (false, first.1)

-- `tquerystring::encode`
unfoldable pub encode : Entries → List ℕ → Bool × List ℕ
encode entries output = let r = encode_while entries output in (r.0, strip r.1)
