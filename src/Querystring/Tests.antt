-- ===== src/Querystring/Tests.antt =====
-- Query strings of concrete entries.
use atframe_utils.Base.{codes, length, ℕ, ◌≡◌, refl, arith, List, [], Bool, true, false, some}
use atframe_utils.Querystring.Items.{
  Items, item, empty_array, item_string, item_array, item_object, Entries, entry, empty_object,
  find_key, is_primitive,
}
use atframe_utils.Querystring.Encode.{encode, any_to_query_string, digits}
use atframe_utils.Querystring.Decode.{
  decode, read_keys, decode_loop, decode_record, Tquerystring, new_querystring,
}
use atframe_utils.Querystring.Storable.{IsKey, IsStorable, AreStorable}
use atframe_utils.Querystring.Records.{AreBytes}
use atframe_utils.Querystring.Leaves.{AreObjects}
use atframe_utils.Querystring.RoundTrip.{decode-encode}
use atframe_utils.Querystring.Fuel.{decode_total}
use atframe_utils.Querystring.Members.{quoted, to_string, get_string}
use atframe_utils.Querystring.Refused.{decode_record-refuses}

abbrev name_key : List ℕ
name_key = codes "ab"

name_key-IsKey : IsKey name_key
name_key-IsKey = (refl, (refl, (refl, tt)))

text_bytes : AreBytes (codes "x&")
text_bytes = (omega arith, (omega arith, tt))

-- ab[ab]=x& and ab[c][d]=x&
abbrev two_leaves : Entries
two_leaves =
    entry name_key
      (item_object (
        entry name_key (item_string (codes "x&")) (
          entry (codes "c")
            (item_object (entry (codes "d") (item_string (codes "x&")) empty_object))
            empty_object)))
      empty_object

two_leaves-AreStorable : AreStorable two_leaves
unfolding IsStorable find_key
two_leaves-AreStorable = (
  name_key-IsKey,
  refl,
  (
    refl,
    (
      name_key-IsKey,
      refl,
      text_bytes,
      ((refl, (refl, tt)), refl, (refl, ((refl, (refl, tt)), refl, text_bytes, tt)), tt),
    ),
  ),
  tt,
)

two_leaves-AreObjects : AreObjects two_leaves
unfolding AreObjects
two_leaves-AreObjects = (refl, tt)

decode-encode_example :
    (let output = encode two_leaves [] in
      (output.0 ≡ true)
      × (decode output.1 (length output.1) new_querystring
          ≡ some (true, record { spliter = codes "?#&"; entries = two_leaves })))
decode-encode_example = decode-encode two_leaves two_leaves-AreStorable two_leaves-AreObjects

decode_record-refuses_example :
    (let plain = encode (entry name_key (item_string (codes "x&")) empty_object) [] in
      let array =
        encode
          (entry name_key (item_array (item (item_string (codes "x&")) empty_array)) empty_object)
          [] in
      (plain.0 ≡ true)
      × (array.0 ≡ true)
      × (decode_record plain.1 new_querystring ≡ some (false, new_querystring))
      × (decode_record array.1 new_querystring ≡ some (false, new_querystring)))
decode_record-refuses_example =
    decode_record-refuses name_key (codes "x&") new_querystring name_key-IsKey text_bytes

decode_total_example :
    ((r : List ℕ × List (List ℕ)) × (read_keys 9 (codes "a[b]=1&") [] [] ≡ some r))
    × ((r : Bool × Tquerystring) × (decode_loop 9 (codes "a[b]=1&") true new_querystring ≡ some r))
    × ((r : Bool × Tquerystring) × (decode (codes "a[b]=1&") 7 new_querystring ≡ some r))
decode_total_example = decode_total (codes "a[b]=1&") [] [] true new_querystring 9 7 (omega arith)

abbrev two_items : Items
two_items = item (item_string name_key) (item (item_array empty_array) empty_array)

prints_items : to_string (item_array two_items) ≡ codes "[\"ab\", []]"
unfolding to_string quoted is_primitive
prints_items = refl

prints_entries : get_string name_key two_leaves ≡ codes "{\"ab\": \"x&\", \"c\": {\"d\": \"x&\"}}"
unfolding get_string find_key to_string quoted is_primitive
prints_entries = refl

prints_index : any_to_query_string 1203 ≡ codes "1203"
unfolding any_to_query_string digits
prints_index = refl
