-- ===== src/Querystring/Members.antt =====
-- The members of the items that read and change them, and `to_string`.
use atframe_utils.Base.{
  codes, ℕ, zero, suc, List, [], ◌++◌, Bool, true, false, Option, none, some, if◌then◌else◌,
}
use atframe_utils.Querystring.Items.{
  Item, item_string, item_array, item_object, item_querystring, Items, item, empty_array, Entries,
  entry, empty_object, find_key, is_primitive,
}
use atframe_utils.Querystring.Encode.{encode}

-- `item_array::get`, where an index out of range has no item
unfoldable pub get_item : Items → ℕ → Option Item
get_item empty_array index = none
get_item (item x rest) zero = some x
get_item (item x rest) (suc index) = get_item rest index

-- `item_array::set`, inside of the range
unfoldable pub set_item : Items → ℕ → Item → Items
set_item empty_array index y = empty_array
set_item (item x rest) zero y = item y rest
set_item (item x rest) (suc index) y = item x (set_item rest index y)

-- `item_array::pop_back`, on an array that is not empty
unfoldable pub pop_item : Items → Items
pop_item empty_array = empty_array
pop_item (item x empty_array) = empty_array
pop_item (item x (item y rest)) = item x (pop_item (item y rest))

-- `size` of an array
unfoldable pub array_size : Items → ℕ
array_size empty_array = 0
array_size (item x rest) = suc (array_size rest)

-- `to_string` of each class, with a string in quotes where it is inside of another item
unfoldable pub quoted : Bool → List ℕ → List ℕ
quoted primitive text = if primitive then codes "\"" ++ text ++ codes "\"" else text

unfoldable mutual
  pub to_string : Item → List ℕ
  to_string (item_string text) = text
  to_string (item_array items) = codes "[" ++ items_to_string true items ++ codes "]"
  to_string (item_object entries) = codes "{" ++ entries_to_string true entries ++ codes "}"
  to_string (item_querystring spliter entries) = (encode entries []).1

  pub items_to_string : Bool → Items → List ℕ
  items_to_string first empty_array = []
  items_to_string first (item x rest) =
      (if first then [] else codes ", ")
      ++ quoted (is_primitive x) (to_string x)
      ++ items_to_string false rest

  pub entries_to_string : Bool → Entries → List ℕ
  entries_to_string first empty_object = []
  entries_to_string first (entry key x rest) =
      (if first then [] else codes ", ")
      ++ codes "\""
      ++ key
      ++ codes "\": "
      ++ quoted (is_primitive x) (to_string x)
      ++ entries_to_string false rest

-- `item_object::get_string`
unfoldable pub get_string : List ℕ → Entries → List ℕ
get_string key entries = elim (find_key key entries) [ none ↦ [] | some x ↦ to_string x ]
