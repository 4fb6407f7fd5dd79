-- ===== src/Querystring/Items.antt =====
-- The values of string/tquerystring.h: `types::item_impl` and its classes.
use atframe_utils.Base.{
  eq_codes, ℕ, List, [], ◌∷◌, Bool, true, false, Option, none, some, if◌then◌else◌,
}

-- An object is its data, since a parse makes a new object for each item. `item_querystring` is a
-- tquerystring as an item, with its separators. The map of an object is the list of its entries
-- in the order of the iteration.
mutual
  pub data Item : Type 0 where
    item_string : List ℕ → Item
    item_array : Items → Item
    item_object : Entries → Item
    item_querystring : List ℕ → Entries → Item

  -- `item_array::data_`
  pub data Items : Type 0 where
    empty_array : Items
    item : Item → Items → Items

  -- `item_object::data_`
  pub data Entries : Type 0 where
    empty_object : Entries
    entry : List ℕ → Item → Entries → Entries

-- `item_array::append`, at the end of the vector
unfoldable pub append : Items → Item → Items
append empty_array x = item x empty_array
append (item y rest) x = item y (append rest x)

-- `data_.find(key)`
unfoldable pub find_key : List ℕ → Entries → Option Item
find_key key empty_object = none
find_key key (entry k x rest) = if eq_codes k key then some x else find_key key rest

-- The entry of a key with its item changed in place, or a new entry behind the others.
unfoldable pub store_key : List ℕ → Item → Entries → Entries
store_key key x empty_object = entry key x empty_object
store_key key x (entry k y rest) =
    if eq_codes k key then entry k x rest else entry k y (store_key key x rest)

-- `item_object::remove`
unfoldable pub remove : List ℕ → Entries → Entries
remove key empty_object = empty_object
remove key (entry k x rest) = if eq_codes k key then rest else entry k x (remove key rest)

-- `item_object::keys`
unfoldable pub keys : Entries → List (List ℕ)
keys empty_object = []
keys (entry k x rest) = k ∷ keys rest

-- `type() < ITEM_TYPE_QUERYSTRING`
unfoldable pub is_primitive : Item → Bool
is_primitive (item_string text) = true
is_primitive (item_array items) = false
is_primitive (item_object entries) = false
is_primitive (item_querystring spliter entries) = false

-- `item_object::parse`, the item of a new entry by the keys behind its own
unfoldable pub create_item : List (List ℕ) → Item
create_item [] = item_string []
create_item ([] ∷ []) = item_array empty_array
create_item ((c ∷ key) ∷ []) = item_object empty_object
create_item (key ∷ next ∷ rest) = item_object empty_object

-- `item_array::parse`, on the keys from its index on
unfoldable pub parse_array : List (List ℕ) → Items → List ℕ → Bool × Items
parse_array [] items value = (false, items)
parse_array ([] ∷ []) items value = (true, append items (item_string value))
parse_array ((c ∷ key) ∷ []) items value = (false, items)
parse_array (key ∷ next ∷ rest) items value = (false, items)

-- The item that `item_object::parse` goes on with.
unfoldable pub entry_of : List ℕ → List (List ℕ) → Entries → Item
entry_of key rest entries = elim (find_key key entries) [ none ↦ create_item rest | some x ↦ x ]

-- `parse` of each class, on the keys from its index on: whether it succeeds, and the item after it
unfoldable pub parse : List (List ℕ) → Item → List ℕ → Bool × Item
parse keys (item_string text) value = (true, item_string value)
parse keys (item_array items) value = let r = parse_array keys items value in (r.0, item_array r.1)
parse [] (item_object entries) value = (false, item_object entries)
parse (key ∷ rest) (item_object entries) value =
    let r = parse rest (entry_of key rest entries) value in
    (r.0, item_object (store_key key r.1 entries))
parse [] (item_querystring spliter entries) value = (false, item_querystring spliter entries)
parse (key ∷ rest) (item_querystring spliter entries) value =
    let r = parse rest (entry_of key rest entries) value in
    (r.0, item_querystring spliter (store_key key r.1 entries))

-- `item_object::parse` on the entries of an object
unfoldable pub parse_entries : List (List ℕ) → List ℕ → Entries → Bool × Entries
parse_entries [] value entries = (false, entries)
parse_entries (key ∷ rest) value entries =
    let r = parse rest (entry_of key rest entries) value in (r.0, store_key key r.1 entries)
