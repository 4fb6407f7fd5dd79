-- ===== src/Querystring/Rebuild.antt =====
-- Parsing the leaves of a tree one after the other builds the tree again.
use atframe_utils.Base.{
  ℕ, ◌≡◌, refl, sym, ap, subst, ◌∙◌, List, [], ◌∷◌, ◌++◌, map, true, none, some,
}
use atframe_utils.Querystring.Items.{
  Item, item_string, item_array, item_object, item_querystring, Entries, empty_object, entry,
  create_item, entry_of, find_key, store_key, parse, parse_entries,
}
use atframe_utils.Querystring.Entries.{find_key-store_key, store_key-store_key}

-- A leaf is its keys and its value.
abbrev pub Leaf : Type 0
Leaf = List (List ℕ) × List ℕ

abbrev pub under : List ℕ → Leaf → Leaf
under key leaf = (key ∷ leaf.0, leaf.1)

-- The leaves of a tree of objects and strings, in the order of the iteration.
unfoldable mutual
  pub leaves_of : Item → List Leaf
  leaves_of (item_string text) = ([], text) ∷ []
  leaves_of (item_array items) = []
  leaves_of (item_object entries) = leaves_in entries
  leaves_of (item_querystring spliter entries) = []

  pub leaves_in : Entries → List Leaf
  leaves_in empty_object = []
  leaves_in (entry key x rest) = map (under key) (leaves_of x) ++ leaves_in rest

-- The leaves, parsed in turn, all succeed and lead from one item or object to another.
abbrev pub Builds : List Leaf → Item → Item → Type 0
Builds [] x y = x ≡ y
Builds (leaf ∷ leaves) x y = (z : Item) × (parse leaf.0 x leaf.1 ≡ (true, z)) × Builds leaves z y

abbrev pub Grows : List Leaf → Entries → Entries → Type 0
Grows [] es fs = es ≡ fs
Grows (leaf ∷ leaves) es fs =
    (gs : Entries) × (parse_entries leaf.0 leaf.1 es ≡ (true, gs)) × Grows leaves gs fs

pub Grows-append :
    (ks ls : List Leaf) (es fs gs : Entries)
    → Grows ks es fs
    → Grows ls fs gs
    → Grows (ks ++ ls) es gs
Grows-append [] ls es fs gs h k = subst (λ t. Grows ls t gs) (sym h) k
Grows-append (leaf ∷ ks) ls es fs gs h k = (h.0, h.1, Grows-append ks ls h.0 fs gs h.2 k)

parse-parse_entries :
    (keys : List (List ℕ)) (value : List ℕ) (es : Entries)
    → parse keys (item_object es) value
      ≡ (let r = parse_entries keys value es in (r.0, item_object r.1))
unfolding parse parse_entries
parse-parse_entries [] value es = refl
parse-parse_entries (key ∷ keys) value es = refl

pub Grows-Builds :
    (leaves : List Leaf) (es fs : Entries)
    → Grows leaves es fs
    → Builds leaves (item_object es) (item_object fs)
Grows-Builds [] es fs h = ap item_object h
Grows-Builds (leaf ∷ leaves) es fs h = (
  item_object h.0,
  parse-parse_entries leaf.0 leaf.1 es ∙ ap (λ r. (r.0, item_object r.1)) h.1,
  Grows-Builds leaves h.0 fs h.2,
)

parse_entries-entry_of :
    (key : List ℕ) (keys : List (List ℕ)) (value : List ℕ) (es : Entries) (x z : Item)
    → entry_of key keys es ≡ x
    → parse keys x value ≡ (true, z)
    → parse_entries (key ∷ keys) value es ≡ (true, store_key key z es)
unfolding parse_entries
parse_entries-entry_of key keys value es x z h k =
    ap (λ t. let r = parse keys t value in (r.0, store_key key r.1 es)) h
    ∙ ap (λ r. (r.0, store_key key r.1 es)) k

-- The leaves of one entry change that entry.
Grows-entry :
    (key : List ℕ) (leaves : List Leaf) (x y : Item) (es : Entries)
    → Builds leaves x y
    → Grows (map (under key) leaves) (store_key key x es) (store_key key y es)
unfolding entry_of
Grows-entry key [] x y es h = ap (λ t. store_key key t es) h
Grows-entry key (leaf ∷ leaves) x y es h = (
  store_key key h.0 es,
  parse_entries-entry_of key leaf.0 leaf.1 (store_key key x es) x h.0
        (ap (λ o. elim o as (λ _. Item) [ none ↦ create_item leaf.0 | some z ↦ z ])
          (find_key-store_key key x es))
        h.1
      ∙ ap (λ t. (true, t)) (store_key-store_key key x h.0 es),
  Grows-entry key leaves h.0 y es h.2,
)

-- The item that a new entry has before its first leaf.
abbrev pub Begins : List Leaf → Item → Type 0
Begins [] x = ⊥
Begins (leaf ∷ leaves) x = create_item leaf.0 ≡ x

pub Grows-new :
    (key : List ℕ) (leaves : List Leaf) (x y : Item) (es : Entries)
    → find_key key es ≡ none
    → Begins leaves x
    → Builds leaves x y
    → Grows (map (under key) leaves) es (store_key key y es)
unfolding entry_of
Grows-new key [] x y es absent begin h = absurd begin
Grows-new key (leaf ∷ leaves) x y es absent begin h = (
  store_key key h.0 es,
  parse_entries-entry_of key leaf.0 leaf.1 es x h.0
      (ap (λ o. elim o as (λ _. Item) [ none ↦ create_item leaf.0 | some z ↦ z ]) absent ∙ begin)
      h.1,
  Grows-entry key leaves h.0 y es h.2,
)
