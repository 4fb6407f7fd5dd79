-- ===== src/Querystring/Storable.antt =====
-- The trees that a query string can carry, and that their leaves build them.
use atframe_utils.Base.{
  All, eq_codes, eq_codes_self, eq_codes-eq, Bool-cases, ltb, ℕ, ◌<◌, ◌==◌, ◌≡◌, refl, sym, ap,
  subst, ◌∙◌, arith, List, [], ◌∷◌, ◌++◌, map, Bool, true, false, not, ◌&&◌, none, some, is_empty,
  inl, inr, if◌then◌else◌,
}
use atframe_utils.Querystring.Items.{
  Item, item_string, item_array, item_object, item_querystring, Entries, empty_object, entry,
  create_item, find_key, store_key, parse,
}
use atframe_utils.Querystring.Entries.{find_key-store_other, join, join-empty, store_new, find_skip}
use atframe_utils.Querystring.Rebuild.{
  Leaf, under, leaves_of, leaves_in, Begins, Builds, Grows, Grows-append, Grows-Builds, Grows-new,
}

-- A byte that is neither zero nor a bracket.
abbrev pub is_key_char : ℕ → Bool
is_key_char c = ltb c 256 && not (c == 0) && not (c == b'[') && not (c == b']')

abbrev pub IsKey : List ℕ → Type 0
IsKey key = (is_empty key ≡ false) × All (λ c. is_key_char c ≡ true) key

abbrev pub is_empty_object : Entries → Bool
is_empty_object empty_object = true
is_empty_object (entry key x rest) = false

-- Strings of bytes in objects that are not empty, with different keys, none of them empty.
unfoldable mutual
  pub IsStorable : Item → Type 0
  IsStorable (item_string text) = All (λ c. c < 256) text
  IsStorable (item_array items) = ⊥
  IsStorable (item_object entries) = (is_empty_object entries ≡ false) × AreStorable entries
  IsStorable (item_querystring spliter entries) = ⊥

  pub AreStorable : Entries → Type 0
  AreStorable empty_object = Unit
  AreStorable (entry key x rest) =
      IsKey key × (find_key key rest ≡ none) × IsStorable x × AreStorable rest

-- No key of the second object is one of the first.
abbrev Apart : Entries → Entries → Type 0
Apart es empty_object = Unit
Apart es (entry key x rest) = (find_key key es ≡ none) × Apart es rest

Apart-empty : (fs : Entries) → Apart empty_object fs
unfolding find_key
Apart-empty empty_object = tt
Apart-empty (entry key x rest) = (refl, Apart-empty rest)

pub eq_codes_comm : (s t : List ℕ) → eq_codes s t ≡ false → eq_codes t s ≡ false
eq_codes_comm s t h = elim (Bool-cases (eq_codes t s)) [
  | inl same ↦
      let wrong : true ≡ false =
        sym (eq_codes_self s) ∙ ap (eq_codes s) (sym (eq_codes-eq t s same)) ∙ h in
      absurd (ground (arith, wrong))
  | inr other ↦ other
]

find_key-none :
    (k j : List ℕ) (x : Item) (es : Entries)
    → find_key k (entry j x es) ≡ none
    → eq_codes j k ≡ false
unfolding find_key
find_key-none k j x es h = elim (Bool-cases (eq_codes j k)) [
  | inl same ↦
      let there : find_key k (entry j x es) ≡ some x =
        ap (λ b. if b then some x else find_key k es) same in
      let wrong : none ≡ some x = sym h ∙ there in absurd (ground (arith, wrong))
  | inr other ↦ other
]

Apart-store_key :
    (key : List ℕ) (x : Item) (es fs : Entries)
    → find_key key fs ≡ none
    → Apart es fs
    → Apart (store_key key x es) fs
Apart-store_key key x es empty_object absent h = tt
Apart-store_key key x es (entry j y rest) absent h =
    let other = find_key-none key j y rest absent in
    (
      find_key-store_other key j x es (eq_codes_comm j key other) ∙ h.0,
      Apart-store_key key x es rest (sym (find_skip key j y rest other) ∙ absent) h.1,
    )

Begins-under :
    (key : List ℕ) (ls rest : List Leaf) (x : Item)
    → is_empty key ≡ false
    → Begins ls x
    → Begins (map (under key) ls ++ rest) (item_object empty_object)
unfolding create_item
Begins-under key [] rest x full h = absurd h
Begins-under [] (leaf ∷ ls) rest x full h = absurd (ground (arith, full))
Begins-under (c ∷ key) (([], value) ∷ ls) rest x full h = refl
Begins-under (c ∷ key) ((next ∷ path, value) ∷ ls) rest x full h = refl

mutual
  unfolding leaves_of IsStorable join parse create_item

  leaves_of-Builds :
      (x : Item)
      → IsStorable x
      → (start : Item) × Begins (leaves_of x) start × Builds (leaves_of x) start x
  leaves_of-Builds (item_string text) h = (item_string [], refl, (item_string text, refl, refl))
  leaves_of-Builds (item_array items) h = absurd h
  leaves_of-Builds (item_object entries) h = (
    item_object empty_object,
    leaves_in-Begins entries h.0 h.1,
    Grows-Builds (leaves_in entries) empty_object entries
        (leaves_in-Grows entries h.1 empty_object (Apart-empty entries)),
  )
  leaves_of-Builds (item_querystring spliter entries) h = absurd h

  leaves_in-Begins :
      (es : Entries)
      → is_empty_object es ≡ false
      → AreStorable es
      → Begins (leaves_in es) (item_object empty_object)
  leaves_in-Begins empty_object full h = absurd (ground (arith, full))
  leaves_in-Begins (entry key x rest) full h =
      let built = leaves_of-Builds x h.2 in
      Begins-under key (leaves_of x) (leaves_in rest) built.0 h.0.0 built.1

  leaves_in-Grows :
      (es : Entries)
      → AreStorable es
      → (fs : Entries) → Apart fs es
      → Grows (leaves_in es) fs (join fs es)
  leaves_in-Grows empty_object h fs apart = sym (join-empty fs)
  leaves_in-Grows (entry key x rest) h fs apart =
      let built = leaves_of-Builds x h.2 in
      Grows-append (map (under key) (leaves_of x)) (leaves_in rest) fs (store_key key x fs)
        (join fs (entry key x rest))
        (Grows-new key (leaves_of x) built.0 x fs apart.0 built.1 built.2)
        (subst (Grows (leaves_in rest) (store_key key x fs)) (store_new key x fs rest apart.0) (
          leaves_in-Grows rest h.3 (store_key key x fs)
            (Apart-store_key key x fs rest h.1 apart.1)))

-- The leaves of the entries, parsed in turn, build them from nothing.
pub AreStorable-Grows : (es : Entries) → AreStorable es → Grows (leaves_in es) empty_object es
unfolding join
AreStorable-Grows es h = leaves_in-Grows es h empty_object (Apart-empty es)
