-- ===== src/Querystring/Entries.antt =====
-- The map of an item_object as a list of entries: what a store and a search have in common.
use atframe_utils.Base.{
  eq_codes, eq_codes_self, eq_codes-eq, Bool-cases, ℕ, ◌≡◌, refl, sym, ap, subst, ◌∙◌, arith, List,
  false, none, some, if◌then◌else◌, inl, inr,
}
use atframe_utils.Querystring.Items.{Item, Entries, empty_object, entry, find_key, store_key}

-- An entry is skipped or hit.
pub find_hit : (k : List ℕ) (x : Item) (es : Entries) → find_key k (entry k x es) ≡ some x
unfolding find_key
find_hit k x es = ap (λ b. if b then some x else find_key k es) (eq_codes_self k)

pub find_skip :
    (k k' : List ℕ) (x : Item) (es : Entries)
    → eq_codes k' k ≡ false
    → find_key k (entry k' x es) ≡ find_key k es
unfolding find_key
find_skip k k' x es h = ap (λ b. if b then some x else find_key k es) h

store_hit : (k : List ℕ) (x y : Item) (es : Entries) → store_key k x (entry k y es) ≡ entry k x es
unfolding store_key
store_hit k x y es =
    ap (λ b. if b then entry k x es else entry k y (store_key k x es)) (eq_codes_self k)

store_skip :
    (k k' : List ℕ) (x y : Item) (es : Entries)
    → eq_codes k' k ≡ false
    → store_key k x (entry k' y es) ≡ entry k' y (store_key k x es)
unfolding store_key
store_skip k k' x y es h = ap (λ b. if b then entry k' x es else entry k' y (store_key k x es)) h

-- A property of the entries of a key and of the others.
pub entry-split :
    (k k' : List ℕ) (P : List ℕ → Type 0) → P k → (eq_codes k' k ≡ false → P k') → P k'
entry-split k k' P same other = elim (Bool-cases (eq_codes k' k)) [
  | inl h ↦ subst P (sym (eq_codes-eq k' k h)) same
  | inr h ↦ other h
]

pub find_key-store_key :
    (k : List ℕ) (x : Item) (es : Entries) → find_key k (store_key k x es) ≡ some x
unfolding store_key
find_key-store_key k x empty_object = find_hit k x empty_object
find_key-store_key k x (entry k' y es) =
    entry-split k k' (λ j. find_key k (store_key k x (entry j y es)) ≡ some x)
      (ap (find_key k) (store_hit k x y es) ∙ find_hit k x es)
      (λ h.
        ap (find_key k) (store_skip k k' x y es h)
        ∙ find_skip k k' y (store_key k x es) h
        ∙ find_key-store_key k x es)

pub find_key-store_other :
    (k j : List ℕ) (x : Item) (es : Entries)
    → eq_codes k j ≡ false
    → find_key j (store_key k x es) ≡ find_key j es
unfolding store_key
find_key-store_other k j x empty_object h = find_skip j k x empty_object h
find_key-store_other k j x (entry k' y es) h =
    entry-split k k' (λ i. find_key j (store_key k x (entry i y es)) ≡ find_key j (entry i y es))
      (ap (find_key j) (store_hit k x y es) ∙ find_skip j k x es h ∙ sym (find_skip j k y es h))
      (λ apart.
        ap (find_key j) (store_skip k k' x y es apart)
        ∙ entry-split j k'
            (λ i. find_key j (entry i y (store_key k x es)) ≡ find_key j (entry i y es))
            (find_hit j y (store_key k x es) ∙ sym (find_hit j y es))
            (λ skip.
              find_skip j k' y (store_key k x es) skip
              ∙ find_key-store_other k j x es h
              ∙ sym (find_skip j k' y es skip)))

pub store_key-store_key :
    (k : List ℕ) (x y : Item) (es : Entries) → store_key k y (store_key k x es) ≡ store_key k y es
unfolding store_key
store_key-store_key k x y empty_object = store_hit k y x empty_object
store_key-store_key k x y (entry k' z es) =
    entry-split k k'
      (λ j. store_key k y (store_key k x (entry j z es)) ≡ store_key k y (entry j z es))
      (ap (store_key k y) (store_hit k x z es) ∙ store_hit k y x es ∙ sym (store_hit k y z es))
      (λ h.
        ap (store_key k y) (store_skip k k' x z es h)
        ∙ store_skip k k' y z (store_key k x es) h
        ∙ ap (entry k' z) (store_key-store_key k x y es)
        ∙ sym (store_skip k k' y z es h))

-- The entries of two objects one after the other.
unfoldable pub join : Entries → Entries → Entries
join empty_object fs = fs
join (entry k x es) fs = entry k x (join es fs)

pub join-empty : (es : Entries) → join es empty_object ≡ es
unfolding join
join-empty empty_object = refl
join-empty (entry k x es) = ap (entry k x) (join-empty es)

-- A key that is not there is stored behind all entries.
pub store_new :
    (k : List ℕ) (x : Item) (es fs : Entries)
    → find_key k es ≡ none
    → join (store_key k x es) fs ≡ join es (entry k x fs)
unfolding join store_key find_key
store_new k x empty_object fs h = refl
store_new k x (entry k' y es) fs h = elim (Bool-cases (eq_codes k' k)) [
  | inl same ↦
      let there : find_key k (entry k' y es) ≡ some y =
        ap (λ b. if b then some y else find_key k es) same in
      let wrong : none ≡ some y = sym h ∙ there in absurd (ground (arith, wrong))
  | inr other ↦
      ap (λ t. join t fs) (store_skip k k' x y es other)
      ∙ ap (entry k' y) (store_new k x es fs (sym (find_skip k k' y es other) ∙ h))
]
