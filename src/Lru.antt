-- ===== src/Lru.antt =====
-- memory/lru_map.h: `lru_map`, the list of the visits and the index of its nodes.
mod Keyed
mod Linked
mod Steps
mod Recency
mod Refines
mod Ends
mod Positions
mod Ranges
mod Runs
mod Visits
mod Tests
use atframe_utils.Base.{
  last?, length, tail, ℕ, zero, suc, ◌+◌, List, [], ◌∷◌, ◌++◌, map, Bool, true, false, Option, none,
  some, if◌then◌else◌, ◌==◌,
}
use atframe_utils.Lru.Keyed.{find_by, erase_by}

-- A node of `visit_history_`: the number of its address, which stands for its iterator, the key
-- and the pointer to the value.
pub record Node (K V : Type 0) : Type 0 where
  pub at : ℕ
  pub key : K
  pub value : V

-- `visit_history_` and `kv_data_`, and the number of the next node that is made
pub record LruMap (K V : Type 0) : Type 0 where
  pub visit_history : List (Node K V)
  pub kv_data : List (K × ℕ)
  pub next_node : ℕ

-- `first == last`
abbrev pub same_iterator : Option ℕ → Option ℕ → Bool
same_iterator none none = true
same_iterator none (some j) = false
same_iterator (some i) none = false
same_iterator (some i) (some j) = i == j

module _ {K V : Type 0} where
  abbrev pub node_key : Node K V → K
  node_key n = n.key

  abbrev pub at_of : Node K V → ℕ
  at_of n = n.at

  abbrev pub new_map : LruMap K V
  new_map = record { visit_history = []; kv_data = []; next_node = 0 }

  -- `*pos`
  abbrev pub node_at : ℕ → List (Node K V) → Option (Node K V)
  node_at = find_by ◌==◌ at_of

  -- `visit_history_.erase(pos)`
  abbrev pub erase_visit : ℕ → List (Node K V) → List (Node K V)
  erase_visit = erase_by ◌==◌ at_of

  -- The iterator of the first node.
  unfoldable pub map_begin : List (Node K V) → Option ℕ
  map_begin [] = none
  map_begin (n ∷ h) = some n.at

  -- `begin()` after some steps of `++`, which leaves the end where it is.
  unfoldable pub iterator_at : ℕ → List (Node K V) → Option ℕ
  iterator_at i [] = none
  iterator_at zero (n ∷ h) = some n.at
  iterator_at (suc i) (n ∷ h) = iterator_at i h

  -- The iterator behind a node.
  unfoldable pub next_of : ℕ → List (Node K V) → Option ℕ
  next_of i [] = none
  next_of i (n ∷ h) = if n.at == i then map_begin h else next_of i h

  -- What a range of iterators gives.
  unfoldable pub pairs : List (Node K V) → List (K × V)
  pairs [] = []
  pairs (n ∷ h) = (n.key, n.value) ∷ pairs h

  -- `swap`
  unfoldable pub swap : LruMap K V × LruMap K V → LruMap K V × LruMap K V
  swap (s, other) = (other, s)

  -- `clear`
  unfoldable pub map_clear : LruMap K V → LruMap K V
  map_clear s = record s { visit_history = []; kv_data = [] }

  -- `operator=(lru_map &&)`: the map that is assigned, and the other one
  unfoldable pub move_map : LruMap K V × LruMap K V → LruMap K V × LruMap K V
  move_map both = let r = swap both in (r.0, map_clear r.1)

  -- `size`
  unfoldable pub map_size : LruMap K V → ℕ
  map_size s = length s.kv_data

abbrev pub kv_key : {K : Type 0} → K × ℕ → K
kv_key e = e.0

module _ {K : Type 0} (key_eq : K → K → Bool) where
  -- `kv_data_.find(key)`
  abbrev pub kv_find : K → List (K × ℕ) → Option (K × ℕ)
  kv_find = find_by key_eq kv_key

  -- `it->second = pos` for the entry of a key
  unfoldable pub kv_set : K → ℕ → List (K × ℕ) → List (K × ℕ)
  kv_set k i [] = []
  kv_set k i (e ∷ m) = if key_eq e.0 k then (e.0, i) ∷ m else e ∷ kv_set k i m

  -- `kv_data_[key] = pos`
  unfoldable pub kv_assign : K → ℕ → List (K × ℕ) → List (K × ℕ)
  kv_assign k i m = elim (kv_find k m) [ none ↦ m ++ (k, i) ∷ [] | some e ↦ kv_set k i m ]

module _ {K V : Type 0} (key_eq : K → K → Bool) where
  -- `insert_key_value` and `insert`: the iterator, whether it was inserted, and the map
  unfoldable pub insert_key_value : K → V → LruMap K V → (Option ℕ × Bool) × LruMap K V
  insert_key_value k v s = elim (kv_find key_eq k s.kv_data) [
    | some e ↦ ((none, false), s)
    | none ↦ (
      (some s.next_node, true),
      record s {
        visit_history = s.visit_history ++ record { at = s.next_node; key = k; value = v } ∷ [];
        kv_data = kv_assign key_eq k s.next_node s.kv_data;
        next_node = suc s.next_node;
      },
    )
  ]

  -- `insert(first, last)`, over the pairs of the range
  unfoldable pub insert_range : List (K × V) → LruMap K V → LruMap K V
  insert_range [] s = s
  insert_range ((k, v) ∷ range) s = insert_range range (insert_key_value k v s).1

  -- `erase(pos)`: the iterator behind the node, or `end()`, and the map
  unfoldable pub erase_at : Option ℕ → LruMap K V → Option ℕ × LruMap K V
  erase_at none s = (none, s)
  erase_at (some i) s = elim (node_at i s.visit_history) [
    | none ↦ (none, s)
    | some n ↦ elim (kv_find key_eq n.key s.kv_data) [
      | none ↦ (none, s)
      | some e ↦
          if e.1 == i
          then (
            next_of i s.visit_history,
            record s {
              kv_data = erase_by key_eq kv_key n.key s.kv_data;
              visit_history = erase_visit i s.visit_history;
            },
          )
          else (none, s)
    ]
  ]

  -- `erase(first, last)`, with fuel for the nodes of the range; a range that does not lead to
  -- `last` ends at the end of the list.
  unfoldable pub erase_range :
      ℕ → Option ℕ → Option ℕ → Option ℕ → LruMap K V → Option ℕ × LruMap K V
  erase_range zero first last ret s = (ret, s)
  erase_range (suc fuel) first last ret s = elim first [
    | none ↦ (ret, s)
    | some i ↦
        let r = erase_at (some i) s in
        let rest = erase_range fuel (next_of i s.visit_history) last r.0 r.1 in
        if same_iterator (some i) last then (ret, s) else rest
  ]

  -- `erase(key)`: the number of erased entries, and the map
  unfoldable pub erase_key : K → LruMap K V → ℕ × LruMap K V
  erase_key k s = elim (kv_find key_eq k s.kv_data) [
    | none ↦ (0, s)
    | some e ↦ (
      1,
      record s {
        visit_history = erase_visit e.1 s.visit_history;
        kv_data = erase_by key_eq kv_key k s.kv_data;
      },
    )
  ]

  -- `find(key, update_visit)`: the iterator, and the map
  unfoldable pub find_visit : K → Bool → LruMap K V → Option ℕ × LruMap K V
  find_visit k update_visit s = elim (kv_find key_eq k s.kv_data) [
    | none ↦ (none, s)
    | some e ↦
        if update_visit
        then elim (node_at e.1 s.visit_history) [
          | none ↦ (none, s)
          | some n ↦ (
            some s.next_node,
            record s {
              visit_history =
                  erase_visit e.1 s.visit_history
                  ++ record { at = s.next_node; key = n.key; value = n.value } ∷ [];
              kv_data = kv_set key_eq k s.next_node s.kv_data;
              next_node = suc s.next_node;
            },
          )
        ]
        else (some e.1, s)
  ]

  -- `operator[]`, with the value that is made where the key is new
  unfoldable pub access : K → V → LruMap K V → Option ℕ × LruMap K V
  access k fresh s =
      let r = find_visit k true s in
      elim r.0 [
        | some i ↦ r
        | none ↦ let inserted = insert_key_value k fresh r.1 in (inserted.0.0, inserted.1)
      ]

  -- `pop_front`
  unfoldable pub map_pop_front : LruMap K V → LruMap K V
  map_pop_front s = (erase_at (map_begin s.visit_history) s).1

  -- `pop_back`
  unfoldable pub map_pop_back : LruMap K V → LruMap K V
  map_pop_back s = elim (last? s.visit_history) [ none ↦ s | some n ↦ (erase_key n.key s).1 ]

  -- `lru_map(const lru_map &)`: the pairs of the other map inserted into a new one
  unfoldable pub copy_map : LruMap K V → LruMap K V
  copy_map other = insert_range (pairs other.visit_history) new_map

  -- `operator=(const lru_map &)`, from another map
  unfoldable pub assign_map : LruMap K V → LruMap K V → LruMap K V
  assign_map other s = insert_range (pairs other.visit_history) (map_clear s)
