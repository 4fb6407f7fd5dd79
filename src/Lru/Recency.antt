-- ===== src/Lru/Recency.antt =====
-- The calls of lru_map, on two maps and on plain lists of pairs in the order of their last visit.
use atframe_utils.Base.{
  ℕ, zero, suc, ◌+◌, drop, List, [], ◌∷◌, ◌++◌, Bool, none, some, tail, if◌then◌else◌,
}
use atframe_utils.Lru.{
  iterator_at, erase_at, erase_range, insert_range, swap, move_map, copy_map, assign_map, LruMap,
  insert_key_value, erase_key, find_visit, access, map_pop_front, map_pop_back, map_clear,
}
use atframe_utils.Lru.Keyed.{find_by, erase_by}

-- A call of a map.
pub data MapCall (K V : Type 0) : Type 0 where
  insert_call : K → V → MapCall K V
  erase_call : K → MapCall K V
  find_call : K → Bool → MapCall K V
  access_call : K → V → MapCall K V
  erase_at_call : ℕ → MapCall K V
  erase_range_call : ℕ → ℕ → MapCall K V
  insert_range_call : List (K × V) → MapCall K V
  pop_front_call pop_back_call clear_call : MapCall K V

-- A call that a program with two maps makes: one of the first map alone, or one of both. The
-- first map is assigned the other, and the other is made as a copy of the first.
pub data PairCall (K V : Type 0) : Type 0 where
  first_call : MapCall K V → PairCall K V
  swap_call assign_call move_call copy_call : PairCall K V

-- The list without some items from a position on.
unfoldable pub without : {A : Type 0} → ℕ → ℕ → List A → List A
without zero n xs = drop n xs
without (suc i) n [] = []
without (suc i) n (x ∷ xs) = x ∷ without i n xs

-- All but the last pair.
unfoldable pub all_but_last : {A : Type 0} → List A → List A
all_but_last [] = []
all_but_last (x ∷ []) = []
all_but_last (x ∷ y ∷ xs) = x ∷ all_but_last (y ∷ xs)

abbrev pub pair_key : {K V : Type 0} → K × V → K
pair_key e = e.0

module _ {K V : Type 0} (key_eq : K → K → Bool) where
  -- The pair of a key at the end of the list, or what is given where there is none.
  unfoldable pub visit : K → List (K × V) → List (K × V) → List (K × V)
  visit k otherwise l = elim (find_by key_eq pair_key k l) [
    | none ↦ otherwise
    | some e ↦ erase_by key_eq pair_key k l ++ e ∷ []
  ]

  -- The list with pairs added at its end, each where its key is new.
  unfoldable pub add_pairs : List (K × V) → List (K × V) → List (K × V)
  add_pairs [] l = l
  add_pairs (e ∷ range) l =
      add_pairs range
        (elim (find_by key_eq pair_key e.0 l) [ none ↦ l ++ (e.0, e.1) ∷ [] | some x ↦ l ])

  -- The pairs after a call, the one that was visited last at the end.
  unfoldable pub recency : MapCall K V → List (K × V) → List (K × V)
  recency (insert_call k v) l = elim (find_by key_eq pair_key k l) [
    | none ↦ l ++ (k, v) ∷ []
    | some e ↦ l
  ]
  recency (erase_call k) l = erase_by key_eq pair_key k l
  recency (find_call k update_visit) l = if update_visit then visit k l l else l
  recency (access_call k fresh) l = visit k (l ++ (k, fresh) ∷ []) l
  recency (erase_at_call i) l = without i 1 l
  recency (erase_range_call i n) l = without i n l
  recency (insert_range_call range) l = add_pairs range l
  recency pop_front_call l = tail l
  recency pop_back_call l = all_but_last l
  recency clear_call l = []

  unfoldable pub recency_of_both :
      PairCall K V → List (K × V) × List (K × V) → List (K × V) × List (K × V)
  recency_of_both (first_call call) (l, other) = (recency call l, other)
  recency_of_both swap_call (l, other) = (other, l)
  recency_of_both assign_call (l, other) = (other, other)
  recency_of_both move_call (l, other) = (other, [])
  recency_of_both copy_call (l, other) = (l, l)

  unfoldable pub recencies :
      List (PairCall K V) → List (K × V) × List (K × V) → List (K × V) × List (K × V)
  recencies [] l = l
  recencies (call ∷ calls) l = recencies calls (recency_of_both call l)

  -- The map after a call.
  unfoldable pub call_map : MapCall K V → LruMap K V → LruMap K V
  call_map (insert_call k v) s = (insert_key_value key_eq k v s).1
  call_map (erase_call k) s = (erase_key key_eq k s).1
  call_map (find_call k update_visit) s = (find_visit key_eq k update_visit s).1
  call_map (access_call k fresh) s = (access key_eq k fresh s).1
  call_map (erase_at_call i) s = (erase_at key_eq (iterator_at i s.visit_history) s).1
  call_map (erase_range_call i n) s =
      let first = iterator_at i s.visit_history in
      let last = iterator_at (i + n) s.visit_history in
      (erase_range key_eq (suc n) first last none s).1
  call_map (insert_range_call range) s = insert_range key_eq range s
  call_map pop_front_call s = map_pop_front key_eq s
  call_map pop_back_call s = map_pop_back key_eq s
  call_map clear_call s = map_clear s

  unfoldable pub call_both : PairCall K V → LruMap K V × LruMap K V → LruMap K V × LruMap K V
  call_both (first_call call) (s, other) = (call_map call s, other)
  call_both swap_call both = swap both
  call_both assign_call (s, other) = (assign_map key_eq other s, other)
  call_both move_call both = move_map both
  call_both copy_call (s, other) = (s, copy_map key_eq s)

  unfoldable pub call_maps : List (PairCall K V) → LruMap K V × LruMap K V → LruMap K V × LruMap K V
  call_maps [] s = s
  call_maps (call ∷ calls) s = call_maps calls (call_both call s)
