-- ===== src/Lru/Runs.antt =====
-- Every call of lru_map, and sequences of calls.
use atframe_utils.Base.{
  length, ℕ, suc, ◌≡◌, refl, sym, ap, subst, ◌∙◌, List, [], ◌∷◌, ◌++◌, Bool, true, Option, none,
  some, inl, inr,
}
use atframe_utils.Lru.{
  Node, LruMap, node_key, kv_find, pairs, new_map, insert_key_value, access, map_clear, map_size,
  swap, move_map,
}
use atframe_utils.Lru.Keyed.{find_by, IsEquality}
use atframe_utils.Lru.Linked.{IsLru, linked-cases}
use atframe_utils.Lru.Positions.{erase_at-Holds, erase_range-Holds}
use atframe_utils.Lru.Ranges.{
  clear-IsLru, new-IsLru, insert_range-Holds, copy_map-Holds, assign_map-Holds,
}
use atframe_utils.Lru.Recency.{
  PairCall, first_call, swap_call, assign_call, move_call, copy_call, call_both, recency_of_both,
  erase_at_call, erase_range_call, insert_range_call, MapCall, insert_call, erase_call, find_call,
  access_call, pop_front_call, pop_back_call, clear_call, pair_key, visit, recency, recencies,
  call_map, call_maps,
}
use atframe_utils.Lru.Refines.{
  Holds, pair_of, pairs-find_by, insert-Holds, erase_key-Holds, find_visit-miss, find_visit-hit,
  moved, moved-Holds, find_visit-Holds,
}
use atframe_utils.Lru.Ends.{pop_front-Holds, pop_back-Holds}

module _ {K V : Type 0} (key_eq : K → K → Bool) (eq : IsEquality key_eq) where
  -- A key that is new is inserted by `operator[]`.
  access-insert_key_value :
      (k : K) (fresh : V) (s : LruMap K V)
      → kv_find key_eq k s.kv_data ≡ none
      → access key_eq k fresh s
        ≡ (let inserted = insert_key_value key_eq k fresh s in (inserted.0.0, inserted.1))
  unfolding access
  access-insert_key_value k fresh s a =
      ap
        (λ r. elim r.0 as (λ _. Option ℕ × LruMap K V) [
          | some i ↦ r
          | none ↦ let inserted = insert_key_value key_eq k fresh r.1 in (inserted.0.0, inserted.1)
        ])
        (find_visit-miss key_eq eq k true s a)

  -- A key that is there is visited by it.
  access-moved :
      (k : K) (fresh : V) (s : LruMap K V) (e : K × ℕ) (n : Node K V)
      → IsLru key_eq s
      → kv_find key_eq k s.kv_data ≡ some e
      → find_by key_eq node_key k s.visit_history ≡ some n
      → e.1 ≡ n.at
      → access key_eq k fresh s ≡ (some s.next_node, moved key_eq eq k n s)
  unfolding access
  access-moved k fresh s e n h a b same =
      ap
        (λ r. elim r.0 as (λ _. Option ℕ × LruMap K V) [
          | some i ↦ r
          | none ↦ let inserted = insert_key_value key_eq k fresh r.1 in (inserted.0.0, inserted.1)
        ])
        (find_visit-hit key_eq eq k s e n h a b same)

  recency-absent :
      (k : K) (v : V) (l : List (K × V))
      → find_by key_eq pair_key k l ≡ none
      → recency key_eq (access_call k v) l ≡ recency key_eq (insert_call k v) l
  unfolding recency visit
  recency-absent k v l h = rw (h, recency, visit) refl

  access-Holds :
      (k : K) (fresh : V) (s : LruMap K V)
      → IsLru key_eq s
      → Holds key_eq
          (access key_eq k fresh s).1
          (recency key_eq (access_call k fresh) (pairs s.visit_history))
  unfolding access recency visit
  access-Holds k fresh s h =
      elim (linked-cases key_eq eq s.visit_history s.kv_data s.next_node h k) [
        | inl (a, b) ↦
            let spec = pairs-find_by key_eq k s.visit_history ∙ ap pair_of b in
            subst
              (λ r. Holds key_eq r.1 (recency key_eq (access_call k fresh) (pairs s.visit_history)))
              (sym (access-insert_key_value k fresh s a))
              (subst (Holds key_eq (insert_key_value key_eq k fresh s).1)
                (sym (recency-absent k fresh (pairs s.visit_history) spec))
                (insert-Holds key_eq eq k fresh s h))
        | inr (e, n, a, b, same) ↦
            let spec = pairs-find_by key_eq k s.visit_history ∙ ap pair_of b in
            subst
              (λ r.
                Holds key_eq r.1 (
                  visit key_eq k (pairs s.visit_history ++ (k, fresh) ∷ [])
                    (pairs s.visit_history)))
              (sym (access-moved k fresh s e n h a b same))
              (rw (visit, spec) (moved-Holds key_eq eq k s e n h a b))
      ]

  call_map-Holds :
      (call : MapCall K V) (s : LruMap K V)
      → IsLru key_eq s
      → Holds key_eq (call_map key_eq call s) (recency key_eq call (pairs s.visit_history))
  unfolding call_map map_clear pairs recency
  call_map-Holds (insert_call k v) s h = insert-Holds key_eq eq k v s h
  call_map-Holds (erase_call k) s h = erase_key-Holds key_eq eq k s h
  call_map-Holds (find_call k update_visit) s h = find_visit-Holds key_eq eq k update_visit s h
  call_map-Holds (access_call k fresh) s h = access-Holds k fresh s h
  call_map-Holds (erase_at_call i) s h = erase_at-Holds key_eq eq i s h
  call_map-Holds (erase_range_call i n) s h = erase_range-Holds key_eq eq i n s h
  call_map-Holds (insert_range_call range) s h = insert_range-Holds key_eq eq range s h
  call_map-Holds pop_front_call s h = pop_front-Holds key_eq eq s h
  call_map-Holds pop_back_call s h = pop_back-Holds key_eq eq s h
  call_map-Holds clear_call s h = (clear-IsLru key_eq eq s, refl)

  -- Both maps hold their lists.
  abbrev BothHold : LruMap K V × LruMap K V → List (K × V) × List (K × V) → Type 0
  BothHold s l = Holds key_eq s.0 l.0 × Holds key_eq s.1 l.1

  call_both-Holds :
      (call : PairCall K V) (s : LruMap K V × LruMap K V) (l : List (K × V) × List (K × V))
      → BothHold s l
      → BothHold (call_both key_eq call s) (recency_of_both key_eq call l)
  unfolding call_both recency_of_both swap move_map map_clear pairs
  call_both-Holds (first_call call) (s, t) (l, m) h =
      let r = call_map-Holds call s h.0.0 in ((r.0, r.1 ∙ ap (recency key_eq call) h.0.1), h.1)
  call_both-Holds swap_call (s, t) (l, m) h = (h.1, h.0)
  call_both-Holds assign_call (s, t) (l, m) h =
      let r = assign_map-Holds key_eq eq t s h.1.0 in ((r.0, r.1 ∙ h.1.1), h.1)
  call_both-Holds move_call (s, t) (l, m) h = (h.1, (clear-IsLru key_eq eq s, refl))
  call_both-Holds copy_call (s, t) (l, m) h =
      let r = copy_map-Holds key_eq eq s h.0.0 in (h.0, (r.0, r.1 ∙ h.0.1))

  call_maps-Holds :
      (calls : List (PairCall K V)) (s : LruMap K V × LruMap K V) (l : List (K × V) × List (K × V))
      → BothHold s l
      → BothHold (call_maps key_eq calls s) (recencies key_eq calls l)
  unfolding call_maps recencies
  call_maps-Holds [] s l h = h
  call_maps-Holds (call ∷ calls) s l h =
      call_maps-Holds calls (call_both key_eq call s) (recency_of_both key_eq call l)
        (call_both-Holds call s l h)

  length-pairs : (h : List (Node K V)) → length (pairs h) ≡ length h
  unfolding pairs
  length-pairs [] = refl
  length-pairs (n ∷ h) = ap suc (length-pairs h)

  -- The nodes and the index of a map agree, its visits are a list of pairs, and size is its
  -- length.
  abbrev pub Refines : LruMap K V → List (K × V) → Type 0
  Refines s l = IsLru key_eq s × (pairs s.visit_history ≡ l) × (map_size s ≡ length l)

  Holds-Refines : (s : LruMap K V) (l : List (K × V)) → Holds key_eq s l → Refines s l
  unfolding map_size
  Holds-Refines s l h = (h.0, h.1, h.0.sized ∙ sym (length-pairs s.visit_history) ∙ ap length h.1)

  -- For keys compared by an equality, and any sequence of calls on two new maps, where a call is
  -- an insert of a pair or of a range, an erase of a key, at a position, or from a position over a
  -- number of nodes, a find, an access, a pop at either end or a clear of the first map, or a
  -- swap, a copy, or a copying or moving assignment between the two: in both maps the nodes and
  -- the index agree, the visits are the pairs that the calls leave in a plain list in the order
  -- of their last visit, and size is their number.
  pub call_maps-recencies :
      (calls : List (PairCall K V))
      → (let s = call_maps key_eq calls (new_map, new_map) in
          let l = recencies key_eq calls ([], []) in Refines s.0 l.0 × Refines s.1 l.1)
  unfolding pairs
  call_maps-recencies calls =
      let new = new-IsLru key_eq eq in
      let r = call_maps-Holds calls (new_map, new_map) ([], []) ((new, refl), (new, refl)) in
      let s = call_maps key_eq calls (new_map, new_map) in
      let l = recencies key_eq calls ([], []) in
      (Holds-Refines s.0 l.0 r.0, Holds-Refines s.1 l.1 r.1)
