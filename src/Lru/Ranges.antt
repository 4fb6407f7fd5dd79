-- ===== src/Lru/Ranges.antt =====
-- `insert` of a range, and the copies of a map.
use atframe_utils.Base.{
  All, append-nil, append_assoc, ◌≡◌, refl, sym, ap, subst, ◌∙◌, List, [], ◌∷◌, ◌++◌, Bool,
  if◌then◌else◌, none, some, false,
}
use atframe_utils.Lru.{
  Node, LruMap, node_key, pairs, insert_key_value, insert_range, new_map, map_clear, copy_map,
  assign_map,
}
use atframe_utils.Lru.Keyed.{find_by, IsEquality, AreDistinct, find_by-lacks, apart_comm}
use atframe_utils.Lru.Linked.{IsLru}
use atframe_utils.Lru.Recency.{pair_key, add_pairs, insert_range_call, recency}
use atframe_utils.Lru.Refines.{Holds, pair_of, pairs-find_by, insert-Holds}

All-middle :
    {A : Type 0} (P : A → Type 0) (l : List A) (e : A) (range : List A)
    → All P (l ++ e ∷ range)
    → P e
All-middle P [] e range h = h.0
All-middle P (x ∷ l) e range h = All-middle P l e range h.1

module _ {K V : Type 0} (key_eq : K → K → Bool) (eq : IsEquality key_eq) where
  pub clear-IsLru : (s : LruMap K V) → IsLru key_eq (map_clear s)
  unfolding map_clear AreDistinct find_by
  clear-IsLru s = record {
    distinct = tt;
    apart = tt;
    older = tt;
    kv_distinct = tt;
    linked = λ k. refl;
    sized = refl;
  }

  pub new-IsLru : IsLru key_eq (new_map {K = K} {V = V})
  unfolding AreDistinct find_by
  new-IsLru = record {
    distinct = tt;
    apart = tt;
    older = tt;
    kv_distinct = tt;
    linked = λ k. refl;
    sized = refl;
  }

  insert_range-add_pairs :
      (range : List (K × V)) (s : LruMap K V)
      → IsLru key_eq s
      → Holds key_eq (insert_range key_eq range s) (add_pairs key_eq range (pairs s.visit_history))
  unfolding insert_range add_pairs recency
  insert_range-add_pairs [] s h = (h, refl)
  insert_range-add_pairs ((k, v) ∷ range) s h =
      let one = insert-Holds key_eq eq k v s h in
      let rest = insert_range-add_pairs range (insert_key_value key_eq k v s).1 one.0 in
      (rest.0, rest.1 ∙ ap (add_pairs key_eq range) one.1)

  pub insert_range-Holds :
      (range : List (K × V)) (s : LruMap K V)
      → IsLru key_eq s
      → Holds key_eq
          (insert_range key_eq range s)
          (recency key_eq (insert_range_call range) (pairs s.visit_history))
  unfolding recency
  insert_range-Holds range s h = insert_range-add_pairs range s h

  -- The key of an item behind a list of different keys is not in the list.
  distinct-lacks :
      (l : List (K × V)) (e : K × V) (range : List (K × V))
      → AreDistinct key_eq pair_key (l ++ e ∷ range)
      → find_by key_eq pair_key e.0 l ≡ none
  unfolding AreDistinct find_by
  distinct-lacks [] e range d = refl
  distinct-lacks (x ∷ l) e range d =
      let behind =
        All-middle (λ y. key_eq y.0 x.0 ≡ false) l e range
          (find_by-lacks key_eq eq (pair_key {V = V}) x.0 (l ++ e ∷ range) d.0) in
      ap (λ b. if b then some x else find_by key_eq pair_key e.0 l)
        (apart_comm key_eq eq (pair_key {V = V}) e.0 x.0 behind)
      ∙ distinct-lacks l e range d.1

  -- Pairs of different keys are added as they are.
  add_pairs-append :
      (range l : List (K × V))
      → AreDistinct key_eq pair_key (l ++ range)
      → add_pairs key_eq range l ≡ l ++ range
  unfolding add_pairs
  add_pairs-append [] l d = sym (append-nil l)
  add_pairs-append (e ∷ range) l d =
      let new = distinct-lacks l e range d in
      ap
        (λ o.
          add_pairs key_eq range
            (elim o as (λ _. List (K × V)) [ none ↦ l ++ e ∷ [] | some x ↦ l ]))
        new
      ∙ add_pairs-append range (l ++ e ∷ [])
          (subst (AreDistinct key_eq pair_key) (sym (append_assoc l (e ∷ []) range)) d)
      ∙ append_assoc l (e ∷ []) range

  pairs-AreDistinct :
      (h : List (Node K V)) → AreDistinct key_eq node_key h → AreDistinct key_eq pair_key (pairs h)
  unfolding AreDistinct pairs
  pairs-AreDistinct [] d = tt
  pairs-AreDistinct (n ∷ h) d =
      (pairs-find_by key_eq n.key h ∙ ap pair_of d.0, pairs-AreDistinct h d.1)

  -- A copy of a map has the same pairs in the same order.
  pub copy_map-Holds :
      (s : LruMap K V) → IsLru key_eq s → Holds key_eq (copy_map key_eq s) (pairs s.visit_history)
  unfolding copy_map pairs
  copy_map-Holds s h =
      let r = insert_range-add_pairs (pairs s.visit_history) new_map new-IsLru in
      (
        r.0,
        r.1
            ∙ add_pairs-append (pairs s.visit_history) []
                (pairs-AreDistinct s.visit_history h.distinct),
      )

  pub assign_map-Holds :
      (other s : LruMap K V)
      → IsLru key_eq other
      → Holds key_eq (assign_map key_eq other s) (pairs other.visit_history)
  unfolding assign_map map_clear pairs
  assign_map-Holds other s h =
      let r = insert_range-add_pairs (pairs other.visit_history) (map_clear s) (clear-IsLru s) in
      (
        r.0,
        r.1
            ∙ add_pairs-append (pairs other.visit_history) []
                (pairs-AreDistinct other.visit_history h.distinct),
      )
