-- ===== src/Lru/Tests.antt =====
-- Runs of lru_map with numbers as keys and values, and its theorems at them.
use atframe_utils.Base.{ℕ, ◌==◌, ==_iff, ◌≡◌, refl, List, [], ◌∷◌, true, false, none}
use atframe_utils.Lru.{
  LruMap, kv_assign, kv_set, pairs, new_map, insert_key_value, insert_range, erase_at, erase_key,
  find_visit, access, map_begin, next_of, map_pop_front, map_pop_back, map_clear, copy_map,
  assign_map, erase_range, swap, iterator_at,
}
use atframe_utils.Lru.Keyed.{find_by, erase_by, IsEquality}
use atframe_utils.Lru.Recency.{
  PairCall, first_call, copy_call, swap_call, insert_range_call, erase_range_call, erase_at_call,
  call_both, insert_call, erase_call, find_call, access_call, pop_front_call, recencies, call_map,
  call_maps,
}
use atframe_utils.Lru.Runs.{Refines, call_maps-recencies}
use atframe_utils.Lru.Visits.{IsVisit, find_visit_lem}

numbers-IsEquality : IsEquality ◌==◌
numbers-IsEquality a b = ==_iff a b

program : Unit {0}
unfolding call_maps call_map call_both insert_key_value insert_range erase_at erase_range erase_key
    find_visit access map_begin iterator_at next_of map_pop_front map_pop_back map_clear swap
    copy_map assign_map pairs kv_assign kv_set find_by erase_by
program = tt

abbrev calls : List (PairCall ℕ ℕ)
calls =
    first_call (insert_call 1 10)
    ∷ first_call (insert_call 2 20)
    ∷ first_call (insert_range_call ((3, 30) ∷ (2, 99) ∷ (5, 50) ∷ (6, 60) ∷ []))
    ∷ first_call (find_call 1 true)
    ∷ first_call (erase_range_call 2 2)
    ∷ copy_call
    ∷ first_call (access_call 4 40)
    ∷ first_call (find_call 2 false)
    ∷ first_call pop_front_call
    ∷ first_call (erase_at_call 0)
    ∷ swap_call
    ∷ first_call (erase_call 3)
    ∷ []

abbrev both : LruMap ℕ ℕ × LruMap ℕ ℕ
both = call_maps ◌==◌ calls (new_map, new_map)

abbrev used : LruMap ℕ ℕ
used = both.1

used_pairs : pairs used.visit_history ≡ (1, 10) ∷ (4, 40) ∷ []
unfolding program
used_pairs = refl

copied_pairs : pairs (copy_map ◌==◌ used).visit_history ≡ (1, 10) ∷ (4, 40) ∷ []
unfolding program
copied_pairs = refl

assigned_pairs : pairs (assign_map ◌==◌ used used).visit_history ≡ (1, 10) ∷ (4, 40) ∷ []
unfolding program
assigned_pairs = refl

-- The range from the first node to the end.
erased_pairs :
    pairs (erase_range ◌==◌ 4 (map_begin used.visit_history) none none used).1.visit_history ≡ []
unfolding program
erased_pairs = refl

swapped : swap (used, new_map) ≡ (new_map, used)
unfolding swap
swapped = refl

call_maps-recencies_example :
    (let l = recencies ◌==◌ calls ([], []) in
      Refines ◌==◌ numbers-IsEquality both.0 l.0 × Refines ◌==◌ numbers-IsEquality both.1 l.1)
call_maps-recencies_example = call_maps-recencies ◌==◌ numbers-IsEquality calls

find_visit_lem_example : IsVisit ◌==◌ 1 used (find_visit ◌==◌ 1 true used)
find_visit_lem_example =
    find_visit_lem ◌==◌ numbers-IsEquality 1 true used
      (call_maps-recencies ◌==◌ numbers-IsEquality calls).1.0
