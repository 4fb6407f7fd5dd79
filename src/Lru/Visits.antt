-- ===== src/Lru/Visits.antt =====
-- What `find` of lru_map gives.
use atframe_utils.Base.{
  ℕ, ◌≡◌, ◌⊎◌, refl, sym, ap, subst, ◌∙◌, Bool, true, false, Option, none, some, inl, inr,
}
use atframe_utils.Lru.{Node, LruMap, node_key, kv_find, pairs, node_at, find_visit}
use atframe_utils.Lru.Keyed.{find_by, IsEquality}
use atframe_utils.Lru.Linked.{IsLru, linked-cases}
use atframe_utils.Lru.Recency.{pair_key}
use atframe_utils.Lru.Refines.{
  pair_of, pairs-find_by, gone, find_visit-miss, find_visit-hit, moved-node_at,
}

module _ {K V : Type 0} (key_eq : K → K → Bool) where
  -- An iterator is `end()` where the key has no pair, and else leads to a node with its pair.
  abbrev pub IsVisit : K → LruMap K V → Option ℕ × LruMap K V → Type 0
  IsVisit k s r =
      ((r.0 ≡ none) × (find_by key_eq pair_key k (pairs s.visit_history) ≡ none))
      ⊎ ((i : ℕ) × (n : Node K V) × (r.0 ≡ some i)
          × (node_at i r.1.visit_history ≡ some n)
          × (find_by key_eq pair_key k (pairs s.visit_history) ≡ some (n.key, n.value)))

module _ {K V : Type 0} (key_eq : K → K → Bool) (eq : IsEquality key_eq) where
  -- For keys compared by an equality and a map whose list and index agree: `find`, whether it
  -- changes the order or not, gives `end()` exactly where no pair has the key, and else the
  -- iterator of a node of the map it leaves that has the key and the value of the pair.
  pub find_visit_lem :
      (k : K) (update_visit : Bool) (s : LruMap K V)
      → IsLru key_eq s
      → IsVisit key_eq k s (find_visit key_eq k update_visit s)
  unfolding find_visit
  find_visit_lem k update_visit s h =
      elim (linked-cases key_eq eq s.visit_history s.kv_data s.next_node h k) [
        | inl (a, b) ↦
            let spec = pairs-find_by key_eq k s.visit_history ∙ ap pair_of b in
            subst (IsVisit key_eq k s) (sym (find_visit-miss key_eq eq k update_visit s a))
              (inl (refl, spec))
        | inr (e, n, a, b, same) ↦
            let spec = pairs-find_by key_eq k s.visit_history ∙ ap pair_of b in
            found update_visit e n a b same spec
      ]
    where
      found :
          (u : Bool) (e : K × ℕ) (n : Node K V)
          → kv_find key_eq k s.kv_data ≡ some e
          → find_by key_eq node_key k s.visit_history ≡ some n
          → e.1 ≡ n.at
          → find_by key_eq pair_key k (pairs s.visit_history) ≡ some (n.key, n.value)
          → IsVisit key_eq k s (find_visit key_eq k u s)
      found true e n a b same spec =
          subst (IsVisit key_eq k s) (sym (find_visit-hit key_eq eq k s e n h a b same)) (
            inr (
              s.next_node,
              record { at = s.next_node; key = n.key; value = n.value },
              refl,
              moved-node_at key_eq eq k n s h,
              spec,
            ))
      found false e n a b same spec =
          rw (a, find_visit) (inr (e.1, n, refl, (gone key_eq eq s k e n h b same).1, spec))
