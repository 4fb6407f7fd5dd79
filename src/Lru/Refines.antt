-- ===== src/Lru/Refines.antt =====
-- lru_map keeps the pairs of its visits as the plain list of pairs does.
use atframe_utils.Base.{
  Bool-cases, ℕ, suc, ◌==◌, ==_iff, ◌<◌, ◌≡◌, refl, sym, ap, subst, ◌∙◌, arith, List, [], ◌∷◌, ◌++◌,
  Bool, true, false, Option, none, some, inl, inr, if◌then◌else◌,
}
use atframe_utils.Lru.{
  Node, LruMap, node_key, at_of, kv_find, kv_assign, kv_set, pairs, node_at, erase_visit,
  insert_key_value, erase_key, find_visit,
}
use atframe_utils.Lru.Keyed.{
  find_by, erase_by, IsEquality, erase_by-miss, erase_by-All, find_by-append,
}
use atframe_utils.Lru.Linked.{
  IsLru, linked-cases, erase_visit-erase_by, find_by-older, ==-IsEquality,
}
use atframe_utils.Lru.Steps.{linked-append, linked-erase, linked-visit}
use atframe_utils.Lru.Recency.{insert_call, erase_call, find_call, pair_key, visit, recency}

pairs-append : {K V : Type 0} (h g : List (Node K V)) → pairs (h ++ g) ≡ pairs h ++ pairs g
unfolding pairs
pairs-append [] g = refl
pairs-append (n ∷ h) g = ap (λ t. (n.key, n.value) ∷ t) (pairs-append h g)

abbrev pub pair_of : {K V : Type 0} → Option (Node K V) → Option (K × V)
pair_of none = none
pair_of (some n) = some (n.key, n.value)

module _ {K V : Type 0} (key_eq : K → K → Bool) where
  pub pairs-erase_by :
      (k : K) (h : List (Node K V))
      → pairs (erase_by key_eq node_key k h) ≡ erase_by key_eq pair_key k (pairs h)
  unfolding pairs erase_by
  pairs-erase_by k [] = refl
  pairs-erase_by k (n ∷ h) = elim (Bool-cases (key_eq n.key k)) [
    | inl e ↦
        ap (λ b. pairs (if b then h else n ∷ erase_by key_eq node_key k h)) e
        ∙ sym (
            ap (λ b. if b then pairs h else (n.key, n.value) ∷ erase_by key_eq pair_key k (pairs h))
              e)
    | inr e ↦
        ap (λ b. pairs (if b then h else n ∷ erase_by key_eq node_key k h)) e
        ∙ ap (λ t. (n.key, n.value) ∷ t) (pairs-erase_by k h)
        ∙ sym (
            ap (λ b. if b then pairs h else (n.key, n.value) ∷ erase_by key_eq pair_key k (pairs h))
              e)
  ]

  pub pairs-find_by :
      (k : K) (h : List (Node K V))
      → find_by key_eq pair_key k (pairs h) ≡ pair_of (find_by key_eq node_key k h)
  unfolding pairs find_by
  pairs-find_by k [] = refl
  pairs-find_by k (n ∷ h) = elim (Bool-cases (key_eq n.key k)) [
    | inl e ↦
        ap (λ b. if b then some (n.key, n.value) else find_by key_eq pair_key k (pairs h)) e
        ∙ sym (ap (λ b. pair_of (if b then some n else find_by key_eq node_key k h)) e)
    | inr e ↦
        ap (λ b. if b then some (n.key, n.value) else find_by key_eq pair_key k (pairs h)) e
        ∙ pairs-find_by k h
        ∙ sym (ap (λ b. pair_of (if b then some n else find_by key_eq node_key k h)) e)
  ]

  -- A map that is well formed and has the given pairs, in the order of their visits.
  abbrev pub Holds : LruMap K V → List (K × V) → Type 0
  Holds s l = IsLru key_eq s × (pairs s.visit_history ≡ l)

module _ {K : Type 0} (key_eq : K → K → Bool) where
  kv_assign-append :
      (k : K) (i : ℕ) (m : List (K × ℕ))
      → kv_find key_eq k m ≡ none
      → kv_assign key_eq k i m ≡ m ++ (k, i) ∷ []
  unfolding kv_assign
  kv_assign-append k i m h = rw (h, kv_assign) refl

module _ {K V : Type 0} (key_eq : K → K → Bool) (eq : IsEquality key_eq) where
  pub insert-Holds :
      (k : K) (v : V) (s : LruMap K V)
      → IsLru key_eq s
      → Holds key_eq
          (insert_key_value key_eq k v s).1
          (recency key_eq (insert_call k v) (pairs s.visit_history))
  unfolding insert_key_value recency pairs
  insert-Holds k v s h = elim (linked-cases key_eq eq s.visit_history s.kv_data s.next_node h k) [
    | inl (a, b) ↦
        let spec = pairs-find_by key_eq k s.visit_history ∙ ap pair_of b in
        rw (a, spec, insert_key_value, recency, kv_assign-append key_eq k s.next_node s.kv_data a)
          (
            linked-append key_eq eq s.visit_history s.kv_data s.next_node k v h b a,
            pairs-append s.visit_history (record { at = s.next_node; key = k; value = v } ∷ []),
          )
    | inr (e, n, a, b, same) ↦
        let spec = pairs-find_by key_eq k s.visit_history ∙ ap pair_of b in
        rw (a, spec, insert_key_value, recency) (h, refl)
  ]

  -- The node that the entry of a key leads to is the node of the key.
  pub gone :
      (s : LruMap K V) (k : K) (e : K × ℕ) (n : Node K V)
      → IsLru key_eq s
      → find_by key_eq node_key k s.visit_history ≡ some n
      → e.1 ≡ n.at
      → (erase_visit e.1 s.visit_history ≡ erase_by key_eq node_key k s.visit_history)
        × (node_at e.1 s.visit_history ≡ some n)
  gone s k e n h b same =
      subst
        (λ i.
          (erase_visit i s.visit_history ≡ erase_by key_eq node_key k s.visit_history)
          × (node_at i s.visit_history ≡ some n))
        (sym same) (erase_visit-erase_by key_eq eq k s.visit_history n h.apart b)

  pub erase_key-Holds :
      (k : K) (s : LruMap K V)
      → IsLru key_eq s
      → Holds key_eq
          (erase_key key_eq k s).1
          (recency key_eq (erase_call k) (pairs s.visit_history))
  unfolding erase_key recency
  erase_key-Holds k s h = elim (linked-cases key_eq eq s.visit_history s.kv_data s.next_node h k) [
    | inl (a, b) ↦
        let spec = pairs-find_by key_eq k s.visit_history ∙ ap pair_of b in
        rw (a, erase_key, recency, erase_by-miss key_eq eq pair_key k (pairs s.visit_history) spec)
          (h, refl)
    | inr (e, n, a, b, same) ↦
        rw (a, erase_key, recency, (gone s k e n h b same).0)
          (
            linked-erase key_eq eq s.visit_history s.kv_data s.next_node k e n h a b,
            pairs-erase_by key_eq k s.visit_history,
          )
  ]

  -- `find` without a change of the order, or of a key that is not there, changes nothing.
  pub find_visit-miss :
      (k : K) (b : Bool) (s : LruMap K V)
      → kv_find key_eq k s.kv_data ≡ none
      → find_visit key_eq k b s ≡ (none, s)
  unfolding find_visit
  find_visit-miss k b s a = rw (a, find_visit) refl

  pub moved : (k : K) (n : Node K V) → LruMap K V → LruMap K V
  moved k n s = record s {
    visit_history =
        erase_by key_eq node_key k s.visit_history
        ++ record { at = s.next_node; key = n.key; value = n.value } ∷ [];
    kv_data = kv_set key_eq k s.next_node s.kv_data;
    next_node = suc s.next_node;
  }

  pub find_visit-hit :
      (k : K) (s : LruMap K V) (e : K × ℕ) (n : Node K V)
      → IsLru key_eq s
      → kv_find key_eq k s.kv_data ≡ some e
      → find_by key_eq node_key k s.visit_history ≡ some n
      → e.1 ≡ n.at
      → find_visit key_eq k true s ≡ (some s.next_node, moved k n s)
  unfolding find_visit moved
  find_visit-hit k s e n h a b same =
      let found = gone s k e n h b same in rw (a, find_visit, found.1, found.0) refl

  pub moved-node_at :
      (k : K) (n : Node K V) (s : LruMap K V)
      → IsLru key_eq s
      → node_at s.next_node (moved k n s).visit_history
        ≡ some (record { at = s.next_node; key = n.key; value = n.value })
  unfolding moved
  moved-node_at k n s h =
      let kept = erase_by key_eq node_key k s.visit_history in
      let new : Node K V = record { at = s.next_node; key = n.key; value = n.value } in
      let older =
        erase_by-All key_eq eq node_key (λ x. x.at < s.next_node) k s.visit_history h.older in
      let absent = find_by-older key_eq eq kept s.next_node s.next_node older (ground arith) in
      find_by-append ◌==◌ ==-IsEquality at_of s.next_node kept new absent
      ∙ ap (λ b. if b then some new else find_by ◌==◌ at_of s.next_node kept)
          ((==_iff s.next_node s.next_node).1 refl)

  pub moved-Holds :
      (k : K) (s : LruMap K V) (e : K × ℕ) (n : Node K V)
      → IsLru key_eq s
      → kv_find key_eq k s.kv_data ≡ some e
      → find_by key_eq node_key k s.visit_history ≡ some n
      → Holds key_eq
          (moved k n s)
          (erase_by key_eq pair_key k (pairs s.visit_history) ++ (n.key, n.value) ∷ [])
  unfolding moved pairs
  moved-Holds k s e n h a b = (
    linked-visit key_eq eq s.visit_history s.kv_data s.next_node k e n h a b,
    pairs-append (erase_by key_eq node_key k s.visit_history)
          (record { at = s.next_node; key = n.key; value = n.value } ∷ [])
        ∙ ap (λ t. t ++ (n.key, n.value) ∷ []) (pairs-erase_by key_eq k s.visit_history),
  )

  pub find_visit-Holds :
      (k : K) (update_visit : Bool) (s : LruMap K V)
      → IsLru key_eq s
      → Holds key_eq
          (find_visit key_eq k update_visit s).1
          (recency key_eq (find_call k update_visit) (pairs s.visit_history))
  unfolding recency visit find_visit
  find_visit-Holds k true s h =
      elim (linked-cases key_eq eq s.visit_history s.kv_data s.next_node h k) [
        | inl (a, b) ↦
            let spec = pairs-find_by key_eq k s.visit_history ∙ ap pair_of b in
            rw (find_visit-miss k true s a, recency, visit, spec) (h, refl)
        | inr (e, n, a, b, same) ↦
            let spec = pairs-find_by key_eq k s.visit_history ∙ ap pair_of b in
            rw (find_visit-hit k s e n h a b same, recency, visit, spec) (moved-Holds k s e n h a b)
      ]
  find_visit-Holds k false s h =
      elim (linked-cases key_eq eq s.visit_history s.kv_data s.next_node h k) [
        | inl (a, b) ↦ rw (find_visit-miss k false s a, recency) (h, refl)
        | inr (e, n, a, b, same) ↦ rw (a, find_visit, recency) (h, refl)
      ]
