-- ===== src/Lru/Ends.antt =====
-- The first and the last node: `erase` at a node, `pop_front` and `pop_back`.
use atframe_utils.Base.{
  All, last?, tail, Option-cases, ◌==◌, ==_iff, ◌≡◌, ◌⊎◌, refl, sym, ap, subst, ◌∙◌, arith, List,
  [], ◌∷◌, Bool, true, false, none, some, inl, inr, if◌then◌else◌,
}
use atframe_utils.Lru.{
  Node, LruMap, node_key, at_of, kv_key, pairs, erase_at, map_begin, map_pop_front, map_pop_back,
}
use atframe_utils.Lru.Keyed.{
  find_by, erase_by, IsEquality, AreDistinct, find_by-lacks, hit, apart_comm,
}
use atframe_utils.Lru.Linked.{IsLru, linked-cases, erase_visit-erase_by}
use atframe_utils.Lru.Steps.{linked-erase}
use atframe_utils.Lru.Recency.{pop_front_call, pop_back_call, all_but_last, recency}
use atframe_utils.Lru.Refines.{Holds, pairs-erase_by, erase_key-Holds}

List-cases : {A : Type 0} (xs : List A) → (xs ≡ []) ⊎ ((x : A) × (rest : List A) × (xs ≡ x ∷ rest))
List-cases [] = inl refl
List-cases (x ∷ xs) = inr (x, xs, refl)

last?-All : {A : Type 0} (P : A → Type 0) (xs : List A) (a : A) → All P xs → last? xs ≡ some a → P a
last?-All P [] a h e = absurd (ground (arith, e))
last?-All P (x ∷ []) a h e = let same : x ≡ a = ground (arith, e) in subst P same h.0
last?-All P (x ∷ y ∷ xs) a h e = last?-All P (y ∷ xs) a h.1 e

last?-none : {A : Type 0} (xs : List A) → last? xs ≡ none → xs ≡ []
last?-none [] e = refl
last?-none (x ∷ []) e = absurd (ground (arith, e))
last?-none (x ∷ y ∷ xs) e = absurd (ground (arith, last?-none (y ∷ xs) e, e))

module _ {K V : Type 0} (key_eq : K → K → Bool) (eq : IsEquality key_eq) where
  -- Without the key of the last item the list is all but the last item.
  erase_by-all_but_last :
      (h : List (Node K V)) (n : Node K V)
      → AreDistinct key_eq node_key h
      → last? h ≡ some n
      → pairs (erase_by key_eq node_key n.key h) ≡ all_but_last (pairs h)
  unfolding erase_by all_but_last pairs AreDistinct
  erase_by-all_but_last [] n d e = absurd (ground (arith, e))
  erase_by-all_but_last (x ∷ []) n d e =
      let same : x ≡ n = ground (arith, e) in
      ap (λ b. pairs (if b then [] else x ∷ [])) ((eq x.key n.key).1 (ap node_key same))
  erase_by-all_but_last (x ∷ y ∷ h) n d e =
      let other : key_eq x.key n.key ≡ false = apart_comm key_eq eq kv_key n.key x.key (
        last?-All (λ z. key_eq z.key x.key ≡ false) (y ∷ h) n
          (find_by-lacks key_eq eq node_key x.key (y ∷ h) d.0) e) in
      ap (λ b. pairs (if b then y ∷ h else x ∷ erase_by key_eq node_key n.key (y ∷ h))) other
      ∙ ap (λ t. (x.key, x.value) ∷ t) (erase_by-all_but_last (y ∷ h) n d.1 e)

  -- `erase` at the node of a key erases the key.
  pub erase_at-visits :
      (n : Node K V) (s : LruMap K V)
      → IsLru key_eq s
      → find_by key_eq node_key n.key s.visit_history ≡ some n
      → (let r = erase_at key_eq (some n.at) s in
          IsLru key_eq r.1 × (r.1.visit_history ≡ erase_by key_eq node_key n.key s.visit_history))
  unfolding erase_at
  erase_at-visits n s h found =
      elim (linked-cases key_eq eq s.visit_history s.kv_data s.next_node h n.key) [
        | inl (a, b) ↦ let wrong : none ≡ some n = sym b ∙ found in absurd (ground (arith, wrong))
        | inr (e, n', a, b, same) ↦
            let one : some n' ≡ some n = sym b ∙ found in
            let node : n' ≡ n = ground (arith, one) in
            let test : (e.1 == n.at) ≡ true = (==_iff e.1 n.at).1 (same ∙ ap at_of node) in
            let er = erase_visit-erase_by key_eq eq n.key s.visit_history n h.apart found in
            rw (er.1, a, test, er.0, erase_at)
              (
                linked-erase key_eq eq s.visit_history s.kv_data s.next_node n.key e n h a found,
                refl,
              )
      ]

  pub erase_by-first :
      (n : Node K V) (rest : List (Node K V)) → erase_by key_eq node_key n.key (n ∷ rest) ≡ rest
  unfolding erase_by
  erase_by-first n rest =
      ap (λ b. if b then rest else n ∷ erase_by key_eq node_key n.key rest)
        ((eq n.key n.key).1 refl)

  pub pop_front-Holds :
      (s : LruMap K V)
      → IsLru key_eq s
      → Holds key_eq
          (map_pop_front key_eq s)
          (recency key_eq pop_front_call (pairs s.visit_history))
  unfolding map_pop_front recency pairs map_begin erase_at
  pop_front-Holds s h = elim (List-cases s.visit_history) [
    | inl e ↦
        subst (λ t. Holds key_eq t (tail (pairs s.visit_history)))
          (sym (ap (λ l. (erase_at key_eq (map_begin l) s).1) e))
          (h, subst (λ l. pairs l ≡ tail (pairs l)) (sym e) refl)
    | inr (n, rest, e) ↦
        let found : find_by key_eq node_key n.key s.visit_history ≡ some n =
          subst (λ l. find_by key_eq node_key n.key l ≡ some n) (sym e)
            (hit key_eq eq node_key n rest) in
        let r = erase_at-visits n s h found in
        subst (λ t. Holds key_eq t (tail (pairs s.visit_history)))
          (sym (ap (λ l. (erase_at key_eq (map_begin l) s).1) e))
          (
            r.0,
            ap pairs r.1
                ∙ subst (λ l. pairs (erase_by key_eq node_key n.key l) ≡ tail (pairs l)) (sym e)
                    (ap pairs (erase_by-first n rest)),
          )
  ]

  pub pop_back-Holds :
      (s : LruMap K V)
      → IsLru key_eq s
      → Holds key_eq (map_pop_back key_eq s) (recency key_eq pop_back_call (pairs s.visit_history))
  unfolding map_pop_back recency pairs all_but_last
  pop_back-Holds s h = elim (Option-cases (last? s.visit_history)) [
    | inl e ↦
        rw (e, map_pop_back, recency)
          (
            h,
            subst (λ l. pairs l ≡ all_but_last (pairs l)) (sym (last?-none s.visit_history e)) refl,
          )
    | inr (n, e) ↦
        let r = erase_key-Holds key_eq eq n.key s h in
        rw (e, map_pop_back, recency)
          (
            r.0,
            r.1
                ∙ sym (pairs-erase_by key_eq n.key s.visit_history)
                ∙ erase_by-all_but_last s.visit_history n h.distinct e,
          )
  ]
