-- ===== src/Lru/Positions.antt =====
-- `erase` at a position of lru_map, and from one position to another.
use atframe_utils.Base.{
  All, drop, ℕ, zero, suc, ◌+◌, ◌==◌, ◌≤◌, ◌≡◌, ◌⊎◌, refl, sym, ap, subst, ◌∙◌, arith, List, [],
  ◌∷◌, Bool, true, false, Option, none, some, inl, inr, if◌then◌else◌,
}
use atframe_utils.Lru.{
  Node, LruMap, node_key, at_of, pairs, iterator_at, next_of, map_begin, same_iterator, erase_at,
  erase_range,
}
use atframe_utils.Lru.Keyed.{
  find_by, erase_by, IsEquality, AreDistinct, find_by-lacks, find_by-All, hit, apart_comm,
}
use atframe_utils.Lru.Linked.{IsLru, lacks-found, ==-IsEquality}
use atframe_utils.Lru.Recency.{without, erase_at_call, erase_range_call, recency}
use atframe_utils.Lru.Refines.{Holds}
use atframe_utils.Lru.Ends.{erase_at-visits, erase_by-first}

module _ {A : Type 0} where
  abbrev empty_list : List A
  empty_list = []

  without-none : (i : ℕ) (xs : List A) → without i 0 xs ≡ xs
  unfolding without
  without-none zero xs = refl
  without-none (suc i) [] = refl
  without-none (suc i) (x ∷ xs) = ap (λ t. x ∷ t) (without-none i xs)

  without-empty : (i n : ℕ) → without i n [] ≡ empty_list
  unfolding without
  without-empty zero zero = refl
  without-empty zero (suc n) = refl
  without-empty (suc i) n = refl

  without-suc : (i n : ℕ) (xs : List A) → without i (suc n) xs ≡ without i n (without i 1 xs)
  unfolding without
  without-suc zero zero [] = refl
  without-suc zero (suc n) [] = refl
  without-suc zero n (x ∷ xs) = refl
  without-suc (suc i) n [] = refl
  without-suc (suc i) n (x ∷ xs) = ap (λ t. x ∷ t) (without-suc i n xs)

module _ {K V : Type 0} where
  pairs-drop : (n : ℕ) (h : List (Node K V)) → pairs (drop n h) ≡ drop n (pairs h)
  unfolding pairs
  pairs-drop zero h = refl
  pairs-drop (suc n) [] = refl
  pairs-drop (suc n) (x ∷ h) = pairs-drop n h

  pairs-without : (i n : ℕ) (h : List (Node K V)) → pairs (without i n h) ≡ without i n (pairs h)
  unfolding pairs without
  pairs-without zero n h = pairs-drop n h
  pairs-without (suc i) n [] = refl
  pairs-without (suc i) n (x ∷ h) = ap (λ t. (x.key, x.value) ∷ t) (pairs-without i n h)

  iterator_at-begin : (h : List (Node K V)) → map_begin h ≡ iterator_at 0 h
  unfolding map_begin iterator_at
  iterator_at-begin [] = refl
  iterator_at-begin (n ∷ h) = refl

  -- Behind the end there is nothing to leave out.
  without-end : (i n : ℕ) (h : List (Node K V)) → iterator_at i h ≡ none → without i n h ≡ h
  unfolding iterator_at without
  without-end i n [] e = without-empty i n
  without-end zero n (x ∷ h) e = absurd (ground (arith, e))
  without-end (suc i) n (x ∷ h) e = ap (λ t. x ∷ t) (without-end i n h e)

  -- The iterators behind a node that is left out.
  iterator_at-without :
      (i j : ℕ) (h : List (Node K V))
      → i ≤ j
      → iterator_at j (without i 1 h) ≡ iterator_at (suc j) h
  unfolding iterator_at without
  iterator_at-without zero j [] le = refl
  iterator_at-without (suc i) j [] le = refl
  iterator_at-without zero j (x ∷ h) le = refl
  iterator_at-without (suc i) zero (x ∷ h) le = absurd (omega (arith, le))
  iterator_at-without (suc i) (suc j) (x ∷ h) le = iterator_at-without i j h (omega (arith, le))

  lacks-iterator :
      (a i : ℕ) (h : List (Node K V))
      → All (λ n. (n.at == a) ≡ false) h
      → same_iterator (some a) (iterator_at i h) ≡ false
  unfolding iterator_at
  lacks-iterator a i [] all = refl
  lacks-iterator a zero (n ∷ h) all = ground (arith, all.0)
  lacks-iterator a (suc i) (n ∷ h) all = lacks-iterator a i h all.1

  -- A later position is another node, or the end.
  iterator_at-apart :
      (i j a : ℕ) (h : List (Node K V))
      → i ≤ j
      → AreDistinct ◌==◌ at_of h
      → iterator_at i h ≡ some a
      → same_iterator (some a) (iterator_at (suc j) h) ≡ false
  unfolding iterator_at AreDistinct
  iterator_at-apart i j a [] le d e = absurd (ground (arith, e))
  iterator_at-apart zero j a (x ∷ h) le d e =
      let same : x.at ≡ a = ground (arith, e) in
      lacks-iterator a j h (
        subst (λ b. All (λ y. (y.at == b) ≡ false) h) same
          (find_by-lacks ◌==◌ ==-IsEquality at_of x.at h d.0))
  iterator_at-apart (suc i) zero a (x ∷ h) le d e = absurd (omega (arith, le))
  iterator_at-apart (suc i) (suc j) a (x ∷ h) le d e =
      iterator_at-apart i j a h (omega (arith, le)) d.1 e

module _ {K V : Type 0} (key_eq : K → K → Bool) (eq : IsEquality key_eq) where
  -- The node at a position: its key is first found there, and the next one is behind it.
  abbrev IsNode : ℕ → List (Node K V) → Type 0
  IsNode i h =
      (n : Node K V) × (iterator_at i h ≡ some n.at)
      × (find_by key_eq node_key n.key h ≡ some n)
      × (erase_by key_eq node_key n.key h ≡ without i 1 h)
      × (next_of n.at h ≡ iterator_at (suc i) h)

  IsNode-suc :
      (i : ℕ) (x : Node K V) (h : List (Node K V))
      → AreDistinct key_eq node_key (x ∷ h)
      → AreDistinct ◌==◌ at_of (x ∷ h)
      → IsNode i h
      → IsNode (suc i) (x ∷ h)
  unfolding iterator_at find_by erase_by without next_of AreDistinct
  IsNode-suc i x h d a (n, at, found, erased, next) =
      let key : key_eq x.key n.key ≡ false = apart_comm key_eq eq (node_key {V = V}) n.key x.key (
        find_by-All key_eq eq node_key (λ y. key_eq y.key x.key ≡ false) n.key h n
          (find_by-lacks key_eq eq node_key x.key h d.0) found) in
      let other : (x.at == n.at) ≡ false = lacks-found key_eq eq n.key h n x.at found a.0 in
      (
        n,
        at,
        ap (λ b. if b then some x else find_by key_eq node_key n.key h) key ∙ found,
        ap (λ b. if b then h else x ∷ erase_by key_eq node_key n.key h) key
            ∙ ap (λ t. x ∷ t) erased,
        ap (λ b. if b then map_begin h else next_of n.at h) other ∙ next,
      )

  iterator_at-cases :
      (i : ℕ) (h : List (Node K V))
      → AreDistinct key_eq node_key h
      → AreDistinct ◌==◌ at_of h
      → (iterator_at i h ≡ none) ⊎ IsNode i h
  unfolding iterator_at next_of without AreDistinct
  iterator_at-cases i [] d a = inl refl
  iterator_at-cases zero (n ∷ h) d a =
      let same : (n.at == n.at) ≡ true = ground arith in
      inr (
        n,
        refl,
        hit key_eq eq node_key n h,
        erase_by-first key_eq eq n h,
        ap (λ b. if b then map_begin h else next_of n.at h) same ∙ iterator_at-begin h,
      )
  iterator_at-cases (suc i) (n ∷ h) d a = elim (iterator_at-cases i h d.1 a.1) [
    | inl e ↦ inl e
    | inr node ↦ inr (IsNode-suc i n h d a node)
  ]

  -- `erase` at a position leaves out the visit there.
  erase_at-position :
      (i : ℕ) (s : LruMap K V)
      → IsLru key_eq s
      → (let r = erase_at key_eq (iterator_at i s.visit_history) s in
          IsLru key_eq r.1 × (r.1.visit_history ≡ without i 1 s.visit_history))
  unfolding erase_at
  erase_at-position i s h = elim (iterator_at-cases i s.visit_history h.distinct h.apart) [
    | inl e ↦
        subst
          (λ o.
            IsLru key_eq (erase_at key_eq o s).1
            × ((erase_at key_eq o s).1.visit_history ≡ without i 1 s.visit_history))
          (sym e) (h, sym (without-end i 1 s.visit_history e))
    | inr (n, at, found, erased, next) ↦
        let r = erase_at-visits key_eq eq n s h found in
        subst
          (λ o.
            IsLru key_eq (erase_at key_eq o s).1
            × ((erase_at key_eq o s).1.visit_history ≡ without i 1 s.visit_history))
          (sym at) (r.0, r.1 ∙ erased)
  ]

  pub erase_at-Holds :
      (i : ℕ) (s : LruMap K V)
      → IsLru key_eq s
      → Holds key_eq
          (erase_at key_eq (iterator_at i s.visit_history) s).1
          (recency key_eq (erase_at_call i) (pairs s.visit_history))
  unfolding recency
  erase_at-Holds i s h =
      let r = erase_at-position i s h in (r.0, ap pairs r.1 ∙ pairs-without i 1 s.visit_history)

  -- A turn of the loop of `erase(first, last)` at a node that is not the last.
  erase_range-turn :
      (fuel a : ℕ) (last ret : Option ℕ) (s : LruMap K V)
      → same_iterator (some a) last ≡ false
      → erase_range key_eq (suc fuel) (some a) last ret s ≡ (
          let r = erase_at key_eq (some a) s in
          erase_range key_eq fuel (next_of a s.visit_history) last r.0 r.1)
  unfolding erase_range
  erase_range-turn fuel a last ret s other =
      ap
        (λ b.
          let r = erase_at key_eq (some a) s in
          if b then (ret, s) else erase_range key_eq fuel (next_of a s.visit_history) last r.0 r.1)
        other

  erase_range-end :
      (fuel : ℕ) (o ret : Option ℕ) (s : LruMap K V) → erase_range key_eq fuel o o ret s ≡ (ret, s)
  unfolding erase_range
  erase_range-end zero o ret s = refl
  erase_range-end (suc fuel) none ret s = refl
  erase_range-end (suc fuel) (some a) ret s =
      let same : (a == a) ≡ true = ground arith in
      ap
        (λ b.
          let r = erase_at key_eq (some a) s in
          if b
          then (ret, s)
          else erase_range key_eq fuel (next_of a s.visit_history) (some a) r.0 r.1)
        same

  erase_range-stop :
      (fuel : ℕ) (last ret : Option ℕ) (s : LruMap K V)
      → erase_range key_eq fuel none last ret s ≡ (ret, s)
  unfolding erase_range
  erase_range-stop zero last ret s = refl
  erase_range-stop (suc fuel) last ret s = refl

  -- From a position on, the range of some nodes, or up to the end, is left out.
  abbrev LeavesOut : ℕ → ℕ → LruMap K V → LruMap K V → Type 0
  LeavesOut i n s t = IsLru key_eq t × (t.visit_history ≡ without i n s.visit_history)

  erase_range-position :
      (n i : ℕ) (ret : Option ℕ) (s : LruMap K V)
      → IsLru key_eq s
      → LeavesOut i n s
          (erase_range key_eq
            (suc n)
            (iterator_at i s.visit_history)
            (iterator_at (i + n) s.visit_history)
            ret
            s).1
  erase_range-position zero i ret s h =
      let same : i + 0 ≡ i = omega arith in
      let done =
        ap
          (λ j.
            erase_range key_eq 1 (iterator_at i s.visit_history) (iterator_at j s.visit_history) ret
              s)
          same
        ∙ erase_range-end 1 (iterator_at i s.visit_history) ret s in
      subst (λ r. LeavesOut i 0 s r.1) (sym done) (h, sym (without-none i s.visit_history))
  erase_range-position (suc n) i ret s h =
      let last = iterator_at (i + suc n) s.visit_history in
      let next_index : suc (i + n) ≡ i + suc n = omega arith in
      elim (iterator_at-cases i s.visit_history h.distinct h.apart) [
        | inl e ↦
            let done =
              ap (λ o. erase_range key_eq (suc (suc n)) o last ret s) e
              ∙ erase_range-stop (suc (suc n)) last ret s in
            subst (λ r. LeavesOut i (suc n) s r.1) (sym done)
              (h, sym (without-end i (suc n) s.visit_history e))
        | inr (x, at, found, erased, next) ↦
            let r = erase_at key_eq (some x.at) s in
            let one = erase_at-visits key_eq eq x s h found in
            let visits : r.1.visit_history ≡ without i 1 s.visit_history = one.1 ∙ erased in
            let apart : same_iterator (some x.at) last ≡ false =
              subst (λ j. same_iterator (some x.at) (iterator_at j s.visit_history) ≡ false)
                next_index
                (iterator_at-apart i (i + n) x.at s.visit_history (omega arith) h.apart at) in
            let first : next_of x.at s.visit_history ≡ iterator_at i r.1.visit_history =
              next
              ∙ sym (iterator_at-without i i s.visit_history (omega arith))
              ∙ sym (ap (iterator_at i) visits) in
            let end : last ≡ iterator_at (i + n) r.1.visit_history =
              ap (λ j. iterator_at j s.visit_history) (sym next_index)
              ∙ sym (iterator_at-without i (i + n) s.visit_history (omega arith))
              ∙ sym (ap (iterator_at (i + n)) visits) in
            let done =
              ap (λ o. erase_range key_eq (suc (suc n)) o last ret s) at
              ∙ erase_range-turn (suc n) x.at last ret s apart
              ∙ ap (λ o. erase_range key_eq (suc n) o last r.0 r.1) first
              ∙ ap (λ o. erase_range key_eq (suc n) (iterator_at i r.1.visit_history) o r.0 r.1)
                  end in
            let rest = erase_range-position n i r.0 r.1 one.0 in
            subst (λ t. LeavesOut i (suc n) s t.1) (sym done)
              (rest.0, rest.1 ∙ ap (without i n) visits ∙ sym (without-suc i n s.visit_history))
      ]

  pub erase_range-Holds :
      (i n : ℕ) (s : LruMap K V)
      → IsLru key_eq s
      → Holds key_eq
          (erase_range key_eq
            (suc n)
            (iterator_at i s.visit_history)
            (iterator_at (i + n) s.visit_history)
            none
            s).1
          (recency key_eq (erase_range_call i n) (pairs s.visit_history))
  unfolding recency
  erase_range-Holds i n s h =
      let r = erase_range-position n i none s h in
      (r.0, ap pairs r.1 ∙ pairs-without i n s.visit_history)
