-- ===== src/Ring/Slots.antt =====
-- A ring as the list of its slots.
use native.Mathlib.Nat.{mod-lt, mod-add-mod, mod-eq_of_lt, mod-eq-sub-mod}
use atframe_utils.Base.{
  ℕ, zero, suc, ◌+◌, ◌-◌, ◌*◌, ◌%◌, ◌<◌, ◌≤◌, ◌≡◌, ◌≢◌, ◌⊎◌, ◌↔◌, ◌∙◌, ap, inl, inr, refl, sym,
  arith, dec_lt, true, none, some, List, [], ◌∷◌, ◌++◌, length, ◌==◌, ==_iff, Bool-cases,
}
use atframe_utils.Ring.{Ring, push_back, pop_back, push_front, pop_front, ring_size, ring_empty}

-- The positions are in the array.
pub record IsRing (n : ℕ) (r : Ring) : Type 0 where
  pub two : 2 ≤ n
  pub start : r.start < n
  pub end_pos : r.end_pos < n

module _ (n : ℕ) where
  unfoldable pub slots_from : ℕ → ℕ → List ℕ
  slots_from pos zero = []
  slots_from pos (suc count) = pos ∷ slots_from ((pos + 1) % n) count

  -- The slots from the first to the last.
  abbrev pub slots : Ring → List ℕ
  slots r = slots_from r.start (ring_size n r)

  wrap : (x : ℕ) → x < 2 * n → ((x < n) × (x % n ≡ x)) ⊎ ((n ≤ x) × (x % n + n ≡ x))
  wrap x h = elim (dec_lt x n) [
    | yes lt ↦ inl (lt, mod-eq_of_lt lt)
    | no ge ↦ inr (
      omega arith,
      omega (
        arith,
        mod-eq-sub-mod {n = x} {m = n} (omega arith),
        mod-eq_of_lt {n = x - n} {m = n} (omega arith),
      ),
    )
  ]

  slots_from-suc :
      (count pos : ℕ)
      → pos < n
      → slots_from pos (suc count) ≡ slots_from pos count ++ (pos + count) % n ∷ []
  unfolding slots_from
  slots_from-suc zero pos h =
      ap (λ m. m ∷ []) (omega (arith, mod-eq_of_lt {n = pos + 0} {m = n} (omega arith)))
  slots_from-suc (suc count) pos h =
      let ih = slots_from-suc count ((pos + 1) % n) (mod-lt (pos + 1) (omega arith)) in
      let e : ((pos + 1) % n + count) % n ≡ (pos + suc count) % n =
        mod-add-mod (pos + 1) n count ∙ ap (λ m. m % n) (omega arith) in
      ap (λ xs. pos ∷ xs) (ih ∙ ap (λ m. slots_from ((pos + 1) % n) count ++ m ∷ []) e)

  -- The size before and behind a new last slot.
  size_back :
      (s e : ℕ)
      → 2 ≤ n
      → s < n
      → e < n
      → (e + 1) % n ≢ s
      → (n + (e + 1) % n - s) % n ≡ suc ((n + e - s) % n)
  size_back s e h hs he ne = ground (
    arith,
    ne,
    wrap (e + 1) (omega arith),
    wrap (n + e - s) (omega arith),
    wrap (n + (e + 1) % n - s) (omega (arith, mod-lt (e + 1) {m = n} (omega arith))),
  )

  end_back : (s e : ℕ) → s < n → e < n → (s + (n + e - s) % n) % n ≡ e
  end_back s e hs he = ground (
    arith,
    wrap (n + e - s) (omega arith),
    wrap (s + (n + e - s) % n) (omega (arith, mod-lt (n + e - s) {m = n} (omega arith))),
  )

  size_front :
      (s e : ℕ) → 2 ≤ n → s < n → e < n → e ≢ s → (n + e - s) % n ≡ suc ((n + e - (s + 1) % n) % n)
  size_front s e h hs he ne = ground (
    arith,
    ne,
    wrap (s + 1) (omega arith),
    wrap (n + e - s) (omega arith),
    wrap (n + e - (s + 1) % n) (omega (arith, mod-lt (s + 1) {m = n} (omega arith))),
  )

  length-slots_from : (pos count : ℕ) → length (slots_from pos count) ≡ count
  unfolding slots_from
  length-slots_from pos zero = refl
  length-slots_from pos (suc count) = ap suc (length-slots_from ((pos + 1) % n) count)

  full : (s e : ℕ) → 2 ≤ n → s < n → e < n → (e + 1) % n ≡ s → (n + e - s) % n ≡ n - 1
  full s e h hs he eq =
      ground (arith, eq, wrap (e + 1) (omega arith), wrap (n + e - s) (omega arith))

  none_left : (s e : ℕ) → 2 ≤ n → s < n → e ≡ s → (n + e - s) % n ≡ 0
  none_left s e h hs eq = ground (arith, eq, wrap (n + e - s) (omega arith))

  around : (s : ℕ) → 2 ≤ n → s < n → ((s + n - 1) % n + 1) % n ≡ s
  around s h hs = ground (
    arith,
    wrap (s + n - 1) (omega arith),
    wrap ((s + n - 1) % n + 1) (omega (arith, mod-lt (s + n - 1) {m = n} (omega arith))),
  )

  -- `push_back` gives null exactly when all slots but one are used, and adds a slot at the end
  -- otherwise.
  push_back-slots :
      (r : Ring)
      → IsRing n r
      → ((push_back n r ≡ none) × (length (slots r) ≡ n - 1))
        ⊎ ((i : ℕ) × (r' : Ring) × (push_back n r ≡ some (i, r'))
            × IsRing n r'
            × (slots r' ≡ slots r ++ i ∷ []))
  unfolding push_back ring_size
  push_back-slots r h = elim (Bool-cases ((r.end_pos + 1) % n == r.start)) [
    | inl e ↦ inl (
      rw e refl,
      length-slots_from r.start (ring_size n r)
          ∙ full r.start r.end_pos h.two h.start h.end_pos
              ((==_iff ((r.end_pos + 1) % n) r.start).0 e),
    )
    | inr f ↦ inr (
      r.end_pos,
      record r { end_pos = (r.end_pos + 1) % n },
      rw f refl,
      record {
        two = h.two;
        start = h.start;
        end_pos = mod-lt (r.end_pos + 1) {m = n} (omega (arith, h.two));
      },
      ap (slots_from r.start)
            (size_back r.start r.end_pos h.two h.start h.end_pos (λ q. ground (arith, q, f)))
          ∙ slots_from-suc ((n + r.end_pos - r.start) % n) r.start h.start
          ∙ ap (λ m. slots r ++ m ∷ []) (end_back r.start r.end_pos h.start h.end_pos),
    )
  ]

  -- `pop_front` gives null exactly when no slot is used, and removes the first slot otherwise.
  pop_front-slots :
      (r : Ring)
      → IsRing n r
      → ((pop_front n r ≡ none) × (slots r ≡ []))
        ⊎ ((i : ℕ) × (r' : Ring) × (pop_front n r ≡ some (i, r'))
            × IsRing n r'
            × (slots r ≡ i ∷ slots r'))
  unfolding pop_front ring_size slots_from
  pop_front-slots r h = elim (Bool-cases (r.end_pos == r.start)) [
    | inl e ↦ inl (
      rw e refl,
      ap (slots_from r.start)
          (none_left r.start r.end_pos h.two h.start ((==_iff r.end_pos r.start).0 e)),
    )
    | inr f ↦ inr (
      r.start,
      record r { start = (r.start + 1) % n },
      rw f refl,
      record {
        two = h.two;
        start = mod-lt (r.start + 1) {m = n} (omega (arith, h.two));
        end_pos = h.end_pos;
      },
      ap (slots_from r.start)
          (size_front r.start r.end_pos h.two h.start h.end_pos (λ q. ground (arith, q, f))),
    )
  ]

  -- `push_front` gives null exactly when all slots but one are used, and adds a slot at the front
  -- otherwise.
  push_front-slots :
      (r : Ring)
      → IsRing n r
      → ((push_front n r ≡ none) × (length (slots r) ≡ n - 1))
        ⊎ ((i : ℕ) × (r' : Ring) × (push_front n r ≡ some (i, r'))
            × IsRing n r'
            × (slots r' ≡ i ∷ slots r))
  unfolding push_front ring_size slots_from
  push_front-slots r h = elim (Bool-cases ((r.end_pos + 1) % n == r.start)) [
    | inl e ↦ inl (
      rw e refl,
      length-slots_from r.start (ring_size n r)
          ∙ full r.start r.end_pos h.two h.start h.end_pos
              ((==_iff ((r.end_pos + 1) % n) r.start).0 e),
    )
    | inr f ↦
        let s = (r.start + n - 1) % n in
        let hs : s < n = mod-lt (r.start + n - 1) {m = n} (omega (arith, h.two)) in
        let back : (s + 1) % n ≡ r.start = around r.start h.two h.start in
        inr (
          s,
          record r { start = s },
          rw f refl,
          record { two = h.two; start = hs; end_pos = h.end_pos },
          ap (slots_from s)
                (size_front s r.end_pos h.two hs h.end_pos (λ q. ground (arith, back, q, f)))
              ∙ ap (λ m. s ∷ slots_from m ((n + r.end_pos - m) % n)) back,
        )
  ]

  -- `pop_back` gives null exactly when no slot is used, and removes the last slot otherwise.
  pop_back-slots :
      (r : Ring)
      → IsRing n r
      → ((pop_back n r ≡ none) × (slots r ≡ []))
        ⊎ ((i : ℕ) × (r' : Ring) × (pop_back n r ≡ some (i, r'))
            × IsRing n r'
            × (slots r ≡ slots r' ++ i ∷ []))
  unfolding pop_back ring_size slots_from
  pop_back-slots r h = elim (Bool-cases (r.end_pos == r.start)) [
    | inl e ↦ inl (
      rw e refl,
      ap (slots_from r.start)
          (none_left r.start r.end_pos h.two h.start ((==_iff r.end_pos r.start).0 e)),
    )
    | inr f ↦
        let e = (r.end_pos + n - 1) % n in
        let he : e < n = mod-lt (r.end_pos + n - 1) {m = n} (omega (arith, h.two)) in
        let back : (e + 1) % n ≡ r.end_pos = around r.end_pos h.two h.end_pos in
        inr (
          e,
          record r { end_pos = e },
          rw f refl,
          record { two = h.two; start = h.start; end_pos = he },
          ap (λ m. slots_from r.start ((n + m - r.start) % n)) (sym back)
              ∙ ap (slots_from r.start)
                  (size_back r.start e h.two h.start he (λ q. ground (arith, back, q, f)))
              ∙ slots_from-suc ((n + e - r.start) % n) r.start h.start
              ∙ ap (λ m. slots_from r.start ((n + e - r.start) % n) ++ m ∷ [])
                  (end_back r.start e h.start he),
        )
  ]

  -- `empty` is true exactly when some slot is used.
  ring_empty-slots : (r : Ring) → IsRing n r → (ring_empty r ≡ true) ↔ (slots r ≢ [])
  unfolding ring_empty ring_size slots_from
  ring_empty-slots r h = elim (Bool-cases (r.start == r.end_pos)) [
    | inl e ↦
        let same : r.end_pos ≡ r.start = sym ((==_iff r.start r.end_pos).0 e) in
        (
          (λ t. λ _. ground (arith, t, e)),
          (λ ne.
              absurd
                (ne (ap (slots_from r.start) (none_left r.start r.end_pos h.two h.start same)))),
        )
    | inr f ↦ (
      (λ _. λ nil.
          let none : ring_size n r ≡ 0 =
            sym (length-slots_from r.start (ring_size n r)) ∙ ap length nil in
          absurd (
            omega (
              arith,
              none,
              size_front r.start r.end_pos h.two h.start h.end_pos (λ q. ground (arith, q, f)),
            ))),
      (λ _. rw f refl),
    )
  ]

  -- For positions inside of an array of at least two slots, on the list of the used slots:
  -- push_back and push_front give null exactly when all slots but one are used, and otherwise add
  -- one slot at their end of the list; pop_front and pop_back give null exactly when no slot is
  -- used, and otherwise remove the slot at theirs; the positions stay inside of the array; and
  -- `empty` answers true exactly when some slot is used.
  pub ring_lem :
      (r : Ring)
      → IsRing n r
      → (((push_back n r ≡ none) × (length (slots r) ≡ n - 1))
          ⊎ ((i : ℕ) × (r' : Ring) × (push_back n r ≡ some (i, r'))
              × IsRing n r'
              × (slots r' ≡ slots r ++ i ∷ [])))
        × (((pop_front n r ≡ none) × (slots r ≡ []))
            ⊎ ((i : ℕ) × (r' : Ring) × (pop_front n r ≡ some (i, r'))
                × IsRing n r'
                × (slots r ≡ i ∷ slots r')))
        × (((push_front n r ≡ none) × (length (slots r) ≡ n - 1))
            ⊎ ((i : ℕ) × (r' : Ring) × (push_front n r ≡ some (i, r'))
                × IsRing n r'
                × (slots r' ≡ i ∷ slots r)))
        × (((pop_back n r ≡ none) × (slots r ≡ []))
            ⊎ ((i : ℕ) × (r' : Ring) × (pop_back n r ≡ some (i, r'))
                × IsRing n r'
                × (slots r ≡ slots r' ++ i ∷ [])))
        × ((ring_empty r ≡ true) ↔ (slots r ≢ []))
  ring_lem r h = (
    push_back-slots r h,
    pop_front-slots r h,
    push_front-slots r h,
    pop_back-slots r h,
    ring_empty-slots r h,
  )
