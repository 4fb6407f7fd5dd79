-- ===== src/Timer/Moves.antt =====
-- What the operations on one timer do to the slots.
use atframe_utils.Base.{
  ℕ, suc, ◌≡◌, ◌≢◌, ◌⊎◌, inl, inr, refl, sym, subst, arith, false, List, [], ◌∷◌, All, ltb, ◌==◌,
  Bool-cases, if◌then◌else◌, ==_iff,
}
use atframe_utils.Timer.{
  calc_wheel_index, Timer, Wheel, put_slot, insert_timer, remove_first, fire, drain_slot,
}

pub list_cases :
    (ts : List Timer) → (ts ≡ []) ⊎ ((x : Timer) × (rest : List Timer) × (ts ≡ x ∷ rest))
list_cases [] = inl refl
list_cases (x ∷ rest) = inr (x, rest, refl)

pub drain_slot-nonempty :
    (fuel idx : ℕ) (w : Wheel) (x : Timer) (rest : List Timer)
    → w.timer_base idx ≡ x ∷ rest
    → drain_slot (suc fuel) idx w ≡ (
        if x.removed
        then drain_slot fuel idx (remove_first idx rest w)
        else (if ltb w.last_tick x.timeout
            then (if calc_wheel_index x.timeout w.last_tick == idx
                then w
                else drain_slot fuel idx (insert_timer x (remove_first idx rest w)))
            else drain_slot fuel idx (fire x (remove_first idx rest w))))
unfolding drain_slot
drain_slot-nonempty fuel idx w x rest e = rw (e, drain_slot) refl

pub put_slot-same :
    (base : ℕ → List Timer) (idx : ℕ) (ts : List Timer) → put_slot base idx ts idx ≡ ts
put_slot-same base idx ts = rw ((==_iff idx idx).1 refl) refl

pub put_slot-ne :
    (base : ℕ → List Timer) (i : ℕ) (ts : List Timer) (j : ℕ)
    → (j == i) ≡ false
    → put_slot base i ts j ≡ base j
put_slot-ne base i ts j n = rw n refl

pub fire-timer_base : (x : Timer) (w : Wheel) → (fire x w).timer_base ≡ w.timer_base
unfolding fire
fire-timer_base x w = elim (Bool-cases x.disabled) [ inl d ↦ rw d refl | inr d ↦ rw d refl ]

pub insert_timer-ne_slot :
    (x : Timer) (w : Wheel) (j : ℕ)
    → (calc_wheel_index x.timeout w.last_tick == j) ≡ false
    → (insert_timer x w).timer_base j ≡ w.timer_base j
unfolding insert_timer
insert_timer-ne_slot x w j n = put_slot-ne w.timer_base _ _ j (ground (arith, n))

-- A family of lists after the write of one slot.
pub put_slot-All :
    (P : ℕ → Timer → Type 0) (base : ℕ → List Timer) (i : ℕ) (ts : List Timer) (j : ℕ)
    → (j ≡ i → All (P i) ts)
    → (j ≢ i → All (P j) (base j))
    → All (P j) (put_slot base i ts j)
put_slot-All P base i ts j same ne = elim (Bool-cases (j == i)) [
  | inl e ↦ let q = (==_iff j i).0 e in rw e (subst (λ n. All (P n) ts) (sym q) (same q))
  | inr n ↦ rw n (ne (λ q. ground (arith, q, n)))
]
