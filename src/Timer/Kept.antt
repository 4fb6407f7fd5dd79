-- ===== src/Timer/Kept.antt =====
-- A timer in the wheel is in it or called at last.
use atframe_utils.Base.{
  if-split, ℕ, zero, suc, ◌+◌, ◌≡◌, ◌⊎◌, ◌∙◌, ap, inl, inr, sym, subst, arith, true, false, List,
  [], ◌∷◌, ◌++◌, All, length, ltb, ◌==◌, ==_iff, Bool-cases,
}
use atframe_utils.Timer.{
  Timer, Fired, Wheel, calc_wheel_index, insert_timer, remove_first, fire, drain_slot, drain_slots,
  collect_expired_timers, tick_from,
}
use atframe_utils.Timer.Moves.{
  list_cases, drain_slot-nonempty, put_slot-same, put_slot-ne, fire-timer_base,
}

abbrev pub Has : {A : Type 0} → A → List A → Type 0
Has x [] = ⊥
Has x (y ∷ ys) = (x ≡ y) ⊎ Has x ys

Has-append_left : {A : Type 0} (x : A) (xs ys : List A) → Has x xs → Has x (xs ++ ys)
Has-append_left x [] ys h = absurd h
Has-append_left x (y ∷ xs) ys (inl e) = inl e
Has-append_left x (y ∷ xs) ys (inr h) = inr (Has-append_left x xs ys h)

Has-append_right : {A : Type 0} (x y : A) (xs : List A) → x ≡ y → Has x (xs ++ y ∷ [])
Has-append_right x y [] e = inl e
Has-append_right x y (z ∷ xs) e = inr (Has-append_right x y xs e)

pub All-at : {A : Type 0} (P : A → Type 0) (x : A) (xs : List A) → All P xs → Has x xs → P x
All-at P x [] all h = absurd h
All-at P x (y ∷ ys) all (inl e) = subst P (sym e) all.0
All-at P x (y ∷ ys) all (inr h) = All-at P x ys all.1 h

-- The record of a call of a timer's callback.
abbrev pub call_at : ℕ → Timer → Fired
call_at n x = record { tick_time = n; timer = record x { removed = true } }

module _ (x : Timer) (kept : x.removed ≡ false) (enabled : x.disabled ≡ false) where
  -- The timer is in a slot, or its callback was called.
  abbrev pub IsHeld : Wheel → Type 0
  IsHeld w = ((j : ℕ) × Has x (w.timer_base j)) ⊎ ((n : ℕ) × Has (call_at n x) w.fired)

  first_out :
      (idx : ℕ) (y : Timer) (rest : List Timer) (w : Wheel)
      → w.timer_base idx ≡ y ∷ rest
      → IsHeld w
      → (x ≡ y) ⊎ IsHeld (remove_first idx rest w)
  first_out idx y rest w e (inr called) = inr (inr called)
  first_out idx y rest w e (inl (j, h)) = elim (Bool-cases (j == idx)) [
    | inl same ↦ by_place (subst (Has x) (ap w.timer_base ((==_iff j idx).0 same) ∙ e) h)
    | inr other ↦ inr (inl (j, subst (Has x) (sym (put_slot-ne w.timer_base idx rest j other)) h))
  ]
    where
      by_place : Has x (y ∷ rest) → (x ≡ y) ⊎ IsHeld (remove_first idx rest w)
      by_place (inl q) = inl q
      by_place (inr h) =
          inr (inl (idx, subst (Has x) (sym (put_slot-same w.timer_base idx rest)) h))

  pub insert_timer-IsHeld : (y : Timer) (w : Wheel) → (x ≡ y) ⊎ IsHeld w → IsHeld (insert_timer y w)
  unfolding insert_timer
  insert_timer-IsHeld y w (inl e) =
      let i = calc_wheel_index y.timeout w.last_tick in
      let q : x ≡ record x { removed = false } = ap (λ b. record x { removed = b }) kept in
      inl (
        i,
        subst (Has x) (sym (put_slot-same w.timer_base i _)) (
            Has-append_right x (record y { removed = false }) (w.timer_base i)
              (q ∙ ap (λ (z : Timer). record z { removed = false }) e)),
      )
  insert_timer-IsHeld y w (inr (inr called)) = inr called
  insert_timer-IsHeld y w (inr (inl (j, h))) = inl (
    j,
    if-split (Has x) (j == calc_wheel_index y.timeout w.last_tick)
        (λ same. Has-append_left x _ _ (
          subst (λ n. Has x (w.timer_base n))
            ((==_iff j (calc_wheel_index y.timeout w.last_tick)).0 same) h))
        (λ other. h),
  )

  fire-IsHeld : (y : Timer) (w : Wheel) → (x ≡ y) ⊎ IsHeld w → IsHeld (fire y w)
  unfolding fire
  fire-IsHeld y w (inl e) =
      if-split IsHeld y.disabled (λ d. ground (arith, d, enabled, ap (λ z. z.disabled) e))
        (λ d. inr (
          w.last_tick,
          Has-append_right (call_at w.last_tick x) (call_at w.last_tick y) w.fired
              (ap (call_at w.last_tick) e),
        ))
  fire-IsHeld y w (inr (inr (n, called))) = inr (
    n,
    if-split (λ (v : Wheel). Has (call_at n x) v.fired) y.disabled (λ d. called)
        (λ d. Has-append_left _ _ _ called),
  )
  fire-IsHeld y w (inr (inl (j, h))) =
      inl (j, subst (λ base. Has x (base j)) (sym (fire-timer_base y w)) h)

  drain_slot-IsHeld : (fuel idx : ℕ) (w : Wheel) → IsHeld w → IsHeld (drain_slot fuel idx w)
  unfolding drain_slot
  drain_slot-IsHeld zero idx w h = h
  drain_slot-IsHeld (suc fuel) idx w h = elim (list_cases (w.timer_base idx)) [
    | inl e ↦ rw (e, drain_slot) h
    | inr (y, rest, e) ↦
        let w' = remove_first idx rest w in
        let out = first_out idx y rest w e h in
        rw (drain_slot-nonempty fuel idx w y rest e) (
          if-split IsHeld y.removed
            (λ removed. drain_slot-IsHeld fuel idx w' (elim out [
              | inl q ↦ ground (arith, removed, kept, ap (λ z. z.removed) q)
              | inr h' ↦ h'
            ]))
            (λ _.
              if-split IsHeld (ltb w.last_tick y.timeout)
                (λ _.
                  if-split IsHeld (calc_wheel_index y.timeout w.last_tick == idx) (λ _. h)
                    (λ _.
                      drain_slot-IsHeld fuel idx (insert_timer y w')
                        (insert_timer-IsHeld y w' out)))
                (λ _. drain_slot-IsHeld fuel idx (fire y w') (fire-IsHeld y w' out))))
  ]

  drain_slots-IsHeld : (slots : List ℕ) (w : Wheel) → IsHeld w → IsHeld (drain_slots slots w)
  unfolding drain_slots
  drain_slots-IsHeld [] w h = h
  drain_slots-IsHeld (idx ∷ slots) w h =
      let w' = drain_slots slots w in
      drain_slot-IsHeld (length (w'.timer_base idx)) idx w' (drain_slots-IsHeld slots w h)

  pub tick_from-IsHeld : (n : ℕ) (w : Wheel) → IsHeld w → IsHeld (tick_from n w)
  unfolding tick_from
  tick_from-IsHeld zero w h = h
  tick_from-IsHeld (suc n) w h =
      let w' = record w { last_tick = w.last_tick + 1 } in
      let slots = collect_expired_timers w'.last_tick w'.timer_base in
      tick_from-IsHeld n (drain_slots slots w') (drain_slots-IsHeld slots w' h)
