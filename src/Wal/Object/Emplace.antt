-- ===== src/Wal/Object/Emplace.antt =====
-- `emplace_back` as a whole: it ends, and what holds of the log afterwards.
use atframe_utils.Base.{
  ℕ, zero, suc, ◌-◌, ◌<◌, ◌≤◌, ◌≡◌, ◌⊎◌, refl, ap, ◌∙◌, sym, subst, Bool, true, false, Option, none,
  some, List, [], ◌∷◌, ◌++◌, arith, Bool-cases, inl, inr, length, if◌then◌else◌, All-append, drop,
  tail, ltb, length-drop, ltb→le,
}
use atframe_utils.Wal.Types.{ResultCode, Configure, Object, Vtable}
use atframe_utils.Wal.Laws.{queue_weight, StartsFrom, Settles}
use atframe_utils.Wal.Object.Ignoring.{IgnoresBelow, push_back_internal-ignore}
use atframe_utils.Wal.Object.Push.{
  push_back_internal, skips, ignores, drain, auto_gc, emplace_direct, emplace_back,
}
use atframe_utils.Wal.Object.Bounds.{auto_gc-logs}
use atframe_utils.Wal.Object.Settle.{
  Pushed, nothing-Pushed, push_back_internal-Pushed, queue_weight-append,
}

-- An object between two calls: no callback runs, no log waits, and the logs have an invariant.
pub record IsReady {ℓ κ} {L P C : Type ℓ} (floor : ℕ) (Inv : List L → Type κ) (o : Object L P C)
    : Type (ℓ ⊔ κ) where
  pub idle : o.in_log_action_callback ≡ false
  pub settled : o.pending_logs ≡ []
  pub invariant : Inv o.logs
  pub ignore_below : IgnoresBelow floor o.global_ingore

module _ {ℓ} {L P C : Type ℓ} (vt : Vtable L P C) (conf : Configure) where
  drain-step :
      (fuel : ℕ) (o : Object L P C) (l : L) (c : C) (rest : List (L × C))
      → o.pending_logs ≡ (l, c) ∷ rest
      → skips vt o l ≡ false
      → drain (suc fuel) vt conf o ≡ (
          let o' = (push_back_internal vt conf o l c).1 in
          drain fuel vt conf (record o' { pending_logs = tail o'.pending_logs }))
  unfolding drain
  drain-step fuel o l c rest e s = ground arith

  pub emplace_back_run :
      (fuel : ℕ) (o : Object L P C) (l : L) (c : C) (o2 : Object L P C)
      → o.pending_logs ≡ []
      → o.in_log_action_callback ≡ false
      → let (code, o1) = emplace_direct vt conf (record o { in_log_action_callback = true }) l c in
        drain fuel vt conf o1 ≡ some o2
        → emplace_back fuel vt conf o (some l) c
          ≡ some (code, record (auto_gc vt conf o2) { in_log_action_callback = false })
  unfolding emplace_back
  emplace_back_run fuel o l c o2 e i d = ground arith

  -- A waiting log below the ignore key is never taken off the queue: no fuel ends the loop.
  pub drain_stuck :
      (fuel : ℕ) (o : Object L P C) (l : L) (c : C) (rest : List (L × C))
      → o.pending_logs ≡ (l, c) ∷ rest
      → skips vt o l ≡ true
      → drain fuel vt conf o ≡ none
  unfolding drain
  drain_stuck zero o l c rest e s = refl
  drain_stuck (suc fuel) o l c rest e s = ground (arith, drain_stuck fuel o l c rest e s)

  -- If the push of a log leaves one at the head of the queue whose key is below the ignore key,
  -- `emplace_back` does not return, whatever the fuel.
  pub emplace_back_diverges :
      (fuel : ℕ) (o : Object L P C) (l l' : L) (c c' : C) (rest : List (L × C))
      → o.pending_logs ≡ []
      → o.in_log_action_callback ≡ false
      → let o1 = (emplace_direct vt conf (record o { in_log_action_callback = true }) l c).1 in
        o1.pending_logs ≡ (l', c') ∷ rest
        → skips vt o1 l' ≡ true
        → emplace_back fuel vt conf o (some l) c ≡ none
  unfolding emplace_back
  emplace_back_diverges fuel o l l' c c' rest e i q s =
      let o1 = (emplace_direct vt conf (record o { in_log_action_callback = true }) l c).1 in
      ground (arith, drain_stuck fuel o1 l' c' rest q s)

  pub drain_end :
      (fuel : ℕ) (o : Object L P C) → o.pending_logs ≡ [] → drain (suc fuel) vt conf o ≡ some o
  unfolding drain
  drain_end fuel o e = ground arith

  module _ {κ} (floor : ℕ) (key weight : L → ℕ) (keyed : vt.get_log_key ≡ some key)
      (settles : Settles vt floor key weight) (Inv : List L → Type κ)
      (push_keeps : (o : Object L P C) (l : L) (c : C)
        → Inv o.logs
        → Inv (push_back_internal vt conf o l c).1.logs)
      (drop_keeps : (n : ℕ) (xs : List L) → Inv xs → Inv (drop n xs)) where
    not_skipped :
        (o : Object L P C) (l : L)
        → IgnoresBelow floor o.global_ingore
        → floor ≤ key l
        → skips vt o l ≡ false
    unfolding skips
    not_skipped o l i h = rw (keyed, skips) (by_key o.global_ingore i)
      where
        by_key :
            (g : Option ℕ)
            → IgnoresBelow floor g
            → (elim g as (λ _. Bool) [ none ↦ false | some g ↦ ltb (key l) g ]) ≡ false
        by_key none i = refl
        by_key (some g) i = ground arith

    -- The loop over the queue empties it with fuel above its weight, and keeps the invariant.
    drain_total :
        (fuel : ℕ) (o : Object L P C) (q : List (L × C))
        → o.pending_logs ≡ q
        → queue_weight weight q < fuel
        → StartsFrom floor key q
        → IgnoresBelow floor o.global_ingore
        → Inv o.logs
        → (o' : Object L P C) × (drain fuel vt conf o ≡ some o')
          × (o'.pending_logs ≡ [])
          × Inv o'.logs
          × IgnoresBelow floor o'.global_ingore
    drain_total zero o q e light from i asc = absurd (omega arith)
    drain_total (suc fuel) o [] e light from i asc = (o, drain_end fuel o e, e, asc, i)
    drain_total (suc fuel) o ((l, c) ∷ rest) e light from i asc =
        let o1 = (push_back_internal vt conf o l c).1 in
        let p = push_back_internal-Pushed floor key weight vt settles conf o l c in
        let next = record o1 { pending_logs = tail o1.pending_logs } in
        let queue : tail o1.pending_logs ≡ rest ++ p.queue =
          ap tail (p.appended ∙ ap (λ t. t ++ p.queue) e) in
        let (o', done, empty, sorted, below) =
          drain_total fuel next (rest ++ p.queue) queue
            (omega (arith, queue_weight-append weight rest p.queue, p.light, light))
            (All-append (λ e. floor ≤ key e.0) rest p.queue from.1 p.from_floor)
            (subst (IgnoresBelow floor) (sym (push_back_internal-ignore vt conf o l c)) i)
            (push_keeps o l c asc) in
        (o', drain-step fuel o l c rest e (not_skipped o l i from.0) ∙ done, empty, sorted, below)

    auto_gc-IsReady :
        (o : Object L P C)
        → o.pending_logs ≡ []
        → Inv o.logs
        → IgnoresBelow floor o.global_ingore
        → IsReady floor Inv (record (auto_gc vt conf o) { in_log_action_callback = false })
    auto_gc-IsReady o e asc i = record {
      idle = refl;
      settled = (auto_gc-logs vt conf o).1.0 ∙ e;
      invariant = rw ((auto_gc-logs vt conf o).0) (by_limit (ltb 0 conf.max_log_size));
      ignore_below = subst (IgnoresBelow floor) (sym (auto_gc-logs vt conf o).1.1) i;
    }
      where
        by_limit :
            (b : Bool) → Inv (if b then drop (length o.logs - conf.max_log_size) o.logs else o.logs)
        by_limit true = drop_keeps (length o.logs - conf.max_log_size) o.logs asc
        by_limit false = asc

    auto_gc-bounded :
        (o : Object L P C)
        → (conf.max_log_size ≡ 0) ⊎ (length (auto_gc vt conf o).logs ≤ conf.max_log_size)
    auto_gc-bounded o = elim (Bool-cases (ltb 0 conf.max_log_size)) [
      | inl limited ↦ inr (
          rw ((auto_gc-logs vt conf o).0, limited)
            (omega (arith, length-drop (length o.logs - conf.max_log_size) o.logs)))
      | inr unlimited ↦ inl (omega (arith, ltb→le 0 conf.max_log_size unlimited))
    ]

    emplace_direct_lem :
        (o : Object L P C) (l : L) (c : C)
        → let (code, o') = emplace_direct vt conf o l c in
          Pushed floor key weight (weight l) o o'
          × (Inv o.logs → Inv o'.logs)
          × (o'.global_ingore ≡ o.global_ingore)
    unfolding emplace_direct
    emplace_direct_lem o l c = elim (Bool-cases (ignores vt o l)) [
      | inl yes' ↦
          rw (yes')
            (nothing-Pushed floor key weight (weight l) o (settles.positive l), (λ a. a), refl)
      | inr no' ↦ rw (no') (
        push_back_internal-Pushed floor key weight vt settles conf o l c,
        push_keeps o l c,
        push_back_internal-ignore vt conf o l c,
      )
    ]

    -- With callbacks that settle, and fuel from the weight of the log on, `emplace_back` returns. The
    -- object is then ready again, and it holds at most `max_log_size` logs where that limit is set.
    pub emplace_back-IsReady :
        (fuel : ℕ) (o : Object L P C) (l : L) (c : C)
        → IsReady floor Inv o
        → weight l ≤ fuel
        → (code : ResultCode) × (o' : Object L P C) × (emplace_back fuel vt conf o (some l) c
            ≡ some (code, o'))
          × IsReady floor Inv o'
          × ((conf.max_log_size ≡ 0) ⊎ (length o'.logs ≤ conf.max_log_size))
    emplace_back-IsReady fuel o l c ready enough =
        let start = record o { in_log_action_callback = true } in
        let (code, o1) = emplace_direct vt conf start l c in
        let (pushed, sorted, same) = emplace_direct_lem start l c in
        let queue : o1.pending_logs ≡ pushed.queue =
          pushed.appended ∙ ap (λ t. t ++ pushed.queue) ready.settled in
        let (o2, done, empty, asc, below) =
          drain_total fuel o1 pushed.queue queue (omega (arith, pushed.light)) pushed.from_floor
            (subst (IgnoresBelow floor) (sym same) ready.ignore_below) (sorted ready.invariant) in
        (
          code,
          record (auto_gc vt conf o2) { in_log_action_callback = false },
          emplace_back_run fuel o l c o2 ready.settled ready.idle done,
          auto_gc-IsReady o2 empty asc below,
          auto_gc-bounded o2,
        )
