-- ===== src/Wal/Object/GcLaws.antt =====
-- `gc` and `remove_before` against descriptions without a loop.
use atframe_utils.Base.{
  ℕ, zero, suc, ◌+◌, ◌-◌, ◌≤◌, ◌≡◌, refl, ap, ◌∙◌, sym, true, false, not, ◌||◌, Option, none, some,
  List, [], ◌∷◌, arith, length, if◌then◌else◌, ltb, ◌==◌, last?, drop, tail, min, Bool-cases,
  Option-cases, inl, inr, ltb→le, ltb→lt,
}
use atframe_utils.Wal.Types.{
  ResultCode, ok, callback_error, Meta, MetaResult, success, error, nothing, Configure, Object,
  Vtable,
}
use atframe_utils.Wal.Object.{pop_front_internal}
use atframe_utils.Wal.Object.Gc.{
  GcSettings, gc_settings, may_remove, gc_removes, gc_loop, gc, remove_before_loop, remove_before,
}
use atframe_utils.Wal.Object.Bounds.{
  pop_front_internal-logs, length-tail, drop_excess_none, drop_excess-tail,
}

suc-eq-zero : (n : ℕ) → (suc n == 0) ≡ false
suc-eq-zero n = ground arith

suc-sub-one : (n : ℕ) → suc n - 1 ≡ n
suc-sub-one n = omega arith

drop-tail {ℓ} : {A : Type ℓ} (n : ℕ) (xs : List A) → drop n (tail xs) ≡ drop (suc n) xs
drop-tail zero [] = refl
drop-tail (suc n) [] = refl
drop-tail n (x ∷ xs) = refl

module _ {ℓ} {L : Type ℓ} where
  -- What `remove_before` leaves, by the newest log alone.
  unfoldable pub removed_before : (L → MetaResult) → ℕ → ℕ → List L → ResultCode × List L
  removed_before get_meta now max_count logs =
      if max_count == 0 then (ok, logs) else elim (last? logs) [
        | none ↦ (ok, logs)
        | some newest ↦ elim (get_meta newest) [
          | success m ↦ if ltb m.timepoint now then (ok, drop max_count logs) else (ok, logs)
          | error e ↦ (e, logs)
          | nothing ↦ (callback_error, logs)
        ]
      ]

  length-zero : (xs : List L) → length xs ≤ 0 → xs ≡ []
  length-zero [] h = refl
  length-zero (x ∷ xs) h = absurd (omega arith)

  removed_before_nil :
      (get_meta : L → MetaResult) (now left : ℕ) → removed_before get_meta now left [] ≡ (ok, [])
  unfolding removed_before
  removed_before_nil get_meta now left = ground arith

  removed_before-step :
      (get_meta : L → MetaResult) (now left : ℕ) (xs : List L) {newest : L} {m : Meta}
      → last? xs ≡ some newest
      → get_meta newest ≡ success m
      → ltb m.timepoint now ≡ true
      → removed_before get_meta now left (tail xs) ≡ (ok, drop (suc left) xs)
  unfolding removed_before
  removed_before-step get_meta now left [] l g t = absurd (ground arith)
  removed_before-step get_meta now left (x ∷ []) l g t =
      removed_before_nil get_meta now left ∙ ap (λ r. (ok, r)) (sym (drop-nil left))
    where
      drop-nil : (n : ℕ) → drop {A = L} n [] ≡ []
      drop-nil zero = refl
      drop-nil (suc n) = refl
  removed_before-step get_meta now zero (x ∷ y ∷ ys) l g t = refl
  removed_before-step get_meta now (suc left) (x ∷ y ∷ ys) l g t =
      rw (suc-eq-zero left, l, removed_before, g, t)

module _ {ℓ} {L P C : Type ℓ} (vt : Vtable L P C) where
  module _ (s : GcSettings) (now : ℕ) (hold : Option ℕ) where
    -- How many of the oldest logs may go on their own account.
    unfoldable pub removable : List L → ℕ
    removable [] = 0
    removable (x ∷ xs) = if may_remove vt s now hold x then suc (removable xs) else 0

    -- How many logs `gc` removes: those over the limit, then those that may go, but never below
    -- the size from which it works, and at most `left`.
    unfoldable pub gc_count : ℕ → List L → ℕ
    gc_count left xs =
        let over = length xs - s.max_size in
        min left (min (length xs - s.gc_size) (over + removable (drop over xs)))

    gc_count_stop :
        (left : ℕ) (xs : List L)
        → (left == 0 || not (gc_removes vt s now hold xs)) ≡ true
        → gc_count left xs ≡ 0
    unfolding gc_count gc_removes removable
    gc_count_stop left [] h = omega arith
    gc_count_stop left (x ∷ xs) h = elim (Bool-cases (ltb s.max_size (suc (length xs)))) [
      | inl over ↦ ground arith
      | inr fits ↦
          rw (drop_excess_none s.max_size (x ∷ xs) (ltb→le s.max_size (suc (length xs)) fits))
            (ground arith)
    ]

    gc_count_go :
        (left : ℕ) (xs : List L)
        → (left == 0 || not (gc_removes vt s now hold xs)) ≡ false
        → gc_count left xs ≡ suc (gc_count (left - 1) (tail xs))
    unfolding gc_count gc_removes removable
    gc_count_go left [] h = absurd (ground arith)
    gc_count_go left (x ∷ xs) h = elim (Bool-cases (ltb s.max_size (suc (length xs)))) [
      | inl over ↦
          rw (← drop_excess-tail s.max_size (x ∷ xs) (ltb→lt s.max_size (suc (length xs)) over))
            (ground arith)
      | inr fits ↦
          let le = ltb→le s.max_size (suc (length xs)) fits in
          rw (drop_excess_none s.max_size (x ∷ xs) le, drop_excess_none s.max_size xs (omega arith))
            (ground arith)
    ]

    gc_loop_lem :
        (fuel left : ℕ) (o : Object L P C)
        → length o.logs ≤ fuel
        → let (n, o') = gc_loop fuel vt s now hold left o in
          (n ≡ gc_count left o.logs) × (o'.logs ≡ drop n o.logs)
    unfolding gc_loop gc_count
    gc_loop_lem zero left o h = (omega arith, refl)
    gc_loop_lem (suc fuel) left o h =
        elim (Bool-cases (left == 0 || not (gc_removes vt s now hold o.logs))) [
          | inl stop ↦ rw stop (sym (gc_count_stop left o.logs stop), refl)
          | inr go ↦
              let popped = (pop_front_internal-logs vt o).0 in
              let ih =
                gc_loop_lem fuel (left - 1) (pop_front_internal vt o)
                  (rw popped (omega (arith, length-tail o.logs))) in
              rw go (
                ap suc (ih.0 ∙ ap (gc_count (left - 1)) popped) ∙ sym (gc_count_go left o.logs go),
                ih.1
                    ∙ ap (drop (gc_loop fuel vt s now hold (left - 1) (pop_front_internal vt o)).0)
                        popped
                    ∙ drop-tail _ o.logs,
              )
        ]

  -- `gc` removes the oldest logs, and as many as `gc_count` says of the settings in force: those
  -- that exceed the size limit, whatever key is held; then, up to the first other one, those
  -- without readable meta data, whatever key is held, and those that have expired and whose key is
  -- not above the held one; within `max_count`, and always so that `gc_log_size` logs stay. It
  -- returns their number.
  pub gc_lem :
      (conf : Configure) (now : ℕ) (hold : Option ℕ) (max_count : ℕ) (o : Object L P C)
      → let (n, o') = gc vt conf now hold max_count o in
        (n ≡ gc_count (gc_settings conf) now hold max_count o.logs) × (o'.logs ≡ drop n o.logs)
  unfolding gc
  gc_lem conf now hold max_count o =
      gc_loop_lem (gc_settings conf) now hold (length o.logs) max_count o (omega arith)

  -- One round of `remove_before`, given what the rounds after it do.
  remove_before_round :
      (get_meta : L → MetaResult) (now fuel left : ℕ) (o : Object L P C) {newest : L}
      → last? o.logs ≡ some newest
      → let (code, o') = remove_before_loop fuel vt get_meta now left (pop_front_internal vt o) in
        ◌≡◌ {A = ResultCode × List L}
          (code, o'.logs)
          (removed_before get_meta now left (tail o.logs))
        → (r : MetaResult) → get_meta newest ≡ r
        → let (code, o') = remove_before_loop (suc fuel) vt get_meta now (suc left) o in
          ◌≡◌ {A = ResultCode × List L}
            (code, o'.logs)
            (removed_before get_meta now (suc left) o.logs)
  unfolding remove_before_loop removed_before
  remove_before_round get_meta now fuel left o e ih (error c) g =
      rw (suc-eq-zero left, e, removed_before, remove_before_loop, g)
  remove_before_round get_meta now fuel left o e ih nothing g =
      rw (suc-eq-zero left, e, removed_before, remove_before_loop, g)
  remove_before_round get_meta now fuel left o e ih (success m) g =
      elim (Bool-cases (ltb m.timepoint now)) [
        | inr late ↦ rw (suc-eq-zero left, e, removed_before, remove_before_loop, g, late)
        | inl early ↦
            rw (suc-eq-zero left, e, removed_before, remove_before_loop, g, early)
              (rw (suc-sub-one left) (ih ∙ removed_before-step get_meta now left o.logs e g early))
      ]

  remove_before_loop_lem :
      (get_meta : L → MetaResult) (now fuel left : ℕ) (o : Object L P C)
      → length o.logs ≤ fuel
      → let (code, o') = remove_before_loop fuel vt get_meta now left o in
        ◌≡◌ {A = ResultCode × List L} (code, o'.logs) (removed_before get_meta now left o.logs)
  unfolding remove_before_loop
  remove_before_loop_lem get_meta now zero left o h =
      let none' = length-zero o.logs h in
      ap (λ r. (ok, r)) none'
      ∙ sym (ap (removed_before get_meta now left) none' ∙ removed_before_nil get_meta now left)
  remove_before_loop_lem get_meta now (suc fuel) zero o h = unfold removed_before in refl
  remove_before_loop_lem get_meta now (suc fuel) (suc left) o h =
      elim (Option-cases (last? o.logs)) [
        | inl e ↦
            unfold removed_before in
            rw (suc-eq-zero left, e, removed_before, remove_before_loop) refl
        | inr (newest, e) ↦
            let popped = (pop_front_internal-logs vt o).0 in
            let ih =
              remove_before_loop_lem get_meta now fuel left (pop_front_internal vt o)
                (rw popped (omega (arith, length-tail o.logs))) in
            remove_before_round get_meta now fuel left o e
              (ih ∙ ap (removed_before get_meta now left) popped) (get_meta newest) refl
      ]

  -- `remove_before` goes by the newest log: when that one is older than `now`, the `max_count`
  -- oldest logs go, and otherwise none, however old they are.
  pub remove_before_lem :
      (get_meta : L → MetaResult) (now max_count : ℕ) (o : Object L P C)
      → vt.get_meta ≡ some get_meta
      → let (code, o') = remove_before vt now max_count o in
        ◌≡◌ {A = ResultCode × List L} (code, o'.logs) (removed_before get_meta now max_count o.logs)
  unfolding remove_before
  remove_before_lem get_meta now max_count o e =
      rw (e, remove_before)
        (remove_before_loop_lem get_meta now (length o.logs) max_count o (omega arith))
