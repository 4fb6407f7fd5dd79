-- ===== src/Wal/Object/Bounds.antt =====
-- The loops at the end of `emplace_back`: how many logs they leave, and which.
use atframe_utils.Base.{
  ℕ, zero, suc, ◌-◌, ◌<◌, ◌≤◌, ◌≡◌, refl, ap, ◌∙◌, sym, ltb→lt, ltb→le, List, [], ◌∷◌, map, arith,
  Bool-cases, inl, inr, length, ltb, if◌then◌else◌, drop, tail,
}
use atframe_utils.Wal.Types.{Configure, Object, Vtable}
use atframe_utils.Wal.Keys.{IsAscending}
use atframe_utils.Wal.Object.{note_removed, pop_front_internal}
use atframe_utils.Wal.Object.Push.{trim, auto_gc}

module _ {ℓ} {L : Type ℓ} where
  pub length-tail : (xs : List L) → length (tail xs) ≡ length xs - 1
  length-tail [] = refl
  length-tail (x ∷ xs) = omega arith

  pub drop_excess_none : (n : ℕ) (xs : List L) → length xs ≤ n → drop (length xs - n) xs ≡ xs
  drop_excess_none n xs h = ap (λ k. drop k xs) e
    where
      e : length xs - n ≡ 0
      e = omega arith

  pub drop_excess-tail :
      (n : ℕ) (xs : List L)
      → n < length xs
      → drop (length (tail xs) - n) (tail xs) ≡ drop (length xs - n) xs
  drop_excess-tail n [] h = refl
  drop_excess-tail n (x ∷ xs) h = ap (λ k. drop k (x ∷ xs)) e
    where
      e : suc (length xs - n) ≡ suc (length xs) - n
      e = omega arith

module _ {ℓ} {L P C : Type ℓ} (vt : Vtable L P C) where
  -- The fields that the removal of a log leaves alone.
  abbrev pub SameQueue : Object L P C → Object L P C → Type ℓ
  SameQueue o o' =
      (o'.pending_logs ≡ o.pending_logs)
      × (o'.global_ingore ≡ o.global_ingore)
      × (o'.private_data ≡ o.private_data)
      × (o'.in_log_action_callback ≡ o.in_log_action_callback)

  SameQueue-trans : (a b c : Object L P C) → SameQueue a b → SameQueue b c → SameQueue a c
  SameQueue-trans a b c p q = (q.0 ∙ p.0, q.1 ∙ p.1, q.2 ∙ p.2, q.3 ∙ p.3)

  pub pop_front_internal-logs :
      (o : Object L P C)
      → ((pop_front_internal vt o).logs ≡ tail o.logs) × SameQueue o (pop_front_internal vt o)
  unfolding pop_front_internal note_removed
  pop_front_internal-logs o = ground arith

  trim-logs :
      (fuel max_size : ℕ) (o : Object L P C)
      → length o.logs ≤ fuel
      → ((trim fuel vt max_size o).logs ≡ drop (length o.logs - max_size) o.logs)
        × SameQueue o (trim fuel vt max_size o)
  unfolding trim
  trim-logs zero max_size o h = ground (arith, drop_excess_none max_size o.logs)
  trim-logs (suc fuel) max_size o h = elim (Bool-cases (ltb max_size (length o.logs))) [
    | inl over ↦
        let lt = ltb→lt max_size (length o.logs) over in
        let popped = pop_front_internal-logs o in
        let fits : length (pop_front_internal vt o).logs ≤ fuel =
          omega (arith, length-tail o.logs, ap length popped.0) in
        let rest = trim-logs fuel max_size (pop_front_internal vt o) fits in
        let back : drop (length (pop_front_internal vt o).logs - max_size)
              (pop_front_internal vt o).logs
            ≡ drop (length o.logs - max_size) o.logs =
          rw (popped.0) (drop_excess-tail max_size o.logs lt) in
        rw (over, trim)
          (
            rest.0 ∙ back,
            SameQueue-trans o (pop_front_internal vt o)
                (trim fuel vt max_size (pop_front_internal vt o)) popped.1 rest.1,
          )
    | inr fits ↦
        rw (fits, trim)
          (
            sym (drop_excess_none max_size o.logs (ltb→le max_size (length o.logs) fits)),
            (refl, refl, refl, refl),
          )
  ]

  -- The removal that follows a push keeps the newest `max_log_size` logs, or all for a limit of 0.
  pub auto_gc-logs :
      (conf : Configure) (o : Object L P C)
      → ((auto_gc vt conf o).logs ≡ (
          if ltb 0 conf.max_log_size
          then drop (length o.logs - conf.max_log_size) o.logs
          else o.logs))
        × SameQueue o (auto_gc vt conf o)
  unfolding auto_gc
  auto_gc-logs conf o = elim (Bool-cases (ltb 0 conf.max_log_size)) [
    | inl limited ↦ rw limited (trim-logs (length o.logs) conf.max_log_size o (omega arith))
    | inr unlimited ↦ rw unlimited (refl, (refl, refl, refl, refl))
  ]

pub drop-IsAscending : (n : ℕ) (xs : List ℕ) → IsAscending xs → IsAscending (drop n xs)
drop-IsAscending zero xs h = h
drop-IsAscending (suc n) [] h = h
drop-IsAscending (suc n) (x ∷ xs) h = drop-IsAscending n xs h.1

pub map-drop {ℓ} :
    {L : Type ℓ} (f : L → ℕ) (n : ℕ) (xs : List L) → map f (drop n xs) ≡ drop n (map f xs)
map-drop f zero xs = refl
map-drop f (suc n) [] = refl
map-drop f (suc n) (x ∷ xs) = map-drop f n xs
