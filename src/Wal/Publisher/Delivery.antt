-- ===== src/Wal/Publisher/Delivery.antt =====
-- What a broadcast sends, where every call of `send_logs` succeeds and leaves the publisher alone.
use atframe_utils.Base.{
  ℕ, ◌+◌, ◌≡◌, refl, ap, ap₂, sym, subst, ◌∙◌, Option, none, some, List, [], ◌++◌, append-nil, map,
  length, last?, Option-cases, inl, inr,
}
use atframe_utils.Wal.Types.{Object}
use atframe_utils.Wal.Keys.{IsAscending}
use atframe_utils.Wal.Publisher.{Publisher, PublisherVtable, set_broadcast_key_bound}
use atframe_utils.Wal.Object.Order.{last?-none}
use atframe_utils.Wal.Publisher.Broadcast.{
  pointers, logs_to_broadcast, broadcast_to_all, last_broadcast, move_bound, broadcast,
}
use atframe_utils.Wal.Publisher.Pending.{
  pending, logs_to_broadcast_lem, log_upper_bound_newest, last?-logs_to_broadcast,
}
use atframe_utils.Wal.Publisher.Sending.{
  Delivers, packets, sent_more, delivered, broadcast_to_all_lem, last_broadcast_lem,
}

module _ {L P C : Type 0} (vt : PublisherVtable L P C) (d : Delivers vt) (key : L → ℕ)
    (keyed : vt.object.get_log_key ≡ some key) where
  broadcast_lem :
      (param : C) (p : Publisher L P C)
      → let logs = logs_to_broadcast vt p in
        broadcast vt param p
        ≡ (length p.broadcast_hole_logs + length logs, move_bound vt logs (delivered logs p))
  unfolding broadcast
  broadcast_lem param p =
      let logs = logs_to_broadcast vt p in
      let all = pointers p.manager.subscribers in
      let removed = pointers p.gc_subscribers in
      let to_all = packets logs all ++ packets p.broadcast_hole_logs all in
      let to_removed = packets logs removed ++ packets p.broadcast_hole_logs removed in
      ap
        (λ (g : Option (L → ℕ)). elim g as (λ _. ℕ × Publisher L P C) [
          | none ↦ (0, p)
          | some _ ↦ ended logs (last_broadcast 3 vt logs param (broadcast_to_all vt logs param p))
        ])
        keyed
      ∙ ap (ended logs) (
          ap (last_broadcast 3 vt logs param) (broadcast_to_all_lem vt d logs param p)
          ∙ last_broadcast_lem vt d 2 logs param (sent_more to_all p))
    where
      ended : List L → Publisher L P C → ℕ × Publisher L P C
      ended logs q = (
        length q.broadcast_hole_logs + length logs,
        move_bound vt logs (record q { gc_subscribers = []; broadcast_hole_logs = [] }),
      )

  move_bound-some :
      (logs : List L) (newest : L) (q : Publisher L P C)
      → last? logs ≡ some newest
      → move_bound vt logs q ≡ set_broadcast_key_bound (key newest) q
  unfolding move_bound
  move_bound-some logs newest q e =
      ap₂
        (λ (o : Option L) (g : Option (L → ℕ)). elim o as (λ _. Publisher L P C) [
          | none ↦ q
          | some last ↦ elim g as (λ _. Publisher L P C) [
            | none ↦ q
            | some key' ↦ set_broadcast_key_bound (key' last) q
          ]
        ])
        e keyed

  -- After the bound has moved there is nothing left to send.
  nothing_left :
      (p q : Publisher L P C)
      → q.wal ≡ p.wal
      → q.broadcast_key_bound ≡ p.broadcast_key_bound
      → logs_to_broadcast vt (move_bound vt (logs_to_broadcast vt p) q) ≡ []
  unfolding move_bound logs_to_broadcast
  nothing_left p q same_wal same_bound = elim (Option-cases (last? (logs_to_broadcast vt p))) [
    | inl e ↦
        rw (move_bound, e)
          (ap₂
              (λ (wal : Object L P C) (bound : Option ℕ).
                logs_to_broadcast vt (record p { wal = wal; broadcast_key_bound = bound }))
              same_wal same_bound
            ∙ last?-none (logs_to_broadcast vt p) e)
    | inr (newest, e) ↦
        ap (logs_to_broadcast vt) (move_bound-some (logs_to_broadcast vt p) newest q e)
        ∙ log_upper_bound_newest vt key keyed q.wal newest (
            ap (λ (wal : Object L P C). last? wal.logs) same_wal
            ∙ last?-logs_to_broadcast vt key keyed p newest e)
  ]

  move_bound-keeps :
      {A : Type 0} (field : Publisher L P C → A) (logs : List L) (q : Publisher L P C)
      → ((k : ℕ) → field (set_broadcast_key_bound k q) ≡ field q)
      → field (move_bound vt logs q) ≡ field q
  unfolding move_bound
  move_bound-keeps field logs q h = elim (Option-cases (last? logs)) [
    | inl e ↦ rw (move_bound, e) refl
    | inr (newest, e) ↦ ap field (move_bound-some logs newest q e) ∙ h (key newest)
  ]

  -- Where the client takes all logs and the log is sorted, a broadcast sends the pending logs and the
  -- holes to all subscribers and to those just removed, and counts them. After it nothing is pending,
  -- and the log and the subscribers are as before.
  pub broadcast-pending :
      (param : C) (p : Publisher L P C)
      → IsAscending (map key p.wal.logs)
      → let logs = pending key p in
        let holes = p.broadcast_hole_logs in
        let all = pointers p.manager.subscribers in
        let removed = pointers p.gc_subscribers in
        let r = broadcast vt param p in
        (r.0 ≡ length holes + length logs)
        × (r.1.sent
            ≡ p.sent
              ++ (packets logs all ++ packets holes all)
              ++ (packets logs removed ++ packets holes removed))
        × (pending key r.1 ≡ [])
        × (r.1.broadcast_hole_logs ≡ [])
        × (r.1.gc_subscribers ≡ [])
        × (r.1.wal ≡ p.wal)
        × (r.1.manager ≡ p.manager)
  broadcast-pending param p asc =
      let logs = logs_to_broadcast vt p in
      let q = delivered logs p in
      rw (broadcast_lem param p) (
        ap (λ xs. length p.broadcast_hole_logs + length xs) same,
        move_bound-keeps (λ r. r.sent) logs q (λ _. refl) ∙ ap (λ xs. (delivered xs p).sent) same,
        sym (
              logs_to_broadcast_lem vt key keyed (move_bound vt logs q) (
                subst (λ (wal : Object L P C). IsAscending (map key wal.logs))
                  (sym (move_bound-keeps (λ r. r.wal) logs q (λ _. refl))) asc))
            ∙ nothing_left p q refl refl,
        move_bound-keeps (λ r. r.broadcast_hole_logs) logs q (λ _. refl),
        move_bound-keeps (λ r. r.gc_subscribers) logs q (λ _. refl),
        move_bound-keeps (λ r. r.wal) logs q (λ _. refl),
        move_bound-keeps (λ r. r.manager) logs q (λ _. refl),
      )
    where
      same : logs_to_broadcast vt p ≡ pending key p
      same = logs_to_broadcast_lem vt key keyed p asc

  -- With nothing to send to anyone, a broadcast does nothing.
  broadcast-idle :
      (param : C) (q : Publisher L P C)
      → logs_to_broadcast vt q ≡ []
      → q.broadcast_hole_logs ≡ []
      → q.gc_subscribers ≡ []
      → broadcast vt param q ≡ (0, q)
  unfolding move_bound
  broadcast-idle param q no_logs no_holes none_removed =
      broadcast_lem param q
      ∙ ap (λ logs. sending logs q.broadcast_hole_logs q.gc_subscribers) no_logs
      ∙ ap₂ (sending []) no_holes none_removed
      ∙ ap (λ sent. (0, record q { gc_subscribers = []; broadcast_hole_logs = []; sent = sent }))
          (append-nil (q.sent ++ []) ∙ append-nil q.sent)
      ∙ ap₂ (λ holes gc. (0, record q { broadcast_hole_logs = holes; gc_subscribers = gc }))
          (sym no_holes) (sym none_removed)
    where
      sending : List L → List L → List (ℕ × ℕ) → ℕ × Publisher L P C
      sending logs holes gc =
          let all = pointers q.manager.subscribers in
          (
            length holes + length logs,
            move_bound vt logs (record q {
              gc_subscribers = [];
              broadcast_hole_logs = [];
              sent =
                  q.sent
                  ++ (packets logs all ++ packets holes all)
                  ++ (packets logs (pointers gc) ++ packets holes (pointers gc));
            }),
          )

  -- Where the client takes all logs, a broadcast right after a broadcast does nothing: no log is sent
  -- twice.
  broadcast-broadcast :
      (param : C) (p : Publisher L P C)
      → let r = broadcast vt param p in broadcast vt param r.1 ≡ (0, r.1)
  broadcast-broadcast param p =
      let logs = logs_to_broadcast vt p in
      let q = delivered logs p in
      ap (λ (r : ℕ × Publisher L P C). broadcast vt param r.1) (broadcast_lem param p)
      ∙ broadcast-idle param (move_bound vt logs q) (nothing_left p q refl refl)
          (move_bound-keeps (λ r. r.broadcast_hole_logs) logs q (λ _. refl))
          (move_bound-keeps (λ r. r.gc_subscribers) logs q (λ _. refl))
      ∙ ap (λ (r : ℕ × Publisher L P C). (0, r.1)) (sym (broadcast_lem param p))
