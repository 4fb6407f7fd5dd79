-- ===== src/Wal/Object/Settle.antt =====
-- What `pusk_back_internal` adds to the queue when the callbacks settle.
use atframe_utils.Base.{
  ℕ, ◌+◌, ◌<◌, ◌≤◌, ◌≡◌, refl, ◌∙◌, sym, subst, not, ◌&&◌, Option, none, some, List, [], ◌∷◌, ◌++◌,
  arith, Option-cases, Bool-cases, inl, inr, All-append, append-nil, append_assoc, last?, take,
  drop, ltb,
}
use atframe_utils.Wal.Types.{
  ResultCode, MetaResult, success, error, nothing, callback_error, action_not_set, Configure,
  Object, Reply, Delegate, Vtable,
}
use atframe_utils.Wal.Laws.{queue_weight, StartsFrom, DelegateSettles, Settles}
use atframe_utils.Wal.Object.{
  is_ok, settle, hash_fns, lower_bound, redo_log, run_delegate, run_action, select_delegate,
}
use atframe_utils.Wal.Object.Frame.{hash_fns-set}
use atframe_utils.Wal.Object.Push.{
  last_hash, rehash, add_log, insert_between, insert_at, push_back_internal_uncheck,
  push_back_internal,
}

pub queue_weight-append {ℓ} :
    {L C : Type ℓ} (weight : L → ℕ) (p q : List (L × C))
    → queue_weight weight (p ++ q) ≡ queue_weight weight p + queue_weight weight q
queue_weight-append weight [] q = omega arith
queue_weight-append weight (e ∷ p) q = omega (arith, queue_weight-append weight p q)

-- What stands behind the old queue: logs that weigh less than `n`, with keys from `floor` on.
pub record Pushed {ℓ} {L P C : Type ℓ} (floor : ℕ) (key weight : L → ℕ) (n : ℕ)
    (o o' : Object L P C) : Type ℓ where
  pub queue : List (L × C)
  pub appended : o'.pending_logs ≡ o.pending_logs ++ queue
  pub light : queue_weight weight queue < n
  pub from_floor : StartsFrom floor key queue

module _ {ℓ} {L P C : Type ℓ} (floor : ℕ) (key weight : L → ℕ) where
  pub nothing-Pushed : (n : ℕ) (o : Object L P C) → 0 < n → Pushed floor key weight n o o
  nothing-Pushed n o h = record {
    queue = [];
    appended = sym (append-nil o.pending_logs);
    light = h;
    from_floor = tt;
  }

  -- First what a reply leaves, then more.
  settle-Pushed :
      (m n : ℕ) (o o' : Object L P C) (r : Reply L P C)
      → StartsFrom floor key r.pushed
      → queue_weight weight r.pushed + m ≤ n
      → Pushed floor key weight m (settle o r) o'
      → Pushed floor key weight n o o'
  settle-Pushed m n o o' r from small more = record {
    queue = r.pushed ++ more.queue;
    appended = more.appended ∙ append_assoc o.pending_logs r.pushed more.queue;
    light = omega (arith, queue_weight-append weight r.pushed more.queue, more.light);
    from_floor = All-append (λ e. floor ≤ key e.0) r.pushed more.queue from more.from_floor;
  }

  run_action-Pushed :
      (d : Delegate L P C) (code : ResultCode) (o : Object L P C) (l : L) (c : C)
      → DelegateSettles floor key weight d
      → 0 < weight l
      → Pushed floor key weight (weight l) o (run_action d.action code o l c).2
  unfolding run_action
  run_action-Pushed d code o l c s pos = elim (Option-cases d.action) [
    | inl e ↦ rw (e, run_action) (nothing-Pushed (weight l) o pos)
    | inr (act, e) ↦
        let r = act o l c in
        rw (e, run_action)
          (settle-Pushed 1 (weight l) o (settle o r) r (s.action_from act o l c e)
            (omega (arith, s.action_weight act o l c e))
            (nothing-Pushed 1 (settle o r) (omega arith)))
  ]

  run_delegate-Pushed :
      (d : Delegate L P C) (o : Object L P C) (l : L) (c : C)
      → DelegateSettles floor key weight d
      → ((l : L) → 0 < weight l)
      → Pushed floor key weight (weight l) o (run_delegate d o l c).2
  unfolding run_delegate
  run_delegate-Pushed d o l c s pos = elim (Option-cases d.patch) [
    | inl e ↦ rw (e, run_delegate) (run_action-Pushed d action_not_set o l c s (pos l))
    | inr (p, e) ↦
        let r = p o l c in
        let light = s.patch_weight p o l c e in
        let from = s.patch_from p o l c e in
        elim (Bool-cases (is_ok r.code)) [
          | inl done ↦
              rw (e, run_delegate, done)
                (settle-Pushed (weight r.log) (weight l) o
                  (run_action d.action r.code (settle o r) r.log c).2 r from light
                  (run_action-Pushed d r.code (settle o r) r.log c s (pos r.log)))
          | inr failed ↦
              rw (e, run_delegate, failed)
                (settle-Pushed 1 (weight l) o (settle o r) r from (omega (arith, pos r.log, light))
                  (nothing-Pushed 1 (settle o r) (omega arith)))
        ]
  ]

  module _ (vt : Vtable L P C) (w : Settles vt floor key weight) where
    select_delegate-DelegateSettles :
        (a : ℕ) → DelegateSettles floor key weight (select_delegate vt a)
    unfolding select_delegate
    select_delegate-DelegateSettles a = elim (Option-cases (vt.log_action_delegate a)) [
      | inl e ↦ rw (e, select_delegate) w.default_settles
      | inr (d, e) ↦ rw (e, select_delegate) (by_patch d e d.patch)
    ]
      where
        by_patch :
            (d : Delegate L P C)
            → vt.log_action_delegate a ≡ some d
            → (p : Option (Object L P C → L → C → Reply L P C))
            → DelegateSettles floor key weight (elim p as (λ _. Delegate L P C) [
              | some _ ↦ d
              | none ↦ elim d.action as (λ _. Delegate L P C) [
                | some _ ↦ d
                | none ↦ vt.default_delegate
              ]
            ])
        by_patch d e (some p) = w.delegate_settles a d e
        by_patch d e none = elim (Option-cases d.action) [
          | inl f ↦ rw f w.default_settles
          | inr (act, f) ↦ rw f (w.delegate_settles a d e)
        ]

    redo_log-Pushed :
        (o : Object L P C) (l : L) (c : C)
        → Pushed floor key weight (weight l) o (redo_log vt o l c).2
    unfolding redo_log
    redo_log-Pushed o l c = elim (Option-cases vt.get_meta) [
      | inl e ↦ rw (e, redo_log) (nothing-Pushed (weight l) o (w.positive l))
      | inr (get, e) ↦ rw (e, redo_log) (by_meta (get l))
    ]
      where
        by_meta :
            (m : MetaResult)
            → Pushed floor key weight
                (weight l)
                o
                (elim m as (λ _. ResultCode × L × Object L P C) [
                  | error e ↦ (e, l, o)
                  | nothing ↦ (callback_error, l, o)
                  | success m ↦ run_delegate (select_delegate vt m.action_case) o l c
                ]).2
        by_meta (error e) = nothing-Pushed (weight l) o (w.positive l)
        by_meta nothing = nothing-Pushed (weight l) o (w.positive l)
        by_meta (success m) =
            run_delegate-Pushed (select_delegate vt m.action_case) o l c
              (select_delegate-DelegateSettles m.action_case) w.positive

    rehash-weight : (before : List L) (l : L) → weight (rehash (hash_fns vt) before l) ≡ weight l
    unfolding rehash
    rehash-weight before l = elim (Option-cases (hash_fns vt)) [
      | inl e ↦ rw (e, rehash)
      | inr (f, e) ↦
          rw (e, rehash)
            (w.set_weight f.set l (f.calculate (last_hash f before) l) (hash_fns-set key vt f e))
    ]

    redo_rehash-Pushed :
        (before : List L) (o : Object L P C) (l : L) (c : C)
        → Pushed floor key weight (weight l) o (redo_log vt o (rehash (hash_fns vt) before l) c).2
    redo_rehash-Pushed before o l c =
        subst (λ n. Pushed floor key weight n o (redo_log vt o (rehash (hash_fns vt) before l) c).2)
          (rehash-weight before l) (redo_log-Pushed o (rehash (hash_fns vt) before l) c)

    same_queue :
        {n : ℕ} {o : Object L P C} (o1 o2 : Object L P C)
        → o2.pending_logs ≡ o1.pending_logs
        → Pushed floor key weight n o o1
        → Pushed floor key weight n o o2
    same_queue o1 o2 e p = record {
      queue = p.queue;
      appended = e ∙ p.appended;
      light = p.light;
      from_floor = p.from_floor;
    }

    insert_between-Pushed :
        (conf : Configure) (o : Object L P C) (before after : List L) (l : L) (c : C)
        → Pushed floor key weight (weight l) o (insert_between vt conf o before after l c).1
    unfolding insert_between add_log
    insert_between-Pushed conf o before after l c =
        let (code, l', o') = redo_log vt o (rehash (hash_fns vt) before l) c in
        same_queue o' (insert_between vt conf o before after l c).1 (ground arith)
          (redo_rehash-Pushed before o l c)

    push_back_internal_uncheck-Pushed :
        (conf : Configure) (o : Object L P C) (l : L) (c : C)
        → Pushed floor key weight (weight l) o (push_back_internal_uncheck vt conf o l c).1
    unfolding push_back_internal_uncheck add_log
    push_back_internal_uncheck-Pushed conf o l c = elim (Option-cases vt.get_log_key) [
      | inl e ↦
          same_queue (redo_log vt o l c).2 (push_back_internal_uncheck vt conf o l c).1
            (ground arith) (redo_log-Pushed o l c)
      | inr (k, e) ↦
          same_queue (redo_log vt o (rehash (hash_fns vt) o.logs l) c).2
            (push_back_internal_uncheck vt conf o l c).1 (ground arith)
            (redo_rehash-Pushed o.logs o l c)
    ]

    insert_at-Pushed :
        (conf : Configure) (k : L → ℕ) (o : Object L P C) (before after : List L) (l : L) (c : C)
        → Pushed floor key weight (weight l) o (insert_at vt conf k o before after l c).1
    unfolding insert_at
    insert_at-Pushed conf k o before [] l c = insert_between-Pushed conf o before [] l c
    insert_at-Pushed conf k o before (x ∷ rest) l c =
        elim (Bool-cases (not (ltb (k x) (k l)) && not (ltb (k l) (k x)))) [
          | inl there ↦
              rw (there) (same_queue o _ refl (nothing-Pushed (weight l) o (w.positive l)))
          | inr other ↦ rw (other) (insert_between-Pushed conf o before (x ∷ rest) l c)
        ]

    pub push_back_internal-Pushed :
        (conf : Configure) (o : Object L P C) (l : L) (c : C)
        → Pushed floor key weight (weight l) o (push_back_internal vt conf o l c).1
    unfolding push_back_internal
    push_back_internal-Pushed conf o l c = elim (Option-cases vt.get_log_key) [
      | inl e ↦ rw (e, push_back_internal) (push_back_internal_uncheck-Pushed conf o l c)
      | inr (k, e) ↦ elim (Option-cases (last? o.logs)) [
        | inl f ↦ rw (e, push_back_internal, f) (push_back_internal_uncheck-Pushed conf o l c)
        | inr (newest, f) ↦ elim (Bool-cases (ltb (k newest) (k l))) [
          | inl after ↦
              rw (e, push_back_internal, f, after) (push_back_internal_uncheck-Pushed conf o l c)
          | inr before ↦
              let i = lower_bound k (k l) o.logs in
              rw (e, push_back_internal, f, before)
                (insert_at-Pushed conf k o (take i o.logs) (drop i o.logs) l c)
        ]
      ]
    ]
