-- ===== src/Wal/Object/Frame.antt =====
-- What redo and the hash callbacks leave alone.
use atframe_utils.Base.{
  ℕ, ◌≡◌, refl, ap₂, Option, none, some, List, [], ◌∷◌, map, arith, Option-cases, inl, inr,
}
use atframe_utils.Wal.Types.{
  ResultCode, MetaResult, success, error, nothing, callback_error, Object, Reply, Delegate, Vtable,
}
use atframe_utils.Wal.Laws.{PatchKeeps, KeepsKeys, PatchesKeep}
use atframe_utils.Wal.Object.{
  HashFns, hash_fns, redo_log, run_delegate, run_action, select_delegate,
}
use atframe_utils.Wal.Object.Push.{last_hash, rehash, rechain, rechain_after, merge_into}

module _ {ℓ} {L : Type ℓ} (key : L → ℕ) where
  rechain-keys :
      (f : HashFns L) (h : ℕ) (xs : List L)
      → ((l : L) (h : ℕ) → key (f.set l h) ≡ key l)
      → map key (rechain f h xs) ≡ map key xs
  unfolding rechain
  rechain-keys f h [] k = refl
  rechain-keys f h (x ∷ xs) k =
      ap₂ (λ a b. a ∷ b) (k x (f.calculate h x)) (rechain-keys f (f.calculate h x) xs k)

module _ {ℓ} {L P C : Type ℓ} where
  -- The fields that a callback cannot reach.
  abbrev pub SameLogs : Object L P C → Object L P C → Type ℓ
  SameLogs o o' =
      (o'.logs ≡ o.logs)
      × (o'.global_ingore ≡ o.global_ingore)
      × (o'.global_last_removed ≡ o.global_last_removed)
      × (o'.in_log_action_callback ≡ o.in_log_action_callback)

  run_action-SameLogs :
      (a : Option (Object L P C → L → C → Reply L P C)) (code : ResultCode) (o : Object L P C)
      (l : L) (c : C)
      → ((run_action a code o l c).1 ≡ l) × SameLogs o (run_action a code o l c).2
  unfolding run_action
  run_action-SameLogs none code o l c = (refl, (refl, refl, refl, refl))
  run_action-SameLogs (some act) code o l c = (refl, (refl, refl, refl, refl))

  run_delegate-SameLogs :
      (d : Delegate L P C) (o : Object L P C) (l : L) (c : C) → SameLogs o (run_delegate d o l c).2
  unfolding run_delegate run_action
  run_delegate-SameLogs d o l c = ground arith

  pub redo_log-SameLogs :
      (vt : Vtable L P C) (o : Object L P C) (l : L) (c : C) → SameLogs o (redo_log vt o l c).2
  unfolding redo_log run_delegate run_action
  redo_log-SameLogs vt o l c = ground arith

  module _ (key : L → ℕ) where
    run_delegate-key :
        (d : Delegate L P C) (o : Object L P C) (l : L) (c : C)
        → PatchKeeps key d
        → key (run_delegate d o l c).1 ≡ key l
    unfolding run_delegate run_action
    run_delegate-key d o l c h = elim (Option-cases d.patch) [
      | inl e ↦ ground arith
      | inr (p, e) ↦ ground (arith, h p o l c e)
    ]

    select_delegate-keeps :
        (vt : Vtable L P C) (a : ℕ) → PatchesKeep vt key → PatchKeeps key (select_delegate vt a)
    unfolding select_delegate
    select_delegate-keeps vt a w = elim (Option-cases (vt.log_action_delegate a)) [
      | inl e ↦ λ p o l c h. ground (arith, w.default_keeps p o l c)
      | inr (d, e) ↦
          λ p o l c h. ground (arith, w.patch_keeps a d e p o l c, w.default_keeps p o l c)
    ]

    pub redo_log-key :
        (vt : Vtable L P C) (o : Object L P C) (l : L) (c : C)
        → PatchesKeep vt key
        → key (redo_log vt o l c).1 ≡ key l
    unfolding redo_log run_delegate run_action
    redo_log-key vt o l c w = elim (Option-cases vt.get_meta) [
      | inl e ↦ ground arith
      | inr (get, e) ↦ rw (e, redo_log) (by_meta (get l))
    ]
      where
        by_meta :
            (m : MetaResult)
            → key
                (elim m as (λ _. ResultCode × L × Object L P C) [
                  | error e ↦ (e, l, o)
                  | nothing ↦ (callback_error, l, o)
                  | success m ↦ run_delegate (select_delegate vt m.action_case) o l c
                ]).1
              ≡ key l
        by_meta (error e) = refl
        by_meta nothing = refl
        by_meta (success m) =
            run_delegate-key (select_delegate vt m.action_case) o l c
              (select_delegate-keeps vt m.action_case w)

    -- The hash callbacks, where all are set, are those of the table.
    pub hash_fns-set :
        (vt : Vtable L P C) (f : HashFns L) → hash_fns vt ≡ some f → vt.set_hash_code ≡ some f.set
    unfolding hash_fns
    hash_fns-set vt f e = ground arith

    pub rehash-key :
        (vt : Vtable L P C) (before : List L) (l : L)
        → KeepsKeys vt key
        → key (rehash (hash_fns vt) before l) ≡ key l
    unfolding rehash
    rehash-key vt before l w = elim (Option-cases (hash_fns vt)) [
      | inl e ↦ ground arith
      | inr (f, e) ↦
          ground
            (arith, w.set_keeps f.set l (f.calculate (last_hash f before) l), hash_fns-set vt f e)
    ]

    pub rechain_after-keys :
        (vt : Vtable L P C) (l : L) (xs : List L)
        → KeepsKeys vt key
        → map key (rechain_after (hash_fns vt) l xs) ≡ map key xs
    unfolding rechain_after
    rechain_after-keys vt l xs w = elim (Option-cases (hash_fns vt)) [
      | inl e ↦ rw (e, rechain_after)
      | inr (f, e) ↦
          rw (e, rechain_after)
            (rechain-keys key f (f.get l) xs (λ x h. w.set_keeps f.set x h (hash_fns-set vt f e)))
    ]

    pub merge_into-key :
        (vt : Vtable L P C) (c : C) (old l : L)
        → KeepsKeys vt key
        → key (merge_into vt c old l) ≡ key old
    unfolding merge_into
    merge_into-key vt c old l w = elim (Option-cases vt.merge_log) [
      | inl e ↦ ground arith
      | inr (f, e) ↦ elim (Option-cases vt.set_hash_code) [
        | inl s ↦ ground (arith, w.merge_keeps f c old l e)
        | inr (set, s) ↦ elim (Option-cases vt.get_hash_code) [
          | inl g ↦ ground (arith, w.merge_keeps f c old l e)
          | inr (get, g) ↦
              ground (arith, w.merge_keeps f c old l e, w.set_keeps set (f c old l) (get old) s)
        ]
      ]
    ]
