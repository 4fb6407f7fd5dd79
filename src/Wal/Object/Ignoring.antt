-- ===== src/Wal/Object/Ignoring.antt =====
-- A push leaves the ignore key alone.
use atframe_utils.Base.{
  ℕ, ◌≤◌, ◌≡◌, refl, not, ◌&&◌, Option, none, some, List, [], ◌∷◌, arith, Option-cases, Bool-cases,
  inl, inr, last?, take, drop, ltb,
}
use atframe_utils.Wal.Types.{Configure, Object, Vtable}
use atframe_utils.Wal.Object.{hash_fns, lower_bound}
use atframe_utils.Wal.Object.Push.{
  rehash, add_log, insert_between, insert_at, push_back_internal_uncheck, push_back_internal,
}
use atframe_utils.Wal.Object.Frame.{redo_log-SameLogs}

-- The ignore key, if any, is at most `floor`.
abbrev pub IgnoresBelow : ℕ → Option ℕ → Type 0
IgnoresBelow floor none = Unit
IgnoresBelow floor (some g) = g ≤ floor

module _ {ℓ} {L P C : Type ℓ} (vt : Vtable L P C) (conf : Configure) where
  insert_between-ignore :
      (o : Object L P C) (before after : List L) (l : L) (c : C)
      → (insert_between vt conf o before after l c).1.global_ingore ≡ o.global_ingore
  unfolding insert_between add_log
  insert_between-ignore o before after l c =
      ground (arith, redo_log-SameLogs vt o (rehash (hash_fns vt) before l) c)

  insert_at-ignore :
      (key : L → ℕ) (o : Object L P C) (before after : List L) (l : L) (c : C)
      → (insert_at vt conf key o before after l c).1.global_ingore ≡ o.global_ingore
  unfolding insert_at
  insert_at-ignore key o before [] l c = insert_between-ignore o before [] l c
  insert_at-ignore key o before (x ∷ rest) l c =
      elim (Bool-cases (not (ltb (key x) (key l)) && not (ltb (key l) (key x)))) [
        | inl there ↦ rw there refl
        | inr other ↦ rw other (insert_between-ignore o before (x ∷ rest) l c)
      ]

  uncheck-ignore :
      (o : Object L P C) (l : L) (c : C)
      → (push_back_internal_uncheck vt conf o l c).1.global_ingore ≡ o.global_ingore
  unfolding push_back_internal_uncheck add_log
  uncheck-ignore o l c =
      ground (
        arith,
        redo_log-SameLogs vt o (rehash (hash_fns vt) o.logs l) c,
        redo_log-SameLogs vt o l c,
      )

  -- A push leaves the ignore key alone.
  pub push_back_internal-ignore :
      (o : Object L P C) (l : L) (c : C)
      → (push_back_internal vt conf o l c).1.global_ingore ≡ o.global_ingore
  unfolding push_back_internal
  push_back_internal-ignore o l c = elim (Option-cases vt.get_log_key) [
    | inl e ↦ rw (e, push_back_internal) (uncheck-ignore o l c)
    | inr (k, e) ↦ elim (Option-cases (last? o.logs)) [
      | inl f ↦ rw (e, push_back_internal, f) (uncheck-ignore o l c)
      | inr (newest, f) ↦ elim (Bool-cases (ltb (k newest) (k l))) [
        | inl after ↦ rw (e, push_back_internal, f, after) (uncheck-ignore o l c)
        | inr before ↦
            let i = lower_bound k (k l) o.logs in
            rw (e, push_back_internal, f, before)
              (insert_at-ignore k o (take i o.logs) (drop i o.logs) l c)
      ]
    ]
  ]
