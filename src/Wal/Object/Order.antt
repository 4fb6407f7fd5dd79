-- ===== src/Wal/Object/Order.antt =====
-- `pusk_back_internal` and `emplace_back` on the keys of the log.
use atframe_utils.Base.{
  ℕ, ◌≡◌, refl, sym, none, some, List, [], ◌∷◌, ◌++◌, map, arith, Option-cases, inl, inr,
  if◌then◌else◌, last?, take, drop, map-append, take-append-drop,
}
use atframe_utils.Wal.Types.{Configure, Object, Vtable}
use atframe_utils.Wal.Laws.{KeepsKeys}
use atframe_utils.Wal.Keys.{
  IsAscending, insert_key, place_key, insert_key_last, insert_key-lower_bound,
}
use atframe_utils.Wal.Object.{lower_bound, hash_fns, redo_log}
use atframe_utils.Wal.Object.Push.{
  rehash, rechain_after, merge_into, add_log, accepts, push_back_internal_uncheck, insert_between,
  insert_at, push_back_internal,
}
use atframe_utils.Wal.Object.Frame.{
  redo_log-SameLogs, redo_log-key, rehash-key, rechain_after-keys, merge_into-key,
}

last?-map {ℓ} :
    {L : Type ℓ} (key : L → ℕ) (xs : List L) {x : L}
    → last? xs ≡ some x
    → last? (map key xs) ≡ some (key x)
last?-map key [] e = ground arith
last?-map key (y ∷ []) e = ground arith
last?-map key (y ∷ z ∷ xs) e = last?-map key (z ∷ xs) e

last?-ne {ℓ} : {L : Type ℓ} (ys : List L) (a b : L) → last? (a ∷ b ∷ ys) ≡ none → ⊥
last?-ne [] a b p = ground arith
last?-ne (w ∷ ys) a b p = last?-ne ys b w p

pub last?-none {ℓ} : {L : Type ℓ} (xs : List L) → last? xs ≡ none → xs ≡ []
last?-none [] e = refl
last?-none (y ∷ []) e = absurd (ground arith)
last?-none (y ∷ z ∷ xs) e = absurd (last?-ne xs y z e)

module _ {ℓ} {L P C : Type ℓ} (vt : Vtable L P C) (conf : Configure) (key : L → ℕ)
    (w : KeepsKeys vt key) where
  insert_between-keys :
      (o : Object L P C) (before after : List L) (log : L) (param : C)
      → let (code, o') = insert_between vt conf o before after log param in
        map key o'.logs ≡ (
          if accepts vt conf code
          then map key before ++ key log ∷ map key after
          else map key o.logs)
  unfolding insert_between add_log
  insert_between-keys o before after log param =
      let hashed = rehash (hash_fns vt) before log in
      let log' = (redo_log vt o hashed param).1 in
      ground (
        arith,
        redo_log-SameLogs vt o hashed param,
        redo_log-key key vt o hashed param w.patches_keep,
        rehash-key key vt before log w,
        rechain_after-keys key vt log' after w,
        map-append key before (log' ∷ rechain_after (hash_fns vt) log' after),
      )

  push_back_internal_uncheck-keys :
      (o : Object L P C) (log : L) (param : C)
      → let (code, o') = push_back_internal_uncheck vt conf o log param in
        map key o'.logs
        ≡ (if accepts vt conf code then map key o.logs ++ key log ∷ [] else map key o.logs)
  unfolding push_back_internal_uncheck add_log
  push_back_internal_uncheck-keys o log param =
      let hashed = rehash (hash_fns vt) o.logs log in
      let log' = (redo_log vt o hashed param).1 in
      ground (
        arith,
        w.keyed,
        redo_log-SameLogs vt o hashed param,
        redo_log-key key vt o hashed param w.patches_keep,
        rehash-key key vt o.logs log w,
        map-append key o.logs (log' ∷ []),
      )

  insert_at-keys :
      (o : Object L P C) (before after : List L) (log : L) (param : C)
      → o.logs ≡ before ++ after
      → let (code, o') = insert_at vt conf key o before after log param in
        map key o'.logs ≡ (
          if accepts vt conf code
          then map key before ++ place_key (key log) (map key after)
          else map key o.logs)
  unfolding insert_at place_key
  insert_at-keys o before [] log param e = insert_between-keys o before [] log param
  insert_at-keys o before (x ∷ rest) log param e = ground (
    arith,
    insert_between-keys o before (x ∷ rest) log param,
    map-append key before (x ∷ rest),
    map-append key before (merge_into vt param x log ∷ rest),
    merge_into-key key vt param x log w,
  )

  -- On an ascending log `pusk_back_internal` inserts the key where it belongs, if the log is
  -- accepted or merged, and leaves the keys alone if it is not.
  pub push_back_internal-keys :
      (o : Object L P C) (log : L) (param : C)
      → IsAscending (map key o.logs)
      → let (code, o') = push_back_internal vt conf o log param in
        map key o'.logs
        ≡ (if accepts vt conf code then insert_key (key log) (map key o.logs) else map key o.logs)
  unfolding push_back_internal insert_key
  push_back_internal-keys o log param asc = elim (Option-cases (last? o.logs)) [
    | inl e ↦
        ground (arith, w.keyed, push_back_internal_uncheck-keys o log param, last?-none o.logs e)
    | inr (newest, e) ↦
        let i = lower_bound key (key log) o.logs in
        ground (
          arith,
          w.keyed,
          push_back_internal_uncheck-keys o log param,
          insert_key_last (key log) (key newest) (map key o.logs) asc (last?-map key o.logs e),
          insert_at-keys o (take i o.logs) (drop i o.logs) log param
              (sym (take-append-drop i o.logs)),
          insert_key-lower_bound key (key log) o.logs,
        )
  ]
