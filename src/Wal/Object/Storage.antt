-- ===== src/Wal/Object/Storage.antt =====
-- wal_object.h: `load`, `dump` and `allocate_log`. The callbacks of `vtable_type` that only these
-- use, and the listeners, are arguments; a storage is a value of any type.
mod Tests
use atframe_utils.Base.{
  ◌≡◌, refl, ℕ, Bool, true, false, Option, none, some, List, [], ◌∷◌, if◌then◌else◌,
}
use atframe_utils.Wal.Types.{ResultCode, action_not_set, Meta, Configure, Object, Vtable}
use atframe_utils.Wal.Object.{is_ok}

-- `default_configure`, with the expiry in seconds.
abbrev pub default_configure : Configure
default_configure = record {
  gc_expire_duration = 604800;
  max_log_size = 512;
  gc_log_size = 128;
  accept_log_when_hash_matched = false;
}

module _ {ℓ} {L P C S : Type ℓ} where
  -- The listeners that are set are called in their order.
  unfoldable pub call_loaded :
      List (Option (Object L P C → S → C → Object L P C)) → S → C → Object L P C → Object L P C
  call_loaded [] storage param o = o
  call_loaded (none ∷ fns) storage param o = call_loaded fns storage param o
  call_loaded (some fn ∷ fns) storage param o = call_loaded fns storage param (fn o storage param)

  -- `load`
  unfoldable pub load :
      Option (Object L P C → S → C → ResultCode × Object L P C)
      → List (Option (Object L P C → S → C → Object L P C))
      → S
      → C
      → Object L P C
      → ResultCode × Object L P C
  load none listeners storage param o = (action_not_set, o)
  load (some f) listeners storage param o =
      let (ret, o') = f o storage param in
      (ret, if is_ok ret then call_loaded listeners storage param o' else o')

  -- The same for listeners that may write the storage.
  unfoldable pub call_dumped :
      List (Option (Object L P C → S → C → Object L P C × S))
      → C
      → Object L P C × S
      → Object L P C × S
  call_dumped [] param r = r
  call_dumped (none ∷ fns) param r = call_dumped fns param r
  call_dumped (some fn ∷ fns) param (o, storage) = call_dumped fns param (fn o storage param)

  -- `dump`
  unfoldable pub dump :
      Option (Object L P C → S → C → ResultCode × Object L P C × S)
      → List (Option (Object L P C → S → C → Object L P C × S))
      → S
      → C
      → Object L P C
      → ResultCode × Object L P C × S
  dump none listeners storage param o = (action_not_set, o, storage)
  dump (some f) listeners storage param o =
      let (ret, o', storage') = f o storage param in
      if is_ok ret
      then (let (o'', storage'') = call_dumped listeners param (o', storage') in
          (ret, o'', storage''))
      else (ret, o', storage')

-- `allocate_log` of a log that its constructor made: the key that `allocate_log_key` gives, if any,
-- and the object and the log that it leaves.
module _ {ℓ} {L P C : Type ℓ} where
  unfoldable pub allocate_log :
      Vtable L P C
      → Option (Object L P C → L → C → Option ℕ × Object L P C × L)
      → ℕ
      → ℕ
      → C
      → L
      → Object L P C
      → Option L × Object L P C
  allocate_log vt none now action_case param log o = (none, o)
  allocate_log vt (some allocate_log_key) now action_case param log o = elim vt.set_meta [
    | none ↦ (none, o)
    | some set_meta ↦
        let (new_key, o', log') = allocate_log_key o log param in
        elim new_key [
          | none ↦ (none, o')
          | some key ↦
              let meta : Meta = record {
                timepoint = now;
                log_key = key;
                action_case = action_case;
              } in
              (some (set_meta log' meta), o')
        ]
  ]

  -- Where the client's meta data of a log are those that it was given, a log from `allocate_log` has
  -- the time and the action case of the call and the key that `allocate_log_key` gave.
  allocate_log-meta :
      (vt : Vtable L P C) (allocate_log_key : Object L P C → L → C → Option ℕ × Object L P C × L)
      (set_meta : L → Meta → L) (meta_of : L → Meta) (now action_case : ℕ) (param : C) (log : L)
      (o : Object L P C) (key : ℕ)
      → vt.set_meta ≡ some set_meta
      → ((x : L) (meta : Meta) → meta_of (set_meta x meta) ≡ meta)
      → (allocate_log_key o log param).0 ≡ some key
      → (x : L) × ((allocate_log vt (some allocate_log_key) now action_case param log o).0 ≡ some x)
        × (meta_of x ≡ record { timepoint = now; log_key = key; action_case = action_case })
  unfolding allocate_log
  allocate_log-meta vt f set_meta meta_of now action_case param log o key e law k = (
    set_meta (f o log param).2
        (record { timepoint = now; log_key = key; action_case = action_case }),
    rw (e, k, allocate_log) refl,
    law (f o log param).2 _,
  )
