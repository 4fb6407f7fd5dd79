-- ===== src/Wal/Object.antt =====
-- wal_object.h: the callbacks in use, the search by key, redo and the removal of the oldest log.
-- A log pointer is the log that it points to; null pointers are refused where the code checks.
pub mod Push
pub mod Frame
pub mod Order
pub mod Bounds
pub mod Settle
pub mod Ignoring
pub mod Emplace
pub mod Total
pub mod Chain
pub mod Removed
mod Tests
pub mod Gc
pub mod GcLaws
pub mod Query
pub mod QueryLaws
pub mod Storage
use atframe_utils.Base.{
  ℕ, zero, suc, ◌+◌, Bool, true, false, not, ◌&&◌, Option, none, some, List, [], ◌∷◌, ◌++◌, ltb,
  if◌then◌else◌, last?,
}
use atframe_utils.Wal.Types.{
  ResultCode, initlization, callback_error, action_not_set, ok, Meta, MetaResult, success, error,
  nothing, Event, log_removed, listeners_assigned, Configure, Object, Reply, Delegate, Vtable,
}

-- `std::lower_bound` over the keys: how many logs stand before the first one that is not below.
module _ {ℓ} {L : Type ℓ} (key : L → ℕ) (k : ℕ) where
  unfoldable pub lower_bound : List L → ℕ
  lower_bound [] = 0
  lower_bound (x ∷ xs) = elim (ltb (key x) k) [ true ↦ suc (lower_bound xs) | false ↦ 0 ]

-- The test for `wal_result_code::kOk`.
abbrev pub is_ok : ResultCode → Bool
is_ok ok = true
is_ok _ = false

-- The key that `pop_front_internal` records: never one below the key recorded before.
abbrev pub last_removed_after : ℕ → Option ℕ → Option ℕ
last_removed_after k none = some k
last_removed_after k (some old) = if ltb k old then some old else some k

-- The three hash callbacks where all are set.
pub record HashFns {ℓ} (L : Type ℓ) : Type ℓ where
  pub get : L → ℕ
  pub set : L → ℕ → L
  pub calculate : ℕ → L → ℕ

module _ {ℓ} {L P C : Type ℓ} where
  -- `create`: an object where the callbacks that it cannot do without are set.
  unfoldable pub create : Vtable L P C → P → Option (Object L P C)
  create vt p = elim vt.get_meta [
    | none ↦ none
    | some _ ↦ elim vt.get_log_key [
      | none ↦ none
      | some _ ↦ some (record {
        in_log_action_callback = false;
        private_data = p;
        global_last_removed = none;
        global_ingore = none;
        logs = [];
        pending_logs = [];
        events = [];
      })
    ]
  ]

  -- `assign_logs`
  unfoldable pub assign_logs : List L → Object L P C → Object L P C
  assign_logs source o = record o { logs = source; events = o.events ++ listeners_assigned ∷ [] }

  -- `set_global_ingore_key`
  abbrev pub set_global_ingore_key : ℕ → Object L P C → Object L P C
  set_global_ingore_key k o = record o { global_ingore = some k }

  -- `set_last_removed_key`
  abbrev pub set_last_removed_key : ℕ → Object L P C → Object L P C
  set_last_removed_key k o = record o { global_last_removed = some k }

  unfoldable pub hash_fns : Vtable L P C → Option (HashFns L)
  hash_fns vt = elim vt.set_hash_code [
    | none ↦ none
    | some set ↦ elim vt.get_hash_code [
      | none ↦ none
      | some get ↦ elim vt.calculate_hash_code [
        | none ↦ none
        | some calculate ↦ some (record { get = get; set = set; calculate = calculate })
      ]
    ]
  ]

  -- What a callback leaves behind: its private data, and its logs at the end of the queue, as
  -- `emplace_back` puts them there while a callback runs.
  abbrev pub settle : Object L P C → Reply L P C → Object L P C
  settle o r = record o { private_data = r.private_data; pending_logs = o.pending_logs ++ r.pushed }

  -- The dispatch: an entry for the action case counts if it has a callback, else the default.
  unfoldable pub select_delegate : Vtable L P C → ℕ → Delegate L P C
  select_delegate vt a = elim (vt.log_action_delegate a) [
    | none ↦ vt.default_delegate
    | some d ↦ elim d.patch [
      | some _ ↦ d
      | none ↦ elim d.action [ some _ ↦ d | none ↦ vt.default_delegate ]
    ]
  ]

  unfoldable pub run_action :
      Option (Object L P C → L → C → Reply L P C)
      → ResultCode
      → Object L P C
      → L
      → C
      → ResultCode × L × Object L P C
  run_action none code o log param = (code, log, o)
  run_action (some act) code o log param = let r = act o log param in (r.code, log, settle o r)

  unfoldable pub run_delegate :
      Delegate L P C → Object L P C → L → C → ResultCode × L × Object L P C
  run_delegate d o log param = elim d.patch [
    | none ↦ run_action d.action action_not_set o log param
    | some patch ↦
        let r = patch o log param in
        if is_ok r.code
        then run_action d.action r.code (settle o r) r.log param
        else (r.code, r.log, settle o r)
  ]

  -- `redo_log`: the result, the log after the patch, and the object.
  unfoldable pub redo_log : Vtable L P C → Object L P C → L → C → ResultCode × L × Object L P C
  redo_log vt o log param = elim vt.get_meta [
    | none ↦ (initlization, log, o)
    | some get_meta ↦ elim (get_meta log) [
      | error e ↦ (e, log, o)
      | nothing ↦ (callback_error, log, o)
      | success m ↦ run_delegate (select_delegate vt m.action_case) o log param
    ]
  ]

  unfoldable pub note_removed : Vtable L P C → L → Object L P C → Object L P C
  note_removed vt log o = elim vt.get_log_key [
    | none ↦ o
    | some key ↦ record o {
      global_last_removed = last_removed_after (key log) o.global_last_removed;
    }
  ]

  -- `pop_front_internal`
  unfoldable pub pop_front_internal : Vtable L P C → Object L P C → Object L P C
  pop_front_internal vt o = elim o.logs [
    | [] ↦ o
    | log ∷ rest ↦
        let o' = note_removed vt log (record o { logs = rest }) in
        if vt.on_log_removed then record o' { events = o'.events ++ log_removed log ∷ [] } else o'
  ]
