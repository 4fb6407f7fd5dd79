-- ===== src/Wal/Object/Gc.antt =====
-- wal_object.h: `gc` and `remove_before`.
use atframe_utils.Base.{
  ℕ, zero, suc, ◌+◌, ◌-◌, ◌*◌, ◌^◌, Bool, true, false, not, ◌&&◌, ◌||◌, Option, none, some, List,
  [], ◌∷◌, length, if◌then◌else◌, ltb, leb, ◌==◌, last?,
}
use atframe_utils.Wal.Types.{
  ResultCode, ok, initlization, callback_error, Meta, MetaResult, success, error, nothing,
  Configure, Object, Vtable,
}
use atframe_utils.Wal.Object.{pop_front_internal}

-- Seven days in ticks of a nanosecond, the period of libstdc++'s system clock.
abbrev pub week : ℕ
week = 7 * 24 * 3600 * 10 ^ 9

-- The settings that `gc` works with: a setting of 0 stands for the default.
pub record GcSettings : Type 0 where
  pub expire : ℕ
  pub max_size : ℕ
  pub gc_size : ℕ

unfoldable pub gc_settings : Configure → GcSettings
gc_settings conf = record {
  expire = if ltb 0 conf.gc_expire_duration then conf.gc_expire_duration else week;
  max_size = if ltb 0 conf.max_log_size then conf.max_log_size else 512;
  gc_size = if ltb 0 conf.gc_log_size then conf.gc_log_size else 128;
}

-- A log with this meta data has expired, and the held key does not stand below it.
unfoldable pub expired : GcSettings → ℕ → Option ℕ → Meta → Bool
expired s now hold m =
    leb (m.timepoint + s.expire) now && elim hold [ none ↦ true | some h ↦ not (ltb h m.log_key) ]

module _ {ℓ} {L P C : Type ℓ} where
  -- The test on the oldest log: one without readable meta data may go.
  unfoldable pub may_remove : Vtable L P C → GcSettings → ℕ → Option ℕ → L → Bool
  may_remove vt s now hold log = elim vt.get_meta [
    | none ↦ true
    | some get_meta ↦ elim (get_meta log) [
      | error _ ↦ true
      | nothing ↦ true
      | success m ↦ expired s now hold m
    ]
  ]

  -- The conditions of one round of `gc`, in the order of the code.
  unfoldable pub gc_removes : Vtable L P C → GcSettings → ℕ → Option ℕ → List L → Bool
  gc_removes vt s now hold [] = false
  gc_removes vt s now hold (x ∷ xs) =
      if leb (length (x ∷ xs)) s.gc_size
      then false
      else (if ltb s.max_size (length (x ∷ xs)) then true else may_remove vt s now hold x)

  -- The loop of `gc`: a round removes a log or is the last, so the number of logs is enough fuel.
  unfoldable pub gc_loop :
      ℕ → Vtable L P C → GcSettings → ℕ → Option ℕ → ℕ → Object L P C → ℕ × Object L P C
  gc_loop zero vt s now hold left o = (0, o)
  gc_loop (suc fuel) vt s now hold left o =
      let rest = gc_loop fuel vt s now hold (left - 1) (pop_front_internal vt o) in
      if left == 0 || not (gc_removes vt s now hold o.logs) then (0, o) else (suc rest.0, rest.1)

  -- `gc`: how many logs went, and the object.
  unfoldable pub gc : Vtable L P C → Configure → ℕ → Option ℕ → ℕ → Object L P C → ℕ × Object L P C
  gc vt conf now hold max_count o =
      gc_loop (length o.logs) vt (gc_settings conf) now hold max_count o

  -- The loop of `remove_before`, which reads the newest log and removes the oldest.
  unfoldable pub remove_before_loop :
      ℕ → Vtable L P C → (L → MetaResult) → ℕ → ℕ → Object L P C → ResultCode × Object L P C
  remove_before_loop zero vt get_meta now left o = (ok, o)
  remove_before_loop (suc fuel) vt get_meta now left o =
      let rest = remove_before_loop fuel vt get_meta now (left - 1) (pop_front_internal vt o) in
      if left == 0 then (ok, o) else elim (last? o.logs) [
        | none ↦ (ok, o)
        | some newest ↦ elim (get_meta newest) [
          | success m ↦ if ltb m.timepoint now then rest else (ok, o)
          | error e ↦ (e, o)
          | nothing ↦ (callback_error, o)
        ]
      ]

  -- `remove_before`
  unfoldable pub remove_before : Vtable L P C → ℕ → ℕ → Object L P C → ResultCode × Object L P C
  remove_before vt now max_count o = elim vt.get_meta [
    | none ↦ (initlization, o)
    | some get_meta ↦ remove_before_loop (length o.logs) vt get_meta now max_count o
  ]
