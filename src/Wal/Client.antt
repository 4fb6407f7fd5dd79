-- ===== src/Wal/Client.antt =====
-- wal_client.h over wal_object.h. Logs, private data, callback parameters and snapshots have any
-- types. A callback gets the client and gives it back as it leaves it.
pub mod Receiving
pub mod Batches
pub mod Total
pub mod Ticks
mod Tests
use atframe_utils.Base.{
  ℕ, zero, suc, ◌+◌, ◌-◌, ◌*◌, ◌/◌, ◌^◌, Bool, true, false, not, ◌&&◌, Option, none, some, List, [],
  ◌∷◌, ltb, leb, ◌==◌, if◌then◌else◌, last?,
}
use atframe_utils.Wal.Types.{
  ResultCode, ok, ignore, pending, merge, initlization, invalid_param, client_require_snapshot,
  hash_code_mismatch, initial_hash_code, Configure, Object, Vtable,
}
use atframe_utils.Wal.Object.{is_ok, HashFns, hash_fns, assign_logs}
use atframe_utils.Wal.Object.Push.{emplace_back}
use atframe_utils.Wal.Object.Query.{get_hash_code_before}
use atframe_utils.Wal.Object.Gc.{gc}

-- `configure_type`
pub record ClientConfigure : Type 0 where
  pub object : Configure
  pub require_snapshot : Bool
  pub subscriber_heartbeat_interval : ℕ
  pub subscriber_heartbeat_retry_interval : ℕ

-- The state of `wal_client`.
pub record Client (L P C : Type 0) : Type 0 where
  pub wal : Object L P C
  pub next_heartbeat_timepoint : ℕ
  pub last_finished_log_key : Option ℕ
  pub received_snapshot : Bool

-- `vtable_type`
pub record ClientVtable (L P C S : Type 0) : Type 0 where
  pub object : Vtable L P C
  pub on_receive_snapshot : Option (Client L P C → S → C → ResultCode × Client L P C)
  pub on_receive_subscribe_response : Option (Client L P C → C → ResultCode × Client L P C)
  pub subscribe_request : Option (Client L P C → C → ResultCode × Client L P C)

-- The test `ret >= wal_result_code::kOk`.
abbrev pub is_no_error : ResultCode → Bool
is_no_error ok = true
is_no_error ignore = true
is_no_error pending = true
is_no_error merge = true
is_no_error _ = false

-- Three minutes in ticks of a nanosecond.
abbrev pub three_minutes : ℕ
three_minutes = 180 * 10 ^ 9

-- The key does not stand above the finished key.
abbrev pub is_finished : Option ℕ → ℕ → Bool
is_finished none key = false
is_finished (some finished) key = not (ltb finished key)

module _ {L P C : Type 0} where
  abbrev pub set_last_finished_log_key : ℕ → Client L P C → Client L P C
  set_last_finished_log_key key c = record c { last_finished_log_key = some key }

  -- The listener of `internal_event_on_assign_logs_`: the finished key only moves forward.
  unfoldable pub on_assigned : Vtable L P C → Client L P C → Client L P C
  on_assigned vt c = elim (last? c.wal.logs) [
    | none ↦ c
    | some newest ↦ elim vt.get_log_key [
      | none ↦ c
      | some key ↦ elim c.last_finished_log_key [
        | none ↦ set_last_finished_log_key (key newest) c
        | some finished ↦
            if ltb finished (key newest) then set_last_finished_log_key (key newest) c else c
      ]
    ]
  ]

  -- `assign_logs` of the client's log.
  abbrev pub assign_received : Vtable L P C → List L → Client L P C → Client L P C
  assign_received vt source c = on_assigned vt (record c { wal = assign_logs source c.wal })

  -- The hash code of a received log is not the one computed from the log before it, if that has one.
  unfoldable pub hash_mismatch : Vtable L P C → Object L P C → L → ℕ → Bool
  hash_mismatch vt wal log log_key = elim (hash_fns vt) [
    | none ↦ false
    | some fns ↦
        let before_hash_code = get_hash_code_before vt wal log_key in
        not (before_hash_code == initial_hash_code)
        && not (fns.calculate before_hash_code log == fns.get log)
  ]

  -- `emplace_back` of a received log.
  unfoldable pub emplace_received :
      ℕ → Vtable L P C → Configure → L → C → Client L P C → Option (ResultCode × Client L P C)
  emplace_received fuel vt conf log param c =
      elim (emplace_back fuel vt conf c.wal (some log) param) [
        | none ↦ none
        | some (code, wal) ↦ some (code, record c { wal = wal })
      ]

  -- `receive_log`; `none` when `emplace_back` runs out of fuel.
  unfoldable pub receive_log :
      ℕ
      → Vtable L P C
      → ClientConfigure
      → Option L
      → C
      → Client L P C
      → Option (ResultCode × Client L P C)
  receive_log fuel vt conf none param c = some (invalid_param, c)
  receive_log fuel vt conf (some log) param c =
      if conf.require_snapshot && not c.received_snapshot
      then some (client_require_snapshot, c)
      else elim vt.get_log_key [
        | none ↦ emplace_received fuel vt conf.object log param c
        | some key ↦
            if hash_mismatch vt c.wal log (key log)
            then some (hash_code_mismatch, c)
            else (if is_finished c.last_finished_log_key (key log)
                then some (ignore, c)
                else emplace_received fuel vt conf.object log param
                    (set_last_finished_log_key (key log) c))
      ]

  -- `receive_logs`: the number of results that are kOk, and the client.
  unfoldable pub receive_logs :
      ℕ
      → Vtable L P C
      → ClientConfigure
      → C
      → List (Option L)
      → Client L P C
      → Option (ℕ × Client L P C)
  receive_logs fuel vt conf param [] c = some (0, c)
  receive_logs fuel vt conf param (log ∷ logs) c = elim (receive_log fuel vt conf log param c) [
    | none ↦ none
    | some (code, c1) ↦ elim (receive_logs fuel vt conf param logs c1) [
      | none ↦ none
      | some (n, c2) ↦ some (if is_ok code then suc n else n, c2)
    ]
  ]

  -- `receive_hole_log`: a log that is not above the finished key is pushed all the same.
  unfoldable pub receive_hole_log :
      ℕ
      → Vtable L P C
      → ClientConfigure
      → Option L
      → C
      → Client L P C
      → Option (ResultCode × Client L P C)
  receive_hole_log fuel vt conf none param c = some (invalid_param, c)
  receive_hole_log fuel vt conf (some log) param c =
      if conf.require_snapshot && not c.received_snapshot
      then some (client_require_snapshot, c)
      else elim vt.get_log_key [
        | none ↦ emplace_received fuel vt conf.object log param c
        | some key ↦
            if hash_mismatch vt c.wal log (key log)
            then some (hash_code_mismatch, c)
            else emplace_received fuel vt conf.object log param (
                if is_finished c.last_finished_log_key (key log)
                then c
                else set_last_finished_log_key (key log) c)
      ]

  -- `receive_hole_logs`
  unfoldable pub receive_hole_logs :
      ℕ
      → Vtable L P C
      → ClientConfigure
      → C
      → List (Option L)
      → Client L P C
      → Option (ℕ × Client L P C)
  receive_hole_logs fuel vt conf param [] c = some (0, c)
  receive_hole_logs fuel vt conf param (log ∷ logs) c =
      elim (receive_hole_log fuel vt conf log param c) [
        | none ↦ none
        | some (code, c1) ↦ elim (receive_hole_logs fuel vt conf param logs c1) [
          | none ↦ none
          | some (n, c2) ↦ some (if is_ok code then suc n else n, c2)
        ]
      ]

module _ {L P C S : Type 0} where
  -- `receive_snapshot`
  unfoldable pub receive_snapshot :
      ClientVtable L P C S → S → C → Client L P C → ResultCode × Client L P C
  receive_snapshot vt snapshot param c = elim vt.on_receive_snapshot [
    | none ↦ (initlization, c)
    | some f ↦
        let (ret, c') = f c snapshot param in
        (ret, if is_no_error ret then record c' { received_snapshot = true } else c')
  ]

  -- `receive_subscribe_response`
  unfoldable pub receive_subscribe_response :
      ClientVtable L P C S → C → Client L P C → ResultCode × Client L P C
  receive_subscribe_response vt param c = elim vt.on_receive_subscribe_response [
    | none ↦ (initlization, c)
    | some f ↦ f c param
  ]

  -- The subscribe request of `tick`, and the time of the next one.
  unfoldable pub ask_to_subscribe :
      ClientVtable L P C S → ClientConfigure → ℕ → C → Client L P C → Client L P C
  ask_to_subscribe vt conf now param c = elim vt.subscribe_request [
    | none ↦ record c { next_heartbeat_timepoint = now + conf.subscriber_heartbeat_interval }
    | some f ↦
        let (subscribe_result, c') = f c param in
        record c' {
          next_heartbeat_timepoint =
              now
              + (if is_ok subscribe_result
                  then conf.subscriber_heartbeat_interval
                  else conf.subscriber_heartbeat_retry_interval);
        }
  ]

  -- The heartbeat of `tick`, with the default for a time that is not in the future.
  unfoldable pub heartbeat :
      ClientVtable L P C S → ClientConfigure → ℕ → C → Client L P C → Client L P C
  heartbeat vt conf now param c =
      let asked = ask_to_subscribe vt conf now param c in
      if leb asked.next_heartbeat_timepoint now
      then record asked { next_heartbeat_timepoint = now + three_minutes }
      else asked

  -- One round of `tick`: the number of events, and the client.
  unfoldable pub client_round :
      ℕ → ClientVtable L P C S → ClientConfigure → ℕ → C → Client L P C → ℕ × Client L P C
  client_round round vt conf now param c =
      let (removed, wal) = gc vt.object conf.object now none round c.wal in
      let c1 = record c { wal = wal } in
      if leb c1.next_heartbeat_timepoint now
      then (removed + 1, heartbeat vt conf now param c1)
      else (removed, c1)

  -- The loop of `tick` with fuel: none where it is used up.
  unfoldable pub client_loop :
      ℕ
      → ℕ
      → ClientVtable L P C S
      → ClientConfigure
      → ℕ
      → C
      → ℕ
      → Client L P C
      → Option (ℕ × Client L P C)
  client_loop zero max_event vt conf now param ret c = none
  client_loop (suc fuel) max_event vt conf now param ret c =
      let (events, c') =
        client_round (if ltb 16 max_event then max_event / 16 else max_event) vt conf now param c in
      let rest = client_loop fuel max_event vt conf now param (ret + events) c' in
      if ltb ret max_event then (if events == 0 then some (ret, c') else rest) else some (ret, c)

  -- `tick`, where a maximum of 0 stands for that of a size_t.
  unfoldable pub client_tick :
      ℕ
      → ℕ
      → ClientVtable L P C S
      → ClientConfigure
      → ℕ
      → C
      → Client L P C
      → Option (ℕ × Client L P C)
  client_tick fuel max_event vt conf now param c =
      client_loop fuel (if max_event == 0 then 2 ^ 64 - 1 else max_event) vt conf now param 0 c
