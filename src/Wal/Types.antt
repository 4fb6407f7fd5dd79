-- ===== src/Wal/Types.antt =====
-- wal_common_defs.h and the callback table of wal_object.h. Log keys are numbers under `<`
-- (std::less), time points are ticks. A callback that a client may leave unset is an Option.
use atframe_utils.Base.{ℕ, Bool, Option, List}

-- `wal_result_code`
pub data ResultCode : Type 0 where
  client_require_snapshot subscriber_not_found : ResultCode
  hash_code_mismatch initlization callback_error invalid_param : ResultCode
  bad_log_key action_not_set : ResultCode
  ok ignore pending merge : ResultCode

-- `wal_meta_type`
pub record Meta : Type 0 where
  pub timepoint : ℕ
  pub log_key : ℕ
  pub action_case : ℕ

-- `meta_result_type`: a value, an error, or neither.
pub data MetaResult : Type 0 where
  success : Meta → MetaResult
  error : ResultCode → MetaResult
  nothing : MetaResult

-- `hash_code_traits::initial_hash_code`
abbrev pub initial_hash_code : ℕ
initial_hash_code = 0

-- What the log tells its observers: the listeners of `internal_event_on_add_log_` and
-- `internal_event_on_assign_`, then the client's `on_log_added` and `on_log_removed`.
pub data Event {ℓ} (L : Type ℓ) : Type ℓ where
  listeners_added : L → Event L
  listeners_assigned : Event L
  log_added : L → Event L
  log_removed : L → Event L

-- `configure_type`
pub record Configure : Type 0 where
  pub gc_expire_duration : ℕ
  pub max_log_size : ℕ
  pub gc_log_size : ℕ
  pub accept_log_when_hash_matched : Bool

-- The state of `wal_object`: logs `L`, private data `P`, callback parameters `C`.
pub record Object {ℓ} (L P C : Type ℓ) : Type ℓ where
  pub in_log_action_callback : Bool
  pub private_data : P
  pub global_last_removed : Option ℕ
  pub global_ingore : Option ℕ
  pub logs : List L
  pub pending_logs : List (L × C)
  pub events : List (Event L)

-- What a patch or an action does: its result, the log after a patch, the private data, and the
-- logs that it pushes back while it runs.
pub record Reply {ℓ} (L P C : Type ℓ) : Type ℓ where
  pub code : ResultCode
  pub log : L
  pub private_data : P
  pub pushed : List (L × C)

-- `callback_log_fn_group_t`
pub record Delegate {ℓ} (L P C : Type ℓ) : Type ℓ where
  pub patch : Option (Object L P C → L → C → Reply L P C)
  pub action : Option (Object L P C → L → C → Reply L P C)

-- `vtable_type`. The flags say whether the two event callbacks are set.
pub record Vtable {ℓ} (L P C : Type ℓ) : Type ℓ where
  pub get_meta : Option (L → MetaResult)
  pub set_meta : Option (L → Meta → L)
  pub merge_log : Option (C → L → L → L)
  pub get_log_key : Option (L → ℕ)
  pub on_log_added : Bool
  pub on_log_removed : Bool
  pub get_hash_code : Option (L → ℕ)
  pub set_hash_code : Option (L → ℕ → L)
  pub calculate_hash_code : Option (ℕ → L → ℕ)
  pub log_action_delegate : ℕ → Option (Delegate L P C)
  pub default_delegate : Delegate L P C
