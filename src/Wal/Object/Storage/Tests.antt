-- ===== src/Wal/Object/Storage/Tests.antt =====
-- Runs of `load` and `allocate_log`, with meta data as logs.
use atframe_utils.Base.{ℕ, ◌≡◌, refl, false, Option, none, some, [], ◌∷◌}
use atframe_utils.Wal.Types.{ok, success, Meta, Object, Vtable}
use atframe_utils.Wal.Object.Storage.{load, call_loaded}

abbrev table : Vtable Meta ℕ ℕ
table = record {
  get_meta = some (λ m. success m);
  set_meta = some (λ _. λ m. m);
  merge_log = none;
  get_log_key = some (λ m. m.log_key);
  on_log_added = false;
  on_log_removed = false;
  get_hash_code = none;
  set_hash_code = none;
  calculate_hash_code = none;
  default_delegate = record { patch = none; action = none };
  log_action_delegate = λ _. none;
}

abbrev start : Object Meta ℕ ℕ
start = record {
  in_log_action_callback = false;
  private_data = 5;
  global_last_removed = none;
  global_ingore = none;
  logs = [];
  pending_logs = [];
  events = [];
}

abbrev next_key : Object Meta ℕ ℕ → Meta → ℕ → Option ℕ × Object Meta ℕ ℕ × Meta
next_key o m c = (some o.private_data, record o { private_data = 6 }, m)

abbrev raw : Meta
raw = record { timepoint = 0; log_key = 0; action_case = 0 }

load_listeners :
    (load {S = ℕ}
      (some (λ o s c. (ok, record o { private_data = s })))
      (some (λ o s c. record o { private_data = 9 }) ∷ [])
      7
      0
      start).1.private_data
    ≡ 9
unfolding load call_loaded
load_listeners = refl
