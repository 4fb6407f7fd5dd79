-- ===== src/Wal/Client/Tests.antt =====
-- Runs of a client, and its theorems at them.
use atframe_utils.Base.{
  ℕ, ◌+◌, ◌*◌, ◌%◌, ◌^◌, ◌≡◌, refl, true, false, Option, none, some, List, [], ◌∷◌, map, arith,
}
use atframe_utils.Wal.Types.{
  ok, hash_code_mismatch, client_require_snapshot, callback_error, success, Delegate, Vtable,
}
use atframe_utils.Wal.Laws.{KeepsKeys, Settles, DelegateSettles}
use atframe_utils.Wal.Object.{
  hash_fns, redo_log, run_delegate, run_action, select_delegate, pop_front_internal, note_removed,
  lower_bound, assign_logs,
}
use atframe_utils.Wal.Object.Push.{
  accepts, add_log, rehash, last_hash, rechain, rechain_after, merge_into, insert_between,
  insert_at, push_back_internal_uncheck, push_back_internal, ignores, skips, drain, trim, auto_gc,
  emplace_direct, emplace_back,
}
use atframe_utils.Wal.Object.Emplace.{IsReady}
use atframe_utils.Wal.Object.Total.{IsSorted}
use atframe_utils.Wal.Object.Gc.{gc, gc_loop, gc_removes, may_remove, expired, gc_settings}
use atframe_utils.Wal.Object.Query.{log_lower_bound, get_hash_code_before}
use atframe_utils.Wal.Client.{
  ClientConfigure, Client, ClientVtable, on_assigned, assign_received, hash_mismatch,
  emplace_received, receive_log, receive_logs, receive_hole_log, receive_hole_logs,
  receive_snapshot, receive_subscribe_response, ask_to_subscribe, heartbeat, client_round,
  client_loop, client_tick,
}
use atframe_utils.Wal.Client.Batches.{receive_logs-receive_logs}
use atframe_utils.Wal.Client.Total.{receive_logs_total}
use atframe_utils.Wal.Client.Ticks.{ClientEndsWith, client_tick-ends}

program : Unit {0}
unfolding hash_fns redo_log run_delegate run_action select_delegate pop_front_internal note_removed
    lower_bound assign_logs accepts add_log rehash last_hash rechain rechain_after merge_into
    insert_between insert_at push_back_internal_uncheck push_back_internal ignores skips drain trim
    auto_gc emplace_direct emplace_back gc gc_loop gc_removes may_remove expired gc_settings
    log_lower_bound get_hash_code_before on_assigned hash_mismatch emplace_received receive_log
    receive_logs receive_hole_log receive_hole_logs receive_snapshot receive_subscribe_response
    ask_to_subscribe heartbeat client_round client_loop client_tick
program = tt

-- A log is its key and its hash code.
abbrev Log : Type 0
Log = ℕ × ℕ

abbrev key : Log → ℕ
key l = l.0

abbrev weight : Log → ℕ
weight l = 1

abbrev delegate : Delegate Log ℕ ℕ
delegate = record {
  patch = none;
  action =
      some (λ o l c. record { code = ok; log = l; private_data = o.private_data + 1; pushed = [] });
}

abbrev table : Vtable Log ℕ ℕ
table = record {
  get_meta = some (λ l. success (record { timepoint = l.0; log_key = l.0; action_case = 0 }));
  set_meta = none;
  merge_log = none;
  get_log_key = some key;
  on_log_added = true;
  on_log_removed = true;
  get_hash_code = some (λ l. l.1);
  set_hash_code = some (λ l h. (l.0, h));
  calculate_hash_code = some (λ h l. (h * 10 + l.0) % 2 ^ 64);
  log_action_delegate = λ a. none;
  default_delegate = delegate;
}

abbrev client_table : ClientVtable Log ℕ ℕ (List Log)
client_table = record {
  object = table;
  on_receive_snapshot = some (λ c logs param. (ok, assign_received table logs c));
  on_receive_subscribe_response = none;
  subscribe_request = some (λ c param. (callback_error, c));
}

abbrev configure : ClientConfigure
configure = record {
  object = record {
    gc_expire_duration = 10;
    max_log_size = 5;
    gc_log_size = 2;
    accept_log_when_hash_matched = true;
  };
  require_snapshot = true;
  subscriber_heartbeat_interval = 180;
  subscriber_heartbeat_retry_interval = 60;
}

abbrev start : Client Log ℕ ℕ
start = record {
  wal = record {
    in_log_action_callback = false;
    private_data = 0;
    global_last_removed = none;
    global_ingore = none;
    logs = [];
    pending_logs = [];
    events = [];
  };
  next_heartbeat_timepoint = 100;
  last_finished_log_key = none;
  received_snapshot = false;
}

-- The client after a snapshot with the logs 1 and 3.
abbrev loaded : Client Log ℕ ℕ
loaded = (receive_snapshot client_table ((1, 1) ∷ (3, 13) ∷ []) 0 start).1

abbrev codes : Option (ℕ × Client Log ℕ ℕ) → List ℕ
codes none = []
codes (some r) = r.0 ∷ map key r.1.wal.logs

no_snapshot_run :
    receive_log 2 table configure (some (4, 134)) 0 start ≡ some (client_require_snapshot, start)
unfolding program
no_snapshot_run = refl

finished_run : loaded.last_finished_log_key ≡ some 3
unfolding program
finished_run = refl

mismatch_run :
    receive_log 2 table configure (some (4, 135)) 0 loaded ≡ some (hash_code_mismatch, loaded)
unfolding program
mismatch_run = refl

-- The log 2 comes too late, 4 and 6 are new.
batch_run :
    codes (receive_logs 2 table configure 0 (map some ((2, 12) ∷ (4, 134) ∷ (6, 1346) ∷ [])) loaded)
    ≡ 2 ∷ 1 ∷ 3 ∷ 4 ∷ 6 ∷ []
unfolding program
batch_run = refl

hole_run :
    codes (receive_hole_logs 2 table configure 0 (map some ((2, 12) ∷ [])) loaded)
    ≡ 1 ∷ 1 ∷ 2 ∷ 3 ∷ []
unfolding program
hole_run = refl

-- Where a publisher inserts 2 and adds 5, it sends 5 first, whose hash code counts 2: it is refused,
-- and when the hole is filled it is missing.
late_hole_run :
    codes (elim (receive_logs 2 table configure 0 (map some ((5, 1235) ∷ [])) loaded) [
      | none ↦ none
      | some r ↦ receive_hole_logs 2 table configure 0 (map some ((2, 12) ∷ [])) r.1
    ])
    ≡ 1 ∷ 1 ∷ 2 ∷ 3 ∷ []
unfolding program
late_hole_run = refl

-- A tick removes a log and asks to subscribe, which fails.
tick_run :
    (elim (client_tick 20 10 client_table configure 100 0
        (record loaded { wal = record loaded.wal { logs = (1, 1) ∷ (3, 13) ∷ (7, 7) ∷ [] } }))
      as (λ _. ℕ × ℕ) [ none ↦ (0, 0) | some r ↦ (r.0, r.1.next_heartbeat_timepoint) ])
    ≡ (2, 160)
unfolding program
tick_run = refl

keeps : KeepsKeys table key
keeps = record {
  keyed = refl;
  set_keeps = λ f l h e. ground arith;
  merge_keeps = λ f c l x e. absurd (ground arith);
  patches_keep = record {
    patch_keeps = λ a d e. absurd (ground arith);
    default_keeps = λ p o l c e. absurd (ground arith);
  };
}

delegate-DelegateSettles : DelegateSettles 0 key weight delegate
delegate-DelegateSettles = record {
  patch_weight = λ p o l c e. absurd (ground arith);
  patch_from = λ p o l c e. absurd (ground arith);
  action_weight = λ p o l c e. ground arith;
  action_from = λ p o l c e. ground arith;
}

settles : Settles table 0 key weight
settles = record {
  positive = λ l. omega arith;
  set_weight = λ f l h e. refl;
  delegate_settles = λ a d e. absurd (ground arith);
  default_settles = delegate-DelegateSettles;
}

loaded-IsReady : IsReady 0 (IsSorted key) loaded.wal
unfolding program
loaded-IsReady = record { idle = refl; settled = refl; invariant = ground arith; ignore_below = tt }

receive_logs_total_example :
    (n : ℕ) × (c' : Client Log ℕ ℕ) × (receive_logs 2 table configure 0
        (map some ((2, 12) ∷ (4, 134) ∷ []))
        loaded
      ≡ some (n, c'))
    × IsReady 0 (IsSorted key) c'.wal
receive_logs_total_example =
    receive_logs_total table configure 0 key weight keeps settles 0 2 ((2, 12) ∷ (4, 134) ∷ [])
      loaded loaded-IsReady (omega arith)

-- The client after that batch.
abbrev received : Client Log ℕ ℕ
received = elim (receive_logs 2 table configure 0 (map some ((2, 12) ∷ (4, 134) ∷ [])) loaded) [
  | none ↦ loaded
  | some r ↦ r.1
]

received_once :
    receive_logs 2 table configure 0 (map some ((2, 12) ∷ (4, 134) ∷ [])) loaded
    ≡ some (1, received)
unfolding program
received_once = refl

receive_logs-receive_logs_example :
    receive_logs 2 table configure 0 (map some ((2, 12) ∷ (4, 134) ∷ [])) received
    ≡ some (0, received)
receive_logs-receive_logs_example =
    receive_logs-receive_logs 2 table configure 0 key refl ((2, 12) ∷ (4, 134) ∷ []) loaded received
      1 (omega arith) received_once

client_tick-ends_example :
    ClientEndsWith client_table configure 100 0 10
      (client_tick 11 10 client_table configure 100 0 loaded)
client_tick-ends_example =
    client_tick-ends client_table configure 100 0 11 10 loaded (omega arith) (omega arith)
