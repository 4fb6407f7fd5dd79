-- ===== src/Wal/Publisher/Tests.antt =====
-- Runs of a publisher with three logs and two subscribers, and the theorems at such inputs.
use atframe_utils.Base.{
  ltb, ◌==◌, All, ℕ, ◌+◌, ◌≡◌, ◌<◌, refl, true, false, none, some, List, [], ◌∷◌, ◌++◌, map, length,
  if◌then◌else◌, arith,
}
use atframe_utils.Wal.Types.{ok, callback_error, nothing, Delegate, Vtable}
use atframe_utils.Wal.Keys.{IsAscending, insert_key}
use atframe_utils.Wal.Laws.{KeepsKeys}
use atframe_utils.Wal.Object.{redo_log, run_delegate, run_action, select_delegate}
use atframe_utils.Wal.Object.Push.{
  ignores, emplace_back, emplace_direct, drain, auto_gc, trim, accepts, add_log, rehash, last_hash,
  rechain, rechain_after, merge_into, insert_between, insert_at, push_back_internal_uncheck,
  push_back_internal,
}
use atframe_utils.Wal.Publisher.Holes.{direct_push, push_back_log-pending}
use atframe_utils.Wal.Publisher.Trimmed.{newest}
use atframe_utils.Wal.Object.{lower_bound, hash_fns, pop_front_internal, note_removed}
use atframe_utils.Wal.Object.Query.{upper_bound, search_key, log_lower_bound, log_upper_bound}
use atframe_utils.Wal.Object.Gc.{gc, gc_loop, gc_removes, may_remove, expired, gc_settings}
use atframe_utils.Wal.Subscriber.{
  Manager, find_entry, set_entry, erase_entry, erase_node, remove_subscriber_timer,
  insert_subscriber_timer, reset_timer, subscribe, unbind_owner, unsubscribe_found, unsubscribe_key,
  unsubscribe_pointer, allocate, find, first_expired, get_first_expired,
}
use atframe_utils.Wal.Publisher.{
  push_back_log, PublisherConfigure, Publisher, PublisherVtable, Sent, sent_logs, sent_snapshot,
  sent_response, send_snapshot, send_logs, send_subscribe_response, on_add_log, on_assign_logs,
  hear, removed_subscriber, remove_subscriber, remove_subscriber_pointer, check_subscriber,
  find_subscriber, client_request,
}
use atframe_utils.Wal.Publisher.Broadcast.{
  pointers, logs_to_broadcast, broadcast_to_all, send_last, last_broadcast, move_bound, broadcast,
  expire, tick_round, tick_loop, publisher_tick,
}
use atframe_utils.Wal.Publisher.Request.{
  hash_differs, logs_from, logs_since, answer_with_snapshot, answer_with_logs, answer,
  serve_request, receive_request, receive_subscribe_request, create_subscriber,
}
use atframe_utils.Wal.Publisher.Pending.{newer, held_differs, pending}
use atframe_utils.Wal.Publisher.Sending.{Delivers, packets}
use atframe_utils.Wal.Publisher.Delivery.{broadcast-pending}
use atframe_utils.Wal.Publisher.CatchUp.{Serves, needs_snapshot, receive_subscribe_request-sent}
use atframe_utils.Wal.Publisher.Ticks.{event_limit, EndsWith, publisher_tick-ends}

program : Unit {0}
unfolding redo_log run_delegate run_action select_delegate accepts add_log rehash last_hash rechain
    rechain_after merge_into insert_between insert_at push_back_internal_uncheck push_back_internal
    lower_bound hash_fns pop_front_internal note_removed upper_bound search_key log_lower_bound
    log_upper_bound gc gc_loop gc_removes may_remove expired gc_settings find_entry set_entry
    erase_entry erase_node remove_subscriber_timer insert_subscriber_timer reset_timer subscribe
    unbind_owner unsubscribe_found unsubscribe_key unsubscribe_pointer allocate first_expired
    get_first_expired send_snapshot send_logs send_subscribe_response on_add_log on_assign_logs hear
    removed_subscriber remove_subscriber remove_subscriber_pointer check_subscriber find_subscriber
    logs_to_broadcast broadcast_to_all send_last last_broadcast move_bound broadcast expire
    tick_round tick_loop publisher_tick hash_differs logs_from logs_since answer_with_snapshot
    answer_with_logs answer serve_request receive_request create_subscriber newer held_differs
    pending needs_snapshot event_limit
program = tt

-- A log is its key and its hash code.
abbrev Log : Type 0
Log = ℕ × ℕ

abbrev key : Log → ℕ
key l = l.0

abbrev delegate : Delegate Log ℕ ℕ
delegate = record { patch = none; action = none }

abbrev object_vtable : Vtable Log ℕ ℕ
object_vtable = record {
  get_meta = some (λ l. nothing);
  set_meta = none;
  merge_log = none;
  get_log_key = some key;
  on_log_added = true;
  on_log_removed = true;
  get_hash_code = some (λ l. l.1);
  set_hash_code = some (λ l h. (l.0, h));
  calculate_hash_code = some (λ h l. h + l.0);
  log_action_delegate = λ a. none;
  default_delegate = delegate;
}

abbrev vtable : PublisherVtable Log ℕ ℕ
vtable = record {
  object = object_vtable;
  send_snapshot = some (λ p subscribers c. (ok, p));
  send_logs = some (λ p logs subscribers c. (ok, p));
  subscribe_response = some (λ p subscriber code c. (code, p));
  check_subscriber = none;
  subscriber_force_sync_snapshot = none;
  on_subscriber_request = none;
  on_subscriber_added = none;
  on_subscriber_removed = none;
}

-- The same for a client whose sending fails.
abbrev failing : PublisherVtable Log ℕ ℕ
failing = record vtable { send_logs = some (λ p logs subscribers c. (callback_error, p)) }

abbrev configure : PublisherConfigure
configure = record {
  object = record {
    gc_expire_duration = 10;
    max_log_size = 5;
    gc_log_size = 2;
    accept_log_when_hash_matched = false;
  };
  subscriber_timeout = 100;
  enable_last_broadcast_for_removed_subscriber = true;
  enable_hole_log = true;
}

abbrev three_logs : List Log
three_logs = (3, 30) ∷ (5, 50) ∷ (8, 80) ∷ []

abbrev no_subscribers : Manager
no_subscribers = record {
  subscribers = [];
  subscribers_timer = [];
  store = λ p. none;
  next_pointer = 0;
  next_node = 0;
}

abbrev start : Publisher Log ℕ ℕ
start = record {
  wal = record {
    in_log_action_callback = false;
    private_data = 0;
    global_last_removed = some 2;
    global_ingore = none;
    logs = three_logs;
    pending_logs = [];
    events = [];
  };
  manager = (allocate 9 0 100 (allocate 7 0 100 no_subscribers).1).1;
  gc_subscribers = [];
  broadcast_key_bound = some 4;
  broadcast_hole_logs = [];
  sent = [];
}

broadcast_run :
    (broadcast vtable 0 start).1.sent ≡ sent_logs ((5, 50) ∷ (8, 80) ∷ []) (0 ∷ 1 ∷ []) ∷ []
unfolding program
broadcast_run = refl

-- A subscriber that is removed gets the last logs, and three tries if they fail.
abbrev removed_one : Publisher Log ℕ ℕ
removed_one = remove_subscriber vtable configure 7 client_request 0 start

removed_run :
    (broadcast vtable 0 removed_one).1.sent
    ≡ sent_logs ((5, 50) ∷ (8, 80) ∷ []) (1 ∷ []) ∷ sent_logs ((5, 50) ∷ (8, 80) ∷ []) (0 ∷ []) ∷ []
unfolding program
removed_run = refl

failing_run : length (broadcast failing 0 removed_one).1.sent ≡ 4
unfolding program
failing_run = refl

caught_up_run :
    (receive_subscribe_request vtable configure 7 5 (some 50) 20 0 start).1.sent
    ≡ sent_logs ((8, 80) ∷ []) (0 ∷ []) ∷ sent_response 0 ok ∷ []
unfolding program
caught_up_run = refl

mismatch_run :
    (receive_subscribe_request vtable configure 7 5 (some 51) 20 0 start).1.sent
    ≡ sent_snapshot (0 ∷ []) ∷ sent_response 0 ok ∷ []
unfolding program
mismatch_run = refl

created_run :
    (create_subscriber vtable configure 11 20 4 none 0 start).1.sent
    ≡ sent_logs ((5, 50) ∷ (8, 80) ∷ []) (2 ∷ []) ∷ sent_response 2 ok ∷ []
unfolding program
created_run = refl

-- A tick sends two logs, removes one log and drops both subscribers; the next round is idle.
tick_run :
    (elim (publisher_tick 20 10 vtable configure 200 0 start) as (λ _. ℕ) [
      | none ↦ 0
      | some r ↦ r.0
    ])
    ≡ 5
unfolding program
tick_run = refl

sorted : IsAscending (map key start.wal.logs)
sorted = ground arith

delivers : Delivers vtable
delivers = record {
  send = λ p logs subscribers c. (ok, p);
  sends = refl;
  delivers = λ p logs subscribers c. refl;
}

serves : Serves vtable configure 0 0
unfolding check_subscriber
serves = record {
  takes_logs = delivers;
  snapshot = λ p subscribers c. (ok, p);
  snapshots = refl;
  takes_snapshots = λ p subscribers. refl;
  response = λ p subscriber code c. (code, p);
  responds = refl;
  takes_responses = λ p code. refl;
  available = λ p. refl;
  no_request_callback = refl;
  no_force_callback = refl;
}

broadcast-pending_example :
    let logs = pending key removed_one in
    let holes = removed_one.broadcast_hole_logs in
    let all = pointers removed_one.manager.subscribers in
    let removed = pointers removed_one.gc_subscribers in
    let r = broadcast vtable 0 removed_one in
    (r.0 ≡ length holes + length logs)
    × (r.1.sent
        ≡ removed_one.sent
          ++ (packets logs all ++ packets holes all)
          ++ (packets logs removed ++ packets holes removed))
    × (pending key r.1 ≡ [])
    × (r.1.broadcast_hole_logs ≡ [])
    × (r.1.gc_subscribers ≡ [])
    × (r.1.wal ≡ removed_one.wal)
    × (r.1.manager ≡ removed_one.manager)
unfolding program
broadcast-pending_example = broadcast-pending vtable delivers key refl 0 removed_one sorted

found : find 7 start.manager ≡ some 0
unfolding program
found = refl

receive_subscribe_request-sent_example :
    let r = receive_subscribe_request vtable configure 7 3 none 20 0 start in
    let answered : List (Sent Log) =
      if needs_snapshot vtable key 3 none start
      then sent_snapshot (0 ∷ []) ∷ []
      else packets (newer key 3 start.wal.logs) (0 ∷ []) in
    (r.0 ≡ ok)
    × (r.1.sent ≡ start.sent ++ (answered ++ sent_response 0 ok ∷ []))
    × (r.1.manager.subscribers ≡ start.manager.subscribers)
    × (r.1.wal ≡ start.wal)
receive_subscribe_request-sent_example =
    receive_subscribe_request-sent vtable configure 0 0 serves key 7 3 none 20 start refl sorted
      found

limit_ten : event_limit 10 < 11
unfolding event_limit
limit_ten = ground arith

publisher_tick-ends_example :
    EndsWith vtable configure 200 0
      (event_limit 10)
      (publisher_tick 11 10 vtable configure 200 0 start)
publisher_tick-ends_example = publisher_tick-ends vtable configure 200 0 11 10 start limit_ten

keeps : KeepsKeys object_vtable key
keeps = record {
  keyed = refl;
  set_keeps = λ f l h e. ground arith;
  merge_keeps = λ f c l x e. absurd (ground arith);
  patches_keep = record {
    patch_keeps = λ a d e. absurd (ground arith);
    default_keeps = λ p o l c e. absurd (ground arith);
  };
}

-- The configuration that adds a log whose action fails.
abbrev accepting : PublisherConfigure
accepting = record configure {
  object = record configure.object { accept_log_when_hash_matched = true };
}

-- The same with room for two logs.
abbrev limited : PublisherConfigure
limited = record accepting { object = record accepting.object { max_log_size = 2 } }

limited-accepts :
    accepts object_vtable limited.object (direct_push vtable limited key keeps (9, 0) 0 start).0
    ≡ true
unfolding program
limited-accepts = refl

limited_quiet : (direct_push vtable limited key keeps (9, 0) 0 start).1.pending_logs ≡ []
unfolding program
limited_quiet = refl

not_ignored : ignores object_vtable start.wal (9, 0) ≡ false
unfolding ignores
not_ignored = refl

new_key : All (λ y. (y == 9) ≡ false) (map key start.wal.logs)
new_key = ground arith

push_back_log-pending_example :
    (p' : Publisher Log ℕ ℕ) × (push_back_log 1 vtable limited (some (9, 0)) 0 start
      ≡ some ((direct_push vtable limited key keeps (9, 0) 0 start).0, p'))
    × (map key (pending key p')
        ≡ newer (λ x. x) 4 (newest 2 (insert_key 9 (map key start.wal.logs))))
    × (map key p'.broadcast_hole_logs ≡ (
        if ltb 9 4
        then map key start.broadcast_hole_logs ++ 9 ∷ []
        else map key start.broadcast_hole_logs))
push_back_log-pending_example =
    push_back_log-pending vtable limited key keeps 0 4 (9, 0) 0 start refl refl sorted new_key refl
      refl not_ignored limited-accepts limited_quiet

-- Of the keys 5 and 8 that were pending the first is removed by the push.
pushed_run : newer (λ x. x) 4 (newest 2 (insert_key 9 (map key start.wal.logs))) ≡ 8 ∷ 9 ∷ []
unfolding insert_key newer
pushed_run = refl

-- The log that came too late is sent after the pending ones, whose hash codes were computed again.
hole_run :
    elim (push_back_log 1 vtable accepting (some (2, 0)) 0 start) as (λ _. List (Sent Log)) [
      | none ↦ []
      | some r ↦ (broadcast vtable 0 r.1).1.sent
    ]
    ≡ sent_logs ((5, 10) ∷ (8, 18) ∷ []) (0 ∷ 1 ∷ []) ∷ sent_logs ((2, 2) ∷ []) (0 ∷ 1 ∷ []) ∷ []
unfolding program push_back_log emplace_back emplace_direct drain auto_gc trim ignores
hole_run = refl
