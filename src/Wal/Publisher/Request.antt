-- ===== src/Wal/Publisher/Request.antt =====
-- wal_publisher.h: subscribers and their requests.
use atframe_utils.Base.{
  ℕ, Bool, true, false, not, ◌&&◌, Option, none, some, List, [], ◌∷◌, ltb, ◌==◌, if◌then◌else◌,
  drop,
}
use atframe_utils.Wal.Types.{ResultCode, ok, subscriber_not_found, Object, Vtable}
use atframe_utils.Wal.Object.{hash_fns}
use atframe_utils.Wal.Object.Query.{log_lower_bound}
use atframe_utils.Wal.Subscriber.{Manager, find, put_subscriber, reset_timer, subscribe, allocate}
use atframe_utils.Wal.Publisher.{
  PublisherConfigure, Publisher, PublisherVtable, send_snapshot, send_logs, send_subscribe_response,
  check_subscriber, find_subscriber,
}

-- `find_iterator`: the range of one key.
abbrev pub found_range : ℕ → Manager → List ℕ
found_range key m = elim (find key m) [ none ↦ [] | some subscriber ↦ subscriber ∷ [] ]

-- `update_heartbeat_time_point` of a subscriber that is alive.
abbrev pub update_heartbeat : ℕ → ℕ → Manager → Manager
update_heartbeat now subscriber m = elim (m.store subscriber) [
  | none ↦ m
  | some s ↦ put_subscriber subscriber (record s { last_heartbeat = now }) m
]

-- `set_heartbeat_timeout` of a subscriber that is alive.
abbrev pub set_heartbeat_timeout : ℕ → ℕ → Manager → Manager
set_heartbeat_timeout timeout subscriber m = elim (m.store subscriber) [
  | none ↦ m
  | some s ↦ put_subscriber subscriber (record s { heartbeat_timeout = timeout }) m
]

-- A checkpoint below the last removed key cannot be caught up with from the logs.
abbrev pub is_compacted : ℕ → Option ℕ → Bool
is_compacted checkpoint none = false
is_compacted checkpoint (some removed) = ltb checkpoint removed

-- What a subscriber with the checkpoint is still to get of the logs from its lower bound on, or none
-- if the log of the checkpoint differs.
unfoldable pub logs_from : {L : Type 0} → (L → ℕ) → (L → Bool) → ℕ → List L → Option (List L)
logs_from key differs last_checkpoint [] = some []
logs_from key differs last_checkpoint (log ∷ after) =
    if not (ltb last_checkpoint (key log)) && not (ltb (key log) last_checkpoint)
    then (if differs log then none else some after)
    else some (log ∷ after)

module _ {L P C : Type 0} where
  -- The hash code of the request, if there is one, is not that of the log.
  unfoldable pub hash_differs : Vtable L P C → Option ℕ → L → Bool
  hash_differs vt check_hash_code log = elim check_hash_code [
    | none ↦ false
    | some code ↦ elim (hash_fns vt) [ none ↦ false | some fns ↦ not (code == fns.get log) ]
  ]

  -- The logs to send to a subscriber that has the checkpoint, or none if it is to have a snapshot.
  unfoldable pub logs_since : Vtable L P C → ℕ → Option ℕ → Object L P C → Option (List L)
  logs_since vt last_checkpoint check_hash_code wal = elim vt.get_log_key [
    | none ↦ some []
    | some key ↦
        logs_from key (hash_differs vt check_hash_code) last_checkpoint
          (drop (log_lower_bound vt wal last_checkpoint) wal.logs)
  ]

  -- A snapshot to the subscriber of a key, and the response.
  unfoldable pub answer_with_snapshot :
      PublisherVtable L P C → ℕ → ℕ → C → Publisher L P C → ResultCode × Publisher L P C
  answer_with_snapshot vt key subscriber param p =
      let (notify_result, p') = send_snapshot vt (found_range key p.manager) param p in
      send_subscribe_response vt subscriber notify_result param p'

  -- Logs, if there are any, to the subscriber of a key, and the response.
  unfoldable pub answer_with_logs :
      PublisherVtable L P C → List L → ℕ → ℕ → C → Publisher L P C → ResultCode × Publisher L P C
  answer_with_logs vt [] key subscriber param p = send_subscribe_response vt subscriber ok param p
  answer_with_logs vt (log ∷ logs) key subscriber param p =
      let (notify_result, p') = send_logs vt (log ∷ logs) (found_range key p.manager) param p in
      send_subscribe_response vt subscriber notify_result param p'

  -- The end of `_receive_subscribe_request`, where no snapshot is forced.
  unfoldable pub answer :
      PublisherVtable L P C
      → ℕ
      → ℕ
      → ℕ
      → Option ℕ
      → C
      → Publisher L P C
      → ResultCode × Publisher L P C
  answer vt key subscriber last_checkpoint check_hash_code param p =
      let snapshot = answer_with_snapshot vt key subscriber param p in
      let caught_up : ResultCode × Publisher L P C =
        elim (logs_since vt.object last_checkpoint check_hash_code p.wal) [
          | none ↦ snapshot
          | some logs ↦ answer_with_logs vt logs key subscriber param p
        ] in
      if is_compacted last_checkpoint p.wal.global_last_removed then snapshot else caught_up

  -- The callbacks of a request of a subscriber that is available, and the answer.
  unfoldable pub serve_request :
      PublisherVtable L P C
      → ℕ
      → ℕ
      → ℕ
      → Option ℕ
      → ℕ
      → C
      → Publisher L P C
      → ResultCode × Publisher L P C
  serve_request vt key subscriber last_checkpoint check_hash_code now param p =
      let p1 = record p { manager = update_heartbeat now subscriber p.manager } in
      let p2 : Publisher L P C = elim vt.on_subscriber_request [
        | none ↦ p1
        | some f ↦ f p1 subscriber param
      ] in
      elim vt.subscriber_force_sync_snapshot [
        | none ↦ answer vt key subscriber last_checkpoint check_hash_code param p2
        | some force ↦
            let (forced, p3) = force p2 subscriber last_checkpoint check_hash_code param in
            if forced
            then answer_with_snapshot vt key subscriber param p3
            else answer vt key subscriber last_checkpoint check_hash_code param p3
      ]

  -- `_receive_subscribe_request`
  unfoldable pub receive_request :
      PublisherVtable L P C
      → PublisherConfigure
      → ℕ
      → ℕ
      → Option ℕ
      → ℕ
      → C
      → Bool
      → Publisher L P C
      → ResultCode × Publisher L P C
  receive_request vt conf key last_checkpoint check_hash_code now param resets_timer p =
      elim (find key p.manager) [
        | none ↦ (subscriber_not_found, p)
        | some subscriber ↦
            let p1 =
              if resets_timer
              then record p { manager = reset_timer now subscriber p.manager }
              else p in
            let (available, p2) = check_subscriber vt conf subscriber param p1 in
            if available
            then serve_request vt key subscriber last_checkpoint check_hash_code now param p2
            else (subscriber_not_found, p2)
      ]

  -- Both `receive_subscribe_request`, with a hash code or without one.
  abbrev pub receive_subscribe_request :
      PublisherVtable L P C
      → PublisherConfigure
      → ℕ
      → ℕ
      → Option ℕ
      → ℕ
      → C
      → Publisher L P C
      → ResultCode × Publisher L P C
  receive_subscribe_request vt conf key last_checkpoint check_hash_code now param p =
      receive_request vt conf key last_checkpoint check_hash_code now param true p

  -- Both `create_subscriber`: a subscriber that is there is only kept alive.
  unfoldable pub create_subscriber :
      PublisherVtable L P C
      → PublisherConfigure
      → ℕ
      → ℕ
      → ℕ
      → Option ℕ
      → C
      → Publisher L P C
      → ℕ × Publisher L P C
  create_subscriber vt conf key now last_checkpoint check_hash_code param p =
      let (found, p1) = find_subscriber vt conf key param p in
      elim found [
        | some subscriber ↦ (
          subscriber,
          record p1 {
            manager =
                subscribe now subscriber
                  (set_heartbeat_timeout conf.subscriber_timeout subscriber p1.manager);
          },
        )
        | none ↦
            let (subscriber, manager) = allocate key now conf.subscriber_timeout p1.manager in
            let p2 = record p1 { manager = manager } in
            let p3 : Publisher L P C = elim vt.on_subscriber_added [
              | none ↦ p2
              | some f ↦ f p2 subscriber param
            ] in
            (
              subscriber,
              (receive_request vt conf key last_checkpoint check_hash_code now param false p3).1,
            )
      ]
