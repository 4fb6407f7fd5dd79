-- ===== src/Wal/Publisher.antt =====
-- wal_publisher.h over wal_object.h and wal_subscriber.h. A range of subscribers is the list of
-- their pointers, a range of logs the list of the logs. A callback gets the publisher and gives it
-- back, with the table of subscribers or its private data changed as it likes.
pub mod Broadcast
pub mod Request
pub mod Pending
pub mod Sending
pub mod Delivery
pub mod CatchUp
pub mod Ticks
pub mod Trimmed
pub mod Holes
mod Tests
use atframe_utils.Base.{
  ℕ, zero, suc, ◌+◌, ◌-◌, ◌/◌, ◌^◌, Bool, true, false, not, ◌&&◌, Option, none, some, List, [], ◌∷◌,
  ◌++◌, map, ltb, ◌==◌, if◌then◌else◌, length, is_empty, last?, drop,
}
use atframe_utils.Wal.Types.{
  ResultCode, ok, action_not_set, subscriber_not_found, Event, listeners_added, listeners_assigned,
  log_added, log_removed, Configure, Object, Vtable,
}
use atframe_utils.Wal.Object.{is_ok, assign_logs, hash_fns}
use atframe_utils.Wal.Object.Push.{emplace_back}
use atframe_utils.Wal.Object.Query.{log_lower_bound, log_upper_bound}
use atframe_utils.Wal.Object.Gc.{gc}
use atframe_utils.Wal.Subscriber.{
  Subscriber, Manager, find, find_entry, set_entry, put_subscriber, reset_timer, subscribe,
  unsubscribe_key, unsubscribe_pointer, allocate, get_first_expired,
}

-- `wal_unsubscribe_reason`
pub data Reason : Type 0 where
  no_reason timeout client_request invalid : Reason

-- `configure_type`
pub record PublisherConfigure : Type 0 where
  pub object : Configure
  pub subscriber_timeout : ℕ
  pub enable_last_broadcast_for_removed_subscriber : Bool
  pub enable_hole_log : Bool

-- A call of `send_logs`, `send_snapshot` or `subscribe_response`.
pub data Sent (L : Type 0) : Type 0 where
  sent_logs : List L → List ℕ → Sent L
  sent_snapshot : List ℕ → Sent L
  sent_response : ℕ → ResultCode → Sent L

-- The state of `wal_publisher`, with the calls that it made.
pub record Publisher (L P C : Type 0) : Type 0 where
  pub wal : Object L P C
  pub manager : Manager
  pub gc_subscribers : List (ℕ × ℕ)
  pub broadcast_key_bound : Option ℕ
  pub broadcast_hole_logs : List L
  pub sent : List (Sent L)

-- `vtable_type`
pub record PublisherVtable (L P C : Type 0) : Type 0 where
  pub object : Vtable L P C
  pub send_snapshot : Option (Publisher L P C → List ℕ → C → ResultCode × Publisher L P C)
  pub send_logs : Option (Publisher L P C → List L → List ℕ → C → ResultCode × Publisher L P C)
  pub subscribe_response :
      Option (Publisher L P C → ℕ → ResultCode → C → ResultCode × Publisher L P C)
  pub check_subscriber : Option (Publisher L P C → ℕ → C → Bool × Publisher L P C)
  pub subscriber_force_sync_snapshot :
      Option (Publisher L P C → ℕ → ℕ → Option ℕ → C → Bool × Publisher L P C)
  pub on_subscriber_request : Option (Publisher L P C → ℕ → C → Publisher L P C)
  pub on_subscriber_added : Option (Publisher L P C → ℕ → C → Publisher L P C)
  pub on_subscriber_removed : Option (Publisher L P C → ℕ → Reason → C → Publisher L P C)

-- The key of a subscriber that is alive.
abbrev pub key_of : ℕ → Manager → ℕ
key_of subscriber m = elim (m.store subscriber) [ none ↦ 0 | some s ↦ s.key ]

module _ {L P C : Type 0} where
  abbrev pub note_sent : Sent L → Publisher L P C → Publisher L P C
  note_sent s p = record p { sent = p.sent ++ s ∷ [] }

  -- `send_snapshot`
  unfoldable pub send_snapshot :
      PublisherVtable L P C → List ℕ → C → Publisher L P C → ResultCode × Publisher L P C
  send_snapshot vt subscribers param p = elim vt.send_snapshot [
    | none ↦ (action_not_set, p)
    | some f ↦
        let called = f (note_sent (sent_snapshot subscribers) p) subscribers param in
        if is_empty subscribers then (ok, p) else called
  ]

  -- `send_logs`
  unfoldable pub send_logs :
      PublisherVtable L P C → List L → List ℕ → C → Publisher L P C → ResultCode × Publisher L P C
  send_logs vt logs subscribers param p = elim vt.send_logs [
    | none ↦ (action_not_set, p)
    | some f ↦
        let called = f (note_sent (sent_logs logs subscribers) p) logs subscribers param in
        if is_empty logs then (ok, p) else (if is_empty subscribers then (ok, p) else called)
  ]

  -- `send_subscribe_response` to a subscriber that is there.
  unfoldable pub send_subscribe_response :
      PublisherVtable L P C → ℕ → ResultCode → C → Publisher L P C → ResultCode × Publisher L P C
  send_subscribe_response vt subscriber code param p = elim vt.subscribe_response [
    | none ↦ (code, p)
    | some f ↦ f (note_sent (sent_response subscriber code) p) subscriber code param
  ]

  -- `set_broadcast_key_bound`
  abbrev pub set_broadcast_key_bound : ℕ → Publisher L P C → Publisher L P C
  set_broadcast_key_bound k p = record p { broadcast_key_bound = some k }

  -- The listener of `internal_event_on_add_log_`: a log below the bound is a hole.
  unfoldable pub on_add_log :
      PublisherVtable L P C → PublisherConfigure → L → Publisher L P C → Publisher L P C
  on_add_log vt conf log p = elim p.broadcast_key_bound [
    | none ↦ p
    | some bound ↦ elim vt.object.get_log_key [
      | none ↦ p
      | some key ↦
          if conf.enable_hole_log && ltb (key log) bound
          then record p { broadcast_hole_logs = p.broadcast_hole_logs ++ log ∷ [] }
          else p
    ]
  ]

  -- The listener of `internal_event_on_assign_logs_`: all assigned logs count as broadcast.
  unfoldable pub on_assign_logs : PublisherVtable L P C → Publisher L P C → Publisher L P C
  on_assign_logs vt p =
      let p' = record p { broadcast_hole_logs = [] } in
      elim (last? p.wal.logs) [
        | none ↦ p'
        | some newest ↦ elim vt.object.get_log_key [
          | none ↦ p'
          | some key ↦ set_broadcast_key_bound (key newest) p'
        ]
      ]

  -- The listeners of the publisher hear the events of the log in their order.
  unfoldable pub hear :
      PublisherVtable L P C
      → PublisherConfigure
      → List (Event L)
      → Publisher L P C
      → Publisher L P C
  hear vt conf [] p = p
  hear vt conf (listeners_added log ∷ es) p = hear vt conf es (on_add_log vt conf log p)
  hear vt conf (listeners_assigned ∷ es) p = hear vt conf es (on_assign_logs vt p)
  hear vt conf (log_added log ∷ es) p = hear vt conf es p
  hear vt conf (log_removed log ∷ es) p = hear vt conf es p

  -- The log after a call of it, whose new events are heard.
  abbrev pub with_wal :
      PublisherVtable L P C → PublisherConfigure → Object L P C → Publisher L P C → Publisher L P C
  with_wal vt conf wal p =
      hear vt conf (drop (length p.wal.events) wal.events) (record p { wal = wal })

  -- `push_back_log`, `emplace_back_log`, with the fuel of `emplace_back`.
  unfoldable pub push_back_log :
      ℕ
      → PublisherVtable L P C
      → PublisherConfigure
      → Option L
      → C
      → Publisher L P C
      → Option (ResultCode × Publisher L P C)
  push_back_log fuel vt conf log param p =
      elim (emplace_back fuel vt.object conf.object p.wal log param) [
        | none ↦ none
        | some (code, wal) ↦ some (code, with_wal vt conf wal p)
      ]

  -- `assign_logs`
  abbrev pub publisher_assign_logs :
      PublisherVtable L P C → PublisherConfigure → List L → Publisher L P C → Publisher L P C
  publisher_assign_logs vt conf source p = with_wal vt conf (assign_logs source p.wal) p

  -- The end of both `remove_subscriber`, where the manager gave a subscriber.
  unfoldable pub removed_subscriber :
      PublisherVtable L P C
      → PublisherConfigure
      → ℕ
      → ℕ
      → Reason
      → C
      → Publisher L P C
      → Publisher L P C
  removed_subscriber vt conf key subscriber reason param p =
      let p' =
        if conf.enable_last_broadcast_for_removed_subscriber
        then record p { gc_subscribers = set_entry key subscriber p.gc_subscribers }
        else p in
      elim vt.on_subscriber_removed [ none ↦ p' | some f ↦ f p' subscriber reason param ]

  -- `remove_subscriber` by key.
  unfoldable pub remove_subscriber :
      PublisherVtable L P C
      → PublisherConfigure
      → ℕ
      → Reason
      → C
      → Publisher L P C
      → Publisher L P C
  remove_subscriber vt conf key reason param p =
      let (found, manager) = unsubscribe_key key p.manager in
      elim found [
        | none ↦ p
        | some subscriber ↦
            removed_subscriber vt conf key subscriber reason param (record p { manager = manager })
      ]

  -- `remove_subscriber` by pointer.
  unfoldable pub remove_subscriber_pointer :
      PublisherVtable L P C
      → PublisherConfigure
      → ℕ
      → Reason
      → C
      → Publisher L P C
      → Publisher L P C
  remove_subscriber_pointer vt conf checked reason param p =
      let (found, manager) = unsubscribe_pointer checked p.manager in
      elim found [
        | none ↦ p
        | some subscriber ↦
            removed_subscriber vt conf (key_of subscriber manager) subscriber reason param
              (record p { manager = manager })
      ]

  -- `check_subscriber` of a subscriber that is there.
  unfoldable pub check_subscriber :
      PublisherVtable L P C → PublisherConfigure → ℕ → C → Publisher L P C → Bool × Publisher L P C
  check_subscriber vt conf subscriber param p = elim vt.check_subscriber [
    | none ↦ (true, p)
    | some f ↦
        let (available, p') = f p subscriber param in
        if available
        then (true, p')
        else (false, remove_subscriber_pointer vt conf subscriber invalid param p')
  ]

  -- `find_subscriber`
  unfoldable pub find_subscriber :
      PublisherVtable L P C
      → PublisherConfigure
      → ℕ
      → C
      → Publisher L P C
      → Option ℕ × Publisher L P C
  find_subscriber vt conf key param p = elim (find key p.manager) [
    | none ↦ (none, p)
    | some subscriber ↦
        let (available, p') = check_subscriber vt conf subscriber param p in
        (if available then some subscriber else none, p')
  ]
