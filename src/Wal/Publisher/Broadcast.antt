-- ===== src/Wal/Publisher/Broadcast.antt =====
-- wal_publisher.h: `broadcast` and `tick`.
use atframe_utils.Base.{
  ℕ, zero, suc, ◌+◌, ◌-◌, ◌/◌, ◌^◌, Bool, true, ◌&&◌, Option, none, some, List, [], ◌∷◌, ltb, ◌==◌,
  if◌then◌else◌, length, is_empty, last?, drop,
}
use atframe_utils.Wal.Object.{is_ok}
use atframe_utils.Wal.Object.Query.{log_upper_bound}
use atframe_utils.Wal.Object.Gc.{gc}
use atframe_utils.Wal.Subscriber.{set_entry, get_first_expired}
use atframe_utils.Wal.Publisher.{
  timeout, PublisherConfigure, Publisher, PublisherVtable, send_logs, set_broadcast_key_bound,
  remove_subscriber_pointer,
}

-- The pointers of a map.
abbrev pub pointers : List (ℕ × ℕ) → List ℕ
pointers [] = []
pointers ((k, p) ∷ m) = p ∷ pointers m

-- A map with the entries of another one written over it.
abbrev pub merge_entries : List (ℕ × ℕ) → List (ℕ × ℕ) → List (ℕ × ℕ)
merge_entries cache [] = cache
merge_entries cache ((k, p) ∷ m) = merge_entries (set_entry k p cache) m

-- How many events of one kind a round of `tick` may have.
abbrev pub round_size : ℕ → ℕ
round_size max_event = if ltb 16 max_event then max_event / 16 else max_event

module _ {L P C : Type 0} where
  -- The logs behind the bound, or all.
  unfoldable pub logs_to_broadcast : PublisherVtable L P C → Publisher L P C → List L
  logs_to_broadcast vt p = elim p.broadcast_key_bound [
    | none ↦ p.wal.logs
    | some bound ↦ drop (log_upper_bound vt.object p.wal bound) p.wal.logs
  ]

  -- The broadcast to all subscribers.
  unfoldable pub broadcast_to_all :
      PublisherVtable L P C → List L → C → Publisher L P C → Publisher L P C
  broadcast_to_all vt logs param p =
      let subscribers = pointers p.manager.subscribers in
      let p1 = if is_empty logs then p else (send_logs vt logs subscribers param p).1 in
      let p2 =
        if is_empty p1.broadcast_hole_logs
        then p1
        else (send_logs vt p1.broadcast_hole_logs subscribers param p1).1 in
      if is_empty subscribers then p else p2

  -- A call of `send_logs` whose result is tested, if there are logs.
  unfoldable pub send_last :
      PublisherVtable L P C → List L → List ℕ → C → Publisher L P C → Bool × Publisher L P C
  send_last vt logs subscribers param p =
      let (code, p') = send_logs vt logs subscribers param p in
      if is_empty logs then (true, p) else (is_ok code, p')

  -- The last logs for the subscribers that were removed, with the number of tries left.
  unfoldable pub last_broadcast :
      ℕ → PublisherVtable L P C → List L → C → Publisher L P C → Publisher L P C
  last_broadcast zero vt logs param p = p
  last_broadcast (suc tries) vt logs param p =
      let cache = p.gc_subscribers in
      let (send_logs_result, p1) =
        send_last vt logs (pointers cache) param (record p { gc_subscribers = [] }) in
      let (send_hole_logs_result, p2) =
        send_last vt p1.broadcast_hole_logs (pointers cache) param p1 in
      let again =
        last_broadcast tries vt logs param
          (record p2 { gc_subscribers = merge_entries cache p2.gc_subscribers }) in
      if is_empty cache
      then p
      else (if send_logs_result && send_hole_logs_result then p2 else again)

  -- The end of `broadcast`: what was sent is forgotten, and the bound moves to the last log.
  unfoldable pub move_bound : PublisherVtable L P C → List L → Publisher L P C → Publisher L P C
  move_bound vt logs p = elim (last? logs) [
    | none ↦ p
    | some last ↦ elim vt.object.get_log_key [
      | none ↦ p
      | some key ↦ set_broadcast_key_bound (key last) p
    ]
  ]

  -- `broadcast`: the number of logs, and the publisher.
  unfoldable pub broadcast : PublisherVtable L P C → C → Publisher L P C → ℕ × Publisher L P C
  broadcast vt param p = elim vt.object.get_log_key [
    | none ↦ (0, p)
    | some key ↦
        let logs = logs_to_broadcast vt p in
        let p' = last_broadcast 3 vt logs param (broadcast_to_all vt logs param p) in
        (
          length p'.broadcast_hole_logs + length logs,
          move_bound vt logs (record p' { gc_subscribers = []; broadcast_hole_logs = [] }),
        )
  ]

  -- The subscribers whose time is over, at most `round` of them: their number, and the publisher.
  unfoldable pub expire :
      ℕ → PublisherVtable L P C → PublisherConfigure → ℕ → C → Publisher L P C → ℕ × Publisher L P C
  expire zero vt conf now param p = (0, p)
  expire (suc round) vt conf now param p =
      let (found, manager) = get_first_expired now p.manager in
      let p' = record p { manager = manager } in
      elim found [
        | none ↦ (0, p')
        | some subscriber ↦
            let (n, q) =
              expire round vt conf now param
                (remove_subscriber_pointer vt conf subscriber timeout param p') in
            (suc n, q)
      ]

  -- One round of `tick`: the number of events, and the publisher.
  unfoldable pub tick_round :
      ℕ → PublisherVtable L P C → PublisherConfigure → ℕ → C → Publisher L P C → ℕ × Publisher L P C
  tick_round round vt conf now param p =
      let (sent, p1) = broadcast vt param p in
      let (removed, wal) = gc vt.object conf.object now p1.broadcast_key_bound round p1.wal in
      let (expired, p2) = expire round vt conf now param (record p1 { wal = wal }) in
      (sent + removed + expired, p2)

  -- The loop of `tick` with fuel: none where it is used up.
  unfoldable pub tick_loop :
      ℕ
      → ℕ
      → PublisherVtable L P C
      → PublisherConfigure
      → ℕ
      → C
      → ℕ
      → Publisher L P C
      → Option (ℕ × Publisher L P C)
  tick_loop zero max_event vt conf now param ret p = none
  tick_loop (suc fuel) max_event vt conf now param ret p =
      let (events, p') = tick_round (round_size max_event) vt conf now param p in
      let rest = tick_loop fuel max_event vt conf now param (ret + events) p' in
      if ltb ret max_event then (if events == 0 then some (ret, p') else rest) else some (ret, p)

  -- `tick`, where a maximum of 0 stands for that of a size_t.
  unfoldable pub publisher_tick :
      ℕ
      → ℕ
      → PublisherVtable L P C
      → PublisherConfigure
      → ℕ
      → C
      → Publisher L P C
      → Option (ℕ × Publisher L P C)
  publisher_tick fuel max_event vt conf now param p =
      tick_loop fuel (if max_event == 0 then 2 ^ 64 - 1 else max_event) vt conf now param 0 p
