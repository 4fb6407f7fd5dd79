-- ===== src/Wal/Publisher/CatchUp.antt =====
-- What a subscriber is sent when it asks to catch up from a checkpoint.
use atframe_utils.Base.{
  ℕ, ◌≡◌, refl, ap, ap₂, ◌∙◌, inl, inr, Bool, true, false, ◌||◌, Option, none, some, List, [], ◌∷◌,
  ◌++◌, map, if◌then◌else◌, Option-cases,
}
use atframe_utils.Wal.Types.{ResultCode, ok}
use atframe_utils.Wal.Keys.{IsAscending}
use atframe_utils.Wal.Subscriber.{Manager, find, find_entry, reset_timer}
use atframe_utils.Wal.Subscriber.Table.{reset_timer-subscribers}
use atframe_utils.Wal.Publisher.{
  PublisherConfigure, Publisher, PublisherVtable, Sent, sent_snapshot, sent_response, send_snapshot,
  send_logs, send_subscribe_response, check_subscriber,
}
use atframe_utils.Wal.Publisher.Request.{
  found_range, update_heartbeat, is_compacted, answer_with_snapshot, answer_with_logs, answer,
  serve_request, receive_request, receive_subscribe_request,
}
use atframe_utils.Wal.Publisher.Pending.{newer, held_differs, logs_since_lem}
use atframe_utils.Wal.Publisher.Sending.{Delivers, packets, sent_more, send_logs_lem, sent_twice}

-- Whether a subscriber at a checkpoint cannot be caught up by logs: some are gone, or its last log
-- is not the one with that key.
unfoldable pub needs_snapshot :
    {L P C : Type 0} → PublisherVtable L P C → (L → ℕ) → ℕ → Option ℕ → Publisher L P C → Bool
needs_snapshot vt key checkpoint check_hash_code p =
    is_compacted checkpoint p.wal.global_last_removed
    || held_differs vt key checkpoint check_hash_code p.wal.logs

module _ {L P C : Type 0} (vt : PublisherVtable L P C) (key : L → ℕ)
    (keyed : vt.object.get_log_key ≡ some key) where
  pub answer_lem :
      (name subscriber checkpoint : ℕ) (check_hash_code : Option ℕ) (param : C)
      (p : Publisher L P C)
      → IsAscending (map key p.wal.logs)
      → answer vt name subscriber checkpoint check_hash_code param p ≡ (
          if needs_snapshot vt key checkpoint check_hash_code p
          then answer_with_snapshot vt name subscriber param p
          else answer_with_logs vt (newer key checkpoint p.wal.logs) name subscriber param p)
  unfolding answer needs_snapshot
  answer_lem name subscriber checkpoint check_hash_code param p asc =
      ap (λ since. choose (is_compacted checkpoint p.wal.global_last_removed) since)
        (logs_since_lem vt key keyed checkpoint check_hash_code p.wal asc)
      ∙ chosen (is_compacted checkpoint p.wal.global_last_removed)
          (held_differs vt key checkpoint check_hash_code p.wal.logs)
    where
      choose : Bool → Option (List L) → ResultCode × Publisher L P C
      choose compacted since =
          let caught_up : ResultCode × Publisher L P C = elim since [
            | none ↦ answer_with_snapshot vt name subscriber param p
            | some logs ↦ answer_with_logs vt logs name subscriber param p
          ] in
          if compacted then answer_with_snapshot vt name subscriber param p else caught_up

      chosen :
          (compacted differs : Bool)
          → choose compacted (if differs then none else some (newer key checkpoint p.wal.logs)) ≡ (
              if compacted || differs
              then answer_with_snapshot vt name subscriber param p
              else answer_with_logs vt (newer key checkpoint p.wal.logs) name subscriber param p)
      chosen true true = refl
      chosen true false = refl
      chosen false true = refl
      chosen false false = refl

module _ {L P C : Type 0} where
  -- The client takes what it is sent and leaves the publisher alone, the subscriber is available, and
  -- neither callback before the answer is set.
  pub record Serves (vt : PublisherVtable L P C) (conf : PublisherConfigure) (subscriber : ℕ)
      (param : C) : Type 0 where
    pub takes_logs : Delivers vt
    pub snapshot : Publisher L P C → List ℕ → C → ResultCode × Publisher L P C
    pub snapshots : vt.send_snapshot ≡ some snapshot
    pub takes_snapshots :
        (p : Publisher L P C) (subscribers : List ℕ) → snapshot p subscribers param ≡ (ok, p)
    pub response : Publisher L P C → ℕ → ResultCode → C → ResultCode × Publisher L P C
    pub responds : vt.subscribe_response ≡ some response
    pub takes_responses :
        (p : Publisher L P C) (code : ResultCode) → response p subscriber code param ≡ (code, p)
    pub available : (p : Publisher L P C) → check_subscriber vt conf subscriber param p ≡ (true, p)
    pub no_request_callback : vt.on_subscriber_request ≡ none
    pub no_force_callback : vt.subscriber_force_sync_snapshot ≡ none

module _ {L P C : Type 0} (vt : PublisherVtable L P C) (conf : PublisherConfigure) (subscriber : ℕ)
    (param : C) (serves : Serves vt conf subscriber param) where
  respond_lem :
      (code : ResultCode) (p : Publisher L P C)
      → send_subscribe_response vt subscriber code param p
        ≡ (code, sent_more (sent_response subscriber code ∷ []) p)
  unfolding send_subscribe_response
  respond_lem code p = rw (send_subscribe_response, serves.responds) (serves.takes_responses _ code)

  send_snapshot_lem :
      (p : Publisher L P C)
      → send_snapshot vt (subscriber ∷ []) param p
        ≡ (ok, sent_more (sent_snapshot (subscriber ∷ []) ∷ []) p)
  unfolding send_snapshot
  send_snapshot_lem p =
      rw (send_snapshot, serves.snapshots) (serves.takes_snapshots _ (subscriber ∷ []))

  found_range-some :
      (name : ℕ) (m : Manager)
      → find name m ≡ some subscriber
      → found_range name m ≡ subscriber ∷ []
  found_range-some name m e = rw (found_range, e) refl

  -- Calls that sent some packets, and then the response.
  then_respond :
      (called : ResultCode × Publisher L P C) (sent : List (Sent L)) (p : Publisher L P C)
      → called ≡ (ok, sent_more sent p)
      → send_subscribe_response vt subscriber called.0 param called.1
        ≡ (ok, sent_more (sent ++ sent_response subscriber ok ∷ []) p)
  then_respond called sent p e =
      ap (λ (r : ResultCode × Publisher L P C). send_subscribe_response vt subscriber r.0 param r.1)
        e
      ∙ respond_lem ok (sent_more sent p)
      ∙ ap (λ q. (ok, q))
          (sent_twice vt serves.takes_logs sent (sent_response subscriber ok ∷ []) p)

  snapshot_lem :
      (name : ℕ) (p : Publisher L P C)
      → find name p.manager ≡ some subscriber
      → answer_with_snapshot vt name subscriber param p
        ≡ (ok, sent_more (sent_snapshot (subscriber ∷ []) ∷ sent_response subscriber ok ∷ []) p)
  unfolding answer_with_snapshot
  snapshot_lem name p e =
      then_respond (send_snapshot vt (found_range name p.manager) param p)
        (sent_snapshot (subscriber ∷ []) ∷ []) p
        (ap (λ range. send_snapshot vt range param p) (found_range-some name p.manager e)
          ∙ send_snapshot_lem p)

  logs_lem :
      (logs : List L) (name : ℕ) (p : Publisher L P C)
      → find name p.manager ≡ some subscriber
      → answer_with_logs vt logs name subscriber param p
        ≡ (ok, sent_more (packets logs (subscriber ∷ []) ++ sent_response subscriber ok ∷ []) p)
  unfolding answer_with_logs
  logs_lem [] name p e = respond_lem ok p
  logs_lem (x ∷ xs) name p e =
      then_respond (send_logs vt (x ∷ xs) (found_range name p.manager) param p)
        (packets (x ∷ xs) (subscriber ∷ [])) p
        (ap (λ range. send_logs vt (x ∷ xs) range param p) (found_range-some name p.manager e)
          ∙ send_logs_lem vt serves.takes_logs (x ∷ xs) (subscriber ∷ []) param p)

  serve_request_lem :
      (name checkpoint : ℕ) (check_hash_code : Option ℕ) (now : ℕ) (p : Publisher L P C)
      → serve_request vt name subscriber checkpoint check_hash_code now param p
        ≡ answer vt name subscriber checkpoint check_hash_code param
            (record p { manager = update_heartbeat now subscriber p.manager })
  unfolding serve_request
  serve_request_lem name checkpoint check_hash_code now p =
      ap₂
        (λ (request : Option (Publisher L P C → ℕ → C → Publisher L P C))
            (force : Option (Publisher L P C → ℕ → ℕ → Option ℕ → C → Bool × Publisher L P C)).
          asked
            (elim request as (λ _. Publisher L P C) [ none ↦ p1 | some f ↦ f p1 subscriber param ])
            force)
        serves.no_request_callback serves.no_force_callback
    where
      p1 : Publisher L P C
      p1 = record p { manager = update_heartbeat now subscriber p.manager }

      asked :
          Publisher L P C
          → Option (Publisher L P C → ℕ → ℕ → Option ℕ → C → Bool × Publisher L P C)
          → ResultCode × Publisher L P C
      asked p2 none = answer vt name subscriber checkpoint check_hash_code param p2
      asked p2 (some force) =
          let (forced, p3) = force p2 subscriber checkpoint check_hash_code param in
          if forced
          then answer_with_snapshot vt name subscriber param p3
          else answer vt name subscriber checkpoint check_hash_code param p3

  update_heartbeat-subscribers :
      (now : ℕ) (m : Manager) → (update_heartbeat now subscriber m).subscribers ≡ m.subscribers
  update_heartbeat-subscribers now m = elim (Option-cases (m.store subscriber)) [
    | inl e ↦ rw (update_heartbeat, e) refl
    | inr (s, e) ↦ rw (update_heartbeat, e) refl
  ]

  -- A request renews the timer and the heartbeat, and is then answered.
  received_lem :
      (name checkpoint : ℕ) (check_hash_code : Option ℕ) (now : ℕ) (p : Publisher L P C)
      → find name p.manager ≡ some subscriber
      → receive_request vt conf name checkpoint check_hash_code now param true p
        ≡ answer vt name subscriber checkpoint check_hash_code param (record p {
          manager = update_heartbeat now subscriber (reset_timer now subscriber p.manager);
        })
  unfolding receive_request
  received_lem name checkpoint check_hash_code now p e =
      let p1 = record p { manager = reset_timer now subscriber p.manager } in
      rw (receive_request, e, serves.available p1)
        (serve_request_lem name checkpoint check_hash_code now p1)

  -- Where the client takes what it is sent and no callback comes before the answer, a request of an
  -- available subscriber, on a sorted log, is answered with a snapshot if it needs one and else with
  -- the logs behind its checkpoint; then comes the response. The table of subscribers and the log
  -- stay as they are.
  pub receive_subscribe_request-sent :
      (key : L → ℕ) (name checkpoint : ℕ) (check_hash_code : Option ℕ) (now : ℕ)
      (p : Publisher L P C)
      → vt.object.get_log_key ≡ some key
      → IsAscending (map key p.wal.logs)
      → find name p.manager ≡ some subscriber
      → let r = receive_subscribe_request vt conf name checkpoint check_hash_code now param p in
        let answered : List (Sent L) =
          if needs_snapshot vt key checkpoint check_hash_code p
          then sent_snapshot (subscriber ∷ []) ∷ []
          else packets (newer key checkpoint p.wal.logs) (subscriber ∷ []) in
        (r.0 ≡ ok)
        × (r.1.sent ≡ p.sent ++ (answered ++ sent_response subscriber ok ∷ []))
        × (r.1.manager.subscribers ≡ p.manager.subscribers)
        × (r.1.wal ≡ p.wal)
  unfolding needs_snapshot
  receive_subscribe_request-sent key name checkpoint check_hash_code now p keyed asc e =
      let p1 = record p { manager = reset_timer now subscriber p.manager } in
      let q = record p { manager = update_heartbeat now subscriber p1.manager } in
      let same : q.manager.subscribers ≡ p.manager.subscribers =
        update_heartbeat-subscribers now p1.manager
        ∙ reset_timer-subscribers now subscriber p.manager in
      let served =
        received_lem name checkpoint check_hash_code now p e
        ∙ answer_lem vt key keyed name subscriber checkpoint check_hash_code param q asc
        ∙ answered (needs_snapshot vt key checkpoint check_hash_code p) q
            (ap (find_entry name) same ∙ e) in
      (
        ap (λ (r : ResultCode × Publisher L P C). r.0) served,
        ap (λ (r : ResultCode × Publisher L P C). r.1.sent) served,
        ap (λ (r : ResultCode × Publisher L P C). r.1.manager.subscribers) served ∙ same,
        ap (λ (r : ResultCode × Publisher L P C). r.1.wal) served,
      )
    where
      answered :
          (b : Bool) (q : Publisher L P C)
          → find name q.manager ≡ some subscriber
          → (if b
              then answer_with_snapshot vt name subscriber param q
              else answer_with_logs vt (newer key checkpoint p.wal.logs) name subscriber param q)
            ≡ (
              ok,
              sent_more
                  ((if b
                      then sent_snapshot (subscriber ∷ []) ∷ []
                      else packets (newer key checkpoint p.wal.logs) (subscriber ∷ []))
                    ++ sent_response subscriber ok ∷ [])
                  q,
            )
      answered true q found = snapshot_lem name q found
      answered false q found = logs_lem (newer key checkpoint p.wal.logs) name q found
