-- ===== src/Wal/Client/Ticks.antt =====
-- `tick` of a client: it ends, and not before the next heartbeat is in the future.
use atframe_utils.Base.{
  ℕ, zero, suc, ◌+◌, ◌/◌, ◌<◌, ◌≤◌, ◌≡◌, ◌⊎◌, inl, inr, refl, ap, arith, Option, none, some,
  if◌then◌else◌, ltb, leb, ◌==◌, if-split, ltb→lt, ltb→le, ==_iff,
}
use atframe_utils.Wal.Object.Gc.{gc}
use atframe_utils.Wal.Client.{
  ClientConfigure, Client, ClientVtable, ask_to_subscribe, heartbeat, client_round, client_loop,
  client_tick,
}

module _ {L P C S : Type 0} (vt : ClientVtable L P C S) (conf : ClientConfigure) (now : ℕ)
    (param : C) where
  -- After a heartbeat the next one is in the future, whatever the intervals are and the callback does.
  heartbeat-future :
      (c : Client L P C) → now < (heartbeat vt conf now param c).next_heartbeat_timepoint
  unfolding heartbeat
  heartbeat-future c =
      if-split (λ (d : Client L P C). now < d.next_heartbeat_timepoint)
        (leb (ask_to_subscribe vt conf now param c).next_heartbeat_timepoint now) (λ _. omega arith)
        (λ e. ground (arith, e))

  -- A round without events leaves the next heartbeat in the future.
  round-future :
      (round : ℕ) (c : Client L P C)
      → now < (client_round round vt conf now param c).1.next_heartbeat_timepoint
  unfolding client_round
  round-future round c =
      if-split (λ (r : ℕ × Client L P C). now < r.1.next_heartbeat_timepoint)
        (leb c.next_heartbeat_timepoint now)
        (λ _.
          heartbeat-future (record c { wal = (gc vt.object conf.object now none round c.wal).1 }))
        (λ e. ground (arith, e))

  -- A call ended with so many events: either the limit is reached, or a round was idle and the next
  -- heartbeat is in the future.
  abbrev pub ClientEndsWith : ℕ → Option (ℕ × Client L P C) → Type 0
  ClientEndsWith limit result =
      (events : ℕ) × (c : Client L P C) × (result ≡ some (events, c))
      × ((limit ≤ events)
          ⊎ ((now < c.next_heartbeat_timepoint)
              × ((before : Client L P C) × (client_round
                      (if ltb 16 limit then limit / 16 else limit) vt conf now param before
                    ≡ (0, c)))))

  client_loop-ends :
      (fuel limit events : ℕ) (c : Client L P C)
      → 0 < fuel
      → limit < events + fuel
      → ClientEndsWith limit (client_loop fuel limit vt conf now param events c)
  unfolding client_loop
  client_loop-ends zero limit events c pos h = absurd (omega arith)
  client_loop-ends (suc fuel) limit events c pos h =
      let size = if ltb 16 limit then limit / 16 else limit in
      let round = client_round size vt conf now param c in
      if-split (ClientEndsWith limit) (ltb events limit)
        (λ more.
          if-split (ClientEndsWith limit) (round.0 == 0)
            (λ idle. (
              events,
              round.1,
              refl,
              inr (round-future size c, (c, ap (λ n. (n, round.1)) ((==_iff round.0 0).0 idle))),
            ))
            (λ busy.
              let below : events < limit = ltb→lt events limit more in
              let some_event : 0 < round.0 = ground (arith, busy) in
              client_loop-ends fuel limit (events + round.0) round.1 (omega arith) (omega arith)))
        (λ over. (events, c, refl, inl (ltb→le events limit over)))

  -- With more fuel than the limit of events, which is not 0, `tick` returns: it has reached the limit,
  -- or its last round had nothing to do and the next heartbeat is in the future.
  pub client_tick-ends :
      (fuel max_event : ℕ) (c : Client L P C)
      → 0 < max_event
      → max_event < fuel
      → ClientEndsWith max_event (client_tick fuel max_event vt conf now param c)
  unfolding client_tick
  client_tick-ends fuel max_event c pos h =
      if-split
        (λ (limit : ℕ). ClientEndsWith max_event (client_loop fuel limit vt conf now param 0 c))
        (max_event == 0) (λ e. absurd (ground (arith, e)))
        (λ _. client_loop-ends fuel max_event 0 c (omega arith) (omega arith))
