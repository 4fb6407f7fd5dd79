-- ===== src/Wal/Publisher/Ticks.antt =====
-- `tick` ends: each round but the last has an event, and the events are bounded.
use atframe_utils.Base.{
  ℕ, zero, suc, ◌+◌, ◌-◌, ◌^◌, ◌<◌, ◌≤◌, ◌≡◌, ◌⊎◌, inl, inr, refl, ap, arith, Option, some,
  if◌then◌else◌, ltb, ◌==◌, if-split, ltb→lt, ltb→le, ==_iff,
}
use atframe_utils.Wal.Publisher.{PublisherConfigure, Publisher, PublisherVtable}
use atframe_utils.Wal.Publisher.Broadcast.{round_size, tick_round, tick_loop, publisher_tick}

-- The maximum of events of a call.
unfoldable pub event_limit : ℕ → ℕ
event_limit max_event = if max_event == 0 then 2 ^ 64 - 1 else max_event

module _ {L P C : Type 0} (vt : PublisherVtable L P C) (conf : PublisherConfigure) (now : ℕ)
    (param : C) where
  -- A publisher comes out of a round in which nothing happened.
  abbrev pub IsIdleRound : ℕ → Publisher L P C → Type 0
  IsIdleRound limit q =
      (before : Publisher L P C) × (tick_round (round_size limit) vt conf now param before ≡ (0, q))

  -- A call ended with so many events, and then either the limit is reached or a round was idle.
  abbrev pub EndsWith : ℕ → Option (ℕ × Publisher L P C) → Type 0
  EndsWith limit result =
      (events : ℕ) × (q : Publisher L P C) × (result ≡ some (events, q))
      × ((limit ≤ events) ⊎ IsIdleRound limit q)

  tick_loop-ends :
      (fuel limit events : ℕ) (p : Publisher L P C)
      → 0 < fuel
      → limit < events + fuel
      → EndsWith limit (tick_loop fuel limit vt conf now param events p)
  unfolding tick_loop
  tick_loop-ends zero limit events p pos h = absurd (omega arith)
  tick_loop-ends (suc fuel) limit events p pos h =
      let round = tick_round (round_size limit) vt conf now param p in
      if-split (EndsWith limit) (ltb events limit)
        (λ more.
          if-split (EndsWith limit) (round.0 == 0)
            (λ idle.
              (events, round.1, refl, inr (p, ap (λ n. (n, round.1)) ((==_iff round.0 0).0 idle))))
            (λ busy.
              let below : events < limit = ltb→lt events limit more in
              let some_event : 0 < round.0 = ground (arith, busy) in
              tick_loop-ends fuel limit (events + round.0) round.1 (omega arith) (omega arith)))
        (λ over. (events, p, refl, inl (ltb→le events limit over)))

  -- With more fuel than the limit of events, `tick` returns: it has reached the limit, or its last
  -- round had nothing to send, nothing to remove and nobody to drop.
  pub publisher_tick-ends :
      (fuel max_event : ℕ) (p : Publisher L P C)
      → event_limit max_event < fuel
      → EndsWith (event_limit max_event) (publisher_tick fuel max_event vt conf now param p)
  unfolding publisher_tick event_limit
  publisher_tick-ends fuel max_event p h =
      tick_loop-ends fuel (if max_event == 0 then 2 ^ 64 - 1 else max_event) 0 p (omega arith)
        (omega arith)
