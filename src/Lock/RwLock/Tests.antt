-- ===== src/Lock/RwLock/Tests.antt =====
-- Runs of the lock, and its theorem at a schedule.
use atframe_utils.Base.{ℕ, ◌+◌, ◌*◌, ◌≤◌, ◌≡◌, ◌⊎◌, refl, false, List, [], ◌∷◌}
use atframe_utils.Lock.RwLock.{
  Call, call_try_read_lock, call_write_lock, Pc, writing, Move, step, move, run, idle_threads,
  initial,
}
use atframe_utils.Lock.RwLock.Safety.{reads, flags, writes, total, run-exclusive}

abbrev go : ℕ → Call → Move
go i c = record { thread = i; spurious = false; call = c }

-- Thread 0 reads; thread 1 sets the flag and waits; thread 0 unlocks; thread 1 writes; thread 2
-- fails to read.
abbrev schedule : List Move
schedule =
    go 0 call_try_read_lock
    ∷ go 0 call_try_read_lock
    ∷ go 1 call_write_lock
    ∷ go 1 call_write_lock
    ∷ go 1 call_write_lock
    ∷ go 0 call_try_read_lock
    ∷ go 0 call_try_read_lock
    ∷ go 1 call_write_lock
    ∷ go 2 call_try_read_lock
    ∷ go 2 call_try_read_lock
    ∷ []

run_handover :
    run schedule (initial 3) ≡ record { status = 1; threads = Pc.idle ∷ writing ∷ Pc.idle ∷ [] }
unfolding run move step idle_threads
run_handover = refl

run-exclusive_example :
    let s = run schedule (initial 3) in
    (total writes s.threads ≤ 1)
    × ((total writes s.threads ≡ 0) ⊎ (total reads s.threads ≡ 0))
    × (s.status ≡ 2 * total reads s.threads + total flags s.threads)
    × (s.status ≤ 2147483647)
run-exclusive_example = run-exclusive 3 schedule
