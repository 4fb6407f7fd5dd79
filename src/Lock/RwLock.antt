-- ===== src/Lock/RwLock.antt =====
-- spin_rw_lock.h. The status is the atomic `lock_status_`; a thread stands between two accesses to
-- it, with its local copy `src_status`. A step is one atomic access of one thread.
pub mod Safety
mod Tests
use atframe_utils.Base.{
  ℕ, zero, suc, ◌+◌, ◌-◌, ◌%◌, Bool, true, false, not, ◌&&◌, ◌||◌, Option, none, some, List, [],
  ◌∷◌, ltb, leb, ◌==◌, if◌then◌else◌, get_elem?, set,
}

-- Where a thread stands: idle; in the loop of a call with the status that it has loaded; about to
-- load it again; or holding the lock.
pub data Pc : Type 0 where
  idle : Pc
  try_read_lock : ℕ → Pc
  reading : Pc
  try_read_unlock : ℕ → Pc
  try_write_lock : ℕ → Pc
  write_lock : ℕ → Pc
  write_lock_again : Pc
  write_lock_flagged : Pc
  writing : Pc
  try_write_unlock : ℕ → Pc

-- What an idle thread calls. `read_lock` is a `try_read_lock` that is called again.
pub data Call : Type 0 where
  call_try_read_lock call_try_write_lock call_write_lock : Call

-- `WRITE_LOCK_FLAG` in the status.
abbrev pub has_write_flag : ℕ → Bool
has_write_flag status = status % 2 == 1

-- INT32_MAX - 1
abbrev pub max_read_lock_holder : ℕ
max_read_lock_holder = 2147483646

-- `compare_exchange_weak`, which may also fail without a reason.
abbrev pub exchanged : Bool → ℕ → ℕ → Bool
exchanged spurious status src = (status == src) && not spurious

-- One step of a thread: the status and where the thread stands afterwards.
unfoldable pub step : Bool → Call → ℕ → Pc → ℕ × Pc
step spurious call_try_read_lock status idle = (status, try_read_lock status)
step spurious call_try_write_lock status idle = (status, try_write_lock status)
step spurious call_write_lock status idle = (status, write_lock status)
step spurious call status (try_read_lock src) =
    if has_write_flag src || leb max_read_lock_holder src
    then (status, idle)
    else (if exchanged spurious status src
        then (src + 2, reading)
        else (status, try_read_lock status))
step spurious call status reading = (status, try_read_unlock status)
step spurious call status (try_read_unlock src) =
    if ltb src 2
    then (status, idle)
    else (if exchanged spurious status src
        then (src - 2, idle)
        else (status, try_read_unlock status))
step spurious call status (try_write_lock src) =
    if has_write_flag src || leb 2 src
    then (status, idle)
    else (if exchanged spurious status src
        then (src + 1, writing)
        else (status, try_write_lock status))
step spurious call status (write_lock src) =
    if has_write_flag src
    then (status, write_lock_again)
    else (if exchanged spurious status src
        then (src + 1, write_lock_flagged)
        else (status, write_lock_again))
step spurious call status write_lock_again = (status, write_lock status)
step spurious call status write_lock_flagged =
    if ltb status 2 then (status, writing) else (status, write_lock_flagged)
step spurious call status writing = (status, try_write_unlock status)
step spurious call status (try_write_unlock src) =
    if not (has_write_flag src)
    then (status, idle)
    else (if exchanged spurious status src
        then (src - 1, idle)
        else (status, try_write_unlock status))

pub record System : Type 0 where
  pub status : ℕ
  pub threads : List Pc

-- One move of a schedule: which thread, whether its exchange fails spuriously, what it calls.
pub record Move : Type 0 where
  pub thread : ℕ
  pub spurious : Bool
  pub call : Call

-- A move of a thread that is not there does nothing.
unfoldable pub move : Move → System → System
move m s = elim (get_elem? s.threads m.thread) [
  | none ↦ s
  | some pc ↦
      let (status, pc') = step m.spurious m.call s.status pc in
      record { status = status; threads = set s.threads m.thread pc' }
]

unfoldable pub run : List Move → System → System
run [] s = s
run (m ∷ ms) s = run ms (move m s)

-- The lock of the constructor, with idle threads.
unfoldable pub idle_threads : ℕ → List Pc
idle_threads zero = []
idle_threads (suc n) = idle ∷ idle_threads n

abbrev pub initial : ℕ → System
initial n = record { status = 0; threads = idle_threads n }
