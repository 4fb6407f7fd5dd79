-- ===== src/Lock/RwLock/Safety.antt =====
-- Mutual exclusion of spin_rw_lock under every interleaving.
use atframe_utils.Base.{
  ℕ, zero, suc, ◌+◌, ◌*◌, ◌%◌, ◌≤◌, ◌≡◌, ◌⊎◌, refl, inl, inr, sym, subst, Bool, some, List, [], ◌∷◌,
  arith, get_elem?, set, All, Option-cases,
}
use mathlib.Core.Path.{subst₃}
use mathlib.Core.Option.{some-injective}
use atframe_utils.Lock.RwLock.{
  Pc, idle, try_read_lock, reading, try_read_unlock, try_write_lock, write_lock, write_lock_again,
  write_lock_flagged, writing, try_write_unlock, Call, call_try_read_lock, call_try_write_lock,
  call_write_lock, System, Move, step, move, run, idle_threads, initial,
}

-- Whether a thread holds a share of the lock for reading, has set the flag, or may write.
unfoldable pub reads : Pc → ℕ
reads reading = 1
reads (try_read_unlock src) = 1
reads _ = 0

unfoldable pub flags : Pc → ℕ
flags write_lock_flagged = 1
flags writing = 1
flags (try_write_unlock src) = 1
flags _ = 0

unfoldable pub writes : Pc → ℕ
writes writing = 1
writes (try_write_unlock src) = 1
writes _ = 0

-- How many threads of a system do.
unfoldable pub total : (Pc → ℕ) → List Pc → ℕ
total f [] = 0
total f (t ∷ ts) = f t + total f ts

-- A thread that unlocks has loaded a status in which it held the lock.
abbrev pub IsHonest : Pc → Type 0
IsHonest (try_read_unlock src) = 2 ≤ src
IsHonest (try_write_unlock src) = src % 2 ≡ 1
IsHonest _ = Unit

-- The invariant over the numbers of readers, flags and writers.
pub record IsConsistent (status r f w : ℕ) : Type 0 where
  pub counted : status ≡ 2 * r + f
  pub one_flag : f ≤ 1
  pub flagged : w ≤ f
  pub exclusive : (w ≡ 0) ⊎ (r ≡ 0)
  pub small : status ≤ 2147483647

-- A step of a thread keeps the invariant, whatever the others hold.
step-IsConsistent :
    (spurious : Bool) (call : Call) (status : ℕ) (pc : Pc) (r f w : ℕ)
    → IsHonest pc
    → IsConsistent status (reads pc + r) (flags pc + f) (writes pc + w)
    → w ≤ f
    → let (status', pc') = step spurious call status pc in
      IsConsistent status' (reads pc' + r) (flags pc' + f) (writes pc' + w) × IsHonest pc'
unfolding step reads flags writes
step-IsConsistent sp call_try_read_lock st idle r f w h c le = ground arith
step-IsConsistent sp call_try_write_lock st idle r f w h c le = ground arith
step-IsConsistent sp call_write_lock st idle r f w h c le = ground arith
step-IsConsistent sp call st (try_read_lock src) r f w h c le = ground arith
step-IsConsistent sp call st reading r f w h c le = ground arith
step-IsConsistent sp call st (try_read_unlock src) r f w h c le = ground arith
step-IsConsistent sp call st (try_write_lock src) r f w h c le = ground arith
step-IsConsistent sp call st (write_lock src) r f w h c le = ground arith
step-IsConsistent sp call st write_lock_again r f w h c le = ground arith
step-IsConsistent sp call st write_lock_flagged r f w h c le = ground arith
step-IsConsistent sp call st writing r f w h c le = ground arith
step-IsConsistent sp call st (try_write_unlock src) r f w h c le = ground arith

total-set :
    (f : Pc → ℕ) (ts : List Pc) (i : ℕ) {t : Pc} (v : Pc)
    → f idle ≡ 0
    → get_elem? ts i ≡ some t
    → (total f ts ≡ f t + total f (set ts i idle))
      × (total f (set ts i v) ≡ f v + total f (set ts i idle))
unfolding total
total-set f [] i v z e = absurd (ground arith)
total-set f (x ∷ ts) zero {t} v z e = (ground arith, ground arith)
total-set f (x ∷ ts) (suc i) v z e = omega (arith, total-set f ts i v z e)

All-set : (ts : List Pc) (i : ℕ) (v : Pc) → All IsHonest ts → IsHonest v → All IsHonest (set ts i v)
All-set [] i v h k = tt
All-set (x ∷ ts) zero v h k = (k, h.1)
All-set (x ∷ ts) (suc i) v h k = (h.0, All-set ts i v h.1 k)

All-get_elem? :
    (ts : List Pc) (i : ℕ) {t : Pc} → All IsHonest ts → get_elem? ts i ≡ some t → IsHonest t
All-get_elem? [] i h e = absurd (ground arith)
All-get_elem? (x ∷ ts) zero {t} h e = subst IsHonest (some-injective x t e) h.0
All-get_elem? (x ∷ ts) (suc i) h e = All-get_elem? ts i h.1 e

total-writes-le : (ts : List Pc) → total writes ts ≤ total flags ts
unfolding total writes flags
total-writes-le [] = omega arith
total-writes-le (t ∷ ts) = omega (arith, total-writes-le ts, one t)
  where
    one : (t : Pc) → writes t ≤ flags t
    one idle = omega arith
    one _ = omega arith

-- The invariant of a system of threads.
pub record IsSafe (s : System) : Type 0 where
  pub consistent :
      IsConsistent s.status (total reads s.threads) (total flags s.threads) (total writes s.threads)
  pub honest : All IsHonest s.threads

-- A move of the thread at `i` keeps the invariant.
update-IsSafe :
    (s : System) (i : ℕ) (sp : Bool) (call : Call) {pc : Pc}
    → get_elem? s.threads i ≡ some pc
    → IsSafe s
    → let (status', pc') = step sp call s.status pc in
      IsSafe (record { status = status'; threads = set s.threads i pc' })
unfolding reads flags writes
update-IsSafe s i sp call {pc} e h =
    let st = s.status in
    let ts = s.threads in
    let pc' = (step sp call st pc).1 in
    let rest = set ts i idle in
    let rs = total-set reads ts i pc' refl e in
    let fs = total-set flags ts i pc' refl e in
    let ws = total-set writes ts i pc' refl e in
    let c : IsConsistent st (reads pc + total reads rest) (flags pc + total flags rest)
        (writes pc + total writes rest) =
      subst₃ (IsConsistent st) rs.0 fs.0 ws.0 h.consistent in
    let honest = All-get_elem? ts i h.honest e in
    let (c', honest') =
      step-IsConsistent sp call st pc (total reads rest) (total flags rest) (total writes rest)
        honest c (total-writes-le rest) in
    record {
      consistent = subst₃ (IsConsistent (step sp call st pc).0) (sym rs.1) (sym fs.1) (sym ws.1) c';
      honest = All-set ts i pc' h.honest honest';
    }

move-IsSafe : (m : Move) (s : System) → IsSafe s → IsSafe (move m s)
unfolding move
move-IsSafe m s h = elim (Option-cases (get_elem? s.threads m.thread)) [
  | inl e ↦ rw (e, move) h
  | inr (pc, e) ↦ rw (e, move) (update-IsSafe s m.thread m.spurious m.call e h)
]

run-IsSafe : (ms : List Move) (s : System) → IsSafe s → IsSafe (run ms s)
unfolding run
run-IsSafe [] s h = h
run-IsSafe (m ∷ ms) s h = run-IsSafe ms (move m s) (move-IsSafe m s h)

idle_threads-none :
    (n : ℕ) (f : Pc → ℕ)
    → f idle ≡ 0
    → (total f (idle_threads n) ≡ 0) × All IsHonest (idle_threads n)
unfolding total idle_threads
idle_threads-none zero f z = (refl, tt)
idle_threads-none (suc n) f z =
    (omega (arith, z, (idle_threads-none n f z).0), (tt, (idle_threads-none n f z).1))

initial-IsSafe : (n : ℕ) → IsSafe (initial n)
unfolding reads flags writes
initial-IsSafe n =
    let r = (idle_threads-none n reads refl).0 in
    let f = (idle_threads-none n flags refl).0 in
    let w = (idle_threads-none n writes refl).0 in
    record { consistent = omega (arith, r, f, w); honest = (idle_threads-none n reads refl).1 }

-- Under every schedule of any number of threads at most one thread may write, no thread reads while
-- one may write, the status is twice the number of readers plus the flag, and it stays within an
-- int32_t.
pub run-exclusive :
    (n : ℕ) (ms : List Move)
    → let s = run ms (initial n) in
      (total writes s.threads ≤ 1)
      × ((total writes s.threads ≡ 0) ⊎ (total reads s.threads ≡ 0))
      × (s.status ≡ 2 * total reads s.threads + total flags s.threads)
      × (s.status ≤ 2147483647)
run-exclusive n ms =
    let c = (run-IsSafe ms (initial n) (initial-IsSafe n)).consistent in
    (omega (arith, c.one_flag, c.flagged), c.exclusive, c.counted, c.small)
