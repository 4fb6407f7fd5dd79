-- ===== src/Wal/Subscriber/Expired.antt =====
-- `get_first_expired`.
use atframe_utils.Base.{
  ℕ, ◌<◌, ◌≤◌, ◌≡◌, ◌⊎◌, All, true, false, Option, none, some, List, [], ◌∷◌, ◌++◌,
}
use atframe_utils.Wal.Subscriber.{Subscriber, SubscriberTimer, is_handle}

-- A timer that is over and is not its subscriber's any more.
abbrev pub IsStale : ℕ → (ℕ → Option Subscriber) → SubscriberTimer → Type 0
IsStale now store t = (t.timeout < now) × (is_handle t.node (store t.subscriber) ≡ false)

-- No timer, or the first one is not over.
abbrev pub IsWaiting : ℕ → List SubscriberTimer → Type 0
IsWaiting now [] = Unit
IsWaiting now (t ∷ ts) = now ≤ t.timeout

-- The first timer is over and belongs to the subscriber.
abbrev pub IsExpired : ℕ → (ℕ → Option Subscriber) → ℕ → List SubscriberTimer → Type 0
IsExpired now store p [] = ⊥
IsExpired now store p (t ∷ ts) =
    (t.timeout < now) × (t.subscriber ≡ p) × (is_handle t.node (store p) ≡ true)

-- What the loop finds.
pub record IsFound (now : ℕ) (store : ℕ → Option Subscriber) (ts : List SubscriberTimer)
    (r : Option ℕ × List SubscriberTimer) : Type 0 where
  pub erased : List SubscriberTimer
  pub split : ts ≡ erased ++ r.1
  pub stale : All (IsStale now store) erased
  pub outcome :
      ((r.0 ≡ none) × IsWaiting now r.1) ⊎ ((p : ℕ) × (r.0 ≡ some p) × IsExpired now store p r.1)
