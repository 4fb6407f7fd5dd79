-- ===== src/Wal/Subscriber.antt =====
-- wal_subscriber.h. Subscribers are objects of a store, named by the numbers of their pointers; the
-- nodes of the timer list are named by numbers too, for the iterator that a subscriber keeps.
pub mod Expired
pub mod Table
mod Tests
use atframe_utils.Base.{
  ℕ, zero, suc, ◌+◌, Bool, true, false, not, ◌&&◌, Option, none, some, List, [], ◌∷◌, ◌++◌, ltb,
  leb, ◌==◌, if◌then◌else◌,
}

-- `wal_subscriber`; `owned` is whether `owner_` is the manager, and no handle stands for `end()`.
pub record Subscriber : Type 0 where
  pub owned : Bool
  pub key : ℕ
  pub last_heartbeat : ℕ
  pub heartbeat_timeout : ℕ
  pub timer_handle : Option ℕ

-- `timer_type`
pub record SubscriberTimer : Type 0 where
  pub node : ℕ
  pub timeout : ℕ
  pub subscriber : ℕ

-- `manager`, with the objects that are alive.
pub record Manager : Type 0 where
  pub subscribers : List (ℕ × ℕ)
  pub subscribers_timer : List SubscriberTimer
  pub store : ℕ → Option Subscriber
  pub next_pointer : ℕ
  pub next_node : ℕ

-- A write of one object.
abbrev pub put_entry : {A : Type 0} → (ℕ → Option A) → ℕ → Option A → ℕ → Option A
put_entry f k a j = if j == k then a else f j

-- The map from keys to subscribers, in the order in which it is walked: `find`, `operator[]` with an
-- assignment, and `erase`.
unfoldable pub find_entry : ℕ → List (ℕ × ℕ) → Option ℕ
find_entry k [] = none
find_entry k ((j, p) ∷ m) = if k == j then some p else find_entry k m

unfoldable pub set_entry : ℕ → ℕ → List (ℕ × ℕ) → List (ℕ × ℕ)
set_entry k p [] = (k, p) ∷ []
set_entry k p ((j, q) ∷ m) =
    let rest = set_entry k p m in if k == j then (j, p) ∷ m else (j, q) ∷ rest

unfoldable pub erase_entry : ℕ → List (ℕ × ℕ) → List (ℕ × ℕ)
erase_entry k [] = []
erase_entry k ((j, q) ∷ m) = let rest = erase_entry k m in if k == j then rest else (j, q) ∷ rest

abbrev pub put_subscriber : ℕ → Subscriber → Manager → Manager
put_subscriber p s m = record m { store = put_entry m.store p (some s) }

-- `erase` of a node.
unfoldable pub erase_node : ℕ → List SubscriberTimer → List SubscriberTimer
erase_node id [] = []
erase_node id (t ∷ ts) = let rest = erase_node id ts in if t.node == id then rest else t ∷ rest

-- `remove_subscriber_timer` of a subscriber's handle.
unfoldable pub remove_subscriber_timer : ℕ → Subscriber → Manager → Manager
remove_subscriber_timer p s m = elim s.timer_handle [
  | none ↦ m
  | some id ↦
      put_subscriber p (record s { timer_handle = none })
        (record m { subscribers_timer = erase_node id m.subscribers_timer })
]

-- The end of `insert_subscriber_timer`, where no timer is there any more.
abbrev pub push_timer : ℕ → ℕ → Subscriber → Manager → Manager
push_timer now p s m =
    put_subscriber p (record s { timer_handle = some m.next_node })
      (record m {
        subscribers_timer =
            m.subscribers_timer
            ++ record { node = m.next_node; timeout = now + s.heartbeat_timeout; subscriber = p }
              ∷ [];
        next_node = m.next_node + 1;
      })

-- `insert_subscriber_timer`
unfoldable pub insert_subscriber_timer : ℕ → ℕ → Manager → Manager
insert_subscriber_timer now p m = elim (m.store p) [
  | none ↦ m
  | some s ↦ if s.owned then push_timer now p s (remove_subscriber_timer p s m) else m
]

-- `reset_timer`
unfoldable pub reset_timer : ℕ → ℕ → Manager → Manager
reset_timer now p m = elim (m.store p) [
  | none ↦ m
  | some s ↦ if s.owned then insert_subscriber_timer now p (remove_subscriber_timer p s m) else m
]

-- `subscribe`
unfoldable pub subscribe : ℕ → ℕ → Manager → Manager
subscribe now p m = elim (m.store p) [
  | none ↦ m
  | some s ↦
      if s.owned
      then reset_timer now p (put_subscriber p (record s { last_heartbeat = now }) m)
      else m
]

-- `unbind_owner`
unfoldable pub unbind_owner : ℕ → Subscriber → Manager → Manager
unbind_owner p s m =
    if s.owned
    then put_subscriber p (record s { owned = false; timer_handle = none })
        (remove_subscriber_timer p s m)
    else m

-- The end of `unsubscribe`: the entry is erased and the subscriber unbound.
unfoldable pub unsubscribe_found : ℕ → ℕ → Manager → Manager
unsubscribe_found key p m =
    let m' = record m { subscribers = erase_entry key m.subscribers } in
    elim (m.store p) [ none ↦ m' | some s ↦ unbind_owner p s m' ]

-- `unsubscribe` by key.
unfoldable pub unsubscribe_key : ℕ → Manager → Option ℕ × Manager
unsubscribe_key key m = elim (find_entry key m.subscribers) [
  | none ↦ (none, m)
  | some p ↦ (some p, unsubscribe_found key p m)
]

-- `unsubscribe` by pointer.
unfoldable pub unsubscribe_pointer : ℕ → Manager → Option ℕ × Manager
unsubscribe_pointer p m = elim (m.store p) [
  | none ↦ (none, m)
  | some s ↦ elim (find_entry s.key m.subscribers) [
    | none ↦ (none, m)
    | some q ↦ if q == p then (some p, unsubscribe_found s.key p m) else (none, m)
  ]
]

-- A new subscriber of `allocate`, with its timer.
abbrev pub new_subscriber : ℕ → ℕ → ℕ → Manager → ℕ × Manager
new_subscriber key now timeout m =
    let p = m.next_pointer in
    let s : Subscriber = record {
      owned = true;
      key = key;
      last_heartbeat = now;
      heartbeat_timeout = timeout;
      timer_handle = none;
    } in
    (
      p,
      insert_subscriber_timer now p (
          put_subscriber p s
            (record m { subscribers = set_entry key p m.subscribers; next_pointer = p + 1 })),
    )

-- `allocate`, `create`: for a key that is there only the heartbeat and its timeout are written.
unfoldable pub allocate : ℕ → ℕ → ℕ → Manager → ℕ × Manager
allocate key now timeout m = elim (find_entry key m.subscribers) [
  | none ↦ new_subscriber key now timeout m
  | some p ↦ elim (m.store p) [
    | none ↦ new_subscriber key now timeout m
    | some s ↦
        (p, put_subscriber p (record s { last_heartbeat = now; heartbeat_timeout = timeout }) m)
  ]
]

-- `find`
abbrev pub find : ℕ → Manager → Option ℕ
find key m = find_entry key m.subscribers

-- Whether a node is the one of its subscriber's handle.
abbrev pub is_handle : ℕ → Option Subscriber → Bool
is_handle id none = false
is_handle id (some s) = elim s.timer_handle [ none ↦ false | some h ↦ h == id ]

-- The loop of `get_first_expired` over the timers: the subscriber and the timers that are left.
unfoldable pub first_expired :
    ℕ → (ℕ → Option Subscriber) → List SubscriberTimer → Option ℕ × List SubscriberTimer
first_expired now store [] = (none, [])
first_expired now store (t ∷ ts) =
    let rest = first_expired now store ts in
    if leb now t.timeout
    then (none, t ∷ ts)
    else (if is_handle t.node (store t.subscriber) then (some t.subscriber, t ∷ ts) else rest)

-- `get_first_expired`
unfoldable pub get_first_expired : ℕ → Manager → Option ℕ × Manager
get_first_expired now m =
    let (found, timers) = first_expired now m.store m.subscribers_timer in
    (found, record m { subscribers_timer = timers })

-- `is_offline`
abbrev pub is_offline : ℕ → Subscriber → Bool
is_offline now s = leb (s.last_heartbeat + s.heartbeat_timeout) now
