-- ===== src/Wal/Subscriber/Table.antt =====
-- The table of subscribers.
use atframe_utils.Base.{
  if-split, ℕ, ◌≡◌, ap, inl, inr, refl, ◌∙◌, arith, List, [], ◌∷◌, ==_iff, Option, none, some,
  Option-cases, ◌==◌, if◌then◌else◌,
}
use atframe_utils.Wal.Subscriber.{
  Subscriber, Manager, find_entry, set_entry, erase_entry, remove_subscriber_timer,
  insert_subscriber_timer, unbind_owner, reset_timer, unsubscribe_found, unsubscribe_key,
  new_subscriber, allocate, find,
}

remove_subscriber_timer-subscribers :
    (p : ℕ) (s : Subscriber) (m : Manager)
    → (remove_subscriber_timer p s m).subscribers ≡ m.subscribers
unfolding remove_subscriber_timer
remove_subscriber_timer-subscribers p s m = elim (Option-cases s.timer_handle) [
  | inl e ↦ rw e refl
  | inr (id, e) ↦ rw e refl
]

insert_subscriber_timer-subscribers :
    (now p : ℕ) (m : Manager) → (insert_subscriber_timer now p m).subscribers ≡ m.subscribers
unfolding insert_subscriber_timer
insert_subscriber_timer-subscribers now p m = elim (Option-cases (m.store p)) [
  | inl e ↦ rw (e, insert_subscriber_timer) refl
  | inr (s, e) ↦
      rw (e, insert_subscriber_timer)
        (if-split (λ (w : Manager). w.subscribers ≡ m.subscribers) s.owned
          (λ _. remove_subscriber_timer-subscribers p s m) (λ _. refl))
]

unbind_owner-subscribers :
    (p : ℕ) (s : Subscriber) (m : Manager) → (unbind_owner p s m).subscribers ≡ m.subscribers
unfolding unbind_owner
unbind_owner-subscribers p s m =
    if-split (λ (w : Manager). w.subscribers ≡ m.subscribers) s.owned
      (λ _. remove_subscriber_timer-subscribers p s m) (λ _. refl)

unsubscribe_found-subscribers :
    (key p : ℕ) (m : Manager)
    → (unsubscribe_found key p m).subscribers ≡ erase_entry key m.subscribers
unfolding unsubscribe_found
unsubscribe_found-subscribers key p m = elim (Option-cases (m.store p)) [
  | inl e ↦ rw (e, unsubscribe_found) refl
  | inr (s, e) ↦ rw (e, unsubscribe_found) (unbind_owner-subscribers p s _)
]

find_entry-erase_entry :
    (k j : ℕ) (m : List (ℕ × ℕ))
    → find_entry j (erase_entry k m) ≡ (if j == k then none else find_entry j m)
unfolding find_entry erase_entry
find_entry-erase_entry k j [] = ground arith
find_entry-erase_entry k j ((i, q) ∷ m) = ground (arith, find_entry-erase_entry k j m)

find_entry-set_entry :
    (k j p : ℕ) (m : List (ℕ × ℕ))
    → find_entry j (set_entry k p m) ≡ (if j == k then some p else find_entry j m)
unfolding find_entry set_entry
find_entry-set_entry k j p [] = refl
find_entry-set_entry k j p ((i, q) ∷ m) = ground (arith, find_entry-set_entry k j p m)

found-same :
    (k j : ℕ) (m : List (ℕ × ℕ)) (a : Option ℕ)
    → find_entry k m ≡ a
    → find_entry j m ≡ (if j == k then a else find_entry j m)
found-same k j m a h =
    if-split (λ (b : Option ℕ). find_entry j m ≡ b) (j == k)
      (λ e. ap (λ i. find_entry i m) ((==_iff j k).0 e) ∙ h) (λ _. refl)

-- `unsubscribe` gives the subscriber of the key, and erases this key and no other.
unsubscribe_key-find :
    (key j : ℕ) (m : Manager)
    → ((unsubscribe_key key m).0 ≡ find key m)
      × (find j (unsubscribe_key key m).1 ≡ (if j == key then none else find j m))
unfolding unsubscribe_key
unsubscribe_key-find key j m = elim (Option-cases (find_entry key m.subscribers)) [
  | inl e ↦ rw (e, unsubscribe_key) (refl, found-same key j m.subscribers none e)
  | inr (p, e) ↦
      rw (e, unsubscribe_key)
        (
          refl,
          ap (find_entry j) (unsubscribe_found-subscribers key p m)
              ∙ find_entry-erase_entry key j m.subscribers,
        )
]

-- `allocate` enters the subscriber that it gives under the key, and changes no other entry.
allocate-find :
    (key now timeout j : ℕ) (m : Manager)
    → let r = allocate key now timeout m in find j r.1 ≡ (if j == key then some r.0 else find j m)
unfolding allocate
allocate-find key now timeout j m = elim (Option-cases (find_entry key m.subscribers)) [
  | inl e ↦ rw (e, allocate) entered
  | inr (p, e) ↦ elim (Option-cases (m.store p)) [
    | inl e' ↦ rw (e, e', allocate) entered
    | inr (s, e') ↦ rw (e, e', allocate) (found-same key j m.subscribers (some p) e)
  ]
]
  where
    entered :
        find j (new_subscriber key now timeout m).1
        ≡ (if j == key then some m.next_pointer else find j m)
    entered =
        ap (find_entry j) (insert_subscriber_timer-subscribers now m.next_pointer _)
        ∙ find_entry-set_entry key j m.next_pointer m.subscribers

pub reset_timer-subscribers :
    (now p : ℕ) (m : Manager) → (reset_timer now p m).subscribers ≡ m.subscribers
unfolding reset_timer
reset_timer-subscribers now p m = elim (Option-cases (m.store p)) [
  | inl e ↦ rw (e, reset_timer) refl
  | inr (s, e) ↦
      rw (e, reset_timer)
        (if-split (λ (w : Manager). w.subscribers ≡ m.subscribers) s.owned
          (λ _.
            insert_subscriber_timer-subscribers now p (remove_subscriber_timer p s m)
            ∙ remove_subscriber_timer-subscribers p s m)
          (λ _. refl))
]

-- For any key, time and table: `allocate` enters the subscriber that it gives under the key, and
-- changes no other entry, on every branch; `unsubscribe` gives the subscriber of the key, and
-- erases this key and no other.
pub table_lem :
    (key now timeout j : ℕ) (m : Manager)
    → (let r = allocate key now timeout m in find j r.1 ≡ (if j == key then some r.0 else find j m))
      × ((unsubscribe_key key m).0 ≡ find key m)
      × (find j (unsubscribe_key key m).1 ≡ (if j == key then none else find j m))
table_lem key now timeout j m =
    let gone = unsubscribe_key-find key j m in (allocate-find key now timeout j m, gone.0, gone.1)
