-- ===== src/Wal/Subscriber/Tests.antt =====
-- Runs of the subscriber table, and its theorems at them.
use atframe_utils.Base.{◌≡◌, refl, none, some, [], ◌==◌, if◌then◌else◌}
use atframe_utils.Wal.Subscriber.{
  Manager, find_entry, set_entry, erase_entry, erase_node, remove_subscriber_timer,
  insert_subscriber_timer, reset_timer, subscribe, unbind_owner, unsubscribe_found, unsubscribe_key,
  allocate, find, first_expired, get_first_expired,
}
use atframe_utils.Wal.Subscriber.Table.{table_lem}

abbrev new_manager : Manager
new_manager = record {
  subscribers = [];
  subscribers_timer = [];
  store = λ _. none;
  next_pointer = 0;
  next_node = 0;
}

-- The subscribers 7 and 8, whose timers are over after 15 and 30.
abbrev two_keys : Manager
two_keys = (allocate 8 10 20 (allocate 7 10 5 new_manager).1).1

program : Unit {0}
unfolding find_entry set_entry erase_entry erase_node remove_subscriber_timer
    insert_subscriber_timer reset_timer subscribe unbind_owner unsubscribe_found unsubscribe_key
    allocate first_expired get_first_expired
program = tt

expired_at_15 : (get_first_expired 15 two_keys).0 ≡ none
unfolding program
expired_at_15 = refl

expired_at_16 : (get_first_expired 16 two_keys).0 ≡ some 0
unfolding program
expired_at_16 = refl

-- A subscription starts the timer again.
subscribe_again : (get_first_expired 16 (subscribe 12 0 two_keys)).0 ≡ none
unfolding program
subscribe_again = refl

-- A call of `allocate` with a key that is there does not.
allocate_again : (get_first_expired 16 (allocate 7 12 5 two_keys).1).0 ≡ some 0
unfolding program
allocate_again = refl

unsubscribed : (get_first_expired 16 (unsubscribe_key 7 two_keys).1).0 ≡ none
unfolding program
unsubscribed = refl

table_lem_example :
    (let r = allocate 9 11 5 two_keys in
      find 7 r.1 ≡ (if 7 == 9 then some r.0 else find 7 two_keys))
    × ((unsubscribe_key 9 two_keys).0 ≡ find 9 two_keys)
    × (find 7 (unsubscribe_key 9 two_keys).1 ≡ (if 7 == 9 then none else find 7 two_keys))
table_lem_example = table_lem 9 11 5 7 two_keys
