-- ===== src/Wal/Object/Total.antt =====
-- `emplace_back` in total: it ends, its keys ascend, and the bound holds.
use atframe_utils.Base.{
  ℕ, ◌≤◌, ◌≡◌, ◌⊎◌, Bool, true, false, some, List, map, length, if◌then◌else◌, drop,
}
use atframe_utils.Wal.Types.{ResultCode, Configure, Object, Vtable}
use atframe_utils.Wal.Laws.{Settles, KeepsKeys}
use atframe_utils.Wal.Keys.{IsAscending, insert_key, insert_key-IsAscending}
use atframe_utils.Wal.Object.Push.{accepts, push_back_internal, emplace_back}
use atframe_utils.Wal.Object.Order.{push_back_internal-keys}
use atframe_utils.Wal.Object.Bounds.{drop-IsAscending, map-drop}
use atframe_utils.Wal.Object.Emplace.{IsReady, emplace_back-IsReady}

-- The keys of the logs ascend.
abbrev pub IsSorted {ℓ} : {L : Type ℓ} → (L → ℕ) → List L → Type 0
IsSorted key logs = IsAscending (map key logs)

module _ {ℓ} {L P C : Type ℓ} (vt : Vtable L P C) (conf : Configure) (floor : ℕ)
    (key weight : L → ℕ) (keeps : KeepsKeys vt key) (settles : Settles vt floor key weight) where
  push_back_internal-IsAscending :
      (o : Object L P C) (l : L) (c : C)
      → IsAscending (map key o.logs)
      → IsAscending (map key (push_back_internal vt conf o l c).1.logs)
  push_back_internal-IsAscending o l c asc =
      rw (push_back_internal-keys vt conf key keeps o l c asc)
        (by_code (accepts vt conf (push_back_internal vt conf o l c).0))
    where
      by_code :
          (b : Bool)
          → IsAscending (if b then insert_key (key l) (map key o.logs) else map key o.logs)
      by_code true = insert_key-IsAscending (key l) (map key o.logs) asc
      by_code false = asc

  drop-IsSorted : (n : ℕ) (xs : List L) → IsSorted key xs → IsSorted key (drop n xs)
  drop-IsSorted n xs asc = rw (map-drop key n xs) (drop-IsAscending n (map key xs) asc)

  -- With callbacks that settle, and fuel from the weight of the log on, `emplace_back` returns. The
  -- object is then ready again: its keys ascend without repetition, no log waits, and it holds at
  -- most `max_log_size` logs where that limit is set.
  pub emplace_back_total :
      (fuel : ℕ) (o : Object L P C) (l : L) (c : C)
      → IsReady floor (IsSorted key) o
      → weight l ≤ fuel
      → (code : ResultCode) × (o' : Object L P C) × (emplace_back fuel vt conf o (some l) c
          ≡ some (code, o'))
        × IsReady floor (IsSorted key) o'
        × ((conf.max_log_size ≡ 0) ⊎ (length o'.logs ≤ conf.max_log_size))
  emplace_back_total =
      emplace_back-IsReady vt conf floor key weight keeps.keyed settles (IsSorted key)
        push_back_internal-IsAscending drop-IsSorted
