-- ===== src/Ring.antt =====
-- data_structure/lock_free_array.h, used by one thread: the positions of a ring of n slots. Each
-- exchange succeeds then, at the latest when it is tried again after failing for no reason.
pub mod Slots
mod Tests
use atframe_utils.Base.{
  ℕ, zero, suc, ◌+◌, ◌-◌, ◌%◌, Bool, not, Option, none, some, List, [], ◌∷◌, ◌==◌, if◌then◌else◌,
}

pub record Ring : Type 0 where
  pub start : ℕ
  pub end_pos : ℕ

-- `lock_free_array()`
abbrev pub new_ring : Ring
new_ring = record { start = 0; end_pos = 0 }

module _ (n : ℕ) where
  -- Each operation gives the position of the slot, or none for a null pointer.
  unfoldable pub push_back : Ring → Option (ℕ × Ring)
  push_back r =
      if (r.end_pos + 1) % n == r.start
      then none
      else some (r.end_pos, record r { end_pos = (r.end_pos + 1) % n })

  unfoldable pub pop_back : Ring → Option (ℕ × Ring)
  pop_back r =
      let new_end_pos = (r.end_pos + n - 1) % n in
      if r.end_pos == r.start then none else some (new_end_pos, record r { end_pos = new_end_pos })

  unfoldable pub push_front : Ring → Option (ℕ × Ring)
  push_front r =
      let new_start_pos = (r.start + n - 1) % n in
      if (r.end_pos + 1) % n == r.start
      then none
      else some (new_start_pos, record r { start = new_start_pos })

  unfoldable pub pop_front : Ring → Option (ℕ × Ring)
  pop_front r =
      if r.end_pos == r.start then none else some (r.start, record r { start = (r.start + 1) % n })

  unfoldable pub ring_size : Ring → ℕ
  ring_size r = (n + r.end_pos - r.start) % n

-- `empty`, as it is written.
unfoldable pub ring_empty : Ring → Bool
ring_empty r = not (r.start == r.end_pos)
