-- ===== src/Wal/Object/Query.antt =====
-- wal_object.h: `log_lower_bound`, `log_upper_bound`, `find_log` and `get_hash_code_before`. An
-- iterator is the number of logs before it.
use atframe_utils.Base.{
  ℕ, zero, suc, true, false, not, ◌&&◌, Option, none, some, List, [], ◌∷◌, length, if◌then◌else◌,
  ltb, ◌==◌, last?, get_elem?,
}
use atframe_utils.Wal.Types.{Object, Vtable, initial_hash_code}
use atframe_utils.Wal.Object.{lower_bound}

-- `std::upper_bound` over the keys: how many logs stand before the first one that is above.
module _ {ℓ} {L : Type ℓ} (key : L → ℕ) (k : ℕ) where
  unfoldable pub upper_bound : List L → ℕ
  upper_bound [] = 0
  upper_bound (x ∷ xs) = elim (ltb k (key x)) [ true ↦ 0 | false ↦ suc (upper_bound xs) ]

  -- The first log with the key, found by a plain search.
  unfoldable pub search_key : List L → Option L
  search_key [] = none
  search_key (x ∷ xs) = if key x == k then some x else search_key xs

module _ {ℓ} {L P C : Type ℓ} where
  -- `log_lower_bound`: the end at once if the newest key is below.
  unfoldable pub log_lower_bound : Vtable L P C → Object L P C → ℕ → ℕ
  log_lower_bound vt o k = elim vt.get_log_key [
    | none ↦ length o.logs
    | some key ↦ elim (last? o.logs) [
      | none ↦ length o.logs
      | some newest ↦ if ltb (key newest) k then length o.logs else lower_bound key k o.logs
    ]
  ]

  -- `log_upper_bound`: the end at once if the newest key is not above.
  unfoldable pub log_upper_bound : Vtable L P C → Object L P C → ℕ → ℕ
  log_upper_bound vt o k = elim vt.get_log_key [
    | none ↦ length o.logs
    | some key ↦ elim (last? o.logs) [
      | none ↦ length o.logs
      | some newest ↦ if not (ltb k (key newest)) then length o.logs else upper_bound key k o.logs
    ]
  ]

  -- `find_log`
  unfoldable pub find_log : Vtable L P C → Object L P C → ℕ → Option L
  find_log vt o k = elim (get_elem? o.logs (log_lower_bound vt o k)) [
    | none ↦ none
    | some found ↦ elim vt.get_log_key [
      | none ↦ none
      | some key ↦ if not (ltb k (key found)) && not (ltb (key found) k) then some found else none
    ]
  ]

  -- `get_hash_code_before`
  unfoldable pub get_hash_code_before : Vtable L P C → Object L P C → ℕ → ℕ
  get_hash_code_before vt o k = elim (last? o.logs) [
    | none ↦ initial_hash_code
    | some newest ↦ elim vt.get_hash_code [
      | none ↦ initial_hash_code
      | some get_hash ↦ elim vt.get_log_key [
        | none ↦ initial_hash_code
        | some key ↦ if ltb (key newest) k then get_hash newest else elim (log_lower_bound vt o k) [
          | zero ↦ initial_hash_code
          | suc i ↦ elim (get_elem? o.logs i) [
            | none ↦ initial_hash_code
            | some previous ↦ get_hash previous
          ]
        ]
      ]
    ]
  ]
