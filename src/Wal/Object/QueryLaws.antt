-- ===== src/Wal/Object/QueryLaws.antt =====
-- The searches by key on an ascending log, against plain ones.
use atframe_utils.Base.{
  ℕ, zero, suc, ◌<◌, ◌≤◌, ◌≡◌, refl, ap, sym, subst, not, ◌&&◌, Option, none, some, List, [], ◌∷◌,
  map, arith, lt→ltb, ltb→lt, ltb→le, le→ltb, ltb→==, gt→==, ltb→eq, length, if◌then◌else◌, ltb,
  last?, take, get_elem?, All, Bool-cases, Option-cases, inl, inr,
}
use atframe_utils.Wal.Types.{Object, Vtable, initial_hash_code}
use atframe_utils.Wal.Keys.{IsAscending, All-lt_trans}
use atframe_utils.Wal.Object.{lower_bound}
use atframe_utils.Wal.Object.Order.{last?-none}
use atframe_utils.Wal.Object.Query.{
  upper_bound, search_key, log_lower_bound, log_upper_bound, find_log, get_hash_code_before,
}

last-lt {ℓ} :
    {L : Type ℓ} (key : L → ℕ) (b : ℕ) (xs : List L) {x : L}
    → All (λ y. b < y) (map key xs)
    → last? xs ≡ some x
    → b < key x
last-lt key b [] all e = absurd (ground arith)
last-lt key b (x ∷ []) all e =
    subst (λ o. elim o as (λ _. Type 0) [ none ↦ ⊥ | some z ↦ b < key z ]) e all.0
last-lt key b (x ∷ y ∷ xs) all e = last-lt key b (y ∷ xs) all.1 e

module _ {ℓ} {L : Type ℓ} (key : L → ℕ) (k : ℕ) where
  -- With the newest key below, all are.
  lower_bound_end :
      (xs : List L) {x : L}
      → IsAscending (map key xs)
      → last? xs ≡ some x
      → key x < k
      → lower_bound key k xs ≡ length xs
  unfolding lower_bound
  lower_bound_end [] asc e h = refl
  lower_bound_end (z ∷ []) {x} asc e h = rw (
    lower_bound,
    lt→ltb (key z) k
        (subst (λ o. elim o as (λ _. Type 0) [ none ↦ ⊥ | some y ↦ key y < k ]) (sym e) h),
  )
  lower_bound_end (x ∷ y ∷ xs) asc e h =
      rw (lower_bound, lt→ltb (key x) k (omega (arith, last-lt key (key x) (y ∷ xs) asc.0 e, h)))
        (ap suc (lower_bound_end (y ∷ xs) asc.1 e h))

  upper_bound_end :
      (xs : List L) {x : L}
      → IsAscending (map key xs)
      → last? xs ≡ some x
      → key x ≤ k
      → upper_bound key k xs ≡ length xs
  unfolding upper_bound
  upper_bound_end [] asc e h = refl
  upper_bound_end (z ∷ []) {x} asc e h = rw (
    upper_bound,
    le→ltb (key z) k
        (subst (λ o. elim o as (λ _. Type 0) [ none ↦ ⊥ | some y ↦ key y ≤ k ]) (sym e) h),
  )
  upper_bound_end (x ∷ y ∷ xs) asc e h =
      rw (upper_bound, le→ltb (key x) k (omega (arith, last-lt key (key x) (y ∷ xs) asc.0 e, h)))
        (ap suc (upper_bound_end (y ∷ xs) asc.1 e h))

  lower_bound-none : (xs : List L) → last? xs ≡ none → length xs ≡ lower_bound key k xs
  unfolding lower_bound
  lower_bound-none xs e =
      subst (λ ys. length ys ≡ lower_bound key k ys) (sym (last?-none xs e)) refl

  upper_bound-none : (xs : List L) → last? xs ≡ none → length xs ≡ upper_bound key k xs
  unfolding upper_bound
  upper_bound-none xs e =
      subst (λ ys. length ys ≡ upper_bound key k ys) (sym (last?-none xs e)) refl

  pub absent : (xs : List L) → All (λ y. k < y) (map key xs) → search_key key k xs ≡ none
  unfolding search_key
  absent [] all = refl
  absent (x ∷ xs) all = rw (gt→== (key x) k all.0) (absent xs all.1)

  -- What stands at the lower bound decides the search.
  search_key-lower_bound :
      (xs : List L)
      → IsAscending (map key xs)
      → search_key key k xs ≡ elim (get_elem? xs (lower_bound key k xs)) as (λ _. Option L) [
        | none ↦ none
        | some x ↦ if not (ltb k (key x)) && not (ltb (key x) k) then some x else none
      ]
  unfolding search_key lower_bound
  search_key-lower_bound [] asc = refl
  search_key-lower_bound (x ∷ xs) asc = elim (Bool-cases (ltb (key x) k)) [
    | inl below ↦ rw (below, ltb→== (key x) k below) (search_key-lower_bound xs asc.1)
    | inr above ↦ elim (Bool-cases (ltb k (key x))) [
      | inl over ↦
          rw (above, over, gt→== (key x) k (ltb→lt k (key x) over))
            (absent xs (All-lt_trans k (key x) (map key xs) (ltb→lt k (key x) over) asc.0))
      | inr same ↦ rw (above, same, ltb→eq (key x) k above same, above)
    ]
  ]

module _ {ℓ} {L : Type ℓ} where
  -- The hash code of the last log of a list, or the initial one.
  unfoldable pub hash_of_last : (L → ℕ) → List L → ℕ
  hash_of_last get_hash xs = elim (last? xs) [ none ↦ initial_hash_code | some x ↦ get_hash x ]

  take_all : (xs : List L) → take (length xs) xs ≡ xs
  take_all [] = refl
  take_all (x ∷ xs) = ap (λ t. x ∷ t) (take_all xs)

  lower_bound-le : (key : L → ℕ) (k : ℕ) (xs : List L) → lower_bound key k xs ≤ length xs
  unfolding lower_bound
  lower_bound-le key k [] = omega arith
  lower_bound-le key k (x ∷ xs) = ground (arith, lower_bound-le key k xs)

  last?-take : (i : ℕ) (xs : List L) → i < length xs → last? (take (suc i) xs) ≡ get_elem? xs i
  last?-take i [] h = absurd (omega arith)
  last?-take zero (x ∷ xs) h = refl
  last?-take (suc i) (x ∷ []) h = absurd (omega arith)
  last?-take (suc i) (x ∷ y ∷ xs) h = last?-take i (y ∷ xs) (omega arith)

  hash_of_none :
      (get_hash : L → ℕ) (xs : List L) (i : ℕ)
      → xs ≡ []
      → initial_hash_code ≡ hash_of_last get_hash (take i xs)
  unfolding hash_of_last
  hash_of_none get_hash xs zero e = refl
  hash_of_none get_hash xs (suc i) e = rw e refl

  hash_of_previous :
      (get_hash : L → ℕ) (xs : List L) (i : ℕ)
      → i ≤ length xs
      → (elim i as (λ _. ℕ) [
        | zero ↦ initial_hash_code
        | suc j ↦ elim (get_elem? xs j) [
          | none ↦ initial_hash_code
          | some previous ↦ get_hash previous
        ]
      ])
        ≡ hash_of_last get_hash (take i xs)
  unfolding hash_of_last
  hash_of_previous get_hash xs zero h = refl
  hash_of_previous get_hash xs (suc i) h = rw (hash_of_last, last?-take i xs h) refl

module _ {ℓ} {L P C : Type ℓ} (vt : Vtable L P C) (key : L → ℕ)
    (keyed : vt.get_log_key ≡ some key) where
  module _ (o : Object L P C) (asc : IsAscending (map key o.logs)) (k : ℕ) where
    -- The shortcut for the newest key changes nothing: `log_lower_bound` is the lower bound.
    pub log_lower_bound_lem : log_lower_bound vt o k ≡ lower_bound key k o.logs
    unfolding log_lower_bound
    log_lower_bound_lem = elim (Option-cases (last? o.logs)) [
      | inl e ↦ rw (keyed, log_lower_bound, e) (lower_bound-none key k o.logs e)
      | inr (newest, e) ↦ elim (Bool-cases (ltb (key newest) k)) [
        | inl below ↦
            rw (keyed, log_lower_bound, e, below)
              (sym (lower_bound_end key k o.logs asc e (ltb→lt (key newest) k below)))
        | inr above ↦ rw (keyed, log_lower_bound, e, above)
      ]
    ]

    -- So is `log_upper_bound` the upper bound.
    pub log_upper_bound_lem : log_upper_bound vt o k ≡ upper_bound key k o.logs
    unfolding log_upper_bound
    log_upper_bound_lem = elim (Option-cases (last? o.logs)) [
      | inl e ↦ rw (keyed, log_upper_bound, e) (upper_bound-none key k o.logs e)
      | inr (newest, e) ↦ elim (Bool-cases (ltb k (key newest))) [
        | inl below ↦ rw (keyed, log_upper_bound, e, below)
        | inr above ↦
            rw (keyed, log_upper_bound, e, above)
              (sym (upper_bound_end key k o.logs asc e (ltb→le k (key newest) above)))
      ]
    ]

    -- On an ascending log the shortcuts for the newest key change neither bound.
    pub log_bounds_lem :
        (log_lower_bound vt o k ≡ lower_bound key k o.logs)
        × (log_upper_bound vt o k ≡ upper_bound key k o.logs)
    log_bounds_lem = (log_lower_bound_lem, log_upper_bound_lem)

    -- `find_log` finds the log with the key exactly when there is one.
    pub find_log_lem : find_log vt o k ≡ search_key key k o.logs
    unfolding find_log
    find_log_lem = elim (Option-cases (get_elem? o.logs (lower_bound key k o.logs))) [
      | inl miss ↦
          rw (search_key-lower_bound key k o.logs asc, log_lower_bound_lem, find_log, miss) refl
      | inr (found, hit) ↦
          rw (search_key-lower_bound key k o.logs asc, log_lower_bound_lem, find_log, hit, keyed)
            refl
    ]

    -- `get_hash_code_before` is the hash code of the last log with a smaller key, or the initial one.
    pub get_hash_code_before_lem :
        (get_hash : L → ℕ)
        → vt.get_hash_code ≡ some get_hash
        → get_hash_code_before vt o k
          ≡ hash_of_last get_hash (take (lower_bound key k o.logs) o.logs)
    unfolding get_hash_code_before hash_of_last
    get_hash_code_before_lem get_hash h = elim (Option-cases (last? o.logs)) [
      | inl e ↦
          rw (e, get_hash_code_before)
            (hash_of_none get_hash o.logs (lower_bound key k o.logs) (last?-none o.logs e))
      | inr (newest, e) ↦ elim (Bool-cases (ltb (key newest) k)) [
        | inl below ↦
            rw
              (
                e,
                get_hash_code_before,
                h,
                keyed,
                below,
                lower_bound_end key k o.logs asc e (ltb→lt (key newest) k below),
                take_all o.logs,
                hash_of_last,
                e,
              )
              refl
        | inr above ↦
            rw (e, get_hash_code_before, h, keyed, above, log_lower_bound_lem)
              (hash_of_previous get_hash o.logs (lower_bound key k o.logs)
                (lower_bound-le key k o.logs))
      ]
    ]
