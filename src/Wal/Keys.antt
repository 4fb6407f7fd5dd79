-- ===== src/Wal/Keys.antt =====
-- The reference view of a log: its keys, an ascending list without repetitions.
use atframe_utils.Base.{
  ℕ, ◌<◌, ◌≡◌, refl, some, List, [], ◌∷◌, ◌++◌, map, ltb, ◌==◌, if◌then◌else◌, All, take, drop,
  last?, arith,
}
use atframe_utils.Wal.Object.{lower_bound}

abbrev pub IsAscending : List ℕ → Type 0
IsAscending [] = Unit
IsAscending (x ∷ xs) = All (λ y. x < y) xs × IsAscending xs

-- Sorted insertion; a key that is there already is left alone.
unfoldable pub insert_key : ℕ → List ℕ → List ℕ
insert_key k [] = k ∷ []
insert_key k (x ∷ xs) =
    if ltb x k then x ∷ insert_key k xs else (if x == k then x ∷ xs else k ∷ x ∷ xs)

-- The end of `insert_key`, where the keys from `k` on begin.
unfoldable pub place_key : ℕ → List ℕ → List ℕ
place_key k [] = k ∷ []
place_key k (x ∷ xs) = if x == k then x ∷ xs else k ∷ x ∷ xs

All-insert_key :
    (a k : ℕ) (xs : List ℕ) → a < k → All (λ y. a < y) xs → All (λ y. a < y) (insert_key k xs)
unfolding insert_key
All-insert_key a k [] h all = (h, tt)
All-insert_key a k (x ∷ xs) h all = ground (arith, All-insert_key a k xs h all.1)

pub All-lt_trans : (a b : ℕ) (xs : List ℕ) → a < b → All (λ y. b < y) xs → All (λ y. a < y) xs
All-lt_trans a b [] h all = tt
All-lt_trans a b (x ∷ xs) h all = (omega arith, All-lt_trans a b xs h all.1)

pub insert_key-IsAscending : (k : ℕ) (xs : List ℕ) → IsAscending xs → IsAscending (insert_key k xs)
unfolding insert_key
insert_key-IsAscending k [] h = (tt, tt)
insert_key-IsAscending k (x ∷ xs) h =
    ground (arith, All-insert_key x k xs, All-lt_trans k x xs, insert_key-IsAscending k xs h.1)

-- Above all keys the insertion appends.
pub insert_key_last :
    (k n : ℕ) (xs : List ℕ)
    → IsAscending xs
    → last? xs ≡ some n
    → n < k
    → insert_key k xs ≡ xs ++ k ∷ []
unfolding insert_key
insert_key_last k n [] h e lt = refl
insert_key_last k n (x ∷ []) h e lt = ground arith
insert_key_last k n (x ∷ y ∷ xs) h e lt =
    ground (arith, insert_key_last k n (y ∷ xs) h.1 e lt, last-ge x n (y ∷ xs))
  where
    last-ge : (a b : ℕ) (ys : List ℕ) → All (λ z. a < z) ys → last? ys ≡ some b → a < b
    last-ge a b [] all p = absurd (ground arith)
    last-ge a b (z ∷ []) all p = ground arith
    last-ge a b (z ∷ w ∷ ys) all p = last-ge a b (w ∷ ys) all.1 p

module _ {ℓ} {L : Type ℓ} (key : L → ℕ) (k : ℕ) where
  -- `insert_key` splits a list where `lower_bound` does.
  pub insert_key-lower_bound :
      (xs : List L)
      → insert_key k (map key xs)
        ≡ map key (take (lower_bound key k xs) xs)
          ++ place_key k (map key (drop (lower_bound key k xs) xs))
  unfolding insert_key place_key lower_bound
  insert_key-lower_bound [] = refl
  insert_key-lower_bound (x ∷ xs) = ground (arith, insert_key-lower_bound xs)
