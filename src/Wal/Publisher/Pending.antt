-- ===== src/Wal/Publisher/Pending.antt =====
-- The logs behind a key, and what a subscriber or all of them are still to get.
use atframe_utils.Base.{
  ℕ, zero, suc, ◌<◌, ◌≡◌, refl, ap, sym, subst, ◌∙◌, Bool, true, false, Option, none, some, List,
  [], ◌∷◌, map, arith, length, if◌then◌else◌, ltb, last?, drop, All, Bool-cases, Option-cases, inl,
  inr, ltb→lt, ltb→==, gt→==, ltb→eq,
}
use atframe_utils.Wal.Types.{Object}
use atframe_utils.Wal.Keys.{IsAscending, All-lt_trans}
use atframe_utils.Wal.Object.{lower_bound}
use atframe_utils.Wal.Object.Query.{upper_bound, search_key, log_lower_bound, log_upper_bound}
use atframe_utils.Wal.Object.QueryLaws.{absent, log_lower_bound_lem, log_upper_bound_lem}
use atframe_utils.Wal.Publisher.{Publisher, PublisherVtable}
use atframe_utils.Wal.Publisher.Broadcast.{logs_to_broadcast}
use atframe_utils.Wal.Publisher.Request.{hash_differs, logs_from, logs_since}

module _ {L : Type 0} (key : L → ℕ) (k : ℕ) where
  -- The logs with a key above `k`.
  unfoldable pub newer : List L → List L
  newer [] = []
  newer (x ∷ xs) = let rest = newer xs in if ltb k (key x) then x ∷ rest else rest

  newer_all : (xs : List L) → All (λ y. k < y) (map key xs) → newer xs ≡ xs
  unfolding newer
  newer_all [] all = refl
  newer_all (x ∷ xs) all = ground (arith, newer_all xs all.1)

  drop-upper_bound :
      (xs : List L) → IsAscending (map key xs) → drop (upper_bound key k xs) xs ≡ newer xs
  unfolding newer upper_bound
  drop-upper_bound [] asc = refl
  drop-upper_bound (x ∷ xs) asc = elim (Bool-cases (ltb k (key x))) [
    | inl above ↦
        rw (upper_bound, newer, above)
          (ap (λ t. x ∷ t)
            (sym
              (newer_all xs (All-lt_trans k (key x) (map key xs) (ltb→lt k (key x) above) asc.0))))
    | inr other ↦ rw (upper_bound, newer, other) (drop-upper_bound xs asc.1)
  ]

  -- `logs_from` among the logs from the lower bound on.
  logs_from-drop :
      (differs : L → Bool) (xs : List L)
      → IsAscending (map key xs)
      → logs_from key differs k (drop (lower_bound key k xs) xs) ≡ (
          if elim (search_key key k xs) as (λ _. Bool) [ none ↦ false | some log ↦ differs log ]
          then none
          else some (newer xs))
  unfolding newer search_key lower_bound logs_from
  logs_from-drop differs [] asc = refl
  logs_from-drop differs (x ∷ xs) asc = elim (Bool-cases (ltb (key x) k)) [
    | inl below ↦
        rw (lower_bound, search_key, newer, below, ltb→== (key x) k below, not_above below)
          (logs_from-drop differs xs asc.1)
    | inr above ↦ elim (Bool-cases (ltb k (key x))) [
      | inl over ↦
          rw
            (
              lower_bound,
              search_key,
              newer,
              above,
              over,
              gt→== (key x) k (ltb→lt k (key x) over),
              later over,
              absent key k xs (All-lt_trans k (key x) (map key xs) (ltb→lt k (key x) over) asc.0),
            )
            refl
      | inr same ↦
          rw
            (
              lower_bound,
              search_key,
              newer,
              above,
              same,
              ltb→eq (key x) k above same,
              newer_all xs (equal above same),
              above,
            )
            refl
    ]
  ]
    where
      not_above : ltb (key x) k ≡ true → ltb k (key x) ≡ false
      not_above h = ground arith

      later : ltb k (key x) ≡ true → newer xs ≡ xs
      later over = newer_all xs (All-lt_trans k (key x) (map key xs) (ltb→lt k (key x) over) asc.0)

      equal : ltb (key x) k ≡ false → ltb k (key x) ≡ false → All (λ y. k < y) (map key xs)
      equal h h' = subst (λ n. All (λ y. n < y) (map key xs)) (ground arith) asc.0

last?-drop :
    {L : Type 0} (n : ℕ) (xs : List L) {y : L} → last? (drop n xs) ≡ some y → last? xs ≡ some y
last?-drop zero xs e = e
last?-drop (suc n) [] e = e
last?-drop (suc n) (x ∷ []) e = absurd (ground (arith, last?-drop n [] e))
last?-drop (suc n) (x ∷ y ∷ xs) e = last?-drop n (y ∷ xs) e

drop-length : {L : Type 0} (xs : List L) → drop (length xs) xs ≡ []
drop-length [] = refl
drop-length (x ∷ xs) = drop-length xs

module _ {L P C : Type 0} where
  -- The hash code of a request is not that of the log with its key, if there is one.
  unfoldable pub held_differs : PublisherVtable L P C → (L → ℕ) → ℕ → Option ℕ → List L → Bool
  held_differs vt key k check_hash_code logs = elim (search_key key k logs) [
    | none ↦ false
    | some log ↦ hash_differs vt.object check_hash_code log
  ]

  -- The logs that a broadcast is to send: those behind the bound, or all.
  unfoldable pub pending : (L → ℕ) → Publisher L P C → List L
  pending key p = elim p.broadcast_key_bound [
    | none ↦ p.wal.logs
    | some bound ↦ newer key bound p.wal.logs
  ]

module _ {L P C : Type 0} (vt : PublisherVtable L P C) (key : L → ℕ)
    (keyed : vt.object.get_log_key ≡ some key) where
  -- On a sorted log, `logs_since` gives the newer logs, unless the log of the checkpoint has another hash code.
  pub logs_since_lem :
      (k : ℕ) (check_hash_code : Option ℕ) (wal : Object L P C)
      → IsAscending (map key wal.logs)
      → logs_since vt.object k check_hash_code wal ≡ (
          if held_differs vt key k check_hash_code wal.logs
          then none
          else some (newer key k wal.logs))
  unfolding held_differs logs_since
  logs_since_lem k check_hash_code wal asc =
      ap from_key keyed
      ∙ ap (λ n. logs_from key (hash_differs vt.object check_hash_code) k (drop n wal.logs))
          (log_lower_bound_lem vt.object key keyed wal asc k)
      ∙ logs_from-drop key k (hash_differs vt.object check_hash_code) wal.logs asc
    where
      from_key : Option (L → ℕ) → Option (List L)
      from_key get_log_key = elim get_log_key [
        | none ↦ some []
        | some key' ↦
            logs_from key' (hash_differs vt.object check_hash_code) k
              (drop (log_lower_bound vt.object wal k) wal.logs)
      ]

  pub logs_to_broadcast_lem :
      (p : Publisher L P C)
      → IsAscending (map key p.wal.logs)
      → logs_to_broadcast vt p ≡ pending key p
  unfolding logs_to_broadcast pending
  logs_to_broadcast_lem p asc = elim (Option-cases p.broadcast_key_bound) [
    | inl e ↦ rw (logs_to_broadcast, pending, e) refl
    | inr (bound, e) ↦
        rw (logs_to_broadcast, pending, e, log_upper_bound_lem vt.object key keyed p.wal asc bound)
          (drop-upper_bound key bound p.wal.logs asc)
  ]

  -- With the newest key as the bound, no log is left.
  pub log_upper_bound_newest :
      (wal : Object L P C) (newest : L)
      → last? wal.logs ≡ some newest
      → drop (log_upper_bound vt.object wal (key newest)) wal.logs ≡ []
  unfolding log_upper_bound
  log_upper_bound_newest wal newest e =
      rw (log_upper_bound, keyed, e, irreflexive (key newest)) (drop-length wal.logs)
    where
      irreflexive : (n : ℕ) → ltb n n ≡ false
      irreflexive n = ground arith

  pub last?-logs_to_broadcast :
      (p : Publisher L P C) (newest : L)
      → last? (logs_to_broadcast vt p) ≡ some newest
      → last? p.wal.logs ≡ some newest
  unfolding logs_to_broadcast
  last?-logs_to_broadcast p newest e = elim (Option-cases p.broadcast_key_bound) [
    | inl b ↦
        ap
          (λ (o : Option ℕ). last? (elim o as (λ _. List L) [
            | none ↦ p.wal.logs
            | some bound ↦ drop (log_upper_bound vt.object p.wal bound) p.wal.logs
          ]))
          (sym b)
        ∙ e
    | inr (bound, b) ↦ last?-drop (log_upper_bound vt.object p.wal bound) p.wal.logs (
        ap
          (λ (o : Option ℕ). last? (elim o as (λ _. List L) [
            | none ↦ p.wal.logs
            | some bound ↦ drop (log_upper_bound vt.object p.wal bound) p.wal.logs
          ]))
          (sym b)
        ∙ e)
  ]
