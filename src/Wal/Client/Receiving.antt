-- ===== src/Wal/Client/Receiving.antt =====
-- `receive_log` by its tests, and the finished key behind a call.
use atframe_utils.Base.{
  ℕ, suc, ◌≤◌, ◌≡◌, ◌⊎◌, refl, sym, subst, ap, ◌∙◌, inl, inr, arith, Bool, true, false, not, ◌&&◌,
  Option, none, some, List, ◌∷◌, map, if◌then◌else◌, Option-cases,
}
use atframe_utils.Wal.Types.{
  ResultCode, ignore, hash_code_mismatch, client_require_snapshot, Object, Vtable,
}
use atframe_utils.Wal.Object.{is_ok}
use atframe_utils.Wal.Object.Push.{emplace_back}
use atframe_utils.Wal.Client.{
  ClientConfigure, Client, is_finished, set_last_finished_log_key, hash_mismatch, emplace_received,
  receive_log, receive_logs,
}

-- The finished key is `k` or above.
abbrev pub IsFinishedTo : ℕ → Option ℕ → Type 0
IsFinishedTo k none = ⊥
IsFinishedTo k (some finished) = k ≤ finished

is_finished-IsFinishedTo :
    (k : ℕ) (last : Option ℕ) → IsFinishedTo k last → is_finished last k ≡ true
is_finished-IsFinishedTo k none h = absurd h
is_finished-IsFinishedTo k (some f) h = ground (arith, h)

IsFinishedTo-above :
    (k j : ℕ) (last : Option ℕ) → is_finished last j ≡ false → IsFinishedTo k last → k ≤ j
IsFinishedTo-above k j none e h = absurd h
IsFinishedTo-above k j (some f) e h = ground (arith, e, h)

pub IsFinishedTo-le :
    (k j : ℕ) (last : Option ℕ) → k ≤ j → IsFinishedTo j last → IsFinishedTo k last
IsFinishedTo-le k j none le h = h
IsFinishedTo-le k j (some f) le h = omega arith

module _ {L P C : Type 0} where
  -- The client that a result leaves, or a given one.
  unfoldable pub client_of : {A : Type 0} → Client L P C → Option (A × Client L P C) → Client L P C
  client_of c none = c
  client_of c (some r) = r.1

  -- `receive_log` by its three tests, where a push is the alternative.
  by_tests :
      Bool
      → Bool
      → Bool
      → Client L P C
      → Option (ResultCode × Client L P C)
      → Option (ResultCode × Client L P C)
  by_tests needs_snapshot mismatch finished c pushed =
      if needs_snapshot
      then some (client_require_snapshot, c)
      else (if mismatch
          then some (hash_code_mismatch, c)
          else (if finished then some (ignore, c) else pushed))

  by_tests-cases :
      (s m f : Bool) (c : Client L P C) (pushed : Option (ResultCode × Client L P C))
      → ((code : ResultCode) × (by_tests s m f c pushed ≡ some (code, c)) × (is_ok code ≡ false))
        ⊎ ((f ≡ false) × (by_tests s m f c pushed ≡ pushed))
  unfolding by_tests
  by_tests-cases true m f c pushed = inl (client_require_snapshot, refl, refl)
  by_tests-cases false true f c pushed = inl (hash_code_mismatch, refl, refl)
  by_tests-cases false false true c pushed = inl (ignore, refl, refl)
  by_tests-cases false false false c pushed = inr (refl, refl)

module _ {L P C : Type 0} (fuel : ℕ) (vt : Vtable L P C) (conf : ClientConfigure) (param : C)
    (key : L → ℕ) (keyed : vt.get_log_key ≡ some key) where
  -- A log is turned away: with a code that is not kOk, and nothing changes.
  abbrev pub IsRefused : L → Client L P C → Type 0
  IsRefused log c =
      (code : ResultCode) × (receive_log fuel vt conf (some log) param c ≡ some (code, c))
      × (is_ok code ≡ false)

  -- `receive_log` where no test turns the log away.
  unfoldable pub pushed : L → Client L P C → Option (ResultCode × Client L P C)
  pushed log c =
      emplace_received fuel vt conf.object log param (set_last_finished_log_key (key log) c)

  receive_log_lem :
      (log : L) (c : Client L P C)
      → receive_log fuel vt conf (some log) param c
        ≡ by_tests
            (conf.require_snapshot && not c.received_snapshot)
            (hash_mismatch vt c.wal log (key log))
            (is_finished c.last_finished_log_key (key log))
            c
            (pushed log c)
  unfolding receive_log by_tests pushed
  receive_log_lem log c = ap by_key keyed
    where
      by_key : Option (L → ℕ) → Option (ResultCode × Client L P C)
      by_key get_log_key =
          if conf.require_snapshot && not c.received_snapshot
          then some (client_require_snapshot, c)
          else elim get_log_key [
            | none ↦ emplace_received fuel vt conf.object log param c
            | some key' ↦
                if hash_mismatch vt c.wal log (key' log)
                then some (hash_code_mismatch, c)
                else (if is_finished c.last_finished_log_key (key' log)
                    then some (ignore, c)
                    else emplace_received fuel vt conf.object log param
                        (set_last_finished_log_key (key' log) c))
          ]

  pub receive_log-cases :
      (log : L) (c : Client L P C)
      → IsRefused log c
        ⊎ ((is_finished c.last_finished_log_key (key log) ≡ false)
            × (receive_log fuel vt conf (some log) param c ≡ pushed log c))
  receive_log-cases log c = rw (receive_log_lem log c) (
      by_tests-cases (conf.require_snapshot && not c.received_snapshot)
        (hash_mismatch vt c.wal log (key log)) (is_finished c.last_finished_log_key (key log)) c
        (pushed log c))

  -- At or below the finished key every log is refused.
  pub receive_log-finished :
      (log : L) (c : Client L P C)
      → IsFinishedTo (key log) c.last_finished_log_key
      → IsRefused log c
  receive_log-finished log c h = elim (receive_log-cases log c) [
    | inl refused ↦ refused
    | inr (e, _) ↦
        absurd (ground (arith, e, is_finished-IsFinishedTo (key log) c.last_finished_log_key h))
  ]

  -- A push leaves the key of its log as the finished key.
  pub pushed-finished :
      (log : L) (c c1 : Client L P C) (code : ResultCode)
      → pushed log c ≡ some (code, c1)
      → c1.last_finished_log_key ≡ some (key log)
  unfolding pushed emplace_received client_of
  pushed-finished log c c1 code e =
      sym (ap (λ r. (client_of (set_last_finished_log_key (key log) c) r).last_finished_log_key) e)
      ∙ kept (emplace_back fuel vt conf.object c.wal (some log) param)
    where
      kept :
          (r : Option (ResultCode × Object L P C))
          → (client_of
              (set_last_finished_log_key (key log) c)
              (elim r as (λ _. Option (ResultCode × Client L P C)) [
                | none ↦ none
                | some (code', wal) ↦
                    some (code', record c { wal = wal; last_finished_log_key = some (key log) })
              ])).last_finished_log_key
            ≡ some (key log)
      kept none = refl
      kept (some r) = refl

  -- Every call keeps the finished key or moves it up.
  pub receive_log-up :
      (k : ℕ) (log : L) (c c1 : Client L P C) (code : ResultCode)
      → receive_log fuel vt conf (some log) param c ≡ some (code, c1)
      → IsFinishedTo k c.last_finished_log_key
      → IsFinishedTo k c1.last_finished_log_key
  unfolding client_of
  receive_log-up k log c c1 code e h = elim (receive_log-cases log c) [
    | inl (code', refused, _) ↦
        subst (λ d. IsFinishedTo k d.last_finished_log_key) (ap (client_of c) (sym refused ∙ e)) h
    | inr (below, is_pushed) ↦
        subst (IsFinishedTo k) (sym (pushed-finished log c c1 code (sym is_pushed ∙ e)))
          (IsFinishedTo-above k (key log) c.last_finished_log_key below h)
  ]

  -- The two calls of a batch that is not empty.
  abbrev pub IsSplit : L → List L → Client L P C → Client L P C → Type 0
  IsSplit log logs c c' =
      (code : ResultCode) × (c1 : Client L P C) × (n : ℕ) × (receive_log fuel vt conf (some log)
          param c
        ≡ some (code, c1))
      × (receive_logs fuel vt conf param (map some logs) c1 ≡ some (n, c'))

  pub receive_logs-IsSplit :
      (log : L) (logs : List L) (c c' : Client L P C) (n : ℕ)
      → receive_logs fuel vt conf param (map some (log ∷ logs)) c ≡ some (n, c')
      → IsSplit log logs c c'
  unfolding receive_logs client_of
  receive_logs-IsSplit log logs c c' n h =
      elim (Option-cases (receive_log fuel vt conf (some log) param c)) [
        | inl e ↦ absurd (is_none (sym (stops e) ∙ h))
        | inr ((code, c1), e) ↦
            elim (Option-cases (receive_logs fuel vt conf param (map some logs) c1)) [
              | inl e2 ↦ absurd (is_none (sym (stops_later code c1 e e2) ∙ h))
              | inr ((n2, c2), e2) ↦ (
                code,
                c1,
                n2,
                e,
                e2
                    ∙ ap (λ d. some (n2, d))
                        (ap (client_of c) (sym (goes_on code c1 n2 c2 e e2) ∙ h)),
              )
            ]
      ]
    where
      all : Option (ℕ × Client L P C)
      all = receive_logs fuel vt conf param (some log ∷ map some logs) c

      is_none : {A : Type 0} {a : A} → none ≡ some a → ⊥
      is_none e = ground arith

      stops : receive_log fuel vt conf (some log) param c ≡ none → all ≡ none
      stops e = rw (receive_logs, e) refl

      stops_later :
          (code : ResultCode) (c1 : Client L P C)
          → receive_log fuel vt conf (some log) param c ≡ some (code, c1)
          → receive_logs fuel vt conf param (map some logs) c1 ≡ none
          → all ≡ none
      stops_later code c1 e e2 = rw (receive_logs, e, e2) refl

      goes_on :
          (code : ResultCode) (c1 : Client L P C) (n2 : ℕ) (c2 : Client L P C)
          → receive_log fuel vt conf (some log) param c ≡ some (code, c1)
          → receive_logs fuel vt conf param (map some logs) c1 ≡ some (n2, c2)
          → all ≡ some (if is_ok code then suc n2 else n2, c2)
      goes_on code c1 n2 c2 e e2 = rw (receive_logs, e, e2) refl
