-- ===== src/Wal/Client/Batches.antt =====
-- A batch of logs that a client receives again.
use atframe_utils.Base.{
  ℕ, suc, ◌<◌, ◌≡◌, ◌⊎◌, refl, sym, subst, ap, ◌∙◌, inl, inr, arith, some, List, [], ◌∷◌, map, All,
}
use atframe_utils.Wal.Types.{Vtable}
use atframe_utils.Wal.Keys.{IsAscending}
use atframe_utils.Wal.Client.{ClientConfigure, Client, receive_logs}
use atframe_utils.Wal.Client.Receiving.{
  IsFinishedTo, IsFinishedTo-le, client_of, IsRefused, receive_log-cases, receive_log-finished,
  pushed-finished, receive_log-up, receive_logs-IsSplit,
}

module _ {L P C : Type 0} (fuel : ℕ) (vt : Vtable L P C) (conf : ClientConfigure) (param : C)
    (key : L → ℕ) (keyed : vt.get_log_key ≡ some key) where
  receive_logs-up :
      (k : ℕ) (logs : List L) (c c' : Client L P C) (n : ℕ)
      → receive_logs fuel vt conf param (map some logs) c ≡ some (n, c')
      → IsFinishedTo k c.last_finished_log_key
      → IsFinishedTo k c'.last_finished_log_key
  unfolding receive_logs client_of
  receive_logs-up k [] c c' n e h =
      subst (λ d. IsFinishedTo k d.last_finished_log_key) (ap (client_of c) e) h
  receive_logs-up k (x ∷ xs) c c' n e h =
      let (code, c1, n2, first, rest) =
        receive_logs-IsSplit fuel vt conf param key keyed x xs c c' n e in
      receive_logs-up k xs c1 c' n2 rest
        (receive_log-up fuel vt conf param key keyed k x c c1 code first h)

  -- A batch above `b` is refused as a whole, or some log above `b` is finished after it.
  receive_logs-above :
      (b : ℕ) (logs : List L) (c c' : Client L P C) (n : ℕ)
      → All (λ y. b < y) (map key logs)
      → receive_logs fuel vt conf param (map some logs) c ≡ some (n, c')
      → (c ≡ c') ⊎ IsFinishedTo (suc b) c'.last_finished_log_key
  unfolding receive_logs client_of
  receive_logs-above b [] c c' n all e = inl (ap (client_of c) e)
  receive_logs-above b (x ∷ xs) c c' n all e =
      let (code, c1, n2, first, rest) =
        receive_logs-IsSplit fuel vt conf param key keyed x xs c c' n e in
      elim (receive_log-cases fuel vt conf param key keyed x c) [
        | inl (code', refused, _) ↦ receive_logs-above b xs c c' n2 all.1 (
            subst (λ d. receive_logs fuel vt conf param (map some xs) d ≡ some (n2, c'))
              (sym (ap (client_of c) (sym refused ∙ first))) rest)
        | inr (below, is_pushed) ↦ inr (
            receive_logs-up (suc b) xs c1 c' n2 rest (
              subst (IsFinishedTo (suc b))
                (sym (
                  pushed-finished fuel vt conf param key keyed x c c1 code (sym is_pushed ∙ first)))
                all.0))
      ]

  -- After an ascending batch each of its logs is refused.
  receive_logs-IsRefused :
      (logs : List L) (c c' : Client L P C) (n : ℕ)
      → IsAscending (map key logs)
      → receive_logs fuel vt conf param (map some logs) c ≡ some (n, c')
      → All (λ log. IsRefused fuel vt conf param key keyed log c') logs
  unfolding client_of
  receive_logs-IsRefused [] c c' n asc e = tt
  receive_logs-IsRefused (x ∷ xs) c c' n asc e =
      let (code, c1, n2, first, rest) =
        receive_logs-IsSplit fuel vt conf param key keyed x xs c c' n e in
      let later : All (λ log. IsRefused fuel vt conf param key keyed log c') xs =
        receive_logs-IsRefused xs c1 c' n2 asc.1 rest in
      elim (receive_log-cases fuel vt conf param key keyed x c)
        as (λ _.
          IsRefused fuel vt conf param key keyed x c'
          × All (λ log. IsRefused fuel vt conf param key keyed log c') xs) [
            | inl (code', refused, not_ok) ↦
                let same : c1 ≡ c = ap (client_of c) (sym first ∙ refused) in
                (
                  elim (receive_logs-above (key x) xs c1 c' n2 asc.0 rest)
                      as (λ _. IsRefused fuel vt conf param key keyed x c') [
                        | inl unchanged ↦
                            subst (IsRefused fuel vt conf param key keyed x) (sym same ∙ unchanged)
                              (code', refused, not_ok)
                        | inr above ↦ receive_log-finished fuel vt conf param key keyed x c' (
                            IsFinishedTo-le (key x) (suc (key x)) c'.last_finished_log_key
                              (omega arith) above)
                      ],
                  later,
                )
            | inr (below, is_pushed) ↦ (
              receive_log-finished fuel vt conf param key keyed x c' (
                  receive_logs-up (key x) xs c1 c' n2 rest (
                    subst (IsFinishedTo (key x))
                      (sym (
                        pushed-finished fuel vt conf param key keyed x c c1 code
                          (sym is_pushed ∙ first)))
                      (omega arith))),
              later,
            )
          ]

  all_refused :
      (logs : List L) (c : Client L P C)
      → All (λ log. IsRefused fuel vt conf param key keyed log c) logs
      → receive_logs fuel vt conf param (map some logs) c ≡ some (0, c)
  unfolding receive_logs
  all_refused [] c h = refl
  all_refused (x ∷ xs) c ((code, refused, not_ok), h) =
      rw (receive_logs, refused, all_refused xs c h, not_ok) refl

  -- A client that receives an ascending batch again accepts none of it and does not change: no log
  -- is done twice.
  pub receive_logs-receive_logs :
      (logs : List L) (c c' : Client L P C) (n : ℕ)
      → IsAscending (map key logs)
      → receive_logs fuel vt conf param (map some logs) c ≡ some (n, c')
      → receive_logs fuel vt conf param (map some logs) c' ≡ some (0, c')
  receive_logs-receive_logs logs c c' n asc e =
      all_refused logs c' (receive_logs-IsRefused logs c c' n asc e)
