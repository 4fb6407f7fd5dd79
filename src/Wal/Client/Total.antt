-- ===== src/Wal/Client/Total.antt =====
-- A client whose callbacks settle receives every log that fits its fuel.
use atframe_utils.Base.{
  ℕ, suc, ◌≤◌, ◌≡◌, refl, ◌∙◌, inl, inr, some, List, [], ◌∷◌, map, All, if◌then◌else◌,
}
use atframe_utils.Wal.Types.{ResultCode, Vtable}
use atframe_utils.Wal.Laws.{Settles, KeepsKeys}
use atframe_utils.Wal.Object.{is_ok}
use atframe_utils.Wal.Object.Emplace.{IsReady}
use atframe_utils.Wal.Object.Total.{IsSorted, emplace_back_total}
use atframe_utils.Wal.Client.{
  ClientConfigure, Client, set_last_finished_log_key, emplace_received, receive_log, receive_logs,
}
use atframe_utils.Wal.Client.Receiving.{pushed, receive_log-cases}

module _ {L P C : Type 0} (vt : Vtable L P C) (conf : ClientConfigure) (floor : ℕ)
    (key weight : L → ℕ) (keeps : KeepsKeys vt key) (settles : Settles vt floor key weight)
    (param : C) where
  receive_log_total :
      (fuel : ℕ) (log : L) (c : Client L P C)
      → IsReady floor (IsSorted key) c.wal
      → weight log ≤ fuel
      → (code : ResultCode) × (c' : Client L P C) × (receive_log fuel vt conf (some log) param c
          ≡ some (code, c'))
        × IsReady floor (IsSorted key) c'.wal
  unfolding pushed emplace_received
  receive_log_total fuel log c ready fits =
      elim (receive_log-cases fuel vt conf param key keeps.keyed log c) [
        | inl (code, refused, _) ↦ (code, c, refused, ready)
        | inr (_, is_pushed) ↦
            let (code, o', e, ready', _) =
              emplace_back_total vt conf.object floor key weight keeps settles fuel c.wal log param
                ready fits in
            (
              code,
              record (set_last_finished_log_key (key log) c) { wal = o' },
              is_pushed ∙ rw (pushed, emplace_received, e) refl,
              ready',
            )
      ]

  -- With callbacks that settle, and fuel from the weight of each log on, `receive_logs` returns, and
  -- the log of the client is ready again: its keys ascend without repetition and no log waits.
  pub receive_logs_total :
      (fuel : ℕ) (logs : List L) (c : Client L P C)
      → IsReady floor (IsSorted key) c.wal
      → All (λ log. weight log ≤ fuel) logs
      → (n : ℕ) × (c' : Client L P C) × (receive_logs fuel vt conf param (map some logs) c
          ≡ some (n, c'))
        × IsReady floor (IsSorted key) c'.wal
  unfolding receive_logs
  receive_logs_total fuel [] c ready fits = (0, c, refl, ready)
  receive_logs_total fuel (x ∷ xs) c ready fits =
      let (code, c1, e, ready1) = receive_log_total fuel x c ready fits.0 in
      let (n, c', e', ready') = receive_logs_total fuel xs c1 ready1 fits.1 in
      (if is_ok code then suc n else n, c', rw (receive_logs, e, e') refl, ready')
