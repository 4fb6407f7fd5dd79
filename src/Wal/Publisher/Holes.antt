-- ===== src/Wal/Publisher/Holes.antt =====
-- A log that is pushed between two broadcasts: the log and the listener of the publisher together.
use atframe_utils.Base.{
  ℕ, zero, suc, not, ◌≡◌, refl, ap, sym, subst, ◌∙◌, arith, Bool, true, false, ◌&&◌, Option, some,
  none, List, [], ◌∷◌, ◌++◌, map, map-append, if◌then◌else◌, ltb, ◌==◌, take, drop, length, last?,
  All, if-split, append_assoc,
}
use atframe_utils.Wal.Types.{
  ResultCode, ignore, Event, listeners_added, log_added, Configure, Object, Vtable,
}
use atframe_utils.Wal.Laws.{KeepsKeys}
use atframe_utils.Wal.Keys.{IsAscending, insert_key}
use atframe_utils.Wal.Object.{lower_bound, hash_fns, redo_log, run_delegate, run_action}
use atframe_utils.Wal.Object.Push.{
  accepts, add_log, rehash, insert_between, insert_at, push_back_internal_uncheck,
  push_back_internal, ignores, drain, auto_gc, emplace_direct, emplace_back,
}
use atframe_utils.Wal.Object.Bounds.{auto_gc-logs}
use atframe_utils.Wal.Object.Emplace.{emplace_back_run, drain_end}
use atframe_utils.Wal.Publisher.Trimmed.{newest, map-newest, hear-append, auto_gc-Unheard}
use atframe_utils.Wal.Object.Frame.{redo_log-key, rehash-key}
use atframe_utils.Wal.Object.Order.{push_back_internal-keys}
use atframe_utils.Wal.Publisher.{
  PublisherConfigure, Publisher, PublisherVtable, on_add_log, hear, with_wal, push_back_log,
}
use atframe_utils.Wal.Publisher.Pending.{newer, pending}

drop-append : {A : Type 0} (xs ys : List A) → drop (length xs) (xs ++ ys) ≡ ys
drop-append [] ys = refl
drop-append (x ∷ xs) ys = drop-append xs ys

All-drop :
    {L : Type 0} (key : L → ℕ) (Q : ℕ → Type 0) (n : ℕ) (xs : List L)
    → All Q (map key xs)
    → All Q (map key (drop n xs))
All-drop key Q zero xs h = h
All-drop key Q (suc n) [] h = h
All-drop key Q (suc n) (x ∷ xs) h = All-drop key Q n xs h.1

map-newer :
    {L : Type 0} (key : L → ℕ) (b : ℕ) (xs : List L)
    → map key (newer key b xs) ≡ newer (λ x. x) b (map key xs)
unfolding newer
map-newer key b [] = refl
map-newer key b (x ∷ xs) = ground (arith, map-newer key b xs)

module _ {L P C : Type 0} (vt : Vtable L P C) (conf : Configure) (key : L → ℕ)
    (keeps : KeepsKeys vt key) where
  -- The events of an accepted log with the key of `log`.
  added : L → List (Event L)
  added log =
      if vt.on_log_added then listeners_added log ∷ log_added log ∷ [] else listeners_added log ∷ []

  redo_log-events :
      (o : Object L P C) (log : L) (param : C) → (redo_log vt o log param).2.events ≡ o.events
  unfolding redo_log run_delegate run_action
  redo_log-events o log param = ground arith

  -- The log was pushed under its key, and the events say so.
  abbrev IsAdded : Object L P C → L → Object L P C → Type 0
  IsAdded o log o' = (log' : L) × (key log' ≡ key log) × (o'.events ≡ o.events ++ added log')

  insert_between-IsAdded :
      (o : Object L P C) (before after : List L) (log : L) (param : C)
      → accepts vt conf (insert_between vt conf o before after log param).0 ≡ true
      → IsAdded o log (insert_between vt conf o before after log param).1
  unfolding insert_between add_log added
  insert_between-IsAdded o before after log param h =
      let hashed = rehash (hash_fns vt) before log in
      (
        (redo_log vt o hashed param).1,
        redo_log-key key vt o hashed param keeps.patches_keep ∙ rehash-key key vt before log keeps,
        ground (arith, h, redo_log-events o hashed param),
      )

  push_back_internal_uncheck-IsAdded :
      (o : Object L P C) (log : L) (param : C)
      → accepts vt conf (push_back_internal_uncheck vt conf o log param).0 ≡ true
      → IsAdded o log (push_back_internal_uncheck vt conf o log param).1
  unfolding push_back_internal_uncheck add_log added
  push_back_internal_uncheck-IsAdded o log param h =
      let hashed = rehash (hash_fns vt) o.logs log in
      (
        (redo_log vt o hashed param).1,
        redo_log-key key vt o hashed param keeps.patches_keep ∙ rehash-key key vt o.logs log keeps,
        ground (arith, h, keeps.keyed, redo_log-events o hashed param),
      )

  insert_at-IsAdded :
      (o : Object L P C) (before after : List L) (log : L) (param : C)
      → All (λ y. (y == key log) ≡ false) (map key after)
      → accepts vt conf (insert_at vt conf key o before after log param).0 ≡ true
      → IsAdded o log (insert_at vt conf key o before after log param).1
  unfolding insert_at
  insert_at-IsAdded o before [] log param new = insert_between-IsAdded o before [] log param
  insert_at-IsAdded o before (x ∷ rest) log param new =
      if-split (λ (r : ResultCode × Object L P C). accepts vt conf r.0 ≡ true → IsAdded o log r.1)
        (not (ltb (key x) (key log)) && not (ltb (key log) (key x)))
        (λ same. absurd (ground (arith, same, new.0)))
        (λ _. insert_between-IsAdded o before (x ∷ rest) log param)

  push_back_internal-IsAdded :
      (o : Object L P C) (log : L) (param : C)
      → All (λ y. (y == key log) ≡ false) (map key o.logs)
      → accepts vt conf (push_back_internal vt conf o log param).0 ≡ true
      → IsAdded o log (push_back_internal vt conf o log param).1
  unfolding push_back_internal
  push_back_internal-IsAdded o log param new =
      subst (λ (r : ResultCode × Object L P C). accepts vt conf r.0 ≡ true → IsAdded o log r.1)
        (sym keyed) (by_newest (last? o.logs))
    where
      push : Option L → ResultCode × Object L P C
      push newest = elim newest [
        | none ↦ push_back_internal_uncheck vt conf o log param
        | some l ↦
            if ltb (key l) (key log)
            then push_back_internal_uncheck vt conf o log param
            else (let i = lower_bound key (key log) o.logs in
                insert_at vt conf key o (take i o.logs) (drop i o.logs) log param)
      ]

      keyed : push_back_internal vt conf o log param ≡ push (last? o.logs)
      keyed = ap by_key keeps.keyed
        where
          by_key : Option (L → ℕ) → ResultCode × Object L P C
          by_key none = push_back_internal_uncheck vt conf o log param
          by_key (some key') = elim (last? o.logs) [
            | none ↦ push_back_internal_uncheck vt conf o log param
            | some l ↦
                if ltb (key' l) (key' log)
                then push_back_internal_uncheck vt conf o log param
                else (let i = lower_bound key' (key' log) o.logs in
                    insert_at vt conf key' o (take i o.logs) (drop i o.logs) log param)
          ]

      by_newest :
          (newest : Option L)
          → accepts vt conf (push newest).0 ≡ true
          → IsAdded o log (push newest).1
      by_newest none = push_back_internal_uncheck-IsAdded o log param
      by_newest (some l) =
          let i = lower_bound key (key log) o.logs in
          if-split
            (λ (r : ResultCode × Object L P C). accepts vt conf r.0 ≡ true → IsAdded o log r.1)
            (ltb (key l) (key log)) (λ _. push_back_internal_uncheck-IsAdded o log param)
            (λ _.
              insert_at-IsAdded o (take i o.logs) (drop i o.logs) log param
                (All-drop key (λ y. (y == key log) ≡ false) i o.logs new))

module _ {L P C : Type 0} (vt : PublisherVtable L P C) (conf : PublisherConfigure) (key : L → ℕ)
    (keeps : KeepsKeys vt.object key) where
  -- What the listeners make of the events of one accepted log.
  hear-added :
      (log : L) (p : Publisher L P C)
      → hear vt conf (added vt.object conf.object key keeps log) p ≡ on_add_log vt conf log p
  unfolding hear added
  hear-added log p =
      if-split (λ (es : List (Event L)). hear vt conf es p ≡ on_add_log vt conf log p)
        vt.object.on_log_added (λ _. refl) (λ _. refl)

  on_add_log_lem :
      (bound : ℕ) (log : L) (p : Publisher L P C)
      → p.broadcast_key_bound ≡ some bound
      → conf.enable_hole_log ≡ true
      → on_add_log vt conf log p ≡ record p {
        broadcast_hole_logs =
            if ltb (key log) bound
            then p.broadcast_hole_logs ++ log ∷ []
            else p.broadcast_hole_logs;
      }
  unfolding on_add_log
  on_add_log_lem bound log p e enabled =
      ap (λ b. heard b vt.object.get_log_key conf.enable_hole_log) e
      ∙ ap (λ g. heard (some bound) g conf.enable_hole_log) keeps.keyed
      ∙ ap (heard (some bound) (some key)) enabled
      ∙ by_test (ltb (key log) bound)
    where
      heard : Option ℕ → Option (L → ℕ) → Bool → Publisher L P C
      heard b g holes = elim b [
        | none ↦ p
        | some bound' ↦ elim g [
          | none ↦ p
          | some key' ↦
              if holes && ltb (key' log) bound'
              then record p { broadcast_hole_logs = p.broadcast_hole_logs ++ log ∷ [] }
              else p
        ]
      ]

      by_test :
          (b : Bool)
          → (if true && b
              then record p { broadcast_hole_logs = p.broadcast_hole_logs ++ log ∷ [] }
              else p)
            ≡ record p {
              broadcast_hole_logs =
                  if b then p.broadcast_hole_logs ++ log ∷ [] else p.broadcast_hole_logs;
            }
      by_test true = refl
      by_test false = refl

  pending-keys :
      (bound : ℕ) (p : Publisher L P C)
      → p.broadcast_key_bound ≡ some bound
      → map key (pending key p) ≡ newer (λ x. x) bound (map key p.wal.logs)
  unfolding pending
  pending-keys bound p e =
      ap
        (λ (b : Option ℕ).
          map key (elim b as (λ _. List L) [ none ↦ p.wal.logs | some k ↦ newer key k p.wal.logs ]))
        e
      ∙ map-newer key bound p.wal.logs

  -- The publisher after a call of the log that added a log and heard nothing else.
  with_wal-added :
      (bound : ℕ) (log : L) (es : List (Event L)) (wal : Object L P C) (p : Publisher L P C)
      → p.broadcast_key_bound ≡ some bound
      → conf.enable_hole_log ≡ true
      → wal.events ≡ p.wal.events ++ (added vt.object conf.object key keeps log ++ es)
      → ((q : Publisher L P C) → hear vt conf es q ≡ q)
      → with_wal vt conf wal p ≡ record p {
        wal = wal;
        broadcast_hole_logs =
            if ltb (key log) bound
            then p.broadcast_hole_logs ++ log ∷ []
            else p.broadcast_hole_logs;
      }
  with_wal-added bound log es wal p e enabled events unheard =
      let news = added vt.object conf.object key keeps log in
      let q = record p { wal = wal } in
      ap (λ xs. hear vt conf xs q)
        (ap (drop (length p.wal.events)) events ∙ drop-append p.wal.events (news ++ es))
      ∙ hear-append vt conf news es q
      ∙ unheard (hear vt conf news q)
      ∙ hear-added log q
      ∙ on_add_log_lem bound log q e enabled

  hole-keys :
      (b : Bool) (log : L) (holes : List L)
      → map key (if b then holes ++ log ∷ [] else holes)
        ≡ (if b then map key holes ++ key log ∷ [] else map key holes)
  hole-keys true log holes = map-append key holes (log ∷ [])
  hole-keys false log holes = refl

  -- The push of a log by itself, while no callback runs and no log waits.
  abbrev pub direct_push : L → C → Publisher L P C → ResultCode × Object L P C
  direct_push log param p =
      push_back_internal vt.object conf.object (record p.wal { in_log_action_callback = true }) log
        param

  -- The log after `emplace_back`, which removes the oldest logs above the size limit.
  abbrev after_push : L → C → Publisher L P C → Object L P C
  after_push log param p = record (auto_gc vt.object conf.object (direct_push log param p).1) {
    in_log_action_callback = false;
  }

  emplace_back-quiet :
      (fuel : ℕ) (log : L) (param : C) (p : Publisher L P C)
      → p.wal.in_log_action_callback ≡ false
      → p.wal.pending_logs ≡ []
      → ignores vt.object p.wal log ≡ false
      → (direct_push log param p).1.pending_logs ≡ []
      → emplace_back (suc fuel) vt.object conf.object p.wal (some log) param
        ≡ some ((direct_push log param p).0, after_push log param p)
  unfolding emplace_direct ignores
  emplace_back-quiet fuel log param p idle settled kept quiet =
      let started = record p.wal { in_log_action_callback = true } in
      let pushed = direct_push log param p in
      let direct : emplace_direct vt.object conf.object started log param ≡ pushed =
        ap (λ b. if b then (ignore, started) else pushed) kept in
      emplace_back_run vt.object conf.object (suc fuel) p.wal log param pushed.1 settled idle (
        ap (λ r. drain (suc fuel) vt.object conf.object r.1) direct
        ∙ drain_end vt.object conf.object fuel pushed.1 quiet)
      ∙ ap (λ (r : ResultCode × Object L P C). some (r.0, after_push log param p)) direct

  after_push-keys :
      (log : L) (param : C) (p : Publisher L P C)
      → IsAscending (map key p.wal.logs)
      → accepts vt.object conf.object (direct_push log param p).0 ≡ true
      → map key (after_push log param p).logs
        ≡ newest conf.object.max_log_size (insert_key (key log) (map key p.wal.logs))
  after_push-keys log param p asc accepted =
      let started = record p.wal { in_log_action_callback = true } in
      let pushed = direct_push log param p in
      let keys = map key p.wal.logs in
      let limit = conf.object.max_log_size in
      ap (map key) (auto_gc-logs vt.object conf.object pushed.1).0
      ∙ map-newest key limit pushed.1.logs
      ∙ ap (newest limit) (
          push_back_internal-keys vt.object conf.object key keeps started log param asc
          ∙ ap (λ b. if b then insert_key (key log) keys else keys) accepted)

  -- For push_back_log of a log that is not ignored and has a new key, into a sorted log without
  -- waiting logs and outside of a callback, where the log is accepted and its callbacks push no
  -- other one, while holes are enabled and a bound is set: it returns with any fuel but 0, with the
  -- code of the push; pending are then the keys above the bound among the newest max_log_size keys
  -- of the old ones and the new one, or among all of them for a limit of 0; and the log joins the
  -- holes exactly where its key is below the bound.
  pub push_back_log-pending :
      (fuel bound : ℕ) (log : L) (param : C) (p : Publisher L P C)
      → p.broadcast_key_bound ≡ some bound
      → conf.enable_hole_log ≡ true
      → IsAscending (map key p.wal.logs)
      → All (λ y. (y == key log) ≡ false) (map key p.wal.logs)
      → p.wal.in_log_action_callback ≡ false
      → p.wal.pending_logs ≡ []
      → ignores vt.object p.wal log ≡ false
      → accepts vt.object conf.object (direct_push log param p).0 ≡ true
      → (direct_push log param p).1.pending_logs ≡ []
      → (p' : Publisher L P C) × (push_back_log (suc fuel) vt conf (some log) param p
          ≡ some ((direct_push log param p).0, p'))
        × (map key (pending key p')
            ≡ newer
                (λ x. x)
                bound
                (newest conf.object.max_log_size (insert_key (key log) (map key p.wal.logs))))
        × (map key p'.broadcast_hole_logs ≡ (
            if ltb (key log) bound
            then map key p.broadcast_hole_logs ++ key log ∷ []
            else map key p.broadcast_hole_logs))
  unfolding push_back_log
  push_back_log-pending fuel bound log param p e enabled asc new idle settled kept accepted quiet =
      let started = record p.wal { in_log_action_callback = true } in
      let pushed = direct_push log param p in
      let wal = after_push log param p in
      let holes = p.broadcast_hole_logs in
      let (log', same_key, events) =
        push_back_internal-IsAdded vt.object conf.object key keeps started log param new accepted in
      let (es, removed, unheard) = auto_gc-Unheard vt conf pushed.1 in
      let news = added vt.object conf.object key keeps log' in
      let heard =
        with_wal-added bound log' es wal p e enabled
          (removed ∙ ap (λ xs. xs ++ es) events ∙ append_assoc p.wal.events news es) unheard in
      (
        with_wal vt conf wal p,
        ap
            (λ o. elim o as (λ _. Option (ResultCode × Publisher L P C)) [
              | none ↦ none
              | some r ↦ some (r.0, with_wal vt conf r.1 p)
            ])
            (emplace_back-quiet fuel log param p idle settled kept quiet),
        ap (λ q. map key (pending key q)) heard
            ∙ pending-keys bound
                (record p {
                  wal = wal;
                  broadcast_hole_logs = if ltb (key log') bound then holes ++ log' ∷ [] else holes;
                })
                e
            ∙ ap (newer (λ x. x) bound) (after_push-keys log param p asc accepted),
        ap (λ (q : Publisher L P C). map key q.broadcast_hole_logs) heard
            ∙ hole-keys (ltb (key log') bound) log' holes
            ∙ ap (λ j. if ltb j bound then map key holes ++ j ∷ [] else map key holes) same_key,
      )
