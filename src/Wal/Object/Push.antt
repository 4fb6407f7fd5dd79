-- ===== src/Wal/Object/Push.antt =====
-- wal_object.h: `pusk_back_internal`, `pusk_back_internal_uncheck` and `emplace_back`.
use atframe_utils.Base.{
  ℕ, zero, suc, Bool, true, false, not, ◌&&◌, ◌||◌, Option, none, some, List, [], ◌∷◌, ◌++◌, ltb,
  if◌then◌else◌, last?, take, drop, tail, length, is_empty,
}
use atframe_utils.Wal.Types.{
  ResultCode, invalid_param, ignore, pending, merge, initial_hash_code, log_added, listeners_added,
  Configure, Object, Vtable,
}
use atframe_utils.Wal.Object.{lower_bound, is_ok, HashFns, hash_fns, redo_log, pop_front_internal}

module _ {ℓ} {L : Type ℓ} where
  -- The hash code of the last log, or the initial one.
  unfoldable pub last_hash : HashFns L → List L → ℕ
  last_hash f logs = elim (last? logs) [ none ↦ initial_hash_code | some l ↦ f.get l ]

  -- A log with its hash code set anew from the logs before it, if the callbacks are set.
  unfoldable pub rehash : Option (HashFns L) → List L → L → L
  rehash none before log = log
  rehash (some f) before log = f.set log (f.calculate (last_hash f before) log)

  -- The loop that sets the hash codes of the logs behind an inserted one.
  unfoldable pub rechain : HashFns L → ℕ → List L → List L
  rechain f hash [] = []
  rechain f hash (x ∷ xs) = let hash' = f.calculate hash x in f.set x hash' ∷ rechain f hash' xs

  unfoldable pub rechain_after : Option (HashFns L) → L → List L → List L
  rechain_after none log after = after
  rechain_after (some f) log after = rechain f (f.get log) after

module _ {ℓ} {L P C : Type ℓ} where
  -- A failed action still adds its log if the configuration asks for it and hash codes are used.
  unfoldable pub accepts : Vtable L P C → Configure → ResultCode → Bool
  accepts vt conf code =
      is_ok code
      || (conf.accept_log_when_hash_matched && elim (hash_fns vt) [ none ↦ false | some _ ↦ true ])

  -- The listeners, the insertion, and `on_log_added`.
  unfoldable pub add_log : Vtable L P C → Object L P C → List L → L → List L → Object L P C
  add_log vt o before log after = record o {
    logs = before ++ log ∷ after;
    events =
        o.events
        ++ (if vt.on_log_added
            then listeners_added log ∷ log_added log ∷ []
            else listeners_added log ∷ []);
  }

  unfoldable pub push_back_internal_uncheck :
      Vtable L P C → Configure → Object L P C → L → C → ResultCode × Object L P C
  push_back_internal_uncheck vt conf o log param =
      let hashed : L = elim vt.get_log_key [
        | none ↦ log
        | some _ ↦ rehash (hash_fns vt) o.logs log
      ] in
      let (code, log', o') = redo_log vt o hashed param in
      if accepts vt conf code then (code, add_log vt o' o.logs log' []) else (code, o')

  -- A log whose key is there already is merged into the old one, which keeps its hash code.
  unfoldable pub merge_into : Vtable L P C → C → L → L → L
  merge_into vt param old log = elim vt.merge_log [
    | none ↦ old
    | some merge_log ↦ elim vt.set_hash_code [
      | none ↦ merge_log param old log
      | some set ↦ elim vt.get_hash_code [
        | none ↦ merge_log param old log
        | some get ↦ set (merge_log param old log) (get old)
      ]
    ]
  ]

  -- The insertion of a log between `before` and `after`.
  unfoldable pub insert_between :
      Vtable L P C → Configure → Object L P C → List L → List L → L → C → ResultCode × Object L P C
  insert_between vt conf o before after log param =
      let (code, log', o') = redo_log vt o (rehash (hash_fns vt) before log) param in
      if accepts vt conf code
      then (code, add_log vt o' before log' (rechain_after (hash_fns vt) log' after))
      else (code, o')

  -- The logs before `iter` and those from it on.
  unfoldable pub insert_at :
      Vtable L P C
      → Configure
      → (L → ℕ)
      → Object L P C
      → List L
      → List L
      → L
      → C
      → ResultCode × Object L P C
  insert_at vt conf key o before after log param = elim after [
    | [] ↦ insert_between vt conf o before [] log param
    | x ∷ rest ↦
        if not (ltb (key x) (key log)) && not (ltb (key log) (key x))
        then (merge, record o { logs = before ++ merge_into vt param x log ∷ rest })
        else insert_between vt conf o before (x ∷ rest) log param
  ]

  unfoldable pub push_back_internal :
      Vtable L P C → Configure → Object L P C → L → C → ResultCode × Object L P C
  push_back_internal vt conf o log param = elim vt.get_log_key [
    | none ↦ push_back_internal_uncheck vt conf o log param
    | some key ↦ elim (last? o.logs) [
      | none ↦ push_back_internal_uncheck vt conf o log param
      | some newest ↦
          if ltb (key newest) (key log)
          then push_back_internal_uncheck vt conf o log param
          else (let i = lower_bound key (key log) o.logs in
              insert_at vt conf key o (take i o.logs) (drop i o.logs) log param)
    ]
  ]

  -- A log pushed directly is ignored up to the ignore key, that key included.
  unfoldable pub ignores : Vtable L P C → Object L P C → L → Bool
  ignores vt o log = elim vt.get_log_key [
    | none ↦ false
    | some key ↦ elim o.global_ingore [ none ↦ false | some g ↦ not (ltb g (key log)) ]
  ]

  -- A log from the queue is skipped below the ignore key.
  unfoldable pub skips : Vtable L P C → Object L P C → L → Bool
  skips vt o log = elim vt.get_log_key [
    | none ↦ false
    | some key ↦ elim o.global_ingore [ none ↦ false | some g ↦ ltb (key log) g ]
  ]

  -- The loop over the queue; `none` when the fuel runs out. A skipped log stays in the queue.
  unfoldable pub drain : ℕ → Vtable L P C → Configure → Object L P C → Option (Object L P C)
  drain zero vt conf o = none
  drain (suc fuel) vt conf o = elim o.pending_logs [
    | [] ↦ some o
    | (log, param) ∷ _ ↦
        let again = drain fuel vt conf o in
        let next =
          (let o' = (push_back_internal vt conf o log param).1 in
            drain fuel vt conf (record o' { pending_logs = tail o'.pending_logs })) in
        if skips vt o log then again else next
  ]

  -- `while (logs_.size() > max_log_size) pop_front_internal();`
  unfoldable pub trim : ℕ → Vtable L P C → ℕ → Object L P C → Object L P C
  trim zero vt max_size o = o
  trim (suc fuel) vt max_size o =
      let rest = trim fuel vt max_size (pop_front_internal vt o) in
      if ltb max_size (length o.logs) then rest else o

  unfoldable pub auto_gc : Vtable L P C → Configure → Object L P C → Object L P C
  auto_gc vt conf o =
      if ltb 0 conf.max_log_size then trim (length o.logs) vt conf.max_log_size o else o

  unfoldable pub emplace_direct :
      Vtable L P C → Configure → Object L P C → L → C → ResultCode × Object L P C
  emplace_direct vt conf o log param =
      if ignores vt o log then (ignore, o) else push_back_internal vt conf o log param

  -- `emplace_back` and `push_back`, with fuel for the loop over the queue.
  unfoldable pub emplace_back :
      ℕ
      → Vtable L P C
      → Configure
      → Object L P C
      → Option L
      → C
      → Option (ResultCode × Object L P C)
  emplace_back fuel vt conf o none param = some (invalid_param, o)
  emplace_back fuel vt conf o (some log) param =
      if not (is_empty o.pending_logs) || o.in_log_action_callback
      then some (pending, record o { pending_logs = o.pending_logs ++ (log, param) ∷ [] })
      else (let (code, o1) =
            emplace_direct vt conf (record o { in_log_action_callback = true }) log param in
          elim (drain fuel vt conf o1) [
            | none ↦ none
            | some o2 ↦ some (code, record (auto_gc vt conf o2) { in_log_action_callback = false })
          ])
