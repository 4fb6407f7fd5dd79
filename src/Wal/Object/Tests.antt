-- ===== src/Wal/Object/Tests.antt =====
-- Runs of the log on concrete entries, and the theorems at inputs that meet their hypotheses.
use atframe_utils.Base.{
  ℕ, ◌+◌, ◌-◌, ◌*◌, ◌%◌, ◌^◌, ◌≤◌, ◌≡◌, ◌⊎◌, refl, true, false, Option, none, some, List, [], ◌∷◌,
  map, arith, length, if◌then◌else◌, ◌==◌, drop, take, All,
}
use atframe_utils.Wal.Types.{ResultCode, ok, success, Configure, Object, Reply, Delegate, Vtable}
use atframe_utils.Wal.Laws.{KeepsKeys, HashLaws, Settles, DelegateSettles}
use atframe_utils.Wal.Keys.{insert_key}
use atframe_utils.Wal.Object.{
  HashFns, hash_fns, redo_log, run_delegate, run_action, select_delegate, pop_front_internal,
  note_removed, lower_bound,
}
use atframe_utils.Wal.Object.Push.{
  accepts, add_log, rehash, last_hash, rechain, rechain_after, merge_into, insert_between,
  insert_at, push_back_internal_uncheck, push_back_internal, ignores, skips, drain, trim, auto_gc,
  emplace_direct, emplace_back,
}
use atframe_utils.Wal.Object.Emplace.{IsReady, emplace_back_diverges}
use atframe_utils.Wal.Object.Total.{IsSorted, emplace_back_total}
use atframe_utils.Wal.Object.Chain.{IsChained, emplace_back-IsChained}
use atframe_utils.Wal.Object.Order.{push_back_internal-keys}
use atframe_utils.Wal.Object.Gc.{
  gc, gc_loop, gc_removes, may_remove, expired, gc_settings, remove_before, remove_before_loop,
}
use atframe_utils.Wal.Object.GcLaws.{gc_count, gc_lem, removed_before, remove_before_lem}
use atframe_utils.Wal.Object.Removed.{Covers, gc-Covers}
use atframe_utils.Wal.Object.Query.{
  upper_bound, search_key, find_log, log_lower_bound, log_upper_bound, get_hash_code_before,
}
use atframe_utils.Wal.Object.QueryLaws.{
  find_log_lem, log_bounds_lem, hash_of_last, get_hash_code_before_lem,
}

program : Unit {0}
unfolding hash_fns redo_log run_delegate run_action select_delegate pop_front_internal note_removed
    lower_bound accepts add_log rehash last_hash rechain rechain_after merge_into insert_between
    insert_at push_back_internal_uncheck push_back_internal ignores skips drain trim auto_gc
    emplace_direct emplace_back gc gc_loop gc_removes may_remove expired gc_settings remove_before
    remove_before_loop upper_bound search_key find_log log_lower_bound log_upper_bound
    get_hash_code_before
program = tt

record Entry : Type 0 where
  key : ℕ
  time : ℕ
  hash : ℕ
  follow_ups : ℕ

abbrev entry : ℕ → ℕ → ℕ → Entry
entry k t n = record { key = k; time = t; hash = 0; follow_ups = n }

-- An entry with follow-ups pushes the next key with one follow-up less.
abbrev act : Object Entry ℕ ℕ → Entry → ℕ → Reply Entry ℕ ℕ
act o e c = record {
  code = ok;
  log = e;
  private_data = o.private_data + 1;
  pushed = if e.follow_ups == 0 then [] else (entry (e.key + 1) e.time (e.follow_ups - 1), c) ∷ [];
}

abbrev delegate : Delegate Entry ℕ ℕ
delegate = record { patch = none; action = some act }

abbrev hashes : HashFns Entry
hashes = record {
  get = λ e. e.hash;
  set = λ e h. record e { hash = h };
  calculate = λ h e. (h * 31 + e.key + 1) % 2 ^ 64;
}

abbrev table : Vtable Entry ℕ ℕ
table = record {
  get_meta = some (λ e. success (record { timepoint = e.time; log_key = e.key; action_case = 0 }));
  set_meta = none;
  merge_log = some (λ c old e. record old { time = e.time });
  get_log_key = some (λ e. e.key);
  on_log_added = true;
  on_log_removed = true;
  get_hash_code = some hashes.get;
  set_hash_code = some hashes.set;
  calculate_hash_code = some hashes.calculate;
  log_action_delegate = λ a. none;
  default_delegate = delegate;
}

abbrev conf : Configure
conf = record {
  gc_expire_duration = 10;
  max_log_size = 3;
  gc_log_size = 1;
  accept_log_when_hash_matched = false;
}

abbrev fresh : Object Entry ℕ ℕ
fresh = record {
  in_log_action_callback = false;
  private_data = 0;
  global_last_removed = none;
  global_ingore = none;
  logs = [];
  pending_logs = [];
  events = [];
}

-- Entries at keys 2 and 5, hash codes included.
abbrev two : Object Entry ℕ ℕ
two = record fresh {
  logs =
      record { key = 2; time = 1; hash = 3; follow_ups = 0 }
      ∷ record { key = 5; time = 9; hash = 99; follow_ups = 0 }
      ∷ [];
}

keys_after : Option (ResultCode × Object Entry ℕ ℕ) → List ℕ
keys_after none = []
keys_after (some r) = map (λ e. e.key) r.1.logs

-- An entry at 3 with two follow-ups comes between, and its follow-ups at 4 and 5: the last is
-- merged, and the oldest goes.
run_late : keys_after (emplace_back 5 table conf two (some (entry 3 4 2)) 0) ≡ 3 ∷ 4 ∷ 5 ∷ []
unfolding program keys_after
run_late = refl

keeps : KeepsKeys table (λ e. e.key)
keeps = record {
  keyed = refl;
  set_keeps = λ f e h p. ground arith;
  merge_keeps = λ f c e x p. ground arith;
  patches_keep = record {
    patch_keeps = λ a d e. absurd (ground arith);
    default_keeps = λ p o l c e. absurd (ground arith);
  };
}

abbrev weight : Entry → ℕ
weight e = e.follow_ups + 1

delegate-DelegateSettles : DelegateSettles 0 (λ e. e.key) weight delegate
delegate-DelegateSettles = record {
  patch_weight = λ p o l c e. absurd (ground arith);
  patch_from = λ p o l c e. absurd (ground arith);
  action_weight = λ p o l c e. ground arith;
  action_from = λ p o l c e. ground arith;
}

settles : Settles table 0 (λ e. e.key) weight
settles = record {
  positive = λ l. omega arith;
  set_weight = λ f l h e. ground arith;
  delegate_settles = λ a d e. absurd (ground arith);
  default_settles = delegate-DelegateSettles;
}

laws : HashLaws table hashes
unfolding program
laws = record {
  in_use = refl;
  get-set = λ l h. refl;
  calculate-set = λ h h' l. refl;
  merge_calculate = λ m c h l x e. ground arith;
  patches_keep_get = record {
    patch_keeps = λ a d e. absurd (ground arith);
    default_keeps = λ p o l c e. absurd (ground arith);
  };
  patches_keep_calculate = λ h. record {
    patch_keeps = λ a d e. absurd (ground arith);
    default_keeps = λ p o l c e. absurd (ground arith);
  };
}

two-IsReady : IsReady 0 (IsSorted (λ e. e.key)) two
two-IsReady = record { idle = refl; settled = refl; invariant = omega arith; ignore_below = tt }

two-IsChained : IsReady 0 (IsChained hashes) two
two-IsChained = record {
  idle = refl;
  settled = refl;
  invariant = (0, (refl, (refl, tt)));
  ignore_below = tt;
}

emplace_back_total_example :
    (code : ResultCode) × (o' : Object Entry ℕ ℕ) × (emplace_back 3 table conf two
        (some (entry 3 4 2))
        0
      ≡ some (code, o'))
    × IsReady 0 (IsSorted (λ e. e.key)) o'
    × ((conf.max_log_size ≡ 0) ⊎ (length o'.logs ≤ 3))
emplace_back_total_example =
    emplace_back_total table conf 0 (λ e. e.key) weight keeps settles 3 two (entry 3 4 2) 0
      two-IsReady (omega arith)

emplace_back-IsChained_example :
    (code : ResultCode) × (o' : Object Entry ℕ ℕ) × (emplace_back 3 table conf two
        (some (entry 3 4 2))
        0
      ≡ some (code, o'))
    × IsReady 0 (IsChained hashes) o'
    × ((conf.max_log_size ≡ 0) ⊎ (length o'.logs ≤ 3))
emplace_back-IsChained_example =
    emplace_back-IsChained table conf hashes laws (λ e. e.key) refl 0 weight settles 3 two
      (entry 3 4 2) 0 two-IsChained (omega arith)

push_back_internal-keys_example :
    let (code, o') = push_back_internal table conf two (entry 3 4 2) 0 in
    map (λ e. e.key) o'.logs
    ≡ (if accepts table conf code then insert_key 3 (2 ∷ 5 ∷ []) else 2 ∷ 5 ∷ [])
push_back_internal-keys_example =
    push_back_internal-keys table conf (λ e. e.key) keeps two (entry 3 4 2) 0 two-IsReady.invariant

-- With keys up to 8 ignored, an entry at 9 is pushed whose callback pushes one at 3.
abbrev jump : Object Entry ℕ ℕ → Entry → ℕ → Reply Entry ℕ ℕ
jump o e c = record {
  code = ok;
  log = e;
  private_data = o.private_data;
  pushed = if e.follow_ups == 0 then [] else (entry 3 4 0, c) ∷ [];
}

abbrev jumping : Vtable Entry ℕ ℕ
jumping = record table { default_delegate = record { patch = none; action = some jump } }

emplace_back_diverges_example :
    emplace_back 1000 jumping conf (record two { global_ingore = some 8 }) (some (entry 9 9 1)) 0
    ≡ none
unfolding program
emplace_back_diverges_example =
    emplace_back_diverges jumping conf 1000 (record two { global_ingore = some 8 }) (entry 9 9 1)
      (entry 3 4 0) 0 0 [] refl refl refl refl

-- At time 14 the entry of time 1 has expired, and the one of time 9 has not.
gc_lem_example :
    let (n, o') = gc table conf 14 none 5 two in
    (n ≡ gc_count table (gc_settings conf) 14 none 5 two.logs) × (o'.logs ≡ drop n two.logs)
gc_lem_example = gc_lem table conf 14 none 5 two

gc_run : (gc table conf 14 none 5 two).0 ≡ 1
unfolding program
gc_run = refl

gc-Covers_example :
    let (n, o') = gc table conf 14 none 5 two in
    All (Covers o'.global_last_removed) (map (λ e. e.key) (take n two.logs))
gc-Covers_example = gc-Covers table (λ e. e.key) refl conf 14 none 5 two

-- The entry of time 1 is older than 4, but the newest is not: nothing goes.
remove_before_lem_example :
    let (code, o') = remove_before table 4 1 two in
    ◌≡◌ {A = ResultCode × List Entry}
      (code, o'.logs)
      (removed_before
        (λ e. success (record { timepoint = e.time; log_key = e.key; action_case = 0 }))
        4
        1
        two.logs)
remove_before_lem_example =
    remove_before_lem table
      (λ e. success (record { timepoint = e.time; log_key = e.key; action_case = 0 })) 4 1 two refl

find_log_lem_example : find_log table two 5 ≡ search_key (λ e. e.key) 5 two.logs
find_log_lem_example = find_log_lem table (λ e. e.key) refl two two-IsReady.invariant 5

log_bounds_lem_example :
    (log_lower_bound table two 4 ≡ lower_bound (λ e. e.key) 4 two.logs)
    × (log_upper_bound table two 4 ≡ upper_bound (λ e. e.key) 4 two.logs)
log_bounds_lem_example = log_bounds_lem table (λ e. e.key) refl two two-IsReady.invariant 4

get_hash_code_before_lem_example :
    get_hash_code_before table two 5
    ≡ hash_of_last (λ e. e.hash) (take (lower_bound (λ e. e.key) 5 two.logs) two.logs)
get_hash_code_before_lem_example =
    get_hash_code_before_lem table (λ e. e.key) refl two two-IsReady.invariant 5 (λ e. e.hash) refl
