-- ===== src/Wal/Laws.antt =====
-- What the client's callbacks are expected to do: the key of a log is fixed when it is allocated,
-- and the three hash callbacks store and compute one number for a log.
use atframe_utils.Base.{ℕ, ◌+◌, ◌<◌, ◌≤◌, ◌≡◌, some, List, [], ◌∷◌, All}
use atframe_utils.Wal.Object.{HashFns, hash_fns}
use atframe_utils.Wal.Types.{Object, Reply, Delegate, Vtable}

module _ {ℓ} {L C : Type ℓ} where
  -- The weight of a queue: each log weighs what the client's measure says.
  abbrev pub queue_weight : (L → ℕ) → List (L × C) → ℕ
  queue_weight weight [] = 0
  queue_weight weight (e ∷ q) = weight e.0 + queue_weight weight q

  -- All logs of a queue have keys from `floor` on.
  abbrev pub StartsFrom : ℕ → (L → ℕ) → List (L × C) → Type 0
  StartsFrom floor key q = All (λ e. floor ≤ key e.0) q

module _ {ℓ} {L P C : Type ℓ} where
  -- A patch leaves a value of the log alone.
  abbrev pub PatchKeeps : (L → ℕ) → Delegate L P C → Type ℓ
  PatchKeeps key d =
      (p : Object L P C → L → C → Reply L P C) (o : Object L P C) (l : L) (c : C)
      → d.patch ≡ some p
      → key (p o l c).log ≡ key l

  -- No patch changes what `value` reads of a log.
  pub record PatchesKeep (vt : Vtable L P C) (value : L → ℕ) : Type ℓ where
    pub patch_keeps :
        (a : ℕ) (d : Delegate L P C) → vt.log_action_delegate a ≡ some d → PatchKeeps value d
    pub default_keeps : PatchKeeps value vt.default_delegate

  -- No callback changes the key of a log.
  pub record KeepsKeys (vt : Vtable L P C) (key : L → ℕ) : Type ℓ where
    pub keyed : vt.get_log_key ≡ some key
    pub set_keeps :
        (f : L → ℕ → L) (l : L) (h : ℕ) → vt.set_hash_code ≡ some f → key (f l h) ≡ key l
    pub merge_keeps :
        (f : C → L → L → L) (c : C) (l x : L) → vt.merge_log ≡ some f → key (f c l x) ≡ key l
    pub patches_keep : PatchesKeep vt key

  -- The hash callbacks store one number with a log and compute it from the rest, which neither a
  -- patch nor a merge changes.
  pub record HashLaws (vt : Vtable L P C) (f : HashFns L) : Type ℓ where
    pub in_use : hash_fns vt ≡ some f
    pub get-set : (l : L) (h : ℕ) → f.get (f.set l h) ≡ h
    pub calculate-set : (h h' : ℕ) (l : L) → f.calculate h (f.set l h') ≡ f.calculate h l
    pub merge_calculate :
        (m : C → L → L → L) (c : C) (h : ℕ) (l x : L)
        → vt.merge_log ≡ some m
        → f.calculate h (m c l x) ≡ f.calculate h l
    pub patches_keep_get : PatchesKeep vt f.get
    pub patches_keep_calculate : (h : ℕ) → PatchesKeep vt (f.calculate h)

  -- A patch and an action push logs that together weigh less than the log that they work on, none
  -- of them with a key below `floor`.
  pub record DelegateSettles (floor : ℕ) (key weight : L → ℕ) (d : Delegate L P C) : Type ℓ where
    pub patch_weight :
        (p : Object L P C → L → C → Reply L P C) (o : Object L P C) (l : L) (c : C)
        → d.patch ≡ some p
        → queue_weight weight (p o l c).pushed + weight (p o l c).log ≤ weight l
    pub patch_from :
        (p : Object L P C → L → C → Reply L P C) (o : Object L P C) (l : L) (c : C)
        → d.patch ≡ some p
        → StartsFrom floor key (p o l c).pushed
    pub action_weight :
        (p : Object L P C → L → C → Reply L P C) (o : Object L P C) (l : L) (c : C)
        → d.action ≡ some p
        → queue_weight weight (p o l c).pushed < weight l
    pub action_from :
        (p : Object L P C → L → C → Reply L P C) (o : Object L P C) (l : L) (c : C)
        → d.action ≡ some p
        → StartsFrom floor key (p o l c).pushed

  pub record Settles (vt : Vtable L P C) (floor : ℕ) (key weight : L → ℕ) : Type ℓ where
    pub positive : (l : L) → 0 < weight l
    pub set_weight :
        (f : L → ℕ → L) (l : L) (h : ℕ) → vt.set_hash_code ≡ some f → weight (f l h) ≡ weight l
    pub delegate_settles :
        (a : ℕ) (d : Delegate L P C)
        → vt.log_action_delegate a ≡ some d
        → DelegateSettles floor key weight d
    pub default_settles : DelegateSettles floor key weight vt.default_delegate
