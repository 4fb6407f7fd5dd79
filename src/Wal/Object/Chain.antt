-- ===== src/Wal/Object/Chain.antt =====
-- The hash codes of the logs: each is computed from the one before it.
use atframe_utils.Base.{
  ℕ, zero, suc, ◌≤◌, ◌≡◌, ◌⊎◌, refl, ◌∙◌, sym, subst, not, ◌&&◌, some, List, [], ◌∷◌, ◌++◌, arith,
  Option-cases, Bool-cases, inl, inr, length, last?, take, drop, ltb, take-append-drop,
}
use atframe_utils.Wal.Types.{ResultCode, Configure, Object, Vtable, initial_hash_code}
use atframe_utils.Wal.Laws.{Settles, HashLaws}
use atframe_utils.Wal.Object.{HashFns, hash_fns, lower_bound, redo_log}
use atframe_utils.Wal.Object.Push.{
  last_hash, rehash, rechain, rechain_after, merge_into, accepts, add_log, insert_between,
  insert_at, push_back_internal_uncheck, push_back_internal, emplace_back,
}
use atframe_utils.Wal.Object.Frame.{redo_log-SameLogs, redo_log-key}
use atframe_utils.Wal.Object.Emplace.{IsReady, emplace_back-IsReady}

module _ {ℓ} {L : Type ℓ} (f : HashFns L) where
  -- From the hash code `h` on, each log has the hash code that its contents and the code before
  -- it give.
  abbrev pub IsChainedFrom : ℕ → List L → Type 0
  IsChainedFrom h [] = Unit
  IsChainedFrom h (x ∷ xs) = (f.get x ≡ f.calculate h x) × IsChainedFrom (f.get x) xs

  -- The logs are a chain; what was removed before them is forgotten.
  abbrev pub IsChained : List L → Type 0
  IsChained xs = (h : ℕ) × IsChainedFrom h xs

  -- The hash code behind a list that starts from `h`.
  abbrev end_hash : ℕ → List L → ℕ
  end_hash h [] = h
  end_hash h (x ∷ xs) = end_hash (f.get x) xs

  join_chains :
      (h : ℕ) (xs ys : List L)
      → IsChainedFrom h xs
      → IsChainedFrom (end_hash h xs) ys
      → IsChainedFrom h (xs ++ ys)
  join_chains h [] ys c d = d
  join_chains h (x ∷ xs) ys c d = (c.0, join_chains (f.get x) xs ys c.1 d)

  split_chain :
      (h : ℕ) (xs ys : List L)
      → IsChainedFrom h (xs ++ ys)
      → IsChainedFrom h xs × IsChainedFrom (end_hash h xs) ys
  split_chain h [] ys c = (tt, c)
  split_chain h (x ∷ xs) ys c = let (d, e) = split_chain (f.get x) xs ys c.1 in ((c.0, d), e)

  last_hash-end : (h : ℕ) (x : L) (xs : List L) → last_hash f (x ∷ xs) ≡ end_hash h (x ∷ xs)
  unfolding last_hash
  last_hash-end h x [] = refl
  last_hash-end h x (y ∷ ys) = last_hash-end (f.get x) y ys

  -- A chain goes on with a log whose hash code is computed from the last one.
  extend_chain :
      (h : ℕ) (before : List L) (rest : List L)
      → IsChainedFrom h before
      → IsChainedFrom (last_hash f before) rest
      → IsChained (before ++ rest)
  unfolding last_hash
  extend_chain h [] rest c d = (initial_hash_code, d)
  extend_chain h (x ∷ xs) rest c d = (
    h,
    join_chains h (x ∷ xs) rest c (subst (λ k. IsChainedFrom k rest) (last_hash-end h x xs) d),
  )

  drop-IsChained : (n : ℕ) (xs : List L) → IsChained xs → IsChained (drop n xs)
  drop-IsChained zero xs c = c
  drop-IsChained (suc n) [] c = c
  drop-IsChained (suc n) (x ∷ xs) c = drop-IsChained n xs (f.get x, c.1.1)

module _ {ℓ} {L P C : Type ℓ} (vt : Vtable L P C) (conf : Configure) (f : HashFns L)
    (laws : HashLaws vt f) where
  rechain-IsChainedFrom : (h : ℕ) (xs : List L) → IsChainedFrom f h (rechain f h xs)
  unfolding rechain
  rechain-IsChainedFrom h [] = tt
  rechain-IsChainedFrom h (x ∷ xs) =
      let k = f.calculate h x in
      (
        laws.get-set x k ∙ sym (laws.calculate-set h k x),
        subst (λ j. IsChainedFrom f j (rechain f k xs)) (sym (laws.get-set x k))
            (rechain-IsChainedFrom k xs),
      )

  -- The log that redo leaves has the hash code that `rehash` set.
  redo_log-chained :
      (o : Object L P C) (before : List L) (l : L) (c : C)
      → let l' = (redo_log vt o (rehash (hash_fns vt) before l) c).1 in
        f.get l' ≡ f.calculate (last_hash f before) l'
  unfolding rehash
  redo_log-chained o before l c =
      let h = last_hash f before in
      let hashed = f.set l (f.calculate h l) in
      let same : rehash (hash_fns vt) before l ≡ hashed = rw (laws.in_use, rehash) refl in
      rw same (
        redo_log-key f.get vt o hashed c laws.patches_keep_get
        ∙ laws.get-set l (f.calculate h l)
        ∙ sym (laws.calculate-set h (f.calculate h l) l)
        ∙ sym (redo_log-key (f.calculate h) vt o hashed c (laws.patches_keep_calculate h)))

  rechain_after_lem :
      (l : L) (xs : List L) → rechain_after (hash_fns vt) l xs ≡ rechain f (f.get l) xs
  unfolding rechain_after
  rechain_after_lem l xs = rw (laws.in_use, rechain_after) refl

  in_use_fields : (vt.set_hash_code ≡ some f.set) × (vt.get_hash_code ≡ some f.get)
  unfolding hash_fns
  in_use_fields = ground (arith, laws.in_use)

  insert_between-IsChained :
      (o : Object L P C) (before after : List L) (h : ℕ) (l : L) (c : C)
      → IsChainedFrom f h before
      → IsChained f o.logs
      → IsChained f (insert_between vt conf o before after l c).1.logs
  unfolding insert_between add_log
  insert_between-IsChained o before after h l c chain old =
      let r = redo_log vt o (rehash (hash_fns vt) before l) c in
      elim (Bool-cases (accepts vt conf r.0)) [
        | inl yes' ↦
            rw (yes', rechain_after_lem r.1 after)
              (extend_chain f h before (r.1 ∷ rechain f (f.get r.1) after) chain
                (redo_log-chained o before l c, rechain-IsChainedFrom (f.get r.1) after))
        | inr no' ↦ rw (no', (redo_log-SameLogs vt o (rehash (hash_fns vt) before l) c).0) old
      ]

  merge_into-hash :
      (c : C) (old l : L) (h : ℕ)
      → f.get old ≡ f.calculate h old
      → (f.get (merge_into vt c old l) ≡ f.get old)
        × (f.get (merge_into vt c old l) ≡ f.calculate h (merge_into vt c old l))
  unfolding merge_into
  merge_into-hash c old l h e = elim (Option-cases vt.merge_log) [
    | inl g ↦ rw (g, merge_into) (refl, e)
    | inr (m, g) ↦
        rw (g, merge_into, in_use_fields.0, in_use_fields.1)
          (
            laws.get-set (m c old l) (f.get old),
            laws.get-set (m c old l) (f.get old)
                ∙ e
                ∙ sym (laws.merge_calculate m c h old l g)
                ∙ sym (laws.calculate-set h (f.get old) (m c old l)),
          )
  ]

  replace_chained :
      (h : ℕ) (before : List L) (x y : L) (rest : List L)
      → ((h : ℕ) → f.get x ≡ f.calculate h x → (f.get y ≡ f.get x) × (f.get y ≡ f.calculate h y))
      → IsChainedFrom f h (before ++ x ∷ rest)
      → IsChainedFrom f h (before ++ y ∷ rest)
  replace_chained h [] x y rest same c =
      ((same h c.0).1, subst (λ k. IsChainedFrom f k rest) (sym (same h c.0).0) c.1)
  replace_chained h (z ∷ before) x y rest same c =
      (c.0, replace_chained (f.get z) before x y rest same c.1)

  insert_at-IsChained :
      (key : L → ℕ) (o : Object L P C) (before after : List L) (l : L) (c : C)
      → o.logs ≡ before ++ after
      → IsChained f o.logs
      → IsChained f (insert_at vt conf key o before after l c).1.logs
  unfolding insert_at
  insert_at-IsChained key o before [] l c e chain =
      let (h, d) = subst (IsChained f) e chain in
      insert_between-IsChained o before [] h l c (split_chain f h before [] d).0 chain
  insert_at-IsChained key o before (x ∷ rest) l c e chain =
      let (h, d) = subst (IsChained f) e chain in
      elim (Bool-cases (not (ltb (key x) (key l)) && not (ltb (key l) (key x)))) [
        | inl there ↦
            rw there
              (h, replace_chained h before x (merge_into vt c x l) rest (merge_into-hash c x l) d)
        | inr other ↦ rw other (
            insert_between-IsChained o before (x ∷ rest) h l c
              (split_chain f h before (x ∷ rest) d).0 chain)
      ]

  module _ (key : L → ℕ) (keyed : vt.get_log_key ≡ some key) where
    -- With a key to go by, a push at the end is an insertion before nothing.
    uncheck-insert_between :
        (o : Object L P C) (l : L) (c : C)
        → push_back_internal_uncheck vt conf o l c ≡ insert_between vt conf o o.logs [] l c
    unfolding push_back_internal_uncheck insert_between
    uncheck-insert_between o l c =
        let r = redo_log vt o (rehash (hash_fns vt) o.logs l) c in
        ground (arith, keyed, rechain_after_lem r.1 [], rechain_nil (f.get r.1))
      where
        rechain_nil : (h : ℕ) → rechain f h [] ≡ []
        rechain_nil h = unfold rechain in refl

    uncheck-IsChained :
        (o : Object L P C) (l : L) (c : C)
        → IsChained f o.logs
        → IsChained f (push_back_internal_uncheck vt conf o l c).1.logs
    uncheck-IsChained o l c chain =
        rw (uncheck-insert_between o l c)
          (insert_between-IsChained o o.logs [] chain.0 l c chain.1 chain)

    -- Every push keeps the chain of hash codes, wherever it inserts its log.
    push_back_internal-IsChained :
        (o : Object L P C) (l : L) (c : C)
        → IsChained f o.logs
        → IsChained f (push_back_internal vt conf o l c).1.logs
    unfolding push_back_internal
    push_back_internal-IsChained o l c chain = elim (Option-cases (last? o.logs)) [
      | inl e ↦ rw (keyed, push_back_internal, e) (uncheck-IsChained o l c chain)
      | inr (newest, e) ↦ elim (Bool-cases (ltb (key newest) (key l))) [
        | inl after ↦ rw (keyed, push_back_internal, e, after) (uncheck-IsChained o l c chain)
        | inr before ↦
            let i = lower_bound key (key l) o.logs in
            rw (keyed, push_back_internal, e, before)
              (insert_at-IsChained key o (take i o.logs) (drop i o.logs) l c
                (sym (take-append-drop i o.logs)) chain)
      ]
    ]

    -- With hash callbacks in use that keep their laws, and callbacks that settle, `emplace_back`
    -- returns and leaves every hash code computed from the one before it, also behind a log that was
    -- inserted late, merged, or pushed by a callback.
    pub emplace_back-IsChained :
        (floor : ℕ) (weight : L → ℕ)
        → Settles vt floor key weight
        → (fuel : ℕ) (o : Object L P C) (l : L) (c : C) → IsReady floor (IsChained f) o
        → weight l ≤ fuel
        → (code : ResultCode) × (o' : Object L P C) × (emplace_back fuel vt conf o (some l) c
            ≡ some (code, o'))
          × IsReady floor (IsChained f) o'
          × ((conf.max_log_size ≡ 0) ⊎ (length o'.logs ≤ conf.max_log_size))
    emplace_back-IsChained floor weight settles =
        emplace_back-IsReady vt conf floor key weight keyed settles (IsChained f)
          push_back_internal-IsChained (drop-IsChained f)
