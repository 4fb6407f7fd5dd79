-- ===== src/Lru/Steps.antt =====
-- What each change of lru_map does to the list of the visits and the index.
use atframe_utils.Base.{
  All-append, All-mono, length, length-append, if-split, Bool-cases, ℕ, suc, ◌<◌, ◌==◌, ◌≡◌, refl,
  sym, ap, subst, ◌∙◌, arith, List, [], ◌∷◌, ◌++◌, Bool, true, false, Option, none, some, inl, inr,
  if◌then◌else◌,
}
use atframe_utils.Lru.{Node, node_key, at_of, kv_key, kv_set}
use atframe_utils.Lru.Keyed.{
  find_by, erase_by, AreDistinct, IsEquality, apart_comm, erase_by-find_by, erase_by-find_by_other,
  erase_by-AreDistinct, length-erase_by, find_by-append, append-AreDistinct, erase_by-All,
  find_by-key, find_by-miss,
}
use atframe_utils.Lru.Linked.{
  AreLinked, target, place, find_by-older, erase_visit-erase_by, ==-IsEquality,
}

target-if :
    {K : Type 0} (b : Bool) (x y : Option (K × ℕ))
    → target (if b then x else y) ≡ (if b then target x else target y)
target-if true x y = refl
target-if false x y = refl

place-if :
    {K V : Type 0} (b : Bool) (x y : Option (Node K V))
    → place (if b then x else y) ≡ (if b then place x else place y)
place-if true x y = refl
place-if false x y = refl

if_same :
    {A : Type 0} (b c : Bool) (x y z : A)
    → b ≡ c
    → (if b then x else z) ≡ (if b then x else (if c then y else z))
if_same true c x y z h = refl
if_same false true x y z h = absurd (ground (arith, h))
if_same false false x y z h = refl

if_else :
    {A : Type 0} (b : Bool) (x y z : A)
    → (b ≡ false → y ≡ z)
    → (if b then x else y) ≡ (if b then x else z)
if_else true x y z h = refl
if_else false x y z h = h refl

if_swap :
    {A : Type 0} (b c : Bool) (x y z : A)
    → (b ≡ true → c ≡ false)
    → (if b then x else (if c then y else z)) ≡ (if c then y else (if b then x else z))
if_swap true true x y z h = let wrong : true ≡ false = h refl in absurd (ground (arith, wrong))
if_swap true false x y z h = refl
if_swap false c x y z h = refl

module _ {K : Type 0} (key_eq : K → K → Bool) (eq : IsEquality key_eq) where
  -- An entry that is changed in place.
  kv_set-target :
      (k : K) (i : ℕ) (m : List (K × ℕ)) (e : K × ℕ)
      → find_by key_eq kv_key k m ≡ some e
      → (j : K)
      → target (find_by key_eq kv_key j (kv_set key_eq k i m))
        ≡ (if key_eq k j then some i else target (find_by key_eq kv_key j m))
  unfolding find_by kv_set
  kv_set-target k i [] e found j = absurd (ground (arith, found))
  kv_set-target k i (x ∷ m) e found j = elim (Bool-cases (key_eq x.0 k)) [
    | inl same ↦
        ap
          (λ b.
            target (find_by key_eq kv_key j (if b then (x.0, i) ∷ m else x ∷ kv_set key_eq k i m)))
          same
        ∙ target-if (key_eq x.0 j) (some (x.0, i)) (find_by key_eq kv_key j m)
        ∙ ap (λ y. if key_eq y j then some i else target (find_by key_eq kv_key j m))
            ((eq x.0 k).0 same)
        ∙ if_same (key_eq k j) (key_eq x.0 j) (some i) (some x.1)
            (target (find_by key_eq kv_key j m)) (ap (λ y. key_eq y j) (sym ((eq x.0 k).0 same)))
        ∙ sym (
            ap (λ t. if key_eq k j then some i else t)
              (target-if (key_eq x.0 j) (some x) (find_by key_eq kv_key j m)))
    | inr miss ↦
        let rest : find_by key_eq kv_key k m ≡ some e =
          sym (ap (λ b. if b then some x else find_by key_eq kv_key k m) miss) ∙ found in
        ap
          (λ b.
            target (find_by key_eq kv_key j (if b then (x.0, i) ∷ m else x ∷ kv_set key_eq k i m)))
          miss
        ∙ target-if (key_eq x.0 j) (some x) (find_by key_eq kv_key j (kv_set key_eq k i m))
        ∙ ap (λ t. if key_eq x.0 j then some x.1 else t) (kv_set-target k i m e rest j)
        ∙ if_swap (key_eq x.0 j) (key_eq k j) (some x.1) (some i)
            (target (find_by key_eq kv_key j m))
            (λ here.
              subst (λ y. key_eq k y ≡ false) ((eq x.0 j).0 here)
                (apart_comm key_eq eq kv_key x.0 k miss))
        ∙ sym (
            ap (λ t. if key_eq k j then some i else t)
              (target-if (key_eq x.0 j) (some x) (find_by key_eq kv_key j m)))
  ]

  kv_set-lacks :
      (k j : K) (i : ℕ) (m : List (K × ℕ))
      → find_by key_eq kv_key j m ≡ none
      → find_by key_eq kv_key j (kv_set key_eq k i m) ≡ none
  unfolding find_by kv_set
  kv_set-lacks k j i [] h = refl
  kv_set-lacks k j i (x ∷ m) h =
      let first = find_by-miss key_eq eq kv_key x j m h in
      if-split (λ t. find_by key_eq kv_key j t ≡ none) (key_eq x.0 k)
        (λ _. ap (λ b. if b then some (x.0, i) else find_by key_eq kv_key j m) first.0 ∙ first.1)
        (λ _.
          ap (λ b. if b then some x else find_by key_eq kv_key j (kv_set key_eq k i m)) first.0
          ∙ kv_set-lacks k j i m first.1)

  kv_set-AreDistinct :
      (k : K) (i : ℕ) (m : List (K × ℕ))
      → AreDistinct key_eq kv_key m
      → AreDistinct key_eq kv_key (kv_set key_eq k i m)
  unfolding AreDistinct kv_set
  kv_set-AreDistinct k i [] h = tt
  kv_set-AreDistinct k i (x ∷ m) h =
      if-split (AreDistinct key_eq kv_key) (key_eq x.0 k) (λ _. h)
        (λ _. (kv_set-lacks k x.0 i m h.0, kv_set-AreDistinct k i m h.1))

  length-kv_set : (k : K) (i : ℕ) (m : List (K × ℕ)) → length (kv_set key_eq k i m) ≡ length m
  unfolding kv_set
  length-kv_set k i [] = refl
  length-kv_set k i (x ∷ m) =
      if-split (λ (t : List (K × ℕ)). length t ≡ suc (length m)) (key_eq x.0 k) (λ _. refl)
        (λ _. ap suc (length-kv_set k i m))

module _ {K V : Type 0} (key_eq : K → K → Bool) (eq : IsEquality key_eq) where
  -- A new node at the end of the list, with its entry at the end of the index.
  pub linked-append :
      (h : List (Node K V)) (m : List (K × ℕ)) (next : ℕ) (k : K) (v : V)
      → AreLinked key_eq h m next
      → find_by key_eq node_key k h ≡ none
      → find_by key_eq kv_key k m ≡ none
      → AreLinked key_eq
          (h ++ record { at = next; key = k; value = v } ∷ [])
          (m ++ (k, next) ∷ [])
          (suc next)
  linked-append h m next k v s absent kv_absent =
      let n : Node K V = record { at = next; key = k; value = v } in
      let new_at = find_by-older key_eq eq h next next s.older (ground arith) in
      record {
        distinct = append-AreDistinct key_eq eq node_key h n absent s.distinct;
        apart = append-AreDistinct ◌==◌ ==-IsEquality at_of h n new_at s.apart;
        older =
            All-append (λ x. x.at < suc next) h (n ∷ [])
              (All-mono (λ x. x.at < next) (λ x. x.at < suc next) h (λ x l. omega (arith, l))
                s.older)
              (omega arith, tt);
        kv_distinct = append-AreDistinct key_eq eq kv_key m (k, next) kv_absent s.kv_distinct;
        linked = λ j.
            ap target (find_by-append key_eq eq kv_key j m (k, next) kv_absent)
            ∙ target-if (key_eq k j) (some (k, next)) (find_by key_eq kv_key j m)
            ∙ ap (λ t. if key_eq k j then some next else t) (s.linked j)
            ∙ sym (
                ap place (find_by-append key_eq eq node_key j h n absent)
                ∙ place-if (key_eq k j) (some n) (find_by key_eq node_key j h));
        sized = omega (arith, length-append m ((k, next) ∷ []), length-append h (n ∷ []), s.sized);
      }

  -- The node and the entry of a key are gone.
  pub linked-erase :
      (h : List (Node K V)) (m : List (K × ℕ)) (next : ℕ) (k : K) (e : K × ℕ) (n : Node K V)
      → AreLinked key_eq h m next
      → find_by key_eq kv_key k m ≡ some e
      → find_by key_eq node_key k h ≡ some n
      → AreLinked key_eq (erase_by key_eq node_key k h) (erase_by key_eq kv_key k m) next
  linked-erase h m next k e n s kv_found found = record {
    distinct = erase_by-AreDistinct key_eq eq node_key k h s.distinct;
    apart =
        subst (AreDistinct ◌==◌ at_of) (erase_visit-erase_by key_eq eq k h n s.apart found).0
          (erase_by-AreDistinct ◌==◌ ==-IsEquality at_of n.at h s.apart);
    older = erase_by-All key_eq eq node_key (λ x. x.at < next) k h s.older;
    kv_distinct = erase_by-AreDistinct key_eq eq kv_key k m s.kv_distinct;
    linked = λ j. elim (Bool-cases (key_eq k j)) [
      | inl same ↦
          subst
            (λ i.
              target (find_by key_eq kv_key i (erase_by key_eq kv_key k m))
              ≡ place (find_by key_eq node_key i (erase_by key_eq node_key k h)))
            ((eq k j).0 same)
            (ap target (erase_by-find_by key_eq eq kv_key k m s.kv_distinct)
              ∙ sym (ap place (erase_by-find_by key_eq eq node_key k h s.distinct)))
      | inr other ↦
          ap target (erase_by-find_by_other key_eq eq kv_key k j m other)
          ∙ s.linked j
          ∙ sym (ap place (erase_by-find_by_other key_eq eq node_key k j h other))
    ];
    sized = omega (
      arith,
      length-erase_by key_eq eq kv_key k m e kv_found,
      length-erase_by key_eq eq node_key k h n found,
      s.sized,
    );
  }

  -- The node of a key is made anew at the end of the list, and the entry of the key leads to it.
  pub linked-visit :
      (h : List (Node K V)) (m : List (K × ℕ)) (next : ℕ) (k : K) (e : K × ℕ) (n : Node K V)
      → AreLinked key_eq h m next
      → find_by key_eq kv_key k m ≡ some e
      → find_by key_eq node_key k h ≡ some n
      → AreLinked key_eq
          (erase_by key_eq node_key k h ++ record { at = next; key = n.key; value = n.value } ∷ [])
          (kv_set key_eq k next m)
          (suc next)
  linked-visit h m next k e n s kv_found found =
      let moved : Node K V = record { at = next; key = n.key; value = n.value } in
      let gone = erase_by key_eq node_key k h in
      let r = linked-erase h m next k e n s kv_found found in
      let key : n.key ≡ k = find_by-key key_eq eq node_key k h n found in
      let absent : find_by key_eq node_key n.key gone ≡ none =
        subst (λ i. find_by key_eq node_key i gone ≡ none) (sym key)
          (erase_by-find_by key_eq eq node_key k h s.distinct) in
      let new_at = find_by-older key_eq eq gone next next r.older (ground arith) in
      record {
        distinct = append-AreDistinct key_eq eq node_key gone moved absent r.distinct;
        apart = append-AreDistinct ◌==◌ ==-IsEquality at_of gone moved new_at r.apart;
        older =
            All-append (λ x. x.at < suc next) gone (moved ∷ [])
              (All-mono (λ x. x.at < next) (λ x. x.at < suc next) gone (λ x l. omega (arith, l))
                r.older)
              (omega arith, tt);
        kv_distinct = kv_set-AreDistinct key_eq eq k next m s.kv_distinct;
        linked = λ j.
            kv_set-target key_eq eq k next m e kv_found j
            ∙ if_else (key_eq k j) (some next) (target (find_by key_eq kv_key j m))
                (place (find_by key_eq node_key j gone))
                (λ other.
                  s.linked j
                  ∙ sym (ap place (erase_by-find_by_other key_eq eq node_key k j h other)))
            ∙ sym (
                ap place (find_by-append key_eq eq node_key j gone moved absent)
                ∙ place-if (key_eq n.key j) (some moved) (find_by key_eq node_key j gone)
                ∙ ap (λ i. if key_eq i j then some next else place (find_by key_eq node_key j gone))
                    key);
        sized = omega (
          arith,
          length-kv_set key_eq eq k next m,
          length-append gone (moved ∷ []),
          length-erase_by key_eq eq node_key k h n found,
          s.sized,
        );
      }
