-- ===== src/Lru/Keyed.antt =====
-- Lists of items with a key, as the containers of memory/lru_map.h hold them.
use atframe_utils.Base.{
  All, length, if-split, Bool-cases, suc, ◌≡◌, ◌↔◌, refl, sym, ap, subst, ◌∙◌, arith, List, [], ◌∷◌,
  ◌++◌, Bool, true, false, Option, none, some, inl, inr, if◌then◌else◌,
}

module _ {A K : Type 0} (key_eq : K → K → Bool) (key_of : A → K) where
  -- The first item of a key.
  unfoldable pub find_by : K → List A → Option A
  find_by k [] = none
  find_by k (x ∷ xs) = if key_eq (key_of x) k then some x else find_by k xs

  -- The list without the first item of a key.
  unfoldable pub erase_by : K → List A → List A
  erase_by k [] = []
  erase_by k (x ∷ xs) = if key_eq (key_of x) k then xs else x ∷ erase_by k xs

  -- No key stands twice.
  unfoldable pub AreDistinct : List A → Type 0
  AreDistinct [] = Unit
  AreDistinct (x ∷ xs) = (find_by (key_of x) xs ≡ none) × AreDistinct xs

-- What a program expects of an equality.
abbrev pub IsEquality : {K : Type 0} → (K → K → Bool) → Type 0
IsEquality {K} key_eq = (a b : K) → (key_eq a b ≡ true) ↔ (a ≡ b)

module _ {A K : Type 0} (key_eq : K → K → Bool) (eq : IsEquality key_eq) (key_of : A → K) where
  pub hit : (x : A) (xs : List A) → find_by key_eq key_of (key_of x) (x ∷ xs) ≡ some x
  unfolding find_by
  hit x xs =
      ap (λ b. if b then some x else find_by key_eq key_of (key_of x) xs)
        ((eq (key_of x) (key_of x)).1 refl)

  pub apart_comm : (a b : K) → key_eq a b ≡ false → key_eq b a ≡ false
  apart_comm a b h = elim (Bool-cases (key_eq b a)) [
    | inl e ↦
        let wrong : true ≡ false = sym ((eq a b).1 (sym ((eq b a).0 e))) ∙ h in
        absurd (ground (arith, wrong))
    | inr n ↦ n
  ]

  pub erase_by-find_by :
      (k : K) (xs : List A)
      → AreDistinct key_eq key_of xs
      → find_by key_eq key_of k (erase_by key_eq key_of k xs) ≡ none
  unfolding find_by erase_by AreDistinct
  erase_by-find_by k [] h = refl
  erase_by-find_by k (x ∷ xs) h = elim (Bool-cases (key_eq (key_of x) k)) [
    | inl e ↦
        ap (λ b. find_by key_eq key_of k (if b then xs else x ∷ erase_by key_eq key_of k xs)) e
        ∙ subst (λ j. find_by key_eq key_of j xs ≡ none) ((eq (key_of x) k).0 e) h.0
    | inr n ↦
        ap (λ b. find_by key_eq key_of k (if b then xs else x ∷ erase_by key_eq key_of k xs)) n
        ∙ ap (λ b. if b then some x else find_by key_eq key_of k (erase_by key_eq key_of k xs)) n
        ∙ erase_by-find_by k xs h.1
  ]

  pub erase_by-find_by_other :
      (k j : K) (xs : List A)
      → key_eq k j ≡ false
      → find_by key_eq key_of j (erase_by key_eq key_of k xs) ≡ find_by key_eq key_of j xs
  unfolding find_by erase_by
  erase_by-find_by_other k j [] h = refl
  erase_by-find_by_other k j (x ∷ xs) h = elim (Bool-cases (key_eq (key_of x) k)) [
    | inl e ↦
        let other : key_eq (key_of x) j ≡ false =
          subst (λ i. key_eq i j ≡ false) (sym ((eq (key_of x) k).0 e)) h in
        ap (λ b. find_by key_eq key_of j (if b then xs else x ∷ erase_by key_eq key_of k xs)) e
        ∙ sym (ap (λ b. if b then some x else find_by key_eq key_of j xs) other)
    | inr n ↦
        ap (λ b. find_by key_eq key_of j (if b then xs else x ∷ erase_by key_eq key_of k xs)) n
        ∙ ap (λ o. if key_eq (key_of x) j then some x else o) (erase_by-find_by_other k j xs h)
  ]

  pub erase_by-AreDistinct :
      (k : K) (xs : List A)
      → AreDistinct key_eq key_of xs
      → AreDistinct key_eq key_of (erase_by key_eq key_of k xs)
  unfolding erase_by AreDistinct
  erase_by-AreDistinct k [] h = tt
  erase_by-AreDistinct k (x ∷ xs) h =
      if-split (AreDistinct key_eq key_of) (key_eq (key_of x) k) (λ _. h.1)
        (λ n. (
          erase_by-find_by_other k (key_of x) xs (apart_comm (key_of x) k n) ∙ h.0,
          erase_by-AreDistinct k xs h.1,
        ))

  pub length-erase_by :
      (k : K) (xs : List A) (a : A)
      → find_by key_eq key_of k xs ≡ some a
      → suc (length (erase_by key_eq key_of k xs)) ≡ length xs
  unfolding find_by erase_by
  length-erase_by k [] a h = absurd (ground (arith, h))
  length-erase_by k (x ∷ xs) a h = elim (Bool-cases (key_eq (key_of x) k)) [
    | inl e ↦ ap (λ b. suc (length (if b then xs else x ∷ erase_by key_eq key_of k xs))) e
    | inr n ↦
        let rest : find_by key_eq key_of k xs ≡ some a =
          sym (ap (λ b. if b then some x else find_by key_eq key_of k xs) n) ∙ h in
        ap (λ b. suc (length (if b then xs else x ∷ erase_by key_eq key_of k xs))) n
        ∙ ap suc (length-erase_by k xs a rest)
  ]

  pub find_by-miss :
      (x : A) (k : K) (xs : List A)
      → find_by key_eq key_of k (x ∷ xs) ≡ none
      → (key_eq (key_of x) k ≡ false) × (find_by key_eq key_of k xs ≡ none)
  unfolding find_by
  find_by-miss x k xs h = elim (Bool-cases (key_eq (key_of x) k)) [
    | inl e ↦
        let there : none ≡ some x =
          sym h ∙ ap (λ b. if b then some x else find_by key_eq key_of k xs) e in
        absurd (ground (arith, there))
    | inr n ↦ (n, sym (ap (λ b. if b then some x else find_by key_eq key_of k xs) n) ∙ h)
  ]

  pub find_by-append :
      (j : K) (xs : List A) (a : A)
      → find_by key_eq key_of (key_of a) xs ≡ none
      → find_by key_eq key_of j (xs ++ a ∷ [])
        ≡ (if key_eq (key_of a) j then some a else find_by key_eq key_of j xs)
  unfolding find_by
  find_by-append j [] a h = refl
  find_by-append j (x ∷ xs) a h = elim (Bool-cases (key_eq (key_of x) j)) [
    | inl e ↦
        let first = find_by-miss x (key_of a) xs h in
        let other : key_eq (key_of a) j ≡ false =
          subst (λ i. key_eq (key_of a) i ≡ false) ((eq (key_of x) j).0 e)
            (apart_comm (key_of x) (key_of a) first.0) in
        ap (λ b. if b then some x else find_by key_eq key_of j (xs ++ a ∷ [])) e
        ∙ sym (
            ap (λ b. if b then some a else find_by key_eq key_of j (x ∷ xs)) other
            ∙ ap (λ b. if b then some x else find_by key_eq key_of j xs) e)
    | inr n ↦
        let first = find_by-miss x (key_of a) xs h in
        ap (λ b. if b then some x else find_by key_eq key_of j (xs ++ a ∷ [])) n
        ∙ find_by-append j xs a first.1
        ∙ sym (
            ap (λ o. if key_eq (key_of a) j then some a else o)
              (ap (λ b. if b then some x else find_by key_eq key_of j xs) n))
  ]

  pub append-AreDistinct :
      (xs : List A) (a : A)
      → find_by key_eq key_of (key_of a) xs ≡ none
      → AreDistinct key_eq key_of xs
      → AreDistinct key_eq key_of (xs ++ a ∷ [])
  unfolding AreDistinct find_by
  append-AreDistinct [] a h k = (refl, tt)
  append-AreDistinct (x ∷ xs) a h k =
      let first = find_by-miss x (key_of a) xs h in
      (
        find_by-append (key_of x) xs a first.1
            ∙ ap (λ b. if b then some a else find_by key_eq key_of (key_of x) xs)
                (apart_comm (key_of x) (key_of a) first.0)
            ∙ k.0,
        append-AreDistinct xs a first.1 k.1,
      )

  pub find_by-key :
      (k : K) (xs : List A) (a : A) → find_by key_eq key_of k xs ≡ some a → key_of a ≡ k
  unfolding find_by
  find_by-key k [] a h = absurd (ground (arith, h))
  find_by-key k (x ∷ xs) a h = elim (Bool-cases (key_eq (key_of x) k)) [
    | inl e ↦
        let same : some x ≡ some a =
          sym (ap (λ b. if b then some x else find_by key_eq key_of k xs) e) ∙ h in
        let inner : x ≡ a = ground (arith, same) in ap key_of (sym inner) ∙ (eq (key_of x) k).0 e
    | inr n ↦
        find_by-key k xs a (sym (ap (λ b. if b then some x else find_by key_eq key_of k xs) n) ∙ h)
  ]

  -- What holds of all items holds of the one that is found.
  pub find_by-All :
      (P : A → Type 0) (k : K) (xs : List A) (a : A)
      → All P xs
      → find_by key_eq key_of k xs ≡ some a
      → P a
  unfolding find_by
  find_by-All P k [] a all h = absurd (ground (arith, h))
  find_by-All P k (x ∷ xs) a all h = elim (Bool-cases (key_eq (key_of x) k)) [
    | inl e ↦
        let same : some x ≡ some a =
          sym (ap (λ b. if b then some x else find_by key_eq key_of k xs) e) ∙ h in
        let inner : x ≡ a = ground (arith, same) in subst P inner all.0
    | inr n ↦
        find_by-All P k xs a all.1
          (sym (ap (λ b. if b then some x else find_by key_eq key_of k xs) n) ∙ h)
  ]

  pub erase_by-All :
      (P : A → Type 0) (k : K) (xs : List A) → All P xs → All P (erase_by key_eq key_of k xs)
  unfolding erase_by
  erase_by-All P k [] h = tt
  erase_by-All P k (x ∷ xs) h =
      if-split (All P) (key_eq (key_of x) k) (λ _. h.1) (λ _. (h.0, erase_by-All P k xs h.1))

  pub find_by-lacks :
      (k : K) (xs : List A)
      → find_by key_eq key_of k xs ≡ none
      → All (λ x. key_eq (key_of x) k ≡ false) xs
  find_by-lacks k [] h = tt
  find_by-lacks k (x ∷ xs) h =
      let first = find_by-miss x k xs h in (first.0, find_by-lacks k xs first.1)

  pub erase_by-miss :
      (k : K) (xs : List A) → find_by key_eq key_of k xs ≡ none → erase_by key_eq key_of k xs ≡ xs
  unfolding erase_by
  erase_by-miss k [] h = refl
  erase_by-miss k (x ∷ xs) h =
      let first = find_by-miss x k xs h in
      ap (λ b. if b then xs else x ∷ erase_by key_eq key_of k xs) first.0
      ∙ ap (λ t. x ∷ t) (erase_by-miss k xs first.1)
