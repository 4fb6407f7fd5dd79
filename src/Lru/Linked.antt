-- ===== src/Lru/Linked.antt =====
-- The list of the visits and the index of lru_map agree.
use atframe_utils.Base.{
  All, ==_iff, length, Bool-cases, Option-cases, ℕ, ◌<◌, ◌==◌, ◌≡◌, ◌⊎◌, refl, sym, ap, ◌∙◌, arith,
  List, [], ◌∷◌, Bool, true, false, Option, none, some, inl, inr, if◌then◌else◌,
}
use atframe_utils.Lru.{Node, LruMap, node_key, at_of, kv_key, node_at, erase_visit, kv_find}
use atframe_utils.Lru.Keyed.{find_by, erase_by, AreDistinct, IsEquality, find_by-All, find_by-lacks}

-- The equality of numbers is one.
pub ==-IsEquality : IsEquality ◌==◌
==-IsEquality a b = ==_iff a b

abbrev pub target : {K : Type 0} → Option (K × ℕ) → Option ℕ
target none = none
target (some e) = some e.1

abbrev pub place : {K V : Type 0} → Option (Node K V) → Option ℕ
place none = none
place (some n) = some n.at

module _ {K V : Type 0} (key_eq : K → K → Bool) where
  -- In a list of visits and an index no key stands twice, the nodes are different and older than
  -- the next one, and the index has the keys of the list with their nodes.
  pub record AreLinked (h : List (Node K V)) (m : List (K × ℕ)) (next : ℕ) : Type 0 where
    pub distinct : AreDistinct key_eq node_key h
    pub apart : AreDistinct ◌==◌ at_of h
    pub older : All (λ n. n.at < next) h
    pub kv_distinct : AreDistinct key_eq kv_key m
    pub linked : (k : K) → target (find_by key_eq kv_key k m) ≡ place (find_by key_eq node_key k h)
    pub sized : length m ≡ length h

  abbrev pub IsLru : LruMap K V → Type 0
  IsLru s = AreLinked s.visit_history s.kv_data s.next_node

module _ {K V : Type 0} (key_eq : K → K → Bool) (eq : IsEquality key_eq) where
  pub find_by-older :
      (h : List (Node K V)) (next i : ℕ)
      → All (λ n. n.at < next) h
      → (next == i) ≡ true
      → find_by ◌==◌ at_of i h ≡ none
  unfolding find_by
  find_by-older [] next i all same = refl
  find_by-older (n ∷ h) next i all same =
      let other : (n.at == i) ≡ false = ground (arith, all.0, same) in
      ap (λ b. if b then some n else find_by ◌==◌ at_of i h) other
      ∙ find_by-older h next i all.1 same

  -- An entry of the index, or none, with the node that it leads to.
  pub linked-cases :
      (h : List (Node K V)) (m : List (K × ℕ)) (next : ℕ)
      → AreLinked key_eq h m next
      → (k : K)
      → ((kv_find key_eq k m ≡ none) × (find_by key_eq node_key k h ≡ none))
        ⊎ ((e : K × ℕ) × (n : Node K V) × (kv_find key_eq k m ≡ some e)
            × (find_by key_eq node_key k h ≡ some n)
            × (e.1 ≡ n.at))
  linked-cases h m next s k = elim (Option-cases (find_by key_eq kv_key k m)) [
    | inl a ↦ elim (Option-cases (find_by key_eq node_key k h)) [
      | inl b ↦ inl (a, b)
      | inr (n, b) ↦
          let wrong : none ≡ some n.at = sym (ap target a) ∙ s.linked k ∙ ap place b in
          absurd (ground (arith, wrong))
    ]
    | inr (e, a) ↦ elim (Option-cases (find_by key_eq node_key k h)) [
      | inl b ↦
          let wrong : some e.1 ≡ none = sym (ap target a) ∙ s.linked k ∙ ap place b in
          absurd (ground (arith, wrong))
      | inr (n, b) ↦
          let same : some e.1 ≡ some n.at = sym (ap target a) ∙ s.linked k ∙ ap place b in
          inr (e, n, a, b, ground (arith, same))
    ]
  ]

  -- The node of a key stands at its own address.
  pub lacks-found :
      (k : K) (h : List (Node K V)) (n : Node K V) (i : ℕ)
      → find_by key_eq node_key k h ≡ some n
      → find_by ◌==◌ at_of i h ≡ none
      → (i == n.at) ≡ false
  lacks-found k h n i found absent =
      let apart : (n.at == i) ≡ false =
        find_by-All key_eq eq node_key (λ x. (x.at == i) ≡ false) k h n
          (find_by-lacks ◌==◌ ==-IsEquality at_of i h absent) found in
      ground (arith, apart)

  pub erase_visit-erase_by :
      (k : K) (h : List (Node K V)) (n : Node K V)
      → AreDistinct ◌==◌ at_of h
      → find_by key_eq node_key k h ≡ some n
      → (erase_visit n.at h ≡ erase_by key_eq node_key k h) × (node_at n.at h ≡ some n)
  unfolding erase_by find_by AreDistinct
  erase_visit-erase_by k [] n apart found = absurd (ground (arith, found))
  erase_visit-erase_by k (x ∷ h) n apart found = elim (Bool-cases (key_eq x.key k)) [
    | inl e ↦
        let same : some x ≡ some n =
          sym (ap (λ b. if b then some x else find_by key_eq node_key k h) e) ∙ found in
        let inner : x ≡ n = ground (arith, same) in
        let at : (x.at == n.at) ≡ true = (==_iff x.at n.at).1 (ap at_of inner) in
        (
          ap (λ b. if b then h else x ∷ erase_visit n.at h) at
              ∙ sym (ap (λ b. if b then h else x ∷ erase_by key_eq node_key k h) e),
          ap (λ b. if b then some x else node_at n.at h) at ∙ same,
        )
    | inr miss ↦
        let rest : find_by key_eq node_key k h ≡ some n =
          sym (ap (λ b. if b then some x else find_by key_eq node_key k h) miss) ∙ found in
        let at : (x.at == n.at) ≡ false = lacks-found k h n x.at rest apart.0 in
        let IH = erase_visit-erase_by k h n apart.1 rest in
        (
          ap (λ b. if b then h else x ∷ erase_visit n.at h) at
              ∙ ap (λ t. x ∷ t) IH.0
              ∙ sym (ap (λ b. if b then h else x ∷ erase_by key_eq node_key k h) miss),
          ap (λ b. if b then some x else node_at n.at h) at ∙ IH.1,
        )
  ]
