-- ===== src/Xxtea/Locality.antt =====
-- Encryption reads and writes the words of its buffer only.
use atframe_utils.Base.{
  ℕ, zero, suc, ◌+◌, ◌/◌, ◌<◌, ◌≤◌, ◌≡◌, ◌∙◌, ap, ap₂, sym, refl, arith, false, if-split, ◌==◌,
  if◌then◌else◌, Option, none, some,
}
use atframe_utils.Xxtea.{word, mx, round_count, aborts, xxtea_encrypt}
use atframe_utils.Xxtea.Passes.{next, prev, forth, forth_to}
use atframe_utils.Xxtea.Inverse.{sum_after, after_rounds, xxtea_encrypt_lem}

-- The first n words are the same.
abbrev pub Agree : ℕ → (ℕ → ℕ) → (ℕ → ℕ) → Type 0
Agree n v w = (i : ℕ) → i < n → v i ≡ w i

module _ (key : ℕ → ℕ) (n sum : ℕ) where
  next-lt : (p : ℕ) → p < n → next key n sum p < n
  next-lt p h =
      if-split (λ (m : ℕ). m < n) (suc p == n) (λ _. omega (arith, h)) (λ f. ground (arith, f, h))

  prev-lt : (p : ℕ) → p < n → prev key n sum p < n
  prev-lt zero h = omega (arith, h)
  prev-lt (suc p) h = omega (arith, h)

  forth-Agree :
      (p : ℕ) (v w : ℕ → ℕ)
      → p < n
      → Agree n v w
      → Agree n (forth key n sum p v) (forth key n sum p w)
  unfolding forth
  forth-Agree p v w h same i lt =
      let written : (v p + mx key sum p (v (next key n sum p)) (v (prev key n sum p)))
          ≡ (w p + mx key sum p (w (next key n sum p)) (w (prev key n sum p))) =
        ap₂ (λ a b. a + b) (same p h)
          (ap₂ (mx key sum p) (same (next key n sum p) (next-lt p h))
            (same (prev key n sum p) (prev-lt p h))) in
      ap₂ (λ x y. if i == p then x else y) (ap word written) (same i lt)

  forth_outside : (p i : ℕ) (v : ℕ → ℕ) → p < n → n ≤ i → forth key n sum p v i ≡ v i
  unfolding forth
  forth_outside p i v h le =
      if-split (λ (x : ℕ). x ≡ v i) (i == p) (λ e. absurd (ground (arith, e, h, le))) (λ _. refl)

  forth_to-Agree :
      (p : ℕ) (v w : ℕ → ℕ)
      → p ≤ n
      → Agree n v w
      → Agree n (forth_to key n sum p v) (forth_to key n sum p w)
  unfolding forth_to
  forth_to-Agree zero v w h same = same
  forth_to-Agree (suc p) v w h same =
      forth-Agree p (forth_to key n sum p v) (forth_to key n sum p w) (omega (arith, h))
        (forth_to-Agree p v w (omega (arith, h)) same)

  forth_to_outside : (p i : ℕ) (v : ℕ → ℕ) → p ≤ n → n ≤ i → forth_to key n sum p v i ≡ v i
  unfolding forth_to
  forth_to_outside zero i v h le = refl
  forth_to_outside (suc p) i v h le =
      forth_outside p i (forth_to key n sum p v) (omega (arith, h)) le
      ∙ forth_to_outside p i v (omega (arith, h)) le

module _ (key : ℕ → ℕ) (n : ℕ) where
  after_rounds-Agree :
      (k : ℕ) (v w : ℕ → ℕ)
      → Agree n v w
      → Agree n (after_rounds key n k v) (after_rounds key n k w)
  unfolding after_rounds
  after_rounds-Agree zero v w same = same
  after_rounds-Agree (suc k) v w same =
      forth_to-Agree key n (sum_after key n (suc k)) n (after_rounds key n k v)
        (after_rounds key n k w) (omega arith) (after_rounds-Agree k v w same)

  after_rounds_outside : (k i : ℕ) (v : ℕ → ℕ) → n ≤ i → after_rounds key n k v i ≡ v i
  unfolding after_rounds
  after_rounds_outside zero i v le = refl
  after_rounds_outside (suc k) i v le =
      forth_to_outside key n (sum_after key n (suc k)) n i (after_rounds key n k v) (omega arith) le
      ∙ after_rounds_outside k i v le

some-inner : {A : Type 0} (x y : A) → some x ≡ some y → x ≡ y
some-inner {A} x y e = ap (λ (o : Option A). elim o as (λ _. A) [ none ↦ x | some z ↦ z ]) e

-- Two buffers with the same words in front are encrypted to the same words there, and the words
-- behind stay as they are.
pub xxtea_encrypt-Agree :
    (key v w u t : ℕ → ℕ) (len : ℕ)
    → 8 ≤ len
    → aborts len ≡ false
    → Agree (len / 4) v w
    → xxtea_encrypt key len v ≡ some u
    → xxtea_encrypt key len w ≡ some t
    → Agree (len / 4) u t × ((i : ℕ) → len / 4 ≤ i → t i ≡ w i)
xxtea_encrypt-Agree key v w u t len h fine same e d =
    let n = len / 4 in
    let r = round_count n in
    let from_v : after_rounds key n r v ≡ u =
      some-inner (after_rounds key n r v) u (sym (xxtea_encrypt_lem key v len h fine) ∙ e) in
    let from_w : after_rounds key n r w ≡ t =
      some-inner (after_rounds key n r w) t (sym (xxtea_encrypt_lem key w len h fine) ∙ d) in
    (
      λ i lt.
          sym (ap (λ x. x i) from_v)
          ∙ after_rounds-Agree key n r v w same i lt
          ∙ ap (λ x. x i) from_w,
      λ i le. sym (ap (λ x. x i) from_w) ∙ after_rounds_outside key n r i w le,
    )
