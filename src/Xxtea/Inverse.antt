-- ===== src/Xxtea/Inverse.antt =====
-- The loops of `xxtea_encrypt` and `xxtea_decrypt` in terms of the passes.
use atframe_utils.Base.{
  Option, none, subst, ℕ, zero, suc, ◌+◌, ◌-◌, ◌*◌, ◌/◌, ◌<◌, ◌≤◌, ◌≡◌, ◌∙◌, ap, ap₂, inl, inr,
  refl, sym, subst, arith, false, ◌==◌, ==_iff, gt→==, Bool-cases, some,
}
use atframe_utils.Xxtea.{
  word, word_sub, mx, put, delta, encrypt_words, encrypt_round, encrypt_rounds, decrypt_words,
  decrypt_round, decrypt_rounds, round_count, aborts, xxtea_encrypt, xxtea_decrypt,
}
use atframe_utils.Xxtea.Passes.{
  AreWords, put-same, next, prev, forth, back, forth_to, back_down, forth_to-AreWords,
  back_down-forth_to,
}

module _ (key : ℕ → ℕ) (n sum : ℕ) where
  next_inner : (p : ℕ) → suc p < n → next key n sum p ≡ suc p
  next_inner p h = elim (Bool-cases (suc p == n)) [
    | inl e ↦ ground (arith, e, h)
    | inr f ↦ rw f refl
  ]

  next_last : (p : ℕ) → suc p ≡ n → next key n sum p ≡ 0
  next_last p h = rw ((==_iff (suc p) n).1 h) refl

  forth_inner :
      (p : ℕ) (v : ℕ → ℕ)
      → suc p < n
      → forth key n sum p v ≡ put v p (word (v p + mx key sum p (v (p + 1)) (v (prev key n sum p))))
  unfolding forth
  forth_inner p v h =
      let e : next key n sum p ≡ p + 1 = next_inner p h ∙ omega arith in
      ap (λ m. put v p (word (v p + mx key sum p (v m) (v (prev key n sum p))))) e

  encrypt_words_lem :
      (left p q : ℕ) (v : ℕ → ℕ)
      → q ≡ p + left
      → suc q ≡ n
      → let a = forth_to key n sum p v in
        let b = forth_to key n sum q v in
        encrypt_words key sum left p (a (prev key n sum p)) a ≡ (b (prev key n sum q), b)
  unfolding encrypt_words
  encrypt_words_lem zero p q v e h =
      ap (λ m. (forth_to key n sum m v (prev key n sum m), forth_to key n sum m v)) (omega arith)
  encrypt_words_lem (suc left) p q v e h =
      let a = forth_to key n sum p v in
      let x = word (a p + mx key sum p (a (p + 1)) (a (prev key n sum p))) in
      let b = forth_to key n sum q v in
      let f : forth_to key n sum (suc p) v ≡ put a p x =
        unfold forth_to in forth_inner p (forth_to key n sum p v) (omega arith) in
      let at : forth_to key n sum (suc p) v p ≡ x = ap (λ u. u p) f ∙ put-same a p x in
      let ih = encrypt_words_lem left (suc p) q v (omega arith) h in
      subst (λ m. encrypt_words key sum left m x (put a p x) ≡ (b (prev key n sum q), b))
        (omega arith)
        (subst (λ z. encrypt_words key sum left (suc p) z (put a p x) ≡ (b (prev key n sum q), b))
          at
          (subst
            (λ u.
              encrypt_words key sum left (suc p) (forth_to key n sum (suc p) v p) u
              ≡ (b (prev key n sum q), b))
            f ih))

  forth_last :
      (v : ℕ → ℕ)
      → suc (n - 1) ≡ n
      → let a = forth_to key n sum (n - 1) v in
        put a (n - 1) (word (a (n - 1) + mx key sum (n - 1) (a 0) (a (prev key n sum (n - 1)))))
        ≡ forth_to key n sum n v
  unfolding forth forth_to
  forth_last v h =
      let a = forth_to key n sum (n - 1) v in
      ap
        (λ m.
          put a (n - 1) (word (a (n - 1) + mx key sum (n - 1) (a m) (a (prev key n sum (n - 1))))))
        (sym (next_last (n - 1) h))
      ∙ ap (λ m. forth_to key n sum m v) h

  encrypt_round_lem :
      (v : ℕ → ℕ)
      → 1 ≤ n
      → let b = forth_to key n sum n v in encrypt_round key n sum (v (n - 1)) v ≡ (b (n - 1), b)
  unfolding encrypt_round
  encrypt_round_lem v h =
      let a = forth_to key n sum (n - 1) v in
      let x = word (a (n - 1) + mx key sum (n - 1) (a 0) (a (prev key n sum (n - 1)))) in
      let last : suc (n - 1) ≡ n = omega arith in
      let b = forth_to key n sum n v in
      let f : put a (n - 1) x ≡ b = forth_last v last in
      let at : x ≡ b (n - 1) = sym (put-same a (n - 1) x) ∙ ap (λ u. u (n - 1)) f in
      let w : encrypt_words key sum (n - 1) 0 (v (n - 1)) v ≡ (a (prev key n sum (n - 1)), a) =
        unfold forth_to in encrypt_words_lem (n - 1) 0 (n - 1) v (omega arith) (omega arith) in
      ap
        (λ (r : ℕ × (ℕ → ℕ)).
          let y = word (r.1 (n - 1) + mx key sum (n - 1) (r.1 0) r.0) in (y, put r.1 (n - 1) y))
        w
      ∙ ap₂ (λ (z : ℕ) (u : ℕ → ℕ). (z, u)) at f

  decrypt_words_lem :
      (p : ℕ) (v : ℕ → ℕ)
      → p < n
      → let b = back_down key n sum p v in
        decrypt_words key sum p (v (next key n sum p)) v ≡ (b (next key n sum 0), b)
  unfolding decrypt_words back_down back
  decrypt_words_lem zero v h = refl
  decrypt_words_lem (suc p) v h =
      let c = back key n sum (suc p) v in
      let b = back_down key n sum p c in
      let at : c (next key n sum p) ≡ c (suc p) = ap c (next_inner p h) in
      let x = word_sub (v (suc p)) (mx key sum (suc p) (v (next key n sum (suc p))) (v p)) in
      let same : c (suc p) ≡ x = put-same v (suc p) _ in
      subst (λ y. decrypt_words key sum p y c ≡ (b (next key n sum 0), b)) (at ∙ same)
        (decrypt_words_lem p c (omega arith))

  decrypt_round_lem :
      (v : ℕ → ℕ)
      → 1 ≤ n
      → let b = back key n sum 0 (back_down key n sum (n - 1) v) in
        decrypt_round key n sum (v 0) v ≡ (b 0, b)
  unfolding decrypt_round back
  decrypt_round_lem v h =
      let b = back_down key n sum (n - 1) v in
      let x = word_sub (b 0) (mx key sum 0 (b (next key n sum 0)) (b (n - 1))) in
      let start : v (next key n sum (n - 1)) ≡ v 0 = ap v (next_last (n - 1) (omega arith)) in
      let w =
        subst (λ y. decrypt_words key sum (n - 1) y v ≡ (b (next key n sum 0), b)) start
          (decrypt_words_lem (n - 1) v (omega arith)) in
      ap
        (λ (r : ℕ × (ℕ → ℕ)).
          let y = word_sub (r.1 0) (mx key sum 0 r.0 (r.1 (n - 1))) in (y, put r.1 0 y))
        w
      ∙ ap (λ (z : ℕ). (z, put b 0 x)) (sym (put-same b 0 x))

  -- A round of decryption undoes one of encryption.
  decrypt_round-encrypt_round :
      2 ≤ n
      → (v : ℕ → ℕ) → AreWords v
      → let b = forth_to key n sum n v in decrypt_round key n sum (b 0) b ≡ (v 0, v)
  decrypt_round-encrypt_round h v w =
      let b = forth_to key n sum n v in
      let undone : back key n sum 0 (back_down key n sum (n - 1) b) ≡ v =
        subst (λ m. back key n sum 0 (back_down key n sum (n - 1) (forth_to key n sum m v)) ≡ v)
          (omega arith) (back_down-forth_to key n sum h (n - 1) v w) in
      decrypt_round_lem b (omega arith) ∙ ap (λ (u : ℕ → ℕ). (u 0, u)) undone

module _ (key : ℕ → ℕ) (n : ℕ) where
  -- The words after some rounds, and the sum then.
  pub sum_after : ℕ → ℕ
  sum_after k = word (k * delta)

  unfoldable pub after_rounds : ℕ → (ℕ → ℕ) → ℕ → ℕ
  after_rounds zero v = v
  after_rounds (suc k) v = forth_to key n (sum_after (suc k)) n (after_rounds k v)

  after_rounds-AreWords : (k : ℕ) (v : ℕ → ℕ) → AreWords v → AreWords (after_rounds k v)
  unfolding after_rounds
  after_rounds-AreWords zero v w = w
  after_rounds-AreWords (suc k) v w =
      forth_to-AreWords key n (sum_after (suc k)) n (after_rounds k v) (after_rounds-AreWords k v w)

  sum_next : (k : ℕ) → word (sum_after k + delta) ≡ sum_after (suc k)
  unfolding sum_after
  sum_next k = omega arith

  sum_previous : (k : ℕ) → word_sub (sum_after (suc k)) delta ≡ sum_after k
  unfolding sum_after
  sum_previous k = omega arith

  encrypt_rounds_lem :
      (rounds k q : ℕ) (v : ℕ → ℕ)
      → 1 ≤ n
      → q ≡ k + rounds
      → encrypt_rounds key n rounds (sum_after k) (after_rounds k v (n - 1)) (after_rounds k v)
        ≡ after_rounds q v
  unfolding encrypt_rounds
  encrypt_rounds_lem zero k q v h e = ap (λ m. after_rounds m v) (omega arith)
  encrypt_rounds_lem (suc rounds) k q v h e =
      let a = after_rounds k v in
      let r : encrypt_round key n (sum_after (suc k)) (a (n - 1)) a
          ≡ (after_rounds (suc k) v (n - 1), after_rounds (suc k) v) =
        unfold after_rounds in encrypt_round_lem key n (sum_after (suc k)) (after_rounds k v) h in
      ap (λ s. let p = encrypt_round key n s (a (n - 1)) a in encrypt_rounds key n rounds s p.0 p.1)
        (sum_next k)
      ∙ ap (λ (p : ℕ × (ℕ → ℕ)). encrypt_rounds key n rounds (sum_after (suc k)) p.0 p.1) r
      ∙ encrypt_rounds_lem rounds (suc k) q v h (omega arith)

  decrypt_rounds_lem :
      (k : ℕ) (v : ℕ → ℕ)
      → 2 ≤ n
      → AreWords v
      → decrypt_rounds key n k (sum_after k) (after_rounds k v 0) (after_rounds k v) ≡ v
  unfolding decrypt_rounds after_rounds
  decrypt_rounds_lem zero v h w = refl
  decrypt_rounds_lem (suc k) v h w =
      let a = after_rounds k v in
      let r =
        decrypt_round-encrypt_round key n (sum_after (suc k)) h a (after_rounds-AreWords k v w) in
      ap (λ (p : ℕ × (ℕ → ℕ)). decrypt_rounds key n k (word_sub (sum_after (suc k)) delta) p.0 p.1)
        r
      ∙ ap (λ s. decrypt_rounds key n k s (a 0) a) (sum_previous k)
      ∙ decrypt_rounds_lem k v h w

-- What `xxtea_encrypt` gives for at least two words.
pub xxtea_encrypt_lem :
    (key v : ℕ → ℕ) (len : ℕ)
    → 8 ≤ len
    → aborts len ≡ false
    → xxtea_encrypt key len v ≡ some (after_rounds key (len / 4) (round_count (len / 4)) v)
unfolding xxtea_encrypt sum_after after_rounds
xxtea_encrypt_lem key v len h fine =
    let n = len / 4 in
    let r = round_count n in
    let nonempty : (len == 0) ≡ false = gt→== len 0 (omega arith) in
    rw (fine, nonempty) (ap some (encrypt_rounds_lem key n r 0 r v (omega arith) (omega arith)))

-- For a buffer of at least two words whose length does not stop the program, `xxtea_decrypt` with the
-- same key gives back what `xxtea_encrypt` encrypted.
pub xxtea_decrypt-xxtea_encrypt :
    (key v : ℕ → ℕ) (len : ℕ)
    → AreWords v
    → 8 ≤ len
    → aborts len ≡ false
    → (u : ℕ → ℕ) × (xxtea_encrypt key len v ≡ some u) × (xxtea_decrypt key len u ≡ some v)
unfolding xxtea_encrypt xxtea_decrypt sum_after after_rounds
xxtea_decrypt-xxtea_encrypt key v len w h fine =
    let n = len / 4 in
    let r = round_count n in
    let nonempty : (len == 0) ≡ false = gt→== len 0 (omega arith) in
    (
      after_rounds key n r v,
      xxtea_encrypt_lem key v len h fine,
      rw (fine, nonempty) (ap some (decrypt_rounds_lem key n r v (omega arith) w)),
    )

-- Encryption leaves words.
pub xxtea_encrypt-AreWords :
    (key v u : ℕ → ℕ) (len : ℕ)
    → AreWords v
    → 8 ≤ len
    → aborts len ≡ false
    → xxtea_encrypt key len v ≡ some u
    → AreWords u
unfolding xxtea_encrypt sum_after after_rounds
xxtea_encrypt-AreWords key v u len w h fine e =
    let n = len / 4 in
    let r = round_count n in
    let run : xxtea_encrypt key len v ≡ some (after_rounds key n r v) =
      xxtea_encrypt_lem key v len h fine in
    subst AreWords
      (ap (λ (o : Option (ℕ → ℕ)). elim o as (λ _. ℕ → ℕ) [ none ↦ u | some x ↦ x ]) (sym run ∙ e))
      (after_rounds-AreWords key n r v w)
