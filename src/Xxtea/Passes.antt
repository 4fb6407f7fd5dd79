-- ===== src/Xxtea/Passes.antt =====
-- A pass over the words as a sequence of single steps, and their inverses.
use atframe_utils.Base.{
  ℕ, zero, suc, ◌+◌, ◌-◌, ◌^◌, ◌<◌, ◌≤◌, ◌≡◌, ◌≢◌, ◌∙◌, ap, inl, inr, refl, sym, arith, ◌==◌,
  ==_iff, Bool-cases, if◌then◌else◌,
}
use atframe_utils.Xxtea.{word, word_sub, mx, put}

-- Every word is a `uint32_t`.
abbrev pub AreWords : (ℕ → ℕ) → Type 0
AreWords v = (i : ℕ) → v i < 2 ^ 32

word_sub-word_add : (a b : ℕ) → a < 2 ^ 32 → word_sub (word (a + b)) b ≡ a
word_sub-word_add a b h = omega arith

pub put-same : (v : ℕ → ℕ) (p x : ℕ) → put v p x p ≡ x
put-same v p x = rw ((==_iff p p).1 refl) refl

put-ne : (v : ℕ → ℕ) (p x j : ℕ) → j ≢ p → put v p x j ≡ v j
put-ne v p x j n = elim (Bool-cases (j == p)) [
  | inl e ↦ absurd (n ((==_iff j p).0 e))
  | inr f ↦ rw f refl
]

put_back : (v : ℕ → ℕ) (p x : ℕ) → put (put v p x) p (v p) ≡ v
put_back v p x = λ i. λ j. at j i
  where
    at : (j : ℕ) → put (put v p x) p (v p) j ≡ v j
    at j = elim (Bool-cases (j == p)) [
      | inl e ↦ rw e (ap v (sym ((==_iff j p).0 e)))
      | inr f ↦ rw f refl
    ]

module _ (key : ℕ → ℕ) (n sum : ℕ) where
  -- The neighbours of a word, around the end.
  abbrev pub next : ℕ → ℕ
  next p = if suc p == n then 0 else suc p

  abbrev pub prev : ℕ → ℕ
  prev zero = n - 1
  prev (suc p) = p

  -- One word is encrypted or decrypted.
  unfoldable pub forth : ℕ → (ℕ → ℕ) → ℕ → ℕ
  forth p v = put v p (word (v p + mx key sum p (v (next p)) (v (prev p))))

  unfoldable pub back : ℕ → (ℕ → ℕ) → ℕ → ℕ
  back p v = put v p (word_sub (v p) (mx key sum p (v (next p)) (v (prev p))))

  next-ne : 2 ≤ n → (p : ℕ) → next p ≢ p
  next-ne h p = λ q. elim (Bool-cases (suc p == n)) [
    | inl e ↦ ground (arith, e, q, h)
    | inr f ↦ ground (arith, f, q)
  ]

  prev-ne : 2 ≤ n → (p : ℕ) → prev p ≢ p
  prev-ne h zero = omega arith
  prev-ne h (suc p) = omega arith

  pub back-forth : 2 ≤ n → (p : ℕ) (v : ℕ → ℕ) → AreWords v → back p (forth p v) ≡ v
  unfolding forth back
  back-forth h p v w =
      rw (put-same v p x, put-ne v p x (next p) (next-ne h p), put-ne v p x (prev p) (prev-ne h p))
        (rw (word_sub-word_add (v p) (mx key sum p (v (next p)) (v (prev p))) (w p))
          (put_back v p x))
    where
      x : ℕ
      x = word (v p + mx key sum p (v (next p)) (v (prev p)))

  forth-AreWords : (p : ℕ) (v : ℕ → ℕ) → AreWords v → AreWords (forth p v)
  unfolding forth
  forth-AreWords p v w i = elim (Bool-cases (i == p)) [
    | inl e ↦ rw e (omega arith)
    | inr f ↦ rw f (w i)
  ]

  -- The words before `p` are encrypted.
  unfoldable pub forth_to : ℕ → (ℕ → ℕ) → ℕ → ℕ
  forth_to zero v = v
  forth_to (suc p) v = forth p (forth_to p v)

  -- The words from `p` down to 1 are decrypted.
  unfoldable pub back_down : ℕ → (ℕ → ℕ) → ℕ → ℕ
  back_down zero v = v
  back_down (suc p) v = back_down p (back (suc p) v)

  pub forth_to-AreWords : (p : ℕ) (v : ℕ → ℕ) → AreWords v → AreWords (forth_to p v)
  unfolding forth_to
  forth_to-AreWords zero v w = w
  forth_to-AreWords (suc p) v w = forth-AreWords p (forth_to p v) (forth_to-AreWords p v w)

  pub back_down-forth_to :
      2 ≤ n → (p : ℕ) (v : ℕ → ℕ) → AreWords v → back 0 (back_down p (forth_to (suc p) v)) ≡ v
  unfolding back_down forth_to
  back_down-forth_to h zero v w = back-forth h 0 v w
  back_down-forth_to h (suc p) v w =
      ap (λ u. back 0 (back_down p u))
        (back-forth h (suc p) (forth_to (suc p) v) (forth_to-AreWords (suc p) v w))
      ∙ back_down-forth_to h p v w
