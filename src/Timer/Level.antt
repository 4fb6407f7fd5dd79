-- ===== src/Timer/Level.antt =====
-- The level at which a timer is placed.
use atframe_utils.Base.{
  ℕ, zero, suc, ◌+◌, ◌-◌, ◌*◌, ◌/◌, ◌%◌, ◌<◌, ◌≤◌, ◌≡◌, ◌⊎◌, ap, inl, inr, refl, arith, ltb,
  Bool-cases, ltb→lt, ltb→le, dec_lt, subst,
}
use native.Mathlib.Nat.{div-add-mod, div-div-eq-div-mul, mul_comm}
use atframe_utils.Timer.{
  lvl_gran, lvl_limit, calc_index, wheel_index_from, calc_wheel_index, max_tick_distance,
}

-- A timer stands in a slot of a level that has yet to come, less than a turn ahead.
pub record IsPlacedAt (last idx e lvl : ℕ) : Type 0 where
  pub level : lvl < 8
  pub slot : idx ≡ lvl * 64 + e / lvl_gran lvl % 64
  pub ahead : last / lvl_gran lvl < e / lvl_gran lvl
  pub within : e < last + 64 * lvl_gran lvl

pub lvl_gran-pos : (n : ℕ) → 0 < lvl_gran n
unfolding lvl_gran
lvl_gran-pos zero = omega arith
lvl_gran-pos (suc n) = omega (arith, lvl_gran-pos n)

pub lvl_gran-le : (n m : ℕ) → n ≤ m → lvl_gran n ≤ lvl_gran m
unfolding lvl_gran
lvl_gran-le zero zero h = omega arith
lvl_gran-le (suc n) zero h = absurd (omega arith)
lvl_gran-le n (suc m) h = elim (dec_lt m n) [
  | yes p ↦ let e : n ≡ suc m = omega arith in rw e (omega arith)
  | no p ↦ omega (arith, lvl_gran-le n m (omega arith))
]

pub mul_mono : (g a b : ℕ) → a ≤ b → g * a ≤ g * b
mul_mono g a b h = grind arith

pub div_apart : (g a b : ℕ) → 0 < g → a + g ≤ b → a / g < b / g
div_apart g a b h le = grind arith

pub div_next :
    (g a b : ℕ)
    → 0 < g
    → a / g < b / g
    → (a + 1) / g < b / g ⊎ ((a + 1) / g ≡ b / g) × ((a + 1) % g ≡ 0)
div_next g a b h le = grind arith

pub div_same : (g t e : ℕ) → 0 < g → t % g ≡ 0 → t / g ≡ e / g → (t ≤ e) × (e < t + g)
div_same g t e h z q = grind arith

pub div_turn : (g t e : ℕ) → 0 < g → t % g ≡ 0 → e < t + 64 * g → e / g < t / g + 64
div_turn g t e h z q = elim (dec_lt (e / g) (t / g + 64)) [
  | yes p ↦ p
  | no p ↦ absurd (
      omega
        (arith, mul_mono g (t / g + 64) (e / g) (omega arith), div-add-mod t g, div-add-mod e g))
]

-- What the loop of `calc_wheel_index` finds: the first level that the distance fits.
pub div_lt : (g a b : ℕ) → 0 < g → a / g < b / g → b ≤ a → ⊥
div_lt g a b p h le =
    grind (arith, mul_mono g (a / g + 1) (b / g) (omega arith), div-add-mod a g, div-add-mod b g)

pub div_turns : (g t : ℕ) → t / (8 * g) ≡ t / g / 8
div_turns g t = omega (arith, div-div-eq-div-mul t g 8, ap (λ n. t / n) (mul_comm g 8))

pub div_starts : (g t : ℕ) → 0 < g → t % (8 * g) ≡ 0 → t / g % 8 ≡ 0
div_starts g t p h = elim (dec_lt 0 (t / g % 8)) [
  | yes r ↦ absurd (
      grind (
        arith,
        h,
        r,
        div_turns g t,
        div-add-mod t (8 * g),
        div-add-mod t g,
        mul_mono g (8 * (t / g / 8) + 1) (t / g) (omega arith),
        ap (λ n. 8 * g * n) (div_turns g t),
      ))
  | no z ↦ omega arith
]

pub record Fits (delta lvl : ℕ) : Type 0 where
  pub below : delta < 64 * lvl_gran lvl
  pub above : (lvl ≡ 0) ⊎ (8 * lvl_gran lvl ≤ delta)

wheel_index_from-Fits :
    (left lvl e delta : ℕ)
    → lvl + left ≡ 8
    → (lvl ≡ 0) ⊎ (8 * lvl_gran lvl ≤ delta)
    → delta < 64 * lvl_gran 7
    → (k : ℕ) × (k < 8) × Fits delta k × (wheel_index_from left lvl e delta ≡ calc_index e k)
unfolding wheel_index_from
wheel_index_from-Fits zero lvl e delta s a d = absurd (reach s a)
  where
    reach : lvl + 0 ≡ 8 → (lvl ≡ 0) ⊎ (8 * lvl_gran lvl ≤ delta) → ⊥
    reach s (inl z) = omega arith
    reach s (inr h) =
        let e : lvl ≡ 8 = omega arith in
        unfold lvl_gran in omega (arith, subst (λ n. 8 * lvl_gran n ≤ delta) e h)
wheel_index_from-Fits (suc left) lvl e delta s a d = elim (Bool-cases (ltb delta (lvl_limit lvl))) [
  | inl fits ↦ (
    lvl,
    omega arith,
    record { below = ltb→lt delta (lvl_limit lvl) fits; above = a },
    rw fits refl,
  )
  | inr far ↦
      let a' : 8 * lvl_gran (suc lvl) ≤ delta =
        unfold lvl_gran in omega (arith, ltb→le delta (lvl_limit lvl) far) in
      rw far (wheel_index_from-Fits left (suc lvl) e delta (omega arith) (inr a') d)
]

-- For a timeout later than the clock and in the range of the wheel, `calc_wheel_index` is the slot of
-- the timeout at the finest level that its distance fits into, and the slot is still to come within
-- one turn of that level.
pub calc_wheel_index-IsPlacedAt :
    (e clk : ℕ)
    → clk < e
    → e - clk ≤ max_tick_distance
    → (k : ℕ) × IsPlacedAt clk (calc_wheel_index e clk) e k × Fits (e - clk) k
unfolding calc_wheel_index max_tick_distance calc_index
calc_wheel_index-IsPlacedAt e clk h d =
    let (k, lt, fits, eq) =
      wheel_index_from-Fits 8 0 e (e - clk) (omega arith) (inl refl)
        (omega (arith, lvl_gran-pos 7)) in
    (
      k,
      record {
        level = lt;
        slot = eq;
        ahead = ahead k fits.above;
        within = omega (arith, fits.below);
      },
      fits,
    )
  where
    ahead : (k : ℕ) → (k ≡ 0) ⊎ (8 * lvl_gran k ≤ e - clk) → clk / lvl_gran k < e / lvl_gran k
    ahead k (inl z) = rw z (unfold lvl_gran in omega arith)
    ahead k (inr far) =
        div_apart (lvl_gran k) clk e (lvl_gran-pos k) (omega (arith, lvl_gran-pos k))
