-- ===== src/Base/Codes.antt =====
-- Text as a list of the codes of its characters.
use Prim.Native.Char.{code}
use Prim.Native.Nat.{ℕ, zero, suc}
use Prim.Native.String.{String}
use mathlib.Core.Path.{◌≡◌, refl, ap₂}
use mathlib.Core.List.{List, [], ◌∷◌}
use mathlib.Core.Bool.{Bool, true, false, ◌&&◌, ◌||◌}
use native.Mathlib.Omega.{arith}
use atframe_utils.Base.Tests.{◌==◌}

-- The characters of a literal, as numbers.
abbrev pub codes : String → List ℕ
codes String.[] = []
codes (String.◌∷◌ c s) = code c ∷ codes s

abbrev pub contains : List ℕ → ℕ → Bool
contains [] c = false
contains (x ∷ xs) c = (x == c) || contains xs c

-- A string as C reads it, up to the first zero.
abbrev pub c_str : List ℕ → List ℕ
c_str [] = []
c_str (zero ∷ s) = []
c_str (suc c ∷ s) = suc c ∷ c_str s

abbrev pub eq_codes : List ℕ → List ℕ → Bool
eq_codes [] [] = true
eq_codes [] (y ∷ ys) = false
eq_codes (x ∷ xs) [] = false
eq_codes (x ∷ xs) (y ∷ ys) = (x == y) && eq_codes xs ys

pub eq_codes_self : (s : List ℕ) → eq_codes s s ≡ true
eq_codes_self [] = refl
eq_codes_self (x ∷ xs) = ground (arith, eq_codes_self xs)

pub eq_codes-eq : (s t : List ℕ) → eq_codes s t ≡ true → s ≡ t
eq_codes-eq [] [] h = refl
eq_codes-eq [] (y ∷ ys) h = ground arith
eq_codes-eq (x ∷ xs) [] h = ground arith
eq_codes-eq (x ∷ xs) (y ∷ ys) h =
    let heads : x ≡ y = ground (arith, h) in
    let tails : eq_codes xs ys ≡ true = ground (arith, h) in
    ap₂ (λ a b. a ∷ b) heads (eq_codes-eq xs ys tails)
