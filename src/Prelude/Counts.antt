-- ===== src/Prelude/Counts.antt =====
-- How often a number is in a list.
use Prim.Native.Nat.{ℕ, ◌+◌, ◌≤◌}
use mathlib.Core.Path.{◌≡◌, refl, ap, ◌∙◌}
use mathlib.Core.Bool.{Bool, true, false}
use mathlib.Core.List.{List, [], ◌∷◌, ◌++◌}
use native.Mathlib.Omega.{arith}
use slick_net.Prelude.Tests.{◌==◌, ltb}

abbrev pub one : Bool → ℕ
one true = 1
one false = 0

abbrev pub times : ℕ → List ℕ → ℕ
times k [] = 0
times k (n ∷ l) = one (n == k) + times k l

times-middle :
    (k n : ℕ) (xs ys : List ℕ) → times k (xs ++ n ∷ ys) ≡ one (n == k) + times k (xs ++ ys)
times-middle k n [] ys = refl
times-middle k n (x ∷ xs) ys = omega (arith, times-middle k n xs ys)

-- One occurrence is taken out of a list.
pub removed :
    (k n : ℕ) (l xs ys : List ℕ) → l ≡ xs ++ n ∷ ys → times k l ≡ one (n == k) + times k (xs ++ ys)
removed k n l xs ys e = ap (times k) e ∙ times-middle k n xs ys

-- The numbers below n + 1 are those below n, and n.
pub one_more : (k n : ℕ) → one (ltb k (n + 1)) ≡ one (ltb k n) + one (n == k)
one_more k n = ground arith

pub one_bound : (b : Bool) → one b ≤ 1
one_bound true = omega arith
one_bound false = omega arith

pub same_one : (n : ℕ) → one (n == n) ≡ 1
same_one n = ground arith
