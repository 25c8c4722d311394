-- ===== src/Prelude/Equality.antt =====
-- Python's `==` and `in` for every type whose equality can be decided, and its texts: a `Str` is
-- the sequence of the code points of a `str`.
use Prim.Native.Nat.{ℕ}
use Prim.Native.Char.{code}
use Prim.Native.String.{String}
use mathlib.Core.Path.{◌≡◌, refl}
use mathlib.Core.Logic.{ite}
use mathlib.Core.Bool.{Bool, true, false, ◌||◌, ◌&&◌}
use mathlib.Core.List.{List, [], ◌∷◌, ◌++◌}
use native.Mathlib.Decide.{ℕ_discrete}
use native.Mathlib.Omega.{arith}

pub record Eq {ℓ} (A : Type ℓ) : Type ℓ where
  pub dec : Discrete A

module _ {ℓ} {A : Type ℓ} ⦃e : Eq A⦄ where
  infix 50 ◌==◌
  abbrev pub ◌==◌ : A → A → Bool
  a == b = ite (e.dec a b) true false

  unfoldable pub contains : List A → A → Bool
  contains [] a = false
  contains (x ∷ xs) a = a == x || contains xs a

  -- The first list is a start of the second.
  unfoldable pub starts : List A → List A → Bool
  starts [] ys = true
  starts (x ∷ xs) [] = false
  starts (x ∷ xs) (y ∷ ys) = x == y && starts xs ys

  pub ==_refl : (a : A) → (a == a) ≡ true
  ==_refl a = ground arith

  pub ==→eq : (a b : A) → (a == b) ≡ true → a ≡ b
  ==→eq a b h = ground arith

abbrev pub Str : Type 0
Str = List ℕ

-- The code points of a literal.
abbrev pub str : String → Str
str String.[] = []
str (String.◌∷◌ c s) = code c ∷ str s

unfoldable pub Str-discrete : Discrete Str
unfolding ℕ_discrete
Str-discrete = hlevel ℕ_discrete

instance unfoldable pub nat_eq : Eq ℕ
unfolding ℕ_discrete
nat_eq = record { dec = ℕ_discrete }

instance unfoldable pub str_eq : Eq Str
unfolding Str-discrete
str_eq = record { dec = Str-discrete }

instance unfoldable pub path_eq : Eq (List Str)
unfolding Str-discrete
path_eq = record { dec = hlevel Str-discrete }

module _ {ℓ} {A : Type ℓ} ⦃e : Eq A⦄ where
  pub starts-append : (ps xs ys : List A) → starts (ps ++ xs) (ps ++ ys) ≡ starts xs ys
  unfolding starts
  starts-append [] xs ys = refl
  starts-append (p ∷ ps) xs ys = ground (arith, starts-append ps xs ys)
