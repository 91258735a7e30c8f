-- ===== src/Base/Lists.antt =====
-- Lists measured and indexed by native numbers, membership by recursion.
use Prim.Native.Nat.{ℕ, zero, suc, ◌+◌}
use mathlib.Core.Path.{◌≡◌, refl}
use mathlib.Core.Logic.{◌≢◌}
use mathlib.Core.List.{List, [], ◌∷◌, ◌++◌}
use native.Mathlib.Omega.{arith}
use mathlib.Core.Bool.{Bool, false, ◌||◌}
use my_sbuos.Base.Tests.{◌==◌}

module _ {ℓ} {A : Type ℓ} where
  abbrev pub length : List A → ℕ
  length [] = 0
  length (x ∷ xs) = suc (length xs)

  abbrev pub get_or : List A → ℕ → A → A
  get_or [] i d = d
  get_or (x ∷ xs) zero d = x
  get_or (x ∷ xs) (suc i) d = get_or xs i d

  pub length-append : (xs ys : List A) → length (xs ++ ys) ≡ length xs + length ys
  length-append [] ys = omega arith
  length-append (x ∷ xs) ys = omega (arith, length-append xs ys)

  abbrev pub All {κ} : (A → Type κ) → List A → Type κ
  All P [] = Unit
  All P (x ∷ xs) = P x × All P xs

  pub All-append {κ} : (P : A → Type κ) (xs ys : List A) → All P xs → All P ys → All P (xs ++ ys)
  All-append P [] ys h k = k
  All-append P (x ∷ xs) ys h k = (h.0, All-append P xs ys h.1 k)

abbrev pub NotIn : ℕ → List ℕ → Type 0
NotIn a [] = Unit {0}
NotIn a (x ∷ xs) = (a ≢ x) × NotIn a xs

abbrev pub Distinct : List ℕ → Type 0
Distinct [] = Unit {0}
Distinct (x ∷ xs) = NotIn x xs × Distinct xs

abbrev pub Disjoint : List ℕ → List ℕ → Type 0
Disjoint [] ys = Unit {0}
Disjoint (x ∷ xs) ys = NotIn x ys × Disjoint xs ys

pub NotIn-append : (a : ℕ) (xs ys : List ℕ) → NotIn a xs → NotIn a ys → NotIn a (xs ++ ys)
NotIn-append a [] ys h k = k
NotIn-append a (x ∷ xs) ys h k = (h.0, NotIn-append a xs ys h.1 k)

pub Distinct-snoc : (xs : List ℕ) (a : ℕ) → Distinct xs → NotIn a xs → Distinct (xs ++ a ∷ [])
Distinct-snoc [] a h k = (tt, tt)
Distinct-snoc (x ∷ xs) a h k =
    (NotIn-append x xs (a ∷ []) h.0 ((λ e. k.0 (sym e)), tt), Distinct-snoc xs a h.1 k.1)
  where
    sym : {u v : ℕ} → u ≡ v → v ≡ u
    sym e = omega arith

-- `a` stands in the list.
abbrev pub mem : ℕ → List ℕ → Bool
mem a [] = false
mem a (x ∷ xs) = (a == x) || mem a xs

pub NotIn-of_mem : (a : ℕ) (xs : List ℕ) → mem a xs ≡ false → NotIn a xs
NotIn-of_mem a [] h = tt
NotIn-of_mem a (x ∷ xs) h = (ground arith, NotIn-of_mem a xs (ground arith))

pub mem_of_NotIn : (a : ℕ) (xs : List ℕ) → NotIn a xs → mem a xs ≡ false
mem_of_NotIn a [] h = refl
mem_of_NotIn a (x ∷ xs) h = ground (arith, h.0, mem_of_NotIn a xs h.1)

pub mem-append : (a : ℕ) (xs ys : List ℕ) → mem a (xs ++ ys) ≡ (mem a xs || mem a ys)
mem-append a [] ys = refl
mem-append a (x ∷ xs) ys = ground (arith, mem-append a xs ys)
