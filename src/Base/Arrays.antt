-- ===== src/Base/Arrays.antt =====
-- Total arrays: a function of the index, and the write of one place.
use Prim.Native.Nat.{ℕ, suc, ◌+◌, ◌<◌, ◌≤◌}
use mathlib.Core.Path.{◌≡◌, ◌∙◌, subst}
use mathlib.Core.Logic.{◌≢◌}
use mathlib.Core.List.{List, [], ◌∷◌, ◌++◌}
use native.Mathlib.Omega.{arith}
use my_sbuos.Base.Tests.{◌==◌, if◌then◌else◌}
use my_sbuos.Base.Lists.{length}

module _ {ℓ} {A : Type ℓ} where
  unfoldable pub update : (ℕ → A) → ℕ → A → ℕ → A
  update f i v j = if j == i then v else f j

  pub update_self : (f : ℕ → A) (i : ℕ) (v : A) → update f i v i ≡ v
  unfolding update
  update_self f i v = ground arith

  pub update_other : (f : ℕ → A) (i j : ℕ) (v : A) → j ≢ i → update f i v j ≡ f j
  unfolding update
  update_other f i j v h = ground arith

-- The array holds the items of the list from place `p` on.
abbrev pub Holds {ℓ} : {A : Type ℓ} → (ℕ → A) → ℕ → List A → Type ℓ
Holds m p [] = Unit
Holds m p (x ∷ xs) = (m p ≡ x) × Holds m (suc p) xs

module _ {ℓ} {A : Type ℓ} where
  pub Holds-agree :
      (m m' : ℕ → A) (p : ℕ) (xs : List A)
      → ((j : ℕ) → p ≤ j → j < p + length xs → m' j ≡ m j)
      → Holds m p xs
      → Holds m' p xs
  Holds-agree m m' p [] same h = tt
  Holds-agree m m' p (x ∷ xs) same h = (
    same p (omega arith) (omega arith) ∙ h.0,
    Holds-agree m m' (suc p) xs (λ j a b. same j (omega arith) (omega arith)) h.1,
  )

  pub Holds-append :
      (m : ℕ → A) (p : ℕ) (xs ys : List A)
      → Holds m p xs
      → Holds m (p + length xs) ys
      → Holds m p (xs ++ ys)
  Holds-append m p [] ys h k = subst (λ i. Holds m i ys) (omega arith) k
  Holds-append m p (x ∷ xs) ys h k =
      (h.0, Holds-append m (suc p) xs ys h.1 (subst (λ i. Holds m i ys) (omega arith) k))

  pub Holds-append_left : (m : ℕ → A) (p : ℕ) (xs ys : List A) → Holds m p (xs ++ ys) → Holds m p xs
  Holds-append_left m p [] ys h = tt
  Holds-append_left m p (x ∷ xs) ys h = (h.0, Holds-append_left m (suc p) xs ys h.1)

  pub Holds-append_right :
      (m : ℕ → A) (p : ℕ) (xs ys : List A) → Holds m p (xs ++ ys) → Holds m (p + length xs) ys
  Holds-append_right m p [] ys h = subst (λ i. Holds m i ys) (omega arith) h
  Holds-append_right m p (x ∷ xs) ys h =
      subst (λ i. Holds m i ys) (omega arith) (Holds-append_right m (suc p) xs ys h.1)
