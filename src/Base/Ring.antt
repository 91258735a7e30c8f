-- ===== src/Base/Ring.antt =====
-- The part of a circular array of `cap` places that starts at `h` and holds `n` items.
use native.Mathlib.Nat.{mod-add-mod, mod-eq_of_lt, mod-eq-sub-mod}
use Prim.Native.Nat.{ℕ, zero, suc, ◌+◌, ◌-◌, ◌%◌, ◌≤◌, ◌<◌}
use mathlib.Core.Path.{◌≡◌, refl, sym, ap, ◌∙◌, subst}
use mathlib.Core.Logic.{◌≢◌, ◌⊎◌, inl, inr}
use mathlib.Core.List.{List, [], ◌∷◌, ◌++◌}
use native.Mathlib.Omega.{arith}
use native.Mathlib.Decide.{dec_lt}
use my_sbuos.Base.Lists.{length, length-append}
use my_sbuos.Base.Arrays.{update, update_self, update_other}

-- `%` below twice the modulus.
pub mod-lt_double :
    (a cap : ℕ) → a < cap + cap → ((a < cap) × (a % cap ≡ a)) ⊎ ((cap ≤ a) × (a % cap ≡ a - cap))
mod-lt_double a cap h = elim (dec_lt a cap) [
  | yes p ↦ inl (p, mod-eq_of_lt p)
  | no p ↦ inr (omega arith, mod-eq-sub-mod (omega arith) ∙ mod-eq_of_lt (omega arith))
]

place-ne : (cap h i n : ℕ) → h < cap → i < n → n < cap → (h + i) % cap ≢ (h + n) % cap
place-ne cap h i n hh hi hn e =
    omega (arith, mod-lt_double (h + i) cap, mod-lt_double (h + n) cap, e)

module _ {ℓ} {A : Type ℓ} (cap : ℕ) where
  abbrev pub window : (ℕ → A) → ℕ → ℕ → List A
  window slots h zero = []
  window slots h (suc n) = window slots h n ++ slots ((h + n) % cap) ∷ []

  pub length-window : (slots : ℕ → A) (h n : ℕ) → length (window slots h n) ≡ n
  length-window slots h zero = refl
  length-window slots h (suc n) = omega (
    arith,
    length-append (window slots h n) (slots ((h + n) % cap) ∷ []),
    length-window slots h n,
  )

  -- A write at or behind the end of the window, and not round to its start, is not seen.
  pub window-update_end :
      (slots : ℕ → A) (h n m : ℕ) (v : A)
      → h < cap
      → n ≤ m
      → m < cap
      → window (update slots ((h + m) % cap) v) h n ≡ window slots h n
  window-update_end slots h zero m v hh hn hm = refl
  window-update_end slots h (suc n) m v hh hn hm = rw (
    window-update_end slots h n m v hh (omega arith) hm,
    update_other slots ((h + m) % cap) ((h + n) % cap) v (place-ne cap h n m hh (omega arith) hm),
  )

  window-update_next :
      (slots : ℕ → A) (h n : ℕ) (v : A)
      → h < cap
      → n < cap
      → window (update slots ((h + n) % cap) v) h (suc n) ≡ window slots h n ++ v ∷ []
  window-update_next slots h n v hh hn =
      rw (window-update_end slots h n n v hh (omega arith) hn, update_self)

  -- A write to the place behind the window appends.
  pub window-snoc :
      (slots : ℕ → A) (h n i : ℕ) (v : A)
      → h < cap
      → n < cap
      → i ≡ (h + n) % cap
      → window (update slots i v) h (suc n) ≡ window slots h n ++ v ∷ []
  window-snoc slots h n i v hh hn e =
      subst (λ j. window (update slots j v) h (suc n) ≡ window slots h n ++ v ∷ []) (sym e)
        (window-update_next slots h n v hh hn)

  pub window-cons :
      (slots : ℕ → A) (h n : ℕ)
      → h < cap
      → window slots h (suc n) ≡ slots h ∷ window slots ((h + 1) % cap) n
  window-cons slots h zero hh =
      ap (λ i. slots i ∷ []) (ap (λ i. i % cap) (omega arith) ∙ mod-eq_of_lt hh)
  window-cons slots h (suc n) hh = rw (window-cons slots h n hh, shift)
    where
      shift : (h + suc n) % cap ≡ ((h + 1) % cap + n) % cap
      shift = rw mod-add-mod (ap (λ k. k % cap) (omega arith))
