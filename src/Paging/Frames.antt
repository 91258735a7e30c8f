-- ===== src/Paging/Frames.antt =====
-- The words of different tables are different, and a cleared page is all zeros.
use my_sbuos.Base.{
  ℕ, zero, suc, ◌+◌, ◌-◌, ◌*◌, ◌/◌, ◌%◌, ◌^◌, ◌≤◌, ◌<◌, ◌≡◌, refl, sym, ap, ◌∙◌, ◌≢◌, inl, inr,
  arith, ◌==◌, Bool-cases, ==_iff, update, update_self, update_other, subst,
}
use Prim.Native.Nat.{bit_and, bit_or}
use my_sbuos.Base.Bits.{
  up, down, ones, bit_or-up, bit_and-up, bit_and-ones, bit_and-le, bit_and_nine,
}
use my_sbuos.Paging.{zero_words, zero_out, table_index, frame_mask, user_flags}

-- A page-aligned physical address below 2 ^ 52.
abbrev pub IsFrame : ℕ → Type 0
IsFrame t = (q : ℕ) × (t ≡ up 12 q) × (q < 2 ^ 40)

pub table_index-below : (lvl virt : ℕ) → table_index lvl virt < 512
unfolding table_index
table_index-below lvl virt = omega (arith, bit_and-le 511 (virt / 2 ^ (12 + (lvl - 1) * 9)))

pub table_index-mod : (lvl v : ℕ) → table_index lvl v ≡ v / 2 ^ (12 + (lvl - 1) * 9) % 512
unfolding table_index
table_index-mod lvl v = bit_and_nine (v / 2 ^ (12 + (lvl - 1) * 9))

pub slot_inj :
    (t u i j : ℕ)
    → IsFrame t
    → IsFrame u
    → i < 512
    → j < 512
    → t + 8 * i ≡ u + 8 * j
    → (t ≡ u) × (i ≡ j)
slot_inj t u i j ft fu hi hj e = let et = ft.1 in let eu = fu.1 in (omega arith, omega arith)

-- The entry made of a frame: it is present, and the mask gives the frame back.
pub user_entry :
    (f : ℕ)
    → IsFrame f
    → (bit_or f user_flags ≡ f + 7) × (bit_and (bit_or f user_flags) frame_mask ≡ f)
user_entry f (q, e, small) =
    let sum : bit_or f 7 ≡ f + 7 = rw e (bit_or-up 12 q 7 (omega arith)) in
    let shifted : down 12 (up 12 q + 7) ≡ q = omega arith in
    let high : bit_and (up 12 q + 7) frame_mask ≡ up 12 q =
      bit_and-up 12 (up 12 q + 7) (ones 40)
      ∙ ap (up 12) (ap (λ a. bit_and a (ones 40)) shifted ∙ bit_and-ones 40 q small) in
    (sum, ap (λ a. bit_and a frame_mask) sum ∙ rw e high)

zero_words-other :
    (n base i : ℕ) (m : ℕ → ℕ) (a : ℕ)
    → ((j : ℕ) → i ≤ j → j < i + n → a ≢ base + 8 * j)
    → zero_words n base i m a ≡ m a
unfolding zero_words
zero_words-other zero base i m a h = refl
zero_words-other (suc n) base i m a h =
    zero_words-other n base (suc i) (update m (base + 8 * i) 0) a
      (λ j p q. h j (omega arith) (omega arith))
    ∙ update_other m (base + 8 * i) a 0 (h i (omega arith) (omega arith))

zero_words-cleared :
    (n base i : ℕ) (m : ℕ → ℕ) (j : ℕ)
    → i ≤ j
    → j < i + n
    → zero_words n base i m (base + 8 * j) ≡ 0
unfolding zero_words
zero_words-cleared zero base i m j a b = absurd (omega arith)
zero_words-cleared (suc n) base i m j a b = elim (Bool-cases (j == i)) [
  | inl e ↦
      let same : j ≡ i = (==_iff _ _).0 e in
      zero_words-other n base (suc i) (update m (base + 8 * i) 0) (base + 8 * j)
        (λ k p q. λ c. omega (arith, same, c))
      ∙ subst (λ k. update m (base + 8 * i) 0 (base + 8 * k) ≡ 0) (sym same)
          (update_self m (base + 8 * i) 0)
  | inr ne ↦
      zero_words-cleared n base (suc i) (update m (base + 8 * i) 0) j (ground arith) (omega arith)
]

pub zero_out-cleared : (base : ℕ) (m : ℕ → ℕ) (j : ℕ) → j < 512 → zero_out base m (base + 8 * j) ≡ 0
unfolding zero_out
zero_out-cleared base m j h = zero_words-cleared 512 base 0 m j (omega arith) (omega arith)

-- The words of another table stay.
pub zero_out-other :
    (base t i : ℕ) (m : ℕ → ℕ)
    → IsFrame base
    → IsFrame t
    → t ≢ base
    → i < 512
    → zero_out base m (t + 8 * i) ≡ m (t + 8 * i)
unfolding zero_out
zero_out-other base t i m fb ft ne hi =
    zero_words-other 512 base 0 m (t + 8 * i)
      (λ j p q e. ne (slot_inj t base i j ft fb hi (omega arith) e).0)
