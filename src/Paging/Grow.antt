-- ===== src/Paging/Grow.antt =====
-- A fresh page entered as a table of the level below.
use my_sbuos.Base.{
  ℕ, suc, ◌+◌, ◌*◌, ◌%◌, ◌<◌, ◌≡◌, sym, ap, ◌∙◌, ◌≢◌, ◌⊎◌, inl, inr, arith, ◌==◌, Bool-cases,
  ==_iff, update, update_self, update_other, subst,
}
use Prim.Native.Nat.{bit_and, bit_or}
use my_sbuos.Paging.{zero_out, frame_mask, user_flags}
use my_sbuos.Paging.Frames.{IsFrame, slot_inj, user_entry, zero_out-cleared, zero_out-other}
use my_sbuos.Paging.Walk.{Entry, Levels}

abbrev pub Extends : (level level' : ℕ → ℕ) → Type 0
Extends level level' = (t : ℕ) → level t ≢ 0 → level' t ≡ level t

-- The tables after a new one at `b` has been entered at the word `i` of `table`.
module _ (level m : ℕ → ℕ) (table i b l : ℕ) (h : Levels level m) (at : level table ≡ suc (suc l))
    (hi : i < 512) (fresh : level b ≡ 0) (fb : IsFrame b) where
  unfoldable pub level_of : ℕ → ℕ
  level_of = update level b (suc l)

  unfoldable pub memory_of : ℕ → ℕ
  memory_of = update (zero_out b m) (table + 8 * i) (bit_or b user_flags)

  is_table : IsFrame table
  is_table = h.frame table (λ e. omega (arith, at, e))

  table_other : table ≢ b
  table_other e = omega (arith, at, fresh, ap level e)

  used_other : (t k : ℕ) → level t ≡ suc k → t ≢ b
  used_other t k lt e = omega (arith, lt, fresh, ap level e)

  pub memory-fresh : (j : ℕ) → j < 512 → memory_of (b + 8 * j) ≡ 0
  unfolding memory_of
  memory-fresh j hj =
      update_other (zero_out b m) (table + 8 * i) (b + 8 * j) (bit_or b user_flags)
        (λ e. table_other (sym (slot_inj b table j i fb is_table hj hi e).0))
      ∙ zero_out-cleared b m j hj

  pub memory-slot : memory_of (table + 8 * i) ≡ bit_or b user_flags
  unfolding memory_of
  memory-slot = update_self (zero_out b m) (table + 8 * i) (bit_or b user_flags)

  entry-new : (j k : ℕ) → j < 512 → Entry level_of k (memory_of (b + 8 * j))
  entry-new j k hj = inl (memory-fresh j hj)

  pub memory-kept :
      (t j : ℕ)
      → IsFrame t
      → t ≢ b
      → j < 512
      → t + 8 * j ≢ table + 8 * i
      → memory_of (t + 8 * j) ≡ m (t + 8 * j)
  unfolding memory_of
  memory-kept t j ft ne hj far =
      update_other (zero_out b m) (table + 8 * i) (t + 8 * j) (bit_or b user_flags) far
      ∙ zero_out-other b t j m fb ft ne hj

  pub entry-slot :
      (memory_of (table + 8 * i) % 2 ≡ 1)
      × (level_of (bit_and (memory_of (table + 8 * i)) frame_mask) ≡ suc l)
  unfolding memory_of level_of
  entry-slot =
      let e = user_entry b fb in
      let even = fb.1 in
      (
        ap (λ a. a % 2) (memory-slot ∙ e.0) ∙ omega arith,
        ap level_of (ap (λ a. bit_and a frame_mask) memory-slot ∙ e.1)
            ∙ update_self level b (suc l),
      )

  entry-old :
      (t j k : ℕ)
      → level t ≡ suc (suc k)
      → t ≢ b
      → j < 512
      → (k ≢ 2) ⊎ (j ≢ 510)
      → t + 8 * j ≢ table + 8 * i
      → Entry level_of k (memory_of (t + 8 * j))
  unfolding level_of
  entry-old t j k lt ne hj special far =
      let ft = h.frame t (λ e. omega (arith, lt, e)) in
      rw (memory-kept t j ft ne hj far) (elim (h.entry t j k lt hj special) [
        | inl e ↦ inl e
        | inr (odd, child) ↦
            inr (odd, update_other level b _ (suc l) (used_other _ k child) ∙ child)
      ])

  grow-entry :
      (t j k : ℕ)
      → level_of t ≡ suc (suc k)
      → j < 512
      → (k ≢ 2) ⊎ (j ≢ 510)
      → Entry level_of k (memory_of (t + 8 * j))
  unfolding level_of
  grow-entry t j k lt hj special = elim (Bool-cases (t == b)) [
    | inl e ↦
        subst (λ u. Entry level_of k (memory_of (u + 8 * j))) (sym ((==_iff _ _).0 e))
          (entry-new j k hj)
    | inr e ↦
        let ne : t ≢ b = ground (arith, e) in
        let old : level t ≡ suc (suc k) = sym (update_other level b t (suc l) ne) ∙ lt in
        elim (Bool-cases (t + 8 * j == table + 8 * i)) [
          | inl same ↦
              let place : t + 8 * j ≡ table + 8 * i = (==_iff _ _).0 same in
              let ft = h.frame t (λ z. omega (arith, old, z)) in
              let kl : k ≡ l =
                omega (arith, old, at, ap level (slot_inj t table j i ft is_table hj hi place).0) in
              subst (λ a. Entry level_of k (memory_of a)) (sym place)
                (subst (λ q. Entry level_of q (memory_of (table + 8 * i))) (sym kl)
                  (inr entry-slot))
          | inr far ↦ entry-old t j k old ne hj special (ground (arith, far))
        ]
  ]

  pub grow-Levels : Levels level_of memory_of
  unfolding level_of
  grow-Levels = record {
    frame = λ t ne. elim (Bool-cases (t == b)) [
      | inl e ↦ subst IsFrame (sym ((==_iff _ _).0 e)) fb
      | inr e ↦
          let other : t ≢ b = ground (arith, e) in
          h.frame t (λ z. ne (update_other level b t (suc l) other ∙ z))
    ];
    entry = grow-entry;
  }

  pub grow-Extends : Extends level level_of
  unfolding level_of
  grow-Extends t used = update_other level b t (suc l) (λ e. used (ap level e ∙ fresh))
