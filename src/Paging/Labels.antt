-- ===== src/Paging/Labels.antt =====
-- The tables form a tree: each has a label, the index digits on the way from the root to it, so that two
-- ways to one table are the same way.
use my_sbuos.Base.{
  ℕ, suc, ◌+◌, ◌*◌, ◌<◌, ◌≡◌, sym, ap, ap₂, ◌∙◌, ◌≢◌, ◌⊎◌, inl, inr, arith, ◌==◌, Bool-cases,
  ==_iff, update, update_self, update_other, subst,
}
use Prim.Native.Nat.{bit_and}
use my_sbuos.Paging.{frame_mask}
use my_sbuos.Paging.Frames.{IsFrame, slot_inj, user_entry}
use my_sbuos.Paging.Walk.{Levels}
use my_sbuos.Paging.Grow.{level_of, memory_of, memory-kept, memory-fresh, memory-slot}

-- The child at the entry `i` of a table with the label `a` has the label `512 * a + i`.
abbrev pub Labels : (level label m : ℕ → ℕ) → Type 0
Labels level label m =
    (t i l : ℕ)
    → level t ≡ suc (suc l)
    → i < 512
    → (l ≢ 2) ⊎ (i ≢ 510)
    → m (t + 8 * i) ≢ 0
    → label (bit_and (m (t + 8 * i)) frame_mask) ≡ 512 * label t + i

-- Labels for more tables, which keep those of the old ones.
pub record Relabelled (level label level' m' : ℕ → ℕ) : Type 0 where
  pub label' : ℕ → ℕ
  pub labels : Labels level' label' m'
  pub kept : (t : ℕ) → level t ≢ 0 → label' t ≡ label t

pub leaf-Labels :
    (level label m : ℕ → ℕ) (leaf i v : ℕ)
    → Levels level m
    → level leaf ≡ 1
    → i < 512
    → Labels level label m
    → Labels level label (update m (leaf + 8 * i) v)
leaf-Labels level label m leaf i v h one hi lab t j l lt hj special nz =
    let ft = h.frame t (λ e. omega (arith, lt, e)) in
    let fl = h.frame leaf (λ e. omega (arith, one, e)) in
    let far : t + 8 * j ≢ leaf + 8 * i =
      λ e. omega (arith, lt, one, ap level (slot_inj t leaf j i ft fl hj hi e).0) in
    let same = update_other m (leaf + 8 * i) (t + 8 * j) v far in
    rw same (lab t j l lt hj special (λ e. nz (same ∙ e)))

module _ (level label m : ℕ → ℕ) (table i b l : ℕ) (h : Levels level m)
    (at : level table ≡ suc (suc l)) (hi : i < 512) (fresh : level b ≡ 0) (fb : IsFrame b)
    (lab : Labels level label m) where
  label_of : ℕ → ℕ
  label_of = update label b (512 * label table + i)

  used_other : (t k : ℕ) → level t ≡ suc k → t ≢ b
  used_other t k lt e = omega (arith, lt, fresh, ap level e)

  labels-old :
      (t j k : ℕ)
      → level t ≡ suc (suc k)
      → j < 512
      → (k ≢ 2) ⊎ (j ≢ 510)
      → t + 8 * j ≢ table + 8 * i
      → memory_of level m table i b l h at hi fresh fb (t + 8 * j) ≢ 0
      → label_of (bit_and (memory_of level m table i b l h at hi fresh fb (t + 8 * j)) frame_mask)
        ≡ 512 * label_of t + j
  unfolding label_of
  labels-old t j k lt hj special far nz =
      let ft = h.frame t (λ e. omega (arith, lt, e)) in
      let ne = used_other t (suc k) lt in
      let same = memory-kept level m table i b l h at hi fresh fb t j ft ne hj far in
      let e = m (t + 8 * j) in
      let child : level (bit_and e frame_mask) ≡ suc k = elim (h.entry t j k lt hj special) [
        | inl z ↦ absurd (nz (same ∙ z))
        | inr c ↦ c.1
      ] in
      ap (λ a. label_of (bit_and a frame_mask)) same
      ∙ update_other label b _ _ (used_other _ k child)
      ∙ lab t j k lt hj special (λ z. nz (same ∙ z))
      ∙ ap (λ a. 512 * a + j) (sym (update_other label b t _ ne))

  grow-Labels :
      (t j k : ℕ)
      → level_of level m table i b l h at hi fresh fb t ≡ suc (suc k)
      → j < 512
      → (k ≢ 2) ⊎ (j ≢ 510)
      → memory_of level m table i b l h at hi fresh fb (t + 8 * j) ≢ 0
      → label_of (bit_and (memory_of level m table i b l h at hi fresh fb (t + 8 * j)) frame_mask)
        ≡ 512 * label_of t + j
  unfolding label_of level_of
  grow-Labels t j k lt hj special nz = elim (Bool-cases (t == b)) [
    | inl e ↦ absurd (
        nz (
          subst (λ u. memory_of level m table i b l h at hi fresh fb (u + 8 * j) ≡ 0)
            (sym ((==_iff _ _).0 e)) (memory-fresh level m table i b l h at hi fresh fb j hj)))
    | inr e ↦
        let ne : t ≢ b = ground (arith, e) in
        let old : level t ≡ suc (suc k) = sym (update_other level b t (suc l) ne) ∙ lt in
        elim (Bool-cases (t + 8 * j == table + 8 * i)) [
          | inr far ↦ labels-old t j k old hj special (ground (arith, far)) nz
          | inl same ↦
              let place : t + 8 * j ≡ table + 8 * i = (==_iff _ _).0 same in
              let ft = h.frame t (λ z. omega (arith, old, z)) in
              let ftab = h.frame table (λ z. omega (arith, at, z)) in
              let eqs = slot_inj t table j i ft ftab hj hi place in
              ap
                (λ a.
                  label_of (bit_and (memory_of level m table i b l h at hi fresh fb a) frame_mask))
                place
              ∙ ap label_of (
                  ap (λ a. bit_and a frame_mask) (memory-slot level m table i b l h at hi fresh fb)
                  ∙ (user_entry b fb).1)
              ∙ update_self label b (512 * label table + i)
              ∙ ap₂ (λ a c. 512 * label a + c) (sym eqs.0) (sym eqs.1)
              ∙ ap (λ a. 512 * a + j) (sym (update_other label b t _ ne))
        ]
  ]

  pub grow-Relabelled :
      Relabelled level label
        (level_of level m table i b l h at hi fresh fb)
        (memory_of level m table i b l h at hi fresh fb)
  unfolding label_of
  grow-Relabelled = record {
    label' = label_of;
    labels = grow-Labels;
    kept = λ t used. update_other label b t _ (λ e. used (ap level e ∙ fresh));
  }
