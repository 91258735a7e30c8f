-- ===== src/Paging/Map.antt =====
-- `k_map_v` makes a virtual address lead to a physical page and keeps every other translation.
use my_sbuos.Base.{
  ℕ, zero, suc, ◌+◌, ◌*◌, ◌%◌, ◌≤◌, ◌<◌, ◌≡◌, refl, sym, ap, ◌∙◌, ◌≢◌, ◌⊎◌, inl, inr, false, some,
  List, [], ◌∷◌, arith, ◌==◌, Bool-cases, ==_iff, length, update, update_self, update_other, subst,
}
use Prim.Native.Nat.{bit_and}
use my_sbuos.Paging.{Machine, table_index, leaf_entry, frame_mask, set_word, ensure_table, k_map_v}
use my_sbuos.Paging.Frames.{table_index-below, slot_inj}
use my_sbuos.Paging.Labels.{Labels, Relabelled, leaf-Labels, grow-Relabelled}
use my_sbuos.Paging.Walk.{walk, Levels, Supply, take_page-Taken, Supply-update}
use my_sbuos.Paging.Grow.{
  Extends, level_of, memory_of, memory-kept, entry-slot, grow-Levels, grow-Extends,
}

-- A table with the child of an entry made sure of.
record Ensured (level : ℕ → ℕ) (s : Machine) (bases : List ℕ) (slot l : ℕ) : Type 0 where
  after : Machine
  level' : ℕ → ℕ
  bases' : List ℕ
  result : ensure_table slot s ≡ some after
  levels : Levels level' after.memory
  extends : Extends level level'
  supply : Supply level' after.pages bases'
  few : length bases ≤ suc (length bases')
  relabelled :
      (label : ℕ → ℕ) → Labels level label s.memory → Relabelled level label level' after.memory
  child : (after.memory slot % 2 ≡ 1) × (level' (bit_and (after.memory slot) frame_mask) ≡ suc l)
  kept :
      (t i : ℕ)
      → level t ≢ 0
      → i < 512
      → s.memory (t + 8 * i) ≢ 0
      → after.memory (t + 8 * i) ≡ s.memory (t + 8 * i)

ensure_table-Ensured :
    (level : ℕ → ℕ) (s : Machine) (bases : List ℕ) (table i l : ℕ)
    → Levels level s.memory
    → level table ≡ suc (suc l)
    → i < 512
    → (l ≢ 2) ⊎ (i ≢ 510)
    → Supply level s.pages bases
    → 0 < length bases
    → Ensured level s bases (table + 8 * i) l
unfolding ensure_table level_of memory_of
ensure_table-Ensured level s [] table i l h at hi special u some_page = absurd (omega arith)
ensure_table-Ensured level s (b ∷ bs) table i l h at hi special u some_page =
    let slot = table + 8 * i in
    elim (Bool-cases (s.memory slot == 0)) [
      | inr used ↦
          let ne : s.memory slot ≢ 0 = ground (arith, used) in
          record {
            after = s;
            level' = level;
            bases' = b ∷ bs;
            result = rw used;
            levels = h;
            extends = λ t e. refl;
            supply = u;
            few = omega arith;
            relabelled = λ label lab. record { label' = label; labels = lab; kept = λ t e. refl };
            child = elim (h.entry table i l at hi special) [ inl e ↦ absurd (ne e) | inr c ↦ c ];
            kept = λ t j lt hj nz. refl;
          }
      | inl empty ↦
          let t = take_page-Taken level s b bs u in
          let fresh = u.fresh.0.0 in
          let fb = u.fresh.0.1 in
          let m' = memory_of level s.memory table i b l h at hi fresh fb in
          record {
            after = record s { pages = t.after; memory = m' };
            level' = level_of level s.memory table i b l h at hi fresh fb;
            bases' = bs;
            result = rw (empty, t.result);
            levels = grow-Levels level s.memory table i b l h at hi fresh fb;
            extends = grow-Extends level s.memory table i b l h at hi fresh fb;
            supply = Supply-update level t.after b (suc l) bs u.distinct.0 t.supply;
            few = omega arith;
            relabelled =
                λ label lab. grow-Relabelled level label s.memory table i b l h at hi fresh fb lab;
            child = entry-slot level s.memory table i b l h at hi fresh fb;
            kept = λ w j used hj nz.
                memory-kept level s.memory table i b l h at hi fresh fb w j (h.frame w used)
                  (λ e. used (ap level e ∙ fresh)) hj
                  (λ e. nz (ap s.memory e ∙ (==_iff _ _).0 empty));
          }
    ]

-- After `k_map_v` from a table of level `lvl`: the walk of `virt` ends at a word of a table `leaf`, which
-- holds the entry of `phys`. Every other word that was not 0 is kept.
pub record Mapped (lvl phys virt table : ℕ) (level : ℕ → ℕ) (s : Machine) (bases : List ℕ)
    : Type 0 where
  pub after : Machine
  pub level' : ℕ → ℕ
  pub bases' : List ℕ
  pub result : k_map_v lvl phys virt table s ≡ some after
  pub levels : Levels level' after.memory
  pub extends : Extends level level'
  pub supply : Supply level' after.pages bases'
  pub few : length bases + 1 ≤ length bases' + lvl
  pub relabelled :
      (label : ℕ → ℕ) → Labels level label s.memory → Relabelled level label level' after.memory
  pub leaf : ℕ
  pub leaf_level : level' leaf ≡ 1
  pub walked : walk lvl after.memory table virt ≡ some (leaf + 8 * table_index 1 virt)
  pub entry : after.memory (leaf + 8 * table_index 1 virt) ≡ leaf_entry phys
  pub kept :
      (t i : ℕ)
      → level t ≢ 0
      → i < 512
      → s.memory (t + 8 * i) ≢ 0
      → t + 8 * i ≢ leaf + 8 * table_index 1 virt
      → after.memory (t + 8 * i) ≡ s.memory (t + 8 * i)

-- One word of a table of level 1 has no part in the levels.
pub leaf-Levels :
    (level m : ℕ → ℕ) (leaf i v : ℕ)
    → Levels level m
    → level leaf ≡ 1
    → i < 512
    → Levels level (update m (leaf + 8 * i) v)
leaf-Levels level m leaf i v h one hi = record {
  frame = h.frame;
  entry = λ t j l lt hj special.
      let ft = h.frame t (λ e. omega (arith, lt, e)) in
      let fl = h.frame leaf (λ e. omega (arith, one, e)) in
      let far : t + 8 * j ≢ leaf + 8 * i =
        λ e. omega (arith, lt, one, ap level (slot_inj t leaf j i ft fl hj hi e).0) in
      rw (update_other m (leaf + 8 * i) (t + 8 * j) v far) (h.entry t j l lt hj special);
}

pub special_level :
    (l virt : ℕ) → table_index 4 virt ≢ 510 → (l ≢ 2) ⊎ (table_index (suc (suc l)) virt ≢ 510)
special_level l virt h = elim (Bool-cases (l == 2)) [
  | inl e ↦ inr (subst (λ k. table_index (suc (suc k)) virt ≢ 510) (sym ((==_iff _ _).0 e)) h)
  | inr e ↦ inl (ground (arith, e))
]

pub k_map_v-Mapped_at :
    (lvl phys virt table : ℕ) (level : ℕ → ℕ) (s : Machine) (bases : List ℕ)
    → Levels level s.memory
    → level table ≡ suc lvl
    → lvl < 4
    → table_index 4 virt ≢ 510
    → Supply level s.pages bases
    → lvl ≤ length bases
    → Mapped (suc lvl) phys virt table level s bases
unfolding k_map_v set_word
k_map_v-Mapped_at zero phys virt table level s bases h at low special u enough =
    let i = table_index 1 virt in
    record {
      after = set_word (table + 8 * i) (leaf_entry phys) s;
      level' = level;
      bases' = bases;
      result = refl;
      levels = leaf-Levels level s.memory table i (leaf_entry phys) h at (table_index-below 1 virt);
      extends = λ t e. refl;
      supply = u;
      few = omega arith;
      relabelled = λ label lab. record {
        label' = label;
        labels =
            leaf-Labels level label s.memory table i (leaf_entry phys) h at
              (table_index-below 1 virt) lab;
        kept = λ t e. refl;
      };
      leaf = table;
      leaf_level = at;
      walked = refl;
      entry = update_self s.memory (table + 8 * i) (leaf_entry phys);
      kept = λ t j used hj nz far.
          update_other s.memory (table + 8 * i) (t + 8 * j) (leaf_entry phys) far;
    }
k_map_v-Mapped_at (suc l) phys virt table level s bases h at low special u enough =
    let i = table_index (suc (suc l)) virt in
    let slot = table + 8 * i in
    let hi = table_index-below (suc (suc l)) virt in
    let e =
      ensure_table-Ensured level s bases table i l h at hi (special_level l virt special) u
        (omega arith) in
    let r =
      k_map_v-Mapped_at l phys virt (bit_and (e.after.memory slot) frame_mask) e.level' e.after
        e.bases' e.levels e.child.1 (omega arith) special e.supply (omega (arith, e.few)) in
    let used : level table ≢ 0 = λ z. omega (arith, at, z) in
    let at' : e.level' table ≡ suc (suc l) = e.extends table used ∙ at in
    let used' : e.level' table ≢ 0 = λ z. omega (arith, at', z) in
    let nz : e.after.memory slot ≢ 0 = λ z. omega (arith, e.child.0, z) in
    let leaf_frame = r.levels.frame r.leaf (λ z. omega (arith, r.leaf_level, z)) in
    let far : slot ≢ r.leaf + 8 * table_index 1 virt = λ q. omega (
      arith,
      at',
      r.leaf_level,
      r.extends table used',
      ap r.level'
          (slot_inj table r.leaf i (table_index 1 virt) (h.frame table used) leaf_frame hi
            (table_index-below 1 virt) q).0,
    ) in
    let same : r.after.memory slot ≡ e.after.memory slot = r.kept table i used' hi nz far in
    let present : (e.after.memory slot % 2 == 0) ≡ false = ground (arith, e.child.0) in
    record {
      after = r.after;
      level' = r.level';
      bases' = r.bases';
      result = rw (e.result) r.result;
      levels = r.levels;
      extends = λ t z. r.extends t (λ q. z (sym (e.extends t z) ∙ q)) ∙ e.extends t z;
      supply = r.supply;
      few = omega (arith, e.few, r.few);
      relabelled = λ label lab.
          let a = e.relabelled label lab in
          let c = r.relabelled a.label' a.labels in
          record {
            label' = c.label';
            labels = c.labels;
            kept = λ t z. c.kept t (λ q. z (sym (e.extends t z) ∙ q)) ∙ a.kept t z;
          };
      leaf = r.leaf;
      leaf_level = r.leaf_level;
      walked = rw (same, present, r.walked) refl;
      entry = r.entry;
      kept = λ t j z hj n q.
          let first = e.kept t j z hj n in
          r.kept t j (λ w. z (sym (e.extends t z) ∙ w)) hj (λ w. n (sym first ∙ w)) q ∙ first;
    }
